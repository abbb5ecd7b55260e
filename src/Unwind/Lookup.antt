-- ===== src/Unwind/Lookup.antt =====
-- LookupRuntimeFunction: the binary search over the function table.
use uefipp.Base.{
  ℕ, zero, suc, ◌+◌, ◌-◌, ◌/◌, ◌%◌, ◌^◌, ◌<◌, ◌≤◌, ◌≡◌, refl, ap, true, not, ◌||◌, Option, none,
  some, some, arith, Bool-cases, inl, inr, ltb, leb, ◌==◌,
}
use uefipp.Pe.{Memory}
use uefipp.Unwind.{RuntimeFunction, search_table, Unwinder, lookup, table, valid, contains}

-- The function covers the offset.
abbrev pub Covers : RuntimeFunction → ℕ → Type 0
Covers f rva = (f.begin_address ≤ rva) × (rva < f.end_address)

-- None of the first n functions ends before it starts, and each starts where those before it have
-- ended.
abbrev pub IsOrdered : (ℕ → RuntimeFunction) → ℕ → Type 0
IsOrdered t n =
    ((i : ℕ) → i < n → (t i).begin_address ≤ (t i).end_address)
    × ((i j : ℕ) → i < j → j < n → (t i).end_address ≤ (t j).begin_address)

module _ (t : ℕ → RuntimeFunction) where
  search_sound :
      (fuel rva first count i : ℕ)
      → search_table t fuel rva first count ≡ some i
      → (first ≤ i) × (i < first + count) × Covers (t i) rva
  unfolding search_table
  search_sound zero rva first count i e = cc
  search_sound (suc fuel) rva first count i e = ground (
    arith,
    search_sound fuel rva first (count / 2) i,
    search_sound fuel rva (first + count / 2 + 1) (count - (count / 2 + 1)) i,
  )

  search_complete :
      (n fuel rva first count k : ℕ)
      → IsOrdered t n
      → first + count ≤ n
      → count < fuel
      → first ≤ k
      → k < first + count
      → Covers (t k) rva
      → search_table t fuel rva first count ≡ some k
  unfolding search_table
  search_complete n zero rva first count k ord fits enough lo hi cover = absurd (omega arith)
  search_complete n (suc fuel) rva first count k ord fits enough lo hi (from, to) =
      let step : ℕ = count / 2 in
      let index : ℕ = first + step in
      elim (Bool-cases (count == 0)) [
        | inl z ↦ absurd (ground arith)
        | inr z ↦ rw z (elim (Bool-cases (ltb rva (t index).begin_address)) [
          | inl a ↦ rw a (
              search_complete n fuel rva first step k ord (omega arith) (ground arith) lo
                (ground (arith, ord.0 index (ground arith), ord.1 index k)) (from, to))
          | inr a ↦ rw a (elim (Bool-cases (leb (t index).end_address rva)) [
            | inl b ↦ rw b (
                search_complete n fuel rva (index + 1) (count - (step + 1)) k ord (ground arith)
                  (ground arith) (ground (arith, ord.0 index (ground arith), ord.1 k index))
                  (ground arith) (from, to))
            | inr b ↦ rw b (ap some (ground (arith, ord.1 index k, ord.1 k index)))
          ])
        ])
      ]

  -- Fuel above the number of functions makes no difference.
  pub search_fuel :
      (fuel more rva first count : ℕ)
      → count < fuel
      → count < more
      → search_table t fuel rva first count ≡ search_table t more rva first count
  unfolding search_table
  search_fuel zero more rva first count h k = absurd (omega arith)
  search_fuel (suc fuel) zero rva first count h k = absurd (omega arith)
  search_fuel (suc fuel) (suc more) rva first count h k = elim (Bool-cases (count == 0)) [
    | inl y ↦ rw y
    | inr n ↦
        let some_left : 0 < count = ground arith in
        rw (
          n,
          search_fuel fuel more rva first (count / 2) (omega arith) (omega arith),
          search_fuel fuel more rva (first + count / 2 + 1) (count - (count / 2 + 1)) (omega arith)
              (omega arith),
        )
  ]

-- The offset of an address in the image, as a 32-bit number.
abbrev pub rva_of : Unwinder → ℕ → ℕ
rva_of u rip = (rip - u.base) % 2 ^ 32

module _ (m : Memory) (u : Unwinder) (rip : ℕ) where
  -- A function that the lookup returns stands in the table and covers the address, however the
  -- table is ordered.
  pub lookup_sound :
      (f : RuntimeFunction)
      → lookup m u rip ≡ some f
      → (i : ℕ) × (i < u.function_count) × (f ≡ table m u i) × Covers f (rva_of u rip)
  unfolding lookup
  lookup_sound f e = elim (Bool-cases (not (valid u) || not (contains u rip))) [
    | inl y ↦ cc
    | inr n ↦
        go (search_table (table m u) (suc u.function_count) (rva_of u rip) 0 u.function_count) refl
          (rw n at e)
  ]
    where
      go :
          (r : Option ℕ)
          → search_table (table m u) (suc u.function_count) (rva_of u rip) 0 u.function_count ≡ r
          → elim r [ none ↦ none | some i ↦ some (table m u i) ] ≡ some f
          → (i : ℕ) × (i < u.function_count) × (f ≡ table m u i) × Covers f (rva_of u rip)
      go none s h = cc
      go (some i) s h =
          let (lo, hi, cover) =
            search_sound (table m u) (suc u.function_count) (rva_of u rip) 0 u.function_count i s in
          let same : f ≡ table m u i = cc in (i, omega arith, same, rw same cover)

  -- In an ordered table of a valid unwinder the lookup of an address inside the image finds the
  -- function that covers it.
  pub lookup_complete :
      (k : ℕ)
      → valid u ≡ true
      → contains u rip ≡ true
      → IsOrdered (table m u) u.function_count
      → k < u.function_count
      → Covers (table m u k) (rva_of u rip)
      → lookup m u rip ≡ some (table m u k)
  unfolding lookup
  lookup_complete k v c ord h cover =
      let found =
        search_complete (table m u) u.function_count (suc u.function_count) (rva_of u rip) 0
          u.function_count k ord (omega arith) (omega arith) (omega arith) (omega arith) cover in
      rw (v, c) (rw found)
