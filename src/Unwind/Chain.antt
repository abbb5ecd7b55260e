-- ===== src/Unwind/Chain.antt =====
-- The rounds of VirtualUnwind on chains of unwind information that end.
use uefipp.Base.{
  ℕ, zero, suc, ◌+◌, ◌-◌, ◌*◌, ◌%◌, ◌^◌, ◌≤◌, ◌≡◌, ◌≢◌, ◌⊎◌, inl, inr, refl, Bool, true, false, not,
  ◌&&◌, ◌||◌, Option, none, some, Expected, value, unexpected, ◌>>=◌, ◌>>◌, require, arith,
  Bool-cases, leb, ltb, ◌==◌, bit_and, if◌then◌else◌,
}
use uefipp.Pe.{Memory}
use uefipp.Unwind.Codes.{
  UnwindError, UnwindStop, failed, out_of_fuel, Context, Header, invalid_stack_progress,
}
use uefipp.Unwind.Codes.Loop.{run_codes_ends}
use uefipp.Unwind.Lookup.{rva_of}
use uefipp.Unwind.{
  RuntimeFunction, runtime_function_at, Unwinder, lookup, valid, contains, header_at, Frame, popped,
  run_chain, virtual_unwind, range_valid,
}
use uefipp.Unwind.Walk.{is_last, chained_offset}

value_ends : (f : Frame) → ◌≢◌ {A = Expected UnwindStop Frame} (value f) (unexpected out_of_fuel)
value_ends f = λ p. cc

require_ends {ℓ} :
    {A : Type ℓ} (b : Bool) (e : UnwindError) (k : Expected UnwindStop A)
    → k ≢ unexpected out_of_fuel
    → (require b (failed e) >> k) ≢ unexpected out_of_fuel
require_ends true e k h = h
require_ends false e k h = λ p. cc

bind_ends {ℓ κ} :
    {A : Type ℓ} {B : Type κ} (r : Expected UnwindStop A) (k : A → Expected UnwindStop B)
    → r ≢ unexpected out_of_fuel
    → ((a : A) → k a ≢ unexpected out_of_fuel)
    → (r >>= k) ≢ unexpected out_of_fuel
bind_ends (value a) k h f = f a
bind_ends (unexpected (failed e)) k h f = λ p. cc
bind_ends (unexpected out_of_fuel) k h f = absurd (h refl)

module _ (m : Memory) (u : Unwinder) where
  -- The chain that starts at a function's unwind information has at most n links.
  abbrev pub Ends : ℕ → RuntimeFunction → Type 0
  Ends zero f = ⊥
  Ends (suc n) f =
      (is_last m u f.unwind_info_address ≡ true)
      ⊎ Ends n (runtime_function_at m (u.base + chained_offset m u f.unwind_info_address))

  link_ends :
      (b : Bool) (c : Context) (k : Expected UnwindStop Context)
      → (b ≡ false → k ≢ unexpected out_of_fuel)
      → elim b [ true ↦ value c | false ↦ k ] ≢ unexpected out_of_fuel
  link_ends true c k h = λ p. cc
  link_ends false c k h = h refl

  run_chain-Ends :
      (n fuel control : ℕ) (first : Bool) (f : RuntimeFunction) (c : Context)
      → Ends n f
      → n ≤ fuel
      → run_chain m u fuel f control first c ≢ unexpected out_of_fuel
  unfolding run_chain
  run_chain-Ends zero fuel control first f c ends le = absurd ends
  run_chain-Ends (suc n) zero control first f c ends le = absurd (omega arith)
  run_chain-Ends (suc n) (suc fuel) control first f c ends le =
      let info : ℕ = f.unwind_info_address in
      let header : Header = header_at m (u.base + info) in
      let offset : ℕ = if first then (control + 2 ^ 32 - f.begin_address) % 2 ^ 32 else 0 in
      let undone =
        run_codes_ends m (u.base + (info + 4)) header
          (first && (first && leb offset header.prolog_size)) offset (suc header.code_count) 0 c
          (omega arith) (omega arith) in
      elim (Bool-cases (not (info == 0) && ltb info u.image_size)) [
        | inr n ↦ rw n (λ p. cc)
        | inl y ↦ elim (Bool-cases (bit_and header.version_and_flags 0x07 == 1)) [
          | inr n ↦ rw (y, n) (λ p. cc)
          | inl v ↦
              elim (Bool-cases (range_valid (info + 4) (header.code_count * 2) u.image_size)) [
                | inr n ↦ rw (y, v, n) (λ p. cc)
                | inl r ↦
                    rw (y, v, r)
                      (bind_ends _ _ undone λ unwound.
                        link_ends (is_last m u info) unwound _ λ goes_on. require_ends _ _ _ (
                          run_chain-Ends n fuel control false
                            (runtime_function_at m (u.base + chained_offset m u info)) unwound
                            (elim ends [ inl last ↦ cc | inr more ↦ more ]) (omega arith)))
              ]
        ]
      ]

  -- If the chain of the function that covers the address ends, so does VirtualUnwind, with a round
  -- for each link.
  pub virtual_unwind-Ends :
      (n fuel : ℕ) (current : Context)
      → ((f : RuntimeFunction) → lookup m u current.rip ≡ some f → Ends n f)
      → n ≤ fuel
      → virtual_unwind m u fuel current ≢ unexpected out_of_fuel
  unfolding virtual_unwind
  virtual_unwind-Ends n fuel current ends le =
      elim (Bool-cases
        (not (valid u) || current.rip == 0 || current.rsp == 0 || not (contains u current.rip))) [
          | inl y ↦ rw y (λ p. cc)
          | inr x ↦ rw x (go (lookup m u current.rip) ends)
        ]
    where
      go :
          (o : Option RuntimeFunction)
          → ((f : RuntimeFunction) → o ≡ some f → Ends n f)
          → ◌≢◌ {A = Expected UnwindStop Frame}
              (elim o [
                | none ↦
                    value (record { caller = popped m current; return_address_slot = current.rsp })
                | some function ↦ do
                  unwound ← run_chain m u fuel function (rva_of u current.rip) true current
                  require (ltb current.rsp (popped m unwound).rsp) (failed invalid_stack_progress)
                  value (record { caller = popped m unwound; return_address_slot = unwound.rsp })
              ])
              (unexpected out_of_fuel)
      go none h = λ p. cc
      go (some f) h =
          bind_ends _ _ (run_chain-Ends n fuel (rva_of u current.rip) true f current (h f refl) le)
            λ unwound.
              require_ends _ _ _ (
                value_ends
                  (record { caller = popped m unwound; return_address_slot = unwound.rsp }))
