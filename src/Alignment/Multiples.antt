-- ===== src/Alignment/Multiples.antt =====
-- AlignDown and AlignUp of Bit.hpp against multiples of the alignment.
use uefipp.Base.{
  Bool-cases, inl, inr, true, false, ltb, ℕ, zero, suc, ◌+◌, ◌-◌, ◌*◌, ◌^◌, ◌≤◌, ◌<◌, ◌≡◌, sym, ap,
  ◌∙◌, true, false, bit_and, arith, ltb,
}
use uefipp.Base.Bits.{and_le, above}
use uefipp.Alignment.{
  is_power_of_two, high_mask, try_align_down, try_align_up, align_down, align_up,
}
use uefipp.Alignment.Powers.{
  two_to, two_to_lt, power_of_two, hollow, hollow_value, multiple, clear_low, multiple-above,
}

multiple_product : (k q : ℕ) → multiple k q ≡ q * two_to k
multiple_product zero q = omega arith
multiple_product (suc k) q = omega (arith, multiple_product k q)

is_power : (a : ℕ) → is_power_of_two a ≡ true → (k : ℕ) × (a ≡ two_to k)
unfolding is_power_of_two
is_power a h =
    let pos : 0 < a = ground arith in
    let alone : bit_and a (a - 1) ≡ 0 = ground arith in power_of_two a a (omega arith) pos alone

positive : (a : ℕ) → is_power_of_two a ≡ true → 0 < a
unfolding is_power_of_two
positive a h = ground arith

-- What the mask of an alignment leaves of a number.
masked :
    (v a : ℕ)
    → is_power_of_two a ≡ true
    → a < 2 ^ 64
    → v < 2 ^ 64
    → (bit_and v (high_mask a) ≤ v)
      × (v < bit_and v (high_mask a) + a)
      × ((q : ℕ) × (bit_and v (high_mask a) ≡ q * a))
masked v a h small fits =
    let (k, e) = is_power a h in
    let pos = positive a h in
    let below : k < 64 = two_to_lt k 64 (omega arith) in
    let mask : hollow k (64 - k) + two_to k ≡ 2 ^ 64 = hollow_value k (64 - k) 64 (omega arith) in
    let same : high_mask a ≡ hollow k (64 - k) = omega arith in
    let cleared : bit_and v (high_mask a) ≡ multiple k (above k v) =
      ap (λ (t : ℕ). bit_and v t) same ∙ clear_low k (64 - k) 64 v (omega arith) fits in
    let (under, over) = multiple-above k v in
    (
      omega arith,
      omega arith,
      (above k v, cleared ∙ multiple_product k (above k v) ∙ ap (λ (t : ℕ). above k v * t) (sym e)),
    )

-- AlignDown gives the greatest multiple of a power of two that is not above the number.
pub align_down_lem :
    (v a : ℕ)
    → is_power_of_two a ≡ true
    → a < 2 ^ 64
    → v < 2 ^ 64
    → (align_down v a ≤ v) × (v < align_down v a + a) × ((q : ℕ) × (align_down v a ≡ q * a))
unfolding align_down try_align_down
align_down_lem v a h small fits = rw h (masked v a h small fits)

-- AlignUp gives the least multiple of a power of two that is not below the number, where the number
-- with the alignment added to it stays in 64 bits.
pub align_up_lem :
    (v a : ℕ)
    → is_power_of_two a ≡ true
    → v + a ≤ 2 ^ 64
    → a < 2 ^ 64
    → (v ≤ align_up v a) × (align_up v a < v + a) × ((q : ℕ) × (align_up v a ≡ q * a))
unfolding align_up try_align_up
align_up_lem v a h fits small =
    let pos : 0 < a = positive a h in
    let room : ltb (2 ^ 64 - 1 - (a - 1)) v ≡ false = ground arith in
    let (under, over, whole) = masked (v + (a - 1)) a h small (omega arith) in
    rw (h, room) (omega arith, omega arith, whole)

-- What AlignUp gives is a number of 64 bits.
pub align_up_fits : (v a : ℕ) → align_up v a < 2 ^ 64
unfolding align_up try_align_up
align_up_fits v a = elim (Bool-cases (is_power_of_two a)) [
  | inr n ↦ rw n (omega arith)
  | inl y ↦ rw y (elim (Bool-cases (ltb (2 ^ 64 - 1 - (a - 1)) v)) [
    | inl over ↦ rw over (omega arith)
    | inr fits ↦ rw fits (omega (arith, and_le (v + (a - 1)) (high_mask a)))
  ])
]
