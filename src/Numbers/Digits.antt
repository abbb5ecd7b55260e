-- ===== src/Numbers/Digits.antt =====
-- The digits that FormatUnsigned writes, as ParseInteger reads them.
use uefipp.Base.{
  ℕ, zero, suc, ◌+◌, ◌*◌, ◌/◌, ◌%◌, ◌^◌, ◌≤◌, ◌<◌, ◌≡◌, refl, ap, ◌∙◌, ◌⊎◌, inl, inr, Bool, false,
  List, [], ◌∷◌, ◌++◌, length, replicate, All, ◌==◌, Bool-cases, arith,
}
use uefipp.Numbers.{digit_value, digit, put_digits, base_of, is_marker}

-- The bases that FormatUnsigned writes in.
abbrev pub IsBase : ℕ → Type 0
IsBase b = (b ≡ 2) ⊎ ((b ≡ 8) ⊎ ((b ≡ 10) ⊎ (b ≡ 16)))

pub base_of-IsBase : (c : ℕ) → IsBase (base_of c)
base_of-IsBase c = ground arith

pub base_small : (b : ℕ) → IsBase b → (2 ≤ b) × (b ≤ 16)
base_small b h = (ground arith, ground arith)

abbrev pub IsDigit : ℕ → ℕ → Type 0
IsDigit b c = digit_value c < b

-- The number that digits spell behind the number `m`.
abbrev pub numeral : ℕ → ℕ → List ℕ → ℕ
numeral b m [] = m
numeral b m (c ∷ cs) = numeral b (m * b + digit_value c) cs

pub digit_value-digit : (v : ℕ) (u : Bool) → v < 16 → digit_value (digit v u) ≡ v
unfolding digit_value digit
digit_value-digit v u h = ground arith

-- A byte that is a digit is no sign, no separator and no mark of a base.
pub digit_value_sign :
    (c : ℕ)
    → digit_value c < 16
    → ((c == 0x2b) ≡ false) × ((c == 0x2d) ≡ false) × ((c == 0x5f) ≡ false)
unfolding digit_value
digit_value_sign c h = (ground arith, ground arith, ground arith)

pub is_marker_digit : (b c : ℕ) → IsBase b → digit_value c < b → is_marker b c ≡ false
unfolding digit_value
is_marker_digit b c h d = elim h [
  | inl e ↦ ground arith
  | inr (inl e) ↦ ground arith
  | inr (inr (inl e)) ↦ ground arith
  | inr (inr (inr e)) ↦ ground arith
]

split_number :
    (b v : ℕ) → IsBase b → ((v / b) * b + v % b ≡ v) × (v % b < b) × (v % b < 16) × (v / b ≤ v / 2)
split_number b v h = elim h [
  | inl e ↦ rw e (omega arith, omega arith, omega arith, omega arith)
  | inr (inl e) ↦ rw e (omega arith, omega arith, omega arith, omega arith)
  | inr (inr (inl e)) ↦ rw e (omega arith, omega arith, omega arith, omega arith)
  | inr (inr (inr e)) ↦ rw e (omega arith, omega arith, omega arith, omega arith)
]

zero_times : (b : ℕ) → 0 * b ≡ 0
zero_times b = omega arith

-- The digits that the loop puts in front of others.
pub put_digits-numeral :
    (n b : ℕ) (u : Bool) (v : ℕ) (ds : List ℕ)
    → IsBase b
    → v < 2 ^ n
    → numeral b 0 (put_digits n b u v ds) ≡ numeral b v ds
unfolding put_digits
put_digits-numeral zero b u v ds h small = let none : v ≡ 0 = omega arith in rw none refl
put_digits-numeral (suc n) b u v ds h small =
    let (whole, _, low, half) = split_number b v h in
    let same : digit_value (digit (v % b) u) ≡ v % b = digit_value-digit (v % b) u low in
    elim (Bool-cases (v / b == 0)) [
      | inl e ↦
          let all : 0 * b + digit_value (digit (v % b) u) ≡ v =
            let none : v / b ≡ 0 = ground arith in
            let product : (v / b) * b ≡ 0 = ap (λ (q : ℕ). q * b) none ∙ zero_times b in
            omega (arith, same, whole, product) in
          rw e (ap (λ (m : ℕ). numeral b m ds) all)
      | inr e ↦
          let all : (v / b) * b + digit_value (digit (v % b) u) ≡ v =
            ap (λ (t : ℕ). (v / b) * b + t) same ∙ whole in
          rw e (
            put_digits-numeral n b u (v / b) (digit (v % b) u ∷ ds) h (omega arith)
            ∙ ap (λ (m : ℕ). numeral b m ds) all)
    ]

pub put_digits-IsDigit :
    (n b : ℕ) (u : Bool) (v : ℕ) (ds : List ℕ)
    → IsBase b
    → All (IsDigit b) ds
    → All (IsDigit b) (put_digits n b u v ds)
unfolding put_digits
put_digits-IsDigit zero b u v ds h all = all
put_digits-IsDigit (suc n) b u v ds h all =
    let (_, below, low, _) = split_number b v h in
    let first : IsDigit b (digit (v % b) u) = rw (digit_value-digit (v % b) u low) below in
    elim (Bool-cases (v / b == 0)) [
      | inl e ↦ rw e (first, all)
      | inr e ↦ rw e (put_digits-IsDigit n b u (v / b) (digit (v % b) u ∷ ds) h (first, all))
    ]

put_digits_longer :
    (n b : ℕ) (u : Bool) (v : ℕ) (ds : List ℕ) → length ds ≤ length (put_digits n b u v ds)
unfolding put_digits
put_digits_longer zero b u v ds = omega arith
put_digits_longer (suc n) b u v ds = elim (Bool-cases (v / b == 0)) [
  | inl e ↦ rw e (omega arith)
  | inr e ↦ rw e (omega (arith, put_digits_longer n b u (v / b) (digit (v % b) u ∷ ds)))
]

pub length-put_digits :
    (n b : ℕ) (u : Bool) (v : ℕ) (ds : List ℕ) → 0 < length (put_digits (suc n) b u v ds)
unfolding put_digits
length-put_digits n b u v ds = elim (Bool-cases (v / b == 0)) [
  | inl e ↦ rw e (omega arith)
  | inr e ↦ rw e (omega (arith, put_digits_longer n b u (v / b) (digit (v % b) u ∷ ds)))
]

-- Zeros in front of digits are digits, and do not change the number.
pub numeral_zeros : (n b : ℕ) (ds : List ℕ) → numeral b 0 (replicate n 0x30 ++ ds) ≡ numeral b 0 ds
unfolding digit_value
numeral_zeros zero b ds = refl
numeral_zeros (suc n) b ds =
    let same : 0 * b + 0 ≡ 0 = omega arith in
    ap (λ (m : ℕ). numeral b m (replicate n 0x30 ++ ds)) same ∙ numeral_zeros n b ds

pub IsDigit-zeros :
    (n b : ℕ) (ds : List ℕ)
    → IsBase b
    → All (IsDigit b) ds
    → All (IsDigit b) (replicate n 0x30 ++ ds)
unfolding digit_value
IsDigit-zeros zero b ds h all = all
IsDigit-zeros (suc n) b ds h all =
    let some_base : 0 < b = ground arith in (some_base, IsDigit-zeros n b ds h all)
