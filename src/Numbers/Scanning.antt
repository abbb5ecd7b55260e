-- ===== src/Numbers/Scanning.antt =====
-- ParseInteger on digits behind a prefix and a sign.
use uefipp.Base.{
  ℕ, zero, suc, ◌+◌, ◌-◌, ◌*◌, ◌/◌, ◌%◌, ◌^◌, ◌≤◌, ◌<◌, ◌≡◌, refl, ap, ◌∙◌, inl, inr, Bool, true,
  false, ◌&&◌, List, [], ◌∷◌, ◌++◌, length, get_or, All, leb, ltb, ◌==◌, if◌then◌else◌, Bool-cases,
  value, arith,
}
use uefipp.Numbers.{
  ParseOptions, digit_value, taken, round, scan_digits, radix, is_marker, parse_magnitude,
}
use uefipp.Numbers.Digits.{base_small, IsBase, IsDigit, numeral, digit_value_sign, is_marker_digit}

numeral_above : (b m : ℕ) (cs : List ℕ) → IsBase b → m ≤ numeral b m cs
numeral_above b m [] h = omega arith
numeral_above b m (c ∷ cs) h =
    let more : m ≤ m * b + digit_value c = elim h [
      | inl e ↦ rw e (omega arith)
      | inr (inl e) ↦ rw e (omega arith)
      | inr (inr (inl e)) ↦ rw e (omega arith)
      | inr (inr (inr e)) ↦ rw e (omega arith)
    ] in
    omega (arith, more, numeral_above b (m * b + digit_value c) cs h)

-- The test for overflow passes where the next magnitude stays in 64 bits.
room_for_digit : (b m d : ℕ) → IsBase b → m * b + d < 2 ^ 64 → ltb ((2 ^ 64 - 1 - d) / b) m ≡ false
room_for_digit b m d h = elim h [
  | inl e ↦ rw e (λ k. ground arith)
  | inr (inl e) ↦ rw e (λ k. ground arith)
  | inr (inr (inl e)) ↦ rw e (λ k. ground arith)
  | inr (inr (inr e)) ↦ rw e (λ k. ground arith)
]

round_digit :
    (o : ParseOptions) (b c p m : ℕ) (saw sep : Bool)
    → IsBase b
    → IsDigit b c
    → m * b + digit_value c < 2 ^ 64
    → round o b c p m saw sep ≡ taken (m * b + digit_value c)
unfolding round
round_digit o b c p m saw sep h d fits =
    let (_, _, plain) = digit_value_sign c (omega (arith, base_small b h)) in
    let inside : leb b (digit_value c) ≡ false = ground arith in
    let room = room_for_digit b m (digit_value c) h fits in
    let kept : (m * b + digit_value c) % 2 ^ 64 ≡ m * b + digit_value c = omega arith in
    elim (Bool-cases o.allow_separators) [
      | inl a ↦ rw (a, plain, inside, room, kept) refl
      | inr a ↦ rw (a, inside, room, kept) refl
    ]

scan_behind :
    (o : ParseOptions) (b : ℕ) (cs : List ℕ) (p m : ℕ)
    → IsBase b
    → All (IsDigit b) cs
    → numeral b m cs < 2 ^ 64
    → scan_digits o b cs p m true false ≡ value (numeral b m cs, p + length cs)
unfolding scan_digits
scan_behind o b [] p m h all fits =
    let same : p ≡ p + 0 = omega arith in ap (λ (q : ℕ). value (m, q)) same
scan_behind o b (c ∷ cs) p m h (d, ds) fits =
    let below = numeral_above b (m * b + digit_value c) cs h in
    let moved : p + 1 + length cs ≡ p + suc (length cs) = omega arith in
    rw (scan_digits, round_digit o b c p m true false h d (omega arith))
      (scan_behind o b cs (p + 1) (m * b + digit_value c) h ds fits
        ∙ ap (λ (q : ℕ). value (numeral b (m * b + digit_value c) cs, q)) moved)

-- Digits are read to their end, as the number that they spell.
pub scan_digits-numeral :
    (o : ParseOptions) (b c : ℕ) (cs : List ℕ) (p : ℕ)
    → IsBase b
    → All (IsDigit b) (c ∷ cs)
    → numeral b 0 (c ∷ cs) < 2 ^ 64
    → scan_digits o b (c ∷ cs) p 0 false false ≡ value (numeral b 0 (c ∷ cs), p + suc (length cs))
unfolding scan_digits
scan_digits-numeral o b c cs p h (d, ds) fits =
    let below = numeral_above b (0 * b + digit_value c) cs h in
    let moved : p + 1 + length cs ≡ p + suc (length cs) = omega arith in
    rw (scan_digits, round_digit o b c p 0 false false h d (omega arith))
      (scan_behind o b cs (p + 1) (0 * b + digit_value c) h ds fits
        ∙ ap (λ (q : ℕ). value (numeral b (0 * b + digit_value c) cs, q)) moved)

several : (n : ℕ) → ltb 1 (suc (suc n)) ≡ true
several n = ground arith

not_empty : (n : ℕ) → (suc n == 0) ≡ false
not_empty n = ground arith

radix_given :
    (b : ℕ) (rest : List ℕ)
    → IsBase b
    → radix b rest ≡ (
      b,
      if ltb 1 (length rest) && (get_or rest 0 0 == 0x30) && is_marker b (get_or rest 1 0)
          then 2
          else 0,
    )
unfolding radix
radix_given zero rest h = absurd (omega (arith, base_small 0 h))
radix_given (suc b) rest h = refl

radix_digits : (b : ℕ) (ds : List ℕ) → IsBase b → All (IsDigit b) ds → radix b ds ≡ (b, 0)
radix_digits b [] h all = radix_given b [] h
radix_digits b (c ∷ []) h all = radix_given b (c ∷ []) h
radix_digits b (c ∷ d ∷ ds) h (_, (below, _)) =
    radix_given b (c ∷ d ∷ ds) h ∙ elim (Bool-cases (c == 0x30)) [
      | inl e ↦ rw (e, is_marker_digit b d h below, several (length ds)) refl
      | inr e ↦ rw (e, several (length ds)) refl
    ]

radix_marked :
    (b m : ℕ) (ds : List ℕ) → IsBase b → is_marker b m ≡ true → radix b (0x30 ∷ m ∷ ds) ≡ (b, 2)
radix_marked b m ds h e = radix_given b (0x30 ∷ m ∷ ds) h ∙ rw (e, several (length ds)) refl

-- What stands in front of the digits: a mark of their base, or nothing.
pub data Marked (b : ℕ) : List ℕ → Type 0 where
  unmarked : Marked b []
  marked : (c : ℕ) → is_marker b c ≡ true → Marked b (0x30 ∷ c ∷ [])

-- The part of a text behind its sign is read as the number that its digits spell.
pub parse_magnitude-numeral :
    (o : ParseOptions) (p : ℕ) (pre ds : List ℕ)
    → IsBase o.base
    → Marked o.base pre
    → All (IsDigit o.base) ds
    → 0 < length ds
    → numeral o.base 0 ds < 2 ^ 64
    → (q : ℕ) × (parse_magnitude o p (pre ++ ds) ≡ value (numeral o.base 0 ds, q))
unfolding parse_magnitude
parse_magnitude-numeral o p pre [] h mark all some fits = absurd (omega arith)
parse_magnitude-numeral o p [] (c ∷ cs) h mark all some fits =
    let (low, high) = base_small o.base h in
    let big : ltb o.base 2 ≡ false = ground arith in
    let small : ltb 36 o.base ≡ false = ground arith in
    (
      p + 0 + suc (length cs),
      rw (not_empty (length cs), radix_digits o.base (c ∷ cs) h all, big, small)
          (scan_digits-numeral o o.base c cs (p + 0) h all fits),
    )
parse_magnitude-numeral o p (_ ∷ _ ∷ []) (c ∷ cs) h (marked m e) all some fits =
    let (low, high) = base_small o.base h in
    let big : ltb o.base 2 ≡ false = ground arith in
    let small : ltb 36 o.base ≡ false = ground arith in
    (
      p + 2 + suc (length cs),
      rw (not_empty (suc (suc (length cs))), radix_marked o.base m (c ∷ cs) h e, big, small)
          (scan_digits-numeral o o.base c cs (p + 2) h all fits),
    )
parse_magnitude-numeral o p (_ ∷ []) (c ∷ cs) h mark all some fits = elim mark [ ]
parse_magnitude-numeral o p (_ ∷ (_ ∷ (_ ∷ _))) (c ∷ cs) h mark all some fits = elim mark [ ]
