-- ===== src/Numbers/Exact.antt =====
-- The loop of ParseInteger over the digits, in any base.
use uefipp.Base.{
  ℕ, ◌+◌, ◌-◌, ◌*◌, ◌/◌, ◌%◌, ◌^◌, ◌≤◌, ◌<◌, ◌≡◌, refl, sym, ap, ◌∙◌, inl, inr, Bool, true, false,
  not, ◌&&◌, ◌||◌, List, [], ◌∷◌, length, get_or, drop, All, leb, ltb, ◌==◌, if◌then◌else◌,
  Bool-cases, Expected-cases, Expected, value, unexpected, arith,
}
use mathlib.Core.Path.{subst}
use native.Mathlib.Nat.{le-div_iff_mul-le}
use uefipp.Io.{Error, ErrorCode, Operation, semantic}
use uefipp.Numbers.{
  Width, radix, has_sign, parse_magnitude, parse_integer, ParseOptions, parse_error, digit_value,
  round, scan_digits,
}
use uefipp.Numbers.Values.{failed_not, IsValue, converted-IsValue}
use uefipp.Numbers.Digits.{IsDigit, numeral}

-- The text without its separators, where they are allowed.
abbrev pub unseparated : Bool → List ℕ → List ℕ
unseparated allowed [] = []
unseparated allowed (c ∷ cs) =
    let rest : List ℕ = unseparated allowed cs in if allowed && (c == 0x5f) then rest else c ∷ rest

digit_value_small : (c : ℕ) → digit_value c < 2 ^ 64
unfolding digit_value
digit_value_small c = ground arith

-- Where the test for overflow passes, the next magnitude stays in 64 bits.
no_wrap :
    (b m d : ℕ)
    → 0 < b
    → d < 2 ^ 64
    → ltb ((2 ^ 64 - 1 - d) / b) m ≡ false
    → (m * b + d) % 2 ^ 64 ≡ m * b + d
no_wrap b m d pos small passes =
    let quotient : m ≤ (2 ^ 64 - 1 - d) / b = ground arith in
    let product : m * b ≤ 2 ^ 64 - 1 - d = (le-div_iff_mul-le pos).0 quotient in omega arith

magnitude : Expected Error (ℕ × ℕ) → ℕ
magnitude (value read) = read.0
magnitude (unexpected e) = 0

-- A text that the loop reads whole consists of digits of the base and of separators that the
-- options allow, and the magnitude is the number that the digits spell: it has not wrapped.
pub scan_digits_exact :
    (o : ParseOptions) (b : ℕ) (cs : List ℕ) (p m : ℕ) (saw sep : Bool) (n q : ℕ)
    → 0 < b
    → o.require_entire_token ≡ true
    → m < 2 ^ 64
    → scan_digits o b cs p m saw sep ≡ value (n, q)
    → All (IsDigit b) (unseparated o.allow_separators cs)
      × (n ≡ numeral b m (unseparated o.allow_separators cs))
      × (n < 2 ^ 64)
unfolding scan_digits magnitude round
scan_digits_exact o b [] p m saw sep n q pos whole fits h = elim (Bool-cases (not saw || sep)) [
  | inl e ↦ failed_not (parse_error ErrorCode.invalid_format p) (n, q) (rw e refl) h
  | inr e ↦ let same : n ≡ m = ap magnitude (sym h) ∙ (rw e refl) in (tt, same, omega (arith, same))
]
scan_digits_exact o b (c ∷ cs) p m saw sep n q pos whole fits h =
    elim (Bool-cases (o.allow_separators && (c == 0x5f))) [
      | inl e ↦ elim (Bool-cases (not saw || sep)) [
        | inl bad ↦
            failed_not (parse_error ErrorCode.invalid_format p) (n, q)
              (rw (scan_digits, round, e, bad) refl) h
        | inr good ↦
            let rest : scan_digits o b cs (p + 1) m saw true ≡ value (n, q) =
              sym (rw (scan_digits, round, e, good) refl) ∙ h in
            rw e (scan_digits_exact o b cs (p + 1) m saw true n q pos whole fits rest)
      ]
      | inr e ↦ elim (Bool-cases (leb b (digit_value c))) [
        | inl big ↦
            failed_not (parse_error ErrorCode.invalid_format p) (n, q)
              (rw (scan_digits, round, e, big, whole) refl) h
        | inr small ↦ elim (Bool-cases (ltb ((2 ^ 64 - 1 - digit_value c) / b) m)) [
          | inl over ↦
              failed_not (parse_error ErrorCode.overflow p) (n, q)
                (rw (scan_digits, round, e, small, over) refl) h
          | inr room ↦
              let next : ℕ = m * b + digit_value c in
              let kept = no_wrap b m (digit_value c) pos (digit_value_small c) room in
              let rest : scan_digits o b cs (p + 1) next true false ≡ value (n, q) =
                sym (rw (scan_digits, round, e, small, room, kept) refl) ∙ h in
              let (all, number, bound) =
                scan_digits_exact o b cs (p + 1) next true false n q pos whole (omega arith) rest in
              let first : IsDigit b c = ground arith in rw e ((first, all), number, bound)
        ]
      ]
    ]

-- What stands behind the sign, and the digits behind the prefix of the base.
abbrev pub behind_sign : ParseOptions → List ℕ → List ℕ
behind_sign o text = drop (if has_sign o text then 1 else 0) text

abbrev pub base_read : ParseOptions → List ℕ → ℕ
base_read o text = (radix o.base (behind_sign o text)).0

abbrev pub digits_read : ParseOptions → List ℕ → List ℕ
digits_read o text =
    unseparated o.allow_separators (drop (radix o.base (behind_sign o text)).1 (behind_sign o text))

parse_magnitude_exact :
    (o : ParseOptions) (p : ℕ) (rest : List ℕ) (m q : ℕ)
    → o.require_entire_token ≡ true
    → parse_magnitude o p rest ≡ value (m, q)
    → All
        (IsDigit (radix o.base rest).0)
        (unseparated o.allow_separators (drop (radix o.base rest).1 rest))
      × (m
          ≡ numeral
              (radix o.base rest).0
              0
              (unseparated o.allow_separators (drop (radix o.base rest).1 rest)))
unfolding parse_magnitude
parse_magnitude_exact o p rest m q whole h = elim (Bool-cases (length rest == 0)) [
  | inl e ↦ failed_not (parse_error ErrorCode.invalid_format p) (m, q) (rw e refl) h
  | inr e ↦ elim (Bool-cases (ltb (radix o.base rest).0 2 || ltb 36 (radix o.base rest).0)) [
    | inl bad ↦
        failed_not (semantic ErrorCode.invalid_argument Operation.parse) (m, q) (rw (e, bad) refl) h
    | inr good ↦
        let (all, number, _) =
          scan_digits_exact o (radix o.base rest).0 (drop (radix o.base rest).1 rest)
            (p + (radix o.base rest).1) 0 false false m q (ground arith) whole (omega arith)
            (sym (rw (e, good) refl) ∙ h) in
        (all, number)
  ]
]

-- Where ParseInteger reads a whole text, what stands behind the sign and the prefix are digits of
-- the base, with separators if the options allow them, and the result is the one value of the type
-- whose magnitude these digits spell, with no wrap, and which is negative exactly if a minus sign
-- stands in front and the magnitude is not 0.
pub parse_integer_exact :
    (signed : Bool) (w : Width) (text : List ℕ) (o : ParseOptions) (x : ℕ)
    → o.require_entire_token ≡ true
    → parse_integer signed w text o ≡ value x
    → All (IsDigit (base_read o text)) (digits_read o text)
      × IsValue signed w
          (has_sign o text && (get_or text 0 0 == 0x2d))
          (numeral (base_read o text) 0 (digits_read o text))
          x
unfolding parse_integer
parse_integer_exact signed w text o x whole h =
    let p : ℕ = if has_sign o text then 1 else 0 in
    elim (Expected-cases (parse_magnitude o p (drop p text))) [
      | inr (e, r) ↦ failed_not e x (rw r refl) h
      | inl ((m, q), r) ↦
          let (all, number) = parse_magnitude_exact o p (drop p text) m q whole r in
          (
            all,
            subst (λ (t : ℕ). IsValue signed w (has_sign o text && (get_or text 0 0 == 0x2d)) t x)
                number
                (converted-IsValue signed w (has_sign o text && (get_or text 0 0 == 0x2d)) m q x
                  (sym (rw r refl) ∙ h)),
          )
    ]
