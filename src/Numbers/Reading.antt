-- ===== src/Numbers/Reading.antt =====
-- ParseInteger on what the formatter of the integers wrote.
use uefipp.Base.{
  ℕ, suc, ◌^◌, ◌<◌, ◌≡◌, ◌≢◌, refl, ap, ◌∙◌, ◌⊎◌, inl, inr, Bool, true, false, ◌||◌, List, [], ◌∷◌,
  ◌++◌, append_assoc, length, length-append, replicate, All, ◌==◌, Bool-cases, value, unexpected,
  arith,
}
use uefipp.Io.{ErrorCode, Operation, semantic}
use uefipp.Numbers.{
  Width, bits, ParseOptions, parse_integer, has_sign, converted, FormatSpec, Sign, Writer,
  write_pieces, put_digits, base_of, is_upper, sign_of, base_prefix, zero_filled, unsigned_pieces,
  is_integer_presentation, is_negative, magnitude_of, format_integer,
}
use uefipp.Numbers.Digits.{
  IsBase, base_small, IsDigit, numeral, base_of-IsBase, digit_value_sign, put_digits-numeral,
  put_digits-IsDigit, length-put_digits, numeral_zeros, IsDigit-zeros,
}
use uefipp.Numbers.Scanning.{Marked, unmarked, marked, parse_magnitude-numeral}
use uefipp.Numbers.Writing.{joined, write_pieces-joined, unsigned_pieces-joined, prefix_for_cases}

-- A sign that ParseInteger reads.
data Signs : Bool → List ℕ → Type 0 where
  minus : Signs true (0x2d ∷ [])
  plus : Signs false (0x2b ∷ [])
  none_written : Signs false []

sign_of-Signs :
    (f : FormatSpec) (negative : Bool)
    → f.sign_mode ≢ Sign.space
    → Signs negative (sign_of f negative)
sign_of-Signs f true h = minus
sign_of-Signs f false h =
    elim f.sign_mode
        as (λ m.
          f.sign_mode ≡ m
          → Signs false (elim m [
            | Sign.always ↦ 0x2b ∷ []
            | Sign.space ↦ 0x20 ∷ []
            | Sign.negative_only ↦ []
          ])) [
            | Sign.always ↦ λ e. plus
            | Sign.space ↦ λ e. absurd (h e)
            | Sign.negative_only ↦ λ e. none_written
          ]
      refl

-- Digits, with a mark of their base or without, have no sign in front.
no_sign :
    (o : ParseOptions) (pre ds : List ℕ)
    → IsBase o.base
    → Marked o.base pre
    → All (IsDigit o.base) ds
    → has_sign o (pre ++ ds) ≡ false
no_sign o [] [] h mark all = ground arith
no_sign o [] (c ∷ cs) h mark (d, _) =
    let (plus_sign, minus_sign, _) = digit_value_sign c (omega (arith, base_small o.base h)) in
    ground arith
no_sign o (_ ∷ _ ∷ []) ds h (marked m e) all = ground arith
no_sign o (_ ∷ []) ds h mark all = elim mark [ ]
no_sign o (_ ∷ (_ ∷ (_ ∷ _))) ds h mark all = elim mark [ ]

parse_integer-numeral :
    (signed : Bool) (w : Width) (negative : Bool) (o : ParseOptions) (sign pre ds : List ℕ)
    → Signs negative sign
    → o.allow_sign ≡ true
    → IsBase o.base
    → Marked o.base pre
    → All (IsDigit o.base) ds
    → 0 < length ds
    → numeral o.base 0 ds < 2 ^ 64
    → (q : ℕ) × (parse_integer signed w (sign ++ (pre ++ ds)) o
        ≡ converted signed w negative (numeral o.base 0 ds) q)
unfolding parse_integer
parse_integer-numeral signed w _ o _ pre ds minus allowed h mark all some fits =
    let (q, e) = parse_magnitude-numeral o 1 pre ds h mark all some fits in
    let sign : has_sign o (0x2d ∷ (pre ++ ds)) ≡ true = ground arith in (q, rw (sign, e) refl)
parse_integer-numeral signed w _ o _ pre ds plus allowed h mark all some fits =
    let (q, e) = parse_magnitude-numeral o 1 pre ds h mark all some fits in
    let sign : has_sign o (0x2b ∷ (pre ++ ds)) ≡ true = ground arith in (q, rw (sign, e) refl)
parse_integer-numeral signed w _ o _ pre ds none_written allowed h mark all some fits =
    let (q, e) = parse_magnitude-numeral o 0 pre ds h mark all some fits in
    (q, rw (no_sign o pre ds h mark all, e) refl)

-- Magnitude and sign give the value back, in each of the integer types.
converted-magnitude_of :
    (signed : Bool) (w : Width) (x q : ℕ)
    → x < 2 ^ bits w
    → converted signed w (is_negative signed w x) (magnitude_of signed w x) q ≡ value x
unfolding converted
converted-magnitude_of false Width.byte x q h = ground arith
converted-magnitude_of false Width.word x q h = ground arith
converted-magnitude_of false Width.dword x q h = ground arith
converted-magnitude_of false Width.qword x q h = ground arith
converted-magnitude_of true Width.byte x q h = ground arith
converted-magnitude_of true Width.word x q h = ground arith
converted-magnitude_of true Width.dword x q h = ground arith
converted-magnitude_of true Width.qword x q h = ground arith

magnitude_of_small :
    (signed : Bool) (w : Width) (x : ℕ) → x < 2 ^ bits w → magnitude_of signed w x < 2 ^ 64
magnitude_of_small signed Width.byte x h = ground arith
magnitude_of_small signed Width.word x h = ground arith
magnitude_of_small signed Width.dword x h = ground arith
magnitude_of_small signed Width.qword x h = ground arith

-- The text of a number behind its sign: a mark of the base or nothing, and digits that spell it.
data Spelled (b v : ℕ) (text : List ℕ) : Type 0 where
  spelled :
      (pre ds : List ℕ)
      → Marked b pre
      → All (IsDigit b) ds
      → 0 < length ds
      → numeral b 0 ds ≡ v
      → text ≡ pre ++ ds
      → Spelled b v text

prefix-Spelled :
    (f : FormatSpec) (n v : ℕ)
    → v < 2 ^ 64
    → Spelled (base_of f.presentation) v (
        base_prefix f
        ++ (replicate n 0x30 ++ put_digits 64 (base_of f.presentation) (is_upper f) v []))
prefix-Spelled f n v small =
    let b : ℕ = base_of f.presentation in
    let u : Bool = is_upper f in
    let h : IsBase b = base_of-IsBase f.presentation in
    let ds : List ℕ = put_digits 64 b u v [] in
    let all : All (IsDigit b) ds = put_digits-IsDigit 64 b u v [] h tt in
    let number : numeral b 0 ds ≡ v = put_digits-numeral 64 b u v [] h small in
    let some : 0 < length ds = length-put_digits 63 b u v [] in
    elim (prefix_for_cases (f.alternate || (f.presentation == 0x70)) b u) [
      | inl mark ↦
          spelled (base_prefix f) (replicate n 0x30 ++ ds) mark (IsDigit-zeros n b ds h all)
            (omega (arith, length-append (replicate n 0x30) ds)) (numeral_zeros n b ds ∙ number)
            refl
      | inr zero_first ↦
          spelled [] (replicate (suc n) 0x30 ++ ds) unmarked (IsDigit-zeros (suc n) b ds h all)
            (omega arith) (numeral_zeros (suc n) b ds ∙ number)
            (ap (λ (pre : List ℕ). pre ++ (replicate n 0x30 ++ ds)) zero_first)
    ]

Spelled-parse_integer :
    (signed : Bool) (w : Width) (x : ℕ) (o : ParseOptions) (sign text : List ℕ)
    → x < 2 ^ bits w
    → Signs (is_negative signed w x) sign
    → o.allow_sign ≡ true
    → IsBase o.base
    → Spelled o.base (magnitude_of signed w x) text
    → parse_integer signed w (sign ++ text) o ≡ value x
Spelled-parse_integer signed w x o sign text small signs allowed h
      (spelled pre ds mark all some number same) =
    let fits : numeral o.base 0 ds < 2 ^ 64 =
      omega (arith, number, magnitude_of_small signed w x small) in
    let (q, read) =
      parse_integer-numeral signed w (is_negative signed w x) o sign pre ds signs allowed h mark all
        some fits in
    ap (λ (t : List ℕ). parse_integer signed w (sign ++ t) o) same
    ∙ read
    ∙ ap (λ (m : ℕ). converted signed w (is_negative signed w x) m q) number
    ∙ converted-magnitude_of signed w x q small

module _ {ℓ} {W : Type ℓ} (write : Writer W) (received : W → List ℕ) where
  -- What the formatter of the integers writes for a value of one of the integer types, ParseInteger
  -- reads back as this value, in any presentation, with or without the prefix of the base, where the
  -- options allow a sign and give the base, the text is padded with zeros or not at all, and a space
  -- does not stand for the sign. The writer keeps what it is given.
  pub parse_integer-format_integer :
      ((bytes : List ℕ) (s : W)
        → (write bytes s).1 ≡ value tt
        → received (write bytes s).0 ≡ received s ++ bytes)
      → (signed : Bool) (w : Width) (x : ℕ) (f : FormatSpec) (o : ParseOptions) (s : W)
      → x < 2 ^ bits w
      → f.sign_mode ≢ Sign.space
      → (zero_filled f ≡ true) ⊎ (f.width ≡ 0)
      → o.allow_sign ≡ true
      → o.base ≡ base_of f.presentation
      → (format_integer write signed w x f s).1 ≡ value tt
      → (text : List ℕ) × (received (format_integer write signed w x f s).0 ≡ received s ++ text)
        × (parse_integer signed w text o ≡ value x)
  unfolding format_integer
  parse_integer-format_integer keeps signed w x f o s small mode filled allowed base done =
      let v : ℕ = magnitude_of signed w x in
      let negative : Bool = is_negative signed w x in
      elim (Bool-cases (is_integer_presentation f.presentation)) [
        | inr e ↦
            let never : unexpected (semantic ErrorCode.invalid_format Operation.format) ≡ value tt =
              rw (format_integer, e) at done in
            absurd (ground arith)
        | inl e ↦
            let all_written : (write_pieces write (unsigned_pieces f v negative) s).1 ≡ value tt =
              rw (format_integer, e) at done in
            let (n, shape) = unsigned_pieces-joined f v negative filled in
            let behind : Spelled o.base v (
                base_prefix f
                ++ (replicate n 0x30 ++ put_digits 64 (base_of f.presentation) (is_upper f) v [])) =
              rw base (prefix-Spelled f n v (magnitude_of_small signed w x small)) in
            (
              joined (unsigned_pieces f v negative),
              rw (format_integer, e)
                  (write_pieces-joined write received keeps (unsigned_pieces f v negative) s
                    all_written),
              ap (λ (t : List ℕ). parse_integer signed w t o)
                    (shape
                      ∙ append_assoc (sign_of f negative) (base_prefix f) (
                          replicate n 0x30
                          ++ put_digits 64 (base_of f.presentation) (is_upper f) v []))
                  ∙ Spelled-parse_integer signed w x o (sign_of f negative)
                      (base_prefix f
                        ++ (replicate n 0x30
                            ++ put_digits 64 (base_of f.presentation) (is_upper f) v []))
                      small (sign_of-Signs f negative mode) allowed
                      (rw base (base_of-IsBase f.presentation)) behind,
            )
      ]
