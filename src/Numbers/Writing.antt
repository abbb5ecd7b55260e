-- ===== src/Numbers/Writing.antt =====
-- What FormatUnsigned writes, put together.
use uefipp.Base.{
  ℕ, zero, suc, ◌+◌, ◌-◌, ◌≤◌, ◌≡◌, refl, sym, ap, ◌∙◌, ◌⊎◌, inl, inr, min, Bool, true, false, List,
  [], ◌∷◌, ◌++◌, append-nil, append_assoc, length, replicate, replicate_add, ◌==◌, if◌then◌else◌,
  Bool-cases, Expected-cases, value, unexpected, arith,
}
use uefipp.Numbers.{
  FormatSpec, Alignment, Writer, write_pieces, repeated, put_digits, base_of, is_upper, sign_of,
  prefix_for, base_prefix, each, padding, left_part, zero_filled, arranged, unsigned_pieces,
}
use uefipp.Numbers.Scanning.{Marked, unmarked, marked}

abbrev pub joined : List (List ℕ) → List ℕ
joined [] = []
joined (x ∷ xs) = x ++ joined xs

joined-append : (xs ys : List (List ℕ)) → joined (xs ++ ys) ≡ joined xs ++ joined ys
joined-append [] ys = refl
joined-append (x ∷ xs) ys = rw (joined-append xs ys) (sym (append_assoc x (joined xs) (joined ys)))

joined-each : (cs : List ℕ) → joined (each cs) ≡ cs
joined-each [] = refl
joined-each (c ∷ cs) = rw (joined-each cs) refl

joined-repeated :
    (rounds c count : ℕ) → count ≤ rounds → joined (repeated rounds c count) ≡ replicate count c
unfolding repeated
joined-repeated zero c count h = let none : count ≡ 0 = omega arith in rw none refl
joined-repeated (suc n) c count h = elim (Bool-cases (count == 0)) [
  | inl e ↦ let none : count ≡ 0 = ground arith in rw none refl
  | inr e ↦
      let whole : min count 32 + (count - 32) ≡ count = omega arith in
      rw (e, joined-repeated n c (count - 32) (ground arith))
        (sym (replicate_add (min count 32) (count - 32) count c (sym whole)))
]

-- A writer that keeps what it is given has, if it never failed, all of the pieces behind one another.
pub write_pieces-joined {ℓ} :
    {W : Type ℓ} (write : Writer W) (received : W → List ℕ)
    → ((bytes : List ℕ) (s : W)
        → (write bytes s).1 ≡ value tt
        → received (write bytes s).0 ≡ received s ++ bytes)
    → (pieces : List (List ℕ)) (s : W) → (write_pieces write pieces s).1 ≡ value tt
    → received (write_pieces write pieces s).0 ≡ received s ++ joined pieces
unfolding write_pieces
write_pieces-joined write received keeps [] s done = sym (append-nil (received s))
write_pieces-joined write received keeps (x ∷ xs) s done = elim (Expected-cases (write x s).1) [
  | inl (u, e) ↦
      let rest : (write_pieces write xs (write x s).0).1 ≡ value tt =
        rw (write_pieces, e) at done in
      rw (write_pieces, e)
        (write_pieces-joined write received keeps xs (write x s).0 rest
          ∙ ap (λ (t : List ℕ). t ++ joined xs) (keeps x s e)
          ∙ append_assoc (received s) x (joined xs))
  | inr (r, e) ↦
      let never : unexpected r ≡ value tt = rw (write_pieces, e) at done in absurd (ground arith)
]

left_part_none : (a : Alignment) → left_part a 0 ≡ 0
left_part_none Alignment.default_side = refl
left_part_none Alignment.right_side = refl
left_part_none Alignment.center = refl
left_part_none Alignment.left_side = refl

no_padding : (f : FormatSpec) (raw : ℕ) → f.width ≡ 0 → padding f raw ≡ 0
no_padding f raw h = ground arith

arranged-joined :
    (f : FormatSpec) (prefix digits : List ℕ)
    → (zero_filled f ≡ true) ⊎ (f.width ≡ 0)
    → (n : ℕ) × (joined (arranged f prefix digits) ≡ prefix ++ (replicate n 0x30 ++ digits))
unfolding repeated
arranged-joined f prefix digits h = elim (Bool-cases (zero_filled f)) [
  | inl e ↦
      let n : ℕ = padding f (length prefix + length digits) in
      (
        n,
        rw
            (
              e,
              joined-append (repeated n 0x30 n) (each digits),
              joined-repeated n 0x30 n (omega arith),
              joined-each digits,
            )
            refl,
      )
  | inr e ↦ (
    0,
    elim h [
      | inl z ↦ ground arith
      | inr z ↦
          rw
            (
              e,
              no_padding f (length prefix + length digits) z,
              left_part_none f.align,
              joined-append (each digits) [],
              joined-each digits,
              append-nil digits,
            )
            refl
    ],
  )
]

-- What FormatUnsigned writes where it pads with zeros or not at all: the sign, the prefix of the
-- base, zeros, and the digits.
pub unsigned_pieces-joined :
    (f : FormatSpec) (v : ℕ) (negative : Bool)
    → (zero_filled f ≡ true) ⊎ (f.width ≡ 0)
    → (n : ℕ) × (joined (unsigned_pieces f v negative)
        ≡ (sign_of f negative ++ base_prefix f)
          ++ (replicate n 0x30 ++ put_digits 64 (base_of f.presentation) (is_upper f) v []))
unfolding unsigned_pieces
unsigned_pieces-joined f v negative h =
    arranged-joined f (sign_of f negative ++ base_prefix f)
      (put_digits 64 (base_of f.presentation) (is_upper f) v []) h

-- The prefix is a mark of the base, or a zero in front of the digits.
pub prefix_for_cases :
    (shown : Bool) (b : ℕ) (upper : Bool)
    → (Marked b (prefix_for shown b upper)) ⊎ (prefix_for shown b upper ≡ 0x30 ∷ [])
prefix_for_cases false b upper = inl unmarked
prefix_for_cases true b upper = elim (Bool-cases (b == 2)) [
  | inl two ↦ rw two (inl (marked (if upper then 0x42 else 0x62) (ground arith)))
  | inr two ↦ elim (Bool-cases (b == 8)) [
    | inl eight ↦ rw (two, eight) (inr refl)
    | inr eight ↦ elim (Bool-cases (b == 16)) [
      | inl wide ↦
          rw (two, eight, wide) (inl (marked (if upper then 0x58 else 0x78) (ground arith)))
      | inr wide ↦ rw (two, eight, wide) (inl unmarked)
    ]
  ]
]
