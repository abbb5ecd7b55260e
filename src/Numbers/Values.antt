-- ===== src/Numbers/Values.antt =====
-- The value of an integer type that ParseInteger makes of a sign and a magnitude.
use uefipp.Base.{
  ℕ, zero, suc, ◌+◌, ◌-◌, ◌%◌, ◌^◌, ◌≤◌, ◌<◌, ◌≡◌, refl, sym, ap, ◌∙◌, inl, inr, Bool, true, false,
  not, ◌&&◌, ◌||◌, ltb, ◌==◌, Bool-cases, Expected, value, unexpected, arith,
}
use uefipp.Io.{Error, ErrorCode}
use uefipp.Numbers.{Width, bits, converted, is_negative, magnitude_of, parse_error}

pub failed_not {ℓ} :
    {C : Type ℓ} {A : Type 0} {r : Expected Error A} (e : Error) (a : A)
    → r ≡ unexpected e
    → r ≡ value a
    → C
failed_not e a refusal success =
    let never : unexpected e ≡ value a = sym refusal ∙ success in absurd (ground arith)

-- The value of the type that has this sign and this magnitude.
abbrev pub IsValue : Bool → Width → Bool → ℕ → ℕ → Type 0
IsValue signed w negative m x =
    (x < 2 ^ bits w)
    × (magnitude_of signed w x ≡ m)
    × (is_negative signed w x ≡ (negative && not (m == 0)))

negative-IsValue :
    (w : Width) (m x : ℕ)
    → m ≤ 2 ^ (bits w - 1)
    → x ≡ (2 ^ bits w - m) % 2 ^ bits w
    → IsValue true w true m x
negative-IsValue Width.byte m x h e = (omega arith, ground arith, ground arith)
negative-IsValue Width.word m x h e = (omega arith, ground arith, ground arith)
negative-IsValue Width.dword m x h e = (omega arith, ground arith, ground arith)
negative-IsValue Width.qword m x h e = (omega arith, ground arith, ground arith)

positive-IsValue :
    (w : Width) (m x : ℕ) → m ≤ 2 ^ (bits w - 1) - 1 → x ≡ m → IsValue true w false m x
positive-IsValue Width.byte m x h e = (omega arith, ground arith, ground arith)
positive-IsValue Width.word m x h e = (omega arith, ground arith, ground arith)
positive-IsValue Width.dword m x h e = (omega arith, ground arith, ground arith)
positive-IsValue Width.qword m x h e = (omega arith, ground arith, ground arith)

lowest :
    (w : Width) (m x : ℕ)
    → m ≡ 2 ^ (bits w - 1) - 1 + 1
    → x ≡ 2 ^ bits w - (2 ^ (bits w - 1) - 1) - 1
    → (m ≤ 2 ^ (bits w - 1)) × (x ≡ (2 ^ bits w - m) % 2 ^ bits w)
lowest Width.byte m x h e = (omega arith, omega arith)
lowest Width.word m x h e = (omega arith, omega arith)
lowest Width.dword m x h e = (omega arith, omega arith)
lowest Width.qword m x h e = (omega arith, omega arith)

positive_power : (n : ℕ) → 0 < 2 ^ n
positive_power zero = omega arith
positive_power (suc n) = omega (arith, positive_power n)

got : Expected Error ℕ → ℕ
got (value x) = x
got (unexpected e) = 0

pub converted-IsValue :
    (signed : Bool) (w : Width) (negative : Bool) (m p x : ℕ)
    → converted signed w negative m p ≡ value x
    → IsValue signed w negative m x
unfolding converted got
converted-IsValue false w negative m p x h =
    elim (Bool-cases (negative || ltb (2 ^ bits w - 1) m)) [
      | inl e ↦ failed_not (parse_error ErrorCode.overflow p) x (rw e refl) h
      | inr e ↦
          let same : x ≡ m = ap got (sym h) ∙ (rw e refl) in
          let some = positive_power (bits w) in (ground arith, same, ground arith)
    ]
converted-IsValue true w false m p x h = elim (Bool-cases (ltb (2 ^ (bits w - 1) - 1) m)) [
  | inl e ↦ failed_not (parse_error ErrorCode.overflow p) x (rw e refl) h
  | inr e ↦
      let same : x ≡ m = ap got (sym h) ∙ (rw e refl) in positive-IsValue w m x (ground arith) same
]
converted-IsValue true w true m p x h = elim (Bool-cases (ltb (2 ^ (bits w - 1) - 1 + 1) m)) [
  | inl e ↦ failed_not (parse_error ErrorCode.overflow p) x (rw e refl) h
  | inr e ↦ elim (Bool-cases (m == 2 ^ (bits w - 1) - 1 + 1)) [
    | inl k ↦
        let same : x ≡ 2 ^ bits w - (2 ^ (bits w - 1) - 1) - 1 =
          ap got (sym h) ∙ (rw (e, k) refl) in
        let (low, value_of) = lowest w m x (ground arith) same in
        negative-IsValue w m x low value_of
    | inr k ↦
        let same : x ≡ (2 ^ bits w - m) % 2 ^ bits w = ap got (sym h) ∙ (rw (e, k) refl) in
        let some = positive_power (bits w - 1) in negative-IsValue w m x (ground arith) same
  ]
]
