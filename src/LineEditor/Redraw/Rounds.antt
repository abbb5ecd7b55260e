-- ===== src/LineEditor/Redraw/Rounds.antt =====
-- The rounds of the loops of LineEditor::Redraw over a line, code point by code point.
use uefipp.Base.{
  ℕ, ◌≤◌, ◌<◌, ◌≡◌, refl, sym, ap, ◌∙◌, true, List, [], ◌∷◌, ◌++◌, length, get_or, All, ltb, leb,
  ◌==◌, arith, Bool-cases, inl, inr, length-append, append_assoc,
}
use uefipp.Text.Encoding.{IsScalar, utf8, utf8_text}
use uefipp.LineEditor.{next_boundary}
use uefipp.LineEditor.Boundaries.{
  utf8-Sequence, next_boundary-Sequence, Sequence-fills, utf8_text-IsStart,
}

-- The byte that the loops look at tells a line break from any other code point.
lead_is_break : (c : ℕ) (b : List ℕ) → (get_or (utf8 c ++ b) 0 0 == 0x0a) ≡ (c == 0x0a)
lead_is_break c b = elim (Bool-cases (leb c 0x7f)) [
  | inl y ↦ rw y refl
  | inr n ↦ elim (Bool-cases (leb c 0x7ff)) [
    | inl y ↦ rw (n, y) (ground arith)
    | inr m ↦ elim (Bool-cases (leb c 0xffff)) [
      | inl y ↦ rw (n, m, y) (ground arith)
      | inr k ↦ rw (n, m, k) (ground arith)
    ]
  ]
]

get_or-behind : (a b : List ℕ) → get_or (a ++ b) (length a) 0 ≡ get_or b 0 0
get_or-behind [] b = refl
get_or-behind (x ∷ a) b = get_or-behind a b

-- A round of the loops: the code point `c` behind `a`, with the code points `cs` behind it.
module _ (a : List ℕ) (c : ℕ) (cs : List ℕ) (h : IsScalar c) (k : All IsScalar cs) where
  pub round_advances : next_boundary (a ++ utf8_text (c ∷ cs)) (length a) ≡ length (a ++ utf8 c)
  round_advances =
      next_boundary-Sequence a (utf8 c) (utf8_text cs) (utf8-Sequence c h) (utf8_text-IsStart cs k)
      ∙ sym (length-append a (utf8 c))

  pub round_breaks : (get_or (a ++ utf8_text (c ∷ cs)) (length a) 0 == 0x0a) ≡ (c == 0x0a)
  round_breaks =
      ap (λ b. b == 0x0a) (get_or-behind a (utf8_text (c ∷ cs))) ∙ lead_is_break c (utf8_text cs)

  pub round_inside : ltb (length a) (length (a ++ utf8_text (c ∷ cs))) ≡ true
  round_inside =
      let fills : 0 < length (utf8 c) = Sequence-fills [] (utf8 c) [] (utf8-Sequence c h) in
      ground (arith, length-append a (utf8_text (c ∷ cs)), length-append (utf8 c) (utf8_text cs))

  pub round_text : a ++ utf8_text (c ∷ cs) ≡ (a ++ utf8 c) ++ utf8_text cs
  round_text = sym (append_assoc a (utf8 c) (utf8_text cs))

pub length-utf8_text : (cs : List ℕ) → All IsScalar cs → length cs ≤ length (utf8_text cs)
length-utf8_text [] h = omega arith
length-utf8_text (c ∷ cs) h =
    let fills : 0 < length (utf8 c) = Sequence-fills [] (utf8 c) [] (utf8-Sequence c h.0) in
    omega (arith, length-append (utf8 c) (utf8_text cs), length-utf8_text cs h.1)
