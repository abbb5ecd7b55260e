-- ===== src/LineEditor/Redraw/Cells.antt =====
-- The cells that LineEditor::Redraw counts on the way to a place in a line.
use uefipp.Base.{
  ℕ, zero, suc, ◌+◌, ◌≤◌, ◌<◌, ◌*◌, ◌/◌, ◌≡◌, refl, ap, ◌∙◌, false, List, [], ◌∷◌, ◌++◌, length,
  get_or, All, ltb, ◌==◌, if◌then◌else◌, arith, Bool-cases, inl, inr, not, ◌&&◌, ◌-◌, ◌%◌, ◌^◌,
  All-append, length-append, append-nil,
}
use native.Mathlib.Nat.{div-add-mod', mod-lt, add-mul, one-mul}
use uefipp.Text.Encoding.{IsScalar, utf8, utf8_text}
use uefipp.LineEditor.{Geometry}
use uefipp.LineEditor.Redraw.{advance, layout_from, layout_extent}
use uefipp.LineEditor.Redraw.Rounds.{
  round_advances, round_breaks, round_inside, round_text, length-utf8_text,
}

-- The place where the next row starts, `at` places behind the first row's start.
abbrev pub next_row : ℕ → ℕ → ℕ
next_row columns at = (at / columns + 1) * columns

-- The cells that code points take up, from `offset` cells behind the origin on: a line break goes on
-- to the next row, if the terminal tells its width, and any other code point takes up one cell.
abbrev pub cells : Geometry → ℕ → List ℕ → ℕ
cells origin offset [] = offset
cells origin offset (c ∷ cs) =
    cells origin
      (if (c == 0x0a) && not (origin.columns == 0)
        then next_row origin.columns (origin.column + offset) - origin.column
        else offset + 1)
      cs

-- A row ends behind each place in it.
next_row_lem :
    (columns at : ℕ)
    → 0 < columns
    → (at < next_row columns at) × (at + (columns - at % columns) ≡ next_row columns at)
next_row_lem columns at pos =
    let whole = div-add-mod' at columns in
    let inside = mod-lt at pos in
    let more : (at / columns + 1) * columns ≡ at / columns * columns + columns =
      add-mul (at / columns) 1 columns
      ∙ ap (λ (t : ℕ). at / columns * columns + t) (one-mul columns) in
    (omega (arith, whole, inside, more), omega (arith, whole, inside, more))

-- Where a code point leaves the offset.
abbrev after : Geometry → ℕ → ℕ → ℕ
after origin offset c =
    if (c == 0x0a) && not (origin.columns == 0)
    then next_row origin.columns (origin.column + offset) - origin.column
    else offset + 1

after_more : (origin : Geometry) (offset c : ℕ) → offset < after origin offset c
after_more origin offset c = elim (Bool-cases ((c == 0x0a) && not (origin.columns == 0))) [
  | inr e ↦ rw e (omega arith)
  | inl e ↦
      let row = next_row_lem origin.columns (origin.column + offset) (ground arith) in
      rw e (omega (arith, row.0))
]

cells_more : (origin : Geometry) (offset : ℕ) (cs : List ℕ) → offset ≤ cells origin offset cs
cells_more origin offset [] = omega arith
cells_more origin offset (c ∷ cs) =
    omega (arith, after_more origin offset c, cells_more origin (after origin offset c) cs)

-- `advance` does so where the place stays in 64 bits.
advance-after :
    (origin : Geometry) (offset c : ℕ)
    → origin.column + after origin offset c < 2 ^ 64
    → advance origin offset c ≡ after origin offset c
advance-after origin offset c fits = elim (Bool-cases ((c == 0x0a) && not (origin.columns == 0))) [
  | inr e ↦ let small : origin.column + (offset + 1) < 2 ^ 64 = rw e at fits in rw e (omega arith)
  | inl e ↦
      let row = next_row_lem origin.columns (origin.column + offset) (ground arith) in
      let small : origin.column + (next_row origin.columns (origin.column + offset) - origin.column)
          < 2 ^ 64 =
        rw e at fits in
      let here : (origin.column + offset) % 2 ^ 64 ≡ origin.column + offset =
        omega (arith, row.0) in
      rw (e, here) (omega (arith, row.0, row.1))
]

-- A round of the loop: the code point `c` behind `a`, with the code points `cs` behind it.
module _ (a : List ℕ) (c : ℕ) (cs : List ℕ) (h : IsScalar c) (k : All IsScalar cs) where
  round_cells :
      (origin : Geometry) (offset : ℕ)
      → advance origin offset (get_or (a ++ utf8_text (c ∷ cs)) (length a) 0)
        ≡ advance origin offset c
  round_cells origin offset =
      ap
        (λ x.
          if x && not (origin.columns == 0)
          then (offset + (origin.columns - (origin.column + offset) % 2 ^ 64 % origin.columns))
            % 2 ^ 64
          else (offset + 1) % 2 ^ 64)
        (round_breaks a c cs h k)

layout_from-cells :
    (origin : Geometry) (a cs b : List ℕ) (fuel offset : ℕ)
    → All IsScalar cs
    → All IsScalar b
    → length cs < fuel
    → origin.column + cells origin offset cs < 2 ^ 64
    → layout_from origin
        (a ++ utf8_text (cs ++ b))
        (length (a ++ utf8_text cs))
        fuel
        (length a)
        offset
      ≡ cells origin offset cs
unfolding layout_from
layout_from-cells origin a cs b zero offset h k l fits = absurd (omega arith)
layout_from-cells origin a [] b (suc fuel) offset h k l fits =
    let at_end : ltb (length a) (length (a ++ [])) ≡ false =
      ground (arith, ap length (append-nil a)) in
    rw at_end refl
layout_from-cells origin a (c ∷ cs) b (suc fuel) offset h k l fits =
    let all = All-append IsScalar cs b h.1 k in
    let further : layout_from origin (a ++ utf8_text (c ∷ cs ++ b))
          (length (a ++ utf8_text (c ∷ cs))) fuel (length (a ++ utf8 c)) (after origin offset c)
        ≡ cells origin (after origin offset c) cs =
      rw (round_text a c (cs ++ b) h.0 all, round_text a c cs h.0 h.1)
        (layout_from-cells origin (a ++ utf8 c) cs b fuel (after origin offset c) h.1 k
          (omega arith) fits) in
    let below = cells_more origin (after origin offset c) cs in
    rw
      (
        round_inside a c cs h.0 h.1,
        round_advances a c (cs ++ b) h.0 all,
        round_cells a c (cs ++ b) h.0 all origin offset,
        advance-after origin offset c (omega (arith, below)),
      )
      further

-- The cells that LayoutExtent counts up to a place between two code points of a line are those that
-- the code points before it take up, each one cell, or those to the start of the next row for a line
-- break where the terminal tells its width. The column that they lead to stays in 64 bits.
pub layout_extent-cells :
    (origin : Geometry) (cs b : List ℕ)
    → All IsScalar cs
    → All IsScalar b
    → origin.column + cells origin 0 cs < 2 ^ 64
    → layout_extent origin (utf8_text (cs ++ b)) (length (utf8_text cs)) ≡ cells origin 0 cs
unfolding layout_extent
layout_extent-cells origin cs b h k fits =
    layout_from-cells origin [] cs b (suc (length (utf8_text (cs ++ b)))) 0 h k
      (omega (arith, length-append cs b, length-utf8_text (cs ++ b) (All-append IsScalar cs b h k)))
      fits
