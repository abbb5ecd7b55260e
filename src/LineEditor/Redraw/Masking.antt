-- ===== src/LineEditor/Redraw/Masking.antt =====
-- What LineEditor::Redraw shows of a line with MaskInput.
use uefipp.Base.{
  ℕ, ◌≡◌, ◌⊎◌, Bool, false, List, [], ◌∷◌, ◌==◌, if◌then◌else◌, Expected, value, unexpected,
}
use uefipp.Io.{Error}
use uefipp.LineEditor.{no_memory}

-- One character per code point: a star, or a line break that stays one.
abbrev pub masked : List ℕ → List ℕ
masked [] = []
masked (c ∷ cs) = (if c == 0x0a then 0x0a else 0x2a) ∷ masked cs

-- The text, or no memory, where storage is denied; `supplied` tells whether it is always granted.
pub Shown : Bool → Expected Error (List ℕ) → List ℕ → Type 0
Shown supplied r text = (r ≡ value text) ⊎ ((supplied ≡ false) × (r ≡ unexpected no_memory))
