-- ===== src/LineEditor/Texts.antt =====
-- A line of code points with a place in it, the operations on it that the keys stand for, and what
-- the bytes and the cursor of LineEditor::ReadLine have to do with it.
use uefipp.Base.{ℕ, ◌≡◌, refl, sym, ◌∙◌, List, [], ◌∷◌, ◌++◌, length, All, append_assoc, append-nil}
use mathlib.Core.Path.{subst}
use uefipp.Text.Encoding.{IsScalar, utf8, utf8_text}
use uefipp.LineEditor.{Session, Turn, going, ended}

-- The code points before the place, the nearest first, and those after it.
pub record Zipper : Type 0 where
  pub before : List ℕ
  pub after : List ℕ

abbrev pub zipper : List ℕ → List ℕ → Zipper
zipper l r = record { before = l; after = r }

-- The elements of the first list, in turn, in front of the second.
abbrev pub shifted : List ℕ → List ℕ → List ℕ
shifted [] ys = ys
shifted (x ∷ xs) ys = shifted xs (x ∷ ys)

abbrev pub text_of : Zipper → List ℕ
text_of z = shifted z.before z.after

abbrev behind : List ℕ → List ℕ
behind [] = []
behind (x ∷ xs) = xs

abbrev step_left : List ℕ → List ℕ → Zipper
step_left [] r = zipper [] r
step_left (c ∷ l) r = zipper l (c ∷ r)

abbrev step_right : List ℕ → List ℕ → Zipper
step_right l [] = zipper l []
step_right l (c ∷ r) = zipper (c ∷ l) r

abbrev pub move_left : Zipper → Zipper
move_left z = step_left z.before z.after

abbrev pub move_right : Zipper → Zipper
move_right z = step_right z.before z.after

abbrev pub to_front : Zipper → Zipper
to_front z = zipper [] (text_of z)

abbrev pub to_end : Zipper → Zipper
to_end z = zipper (shifted z.after z.before) []

abbrev pub erase_last : Zipper → Zipper
erase_last z = zipper (behind z.before) z.after

abbrev pub erase_next : Zipper → Zipper
erase_next z = zipper z.before (behind z.after)

abbrev pub typed : ℕ → Zipper → Zipper
typed c z = zipper (c ∷ z.before) z.after

-- The UTF-8 of code points that are listed backwards.
abbrev pub utf8_before : List ℕ → List ℕ
utf8_before [] = []
utf8_before (c ∷ cs) = utf8_before cs ++ utf8 c

-- The bytes and the cursor stand for the line of code points.
pub record Shows (z : Zipper) (bytes : List ℕ) (cursor : ℕ) : Type 0 where
  pub scalars_before : All IsScalar z.before
  pub scalars_after : All IsScalar z.after
  pub bytes_are : bytes ≡ utf8_before z.before ++ utf8_text z.after
  pub cursor_is : cursor ≡ length (utf8_before z.before)

pub shows :
    (l r bytes : List ℕ) (cursor : ℕ)
    → All IsScalar l
    → All IsScalar r
    → bytes ≡ utf8_before l ++ utf8_text r
    → cursor ≡ length (utf8_before l)
    → Shows (zipper l r) bytes cursor
shows l r bytes cursor hl hr e f = record {
  scalars_before = hl;
  scalars_after = hr;
  bytes_are = e;
  cursor_is = f;
}

pub All-shifted :
    (xs ys : List ℕ) → All IsScalar xs → All IsScalar ys → All IsScalar (shifted xs ys)
All-shifted [] ys h k = k
All-shifted (x ∷ xs) ys h k = All-shifted xs (x ∷ ys) h.1 (h.0, k)

pub utf8_before-shifted :
    (xs ys : List ℕ) → utf8_before (shifted xs ys) ≡ utf8_before ys ++ utf8_text xs
utf8_before-shifted [] ys = sym (append-nil (utf8_before ys))
utf8_before-shifted (x ∷ xs) ys =
    utf8_before-shifted xs (x ∷ ys) ∙ append_assoc (utf8_before ys) (utf8 x) (utf8_text xs)

pub utf8_text-shifted :
    (xs ys : List ℕ) → utf8_text (shifted xs ys) ≡ utf8_before xs ++ utf8_text ys
utf8_text-shifted [] ys = refl
utf8_text-shifted (x ∷ xs) ys =
    utf8_text-shifted xs (x ∷ ys) ∙ sym (append_assoc (utf8_before xs) (utf8 x) (utf8_text ys))

-- What a turn of the loop leaves: a session that shows the zipper, or its whole text as the line.
abbrev pub Tells : Zipper → Turn → Type 0
Tells z (going s changed) = Shows z s.line s.cursor
Tells z (ended text) = All IsScalar (text_of z) × (text ≡ utf8_text (text_of z))

-- What holds of the session with the bytes and the cursor that a zipper gives.
abbrev pub session_of : Zipper → Session → Session
session_of z s = record s {
  line = utf8_before z.before ++ utf8_text z.after;
  cursor = length (utf8_before z.before);
}

pub at_session :
    (P : Session → Type 0) (z : Zipper) (s : Session)
    → Shows z s.line s.cursor
    → P (session_of z s)
    → P s
at_session P z s h p =
    subst (λ c. P (record s { cursor = c })) (sym h.cursor_is)
      (subst (λ b. P (record s { line = b; cursor = length (utf8_before z.before) }))
        (sym h.bytes_are) p)
