-- ===== src/LineEditor/Editing.antt =====
-- The operations of the keys on a line, one by one, against those on its code points.
use uefipp.Base.{
  ℕ, ◌+◌, ◌-◌, ◌≤◌, ◌<◌, ◌≡◌, refl, sym, ap, ◌∙◌, true, false, List, [], ◌∷◌, ◌++◌, length, All,
  ltb, arith, drop-append, take-append, length-append, append_assoc, append-nil,
}
use uefipp.Text.Encoding.{IsScalar, utf8, utf8_text}
use uefipp.LineEditor.{previous_boundary, next_boundary, inserted, erased, Session, cut, moved}
use uefipp.LineEditor.Boundaries.{
  utf8-Sequence, previous_boundary-Sequence, next_boundary-Sequence, Sequence-fills,
  utf8_text-IsStart,
}
use uefipp.LineEditor.Texts.{
  Zipper, zipper, shifted, move_left, move_right, to_front, to_end, erase_last, erase_next, typed,
  utf8_before, Shows, shows, Tells, session_of, at_session, All-shifted, utf8_before-shifted,
  utf8_text-shifted,
}

-- One code point moved over.
utf8_between :
    (l : List ℕ) (c : ℕ) (r : List ℕ)
    → utf8_before (c ∷ l) ++ utf8_text r ≡ utf8_before l ++ (utf8 c ++ utf8_text r)
utf8_between l c r = append_assoc (utf8_before l) (utf8 c) (utf8_text r)

left_boundary :
    (l r : List ℕ) (c : ℕ)
    → IsScalar c
    → previous_boundary (utf8_before (c ∷ l) ++ utf8_text r) (length (utf8_before (c ∷ l)))
      ≡ length (utf8_before l)
left_boundary l r c h = rw (utf8_between l c r) (
    previous_boundary-Sequence (utf8_before l) (utf8 c) (utf8_text r) (utf8-Sequence c h)
      (length (utf8_before (c ∷ l))) (length-append (utf8_before l) (utf8 c)))

right_boundary :
    (l r : List ℕ) (c : ℕ)
    → IsScalar c
    → All IsScalar r
    → next_boundary (utf8_before l ++ utf8_text (c ∷ r)) (length (utf8_before l))
      ≡ length (utf8_before (c ∷ l))
right_boundary l r c h k =
    next_boundary-Sequence (utf8_before l) (utf8 c) (utf8_text r) (utf8-Sequence c h)
      (utf8_text-IsStart r k)
    ∙ sym (length-append (utf8_before l) (utf8 c))

last_boundary : (a : List ℕ) → next_boundary (a ++ []) (length a) ≡ length a
unfolding next_boundary
last_boundary a = rw (append-nil a) (ground arith)

first_boundary : (bytes : List ℕ) → previous_boundary bytes 0 ≡ 0
unfolding previous_boundary
first_boundary bytes = refl

-- Stated on a zipper in its parts, with the bytes and the cursor computed.
abbrev bytes_of : List ℕ → List ℕ → List ℕ
bytes_of l r = utf8_before l ++ utf8_text r

abbrev cursor_of : List ℕ → ℕ
cursor_of l = length (utf8_before l)

move_left_shown :
    (l r : List ℕ)
    → All IsScalar l
    → All IsScalar r
    → Shows (move_left (zipper l r)) (bytes_of l r) (previous_boundary (bytes_of l r) (cursor_of l))
move_left_shown [] r hl hr =
    shows [] r (bytes_of [] r) (previous_boundary (bytes_of [] r) 0) hl hr refl
      (first_boundary (bytes_of [] r))
move_left_shown (c ∷ l) r hl hr =
    shows l (c ∷ r) (bytes_of (c ∷ l) r)
      (previous_boundary (bytes_of (c ∷ l) r) (cursor_of (c ∷ l))) hl.1 (hl.0, hr)
      (utf8_between l c r) (left_boundary l r c hl.0)

move_right_shown :
    (l r : List ℕ)
    → All IsScalar l
    → All IsScalar r
    → Shows (move_right (zipper l r)) (bytes_of l r) (next_boundary (bytes_of l r) (cursor_of l))
move_right_shown l [] hl hr =
    shows l [] (bytes_of l []) (next_boundary (bytes_of l []) (cursor_of l)) hl hr refl
      (last_boundary (utf8_before l))
move_right_shown l (c ∷ r) hl hr =
    shows (c ∷ l) r (bytes_of l (c ∷ r)) (next_boundary (bytes_of l (c ∷ r)) (cursor_of l))
      (hr.0, hl) hr.1 (sym (utf8_between l c r)) (right_boundary l r c hr.0 hr.1)

module _ (l r : List ℕ) (hl : All IsScalar l) (hr : All IsScalar r) where
  to_front_shown : Shows (to_front (zipper l r)) (bytes_of l r) 0
  to_front_shown =
      shows [] (shifted l r) (bytes_of l r) 0 tt (All-shifted l r hl hr)
        (sym (utf8_text-shifted l r)) refl

  to_end_shown : Shows (to_end (zipper l r)) (bytes_of l r) (length (bytes_of l r))
  to_end_shown =
      let same : bytes_of l r ≡ utf8_before (shifted r l) = sym (utf8_before-shifted r l) in
      shows (shifted r l) [] (bytes_of l r) (length (bytes_of l r)) (All-shifted r l hr hl) tt
        (same ∙ sym (append-nil (utf8_before (shifted r l)))) (ap length same)

inserted_between : (a u b : List ℕ) → inserted (a ++ b) (length a) u ≡ (a ++ u) ++ b
inserted_between a u b = rw (take-append a b, drop-append a b 0 (length a) (omega arith)) refl

typed_shown :
    (l r : List ℕ) (c : ℕ)
    → All IsScalar l
    → All IsScalar r
    → IsScalar c
    → Shows
        (typed c (zipper l r))
        (inserted (bytes_of l r) (cursor_of l) (utf8 c))
        (cursor_of l + length (utf8 c))
typed_shown l r c hl hr h =
    shows (c ∷ l) r (inserted (bytes_of l r) (cursor_of l) (utf8 c)) (cursor_of l + length (utf8 c))
      (h, hl) hr (inserted_between (utf8_before l) (utf8 c) (utf8_text r))
      (sym (length-append (utf8_before l) (utf8 c)))

erased_between :
    (a u b : List ℕ) (n : ℕ) → n ≡ length u → erased (a ++ (u ++ b)) (length a) n ≡ a ++ b
erased_between a u b n e =
    let inside : ltb (length (a ++ (u ++ b))) (length a) ≡ false =
      ground (arith, length-append a (u ++ b)) in
    rw
      (
        inside,
        take-append a (u ++ b),
        drop-append a (u ++ b) n (length a + n) refl,
        drop-append u b 0 n (omega arith),
      )
      refl

-- The bytes from `b` up to `e` are those of one code point.
cut_between :
    (z : Zipper) (a u r : List ℕ) (s : Session) (b e : ℕ)
    → s.line ≡ a ++ (u ++ r)
    → b ≡ length a
    → e ≡ length a + length u
    → 0 < length u
    → Shows z (a ++ r) (length a)
    → Tells z (cut s b e)
cut_between z a u r s b e hs hb he hu h =
    let bigger : ltb b e ≡ true = ground arith in
    let parts : erased s.line b (e - b) ≡ a ++ r =
      rw (hs, hb) (erased_between a u r (e - length a) (omega arith)) in
    rw (bigger, parts, hb) h

cut_nothing :
    (z : Zipper) (s : Session) (b e : ℕ) → e ≤ b → Shows z s.line s.cursor → Tells z (cut s b e)
cut_nothing z s b e l h = let smaller : ltb b e ≡ false = ground arith in rw smaller h

cut_last_shown :
    (l r : List ℕ) (s : Session)
    → All IsScalar l
    → All IsScalar r
    → Tells (erase_last (zipper l r)) (
        cut
          (session_of (zipper l r) s)
          (previous_boundary (bytes_of l r) (cursor_of l))
          (cursor_of l))
cut_last_shown [] r s hl hr =
    cut_nothing (zipper [] r) (session_of (zipper [] r) s) (previous_boundary (bytes_of [] r) 0) 0
      (omega arith) (shows [] r (bytes_of [] r) 0 hl hr refl refl)
cut_last_shown (c ∷ l) r s hl hr =
    cut_between (zipper l r) (utf8_before l) (utf8 c) (utf8_text r)
      (session_of (zipper (c ∷ l) r) s) (previous_boundary (bytes_of (c ∷ l) r) (cursor_of (c ∷ l)))
      (cursor_of (c ∷ l)) (utf8_between l c r) (left_boundary l r c hl.0)
      (length-append (utf8_before l) (utf8 c))
      (Sequence-fills [] (utf8 c) [] (utf8-Sequence c hl.0))
      (shows l r (bytes_of l r) (cursor_of l) hl.1 hr refl refl)

cut_next_shown :
    (l r : List ℕ) (s : Session)
    → All IsScalar l
    → All IsScalar r
    → Tells
        (erase_next (zipper l r))
        (cut (session_of (zipper l r) s) (cursor_of l) (next_boundary (bytes_of l r) (cursor_of l)))
cut_next_shown l [] s hl hr =
    cut_nothing (zipper l []) (session_of (zipper l []) s) (cursor_of l)
      (next_boundary (bytes_of l []) (cursor_of l)) (omega (arith, last_boundary (utf8_before l)))
      (shows l [] (bytes_of l []) (cursor_of l) hl hr refl refl)
cut_next_shown l (c ∷ r) s hl hr =
    cut_between (zipper l r) (utf8_before l) (utf8 c) (utf8_text r)
      (session_of (zipper l (c ∷ r)) s) (cursor_of l)
      (next_boundary (bytes_of l (c ∷ r)) (cursor_of l)) refl refl
      (right_boundary l r c hr.0 hr.1 ∙ length-append (utf8_before l) (utf8 c))
      (Sequence-fills [] (utf8 c) [] (utf8-Sequence c hr.0))
      (shows l r (bytes_of l r) (cursor_of l) hl hr.1 refl refl)

-- The same on any session that shows the zipper.
module _ (z : Zipper) (s : Session) (h : Shows z s.line s.cursor) where
  pub move_left-Tells : Tells (move_left z) (moved s (previous_boundary s.line s.cursor))
  move_left-Tells =
      at_session (λ s. Tells (move_left z) (moved s (previous_boundary s.line s.cursor))) z s h
        (move_left_shown z.before z.after h.scalars_before h.scalars_after)

  pub move_right-Tells : Tells (move_right z) (moved s (next_boundary s.line s.cursor))
  move_right-Tells =
      at_session (λ s. Tells (move_right z) (moved s (next_boundary s.line s.cursor))) z s h
        (move_right_shown z.before z.after h.scalars_before h.scalars_after)

  pub to_front-Tells : Tells (to_front z) (moved s 0)
  to_front-Tells =
      at_session (λ s. Tells (to_front z) (moved s 0)) z s h
        (to_front_shown z.before z.after h.scalars_before h.scalars_after)

  pub to_end-Tells : Tells (to_end z) (moved s (length s.line))
  to_end-Tells =
      at_session (λ s. Tells (to_end z) (moved s (length s.line))) z s h
        (to_end_shown z.before z.after h.scalars_before h.scalars_after)

  pub erase_last-Tells : Tells (erase_last z) (cut s (previous_boundary s.line s.cursor) s.cursor)
  erase_last-Tells =
      at_session (λ s. Tells (erase_last z) (cut s (previous_boundary s.line s.cursor) s.cursor)) z
        s h (cut_last_shown z.before z.after s h.scalars_before h.scalars_after)

  pub erase_next-Tells : Tells (erase_next z) (cut s s.cursor (next_boundary s.line s.cursor))
  erase_next-Tells =
      at_session (λ s. Tells (erase_next z) (cut s s.cursor (next_boundary s.line s.cursor))) z s h
        (cut_next_shown z.before z.after s h.scalars_before h.scalars_after)

  pub typed-Shows :
      (c : ℕ)
      → IsScalar c
      → Shows (typed c z) (inserted s.line s.cursor (utf8 c)) (s.cursor + length (utf8 c))
  typed-Shows c k =
      at_session
        (λ s. Shows (typed c z) (inserted s.line s.cursor (utf8 c)) (s.cursor + length (utf8 c))) z
        s h (typed_shown z.before z.after c h.scalars_before h.scalars_after k)

-- A whole text with the cursor behind it.
pub whole-Shows :
    (cs : List ℕ)
    → All IsScalar cs
    → Shows (to_end (zipper [] cs)) (utf8_text cs) (length (utf8_text cs))
whole-Shows cs h = to_end_shown [] cs tt h
