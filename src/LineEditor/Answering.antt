-- ===== src/LineEditor/Answering.antt =====
-- What the calls of LineEditor::ReadLine that replace or lengthen the line leave, and how they fail.
use uefipp.Base.{
  ℕ, ◌+◌, ◌≡◌, refl, Bool, true, false, Option, none, some, List, [], length, length-append, ap,
  ◌∙◌, arith, All, ltb, if◌then◌else◌, Expected, value, unexpected, Bool-cases, Expected-cases, inl,
  inr,
}
use uefipp.Io.{Error}
use uefipp.Text.Encoding.{IsScalar, utf8, utf8_text}
use uefipp.LineEditor.{
  Options, Terminal, Session, Turn, going, ended, ◌>>=◌, give, fail, or_fail, assign, insert,
  inserted, cut,
}
use uefipp.LineEditor.Texts.{Zipper, zipper, utf8_before, to_end, typed, Shows, Tells}
use uefipp.LineEditor.Editing.{typed-Shows, whole-Shows}
use uefipp.LineEditor.Effects.{Supplies}

-- A property of what a call gives, kept by chains of calls.
pub bind_holds {ℓ} :
    {W : Type ℓ} {A B : Type 0} (P : Expected Error B → Type 0) (m : W → W × Expected Error A)
    (k : A → W → W × Expected Error B) (w : W)
    → ((e : Error) → (m w).1 ≡ unexpected e → P (unexpected e))
    → ((a : A) (v : W) → (m w).1 ≡ value a → P (k a v).1)
    → P ((m >>= k) w).1
bind_holds P m k w refused h = elim (Expected-cases (m w).1) [
  | inl (a, e) ↦ rw (e, ◌>>=◌) (h a (m w).0 e)
  | inr (x, e) ↦ rw (e, ◌>>=◌) (refused x e)
]

-- The index into the history where the loop goes on.
abbrev pub next_index : Turn → Option ℕ
next_index (going s changed) = some s.history_index
next_index (ended text) = none

pub next_index-cut : (s : Session) (b e : ℕ) → some s.history_index ≡ next_index (cut s b e)
next_index-cut s b e = elim (Bool-cases (ltb b e)) [ inl y ↦ rw y refl | inr n ↦ rw n refl ]

-- The turn leaves what an effect gives, or fails as it may.
abbrev pub Answers : (Zipper → Option ℕ → Type 0) → (Error → Type 0) → Expected Error Turn → Type 0
Answers E F (unexpected e) = F e
Answers E F (value turn) = (z : Zipper) × (E z (next_index turn) × Tells z turn)

-- The cursor of a line that is shown stands in the line.
pub cursor_inside :
    (z : Zipper) (s : Session) → Shows z s.line s.cursor → ltb (length s.line) s.cursor ≡ false
cursor_inside z s h =
    let whole = ap length h.bytes_are ∙ length-append (utf8_before z.before) (utf8_text z.after) in
    let place = h.cursor_is in ground arith

module _ {ℓ} {W : Type ℓ} (t : Terminal W) (E : Zipper → Option ℕ → Type 0) (F : Error → Type 0)
    (supplied : Bool) (supplies : supplied ≡ true → Supplies t)
    (refuse : (e : Error) → supplied ≡ false → F e) where
  -- A call that succeeds where its requests are granted fails only where they are denied.
  pub unsupplied :
      {A : Type 0}
      → (e : Error) (r : Expected Error A) → r ≡ unexpected e
      → (Supplies t → (a : A) × (r ≡ value a))
      → F e
  unsupplied e r g h = elim (Bool-cases supplied) [
    | inl y ↦ let (a, k) = h (supplies y) in absurd (cc (g, k))
    | inr n ↦ refuse e n
  ]

  grown : (n : ℕ) (e x : Error) (w : W) → (or_fail (t.grow n) e w).1 ≡ unexpected x → F x
  grown n e x w g = unsupplied x (or_fail (t.grow n) e w).1 g (λ p. (tt, rw (p.grows n w) refl))

  pub assign-Answers :
      (e : Error) (text : List ℕ) (i : ℕ) (s : Session) (w : W) (cs : List ℕ)
      → All IsScalar cs
      → text ≡ utf8_text cs
      → E (to_end (zipper [] cs)) (some i)
      → (o : Options) (history : List (List ℕ)) → Answers E F (assign t o history e text i s w).1
  assign-Answers e text i s w cs h same k o history =
      bind_holds (Answers E F) (or_fail (t.grow (length text + 1)) e)
        (λ _. give (going (record s { line = text; cursor = length text; history_index = i }) true))
        w (λ x. grown (length text + 1) e x w)
        (λ _ v _. (to_end (zipper [] cs), (k, rw same (whole-Shows cs h))))

  pub insert-Answers :
      (e : Error) (s : Session) (w : W) (z : Zipper) (c : ℕ)
      → Shows z s.line s.cursor
      → IsScalar c
      → E (typed c z) (some s.history_index)
      → (o : Options) (history : List (List ℕ)) → Answers E F (insert t o history e (utf8 c) s w).1
  insert-Answers e s w z c h k effect o history = rw (cursor_inside z s h) (
      bind_holds (Answers E F) (or_fail (t.grow (length s.line + length (utf8 c) + 1)) e)
        (λ _. give (
          going
            (record s {
              line = inserted s.line s.cursor (utf8 c);
              cursor = s.cursor + length (utf8 c);
            })
            true))
        w (λ x. grown (length s.line + length (utf8 c) + 1) e x w)
        (λ _ v _. (typed c z, (effect, typed-Shows z s h c k))))

  pub unless_fails :
      (b : Bool) (e : Error) (m : W → W × Expected Error Turn) (w : W)
      → (b ≡ true → F e)
      → Answers E F (m w).1
      → Answers E F ((if b then fail e else m) w).1
  unless_fails true e m w g h = g refl
  unless_fails false e m w g h = h
