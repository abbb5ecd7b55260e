-- ===== src/LineEditor/Redraw/Reading.antt =====
-- Whole runs of LineEditor::ReadLine: every sequence of keys, and every answer of the terminal.
use uefipp.Base.{
  ℕ, refl, Bool, true, false, not, Option, some, ◌&&◌, List, [], ◌∷◌, length, All, All-append, ◌==◌,
  if◌then◌else◌, Expected, value, unexpected, Bool-cases, Expected-cases, inl, inr,
}
use mathlib.Core.Path.{subst}
use uefipp.Io.{Error}
use uefipp.LineEditor.{
  KeyEvent, Options, Geometry, Terminal, Session, Turn, going, ended, give, on_key,
}
use uefipp.LineEditor.Redraw.{
  redraw, redrawn, after_key, turn, Outcome, waiting, finished, opened, read_keys, nowhere,
  read_line, history_after,
}
use uefipp.LineEditor.Texts.{Zipper, zipper, Shows, shows}
use uefipp.LineEditor.Effects.{IsText, Effect, completion_of, Refuses, CompletesTexts}
use uefipp.LineEditor.Answering.{bind_holds, Answers}
use uefipp.LineEditor.Keeping.{on_key-Answers}
use uefipp.LineEditor.Texts.{text_of}

-- The line and the cursor stand for some code points and a place among them.
pub IsShown : Session → Type 0
IsShown s = (z : Zipper) × Shows z s.line s.cursor

pub Reads : Outcome → Type 0
Reads (waiting s) = IsShown s
Reads (finished (value text)) = IsText text
Reads (finished (unexpected e)) = Unit {0}

-- A turn may also fail where Redraw does.
abbrev pub AnyError : Error → Type 0
AnyError e = Unit {0}

whatever :
    (E : Zipper → Option ℕ → Type 0) (F : Error → Type 0) (r : Expected Error Turn)
    → Answers E F r
    → Answers E AnyError r
whatever E F (unexpected e) a = tt
whatever E F (value turn) a = a

module _ {ℓ} {W : Type ℓ} (t : Terminal W) (o : Options) (history : List (List ℕ))
    (completes : CompletesTexts t) (texts : All IsText history) (origin : Geometry) where
  drawn-Answers :
      (E : Zipper → Option ℕ → Type 0) (z : Zipper) (s : Session) (changed b : Bool) (w : W)
      → E z (some s.history_index)
      → Shows z s.line s.cursor
      → Answers E AnyError ((if b then redrawn t o origin s else give (going s changed)) w).1
  unfolding redrawn
  drawn-Answers E z s changed false w e h = (z, (e, h))
  drawn-Answers E z s changed true w e h =
      bind_holds (Answers E AnyError) (redraw t o origin s)
        (λ cells. give (going (record s { previous_cells = cells }) true)) w (λ e _. tt)
        (λ cells v _. (z, (e, h)))

  after_key-Answers :
      (E : Zipper → Option ℕ → Type 0) (done : Turn) (w : W)
      → Answers E AnyError (value done)
      → Answers E AnyError (after_key t o origin done w).1
  after_key-Answers E (ended text) w a = a
  after_key-Answers E (going s changed) w (z, (e, h)) =
      drawn-Answers E z s changed (changed && o.echo) w e h

  -- A turn of the loop leaves what an effect of the key gives, redrawn or not.
  pub turn-Answers :
      (k : KeyEvent) (z : Zipper) (s : Session) (w : W)
      → Shows z s.line s.cursor
      → Answers
          (Effect o history (completion_of t s.line w) s.history_index k z)
          AnyError
          (turn t o history origin k s w).1
  unfolding turn
  turn-Answers k z s w h =
      let E = Effect o history (completion_of t s.line w) s.history_index k z in
      bind_holds (Answers E AnyError) (on_key t o history k s) (after_key t o origin) w (λ e _. tt)
        (λ done v e. after_key-Answers E done v (
          subst (Answers E AnyError) e (
            whatever E (Refuses false o history (completion_of t s.line w) k s.line)
              (on_key t o history k s w).1
              (on_key-Answers t o history completes texts false (λ p. cc p) k z s w h))))

  after_turn :
      (keys : List (Expected Error KeyEvent)) (E : Zipper → Option ℕ → Type 0)
      (r : W × Expected Error Turn)
      → ((z : Zipper) (s : Session) (w : W)
          → Shows z s.line s.cursor
          → Reads (read_keys t o history origin keys s w).1)
      → Answers E AnyError r.1
      → Reads
          (elim r.1 as (λ x. W × Outcome) [
            | unexpected e ↦ (r.0, finished (unexpected e))
            | value (ended text) ↦ (r.0, finished (value text))
            | value (going s changed) ↦ read_keys t o history origin keys s r.0
          ]).1
  unfolding Reads
  after_turn keys E (w, unexpected e) go a = tt
  after_turn keys E (w, value (going s changed)) go (z', (e, h)) = go z' s w h
  after_turn keys E (w, value (ended text)) go (z', (e, h)) = record {
    points = text_of z';
    scalars = h.0;
    encoded = h.1;
  }

  read_keys-Reads :
      (keys : List (Expected Error KeyEvent)) (z : Zipper) (s : Session) (w : W)
      → Shows z s.line s.cursor
      → Reads (read_keys t o history origin keys s w).1
  unfolding read_keys IsShown Reads
  read_keys-Reads [] z s w h = (z, h)
  read_keys-Reads (unexpected e ∷ keys) z s w h = tt
  read_keys-Reads (value k ∷ keys) z s w h =
      after_turn keys (Effect o history (completion_of t s.line w) s.history_index k z)
        (turn t o history origin k s w) (read_keys-Reads keys) (turn-Answers k z s w h)

unless_echo {ℓ} :
    {W : Type ℓ} (b : Bool) (w : W) (e : Error) (r : W × Outcome)
    → Reads r.1
    → Reads (if b then (w, finished (unexpected e)) else r).1
unfolding Reads
unless_echo true w e r h = tt
unless_echo false w e r h = h

module _ {ℓ} {W : Type ℓ} (t : Terminal W) (o : Options) (history : List (List ℕ))
    (completes : CompletesTexts t) (texts : All IsText history) where
  -- Whatever the keys and the terminal's answers: where a call of ReadLine still waits, its line is
  -- UTF-8 and its cursor stands between two code points, and a line that it returns is UTF-8, if the
  -- history and what the completion gives are.
  pub read_line-Reads :
      (keys : List (Expected Error KeyEvent)) (w : W) → Reads (read_line t o history keys w).1
  unfolding read_line Reads
  read_line-Reads keys w =
      let start : Shows (zipper [] []) [] 0 = shows [] [] [] 0 tt tt refl refl in
      elim (Bool-cases (t.valid w)) [
        | inr n ↦ rw n tt
        | inl y ↦ rw y (elim (Expected-cases (t.geometry w)) [
          | inl (origin, e) ↦ rw e (
              read_keys-Reads t o history completes texts origin keys (zipper [] [])
                (opened history) w start)
          | inr (x, e) ↦ rw e (
              unless_echo o.echo w x (read_keys t o history nowhere keys (opened history) w) (
                read_keys-Reads t o history completes texts nowhere keys (zipper [] [])
                  (opened history) w start))
        ])
      ]

  kept : (r : Outcome) → Reads r → All IsText (history_after t o history r)
  unfolding history_after Reads
  kept (waiting s) h = texts
  kept (finished (unexpected e)) h = texts
  kept (finished (value text)) h = elim (Bool-cases (o.add_to_history && not (length text == 0))) [
    | inl y ↦ rw y (All-append IsText history (text ∷ []) texts (h, tt))
    | inr n ↦ rw n texts
  ]

  -- A call of ReadLine keeps the history UTF-8, however it ends.
  pub read_line-IsText :
      (keys : List (Expected Error KeyEvent)) (w : W)
      → All IsText (history_after t o history (read_line t o history keys w).1)
  read_line-IsText keys w = kept (read_line t o history keys w).1 (read_line-Reads keys w)
