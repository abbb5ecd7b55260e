-- ===== src/LineEditor/Keeping.antt =====
-- Every key of LineEditor::ReadLine, for every answer of the terminal.
use mathlib.Core.Path.{subst}
use uefipp.Base.{
  ℕ, zero, suc, ◌+◌, ◌-◌, ◌≡◌, refl, sym, true, false, some, List, [], length, Bool, All, ltb, ◌==◌,
  Bool-cases, inl, inr, arith,
}
use uefipp.LineEditor.{
  KeyCode, KeyEvent, Options, Terminal, Session, no_memory, decreased, entry, recall_up,
  recall_down, on_character, on_key, next_boundary,
}
use uefipp.LineEditor.Texts.{
  Zipper, zipper, move_left, move_right, to_front, to_end, erase_next, Shows, shows,
}
use uefipp.LineEditor.Editing.{
  move_left-Tells, move_right-Tells, to_front-Tells, to_end-Tells, erase_next-Tells,
}
use uefipp.LineEditor.Effects.{
  IsText, Completion, completion_of, reads_character, leftward, rightward, homeward, endward,
  deletes, Effect, moves, types, ends, completes, recalls_up, recalls_down, clears, Supplies,
  Obstacle, denied, Refuses, entry-IsText, CompletesTexts,
}
use uefipp.LineEditor.Answering.{next_index-cut, Answers, assign-Answers}
use uefipp.LineEditor.Characters.{on_character-Answers}

decreased-sub : (i : ℕ) → decreased i ≡ i - 1
decreased-sub zero = omega arith
decreased-sub (suc i) = omega arith

-- Every key, on a session that shows `z`, where the completion gives `c`.
module _ {ℓ} {W : Type ℓ} (t : Terminal W) (o : Options) (history : List (List ℕ))
    (completes_texts : CompletesTexts t) (texts : All IsText history) (supplied : Bool)
    (supplies : supplied ≡ true → Supplies t) where
  recall_up-Answers :
      (k : KeyEvent) (c : Completion) (z : Zipper) (s : Session) (w : W)
      → k.code ≡ KeyCode.up
      → (length history == 0) ≡ false
      → Answers
          (Effect o history c s.history_index k z)
          (Refuses supplied o history c k s.line)
          (recall_up t o history s w).1
  unfolding recall_up
  recall_up-Answers k c z s w code some_history =
      let i = s.history_index - 1 in
      let q = entry-IsText history i texts in
      let effect : Effect o history c s.history_index k z (to_end (zipper [] q.points)) (some i) =
        recalls_up q.points code some_history (sym q.encoded) in
      rw (decreased-sub s.history_index) (
        assign-Answers t (Effect o history c s.history_index k z)
          (Refuses supplied o history c k s.line) supplied supplies (λ e d. rw code (denied e d))
          no_memory (entry history i) i s w q.points q.scalars q.encoded effect o history)

  recall_down-Answers :
      (k : KeyEvent) (c : Completion) (z : Zipper) (s : Session) (w : W)
      → k.code ≡ KeyCode.down
      → (length history == 0) ≡ false
      → Answers
          (Effect o history c s.history_index k z)
          (Refuses supplied o history c k s.line)
          (recall_down t o history s w).1
  unfolding recall_down
  recall_down-Answers k c z s w code some_history =
      elim (Bool-cases (ltb (s.history_index + 1) (length history))) [
        | inl y ↦
            (let q = entry-IsText history (s.history_index + 1) texts in
              rw y (
                assign-Answers t (Effect o history c s.history_index k z)
                  (Refuses supplied o history c k s.line) supplied supplies
                  (λ e d. rw code (denied e d)) no_memory (entry history (s.history_index + 1))
                  (s.history_index + 1) s w q.points q.scalars q.encoded
                  (recalls_down q.points code (ground arith) (sym q.encoded)) o history))
        | inr n ↦ rw n (
          zipper [] [],
          (clears code some_history (ground arith), shows [] [] [] 0 tt tt refl refl),
        )
      ]

  -- What a key does to the code points of the line, to the cursor among them and to the index into
  -- the history. Left, Right, Home, End and Delete move or delete one code point, and never fail;
  -- Escape fails, with Cancelled. With a history, Up recalls the entry before the index, or the first
  -- one, and Down the entry behind it, or empties the line at its end. Every other key is read as its
  -- character: a return ends the line as it is or, with AllowMultiline and Shift, breaks it; a tab
  -- puts what the completion gives in its place, where one is set; backspace deletes; the others are
  -- inserted or ignored. A line that is read is the UTF-8 of its code points. A key fails only where
  -- the terminal or the allocator denies a request (`supplied` is false), where the completion fails
  -- or gives more than MaximumBytes, or where a character that is inserted is no code point or has no
  -- room within MaximumBytes. The history and the texts that the completion gives are UTF-8.
  pub on_key-Answers :
      (k : KeyEvent) (z : Zipper) (s : Session) (w : W)
      → Shows z s.line s.cursor
      → Answers
          (Effect o history (completion_of t s.line w) s.history_index k z)
          (Refuses supplied o history (completion_of t s.line w) k s.line)
          (on_key t o history k s w).1
  unfolding on_key
  on_key-Answers k z s w h =
      let c = completion_of t s.line w in
      let plain : (k : KeyEvent)
          → reads_character history k.code ≡ true
          → Answers (Effect o history c s.history_index k z)
              (Obstacle supplied o history c k s.line) (on_character t o history k s w).1 =
        λ k read.
          on_character-Answers t o history k z (Effect o history c s.history_index k z) s c supplied
            supplies read (types read) (ends read) (λ cs. completes cs read) h w refl
            completes_texts in
      elim k.code
        as (λ code.
          Answers (Effect o history c s.history_index (record k { code = code }) z)
            (Refuses supplied o history c (record k { code = code }) s.line)
            (on_key t o history (record k { code = code }) s w).1) [
              | KeyCode.escape ↦ refl
              | KeyCode.left ↦
                  (move_left z, (moves (move_left z) (leftward z), move_left-Tells z s h))
              | KeyCode.right ↦
                  (move_right z, (moves (move_right z) (rightward z), move_right-Tells z s h))
              | KeyCode.home ↦ (to_front z, (moves (to_front z) (homeward z), to_front-Tells z s h))
              | KeyCode.last_key ↦ (to_end z, (moves (to_end z) (endward z), to_end-Tells z s h))
              | KeyCode.delete ↦ (
                erase_next z,
                (
                  subst
                      (Effect o history c s.history_index (record k { code = KeyCode.delete }) z
                        (erase_next z))
                      (next_index-cut s s.cursor (next_boundary s.line s.cursor))
                      (moves (erase_next z) (deletes z)),
                  erase_next-Tells z s h,
                ),
              )
              | KeyCode.up ↦
                  (let key = record k { code = KeyCode.up } in
                    elim (Bool-cases (length history == 0)) [
                      | inl y ↦ rw y (plain key y)
                      | inr n ↦ rw n (recall_up-Answers key c z s w refl n)
                    ])
              | KeyCode.down ↦
                  (let key = record k { code = KeyCode.down } in
                    elim (Bool-cases (length history == 0)) [
                      | inl y ↦ rw y (plain key y)
                      | inr n ↦ rw n (recall_down-Answers key c z s w refl n)
                    ])
              | code ↦ plain (record k { code = code }) refl
            ]
