-- ===== src/LineEditor/Characters.antt =====
-- The characters in LineEditor::ReadLine: the return key, the completion and text.
use uefipp.Base.{
  ℕ, ◌-◌, ◌≡◌, refl, sym, ap, ◌∙◌, Option, none, some, Bool, true, false, not, ◌&&◌, ◌||◌, List, [],
  ◌∷◌, length, ltb, leb, ◌==◌, if◌then◌else◌, Expected, value, unexpected, arith, Bool-cases,
  Option-cases, inl, inr,
}
use mathlib.Core.Path.{subst}
use uefipp.Io.{Error}
use uefipp.Text.{encode_utf8}
use uefipp.Text.Encoding.{scalar, utf8, utf8_text, encode_utf8_iff}
use uefipp.LineEditor.{
  KeyEvent, Options, Terminal, Session, Turn, going, ended, ◌>>◌, ◌>>=◌, give, fail, or_fail,
  no_memory, too_long, assign, insert, on_return, on_completion, on_text, on_character,
  previous_boundary,
}
use uefipp.LineEditor.Texts.{
  Zipper, zipper, to_end, erase_last, typed, Shows, utf8_text-shifted, All-shifted,
}
use uefipp.LineEditor.Editing.{erase_last-Tells}
use uefipp.LineEditor.Effects.{
  IsText, Completion, absent, refusing, giving, completion_of, is_return, breaks, edits, inserts,
  reads_character, character_effect, Supplies, Obstacle, denied, uncompleted, completion_too_long,
  break_too_long, no_code_point, text_too_long, CompletesTexts,
}
use uefipp.LineEditor.Answering.{
  next_index-cut, bind_holds, Answers, unsupplied, assign-Answers, insert-Answers, unless_fails,
}

-- A bind of calls that succeed.
succeeds {ℓ} :
    {W : Type ℓ} {A B : Type 0} (m : W → W × Expected Error A) (k : A → W → W × Expected Error B)
    (w : W) (a : A) (b : B)
    → (m w).1 ≡ value a
    → ((v : W) → (k a v).1 ≡ value b)
    → ((m >>= k) w).1 ≡ value b
succeeds m k w a b e h = rw (◌>>=◌, e) (h (m w).0)

-- What a character does, where `E` holds of each effect that it can have.
module _ {ℓ} {W : Type ℓ} (t : Terminal W) (o : Options) (history : List (List ℕ)) (k : KeyEvent)
    (z : Zipper) (E : Zipper → Option ℕ → Type 0) (s : Session) (c : Completion) (supplied : Bool)
    (supplies : supplied ≡ true → Supplies t) (read : reads_character history k.code ≡ true)
    (act : edits o c k ≡ true → E (character_effect o k.character z) (some s.history_index))
    (end : is_return k ≡ true → breaks o k ≡ false → E z none)
    (complete : (cs : List ℕ)
      → k.character ≡ 9
      → c ≡ giving (utf8_text cs)
      → E (to_end (zipper [] cs)) (some s.history_index))
    (h : Shows z s.line s.cursor) where
  abbrev Fails : Error → Type 0
  Fails = Obstacle supplied o history c k s.line

  on_text-Answers :
      (w : W)
      → inserts o c k ≡ true
      → character_effect o k.character z ≡ typed k.character z
      → Answers E Fails (on_text t o history k s w).1
  unfolding on_text
  on_text-Answers w ok e =
      let rest : List ℕ → W → W × Expected Error Turn = λ bytes.
        if ltb o.maximum_bytes (length s.line)
          || ltb (o.maximum_bytes - length s.line) (length bytes)
        then fail too_long
        else insert t o history no_memory bytes s in
      bind_holds (Answers E Fails) (λ w. (w, encode_utf8 k.character)) rest w
        (λ x g.
          no_code_point x read ok
            (λ scalar. cc (g, (encode_utf8_iff k.character (utf8 k.character)).1 (scalar, refl))))
        (λ bytes v g.
          let (scalar, same) = (encode_utf8_iff k.character bytes).0 g in
          rw same (
            unless_fails t E Fails supplied supplies denied
              (ltb o.maximum_bytes (length s.line)
                || ltb (o.maximum_bytes - length s.line) (length (utf8 k.character)))
              too_long (insert t o history no_memory (utf8 k.character) s) v
              (λ y. text_too_long read ok (ground arith))
              (insert-Answers t E Fails supplied supplies denied no_memory s v z k.character h
                scalar (subst (λ x. E x (some s.history_index)) e (act (ground arith))) o history)))

  -- What comes before the line is handed over.
  ends_well :
      (w : W)
      → Supplies t
      → (((if o.echo then t.write (0x0d ∷ 0x0a ∷ []) >> t.flush else give tt)
            >> (if o.add_to_history && not (length s.line == 0)
                then or_fail (t.remember s.line) no_memory
                else give tt))
          w).1
        ≡ value tt
  ends_well w p =
      succeeds (if o.echo then t.write (0x0d ∷ 0x0a ∷ []) >> t.flush else give tt)
        (λ _.
          if o.add_to_history && not (length s.line == 0)
          then or_fail (t.remember s.line) no_memory
          else give tt)
        w tt tt
        (elim (Bool-cases o.echo) [
          | inl y ↦ rw y (
              succeeds (t.write (0x0d ∷ 0x0a ∷ [])) (λ _. t.flush) w tt tt
                (p.writes (0x0d ∷ 0x0a ∷ []) w) p.flushes)
          | inr n ↦ rw n refl
        ])
        (λ v. elim (Bool-cases (o.add_to_history && not (length s.line == 0))) [
          | inl y ↦ rw (y, p.remembers s.line v) refl
          | inr n ↦ rw n refl
        ])

  on_return-Answers :
      (w : W)
      → is_return k ≡ true
      → (breaks o k ≡ true → edits o c k ≡ true)
      → character_effect o k.character z ≡ typed 0x0a z
      → Answers E Fails (on_return t o history k s w).1
  unfolding on_return
  on_return-Answers w r ok e = elim (Bool-cases (breaks o k)) [
    | inl y ↦ rw y (
        unless_fails t E Fails supplied supplies denied (length s.line == o.maximum_bytes) too_long
          (insert t o history too_long (0x0a ∷ []) s) w
          (λ full. break_too_long read r y (ground arith))
          (insert-Answers t E Fails supplied supplies denied too_long s w z 0x0a h
            (scalar 0x0a refl) (subst (λ x. E x (some s.history_index)) e (act (ok y))) o history))
    | inr n ↦ rw n (
        let first =
          (if o.echo then t.write (0x0d ∷ 0x0a ∷ []) >> t.flush else give tt)
          >> (if o.add_to_history && not (length s.line == 0)
              then or_fail (t.remember s.line) no_memory
              else give tt) in
        bind_holds (Answers E Fails) first (λ _ w. (t.on_line s.line w, value (ended s.line))) w
          (λ x g.
            unsupplied t E Fails supplied supplies denied x (first w).1 g
              (λ p. (tt, ends_well w p)))
          (λ _ v _. (
            z,
            (
              end r n,
              (
                All-shifted z.before z.after h.scalars_before h.scalars_after,
                h.bytes_are ∙ sym (utf8_text-shifted z.before z.after),
              ),
            ),
          )))
  ]

  on_completion-Answers :
      (f : List ℕ → W → W × Expected Error (List ℕ)) (w : W)
      → k.character ≡ 9
      → ((text : List ℕ) → (f s.line w).1 ≡ value text → IsText text × (c ≡ giving text))
      → ((e : Error) → (f s.line w).1 ≡ unexpected e → c ≡ refusing)
      → Answers E Fails (on_completion t o history f s w).1
  unfolding on_completion
  on_completion-Answers f w r g refused =
      bind_holds (Answers E Fails) (f s.line)
        (λ text.
          if ltb o.maximum_bytes (length text)
          then fail too_long
          else assign t o history too_long text s.history_index s)
        w (λ x e. uncompleted x read r (refused x e))
        (λ text v e.
          let (q, given) = g text e in
          unless_fails t E Fails supplied supplies denied (ltb o.maximum_bytes (length text))
            too_long (assign t o history too_long text s.history_index s) v
            (λ y. completion_too_long text read r given (ground arith))
            (assign-Answers t E Fails supplied supplies denied too_long text s.history_index s v
              q.points q.scalars q.encoded (complete q.points r (given ∙ ap giving q.encoded)) o
              history))

  on_plain-Answers :
      (w : W) (b : Bool)
      → edits o c k ≡ true
      → (b ≡ true → inserts o c k ≡ true)
      → (b ≡ true → character_effect o k.character z ≡ typed k.character z)
      → (b ≡ false → character_effect o k.character z ≡ z)
      → Answers E Fails ((if b then on_text t o history k s else give (going s false)) w).1
  on_plain-Answers w true ok i e f = on_text-Answers w (i refl) (e refl)
  on_plain-Answers w false ok i e f =
      (z, (subst (λ x. E x (some s.history_index)) (f refl) (act ok), h))

  pub on_character-Answers :
      (w : W)
      → c ≡ completion_of t s.line w
      → CompletesTexts t
      → Answers E Fails (on_character t o history k s w).1
  unfolding on_character
  on_character-Answers w same g = elim (Bool-cases (k.character == 0)) [
    | inl y ↦
        rw y (z, (subst (λ x. E x (some s.history_index)) (rw y refl) (act (ground arith)), h))
    | inr n ↦ rw n (elim (Bool-cases (is_return k)) [
      | inl y ↦ rw y (on_return-Answers w y (λ a. ground arith) (rw (n, y) refl))
      | inr m ↦ rw m (elim (Bool-cases (k.character == 8)) [
        | inl y ↦ rw y (
          erase_last z,
          (
            subst (E (erase_last z)) (next_index-cut s (previous_boundary s.line s.cursor) s.cursor)
                (subst (λ x. E x (some s.history_index)) (rw (n, m, y) refl) (act (ground arith))),
            erase_last-Tells z s h,
          ),
        )
        | inr b ↦ rw b (elim (Bool-cases (k.character == 9)) [
          | inr d ↦ rw d (
              on_plain-Answers w (leb 0x20 k.character || (o.allow_multiline && false))
                (rw (m, d) refl) (λ p. rw (m, d, p) refl) (λ p. rw (n, m, b, d, p) refl)
                (λ p. rw (n, m, b, d, p) refl))
          | inl y ↦ rw y (elim (Option-cases t.completion) [
            | inl e ↦
                let none_set : c ≡ absent = same ∙ rw (completion_of, e) refl in
                rw e (
                  on_plain-Answers w
                    (leb 0x20 k.character || (o.allow_multiline && (k.character == 9)))
                    (rw (m, y, none_set) refl) (λ p. rw (p, m, y, none_set) refl)
                    (λ p. rw (n, m, b, p) refl) (λ p. rw (n, m, b, p) refl))
            | inr (f, e) ↦ rw e (
                on_completion-Answers f w (ground arith)
                  (λ text r. (g f e s.line w text r, same ∙ rw (completion_of, e, r) refl))
                  (λ x r. same ∙ rw (completion_of, e, r) refl))
          ])
        ])
      ])
    ])
  ]
