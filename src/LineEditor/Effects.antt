-- ===== src/LineEditor/Effects.antt =====
-- What the keys of LineEditor::ReadLine may do to a line of code points, and how they may fail.
use uefipp.Base.{
  ℕ, zero, suc, ◌+◌, ◌-◌, ◌≤◌, ◌<◌, ◌≡◌, refl, Bool, true, false, not, ◌&&◌, ◌||◌, Option, none,
  some, get_or, List, [], ◌∷◌, length, All, leb, ◌==◌, if◌then◌else◌, Expected, value, unexpected,
}
use uefipp.Io.{Error, ErrorCode, Operation, semantic}
use uefipp.Text.Encoding.{IsScalar, utf8, utf8_text}
use uefipp.LineEditor.{KeyCode, KeyEvent, shift, Options, Terminal, too_long, entry}
use uefipp.LineEditor.Texts.{
  Zipper, zipper, move_left, move_right, to_front, to_end, erase_last, erase_next, typed,
}

-- The bytes are the UTF-8 of some code points.
pub record IsText (bytes : List ℕ) : Type 0 where
  pub points : List ℕ
  pub scalars : All IsScalar points
  pub encoded : bytes ≡ utf8_text points

-- What the function that SetCompletion set gives for a line: there is none, it fails, or a text.
pub data Completion : Type 0 where
  absent refusing : Completion
  giving : List ℕ → Completion

abbrev pub completion_of {ℓ} : {W : Type ℓ} → Terminal W → List ℕ → W → Completion
completion_of t line w = elim t.completion [
  | none ↦ absent
  | some complete ↦ elim (complete line w).1 [ value text ↦ giving text | unexpected e ↦ refusing ]
]

abbrev pub is_return : KeyEvent → Bool
is_return k = (k.character == 0x0d) || (k.character == 0x0a)

-- A return key that breaks the line in place of ending it.
abbrev pub breaks : Options → KeyEvent → Bool
breaks o k = o.allow_multiline && shift k

abbrev pub completing : Completion → Bool
completing absent = false
completing refusing = true
completing (giving text) = true

-- Whether a character edits the line: it neither ends it nor asks for its completion.
abbrev pub edits : Options → Completion → KeyEvent → Bool
edits o c k = not (is_return k && not (breaks o k)) && not ((k.character == 9) && completing c)

-- The keys that are read as their character: all but those of editing, and with a history Up and Down.
abbrev pub reads_character : List (List ℕ) → KeyCode → Bool
reads_character history code = elim code [
  | KeyCode.escape ↦ false
  | KeyCode.left ↦ false
  | KeyCode.right ↦ false
  | KeyCode.home ↦ false
  | KeyCode.last_key ↦ false
  | KeyCode.delete ↦ false
  | KeyCode.up ↦ length history == 0
  | KeyCode.down ↦ length history == 0
  | _ ↦ true
]

-- A character that edits the line: a line break, backspace, or text, where a tab needs AllowMultiline.
abbrev pub character_effect : Options → ℕ → Zipper → Zipper
character_effect o c z =
    if c == 0
    then z
    else if (c == 0x0d) || (c == 0x0a)
    then typed 0x0a z
    else if c == 8
    then erase_last z
    else if leb 0x20 c || (o.allow_multiline && (c == 9))
    then typed c z
    else z

-- The keys of editing.
pub data Moves : KeyCode → Zipper → Zipper → Type 0 where
  leftward : (z : Zipper) → Moves KeyCode.left z (move_left z)
  rightward : (z : Zipper) → Moves KeyCode.right z (move_right z)
  homeward : (z : Zipper) → Moves KeyCode.home z (to_front z)
  endward : (z : Zipper) → Moves KeyCode.last_key z (to_end z)
  deletes : (z : Zipper) → Moves KeyCode.delete z (erase_next z)

-- What becomes of the line of code points, and of the index into the history where the loop goes on;
-- none stands for a line that is read. `index` is the index before, and `c` what completion gives.
pub data Effect (o : Options) (history : List (List ℕ)) (c : Completion) (index : ℕ) (k : KeyEvent)
    (z : Zipper) : Zipper → Option ℕ → Type 0 where
  moves : (z' : Zipper) → Moves k.code z z' → Effect o history c index k z z' (some index)
  types :
      reads_character history k.code ≡ true
      → edits o c k ≡ true
      → Effect o history c index k z (character_effect o k.character z) (some index)
  ends :
      reads_character history k.code ≡ true
      → is_return k ≡ true
      → breaks o k ≡ false
      → Effect o history c index k z z none
  completes :
      (cs : List ℕ)
      → reads_character history k.code ≡ true
      → k.character ≡ 9
      → c ≡ giving (utf8_text cs)
      → Effect o history c index k z (to_end (zipper [] cs)) (some index)
  recalls_up :
      (cs : List ℕ)
      → k.code ≡ KeyCode.up
      → (length history == 0) ≡ false
      → utf8_text cs ≡ get_or history (index - 1) []
      → Effect o history c index k z (to_end (zipper [] cs)) (some (index - 1))
  recalls_down :
      (cs : List ℕ)
      → k.code ≡ KeyCode.down
      → index + 1 < length history
      → utf8_text cs ≡ get_or history (index + 1) []
      → Effect o history c index k z (to_end (zipper [] cs)) (some (index + 1))
  clears :
      k.code ≡ KeyCode.down
      → (length history == 0) ≡ false
      → length history ≤ index + 1
      → Effect o history c index k z (zipper [] []) (some (length history))

-- What the editor asks the terminal and the allocator for is granted.
pub record Supplies {ℓ} {W : Type ℓ} (t : Terminal W) : Type ℓ where
  pub grows : (n : ℕ) (w : W) → (t.grow n w).1 ≡ true
  pub remembers : (text : List ℕ) (w : W) → (t.remember text w).1 ≡ true
  pub writes : (bytes : List ℕ) (w : W) → (t.write bytes w).1 ≡ value tt
  pub flushes : (w : W) → (t.flush w).1 ≡ value tt

-- A character that is inserted as itself.
abbrev pub inserts : Options → Completion → KeyEvent → Bool
inserts o c k = (leb 0x20 k.character || (o.allow_multiline && (k.character == 9))) && edits o c k

-- Why a key that is not one of editing may end the call with an error, on a line of bytes. `supplied`
-- tells whether the terminal and the allocator grant what they are asked for.
pub data Obstacle (supplied : Bool) (o : Options) (history : List (List ℕ)) (c : Completion)
    (k : KeyEvent) (line : List ℕ) : Error → Type 0 where
  denied : (e : Error) → supplied ≡ false → Obstacle supplied o history c k line e
  uncompleted :
      (e : Error)
      → reads_character history k.code ≡ true
      → k.character ≡ 9
      → c ≡ refusing
      → Obstacle supplied o history c k line e
  completion_too_long :
      (text : List ℕ)
      → reads_character history k.code ≡ true
      → k.character ≡ 9
      → c ≡ giving text
      → o.maximum_bytes < length text
      → Obstacle supplied o history c k line too_long
  break_too_long :
      reads_character history k.code ≡ true
      → is_return k ≡ true
      → breaks o k ≡ true
      → length line ≡ o.maximum_bytes
      → Obstacle supplied o history c k line too_long
  no_code_point :
      (e : Error)
      → reads_character history k.code ≡ true
      → inserts o c k ≡ true
      → (IsScalar k.character → ⊥)
      → Obstacle supplied o history c k line e
  text_too_long :
      reads_character history k.code ≡ true
      → inserts o c k ≡ true
      → o.maximum_bytes < length line + length (utf8 k.character)
      → Obstacle supplied o history c k line too_long

-- The errors that a key may end the call with: `Cancelled` for Escape, none for the keys of editing.
abbrev pub Refuses :
    Bool → Options → List (List ℕ) → Completion → KeyEvent → List ℕ → Error → Type 0
Refuses supplied o history c k line e = elim k.code [
  | KeyCode.escape ↦ e ≡ semantic ErrorCode.cancelled Operation.read
  | KeyCode.left ↦ ⊥
  | KeyCode.right ↦ ⊥
  | KeyCode.home ↦ ⊥
  | KeyCode.last_key ↦ ⊥
  | KeyCode.delete ↦ ⊥
  | _ ↦ Obstacle supplied o history c k line e
]

pub empty-IsText : IsText []
empty-IsText = record { points = []; scalars = tt; encoded = refl }

pub entry-IsText : (history : List (List ℕ)) (i : ℕ) → All IsText history → IsText (entry history i)
entry-IsText [] i h = empty-IsText
entry-IsText (x ∷ xs) zero h = h.0
entry-IsText (x ∷ xs) (suc i) h = entry-IsText xs i h.1

-- The completion, where there is one, gives UTF-8.
abbrev pub CompletesTexts {ℓ} : {W : Type ℓ} → Terminal W → Type ℓ
CompletesTexts {W = W} t =
    (complete : List ℕ → W → W × Expected Error (List ℕ))
    → t.completion ≡ some complete
    → (bytes : List ℕ) (w : W) (text : List ℕ) → (complete bytes w).1 ≡ value text
    → IsText text
