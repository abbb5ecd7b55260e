-- ===== src/LineEditor.antt =====
-- UEFIpp/Source/IO/Terminal/LineEditor.cpp, with KeyEvent of
-- UEFIpp/Include/UEFIpp/IO/Terminal/Terminal.hpp and the operations of
-- UEFIpp/Include/UEFIpp/Library/String/BasicString.hpp that it calls. A string is the list of its
-- bytes. The terminal, the allocator and the callbacks are the operations of `Terminal` on a state.
pub mod Redraw
pub mod Boundaries
pub mod Texts
pub mod Editing
pub mod Effects
pub mod Answering
pub mod Characters
pub mod Keeping
use uefipp.Base.{
  ℕ, zero, suc, ◌+◌, ◌-◌, ◌*◌, ◌/◌, ◌%◌, ◌^◌, Bool, true, false, not, ◌&&◌, ◌||◌, Option, none,
  some, List, [], ◌∷◌, ◌++◌, length, get_or, take, drop, replicate, bit_and, leb, ltb, ◌==◌,
  if◌then◌else◌, Expected, value, unexpected,
}
use uefipp.Io.{Error, ErrorCode, Operation, semantic}
use uefipp.Text.{encode_utf8}

pub data KeyCode : Type 0 where
  no_key up down right left home last_key insert_key delete page_up page_down : KeyCode
  function_1 function_2 function_3 function_4 function_5 function_6 function_7 : KeyCode
  function_8 function_9 function_10 escape unknown : KeyCode

pub record KeyEvent : Type 0 where
  pub code : KeyCode
  pub character : ℕ
  pub shift_state : ℕ

-- `KeyModifiers::Shift`: bit 0 is the right shift key, bit 1 the left one.
abbrev pub shift : KeyEvent → Bool
shift k = not (bit_and k.shift_state 3 == 0)

-- `LineEditorOptions`, less `Wait`, which only the terminal reads.
pub record Options : Type 0 where
  pub maximum_bytes : ℕ
  pub echo : Bool
  pub mask_input : Bool
  pub allow_multiline : Bool
  pub add_to_history : Bool

pub record Geometry : Type 0 where
  pub columns : ℕ
  pub rows : ℕ
  pub column : ℕ
  pub row : ℕ

-- What the editor calls: the terminal, the storage of strings (`grow` for so many bytes, and
-- `remember` for the history), the function set by SetCompletion and the event OnLine.
pub record Terminal {ℓ} (W : Type ℓ) : Type ℓ where
  pub valid : W → Bool
  pub geometry : W → Expected Error Geometry
  pub write : List ℕ → W → W × Expected Error (Unit {0})
  pub flush : W → W × Expected Error (Unit {0})
  pub set_cursor : ℕ → ℕ → W → W × Expected Error (Unit {0})
  pub grow : ℕ → W → W × Bool
  pub remember : List ℕ → W → W × Bool
  pub on_line : List ℕ → W → W
  pub completion : Option (List ℕ → W → W × Expected Error (List ℕ))

-- A call that fails ends the caller.
infixl 5 ◌>>=◌ ◌>>◌
abbrev pub ◌>>=◌ {ℓ} :
    {W : Type ℓ} {A B : Type 0}
    → (W → W × Expected Error A)
    → (A → W → W × Expected Error B)
    → W
    → W × Expected Error B
(m >>= f) w = elim (m w).1 [ value a ↦ f a (m w).0 | unexpected e ↦ ((m w).0, unexpected e) ]

abbrev pub ◌>>◌ {ℓ} :
    {W : Type ℓ} {B : Type 0}
    → (W → W × Expected Error (Unit {0}))
    → (W → W × Expected Error B)
    → W
    → W × Expected Error B
m >> k = m >>= λ _. k

abbrev pub give {ℓ} : {W : Type ℓ} {A : Type 0} → A → W → W × Expected Error A
give a w = (w, value a)

abbrev pub fail {ℓ} : {W : Type ℓ} {A : Type 0} → Error → W → W × Expected Error A
fail e w = (w, unexpected e)

-- `if (!Call) return Failure(e);`, where the call tells by a Boolean whether it succeeded.
abbrev pub or_fail {ℓ} : {W : Type ℓ} → (W → W × Bool) → Error → W → W × Expected Error (Unit {0})
or_fail m e w = ((m w).0, if (m w).1 then value tt else unexpected e)

abbrev pub no_memory : Error
no_memory = semantic ErrorCode.out_of_memory Operation.allocate

abbrev pub too_long : Error
too_long = semantic ErrorCode.overflow Operation.read

-- `(Text[Position] & 0xC0) == 0x80`
abbrev pub is_continuation : ℕ → Bool
is_continuation b = bit_and b 0xc0 == 0x80

-- The loop of PreviousBoundary, downwards from a position.
pub back_over : List ℕ → ℕ → ℕ
back_over text zero = 0
back_over text (suc p) =
    let further = back_over text p in
    if is_continuation (get_or text (suc p) 0) then further else suc p

pub previous_boundary : List ℕ → ℕ → ℕ
unfolding back_over
previous_boundary text zero = 0
previous_boundary text (suc p) = back_over text p

-- The loop of NextBoundary, over the bytes from a position on.
pub past : List ℕ → ℕ → ℕ
past [] p = p
past (b ∷ bs) p = let further = past bs (p + 1) in if is_continuation b then further else p

pub next_boundary : List ℕ → ℕ → ℕ
unfolding past
next_boundary text p = if leb (length text) p then length text else past (drop (p + 1) text) (p + 1)

-- What `Insert` and `Erase` leave where they succeed, at a position in the string.
abbrev pub inserted : List ℕ → ℕ → List ℕ → List ℕ
inserted text position view = take position text ++ view ++ drop position text

abbrev pub erased : List ℕ → ℕ → ℕ → List ℕ
erased text position count =
    if ltb (length text) position then text else take position text ++ drop (position + count) text

-- The locals of ReadLine.
pub record Session : Type 0 where
  pub line : List ℕ
  pub cursor : ℕ
  pub previous_cells : ℕ
  pub history_index : ℕ

-- What one turn of the loop comes to: the loop goes on, with `Changed`, or the line is read.
pub data Turn : Type 0 where
  going : Session → Bool → Turn
  ended : List ℕ → Turn

abbrev pub moved : Session → ℕ → Turn
moved s p = going (record s { cursor = p }) true

-- Delete and backspace: the bytes from `b` up to `e` go, and the cursor is left at `b`.
abbrev pub cut : Session → ℕ → ℕ → Turn
cut s b e =
    if ltb b e
    then going (record s { line = erased s.line b (e - b); cursor = b }) true
    else going s false

-- `HistoryIndex` after Up.
abbrev pub decreased : ℕ → ℕ
decreased zero = zero
decreased (suc i) = i

abbrev pub entry : List (List ℕ) → ℕ → List ℕ
entry history i = get_or history i []

module _ {ℓ} {W : Type ℓ} (t : Terminal W) (o : Options) (history : List (List ℕ)) where
  -- `Line.Assign(Text)` with the cursor put at the end.
  abbrev pub assign : Error → List ℕ → ℕ → Session → W → W × Expected Error Turn
  assign e text index s =
      or_fail (t.grow (length text + 1)) e
      >> give (going (record s { line = text; cursor = length text; history_index = index }) true)

  abbrev pub insert : Error → List ℕ → Session → W → W × Expected Error Turn
  insert e bytes s =
      if ltb (length s.line) s.cursor
      then fail e
      else or_fail (t.grow (length s.line + length bytes + 1)) e
        >> give (
            going
              (record s { line = inserted s.line s.cursor bytes; cursor = s.cursor + length bytes })
              true)

  pub recall_up : Session → W → W × Expected Error Turn
  recall_up s = let i = decreased s.history_index in assign no_memory (entry history i) i s

  pub recall_down : Session → W → W × Expected Error Turn
  recall_down s =
      if ltb (s.history_index + 1) (length history)
      then assign no_memory (entry history (s.history_index + 1)) (s.history_index + 1) s
      else give (going (record s { line = []; cursor = 0; history_index = length history }) true)

  -- The return key: a line break in the text, or the end of the line.
  pub on_return : KeyEvent → Session → W → W × Expected Error Turn
  on_return k s =
      if o.allow_multiline && shift k
      then (if length s.line == o.maximum_bytes
          then fail too_long
          else insert too_long (0x0a ∷ []) s)
      else (if o.echo then t.write (0x0d ∷ 0x0a ∷ []) >> t.flush else give tt)
        >> (if o.add_to_history && not (length s.line == 0)
            then or_fail (t.remember s.line) no_memory
            else give tt)
        >> λ w. (t.on_line s.line w, value (ended s.line))

  pub on_completion :
      (List ℕ → W → W × Expected Error (List ℕ)) → Session → W → W × Expected Error Turn
  on_completion complete s = complete s.line >>= λ text.
      if ltb o.maximum_bytes (length text)
      then fail too_long
      else assign too_long text s.history_index s

  pub on_text : KeyEvent → Session → W → W × Expected Error Turn
  on_text k s = (λ w. (w, encode_utf8 k.character)) >>= λ bytes.
      if ltb o.maximum_bytes (length s.line) || ltb (o.maximum_bytes - length s.line) (length bytes)
      then fail too_long
      else insert no_memory bytes s

  abbrev pub on_plain : KeyEvent → Session → W → W × Expected Error Turn
  on_plain k s =
      if leb 0x20 k.character || (o.allow_multiline && (k.character == 9))
      then on_text k s
      else give (going s false)

  pub on_character : KeyEvent → Session → W → W × Expected Error Turn
  unfolding on_return on_completion on_text
  on_character k s =
      if k.character == 0
      then give (going s false)
      else if (k.character == 0x0d) || (k.character == 0x0a)
      then on_return k s
      else if k.character == 8
      then give (cut s (previous_boundary s.line s.cursor) s.cursor)
      else if k.character == 9
      then elim t.completion [ none ↦ on_plain k s | some complete ↦ on_completion complete s ]
      else on_plain k s

  -- The chain of tests in the loop of ReadLine. With no history, Up and Down are tested as characters.
  pub on_key : KeyEvent → Session → W → W × Expected Error Turn
  unfolding previous_boundary next_boundary recall_up recall_down on_character
  on_key k s = elim k.code [
    | KeyCode.escape ↦ fail (semantic ErrorCode.cancelled Operation.read)
    | KeyCode.left ↦ give (moved s (previous_boundary s.line s.cursor))
    | KeyCode.right ↦ give (moved s (next_boundary s.line s.cursor))
    | KeyCode.home ↦ give (moved s 0)
    | KeyCode.last_key ↦ give (moved s (length s.line))
    | KeyCode.delete ↦ give (cut s s.cursor (next_boundary s.line s.cursor))
    | KeyCode.up ↦ if length history == 0 then on_character k s else recall_up s
    | KeyCode.down ↦ if length history == 0 then on_character k s else recall_down s
    | _ ↦ on_character k s
  ]

-- SetCompletion and ClearHistory.
abbrev pub set_completion {ℓ} :
    {W : Type ℓ} → (List ℕ → W → W × Expected Error (List ℕ)) → Terminal W → Terminal W
set_completion complete t = record t { completion = some complete }

abbrev pub clear_history : List (List ℕ) → List (List ℕ)
clear_history history = []
