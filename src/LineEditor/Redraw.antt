-- ===== src/LineEditor/Redraw.antt =====
-- LineEditor::Redraw and LineEditor::ReadLine of UEFIpp/Source/IO/Terminal/LineEditor.cpp. The keys
-- that WaitKey gives are a list; where it ends, the editor still waits.
pub mod Reading
pub mod Rounds
pub mod Masking
pub mod Cells
mod Tests
use uefipp.Base.{
  ℕ, zero, suc, ◌+◌, ◌-◌, ◌*◌, ◌/◌, ◌%◌, ◌^◌, Bool, true, false, not, ◌&&◌, List, [], ◌∷◌, ◌++◌,
  length, get_or, replicate, ltb, ◌==◌, if◌then◌else◌, Expected, value, unexpected,
}
use uefipp.Io.{Error, ErrorCode, Operation, semantic}
use uefipp.LineEditor.{
  KeyEvent, Options, Geometry, Terminal, Session, Turn, going, ended, ◌>>=◌, ◌>>◌, give, fail,
  or_fail, no_memory, next_boundary, on_key,
}

-- What a code point is shown as with `MaskInput`.
abbrev pub mask_of : ℕ → ℕ
mask_of b = if b == 0x0a then 0x0a else 0x2a

-- `Offset` after the code point that starts with the byte.
abbrev pub advance : Geometry → ℕ → ℕ → ℕ
advance origin offset byte =
    if (byte == 0x0a) && not (origin.columns == 0)
    then (offset + (origin.columns - (origin.column + offset) % 2 ^ 64 % origin.columns)) % 2 ^ 64
    else (offset + 1) % 2 ^ 64

-- The loop of LayoutExtent. A round moves on by a byte at least.
pub layout_from : Geometry → List ℕ → ℕ → ℕ → ℕ → ℕ → ℕ
layout_from origin text end zero p offset = offset
layout_from origin text end (suc fuel) p offset =
    let further =
      layout_from origin text end fuel (next_boundary text p)
        (advance origin offset (get_or text p 0)) in
    if ltb p end then further else offset

pub layout_extent : Geometry → List ℕ → ℕ → ℕ
unfolding layout_from
layout_extent origin text end = layout_from origin text end (suc (length text)) 0 0

module _ {ℓ} {W : Type ℓ} (t : Terminal W) where
  -- The loop that fills `Display` with `MaskInput`.
  pub mask_from : List ℕ → ℕ → ℕ → List ℕ → W → W × Expected Error (List ℕ)
  mask_from text zero p shown = give shown
  mask_from text (suc fuel) p shown =
      let further =
        mask_from text fuel (next_boundary text p) (shown ++ mask_of (get_or text p 0) ∷ []) in
      if ltb p (length text)
      then or_fail (t.grow (length shown + 2)) no_memory >> further
      else give shown

  pub display : Options → List ℕ → W → W × Expected Error (List ℕ)
  unfolding mask_from
  display o text =
      if o.mask_input
      then mask_from text (suc (length text)) 0 []
      else or_fail (t.grow (length text + 1)) no_memory >> give text

  -- The cells of a longer line before this one are blanked.
  abbrev pub blank : ℕ → ℕ → W → W × Expected Error (Unit {0})
  blank previous extent =
      if ltb extent previous
      then or_fail (t.grow (previous - extent + 1)) no_memory
        >> t.write (replicate (previous - extent) 0x20)
      else give tt

  abbrev pub place : Geometry → ℕ → W → W × Expected Error (Unit {0})
  place origin cells =
      if origin.columns == 0
      then t.set_cursor ((origin.column + cells) % 2 ^ 64) origin.row
      else (let linear = (origin.row * origin.columns + origin.column + cells) % 2 ^ 64 in
          t.set_cursor (linear % origin.columns) (linear / origin.columns))

  -- The value is `PreviousCells` after the call.
  pub redraw : Options → Geometry → Session → W → W × Expected Error ℕ
  unfolding layout_extent display
  redraw o origin s =
      let extent = layout_extent origin s.line (length s.line) in
      t.set_cursor origin.column origin.row >> display o s.line >>= λ shown.
      t.write shown
      >> blank s.previous_cells extent
      >> t.flush
      >> place origin (layout_extent origin s.line s.cursor)
      >> give extent

  pub redrawn : Options → Geometry → Session → W → W × Expected Error Turn
  unfolding redraw
  redrawn o origin s =
      redraw o origin s >>= λ cells. give (going (record s { previous_cells = cells }) true)

  abbrev pub after_key : Options → Geometry → Turn → W → W × Expected Error Turn
  after_key o origin (ended text) = give (ended text)
  after_key o origin (going s changed) =
      if changed && o.echo then redrawn o origin s else give (going s changed)

  -- A turn of the loop of ReadLine once the key is there.
  pub turn : Options → List (List ℕ) → Geometry → KeyEvent → Session → W → W × Expected Error Turn
  unfolding on_key
  turn o history origin k s = on_key t o history k s >>= after_key o origin

pub data Outcome : Type 0 where
  waiting : Session → Outcome
  finished : Expected Error (List ℕ) → Outcome

-- The locals of ReadLine as its loop starts.
abbrev pub opened : List (List ℕ) → Session
opened history = record {
  line = [];
  cursor = 0;
  previous_cells = 0;
  history_index = length history;
}

-- `ConsoleGeometry{}`
abbrev pub nowhere : Geometry
nowhere = record { columns = 0; rows = 0; column = 0; row = 0 }

-- `History_` after a line is read.
abbrev pub remembered : Options → List (List ℕ) → List ℕ → List (List ℕ)
remembered o history text =
    if o.add_to_history && not (length text == 0) then history ++ text ∷ [] else history

module _ {ℓ} {W : Type ℓ} (t : Terminal W) (o : Options) (history : List (List ℕ)) where
  pub read_keys : Geometry → List (Expected Error KeyEvent) → Session → W → W × Outcome
  read_keys origin [] s w = (w, waiting s)
  read_keys origin (unexpected e ∷ keys) s w = (w, finished (unexpected e))
  read_keys origin (value k ∷ keys) s w =
      let next : W = (turn t o history origin k s w).0 in
      elim (turn t o history origin k s w).1 [
        | unexpected e ↦ (next, finished (unexpected e))
        | value (ended text) ↦ (next, finished (value text))
        | value (going s' changed) ↦ read_keys origin keys s' next
      ]

  pub read_line : List (Expected Error KeyEvent) → W → W × Outcome
  unfolding read_keys
  read_line keys w =
      if not (t.valid w)
      then (w, finished (unexpected (semantic ErrorCode.closed Operation.read)))
      else elim (t.geometry w) [
        | value origin ↦ read_keys origin keys (opened history) w
        | unexpected e ↦
            if o.echo
            then (w, finished (unexpected e))
            else read_keys nowhere keys (opened history) w
      ]

  -- The editor's history after a call of ReadLine.
  pub history_after : Outcome → List (List ℕ)
  history_after (finished (value text)) = remembered o history text
  history_after (finished (unexpected e)) = history
  history_after (waiting s) = history
