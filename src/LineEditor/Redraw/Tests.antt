-- ===== src/LineEditor/Redraw/Tests.antt =====
-- Runs of the line editor on a terminal that does what it is asked to.
use uefipp.Base.{
  arith, ℕ, ◌≡◌, refl, true, false, none, List, [], ◌∷◌, ◌++◌, All, length, Expected, value,
}
use uefipp.Io.{Error}
use uefipp.Text.{encode_utf8}
use uefipp.Text.Encoding.{IsScalar, scalar, utf8_text}
use uefipp.LineEditor.{KeyCode, KeyEvent, Options, Terminal, Session, on_key}
use uefipp.LineEditor.Redraw.{read_line, turn, finished, layout_extent}
use uefipp.LineEditor.Texts.{zipper, Shows, shows}
use uefipp.LineEditor.Effects.{IsText, Effect, absent, Supplies, Refuses, CompletesTexts}
use uefipp.LineEditor.Answering.{Answers}
use uefipp.LineEditor.Keeping.{on_key-Answers}
use uefipp.LineEditor.Redraw.Reading.{Reads, read_line-Reads}
use uefipp.LineEditor.Redraw.Cells.{layout_extent-cells}

abbrev screen : Terminal (List ℕ)
screen = record {
  valid = λ w. true;
  geometry = λ w. value (record { columns = 80; rows = 25; column = 2; row = 3 });
  write = λ bytes w. (w ++ bytes, value tt);
  flush = λ w. (w, value tt);
  set_cursor = λ column row w. (w, value tt);
  grow = λ n w. (w, true);
  remember = λ bytes w. (w, true);
  on_line = λ bytes w. w;
  completion = none;
}

abbrev options : Options
options = record {
  maximum_bytes = 16;
  echo = false;
  mask_input = true;
  allow_multiline = false;
  add_to_history = true;
}

abbrev key : KeyCode → ℕ → KeyEvent
key code c = record { code = code; character = c; shift_state = 0 }

-- U+00E9 and U+0041
abbrev accented : List ℕ
accented = 0xe9 ∷ 0x41 ∷ []

abbrev accented_bytes : List ℕ
accented_bytes = 0xc3 ∷ 0xa9 ∷ 0x41 ∷ []

accented_scalars : All IsScalar accented
accented_scalars = (scalar 0xe9 refl, (scalar 0x41 refl, tt))

abbrev earlier : List (List ℕ)
earlier = accented_bytes ∷ []

earlier_texts : All IsText earlier
earlier_texts = (record { points = accented; scalars = accented_scalars; encoded = refl }, tt)

no_completion : CompletesTexts screen
no_completion complete e bytes w text g = cc e

abbrev typing : List (Expected Error KeyEvent)
typing =
    value (key KeyCode.no_key 0xe9)
    ∷ value (key KeyCode.no_key 0x42)
    ∷ value (key KeyCode.left 0)
    ∷ value (key KeyCode.left 0)
    ∷ value (key KeyCode.no_key 0x43)
    ∷ value (key KeyCode.delete 0)
    ∷ value (key KeyCode.no_key 0x0d)
    ∷ []

reads : (read_line screen options earlier typing []).1 ≡ finished (value (0x43 ∷ 0x42 ∷ []))
unfolding read_line turn encode_utf8
reads = refl

abbrev editing : Session
editing = record { line = accented_bytes; cursor = 2; previous_cells = 0; history_index = 1 }

editing_shown : Shows (zipper (0xe9 ∷ []) (0x41 ∷ [])) accented_bytes 2
editing_shown =
    shows (0xe9 ∷ []) (0x41 ∷ []) accented_bytes 2 (scalar 0xe9 refl, tt) (scalar 0x41 refl, tt)
      refl refl

granting : Supplies screen
granting = record {
  grows = λ n w. refl;
  remembers = λ text w. refl;
  writes = λ bytes w. refl;
  flushes = λ w. refl;
}

on_key-Answers_example :
    Answers
      (Effect options earlier absent 1 (key KeyCode.no_key 0x42) (zipper (0xe9 ∷ []) (0x41 ∷ [])))
      (Refuses true options earlier absent (key KeyCode.no_key 0x42) accented_bytes)
      (on_key screen options earlier (key KeyCode.no_key 0x42) editing []).1
on_key-Answers_example =
    on_key-Answers screen options earlier no_completion earlier_texts true (λ _. granting)
      (key KeyCode.no_key 0x42) (zipper (0xe9 ∷ []) (0x41 ∷ [])) editing [] editing_shown

read_line-Reads_example : Reads (read_line screen options earlier typing []).1
read_line-Reads_example =
    read_line-Reads screen options earlier no_completion earlier_texts typing []

-- U+00E9, a line break and U+0041: at column 2 of 80, two cells in the next row.
abbrev two_rows : List ℕ
two_rows = 0xe9 ∷ 0x0a ∷ 0x41 ∷ []

two_rows_scalars : All IsScalar two_rows
two_rows_scalars = (scalar 0xe9 refl, (scalar 0x0a refl, (scalar 0x41 refl, tt)))

layout_extent-cells_example :
    layout_extent
      (record { columns = 80; rows = 25; column = 2; row = 3 })
      (utf8_text (two_rows ++ accented))
      (length (utf8_text two_rows))
    ≡ 79
layout_extent-cells_example =
    layout_extent-cells (record { columns = 80; rows = 25; column = 2; row = 3 }) two_rows accented
      two_rows_scalars accented_scalars (omega arith)
