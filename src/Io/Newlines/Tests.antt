-- ===== src/Io/Newlines/Tests.antt =====
-- Runs of a NewlineSink over a buffer in memory, and an example of what is proved of it.
use uefipp.Base.{ℕ, ◌≤◌, ◌≡◌, refl, false, List, [], ◌∷◌, ◌++◌, length, arith}
use uefipp.Io.Sinks.{send, write_all}
use uefipp.Io.Adapters.{fixed_write}
use uefipp.Io.Adapters.Promises.{fixed_write-Takes}
use uefipp.Io.Newlines.{Newline, NewlineSink, put, put_byte, newline_write}
use uefipp.Io.Newlines.Translating.{with_returns, newline_write-with_returns}

abbrev empty_sink : NewlineSink (List ℕ)
empty_sink = record { sink = []; previous_was_return = false; pending_return = false }

-- Two lines, the first ended by a line feed and the second by both.
abbrev two_lines : List ℕ
two_lines = 0x61 ∷ 0x0a ∷ 0x62 ∷ 0x0d ∷ 0x0a ∷ []

line_feeds :
    (newline_write (fixed_write 8) Newline.line_feed empty_sink two_lines).0.sink
    ≡ 0x61 ∷ 0x0a ∷ 0x62 ∷ 0x0a ∷ []
unfolding newline_write put_byte put write_all send fixed_write
line_feeds = refl

newline_write-with_returns_example :
    (newline_write (fixed_write 8) Newline.carriage_return_line_feed empty_sink two_lines).0.sink
    ≡ [] ++ with_returns false two_lines
unfolding newline_write put_byte put write_all send fixed_write
newline_write-with_returns_example =
    newline_write-with_returns (fixed_write 8) (λ written. written) (λ written. length written ≤ 8)
      (fixed_write-Takes 8) empty_sink two_lines (omega arith) refl
