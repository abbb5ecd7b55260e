-- ===== src/Io/Sinks/Tests.antt =====
-- A sink that takes at most two bytes in a write, behind a buffer of three.
use uefipp.Base.{
  ℕ, suc, ◌≡◌, ◌≢◌, refl, sym, List, [], ◌∷◌, ◌++◌, length, take, min, Expected, value, unexpected,
  arith,
}
use uefipp.Io.{Error, out_of_fuel}
use uefipp.Io.Sinks.{Takes, BufferedSink, send, write_all, flush, flush_buffer, buffered_write_some}
use uefipp.Io.Sinks.Room.{held, Fits}
use uefipp.Io.Sinks.Sending.{write_all_ends}
use uefipp.Io.Sinks.Buffering.{buffered_write_some-Takes, flush_delivers}

-- The state is what the sink has received.
abbrev write_two : List ℕ → List ℕ → List ℕ × Expected Error ℕ
write_two s bytes = (s ++ take 2 bytes, value (min 2 (length bytes)))

abbrev all_of : List ℕ → List ℕ
all_of s = s

abbrev Any : List ℕ → Type 0
Any s = Unit

take-min : (bytes : List ℕ) → take (min 2 (length bytes)) bytes ≡ take 2 bytes
take-min [] = refl
take-min (a ∷ []) = refl
take-min (a ∷ b ∷ bytes) = let two : min 2 (suc (suc (length bytes))) ≡ 2 = omega arith in rw two

two-Takes : Takes write_two all_of Any
two-Takes = record {
  stays = λ s bytes g. tt;
  accepts = λ s bytes n g e.
      let count : min 2 (length bytes) ≡ n = cc in
      (omega arith, rw (sym count) (rw (take-min bytes) refl));
  refuses = λ s bytes e g h. cc;
}

abbrev quiet : List ℕ → List ℕ × Expected Error (Unit {0})
quiet s = (s, value tt)

abbrev full : BufferedSink (List ℕ)
full = record { sink = 9 ∷ []; buffer = 1 ∷ 2 ∷ 3 ∷ [] }

full-Fits : Fits Any 3 full
full-Fits = (tt, omega arith)

sends : (write_all write_two [] (1 ∷ 2 ∷ 3 ∷ [])).1 ≡ value tt
unfolding write_all send
sends = refl

flushes : (flush write_two 3 quiet full).1 ≡ value tt
unfolding flush flush_buffer send
flushes = refl

write_all_ends_example : (write_all write_two [] (1 ∷ 2 ∷ 3 ∷ [])).1 ≢ unexpected out_of_fuel
write_all_ends_example = write_all_ends write_two all_of Any two-Takes [] (1 ∷ 2 ∷ 3 ∷ [])

buffered_write_some-Takes_example :
    Takes (buffered_write_some write_two 3) (held all_of) (Fits Any 3)
buffered_write_some-Takes_example =
    buffered_write_some-Takes write_two all_of Any two-Takes 3 (omega arith)

flush_delivers_example :
    ((flush write_two 3 quiet full).0.buffer ≡ [])
    × ((flush write_two 3 quiet full).0.sink ≡ 9 ∷ 1 ∷ 2 ∷ 3 ∷ [])
flush_delivers_example =
    flush_delivers write_two all_of Any two-Takes 3 quiet full (λ s. refl) tt flushes
