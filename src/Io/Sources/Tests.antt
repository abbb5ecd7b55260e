-- ===== src/Io/Sources/Tests.antt =====
-- A source that gives at most two bytes in a read, behind a buffer of four.
use uefipp.Base.{
  ℕ, ◌≡◌, ◌≢◌, refl, sym, true, false, List, [], ◌∷◌, ◌++◌, length, take, drop, min, length-take,
  take-append-drop, some, get_elem?, Expected, value, unexpected, arith, ◌==◌,
}
use uefipp.Io.{Error, out_of_fuel}
use uefipp.Io.Sources.{
  Chunk, Gives, BufferedSource, read_loop, read_exact, buffered_read_some, peek, compacted,
}
use uefipp.Io.Sources.Exact.{read_exact_reads, read_exact_ends}
use uefipp.Io.Sources.Buffering.{ahead, Sane, buffered_read_some-Gives}
use uefipp.Io.Sources.Peeking.{peek_shows}

-- The state is what is to come.
abbrev read_two : List ℕ → ℕ → List ℕ × Expected Error Chunk
read_two s size =
    (drop (min 2 size) s, value (take (min 2 size) s, length (drop (min 2 size) s) == 0))

abbrev all_of : List ℕ → List ℕ
all_of s = s

abbrev Any : List ℕ → Type 0
Any s = Unit

no_length : (xs : List ℕ) → (length xs == 0) ≡ true → xs ≡ []
no_length [] h = refl
no_length (x ∷ xs) h = absurd (ground arith)

two-Gives : Gives read_two all_of Any
two-Gives = record {
  stays = λ s size g. tt;
  gives = λ s size bytes at_end g e.
      let same : take (min 2 size) s ≡ bytes = cc in
      let flag : (length (drop (min 2 size) s) == 0) ≡ at_end = cc in
      rw (sym same, sym flag)
        (
          omega (arith, length-take (min 2 size) s),
          sym (take-append-drop (min 2 size) s),
          λ h. no_length (drop (min 2 size) s) h,
        );
  refuses = λ s size e g h. cc;
}

-- One byte of the buffer is read, one is not, and three are to come from the source.
abbrev half_read : BufferedSource (List ℕ)
half_read = record {
  source = 3 ∷ 4 ∷ 5 ∷ [];
  buffer = 1 ∷ 2 ∷ [];
  position = 1;
  logical_position = 1;
  ended = false;
}

half_read-Sane : Sane all_of Any 4 half_read
half_read-Sane = record { good = tt; inside = omega arith; room = omega arith; last = λ h. cc }

reads : (read_exact read_two (1 ∷ 2 ∷ 3 ∷ 4 ∷ []) 3).1 ≡ value (1 ∷ 2 ∷ 3 ∷ [])
unfolding read_exact read_loop
reads = refl

peeks : (peek read_two 4 6 half_read 2).1 ≡ value 4
unfolding peek compacted
peeks = refl

read_exact_reads_example :
    (length {A = ℕ} (1 ∷ 2 ∷ 3 ∷ []) ≡ 3)
    × ((1 ∷ 2 ∷ 3 ∷ []) ++ (read_exact read_two (1 ∷ 2 ∷ 3 ∷ 4 ∷ []) 3).0 ≡ 1 ∷ 2 ∷ 3 ∷ 4 ∷ [])
read_exact_reads_example =
    read_exact_reads read_two all_of Any two-Gives (1 ∷ 2 ∷ 3 ∷ 4 ∷ []) 3 (1 ∷ 2 ∷ 3 ∷ []) tt reads

read_exact_ends_example : (read_exact read_two (1 ∷ []) 3).1 ≢ unexpected out_of_fuel
read_exact_ends_example = read_exact_ends read_two all_of Any two-Gives (1 ∷ []) 3

buffered_read_some-Gives_example :
    Gives (buffered_read_some read_two 4) (ahead all_of) (Sane all_of Any 4)
buffered_read_some-Gives_example = buffered_read_some-Gives read_two all_of Any two-Gives 4

peek_shows_example :
    (get_elem? {A = ℕ} (2 ∷ 3 ∷ 4 ∷ 5 ∷ []) 2 ≡ some 4)
    × (ahead all_of (peek read_two 4 6 half_read 2).0 ≡ 2 ∷ 3 ∷ 4 ∷ 5 ∷ [])
peek_shows_example =
    peek_shows read_two all_of Any two-Gives 4 6 half_read 2 4 half_read-Sane (omega arith) peeks
