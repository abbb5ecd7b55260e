-- ===== src/Io/Adapters/Tests.antt =====
-- Runs of the sinks and sources in memory, and an example of what is proved of TeeSink.
use uefipp.Base.{ℕ, ◌≤◌, ◌≡◌, refl, true, List, [], ◌∷◌, ◌++◌, value, unexpected, length, arith}
use uefipp.Io.{ErrorCode, Operation, semantic_at}
use uefipp.Io.Sinks.{send, write_all}
use uefipp.Io.Adapters.{fixed_write, MemorySource, memory_read, tee_write}
use uefipp.Io.Adapters.Promises.{fixed_write-Takes, tee_write_sends}

abbrev three_bytes : List ℕ
three_bytes = 1 ∷ 2 ∷ 3 ∷ []

-- A buffer of four bytes that holds three has room for one, and then for none.
one_left : (fixed_write 4 three_bytes (7 ∷ 8 ∷ [])).0 ≡ 1 ∷ 2 ∷ 3 ∷ 7 ∷ []
unfolding fixed_write
one_left = refl

none_left :
    (fixed_write 3 three_bytes (7 ∷ [])).1
    ≡ unexpected (semantic_at ErrorCode.overflow Operation.write 3 3)
unfolding fixed_write
none_left = refl

abbrev source : MemorySource
source = record { data_bytes = three_bytes; position = 1 }

read_to_end : (memory_read source 5).1 ≡ value (2 ∷ 3 ∷ [], true)
unfolding memory_read
read_to_end = refl

tee_write_sends_example :
    (3 ≡ length three_bytes)
    × ((tee_write (fixed_write 4) (fixed_write 8) ([], 9 ∷ []) three_bytes).0.0 ≡ [] ++ three_bytes)
    × ((tee_write (fixed_write 4) (fixed_write 8) ([], 9 ∷ []) three_bytes).0.1
        ≡ (9 ∷ []) ++ three_bytes)
unfolding tee_write write_all send fixed_write
tee_write_sends_example =
    tee_write_sends (fixed_write 4) (fixed_write 8) (λ written. written) (λ written. written)
      (λ written. length written ≤ 4) (λ written. length written ≤ 8) (fixed_write-Takes 4)
      (fixed_write-Takes 8) ([], 9 ∷ []) three_bytes 3 (omega arith) (omega arith) refl
