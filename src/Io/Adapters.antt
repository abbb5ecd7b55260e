-- ===== src/Io/Adapters.antt =====
-- The sinks and sources of UEFIpp/Include/UEFIpp/IO/Adapter/Utility.hpp. A parameter tells whether
-- the storage of a vector can hold so many bytes.
pub mod Promises
mod Tests
use uefipp.Base.{
  ℕ, ◌+◌, ◌-◌, ◌%◌, ◌^◌, Bool, not, ◌&&◌, List, ◌++◌, length, take, drop, min, ltb, ◌==◌,
  if◌then◌else◌, Expected, value, unexpected,
}
use uefipp.Io.{Error, ErrorCode, Operation, semantic, semantic_at, Stop}
use uefipp.Io.Sinks.{write_all}
use uefipp.Io.Sources.{Chunk}

-- NullSink and CountingSink.
abbrev pub null_write {ℓ} : {S : Type ℓ} → S → List ℕ → S × Expected Error ℕ
null_write s bytes = (s, value (length bytes))

abbrev pub counting_write : ℕ → List ℕ → ℕ × Expected Error ℕ
counting_write count bytes = ((count + length bytes) % 2 ^ 64, value (length bytes))

-- FixedBufferSink: the state are the bytes written, the first `Size_` of the buffer.
unfoldable pub fixed_write : ℕ → List ℕ → List ℕ → List ℕ × Expected Error ℕ
fixed_write capacity written bytes =
    let available : ℕ = capacity - length written in
    if (available == 0) && not (length bytes == 0)
    then (
      written,
      unexpected (semantic_at ErrorCode.overflow Operation.write (length written) (length written)),
    )
    else (
      written ++ take (min (length bytes) available) bytes,
      value (min (length bytes) available),
    )

-- MemorySink, over a vector of bytes.
pub memory_write : (ℕ → Bool) → List ℕ → List ℕ → List ℕ × Expected Error ℕ
memory_write can_hold buffer bytes =
    if can_hold (length buffer + length bytes)
    then (buffer ++ bytes, value (length bytes))
    else (buffer, unexpected (semantic ErrorCode.out_of_memory Operation.allocate))

pub record MemorySource : Type 0 where
  pub data_bytes : List ℕ
  pub position : ℕ

pub memory_read : MemorySource → ℕ → MemorySource × Expected Error Chunk
memory_read s size =
    let count : ℕ = min size (length s.data_bytes - s.position) in
    (
      record s { position = s.position + count },
      value
          (take count (drop s.position s.data_bytes), (s.position + count) == length s.data_bytes),
    )

abbrev pub memory_seek : MemorySource → ℕ → MemorySource × Expected Error ℕ
memory_seek s position =
    if ltb (length s.data_bytes) position
    then (s, unexpected (semantic ErrorCode.invalid_argument Operation.seek))
    else (record s { position = position }, value position)

-- TeeSink, over any two sinks.
module _ {ℓ κ} {S : Type ℓ} {T : Type κ} (first : S → List ℕ → S × Expected Error ℕ)
    (second : T → List ℕ → T × Expected Error ℕ) where
  pub tee_write : (S × T) → List ℕ → (S × T) × Expected Stop ℕ
  tee_write s bytes = elim (write_all first s.0 bytes).1 [
    | unexpected e ↦ (((write_all first s.0 bytes).0, s.1), unexpected e)
    | value u ↦ (
      ((write_all first s.0 bytes).0, (write_all second s.1 bytes).0),
      elim (write_all second s.1 bytes).1 [
        | unexpected e ↦ unexpected e
        | value v ↦ value (length bytes)
      ],
    )
  ]
