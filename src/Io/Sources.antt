-- ===== src/Io/Sources.antt =====
-- Input: what a source promises, ReadExact of UEFIpp/Include/UEFIpp/IO/Core/Operations.hpp, and
-- BufferedSource of UEFIpp/Include/UEFIpp/IO/Adapter/Buffered.hpp. A source is a state with the
-- function `read_some`, which is given the size of the destination and gives the next state, the
-- bytes that it has put there, and whether the input has ended.
pub mod Exact
pub mod Buffering
pub mod Peeking
mod Tests
use uefipp.Base.{
  ℕ, zero, suc, ◌+◌, ◌-◌, ◌%◌, ◌^◌, ◌≤◌, ◌≡◌, Bool, true, false, not, ◌&&◌, List, [], ◌∷◌, ◌++◌,
  length, take, drop, min, get_or, ltb, ◌||◌, ◌==◌, if◌then◌else◌, Expected, value, unexpected,
}
use uefipp.Io.{Error, ErrorCode, Operation, semantic, semantic_at, Stop, failed, out_of_fuel}

-- `ReadCount`, with the bytes that `Count` counts.
abbrev pub Chunk : Type 0
Chunk = List ℕ × Bool

-- What `ReadSome` does, on the states that are `Good`: it gives the first of the bytes to come, no
-- more than there is room for, and none where it fails; it says that the input has ended only if no
-- byte is to come.
pub record Gives {ℓ} {E : Type 0} {S : Type ℓ} (read_some : S → ℕ → S × Expected E Chunk)
    (coming : S → List ℕ) (Good : S → Type 0) : Type ℓ where
  pub stays : (s : S) (size : ℕ) → Good s → Good (read_some s size).0
  pub gives :
      (s : S) (size : ℕ) (bytes : List ℕ) (at_end : Bool)
      → Good s
      → (read_some s size).1 ≡ value (bytes, at_end)
      → (length bytes ≤ size)
        × (coming s ≡ bytes ++ coming (read_some s size).0)
        × (at_end ≡ true → coming (read_some s size).0 ≡ [])
  pub refuses :
      (s : S) (size : ℕ) (e : E)
      → Good s
      → (read_some s size).1 ≡ unexpected e
      → coming (read_some s size).0 ≡ coming s

module _ {ℓ} {S : Type ℓ} (read_some : S → ℕ → S × Expected Error Chunk) where
  -- The loop of ReadExact: `got` has the bytes read so far, and `left` is the number still to read.
  -- A round reads a byte at least.
  pub read_loop : ℕ → S → List ℕ → ℕ → S × Expected Stop (List ℕ)
  read_loop zero s got left = (s, unexpected out_of_fuel)
  read_loop (suc fuel) s got zero = (s, value got)
  read_loop (suc fuel) s got (suc left) =
      let next : S = (read_some s (suc left)).0 in
      elim (read_some s (suc left)).1 [
        | unexpected e ↦ (
          next,
          unexpected (failed (record e { transferred = (e.transferred + length got) % 2 ^ 64 })),
        )
        | value (bytes, at_end) ↦ elim (at_end && ltb (length bytes) (suc left)) [
          | true ↦ (
            next,
            unexpected (
                failed (
                  semantic_at ErrorCode.unexpected_end_of_file Operation.read
                    (length (got ++ bytes)) (length (got ++ bytes)))),
          )
          | false ↦ elim bytes [
            | [] ↦ (
              next,
              unexpected (
                  failed
                    (semantic_at ErrorCode.no_progress Operation.read (length got) (length got))),
            )
            | x ∷ xs ↦ read_loop fuel next (got ++ (x ∷ xs)) (suc left - length (x ∷ xs))
          ]
        ]
      ]

  pub read_exact : S → ℕ → S × Expected Stop (List ℕ)
  read_exact s size = read_loop (suc size) s [] size

-- `buffer` are the first `Length_` bytes of `Buffer_`.
pub record BufferedSource {ℓ} (S : Type ℓ) : Type ℓ where
  pub source : S
  pub buffer : List ℕ
  pub position : ℕ
  pub logical_position : ℕ
  pub ended : Bool

module _ {ℓ} {S : Type ℓ} (read_some : S → ℕ → S × Expected Error Chunk) (capacity : ℕ) where
  abbrev emptied : BufferedSource S → BufferedSource S
  emptied b = record b { buffer = []; position = 0 }

  pub fill : BufferedSource S → BufferedSource S × Expected Error (Unit {0})
  fill b =
      let read = read_some b.source capacity in
      if b.ended then (emptied b, value tt) else elim read.1 [
        | unexpected e ↦ (record (emptied b) { source = read.0 }, unexpected e)
        | value (bytes, at_end) ↦ (
          record (emptied b) { source = read.0; buffer = bytes; ended = at_end },
          if length bytes == 0 && not at_end
              then unexpected (semantic ErrorCode.no_progress Operation.read)
              else value tt,
        )
      ]

  -- Copies what the buffer has, as far as there is room for it.
  pub deliver : BufferedSource S → ℕ → BufferedSource S × Expected Error Chunk
  deliver b size =
      let count = min size (length b.buffer - b.position) in
      (
        record b {
          position = b.position + count;
          logical_position = (b.logical_position + count) % 2 ^ 64;
        },
        value (
          take count (drop b.position b.buffer),
          b.ended && b.position + count == length b.buffer,
        ),
      )

  pub buffered_read_some : BufferedSource S → ℕ → BufferedSource S × Expected Error Chunk
  buffered_read_some b zero = (b, value ([], false))
  buffered_read_some b (suc size) =
      let filled : BufferedSource S = (fill b).0 in
      if not (b.position == length b.buffer) then deliver b (suc size) else elim (fill b).1 [
        | unexpected e ↦ (filled, unexpected e)
        | value _ ↦
            if length filled.buffer == 0
            then (filled, value ([], filled.ended))
            else deliver filled (suc size)
      ]

  -- Moves the bytes not yet read to the front of the buffer.
  pub compacted : BufferedSource S → BufferedSource S
  compacted b =
      if not (b.position == 0) && ltb b.position (length b.buffer)
      then record b { buffer = drop b.position b.buffer; position = 0 }
      else if b.position == length b.buffer
      then emptied b
      else b

  -- The loop of Peek. A round reads a byte at least.
  pub peek : ℕ → BufferedSource S → ℕ → BufferedSource S × Expected Stop ℕ
  peek zero b lookahead = (b, unexpected out_of_fuel)
  peek (suc fuel) b lookahead =
      let c : BufferedSource S = compacted b in
      let read = read_some c.source (capacity - length c.buffer) in
      elim (ltb ((b.position + lookahead) % 2 ^ 64) (length b.buffer)) [
        | true ↦ (b, value (get_or b.buffer ((b.position + lookahead) % 2 ^ 64) 0))
        | false ↦ elim (c.ended || length c.buffer == capacity) [
          | true ↦ (
            c,
            unexpected (
                failed (
                  semantic_at (if c.ended then ErrorCode.end_of_file else ErrorCode.unsupported)
                    Operation.read ((c.logical_position + lookahead) % 2 ^ 64) 0)),
          )
          | false ↦ elim read.1 [
            | unexpected e ↦ (record c { source = read.0 }, unexpected (failed e))
            | value (bytes, at_end) ↦ elim (length bytes == 0 && not at_end) [
              | true ↦ (
                record c { source = read.0; ended = at_end },
                unexpected (failed (semantic ErrorCode.no_progress Operation.read)),
              )
              | false ↦
                  peek fuel
                    (record c { source = read.0; buffer = c.buffer ++ bytes; ended = at_end })
                    lookahead
            ]
          ]
        ]
      ]

  -- Consume, on fuel for each Peek.
  pub consume : ℕ → BufferedSource S → ℕ → BufferedSource S × Expected Stop (Unit {0})
  consume fuel b zero = (b, value tt)
  consume fuel b (suc count) =
      let peeked = peek fuel b 0 in
      elim peeked.1 [
        | unexpected e ↦ (peeked.0, unexpected e)
        | value _ ↦
            consume fuel
              (record peeked.0 {
                position = (peeked.0).position + 1;
                logical_position = ((peeked.0).logical_position + 1) % 2 ^ 64;
              })
              count
      ]

  -- `IO::Close` of the source, and its Seek, are arguments.
  pub close :
      (S → S × Expected Error (Unit {0}))
      → BufferedSource S
      → BufferedSource S × Expected Error (Unit {0})
  close close_source b = (
    record b { source = (close_source b.source).0; buffer = []; position = 0; ended = true },
    (close_source b.source).1,
  )

  pub seek :
      (S → ℕ → S × Expected Error ℕ) → BufferedSource S → ℕ → BufferedSource S × Expected Error ℕ
  seek seek_source b target =
      let sought = seek_source b.source target in
      elim sought.1 [
        | unexpected e ↦ (record b { source = sought.0 }, unexpected e)
        | value p ↦ (
          record b {
            source = sought.0;
            buffer = [];
            position = 0;
            logical_position = p;
            ended = false;
          },
          value p,
        )
      ]
