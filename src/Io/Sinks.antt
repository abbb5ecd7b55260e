-- ===== src/Io/Sinks.antt =====
-- Output: what a sink promises, WriteAll of UEFIpp/Include/UEFIpp/IO/Core/Operations.hpp, and
-- BufferedSink of UEFIpp/Include/UEFIpp/IO/Adapter/Buffered.hpp. A sink is a state with the function
-- `write_some`, which gives the next state and the number of bytes that it took.
pub mod Sending
pub mod Room
pub mod Buffering
mod Tests
use uefipp.Base.{
  ℕ, zero, suc, ◌+◌, ◌-◌, ◌%◌, ◌^◌, ◌≤◌, ◌≡◌, Bool, true, false, List, [], ◌∷◌, ◌++◌, length, take,
  drop, min, ◌==◌, if◌then◌else◌, Expected, value, unexpected,
}
use uefipp.Io.{Error, ErrorCode, Operation, semantic_at, Stop, failed, out_of_fuel, lift}

-- What `WriteSome` is documented to do, on the states that are `Good`: of the bytes offered it takes
-- the first ones, as many as it returns, and none where it fails. `received` are the bytes that a
-- sink has taken so far.
pub record Takes {ℓ} {E : Type 0} {S : Type ℓ} (write_some : S → List ℕ → S × Expected E ℕ)
    (received : S → List ℕ) (Good : S → Type 0) : Type ℓ where
  pub stays : (s : S) (bytes : List ℕ) → Good s → Good (write_some s bytes).0
  pub accepts :
      (s : S) (bytes : List ℕ) (n : ℕ)
      → Good s
      → (write_some s bytes).1 ≡ value n
      → (n ≤ length bytes) × (received (write_some s bytes).0 ≡ received s ++ take n bytes)
  pub refuses :
      (s : S) (bytes : List ℕ) (e : E)
      → Good s
      → (write_some s bytes).1 ≡ unexpected e
      → received (write_some s bytes).0 ≡ received s

module _ {ℓ} {S : Type ℓ} (write_some : S → List ℕ → S × Expected Error ℕ) where
  -- The loop that WriteAll and FlushBuffer share, over the bytes not yet written. They differ in the
  -- offset of the error NoProgress. A round takes a byte at least.
  unfoldable pub send : (ℕ → ℕ) → ℕ → ℕ → S → List ℕ → (S × List ℕ) × Expected Stop (Unit {0})
  send offset zero written s rest = ((s, rest), unexpected out_of_fuel)
  send offset (suc fuel) written s [] = ((s, []), value tt)
  send offset (suc fuel) written s (b ∷ bs) =
      let next : S = (write_some s (b ∷ bs)).0 in
      elim (write_some s (b ∷ bs)).1 [
        | unexpected e ↦ (
          (next, b ∷ bs),
          unexpected (failed (record e { transferred = (e.transferred + written) % 2 ^ 64 })),
        )
        | value zero ↦ (
          (next, b ∷ bs),
          unexpected
              (failed (semantic_at ErrorCode.no_progress Operation.write (offset written) written)),
        )
        | value (suc n) ↦ send offset fuel (written + suc n) next (drop (suc n) (b ∷ bs))
      ]

  unfoldable pub write_all : S → List ℕ → S × Expected Stop (Unit {0})
  write_all s bytes =
      let sent = send (λ written. written) (suc (length bytes)) 0 s bytes in (sent.0.0, sent.1)

-- `buffer` are the first `Length_` bytes of `Buffer_`.
pub record BufferedSink {ℓ} (S : Type ℓ) : Type ℓ where
  pub sink : S
  pub buffer : List ℕ

-- What is copied into the buffer of the bytes not yet accepted.
module _ {ℓ} {S : Type ℓ} (capacity : ℕ) where
  abbrev pub count_of : BufferedSink S → List ℕ → ℕ
  count_of b bytes = min (capacity - length b.buffer) (length bytes)

  abbrev pub filled : BufferedSink S → List ℕ → BufferedSink S
  filled b bytes = record b { buffer = b.buffer ++ take (count_of b bytes) bytes }

module _ {ℓ} {S : Type ℓ} (write_some : S → List ℕ → S × Expected Error ℕ) (capacity : ℕ) where
  pub flush_buffer : BufferedSink S → BufferedSink S × Expected Stop (Unit {0})
  flush_buffer b =
      let sent = send write_some (λ written. 0) (suc (length b.buffer)) 0 b.sink b.buffer in
      (record { sink = sent.0.0; buffer = sent.0.1 }, sent.1)

  -- A full buffer is flushed before bytes are copied into it.
  pub make_room : BufferedSink S → BufferedSink S × Expected Stop (Unit {0})
  make_room b = if length b.buffer == capacity then flush_buffer b else (b, value tt)

  -- The loop of WriteSome over the bytes not yet accepted; a round accepts one at least.
  pub write_loop : ℕ → ℕ → BufferedSink S → List ℕ → BufferedSink S × Expected Stop ℕ
  write_loop zero accepted b bytes = (b, unexpected out_of_fuel)
  write_loop (suc fuel) accepted b [] = (b, value accepted)
  write_loop (suc fuel) accepted b (x ∷ xs) =
      let ready : BufferedSink S = (make_room b).0 in
      let count = count_of capacity ready (x ∷ xs) in
      elim (make_room b).1 [
        | unexpected (failed e) ↦
            (ready, if accepted == 0 then unexpected (failed e) else value accepted)
        | unexpected out_of_fuel ↦ (ready, unexpected out_of_fuel)
        | value _ ↦
            write_loop fuel (accepted + count) (filled capacity ready (x ∷ xs))
              (drop count (x ∷ xs))
      ]

  pub buffered_write_some : BufferedSink S → List ℕ → BufferedSink S × Expected Stop ℕ
  buffered_write_some b bytes = write_loop (suc (length bytes)) 0 b bytes

  -- `IO::Flush` and `IO::Close` of the sink behind the buffer are arguments.
  pub flush :
      (S → S × Expected Error (Unit {0}))
      → BufferedSink S
      → BufferedSink S × Expected Stop (Unit {0})
  flush flush_sink b =
      let flushed : BufferedSink S = (flush_buffer b).0 in
      elim (flush_buffer b).1 [
        | unexpected e ↦ (flushed, unexpected e)
        | value _ ↦ (
          record flushed { sink = (flush_sink flushed.sink).0 },
          lift (flush_sink flushed.sink).1,
        )
      ]

  pub close :
      (S → S × Expected Error (Unit {0}))
      → (S → S × Expected Error (Unit {0}))
      → BufferedSink S
      → BufferedSink S × Expected Stop (Unit {0})
  close flush_sink close_sink b =
      let flushed : BufferedSink S = (flush flush_sink b).0 in
      elim (flush flush_sink b).1 [
        | unexpected e ↦ (flushed, unexpected e)
        | value _ ↦ (
          record flushed { sink = (close_sink flushed.sink).0 },
          lift (close_sink flushed.sink).1,
        )
      ]
