-- ===== src/Io/Sinks/Room.antt =====
-- FlushBuffer, and the room that it makes in the buffer of BufferedSink.
use uefipp.Base.{
  ℕ, suc, ◌≤◌, ◌<◌, ◌≡◌, ◌≢◌, ◌⊎◌, inl, inr, refl, sym, ap, ◌∙◌, Bool-cases, List, [], ◌++◌,
  append_assoc, length-append, length, Expected, value, unexpected, arith, ◌==◌,
}
use uefipp.Io.{Error, Stop, failed, out_of_fuel}
use uefipp.Io.Sinks.{Takes, BufferedSink, flush_buffer, make_room}
use uefipp.Io.Sinks.Sending.{Sent, send-Sent, send_empties, send_ends}

-- What a buffered sink counts as received.
abbrev pub held {ℓ} : {S : Type ℓ} → (S → List ℕ) → BufferedSink S → List ℕ
held received b = received b.sink ++ b.buffer

-- The sink is good, and the buffer holds no more than its capacity.
abbrev pub Fits {ℓ} : {S : Type ℓ} → (S → Type 0) → ℕ → BufferedSink S → Type 0
Fits Good capacity b = Good b.sink × (length b.buffer ≤ capacity)

pub flush_cases :
    (r : Expected Stop (Unit {0}))
    → (r ≡ value tt) ⊎ (r ≡ unexpected out_of_fuel) ⊎ ((e : Error) × (r ≡ unexpected (failed e)))
flush_cases (value tt) = inl refl
flush_cases (unexpected out_of_fuel) = inr (inl refl)
flush_cases (unexpected (failed e)) = inr (inr (e, refl))

-- After make_room: the same bytes, and room in the buffer if it succeeded.
pub record Roomy {ℓ} {S : Type ℓ} (received : S → List ℕ) (Good : S → Type 0) (capacity : ℕ)
    (b : BufferedSink S) (r : BufferedSink S × Expected Stop (Unit {0})) : Type 0 where
  pub same : held received r.0 ≡ held received b
  pub fits : Fits Good capacity r.0
  pub room : r.1 ≡ value tt → length r.0.buffer < capacity
  pub ends : r.1 ≢ unexpected out_of_fuel

module _ {ℓ} {S : Type ℓ} (write_some : S → List ℕ → S × Expected Error ℕ) (received : S → List ℕ)
    (Good : S → Type 0) (takes : Takes write_some received Good) (capacity : ℕ) where
  flushed-Sent :
      (b : BufferedSink S)
      → Good b.sink
      → Sent write_some received Good takes
          (λ w. 0)
          b.sink
          b.buffer
          (flush_buffer write_some capacity b).0.sink
          (flush_buffer write_some capacity b).0.buffer
  unfolding flush_buffer
  flushed-Sent b g =
      send-Sent write_some received Good takes (λ w. 0) (suc (length b.buffer)) 0 b.sink b.buffer g

  -- Flushing the buffer loses no byte and sends none twice, whether it succeeds or not.
  pub flush_buffer_keeps :
      (b : BufferedSink S)
      → Good b.sink
      → held received (flush_buffer write_some capacity b).0 ≡ held received b
  flush_buffer_keeps b g =
      let sent = flushed-Sent b g in
      let left : List ℕ = (flush_buffer write_some capacity b).0.buffer in
      ap (λ (t : List ℕ). t ++ left) (sent.taken)
      ∙ append_assoc (received b.sink) (sent.front) left
      ∙ ap (λ (t : List ℕ). received b.sink ++ t) (sym (sent.split))

  flush_buffer-Fits :
      (b : BufferedSink S)
      → Fits Good capacity b
      → Fits Good capacity (flush_buffer write_some capacity b).0
  flush_buffer-Fits b (g, le) =
      let sent = flushed-Sent b g in
      (
        sent.good,
        omega (
          arith,
          ap (λ (t : List ℕ). length t) (sent.split),
          length-append sent.front (flush_buffer write_some capacity b).0.buffer,
        ),
      )

  pub flush_buffer_empties :
      (b : BufferedSink S)
      → (flush_buffer write_some capacity b).1 ≡ value tt
      → (flush_buffer write_some capacity b).0.buffer ≡ []
  unfolding flush_buffer
  flush_buffer_empties b h =
      send_empties write_some received Good takes (λ w. 0) (suc (length b.buffer)) 0 b.sink b.buffer
        h

  flush_buffer_ends :
      (b : BufferedSink S) → (flush_buffer write_some capacity b).1 ≢ unexpected out_of_fuel
  unfolding flush_buffer
  flush_buffer_ends b =
      send_ends write_some received Good takes (λ w. 0) (suc (length b.buffer)) 0 b.sink b.buffer
        (omega arith)

  pub make_room-Roomy :
      (b : BufferedSink S)
      → 0 < capacity
      → Fits Good capacity b
      → Roomy received Good capacity b (make_room write_some capacity b)
  unfolding make_room
  make_room-Roomy b pos (g, le) = elim (Bool-cases (length b.buffer == capacity)) [
    | inl y ↦ rw y (record {
      same = flush_buffer_keeps b g;
      fits = flush_buffer-Fits b (g, le);
      room = λ h. rw (flush_buffer_empties b h) pos;
      ends = flush_buffer_ends b;
    })
    | inr n ↦
        rw n (record { same = refl; fits = (g, le); room = λ h. ground arith; ends = λ p. cc })
  ]
