-- ===== src/Io/Sinks/Buffering.antt =====
-- BufferedSink of Buffered.hpp as a sink: what it counts as received is what the sink behind it has
-- received and what the buffer holds.
use uefipp.Base.{
  ℕ, zero, suc, ◌+◌, ◌≤◌, ◌<◌, ◌≡◌, ◌≢◌, inl, inr, refl, sym, ap, ◌∙◌, false, List, [], ◌∷◌, ◌++◌,
  append-nil, append_assoc, length-drop, length-take, length-append, length, take, drop, Expected,
  value, unexpected, arith, ◌==◌, if◌then◌else◌,
}
use uefipp.Io.{Error, Stop, failed, out_of_fuel}
use uefipp.Io.Sinks.{
  Takes, BufferedSink, flush_buffer, make_room, count_of, filled, write_loop, buffered_write_some,
  flush,
}
use uefipp.Io.Sinks.Room.{
  held, Fits, make_room-Roomy, flush_cases, flush_buffer_keeps, flush_buffer_empties,
}

take-nil : (k : ℕ) → take {A = ℕ} k [] ≡ []
take-nil zero = refl
take-nil (suc k) = refl

take-add : (n k : ℕ) (xs : List ℕ) → take (n + k) xs ≡ take n xs ++ take k (drop n xs)
take-add zero k xs = let same : 0 + k ≡ k = omega arith in rw same refl
take-add (suc n) k [] =
    let more : suc n + k ≡ suc (n + k) = omega arith in rw more (sym (take-nil k))
take-add (suc n) k (x ∷ xs) =
    let more : suc n + k ≡ suc (n + k) = omega arith in
    rw more (ap (λ (t : List ℕ). x ∷ t) (take-add n k xs))

-- How a loop can end that has accepted some bytes before: it has accepted k more, or it fails
-- and had accepted none.
data Outcome {ℓ} {S : Type ℓ} (received : S → List ℕ) (Good : S → Type 0) (capacity : ℕ)
    (b : BufferedSink S) (bytes : List ℕ) (accepted : ℕ)
    : BufferedSink S × Expected Stop ℕ → Type ℓ where
  took :
      (b' : BufferedSink S) (n k : ℕ)
      → n ≡ accepted + k
      → k ≤ length bytes
      → held received b' ≡ held received b ++ take k bytes
      → Fits Good capacity b'
      → Outcome received Good capacity b bytes accepted (b', value n)
  refused :
      (b' : BufferedSink S) (e : Error)
      → accepted ≡ 0
      → held received b' ≡ held received b
      → Fits Good capacity b'
      → Outcome received Good capacity b bytes accepted (b', unexpected (failed e))

module _ {ℓ} {S : Type ℓ} (write_some : S → List ℕ → S × Expected Error ℕ) (received : S → List ℕ)
    (Good : S → Type 0) (takes : Takes write_some received Good) (capacity : ℕ) where
  held-filled :
      (b : BufferedSink S) (bytes : List ℕ)
      → held received (filled capacity b bytes)
        ≡ held received b ++ take (count_of capacity b bytes) bytes
  held-filled b bytes =
      sym (append_assoc (received b.sink) b.buffer (take (count_of capacity b bytes) bytes))

  filled-Fits :
      (b : BufferedSink S) (bytes : List ℕ)
      → Fits Good capacity b
      → Fits Good capacity (filled capacity b bytes)
  filled-Fits b bytes (g, le) = (
    g,
    omega (
      arith,
      length-append b.buffer (take (count_of capacity b bytes) bytes),
      length-take (count_of capacity b bytes) bytes,
    ),
  )

  stopped :
      (b b' : BufferedSink S) (bytes : List ℕ) (accepted : ℕ) (e : Error)
      → held received b' ≡ held received b
      → Fits Good capacity b'
      → Outcome received Good capacity b bytes accepted
          (b', if accepted == 0 then unexpected (failed e) else value accepted)
  stopped b b' bytes zero e h f = Outcome.refused b' e refl h f
  stopped b b' bytes (suc a) e h f =
      let some_taken : (suc a == 0) ≡ false = ground arith in
      rw some_taken (
        Outcome.took b' (suc a) 0 (omega arith) (omega arith)
          (h ∙ sym (append-nil (held received b))) f)

  went_on :
      (b ready : BufferedSink S) (bytes : List ℕ) (accepted : ℕ)
      (r : BufferedSink S × Expected Stop ℕ)
      → held received ready ≡ held received b
      → (0 < length bytes)
      → length ready.buffer < capacity
      → Outcome received Good capacity
          (filled capacity ready bytes)
          (drop (count_of capacity ready bytes) bytes)
          (accepted + count_of capacity ready bytes)
          r
      → Outcome received Good capacity b bytes accepted r
  went_on b ready bytes accepted _ same some_left room (Outcome.took b' n k e le h f) =
      let count : ℕ = count_of capacity ready bytes in
      let more : held received b' ≡ held received b ++ take (count + k) bytes =
        h
        ∙ ap (λ (t : List ℕ). t ++ take k (drop count bytes)) (held-filled ready bytes)
        ∙ append_assoc (held received ready) (take count bytes) (take k (drop count bytes))
        ∙ ap (λ (t : List ℕ). held received ready ++ t) (sym (take-add count k bytes))
        ∙ ap (λ (t : List ℕ). t ++ take (count + k) bytes) same in
      Outcome.took b' n (count + k) (omega arith) (omega (arith, length-drop count bytes)) more f
  went_on b ready bytes accepted _ same some_left room (Outcome.refused b' e none h f) =
      absurd (omega arith)

  write_loop-Outcome :
      (fuel accepted : ℕ) (b : BufferedSink S) (bytes : List ℕ)
      → 0 < capacity
      → Fits Good capacity b
      → length bytes < fuel
      → Outcome received Good capacity b bytes accepted
          (write_loop write_some capacity fuel accepted b bytes)
  unfolding write_loop
  write_loop-Outcome zero accepted b bytes pos f lt = absurd (omega arith)
  write_loop-Outcome (suc fuel) accepted b [] pos f lt =
      Outcome.took b accepted 0 (omega arith) (omega arith) (sym (append-nil (held received b))) f
  write_loop-Outcome (suc fuel) accepted b (x ∷ xs) pos f lt =
      let roomy = make_room-Roomy write_some received Good takes capacity b pos f in
      let ready : BufferedSink S = (make_room write_some capacity b).0 in
      let count : ℕ = count_of capacity ready (x ∷ xs) in
      elim (flush_cases (make_room write_some capacity b).1) [
        | inl y ↦
            let room = roomy.room y in
            rw (y, write_loop)
              (went_on b ready (x ∷ xs) accepted
                (write_loop write_some capacity fuel (accepted + count)
                  (filled capacity ready (x ∷ xs)) (drop count (x ∷ xs)))
                (roomy.same) (omega arith) room
                (write_loop-Outcome fuel (accepted + count) (filled capacity ready (x ∷ xs))
                  (drop count (x ∷ xs)) pos (filled-Fits ready (x ∷ xs) (roomy.fits))
                  (omega (arith, length-drop count (x ∷ xs)))))
        | inr (inl y) ↦ absurd (roomy.ends y)
        | inr (inr (e, y)) ↦
            rw (y, write_loop) (stopped b ready (x ∷ xs) accepted e (roomy.same) (roomy.fits))
      ]

  outcome :
      (b : BufferedSink S) (bytes : List ℕ)
      → 0 < capacity
      → Fits Good capacity b
      → Outcome received Good capacity b bytes 0 (buffered_write_some write_some capacity b bytes)
  unfolding buffered_write_some
  outcome b bytes pos f = write_loop-Outcome (suc (length bytes)) 0 b bytes pos f (omega arith)

  Outcome-Fits :
      (b : BufferedSink S) (bytes : List ℕ) (r : BufferedSink S × Expected Stop ℕ)
      → Outcome received Good capacity b bytes 0 r
      → Fits Good capacity r.0
  Outcome-Fits b bytes _ (Outcome.took b' n k e le h f) = f
  Outcome-Fits b bytes _ (Outcome.refused b' e none h f) = f

  Outcome-accepts :
      (b : BufferedSink S) (bytes : List ℕ) (m : ℕ) (r : BufferedSink S × Expected Stop ℕ)
      → Outcome received Good capacity b bytes 0 r
      → r.1 ≡ value m
      → (m ≤ length bytes) × (held received r.0 ≡ held received b ++ take m bytes)
  Outcome-accepts b bytes m _ (Outcome.took b' n k e le h f) y =
      let same : k ≡ m = (let it : n ≡ m = cc in omega arith) in rw (sym same) (le, h)
  Outcome-accepts b bytes m _ (Outcome.refused b' e none h f) y = cc

  Outcome-refuses :
      (b : BufferedSink S) (bytes : List ℕ) (e : Stop) (r : BufferedSink S × Expected Stop ℕ)
      → Outcome received Good capacity b bytes 0 r
      → r.1 ≡ unexpected e
      → held received r.0 ≡ held received b
  Outcome-refuses b bytes e _ (Outcome.took b' n k q le h f) y = cc
  Outcome-refuses b bytes e _ (Outcome.refused b' q none h f) y = h

  Outcome-ends :
      (b : BufferedSink S) (bytes : List ℕ) (r : BufferedSink S × Expected Stop ℕ)
      → Outcome received Good capacity b bytes 0 r
      → r.1 ≢ unexpected out_of_fuel
  Outcome-ends b bytes _ (Outcome.took b' n k q le h f) = λ y. cc
  Outcome-ends b bytes _ (Outcome.refused b' q none h f) = λ y. cc

  -- A buffer in front of a sink that keeps the promise of WriteSome keeps it too, if it has any room:
  -- what it counts as received is what the sink has received and what the buffer holds, and the
  -- buffer never holds more than its capacity.
  pub buffered_write_some-Takes :
      0 < capacity
      → Takes (buffered_write_some write_some capacity) (held received) (Fits Good capacity)
  buffered_write_some-Takes pos = record {
    stays = λ b bytes f. Outcome-Fits b bytes _ (outcome b bytes pos f);
    accepts = λ b bytes n f y. Outcome-accepts b bytes n _ (outcome b bytes pos f) y;
    refuses = λ b bytes e f y. Outcome-refuses b bytes e _ (outcome b bytes pos f) y;
  }

  -- WriteSome of a buffer with room, which holds no more than its capacity, ends.
  pub buffered_write_some_ends :
      (b : BufferedSink S) (bytes : List ℕ)
      → 0 < capacity
      → Fits Good capacity b
      → (buffered_write_some write_some capacity b bytes).1 ≢ unexpected out_of_fuel
  buffered_write_some_ends b bytes pos f = Outcome-ends b bytes _ (outcome b bytes pos f)

  -- If Flush succeeds, the buffer is empty and the sink behind it has received the bytes that it had
  -- received and those of the buffer, where flushing that sink does not change what it has received.
  pub flush_delivers :
      (flush_sink : S → S × Expected Error (Unit {0})) (b : BufferedSink S)
      → ((s : S) → received (flush_sink s).0 ≡ received s)
      → Good b.sink
      → (flush write_some capacity flush_sink b).1 ≡ value tt
      → ((flush write_some capacity flush_sink b).0.buffer ≡ [])
        × (received (flush write_some capacity flush_sink b).0.sink ≡ held received b)
  unfolding flush
  flush_delivers flush_sink b quiet g h =
      elim (flush_cases (flush_buffer write_some capacity b).1) [
        | inl y ↦
            let empty = flush_buffer_empties write_some received Good takes capacity b y in
            rw (y, flush)
              (
                empty,
                quiet (flush_buffer write_some capacity b).0.sink
                    ∙ sym (append-nil (received (flush_buffer write_some capacity b).0.sink))
                    ∙ ap (λ (t : List ℕ). received (flush_buffer write_some capacity b).0.sink ++ t)
                        (sym empty)
                    ∙ flush_buffer_keeps write_some received Good takes capacity b g,
              )
        | inr (inl y) ↦ cc
        | inr (inr (e, y)) ↦ cc
      ]
