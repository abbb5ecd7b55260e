-- ===== src/Io/Adapters/Promises.antt =====
-- The sinks and the source in memory keep the promises of WriteSome and ReadSome.
use uefipp.Base.{
  ℕ, ◌+◌, ◌-◌, ◌≤◌, ◌≡◌, refl, sym, ap, ◌∙◌, inl, inr, Bool, true, false, not, ◌&&◌, List, [], ◌++◌,
  append-nil, length, take, drop, min, ◌==◌, zero, suc, ◌∷◌, take-append, length-append,
  length-take, take-append-drop, Bool-cases, Expected-cases, Expected, value, unexpected, arith,
}
use uefipp.Io.{Error, ErrorCode, Operation, semantic, semantic_at}
use uefipp.Io.Sinks.{Takes, write_all}
use uefipp.Io.Sinks.Sending.{write_all_sends}
use uefipp.Io.Sources.{Chunk, Gives}
use uefipp.Io.Adapters.{fixed_write, memory_write, MemorySource, memory_read, tee_write}

value_of : {E : Type 0} → Expected E ℕ → ℕ
value_of (value n) = n
value_of (unexpected e) = 0

value_injective : {E : Type 0} (n m : ℕ) (r : Expected E ℕ) → r ≡ value n → r ≡ value m → n ≡ m
unfolding value_of
value_injective n m r h k = ap value_of (sym h ∙ k)

drop_none : (n : ℕ) → drop {A = ℕ} n [] ≡ []
drop_none zero = refl
drop_none (suc n) = refl

take_all : (bytes : List ℕ) → take (length bytes) bytes ≡ bytes
take_all bytes =
    ap (λ (t : List ℕ). take (length bytes) t) (sym (append-nil bytes)) ∙ take-append bytes []

drop_whole : (n : ℕ) (xs : List ℕ) → n ≡ length xs → drop n xs ≡ []
drop_whole n [] h = drop_none n
drop_whole zero (x ∷ xs) h = absurd (omega arith)
drop_whole (suc n) (x ∷ xs) h = drop_whole n xs (omega arith)

drop-drop : (p n : ℕ) (xs : List ℕ) → drop n (drop p xs) ≡ drop (p + n) xs
drop-drop zero n xs = let same : n ≡ 0 + n = omega arith in ap (λ (k : ℕ). drop k xs) same
drop-drop (suc p) n [] = drop_none n ∙ sym (drop_none (suc p + n))
drop-drop (suc p) n (x ∷ xs) =
    let same : suc (p + n) ≡ suc p + n = omega arith in
    drop-drop p n xs ∙ ap (λ (k : ℕ). drop k (x ∷ xs)) same

no_success {ℓ} :
    {C : Type ℓ} {E A : Type 0} {r : Expected E A} (e : E) (a : A)
    → r ≡ unexpected e
    → r ≡ value a
    → C
no_success e a refusal success =
    let never : unexpected e ≡ value a = sym refusal ∙ success in absurd (ground arith)

no_refusal {ℓ} :
    {C : Type ℓ} {E A : Type 0} {r : Expected E A} (e : E) (a : A)
    → r ≡ value a
    → r ≡ unexpected e
    → C
no_refusal e a success refusal = no_success e a refusal success

-- A FixedBufferSink takes what there is room for.
pub fixed_write-Takes :
    (capacity : ℕ)
    → Takes (fixed_write capacity) (λ written. written) (λ written. length written ≤ capacity)
unfolding fixed_write
fixed_write-Takes capacity = record {
  stays = λ s bytes g. elim (Bool-cases (((capacity - length s) == 0) && not (length bytes == 0))) [
    | inl e ↦ rw (fixed_write, e) g
    | inr e ↦
        rw (fixed_write, e)
          (omega (
            arith,
            g,
            length-append s (take (min (length bytes) (capacity - length s)) bytes),
            length-take (min (length bytes) (capacity - length s)) bytes,
          ))
  ];
  accepts = λ s bytes n g h.
      elim (Bool-cases (((capacity - length s) == 0) && not (length bytes == 0))) [
        | inl e ↦
            no_success (semantic_at ErrorCode.overflow Operation.write (length s) (length s)) n
              (rw (fixed_write, e) refl) h
        | inr e ↦
            let count : min (length bytes) (capacity - length s) ≡ n =
              value_injective (min (length bytes) (capacity - length s)) n
                (fixed_write capacity s bytes).1 (rw (fixed_write, e) refl) h in
            (omega arith, rw (fixed_write, e) (ap (λ (k : ℕ). s ++ take k bytes) count))
      ];
  refuses = λ s bytes r g h.
      elim (Bool-cases (((capacity - length s) == 0) && not (length bytes == 0))) [
        | inl e ↦ rw (fixed_write, e) refl
        | inr e ↦
            no_refusal r (min (length bytes) (capacity - length s)) (rw (fixed_write, e) refl) h
      ];
}

-- A MemorySink takes all of the bytes, or none where there is no memory.
pub memory_write-Takes :
    (can_hold : ℕ → Bool) → Takes (memory_write can_hold) (λ buffer. buffer) (λ buffer. Unit {0})
unfolding memory_write
memory_write-Takes can_hold = record {
  stays = λ s bytes g. g;
  accepts = λ s bytes n g h. elim (Bool-cases (can_hold (length s + length bytes))) [
    | inl e ↦
        let count : length bytes ≡ n =
          value_injective (length bytes) n (memory_write can_hold s bytes).1
            (rw (memory_write, e) refl) h in
        (
          omega arith,
          rw (memory_write, e)
              (ap (λ (t : List ℕ). s ++ t)
                (sym (ap (λ (k : ℕ). take k bytes) (sym count) ∙ take_all bytes))),
        )
    | inr e ↦
        no_success (semantic ErrorCode.out_of_memory Operation.allocate) n
          (rw (memory_write, e) refl) h
  ];
  refuses = λ s bytes r g h. elim (Bool-cases (can_hold (length s + length bytes))) [
    | inl e ↦ no_refusal r (length bytes) (rw (memory_write, e) refl) h
    | inr e ↦ rw (memory_write, e) refl
  ];
}

-- What is to come from a MemorySource is what stands behind its position.
abbrev pub to_come : MemorySource → List ℕ
to_come s = drop s.position s.data_bytes

got_of : Expected Error Chunk → Chunk
got_of (value c) = c
got_of (unexpected e) = ([], false)

-- A MemorySource gives the next bytes of its text, and tells its end.
pub memory_read-Gives : Gives memory_read to_come (λ s. s.position ≤ length s.data_bytes)
unfolding memory_read got_of
memory_read-Gives = record {
  stays = λ s size g. omega arith;
  gives = λ s size bytes at_end g h.
      let count : ℕ = min size (length s.data_bytes - s.position) in
      let rest : List ℕ = drop s.position s.data_bytes in
      let read : bytes ≡ take count rest = sym (ap (λ r. (got_of r).0) h) in
      let ended : at_end ≡ ((s.position + count) == length s.data_bytes) =
        sym (ap (λ r. (got_of r).1) h) in
      let measured : length bytes ≡ length (take count rest) = ap (λ (t : List ℕ). length t) read in
      (
        omega (arith, measured, length-take count rest),
        rw read (
            sym (take-append-drop count rest)
            ∙ ap (λ (t : List ℕ). take count rest ++ t) (drop-drop s.position count s.data_bytes)),
        λ t.
            let last : ((s.position + count) == length s.data_bytes) ≡ true = sym ended ∙ t in
            drop_whole (s.position + count) s.data_bytes (ground arith),
      );
  refuses = λ s size e g h. let never : value _ ≡ unexpected e = h in absurd (ground arith);
}

module _ {ℓ κ} {S : Type ℓ} {T : Type κ} (first : S → List ℕ → S × Expected Error ℕ)
    (second : T → List ℕ → T × Expected Error ℕ) (at_first : S → List ℕ) (at_second : T → List ℕ)
    (GoodFirst : S → Type 0) (GoodSecond : T → Type 0)
    (first_takes : Takes first at_first GoodFirst)
    (second_takes : Takes second at_second GoodSecond) where
  -- If WriteSome of a TeeSink succeeds, it has taken all of the bytes, and either sink, if it keeps
  -- its promise, has received them behind what it had.
  pub tee_write_sends :
      (s : S × T) (bytes : List ℕ) (n : ℕ)
      → GoodFirst s.0
      → GoodSecond s.1
      → (tee_write first second s bytes).1 ≡ value n
      → (n ≡ length bytes)
        × (at_first (tee_write first second s bytes).0.0 ≡ at_first s.0 ++ bytes)
        × (at_second (tee_write first second s bytes).0.1 ≡ at_second s.1 ++ bytes)
  unfolding tee_write
  tee_write_sends s bytes n good good' h = elim (Expected-cases (write_all first s.0 bytes).1) [
    | inr (e, r) ↦
        let never : unexpected e ≡ value n = sym (rw (tee_write, r) refl) ∙ h in
        absurd (ground arith)
    | inl (u, r) ↦ elim (Expected-cases (write_all second s.1 bytes).1) [
      | inr (e, r') ↦
          let never : unexpected e ≡ value n = sym (rw (tee_write, r, r') refl) ∙ h in
          absurd (ground arith)
      | inl (v, r') ↦
          let all : length bytes ≡ n =
            value_injective (length bytes) n (tee_write first second s bytes).1
              (rw (tee_write, r, r') refl) h in
          (
            sym all,
            rw (tee_write, r)
                (write_all_sends first at_first GoodFirst first_takes s.0 bytes good r),
            rw (tee_write, r)
                (write_all_sends second at_second GoodSecond second_takes s.1 bytes good' r'),
          )
    ]
  ]
