-- ===== src/Io/Sources/Exact.antt =====
-- ReadExact of Operations.hpp: the bytes that it reads, and its rounds.
use uefipp.Base.{
  ℕ, zero, suc, ◌+◌, ◌-◌, ◌<◌, ◌≡◌, ◌≢◌, ◌⊎◌, inl, inr, refl, sym, ap, ◌∙◌, Bool, Bool-cases, List,
  [], ◌∷◌, ◌++◌, append_assoc, length-append, length, Expected, value, unexpected, arith, ltb, ◌&&◌,
}
use uefipp.Io.{Error, out_of_fuel}
use uefipp.Io.Sources.{Chunk, Gives, read_loop, read_exact}

pub chunk_cases :
    (r : Expected Error Chunk)
    → ((e : Error) × (r ≡ unexpected e))
      ⊎ ((at_end : Bool) × (r ≡ value ([], at_end)))
      ⊎ ((at_end : Bool) × (x : ℕ) × (xs : List ℕ) × (r ≡ value (x ∷ xs, at_end)))
chunk_cases (unexpected e) = inl (e, refl)
chunk_cases (value ([], at_end)) = inr (inl (at_end, refl))
chunk_cases (value (x ∷ xs, at_end)) = inr (inr (at_end, x, xs, refl))

module _ {ℓ} {S : Type ℓ} (read_some : S → ℕ → S × Expected Error Chunk) (coming : S → List ℕ)
    (Good : S → Type 0) (gives : Gives read_some coming Good) where
  loop_reads :
      (fuel : ℕ) (s : S) (got : List ℕ) (left : ℕ) (bytes : List ℕ)
      → Good s
      → (read_loop read_some fuel s got left).1 ≡ value bytes
      → (length bytes ≡ length got + left)
        × (bytes ++ coming (read_loop read_some fuel s got left).0 ≡ got ++ coming s)
  unfolding read_loop
  loop_reads zero s got left bytes g h = cc
  loop_reads (suc fuel) s got zero bytes g h =
      let same : got ≡ bytes = cc in rw (sym same) (omega arith, refl)
  loop_reads (suc fuel) s got (suc left) bytes g h =
      let next : S = (read_some s (suc left)).0 in
      elim (chunk_cases (read_some s (suc left)).1) [
        | inl (e, y) ↦ cc
        | inr (inl (at_end, y)) ↦ elim (Bool-cases (at_end && ltb 0 (suc left))) [
          | inl z ↦ cc (y, z, h)
          | inr z ↦ cc (y, z, h)
        ]
        | inr (inr (at_end, x, xs, y)) ↦
            elim (Bool-cases (at_end && ltb (length (x ∷ xs)) (suc left))) [
              | inl z ↦ cc (y, z, h)
              | inr z ↦
                  let (few, first, last) = gives.gives s (suc left) (x ∷ xs) at_end g y in
                  let (count, rest) =
                    loop_reads fuel next (got ++ (x ∷ xs)) (suc left - length (x ∷ xs)) bytes
                      (gives.stays s (suc left) g) (rw (y, z, read_loop) at h) in
                  rw (y, z, read_loop)
                    (
                      omega (arith, length-append got (x ∷ xs)),
                      rest
                          ∙ append_assoc got (x ∷ xs) (coming next)
                          ∙ ap (λ (t : List ℕ). got ++ t) (sym first),
                    )
            ]
      ]

  loop_ends :
      (fuel : ℕ) (s : S) (got : List ℕ) (left : ℕ)
      → left < fuel
      → (read_loop read_some fuel s got left).1 ≢ unexpected out_of_fuel
  unfolding read_loop
  loop_ends zero s got left lt = absurd (omega arith)
  loop_ends (suc fuel) s got zero lt = λ p. cc
  loop_ends (suc fuel) s got (suc left) lt =
      let next : S = (read_some s (suc left)).0 in
      elim (chunk_cases (read_some s (suc left)).1) [
        | inl (e, y) ↦ rw (y, read_loop) (λ p. cc)
        | inr (inl (at_end, y)) ↦ elim (Bool-cases (at_end && ltb 0 (suc left))) [
          | inl z ↦ rw (y, z, read_loop) (λ p. cc)
          | inr z ↦ rw (y, z, read_loop) (λ p. cc)
        ]
        | inr (inr (at_end, x, xs, y)) ↦
            elim (Bool-cases (at_end && ltb (length (x ∷ xs)) (suc left))) [
              | inl z ↦ rw (y, z, read_loop) (λ p. cc)
              | inr z ↦
                  rw (y, z, read_loop)
                    (loop_ends fuel next (got ++ (x ∷ xs)) (suc left - length (x ∷ xs))
                      (omega arith))
            ]
      ]

  -- If ReadExact succeeds, it has read as many bytes as the destination holds, and they are the
  -- first that were to come; the others are still to come.
  pub read_exact_reads :
      (s : S) (size : ℕ) (bytes : List ℕ)
      → Good s
      → (read_exact read_some s size).1 ≡ value bytes
      → (length bytes ≡ size) × (bytes ++ coming (read_exact read_some s size).0 ≡ coming s)
  unfolding read_exact
  read_exact_reads s size bytes g h =
      let (count, rest) = loop_reads (suc size) s [] size bytes g h in (omega arith, rest)

  -- ReadExact ends on every source, since it stops at a read that gives nothing.
  pub read_exact_ends :
      (s : S) (size : ℕ) → (read_exact read_some s size).1 ≢ unexpected out_of_fuel
  unfolding read_exact
  read_exact_ends s size = loop_ends (suc size) s [] size (omega arith)
