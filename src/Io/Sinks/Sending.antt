-- ===== src/Io/Sinks/Sending.antt =====
-- The loop that WriteAll and FlushBuffer share: what is sent and what is left.
use uefipp.Base.{
  ℕ, zero, suc, ◌+◌, ◌<◌, ◌≡◌, ◌≢◌, ◌⊎◌, inl, inr, refl, sym, ap, ◌∙◌, List, [], ◌∷◌, ◌++◌,
  append-nil, append_assoc, take-append-drop, length-drop, length, take, drop, Expected, value,
  unexpected, arith,
}
use uefipp.Io.{Error, out_of_fuel}
use uefipp.Io.Sinks.{Takes, send, write_all}

-- A result of a write: failure, nothing, or something.
result_cases :
    {E : Type 0} (r : Expected E ℕ)
    → ((e : E) × (r ≡ unexpected e)) ⊎ (r ≡ value 0) ⊎ ((n : ℕ) × (r ≡ value (suc n)))
result_cases (unexpected e) = inl (e, refl)
result_cases (value zero) = inr (inl refl)
result_cases (value (suc n)) = inr (inr (n, refl))

module _ {ℓ} {S : Type ℓ} (write_some : S → List ℕ → S × Expected Error ℕ) (received : S → List ℕ)
    (Good : S → Type 0) (takes : Takes write_some received Good) (offset : ℕ → ℕ) where
  -- Of `bytes`, the sink took a front, and `rest` is left.
  pub record Sent (s : S) (bytes : List ℕ) (s' : S) (rest : List ℕ) : Type 0 where
    pub front : List ℕ
    pub split : bytes ≡ front ++ rest
    pub taken : received s' ≡ received s ++ front
    pub good : Good s'

  Sent-none :
      (s s' : S) (bytes : List ℕ) → received s' ≡ received s → Good s' → Sent s bytes s' bytes
  Sent-none s s' bytes e g = record { front = []; split = refl; taken = rw append-nil e; good = g }

  Sent-more :
      (s : S) (bytes : List ℕ) (n : ℕ) (s' : S) (rest : List ℕ)
      → Good s
      → (write_some s bytes).1 ≡ value n
      → Sent (write_some s bytes).0 (drop n bytes) s' rest
      → Sent s bytes s' rest
  Sent-more s bytes n s' rest g e r = record {
    front = take n bytes ++ r.front;
    split = sym (
        append_assoc (take n bytes) r.front rest
        ∙ ap (λ (t : List ℕ). take n bytes ++ t) (sym r.split)
        ∙ take-append-drop n bytes);
    taken =
        r.taken
        ∙ ap (λ (t : List ℕ). t ++ r.front) ((takes.accepts s bytes n g e).1)
        ∙ append_assoc (received s) (take n bytes) r.front;
    good = r.good;
  }

  -- However the loop ends, the sink has received a front of the bytes, and the others are left.
  pub send-Sent :
      (fuel written : ℕ) (s : S) (rest : List ℕ)
      → Good s
      → Sent s rest
          (send write_some offset fuel written s rest).0.0
          (send write_some offset fuel written s rest).0.1
  unfolding send
  send-Sent zero written s rest g = Sent-none s s rest refl g
  send-Sent (suc fuel) written s [] g = Sent-none s s [] refl g
  send-Sent (suc fuel) written s (b ∷ bs) g =
      let next : S = (write_some s (b ∷ bs)).0 in
      let fine : Good next = takes.stays s (b ∷ bs) g in
      elim (result_cases (write_some s (b ∷ bs)).1) [
        | inl (e, y) ↦
            rw (y, send) (Sent-none s next (b ∷ bs) (takes.refuses s (b ∷ bs) e g y) fine)
        | inr (inl y) ↦
            rw (y, send)
              (Sent-more s (b ∷ bs) 0 next (b ∷ bs) g y (Sent-none next next (b ∷ bs) refl fine))
        | inr (inr (n, y)) ↦
            rw (y, send)
              (Sent-more s (b ∷ bs) (suc n) _ _ g y
                (send-Sent fuel (written + suc n) next (drop n bs) fine))
      ]

  -- If the loop succeeds, nothing is left.
  pub send_empties :
      (fuel written : ℕ) (s : S) (rest : List ℕ)
      → (send write_some offset fuel written s rest).1 ≡ value tt
      → (send write_some offset fuel written s rest).0.1 ≡ []
  unfolding send
  send_empties zero written s rest h = cc
  send_empties (suc fuel) written s [] h = refl
  send_empties (suc fuel) written s (b ∷ bs) h = elim (result_cases (write_some s (b ∷ bs)).1) [
    | inl (e, y) ↦ cc
    | inr (inl y) ↦ cc
    | inr (inr (n, y)) ↦
        rw (y, send)
          (send_empties fuel (written + suc n) (write_some s (b ∷ bs)).0 (drop n bs)
            (rw (y, send) at h))
  ]

  -- With a round for each byte and one more the loop does not run out of fuel.
  pub send_ends :
      (fuel written : ℕ) (s : S) (rest : List ℕ)
      → length rest < fuel
      → (send write_some offset fuel written s rest).1 ≢ unexpected out_of_fuel
  unfolding send
  send_ends zero written s rest h = absurd (omega arith)
  send_ends (suc fuel) written s [] h = λ p. cc
  send_ends (suc fuel) written s (b ∷ bs) h = elim (result_cases (write_some s (b ∷ bs)).1) [
    | inl (e, y) ↦ rw (y, send) (λ p. cc)
    | inr (inl y) ↦ rw (y, send) (λ p. cc)
    | inr (inr (n, y)) ↦
        rw (y, send)
          (send_ends fuel (written + suc n) (write_some s (b ∷ bs)).0 (drop n bs)
            (omega (arith, length-drop n bs)))
  ]

module _ {ℓ} {S : Type ℓ} (write_some : S → List ℕ → S × Expected Error ℕ) (received : S → List ℕ)
    (Good : S → Type 0) (takes : Takes write_some received Good) where
  -- If WriteAll succeeds, a sink that keeps its promise has received all of the bytes, in order.
  pub write_all_sends :
      (s : S) (bytes : List ℕ)
      → Good s
      → (write_all write_some s bytes).1 ≡ value tt
      → received (write_all write_some s bytes).0 ≡ received s ++ bytes
  unfolding write_all
  write_all_sends s bytes g h =
      let sent =
        send-Sent write_some received Good takes (λ w. w) (suc (length bytes)) 0 s bytes g in
      let none_left =
        send_empties write_some received Good takes (λ w. w) (suc (length bytes)) 0 s bytes h in
      let whole : sent.front ≡ bytes =
        sym
          (sent.split ∙ ap (λ (t : List ℕ). sent.front ++ t) none_left ∙ append-nil (sent.front)) in
      sent.taken ∙ ap (λ (t : List ℕ). received s ++ t) whole

  -- WriteAll ends on every sink, since it stops at a write that takes nothing.
  pub write_all_ends :
      (s : S) (bytes : List ℕ) → (write_all write_some s bytes).1 ≢ unexpected out_of_fuel
  unfolding write_all
  write_all_ends s bytes =
      send_ends write_some received Good takes (λ w. w) (suc (length bytes)) 0 s bytes (omega arith)
