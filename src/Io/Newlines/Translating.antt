-- ===== src/Io/Newlines/Translating.antt =====
-- What a NewlineSink that writes lines with a carriage return makes of a text.
use uefipp.Base.{
  ℕ, suc, ◌+◌, ◌≡◌, refl, sym, ap, ◌∙◌, inl, inr, Bool, not, ◌&&◌, List, [], ◌∷◌, ◌++◌, append-nil,
  append_assoc, length, ◌==◌, if◌then◌else◌, Bool-cases, Expected-cases, Expected, value,
  unexpected, arith,
}
use mathlib.Core.Path.{subst}
use uefipp.Io.{Error, Stop}
use uefipp.Io.Sinks.{Takes, write_all}
use uefipp.Io.Sinks.Sending.{send-Sent, write_all_sends}
use uefipp.Io.Newlines.{
  Newline, NewlineSink, put, put_plain, put_byte, put_bytes, newline_write, ◌>>◌,
}

-- Each line feed that has no carriage return in front gets one.
abbrev pub with_returns : Bool → List ℕ → List ℕ
with_returns after_return [] = []
with_returns after_return (b ∷ bs) =
    let rest : List ℕ = with_returns (b == 0x0d) bs in
    if (b == 0x0a) && not after_return then 0x0d ∷ b ∷ rest else b ∷ rest

with_returns_step :
    (p : Bool) (b : ℕ) (bs : List ℕ)
    → (if (b == 0x0a) && not p then 0x0d ∷ b ∷ [] else b ∷ []) ++ with_returns (b == 0x0d) bs
      ≡ with_returns p (b ∷ bs)
with_returns_step p b bs = elim (Bool-cases ((b == 0x0a) && not p)) [
  | inl e ↦ rw e refl
  | inr e ↦ rw e refl
]

accepted_of : Expected Stop ℕ → ℕ
accepted_of (value k) = k
accepted_of (unexpected e) = 0

-- Where a call and the one after it succeed together, either does.
then_cases {ℓ} :
    {W : Type ℓ} (m k : W → W × Expected Stop (Unit {0})) (w : W) (u : Unit {0})
    → ((m >> k) w).1 ≡ value u
    → (v : Unit {0}) × ((m w).1 ≡ value v) × ((m >> k) w ≡ k (m w).0)
then_cases m k w u h = elim (Expected-cases (m w).1) [
  | inl (v, e) ↦ (v, e, rw (◌>>◌, e) refl)
  | inr (r, e) ↦
      let never : unexpected r ≡ value u = sym (rw (◌>>◌, e) refl) ∙ h in absurd (ground arith)
]

module _ {ℓ} {S : Type ℓ} (write_some : S → List ℕ → S × Expected Error ℕ) (received : S → List ℕ)
    (Good : S → Type 0) (takes : Takes write_some received Good) where
  write_all-Good : (s : S) (bytes : List ℕ) → Good s → Good (write_all write_some s bytes).0
  unfolding write_all
  write_all-Good s bytes g =
      let sent =
        send-Sent write_some received Good takes (λ w. w) (suc (length bytes)) 0 s bytes g in
      sent.good

  -- From one state to another the sink has received these bytes.
  record Put (n n' : NewlineSink S) (bytes : List ℕ) : Type 0 where
    pub written : received n'.sink ≡ received n.sink ++ bytes
    pub good : Good n'.sink

  put-Put :
      (c : ℕ) (n : NewlineSink S) (u : Unit {0})
      → Good n.sink
      → (put write_some c n).1 ≡ value u
      → Put n (put write_some c n).0 (c ∷ [])
  unfolding put
  put-Put c n u g h = record {
    written = write_all_sends write_some received Good takes n.sink (c ∷ []) g h;
    good = write_all-Good n.sink (c ∷ []) g;
  }

  put_plain-Put :
      (b : ℕ) (n : NewlineSink S) (u : Unit {0})
      → Good n.sink
      → (put_plain write_some b n).1 ≡ value u
      → Put n (put_plain write_some b n).0 (b ∷ [])
        × ((put_plain write_some b n).0.previous_was_return ≡ (b == 0x0d))
  put_plain-Put b n u g h =
      let after : NewlineSink S → NewlineSink S × Expected Stop (Unit {0}) =
        λ n'. (record n' { previous_was_return = b == 0x0d }, value tt) in
      let (v, e, same) = then_cases (put write_some b) after n u h in
      let kept = put-Put b n v g e in
      subst (λ r. Put n r.0 (b ∷ []) × (r.0.previous_was_return ≡ (b == 0x0d))) (sym same)
        (record { written = kept.written; good = kept.good }, refl)

  put_byte-Put :
      (b : ℕ) (n : NewlineSink S) (u : Unit {0})
      → Good n.sink
      → (put_byte write_some Newline.carriage_return_line_feed b n).1 ≡ value u
      → Put n
          (put_byte write_some Newline.carriage_return_line_feed b n).0
          (if (b == 0x0a) && not n.previous_was_return then 0x0d ∷ b ∷ [] else b ∷ [])
        × ((put_byte write_some Newline.carriage_return_line_feed b n).0.previous_was_return
            ≡ (b == 0x0d))
  unfolding put_byte
  put_byte-Put b n u g h = elim (Bool-cases ((b == 0x0a) && not n.previous_was_return)) [
    | inr e ↦ rw (put_byte, e) (put_plain-Put b n u g (sym (rw (put_byte, e) refl) ∙ h))
    | inl e ↦
        let (v, k, same) =
          then_cases (put write_some 0x0d) (put_plain write_some b) n u
            (sym (rw (put_byte, e) refl) ∙ h) in
        let one = put-Put 0x0d n v g k in
        let (two, flag) =
          put_plain-Put b (put write_some 0x0d n).0 u one.good
            (ap (λ r. r.1) (sym same) ∙ sym (rw (put_byte, e) refl) ∙ h) in
        rw (put_byte, e)
          (subst (λ r. Put n r.0 (0x0d ∷ b ∷ []) × (r.0.previous_was_return ≡ (b == 0x0d)))
            (sym same)
            (
              record {
                written =
                    two.written
                    ∙ ap (λ (t : List ℕ). t ++ (b ∷ [])) one.written
                    ∙ append_assoc (received n.sink) (0x0d ∷ []) (b ∷ []);
                good = two.good;
              },
              flag,
            ))
  ]

  put_bytes-Put :
      (bytes : List ℕ) (accepted k : ℕ) (n : NewlineSink S)
      → Good n.sink
      → (put_bytes write_some Newline.carriage_return_line_feed accepted n bytes).1 ≡ value k
      → k ≡ accepted + length bytes
      → received (put_bytes write_some Newline.carriage_return_line_feed accepted n bytes).0.sink
        ≡ received n.sink ++ with_returns n.previous_was_return bytes
  unfolding put_bytes accepted_of
  put_bytes-Put [] accepted k n g h whole = sym (append-nil (received n.sink))
  put_bytes-Put (b ∷ bs) accepted k n g h whole =
      let policy : Newline = Newline.carriage_return_line_feed in
      elim (Expected-cases (put_byte write_some policy b n).1) [
        | inr (r, e) ↦ elim (Bool-cases (accepted == 0)) [
          | inl z ↦
              let never : unexpected r ≡ value k = sym (rw (put_bytes, e, z) refl) ∙ h in
              absurd (ground arith)
          | inr z ↦
              let both : value accepted ≡ value k = sym (rw (put_bytes, e, z) refl) ∙ h in
              let same : accepted ≡ k = ap accepted_of both in absurd (omega arith)
        ]
        | inl (v, e) ↦
            let n' : NewlineSink S = (put_byte write_some policy b n).0 in
            let (wrote, flag) = put_byte-Put b n v g e in
            let rest =
              put_bytes-Put bs (accepted + 1) k n' wrote.good (sym (rw (put_bytes, e) refl) ∙ h)
                (omega arith) in
            let step : List ℕ =
              if (b == 0x0a) && not n.previous_was_return then 0x0d ∷ b ∷ [] else b ∷ [] in
            rw (put_bytes, e)
              (rest
                ∙ ap (λ (p : Bool). received n'.sink ++ with_returns p bs) flag
                ∙ ap (λ (t : List ℕ). t ++ with_returns (b == 0x0d) bs) wrote.written
                ∙ append_assoc (received n.sink) step (with_returns (b == 0x0d) bs)
                ∙ ap (λ (t : List ℕ). received n.sink ++ t)
                    (with_returns_step n.previous_was_return b bs))
      ]

  -- If WriteSome of a NewlineSink for CarriageReturnLineFeed accepts all of the bytes, and the sink
  -- behind it keeps its promise, that sink has received them with a carriage return in front of each
  -- line feed that had none, where one that the NewlineSink wrote last before counts.
  pub newline_write-with_returns :
      (n : NewlineSink S) (bytes : List ℕ)
      → Good n.sink
      → (newline_write write_some Newline.carriage_return_line_feed n bytes).1
        ≡ value (length bytes)
      → received (newline_write write_some Newline.carriage_return_line_feed n bytes).0.sink
        ≡ received n.sink ++ with_returns n.previous_was_return bytes
  unfolding newline_write
  newline_write-with_returns n bytes g h = put_bytes-Put bytes 0 (length bytes) n g h (omega arith)
