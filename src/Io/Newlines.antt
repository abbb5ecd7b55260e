-- ===== src/Io/Newlines.antt =====
-- UEFIpp/Include/UEFIpp/IO/Adapter/Newline.hpp: NewlineSink, over any sink.
pub mod Translating
mod Tests
use uefipp.Base.{
  ℕ, suc, ◌+◌, Bool, true, false, not, ◌&&◌, List, [], ◌∷◌, ◌++◌, ◌==◌, if◌then◌else◌, Expected,
  value, unexpected,
}
use uefipp.Io.{Error, Stop}
use uefipp.Io.Sinks.{write_all}

pub data Newline : Type 0 where
  preserve line_feed carriage_return_line_feed : Newline

pub record NewlineSink {ℓ} (S : Type ℓ) : Type ℓ where
  pub sink : S
  pub previous_was_return : Bool
  pub pending_return : Bool

-- A call that fails ends the round.
infixl 5 ◌>>◌
abbrev pub ◌>>◌ {ℓ} :
    {W : Type ℓ}
    → (W → W × Expected Stop (Unit {0}))
    → (W → W × Expected Stop (Unit {0}))
    → W
    → W × Expected Stop (Unit {0})
(m >> k) w = elim (m w).1 [ value u ↦ k (m w).0 | unexpected e ↦ ((m w).0, unexpected e) ]

module _ {ℓ} {S : Type ℓ} (write_some : S → List ℕ → S × Expected Error ℕ) where
  -- `WriteAll(Sink_, {&c, 1})`
  pub put : ℕ → NewlineSink S → NewlineSink S × Expected Stop (Unit {0})
  put c n = (
    record n { sink = (write_all write_some n.sink (c ∷ [])).0 },
    (write_all write_some n.sink (c ∷ [])).1,
  )

  abbrev pub put_plain : ℕ → NewlineSink S → NewlineSink S × Expected Stop (Unit {0})
  put_plain b = put b >> λ n. (record n { previous_was_return = b == 0x0d }, value tt)

  -- A round of the loop of WriteSome.
  pub put_byte : Newline → ℕ → NewlineSink S → NewlineSink S × Expected Stop (Unit {0})
  unfolding put
  put_byte Newline.preserve b n = put_plain b n
  put_byte Newline.carriage_return_line_feed b n =
      if (b == 0x0a) && not n.previous_was_return
      then (put 0x0d >> put_plain b) n
      else put_plain b n
  put_byte Newline.line_feed b n =
      let last : NewlineSink S → NewlineSink S × Expected Stop (Unit {0}) = λ n'.
        if b == 0x0d then (record n' { pending_return = true }, value tt) else put_plain b n' in
      if n.pending_return
      then (put 0x0a >> λ n'.
            let cleared : NewlineSink S = record n' { pending_return = false } in
            if b == 0x0a then (cleared, value tt) else last cleared)
          n
      else last n

  pub put_bytes : Newline → ℕ → NewlineSink S → List ℕ → NewlineSink S × Expected Stop ℕ
  put_bytes policy accepted n [] = (n, value accepted)
  put_bytes policy accepted n (b ∷ bs) = elim (put_byte policy b n).1 [
    | value u ↦ put_bytes policy (accepted + 1) (put_byte policy b n).0 bs
    | unexpected e ↦
        ((put_byte policy b n).0, if accepted == 0 then unexpected e else value accepted)
  ]

  pub newline_write : Newline → NewlineSink S → List ℕ → NewlineSink S × Expected Stop ℕ
  unfolding put_bytes
  newline_write policy n bytes = put_bytes policy 0 n bytes

  -- What Flush does before it flushes the sink.
  pub flush_return : Newline → NewlineSink S → NewlineSink S × Expected Stop (Unit {0})
  unfolding put
  flush_return Newline.line_feed n =
      if n.pending_return
      then (put 0x0a >> λ n'. (record n' { pending_return = false }, value tt)) n
      else (n, value tt)
  flush_return Newline.preserve n = (n, value tt)
  flush_return Newline.carriage_return_line_feed n = (n, value tt)
