-- ===== src/Text/Convert/Steps.antt =====
-- One byte in the loop of `Utf8ToUtf16`, for each thing that the decoder can answer.
use uefipp.Base.{ℕ, suc, ◌≡◌, refl, Bool, List, Expected, value, unexpected, ◌>>=◌, false}
use uefipp.Io.{failed, lift}
use uefipp.Text.{
  Policy, Decoder, pending, emit, malformed, replacement_character, invalid_decode, feed,
}
use uefipp.Text.Convert.{append_code_point, feed_byte}

chain {ℓ κ μ} :
    {E : Type 0} {A : Type ℓ} {D : Type μ} {B : Type κ} (m : Expected E A) (d : D)
    (k : D × A → Expected E B)
    → ((m >>= λ a. value (d, a)) >>= k) ≡ (m >>= λ a. k (d, a))
chain (value a) d k = refl
chain (unexpected e) d k = refl

module _ (fits : ℕ → Bool) (fuel i b : ℕ) (d : Decoder) (out : List ℕ) where
  pub feed_byte-pending :
      (p : Policy) {d' : Decoder}
      → feed d b p ≡ (d', value pending)
      → feed_byte fits (suc fuel) p i b d out ≡ value (d', out)
  unfolding feed_byte
  feed_byte-pending p e = rw (e, e)

  pub feed_byte_emitted :
      (p : Policy) (d' : Decoder) {v : ℕ}
      → feed d b p ≡ (d', value (emit v))
      → feed_byte fits (suc fuel) p i b d out
        ≡ (lift (append_code_point fits out v) >>= λ longer. value (d', longer))
  unfolding feed_byte
  feed_byte_emitted p d' e = rw (e, e)

  pub feed_byte_refused :
      (k : Bool) {d' : Decoder}
      → feed d b Policy.reject ≡ (d', malformed Policy.reject k)
      → feed_byte fits (suc fuel) Policy.reject i b d out
        ≡ unexpected (failed (record invalid_decode { offset = i }))
  unfolding feed_byte
  feed_byte_refused k e = rw e

  pub feed_byte_again :
      (d' : Decoder)
      → feed d b Policy.replace ≡ (d', malformed Policy.replace false)
      → feed_byte fits (suc fuel) Policy.replace i b d out ≡ (
          lift (append_code_point fits out replacement_character)
          >>= feed_byte fits fuel Policy.replace i b d')
  unfolding feed_byte
  feed_byte_again d' e = rw (e, e)
