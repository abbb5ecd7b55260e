-- ===== src/Text/Convert/Replace.antt =====
-- The conversion to UTF-16 under the replacing policy.
use uefipp.Base.{
  ℕ, suc, ◌+◌, ◌<◌, ◌≡◌, refl, Bool, true, List, [], ◌∷◌, ◌++◌, All, Expected, value, ◌>>=◌, length,
}
use uefipp.Io.{Error, Stop, lift}
use uefipp.Text.{Policy, Decoder, DecodeStep, fresh, emit, replacement_character, feed, finish}
use uefipp.Text.Convert.{append_ready, feed_byte, convert_bytes, utf8_to_utf16}
use uefipp.Text.Encoding.{IsScalar, scalar, utf16}
use uefipp.Text.States.{State, idle, embed, IsBounded, Fed, feed-Fed}
use uefipp.Text.Convert.Outputs.{append_code_point_roomy}
use uefipp.Text.Convert.Total.{IsByte}
use uefipp.Text.Convert.Steps.{feed_byte-pending, feed_byte_emitted, feed_byte_again}

replacement-IsScalar : IsScalar replacement_character
replacement-IsScalar = scalar replacement_character refl

data Landed : Expected Stop (Decoder × List ℕ) → Type 0 where
  landed : (t : State) (w : List ℕ) → IsBounded t → Landed (value (embed t, w))

module _ (fits : ℕ → Bool) (roomy : (n : ℕ) → fits n ≡ true) where
  emitted-Landed :
      (fuel i b : ℕ) (d : Decoder) (out : List ℕ) (v : ℕ)
      → IsScalar v
      → feed d b Policy.replace ≡ (fresh, value (emit v))
      → Landed (feed_byte fits (suc fuel) Policy.replace i b d out)
  emitted-Landed fuel i b d out v s e =
      rw
        (
          feed_byte_emitted fits fuel i b d out Policy.replace fresh e,
          append_code_point_roomy fits roomy out v s,
        )
        (landed idle (out ++ utf16 v) tt)

  fresh_turn :
      (fuel i b : ℕ) (out : List ℕ) {r : Decoder × Expected Error DecodeStep}
      → Fed idle b Policy.replace r
      → feed fresh b Policy.replace ≡ r
      → Landed (feed_byte fits (suc fuel) Policy.replace i b fresh out)
  fresh_turn fuel i b out (Fed.more t k _) e =
      rw (feed_byte-pending fits fuel i b fresh out Policy.replace e) (landed t out k)
  fresh_turn fuel i b out (Fed.done v s _) e = emitted-Landed fuel i b fresh out v (scalar v s) e
  fresh_turn fuel i b out Fed.wrong e =
      emitted-Landed fuel i b fresh out replacement_character replacement-IsScalar e
  fresh_turn fuel i b out (Fed.unread n) e = absurd (n refl)

  turn :
      (s : State) (i b : ℕ) (out : List ℕ) {r : Decoder × Expected Error DecodeStep}
      → b < 256
      → Fed s b Policy.replace r
      → feed (embed s) b Policy.replace ≡ r
      → Landed (feed_byte fits 2 Policy.replace i b (embed s) out)
  turn s i b out h (Fed.more t k _) e =
      rw (feed_byte-pending fits 1 i b (embed s) out Policy.replace e) (landed t out k)
  turn s i b out h (Fed.done v z _) e = emitted-Landed 1 i b (embed s) out v (scalar v z) e
  turn s i b out h Fed.wrong e =
      emitted-Landed 1 i b (embed s) out replacement_character replacement-IsScalar e
  turn s i b out h (Fed.unread n) e =
      rw
        (
          feed_byte_again fits 1 i b (embed s) out fresh e,
          append_code_point_roomy fits roomy out replacement_character replacement-IsScalar,
        )
        (fresh_turn 0 i b _ (feed-Fed idle b Policy.replace h tt) refl)

  finish_succeeds :
      (s : State) (out : List ℕ)
      → (w : List ℕ) × ((lift (finish (embed s) Policy.replace).1 >>= append_ready fits out)
          ≡ value w)
  unfolding finish
  finish_succeeds idle out = (out, refl)
  finish_succeeds _ out = (
    out ++ utf16 replacement_character,
    rw (append_code_point_roomy fits roomy out replacement_character replacement-IsScalar),
  )

  rest_succeeds :
      {r : Expected Stop (Decoder × List ℕ)} (k : Decoder → List ℕ → Expected Stop (List ℕ))
      → Landed r
      → ((t : State) (w : List ℕ) → IsBounded t → (u : List ℕ) × (k (embed t) w ≡ value u))
      → (u : List ℕ) × ((r >>= λ x. k x.0 x.1) ≡ value u)
  rest_succeeds k (landed t w h) ih = ih t w h

  convert_succeeds :
      (bs : List ℕ) (i : ℕ) (s : State) (out : List ℕ)
      → All IsByte bs
      → IsBounded s
      → (w : List ℕ) × (convert_bytes fits Policy.replace i bs (embed s) out ≡ value w)
  unfolding convert_bytes
  convert_succeeds [] i s out h k = finish_succeeds s out
  convert_succeeds (b ∷ bs) i s out h k =
      rest_succeeds (convert_bytes fits Policy.replace (i + 1) bs)
        (turn s i b out h.0 (feed-Fed s b Policy.replace h.0 k) refl)
        λ t w m. convert_succeeds bs (i + 1) t w h.1 m

  -- With `InvalidEncodingPolicy::Replace` and an allocator that never refuses, any bytes at all
  -- convert to some UTF-16 text.
  pub utf8_to_utf16_replaces :
      (source : List ℕ)
      → All IsByte source
      → (w : List ℕ) × (utf8_to_utf16 fits Policy.replace source ≡ value w)
  unfolding utf8_to_utf16
  utf8_to_utf16_replaces source h =
      rw (roomy (length source + 1)) (convert_succeeds source 0 idle [] h tt)
