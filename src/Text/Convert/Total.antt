-- ===== src/Text/Convert/Total.antt =====
-- The rounds of the conversion to UTF-16.
use uefipp.Base.{
  ℕ, suc, ◌+◌, ◌<◌, ◌≡◌, refl, ◌≢◌, Bool, true, false, List, [], ◌∷◌, All, Expected, value,
  unexpected, ◌>>=◌, none, some, length, Bool-cases, inl, inr, Option,
}
use uefipp.Io.{Error, Stop, failed, out_of_fuel, lift}
use uefipp.Text.{Policy, Decoder, DecodeStep, fresh, replacement_character, feed, finish}
use uefipp.Text.Convert.{append_code_point, append_ready, feed_byte, convert_bytes, utf8_to_utf16}
use uefipp.Text.Encoding.{IsScalar, scalar}
use uefipp.Text.States.{State, idle, embed, IsBounded, Fed, feed-Fed}
use uefipp.Text.Convert.Steps.{
  feed_byte-pending, feed_byte_emitted, feed_byte_refused, feed_byte_again,
}

abbrev pub IsByte : ℕ → Type 0
IsByte b = b < 256

replacement-IsScalar : IsScalar replacement_character
replacement-IsScalar = scalar replacement_character refl

-- How a byte's turn in the loop ends: in a state of the decoder, or with the code's error.
data Landed : Expected Stop (Decoder × List ℕ) → Type 0 where
  landed : (t : State) (w : List ℕ) → IsBounded t → Landed (value (embed t, w))
  refused : (e : Error) → Landed (unexpected (failed e))

module _ (fits : ℕ → Bool) where
  emitted-Landed :
      (m : Expected Error (List ℕ)) → Landed (lift m >>= λ longer. value (fresh, longer))
  emitted-Landed (value w) = landed idle w tt
  emitted-Landed (unexpected e) = refused e

  -- From the start of a sequence one feeding is enough.
  fresh_turn :
      (fuel i b : ℕ) (p : Policy) (out : List ℕ) {r : Decoder × Expected Error DecodeStep}
      → Fed idle b p r
      → feed fresh b p ≡ r
      → Landed (feed_byte fits (suc fuel) p i b fresh out)
  fresh_turn fuel i b p out (Fed.more t k _) e =
      rw (feed_byte-pending fits fuel i b fresh out p e) (landed t out k)
  fresh_turn fuel i b p out (Fed.done v _ _) e =
      rw (feed_byte_emitted fits fuel i b fresh out p fresh e)
        (emitted-Landed (append_code_point fits out v))
  fresh_turn fuel i b Policy.replace out Fed.wrong e =
      rw (feed_byte_emitted fits fuel i b fresh out Policy.replace fresh e)
        (emitted-Landed (append_code_point fits out replacement_character))
  fresh_turn fuel i b Policy.reject out Fed.wrong e =
      rw (feed_byte_refused fits fuel i b fresh out true e) (refused _)
  fresh_turn fuel i b p out (Fed.unread n) e = absurd (n refl)

  again-Landed :
      (m : Expected Error (List ℕ)) (i b : ℕ)
      → b < 256
      → Landed (lift m >>= feed_byte fits 1 Policy.replace i b fresh)
  again-Landed (value w) i b h =
      fresh_turn 0 i b Policy.replace w (feed-Fed idle b Policy.replace h tt) refl
  again-Landed (unexpected e) i b h = refused e

  turn :
      (s : State) (i b : ℕ) (p : Policy) (out : List ℕ) {r : Decoder × Expected Error DecodeStep}
      → b < 256
      → Fed s b p r
      → feed (embed s) b p ≡ r
      → Landed (feed_byte fits 2 p i b (embed s) out)
  turn s i b p out h (Fed.more t k _) e =
      rw (feed_byte-pending fits 1 i b (embed s) out p e) (landed t out k)
  turn s i b p out h (Fed.done v _ _) e =
      rw (feed_byte_emitted fits 1 i b (embed s) out p fresh e)
        (emitted-Landed (append_code_point fits out v))
  turn s i b Policy.replace out h Fed.wrong e =
      rw (feed_byte_emitted fits 1 i b (embed s) out Policy.replace fresh e)
        (emitted-Landed (append_code_point fits out replacement_character))
  turn s i b Policy.reject out h Fed.wrong e =
      rw (feed_byte_refused fits 1 i b (embed s) out true e) (refused _)
  turn s i b Policy.replace out h (Fed.unread n) e =
      rw (feed_byte_again fits 1 i b (embed s) out fresh e)
        (again-Landed (append_code_point fits out replacement_character) i b h)
  turn s i b Policy.reject out h (Fed.unread n) e =
      rw (feed_byte_refused fits 1 i b (embed s) out false e) (refused _)

  lift-ne-out_of_fuel : (m : Expected Error (List ℕ)) → lift m ≢ unexpected out_of_fuel
  lift-ne-out_of_fuel (value w) e = cc
  lift-ne-out_of_fuel (unexpected x) e = cc

  finish_ends :
      (p : Policy) (d : Decoder) (out : List ℕ)
      → (lift (finish d p).1 >>= append_ready fits out) ≢ unexpected out_of_fuel
  finish_ends p d out = go (finish d p).1
    where
      go :
          (m : Expected Error (Option ℕ))
          → (lift m >>= append_ready fits out) ≢ unexpected out_of_fuel
      go (value none) e = cc
      go (value (some c)) e = lift-ne-out_of_fuel (append_code_point fits out c) e
      go (unexpected x) e = cc

  rest_ends :
      {r : Expected Stop (Decoder × List ℕ)} (k : Decoder → List ℕ → Expected Stop (List ℕ))
      → Landed r
      → ((t : State) (w : List ℕ) → IsBounded t → k (embed t) w ≢ unexpected out_of_fuel)
      → (r >>= λ x. k x.0 x.1) ≢ unexpected out_of_fuel
  rest_ends k (landed t w h) ih = ih t w h
  rest_ends k (refused x) ih = λ e. cc

  convert_ends :
      (p : Policy) (bs : List ℕ) (i : ℕ) (s : State) (out : List ℕ)
      → All IsByte bs
      → IsBounded s
      → convert_bytes fits p i bs (embed s) out ≢ unexpected out_of_fuel
  unfolding convert_bytes
  convert_ends p [] i s out h k = finish_ends p (embed s) out
  convert_ends p (b ∷ bs) i s out h k =
      rest_ends (convert_bytes fits p (i + 1) bs) (turn s i b p out h.0 (feed-Fed s b p h.0 k) refl)
        λ t w m. convert_ends p bs (i + 1) t w h.1 m

  -- Feeding each byte at most twice is enough: the conversion ends on every input of bytes,
  -- whatever the policy and the allocator's answers.
  pub utf8_to_utf16_ends :
      (p : Policy) (source : List ℕ)
      → All IsByte source
      → utf8_to_utf16 fits p source ≢ unexpected out_of_fuel
  unfolding utf8_to_utf16
  utf8_to_utf16_ends p source h = elim (Bool-cases (fits (length source + 1))) [
    | inl y ↦ rw y (convert_ends p source 0 idle [] h tt)
    | inr y ↦ rw y (λ e. cc)
  ]
