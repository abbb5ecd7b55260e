-- ===== src/Text/Convert/Sound.antt =====
-- The conversion to UTF-16 under the rejecting policy: what it accepts.
use uefipp.Base.{
  ℕ, ◌+◌, ◌≡◌, refl, sym, ap, ◌∙◌, Bool, true, false, List, [], ◌∷◌, ◌++◌, append-nil, append_assoc,
  All, Expected, value, unexpected, ◌>>=◌, length, arith, Bool-cases, inl, inr,
}
use uefipp.Io.{Error, Stop, lift}
use uefipp.Text.{Policy, Decoder, DecodeStep, fresh, feed, finish}
use uefipp.Text.Convert.{append_code_point, feed_byte, convert_bytes, utf8_to_utf16}
use uefipp.Text.Encoding.{IsScalar, scalar, utf8, utf16, utf8_text, utf16_text}
use uefipp.Text.States.{State, idle, embed, IsBounded, seen, Fed, feed-Fed}
use uefipp.Text.Convert.Outputs.{append_code_point_ok}
use uefipp.Text.Convert.Total.{IsByte}
use uefipp.Text.Convert.Steps.{feed_byte-pending, feed_byte_emitted, feed_byte_refused}

-- The bytes are the encoding of code points whose UTF-16 was appended.
abbrev Reads : List ℕ → List ℕ → List ℕ → Type 0
Reads bytes out w =
    (cs : List ℕ) × All IsScalar cs × (bytes ≡ utf8_text cs) × (w ≡ out ++ utf16_text cs)

Reads-char :
    (before bs out w : List ℕ) (b v : ℕ)
    → IsScalar v
    → before ++ (b ∷ []) ≡ utf8 v
    → Reads bs (out ++ utf16 v) w
    → Reads (before ++ (b ∷ bs)) out w
Reads-char before bs out w b v s e (cs, h, f, g) = (
  v ∷ cs,
  (s, h),
  sym (append_assoc before (b ∷ []) bs)
      ∙ ap (λ (t : List ℕ). t ++ bs) e
      ∙ ap (λ (t : List ℕ). utf8 v ++ t) f,
  g ∙ append_assoc out (utf16 v) (utf16_text cs),
)

Reads-pending :
    (before after bs out w : List ℕ) (b : ℕ)
    → before ++ (b ∷ []) ≡ after
    → Reads (after ++ bs) out w
    → Reads (before ++ (b ∷ bs)) out w
Reads-pending before after bs out w b e (cs, h, f, g) =
    (cs, h, sym (append_assoc before (b ∷ []) bs) ∙ ap (λ (t : List ℕ). t ++ bs) e ∙ f, g)

module _ (fits : ℕ → Bool) where
  abbrev rest : ℕ → List ℕ → Decoder × List ℕ → Expected Stop (List ℕ)
  rest i bs x = convert_bytes fits Policy.reject i bs x.0 x.1

  sound_emitted :
      (i b v : ℕ) (bs out w : List ℕ) (before : List ℕ) (m : Expected Error (List ℕ))
      → append_code_point fits out v ≡ m
      → IsScalar v
      → before ++ (b ∷ []) ≡ utf8 v
      → (((lift m >>= λ longer. value (fresh, longer)) >>= rest i bs) ≡ value w)
      → ((t : State) (o : List ℕ)
          → IsBounded t
          → rest i bs (embed t, o) ≡ value w
          → Reads (seen t ++ bs) o w)
      → Reads (before ++ (b ∷ bs)) out w
  sound_emitted i b v bs out w before (value o) a s e h ih =
      let grown : o ≡ out ++ utf16 v = append_code_point_ok fits out v s a in
      Reads-char before bs out w b v s e (rw grown at (ih idle o tt h))
  sound_emitted i b v bs out w before (unexpected x) a s e h ih = cc

  sound_turn :
      (i b : ℕ) (bs out w : List ℕ) (s : State) {r : Decoder × Expected Error DecodeStep}
      → Fed s b Policy.reject r
      → feed (embed s) b Policy.reject ≡ r
      → (feed_byte fits 2 Policy.reject i b (embed s) out >>= rest (i + 1) bs) ≡ value w
      → ((t : State) (o : List ℕ)
          → IsBounded t
          → rest (i + 1) bs (embed t, o) ≡ value w
          → Reads (seen t ++ bs) o w)
      → Reads (seen s ++ (b ∷ bs)) out w
  sound_turn i b bs out w s (Fed.more t k q) e h ih =
      Reads-pending (seen s) (seen t) bs out w b q
        (ih t out k (rw (feed_byte-pending fits 1 i b (embed s) out Policy.reject e) at h))
  sound_turn i b bs out w s (Fed.done v z q) e h ih =
      sound_emitted (i + 1) b v bs out w (seen s) (append_code_point fits out v) refl (scalar v z) q
        (rw (feed_byte_emitted fits 1 i b (embed s) out Policy.reject fresh e) at h) ih
  sound_turn i b bs out w s Fed.wrong e h ih =
      cc (rw (feed_byte_refused fits 1 i b (embed s) out true e) at h)
  sound_turn i b bs out w s (Fed.unread n) e h ih =
      cc (rw (feed_byte_refused fits 1 i b (embed s) out false e) at h)

  sound_end :
      (i : ℕ) (s : State) (out w : List ℕ)
      → convert_bytes fits Policy.reject i [] (embed s) out ≡ value w
      → Reads (seen s ++ []) out w
  unfolding convert_bytes finish
  sound_end i idle out w h = ([], tt, refl, ground (arith, append-nil out))
  sound_end i _ out w h = cc

  convert-Reads :
      (bs : List ℕ) (i : ℕ) (s : State) (out w : List ℕ)
      → All IsByte bs
      → IsBounded s
      → convert_bytes fits Policy.reject i bs (embed s) out ≡ value w
      → Reads (seen s ++ bs) out w
  convert-Reads [] i s out w h k e = sound_end i s out w e
  convert-Reads (b ∷ bs) i s out w h k e =
      sound_turn i b bs out w s (feed-Fed s b Policy.reject h.0 k) refl (unfold convert_bytes in e)
        λ t o m. convert-Reads bs (i + 1) t o w h.1 m

  -- If the conversion succeeds under `InvalidEncodingPolicy::Reject`, the input is the shortest
  -- UTF-8 of a sequence of Unicode scalar values, and the output is the UTF-16 of the same ones.
  pub utf8_to_utf16_sound :
      (source w : List ℕ)
      → All IsByte source
      → utf8_to_utf16 fits Policy.reject source ≡ value w
      → (cs : List ℕ) × All IsScalar cs × (source ≡ utf8_text cs) × (w ≡ utf16_text cs)
  unfolding utf8_to_utf16
  utf8_to_utf16_sound source w h e = elim (Bool-cases (fits (length source + 1))) [
    | inl y ↦ convert-Reads source 0 idle [] w h tt (rw y at e)
    | inr y ↦ cc
  ]
