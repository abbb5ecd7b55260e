-- ===== src/Text/Convert/RoundTrip.antt =====
-- The conversion to UTF-16 on well-formed UTF-8.
use uefipp.Base.{
  ℕ, suc, ◌+◌, ◌*◌, ◌/◌, ◌%◌, ◌^◌, ◌≤◌, ◌<◌, ◌≡◌, ap, ◌∙◌, Bool, true, List, [], ◌∷◌, ◌++◌,
  append-nil, append_assoc, length, All, leb, value, arith, Bool-cases, inl, inr,
}
use uefipp.Base.Bits.{top_two, low_five, low_four, low_three}
use uefipp.Text.{Policy, Decoder, fresh, pending, emit, expecting, feed, feed_lead, finish}
use uefipp.Text.Convert.{feed_byte, convert_bytes, utf8_to_utf16}
use uefipp.Text.Encoding.{IsScalar, utf8, utf16, utf8_text, utf16_text}
use uefipp.Text.States.{feed_inner, feed_last}
use uefipp.Text.Convert.Outputs.{append_code_point_roomy}

feed_lead_2 :
    (x : ℕ) (p : Policy)
    → 2 ≤ x
    → x < 32
    → feed fresh (0xc0 + x) p ≡ (expecting x 0x80 1, value pending)
unfolding feed feed_lead
feed_lead_2 x p h k = ground (arith, low_five (0xc0 + x))

feed_lead_3 :
    (x : ℕ) (p : Policy) → x < 16 → feed fresh (0xe0 + x) p ≡ (expecting x 0x800 2, value pending)
unfolding feed feed_lead
feed_lead_3 x p h = ground (arith, low_four (0xe0 + x))

feed_lead_4 :
    (x : ℕ) (p : Policy) → x < 5 → feed fresh (0xf0 + x) p ≡ (expecting x 0x10000 3, value pending)
unfolding feed feed_lead
feed_lead_4 x p h = ground (arith, low_three (0xf0 + x))

feed_more :
    (c m r y : ℕ) (p : Policy)
    → c < 2 ^ 26
    → y < 64
    → feed (expecting c m (suc (suc r))) (0x80 + y) p
      ≡ (expecting (c * 64 + y) m (suc r), value pending)
unfolding feed
feed_more c m r y p h k =
    ground (arith, feed_inner c m r (0x80 + y) p h (ground (arith, top_two (0x80 + y))))

feed_end :
    (c m y v : ℕ) (p : Policy)
    → c < 2 ^ 26
    → y < 64
    → c * 64 + y ≡ v
    → m ≤ v
    → IsScalar v
    → feed (expecting c m 1) (0x80 + y) p ≡ (fresh, value (emit v))
unfolding feed
feed_end c m y v p h k e g s =
    ground (arith, feed_last c m (0x80 + y) p h (ground (arith, top_two (0x80 + y))))

module _ (fits : ℕ → Bool) (roomy : (n : ℕ) → fits n ≡ true) (p : Policy) where
  convert_more :
      (i b : ℕ) (bs : List ℕ) (d d' : Decoder) (out : List ℕ)
      → feed d b p ≡ (d', value pending)
      → convert_bytes fits p i (b ∷ bs) d out ≡ convert_bytes fits p (i + 1) bs d' out
  unfolding convert_bytes feed_byte
  convert_more i b bs d d' out e = rw (e, e)

  convert_emit :
      (i b v : ℕ) (bs : List ℕ) (d : Decoder) (out : List ℕ)
      → IsScalar v
      → feed d b p ≡ (fresh, value (emit v))
      → convert_bytes fits p i (b ∷ bs) d out
        ≡ convert_bytes fits p (i + 1) bs fresh (out ++ utf16 v)
  unfolding convert_bytes feed_byte
  convert_emit i b v bs d out s e = rw (e, append_code_point_roomy fits roomy out v s, e)

  convert_ascii :
      (i c : ℕ) (rest out : List ℕ)
      → IsScalar c
      → c ≤ 0x7f
      → convert_bytes fits p i (c ∷ rest) fresh out
        ≡ convert_bytes fits p (i + 1) rest fresh (out ++ utf16 c)
  unfolding feed feed_lead
  convert_ascii i c rest out s h = convert_emit i c c rest fresh out s (ground arith)

  -- One character at the front of the input.
  convert_char :
      (i c : ℕ) (rest out : List ℕ)
      → IsScalar c
      → (j : ℕ) × (convert_bytes fits p i (utf8 c ++ rest) fresh out
          ≡ convert_bytes fits p j rest fresh (out ++ utf16 c))
  convert_char i c rest out s = elim (Bool-cases (leb c 0x7f)) [
    | inl a ↦ rw a (i + 1, convert_ascii i c rest out s (ground arith))
    | inr a ↦ rw a (elim (Bool-cases (leb c 0x7ff)) [
      | inl e ↦ rw e (
        i + 1 + 1,
        convert_more i _ _ _ _ out (feed_lead_2 (c / 64) p (ground arith) (ground arith))
            ∙ convert_emit (i + 1) _ c rest _ out s (
                feed_end (c / 64) 0x80 (c % 64) c p (omega arith) (omega arith) (omega arith)
                  (ground arith) s),
      )
      | inr e ↦ rw e (elim (Bool-cases (leb c 0xffff)) [
        | inl f ↦ rw f (
          i + 1 + 1 + 1,
          convert_more i _ _ _ _ out (feed_lead_3 (c / 4096) p (ground arith))
              ∙ convert_more (i + 1) _ _ _ _ out
                  (feed_more (c / 4096) 0x800 0 (c / 64 % 64) p (ground arith) (omega arith))
              ∙ convert_emit (i + 1 + 1) _ c rest _ out s (
                  feed_end (c / 4096 * 64 + c / 64 % 64) 0x800 (c % 64) c p (ground arith)
                    (omega arith) (omega arith) (ground arith) s),
        )
        | inr f ↦ rw f (
          i + 1 + 1 + 1 + 1,
          convert_more i _ _ _ _ out (feed_lead_4 (c / 262144) p (ground arith))
              ∙ convert_more (i + 1) _ _ _ _ out
                  (feed_more (c / 262144) 0x10000 1 (c / 4096 % 64) p (ground arith) (omega arith))
              ∙ convert_more (i + 1 + 1) _ _ _ _ out (
                  feed_more (c / 262144 * 64 + c / 4096 % 64) 0x10000 0 (c / 64 % 64) p
                    (ground arith) (omega arith))
              ∙ convert_emit (i + 1 + 1 + 1) _ c rest _ out s (
                  feed_end ((c / 262144 * 64 + c / 4096 % 64) * 64 + c / 64 % 64) 0x10000 (c % 64) c
                    p (ground arith) (omega arith) (omega arith) (ground arith) s),
        )
      ])
    ])
  ]

  convert_text :
      (i : ℕ) (cs out : List ℕ)
      → All IsScalar cs
      → convert_bytes fits p i (utf8_text cs) fresh out ≡ value (out ++ utf16_text cs)
  convert_text i [] out h = unfold convert_bytes finish in rw append-nil
  convert_text i (c ∷ cs) out h =
      let (j, e) = convert_char i c (utf8_text cs) out h.0 in
      e
      ∙ convert_text j cs (out ++ utf16 c) h.1
      ∙ ap value (append_assoc out (utf16 c) (utf16_text cs))

  -- Where memory suffices, well-formed UTF-8 converts to the UTF-16 of the same code points,
  -- under either policy.
  pub utf8_to_utf16-utf8_text :
      (cs : List ℕ) → All IsScalar cs → utf8_to_utf16 fits p (utf8_text cs) ≡ value (utf16_text cs)
  unfolding utf8_to_utf16
  utf8_to_utf16-utf8_text cs h = rw (roomy (length (utf8_text cs) + 1)) (convert_text 0 cs [] h)
