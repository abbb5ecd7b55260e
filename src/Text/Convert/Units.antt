-- ===== src/Text/Convert/Units.antt =====
-- UTF-16 to UTF-8 on well-formed text, and on what the conversion to UTF-16 made.
use uefipp.Base.{
  ℕ, ◌+◌, ◌-◌, ◌/◌, ◌%◌, ◌<◌, ◌≡◌, ap, ◌∙◌, Bool, true, false, List, [], ◌∷◌, ◌++◌, append-nil,
  append_assoc, All, Option, none, some, value, length, leb, arith, Bool-cases, inl, inr,
}
use uefipp.Text.{Policy}
use uefipp.Text.Convert.{decode_unit, convert_units, utf16_to_utf8, utf8_to_utf16}
use uefipp.Text.Encoding.{IsScalar, utf8, utf16, utf8_text, utf16_text}
use uefipp.Text.Convert.Outputs.{push_utf8_roomy}
use uefipp.Text.Convert.Total.{IsByte}
use uefipp.Text.Convert.Sound.{utf8_to_utf16_sound}

decode_unit_single :
    (p : Policy) (i c : ℕ) (next : Option ℕ)
    → IsScalar c
    → decode_unit p i c next ≡ value (c, false)
unfolding decode_unit
decode_unit_single p i c next s = ground arith

abbrev high_of : ℕ → ℕ
high_of c = 0xd800 + (c - 0x10000) / 1024

abbrev low_of : ℕ → ℕ
low_of c = 0xdc00 + (c - 0x10000) % 1024

decode_unit_pair :
    (p : Policy) (i c : ℕ)
    → IsScalar c
    → 0xffff < c
    → decode_unit p i (high_of c) (some (low_of c)) ≡ value (c, true)
unfolding decode_unit
decode_unit_pair p i c s h = ground arith

utf16_single : (c : ℕ) → leb c 0xffff ≡ true → utf16 c ≡ c ∷ []
unfolding utf16
utf16_single c h = rw h

utf16_pair : (c : ℕ) → leb c 0xffff ≡ false → utf16 c ≡ high_of c ∷ low_of c ∷ []
unfolding utf16
utf16_pair c h = rw h

module _ (fits : ℕ → Bool) (roomy : (n : ℕ) → fits n ≡ true) (p : Policy) where
  convert_single :
      (i c : ℕ) (rest out : List ℕ)
      → IsScalar c
      → convert_units fits p i (c ∷ rest) out ≡ convert_units fits p (i + 1) rest (out ++ utf8 c)
  unfolding convert_units
  convert_single i c [] out s =
      rw (decode_unit_single p i c none s, push_utf8_roomy fits roomy out c s)
  convert_single i c (v ∷ more) out s =
      rw (decode_unit_single p i c (some v) s, push_utf8_roomy fits roomy out c s)

  convert_pair :
      (i c : ℕ) (rest out : List ℕ)
      → IsScalar c
      → 0xffff < c
      → convert_units fits p i (high_of c ∷ low_of c ∷ rest) out
        ≡ convert_units fits p (i + 2) rest (out ++ utf8 c)
  unfolding convert_units
  convert_pair i c rest out s h =
      rw (decode_unit_pair p i c s h, push_utf8_roomy fits roomy out c s)

  convert_char :
      (i c : ℕ) (rest out : List ℕ)
      → IsScalar c
      → (j : ℕ) × (convert_units fits p i (utf16 c ++ rest) out
          ≡ convert_units fits p j rest (out ++ utf8 c))
  convert_char i c rest out s = elim (Bool-cases (leb c 0xffff)) [
    | inl y ↦ (i + 1, rw (utf16_single c y) (convert_single i c rest out s))
    | inr y ↦ (i + 2, rw (utf16_pair c y) (convert_pair i c rest out s (ground arith)))
  ]

  convert_text :
      (i : ℕ) (cs out : List ℕ)
      → All IsScalar cs
      → convert_units fits p i (utf16_text cs) out ≡ value (out ++ utf8_text cs)
  convert_text i [] out h = unfold convert_units in rw append-nil
  convert_text i (c ∷ cs) out h =
      let (j, e) = convert_char i c (utf16_text cs) out h.0 in
      e
      ∙ convert_text j cs (out ++ utf8 c) h.1
      ∙ ap value (append_assoc out (utf8 c) (utf8_text cs))

  -- Where memory suffices, well-formed UTF-16 converts to the UTF-8 of the same code points,
  -- under either policy.
  pub utf16_to_utf8-utf16_text :
      (cs : List ℕ) → All IsScalar cs → utf16_to_utf8 fits p (utf16_text cs) ≡ value (utf8_text cs)
  unfolding utf16_to_utf8
  utf16_to_utf8-utf16_text cs h = rw (roomy (length (utf16_text cs) + 1)) (convert_text 0 cs [] h)

  -- What the rejecting conversion to UTF-16 made of some bytes converts back to those bytes.
  pub utf16_to_utf8-utf8_to_utf16 :
      (source w : List ℕ)
      → All IsByte source
      → utf8_to_utf16 fits Policy.reject source ≡ value w
      → utf16_to_utf8 fits p w ≡ value source
  utf16_to_utf8-utf8_to_utf16 source w h e =
      let (cs, s, f, g) = utf8_to_utf16_sound fits source w h e in
      rw (f, g) (utf16_to_utf8-utf16_text cs s)
