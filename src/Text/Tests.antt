-- ===== src/Text/Tests.antt =====
-- Runs of the decoder and of the conversions on short texts.
use uefipp.Base.{◌∙◌, ℕ, ◌≡◌, ◌≢◌, refl, Bool, true, List, [], ◌∷◌, value, unexpected, All, arith}
use uefipp.Io.{out_of_fuel}
use uefipp.Text.{Policy, Decoder, fresh, emit, feed, feed_lead, feed_continuation, encode_utf8}
use uefipp.Text.Encoding.{IsScalar, scalar, utf8_text, utf16, utf16_text}
use uefipp.Text.Reach.{Reach, by_feed, Reach-IsScalar}
use uefipp.Text.Convert.{utf8_to_utf16, utf16_to_utf8}
use uefipp.Text.Convert.Sound.{utf8_to_utf16_sound}
use uefipp.Text.Convert.RoundTrip.{utf8_to_utf16-utf8_text}
use uefipp.Text.Convert.Units.{utf16_to_utf8-utf16_text, utf16_to_utf8-utf8_to_utf16}
use uefipp.Text.Convert.Total.{IsByte, utf8_to_utf16_ends}
use uefipp.Text.Convert.Replace.{utf8_to_utf16_replaces}

abbrev any : ℕ → Bool
any n = true

-- U+00E9 and U+1F600, their bytes, and their units.
abbrev points : List ℕ
points = 0xe9 ∷ 0x1f600 ∷ []

abbrev bytes : List ℕ
bytes = 0xc3 ∷ 0xa9 ∷ 0xf0 ∷ 0x9f ∷ 0x98 ∷ 0x80 ∷ []

abbrev units : List ℕ
units = 0xe9 ∷ 0xd83d ∷ 0xde00 ∷ []

scalars : All IsScalar points
scalars = (scalar 0xe9 refl, (scalar 0x1f600 refl, tt))

are_bytes : All IsByte bytes
are_bytes =
    (omega arith, (omega arith, (omega arith, (omega arith, (omega arith, (omega arith, tt))))))

roomy : (n : ℕ) → any n ≡ true
roomy n = refl

units_here : utf16_text points ≡ units
unfolding utf16
units_here = refl

converts : utf8_to_utf16 any Policy.reject bytes ≡ value units
converts = utf8_to_utf16-utf8_text any roomy Policy.reject points scalars ∙ rw units_here

encodes : encode_utf8 0x1f600 ≡ value (0xf0 ∷ 0x9f ∷ 0x98 ∷ 0x80 ∷ [])
unfolding encode_utf8
encodes = refl

-- The decoder behind the lead byte of U+00E9.
abbrev one_read : Decoder
one_read = (feed fresh 0xc3 Policy.reject).0

reached : Reach one_read
reached = Reach.fed Reach.start 0xc3 Policy.reject (omega arith)

emits : (feed one_read 0xa9 Policy.reject).1 ≡ value (emit 0xe9)
unfolding feed feed_lead feed_continuation
emits = refl

utf8_to_utf16-utf8_text_example : utf8_to_utf16 any Policy.reject bytes ≡ value (utf16_text points)
utf8_to_utf16-utf8_text_example = utf8_to_utf16-utf8_text any roomy Policy.reject points scalars

utf16_to_utf8-utf16_text_example :
    utf16_to_utf8 any Policy.replace (utf16_text points) ≡ value bytes
utf16_to_utf8-utf16_text_example = utf16_to_utf8-utf16_text any roomy Policy.replace points scalars

utf8_to_utf16_sound_example :
    (cs : List ℕ) × All IsScalar cs × (bytes ≡ utf8_text cs) × (units ≡ utf16_text cs)
utf8_to_utf16_sound_example = utf8_to_utf16_sound any bytes units are_bytes converts

utf16_to_utf8-utf8_to_utf16_example : utf16_to_utf8 any Policy.reject units ≡ value bytes
utf16_to_utf8-utf8_to_utf16_example =
    utf16_to_utf8-utf8_to_utf16 any roomy Policy.reject bytes units are_bytes converts

utf8_to_utf16_ends_example :
    utf8_to_utf16 any Policy.reject (0xe2 ∷ 0x28 ∷ []) ≢ unexpected out_of_fuel
utf8_to_utf16_ends_example =
    utf8_to_utf16_ends any Policy.reject (0xe2 ∷ 0x28 ∷ []) (omega arith, (omega arith, tt))

utf8_to_utf16_replaces_example :
    (w : List ℕ) × (utf8_to_utf16 any Policy.replace (0xe2 ∷ 0x28 ∷ []) ≡ value w)
utf8_to_utf16_replaces_example =
    utf8_to_utf16_replaces any roomy (0xe2 ∷ 0x28 ∷ []) (omega arith, (omega arith, tt))

Reach-IsScalar_example : IsScalar 0xe9
Reach-IsScalar_example =
    Reach-IsScalar reached (by_feed 0xa9 Policy.reject (emit 0xe9) (omega arith) emits refl)
