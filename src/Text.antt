-- ===== src/Text.antt =====
-- UEFIpp/Include/UEFIpp/IO/Text/Utf.hpp: the UTF-8 decoder, a state machine fed one byte at a
-- time, and the encoders. Bytes, UTF-16 units and code points are numbers.
pub mod Convert
pub mod Encoding
pub mod States
pub mod Reach
mod Tests
use uefipp.Base.{
  ℕ, ◌+◌, ◌-◌, ◌*◌, ◌/◌, ◌%◌, ◌^◌, Bool, true, false, not, ◌&&◌, Option, none, some, List, [], ◌∷◌,
  bit_and, bit_or, leb, ◌==◌, if◌then◌else◌, Expected, value, unexpected,
}
use uefipp.Io.{Error, ErrorCode, Operation, semantic}

pub data Policy : Type 0 where
  reject replace : Policy

pub record DecodeStep : Type 0 where
  pub code_point : Option ℕ
  pub consumed : Bool

pub record Decoder : Type 0 where
  pub code_point : ℕ
  pub minimum : ℕ
  pub remaining : ℕ

-- A decoder as it is built, and as `Reset` leaves it.
abbrev pub fresh : Decoder
fresh = record { code_point = 0; minimum = 0; remaining = 0 }

abbrev pub complete : Decoder → Bool
complete d = d.remaining == 0

abbrev pub replacement_character : ℕ
replacement_character = 0xfffd

abbrev pub is_valid_code_point : ℕ → Bool
is_valid_code_point v = leb v 0x10ffff && not (leb 0xd800 v && leb v 0xdfff)

abbrev pub invalid_decode : Error
invalid_decode = semantic ErrorCode.invalid_encoding Operation.decode

abbrev pub invalid_encode : Error
invalid_encode = semantic ErrorCode.invalid_encoding Operation.encode

-- `Utf8DecodeStep{}`: the byte is taken, and no code point is ready.
abbrev pub pending : DecodeStep
pending = record { code_point = none; consumed = true }

abbrev pub emit : ℕ → DecodeStep
emit v = record { code_point = some v; consumed = true }

-- What each malformed sequence gives: an error, or the replacement character.
abbrev pub malformed : Policy → Bool → Expected Error DecodeStep
malformed Policy.replace consumed =
    value (record { code_point = some replacement_character; consumed = consumed })
malformed Policy.reject consumed = unexpected invalid_decode

abbrev pub expecting : ℕ → ℕ → ℕ → Decoder
expecting c m r = record { code_point = c; minimum = m; remaining = r }

-- `Feed` where no continuation byte is awaited.
pub feed_lead : Decoder → ℕ → Policy → Decoder × Expected Error DecodeStep
feed_lead d byte policy =
    if leb byte 0x7f
    then (d, value (emit byte))
    else if leb 0xc2 byte && leb byte 0xdf
    then (expecting (bit_and byte 0x1f) 0x80 1, value pending)
    else if leb 0xe0 byte && leb byte 0xef
    then (expecting (bit_and byte 0x0f) 0x800 2, value pending)
    else if leb 0xf0 byte && leb byte 0xf4
    then (expecting (bit_and byte 0x07) 0x10000 3, value pending)
    else (d, malformed policy true)

-- `(CodePoint_ << 6) | (Byte & 0x3F)` in 32 bits.
abbrev pub shifted_in : ℕ → ℕ → ℕ
shifted_in c byte = bit_or (c * 64 % 2 ^ 32) (bit_and byte 0x3f)

-- `Feed` where a continuation byte is awaited. A byte of another form is not consumed.
pub feed_continuation : Decoder → ℕ → Policy → Decoder × Expected Error DecodeStep
feed_continuation d byte policy =
    if not (bit_and byte 0xc0 == 0x80)
    then (fresh, malformed policy false)
    else (let c = shifted_in d.code_point byte in
        let r = d.remaining - 1 in
        if not (r == 0)
        then (record { code_point = c; minimum = d.minimum; remaining = r }, value pending)
        else if leb d.minimum c && is_valid_code_point c
        then (fresh, value (emit c))
        else (fresh, malformed policy true))

pub feed : Decoder → ℕ → Policy → Decoder × Expected Error DecodeStep
unfolding feed_lead feed_continuation
feed d byte policy =
    if d.remaining == 0 then feed_lead d byte policy else feed_continuation d byte policy

pub finish : Decoder → Policy → Decoder × Expected Error (Option ℕ)
finish d policy = if complete d then (d, value none) else (
  fresh,
  elim policy [
    | Policy.replace ↦ value (some replacement_character)
    | Policy.reject ↦ unexpected invalid_decode
  ],
)

-- The bytes of `Output` that the returned count covers.
unfoldable pub encode_utf8 : ℕ → Expected Error (List ℕ)
encode_utf8 c =
    if not (is_valid_code_point c)
    then unexpected invalid_encode
    else if leb c 0x7f
    then value (c ∷ [])
    else if leb c 0x7ff
    then value (bit_or 0xc0 (c / 2 ^ 6) ∷ bit_or 0x80 (bit_and c 0x3f) ∷ [])
    else if leb c 0xffff
    then value (
        bit_or 0xe0 (c / 2 ^ 12)
        ∷ bit_or 0x80 (bit_and (c / 2 ^ 6) 0x3f)
        ∷ bit_or 0x80 (bit_and c 0x3f)
        ∷ [])
    else value (
        bit_or 0xf0 (c / 2 ^ 18)
        ∷ bit_or 0x80 (bit_and (c / 2 ^ 12) 0x3f)
        ∷ bit_or 0x80 (bit_and (c / 2 ^ 6) 0x3f)
        ∷ bit_or 0x80 (bit_and c 0x3f)
        ∷ [])

-- The units of `Output` that the returned count covers.
pub encode_utf16 : ℕ → Expected Error (List ℕ)
encode_utf16 c =
    if not (is_valid_code_point c)
    then unexpected invalid_encode
    else if leb c 0xffff
    then value (c ∷ [])
    else (let offset = c - 0x10000 in
        value ((0xd800 + offset / 2 ^ 10) ∷ (0xdc00 + bit_and offset 0x3ff) ∷ []))
