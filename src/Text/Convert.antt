-- ===== src/Text/Convert.antt =====
-- The conversions between UTF-8 and UTF-16 of UEFIpp/Include/UEFIpp/IO/Text/Utf.hpp.
mod Outputs
mod Steps
pub mod Total
pub mod Replace
pub mod Sound
pub mod Units
pub mod RoundTrip
use uefipp.Base.{
  ℕ, zero, suc, ◌+◌, ◌-◌, ◌*◌, ◌^◌, Bool, true, false, ◌&&◌, Option, none, some, List, [], ◌∷◌,
  ◌++◌, length, leb, if◌then◌else◌, Expected, value, unexpected, ◌>>=◌, ◌>>◌, require,
}
use uefipp.Io.{Error, ErrorCode, Operation, semantic, semantic_at, Stop, failed, out_of_fuel, lift}
use uefipp.Text.{
  Policy, Decoder, fresh, feed, finish, encode_utf8, encode_utf16, replacement_character,
}

abbrev pub no_memory : Error
no_memory = semantic ErrorCode.out_of_memory Operation.allocate

abbrev pub is_high : ℕ → Bool
is_high u = leb 0xd800 u && leb u 0xdbff

abbrev pub is_low : ℕ → Bool
is_low u = leb 0xdc00 u && leb u 0xdfff

abbrev lone : Policy → ℕ → Expected Error (ℕ × Bool)
lone Policy.replace index = value (replacement_character, false)
lone Policy.reject index =
    unexpected (semantic_at ErrorCode.invalid_encoding Operation.decode index 0)

abbrev pub paired_value : ℕ → ℕ → ℕ
paired_value high low = 0x10000 + (high - 0xd800) * 2 ^ 10 + (low - 0xdc00)

-- The code point at a unit, and whether the unit behind it belongs to it.
pub decode_unit : Policy → ℕ → ℕ → Option ℕ → Expected Error (ℕ × Bool)
decode_unit policy index unit next =
    if is_high unit
    then elim next [
      | none ↦ lone policy index
      | some low ↦ if is_low low then value (paired_value unit low, true) else lone policy index
    ]
    else if is_low unit
    then lone policy index
    else value (unit, false)

-- `fits n` is the allocator's answer to a string whose storage must hold n elements.
module _ (fits : ℕ → Bool) where
  -- `PushBack` of each element; the storage holds one more for the terminator.
  pub push_all : List ℕ → List ℕ → Expected Error (List ℕ)
  push_all out [] = value out
  push_all out (u ∷ us) = do
    require (fits (length out + 2)) no_memory
    push_all (out ++ (u ∷ [])) us

  pub push_utf8 : List ℕ → ℕ → Expected Error (List ℕ)
  push_utf8 out c = do bytes ← encode_utf8 c; push_all out bytes

  pub convert_units : Policy → ℕ → List ℕ → List ℕ → Expected Error (List ℕ)
  convert_units policy index [] out = value out
  convert_units policy index (u ∷ []) out = do
    (c, paired) ← decode_unit policy index u none
    push_utf8 out c
  convert_units policy index (u ∷ v ∷ more) out = do
    (c, paired) ← decode_unit policy index u (some v)
    longer ← push_utf8 out c
    elim paired [
      | true ↦ convert_units policy (index + 2) more longer
      | false ↦ convert_units policy (index + 1) (v ∷ more) longer
    ]

  pub utf16_to_utf8 : Policy → List ℕ → Expected Error (List ℕ)
  utf16_to_utf8 policy source = do
    require (fits (length source + 1)) no_memory
    convert_units policy 0 source []

  pub append_code_point : List ℕ → ℕ → Expected Error (List ℕ)
  append_code_point out c = do units ← encode_utf16 c; push_all out units

  abbrev pub append_ready : List ℕ → Option ℕ → Expected Stop (List ℕ)
  append_ready out none = value out
  append_ready out (some c) = lift (append_code_point out c)

  abbrev pub at_index {ℓ} : {A : Type ℓ} → ℕ → Expected Error A → Expected Stop A
  at_index index (value a) = value a
  at_index index (unexpected e) = unexpected (failed (record e { offset = index }))

  -- `while (!Consumed)`: a byte that the decoder did not consume is fed again.
  pub feed_byte : ℕ → Policy → ℕ → ℕ → Decoder → List ℕ → Expected Stop (Decoder × List ℕ)
  feed_byte zero policy index byte d out = unexpected out_of_fuel
  feed_byte (suc fuel) policy index byte d out = do
    step ← at_index index (feed d byte policy).1
    longer ← append_ready out step.code_point
    elim step.consumed [
      | true ↦ value ((feed d byte policy).0, longer)
      | false ↦ feed_byte fuel policy index byte (feed d byte policy).0 longer
    ]

  pub convert_bytes : Policy → ℕ → List ℕ → Decoder → List ℕ → Expected Stop (List ℕ)
  convert_bytes policy index [] d out = do last ← lift (finish d policy).1; append_ready out last
  convert_bytes policy index (b ∷ bs) d out = do
    (d', longer) ← feed_byte 2 policy index b d out
    convert_bytes policy (index + 1) bs d' longer

  pub utf8_to_utf16 : Policy → List ℕ → Expected Stop (List ℕ)
  utf8_to_utf16 policy source = do
    lift (require (fits (length source + 1)) no_memory)
    convert_bytes policy 0 source fresh []

  -- WChar is a UTF-16 unit.
  pub wide_to_utf8 : Policy → List ℕ → Expected Error (List ℕ)
  wide_to_utf8 policy source = utf16_to_utf8 policy source

  pub utf8_to_wide : Policy → List ℕ → Expected Stop (List ℕ)
  utf8_to_wide policy source = do
    converted ← utf8_to_utf16 policy source
    lift (require (fits (length converted + 1)) no_memory)
    value converted
