-- ===== src/Text/Encoding.antt =====
-- The Unicode encodings in plain arithmetic, and the encoders of Utf.hpp against them.
use uefipp.Base.{
  ℕ, ◌+◌, ◌-◌, ◌/◌, ◌%◌, ◌≤◌, ◌<◌, ◌≡◌, ◌⊎◌, true, false, List, [], ◌∷◌, ◌++◌, leb, if◌then◌else◌,
  value, unexpected, arith, ◌↔◌, Bool-cases, inl, inr,
}
use uefipp.Base.Bits.{low_six, low_ten, or_80, or_c0, or_e0, or_f0}
use uefipp.Text.{is_valid_code_point, encode_utf8, encode_utf16, invalid_encode}

-- A Unicode scalar value.
pub record IsScalar (c : ℕ) : Type 0 where
  pub in_range : c ≤ 0x10ffff
  pub no_surrogate : (c < 0xd800) ⊎ (0xdfff < c)

pub scalar : (c : ℕ) → is_valid_code_point c ≡ true → IsScalar c
scalar c h = record {
  in_range = ground arith;
  no_surrogate = elim (Bool-cases (leb 0xd800 c)) [
    | inl y ↦ inr (ground arith)
    | inr n ↦ inl (ground arith)
  ];
}

abbrev pub utf8 : ℕ → List ℕ
utf8 c =
    if leb c 0x7f
    then c ∷ []
    else if leb c 0x7ff
    then (0xc0 + c / 64) ∷ (0x80 + c % 64) ∷ []
    else if leb c 0xffff
    then (0xe0 + c / 4096) ∷ (0x80 + c / 64 % 64) ∷ (0x80 + c % 64) ∷ []
    else (0xf0 + c / 262144) ∷ (0x80 + c / 4096 % 64) ∷ (0x80 + c / 64 % 64) ∷ (0x80 + c % 64) ∷ []

unfoldable pub utf16 : ℕ → List ℕ
utf16 c =
    if leb c 0xffff
    then c ∷ []
    else (0xd800 + (c - 0x10000) / 1024) ∷ (0xdc00 + (c - 0x10000) % 1024) ∷ []

abbrev pub utf8_text : List ℕ → List ℕ
utf8_text [] = []
utf8_text (c ∷ cs) = utf8 c ++ utf8_text cs

abbrev pub utf16_text : List ℕ → List ℕ
utf16_text [] = []
utf16_text (c ∷ cs) = utf16 c ++ utf16_text cs

pub encode_utf8-utf8 : (c : ℕ) → IsScalar c → encode_utf8 c ≡ value (utf8 c)
unfolding encode_utf8
encode_utf8-utf8 c h = ground (
  arith,
  low_six c,
  low_six (c / 64),
  low_six (c / 4096),
  or_80 (c % 64) (omega arith),
  or_80 (c / 64 % 64) (omega arith),
  or_80 (c / 4096 % 64) (omega arith),
  or_c0 (c / 64),
  or_e0 (c / 4096),
  or_f0 (c / 262144),
)

pub encode_utf16-utf16 : (c : ℕ) → IsScalar c → encode_utf16 c ≡ value (utf16 c)
unfolding encode_utf16 utf16
encode_utf16-utf16 c h = ground (arith, low_ten (c - 0x10000))

-- The encoders refuse what is no scalar value.
pub encode_refuses :
    (c : ℕ)
    → is_valid_code_point c ≡ false
    → (encode_utf8 c ≡ unexpected invalid_encode) × (encode_utf16 c ≡ unexpected invalid_encode)
unfolding encode_utf8 encode_utf16
encode_refuses c h = (rw h, rw h)

-- EncodeUtf8 succeeds exactly on the scalar values, and then writes their UTF-8.
pub encode_utf8_iff :
    (c : ℕ) (bs : List ℕ) → (encode_utf8 c ≡ value bs) ↔ (IsScalar c × (bs ≡ utf8 c))
encode_utf8_iff c bs = (
  (λ e. elim (Bool-cases (is_valid_code_point c)) [
    | inl y ↦ (scalar c y, cc (encode_utf8-utf8 c (scalar c y)))
    | inr n ↦ cc ((encode_refuses c n).0)
  ]),
  (λ (s, e). rw e (encode_utf8-utf8 c s)),
)

-- EncodeUtf16 succeeds exactly on the scalar values, and then writes their UTF-16.
pub encode_utf16_iff :
    (c : ℕ) (us : List ℕ) → (encode_utf16 c ≡ value us) ↔ (IsScalar c × (us ≡ utf16 c))
encode_utf16_iff c us = (
  (λ e. elim (Bool-cases (is_valid_code_point c)) [
    | inl y ↦ (scalar c y, cc (encode_utf16-utf16 c (scalar c y)))
    | inr n ↦ cc ((encode_refuses c n).1)
  ]),
  (λ (s, e). rw e (encode_utf16-utf16 c s)),
)
