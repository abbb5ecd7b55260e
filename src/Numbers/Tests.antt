-- ===== src/Numbers/Tests.antt =====
-- Runs of the formatter and the parser of integers, and examples of what is proved of them.
use uefipp.Base.{All, ℕ, ◌≡◌, refl, inl, true, false, List, [], ◌∷◌, ◌++◌, value, unexpected, arith}
use uefipp.Io.{ErrorCode}
use uefipp.Numbers.{
  Width, ParseOptions, parse_error, parse_integer, digit_value, FormatSpec, Alignment, Sign, Writer,
  digit, format_integer,
}
use uefipp.Numbers.Digits.{IsDigit, numeral}
use uefipp.Numbers.Values.{IsValue}
use uefipp.Numbers.Exact.{base_read, digits_read, parse_integer_exact}
use uefipp.Numbers.Reading.{parse_integer-format_integer}

abbrev hexadecimal : FormatSpec
hexadecimal = record {
  fill = 0x20;
  align = Alignment.default_side;
  sign_mode = Sign.always;
  width = 8;
  presentation = 0x78;
  alternate = true;
  zero_pad = true;
  uppercase = false;
}

abbrev in_base : ℕ → ParseOptions
in_base b = record {
  base = b;
  allow_sign = true;
  allow_separators = true;
  require_entire_token = true;
}

-- A writer that keeps everything.
abbrev keep_all : Writer (List ℕ)
keep_all bytes kept = (kept ++ bytes, value tt)

-- -42 as a byte is `-0x0002a`, and so is written and read.
written :
    (format_integer keep_all true Width.byte 0xd6 hexadecimal []).0
    ≡ 0x2d ∷ 0x30 ∷ 0x78 ∷ 0x30 ∷ 0x30 ∷ 0x30 ∷ 0x32 ∷ 0x61 ∷ []
unfolding format_integer digit
written = refl

-- `0x1_0` with a detected base, and `256`, which is no byte.
detected_base :
    parse_integer false Width.byte (0x30 ∷ 0x78 ∷ 0x31 ∷ 0x5f ∷ 0x30 ∷ []) (in_base 0) ≡ value 16
unfolding parse_integer digit_value
detected_base = refl

no_byte :
    parse_integer false Width.byte (0x32 ∷ 0x35 ∷ 0x36 ∷ []) (in_base 0)
    ≡ unexpected (parse_error ErrorCode.overflow 3)
unfolding parse_integer digit_value
no_byte = refl

parse_integer-format_integer_example :
    (text : List ℕ) × ((format_integer keep_all true Width.byte 0xd6 hexadecimal []).0 ≡ [] ++ text)
    × (parse_integer true Width.byte text (in_base 16) ≡ value 0xd6)
unfolding format_integer digit
parse_integer-format_integer_example =
    parse_integer-format_integer keep_all (λ kept. kept) (λ bytes s e. refl) true Width.byte 0xd6
      hexadecimal (in_base 16) [] (omega arith) (λ e. ground arith) (inl refl) refl refl refl

-- -16 as a byte, with a detected base.
parse_integer_exact_example :
    All
      (IsDigit (base_read (in_base 0) (0x2d ∷ 0x30 ∷ 0x78 ∷ 0x31 ∷ 0x5f ∷ 0x30 ∷ [])))
      (digits_read (in_base 0) (0x2d ∷ 0x30 ∷ 0x78 ∷ 0x31 ∷ 0x5f ∷ 0x30 ∷ []))
    × IsValue true Width.byte true
        (numeral
          (base_read (in_base 0) (0x2d ∷ 0x30 ∷ 0x78 ∷ 0x31 ∷ 0x5f ∷ 0x30 ∷ []))
          0
          (digits_read (in_base 0) (0x2d ∷ 0x30 ∷ 0x78 ∷ 0x31 ∷ 0x5f ∷ 0x30 ∷ [])))
        0xf0
unfolding parse_integer digit_value
parse_integer_exact_example =
    parse_integer_exact true Width.byte (0x2d ∷ 0x30 ∷ 0x78 ∷ 0x31 ∷ 0x5f ∷ 0x30 ∷ []) (in_base 0)
      0xf0 refl refl
