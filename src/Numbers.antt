-- ===== src/Numbers.antt =====
-- Integers as text: ParseInteger of UEFIpp/Include/UEFIpp/IO/Text/Scan.hpp, and FormatUnsigned with
-- the formatter of the integers of UEFIpp/Include/UEFIpp/IO/Text/Format.hpp. A text is the list of
-- its bytes. A value of an integer type is the number below 2 to its width that its bits spell.
pub mod Digits
pub mod Scanning
pub mod Writing
pub mod Reading
pub mod Values
pub mod Exact
mod Tests
use uefipp.Base.{
  ℕ, zero, suc, ◌+◌, ◌-◌, ◌*◌, ◌/◌, ◌%◌, ◌^◌, min, Bool, true, false, not, ◌&&◌, ◌||◌, List, [],
  ◌∷◌, ◌++◌, length, get_or, drop, replicate, leb, ltb, ◌==◌, if◌then◌else◌, Expected, value,
  unexpected, ◌>>=◌,
}
use uefipp.Io.{Error, ErrorCode, Operation, semantic, semantic_at}

-- The integer types: their width, and whether they have a sign.
pub data Width : Type 0 where
  byte word dword qword : Width

abbrev pub bits : Width → ℕ
bits Width.byte = 8
bits Width.word = 16
bits Width.dword = 32
bits Width.qword = 64

pub record ParseOptions : Type 0 where
  pub base : ℕ
  pub allow_sign : Bool
  pub allow_separators : Bool
  pub require_entire_token : Bool

abbrev pub parse_error : ErrorCode → ℕ → Error
parse_error code position = semantic_at code Operation.parse position 0

unfoldable pub digit_value : ℕ → ℕ
digit_value c =
    if leb 0x30 c && leb c 0x39
    then c - 0x30
    else if leb 0x61 c && leb c 0x7a
    then c - 0x61 + 10
    else if leb 0x41 c && leb c 0x5a
    then c - 0x41 + 10
    else 0xff

-- What one round of the loop over the digits comes to.
pub data Round : Type 0 where
  refused : Error → Round
  stopped : Round
  separated : Round
  taken : ℕ → Round

-- The loop's state: the position, `Magnitude`, `SawDigit` and `PreviousSeparator`.
unfoldable pub round : ParseOptions → ℕ → ℕ → ℕ → ℕ → Bool → Bool → Round
round o base c p m saw sep =
    if o.allow_separators && (c == 0x5f)
    then (if not saw || sep then refused (parse_error ErrorCode.invalid_format p) else separated)
    else if leb base (digit_value c)
    then (if o.require_entire_token
        then refused (parse_error ErrorCode.invalid_format p)
        else stopped)
    else if ltb ((2 ^ 64 - 1 - digit_value c) / base) m
    then refused (parse_error ErrorCode.overflow p)
    else taken ((m * base + digit_value c) % 2 ^ 64)

-- The test behind the loop.
abbrev pub finished : ℕ → ℕ → Bool → Bool → Expected Error (ℕ × ℕ)
finished p m saw sep =
    if not saw || sep then unexpected (parse_error ErrorCode.invalid_format p) else value (m, p)

pub scan_digits : ParseOptions → ℕ → List ℕ → ℕ → ℕ → Bool → Bool → Expected Error (ℕ × ℕ)
unfolding round
scan_digits o base [] p m saw sep = finished p m saw sep
scan_digits o base (c ∷ cs) p m saw sep = elim (round o base c p m saw sep) [
  | refused e ↦ unexpected e
  | stopped ↦ finished p m saw sep
  | separated ↦ scan_digits o base cs (p + 1) m saw true
  | taken n ↦ scan_digits o base cs (p + 1) n true false
]

-- The base that a prefix stands for, where the options ask for its detection.
abbrev pub detected : ℕ → ℕ
detected c =
    if (c == 0x78) || (c == 0x58)
    then 16
    else if (c == 0x62) || (c == 0x42)
    then 2
    else if (c == 0x6f) || (c == 0x4f)
    then 8
    else 10

-- Whether a base that the options give may have this prefix.
abbrev pub is_marker : ℕ → ℕ → Bool
is_marker base c =
    (base == 16) && ((c == 0x78) || (c == 0x58))
    || (base == 2) && ((c == 0x62) || (c == 0x42))
    || (base == 8) && ((c == 0x6f) || (c == 0x4f))

-- The base, and how many bytes its prefix takes.
unfoldable pub radix : ℕ → List ℕ → ℕ × ℕ
radix zero rest =
    if ltb 1 (length rest) && (get_or rest 0 0 == 0x30)
    then (detected (get_or rest 1 0), if detected (get_or rest 1 0) == 10 then 0 else 2)
    else (10, 0)
radix (suc b) rest = (
  suc b,
  if ltb 1 (length rest) && (get_or rest 0 0 == 0x30) && is_marker (suc b) (get_or rest 1 0)
      then 2
      else 0,
)

-- The magnitude as a value of the type.
unfoldable pub converted : Bool → Width → Bool → ℕ → ℕ → Expected Error ℕ
converted true w negative m p =
    let maximum : ℕ = 2 ^ (bits w - 1) - 1 in
    if ltb (if negative then maximum + 1 else maximum) m
    then unexpected (parse_error ErrorCode.overflow p)
    else if negative
    then (if m == maximum + 1
        then value (2 ^ bits w - maximum - 1)
        else value ((2 ^ bits w - m) % 2 ^ bits w))
    else value m
converted false w negative m p =
    if negative || ltb (2 ^ bits w - 1) m
    then unexpected (parse_error ErrorCode.overflow p)
    else value m

abbrev pub has_sign : ParseOptions → List ℕ → Bool
has_sign o text =
    o.allow_sign && ltb 0 (length text) && ((get_or text 0 0 == 0x2b) || (get_or text 0 0 == 0x2d))

-- The part behind the sign, which ends at position `p`.
unfoldable pub parse_magnitude : ParseOptions → ℕ → List ℕ → Expected Error (ℕ × ℕ)
unfolding radix scan_digits
parse_magnitude o p rest =
    let found : ℕ × ℕ = radix o.base rest in
    if length rest == 0
    then unexpected (parse_error ErrorCode.invalid_format p)
    else if ltb found.0 2 || ltb 36 found.0
    then unexpected (semantic ErrorCode.invalid_argument Operation.parse)
    else scan_digits o found.0 (drop found.1 rest) (p + found.1) 0 false false

unfoldable pub parse_integer : Bool → Width → List ℕ → ParseOptions → Expected Error ℕ
unfolding converted parse_magnitude
parse_integer signed w text o =
    let signs : Bool = has_sign o text in
    let negative : Bool = signs && (get_or text 0 0 == 0x2d) in
    let p : ℕ = if signs then 1 else 0 in
    parse_magnitude o p (drop p text) >>= λ read. converted signed w negative read.0 read.1

pub data Alignment : Type 0 where
  default_side left_side right_side center : Alignment

pub data Sign : Type 0 where
  negative_only always space : Sign

-- `FormatSpec`, less `Precision` and `Debug`, which the formatter of the integers does not read.
pub record FormatSpec : Type 0 where
  pub fill : ℕ
  pub align : Alignment
  pub sign_mode : Sign
  pub width : ℕ
  pub presentation : ℕ
  pub alternate : Bool
  pub zero_pad : Bool
  pub uppercase : Bool

-- A call of a writer that must take all of the bytes, and the calls of one after another.
abbrev pub Writer {ℓ} : Type ℓ → Type ℓ
Writer W = List ℕ → W → W × Expected Error (Unit {0})

pub write_pieces {ℓ} : {W : Type ℓ} → Writer W → List (List ℕ) → W → W × Expected Error (Unit {0})
write_pieces write [] s = (s, value tt)
write_pieces write (piece ∷ pieces) s = elim (write piece s).1 [
  | value u ↦ write_pieces write pieces (write piece s).0
  | unexpected e ↦ ((write piece s).0, unexpected e)
]

-- What Repeat writes, with a buffer of 32 characters. A round writes one at least.
pub repeated : ℕ → ℕ → ℕ → List (List ℕ)
repeated zero c count = []
repeated (suc rounds) c count =
    let rest : List (List ℕ) = repeated rounds c (count - 32) in
    if count == 0 then [] else replicate (min count 32) c ∷ rest

abbrev pub repeat : ℕ → ℕ → List (List ℕ)
repeat c count = repeated count c count

unfoldable pub digit : ℕ → Bool → ℕ
digit v uppercase = if ltb v 10 then 0x30 + v else (if uppercase then 0x41 else 0x61) + v - 10

abbrev pub base_of : ℕ → ℕ
base_of c =
    if (c == 0x62) || (c == 0x42)
    then 2
    else if c == 0x6f
    then 8
    else if (c == 0x78) || (c == 0x58) || (c == 0x70)
    then 16
    else 10

abbrev pub is_upper : FormatSpec → Bool
is_upper f = f.uppercase || (f.presentation == 0x58) || (f.presentation == 0x42)

-- The loop that fills `Digits`, and `Digits` read from its end, as the last loop does.
pub put_digits : ℕ → ℕ → Bool → ℕ → List ℕ → List ℕ
put_digits zero base uppercase v digits = digits
put_digits (suc fuel) base uppercase v digits =
    let rest : List ℕ =
      put_digits fuel base uppercase (v / base) (digit (v % base) uppercase ∷ digits) in
    if v / base == 0 then digit (v % base) uppercase ∷ digits else rest

abbrev pub sign_of : FormatSpec → Bool → List ℕ
sign_of f true = 0x2d ∷ []
sign_of f false = elim f.sign_mode [
  | Sign.always ↦ 0x2b ∷ []
  | Sign.space ↦ 0x20 ∷ []
  | Sign.negative_only ↦ []
]

abbrev pub prefix_for : Bool → ℕ → Bool → List ℕ
prefix_for shown base upper =
    if shown
    then (if base == 2
        then 0x30 ∷ (if upper then 0x42 else 0x62) ∷ []
        else if base == 8
        then 0x30 ∷ []
        else if base == 16
        then 0x30 ∷ (if upper then 0x58 else 0x78) ∷ []
        else [])
    else []

abbrev pub base_prefix : FormatSpec → List ℕ
base_prefix f =
    prefix_for (f.alternate || (f.presentation == 0x70)) (base_of f.presentation) (is_upper f)

abbrev pub each : List ℕ → List (List ℕ)
each [] = []
each (c ∷ cs) = (c ∷ []) ∷ each cs

-- `Padding`, for a prefix and digits of this length.
abbrev pub padding : FormatSpec → ℕ → ℕ
padding f raw = if ltb raw f.width then f.width - raw else 0

abbrev pub left_part : Alignment → ℕ → ℕ
left_part Alignment.default_side n = n
left_part Alignment.right_side n = n
left_part Alignment.center n = n / 2
left_part Alignment.left_side n = 0

abbrev pub zero_filled : FormatSpec → Bool
zero_filled f = f.zero_pad && elim f.align [ Alignment.default_side ↦ true | _ ↦ false ]

-- What FormatUnsigned writes behind one another.
abbrev pub arranged : FormatSpec → List ℕ → List ℕ → List (List ℕ)
arranged f prefix digits =
    let n : ℕ = padding f (length prefix + length digits) in
    if zero_filled f
    then (prefix ∷ []) ++ repeat 0x30 n ++ each digits
    else repeat f.fill (left_part f.align n)
      ++ (prefix ∷ [])
      ++ each digits
      ++ repeat f.fill (n - left_part f.align n)

unfoldable pub unsigned_pieces : FormatSpec → ℕ → Bool → List (List ℕ)
unfolding put_digits repeated
unsigned_pieces f v negative =
    arranged f (sign_of f negative ++ base_prefix f)
      (put_digits 64 (base_of f.presentation) (is_upper f) v [])

pub format_unsigned {ℓ} :
    {W : Type ℓ} → Writer W → ℕ → Bool → FormatSpec → W → W × Expected Error (Unit {0})
unfolding write_pieces unsigned_pieces
format_unsigned write v negative f s = write_pieces write (unsigned_pieces f v negative) s

-- `ValidatePresentation(Spec, u8"dbBoxX")`
abbrev pub is_integer_presentation : ℕ → Bool
is_integer_presentation c =
    (c == 0)
    || (c == 0x64)
    || (c == 0x62)
    || (c == 0x42)
    || (c == 0x6f)
    || (c == 0x78)
    || (c == 0x58)

abbrev pub is_negative : Bool → Width → ℕ → Bool
is_negative signed w v = signed && leb (2 ^ (bits w - 1)) v

abbrev pub magnitude_of : Bool → Width → ℕ → ℕ
magnitude_of signed w v = if is_negative signed w v then 2 ^ bits w - (v + 1) + 1 else v

pub format_integer {ℓ} :
    {W : Type ℓ} → Writer W → Bool → Width → ℕ → FormatSpec → W → W × Expected Error (Unit {0})
unfolding format_unsigned
format_integer write signed w v f s =
    if is_integer_presentation f.presentation
    then format_unsigned write (magnitude_of signed w v) (is_negative signed w v) f s
    else (s, unexpected (semantic ErrorCode.invalid_format Operation.format))
