-- ===== src/Pe.antt =====
-- UEFIpp/Source/Executable/Pe/Image.cpp and UEFIpp/Include/UEFIpp/Executable/Pe/Types.hpp: a loaded
-- PE image, read through its base address. Memory is a function from addresses to bytes; the
-- fields of the headers are read at the offsets that the structures give them.
pub mod Headers
pub mod Exports
mod Tests
use mathlib.Core.List.{reverse}
use uefipp.Base.{
  ℕ, zero, suc, ◌+◌, ◌*◌, ◌%◌, ◌^◌, Bool, true, false, not, ◌&&◌, ◌||◌, Option, none, some, List,
  [], ◌∷◌, ◌++◌, length, ltb, leb, ◌==◌, if◌then◌else◌, Expected, value, unexpected, ◌>>=◌, ◌>>◌,
  require,
}

abbrev pub Memory : Type 0
Memory = ℕ → ℕ

abbrev pub read16 : Memory → ℕ → ℕ
read16 m a = m a + 256 * m (a + 1)

abbrev pub read32 : Memory → ℕ → ℕ
read32 m a = read16 m a + 65536 * read16 m (a + 2)

abbrev pub read64 : Memory → ℕ → ℕ
read64 m a = read32 m a + 2 ^ 32 * read32 m (a + 4)

abbrev pub dos_signature : ℕ
dos_signature = 0x5a4d

abbrev pub nt_signature : ℕ
nt_signature = 0x4550

abbrev pub optional_header_32_magic : ℕ
optional_header_32_magic = 0x10b

abbrev pub optional_header_64_magic : ℕ
optional_header_64_magic = 0x20b

abbrev pub directory_count : ℕ
directory_count = 16

-- Offsets within DosHeader, NtHeaders32 and NtHeaders64.
abbrev nt_header_offset_at : ℕ
nt_header_offset_at = 60

abbrev file_header_at : ℕ
file_header_at = 4

abbrev optional_header_at : ℕ
optional_header_at = 24

pub record Directory : Type 0 where
  pub rva : ℕ
  pub size : ℕ

abbrev pub no_directory : Directory
no_directory = record { rva = 0; size = 0 }

abbrev pub is_vacant : Directory → Bool
is_vacant d = d.rva == 0 || d.size == 0

module _ (m : Memory) (base : ℕ) where
  pub nt_headers : ℕ
  nt_headers = base + read32 m (base + nt_header_offset_at)

  -- NtSignaturePointer: the address of the signature behind a good DOS header.
  pub nt_signature_pointer : Option ℕ
  nt_signature_pointer =
      if base == 0
      then none
      else if not (read16 m base == dos_signature)
      then none
      else some nt_headers

  -- OptionalHeaderMagicPointer.
  pub magic_pointer : Option ℕ
  magic_pointer = elim nt_signature_pointer [
    | none ↦ none
    | some s ↦ if not (read32 m s == nt_signature) then none else some (s + 4 + 20)
  ]

  pub has_magic : ℕ → Bool
  has_magic magic = elim magic_pointer [ none ↦ false | some p ↦ read16 m p == magic ]

  pub is_32 : Bool
  is_32 = has_magic optional_header_32_magic

  pub is_64 : Bool
  is_64 = has_magic optional_header_64_magic

  pub is_valid : Bool
  is_valid =
      if base == 0
      then false
      else if not (read16 m base == dos_signature)
      then false
      else elim nt_signature_pointer [
        | none ↦ false
        | some s ↦ if not (read32 m s == nt_signature) then false else is_32 || is_64
      ]

  pub file_header : Option ℕ
  file_header = if not is_valid then none else some (nt_headers + file_header_at)

  pub image_size : ℕ
  image_size =
      if not is_valid
      then 0
      else if is_64
      then read32 m (nt_headers + optional_header_at + 56)
      else read32 m (nt_headers + optional_header_at + 56)

  pub entry_point_rva : ℕ
  entry_point_rva =
      if not is_valid
      then 0
      else if is_64
      then read32 m (nt_headers + optional_header_at + 16)
      else read32 m (nt_headers + optional_header_at + 16)

  abbrev directory_at : ℕ → ℕ → Directory
  directory_at start id = record {
    rva = read32 m (start + 8 * id);
    size = read32 m (start + 8 * id + 4);
  }

  pub get_directory : ℕ → Directory
  get_directory id =
      if not is_valid || leb directory_count id
      then no_directory
      else if is_64
      then (if leb (read32 m (nt_headers + optional_header_at + 108)) id
          then no_directory
          else directory_at (nt_headers + optional_header_at + 112) id)
      else if leb (read32 m (nt_headers + optional_header_at + 92)) id
      then no_directory
      else directory_at (nt_headers + optional_header_at + 96) id

  pub section_headers : Option ℕ
  section_headers = elim file_header [
    | none ↦ none
    | some f ↦ some (nt_headers + 4 + 20 + read16 m (f + 16))
  ]

  pub section_count : ℕ
  section_count = elim file_header [ none ↦ 0 | some f ↦ read16 m (f + 2) ]

  pub rva_to_pointer : ℕ → Option ℕ
  rva_to_pointer rva =
      if base == 0 || rva == 0 || leb image_size rva then none else some (base + rva)

pub record Export : Type 0 where
  pub name : List ℕ
  pub ordinal : ℕ
  pub rva : ℕ
  pub address : ℕ
  pub forwarded : Bool
  pub forwarder : List ℕ

-- `text p` is the string that starts at the address `p`: what String's constructor copies from a
-- character pointer.
module _ (m : Memory) (text : ℕ → List ℕ) (base : ℕ) where
  pub read_ascii_string : Option ℕ → List ℕ
  read_ascii_string none = []
  read_ascii_string (some p) = text p

  -- The loop over the names: the first whose ordinal is `i`. `left` counts the names not yet read.
  pub find_name : ℕ → ℕ → ℕ → ℕ → ℕ → List ℕ
  find_name names ordinals i n zero = []
  find_name names ordinals i n (suc left) = elim (read16 m (ordinals + 2 * n) == i) [
    | true ↦ read_ascii_string (rva_to_pointer m base (read32 m (names + 4 * n)))
    | false ↦ find_name names ordinals i (n + 1) left
  ]

  pub name_of : Option ℕ → Option ℕ → ℕ → ℕ → List ℕ
  name_of (some names) (some ordinals) count i = find_name names ordinals i 0 count
  name_of _ _ count i = []

  abbrev pub is_forwarder : Directory → ℕ → Bool
  is_forwarder d rva = leb d.rva rva && ltb rva ((d.rva + d.size) % 2 ^ 32)

  pub export_of : Directory → ℕ → ℕ → ℕ → Export
  export_of d header i rva = record {
    name =
        name_of (rva_to_pointer m base (read32 m (header + 32)))
          (rva_to_pointer m base (read32 m (header + 36))) (read32 m (header + 24)) i;
    ordinal = (read32 m (header + 16) + i) % 2 ^ 16;
    rva = rva;
    address = (base + rva) % 2 ^ 64;
    forwarded = is_forwarder d rva;
    forwarder = if is_forwarder d rva then read_ascii_string (rva_to_pointer m base rva) else [];
  }

-- `slots n` is the allocator's answer to a vector of n exports.
module _ (m : Memory) (text : ℕ → List ℕ) (base : ℕ) (slots : ℕ → Bool) where
  -- The loop over the functions, from `i`; `left` counts those not yet read, and of the result the
  -- head is the back.
  pub export_loop : Directory → ℕ → ℕ → ℕ → ℕ → List Export → List Export
  export_loop d header functions i zero result = result
  export_loop d header functions i (suc left) result =
      let rva = read32 m (functions + 4 * i) in
      let next = export_loop d header functions (i + 1) left result in
      let grown =
        export_loop d header functions (i + 1) left
          (export_of m text base d header i rva ∷ result) in
      if rva == 0 then next else if slots (length result + 1) then grown else []

  pub exports : List Export
  exports =
      let d = get_directory m base 0 in
      if is_vacant d then [] else elim (rva_to_pointer m base d.rva) [
        | none ↦ []
        | some header ↦ elim (rva_to_pointer m base (read32 m (header + 28))) [
          | none ↦ []
          | some functions ↦ reverse (export_loop d header functions 0 (read32 m (header + 20)) [])
        ]
      ]
