-- ===== src/Pe/Tests.antt =====
-- An image with two exported functions, of which the second has an address and a name.
use uefipp.Base.{
  ℕ, ◌+◌, ◌<◌, ◌≡◌, ◌↔◌, ◌⊎◌, refl, Bool, true, false, List, [], ◌∷◌, some, ◌==◌, if◌then◌else◌,
}
use uefipp.Pe.{
  Memory, read32, nt_headers, nt_signature_pointer, magic_pointer, has_magic, is_32, is_64,
  is_valid, file_header, image_size, section_count, get_directory, is_vacant, rva_to_pointer,
  exports,
}
use uefipp.Pe.Headers.{HasHeaders, IsImage, is_valid_iff, rva_to_pointer_iff}
use uefipp.Pe.Exports.{IsTable, exports-IsTable}

abbrev peek : List (ℕ × ℕ) → Memory
peek [] a = 0
peek ((b, byte) ∷ rest) a = if a == b then byte else peek rest a

-- At 4096 the headers, at 4608 the export directory, at 4864 the functions, at 4880 the names and
-- at 4896 their ordinals.
abbrev image : Memory
image = peek (
    (4096, 77)
    ∷ (4097, 90)
    ∷ (4156, 64)
    ∷ (4160, 80)
    ∷ (4161, 69)
    ∷ (4166, 1)
    ∷ (4184, 11)
    ∷ (4185, 2)
    ∷ (4241, 16)
    ∷ (4292, 16)
    ∷ (4297, 2)
    ∷ (4300, 64)
    ∷ (4624, 1)
    ∷ (4628, 2)
    ∷ (4632, 1)
    ∷ (4637, 3)
    ∷ (4640, 16)
    ∷ (4641, 3)
    ∷ (4644, 32)
    ∷ (4645, 3)
    ∷ (4869, 1)
    ∷ (4880, 48)
    ∷ (4881, 3)
    ∷ (4896, 1)
    ∷ [])

abbrev base : ℕ
base = 4096

-- The only name in the image.
abbrev text : ℕ → List ℕ
text p = if p == 4912 then 102 ∷ [] else []

abbrev any : ℕ → Bool
any n = true

ample : (n : ℕ) → any n ≡ true
ample n = refl

loads :
    (is_valid image 4096 ≡ true) × (image_size image 4096 ≡ 4096) × (section_count image 4096 ≡ 1)
unfolding is_valid is_32 is_64 has_magic magic_pointer nt_signature_pointer nt_headers image_size
    section_count file_header
loads = (refl, refl, refl)

has_exports : is_vacant (get_directory image 4096 0) ≡ false
unfolding get_directory is_valid is_32 is_64 has_magic magic_pointer nt_signature_pointer nt_headers
has_exports = refl

has_header : rva_to_pointer image 4096 (get_directory image 4096 0).rva ≡ some 4608
unfolding rva_to_pointer image_size get_directory is_valid is_32 is_64 has_magic magic_pointer
    nt_signature_pointer nt_headers
has_header = refl

has_functions : rva_to_pointer image 4096 (read32 image (4608 + 28)) ≡ some 4864
unfolding rva_to_pointer image_size is_valid is_32 is_64 has_magic magic_pointer
    nt_signature_pointer nt_headers
has_functions = refl

is_valid_iff_example :
    (is_valid image 4096 ≡ true) ↔ (HasHeaders image 4096 0x10b ⊎ HasHeaders image 4096 0x20b)
is_valid_iff_example = is_valid_iff image 4096

rva_to_pointer_iff_example :
    (rva_to_pointer image 4096 512 ≡ some 4608)
    ↔ (IsImage image 4096 × (0 < 512) × (512 < 4096) × (4608 ≡ 4096 + 512))
rva_to_pointer_iff_example = rva_to_pointer_iff image 4096 512 4608

exports-IsTable_example : IsTable image text 4096 (exports image text 4096 any)
exports-IsTable_example = exports-IsTable image text 4096 any ample
