-- ===== src/Pe/Headers.antt =====
-- When an image counts as valid, and what its lookups return.
use uefipp.Base.{
  ℕ, ◌+◌, ◌<◌, ◌≤◌, ◌≡◌, ◌≢◌, ◌↔◌, ◌⊎◌, inl, inr, Bool-cases, refl, ap, true, false, none, some,
  arith,
}
use uefipp.Pe.{
  Memory, read16, read32, optional_header_32_magic, optional_header_64_magic, directory_count,
  nt_headers, nt_signature_pointer, magic_pointer, has_magic, is_32, is_64, is_valid, image_size,
  file_header, section_count, get_directory, no_directory, rva_to_pointer, entry_point_rva,
}

-- The headers of a PE image, with the given magic number in the optional header: `MZ` at the base,
-- where it says `PE` and two zeros, and behind those and the 20 bytes of the file header the magic.
pub record HasHeaders (m : Memory) (base magic : ℕ) : Type 0 where
  pub loaded : base ≢ 0
  pub dos : read16 m base ≡ 0x5a4d
  pub signed : read32 m (base + read32 m (base + 0x3c)) ≡ 0x4550
  pub magic_read : read16 m (base + read32 m (base + 0x3c) + 24) ≡ magic

module _ (m : Memory) (base : ℕ) where
  pub has_magic_iff : (magic : ℕ) → (has_magic m base magic ≡ true) ↔ HasHeaders m base magic
  unfolding has_magic magic_pointer nt_signature_pointer nt_headers
  has_magic_iff magic = (
    (λ h. record {
      loaded = ground arith;
      dos = ground arith;
      signed = ground arith;
      magic_read = ground arith;
    }),
    (λ h. ground arith),
  )

  valid_magic : is_valid m base ≡ true → (is_32 m base ≡ true) ⊎ (is_64 m base ≡ true)
  unfolding is_valid nt_signature_pointer
  valid_magic h = ground arith

  headers_valid :
      (magic : ℕ)
      → HasHeaders m base magic
      → (is_32 m base ≡ true) ⊎ (is_64 m base ≡ true)
      → is_valid m base ≡ true
  unfolding is_valid nt_signature_pointer nt_headers
  headers_valid magic h k = ground arith

  -- `IsValid` holds exactly of a loaded image that has the DOS magic, the NT signature and one of
  -- the two optional-header magics.
  pub is_valid_iff : (is_valid m base ≡ true) ↔ (HasHeaders m base 0x10b ⊎ HasHeaders m base 0x20b)
  unfolding is_32 is_64
  is_valid_iff = (
    (λ h. elim (valid_magic h) [
      | inl a ↦ inl ((has_magic_iff optional_header_32_magic).0 a)
      | inr b ↦ inr ((has_magic_iff optional_header_64_magic).0 b)
    ]),
    (λ h. elim h [
      | inl a ↦
          headers_valid optional_header_32_magic a
            (inl ((has_magic_iff optional_header_32_magic).1 a))
      | inr b ↦
          headers_valid optional_header_64_magic b
            (inr ((has_magic_iff optional_header_64_magic).1 b))
    ]),
  )

  -- An image that has one of the two kinds of headers.
  abbrev pub IsImage : Type 0
  IsImage = HasHeaders m base 0x10b ⊎ HasHeaders m base 0x20b

  -- The size that the headers give, in either format at the same place.
  abbrev pub header_size_field : ℕ
  header_size_field = read32 m (base + read32 m (base + 0x3c) + 80)

  image_size_valid : is_valid m base ≡ true → image_size m base ≡ header_size_field
  unfolding image_size nt_headers
  image_size_valid h =
      let there : nt_headers m base + 24 + 56 ≡ base + read32 m (base + 0x3c) + 80 = omega arith in
      elim (Bool-cases (is_64 m base)) [
        | inl y ↦ rw (h, y) (ap (λ (a : ℕ). read32 m a) there)
        | inr n ↦ rw (h, n) (ap (λ (a : ℕ). read32 m a) there)
      ]

  image_size_invalid : is_valid m base ≡ false → image_size m base ≡ 0
  unfolding image_size
  image_size_invalid h = rw h refl

  loaded_image : IsImage → base ≢ 0
  loaded_image (inl h) = h.loaded
  loaded_image (inr h) = h.loaded

  -- RvaToPointer returns a pointer exactly where the base has the headers of an image of either
  -- format, for the offsets from 1 to below the size that these headers give, and it points that far
  -- behind the base: never at the base, never past the image, and into nothing that is no image.
  pub rva_to_pointer_iff :
      (rva p : ℕ)
      → (rva_to_pointer m base rva ≡ some p)
        ↔ (IsImage × (0 < rva) × (rva < header_size_field) × (p ≡ base + rva))
  unfolding rva_to_pointer
  rva_to_pointer_iff rva p = elim (Bool-cases (is_valid m base)) [
    | inl v ↦
        let size = image_size_valid v in
        let image : IsImage = is_valid_iff.0 v in
        let some_base = loaded_image image in
        (
          (λ h. (image, ground arith, ground arith, ground arith)),
          (λ h. ground (arith, h.1, h.2, h.3)),
        )
    | inr v ↦
        let size = image_size_invalid v in
        (
          (λ h. absurd (ground arith)),
          (λ h. let never = is_valid_iff.1 h.0 in absurd (ground arith)),
        )
  ]

  -- An image that is not valid has size 0, no sections, no entry point and no directories, and no
  -- offset into it yields a pointer.
  pub invalid_is_empty :
      (id rva : ℕ)
      → is_valid m base ≡ false
      → (image_size m base ≡ 0)
        × (section_count m base ≡ 0)
        × (entry_point_rva m base ≡ 0)
        × (get_directory m base id ≡ no_directory)
        × (rva_to_pointer m base rva ≡ none)
  unfolding image_size section_count file_header entry_point_rva get_directory rva_to_pointer
  invalid_is_empty id rva h = ground arith

  -- A directory index behind the sixteen of the header gives an empty directory.
  pub get_directory_beyond :
      (id : ℕ) → directory_count ≤ id → get_directory m base id ≡ no_directory
  unfolding get_directory
  get_directory_beyond id h = ground arith
