-- ===== src/Heap/Overflow.antt =====
-- Sizes that leave 64 bits in AllocateZeroed and AllocateAligned of Heap.cpp.
use uefipp.Base.{
  ℕ, ◌+◌, ◌*◌, ◌/◌, ◌%◌, ◌^◌, ◌≤◌, ◌<◌, ◌≡◌, inl, inr, refl, true, false, ◌&&◌, ◌||◌, Bool-cases,
  some, Option-cases, arith, ltb, leb, ◌==◌,
}
use uefipp.Alignment.{is_power_of_two, align_up}
use uefipp.Heap.{
  Heap, Firmware, header_size, block_size, widened, allocate_pool, placed, allocate_aligned,
  allocate, allocate_zeroed,
}
use uefipp.Heap.Blocks.{given}

-- A quotient times its divisor is not above the dividend.
product_le : (t c : ℕ) → 0 < c → t / c * c ≤ t
product_le t c h = grind arith

-- The check `Total / Count != Size` finds each product that left 64 bits.
pub product_check :
    (count size : ℕ)
    → 0 < count
    → (count * size % 2 ^ 64 / count == size) ≡ true
    → count * size % 2 ^ 64 ≡ count * size
product_check count size pos h =
    let same : count * size % 2 ^ 64 / count ≡ size = ground arith in
    let le = product_le (count * size % 2 ^ 64) count pos in
    let swapped : count * size % 2 ^ 64 / count * count ≡ count * size = rw same (omega arith) in
    omega arith

module _ {P : Type 0} (firmware : Firmware P) where
  -- Where AllocateZeroed succeeds, the product of count and size stays in 64 bits, and each byte of
  -- the allocation is 0.
  pub allocate_zeroed_clears :
      (h : Heap P) (count size a i : ℕ)
      → (allocate_zeroed firmware h count size).1 ≡ some a
      → i < count * size
      → (count * size < 2 ^ 64) × ((allocate_zeroed firmware h count size).0.bytes (a + i) ≡ 0)
  unfolding allocate_zeroed
  allocate_zeroed_clears h count size a i e inside =
      let total : ℕ = count * size % 2 ^ 64 in
      elim (Bool-cases (count == 0 || size == 0)) [
        | inl y ↦ cc
        | inr n ↦ elim (Bool-cases (total / count == size)) [
          | inr y ↦ cc
          | inl y ↦
              let whole : total ≡ count * size = product_check count size (ground arith) y in
              elim (Option-cases (allocate firmware h total).1) [
                | inl z ↦ cc (n, y, z, e)
                | inr (b, z) ↦
                    let same : b ≡ a = cc (n, y, z, e) in
                    let after : (leb b (a + i) && ltb (a + i) (b + total)) ≡ true = ground arith in
                    (omega arith, rw (n, y, z, allocate_zeroed) (rw after refl))
              ]
        ]
      ]

  -- A size so near to the end of the 64-bit numbers that header and alignment no longer fit makes
  -- AllocateAligned ask for a block that is smaller than the allocation, which it then returns, if
  -- AlignUp does not fail.
  pub allocate_aligned_overflows :
      (h : Heap P) (n alignment base : ℕ)
      → n < 2 ^ 64
      → 2 ^ 64 ≤ n + widened alignment + 15
      → alignment ≤ 2 ^ 63
      → 0 < n
      → 0 < alignment
      → is_power_of_two alignment ≡ true
      → (allocate_pool firmware h.pool (block_size n (widened alignment))).1 ≡ some base
      → (align_up ((base + header_size) % 2 ^ 64) (widened alignment) == 0) ≡ false
      → (block_size n (widened alignment) < n)
        × ((allocate_aligned firmware h n alignment).1
            ≡ some (align_up ((base + header_size) % 2 ^ 64) (widened alignment)))
  unfolding placed
  allocate_aligned_overflows h n alignment base small big moderate some_bytes some_alignment power
        answer aligned =
      let wide : widened alignment ≤ 2 ^ 63 = ground arith in
      (
        omega arith,
        rw (given firmware h n alignment base some_bytes some_alignment power answer)
            (rw aligned refl),
      )
