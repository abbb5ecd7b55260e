-- ===== src/Heap/Blocks.antt =====
-- Where allocations lie in the blocks of the pool.
use uefipp.Base.{
  ℕ, ◌+◌, ◌-◌, ◌*◌, ◌%◌, ◌^◌, ◌≤◌, ◌<◌, ◌≡◌, ◌≢◌, inl, inr, refl, true, false, ◌||◌, Bool-cases,
  some, arith, ltb, ◌==◌,
}
use uefipp.Alignment.{is_power_of_two, align_up}
use uefipp.Alignment.Multiples.{align_up_lem}
use uefipp.Heap.{
  Heap, Firmware, header_size, header_alignment, block_size, widened, allocate_pool, placed,
  allocate_aligned, allocation_size, header_pointer,
}

eight : is_power_of_two 8 ≡ true
unfolding is_power_of_two
eight = refl

widened_power : (a : ℕ) → is_power_of_two a ≡ true → is_power_of_two (widened a) ≡ true
widened_power a h = elim (Bool-cases (ltb a header_alignment)) [
  | inl y ↦ rw y eight
  | inr n ↦ rw n h
]

widened_le : (a : ℕ) → 8 ≤ widened a
widened_le a = ground arith

module _ {P : Type 0} (firmware : Firmware P) where
  block_nonzero : (p : P) (n base : ℕ) → (allocate_pool firmware p n).1 ≡ some base → base ≢ 0
  unfolding allocate_pool
  block_nonzero p n base h = ground arith

  pub given :
      (h : Heap P) (n alignment base : ℕ)
      → 0 < n
      → 0 < alignment
      → is_power_of_two alignment ≡ true
      → (allocate_pool firmware h.pool (block_size n (widened alignment))).1 ≡ some base
      → allocate_aligned firmware h n alignment
        ≡ placed firmware
            (record h {
              pool = (allocate_pool firmware h.pool (block_size n (widened alignment))).0;
            })
            base
            n
            (widened alignment)
  unfolding allocate_aligned
  given h n alignment base some_bytes some_alignment power answer =
      let both : (n == 0 || alignment == 0) ≡ false = ground arith in rw (both, power, answer)

  -- The address of an allocation in its block.
  abbrev user_of : ℕ → ℕ → ℕ
  user_of base alignment = align_up ((base + header_size) % 2 ^ 64) (widened alignment)

  -- An allocation lies behind its header and within its block, at a multiple of the alignment, and
  -- AllocationSize reads back the size, where the size of the block stays in 64 bits.
  pub allocate_aligned_fits :
      (h : Heap P) (n alignment base : ℕ)
      → 0 < n
      → 0 < alignment
      → is_power_of_two alignment ≡ true
      → base + (n + widened alignment + 15) ≤ 2 ^ 64
      → (allocate_pool firmware h.pool (block_size n (widened alignment))).1 ≡ some base
      → (user : ℕ) × ((allocate_aligned firmware h n alignment).1 ≡ some user)
        × (base + header_size ≤ user)
        × (user + n ≤ base + block_size n (widened alignment))
        × ((q : ℕ) × (user ≡ q * widened alignment))
        × (allocation_size firmware (allocate_aligned firmware h n alignment).0 user ≡ n)
  unfolding placed allocation_size
  allocate_aligned_fits h n alignment base some_bytes some_alignment power fits answer =
      let nonzero = block_nonzero h.pool (block_size n (widened alignment)) base answer in
      let wide = widened_le alignment in
      let whole : (base + header_size) % 2 ^ 64 ≡ base + header_size = omega arith in
      let (over, under, multiple) =
        align_up_lem (base + header_size) (widened alignment) (widened_power alignment power)
          (omega arith) (omega arith) in
      let user : ℕ = align_up (base + header_size) (widened alignment) in
      let some_user : (user == 0) ≡ false = ground arith in
      let pointer : (header_pointer firmware user == 0) ≡ false = ground arith in
      let here : ((user + 2 ^ 64 - header_size) % 2 ^ 64 == (user + 2 ^ 64 - header_size) % 2 ^ 64)
          ≡ true =
        ground arith in
      (
        user,
        rw (given h n alignment base some_bytes some_alignment power answer)
            (rw (whole, some_user) refl),
        over,
        omega arith,
        multiple,
        rw (given h n alignment base some_bytes some_alignment power answer)
            (rw (whole, pointer, some_user, here) refl),
      )
