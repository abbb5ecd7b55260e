-- ===== src/Heap/Tests.antt =====
-- A pool that gives its blocks one after the other.
use uefipp.Base.{◌==◌, false, ℕ, ◌+◌, ◌-◌, ◌*◌, ◌%◌, ◌^◌, ◌≤◌, ◌<◌, ◌≡◌, refl, true, some, arith}
use uefipp.Alignment.{try_align_up, is_power_of_two, align_up, try_align_up}
use uefipp.Heap.{
  Heap, Firmware, header_size, block_size, allocate_pool, placed, allocate_aligned, allocate,
  allocate_zeroed, allocation_size,
}
use uefipp.Heap.Blocks.{allocate_aligned_fits}
use uefipp.Heap.Overflow.{allocate_zeroed_clears, allocate_aligned_overflows}

abbrev stacked : Firmware ℕ
stacked = record { request_block = λ p n. (p + n, some p); release_block = λ p a. (p, true) }

abbrev fresh_heap : Heap ℕ
fresh_heap = record { pool = 4096; headers = λ a. record { base = 0; size = 0 }; bytes = λ a. 255 }

power_32 : is_power_of_two 32 ≡ true
unfolding is_power_of_two
power_32 = refl

power_8 : is_power_of_two 8 ≡ true
unfolding is_power_of_two
power_8 = refl

pool_gives : (allocate_pool stacked 4096 (block_size 10 32)).1 ≡ some 4096
unfolding allocate_pool
pool_gives = refl

-- Where the size is 2 ^ 64 - 1, the block has 22 bytes.
pool_gives_little : (allocate_pool stacked 4096 (block_size (2 ^ 64 - 1) 8)).1 ≡ some 4096
unfolding allocate_pool
pool_gives_little = refl

clears : (allocate_zeroed stacked fresh_heap 3 4).1 ≡ some 4112
unfolding allocate_zeroed allocate allocate_aligned allocate_pool placed align_up try_align_up
    is_power_of_two
clears = refl

allocate_aligned_fits_example :
    (user : ℕ) × ((allocate_aligned stacked fresh_heap 10 32).1 ≡ some user)
    × (4096 + header_size ≤ user)
    × (user + 10 ≤ 4096 + block_size 10 32)
    × ((q : ℕ) × (user ≡ q * 32))
    × (allocation_size stacked (allocate_aligned stacked fresh_heap 10 32).0 user ≡ 10)
allocate_aligned_fits_example =
    allocate_aligned_fits stacked fresh_heap 10 32 4096 (omega arith) (omega arith) power_32
      (omega arith) pool_gives

allocate_zeroed_clears_example :
    (3 * 4 < 2 ^ 64) × ((allocate_zeroed stacked fresh_heap 3 4).0.bytes (4112 + 5) ≡ 0)
allocate_zeroed_clears_example =
    allocate_zeroed_clears stacked fresh_heap 3 4 4112 5 clears (omega arith)

aligns : (align_up ((4096 + header_size) % 2 ^ 64) 8 == 0) ≡ false
unfolding align_up try_align_up is_power_of_two
aligns = refl

allocate_aligned_overflows_example :
    (block_size (2 ^ 64 - 1) 8 < 2 ^ 64 - 1)
    × ((allocate_aligned stacked fresh_heap (2 ^ 64 - 1) 8).1
        ≡ some (align_up ((4096 + header_size) % 2 ^ 64) 8))
allocate_aligned_overflows_example =
    allocate_aligned_overflows stacked fresh_heap (2 ^ 64 - 1) 8 4096 (omega arith) (omega arith)
      (omega arith) (omega arith) (omega arith) power_8 pool_gives_little aligns
