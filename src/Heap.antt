-- ===== src/Heap.antt =====
-- UEFIpp/Source/CRT/Heap.cpp: the C runtime's heap on the pool of the firmware, through the functions
-- of UEFIpp/Source/Memory/Allocator.cpp. The headers in front of the allocations, and the bytes of
-- the allocations, are functions from their addresses; the source keeps both in one memory.
pub mod Blocks
pub mod Overflow
mod Tests
use uefipp.Base.{
  ℕ, ◌+◌, ◌-◌, ◌*◌, ◌/◌, ◌%◌, ◌^◌, Bool, true, false, not, ◌&&◌, ◌||◌, Option, none, some, min, ltb,
  leb, ◌==◌, if◌then◌else◌,
}
use uefipp.Alignment.{is_power_of_two, align_up}

-- AllocationHeader.
pub record Header : Type 0 where
  pub base : ℕ
  pub size : ℕ

abbrev pub header_size : ℕ
header_size = 16

abbrev pub header_alignment : ℕ
header_alignment = 8

-- `pool` is the state of the firmware's pool.
pub record Heap (P : Type 0) : Type 0 where
  pub pool : P
  pub headers : ℕ → Header
  pub bytes : ℕ → ℕ

-- What the firmware does: to a request for so many bytes it answers with the address of a block or
-- with none, and it says whether it could free a block.
pub record Firmware (P : Type 0) : Type 0 where
  pub request_block : P → ℕ → P × Option ℕ
  pub release_block : P → ℕ → P × Bool

abbrev pub set_at {ℓ} : {A : Type ℓ} → (ℕ → A) → ℕ → A → ℕ → A
set_at f at v a = if a == at then v else f a

-- `Memory::Zero` and `Memory::Copy` of so many bytes.
abbrev pub zeroed : (ℕ → ℕ) → ℕ → ℕ → ℕ → ℕ
zeroed bytes start count a = if leb start a && ltb a (start + count) then 0 else bytes a

abbrev pub copied : (ℕ → ℕ) → ℕ → ℕ → ℕ → ℕ → ℕ
copied bytes target start count a =
    if leb target a && ltb a (target + count) then bytes (start + (a - target)) else bytes a

-- An alignment that is enough for the header too.
abbrev pub widened : ℕ → ℕ
widened alignment = if ltb alignment header_alignment then header_alignment else alignment

-- The size of the block for an allocation, in 64 bits.
abbrev pub block_size : ℕ → ℕ → ℕ
block_size n alignment = (n + alignment - 1 + header_size) % 2 ^ 64

module _ {P : Type 0} (firmware : Firmware P) where
  -- A block at address 0 counts as none.
  pub allocate_pool : P → ℕ → P × Option ℕ
  allocate_pool p n =
      let answer = firmware.request_block p n in
      if n == 0
      then (p, none)
      else (answer.0, elim answer.1 [ none ↦ none | some a ↦ if a == 0 then none else some a ])

  pub free_pool : P → ℕ → P × Bool
  free_pool p a = if a == 0 then (p, false) else firmware.release_block p a

  -- The allocation in a block, with its header. Where AlignUp fails it gives 0, a null pointer.
  pub placed : Heap P → ℕ → ℕ → ℕ → Heap P × Option ℕ
  placed h base n alignment =
      let user = align_up ((base + header_size) % 2 ^ 64) alignment in
      (
        record h {
          headers =
              set_at h.headers ((user + 2 ^ 64 - header_size) % 2 ^ 64)
                (record { base = base; size = n });
        },
        if user == 0 then none else some user,
      )

  pub allocate_aligned : Heap P → ℕ → ℕ → Heap P × Option ℕ
  allocate_aligned h n alignment =
      let asked = allocate_pool h.pool (block_size n (widened alignment)) in
      if n == 0 || alignment == 0
      then (h, none)
      else if not (is_power_of_two alignment)
      then (h, none)
      else elim asked.1 [
        | none ↦ (record h { pool = asked.0 }, none)
        | some base ↦ placed (record h { pool = asked.0 }) base n (widened alignment)
      ]

  pub allocate : Heap P → ℕ → Heap P × Option ℕ
  allocate h n = allocate_aligned h n header_alignment

  pub allocate_zeroed : Heap P → ℕ → ℕ → Heap P × Option ℕ
  allocate_zeroed h count size =
      let total = count * size % 2 ^ 64 in
      let made = allocate h total in
      if count == 0 || size == 0
      then (h, none)
      else if not (total / count == size)
      then (h, none)
      else elim made.1 [
        | none ↦ made
        | some a ↦ (record made.0 { bytes = zeroed (made.0).bytes a total }, some a)
      ]

  -- HeaderFromAddress; 0 is the null pointer.
  abbrev pub header_pointer : ℕ → ℕ
  header_pointer a = if a == 0 then 0 else (a + 2 ^ 64 - header_size) % 2 ^ 64

  pub allocation_size : Heap P → ℕ → ℕ
  allocation_size h a = if header_pointer a == 0 then 0 else (h.headers (header_pointer a)).size

  -- Free, and whether its check that the pool took the block back held.
  pub free : Heap P → ℕ → Heap P × Bool
  free h a =
      let base = (h.headers (header_pointer a)).base in
      let freed = free_pool h.pool base in
      if a == 0
      then (h, true)
      else if header_pointer a == 0 || base == 0
      then (h, true)
      else (record h { pool = freed.0 }, freed.1)

  -- An allocation of another size with the same bytes, as far as both go; the Boolean is Free's.
  pub reallocate : Heap P → ℕ → ℕ → Heap P × Option ℕ × Bool
  reallocate h a n =
      let made = allocate h n in
      let old_size = allocation_size h a in
      if a == 0
      then (made.0, made.1, true)
      else if n == 0
      then ((free h a).0, none, (free h a).1)
      else elim made.1 [
        | none ↦ (made.0, none, true)
        | some b ↦
            let count = if ltb old_size n then old_size else n in
            let moved : Heap P = record made.0 { bytes = copied (made.0).bytes b a count } in
            ((free moved a).0, some b, (free moved a).1)
      ]
