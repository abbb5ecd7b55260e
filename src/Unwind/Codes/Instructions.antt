-- ===== src/Unwind/Codes/Instructions.antt =====
-- The instructions of a prolog, what they do to a context, and the codes that describe them.
use uefipp.Base.{ℕ, ◌+◌, ◌*◌, ◌/◌, ◌^◌, ◌<◌, ◌≤◌, ◌≡◌, bit_and, List, [], ◌∷◌}
use uefipp.Pe.{Memory, read64}
use uefipp.Unwind.Codes.{
  Context, Header, push_nonvolatile, allocate_large, allocate_small, save_nonvolatile,
  save_nonvolatile_far, save_xmm128, save_xmm128_far, set_frame_pointer, slot_uint32, Nonvolatile,
  rbx, rbp, rsi, rdi, r12, r13, r14, r15, get_register, set_register, operation, operation_info,
  slot_uint16, add64,
}

abbrev pub id_of : Nonvolatile → ℕ
id_of rbx = 3
id_of rbp = 5
id_of rsi = 6
id_of rdi = 7
id_of r12 = 12
id_of r13 = 13
id_of r14 = 14
id_of r15 = 15

-- What a prolog does: push a register, take room on the stack, in units of 8 bytes or (`take_huge`)
-- in bytes, save a register at an offset from the stack pointer, in units of 8 bytes or (`save_far`)
-- in bytes, save a vector register, or let a register point behind the stack pointer.
pub data Instruction : Type 0 where
  push : Nonvolatile → Instruction
  take_small : ℕ → Instruction
  take_large : ℕ → Instruction
  take_huge : ℕ → Instruction
  save : Nonvolatile → ℕ → Instruction
  save_far : Nonvolatile → ℕ → Instruction
  save_vector : Instruction
  save_vector_far : Instruction
  set_frame : Nonvolatile → ℕ → Instruction

-- `c'` is the context after the instruction, in any state that the body may have left its
-- register in, and the memory holds what the instruction stored. The stack does not wrap at the end
-- of memory. Behind a frame register the body may move the stack pointer as it likes. A context has
-- no vector registers.
pub data Did (m : Memory) : Context → Instruction → Context → Type 0 where
  pushed :
      (c : Context) (r : Nonvolatile) (s v : ℕ)
      → s + 8 ≡ c.rsp
      → c.rsp < 2 ^ 64
      → read64 m s ≡ get_register r c
      → Did m c (push r) (set_register r v (record c { rsp = s }))
  took_small :
      (c : Context) (info s : ℕ)
      → s + (info * 8 + 8) ≡ c.rsp
      → c.rsp < 2 ^ 64
      → Did m c (take_small info) (record c { rsp = s })
  took_large :
      (c : Context) (units s : ℕ)
      → s + units * 8 ≡ c.rsp
      → c.rsp < 2 ^ 64
      → Did m c (take_large units) (record c { rsp = s })
  saved :
      (c : Context) (r : Nonvolatile) (units v : ℕ)
      → read64 m (add64 c.rsp (units * 8)) ≡ get_register r c
      → Did m c (save r units) (set_register r v c)
  took_huge :
      (c : Context) (bytes s : ℕ)
      → s + bytes ≡ c.rsp
      → c.rsp < 2 ^ 64
      → Did m c (take_huge bytes) (record c { rsp = s })
  saved_far :
      (c : Context) (r : Nonvolatile) (bytes v : ℕ)
      → read64 m (add64 c.rsp bytes) ≡ get_register r c
      → Did m c (save_far r bytes) (set_register r v c)
  saved_vector : (c : Context) → Did m c save_vector c
  saved_vector_far : (c : Context) → Did m c save_vector_far c
  framed :
      (c : Context) (r : Nonvolatile) (offset s : ℕ)
      → get_register r c ≡ c.rsp + offset
      → c.rsp < 2 ^ 64
      → Did m c (set_frame r offset) (record c { rsp = s })

-- The instructions of a prolog, the last one first.
pub data Ran (m : Memory) (entry : Context) : List Instruction → Context → Type 0 where
  entered : Ran m entry [] entry
  then_did :
      {is : List Instruction} {c c' : Context} (i : Instruction)
      → Ran m entry is c
      → Did m c i c'
      → Ran m entry (i ∷ is) c'

-- The code that describes an instruction stands in slot `i`, and what it needs behind it.
abbrev pub Describes : Memory → ℕ → Header → ℕ → Instruction → Type 0
Describes m codes h i (push r) =
    (operation m codes i ≡ push_nonvolatile) × (operation_info m codes i ≡ id_of r)
Describes m codes h i (take_small info) =
    (operation m codes i ≡ allocate_small) × (operation_info m codes i ≡ info)
Describes m codes h i (take_large units) =
    (operation m codes i ≡ allocate_large)
    × (operation_info m codes i ≡ 0)
    × (slot_uint16 m codes (i + 1) ≡ units)
Describes m codes h i (save r units) =
    (operation m codes i ≡ save_nonvolatile)
    × (operation_info m codes i ≡ id_of r)
    × (slot_uint16 m codes (i + 1) ≡ units)
Describes m codes h i (take_huge bytes) =
    (operation m codes i ≡ allocate_large)
    × (operation_info m codes i ≡ 1)
    × (slot_uint32 m codes (i + 1) ≡ bytes)
Describes m codes h i (save_far r bytes) =
    (operation m codes i ≡ save_nonvolatile_far)
    × (operation_info m codes i ≡ id_of r)
    × (slot_uint32 m codes (i + 1) ≡ bytes)
Describes m codes h i save_vector = operation m codes i ≡ save_xmm128
Describes m codes h i save_vector_far = operation m codes i ≡ save_xmm128_far
Describes m codes h i (set_frame r offset) =
    (operation m codes i ≡ set_frame_pointer)
    × (bit_and h.frame_register_and_offset 0x0f ≡ id_of r)
    × (h.frame_register_and_offset / 16 * 16 ≡ offset)

abbrev pub slots_of : Instruction → ℕ
slots_of (push r) = 1
slots_of (take_small info) = 1
slots_of (take_large units) = 2
slots_of (save r units) = 2
slots_of (take_huge bytes) = 3
slots_of (save_far r bytes) = 3
slots_of save_vector = 2
slots_of save_vector_far = 3
slots_of (set_frame r offset) = 1

-- The codes from slot `i` to the end describe the instructions.
abbrev pub Laid : Memory → ℕ → Header → ℕ → List Instruction → Type 0
Laid m codes h i [] = i ≡ h.code_count
Laid m codes h i (x ∷ xs) =
    Describes m codes h i x × (i + slots_of x ≤ h.code_count) × Laid m codes h (i + slots_of x) xs
