-- ===== src/Unwind/Codes.antt =====
-- The unwind codes of Unwinder.cpp: their layout, the registers that they name, and the loop that
-- undoes them one after the other.
pub mod Loop
pub mod Instructions
pub mod Prolog
pub mod Tests
use uefipp.Base.{
  ℕ, zero, suc, ◌+◌, ◌-◌, ◌*◌, ◌/◌, ◌%◌, ◌^◌, Bool, true, false, not, ◌&&◌, bit_and, bit_or, ltb,
  leb, ◌==◌, if◌then◌else◌, Expected, value, unexpected, ◌>>=◌, ◌>>◌, require,
}
use uefipp.Pe.{Memory, read64}

pub data UnwindError : Type 0 where
  invalid_image invalid_context missing_exception_directory : UnwindError
  invalid_exception_directory invalid_runtime_function invalid_unwind_info : UnwindError
  unsupported_unwind_version unsupported_unwind_operation unsupported_register : UnwindError
  invalid_stack_progress : UnwindError

-- The code's error, or no fuel left in one of its loops.
pub data UnwindStop : Type 0 where
  failed : UnwindError → UnwindStop
  out_of_fuel : UnwindStop

abbrev pub lift {ℓ} : {A : Type ℓ} → Expected UnwindError A → Expected UnwindStop A
lift (value a) = value a
lift (unexpected e) = unexpected (failed e)

pub record Context : Type 0 where
  pub rip : ℕ
  pub rsp : ℕ
  pub rbx : ℕ
  pub rbp : ℕ
  pub rsi : ℕ
  pub rdi : ℕ
  pub r12 : ℕ
  pub r13 : ℕ
  pub r14 : ℕ
  pub r15 : ℕ

-- UnwindInfoHeader.
pub record Header : Type 0 where
  pub version_and_flags : ℕ
  pub prolog_size : ℕ
  pub code_count : ℕ
  pub frame_register_and_offset : ℕ

-- UnwindOperation, with the numbers that name none of them.
pub data UnwindOperation : Type 0 where
  push_nonvolatile allocate_large allocate_small set_frame_pointer : UnwindOperation
  save_nonvolatile save_nonvolatile_far save_xmm128 save_xmm128_far : UnwindOperation
  push_machine_frame unnamed : UnwindOperation

abbrev pub to_operation : ℕ → UnwindOperation
to_operation n =
    if n == 0
    then push_nonvolatile
    else if n == 1
    then allocate_large
    else if n == 2
    then allocate_small
    else if n == 3
    then set_frame_pointer
    else if n == 4
    then save_nonvolatile
    else if n == 5
    then save_nonvolatile_far
    else if n == 8
    then save_xmm128
    else if n == 9
    then save_xmm128_far
    else if n == 10
    then push_machine_frame
    else unnamed

-- The registers that `Register` knows by their numbers; its pointer is the name of the field.
pub data Nonvolatile : Type 0 where
  rbx rbp rsi rdi r12 r13 r14 r15 : Nonvolatile

unfoldable pub register : ℕ → Expected UnwindError Nonvolatile
register id =
    if id == 3
    then value rbx
    else if id == 5
    then value rbp
    else if id == 6
    then value rsi
    else if id == 7
    then value rdi
    else if id == 12
    then value r12
    else if id == 13
    then value r13
    else if id == 14
    then value r14
    else if id == 15
    then value r15
    else unexpected unsupported_register

abbrev pub get_register : Nonvolatile → Context → ℕ
get_register rbx c = c.rbx
get_register rbp c = c.rbp
get_register rsi c = c.rsi
get_register rdi c = c.rdi
get_register r12 c = c.r12
get_register r13 c = c.r13
get_register r14 c = c.r14
get_register r15 c = c.r15

abbrev pub set_register : Nonvolatile → ℕ → Context → Context
set_register rbx v c = record c { rbx = v }
set_register rbp v c = record c { rbp = v }
set_register rsi v c = record c { rsi = v }
set_register rdi v c = record c { rdi = v }
set_register r12 v c = record c { r12 = v }
set_register r13 v c = record c { r13 = v }
set_register r14 v c = record c { r14 = v }
set_register r15 v c = record c { r15 = v }

-- The bytes of the code in a slot.
abbrev pub code_offset : Memory → ℕ → ℕ → ℕ
code_offset m codes i = m (codes + 2 * i)

abbrev pub operation_and_info : Memory → ℕ → ℕ → ℕ
operation_and_info m codes i = m (codes + 2 * i + 1)

abbrev pub operation : Memory → ℕ → ℕ → UnwindOperation
operation m codes i = to_operation (bit_and (operation_and_info m codes i) 0x0f)

abbrev pub operation_info : Memory → ℕ → ℕ → ℕ
operation_info m codes i = operation_and_info m codes i / 16

abbrev pub operation_slot_count : UnwindOperation → ℕ → ℕ
operation_slot_count allocate_large info = if info == 1 then 3 else 2
operation_slot_count save_nonvolatile info = 2
operation_slot_count save_xmm128 info = 2
operation_slot_count save_nonvolatile_far info = 3
operation_slot_count save_xmm128_far info = 3
operation_slot_count _ info = 1

abbrev pub slot_uint16 : Memory → ℕ → ℕ → ℕ
slot_uint16 m codes i = bit_or (code_offset m codes i) (operation_and_info m codes i * 256 % 2 ^ 16)

abbrev pub slot_uint32 : Memory → ℕ → ℕ → ℕ
slot_uint32 m codes i =
    bit_or (slot_uint16 m codes i) (slot_uint16 m codes (i + 1) * 2 ^ 16 % 2 ^ 32)

abbrev pub add64 : ℕ → ℕ → ℕ
add64 a b = (a + b) % 2 ^ 64

abbrev pub sub64 : ℕ → ℕ → ℕ
sub64 a b = (a + 2 ^ 64 - b) % 2 ^ 64

-- `*Register = *(Caller.Rsp + Offset)`
abbrev pub restored : Memory → ℕ → ℕ → Context → Expected UnwindError Context
restored m id offset c = do
  r ← register id
  value (set_register r (read64 m (add64 c.rsp offset)) c)

-- The switch of VirtualUnwind on the code in slot `i`: the new context and index.
unfoldable pub undo :
    Memory → ℕ → Header → ℕ → Context → UnwindOperation → ℕ → Expected UnwindError (Context × ℕ)
undo m codes h i c push_nonvolatile info = do
  c' ← restored m info 0 c
  value (record c' { rsp = add64 c.rsp 8 }, i + 1)
undo m codes h i c allocate_large info =
    if info == 0
    then (do
      require (ltb (i + 1) h.code_count) invalid_unwind_info
      value (record c { rsp = add64 c.rsp (slot_uint16 m codes (i + 1) * 8) }, i + 2))
    else if info == 1
    then (do
      require (ltb (i + 2) h.code_count) invalid_unwind_info
      value (record c { rsp = add64 c.rsp (slot_uint32 m codes (i + 1)) }, i + 3))
    else unexpected invalid_unwind_info
undo m codes h i c allocate_small info =
    value (record c { rsp = add64 c.rsp (info * 8 + 8) }, i + 1)
undo m codes h i c set_frame_pointer info = do
  r ← register (bit_and h.frame_register_and_offset 0x0f)
  value (record c { rsp = sub64 (get_register r c) (h.frame_register_and_offset / 16 * 16) }, i + 1)
undo m codes h i c save_nonvolatile info = do
  require (ltb (i + 1) h.code_count) invalid_unwind_info
  c' ← restored m info (slot_uint16 m codes (i + 1) * 8) c
  value (c', i + 2)
undo m codes h i c save_nonvolatile_far info = do
  require (ltb (i + 2) h.code_count) invalid_unwind_info
  c' ← restored m info (slot_uint32 m codes (i + 1)) c
  value (c', i + 3)
undo m codes h i c save_xmm128 info = do
  require (ltb (i + 1) h.code_count) invalid_unwind_info
  value (c, i + 2)
undo m codes h i c save_xmm128_far info = do
  require (ltb (i + 2) h.code_count) invalid_unwind_info
  value (c, i + 3)
undo m codes h i c push_machine_frame info = unexpected unsupported_unwind_operation
undo m codes h i c unnamed info = unexpected unsupported_unwind_operation

-- `while (Index < CodeCount)`. Each round passes a slot at least, so a round for each slot and one
-- more are enough.
pub run_codes : Memory → ℕ → Header → Bool → ℕ → ℕ → ℕ → Context → Expected UnwindStop Context
run_codes m codes h in_prolog offset zero i c = unexpected out_of_fuel
run_codes m codes h in_prolog offset (suc fuel) i c =
    let slots = operation_slot_count (operation m codes i) (operation_info m codes i) in
    elim (ltb i h.code_count) [
      | false ↦ value c
      | true ↦ do
        require (not (ltb h.code_count (i + slots))) (failed invalid_unwind_info)
        elim (in_prolog && ltb offset (code_offset m codes i)) [
          | true ↦ run_codes m codes h in_prolog offset fuel (i + slots) c
          | false ↦ do
            (c', i') ← lift (undo m codes h i c (operation m codes i) (operation_info m codes i))
            run_codes m codes h in_prolog offset fuel i' c'
        ]
    ]
