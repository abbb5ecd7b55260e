-- ===== src/Unwind.antt =====
-- UEFIpp/Source/Architecture/X64/Unwind/Unwinder.cpp: one step of a stack walk by the unwind tables
-- of a loaded PE image. Memory is a function from addresses to bytes; addresses and registers are
-- 64-bit numbers, and sums on them wrap.
pub mod Codes
pub mod Lookup
pub mod Walk
pub mod Chain
mod Tests
use uefipp.Base.{
  ℕ, zero, suc, ◌+◌, ◌-◌, ◌*◌, ◌/◌, ◌%◌, ◌^◌, Bool, true, false, not, ◌&&◌, ◌||◌, Option, none,
  some, bit_and, ltb, leb, ◌==◌, if◌then◌else◌, Expected, value, unexpected, ◌>>=◌, ◌>>◌, require,
}
use uefipp.Pe.{
  Memory, Directory, is_vacant, read16, read32, read64, is_valid, is_64, image_size, get_directory,
}
use Codes.{
  UnwindError, invalid_context, invalid_runtime_function, invalid_unwind_info,
  unsupported_unwind_version, invalid_stack_progress, UnwindStop, failed, out_of_fuel, lift,
  Context, Header, run_codes,
}

pub record Unwinder : Type 0 where
  pub base : ℕ
  pub image_size : ℕ
  pub functions : ℕ
  pub function_count : ℕ

-- Where the constructor returns early.
abbrev pub vacant : Unwinder
vacant = record { base = 0; image_size = 0; functions = 0; function_count = 0 }

abbrev pub range_valid : ℕ → ℕ → ℕ → Bool
range_valid offset size limit = leb offset limit && leb size (limit - offset)

pub make_unwinder : Memory → ℕ → Unwinder
make_unwinder m base =
    let d = get_directory m base 3 in
    let size = image_size m base in
    if not (is_valid m base) || not (is_64 m base)
    then vacant
    else if is_vacant d || not (d.size % 12 == 0)
    then vacant
    else if not (range_valid d.rva d.size size)
    then vacant
    else record {
      base = base;
      image_size = size;
      functions = base + d.rva;
      function_count = d.size / 12;
    }

pub valid : Unwinder → Bool
valid u =
    not (u.base == 0)
    && not (u.image_size == 0)
    && not (u.functions == 0)
    && not (u.function_count == 0)

pub contains : Unwinder → ℕ → Bool
contains u address =
    if u.base == 0 || u.image_size == 0
    then false
    else leb u.base address && ltb (address - u.base) u.image_size

pub record RuntimeFunction : Type 0 where
  pub begin_address : ℕ
  pub end_address : ℕ
  pub unwind_info_address : ℕ

abbrev pub runtime_function_at : Memory → ℕ → RuntimeFunction
runtime_function_at m a = record {
  begin_address = read32 m a;
  end_address = read32 m (a + 4);
  unwind_info_address = read32 m (a + 8);
}

-- The loop of LookupRuntimeFunction over a table, on fuel: the index that it finds.
pub search_table : (ℕ → RuntimeFunction) → ℕ → ℕ → ℕ → ℕ → Option ℕ
search_table table zero rva first count = none
search_table table (suc fuel) rva first count =
    let step = count / 2 in
    let index = first + step in
    let function = table index in
    let lower = search_table table fuel rva first step in
    let upper = search_table table fuel rva (index + 1) (count - (step + 1)) in
    if count == 0
    then none
    else if ltb rva function.begin_address
    then lower
    else if leb function.end_address rva
    then upper
    else some index

module _ (m : Memory) (u : Unwinder) where
  abbrev pub table : ℕ → RuntimeFunction
  table i = runtime_function_at m (u.functions + 12 * i)

  -- A round leaves fewer functions than before, so their number is enough fuel.
  pub lookup : ℕ → Option RuntimeFunction
  lookup rip =
      if not (valid u) || not (contains u rip)
      then none
      else elim (search_table table (suc u.function_count) ((rip - u.base) % 2 ^ 32) 0
          u.function_count) [ none ↦ none | some i ↦ some (table i) ]

pub record FunctionRange : Type 0 where
  pub begin : ℕ
  pub end : ℕ
  pub begin_rva : ℕ
  pub end_rva : ℕ
  pub unwind_info_rva : ℕ

pub range_size : FunctionRange → ℕ
range_size r = if leb r.begin r.end then r.end - r.begin else 0

pub range_contains : FunctionRange → ℕ → Bool
range_contains r address = leb r.begin address && ltb address r.end

pub find_runtime_function : Memory → Unwinder → ℕ → Option FunctionRange
find_runtime_function m u rip = elim (lookup m u rip) [
  | none ↦ none
  | some f ↦ some (record {
    begin = (u.base + f.begin_address) % 2 ^ 64;
    end = (u.base + f.end_address) % 2 ^ 64;
    begin_rva = f.begin_address;
    end_rva = f.end_address;
    unwind_info_rva = f.unwind_info_address;
  })
]

pub record Frame : Type 0 where
  pub caller : Context
  pub return_address_slot : ℕ

-- Takes the return address off the stack.
abbrev pub popped : Memory → Context → Context
popped m c = record c { rip = read64 m c.rsp; rsp = (c.rsp + 8) % 2 ^ 64 }

-- `(Count + 1) & ~1`
abbrev pub aligned_code_count : ℕ → ℕ
aligned_code_count count = (count + 1) / 2 * 2

-- The bytes of UnwindInfoHeader at an address.
abbrev pub header_at : Memory → ℕ → Header
header_at m a = record {
  version_and_flags = m a;
  prolog_size = m (a + 1);
  code_count = m (a + 2);
  frame_register_and_offset = m (a + 3);
}

module _ (m : Memory) (u : Unwinder) where
  -- The loop over chained unwind information, one round for each; the code sets no bound on them.
  pub run_chain : ℕ → RuntimeFunction → ℕ → Bool → Context → Expected UnwindStop Context
  run_chain zero function control first caller = unexpected out_of_fuel
  run_chain (suc fuel) function control first caller =
      let info = function.unwind_info_address in
      let header : Header = header_at m (u.base + info) in
      let codes_offset = info + 4 in
      let function_offset =
        if first then (control + 2 ^ 32 - function.begin_address) % 2 ^ 32 else 0 in
      let in_prolog = first && leb function_offset header.prolog_size in
      let chained_offset = codes_offset + aligned_code_count header.code_count * 2 in
      do
        require (not (info == 0) && ltb info u.image_size) (failed invalid_runtime_function)
        require (bit_and header.version_and_flags 0x07 == 1) (failed unsupported_unwind_version)
        require (range_valid codes_offset (header.code_count * 2) u.image_size)
            (failed invalid_unwind_info)
        unwound ←
            run_codes m (u.base + codes_offset) header (first && in_prolog) function_offset
              (suc header.code_count) 0 caller
        elim (bit_and (header.version_and_flags / 8) 0x04 == 0) [
          | true ↦ value unwound
          | false ↦ do
            require (range_valid chained_offset 12 u.image_size) (failed invalid_unwind_info)
            run_chain fuel (runtime_function_at m (u.base + chained_offset)) control false unwound
        ]

  pub virtual_unwind : ℕ → Context → Expected UnwindStop Frame
  virtual_unwind fuel current =
      if not (valid u) || current.rip == 0 || current.rsp == 0 || not (contains u current.rip)
      then unexpected (failed invalid_context)
      else elim (lookup m u current.rip) [
        | none ↦ value (record { caller = popped m current; return_address_slot = current.rsp })
        | some function ↦ do
          unwound ← run_chain fuel function ((current.rip - u.base) % 2 ^ 32) true current
          require (ltb current.rsp (popped m unwound).rsp) (failed invalid_stack_progress)
          value (record { caller = popped m unwound; return_address_slot = unwound.rsp })
      ]
