-- ===== src/Unwind/Tests.antt =====
-- A small image with a table of three functions and a stack, on which the unwinder is run.
use uefipp.Base.{
  ℕ, zero, suc, ◌≡◌, ◌<◌, ◌≤◌, refl, true, List, [], ◌∷◌, some, value, unexpected, ◌==◌,
  if◌then◌else◌, inl, arith,
}
use uefipp.Pe.{Memory}
use uefipp.Unwind.Codes.{
  Header, failed, out_of_fuel, invalid_context, Context, Nonvolatile, undo, register,
  unsupported_register, allocate_large,
}
use uefipp.Unwind.Codes.Instructions.{Instruction, push, take_small, Did, Ran, Laid}
use uefipp.Unwind.{
  Unwinder, RuntimeFunction, valid, contains, lookup, table, search_table, Frame, run_chain,
  virtual_unwind,
}
use uefipp.Unwind.Lookup.{Covers, IsOrdered, lookup_sound, lookup_complete}
use uefipp.Unwind.Walk.{HasInfo, virtual_unwind_caller, Circular, run_chain-Circular}
use uefipp.Unwind.Chain.{Ends}

abbrev peek : List (ℕ × ℕ) → Memory
peek [] a = 0
peek ((b, byte) ∷ rest) a = if a == b then byte else peek rest a

-- The base is 4096. The table at 4352 has functions at 768, 832 and 1024; the information at 4608
-- has two codes, the one at 4640 none, and the one at 4672 is chained to itself.
abbrev memory : Memory
memory = peek (
    (4353, 3)
    ∷ (4356, 64)
    ∷ (4357, 3)
    ∷ (4361, 2)
    ∷ (4364, 64)
    ∷ (4365, 3)
    ∷ (4369, 4)
    ∷ (4372, 32)
    ∷ (4373, 2)
    ∷ (4377, 4)
    ∷ (4380, 128)
    ∷ (4381, 4)
    ∷ (4384, 64)
    ∷ (4385, 2)
    ∷ (4608, 1)
    ∷ (4609, 5)
    ∷ (4610, 2)
    ∷ (4612, 5)
    ∷ (4613, 50)
    ∷ (4614, 1)
    ∷ (4615, 48)
    ∷ (4640, 1)
    ∷ (4672, 33)
    ∷ (4677, 4)
    ∷ (4680, 128)
    ∷ (4681, 4)
    ∷ (4684, 64)
    ∷ (4685, 2)
    ∷ (1048568, 7)
    ∷ (1048577, 80)
    ∷ [])

abbrev unwinder : Unwinder
unwinder = record { base = 4096; image_size = 4096; functions = 4352; function_count = 3 }

abbrev first_function : RuntimeFunction
first_function = record { begin_address = 768; end_address = 832; unwind_info_address = 512 }

abbrev chained_function : RuntimeFunction
chained_function = record { begin_address = 1024; end_address = 1152; unwind_info_address = 576 }

-- Where the first function was entered, and where its body stands.
abbrev entry : Context
entry = record {
  rip = 4896;
  rsp = 1048576;
  rbx = 7;
  rbp = 1;
  rsi = 2;
  rdi = 3;
  r12 = 4;
  r13 = 5;
  r14 = 6;
  r15 = 8;
}

abbrev current : Context
current = record entry { rbx = 99; rsp = 1048536 }

abbrev caller : Frame
caller = record {
  caller = record entry { rip = 20480; rsp = 1048584 };
  return_address_slot = 1048576;
}

abbrev prolog : List Instruction
prolog = take_small 3 ∷ push Nonvolatile.rbx ∷ []

valid_here : valid unwinder ≡ true
unfolding valid
valid_here = refl

contains_here : contains unwinder 4896 ≡ true
unfolding contains
contains_here = refl

finds_first : lookup memory unwinder 4896 ≡ some first_function
unfolding lookup search_table valid contains
finds_first = refl

-- Address 0 is refused.
refuses_zero :
    virtual_unwind memory unwinder 1 (record current { rip = 0 })
    ≡ unexpected (failed invalid_context)
unfolding virtual_unwind valid contains
refuses_zero = refl

-- RSP is no register that unwinding restores.
refuses_rsp : register 4 ≡ unexpected unsupported_register
unfolding register
refuses_rsp = refl

ran : Ran memory entry prolog current
ran =
    Ran.then_did (take_small 3)
      (Ran.then_did (push Nonvolatile.rbx) Ran.entered
        (Did.pushed entry Nonvolatile.rbx 1048568 99 refl (omega arith) refl))
      (Did.took_small (record entry { rbx = 99; rsp = 1048568 }) 3 1048536 refl (omega arith))

abbrev pushing : Header
pushing = record {
  version_and_flags = 1;
  prolog_size = 5;
  code_count = 2;
  frame_register_and_offset = 0;
}

laid : Laid memory 4612 pushing 0 prolog
laid = ((refl, refl), omega arith, ((refl, refl), omega arith, refl))

info_here : HasInfo memory unwinder 512
info_here = record { inside = refl; version_one = refl; codes_inside = refl }

unwinds : virtual_unwind memory unwinder 1 current ≡ value caller
unwinds =
    virtual_unwind_caller memory unwinder 0 first_function entry current {is = prolog} valid_here
      contains_here refl finds_first info_here refl refl laid ran (omega arith)

undone :
    undo memory 4612 pushing 0 current allocate_large 0
    ≡ value (record current { rsp = 1146848 }, 2)
unfolding undo
undone = refl

lookup_sound_example :
    (i : ℕ) × (i < 3) × (first_function ≡ table memory unwinder i) × Covers first_function 800
lookup_sound_example = lookup_sound memory unwinder 4896 first_function finds_first

ordered : IsOrdered (table memory unwinder) 3
ordered = (each, between)
  where
    each :
        (i : ℕ)
        → i < 3
        → (table memory unwinder i).begin_address ≤ (table memory unwinder i).end_address
    each zero h = omega arith
    each (suc zero) h = omega arith
    each (suc (suc zero)) h = omega arith
    each (suc (suc (suc i))) h = absurd (omega arith)

    between :
        (i j : ℕ)
        → i < j
        → j < 3
        → (table memory unwinder i).end_address ≤ (table memory unwinder j).begin_address
    between zero zero h k = absurd (omega arith)
    between zero (suc zero) h k = omega arith
    between zero (suc (suc zero)) h k = omega arith
    between (suc zero) zero h k = absurd (omega arith)
    between (suc zero) (suc zero) h k = absurd (omega arith)
    between (suc zero) (suc (suc zero)) h k = omega arith
    between (suc (suc zero)) zero h k = absurd (omega arith)
    between (suc (suc zero)) (suc zero) h k = absurd (omega arith)
    between (suc (suc zero)) (suc (suc zero)) h k = absurd (omega arith)
    between (suc (suc (suc i))) j h k = absurd (omega arith)
    between i (suc (suc (suc j))) h k = absurd (omega arith)

lookup_complete_example : lookup memory unwinder 4896 ≡ some (table memory unwinder 0)
lookup_complete_example =
    lookup_complete memory unwinder 4896 0 valid_here contains_here ordered (omega arith)
      (omega arith, omega arith)

circular : Circular memory unwinder chained_function
circular = record {
  info = record { inside = refl; version_one = refl; codes_inside = refl };
  no_codes = refl;
  goes_on = refl;
  entry_inside = refl;
  entry = refl;
}

run_chain-Circular_example :
    run_chain memory unwinder 9 chained_function 1100 true current ≡ unexpected out_of_fuel
run_chain-Circular_example =
    run_chain-Circular memory unwinder 9 1100 true chained_function current circular

Ends-here : (f : RuntimeFunction) → lookup memory unwinder 4896 ≡ some f → Ends memory unwinder 1 f
Ends-here f e = let same : f ≡ first_function = cc (finds_first, e) in inl (rw same refl)
