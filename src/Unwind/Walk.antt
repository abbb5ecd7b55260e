-- ===== src/Unwind/Walk.antt =====
-- VirtualUnwind: progress up the stack, the callers it returns, and chains of unwind information.
use uefipp.Base.{
  ℕ, zero, suc, ◌+◌, ◌-◌, ◌*◌, ◌/◌, ◌%◌, ◌^◌, ◌<◌, ◌≡◌, refl, ap, ◌∙◌, Bool, true, false, not, ◌&&◌,
  ◌||◌, Option, none, some, Expected, value, unexpected, ◌>>=◌, ◌>>◌, require, arith, Bool-cases,
  inl, inr, ltb, leb, ◌==◌, bit_and, List, if◌then◌else◌,
}
use uefipp.Pe.{Memory}
use uefipp.Unwind.Codes.{UnwindStop, failed, out_of_fuel, Context, Header, invalid_stack_progress}
use uefipp.Unwind.Codes.Instructions.{Instruction, Ran, Laid}
use uefipp.Unwind.Codes.Prolog.{run_codes-Ran}
use uefipp.Unwind.Codes.Loop.{run_codes_none}
use uefipp.Unwind.Lookup.{rva_of}
use uefipp.Unwind.{
  RuntimeFunction, runtime_function_at, Unwinder, lookup, valid, contains, range_valid, Frame,
  popped, aligned_code_count, run_chain, virtual_unwind, header_at,
}

module _ (m : Memory) (u : Unwinder) where
  abbrev checked : Context → Expected UnwindStop Context → Expected UnwindStop Frame
  checked current r = do
    unwound ← r
    require (ltb current.rsp (popped m unwound).rsp) (failed invalid_stack_progress)
    value (record { caller = popped m unwound; return_address_slot = unwound.rsp })

  checked_progress :
      (current : Context) (r : Expected UnwindStop Context) {f : Frame}
      → checked current r ≡ value f
      → current.rsp < f.caller.rsp
  checked_progress current (value c) e = ground arith
  checked_progress current (unexpected x) e = cc

  step_progress :
      (fuel : ℕ) (current : Context) (o : Option RuntimeFunction) {f : Frame}
      → current.rsp + 8 < 2 ^ 64
      → elim o [
        | none ↦ value (record { caller = popped m current; return_address_slot = current.rsp })
        | some function ↦
            checked current (run_chain m u fuel function (rva_of u current.rip) true current)
      ]
        ≡ value f
      → current.rsp < f.caller.rsp
  step_progress fuel current none h e = ground arith
  step_progress fuel current (some function) h e =
      checked_progress current (run_chain m u fuel function (rva_of u current.rip) true current) e

  -- A step of VirtualUnwind that succeeds moves the stack pointer up, whether or not the tables know
  -- the function, if the stack pointer stood more than 8 bytes before the end of memory.
  pub virtual_unwind_progress :
      (fuel : ℕ) (current : Context) (f : Frame)
      → current.rsp + 8 < 2 ^ 64
      → virtual_unwind m u fuel current ≡ value f
      → current.rsp < f.caller.rsp
  unfolding virtual_unwind
  virtual_unwind_progress fuel current f h e =
      elim (Bool-cases
        (not (valid u) || current.rip == 0 || current.rsp == 0 || not (contains u current.rip))) [
          | inl y ↦ cc
          | inr n ↦ step_progress fuel current (lookup m u current.rip) h (rw n at e)
        ]

  -- The unwind information of a function passes the checks of the loop.
  pub record HasInfo (info : ℕ) : Type 0 where
    pub inside : (not (info == 0) && ltb info u.image_size) ≡ true
    pub version_one : (bit_and (m (u.base + info)) 0x07 == 1) ≡ true
    pub codes_inside :
        range_valid (info + 4) ((header_at m (u.base + info)).code_count * 2) u.image_size ≡ true

  abbrev pub is_last : ℕ → Bool
  is_last info = bit_and (m (u.base + info) / 8) 0x04 == 0

  -- The address of the entry that unwind information is chained to.
  abbrev pub chained_offset : ℕ → ℕ
  chained_offset info = info + 4 + aligned_code_count (header_at m (u.base + info)).code_count * 2

  chain_last :
      (fuel control : ℕ) (f : RuntimeFunction) (entry c : Context) {is : List Instruction}
      → HasInfo f.unwind_info_address
      → is_last f.unwind_info_address ≡ true
      → (leb
          ((control + 2 ^ 32 - f.begin_address) % 2 ^ 32)
          (header_at m (u.base + f.unwind_info_address)).prolog_size)
        ≡ false
      → Laid m
          (u.base + (f.unwind_info_address + 4))
          (header_at m (u.base + f.unwind_info_address))
          0
          is
      → Ran m entry is c
      → run_chain m u (suc fuel) f control true c ≡ value entry
  unfolding run_chain
  chain_last fuel control f entry c i last body laid ran =
      let undone =
        run_codes-Ran m (u.base + (f.unwind_info_address + 4))
          (header_at m (u.base + f.unwind_info_address))
          ((control + 2 ^ 32 - f.begin_address) % 2 ^ 32)
          (suc (header_at m (u.base + f.unwind_info_address)).code_count) 0 ran laid
          (omega arith) in
      rw (i.inside, i.version_one, i.codes_inside, body, undone, last)

  pub virtual_unwind_caller :
      (fuel : ℕ) (f : RuntimeFunction) (entry current : Context) {is : List Instruction}
      → valid u ≡ true
      → contains u current.rip ≡ true
      → (current.rip == 0 || current.rsp == 0) ≡ false
      → lookup m u current.rip ≡ some f
      → HasInfo f.unwind_info_address
      → is_last f.unwind_info_address ≡ true
      → (leb
          ((rva_of u current.rip + 2 ^ 32 - f.begin_address) % 2 ^ 32)
          (header_at m (u.base + f.unwind_info_address)).prolog_size)
        ≡ false
      → Laid m
          (u.base + (f.unwind_info_address + 4))
          (header_at m (u.base + f.unwind_info_address))
          0
          is
      → Ran m entry is current
      → current.rsp < (popped m entry).rsp
      → virtual_unwind m u (suc fuel) current
        ≡ value (record { caller = popped m entry; return_address_slot = entry.rsp })
  unfolding virtual_unwind
  virtual_unwind_caller fuel f entry current v c nonzero found i last body laid ran up =
      let undone = chain_last fuel (rva_of u current.rip) f entry current i last body laid ran in
      let grows : ltb current.rsp (popped m entry).rsp ≡ true = ground arith in
      rw (refused current.rip current.rsp v c nonzero) (rw found (rw (undone, grows)))
    where
      refused :
          (rip rsp : ℕ)
          → valid u ≡ true
          → contains u rip ≡ true
          → (rip == 0 || rsp == 0) ≡ false
          → (not (valid u) || rip == 0 || rsp == 0 || not (contains u rip)) ≡ false
      refused rip rsp v c h = ground arith

  -- Unwind information without codes that is chained to an entry for the same information.
  pub record Circular (f : RuntimeFunction) : Type 0 where
    pub info : HasInfo f.unwind_info_address
    pub no_codes : (header_at m (u.base + f.unwind_info_address)).code_count ≡ 0
    pub goes_on : is_last f.unwind_info_address ≡ false
    pub entry_inside : range_valid (chained_offset f.unwind_info_address) 12 u.image_size ≡ true
    pub entry : runtime_function_at m (u.base + chained_offset f.unwind_info_address) ≡ f

  -- Where unwind information without codes is chained to an entry for the same information,
  -- VirtualUnwind follows the chain for ever: no number of rounds is enough.
  pub run_chain-Circular :
      (fuel control : ℕ) (first : Bool) (f : RuntimeFunction) (c : Context)
      → Circular f
      → run_chain m u fuel f control first c ≡ unexpected out_of_fuel
  unfolding run_chain
  run_chain-Circular zero control first f c h = refl
  run_chain-Circular (suc fuel) control first f c h =
      let header : Header = header_at m (u.base + f.unwind_info_address) in
      let offset : ℕ = if first then (control + 2 ^ 32 - f.begin_address) % 2 ^ 32 else 0 in
      let undone =
        run_codes_none m (u.base + (f.unwind_info_address + 4)) header
          (first && (first && leb offset header.prolog_size)) offset header.code_count c
          h.no_codes in
      rw (h.info.inside, h.info.version_one, h.info.codes_inside, undone, h.goes_on, h.entry_inside)
        (ap (λ (t : RuntimeFunction). run_chain m u fuel t control false c) h.entry
          ∙ run_chain-Circular fuel control false f c h)
