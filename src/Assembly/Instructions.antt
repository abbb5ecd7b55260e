-- ===== src/Assembly/Instructions.antt =====
-- Instruction and Operand of UEFIpp/Include/UEFIpp/Architecture/X64/Instruction, less the metadata
-- that only the decoder fills. A register is the number of its RegisterId, and 0 is `None`. A signed
-- number is its two's complement.
use uefipp.Base.{
  ℕ, zero, suc, Bool, true, false, Option, none, some, List, [], ◌∷◌, ◌++◌, length, ltb,
  if◌then◌else◌,
}

-- The mnemonics that the assembler names, and any other by its number.
pub data Mnemonic : Type 0 where
  invalid mov lea add sub bit_and_of bit_or_of bit_xor_of cmp test push pop inc dec call jmp :
      Mnemonic
  ret nop jo jno jb jnb jz jnz jbe jnbe js jns jp jnp jl jnl jle jnle : Mnemonic
  other : ℕ → Mnemonic

pub data Condition : Type 0 where
  overflow not_overflow below above_equal equal not_equal below_equal above sign : Condition
  not_sign parity not_parity less greater_equal less_equal greater : Condition

pub data BranchWidth : Type 0 where
  automatic width_8 width_16 width_32 width_64 : BranchWidth

pub record Immediate : Type 0 where
  pub unsigned_value : ℕ
  pub is_signed : Bool
  pub is_relative : Bool
  pub has_absolute_address : Bool
  pub absolute_address : ℕ

-- `ImmediateOperand::Relative`
abbrev pub relative : ℕ → Immediate
relative target = record {
  unsigned_value = target;
  is_signed = false;
  is_relative = true;
  has_absolute_address = true;
  absolute_address = target;
}

-- The place that a call or a jump to a label keeps for its target.
abbrev pub unresolved : Immediate
unresolved = record {
  unsigned_value = 0;
  is_signed = true;
  is_relative = true;
  has_absolute_address = false;
  absolute_address = 0;
}

pub record MemoryOperand : Type 0 where
  pub base : ℕ
  pub index : ℕ
  pub scale : ℕ
  pub displacement : ℕ
  pub has_displacement : Bool
  pub size_in_bits : ℕ
  pub has_absolute_address : Bool
  pub absolute_address : ℕ

-- The kinds of operand, with `SizeInBits` where the kind does not give it.
pub data Operand : Type 0 where
  unused : Operand
  register : ℕ → ℕ → Operand
  memory : MemoryOperand → Operand
  pointer : ℕ → ℕ → Operand
  immediate : Immediate → ℕ → Operand

-- `Options` is the branch width, and the other options by a number.
pub record Instruction : Type 0 where
  pub mnemonic : Mnemonic
  pub branch_size : BranchWidth
  pub options : ℕ
  pub operands : List Operand

abbrev pub plain : Mnemonic → Instruction
plain m = record { mnemonic = m; branch_size = BranchWidth.automatic; options = 0; operands = [] }

abbrev pub maximum_operand_count : ℕ
maximum_operand_count = 5

-- `AddOperand`: `none` is its `false`.
abbrev pub add_operand : Instruction → Operand → Option Instruction
add_operand i x =
    if ltb (length i.operands) maximum_operand_count
    then some (record i { operands = i.operands ++ x ∷ [] })
    else none

-- `(void)AddOperand(…)`
abbrev pub with_operand : Instruction → Operand → Instruction
with_operand i x = elim (add_operand i x) [ some j ↦ j | none ↦ i ]

-- `Operands()[index] = x`
abbrev pub operand_replaced : List Operand → ℕ → Operand → List Operand
operand_replaced [] n x = []
operand_replaced (y ∷ ys) zero x = x ∷ ys
operand_replaced (y ∷ ys) (suc n) x = y ∷ operand_replaced ys n x
