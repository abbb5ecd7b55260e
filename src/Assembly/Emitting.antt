-- ===== src/Assembly/Emitting.antt =====
-- The operations of Assembler in UEFIpp/Source/Architecture/X64/Assembly/Assembler.cpp that add an
-- instruction to its program.
use uefipp.Base.{ℕ, Bool, Option, none, some, List, [], ◌∷◌, Expected}
use uefipp.Assembly.Instructions.{
  Mnemonic, Condition, BranchWidth, Operand, MemoryOperand, Instruction, plain, relative,
  unresolved, add_operand, with_operand,
}
use uefipp.Assembly.Programs.{AssemblyError, Program, refuse, append_instruction, append_to_label}

-- `Emit(Mnemonic, Operands...)`
abbrev pub added : Instruction → List Operand → Option Instruction
added i [] = some i
added i (x ∷ xs) = elim (add_operand i x) [ none ↦ none | some j ↦ added j xs ]

pub emit : Bool → Mnemonic → List Operand → Program → Program × Expected AssemblyError ℕ
emit memory m operands p = elim (added (plain m) operands) [
  | some i ↦ append_instruction memory i p
  | none ↦ refuse p AssemblyError.invalid_argument
]

pub mov : Bool → Operand → Operand → Program → Program × Expected AssemblyError ℕ
unfolding emit
mov memory x y p = emit memory Mnemonic.mov (x ∷ y ∷ []) p

pub add : Bool → Operand → Operand → Program → Program × Expected AssemblyError ℕ
unfolding emit
add memory x y p = emit memory Mnemonic.add (x ∷ y ∷ []) p

pub sub : Bool → Operand → Operand → Program → Program × Expected AssemblyError ℕ
unfolding emit
sub memory x y p = emit memory Mnemonic.sub (x ∷ y ∷ []) p

pub bitwise_and : Bool → Operand → Operand → Program → Program × Expected AssemblyError ℕ
unfolding emit
bitwise_and memory x y p = emit memory Mnemonic.bit_and_of (x ∷ y ∷ []) p

pub bitwise_or : Bool → Operand → Operand → Program → Program × Expected AssemblyError ℕ
unfolding emit
bitwise_or memory x y p = emit memory Mnemonic.bit_or_of (x ∷ y ∷ []) p

pub bitwise_xor : Bool → Operand → Operand → Program → Program × Expected AssemblyError ℕ
unfolding emit
bitwise_xor memory x y p = emit memory Mnemonic.bit_xor_of (x ∷ y ∷ []) p

pub cmp : Bool → Operand → Operand → Program → Program × Expected AssemblyError ℕ
unfolding emit
cmp memory x y p = emit memory Mnemonic.cmp (x ∷ y ∷ []) p

pub test : Bool → Operand → Operand → Program → Program × Expected AssemblyError ℕ
unfolding emit
test memory x y p = emit memory Mnemonic.test (x ∷ y ∷ []) p

pub push : Bool → Operand → Program → Program × Expected AssemblyError ℕ
unfolding emit
push memory x p = emit memory Mnemonic.push (x ∷ []) p

pub pop : Bool → Operand → Program → Program × Expected AssemblyError ℕ
unfolding emit
pop memory x p = emit memory Mnemonic.pop (x ∷ []) p

pub inc : Bool → Operand → Program → Program × Expected AssemblyError ℕ
unfolding emit
inc memory x p = emit memory Mnemonic.inc (x ∷ []) p

pub dec : Bool → Operand → Program → Program × Expected AssemblyError ℕ
unfolding emit
dec memory x p = emit memory Mnemonic.dec (x ∷ []) p

pub lea : Bool → ℕ → MemoryOperand → Program → Program × Expected AssemblyError ℕ
unfolding emit
lea memory r m p = emit memory Mnemonic.lea (Operand.register r 0 ∷ Operand.memory m ∷ []) p

pub condition_mnemonic : Condition → Mnemonic
condition_mnemonic Condition.overflow = Mnemonic.jo
condition_mnemonic Condition.not_overflow = Mnemonic.jno
condition_mnemonic Condition.below = Mnemonic.jb
condition_mnemonic Condition.above_equal = Mnemonic.jnb
condition_mnemonic Condition.equal = Mnemonic.jz
condition_mnemonic Condition.not_equal = Mnemonic.jnz
condition_mnemonic Condition.below_equal = Mnemonic.jbe
condition_mnemonic Condition.above = Mnemonic.jnbe
condition_mnemonic Condition.sign = Mnemonic.js
condition_mnemonic Condition.not_sign = Mnemonic.jns
condition_mnemonic Condition.parity = Mnemonic.jp
condition_mnemonic Condition.not_parity = Mnemonic.jnp
condition_mnemonic Condition.less = Mnemonic.jl
condition_mnemonic Condition.greater_equal = Mnemonic.jnl
condition_mnemonic Condition.less_equal = Mnemonic.jle
condition_mnemonic Condition.greater = Mnemonic.jnle

abbrev pub branch_of : Mnemonic → BranchWidth → Operand → Instruction
branch_of m width x = with_operand (record (plain m) { branch_size = width }) x

pub call : Bool → ℕ → Program → Program × Expected AssemblyError ℕ
call memory target p =
    append_instruction memory
      (with_operand (plain Mnemonic.call) (Operand.immediate (relative target) 0)) p

pub call_label : Bool → ℕ → Program → Program × Expected AssemblyError ℕ
call_label memory l p =
    append_to_label memory (with_operand (plain Mnemonic.call) (Operand.immediate unresolved 0)) l 0
      p

pub jmp : Bool → ℕ → BranchWidth → Program → Program × Expected AssemblyError ℕ
jmp memory target width p =
    append_instruction memory (branch_of Mnemonic.jmp width (Operand.immediate (relative target) 0))
      p

pub jmp_label : Bool → ℕ → BranchWidth → Program → Program × Expected AssemblyError ℕ
jmp_label memory l width p =
    append_to_label memory (branch_of Mnemonic.jmp width (Operand.immediate unresolved 0)) l 0 p

pub jcc : Bool → Condition → ℕ → BranchWidth → Program → Program × Expected AssemblyError ℕ
unfolding condition_mnemonic
jcc memory c target width p =
    append_instruction memory
      (branch_of (condition_mnemonic c) width (Operand.immediate (relative target) 0)) p

pub jcc_label : Bool → Condition → ℕ → BranchWidth → Program → Program × Expected AssemblyError ℕ
unfolding condition_mnemonic
jcc_label memory c l width p =
    append_to_label memory (branch_of (condition_mnemonic c) width (Operand.immediate unresolved 0))
      l 0 p

pub ret : Bool → Program → Program × Expected AssemblyError ℕ
ret memory p = append_instruction memory (plain Mnemonic.ret) p

pub nop : Bool → Program → Program × Expected AssemblyError ℕ
nop memory p = append_instruction memory (plain Mnemonic.nop) p
