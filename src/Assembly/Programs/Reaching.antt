-- ===== src/Assembly/Programs/Reaching.antt =====
-- Any sequence of operations of Program, from a new program on.
use uefipp.Base.{
  ℕ, ◌≤◌, ◌<◌, refl, sym, Bool, true, false, Option, List, [], ◌∷◌, length, All, arith,
}
use mathlib.Core.Path.{subst}
use uefipp.Alignment.{is_power_of_two}
use uefipp.Assembly.Instructions.{Instruction}
use uefipp.Assembly.Programs.{
  invalid_id, Node, instruction_node, label_node, data_node, align_node, SectionKind, Section,
  Program, new_program, create_section, switch_section, create_label, bind_label,
  append_instruction, append_to_label, append_data, align,
}
use uefipp.Assembly.Programs.Bound.{
  own_labels, labels_before, labels_of, AreDistinct, AreDistinct-of,
}
use uefipp.Assembly.Programs.Soundness.{IsNode, IsSection, bit_of, IsSound}
use uefipp.Assembly.Programs.Building.{
  create_section-IsSound, switch_section-IsSound, create_label-IsSound, bind_label-IsSound,
  append_instruction-IsSound, append_to_label-IsSound, append_data-IsSound, align-IsSound,
}

-- One call of an operation, whether it succeeds or fails.
pub data Step (p : Program) : Program → Type 0 where
  creates_section :
      (memory : Bool) (kind : SectionKind) (name : List ℕ) (alignment : ℕ)
      → Step p (create_section memory kind name alignment p).0
  switches_section : (id : ℕ) → Step p (switch_section id p).0
  creates_label : (memory : Bool) → Step p (create_label memory p).0
  binds_label : (memory : Bool) (l : ℕ) → Step p (bind_label memory l p).0
  appends_instruction : (memory : Bool) (i : Instruction) → Step p (append_instruction memory i p).0
  appends_to_label :
      (memory : Bool) (i : Instruction) (l operand_index : ℕ)
      → Step p (append_to_label memory i l operand_index p).0
  appends_data : (memory : Bool) (bytes : Option (List ℕ)) → Step p (append_data memory bytes p).0
  aligns : (memory : Bool) (alignment fill : ℕ) → Step p (align memory alignment fill p).0

pub data Reach : Program → Type 0 where
  starts : (memory : Bool) → Reach (new_program memory)
  goes : {p q : Program} → Reach p → Step p q → Reach q

new_program-IsSound : (memory : Bool) → IsSound (new_program memory)
unfolding new_program is_power_of_two
new_program-IsSound true = record {
  labels_few = omega arith;
  sections_few = omega arith;
  sections_are = (record { nodes_are = tt; aligned = refl }, tt);
  bound_once = λ l. refl;
}
new_program-IsSound false = record {
  labels_few = omega arith;
  sections_few = omega arith;
  sections_are = tt;
  bound_once = λ l. refl;
}

Step-IsSound : {p q : Program} → IsSound p → Step p q → IsSound q
Step-IsSound {p} h (creates_section memory kind name alignment) =
    create_section-IsSound p h memory kind name alignment
Step-IsSound {p} h (switches_section id) = switch_section-IsSound p h id
Step-IsSound {p} h (creates_label memory) = create_label-IsSound p h memory
Step-IsSound {p} h (binds_label memory l) = bind_label-IsSound p h memory l
Step-IsSound {p} h (appends_instruction memory i) = append_instruction-IsSound p h memory i
Step-IsSound {p} h (appends_to_label memory i l operand_index) =
    append_to_label-IsSound p h memory i l operand_index
Step-IsSound {p} h (appends_data memory bytes) = append_data-IsSound p h memory bytes
Step-IsSound {p} h (aligns memory alignment fill) = align-IsSound p h memory alignment fill

-- Whatever operations build a program, and whether each succeeds or fails: a label is bound once or
-- never, as the program records it, every target of an instruction is one of its labels and goes to
-- one of its operands, and every alignment is a power of two.
pub Reach-IsSound : {p : Program} → Reach p → IsSound p
Reach-IsSound (starts memory) = new_program-IsSound memory
Reach-IsSound (goes r s) = Step-IsSound (Reach-IsSound r) s

own_ids :
    (n : Node) (ls : List ℕ) (k : ℕ)
    → k ≤ invalid_id
    → IsNode k n
    → All (λ l. l < invalid_id) ls
    → All (λ l. l < invalid_id) (own_labels n ls)
own_ids (label_node l) ls k h i a = (omega (arith, h, i), a)
own_ids (instruction_node j t) ls k h i a = a
own_ids (data_node bytes) ls k h i a = a
own_ids (align_node x fill) ls k h i a = a

ids_before :
    (ns : List Node) (later : List ℕ) (k : ℕ)
    → k ≤ invalid_id
    → All (IsNode k) ns
    → All (λ l. l < invalid_id) later
    → All (λ l. l < invalid_id) (labels_before ns later)
ids_before [] later k h i a = a
ids_before (n ∷ ns) later k h i a =
    own_ids n (labels_before ns later) k h i.0 (ids_before ns later k h i.1 a)

ids_of :
    (ss : List Section) (k : ℕ)
    → k ≤ invalid_id
    → All (IsSection k) ss
    → All (λ l. l < invalid_id) (labels_of ss)
ids_of [] k h i = tt
ids_of (s ∷ ss) k h i = ids_before s.nodes (labels_of ss) k h i.0.nodes_are (ids_of ss k h i.1)

bit_small : (b : Bool) → bit_of b ≤ 1
bit_small true = omega arith
bit_small false = omega arith

pub IsSound-AreDistinct : (p : Program) → IsSound p → AreDistinct (labels_of p.sections)
IsSound-AreDistinct p h =
    AreDistinct-of (labels_of p.sections)
      (ids_of p.sections (length p.labels) h.labels_few h.sections_are)
      (λ l. subst (λ n. n ≤ 1) (sym (h.bound_once l)) (bit_small _))
