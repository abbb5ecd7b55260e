-- ===== src/Assembly/Programs.antt =====
-- Node, Section and Program of UEFIpp/Source/Architecture/X64/Assembly. A vector is a list. An
-- operation that allocates is told whether its allocations succeed.
pub mod Bound
pub mod Soundness
pub mod Growing
pub mod Building
pub mod Reaching
pub mod Sample
use uefipp.Base.{
  ℕ, zero, suc, ◌+◌, ◌-◌, ◌^◌, Bool, true, false, not, ◌&&◌, ◌||◌, Option, none, some, List, [],
  ◌∷◌, ◌++◌, length, get_elem?, leb, ltb, ◌==◌, if◌then◌else◌, Expected, value, unexpected,
}
use uefipp.Alignment.{is_power_of_two}
use uefipp.Assembly.Instructions.{Instruction}

pub data AssemblyError : Type 0 where
  invalid_argument allocation_failure invalid_label label_already_bound unbound_label :
      AssemblyError
  invalid_section encoding_failure layout_did_not_converge internal_error : AssemblyError

-- `Label::InvalidId` and `SectionId::InvalidValue`
abbrev pub invalid_id : ℕ
invalid_id = 2 ^ 32 - 1

-- A label target, with the index of the operand that it goes to.
pub record Target : Type 0 where
  pub label : ℕ
  pub operand_index : ℕ

pub data Node : Type 0 where
  instruction_node : Instruction → Option Target → Node
  label_node : ℕ → Node
  data_node : List ℕ → Node
  align_node : ℕ → ℕ → Node

pub data SectionKind : Type 0 where
  text read_only_data writable_data custom : SectionKind

pub record Section : Type 0 where
  pub id : ℕ
  pub kind : SectionKind
  pub name : List ℕ
  pub alignment : ℕ
  pub nodes : List Node

pub record LabelState : Type 0 where
  pub bound : Bool
  pub section : ℕ

pub record Program : Type 0 where
  pub sections : List Section
  pub labels : List LabelState
  pub current : ℕ

-- `Section::Section`
abbrev pub new_section : ℕ → SectionKind → List ℕ → ℕ → Section
new_section id kind name alignment = record {
  id = id;
  kind = kind;
  name = name;
  alignment = if alignment == 0 then 1 else alignment;
  nodes = [];
}

-- `.text`
abbrev pub text_name : List ℕ
text_name = 0x2e ∷ 0x74 ∷ 0x65 ∷ 0x78 ∷ 0x74 ∷ []

pub new_program : Bool → Program
new_program true = record {
  sections = new_section 0 SectionKind.text text_name 16 ∷ [];
  labels = [];
  current = 0;
}
new_program false = record { sections = []; labels = []; current = invalid_id }

abbrev pub refuse {ℓ} : {A : Type ℓ} → Program → AssemblyError → Program × Expected AssemblyError A
refuse p e = (p, unexpected e)

pub create_section : Bool → SectionKind → List ℕ → ℕ → Program → Program × Expected AssemblyError ℕ
create_section memory kind name alignment p =
    if alignment == 0 || not (is_power_of_two alignment) || leb invalid_id (length p.sections)
    then refuse p AssemblyError.invalid_argument
    else if memory
    then (
      record p {
        sections = p.sections ++ new_section (length p.sections) kind name alignment ∷ [];
      },
      value (length p.sections),
    )
    else refuse p AssemblyError.allocation_failure

-- `SectionById(Id)` is not null.
abbrev pub has_section : Program → ℕ → Bool
has_section p id = not (id == invalid_id) && ltb id (length p.sections)

pub switch_section : ℕ → Program → Program × Bool
switch_section id p = if has_section p id then (record p { current = id }, true) else (p, false)

pub create_label : Bool → Program → Program × Expected AssemblyError ℕ
create_label memory p =
    if leb invalid_id (length p.labels)
    then refuse p AssemblyError.allocation_failure
    else if memory
    then (
      record p { labels = p.labels ++ record { bound = false; section = invalid_id } ∷ [] },
      value (length p.labels),
    )
    else refuse p AssemblyError.allocation_failure

abbrev pub is_label_valid : Program → ℕ → Bool
is_label_valid p l = not (l == invalid_id) && ltb l (length p.labels)

abbrev pub bound_at : List LabelState → ℕ → Bool
bound_at [] n = false
bound_at (x ∷ xs) zero = x.bound
bound_at (x ∷ xs) (suc n) = bound_at xs n

pub is_label_bound : Program → ℕ → Bool
is_label_bound p l = is_label_valid p l && bound_at p.labels l

abbrev pub set_label : List LabelState → ℕ → LabelState → List LabelState
set_label [] n y = []
set_label (x ∷ xs) zero y = y ∷ xs
set_label (x ∷ xs) (suc n) y = x ∷ set_label xs n y

-- `Current->Append(Node)`, where the section is there.
abbrev pub appended : List Section → ℕ → Node → List Section
appended [] n node = []
appended (s ∷ ss) zero node = record s { nodes = s.nodes ++ node ∷ [] } ∷ ss
appended (s ∷ ss) (suc n) node = s ∷ appended ss n node

-- `Current->Nodes().Size()`
abbrev pub node_count : List Section → ℕ → ℕ
node_count [] n = 0
node_count (s ∷ ss) zero = length s.nodes
node_count (s ∷ ss) (suc n) = node_count ss n

abbrev pub with_node : Program → Node → Program
with_node p node = record p { sections = appended p.sections p.current node }

-- The end of the operations that append: the value is the index of the node.
abbrev pub append_node : Bool → Node → Program → Program × Expected AssemblyError ℕ
append_node memory node p =
    if memory
    then (with_node p node, value (node_count p.sections p.current))
    else refuse p AssemblyError.allocation_failure

pub bind_label : Bool → ℕ → Program → Program × Expected AssemblyError (Unit {0})
bind_label memory l p =
    if not (is_label_valid p l)
    then refuse p AssemblyError.invalid_label
    else if bound_at p.labels l
    then refuse p AssemblyError.label_already_bound
    else if not (has_section p p.current)
    then refuse p AssemblyError.invalid_section
    else if memory
    then (
      record (with_node p (label_node l)) {
        labels = set_label p.labels l (record { bound = true; section = p.current });
      },
      value tt,
    )
    else refuse p AssemblyError.allocation_failure

pub append_instruction : Bool → Instruction → Program → Program × Expected AssemblyError ℕ
append_instruction memory i p =
    if not (has_section p p.current)
    then refuse p AssemblyError.invalid_section
    else append_node memory (instruction_node i none) p

pub append_to_label : Bool → Instruction → ℕ → ℕ → Program → Program × Expected AssemblyError ℕ
append_to_label memory i l operand_index p =
    if not (is_label_valid p l)
    then refuse p AssemblyError.invalid_label
    else if not (has_section p p.current)
    then refuse p AssemblyError.invalid_section
    else if leb (length i.operands) operand_index
    then refuse p AssemblyError.invalid_argument
    else append_node memory
        (instruction_node i (some (record { label = l; operand_index = operand_index }))) p

-- `none` is a span without data.
pub append_data : Bool → Option (List ℕ) → Program → Program × Expected AssemblyError ℕ
append_data memory none p = refuse p AssemblyError.invalid_argument
append_data memory (some bytes) p =
    if not (has_section p p.current)
    then refuse p AssemblyError.invalid_section
    else append_node memory (data_node bytes) p

pub align : Bool → ℕ → ℕ → Program → Program × Expected AssemblyError ℕ
align memory alignment fill p =
    if alignment == 0 || not (is_power_of_two alignment)
    then refuse p AssemblyError.invalid_argument
    else if not (has_section p p.current)
    then refuse p AssemblyError.invalid_section
    else append_node memory (align_node alignment fill) p
