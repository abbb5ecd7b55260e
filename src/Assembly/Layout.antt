-- ===== src/Assembly/Layout.antt =====
-- Assembler::Assemble of UEFIpp/Source/Architecture/X64/Assembly/Assembler.cpp. `NodeSizes`, a vector
-- over the nodes of all sections, is a list for each section. The encoder and the decoder, which
-- call Zydis, are parameters.
pub mod Assembling
use uefipp.Base.{
  ℕ, zero, suc, ◌+◌, ◌-◌, ◌^◌, ◌%◌, Bool, true, false, not, ◌&&◌, ◌||◌, Option, none, some, List,
  [], ◌∷◌, ◌++◌, length, get_elem?, get_or, take, drop, replicate, max, leb, ltb, ◌==◌,
  if◌then◌else◌, Expected, value, unexpected, ◌>>=◌, ◌>>◌, require,
}
use uefipp.Alignment.{align_up}
use uefipp.Assembly.Instructions.{
  Instruction, Operand, Immediate, MemoryOperand, immediate, memory, register, pointer, unused,
  relative, operand_replaced,
}
use uefipp.Assembly.Programs.{
  AssemblyError, invalid_id, Target, Node, instruction_node, label_node, data_node, align_node,
  SectionKind, Section, Program,
}

abbrev pub invalid_address : ℕ
invalid_address = 2 ^ 64 - 1

-- `DecodedInstruction::MaximumLength`
abbrev pub maximum_length : ℕ
maximum_length = 15

-- FindMaximumLabelId, in 32 bits.
abbrev pub after_id : ℕ → ℕ → ℕ
after_id l maximum = if l == invalid_id then maximum else max maximum ((l + 1) % 2 ^ 32)

abbrev pub node_maximum : Node → ℕ → ℕ
node_maximum (instruction_node i none) m = m
node_maximum (instruction_node i (some t)) m = after_id t.label m
node_maximum (label_node l) m = after_id l m
node_maximum (data_node bytes) m = m
node_maximum (align_node a fill) m = m

abbrev pub nodes_maximum : List Node → ℕ → ℕ
nodes_maximum [] m = m
nodes_maximum (n ∷ ns) m = nodes_maximum ns (node_maximum n m)

pub maximum_label_id : List Section → ℕ → ℕ
maximum_label_id [] m = m
maximum_label_id (s ∷ ss) m = maximum_label_id ss (nodes_maximum s.nodes m)

-- `LabelAddresses[l] = address`
abbrev pub set_address : List ℕ → ℕ → ℕ → List ℕ
set_address [] l address = []
set_address (x ∷ xs) zero address = address ∷ xs
set_address (x ∷ xs) (suc l) address = x ∷ set_address xs l address

-- The sizes that the passes start from.
abbrev pub first_size : Node → ℕ
first_size (instruction_node i t) = maximum_length
first_size (data_node bytes) = length bytes
first_size (label_node l) = 0
first_size (align_node a fill) = 0

abbrev pub first_sizes : List Node → List ℕ
first_sizes [] = []
first_sizes (n ∷ ns) = first_size n ∷ first_sizes ns

abbrev pub first_section_sizes : List Section → List (List ℕ)
first_section_sizes [] = []
first_section_sizes (s ∷ ss) = first_sizes s.nodes ∷ first_section_sizes ss

-- `NodeLayout`
pub record Place : Type 0 where
  pub offset : ℕ
  pub size : ℕ

-- `SectionLayout`, with the layouts of the section's nodes.
pub record SectionPlace : Type 0 where
  pub offset : ℕ
  pub size : ℕ
  pub places : List Place

-- `Layout.Size` of a node at the cursor, where `NodeSizes` has the size given.
abbrev pub placed_size : Node → ℕ → ℕ → ℕ
placed_size (label_node l) cursor n = 0
placed_size (align_node a fill) cursor n = (align_up cursor a + 2 ^ 64 - cursor) % 2 ^ 64
placed_size (instruction_node i t) cursor n = n
placed_size (data_node bytes) cursor n = n

abbrev pub noted : ℕ → Node → ℕ → List ℕ → List ℕ
noted base (label_node l) cursor addresses =
    if not (l == invalid_id) && ltb l (length addresses)
    then set_address addresses l ((base + cursor) % 2 ^ 64)
    else addresses
noted base (instruction_node i t) cursor addresses = addresses
noted base (data_node bytes) cursor addresses = addresses
noted base (align_node a fill) cursor addresses = addresses

-- What ComputeLayout has so far: the cursor and `LabelAddresses`, and the layouts made.
pub record Laid (P : Type 0) : Type 0 where
  pub cursor : ℕ
  pub addresses : List ℕ
  pub made : List P

pub layout_nodes : ℕ → List Node → List ℕ → ℕ → List ℕ → Laid Place
layout_nodes base [] sizes cursor addresses = record {
  cursor = cursor;
  addresses = addresses;
  made = [];
}
layout_nodes base (n ∷ ns) sizes cursor addresses =
    let size = placed_size n cursor (get_or sizes 0 0) in
    let rest =
      layout_nodes base ns (drop 1 sizes) ((cursor + size) % 2 ^ 64)
        (noted base n cursor addresses) in
    record rest { made = record { offset = cursor; size = size } ∷ rest.made }

pub layout_sections : ℕ → List Section → List (List ℕ) → ℕ → List ℕ → Laid SectionPlace
unfolding layout_nodes
layout_sections base [] sizes cursor addresses = record {
  cursor = cursor;
  addresses = addresses;
  made = [];
}
layout_sections base (s ∷ ss) sizes cursor addresses =
    let start = align_up cursor s.alignment in
    let own = layout_nodes base s.nodes (get_or sizes 0 []) start addresses in
    let rest = layout_sections base ss (drop 1 sizes) own.cursor own.addresses in
    record rest {
      made =
          record {
            offset = start;
            size = (own.cursor + 2 ^ 64 - start) % 2 ^ 64;
            places = own.made;
          }
          ∷ rest.made;
    }

-- ComputeLayout
pub compute_layout : ℕ → ℕ → List Section → List (List ℕ) → Laid SectionPlace
unfolding layout_sections
compute_layout base label_count sections sizes =
    layout_sections base sections sizes 0 (replicate label_count invalid_address)

-- ResolveInstruction. An operand of another kind, or none, is an InternalError.
abbrev pub retargeted : Instruction → Target → ℕ → Expected AssemblyError Instruction
retargeted i t address = elim (get_elem? i.operands t.operand_index) [
  | some (immediate x size) ↦ value (record i {
    operands = operand_replaced i.operands t.operand_index (immediate (relative address) size);
  })
  | _ ↦ unexpected AssemblyError.internal_error
]

pub resolve : List ℕ → Instruction → Option Target → Expected AssemblyError Instruction
resolve addresses i none = value i
resolve addresses i (some t) =
    if t.label == invalid_id
      || leb (length addresses) t.label
      || (get_or addresses t.label 0 == invalid_address)
    then unexpected AssemblyError.unbound_label
    else retargeted i t (get_or addresses t.label 0)

-- RelativeRelocationKind and AbsoluteRelocationKind.
pub data RelocationKind : Type 0 where
  relative_8 relative_16 relative_32 relative_64 rip_relative_32 : RelocationKind
  absolute_8 absolute_16 absolute_32 absolute_64 : RelocationKind

pub relative_kind : ℕ → RelocationKind
relative_kind bits =
    if bits == 8
    then relative_8
    else if bits == 16
    then relative_16
    else if bits == 64
    then relative_64
    else relative_32

pub absolute_kind : ℕ → RelocationKind
absolute_kind bits =
    if bits == 8
    then absolute_8
    else if bits == 16
    then absolute_16
    else if bits == 32
    then absolute_32
    else absolute_64

-- `internal` is a RelocationTargetKind: a label of the program, or else an absolute address. The
-- addend, always 0, is left out.
pub record Relocation : Type 0 where
  pub offset : ℕ
  pub kind : RelocationKind
  pub internal : Bool
  pub target : ℕ

-- What RawEncodingInfo says of the immediates and the displacement of a decoded instruction.
pub record RawImmediate : Type 0 where
  pub offset : ℕ
  pub size_in_bits : ℕ
  pub is_relative : Bool

pub record RawEncoding : Type 0 where
  pub immediates : List RawImmediate
  pub displacement_offset : ℕ
  pub displacement_size_in_bits : ℕ

-- Encoder::Encode, which gives the bytes that it wrote in so much room at an address, and
-- Disassembly::Decoder::Decode. `grants` tells which allocations succeed: the vectors of the layout,
-- the buffer, the table of sections, and the relocation of a number.
pub record Backend : Type 0 where
  pub encode : Instruction → ℕ → ℕ → Option (List ℕ)
  pub decode : List ℕ → ℕ → Option RawEncoding

pub record Grants : Type 0 where
  pub vectors : Bool
  pub buffer : ℕ → Bool
  pub section_table : Bool
  pub relocation : ℕ → Bool
