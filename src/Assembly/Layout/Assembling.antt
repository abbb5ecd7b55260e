-- ===== src/Assembly/Layout/Assembling.antt =====
-- The passes of Assembler::Assemble in UEFIpp/Source/Architecture/X64/Assembly/Assembler.cpp, and what
-- it writes once the layout is settled.
pub mod Settled
pub mod Images
pub mod Written
pub mod Labels
pub mod Placed
pub mod Whole
pub mod Progress
mod Tests
use uefipp.Base.{
  ℕ, zero, suc, ◌+◌, ◌-◌, ◌^◌, ◌%◌, Bool, true, false, not, ◌&&◌, ◌||◌, Option, none, some, List,
  [], ◌∷◌, ◌++◌, length, get_elem?, get_or, take, drop, replicate, ltb, ◌==◌, if◌then◌else◌,
  Expected, value, unexpected, ◌>>=◌, ◌>>◌, require,
}
use uefipp.Assembly.Instructions.{
  Instruction, Operand, Immediate, MemoryOperand, immediate, memory, register, pointer, unused,
}
use uefipp.Assembly.Programs.{
  AssemblyError, Target, Node, instruction_node, label_node, data_node, align_node, SectionKind,
  Section, Program,
}
use uefipp.Assembly.Layout.{
  maximum_length, maximum_label_id, first_section_sizes, Place, SectionPlace, Laid, compute_layout,
  resolve, RelocationKind, rip_relative_32, relative_kind, absolute_kind, Relocation, RawImmediate,
  RawEncoding, Backend, Grants,
}

-- `AssembledSection` and `AssembledCode`.
pub record AssembledSection : Type 0 where
  pub id : ℕ
  pub kind : SectionKind
  pub offset : ℕ
  pub size : ℕ
  pub alignment : ℕ

pub record AssembledCode : Type 0 where
  pub bytes : List ℕ
  pub sections : List AssembledSection
  pub relocations : List Relocation
  pub base_address : ℕ

-- What the last loop has written.
pub record Output : Type 0 where
  pub bytes : List ℕ
  pub relocations : List Relocation

abbrev pub encoded : Option (List ℕ) → Expected AssemblyError (List ℕ)
encoded none = unexpected AssemblyError.encoding_failure
encoded (some bytes) = value bytes

-- What a pass has measured: the sizes, and `Changed`.
pub record Measured (S : Type 0) : Type 0 where
  pub sizes : List S
  pub changed : Bool

-- The heads of the lists are the size and the layout of the node, `size` is the new size.
abbrev pub measured_first : ℕ → ℕ → Measured ℕ → Measured ℕ
measured_first old size m = record {
  sizes = size ∷ m.sizes;
  changed = not (old == size) || m.changed;
}

abbrev pub offset_of : List Place → ℕ
offset_of [] = 0
offset_of (x ∷ xs) = x.offset

abbrev pub size_of : List Place → ℕ
size_of [] = 0
size_of (x ∷ xs) = x.size

abbrev pub places_of : List SectionPlace → List Place
places_of [] = []
places_of (x ∷ xs) = x.places

module _ (b : Backend) (base : ℕ) (addresses : List ℕ) where
  -- EncodeSize, at the address of an offset.
  abbrev pub encode_size : Instruction → ℕ → Expected AssemblyError ℕ
  encode_size i offset = encoded (b.encode i maximum_length ((base + offset) % 2 ^ 64)) >>= λ bytes.
      value (length bytes)

  abbrev pub node_size : Node → ℕ → ℕ → Expected AssemblyError ℕ
  node_size (instruction_node i t) offset n = resolve addresses i t >>= λ r. encode_size r offset
  node_size (label_node l) offset n = value n
  node_size (data_node bytes) offset n = value n
  node_size (align_node a fill) offset n = value n

  pub measure_nodes : List Node → List ℕ → List Place → Expected AssemblyError (Measured ℕ)
  measure_nodes [] sizes places = value (record { sizes = []; changed = false })
  measure_nodes (n ∷ ns) sizes places =
      node_size n (offset_of places) (get_or sizes 0 0) >>= λ size.
      measure_nodes ns (drop 1 sizes) (drop 1 places) >>= λ m.
      value (measured_first (get_or sizes 0 0) size m)

  pub measure_sections :
      List Section → List (List ℕ) → List SectionPlace → Expected AssemblyError (Measured (List ℕ))
  unfolding measure_nodes
  measure_sections [] sizes places = value (record { sizes = []; changed = false })
  measure_sections (s ∷ ss) sizes places =
      measure_nodes s.nodes (get_or sizes 0 []) (places_of places) >>= λ own.
      measure_sections ss (drop 1 sizes) (drop 1 places) >>= λ rest.
      value (record { sizes = own.sizes ∷ rest.sizes; changed = own.changed || rest.changed })

-- `MaximumPasses`
abbrev pub maximum_passes : ℕ
maximum_passes = 32

-- The loop of passes; the value is `NodeSizes` after the pass that changed nothing.
pub converge :
    Backend → ℕ → ℕ → List Section → ℕ → List (List ℕ) → Expected AssemblyError (List (List ℕ))
unfolding measure_sections
converge b base label_count sections zero sizes = unexpected AssemblyError.layout_did_not_converge
converge b base label_count sections (suc passes) sizes =
    let laid = compute_layout base label_count sections sizes in
    measure_sections b base laid.addresses sections sizes laid.made >>= λ m.
    let further = converge b base label_count sections passes m.sizes in
    if m.changed then further else value m.sizes

-- Bytes written over a buffer from an offset on.
abbrev pub overwritten : List ℕ → ℕ → List ℕ → List ℕ
overwritten buffer offset bytes = take offset buffer ++ bytes ++ drop (offset + length bytes) buffer

-- The relocation of the first relative immediate, for an instruction with a label target.
abbrev pub label_relocations : ℕ → ℕ → List RawImmediate → List Relocation
label_relocations offset target [] = []
label_relocations offset target (x ∷ xs) =
    let further = label_relocations offset target xs in
    if x.is_relative && not (x.size_in_bits == 0)
    then record {
      offset = offset + x.offset;
      kind = relative_kind x.size_in_bits;
      internal = true;
      target = target;
    }
      ∷ []
    else further

abbrev pub immediate_relocation : ℕ → Immediate → Option RawImmediate → List Relocation
immediate_relocation offset x none = []
immediate_relocation offset x (some r) =
    if x.has_absolute_address && not (r.size_in_bits == 0)
    then record {
      offset = offset + r.offset;
      kind = if x.is_relative then relative_kind r.size_in_bits else absolute_kind r.size_in_bits;
      internal = false;
      target = x.absolute_address;
    }
      ∷ []
    else []

-- `Registers::Eip` and `Registers::Rip`
abbrev pub is_instruction_pointer : ℕ → Bool
is_instruction_pointer r = r == 197 || r == 196

abbrev pub memory_relocation : ℕ → MemoryOperand → RawEncoding → List Relocation
memory_relocation offset m raw =
    let entry : RelocationKind → List Relocation = λ kind.
      record {
        offset = offset + raw.displacement_offset;
        kind = kind;
        internal = false;
        target = m.absolute_address;
      }
      ∷ [] in
    if m.has_absolute_address && not (raw.displacement_size_in_bits == 0)
    then (if is_instruction_pointer m.base
        then entry rip_relative_32
        else if m.base == 0 && m.index == 0
        then entry (absolute_kind raw.displacement_size_in_bits)
        else [])
    else []

-- The loop over the operands; `index` is `ImmediateIndex`.
abbrev pub operand_relocations : ℕ → RawEncoding → List Operand → ℕ → List Relocation
operand_relocations offset raw [] index = []
operand_relocations offset raw (immediate x size ∷ xs) index =
    immediate_relocation offset x (get_elem? raw.immediates index)
    ++ operand_relocations offset raw xs (index + 1)
operand_relocations offset raw (memory m ∷ xs) index =
    memory_relocation offset m raw ++ operand_relocations offset raw xs index
operand_relocations offset raw (unused ∷ xs) index = operand_relocations offset raw xs index
operand_relocations offset raw (register r size ∷ xs) index =
    operand_relocations offset raw xs index
operand_relocations offset raw (pointer g o ∷ xs) index = operand_relocations offset raw xs index

abbrev pub relocations_of :
    List ℕ → ℕ → Instruction → Option Target → Option RawEncoding → List Relocation
relocations_of addresses offset r t none = []
relocations_of addresses offset r (some t) (some raw) =
    label_relocations offset (get_or addresses t.label 0) raw.immediates
relocations_of addresses offset r none (some raw) = operand_relocations offset raw r.operands 0

-- `Relocations_.PushBack`, one after the other.
pub push_relocations :
    (ℕ → Bool) → List Relocation → List Relocation → Expected AssemblyError (List Relocation)
push_relocations grants [] done = value done
push_relocations grants (x ∷ xs) done =
    let further = push_relocations grants xs (done ++ x ∷ []) in
    if grants (length done) then further else unexpected AssemblyError.allocation_failure

abbrev pub recorded : ℕ → Output → List ℕ → List Relocation → Output
recorded offset out bytes relocations = record {
  bytes = overwritten out.bytes offset bytes;
  relocations = relocations;
}

module _ (b : Backend) (g : Grants) (base : ℕ) (addresses : List ℕ) where
  pub write_encoded :
      Option Target → ℕ → ℕ → Output → Instruction → List ℕ → Expected AssemblyError Output
  unfolding push_relocations
  write_encoded t offset size out r bytes =
      require (length bytes == size) AssemblyError.encoding_failure
      >> push_relocations g.relocation
          (relocations_of addresses offset r t (b.decode bytes ((base + offset) % 2 ^ 64)))
          out.relocations
      >>= λ relocations. value (recorded offset out bytes relocations)

  pub write_resolved : Option Target → ℕ → ℕ → Output → Instruction → Expected AssemblyError Output
  unfolding write_encoded
  write_resolved t offset size out r =
      encoded (b.encode r size ((base + offset) % 2 ^ 64)) >>= write_encoded t offset size out r

  pub write_instruction :
      Instruction → Option Target → ℕ → ℕ → Output → Expected AssemblyError Output
  unfolding write_resolved
  write_instruction i t offset size out = resolve addresses i t >>= write_resolved t offset size out

  pub write_node : Node → ℕ → ℕ → Output → Expected AssemblyError Output
  unfolding write_instruction
  write_node (instruction_node i t) offset size out = write_instruction i t offset size out
  write_node (data_node bytes) offset size out =
      value (record out { bytes = overwritten out.bytes offset bytes })
  write_node (align_node a fill) offset size out =
      value (record out { bytes = overwritten out.bytes offset (replicate size fill) })
  write_node (label_node l) offset size out = value out

  pub write_nodes : List Node → List Place → Output → Expected AssemblyError Output
  unfolding write_node
  write_nodes [] places out = value out
  write_nodes (n ∷ ns) places out = write_node n (offset_of places) (size_of places) out >>= λ next.
      write_nodes ns (drop 1 places) next

  pub write_sections : List Section → List SectionPlace → Output → Expected AssemblyError Output
  unfolding write_nodes
  write_sections [] places out = value out
  write_sections (s ∷ ss) places out =
      write_nodes s.nodes (places_of places) out >>= λ next. write_sections ss (drop 1 places) next

abbrev pub section_table : List Section → List SectionPlace → List AssembledSection
section_table [] places = []
section_table (s ∷ ss) [] = []
section_table (s ∷ ss) (x ∷ xs) =
    record { id = s.id; kind = s.kind; offset = x.offset; size = x.size; alignment = s.alignment }
    ∷ section_table ss xs

-- The sizes that the passes settle on.
pub settle : Backend → ℕ → Program → Expected AssemblyError (List (List ℕ))
unfolding converge
settle b base p =
    converge b base (maximum_label_id p.sections 0) p.sections maximum_passes
      (first_section_sizes p.sections)

module _ (b : Backend) (g : Grants) (base : ℕ) (p : Program) where
  -- From the settled sizes on.
  pub write_code : Laid SectionPlace → Expected AssemblyError AssembledCode
  unfolding write_sections
  write_code laid =
      require (g.buffer laid.cursor) AssemblyError.allocation_failure
      >> require g.section_table AssemblyError.allocation_failure
      >> write_sections b g base laid.addresses p.sections laid.made
          (record { bytes = replicate laid.cursor 0; relocations = [] })
      >>= λ out. value (record {
        bytes = out.bytes;
        sections = section_table p.sections laid.made;
        relocations = out.relocations;
        base_address = base;
      })

  pub assemble : Expected AssemblyError AssembledCode
  unfolding settle write_code
  assemble =
      require (not (length p.sections == 0)) AssemblyError.invalid_section
      >> require g.vectors AssemblyError.allocation_failure
      >> settle b base p
      >>= λ sizes. write_code (compute_layout base (maximum_label_id p.sections 0) p.sections sizes)
