-- ===== src/Assembly/Layout/Assembling/Progress.antt =====
-- What can still fail in Assemble once the passes have settled.
use uefipp.Base.{
  ℕ, ◌+◌, ◌^◌, ◌%◌, ◌≡◌, refl, ap, ◌∙◌, Bool, true, false, ◌||◌, Option, some, List, [], ◌∷◌, ◌++◌,
  length, get_or, drop, replicate, ◌==◌, Expected, value, ◌>>=◌, arith,
}
use mathlib.Core.Path.{subst}
use uefipp.Alignment.{align_up}
use uefipp.Assembly.Instructions.{Instruction}
use uefipp.Assembly.Programs.{
  AssemblyError, Target, Node, instruction_node, label_node, data_node, align_node, Section,
  Program,
}
use uefipp.Assembly.Layout.{
  maximum_length, placed_size, noted, layout_nodes, layout_sections, compute_layout, resolve,
  Relocation, Backend, Grants, maximum_label_id, invalid_address,
}
use uefipp.Assembly.Layout.Assembling.{
  Output, AssembledCode, Measured, measured_first, encoded, encode_size, node_size, measure_nodes,
  measure_sections, relocations_of, push_relocations, recorded, write_encoded, write_resolved,
  write_instruction, write_node, write_nodes, write_sections, write_code, section_table, settle,
  assemble,
}
use uefipp.Assembly.Layout.Assembling.Settled.{bind_value, value_injective, settle-IsSettled}
use uefipp.Assembly.Layout.Assembling.Images.{encoded_some}

-- An encoding that fits in the most room is found in no more room than it takes.
abbrev pub IsExact : Backend → Type 0
IsExact b =
    (i : Instruction) (address : ℕ) (bytes : List ℕ)
    → b.encode i maximum_length address ≡ some bytes
    → b.encode i (length bytes) address ≡ some bytes

-- Every allocation succeeds.
pub record GrantsAll (g : Grants) : Type 0 where
  pub of_vectors : g.vectors ≡ true
  pub of_buffer : (n : ℕ) → g.buffer n ≡ true
  pub of_table : g.section_table ≡ true
  pub of_relocation : (n : ℕ) → g.relocation n ≡ true

abbrev pub Succeeds : {A : Type 0} → Expected AssemblyError A → Type 0
Succeeds {A = A} m = (a : A) × (m ≡ value a)

bind-Succeeds :
    {A B : Type 0} (m : Expected AssemblyError A) (k : A → Expected AssemblyError B)
    → Succeeds m
    → ((a : A) → Succeeds (k a))
    → Succeeds (m >>= k)
bind-Succeeds m k (a, e) h = rw e (h a)

push_relocations-Succeeds :
    (grants : ℕ → Bool) (xs done : List Relocation)
    → ((n : ℕ) → grants n ≡ true)
    → Succeeds (push_relocations grants xs done)
unfolding push_relocations
push_relocations-Succeeds grants [] done h = (done, refl)
push_relocations-Succeeds grants (x ∷ xs) done h =
    rw (h (length done)) (push_relocations-Succeeds grants xs (done ++ x ∷ []) h)

parts_of :
    (x : List ℕ) (xs : List (List ℕ)) (all : List (List ℕ))
    → x ∷ xs ≡ all
    → (x ≡ get_or all 0 []) × (xs ≡ drop 1 all)
parts_of x xs all e = (ap (λ all. get_or all 0 []) e, ap (λ all. drop 1 all) e)

same_number : (n : ℕ) → (n == n) ≡ true
same_number n = ground arith

module _ (b : Backend) (g : Grants) (exact : IsExact b) (grants : GrantsAll g) (base : ℕ)
    (addresses : List ℕ) where
  write_encoded-Succeeds :
      (t : Option Target) (offset : ℕ) (out : Output) (r : Instruction) (bytes : List ℕ)
      → Succeeds (write_encoded b g base addresses t offset (length bytes) out r bytes)
  unfolding write_encoded
  write_encoded-Succeeds t offset out r bytes =
      let relocations =
        relocations_of addresses offset r t (b.decode bytes ((base + offset) % 2 ^ 64)) in
      rw (same_number (length bytes)) (
        bind-Succeeds (push_relocations g.relocation relocations out.relocations)
          (λ relocations. value (recorded offset out bytes relocations))
          (push_relocations-Succeeds g.relocation relocations out.relocations grants.of_relocation)
          (λ relocations. (recorded offset out bytes relocations, refl)))

  write_instruction-Succeeds :
      (i : Instruction) (t : Option Target) (offset x y : ℕ) (out : Output)
      → node_size b base addresses (instruction_node i t) offset x ≡ value y
      → Succeeds (write_instruction b g base addresses i t offset y out)
  unfolding write_instruction write_resolved
  write_instruction-Succeeds i t offset x y out e =
      let (r, (er, e1)) =
        bind_value (resolve addresses i t) (λ r. encode_size b base addresses r offset) y e in
      let found = b.encode r maximum_length ((base + offset) % 2 ^ 64) in
      let (bytes, (eb, e2)) = bind_value (encoded found) (λ bytes. value (length bytes)) y e1 in
      let fits = exact r ((base + offset) % 2 ^ 64) bytes (encoded_some found bytes eb) in
      let sized : length bytes ≡ y = value_injective (length bytes) y e2 in
      subst (λ y. Succeeds (write_instruction b g base addresses i t offset y out)) sized
        (rw (er, fits) (write_encoded-Succeeds t offset out r bytes))

  write_node-Succeeds :
      (n : Node) (offset x : ℕ) (out : Output)
      → node_size b base addresses n offset x ≡ value x
      → Succeeds (write_node b g base addresses n offset (placed_size n offset x) out)
  unfolding write_node
  write_node-Succeeds (instruction_node i t) offset x out e =
      write_instruction-Succeeds i t offset x x out e
  write_node-Succeeds (label_node l) offset x out e = (out, refl)
  write_node-Succeeds (data_node bytes) offset x out e = (_, refl)
  write_node-Succeeds (align_node a fill) offset x out e = (_, refl)

  write_nodes-Succeeds :
      (ns : List Node) (sizes : List ℕ) (c : ℕ) (a : List ℕ) (out : Output) (m : Measured ℕ)
      → m.sizes ≡ sizes
      → measure_nodes b base addresses ns sizes (layout_nodes base ns sizes c a).made ≡ value m
      → Succeeds (write_nodes b g base addresses ns (layout_nodes base ns sizes c a).made out)
  unfolding measure_nodes write_nodes layout_nodes
  write_nodes-Succeeds [] sizes c a out m s e = (out, refl)
  write_nodes-Succeeds (n ∷ ns) [] c a out m s e =
      let places =
        (layout_nodes base ns [] ((c + placed_size n c 0) % 2 ^ 64) (noted base n c a)).made in
      let (size, (_, e2)) =
        bind_value (node_size b base addresses n c 0)
          (λ size. measure_nodes b base addresses ns [] places >>= λ rest.
            value (measured_first 0 size rest))
          m e in
      let (rest, (_, e4)) =
        bind_value (measure_nodes b base addresses ns [] places)
          (λ rest. value (measured_first 0 size rest)) m e2 in
      cc (value_injective (measured_first 0 size rest) m e4, s)
  write_nodes-Succeeds (n ∷ ns) (x ∷ xs) c a out m s e =
      let next = (c + placed_size n c x) % 2 ^ 64 in
      let places = (layout_nodes base ns xs next (noted base n c a)).made in
      let (size, (e1, e2)) =
        bind_value (node_size b base addresses n c x)
          (λ size. measure_nodes b base addresses ns xs places >>= λ rest.
            value (measured_first x size rest))
          m e in
      let (rest, (e3, e4)) =
        bind_value (measure_nodes b base addresses ns xs places)
          (λ rest. value (measured_first x size rest)) m e2 in
      let given = value_injective (measured_first x size rest) m e4 in
      let same : size ≡ x = cc (given, s) in
      let others : rest.sizes ≡ xs = cc (given, s) in
      bind-Succeeds (write_node b g base addresses n c (placed_size n c x) out)
        (write_nodes b g base addresses ns places)
        (write_node-Succeeds n c x out (e1 ∙ ap (λ y. value y) same))
        (λ out. write_nodes-Succeeds ns xs next (noted base n c a) out rest others e3)

  write_sections-Succeeds :
      (ss : List Section) (sizes : List (List ℕ)) (c : ℕ) (a : List ℕ) (out : Output)
      (m : Measured (List ℕ))
      → m.sizes ≡ sizes
      → measure_sections b base addresses ss sizes (layout_sections base ss sizes c a).made
        ≡ value m
      → Succeeds (write_sections b g base addresses ss (layout_sections base ss sizes c a).made out)
  unfolding measure_sections write_sections layout_sections
  write_sections-Succeeds [] sizes c a out m s e = (out, refl)
  write_sections-Succeeds (x ∷ ss) sizes c a out m s e =
      let own_sizes = get_or sizes 0 [] in
      let start = align_up c x.alignment in
      let own = layout_nodes base x.nodes own_sizes start a in
      let places = (layout_sections base ss (drop 1 sizes) own.cursor own.addresses).made in
      let both : Measured ℕ → Measured (List ℕ) → Measured (List ℕ) = λ own rest. record {
        sizes = own.sizes ∷ rest.sizes;
        changed = own.changed || rest.changed;
      } in
      let (first, (e1, e2)) =
        bind_value (measure_nodes b base addresses x.nodes own_sizes own.made)
          (λ own. measure_sections b base addresses ss (drop 1 sizes) places >>= λ rest.
            value (both own rest))
          m e in
      let (rest, (e3, e4)) =
        bind_value (measure_sections b base addresses ss (drop 1 sizes) places)
          (λ rest. value (both first rest)) m e2 in
      let (same, others) =
        parts_of first.sizes rest.sizes sizes
          (ap (λ (m : Measured (List ℕ)). m.sizes) (value_injective (both first rest) m e4) ∙ s) in
      bind-Succeeds (write_nodes b g base addresses x.nodes own.made out)
        (write_sections b g base addresses ss places)
        (write_nodes-Succeeds x.nodes own_sizes start a out first same e1)
        (λ out.
          write_sections-Succeeds ss (drop 1 sizes) own.cursor own.addresses out rest others e3)

-- Once the passes of Assemble have settled, and unless an allocation fails, the code is returned, if
-- the encoder finds an encoding in the room that the encoding takes.
pub assemble_succeeds :
    (b : Backend) (g : Grants) (base : ℕ) (p : Program) (sizes : List (List ℕ))
    → IsExact b
    → GrantsAll g
    → settle b base p ≡ value sizes
    → (length p.sections == 0) ≡ false
    → (code : AssembledCode) × (assemble b g base p ≡ value code)
unfolding assemble write_code compute_layout
assemble_succeeds b g base p sizes exact grants h full =
    let laid = compute_layout base (maximum_label_id p.sections 0) p.sections sizes in
    let settled = settle-IsSettled b base p sizes h in
    let start : Output = record { bytes = replicate laid.cursor 0; relocations = [] } in
    let (out, written) =
      write_sections-Succeeds b g exact grants base laid.addresses p.sections sizes 0
        (replicate (maximum_label_id p.sections 0) invalid_address) start
        (record { sizes = sizes; changed = false }) refl settled.again in
    (
      record {
        bytes = out.bytes;
        sections = section_table p.sections laid.made;
        relocations = out.relocations;
        base_address = base;
      },
      rw (full, grants.of_vectors, h, grants.of_buffer laid.cursor, grants.of_table, written) refl,
    )
