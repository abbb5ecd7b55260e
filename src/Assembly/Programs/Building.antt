-- ===== src/Assembly/Programs/Building.antt =====
-- Each operation of Program, on every branch.
use uefipp.Base.{
  ℕ, ◌≡◌, refl, Bool, true, false, not, ◌||◌, Option, none, some, List, [], ◌∷◌, ◌++◌, length, leb,
  ◌==◌, if◌then◌else◌, Expected, value, arith, Bool-cases, inl, inr,
}
use uefipp.Alignment.{is_power_of_two}
use uefipp.Assembly.Instructions.{Instruction}
use uefipp.Assembly.Programs.{
  AssemblyError, invalid_id, Node, instruction_node, label_node, data_node, align_node, SectionKind,
  Program, new_section, refuse, create_section, has_section, switch_section, create_label,
  is_label_valid, bound_at, set_label, with_node, append_node, bind_label, append_instruction,
  append_to_label, append_data, align,
}
use uefipp.Assembly.Programs.Bound.{own_labels}
use uefipp.Assembly.Programs.Soundness.{IsNode, IsSound, label_exists, with_node-IsSound}
use uefipp.Assembly.Programs.Growing.{new_section-IsSound, new_label-IsSound, bound-IsSound}

-- A guard that refuses leaves the program.
unless_refused {ℓ} :
    {A : Type ℓ} (b : Bool) (e : AssemblyError) (p : Program)
    (q : Program × Expected AssemblyError A)
    → IsSound p
    → (b ≡ false → IsSound q.0)
    → IsSound (if b then refuse p e else q).0
unless_refused true e p q h k = h
unless_refused false e p q h k = k refl

if_granted {ℓ} :
    {A : Type ℓ} (memory : Bool) (e : AssemblyError) (p : Program)
    (q : Program × Expected AssemblyError A)
    → IsSound p
    → IsSound q.0
    → IsSound (if memory then q else refuse p e).0
if_granted true e p q h k = k
if_granted false e p q h k = h

not-false : (b : Bool) → not b ≡ false → b ≡ true
not-false true h = refl
not-false false h = cc h

append_node-IsSound :
    (memory : Bool) (x : Node) (p : Program)
    → IsSound p
    → IsSound (with_node p x)
    → IsSound (append_node memory x p).0
append_node-IsSound true x p h k = k
append_node-IsSound false x p h k = h

module _ (p : Program) (h : IsSound p) where
  pub create_section-IsSound :
      (memory : Bool) (kind : SectionKind) (name : List ℕ) (alignment : ℕ)
      → IsSound (create_section memory kind name alignment p).0
  unfolding create_section
  create_section-IsSound memory kind name alignment =
      unless_refused
        (alignment == 0 || not (is_power_of_two alignment) || leb invalid_id (length p.sections))
        AssemblyError.invalid_argument p
        (if memory
          then (
            record p {
              sections = p.sections ++ new_section (length p.sections) kind name alignment ∷ [];
            },
            value (length p.sections),
          )
          else refuse p AssemblyError.allocation_failure)
        h
        (λ e.
          if_granted memory AssemblyError.allocation_failure p
            (
              record p {
                sections = p.sections ++ new_section (length p.sections) kind name alignment ∷ [];
              },
              value (length p.sections),
            )
            h (new_section-IsSound p h kind name alignment e))

  pub create_label-IsSound : (memory : Bool) → IsSound (create_label memory p).0
  unfolding create_label
  create_label-IsSound memory = elim (Bool-cases (leb invalid_id (length p.labels))) [
    | inl y ↦ rw y h
    | inr n ↦ rw n (
        if_granted memory AssemblyError.allocation_failure p
          (
            record p { labels = p.labels ++ record { bound = false; section = invalid_id } ∷ [] },
            value (length p.labels),
          )
          h (new_label-IsSound p h (ground arith)))
  ]

  pub switch_section-IsSound : (id : ℕ) → IsSound (switch_section id p).0
  unfolding switch_section
  switch_section-IsSound id = elim (Bool-cases (has_section p id)) [
    | inl y ↦ rw y (record {
      labels_few = h.labels_few;
      sections_few = h.sections_few;
      sections_are = h.sections_are;
      bound_once = h.bound_once;
    })
    | inr n ↦ rw n h
  ]

  -- A node that binds no label, behind the test of the current section.
  in_section :
      (memory : Bool) (x : Node)
      → IsNode (length p.labels) x
      → own_labels x [] ≡ []
      → IsSound
          (if not (has_section p p.current)
            then refuse p AssemblyError.invalid_section
            else append_node memory x p).0
  in_section memory x i e =
      unless_refused (not (has_section p p.current)) AssemblyError.invalid_section p
        (append_node memory x p) h
        (λ n.
          append_node-IsSound memory x p h
            (with_node-IsSound p x h (not-false (has_section p p.current) n) i e))

  pub append_instruction-IsSound :
      (memory : Bool) (i : Instruction) → IsSound (append_instruction memory i p).0
  unfolding append_instruction
  append_instruction-IsSound memory i = in_section memory (instruction_node i none) tt refl

  pub append_data-IsSound :
      (memory : Bool) (bytes : Option (List ℕ)) → IsSound (append_data memory bytes p).0
  unfolding append_data
  append_data-IsSound memory none = h
  append_data-IsSound memory (some bytes) = in_section memory (data_node bytes) tt refl

  pub align-IsSound :
      (memory : Bool) (alignment fill : ℕ) → IsSound (align memory alignment fill p).0
  unfolding align
  align-IsSound memory alignment fill =
      elim (Bool-cases (alignment == 0 || not (is_power_of_two alignment))) [
        | inl y ↦ rw y h
        | inr n ↦ rw n (in_section memory (align_node alignment fill) (ground arith) refl)
      ]

  pub append_to_label-IsSound :
      (memory : Bool) (i : Instruction) (l operand_index : ℕ)
      → IsSound (append_to_label memory i l operand_index p).0
  unfolding append_to_label
  append_to_label-IsSound memory i l operand_index =
      let x = instruction_node i (some (record { label = l; operand_index = operand_index })) in
      elim (Bool-cases (is_label_valid p l)) [
        | inr n ↦ rw n h
        | inl valid ↦ rw valid (elim (Bool-cases (has_section p p.current)) [
          | inr n ↦ rw n h
          | inl c ↦ rw c (elim (Bool-cases (leb (length i.operands) operand_index)) [
            | inl y ↦ rw y h
            | inr n ↦ rw n (
                append_node-IsSound memory x p h
                  (with_node-IsSound p x h c (label_exists p l valid, ground arith) refl))
          ])
        ])
      ]

  pub bind_label-IsSound : (memory : Bool) (l : ℕ) → IsSound (bind_label memory l p).0
  unfolding bind_label
  bind_label-IsSound memory l = elim (Bool-cases (is_label_valid p l)) [
    | inr n ↦ rw n h
    | inl valid ↦ rw valid (elim (Bool-cases (bound_at p.labels l)) [
      | inl y ↦ rw y h
      | inr unbound ↦ rw unbound (elim (Bool-cases (has_section p p.current)) [
        | inr n ↦ rw n h
        | inl c ↦ rw c (
            if_granted memory AssemblyError.allocation_failure p
              (
                record (with_node p (label_node l)) {
                  labels = set_label p.labels l (record { bound = true; section = p.current });
                },
                value tt,
              )
              h (bound-IsSound p h l valid unbound c))
      ])
    ])
  ]
