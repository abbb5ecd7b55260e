-- ===== src/Assembly/Programs/Soundness.antt =====
-- What every program that is built with the operations of Program keeps.
use uefipp.Base.{
  ℕ, zero, suc, ◌≤◌, ◌<◌, ◌≡◌, refl, ap, Bool, true, false, none, some, List, [], ◌∷◌, length, All,
  All-append, arith,
}
use uefipp.Alignment.{is_power_of_two}
use uefipp.Assembly.Programs.{
  invalid_id, Node, instruction_node, label_node, data_node, align_node, Section, Program,
  has_section, is_label_valid, bound_at, appended, with_node,
}
use uefipp.Assembly.Programs.Bound.{own_labels, labels_of, occurrences, occurrences-appended}

-- With so many labels: a target is one of them and goes to an operand, and an alignment is a power of
-- two.
abbrev pub IsNode : ℕ → Node → Type 0
IsNode labels (instruction_node i none) = Unit {0}
IsNode labels (instruction_node i (some t)) =
    (t.label < labels) × (t.operand_index < length i.operands)
IsNode labels (label_node l) = l < labels
IsNode labels (data_node bytes) = Unit {0}
IsNode labels (align_node a fill) = is_power_of_two a ≡ true

pub record IsSection (labels : ℕ) (s : Section) : Type 0 where
  pub nodes_are : All (IsNode labels) s.nodes
  pub aligned : is_power_of_two s.alignment ≡ true

abbrev pub bit_of : Bool → ℕ
bit_of true = 1
bit_of false = 0

-- Each label that is bound stands in the sections once, and no other label does.
pub record IsSound (p : Program) : Type 0 where
  pub labels_few : length p.labels ≤ invalid_id
  pub sections_few : length p.sections ≤ invalid_id
  pub sections_are : All (IsSection (length p.labels)) p.sections
  pub bound_once : (l : ℕ) → occurrences l (labels_of p.sections) ≡ bit_of (bound_at p.labels l)

module _ (m n : ℕ) (h : m ≤ n) where
  more_labels : (x : Node) → IsNode m x → IsNode n x
  more_labels (instruction_node i none) k = tt
  more_labels (instruction_node i (some t)) k = (omega (arith, h, k.0), k.1)
  more_labels (label_node l) k = omega (arith, h, k)
  more_labels (data_node bytes) k = tt
  more_labels (align_node a fill) k = k

  more_nodes : (ns : List Node) → All (IsNode m) ns → All (IsNode n) ns
  more_nodes [] k = tt
  more_nodes (x ∷ ns) k = (more_labels x k.0, more_nodes ns k.1)

  pub more_sections : (ss : List Section) → All (IsSection m) ss → All (IsSection n) ss
  more_sections [] k = tt
  more_sections (s ∷ ss) k = (
    record { nodes_are = more_nodes s.nodes k.0.nodes_are; aligned = k.0.aligned },
    more_sections ss k.1,
  )

pub length-appended : (ss : List Section) (n : ℕ) (x : Node) → length (appended ss n x) ≡ length ss
length-appended [] n x = refl
length-appended (s ∷ ss) zero x = refl
length-appended (s ∷ ss) (suc n) x = omega (arith, length-appended ss n x)

pub appended-IsSection :
    (k : ℕ) (ss : List Section) (n : ℕ) (x : Node)
    → All (IsSection k) ss
    → IsNode k x
    → All (IsSection k) (appended ss n x)
appended-IsSection k [] n x h i = tt
appended-IsSection k (s ∷ ss) zero x h i = (
  record {
    nodes_are = All-append (IsNode k) s.nodes (x ∷ []) h.0.nodes_are (i, tt);
    aligned = h.0.aligned;
  },
  h.1,
)
appended-IsSection k (s ∷ ss) (suc n) x h i = (h.0, appended-IsSection k ss n x h.1 i)

pub section_exists : (p : Program) (id : ℕ) → has_section p id ≡ true → id < length p.sections
section_exists p id h = ground arith

pub label_exists : (p : Program) (l : ℕ) → is_label_valid p l ≡ true → l < length p.labels
label_exists p l h = ground arith

-- A node that binds no label.
pub with_node-IsSound :
    (p : Program) (x : Node)
    → IsSound p
    → has_section p p.current ≡ true
    → IsNode (length p.labels) x
    → own_labels x [] ≡ []
    → IsSound (with_node p x)
with_node-IsSound p x h c i e =
    let counted : (l : ℕ)
        → occurrences l (labels_of (appended p.sections p.current x))
          ≡ bit_of (bound_at p.labels l) =
      λ l. omega (
        arith,
        occurrences-appended l p.sections p.current x (section_exists p p.current c),
        ap (occurrences l) e,
        h.bound_once l,
      ) in
    record {
      labels_few = h.labels_few;
      sections_few = omega (arith, h.sections_few, length-appended p.sections p.current x);
      sections_are = appended-IsSection (length p.labels) p.sections p.current x h.sections_are i;
      bound_once = counted;
    }
