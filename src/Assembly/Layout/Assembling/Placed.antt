-- ===== src/Assembly/Layout/Assembling/Placed.antt =====
-- The labels of a settled layout: each has the address of its node.
use uefipp.Base.{
  ℕ, ◌+◌, ◌^◌, ◌%◌, ◌≤◌, ◌<◌, ◌≡◌, refl, ap, sym, ◌∙◌, none, some, List, [], ◌∷◌, length, get_or,
  drop, replicate, All, arith, length-replicate,
}
use mathlib.Core.Path.{subst}
use uefipp.Alignment.{align_up}
use uefipp.Assembly.Programs.{
  invalid_id, Node, instruction_node, label_node, data_node, align_node, Section,
}
use uefipp.Assembly.Programs.Bound.{own_labels, labels_before, labels_of, Fresh, AreDistinct}
use uefipp.Assembly.Layout.{
  invalid_address, after_id, node_maximum, nodes_maximum, maximum_label_id, placed_size, noted,
  layout_nodes, layout_sections, compute_layout,
}
use uefipp.Assembly.Layout.Assembling.Images.{end_of, FitsNodes, LabelAt, LabelsAt}
use uefipp.Assembly.Layout.Assembling.Written.{
  FitsSections, LabelsAtSections, cursor-layout_nodes, wrapped,
}
use uefipp.Assembly.Layout.Assembling.Labels.{
  length-noted, noted_at, length-layout_nodes, layout_nodes_other, layout_sections_other,
}

distinct_rest : (n : Node) (ls : List ℕ) → AreDistinct (own_labels n ls) → AreDistinct ls
distinct_rest (label_node l) ls h = h.1.1
distinct_rest (instruction_node i t) ls h = h
distinct_rest (data_node bytes) ls h = h
distinct_rest (align_node a fill) ls h = h

distinct_later :
    (ns : List Node) (later : List ℕ) → AreDistinct (labels_before ns later) → AreDistinct later
distinct_later [] later h = h
distinct_later (n ∷ ns) later h =
    distinct_later ns later (distinct_rest n (labels_before ns later) h)

module _ (P : ℕ → Type 0) where
  All-rest : (n : Node) (ls : List ℕ) → All P (own_labels n ls) → All P ls
  All-rest (label_node l) ls h = h.1
  All-rest (instruction_node i t) ls h = h
  All-rest (data_node bytes) ls h = h
  All-rest (align_node a fill) ls h = h

  All-later : (ns : List Node) (later : List ℕ) → All P (labels_before ns later) → All P later
  All-later [] later h = h
  All-later (n ∷ ns) later h = All-later ns later (All-rest n (labels_before ns later) h)

module _ (base : ℕ) (final : List ℕ) where
  label_at :
      (n : Node) (ns : List Node) (sizes : List ℕ) (c d : ℕ) (a later : List ℕ)
      → AreDistinct (own_labels n (labels_before ns later))
      → All (λ l. l < length a) (own_labels n (labels_before ns later))
      → ((l : ℕ)
          → Fresh l later
          → get_or final l 0
            ≡ get_or (layout_nodes base ns sizes d (noted base n c a)).addresses l 0)
      → LabelAt base final n c
  label_at (label_node l) ns sizes c d a later h k agree =
      let (same, fresh) =
        layout_nodes_other base ns sizes d (noted base (label_node l) c a) l later h.1.0 in
      agree l fresh ∙ same ∙ noted_at base l c a h.0 k.0
  label_at (instruction_node i t) ns sizes c d a later h k agree = tt
  label_at (data_node bytes) ns sizes c d a later h k agree = tt
  label_at (align_node x fill) ns sizes c d a later h k agree = tt

  layout_nodes-LabelsAt :
      (ns : List Node) (sizes : List ℕ) (c : ℕ) (a later : List ℕ)
      → FitsNodes ns sizes c
      → AreDistinct (labels_before ns later)
      → All (λ l. l < length a) (labels_before ns later)
      → ((l : ℕ)
          → Fresh l later
          → get_or final l 0 ≡ get_or (layout_nodes base ns sizes c a).addresses l 0)
      → LabelsAt base final ns sizes c
  unfolding layout_nodes
  layout_nodes-LabelsAt [] sizes c a later f h k agree = tt
  layout_nodes-LabelsAt (n ∷ ns) sizes c a later f h k agree =
      let d = c + placed_size n c (get_or sizes 0 0) in
      let a' = noted base n c a in
      let rest = All-rest (λ l. l < length a) n (labels_before ns later) k in
      (
        label_at n ns (drop 1 sizes) c (d % 2 ^ 64) a later h k agree,
        layout_nodes-LabelsAt ns (drop 1 sizes) d a' later f.1
            (distinct_rest n (labels_before ns later) h)
            (subst (λ m. All (λ l. l < m) (labels_before ns later)) (sym (length-noted base n c a))
              rest)
            (λ l fresh.
              agree l fresh
              ∙ ap (λ m. get_or (layout_nodes base ns (drop 1 sizes) m a').addresses l 0)
                  (wrapped d f.0)),
      )

  layout_sections-LabelsAt :
      (ss : List Section) (sizes : List (List ℕ)) (c : ℕ) (a : List ℕ)
      → FitsSections ss sizes c
      → AreDistinct (labels_of ss)
      → All (λ l. l < length a) (labels_of ss)
      → ((l : ℕ) → get_or final l 0 ≡ get_or (layout_sections base ss sizes c a).addresses l 0)
      → LabelsAtSections base final ss sizes c
  unfolding layout_sections
  layout_sections-LabelsAt [] sizes c a f h k agree = tt
  layout_sections-LabelsAt (s ∷ ss) sizes c a f h k agree =
      let start = align_up c s.alignment in
      let own_sizes = get_or sizes 0 [] in
      let own = layout_nodes base s.nodes own_sizes start a in
      let later = All-later (λ l. l < length a) s.nodes (labels_of ss) k in
      (
        layout_nodes-LabelsAt s.nodes own_sizes start a (labels_of ss) f.1.0 h k (λ l fresh.
            agree l
            ∙ layout_sections_other base ss (drop 1 sizes) own.cursor own.addresses l fresh),
        layout_sections-LabelsAt ss (drop 1 sizes) (end_of s.nodes own_sizes start) own.addresses
            f.1.1 (distinct_later s.nodes (labels_of ss) h)
            (subst (λ m. All (λ l. l < m) (labels_of ss))
              (sym (length-layout_nodes base s.nodes own_sizes start a)) later)
            (λ l.
              agree l
              ∙ ap
                  (λ m.
                    get_or (layout_sections base ss (drop 1 sizes) m own.addresses).addresses l 0)
                  (cursor-layout_nodes base s.nodes own_sizes start a f.1.0)),
      )

-- The table of addresses has a place for each label.
after_id_grows : (l m : ℕ) → m ≤ after_id l m
after_id_grows l m = ground arith

after_id_above : (l m : ℕ) → l < invalid_id → l < after_id l m
after_id_above l m h = ground arith

node_maximum_grows : (n : Node) (m : ℕ) → m ≤ node_maximum n m
node_maximum_grows (instruction_node i none) m = omega arith
node_maximum_grows (instruction_node i (some t)) m = after_id_grows t.label m
node_maximum_grows (label_node l) m = after_id_grows l m
node_maximum_grows (data_node bytes) m = omega arith
node_maximum_grows (align_node a fill) m = omega arith

nodes_maximum_grows : (ns : List Node) (m : ℕ) → m ≤ nodes_maximum ns m
nodes_maximum_grows [] m = omega arith
nodes_maximum_grows (n ∷ ns) m =
    omega (arith, node_maximum_grows n m, nodes_maximum_grows ns (node_maximum n m))

maximum_label_id_grows : (ss : List Section) (m : ℕ) → m ≤ maximum_label_id ss m
unfolding maximum_label_id
maximum_label_id_grows [] m = omega arith
maximum_label_id_grows (s ∷ ss) m =
    omega
      (arith, nodes_maximum_grows s.nodes m, maximum_label_id_grows ss (nodes_maximum s.nodes m))

module _ (top : ℕ) where
  own_below :
      (n : Node) (ls : List ℕ) (m : ℕ)
      → AreDistinct (own_labels n ls)
      → node_maximum n m ≤ top
      → All (λ l. l < top) ls
      → All (λ l. l < top) (own_labels n ls)
  own_below (label_node l) ls m h k a = (omega (arith, after_id_above l m h.0, k), a)
  own_below (instruction_node i t) ls m h k a = a
  own_below (data_node bytes) ls m h k a = a
  own_below (align_node x fill) ls m h k a = a

  labels_below :
      (ns : List Node) (later : List ℕ) (m : ℕ)
      → AreDistinct (labels_before ns later)
      → nodes_maximum ns m ≤ top
      → All (λ l. l < top) later
      → All (λ l. l < top) (labels_before ns later)
  labels_below [] later m h k a = a
  labels_below (n ∷ ns) later m h k a =
      own_below n (labels_before ns later) m h
        (omega (arith, nodes_maximum_grows ns (node_maximum n m), k))
        (labels_below ns later (node_maximum n m) (distinct_rest n (labels_before ns later) h) k a)

  labels_of_below :
      (ss : List Section) (m : ℕ)
      → AreDistinct (labels_of ss)
      → maximum_label_id ss m ≤ top
      → All (λ l. l < top) (labels_of ss)
  unfolding maximum_label_id
  labels_of_below [] m h k = tt
  labels_of_below (s ∷ ss) m h k =
      labels_below s.nodes (labels_of ss) m h
        (omega (arith, maximum_label_id_grows ss (nodes_maximum s.nodes m), k))
        (labels_of_below ss (nodes_maximum s.nodes m) (distinct_later s.nodes (labels_of ss) h) k)

-- In a layout without a wrap, each label that is bound once has the address of its node.
pub compute_layout-LabelsAt :
    (base : ℕ) (ss : List Section) (sizes : List (List ℕ))
    → FitsSections ss sizes 0
    → AreDistinct (labels_of ss)
    → LabelsAtSections base
        (compute_layout base (maximum_label_id ss 0) ss sizes).addresses
        ss
        sizes
        0
unfolding compute_layout
compute_layout-LabelsAt base ss sizes f h =
    let count = maximum_label_id ss 0 in
    let start = replicate count invalid_address in
    layout_sections-LabelsAt base (layout_sections base ss sizes 0 start).addresses ss sizes 0 start
      f h
      (subst (λ m. All (λ l. l < m) (labels_of ss)) (sym (length-replicate count invalid_address))
        (labels_of_below count ss 0 h (omega arith)))
      (λ l. refl)
