-- ===== src/Assembly/Layout/Assembling/Labels.antt =====
-- The addresses of ComputeLayout, where each label is bound once.
use uefipp.Base.{
  ℕ, zero, suc, ◌+◌, ◌^◌, ◌%◌, ◌<◌, ◌≡◌, ◌≢◌, refl, ◌∙◌, true, not, ◌&&◌, List, [], ◌∷◌, length,
  get_or, drop, ltb, ◌==◌, arith, Bool-cases, inl, inr,
}
use uefipp.Alignment.{align_up}
use uefipp.Assembly.Programs.{
  invalid_id, Node, instruction_node, label_node, data_node, align_node, Section,
}
use uefipp.Assembly.Programs.Bound.{own_labels, labels_before, labels_of, Fresh}
use uefipp.Assembly.Layout.{set_address, placed_size, noted, layout_nodes, layout_sections}

set_address_same : (a : List ℕ) (l v : ℕ) → l < length a → get_or (set_address a l v) l 0 ≡ v
set_address_same [] l v h = absurd (omega arith)
set_address_same (x ∷ xs) zero v h = refl
set_address_same (x ∷ xs) (suc l) v h = set_address_same xs l v (omega arith)

set_address_other : (a : List ℕ) (l m v : ℕ) → l ≢ m → get_or (set_address a m v) l 0 ≡ get_or a l 0
set_address_other [] l m v h = refl
set_address_other (x ∷ xs) zero zero v h = absurd (h refl)
set_address_other (x ∷ xs) zero (suc m) v h = refl
set_address_other (x ∷ xs) (suc l) zero v h = refl
set_address_other (x ∷ xs) (suc l) (suc m) v h =
    set_address_other xs l m v (λ e. h (omega (arith, e)))

length-set_address : (a : List ℕ) (m v : ℕ) → length (set_address a m v) ≡ length a
length-set_address [] m v = refl
length-set_address (x ∷ xs) zero v = refl
length-set_address (x ∷ xs) (suc m) v = omega (arith, length-set_address xs m v)

module _ (base : ℕ) where
  pub length-noted : (n : Node) (c : ℕ) (a : List ℕ) → length (noted base n c a) ≡ length a
  length-noted (label_node m) c a = elim (Bool-cases (not (m == invalid_id) && ltb m (length a))) [
    | inl y ↦ rw y (length-set_address a m ((base + c) % 2 ^ 64))
    | inr n ↦ rw n refl
  ]
  length-noted (instruction_node i t) c a = refl
  length-noted (data_node bytes) c a = refl
  length-noted (align_node x fill) c a = refl

  pub noted_at :
      (l c : ℕ) (a : List ℕ)
      → l < invalid_id
      → l < length a
      → get_or (noted base (label_node l) c a) l 0 ≡ (base + c) % 2 ^ 64
  noted_at l c a h k =
      let valid : (not (l == invalid_id) && ltb l (length a)) ≡ true = ground arith in
      rw valid (set_address_same a l ((base + c) % 2 ^ 64) k)

  noted_other :
      (n : Node) (c : ℕ) (a : List ℕ) (l : ℕ) (ls : List ℕ)
      → Fresh l (own_labels n ls)
      → (get_or (noted base n c a) l 0 ≡ get_or a l 0) × Fresh l ls
  noted_other (label_node m) c a l ls h =
      elim (Bool-cases (not (m == invalid_id) && ltb m (length a))) [
        | inl y ↦ rw y (set_address_other a l m ((base + c) % 2 ^ 64) h.0, h.1)
        | inr n ↦ rw n (refl, h.1)
      ]
  noted_other (instruction_node i t) c a l ls h = (refl, h)
  noted_other (data_node bytes) c a l ls h = (refl, h)
  noted_other (align_node x fill) c a l ls h = (refl, h)

  pub layout_nodes_other :
      (ns : List Node) (sizes : List ℕ) (c : ℕ) (a : List ℕ) (l : ℕ) (later : List ℕ)
      → Fresh l (labels_before ns later)
      → (get_or (layout_nodes base ns sizes c a).addresses l 0 ≡ get_or a l 0) × Fresh l later
  unfolding layout_nodes
  layout_nodes_other [] sizes c a l later h = (refl, h)
  layout_nodes_other (n ∷ ns) sizes c a l later h =
      let (same, fresh) = noted_other n c a l (labels_before ns later) h in
      let (rest, end) =
        layout_nodes_other ns (drop 1 sizes) ((c + placed_size n c (get_or sizes 0 0)) % 2 ^ 64)
          (noted base n c a) l later fresh in
      (rest ∙ same, end)

  pub length-layout_nodes :
      (ns : List Node) (sizes : List ℕ) (c : ℕ) (a : List ℕ)
      → length (layout_nodes base ns sizes c a).addresses ≡ length a
  unfolding layout_nodes
  length-layout_nodes [] sizes c a = refl
  length-layout_nodes (n ∷ ns) sizes c a =
      length-layout_nodes ns (drop 1 sizes) ((c + placed_size n c (get_or sizes 0 0)) % 2 ^ 64)
        (noted base n c a)
      ∙ length-noted n c a

  pub layout_sections_other :
      (ss : List Section) (sizes : List (List ℕ)) (c : ℕ) (a : List ℕ) (l : ℕ)
      → Fresh l (labels_of ss)
      → get_or (layout_sections base ss sizes c a).addresses l 0 ≡ get_or a l 0
  unfolding layout_sections
  layout_sections_other [] sizes c a l h = refl
  layout_sections_other (s ∷ ss) sizes c a l h =
      let start = align_up c s.alignment in
      let own = layout_nodes base s.nodes (get_or sizes 0 []) start a in
      let (same, fresh) =
        layout_nodes_other s.nodes (get_or sizes 0 []) start a l (labels_of ss) h in
      layout_sections_other ss (drop 1 sizes) own.cursor own.addresses l fresh ∙ same
