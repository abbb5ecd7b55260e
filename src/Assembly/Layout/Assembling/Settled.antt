-- ===== src/Assembly/Layout/Assembling/Settled.antt =====
-- The sizes that the passes of Assemble settle on, and the layout that these give.
use uefipp.Base.{
  ℕ, zero, suc, ◌≡◌, refl, ap, sym, ◌∙◌, Bool, false, not, ◌||◌, List, [], ◌∷◌, length, drop, ◌==◌,
  if◌then◌else◌, Expected, value, unexpected, ◌>>=◌, Bool-cases, inl, inr, arith,
}
use mathlib.Core.Path.{subst}
use uefipp.Assembly.Programs.{
  Node, instruction_node, label_node, data_node, align_node, Section, Program,
}
use uefipp.Assembly.Layout.{
  first_size, first_sizes, first_section_sizes, Place, SectionPlace, compute_layout, Backend,
  maximum_label_id,
}
use uefipp.Assembly.Layout.Assembling.{
  Measured, measured_first, offset_of, places_of, node_size, measure_nodes, measure_sections,
  converge, maximum_passes, settle,
}

-- A size for each node, and the size of data is its length.
abbrev pub SizeOf : Node → ℕ → Type 0
SizeOf (instruction_node i t) n = Unit {0}
SizeOf (label_node l) n = Unit {0}
SizeOf (data_node bytes) n = n ≡ length bytes
SizeOf (align_node a fill) n = Unit {0}

abbrev pub IsSized : List Node → List ℕ → Type 0
IsSized [] [] = Unit {0}
IsSized [] (x ∷ xs) = ⊥
IsSized (n ∷ ns) [] = ⊥
IsSized (n ∷ ns) (x ∷ xs) = SizeOf n x × IsSized ns xs

abbrev pub AreSized : List Section → List (List ℕ) → Type 0
AreSized [] [] = Unit {0}
AreSized [] (x ∷ xs) = ⊥
AreSized (s ∷ ss) [] = ⊥
AreSized (s ∷ ss) (x ∷ xs) = IsSized s.nodes x × AreSized ss xs

first_size-SizeOf : (n : Node) → SizeOf n (first_size n)
first_size-SizeOf (instruction_node i t) = tt
first_size-SizeOf (label_node l) = tt
first_size-SizeOf (data_node bytes) = refl
first_size-SizeOf (align_node a fill) = tt

first_sizes-IsSized : (ns : List Node) → IsSized ns (first_sizes ns)
first_sizes-IsSized [] = tt
first_sizes-IsSized (n ∷ ns) = (first_size-SizeOf n, first_sizes-IsSized ns)

pub first_section_sizes-AreSized : (ss : List Section) → AreSized ss (first_section_sizes ss)
first_section_sizes-AreSized [] = tt
first_section_sizes-AreSized (s ∷ ss) =
    (first_sizes-IsSized s.nodes, first_section_sizes-AreSized ss)

-- A chain that gives a value, taken apart.
pub bind_value {ℓ} :
    {E : Type 0} {A B : Type ℓ} (m : Expected E A) (k : A → Expected E B) (y : B)
    → (m >>= k) ≡ value y
    → (a : A) × ((m ≡ value a) × (k a ≡ value y))
bind_value (value a) k y e = (a, (refl, e))
bind_value (unexpected x) k y e = cc e

pub value_injective {ℓ} :
    {E : Type 0} {A : Type ℓ} (a b : A) → ◌≡◌ {A = Expected E A} (value a) (value b) → a ≡ b
value_injective a b e = cc e

unchanged_parts : (x y : ℕ) (c : Bool) → (not (x == y) || c) ≡ false → (y ≡ x) × (c ≡ false)
unchanged_parts x y c e = ground arith

or_parts : (a b : Bool) → (a || b) ≡ false → (a ≡ false) × (b ≡ false)
or_parts a b e = ground arith

-- What a pass leaves of the sizes: as many, with data unchanged, and all unchanged where it says so.
pub record Kept (Sized : Type 0) {S : Type 0} (old : List S) (m : Measured S) : Type 0 where
  pub sized : Sized
  pub unchanged : m.changed ≡ false → m.sizes ≡ old

module _ (b : Backend) (base : ℕ) (addresses : List ℕ) where
  node_size-SizeOf :
      (n : Node) (offset x y : ℕ)
      → SizeOf n x
      → node_size b base addresses n offset x ≡ value y
      → SizeOf n y
  node_size-SizeOf (instruction_node i t) offset x y h e = tt
  node_size-SizeOf (label_node l) offset x y h e = tt
  node_size-SizeOf (data_node bytes) offset x y h e = cc (h, e)
  node_size-SizeOf (align_node a fill) offset x y h e = tt

  measure_nodes-Kept :
      (ns : List Node) (sizes : List ℕ) (places : List Place) (m : Measured ℕ)
      → IsSized ns sizes
      → measure_nodes b base addresses ns sizes places ≡ value m
      → Kept (IsSized ns m.sizes) sizes m
  unfolding measure_nodes
  measure_nodes-Kept [] [] places m h e =
      subst (λ m. Kept (IsSized [] m.sizes) [] m)
        (value_injective (record { sizes = []; changed = false }) m e)
        (record { sized = tt; unchanged = λ _. refl })
  measure_nodes-Kept [] (x ∷ xs) places m h e = absurd h
  measure_nodes-Kept (n ∷ ns) [] places m h e = absurd h
  measure_nodes-Kept (n ∷ ns) (x ∷ xs) places m h e =
      let (size, (e1, e2)) =
        bind_value (node_size b base addresses n (offset_of places) x)
          (λ size. measure_nodes b base addresses ns xs (drop 1 places) >>= λ rest.
            value (measured_first x size rest))
          m e in
      let (rest, (e3, e4)) =
        bind_value (measure_nodes b base addresses ns xs (drop 1 places))
          (λ rest. value (measured_first x size rest)) m e2 in
      let kept = measure_nodes-Kept ns xs (drop 1 places) rest h.1 e3 in
      subst (λ m. Kept (IsSized (n ∷ ns) m.sizes) (x ∷ xs) m)
        (value_injective (measured_first x size rest) m e4)
        (record {
          sized = (node_size-SizeOf n (offset_of places) x size h.0 e1, kept.sized);
          unchanged = λ c.
              let (c1, c2) = unchanged_parts x size rest.changed c in cc (c1, kept.unchanged c2);
        })

  measure_sections-Kept :
      (ss : List Section) (sizes : List (List ℕ)) (places : List SectionPlace)
      (m : Measured (List ℕ))
      → AreSized ss sizes
      → measure_sections b base addresses ss sizes places ≡ value m
      → Kept (AreSized ss m.sizes) sizes m
  unfolding measure_sections
  measure_sections-Kept [] [] places m h e =
      subst (λ m. Kept (AreSized [] m.sizes) [] m)
        (value_injective (record { sizes = []; changed = false }) m e)
        (record { sized = tt; unchanged = λ _. refl })
  measure_sections-Kept [] (x ∷ xs) places m h e = absurd h
  measure_sections-Kept (s ∷ ss) [] places m h e = absurd h
  measure_sections-Kept (s ∷ ss) (x ∷ xs) places m h e =
      let both : Measured ℕ → Measured (List ℕ) → Measured (List ℕ) = λ own rest. record {
        sizes = own.sizes ∷ rest.sizes;
        changed = own.changed || rest.changed;
      } in
      let (own, (e1, e2)) =
        bind_value (measure_nodes b base addresses s.nodes x (places_of places))
          (λ own. measure_sections b base addresses ss xs (drop 1 places) >>= λ rest.
            value (both own rest))
          m e in
      let (rest, (e3, e4)) =
        bind_value (measure_sections b base addresses ss xs (drop 1 places))
          (λ rest. value (both own rest)) m e2 in
      let first = measure_nodes-Kept s.nodes x (places_of places) own h.0 e1 in
      let kept = measure_sections-Kept ss xs (drop 1 places) rest h.1 e3 in
      subst (λ m. Kept (AreSized (s ∷ ss) m.sizes) (x ∷ xs) m)
        (value_injective (both own rest) m e4)
        (record {
          sized = (first.sized, kept.sized);
          unchanged = λ c.
              let (c1, c2) = or_parts own.changed rest.changed c in
              cc (first.unchanged c1, kept.unchanged c2);
        })

-- The sizes are those of a pass over the layout that they give, which changes nothing.
pub record IsSettled (b : Backend) (base count : ℕ) (ss : List Section) (sizes : List (List ℕ))
    : Type 0 where
  pub sized : AreSized ss sizes
  pub again :
      let laid = compute_layout base count ss sizes in
      measure_sections b base laid.addresses ss sizes laid.made
      ≡ value (record { sizes = sizes; changed = false })

pub converge-IsSettled :
    (b : Backend) (base count : ℕ) (ss : List Section) (passes : ℕ) (start sizes : List (List ℕ))
    → AreSized ss start
    → converge b base count ss passes start ≡ value sizes
    → IsSettled b base count ss sizes
unfolding converge
converge-IsSettled b base count ss zero start sizes h e = cc e
converge-IsSettled b base count ss (suc passes) start sizes h e =
    let laid = compute_layout base count ss start in
    let (m, (e1, e2)) =
      bind_value (measure_sections b base laid.addresses ss start laid.made)
        (λ m.
          let further = converge b base count ss passes m.sizes in
          if m.changed then further else value m.sizes)
        sizes e in
    let kept = measure_sections-Kept b base laid.addresses ss start laid.made m h e1 in
    elim (Bool-cases m.changed) [
      | inl y ↦
          converge-IsSettled b base count ss passes m.sizes sizes kept.sized (sym (rw y refl) ∙ e2)
      | inr n ↦
          (let given : m.sizes ≡ sizes = value_injective m.sizes sizes (sym (rw n refl) ∙ e2) in
            let same : start ≡ sizes = sym (kept.unchanged n) ∙ given in
            let end : m ≡ record { sizes = start; changed = false } = cc (kept.unchanged n, n) in
            subst (IsSettled b base count ss) same
              (record { sized = h; again = e1 ∙ ap (λ m. value m) end }))
    ]

pub settle-IsSettled :
    (b : Backend) (base : ℕ) (p : Program) (sizes : List (List ℕ))
    → settle b base p ≡ value sizes
    → IsSettled b base (maximum_label_id p.sections 0) p.sections sizes
unfolding settle
settle-IsSettled b base p sizes e =
    converge-IsSettled b base (maximum_label_id p.sections 0) p.sections maximum_passes
      (first_section_sizes p.sections) sizes (first_section_sizes-AreSized p.sections) e
