-- ===== src/Assembly/Layout/Assembling/Written.antt =====
-- The loops of Assemble that write the code, over the nodes of a section and over the sections.
use uefipp.Base.{
  ℕ, ◌+◌, ◌-◌, ◌^◌, ◌%◌, ◌≤◌, ◌<◌, ◌≡◌, refl, ap, sym, ◌∙◌, List, [], ◌∷◌, ◌++◌, length, get_or,
  drop, replicate, value, arith, length-append, append_assoc, length-replicate, replicate_add,
}
use mathlib.Core.Path.{subst}
use uefipp.Alignment.{align_up}
use uefipp.Assembly.Programs.{Node, Section}
use uefipp.Assembly.Layout.{
  placed_size, noted, layout_nodes, layout_sections, Place, Backend, Grants,
}
use uefipp.Assembly.Layout.Assembling.{Output, write_node, write_nodes, write_sections}
use uefipp.Assembly.Layout.Assembling.Settled.{
  SizeOf, IsSized, AreSized, bind_value, value_injective,
}
use uefipp.Assembly.Layout.Assembling.Images.{
  end_of, FitsNodes, LabelAt, LabelsAt, Image, finished, next, SectionsImage, none_left, section,
  Wrote, write_node-Wrote,
}

abbrev pub end_of_sections : List Section → List (List ℕ) → ℕ → ℕ
end_of_sections [] sizes c = c
end_of_sections (s ∷ ss) sizes c =
    end_of_sections ss (drop 1 sizes) (end_of s.nodes (get_or sizes 0 []) (align_up c s.alignment))

abbrev pub FitsSections : List Section → List (List ℕ) → ℕ → Type 0
FitsSections [] sizes c = Unit {0}
FitsSections (s ∷ ss) sizes c =
    (c ≤ align_up c s.alignment)
    × (FitsNodes s.nodes (get_or sizes 0 []) (align_up c s.alignment)
        × FitsSections ss (drop 1 sizes)
            (end_of s.nodes (get_or sizes 0 []) (align_up c s.alignment)))

abbrev pub LabelsAtSections : ℕ → List ℕ → List Section → List (List ℕ) → ℕ → Type 0
LabelsAtSections base addresses [] sizes c = Unit {0}
LabelsAtSections base addresses (s ∷ ss) sizes c =
    LabelsAt base addresses s.nodes (get_or sizes 0 []) (align_up c s.alignment)
    × LabelsAtSections base addresses ss (drop 1 sizes)
        (end_of s.nodes (get_or sizes 0 []) (align_up c s.alignment))

pub end_of_grows : (ns : List Node) (sizes : List ℕ) (c : ℕ) → c ≤ end_of ns sizes c
end_of_grows [] sizes c = omega arith
end_of_grows (n ∷ ns) sizes c =
    omega (arith, end_of_grows ns (drop 1 sizes) (c + placed_size n c (get_or sizes 0 0)))

pub end_of_sections_grows :
    (ss : List Section) (sizes : List (List ℕ)) (c : ℕ)
    → FitsSections ss sizes c
    → c ≤ end_of_sections ss sizes c
end_of_sections_grows [] sizes c h = omega arith
end_of_sections_grows (s ∷ ss) sizes c h =
    let start = align_up c s.alignment in
    omega (
      arith,
      h.0,
      end_of_grows s.nodes (get_or sizes 0 []) start,
      end_of_sections_grows ss (drop 1 sizes) (end_of s.nodes (get_or sizes 0 []) start) h.1.1,
    )

pub wrapped : (n : ℕ) → n < 2 ^ 64 → n % 2 ^ 64 ≡ n
wrapped n h = omega arith

pub cursor-layout_nodes :
    (base : ℕ) (ns : List Node) (sizes : List ℕ) (c : ℕ) (addresses : List ℕ)
    → FitsNodes ns sizes c
    → (layout_nodes base ns sizes c addresses).cursor ≡ end_of ns sizes c
unfolding layout_nodes
cursor-layout_nodes base [] sizes c addresses h = refl
cursor-layout_nodes base (n ∷ ns) sizes c addresses h =
    let size = placed_size n c (get_or sizes 0 0) in
    rw (wrapped (c + size) h.0)
      (cursor-layout_nodes base ns (drop 1 sizes) (c + size) (noted base n c addresses) h.1)

pub cursor-layout_sections :
    (base : ℕ) (ss : List Section) (sizes : List (List ℕ)) (c : ℕ) (addresses : List ℕ)
    → FitsSections ss sizes c
    → (layout_sections base ss sizes c addresses).cursor ≡ end_of_sections ss sizes c
unfolding layout_sections
cursor-layout_sections base [] sizes c addresses h = refl
cursor-layout_sections base (s ∷ ss) sizes c addresses h =
    let start = align_up c s.alignment in
    let own = layout_nodes base s.nodes (get_or sizes 0 []) start addresses in
    rw (cursor-layout_nodes base s.nodes (get_or sizes 0 []) start addresses h.1.0) (
      cursor-layout_sections base ss (drop 1 sizes) (end_of s.nodes (get_or sizes 0 []) start)
        own.addresses h.1.1)

-- What writing the nodes of a section leaves of a buffer of a size that is written up to `d`.
pub record WroteNodes (b : Backend) (base : ℕ) (addresses : List ℕ) (ns : List Node) (d : List ℕ)
    (total end : ℕ) (out : Output) : Type 0 where
  pub after : List ℕ
  pub sized : length after ≡ end
  pub written : out.bytes ≡ after ++ replicate (total - end) 0
  pub image : Image b base addresses ns d after

pub record WroteSections (b : Backend) (base : ℕ) (addresses : List ℕ) (ss : List Section)
    (d : List ℕ) (total end : ℕ) (out : Output) : Type 0 where
  pub after : List ℕ
  pub sized : length after ≡ end
  pub written : out.bytes ≡ after ++ replicate (total - end) 0
  pub image : SectionsImage b base addresses ss d after

module _ (b : Backend) (g : Grants) (base : ℕ) (addresses : List ℕ) (total : ℕ) where
  write_node_at :
      (d : List ℕ) (out out' : Output) (n : Node) (x c : ℕ)
      → c ≡ length d
      → out.bytes ≡ d ++ replicate (total - c) 0
      → SizeOf n x
      → c + placed_size n c x < 2 ^ 64
      → LabelAt base addresses n c
      → write_node b g base addresses n c (placed_size n c x) out ≡ value out'
      → Wrote b base addresses n d (total - c) (placed_size n c x) out'
  write_node_at d out out' n x c e =
      subst
        (λ c.
          out.bytes ≡ d ++ replicate (total - c) 0
          → SizeOf n x
          → c + placed_size n c x < 2 ^ 64
          → LabelAt base addresses n c
          → write_node b g base addresses n c (placed_size n c x) out ≡ value out'
          → Wrote b base addresses n d (total - c) (placed_size n c x) out')
        (sym e)
        (λ start. write_node-Wrote b g base addresses d (total - length d) out out' start n x)

  write_nodes-WroteNodes :
      (ns : List Node) (sizes : List ℕ) (c : ℕ) (noted_so_far : List ℕ) (d : List ℕ)
      (out out' : Output)
      → c ≡ length d
      → out.bytes ≡ d ++ replicate (total - c) 0
      → IsSized ns sizes
      → FitsNodes ns sizes c
      → LabelsAt base addresses ns sizes c
      → write_nodes b g base addresses ns (layout_nodes base ns sizes c noted_so_far).made out
        ≡ value out'
      → WroteNodes b base addresses ns d total (end_of ns sizes c) out'
  unfolding write_nodes layout_nodes
  write_nodes-WroteNodes [] sizes c a d out out' e start s f l w = record {
    after = d;
    sized = sym e;
    written = sym (ap (λ (o : Output). o.bytes) (value_injective out out' w)) ∙ start;
    image = finished;
  }
  write_nodes-WroteNodes (n ∷ ns) [] c a d out out' e start s f l w = absurd s
  write_nodes-WroteNodes (n ∷ ns) (x ∷ xs) c a d out out' e start s f l w =
      let size = placed_size n c x in
      let places : ℕ → List Place = λ c. (layout_nodes base ns xs c (noted base n c a)).made in
      let (middle, (w1, w2)) =
        bind_value (write_node b g base addresses n c size out)
          (write_nodes b g base addresses ns
            (layout_nodes base ns xs ((c + size) % 2 ^ 64) (noted base n c a)).made)
          out' w in
      let first = write_node_at d out middle n x c e start s.0 f.0 l.0 w1 in
      let d' = d ++ first.bytes in
      let here : c + size ≡ length d' =
        omega (arith, e, first.sized, length-append d first.bytes) in
      let less : total - c - size ≡ total - (c + size) = omega arith in
      let rest =
        write_nodes-WroteNodes ns xs (c + size) (noted base n c a) d' middle out' here
          (first.written ∙ ap (λ k. d' ++ replicate k 0) less) s.1 f.1 l.1
          (ap
              (λ k.
                write_nodes b g base addresses ns
                  (layout_nodes base ns xs k (noted base n c a)).made middle)
              (sym (wrapped (c + size) f.0))
            ∙ w2) in
      record {
        after = rest.after;
        sized = rest.sized;
        written = rest.written;
        image = next first.image rest.image;
      }

  -- The gap before a section, in a buffer that is still zero there.
  gap_filled :
      (d : List ℕ) (c start : ℕ)
      → c ≤ start
      → start ≤ total
      → d ++ replicate (total - c) 0 ≡ (d ++ replicate (start - c) 0) ++ replicate (total - start) 0
  gap_filled d c start h k =
      ap (λ x. d ++ x) (replicate_add (start - c) (total - start) (total - c) 0 (omega arith))
      ∙ sym (append_assoc d (replicate (start - c) 0) (replicate (total - start) 0))

  pub write_sections-WroteSections :
      (ss : List Section) (sizes : List (List ℕ)) (c : ℕ) (noted_so_far : List ℕ) (d : List ℕ)
      (out out' : Output)
      → c ≡ length d
      → out.bytes ≡ d ++ replicate (total - c) 0
      → AreSized ss sizes
      → FitsSections ss sizes c
      → end_of_sections ss sizes c ≤ total
      → LabelsAtSections base addresses ss sizes c
      → write_sections b g base addresses ss (layout_sections base ss sizes c noted_so_far).made out
        ≡ value out'
      → WroteSections b base addresses ss d total (end_of_sections ss sizes c) out'
  unfolding write_sections layout_sections
  write_sections-WroteSections [] sizes c a d out out' e start z f t l w = record {
    after = d;
    sized = sym e;
    written = sym (ap (λ (o : Output). o.bytes) (value_injective out out' w)) ∙ start;
    image = none_left;
  }
  write_sections-WroteSections (s ∷ ss) [] c a d out out' e start z f t l w = absurd z
  write_sections-WroteSections (s ∷ ss) (x ∷ xs) c a d out out' e start z f t l w =
      let from = align_up c s.alignment in
      let own = layout_nodes base s.nodes x from a in
      let end = end_of s.nodes x from in
      let grown = end_of_grows s.nodes x from in
      let more = end_of_sections_grows ss xs end f.1.1 in
      let (middle, (w1, w2)) =
        bind_value (write_nodes b g base addresses s.nodes own.made out)
          (write_sections b g base addresses ss
            (layout_sections base ss xs own.cursor own.addresses).made)
          out' w in
      let d' = d ++ replicate (from - c) 0 in
      let here : from ≡ length d' = omega (
        arith,
        e,
        f.0,
        length-append d (replicate (from - c) 0),
        length-replicate {A = ℕ} (from - c) 0,
      ) in
      let first =
        write_nodes-WroteNodes s.nodes x from a d' out middle here
          (start ∙ gap_filled d c from f.0 (omega arith)) z.0 f.1.0 l.0 w1 in
      let rest =
        write_sections-WroteSections ss xs end own.addresses first.after middle out'
          (sym first.sized) first.written z.1 f.1.1 t l.1
          (ap
              (λ k.
                write_sections b g base addresses ss
                  (layout_sections base ss xs k own.addresses).made middle)
              (sym (cursor-layout_nodes base s.nodes x from a f.1.0))
            ∙ w2) in
      let gap : length d + (from - c) ≡ align_up (length d) s.alignment =
        subst (λ m. m + (from - c) ≡ align_up m s.alignment) e (omega (arith, f.0)) in
      record {
        after = rest.after;
        sized = rest.sized;
        written = rest.written;
        image = section (from - c) gap first.image rest.image;
      }
