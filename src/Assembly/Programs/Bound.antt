-- ===== src/Assembly/Programs/Bound.antt =====
-- The labels that the sections of a program bind, in order, and how often each.
use uefipp.Base.{
  ℕ, zero, suc, ◌+◌, ◌≤◌, ◌<◌, ◌≡◌, ◌≢◌, refl, List, [], ◌∷◌, ◌++◌, length, All, ◌==◌,
  if◌then◌else◌, arith,
}
use uefipp.Assembly.Programs.{
  invalid_id, Node, instruction_node, label_node, data_node, align_node, Section, appended,
}

abbrev pub own_labels : Node → List ℕ → List ℕ
own_labels (label_node l) ls = l ∷ ls
own_labels (instruction_node i t) ls = ls
own_labels (data_node bytes) ls = ls
own_labels (align_node a fill) ls = ls

-- The labels bound in nodes, with those of later sections behind them.
abbrev pub labels_before : List Node → List ℕ → List ℕ
labels_before [] later = later
labels_before (n ∷ ns) later = own_labels n (labels_before ns later)

abbrev pub labels_of : List Section → List ℕ
labels_of [] = []
labels_of (s ∷ ss) = labels_before s.nodes (labels_of ss)

abbrev pub Fresh : ℕ → List ℕ → Type 0
Fresh l [] = Unit {0}
Fresh l (m ∷ ms) = (l ≢ m) × Fresh l ms

-- No label is bound twice, and each is an id.
abbrev pub AreDistinct : List ℕ → Type 0
AreDistinct [] = Unit {0}
AreDistinct (l ∷ ls) = (l < invalid_id) × (Fresh l ls × AreDistinct ls)

abbrev pub hit : ℕ → ℕ → ℕ
hit l m = if l == m then 1 else 0

abbrev pub occurrences : ℕ → List ℕ → ℕ
occurrences l [] = 0
occurrences l (m ∷ ms) = hit l m + occurrences l ms

hit_same : (l m : ℕ) → l ≡ m → hit l m ≡ 1
hit_same l m e = ground arith

Fresh-of : (l : ℕ) (ms : List ℕ) → occurrences l ms ≡ 0 → Fresh l ms
Fresh-of l [] h = tt
Fresh-of l (m ∷ ms) h = ((λ e. omega (arith, h, hit_same l m e)), Fresh-of l ms (omega arith))

pub AreDistinct-of :
    (ls : List ℕ) → All (λ l. l < invalid_id) ls → ((l : ℕ) → occurrences l ls ≤ 1) → AreDistinct ls
AreDistinct-of [] h k = tt
AreDistinct-of (l ∷ ls) h k = (
  h.0,
  (
    Fresh-of l ls (omega (arith, k l, hit_same l l refl)),
    AreDistinct-of ls h.1 (λ m. omega (arith, k m)),
  ),
)

occurrences-own_labels :
    (l : ℕ) (n : Node) (ls : List ℕ)
    → occurrences l (own_labels n ls) ≡ occurrences l (own_labels n []) + occurrences l ls
occurrences-own_labels l (label_node m) ls = omega arith
occurrences-own_labels l (instruction_node i t) ls = omega arith
occurrences-own_labels l (data_node bytes) ls = omega arith
occurrences-own_labels l (align_node a fill) ls = omega arith

occurrences-labels_before :
    (l : ℕ) (ns : List Node) (later : List ℕ)
    → occurrences l (labels_before ns later)
      ≡ occurrences l (labels_before ns []) + occurrences l later
occurrences-labels_before l [] later = omega arith
occurrences-labels_before l (n ∷ ns) later = omega (
  arith,
  occurrences-own_labels l n (labels_before ns later),
  occurrences-own_labels l n (labels_before ns []),
  occurrences-labels_before l ns later,
)

occurrences_behind :
    (l : ℕ) (ns : List Node) (node : Node) (later : List ℕ)
    → occurrences l (labels_before (ns ++ node ∷ []) later)
      ≡ occurrences l (own_labels node []) + occurrences l (labels_before ns later)
occurrences_behind l [] node later = occurrences-own_labels l node later
occurrences_behind l (n ∷ ns) node later = omega (
  arith,
  occurrences-own_labels l n (labels_before (ns ++ node ∷ []) later),
  occurrences-own_labels l n (labels_before ns later),
  occurrences_behind l ns node later,
)

-- A node appended to a section binds its label once more.
pub occurrences-appended :
    (l : ℕ) (ss : List Section) (n : ℕ) (node : Node)
    → n < length ss
    → occurrences l (labels_of (appended ss n node))
      ≡ occurrences l (own_labels node []) + occurrences l (labels_of ss)
occurrences-appended l [] n node h = absurd (omega arith)
occurrences-appended l (s ∷ ss) zero node h = occurrences_behind l s.nodes node (labels_of ss)
occurrences-appended l (s ∷ ss) (suc n) node h = omega (
  arith,
  occurrences-labels_before l s.nodes (labels_of (appended ss n node)),
  occurrences-labels_before l s.nodes (labels_of ss),
  occurrences-appended l ss n node (omega arith),
)

-- A section without nodes binds nothing.
pub occurrences-labels_of :
    (l : ℕ) (ss : List Section) (s : Section)
    → s.nodes ≡ []
    → occurrences l (labels_of (ss ++ s ∷ [])) ≡ occurrences l (labels_of ss)
occurrences-labels_of l [] s e = rw e refl
occurrences-labels_of l (x ∷ ss) s e = omega (
  arith,
  occurrences-labels_before l x.nodes (labels_of (ss ++ s ∷ [])),
  occurrences-labels_before l x.nodes (labels_of ss),
  occurrences-labels_of l ss s e,
)
