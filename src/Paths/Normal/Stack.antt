-- ===== src/Paths/Normal/Stack.antt =====
-- Collapsing keeps the components clean, and leaves clean components as they are.
use mathlib.Core.List.{reverse, reverse-cons}
use uefipp.Base.{
  ℕ, ◌≡◌, refl, Bool, true, false, List, [], ◌∷◌, ◌++◌, All, All-append, Bool-cases, inl, inr, not,
  if◌then◌else◌,
}
use uefipp.Strings.{same}
use uefipp.Paths.{here, parent_name}
use uefipp.Paths.Names.{IsName}
use uefipp.Paths.Normal.{collapse_part, collapse, Clean}

removed-Clean :
    (a : Bool) (p : List ℕ) (s : List (List ℕ))
    → IsName p
    → same p here ≡ false
    → Clean a s
    → Clean a (elim s [ q ∷ qs ↦ qs | [] ↦ if not a then p ∷ [] else [] ])
removed-Clean true p [] n x h = tt
removed-Clean false p [] n x h = (n, x, (λ e. (refl, refl)), tt)
removed-Clean a p (q ∷ qs) n x h = h.3

collapse_part-Clean :
    (a : Bool) (stack : List (List ℕ)) (p : List ℕ)
    → IsName p
    → Clean a stack
    → Clean a (collapse_part a stack p)
unfolding collapse_part
collapse_part-Clean a stack p n h = elim (Bool-cases (same p here)) [
  | inl y ↦ rw y h
  | inr x ↦ rw x (elim (Bool-cases (same p parent_name)) [
    | inl z ↦ rw z (removed-Clean a p stack n x h)
    | inr z ↦ rw z (n, x, (λ e. cc), h)
  ])
]

pub collapse-Clean :
    (a : Bool) (ps stack : List (List ℕ))
    → All IsName ps
    → Clean a stack
    → Clean a (collapse a stack ps)
collapse-Clean a [] stack n h = h
collapse-Clean a (p ∷ ps) stack n h =
    collapse-Clean a ps (collapse_part a stack p) n.1 (collapse_part-Clean a stack p n.0 h)

collapse-append :
    (a : Bool) (ps qs stack : List (List ℕ))
    → collapse a stack (ps ++ qs) ≡ collapse a (collapse a stack ps) qs
collapse-append a [] qs stack = refl
collapse-append a (p ∷ ps) qs stack = collapse-append a ps qs (collapse_part a stack p)

kept :
    (a : Bool) (p : List ℕ) (ps : List (List ℕ)) → Clean a (p ∷ ps) → collapse_part a ps p ≡ p ∷ ps
unfolding collapse_part
kept a p ps h = elim (Bool-cases (same p parent_name)) [
  | inl y ↦ rw (h.1, y) (let (e, f) = h.2 y in rw (e, f))
  | inr n ↦ rw (h.1, n)
]

pub collapse-reverse :
    (a : Bool) (stack : List (List ℕ)) → Clean a stack → collapse a [] (reverse stack) ≡ stack
collapse-reverse a [] h = refl
collapse-reverse a (p ∷ ps) h =
    rw (reverse-cons p ps, collapse-append a (reverse ps) (p ∷ []) [], collapse-reverse a ps h.3)
      (kept a p ps h)

pub Clean-names : (a : Bool) (stack : List (List ℕ)) → Clean a stack → All IsName stack
Clean-names a [] h = tt
Clean-names a (p ∷ ps) h = (h.0, Clean-names a ps h.3)

pub names-reverse : (ps : List (List ℕ)) → All IsName ps → All IsName (reverse ps)
names-reverse [] h = tt
names-reverse (p ∷ ps) h =
    rw (reverse-cons p ps)
      (All-append IsName (reverse ps) (p ∷ []) (names-reverse ps h.1) (h.0, tt))
