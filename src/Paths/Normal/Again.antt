-- ===== src/Paths/Normal/Again.antt =====
-- Path::Normalized against the description, on paths that it made, and on leading `..` components.
use mathlib.Core.List.{reverse}
use uefipp.Base.{
  ℕ, ◌+◌, ◌≡◌, refl, ap, ◌∙◌, Bool, true, false, ◌&&◌, List, [], ◌∷◌, ◌++◌, append-nil,
  append_assoc, length, All, arith, ◌==◌, if◌then◌else◌, value,
}
use uefipp.Strings.{is_empty, same, back}
use uefipp.Strings.Search.{back-append}
use uefipp.Paths.{
  Fallible, append, push, visit, visit_each, separated, join_each, rooted, normalized, is_slash,
  is_absolute, separator, root, parent_name,
}
use uefipp.Paths.Names.{IsName, words, parts-words, words-IsName}
use uefipp.Paths.Normal.{collapse_part, collapse, prefixed, body, start, Clean}
use uefipp.Paths.Normal.Stack.{collapse-Clean, collapse-reverse, Clean-names, names-reverse}
use uefipp.Paths.Normal.Text.{words-normal, absolute-normal}

name_back :
    (p : List ℕ)
    → is_empty p ≡ false
    → All (λ c. is_slash c ≡ false) p
    → (back p == separator) ≡ false
name_back [] n h = cc
name_back (c ∷ []) n h = ground (arith, h.0)
name_back (c ∷ d ∷ ds) n h = name_back (d ∷ ds) refl h.1

module _ (fits slots : ℕ → Bool) where
  module _ (roomy : (n : ℕ) → fits n ≡ true) where
    pub append_roomy : (xs ys : List ℕ) → append fits slots xs ys ≡ value (xs ++ ys)
    unfolding append
    append_roomy xs [] = rw append-nil
    append_roomy xs (y ∷ ys) = rw (roomy (length xs + length (y ∷ ys) + 1))

    -- Behind a text that ends in a name, each component is set behind a backslash.
    join_behind :
        (out : List ℕ) (ps : List (List ℕ))
        → is_empty out ≡ false
        → (back out == separator) ≡ false
        → All IsName ps
        → join_each fits slots out ps ≡ value (out ++ prefixed ps)
    unfolding join_each separated
    join_behind out [] e b h = rw append-nil
    join_behind out ([] ∷ ps) e b h = cc (h.0.0)
    join_behind out ((c ∷ cs) ∷ ps) e b h =
        rw (e, b, append_roomy out root, append_roomy (out ++ root) (c ∷ cs))
          (join_behind ((out ++ root) ++ (c ∷ cs)) ps (nonempty (out ++ root) c cs)
              (rw (back-append (out ++ root) cs c) (name_back (c ∷ cs) refl h.0.1)) h.1
            ∙ ap value (
                append_assoc (out ++ root) (c ∷ cs) (prefixed ps)
                ∙ append_assoc out root ((c ∷ cs) ++ prefixed ps)))
      where
        nonempty : (xs : List ℕ) (y : ℕ) (ys : List ℕ) → is_empty (xs ++ (y ∷ ys)) ≡ false
        nonempty [] y ys = refl
        nonempty (x ∷ xs) y ys = refl

    join_start :
        (a : Bool) (ps : List (List ℕ))
        → All IsName ps
        → join_each fits slots (start a) ps ≡ value (start a ++ body ps)
    unfolding join_each separated
    join_start true [] h = refl
    join_start false [] h = refl
    join_start a ([] ∷ ps) h = cc (h.0.0)
    join_start true ((c ∷ cs) ∷ ps) h = rw (append_roomy root (c ∷ cs)) (
        join_behind (root ++ (c ∷ cs)) ps refl
          (rw (back-append root cs c) (name_back (c ∷ cs) refl h.0.1)) h.1)
    join_start false ((c ∷ cs) ∷ ps) h =
        rw (append_roomy [] (c ∷ cs))
          (join_behind (c ∷ cs) ps refl (name_back (c ∷ cs) refl h.0.1) h.1)

  module _ (ample : (n : ℕ) → slots n ≡ true) where
    visit-collapse_part :
        (a : Bool) (stack : List (List ℕ)) (p : List ℕ)
        → visit fits slots a stack p ≡ value (collapse_part a stack p)
    unfolding visit push collapse_part
    visit-collapse_part a [] p = ground (arith, ample (0 + 1))
    visit-collapse_part a (q ∷ qs) p = ground (arith, ample (length (q ∷ qs) + 1))

    visit_each-collapse :
        (a : Bool) (stack ps : List (List ℕ))
        → visit_each fits slots a stack ps ≡ value (collapse a stack ps)
    unfolding visit_each
    visit_each-collapse a stack [] = refl
    visit_each-collapse a stack (p ∷ ps) =
        rw (visit-collapse_part a stack p) (visit_each-collapse a (collapse_part a stack p) ps)

  module _ (roomy : (n : ℕ) → fits n ≡ true) (ample : (n : ℕ) → slots n ≡ true) where
    rooted_roomy : (a : Bool) → rooted fits slots a ≡ value (start a)
    unfolding rooted
    rooted_roomy true = append_roomy roomy [] root
    rooted_roomy false = refl

    -- The last test of Normalized never holds: an absolute path has its root already.
    abbrev topped : Bool → List ℕ → Fallible (List ℕ)
    topped a result = if is_empty result && a then append fits slots result root else value result

    topped-start : (a : Bool) (text : List ℕ) → topped a (start a ++ text) ≡ value (start a ++ text)
    topped-start true text = refl
    topped-start false [] = refl
    topped-start false (c ∷ cs) = refl

    -- Where memory suffices, Normalized keeps the root of an absolute path and sets its collapsed
    -- components between single backslashes.
    pub normalized-collapse :
        (text : List ℕ)
        → normalized fits slots text
          ≡ start (is_absolute text)
            ++ body (reverse (collapse (is_absolute text) [] (words is_slash text)))
    unfolding normalized
    normalized-collapse text = rw (
      rooted_roomy (is_absolute text),
      parts-words is_slash (length text) text (omega arith),
      visit_each-collapse ample (is_absolute text) [] (words is_slash text),
      join_start roomy (is_absolute text)
          (reverse (collapse (is_absolute text) [] (words is_slash text)))
          (names-reverse _ (
            Clean-names (is_absolute text) _
              (collapse-Clean (is_absolute text) (words is_slash text) [] (words-IsName text) tt))),
      topped-start (is_absolute text)
          (body (reverse (collapse (is_absolute text) [] (words is_slash text)))),
    )

    -- Normalized changes nothing in a path that it made, where memory suffices.
    pub normalized_idempotent :
        (text : List ℕ)
        → normalized fits slots (normalized fits slots text) ≡ normalized fits slots text
    normalized_idempotent text = rw (
      normalized-collapse text,
      normalized-collapse (start a ++ body (reverse stack)),
      absolute-normal a (reverse stack) names,
      words-normal a (reverse stack) names,
      collapse-reverse a stack clean,
    )
      where
        a : Bool
        a = is_absolute text

        stack : List (List ℕ)
        stack = collapse a [] (words is_slash text)

        clean : Clean a stack
        clean = collapse-Clean a (words is_slash text) [] (words-IsName text) tt

        names : All IsName (reverse stack)
        names = names-reverse stack (Clean-names a stack clean)

    -- In a relative path the second of two leading `..` removes the first: Normalized loses both.
    pub normalized_loses_parents :
        (text : List ℕ)
        → is_absolute text ≡ false
        → normalized fits slots (parent_name ++ (separator ∷ (parent_name ++ (separator ∷ text))))
          ≡ normalized fits slots text
    normalized_loses_parents text h =
        rw
          (
            normalized-collapse (parent_name ++ (separator ∷ (parent_name ++ (separator ∷ text)))),
            normalized-collapse text,
            h,
          )
          (unfold is_absolute words collapse_part same in refl)
