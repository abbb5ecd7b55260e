-- ===== src/Paths/Names.antt =====
-- What the scanning loop of Path.cpp finds: the runs of characters between separators.
use uefipp.Base.{
  ℕ, zero, suc, ◌+◌, ◌≤◌, ◌≡◌, refl, ap, ◌∙◌, Bool, true, false, List, [], ◌∷◌, length, All,
  if◌then◌else◌, Bool-cases, inl, inr, arith,
}
use uefipp.Strings.{is_empty}
use uefipp.Paths.{skip, take_part, drop_part, parts, is_slash, count_names, name_count}

abbrev pub starts : (ℕ → Bool) → List ℕ → Bool
starts sep [] = true
starts sep (c ∷ cs) = sep c

abbrev pub extend : ℕ → List (List ℕ) → List (List ℕ)
extend c [] = (c ∷ []) ∷ []
extend c (p ∷ ps) = (c ∷ p) ∷ ps

-- The runs, by recursion on the text: a character that is no separator begins a run of its own if
-- a separator or the end follows it, and else joins the run behind it.
unfoldable pub words : (ℕ → Bool) → List ℕ → List (List ℕ)
words sep [] = []
words sep (c ∷ cs) =
    let rest = words sep cs in
    if sep c then rest else if starts sep cs then (c ∷ []) ∷ rest else extend c rest

module _ (sep : ℕ → Bool) where
  words-skip : (text : List ℕ) → words sep (skip sep text) ≡ words sep text
  unfolding words skip
  words-skip [] = refl
  words-skip (c ∷ cs) = elim (Bool-cases (sep c)) [
    | inl y ↦ rw (y, skip) (words-skip cs)
    | inr n ↦ rw (n, skip) (rw n)
  ]

  -- A text that starts inside a run.
  words-part :
      (c : ℕ) (cs : List ℕ)
      → sep c ≡ false
      → words sep (c ∷ cs) ≡ take_part sep (c ∷ cs) ∷ words sep (drop_part sep (c ∷ cs))
  unfolding words take_part drop_part
  words-part c [] h = ground arith
  words-part c (d ∷ ds) h = elim (Bool-cases (sep d)) [
    | inl y ↦ ground arith
    | inr n ↦ ground (arith, words-part d ds n)
  ]

  length-skip : (text : List ℕ) → length (skip sep text) ≤ length text
  unfolding skip
  length-skip [] = omega arith
  length-skip (c ∷ cs) = ground (arith, length-skip cs)

  length-drop_part : (text : List ℕ) → length (drop_part sep text) ≤ length text
  unfolding drop_part
  length-drop_part [] = omega arith
  length-drop_part (c ∷ cs) = ground (arith, length-drop_part cs)

  length-drop_part_lt :
      (c : ℕ) (cs : List ℕ) → sep c ≡ false → length (drop_part sep (c ∷ cs)) ≤ length cs
  unfolding drop_part
  length-drop_part_lt c cs h = rw h (length-drop_part cs)

  skip_stops : (text : List ℕ) (c : ℕ) (cs : List ℕ) → skip sep text ≡ c ∷ cs → sep c ≡ false
  unfolding skip
  skip_stops [] c cs e = cc
  skip_stops (x ∷ xs) c cs e = elim (Bool-cases (sep x)) [
    | inl y ↦ skip_stops xs c cs (rw y at e)
    | inr n ↦ ground (arith, rw n at e)
  ]

  parts_from :
      (fuel : ℕ) (text left : List ℕ)
      → skip sep text ≡ left
      → ((t : List ℕ) → length t ≤ fuel → parts sep fuel t ≡ words sep t)
      → length text ≤ suc fuel
      → parts sep (suc fuel) text ≡ words sep left
  unfolding parts
  parts_from fuel text [] e ih h = rw (e, parts) (unfold words in refl)
  parts_from fuel text (c ∷ cs) e ih h =
      let inside : sep c ≡ false = skip_stops text c cs e in
      rw (e, parts)
        (rw (words-part c cs inside) (
          ap (λ (t : List (List ℕ)). take_part sep (c ∷ cs) ∷ t)
            (ih (drop_part sep (c ∷ cs)) (
              omega (
                arith,
                length-drop_part_lt c cs inside,
                length-skip text,
                ap (λ (t : List ℕ). length t) e,
              )))))

  -- With fuel for each character the loop visits exactly the runs of the text.
  pub parts-words :
      (fuel : ℕ) (text : List ℕ) → length text ≤ fuel → parts sep fuel text ≡ words sep text
  unfolding parts
  parts-words zero [] h = unfold words in refl
  parts-words zero (c ∷ cs) h = absurd (omega arith)
  parts-words (suc fuel) text h =
      parts_from fuel text (skip sep text) refl (parts-words fuel) h ∙ words-skip text

abbrev pub IsName : List ℕ → Type 0
IsName p = (is_empty p ≡ false) × All (λ c. is_slash c ≡ false) p

-- Each run is not empty and holds no separator.
pub words-IsName : (text : List ℕ) → All IsName (words is_slash text)
unfolding words
words-IsName [] = tt
words-IsName (c ∷ cs) = elim (Bool-cases (is_slash c)) [
  | inl y ↦ rw y (words-IsName cs)
  | inr n ↦ rw n (grown c cs n (words is_slash cs) (starts is_slash cs) (words-IsName cs))
]
  where
    grown :
        (c : ℕ) (cs : List ℕ)
        → is_slash c ≡ false
        → (ps : List (List ℕ)) (b : Bool) → All IsName ps
        → All IsName (if b then (c ∷ []) ∷ ps else extend c ps)
    grown c cs n ps true h = ((refl, (n, tt)), h)
    grown c cs n [] false h = ((refl, (n, tt)), tt)
    grown c cs n (p ∷ ps) false h = ((refl, (n, h.0.1)), h.1)

abbrev opened : Bool → List ℕ → ℕ
opened inside text = if inside then (if starts is_slash text then 0 else 1) else 0

count-words :
    (text : List ℕ) (inside : Bool) (n : ℕ)
    → count_names text inside n + opened inside text ≡ n + length (words is_slash text)
unfolding count_names words
count-words [] inside n = ground arith
count-words (c ∷ []) inside n = ground arith
count-words (c ∷ d ∷ cs) true n =
    ground (arith, count-words (d ∷ cs) false n, count-words (d ∷ cs) true n)
count-words (c ∷ d ∷ cs) false n =
    ground (arith, count-words (d ∷ cs) false n, count-words (d ∷ cs) true (n + 1))

-- NameCount is the number of runs that the scan of Normalized visits.
pub name_count-parts :
    (text : List ℕ) → name_count text ≡ length (parts is_slash (length text) text)
unfolding name_count
name_count-parts text =
    rw (parts-words is_slash (length text) text (omega arith))
      (omega (arith, count-words text false 0))
