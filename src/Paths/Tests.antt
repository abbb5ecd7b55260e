-- ===== src/Paths/Tests.antt =====
-- Runs of the path operations on short paths.
use uefipp.Base.{ℕ, ◌≡◌, refl, Bool, true, false, List, [], ◌∷◌, ◌++◌, arith}
use mathlib.Core.List.{reverse}
use uefipp.Strings.Search.{Lacks}
use uefipp.Paths.{is_slash, is_absolute, normalized, extension, stem, replace_extension, separator}
use uefipp.Paths.Names.{words}
use uefipp.Paths.Normal.{collapse, body, start}
use uefipp.Paths.Normal.Again.{normalized-collapse, normalized_idempotent, normalized_loses_parents}
use uefipp.Paths.Files.{file, extension-replace_extension}

abbrev any : ℕ → Bool
any n = true

roomy : (n : ℕ) → any n ≡ true
roomy n = refl

-- `\a\..\b/.`
abbrev winding : List ℕ
winding = 92 ∷ 97 ∷ 92 ∷ 46 ∷ 46 ∷ 92 ∷ 98 ∷ 47 ∷ 46 ∷ []

relative : is_absolute (97 ∷ []) ≡ false
unfolding is_absolute
relative = refl

-- The file `a.b.c` in the directory `\d`.
abbrev the_stem : List ℕ
the_stem = 97 ∷ 46 ∷ 98 ∷ []

stem-Lacks : Lacks separator the_stem
stem-Lacks = ((λ p. omega arith), ((λ p. omega arith), ((λ p. omega arith), tt)))

extension-Lacks : Lacks separator (99 ∷ [])
extension-Lacks = ((λ p. omega arith), tt)

extension_undotted : Lacks 46 (99 ∷ [])
extension_undotted = ((λ p. omega arith), tt)

new-Lacks : Lacks separator (101 ∷ [])
new-Lacks = ((λ p. omega arith), tt)

new_undotted : Lacks 46 (101 ∷ [])
new_undotted = ((λ p. omega arith), tt)

normalized-collapse_example :
    normalized any any winding
    ≡ start (is_absolute winding)
      ++ body (reverse (collapse (is_absolute winding) [] (words is_slash winding)))
normalized-collapse_example = normalized-collapse any any roomy roomy winding

normalized_idempotent_example :
    normalized any any (normalized any any winding) ≡ normalized any any winding
normalized_idempotent_example = normalized_idempotent any any roomy roomy winding

normalized_loses_parents_example :
    normalized any any (46 ∷ 46 ∷ 92 ∷ 46 ∷ 46 ∷ 92 ∷ 97 ∷ []) ≡ normalized any any (97 ∷ [])
normalized_loses_parents_example = normalized_loses_parents any any roomy roomy (97 ∷ []) relative

extension-replace_extension_example :
    (extension (replace_extension any any (file (92 ∷ 100 ∷ []) the_stem (99 ∷ [])) (101 ∷ []))
      ≡ 101 ∷ [])
    × (stem (replace_extension any any (file (92 ∷ 100 ∷ []) the_stem (99 ∷ [])) (101 ∷ []))
        ≡ the_stem)
extension-replace_extension_example =
    extension-replace_extension any any roomy (92 ∷ 100 ∷ []) the_stem (99 ∷ []) [] 101 stem-Lacks
      extension-Lacks extension_undotted new-Lacks new_undotted
