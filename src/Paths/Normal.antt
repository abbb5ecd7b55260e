-- ===== src/Paths/Normal.antt =====
-- What Path::Normalized computes where memory suffices: the runs of the path collapsed by a stack,
-- and set between single backslashes.
pub mod Stack
pub mod Text
pub mod Again
use mathlib.Core.List.{reverse}
use uefipp.Base.{ℕ, ◌≡◌, Bool, true, false, not, List, [], ◌∷◌, ◌++◌, All, if◌then◌else◌}
use uefipp.Strings.{same}
use uefipp.Paths.{here, parent_name, separator, root}
use uefipp.Paths.Names.{IsName}

-- One component: `.` is dropped, `..` removes what stands before it or, in a relative path, stays
-- where nothing stands before it.
unfoldable pub collapse_part : Bool → List (List ℕ) → List ℕ → List (List ℕ)
collapse_part absolute stack part =
    if same part here
    then stack
    else if same part parent_name
    then elim stack [ p ∷ ps ↦ ps | [] ↦ if not absolute then part ∷ [] else [] ]
    else part ∷ stack

abbrev pub collapse : Bool → List (List ℕ) → List (List ℕ) → List (List ℕ)
collapse absolute stack [] = stack
collapse absolute stack (p ∷ ps) = collapse absolute (collapse_part absolute stack p) ps

abbrev pub prefixed : List (List ℕ) → List ℕ
prefixed [] = []
prefixed (p ∷ ps) = separator ∷ (p ++ prefixed ps)

abbrev pub body : List (List ℕ) → List ℕ
body [] = []
body (p ∷ ps) = p ++ prefixed ps

abbrev pub start : Bool → List ℕ
start absolute = if absolute then root else []

-- A component of a normal path: a name, not `.`, and `..` only at the front of a relative path.
abbrev pub Clean : Bool → List (List ℕ) → Type 0
Clean absolute [] = Unit
Clean absolute (p ∷ ps) =
    IsName p
    × (same p here ≡ false)
    × (same p parent_name ≡ true → (ps ≡ []) × (absolute ≡ false))
    × Clean absolute ps
