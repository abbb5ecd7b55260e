-- ===== src/Paths.antt =====
-- UEFIpp/Source/FileSystem/Path.cpp: paths as texts of components between backslashes.
-- A path is the list of its characters. Of a vector of components the head is the back.
-- `fits n` is the allocator's answer to a string whose storage must hold n elements, `slots n` its
-- answer to a vector of n components; where one is refused, most functions return an empty path.
pub mod Names
pub mod Normal
pub mod Files
mod Tests
use mathlib.Core.List.{reverse}
use uefipp.Base.{
  ℕ, zero, suc, ◌+◌, ◌-◌, Bool, true, false, not, ◌&&◌, ◌||◌, Option, none, some, List, [], ◌∷◌,
  ◌++◌, length, ◌==◌, if◌then◌else◌, Expected, value, unexpected, ◌>>=◌, ◌>>◌, require,
}
use uefipp.Strings.{is_empty, back, same, substr, substr_from, ends_with, find_last}

abbrev pub separator : ℕ
separator = 92

abbrev pub dot : ℕ
dot = 46

-- `'\\'` alone, in Components; `'\\'` or `'/'`, in Normalized and NameCount.
abbrev pub is_backslash : ℕ → Bool
is_backslash c = c == separator

abbrev pub is_slash : ℕ → Bool
is_slash c = c == separator || c == 47

abbrev pub root : List ℕ
root = separator ∷ []

abbrev pub here : List ℕ
here = dot ∷ []

abbrev pub parent_name : List ℕ
parent_name = dot ∷ dot ∷ []

pub is_absolute : List ℕ → Bool
is_absolute [] = false
is_absolute (c ∷ cs) = c == separator

pub is_root : List ℕ → Bool
is_root text = same text root

-- The scan that Components and Normalized share: skip separators, then cut at the next one.
pub skip : (ℕ → Bool) → List ℕ → List ℕ
skip sep [] = []
skip sep (c ∷ cs) = if sep c then skip sep cs else c ∷ cs

pub take_part : (ℕ → Bool) → List ℕ → List ℕ
take_part sep [] = []
take_part sep (c ∷ cs) = if sep c then [] else c ∷ take_part sep cs

pub drop_part : (ℕ → Bool) → List ℕ → List ℕ
drop_part sep [] = []
drop_part sep (c ∷ cs) = if sep c then c ∷ cs else drop_part sep cs

-- The loop over `Start`, on fuel: the parts that it visits, in order.
pub parts : (ℕ → Bool) → ℕ → List ℕ → List (List ℕ)
parts sep zero text = []
parts sep (suc fuel) text = elim (skip sep text) [
  | [] ↦ []
  | c ∷ cs ↦ take_part sep (c ∷ cs) ∷ parts sep fuel (drop_part sep (c ∷ cs))
]

-- NameCount counts the parts by one pass over the characters.
pub count_names : List ℕ → Bool → ℕ → ℕ
count_names [] inside count = count
count_names (c ∷ cs) inside count =
    if is_slash c
    then count_names cs false count
    else count_names cs true (if inside then count else count + 1)

pub name_count : List ℕ → ℕ
name_count text = count_names text false 0

pub file_name : List ℕ → List ℕ
file_name text =
    if is_empty text || is_root text
    then []
    else elim (find_last text separator) [ none ↦ text | some i ↦ substr_from text (i + 1) ]

-- Extension and Stem of the view `Name`.
pub name_extension : List ℕ → List ℕ
name_extension name = elim (find_last name dot) [ none ↦ [] | some i ↦ substr_from name (i + 1) ]

pub name_stem : List ℕ → List ℕ
name_stem name = elim (find_last name dot) [ none ↦ name | some i ↦ substr name 0 i ]

pub extension : List ℕ → List ℕ
extension text = name_extension (file_name text)

pub stem : List ℕ → List ℕ
stem text = name_stem (file_name text)

-- `Name.Data() - View().Data()`: the file name is a tail of the path.
abbrev pub name_offset : List ℕ → ℕ
name_offset text = length text - length (file_name text)

pub has_extension : List ℕ → Bool
has_extension text = not (is_empty (extension text))

-- Memory was refused.
abbrev pub Fallible : Type 0 → Type 0
Fallible A = Expected (Unit {0}) A

-- `if (!ok) return Path{Allocator()};`
abbrev pub or_empty : Fallible (List ℕ) → List ℕ
or_empty (value text) = text
or_empty (unexpected _) = []

module _ (fits slots : ℕ → Bool) where
  pub append : List ℕ → List ℕ → Fallible (List ℕ)
  append text [] = value text
  append text (c ∷ cs) = do
    require (fits (length text + length (c ∷ cs) + 1)) tt
    value (text ++ (c ∷ cs))

  -- A copy; where memory is refused, it is empty.
  pub copied : List ℕ → List ℕ
  copied text = if fits (length text + 1) then text else []

  pub push : List (List ℕ) → List ℕ → Fallible (List (List ℕ))
  push stack part = do require (slots (length stack + 1)) tt; value (part ∷ stack)

  pub push_each : List (List ℕ) → List (List ℕ) → Fallible (List (List ℕ))
  push_each stack [] = value stack
  push_each stack (p ∷ ps) = do longer ← push stack p; push_each longer ps

  -- The components in order; none where memory is refused.
  pub components : List ℕ → List (List ℕ)
  components text = elim (push_each [] (parts is_backslash (length text) text)) [
    | value stack ↦ reverse stack
    | unexpected _ ↦ []
  ]

  -- What Normalized does with one part.
  pub visit : Bool → List (List ℕ) → List ℕ → Fallible (List (List ℕ))
  visit absolute stack part =
      if same part here
      then value stack
      else if same part parent_name
      then elim stack [ p ∷ ps ↦ value ps | [] ↦ if not absolute then push [] part else value [] ]
      else push stack part

  pub visit_each : Bool → List (List ℕ) → List (List ℕ) → Fallible (List (List ℕ))
  visit_each absolute stack [] = value stack
  visit_each absolute stack (p ∷ ps) = do next ← visit absolute stack p; visit_each absolute next ps

  pub separated : List ℕ → Fallible (List ℕ)
  separated text =
      if not (is_empty text) && not (back text == separator) then append text root else value text

  pub join_each : List ℕ → List (List ℕ) → Fallible (List ℕ)
  join_each text [] = value text
  join_each text (p ∷ ps) = do
    spaced ← separated text
    longer ← append spaced p
    join_each longer ps

  pub rooted : Bool → Fallible (List ℕ)
  rooted absolute = if absolute then append [] root else value []

  pub normalized : List ℕ → List ℕ
  normalized text = or_empty do
    start ← rooted (is_absolute text)
    stack ← visit_each (is_absolute text) [] (parts is_slash (length text) text)
    result ← join_each start (reverse stack)
    if is_empty result && is_absolute text then append result root else value result

  -- Both overloads of Join; the static one takes the allocator, which is the same here.
  pub join : List ℕ → List ℕ → List ℕ
  join left right =
      if is_empty left
      then copied right
      else if is_empty right
      then copied left
      else or_empty do
        spaced ←
            (if ends_with (copied left) separator
              then value (copied left)
              else append (copied left) root)
        result ← append spaced right
        value (normalized result)

  pub parent_of : List ℕ → List ℕ
  parent_of normal =
      if is_empty normal || is_root normal then normal else elim (find_last normal separator) [
        | none ↦ []
        | some i ↦ if i == 0 then copied root else copied (substr normal 0 i)
      ]

  pub parent : List ℕ → List ℕ
  parent text = parent_of (normalized text)

  pub dotted : List ℕ → List ℕ → List ℕ
  dotted text new =
      if is_empty new then text else or_empty do with_dot ← append text here; append with_dot new

  -- `NameOffset` is where the file name starts in the path.
  pub replace_at : Option ℕ → List ℕ → List ℕ → List ℕ
  replace_at none text new = dotted (copied text) new
  replace_at (some i) text new = dotted (copied (substr (copied text) 0 (name_offset text + i))) new

  pub replace_extension : List ℕ → List ℕ → List ℕ
  replace_extension text new = replace_at (find_last (file_name text) dot) text new

  pub remove_extension : List ℕ → List ℕ
  remove_extension text = replace_extension text []

  -- Drops the components that both lists start with.
  pub unshared : List (List ℕ) → List (List ℕ) → List (List ℕ) × List (List ℕ)
  unshared [] bs = ([], bs)
  unshared (t ∷ ts) [] = (t ∷ ts, [])
  unshared (t ∷ ts) (b ∷ bs) =
      let rest = unshared ts bs in if same t b then rest else (t ∷ ts, b ∷ bs)

  pub join_up : List ℕ → List (List ℕ) → List ℕ
  join_up result [] = result
  join_up result (b ∷ bs) = join_up (join result (copied parent_name)) bs

  pub join_down : List ℕ → List (List ℕ) → List ℕ
  join_down result [] = result
  join_down result (t ∷ ts) = join_down (join result (copied t)) ts

  pub relative_to : List ℕ → List ℕ → List ℕ
  relative_to text base =
      let left = unshared (components (normalized text)) (components (normalized (copied base))) in
      join_down (join_up [] left.1) left.0
