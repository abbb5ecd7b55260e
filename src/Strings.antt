-- ===== src/Strings.antt =====
-- UEFIpp/Include/UEFIpp/Library/String/StringView.hpp: the operations of BasicStringView that the
-- other parts call. A view is the list of its characters, and `NotFound` is `none`.
pub mod Search
mod Tests
use uefipp.Base.{
  ℕ, zero, suc, ◌+◌, ◌-◌, Bool, true, false, ◌&&◌, Option, none, some, List, [], ◌∷◌, length,
  get_or, take, drop, leb, ◌==◌, if◌then◌else◌,
}

abbrev pub is_empty : List ℕ → Bool
is_empty [] = true
is_empty (c ∷ cs) = false

-- `Back`, on a view that is not empty.
abbrev pub back : List ℕ → ℕ
back [] = 0
back (c ∷ []) = c
back (c ∷ d ∷ cs) = back (d ∷ cs)

-- `operator==`: sizes and characters agree.
unfoldable pub same : List ℕ → List ℕ → Bool
same [] [] = true
same [] (d ∷ ds) = false
same (c ∷ cs) [] = false
same (c ∷ cs) (d ∷ ds) = c == d && same cs ds

-- `Substr` with a count, and with the count left out.
abbrev pub substr : List ℕ → ℕ → ℕ → List ℕ
substr text position count =
    if leb (length text) position then [] else take count (drop position text)

abbrev pub substr_from : List ℕ → ℕ → List ℕ
substr_from text position = if leb (length text) position then [] else drop position text

abbrev pub ends_with : List ℕ → ℕ → Bool
ends_with [] c = false
ends_with (x ∷ xs) c = back (x ∷ xs) == c

-- The loop of `FindLast(Character)`, from `i` downwards.
pub find_last_before : List ℕ → ℕ → ℕ → Option ℕ
find_last_before text c zero = none
find_last_before text c (suc i) =
    let rest = find_last_before text c i in if get_or text i 0 == c then some i else rest

unfoldable pub find_last : List ℕ → ℕ → Option ℕ
unfolding find_last_before
find_last text c = if is_empty text then none else find_last_before text c (length text)

-- The loop of `Find(Character, Position)`; `i` is the index of the front of the list.
pub find_after : List ℕ → ℕ → ℕ → Option ℕ
find_after [] c i = none
find_after (x ∷ xs) c i = if x == c then some i else find_after xs c (i + 1)

pub find : List ℕ → ℕ → ℕ → Option ℕ
unfolding find_after
find text c position = find_after (drop position text) c position
