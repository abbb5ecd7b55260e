-- ===== src/Strings/Tests.antt =====
-- A search in a short text.
use uefipp.Base.{◌≡◌, refl, [], ◌∷◌, some, arith}
use uefipp.Strings.{find, find_after}
use uefipp.Strings.Search.{Lacks}

finds_first : find (97 ∷ 46 ∷ 98 ∷ 46 ∷ []) 46 0 ≡ some 1
unfolding find find_after
finds_first = refl

lacks : Lacks 46 (99 ∷ [])
lacks = ((λ p. omega arith), tt)
