-- ===== src/Paths/Normal/Text.antt =====
-- The text of a normal path, and what scanning it again finds.
use uefipp.Base.{ℕ, ◌≡◌, refl, Bool, true, false, List, [], ◌∷◌, ◌++◌, All, arith}
use uefipp.Paths.{is_slash, is_absolute}
use uefipp.Paths.Names.{IsName, words, starts}
use uefipp.Paths.Normal.{prefixed, body, start}

words-name :
    (p rest : List ℕ) (ws : List (List ℕ))
    → IsName p
    → starts is_slash rest ≡ true
    → words is_slash rest ≡ ws
    → words is_slash (p ++ rest) ≡ p ∷ ws
unfolding words
words-name [] rest ws n s e = cc (n.0)
words-name (c ∷ []) rest ws n s e = ground arith
words-name (c ∷ d ∷ ds) rest ws n s e =
    ground (arith, words-name (d ∷ ds) rest ws (refl, n.1.1) s e)

starts-prefixed : (ps : List (List ℕ)) → starts is_slash (prefixed ps) ≡ true
starts-prefixed [] = refl
starts-prefixed (p ∷ ps) = refl

words-prefixed : (ps : List (List ℕ)) → All IsName ps → words is_slash (prefixed ps) ≡ ps
unfolding words
words-prefixed [] h = refl
words-prefixed (p ∷ ps) h =
    words-name p (prefixed ps) ps h.0 (starts-prefixed ps) (words-prefixed ps h.1)

words-body : (ps : List (List ℕ)) → All IsName ps → words is_slash (body ps) ≡ ps
words-body [] h = unfold words in refl
words-body (p ∷ ps) h =
    words-name p (prefixed ps) ps h.0 (starts-prefixed ps) (words-prefixed ps h.1)

pub words-normal :
    (a : Bool) (ps : List (List ℕ)) → All IsName ps → words is_slash (start a ++ body ps) ≡ ps
words-normal true ps h = unfold words in words-body ps h
words-normal false ps h = words-body ps h

body_relative : (ps : List (List ℕ)) → All IsName ps → is_absolute (body ps) ≡ false
unfolding is_absolute
body_relative [] h = refl
body_relative ([] ∷ ps) h = cc (h.0.0)
body_relative ((c ∷ cs) ∷ ps) h = ground (arith, h.0.1.0)

pub absolute-normal :
    (a : Bool) (ps : List (List ℕ)) → All IsName ps → is_absolute (start a ++ body ps) ≡ a
absolute-normal true ps h = unfold is_absolute in refl
absolute-normal false ps h = body_relative ps h
