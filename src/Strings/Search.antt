-- ===== src/Strings/Search.antt =====
-- Equality and searching of views against plain descriptions.
use uefipp.Base.{
  ℕ, zero, suc, ◌+◌, ◌<◌, ◌≤◌, ◌≡◌, ◌≢◌, refl, true, false, none, some, List, [], ◌∷◌, ◌++◌, length,
  get_or, All, arith, Bool-cases, inl, inr, length-append,
}
use uefipp.Strings.{same, back, find_last, find_last_before, is_empty}

pub same→eq : (xs ys : List ℕ) → same xs ys ≡ true → xs ≡ ys
unfolding same
same→eq [] [] h = refl
same→eq [] (y ∷ ys) h = cc
same→eq (x ∷ xs) [] h = cc
same→eq (x ∷ xs) (y ∷ ys) h = ground (arith, same→eq xs ys)

pub same_refl : (xs : List ℕ) → same xs xs ≡ true
unfolding same
same_refl [] = refl
same_refl (x ∷ xs) = ground (arith, same_refl xs)

pub same_ne : (xs ys : List ℕ) → xs ≢ ys → same xs ys ≡ false
same_ne xs ys h = elim (Bool-cases (same xs ys)) [
  | inl y ↦ absurd (h (same→eq xs ys y))
  | inr n ↦ n
]

-- No character of the list is `c`.
abbrev pub Lacks : ℕ → List ℕ → Type 0
Lacks c = All λ x. x ≢ c

pub back-append : (xs ys : List ℕ) (y : ℕ) → back (xs ++ (y ∷ ys)) ≡ back (y ∷ ys)
back-append [] ys y = refl
back-append (x ∷ []) ys y = refl
back-append (x ∷ z ∷ xs) ys y = back-append (z ∷ xs) ys y

get_or-append_left :
    (xs ys : List ℕ) (i : ℕ) → i < length xs → get_or (xs ++ ys) i 0 ≡ get_or xs i 0
get_or-append_left [] ys i h = elim h [ ]
get_or-append_left (x ∷ xs) ys zero h = refl
get_or-append_left (x ∷ xs) ys (suc i) h = get_or-append_left xs ys i (omega arith)

get_or-Lacks : (c : ℕ) (xs : List ℕ) (i : ℕ) → Lacks c xs → i < length xs → get_or xs i 0 ≢ c
get_or-Lacks c [] i h k = elim k [ ]
get_or-Lacks c (x ∷ xs) zero h k = h.0
get_or-Lacks c (x ∷ xs) (suc i) h k = get_or-Lacks c xs i h.1 (omega arith)

get_or-append_right : (xs ys : List ℕ) (i : ℕ) → get_or (xs ++ ys) (length xs + i) 0 ≡ get_or ys i 0
get_or-append_right [] ys i = let e : 0 + i ≡ i = omega arith in rw e
get_or-append_right (x ∷ xs) ys i =
    let e : suc (length xs) + i ≡ suc (length xs + i) = omega arith in
    rw e (get_or-append_right xs ys i)

before_none :
    (text : List ℕ) (c n : ℕ) → Lacks c text → n ≤ length text → find_last_before text c n ≡ none
unfolding find_last_before
before_none text c zero h k = refl
before_none text c (suc n) h k =
    ground (arith, get_or-Lacks c text n h (omega arith), before_none text c n h (omega arith))

-- Scanning down from inside the part behind the last occurrence.
before_found :
    (front after : List ℕ) (c n : ℕ)
    → Lacks c after
    → n ≤ length after
    → find_last_before (front ++ (c ∷ after)) c (length front + suc n) ≡ some (length front)
unfolding find_last_before
before_found front after c zero h k =
    let e : length front + 1 ≡ suc (length front) = omega arith in
    let f : length front + 0 ≡ length front = omega arith in
    rw e (ground (arith, rw f at (get_or-append_right front (c ∷ after) 0)))
before_found front after c (suc n) h k =
    let e : length front + suc (suc n) ≡ suc (length front + suc n) = omega arith in
    rw e (
      ground (
        arith,
        get_or-append_right front (c ∷ after) (suc n),
        get_or-Lacks c after n h (omega arith),
        before_found front after c n h (omega arith),
      ))

-- `FindLast` answers `NotFound` on a view that lacks the character.
pub find_last-Lacks : (text : List ℕ) (c : ℕ) → Lacks c text → find_last text c ≡ none
unfolding find_last
find_last-Lacks [] c h = refl
find_last-Lacks (x ∷ xs) c h = before_none (x ∷ xs) c (length (x ∷ xs)) h (omega arith)

nonempty : (front after : List ℕ) (c : ℕ) → is_empty (front ++ (c ∷ after)) ≡ false
nonempty [] after c = refl
nonempty (x ∷ front) after c = refl

-- FindLast returns the place of the character behind which the character does not occur again.
pub find_last-append :
    (front after : List ℕ) (c : ℕ)
    → Lacks c after
    → find_last (front ++ (c ∷ after)) c ≡ some (length front)
unfolding find_last
find_last-append front after c h =
    rw (nonempty front after c, length-append front (c ∷ after))
      (before_found front after c (length after) h (omega arith))
