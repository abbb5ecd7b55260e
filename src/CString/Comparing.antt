-- ===== src/CString/Comparing.antt =====
-- strcmp of String.cpp on two texts.
use uefipp.Base.{
  ℕ, zero, suc, ◌+◌, ◌-◌, ltb, ◌<◌, ◌≡◌, ◌≢◌, ◌↔◌, refl, sym, ap, true, false, not, ◌&&◌, List, [],
  ◌∷◌, length, some, arith, ◌==◌, if◌then◌else◌, Bool-cases, inl, inr,
}
use uefipp.CString.{Memory, ℤ, difference, compare_from, strcmp}
use uefipp.CString.Texts.{IsText}

-- The result of strcmp on the characters of two texts.
abbrev pub order : List ℕ → List ℕ → ℤ
order [] [] = ℤ.pos 0
order [] (d ∷ ds) = difference 0 d
order (c ∷ cs) [] = difference c 0
order (c ∷ cs) (d ∷ ds) = if c == d then order cs ds else difference c d

compare_from-order :
    (m : Memory) (cs ds : List ℕ) (fuel l r : ℕ)
    → IsText m l cs
    → IsText m r ds
    → length cs < fuel
    → compare_from m fuel l r ≡ some (order cs ds)
unfolding compare_from
compare_from-order m cs ds zero l r s t h = absurd (omega arith)
compare_from-order m [] [] (suc fuel) l r s t h = rw (s, compare_from) (rw (s, t) refl)
compare_from-order m [] (d ∷ ds) (suc fuel) l r s (here, nonzero, rest) h =
    rw (s, compare_from) (rw (s, here) refl)
compare_from-order m (c ∷ cs) [] (suc fuel) l r (here, nonzero, rest) t h =
    let stop : (not (c == 0) && c == 0) ≡ false = ground arith in
    rw (here, t, stop, compare_from) (rw (here, t) refl)
compare_from-order m (c ∷ cs) (d ∷ ds) (suc fuel) l r (here, nonzero, rest) (there, other, behind)
      h =
    elim (Bool-cases (c == d)) [
      | inl y ↦
          let go : (not (c == 0) && c == d) ≡ true = ground arith in
          rw (here, there, go, y, compare_from)
            (compare_from-order m cs ds fuel (l + 1) (r + 1) rest behind (omega arith))
      | inr n ↦
          let stop : (not (c == 0) && c == d) ≡ false = ground arith in
          rw (here, there, stop, n, compare_from) (rw (here, there) refl)
    ]

difference_zero : (l r : ℕ) → difference l r ≡ ℤ.pos 0 → l ≡ r
difference_zero l r h = elim (Bool-cases (ltb l r)) [
  | inl y ↦ cc (y, h)
  | inr n ↦
      let small : ℤ.pos (l - r) ≡ ℤ.pos 0 = cc (n, h) in
      let none : l - r ≡ 0 = cc small in let le = n in ground arith
]

order_equal : (cs : List ℕ) → order cs cs ≡ ℤ.pos 0
order_equal [] = refl
order_equal (c ∷ cs) = let same : (c == c) ≡ true = ground arith in rw same (order_equal cs)

order_zero :
    (m : Memory) (cs ds : List ℕ) (l r : ℕ)
    → IsText m l cs
    → IsText m r ds
    → order cs ds ≡ ℤ.pos 0
    → cs ≡ ds
order_zero m [] [] l r s t e = refl
order_zero m [] (d ∷ ds) l r s (there, other, behind) e =
    absurd (other (sym (difference_zero 0 d e)))
order_zero m (c ∷ cs) [] l r (here, nonzero, rest) t e = absurd (nonzero (difference_zero c 0 e))
order_zero m (c ∷ cs) (d ∷ ds) l r (here, nonzero, rest) (there, other, behind) e =
    elim (Bool-cases (c == d)) [
      | inl y ↦
          let same : c ≡ d = ground arith in
          let more = order_zero m cs ds (l + 1) (r + 1) rest behind (rw y at e) in
          rw (same, more) refl
      | inr n ↦ let same : c ≡ d = difference_zero c d (rw n at e) in absurd (ground arith)
    ]

-- With a round for each character and one more, strcmp of two texts returns 0 exactly if they are
-- equal.
pub strcmp_iff :
    (m : Memory) (cs ds : List ℕ) (fuel l r : ℕ)
    → l ≢ 0
    → r ≢ 0
    → l ≢ r
    → IsText m l cs
    → IsText m r ds
    → length cs < fuel
    → (strcmp m fuel l r ≡ some (ℤ.pos 0)) ↔ (cs ≡ ds)
unfolding strcmp
strcmp_iff m cs ds fuel l r left right apart s t h =
    let a : (l == r) ≡ false = ground arith in
    let b : (l == 0) ≡ false = ground arith in
    let c : (r == 0) ≡ false = ground arith in
    let result = compare_from-order m cs ds fuel l r s t h in
    rw (a, b, c, result)
      (
        (λ e. order_zero m cs ds l r s t (cc e)),
        (λ e. ap (λ (o : ℤ). some o) (rw e (order_equal ds))),
      )
