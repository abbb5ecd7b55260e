-- ===== src/CString/Texts.antt =====
-- Terminated texts in memory, and the length that strlen finds.
use uefipp.Base.{
  ℕ, zero, suc, ◌+◌, ◌<◌, ◌≡◌, ◌≢◌, ap, ◌∙◌, true, false, List, [], ◌∷◌, length, some, arith, ◌==◌,
}
use uefipp.CString.{Memory, length_from, strlen}

-- The characters of a text stand at an address, none of them 0, and 0 stands behind them.
abbrev pub IsText : Memory → ℕ → List ℕ → Type 0
IsText m p [] = m p ≡ 0
IsText m p (c ∷ cs) = (m p ≡ c) × (c ≢ 0) × IsText m (p + 1) cs

length_from_text :
    (m : Memory) (cs : List ℕ) (fuel p n : ℕ)
    → IsText m (p + n) cs
    → length cs < fuel
    → length_from m fuel p n ≡ some (n + length cs)
unfolding length_from
length_from_text m cs zero p n t h = absurd (omega arith)
length_from_text m [] (suc fuel) p n t h =
    let zero_there : (m (p + n) == 0) ≡ true = ground arith in
    rw (zero_there, length_from) (ap (λ (k : ℕ). some k) (omega arith))
length_from_text m (c ∷ cs) (suc fuel) p n (here, nonzero, rest) h =
    let more : (m (p + n) == 0) ≡ false = ground arith in
    let next : p + n + 1 ≡ p + (n + 1) = omega arith in
    rw (more, length_from)
      (length_from_text m cs fuel p (n + 1) (rw next at rest) (omega arith)
        ∙ ap (λ (k : ℕ). some k) (omega arith))

-- With a round for each character and one more, strlen returns the length of a text.
pub strlen-IsText :
    (m : Memory) (cs : List ℕ) (fuel p : ℕ)
    → p ≢ 0
    → IsText m p cs
    → length cs < fuel
    → strlen m fuel p ≡ some (length cs)
unfolding strlen
strlen-IsText m cs fuel p nonzero t h =
    let there : (p == 0) ≡ false = ground arith in
    let start : p ≡ p + 0 = omega arith in
    rw there
      (length_from_text m cs fuel p 0 (rw start at t) h ∙ ap (λ (k : ℕ). some k) (omega arith))
