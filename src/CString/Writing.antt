-- ===== src/CString/Writing.antt =====
-- What strcpy and strcat of String.cpp leave in memory.
use uefipp.Base.{
  ℕ, zero, suc, ◌+◌, ◌≤◌, ◌<◌, ◌≡◌, ◌≢◌, ◌⊎◌, refl, ◌∙◌, true, false, List, [], ◌∷◌, ◌++◌, length,
  some, arith, ◌==◌, ◌||◌,
}
use uefipp.CString.{Memory, store, copy_from, strcpy, strcat}
use uefipp.CString.Texts.{IsText, strlen-IsText}

-- Where the memory of a text is the same, the text is.
kept-IsText :
    (m m' : Memory) (cs : List ℕ) (p : ℕ)
    → IsText m p cs
    → ((a : ℕ) → p ≤ a → a ≤ p + length cs → m' a ≡ m a)
    → IsText m' p cs
kept-IsText m m' [] p t same = same p (omega arith) (omega arith) ∙ t
kept-IsText m m' (c ∷ cs) p (here, nonzero, rest) same = (
  same p (omega arith) (omega arith) ∙ here,
  nonzero,
  kept-IsText m m' cs (p + 1) rest (λ a lo hi. same a (omega arith) (omega arith)),
)

stored : (m : Memory) (at c : ℕ) → store m at c at ≡ c
stored m at c = ground arith

unstored : (m : Memory) (at c a : ℕ) → a ≢ at → store m at c a ≡ m a
unstored m at c a h = ground arith

-- `m'` is the memory `m`, but for the text that now stands at `d`.
pub record Wrote (m : Memory) (d : ℕ) (cs : List ℕ) (m' : Memory) : Type 0 where
  pub text : IsText m' d cs
  pub before : (a : ℕ) → a < d → m' a ≡ m a
  pub behind : (a : ℕ) → d + length cs < a → m' a ≡ m a

copy_from-Wrote :
    (m : Memory) (cs : List ℕ) (fuel d s : ℕ)
    → IsText m s cs
    → (d + length cs < s) ⊎ (s + length cs < d)
    → length cs < fuel
    → (m' : Memory) × (copy_from m fuel d s ≡ some m') × Wrote m d cs m'
unfolding copy_from
copy_from-Wrote m cs zero d s t apart h = absurd (omega arith)
copy_from-Wrote m [] (suc fuel) d s t apart h =
    let stop : (m s == 0) ≡ true = ground arith in
    (
      store m d (m s),
      rw (stop, copy_from) refl,
      record {
        text = stored m d (m s) ∙ t;
        before = λ a lt. unstored m d (m s) a (λ e. omega arith);
        behind = λ a lt. unstored m d (m s) a (λ e. omega arith);
      },
    )
copy_from-Wrote m (c ∷ cs) (suc fuel) d s (here, nonzero, rest) apart h =
    let more : (m s == 0) ≡ false = ground arith in
    let next : Memory = store m d (m s) in
    let unread : IsText next (s + 1) cs =
      kept-IsText m next cs (s + 1) rest (λ a lo hi. unstored m d (m s) a (λ e. omega arith)) in
    let (m', e, w) =
      copy_from-Wrote next cs fuel (d + 1) (s + 1) unread (ground arith) (omega arith) in
    (
      m',
      rw (more, copy_from) e,
      record {
        text = (w.before d (omega arith) ∙ stored m d (m s) ∙ here, nonzero, w.text);
        before = λ a lt. w.before a (omega arith) ∙ unstored m d (m s) a (λ q. omega arith);
        behind = λ a lt. w.behind a (omega arith) ∙ unstored m d (m s) a (λ q. omega arith);
      },
    )

-- With a round for each character and one more, strcpy of a text to a place apart from it writes the
-- text there, and changes no other character.
pub strcpy-Wrote :
    (m : Memory) (cs : List ℕ) (fuel d s : ℕ)
    → d ≢ 0
    → s ≢ 0
    → IsText m s cs
    → (d + length cs < s) ⊎ (s + length cs < d)
    → length cs < fuel
    → (m' : Memory) × (strcpy m fuel d s ≡ some m') × Wrote m d cs m'
unfolding strcpy
strcpy-Wrote m cs fuel d s there here t apart h =
    let both : (d == 0 || s == 0) ≡ false = ground arith in
    rw both (copy_from-Wrote m cs fuel d s t apart h)

-- A text whose terminator is written over by another text.
joined-IsText :
    (m m' : Memory) (ds cs : List ℕ) (d : ℕ)
    → IsText m d ds
    → ((a : ℕ) → d ≤ a → a < d + length ds → m' a ≡ m a)
    → IsText m' (d + length ds) cs
    → IsText m' d (ds ++ cs)
joined-IsText m m' [] cs d t same u = let start : d + 0 ≡ d = omega arith in rw start at u
joined-IsText m m' (x ∷ ds) cs d (here, nonzero, rest) same u =
    let place : d + suc (length ds) ≡ d + 1 + length ds = omega arith in
    (
      same d (omega arith) (omega arith) ∙ here,
      nonzero,
      joined-IsText m m' ds cs (d + 1) rest (λ a lo hi. same a (omega arith) (omega arith))
          (rw place at u),
    )

-- With a round for each character of either text and one more, strcat to a text from one that stands
-- apart from the room it needs makes the first text the two joined.
pub strcat-IsText :
    (m : Memory) (ds cs : List ℕ) (fuel d s : ℕ)
    → d ≢ 0
    → s ≢ 0
    → IsText m d ds
    → IsText m s cs
    → (d + length ds + length cs < s) ⊎ (s + length cs < d + length ds)
    → length ds < fuel
    → length cs < fuel
    → (m' : Memory) × (strcat m fuel d s ≡ some m') × IsText m' d (ds ++ cs)
unfolding strcat
strcat-IsText m ds cs fuel d s there here t u apart h k =
    let both : (d == 0 || s == 0) ≡ false = ground arith in
    let (m', e, w) =
      strcpy-Wrote m cs fuel (d + length ds) s (λ q. there (omega arith)) here u apart k in
    (
      m',
      rw (both, strlen-IsText m ds fuel d there t h) e,
      joined-IsText m m' ds cs d t (λ a lo hi. w.before a hi) (w.text),
    )
