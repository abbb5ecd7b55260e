-- ===== src/CString/Tests.antt =====
-- Two texts in memory.
use uefipp.Base.{ℕ, ◌≡◌, inl, refl, List, [], ◌∷◌, ◌++◌, some, arith, ◌==◌, if◌then◌else◌}
use uefipp.CString.{Memory, ℤ, strcat, strncmp, compare_some}
use uefipp.CString.Texts.{IsText}
use uefipp.CString.Writing.{strcat-IsText}

-- `ab` at 16 and `c` at 32.
abbrev memory : Memory
memory a = if a == 16 then 97 else if a == 17 then 98 else if a == 32 then 99 else 0

abbrev text_ab : List ℕ
text_ab = 97 ∷ 98 ∷ []

abbrev text_c : List ℕ
text_c = 99 ∷ []

ab : IsText memory 16 text_ab
ab = (refl, (λ p. omega arith), (refl, (λ p. omega arith), refl))

c : IsText memory 32 text_c
c = (refl, (λ p. omega arith), refl)

-- Only the first character is compared.
compares_one : strncmp memory 16 32 1 ≡ ℤ.negsuc 1
unfolding strncmp compare_some
compares_one = refl

strcat-IsText_example :
    (m' : Memory) × (strcat memory 3 16 32 ≡ some m') × IsText m' 16 (text_ab ++ text_c)
strcat-IsText_example =
    strcat-IsText memory text_ab text_c 3 16 32 (λ p. omega arith) (λ p. omega arith) ab c
      (inl (omega arith)) (omega arith) (omega arith)
