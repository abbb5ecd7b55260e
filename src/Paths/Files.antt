-- ===== src/Paths/Files.antt =====
-- File names, stems and extensions of a path.
use uefipp.Base.{
  ℕ, suc, ◌+◌, ◌≡◌, ◌≢◌, refl, sym, ap, Bool, true, false, List, [], ◌∷◌, ◌++◌, append_assoc,
  length, length-append, take, drop, All-append, arith, leb, Bool-cases, inl, inr,
}
use uefipp.Strings.{is_empty, same, substr, substr_from}
use uefipp.Strings.Search.{Lacks, find_last-append, same→eq}
use uefipp.Paths.{
  separator, dot, root, here, is_root, file_name, extension, stem, replace_extension, copied,
  dotted, name_offset, name_extension, name_stem, replace_at,
}
use uefipp.Paths.Normal.Again.{append_roomy}

drop-append : (xs ys : List ℕ) → drop (length xs) (xs ++ ys) ≡ ys
drop-append [] ys = refl
drop-append (x ∷ xs) ys = drop-append xs ys

take-append : (xs ys : List ℕ) → take (length xs) (xs ++ ys) ≡ xs
take-append [] ys = refl
take-append (x ∷ xs) ys = ap (λ (t : List ℕ). x ∷ t) (take-append xs ys)

drop_behind : (xs ys : List ℕ) (y : ℕ) → drop (suc (length xs)) (xs ++ (y ∷ ys)) ≡ ys
drop_behind [] ys y = refl
drop_behind (x ∷ xs) ys y = drop_behind xs ys y

pub substr_from_behind :
    (xs ys : List ℕ) (y : ℕ) → substr_from (xs ++ (y ∷ ys)) (length xs + 1) ≡ ys
substr_from_behind xs [] y = ground (arith, length-append xs (y ∷ []))
substr_from_behind xs (z ∷ zs) y =
    let e : length xs + 1 ≡ suc (length xs) = omega arith in
    let f : leb (length (xs ++ (y ∷ z ∷ zs))) (suc (length xs)) ≡ false =
      ground (arith, length-append xs (y ∷ z ∷ zs)) in
    rw (e, f) (drop_behind xs (z ∷ zs) y)

pub substr_front : (xs ys : List ℕ) (y : ℕ) → substr (xs ++ (y ∷ ys)) 0 (length xs) ≡ xs
substr_front xs ys y =
    let f : leb (length (xs ++ (y ∷ ys))) 0 ≡ false = ground (arith, length-append xs (y ∷ ys)) in
    rw f (take-append xs (y ∷ ys))

root_name : (front name : List ℕ) → front ++ (separator ∷ name) ≡ root → name ≡ []
root_name [] name e = ground arith
root_name (x ∷ []) name e = cc
root_name (x ∷ y ∷ front) name e = cc

not_empty : (front name : List ℕ) (c : ℕ) → is_empty (front ++ (c ∷ name)) ≡ false
not_empty [] name c = refl
not_empty (x ∷ front) name c = refl

-- The file name is what stands behind the last backslash.
pub file_name_behind :
    (front name : List ℕ) → Lacks separator name → file_name (front ++ (separator ∷ name)) ≡ name
unfolding file_name is_root
file_name_behind front name h = elim (Bool-cases (same (front ++ (separator ∷ name)) root)) [
  | inl y ↦
      rw (not_empty front name separator, y)
        (sym (root_name front name (same→eq (front ++ (separator ∷ name)) root y)))
  | inr n ↦
      rw (not_empty front name separator, n, find_last-append front name separator h)
        (substr_from_behind front name separator)
]

name_extension_behind : (s e : List ℕ) → Lacks dot e → name_extension (s ++ (dot ∷ e)) ≡ e
unfolding name_extension
name_extension_behind s e h =
    rw (name_extension, find_last-append s e dot h) (substr_from_behind s e dot)

name_stem_front : (s e : List ℕ) → Lacks dot e → name_stem (s ++ (dot ∷ e)) ≡ s
unfolding name_stem
name_stem_front s e h = rw (name_stem, find_last-append s e dot h) (substr_front s e dot)

Lacks-both :
    (s e : List ℕ) → Lacks separator s → Lacks separator e → Lacks separator (s ++ (dot ∷ e))
Lacks-both s e hs he = All-append (λ c. c ≢ separator) s (dot ∷ e) hs ((λ p. omega arith), he)

abbrev pub file : List ℕ → List ℕ → List ℕ → List ℕ
file front s e = front ++ (separator ∷ (s ++ (dot ∷ e)))

-- Stem and Extension split the file name, which is what follows the last separator, at its last
-- dot.
pub stem-extension :
    (front s e : List ℕ)
    → Lacks separator s
    → Lacks separator e
    → Lacks dot e
    → (stem (file front s e) ≡ s) × (extension (file front s e) ≡ e)
unfolding stem extension
stem-extension front s e hs he hd =
    let name = file_name_behind front (s ++ (dot ∷ e)) (Lacks-both s e hs he) in
    (rw name (name_stem_front s e hd), rw name (name_extension_behind s e hd))

module _ (fits slots : ℕ → Bool) (roomy : (n : ℕ) → fits n ≡ true) where
  copied_roomy : (text : List ℕ) → copied fits slots text ≡ text
  unfolding copied
  copied_roomy text = rw (roomy (length text + 1))

  dotted_roomy :
      (text : List ℕ) (c : ℕ) (new : List ℕ)
      → dotted fits slots text (c ∷ new) ≡ text ++ (dot ∷ c ∷ new)
  unfolding dotted
  dotted_roomy text c new =
      rw
        (
          append_roomy fits slots roomy text here,
          append_roomy fits slots roomy (text ++ here) (c ∷ new),
        )
        (append_assoc text here (c ∷ new))

  offset :
      (front s e : List ℕ)
      → Lacks separator (s ++ (dot ∷ e))
      → name_offset (file front s e) ≡ suc (length front)
  offset front s e h =
      rw (file_name_behind front (s ++ (dot ∷ e)) h)
        (omega (arith, length-append front (separator ∷ (s ++ (dot ∷ e)))))

  regroup : (front s e : List ℕ) → file front s e ≡ (front ++ (separator ∷ s)) ++ (dot ∷ e)
  regroup front s e = sym (append_assoc front (separator ∷ s) (dot ∷ e))

  kept_front :
      (front s e : List ℕ)
      → substr (file front s e) 0 (suc (length front) + length s) ≡ front ++ (separator ∷ s)
  kept_front front s e =
      let n : suc (length front) + length s ≡ length (front ++ (separator ∷ s)) =
        omega (arith, length-append front (separator ∷ s)) in
      rw (n, regroup front s e) (substr_front (front ++ (separator ∷ s)) e dot)

  -- Where memory suffices, ReplaceExtension of a file name with a dot, by an extension that is not
  -- empty, changes what stands behind the last dot and nothing before it.
  pub replace_extension_lem :
      (front s e new : List ℕ) (c : ℕ)
      → Lacks separator s
      → Lacks separator e
      → Lacks dot e
      → replace_extension fits slots (file front s e) (c ∷ new) ≡ file front s (c ∷ new)
  unfolding replace_extension replace_at
  replace_extension_lem front s e new c hs he hd =
      let lacks = Lacks-both s e hs he in
      rw (file_name_behind front (s ++ (dot ∷ e)) lacks, find_last-append s e dot hd)
        (rw
          (
            copied_roomy (file front s e),
            offset front s e lacks,
            kept_front front s e,
            copied_roomy (front ++ (separator ∷ s)),
            dotted_roomy (front ++ (separator ∷ s)) c new,
          )
          (sym (regroup front s (c ∷ new))))

  -- Where memory suffices, the extension read back after ReplaceExtension is the new one, if that
  -- is not empty and has neither dot nor separator, and the stem is the old one. The path ends in a
  -- separator and the file's name: a stem without separators, a dot, and an extension without dots
  -- and separators.
  pub extension-replace_extension :
      (front s e new : List ℕ) (c : ℕ)
      → Lacks separator s
      → Lacks separator e
      → Lacks dot e
      → Lacks separator (c ∷ new)
      → Lacks dot (c ∷ new)
      → (extension (replace_extension fits slots (file front s e) (c ∷ new)) ≡ c ∷ new)
        × (stem (replace_extension fits slots (file front s e) (c ∷ new)) ≡ s)
  extension-replace_extension front s e new c hs he hd ks kd =
      let (a, b) = stem-extension front s (c ∷ new) hs ks kd in
      rw (replace_extension_lem front s e new c hs he hd) (b, a)
