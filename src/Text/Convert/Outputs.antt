-- ===== src/Text/Convert/Outputs.antt =====
-- What the conversions append to their output, on success and where memory suffices.
use uefipp.Base.{
  ℕ, ◌+◌, ◌≡◌, ◌∙◌, Bool, true, List, [], ◌∷◌, ◌++◌, append-nil, append_assoc, length, value, arith,
  Bool-cases, inl, inr,
}
use uefipp.Text.Convert.{push_all, push_utf8, append_code_point}
use uefipp.Text.Encoding.{IsScalar, utf8, utf16, encode_utf8-utf8, encode_utf16-utf16}

module _ (fits : ℕ → Bool) where
  -- If it succeeds, `push_all` has appended exactly what it was given.
  pub push_all_ok : (out us : List ℕ) {w : List ℕ} → push_all fits out us ≡ value w → w ≡ out ++ us
  unfolding push_all
  push_all_ok out [] h = ground (arith, append-nil out)
  push_all_ok out (u ∷ us) h = elim (Bool-cases (fits (length out + 2))) [
    | inl y ↦ push_all_ok (out ++ (u ∷ [])) us (rw y at h) ∙ append_assoc out (u ∷ []) us
    | inr y ↦ cc
  ]

  module _ (roomy : (n : ℕ) → fits n ≡ true) where
    pub push_all_roomy : (out us : List ℕ) → push_all fits out us ≡ value (out ++ us)
    unfolding push_all
    push_all_roomy out [] = rw append-nil
    push_all_roomy out (u ∷ us) =
        rw (roomy (length out + 2), push_all_roomy (out ++ (u ∷ [])) us, append_assoc)

    pub push_utf8_roomy :
        (out : List ℕ) (c : ℕ) → IsScalar c → push_utf8 fits out c ≡ value (out ++ utf8 c)
    unfolding push_utf8
    push_utf8_roomy out c h = rw (encode_utf8-utf8 c h) (push_all_roomy out (utf8 c))

    pub append_code_point_roomy :
        (out : List ℕ) (c : ℕ) → IsScalar c → append_code_point fits out c ≡ value (out ++ utf16 c)
    unfolding append_code_point
    append_code_point_roomy out c h = rw (encode_utf16-utf16 c h) (push_all_roomy out (utf16 c))

  pub append_code_point_ok :
      (out : List ℕ) (c : ℕ) {w : List ℕ}
      → IsScalar c
      → append_code_point fits out c ≡ value w
      → w ≡ out ++ utf16 c
  unfolding append_code_point
  append_code_point_ok out c h e = push_all_ok out (utf16 c) (rw (encode_utf16-utf16 c h) at e)
