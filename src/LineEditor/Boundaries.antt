-- ===== src/LineEditor/Boundaries.antt =====
-- LineEditor::PreviousBoundary and NextBoundary on UTF-8: one byte that is no continuation byte, with
-- continuation bytes behind it, between two texts.
use uefipp.Base.{
  ℕ, zero, suc, ◌+◌, ◌/◌, ◌%◌, ◌≤◌, ◌<◌, ◌≡◌, refl, ap, true, false, List, [], ◌∷◌, ◌++◌, length,
  get_or, All, leb, arith, Bool-cases, inl, inr, drop-append, length-append,
}
use uefipp.Base.Bits.{top_two}
use uefipp.Text.Encoding.{IsScalar, utf8, utf8_text}
use uefipp.LineEditor.{is_continuation, back_over, previous_boundary, past, next_boundary}

abbrev pub IsContinuation : ℕ → Type 0
IsContinuation b = is_continuation b ≡ true

-- What a text may go on with: nothing, or a byte that starts a code point.
abbrev pub IsStart : List ℕ → Type 0
IsStart [] = Unit {0}
IsStart (b ∷ bs) = is_continuation b ≡ false

-- The bytes of one code point.
pub record Sequence (bs : List ℕ) : Type 0 where
  pub lead : ℕ
  pub others : List ℕ
  pub split : bs ≡ lead ∷ others
  pub starts : is_continuation lead ≡ false
  pub continue : All IsContinuation others

continuation : (b : ℕ) → 0x80 ≤ b → b < 0xc0 → IsContinuation b
continuation b l h = ground (arith, top_two b (omega arith))

leading : (b : ℕ) → b < 0x80 → is_continuation b ≡ false
leading b h = ground (arith, top_two b (omega arith))

leading_high : (b : ℕ) → 0xc0 ≤ b → b < 0x100 → is_continuation b ≡ false
leading_high b l h = ground (arith, top_two b (omega arith))

low_part : (a : ℕ) → IsContinuation (0x80 + a % 64)
low_part a = continuation (0x80 + a % 64) (omega arith) (omega arith)

pub utf8-Sequence : (c : ℕ) → IsScalar c → Sequence (utf8 c)
utf8-Sequence c h = elim (Bool-cases (leb c 0x7f)) [
  | inl y ↦ record {
    lead = c;
    others = [];
    split = rw (y) refl;
    starts = leading c (ground arith);
    continue = tt;
  }
  | inr n ↦ elim (Bool-cases (leb c 0x7ff)) [
    | inl y ↦ record {
      lead = 0xc0 + c / 64;
      others = (0x80 + c % 64) ∷ [];
      split = rw (n, y) refl;
      starts = leading_high (0xc0 + c / 64) (omega arith) (ground arith);
      continue = (low_part c, tt);
    }
    | inr m ↦ elim (Bool-cases (leb c 0xffff)) [
      | inl y ↦ record {
        lead = 0xe0 + c / 4096;
        others = (0x80 + c / 64 % 64) ∷ (0x80 + c % 64) ∷ [];
        split = rw (n, m, y) refl;
        starts = leading_high (0xe0 + c / 4096) (omega arith) (ground arith);
        continue = (low_part (c / 64), (low_part c, tt));
      }
      | inr k ↦ record {
        lead = 0xf0 + c / 262144;
        others = (0x80 + c / 4096 % 64) ∷ (0x80 + c / 64 % 64) ∷ (0x80 + c % 64) ∷ [];
        split = rw (n, m, k) refl;
        starts = leading_high (0xf0 + c / 262144) (omega arith) (omega (arith, h.in_range));
        continue = (low_part (c / 4096), (low_part (c / 64), (low_part c, tt)));
      }
    ]
  ]
]

get_or-append : (a b : List ℕ) (n p : ℕ) → p ≡ length a + n → get_or (a ++ b) p 0 ≡ get_or b n 0
get_or-append [] b n p e = ap (λ i. get_or b i 0) (omega (arith, e))
get_or-append (x ∷ a) b n zero e = absurd (omega arith)
get_or-append (x ∷ a) b n (suc p) e = get_or-append a b n p (omega arith)

get_or-IsContinuation :
    (cs bs : List ℕ) (n : ℕ)
    → All IsContinuation cs
    → n < length cs
    → IsContinuation (get_or (cs ++ bs) n 0)
get_or-IsContinuation [] bs n h l = absurd (omega arith)
get_or-IsContinuation (c ∷ cs) bs zero h l = h.0
get_or-IsContinuation (c ∷ cs) bs (suc n) h l = get_or-IsContinuation cs bs n h.1 (omega arith)

past_skips :
    (cs bs : List ℕ) (p : ℕ)
    → All IsContinuation cs
    → IsStart bs
    → past (cs ++ bs) p ≡ p + length cs
unfolding past
past_skips [] [] p h s = omega arith
past_skips [] (b ∷ bs) p h s = rw s (omega arith)
past_skips (c ∷ cs) bs p h s = rw h.0 (omega (arith, past_skips cs bs (p + 1) h.1 s))

module _ (a : List ℕ) (lead : ℕ) (cs : List ℕ) (bs : List ℕ) (starts : is_continuation lead ≡ false)
    (h : All IsContinuation cs) where
  back_over_skips :
      (n p : ℕ) → p ≡ length a + n → n ≤ length cs → back_over (a ++ lead ∷ (cs ++ bs)) p ≡ length a
  unfolding back_over
  back_over_skips zero zero e l = omega arith
  back_over_skips zero (suc p) e l =
      rw (get_or-append a (lead ∷ (cs ++ bs)) 0 (suc p) e, starts) (omega arith)
  back_over_skips (suc n) zero e l = absurd (omega arith)
  back_over_skips (suc n) (suc p) e l =
      rw
        (
          get_or-append a (lead ∷ (cs ++ bs)) (suc n) (suc p) e,
          get_or-IsContinuation cs bs n h (omega arith),
        )
        (back_over_skips n p (omega arith) (omega arith))

  pub previous_boundary_over :
      (p : ℕ)
      → p ≡ length a + length (lead ∷ cs)
      → previous_boundary (a ++ lead ∷ (cs ++ bs)) p ≡ length a
  unfolding previous_boundary
  previous_boundary_over zero e = absurd (omega arith)
  previous_boundary_over (suc p) e = back_over_skips (length cs) p (omega arith) (omega arith)

  pub next_boundary_over :
      IsStart bs → next_boundary (a ++ lead ∷ (cs ++ bs)) (length a) ≡ length a + length (lead ∷ cs)
  unfolding next_boundary
  next_boundary_over s =
      let inside : leb (length (a ++ lead ∷ (cs ++ bs))) (length a) ≡ false =
        ground (arith, length-append a (lead ∷ (cs ++ bs))) in
      rw
        (
          inside,
          drop-append a (lead ∷ (cs ++ bs)) 1 (length a + 1) refl,
          past_skips cs bs (length a + 1) h s,
        )
        (omega arith)

-- One code point's bytes `u` between the texts `a` and `b`.
module _ (a u b : List ℕ) (q : Sequence u) where
  pub previous_boundary-Sequence :
      (p : ℕ) → p ≡ length a + length u → previous_boundary (a ++ (u ++ b)) p ≡ length a
  previous_boundary-Sequence p e =
      let same : p ≡ length a + length (q.lead ∷ q.others) = omega (arith, e, ap length q.split) in
      rw (q.split) (previous_boundary_over a q.lead q.others b q.starts q.continue p same)

  pub next_boundary-Sequence :
      IsStart b → next_boundary (a ++ (u ++ b)) (length a) ≡ length a + length u
  next_boundary-Sequence s =
      rw (q.split) (next_boundary_over a q.lead q.others b q.starts q.continue s)

  pub Sequence-starts : IsStart (u ++ b)
  Sequence-starts = rw (q.split) q.starts

  pub Sequence-fills : 0 < length u
  Sequence-fills = rw (q.split) (omega arith)

pub utf8_text-IsStart : (cs : List ℕ) → All IsScalar cs → IsStart (utf8_text cs)
utf8_text-IsStart [] h = tt
utf8_text-IsStart (c ∷ cs) h = Sequence-starts [] (utf8 c) (utf8_text cs) (utf8-Sequence c h.0)
