-- ===== src/Text/Reach.antt =====
-- The decoder under any sequence of calls: what it emits, and how far its 32-bit value grows.
use uefipp.Base.{
  ℕ, ◌<◌, ◌≤◌, ◌^◌, ◌≡◌, refl, Bool, true, false, some, Expected, value, arith, Bool-cases, inl,
  inr,
}
use uefipp.Io.{Error}
use uefipp.Text.{
  Policy, Decoder, DecodeStep, fresh, malformed, replacement_character, feed, finish, complete,
}
use uefipp.Text.Encoding.{IsScalar, scalar}
use uefipp.Text.States.{
  State, idle, two_1, three_2, three_1, four_3, four_2, four_1, embed, IsBounded, Fed, feed-Fed,
}

-- The decoders that calls of `Feed`, `Finish` and `Reset` lead to from a new one.
pub data Reach : Decoder → Type 0 where
  start : Reach fresh
  fed : {d : Decoder} → Reach d → (b : ℕ) (p : Policy) → b < 256 → Reach (feed d b p).0
  finished : {d : Decoder} → Reach d → (p : Policy) → Reach (finish d p).0

-- A decoder that stands for a state.
data Stands : Decoder → Type 0 where
  stands : (s : State) → IsBounded s → Stands (embed s)

Fed-Stands :
    {s : State} {b : ℕ} {p : Policy} {r : Decoder × Expected Error DecodeStep}
    → Fed s b p r
    → Stands r.0
Fed-Stands (Fed.more t h _) = stands t h
Fed-Stands (Fed.done v _ _) = stands idle tt
Fed-Stands Fed.wrong = stands idle tt
Fed-Stands (Fed.unread _) = stands idle tt

feed-Stands : {d : Decoder} (b : ℕ) (p : Policy) → b < 256 → Stands d → Stands (feed d b p).0
feed-Stands b p h (stands s k) = Fed-Stands (feed-Fed s b p h k)

finish-Stands : {d : Decoder} (p : Policy) → Stands d → Stands (finish d p).0
unfolding finish
finish-Stands p (stands idle k) = stands idle tt
finish-Stands p (stands (two_1 c) k) = stands idle tt
finish-Stands p (stands (three_2 c) k) = stands idle tt
finish-Stands p (stands (three_1 c) k) = stands idle tt
finish-Stands p (stands (four_3 c) k) = stands idle tt
finish-Stands p (stands (four_2 c) k) = stands idle tt
finish-Stands p (stands (four_1 c) k) = stands idle tt

Reach-Stands : {d : Decoder} → Reach d → Stands d
Reach-Stands start = stands idle tt
Reach-Stands (fed r b p h) = feed-Stands b p h (Reach-Stands r)
Reach-Stands (finished r p) = finish-Stands p (Reach-Stands r)

Stands-bounds : {d : Decoder} → Stands d → (d.remaining ≤ 3) × (d.code_point < 2 ^ 26)
Stands-bounds (stands idle k) = omega arith
Stands-bounds (stands (two_1 c) k) = omega arith
Stands-bounds (stands (three_2 c) k) = omega arith
Stands-bounds (stands (three_1 c) k) = omega arith
Stands-bounds (stands (four_3 c) k) = omega arith
Stands-bounds (stands (four_2 c) k) = omega arith
Stands-bounds (stands (four_1 c) k) = omega arith

malformed_emits :
    (p : Policy) (k : Bool) {step : DecodeStep} {v : ℕ}
    → malformed p k ≡ value step
    → step.code_point ≡ some v
    → v ≡ replacement_character
malformed_emits Policy.replace k e f = ground arith
malformed_emits Policy.reject k e f = cc

Fed-emits :
    {s : State} {b : ℕ} {p : Policy} {r : Decoder × Expected Error DecodeStep} {step : DecodeStep}
    {v : ℕ}
    → Fed s b p r
    → r.1 ≡ value step
    → step.code_point ≡ some v
    → IsScalar v
Fed-emits (Fed.more t h _) e f = cc
Fed-emits {v = v} (Fed.done u z _) e f = let same : u ≡ v = cc in rw (← same) (scalar u z)
Fed-emits {p = p} Fed.wrong e f =
    rw (malformed_emits p true e f) (scalar replacement_character refl)
Fed-emits {p = p} (Fed.unread _) e f =
    rw (malformed_emits p false e f) (scalar replacement_character refl)

Stands-emits :
    {d : Decoder} (b : ℕ) (p : Policy) {step : DecodeStep} {v : ℕ}
    → b < 256
    → Stands d
    → (feed d b p).1 ≡ value step
    → step.code_point ≡ some v
    → IsScalar v
Stands-emits b p h (stands s k) e f = Fed-emits (feed-Fed s b p h k) e f

-- What a call of the decoder gives out: of Feed, on a byte, or of Finish.
pub data Emits (d : Decoder) (v : ℕ) : Type 0 where
  by_feed :
      (b : ℕ) (p : Policy) (step : DecodeStep)
      → b < 256
      → (feed d b p).1 ≡ value step
      → step.code_point ≡ some v
      → Emits d v
  by_finish : (p : Policy) → (finish d p).1 ≡ value (some v) → Emits d v

finish_emits :
    (d : Decoder) (p : Policy) (v : ℕ) → (finish d p).1 ≡ value (some v) → v ≡ replacement_character
unfolding finish
finish_emits d Policy.replace v e = elim (Bool-cases (complete d)) [
  | inl y ↦ cc (y, e)
  | inr n ↦ cc (n, e)
]
finish_emits d Policy.reject v e = elim (Bool-cases (complete d)) [
  | inl y ↦ cc (y, e)
  | inr n ↦ cc (n, e)
]

-- After any calls of Feed and Finish, whatever Feed emits on any byte, or Finish, under either
-- policy, is a Unicode scalar value: never a surrogate, and never above U+10FFFF.
pub Reach-IsScalar : {d : Decoder} {v : ℕ} → Reach d → Emits d v → IsScalar v
Reach-IsScalar r (by_feed b p step h e f) = Stands-emits b p h (Reach-Stands r) e f
Reach-IsScalar {d = d} {v = v} r (by_finish p e) =
    rw (finish_emits d p v e) (scalar replacement_character refl)

-- After any calls of Feed, on any bytes, and of Finish, at most three bytes are awaited, and the
-- value read so far is below 2 ^ 26.
pub Reach-bounds : {d : Decoder} → Reach d → (d.remaining ≤ 3) × (d.code_point < 2 ^ 26)
Reach-bounds r = Stands-bounds (Reach-Stands r)
