-- ===== src/Text/States.antt =====
-- The states that the UTF-8 decoder reaches, with the bytes seen in each, and what feeding a byte
-- does from there.
use uefipp.Base.{
  ℕ, suc, ◌+◌, ◌*◌, ◌/◌, ◌%◌, ◌^◌, ◌≤◌, ◌<◌, ◌≡◌, refl, ◌≢◌, Bool, true, false, List, [], ◌∷◌, ◌++◌,
  leb, ◌==◌, if◌then◌else◌, Expected, value, arith, Bool-cases, inl, inr, bit_and, ◌&&◌,
}
use uefipp.Base.Bits.{low_six, top_two, join_six, low_five, low_four, low_three}
use uefipp.Io.{Error}
use uefipp.Text.{
  Policy, Decoder, DecodeStep, fresh, pending, emit, malformed, expecting, shifted_in, feed,
  feed_lead, feed_continuation, is_valid_code_point,
}
use uefipp.Text.Encoding.{utf8}

-- The name counts the bytes of the sequence and those still awaited.
pub data State : Type 0 where
  idle : State
  two_1 three_2 three_1 four_3 four_2 four_1 : ℕ → State

abbrev pub embed : State → Decoder
embed idle = fresh
embed (two_1 c) = expecting c 0x80 1
embed (three_2 c) = expecting c 0x800 2
embed (three_1 c) = expecting c 0x800 1
embed (four_3 c) = expecting c 0x10000 3
embed (four_2 c) = expecting c 0x10000 2
embed (four_1 c) = expecting c 0x10000 1

abbrev pub IsBounded : State → Type 0
IsBounded idle = Unit {0}
IsBounded (two_1 c) = (2 ≤ c) × (c < 32)
IsBounded (three_2 c) = c < 16
IsBounded (three_1 c) = c < 1024
IsBounded (four_3 c) = c < 5
IsBounded (four_2 c) = c < 320
IsBounded (four_1 c) = c < 20480

abbrev pub seen : State → List ℕ
seen idle = []
seen (two_1 c) = (0xc0 + c) ∷ []
seen (three_2 c) = (0xe0 + c) ∷ []
seen (three_1 c) = (0xe0 + c / 64) ∷ (0x80 + c % 64) ∷ []
seen (four_3 c) = (0xf0 + c) ∷ []
seen (four_2 c) = (0xf0 + c / 64) ∷ (0x80 + c % 64) ∷ []
seen (four_1 c) = (0xf0 + c / 4096) ∷ (0x80 + c / 64 % 64) ∷ (0x80 + c % 64) ∷ []

-- What one call of `Feed` can do.
pub data Fed (s : State) (b : ℕ) (p : Policy) : Decoder × Expected Error DecodeStep → Type 0 where
  more :
      (t : State) → IsBounded t → seen s ++ (b ∷ []) ≡ seen t → Fed s b p (embed t, value pending)
  done :
      (v : ℕ)
      → is_valid_code_point v ≡ true
      → seen s ++ (b ∷ []) ≡ utf8 v
      → Fed s b p (fresh, value (emit v))
  wrong : Fed s b p (fresh, malformed p true)
  unread : s ≢ idle → Fed s b p (fresh, malformed p false)

lead-Fed : (b : ℕ) (p : Policy) → b < 256 → Fed idle b p (feed_lead fresh b p)
unfolding feed_lead
lead-Fed b p h = elim (Bool-cases (leb b 0x7f)) [
  | inl a ↦ rw a (done b (ground arith) (ground arith))
  | inr a ↦ rw a (elim (Bool-cases (leb 0xc2 b && leb b 0xdf)) [
    | inl c ↦ rw (c, low_five b) (more (two_1 (b % 32)) (ground arith) (ground arith))
    | inr c ↦ rw c (elim (Bool-cases (leb 0xe0 b && leb b 0xef)) [
      | inl e ↦ rw (e, low_four b) (more (three_2 (b % 16)) (ground arith) (ground arith))
      | inr e ↦ rw e (elim (Bool-cases (leb 0xf0 b && leb b 0xf4)) [
        | inl f ↦ rw (f, low_three b) (more (four_3 (b % 8)) (ground arith) (ground arith))
        | inr f ↦ rw f wrong
      ])
    ])
  ])
]

abbrev continues : ℕ → Bool
continues b = bit_and b 0xc0 == 0x80

shifted_in-sum : (c b : ℕ) → c < 2 ^ 26 → shifted_in c b ≡ c * 64 + b % 64
shifted_in-sum c b h =
    rw (low_six b) (omega (arith, join_six (c * 64 % 2 ^ 32) (b % 64) (omega arith) (omega arith)))

-- A continuation byte that is not the last one.
pub feed_inner :
    (c m r b : ℕ) (p : Policy)
    → c < 2 ^ 26
    → continues b ≡ true
    → feed_continuation (expecting c m (suc (suc r))) b p
      ≡ (expecting (c * 64 + b % 64) m (suc r), value pending)
unfolding feed_continuation
feed_inner c m r b p h k = ground (arith, shifted_in-sum c b h)

abbrev finished : ℕ → ℕ → Policy → Decoder × Expected Error DecodeStep
finished m v p =
    if leb m v && is_valid_code_point v then (fresh, value (emit v)) else (fresh, malformed p true)

pub feed_last :
    (c m b : ℕ) (p : Policy)
    → c < 2 ^ 26
    → continues b ≡ true
    → feed_continuation (expecting c m 1) b p ≡ finished m (c * 64 + b % 64) p
unfolding feed_continuation
feed_last c m b p h k = rw (k, shifted_in-sum c b h)

feed_other :
    (d : Decoder) (b : ℕ) (p : Policy)
    → continues b ≡ false
    → feed_continuation d b p ≡ (fresh, malformed p false)
unfolding feed_continuation
feed_other d b p k = rw k

finished-Fed :
    (s : State) (m v b : ℕ) (p : Policy)
    → (leb m v && is_valid_code_point v ≡ true → seen s ++ (b ∷ []) ≡ utf8 v)
    → Fed s b p (finished m v p)
finished-Fed s m v b p h = elim (Bool-cases (leb m v && is_valid_code_point v)) [
  | inl good ↦ rw good (done v (ground arith) (h good))
  | inr bad ↦ rw bad wrong
]

top : (b : ℕ) → b < 256 → continues b ≡ true → b / 64 ≡ 2
top b h k = ground (arith, top_two b h)

last-Fed :
    (s : State) (c m b : ℕ) (p : Policy)
    → s ≢ idle
    → c < 2 ^ 26
    → (continues b ≡ true
        → leb m (c * 64 + b % 64) && is_valid_code_point (c * 64 + b % 64) ≡ true
        → seen s ++ (b ∷ []) ≡ utf8 (c * 64 + b % 64))
    → Fed s b p (feed_continuation (expecting c m 1) b p)
last-Fed s c m b p n h k = elim (Bool-cases (continues b)) [
  | inl y ↦ rw (feed_last c m b p h y) (finished-Fed s m (c * 64 + b % 64) b p (k y))
  | inr y ↦ rw (feed_other (expecting c m 1) b p y) (unread n)
]

inner-Fed :
    (s : State) (c m r b : ℕ) (p : Policy) (t : State)
    → s ≢ idle
    → c < 2 ^ 26
    → (continues b ≡ true
        → (embed t ≡ expecting (c * 64 + b % 64) m (suc r))
          × IsBounded t
          × (seen s ++ (b ∷ []) ≡ seen t))
    → Fed s b p (feed_continuation (expecting c m (suc (suc r))) b p)
inner-Fed s c m r b p t n h k = elim (Bool-cases (continues b)) [
  | inl y ↦ rw (feed_inner c m r b p h y, ← (k y).0) (more t (k y).1 (k y).2)
  | inr y ↦ rw (feed_other (expecting c m (suc (suc r))) b p y) (unread n)
]

-- From each state, on each byte.
pub feed-Fed :
    (s : State) (b : ℕ) (p : Policy) → b < 256 → IsBounded s → Fed s b p (feed (embed s) b p)
unfolding feed
feed-Fed idle b p h k = lead-Fed b p h
feed-Fed (two_1 c) b p h k =
    last-Fed (two_1 c) c 0x80 b p (λ e. cc) (omega arith) (λ y z. ground (arith, top b h y))
feed-Fed (three_2 c) b p h k =
    inner-Fed (three_2 c) c 0x800 0 b p (three_1 (c * 64 + b % 64)) (λ e. cc) (omega arith)
      λ y. (refl, omega arith, ground (arith, top b h y))
feed-Fed (three_1 c) b p h k =
    last-Fed (three_1 c) c 0x800 b p (λ e. cc) (omega arith) (λ y z. ground (arith, top b h y))
feed-Fed (four_3 c) b p h k =
    inner-Fed (four_3 c) c 0x10000 1 b p (four_2 (c * 64 + b % 64)) (λ e. cc) (omega arith)
      λ y. (refl, omega arith, ground (arith, top b h y))
feed-Fed (four_2 c) b p h k =
    inner-Fed (four_2 c) c 0x10000 0 b p (four_1 (c * 64 + b % 64)) (λ e. cc) (omega arith)
      λ y. (refl, omega arith, ground (arith, top b h y))
feed-Fed (four_1 c) b p h k =
    last-Fed (four_1 c) c 0x10000 b p (λ e. cc) (omega arith) (λ y z. ground (arith, top b h y))
