-- ===== src/Base/Bits.antt =====
-- Masks and unions of bits as arithmetic: the laws that the encoders and the decoder use.
use Prim.Native.Nat.{
  ℕ, zero, suc, ◌+◌, ◌-◌, ◌*◌, ◌/◌, ◌%◌, ◌≤◌, ◌<◌, min, max, bit_and, bit_or, digits,
  bit_and-bitwise, bit_or-bitwise,
}
use mathlib.Core.Path.{◌≡◌, refl, ◌∙◌}
use native.Mathlib.Omega.{arith}

-- Once the first number has run out, further rounds of `digits` change nothing.
module _ (z : ℕ → ℕ) (f : ℕ → ℕ → ℕ) where
  one_more : (n a b : ℕ) → a ≤ n → digits z f (suc n) a b ≡ digits z f n a b
  one_more zero zero b h = refl
  one_more (suc n) zero b h = refl
  one_more zero (suc a) b h = elim h [ ]
  one_more (suc n) (suc a) b h = omega (arith, one_more n (suc a / 2) (b / 2) (omega arith))

  spare : (k n m a b : ℕ) → m ≡ k + n → a ≤ n → digits z f m a b ≡ digits z f n a b
  spare zero n m a b e h = let same : m ≡ n = omega arith in rw same
  spare (suc k) n zero a b e h = absurd (omega arith)
  spare (suc k) n (suc m) a b e h = one_more m a b (omega arith) ∙ spare k n m a b (omega arith) h

  halved :
      (a b : ℕ)
      → digits z f (suc a) (suc a) b
        ≡ digits z f (suc a / 2) (suc a / 2) (b / 2) * 2 + f (suc a % 2) (b % 2)
  halved a b =
      let half : ℕ = suc a / 2 in
      let kept : digits z f a half (b / 2) ≡ digits z f half half (b / 2) =
        spare (a - half) half a half (b / 2) (omega arith) (omega arith) in
      omega (arith, kept)

pub and_step : (a b : ℕ) → bit_and a b ≡ bit_and (a / 2) (b / 2) * 2 + min (a % 2) (b % 2)
and_step zero b = omega (arith, bit_and-bitwise 0 b, bit_and-bitwise 0 (b / 2))
and_step (suc a) b = omega (
  arith,
  bit_and-bitwise (suc a) b,
  bit_and-bitwise (suc a / 2) (b / 2),
  halved (λ b. zero) min a b,
)

or_step : (a b : ℕ) → bit_or a b ≡ bit_or (a / 2) (b / 2) * 2 + max (a % 2) (b % 2)
or_step zero b = omega (arith, bit_or-bitwise 0 b, bit_or-bitwise 0 (b / 2))
or_step (suc a) b =
    omega
      (arith, bit_or-bitwise (suc a) b, bit_or-bitwise (suc a / 2) (b / 2), halved (λ b. b) max a b)

-- A number without its k low bits, those bits, and the number whose k low bits are all set.
abbrev pub above : ℕ → ℕ → ℕ
above zero a = a
above (suc k) a = above k (a / 2)

abbrev pub low : ℕ → ℕ → ℕ
low zero a = 0
low (suc k) a = low k (a / 2) * 2 + a % 2

abbrev pub ones : ℕ → ℕ
ones zero = 0
ones (suc k) = ones k * 2 + 1

-- With no bits left, and is 0, and or is the other number: by enough halvings.
and-none : (n a : ℕ) → a ≤ n → bit_and a 0 ≡ 0
and-none n zero h = omega (arith, bit_and-bitwise 0 0)
and-none zero (suc a) h = elim h [ ]
and-none (suc n) (suc a) h = omega (arith, and_step (suc a) 0, and-none n (suc a / 2) (omega arith))

or-none : (n a : ℕ) → a ≤ n → bit_or a 0 ≡ a
or-none n zero h = omega (arith, bit_or-bitwise 0 0)
or-none zero (suc a) h = elim h [ ]
or-none (suc n) (suc a) h = omega (arith, or_step (suc a) 0, or-none n (suc a / 2) (omega arith))

pub and-ones : (k a : ℕ) → bit_and a (ones k) ≡ low k a
and-ones zero a = and-none a a (omega arith)
and-ones (suc k) a =
    let half : (ones k * 2 + 1) / 2 ≡ ones k = omega arith in
    rw (and_step a (ones k * 2 + 1), half, and-ones k (a / 2)) (omega arith)

-- The union of numbers of which the one has no low bits and the other no others is their sum.
or-join : (k a b : ℕ) → low k a ≡ 0 → above k b ≡ 0 → bit_or a b ≡ a + b
or-join zero a b h e = rw e (omega (arith, or-none a a (omega arith)))
or-join (suc k) a b h e = omega (arith, or_step a b, or-join k (a / 2) (b / 2) (omega arith) e)

-- `a & 0x07` to `a & 0x3FF` keep the low bits.
pub low_three : (a : ℕ) → bit_and a 0x07 ≡ a % 8
low_three a = omega (arith, and-ones 3 a)

pub low_four : (a : ℕ) → bit_and a 0x0f ≡ a % 16
low_four a = omega (arith, and-ones 4 a)

pub low_five : (a : ℕ) → bit_and a 0x1f ≡ a % 32
low_five a = omega (arith, and-ones 5 a)

pub low_six : (a : ℕ) → bit_and a 0x3f ≡ a % 64
low_six a = omega (arith, and-ones 6 a)

pub low_ten : (a : ℕ) → bit_and a 0x3ff ≡ a % 1024
low_ten a = omega (arith, and-ones 10 a)

-- `b & 0xC0` on a byte keeps the two top bits.
pub top_two : (b : ℕ) → b < 256 → bit_and b 0xc0 ≡ b / 64 * 64
top_two b h = omega (
  arith,
  and_step b 0xc0,
  and_step (b / 2) 0x60,
  and_step (b / 2 / 2) 0x30,
  and_step (b / 2 / 2 / 2) 0x18,
  and_step (b / 2 / 2 / 2 / 2) 0x0c,
  and_step (b / 2 / 2 / 2 / 2 / 2) 0x06,
  and-ones 2 (b / 2 / 2 / 2 / 2 / 2 / 2),
)

pub join_six : (a b : ℕ) → a % 64 ≡ 0 → b < 64 → bit_or a b ≡ a + b
join_six a b h k = or-join 6 a b (omega arith) (omega arith)

-- `0x80 | x`, `0xC0 | x`, `0xE0 | x` and `0xF0 | x` on the values that the encoders put there.
pub or_80 : (x : ℕ) → x < 64 → bit_or 0x80 x ≡ 0x80 + x
or_80 x h = join_six 0x80 x refl h

pub or_c0 : (x : ℕ) → x < 32 → bit_or 0xc0 x ≡ 0xc0 + x
or_c0 x h = join_six 0xc0 x refl (omega arith)

pub or_e0 : (x : ℕ) → x < 16 → bit_or 0xe0 x ≡ 0xe0 + x
or_e0 x h = or-join 5 0xe0 x refl (omega arith)

pub or_f0 : (x : ℕ) → x < 8 → bit_or 0xf0 x ≡ 0xf0 + x
or_f0 x h = or-join 4 0xf0 x refl (omega arith)

and_under : (k a b : ℕ) → b ≤ k → bit_and a b ≤ b
and_under zero a zero h = omega (arith, and-none a a (omega arith))
and_under zero a (suc b) h = absurd (omega arith)
and_under (suc k) a b h = omega (arith, and_step a b, and_under k (a / 2) (b / 2) (omega arith))

-- `a & b` is not above `b`.
pub and_le : (a b : ℕ) → bit_and a b ≤ b
and_le a b = and_under b a b (omega arith)
