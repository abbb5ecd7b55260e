-- ===== src/Alignment/Powers.antt =====
-- Powers of two by doubling, and the masks that clear low bits.
use uefipp.Base.{
  ℕ, zero, suc, ◌+◌, ◌-◌, ◌*◌, ◌/◌, ◌%◌, ◌≤◌, ◌<◌, ◌≡◌, refl, ap, ◌∙◌, bit_and, arith, ◌⊎◌, inl,
  inr,
}
use uefipp.Base.Bits.{above, low, ones, and_step, and-ones}

abbrev pub two_to : ℕ → ℕ
two_to zero = 1
two_to (suc k) = two_to k * 2

pub two_to_pos : (k : ℕ) → 0 < two_to k
two_to_pos zero = omega arith
two_to_pos (suc k) = omega (arith, two_to_pos k)

pub two_to_lt : (k n : ℕ) → two_to k < two_to n → k < n
two_to_lt zero zero h = absurd (omega arith)
two_to_lt zero (suc n) h = omega arith
two_to_lt (suc k) zero h = absurd (omega (arith, two_to_pos k))
two_to_lt (suc k) (suc n) h = omega (arith, two_to_lt k n (omega arith))

and_same : (n a : ℕ) → a ≤ n → bit_and a a ≡ a
and_same zero zero h = refl
and_same zero (suc a) h = absurd (omega arith)
and_same (suc n) zero h = refl
and_same (suc n) (suc a) h =
    omega (arith, and_step (suc a) (suc a), and_same n (suc a / 2) (omega arith))

-- A number that shares no bit with the one before it is a power of two.
pub power_of_two : (n v : ℕ) → v ≤ n → 0 < v → bit_and v (v - 1) ≡ 0 → (k : ℕ) × (v ≡ two_to k)
power_of_two zero v h pos e = absurd (omega arith)
power_of_two (suc n) v h pos e = elim (parity v) [
  | inr odd ↦
      let half : (v - 1) / 2 ≡ v / 2 = omega arith in
      let all : bit_and (v / 2) (v / 2) ≡ v / 2 = and_same (v / 2) (v / 2) (omega arith) in
      let step = and_step v (v - 1) in
      let one : v ≡ 1 = omega (arith, ap (λ (t : ℕ). bit_and (v / 2) t) half) in (0, one)
  | inl even ↦
      let half : (v - 1) / 2 ≡ v / 2 - 1 = omega arith in
      let less : bit_and (v / 2) (v / 2 - 1) ≡ 0 =
        omega (arith, and_step v (v - 1), ap (λ (t : ℕ). bit_and (v / 2) t) half) in
      let (k, f) = power_of_two n (v / 2) (omega arith) (omega arith) less in (suc k, omega arith)
]
  where
    parity : (v : ℕ) → (v % 2 ≡ 0) ⊎ (v % 2 ≡ 1)
    parity v = ground arith

-- w ones in front of k zeros, and a number in front of k zeros.
abbrev pub hollow : ℕ → ℕ → ℕ
hollow zero w = ones w
hollow (suc k) w = hollow k w * 2

abbrev pub multiple : ℕ → ℕ → ℕ
multiple zero q = q
multiple (suc k) q = multiple k q * 2

ones_value : (w : ℕ) → ones w + 1 ≡ two_to w
ones_value zero = refl
ones_value (suc w) = omega (arith, ones_value w)

pub hollow_value : (k w n : ℕ) → n ≡ k + w → hollow k w + two_to k ≡ two_to n
hollow_value zero w n e = let same : n ≡ w = omega arith in rw same (ones_value w)
hollow_value (suc k) w zero e = absurd (omega arith)
hollow_value (suc k) w (suc n) e = omega (arith, hollow_value k w n (omega arith))

low_all : (w v : ℕ) → v < two_to w → low w v ≡ v
low_all zero v h = omega arith
low_all (suc w) v h = omega (arith, low_all w (v / 2) (omega arith))

pub clear_low :
    (k w n v : ℕ) → n ≡ k + w → v < two_to n → bit_and v (hollow k w) ≡ multiple k (above k v)
clear_low zero w n v e h =
    let same : n ≡ w = omega arith in and-ones w v ∙ low_all w v (rw same at h)
clear_low (suc k) w zero v e h = absurd (omega arith)
clear_low (suc k) w (suc n) v e h =
    let half : hollow k w * 2 / 2 ≡ hollow k w = omega arith in
    omega (
      arith,
      and_step v (hollow k w * 2),
      ap (λ (t : ℕ). bit_and (v / 2) t) half,
      clear_low k w n (v / 2) (omega arith) (omega arith),
    )

pub multiple-above :
    (k v : ℕ) → (multiple k (above k v) ≤ v) × (v < multiple k (above k v) + two_to k)
multiple-above zero v = (omega arith, omega arith)
multiple-above (suc k) v =
    let (under, over) = multiple-above k (v / 2) in (omega arith, omega arith)
