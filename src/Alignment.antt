-- ===== src/Alignment.antt =====
-- The alignment functions of UEFIpp/Include/UEFIpp/Foundation/Bit.hpp on 64-bit numbers.
pub mod Powers
pub mod Multiples
mod Tests
use uefipp.Base.{
  ℕ, ◌+◌, ◌-◌, ◌^◌, Bool, true, false, not, ◌&&◌, Option, none, some, bit_and, ltb, ◌==◌,
  if◌then◌else◌,
}

unfoldable pub is_power_of_two : ℕ → Bool
is_power_of_two v = not (v == 0) && bit_and v (v - 1) == 0

-- `~(Alignment - 1)` in 64 bits.
abbrev pub high_mask : ℕ → ℕ
high_mask alignment = 2 ^ 64 - 1 - (alignment - 1)

pub try_align_down : ℕ → ℕ → Option ℕ
try_align_down v alignment =
    if not (is_power_of_two alignment) then none else some (bit_and v (high_mask alignment))

unfoldable pub try_align_up : ℕ → ℕ → Option ℕ
try_align_up v alignment =
    if not (is_power_of_two alignment)
    then none
    else if ltb (2 ^ 64 - 1 - (alignment - 1)) v
    then none
    else some (bit_and (v + (alignment - 1)) (high_mask alignment))

-- Where the alignment is refused, they return 0.
abbrev pub or_zero : Option ℕ → ℕ
or_zero none = 0
or_zero (some v) = v

pub align_down : ℕ → ℕ → ℕ
align_down v alignment = or_zero (try_align_down v alignment)

unfoldable pub align_up : ℕ → ℕ → ℕ
align_up v alignment = or_zero (try_align_up v alignment)

pub is_aligned : ℕ → ℕ → Bool
is_aligned v alignment = is_power_of_two alignment && bit_and v (alignment - 1) == 0
