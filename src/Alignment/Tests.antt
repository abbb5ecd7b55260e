-- ===== src/Alignment/Tests.antt =====
-- Alignment of single numbers.
use uefipp.Base.{ℕ, ◌+◌, ◌*◌, ◌≤◌, ◌<◌, ◌≡◌, refl, true, false, arith}
use uefipp.Alignment.{is_power_of_two, align_up, try_align_up}
use uefipp.Alignment.Multiples.{align_up_lem}

power : is_power_of_two 4096 ≡ true
unfolding is_power_of_two
power = refl

no_power : is_power_of_two 24 ≡ false
unfolding is_power_of_two
no_power = refl

-- With an alignment that is no power of two, AlignUp returns 0.
refused : align_up 100 24 ≡ 0
unfolding align_up try_align_up is_power_of_two
refused = refl

align_up_lem_example :
    (5000 ≤ align_up 5000 4096)
    × (align_up 5000 4096 < 5000 + 4096)
    × ((q : ℕ) × (align_up 5000 4096 ≡ q * 4096))
align_up_lem_example = align_up_lem 5000 4096 power (omega arith) (omega arith)
