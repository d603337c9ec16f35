-- ===== src/Tests/Values.antt =====
-- Runs of the operations on times and on words.
use diplomski_rad.Base.{◌≡◌, ◌≢◌, ◌↔◌, ◌⊎◌}
use diplomski_rad.Base.Int.{pos, negsuc, ◌+ℤ◌, ◌<ℤ◌, int_laws}
use diplomski_rad.Clock.{Time, time, time_add, time_cmp, nsec_per_sec}
use diplomski_rad.Clock.Order.{value, IsNormal, time_add-IsNormal, time_cmp-value}

abbrev early : Time
early = time (pos 3) (pos 600_000_000)

abbrev late : Time
late = time (pos 5) (pos 400_000_000)

early-IsNormal : IsNormal early
early-IsNormal = record { nonneg = omega int_laws; below = omega int_laws }

late-IsNormal : IsNormal late
late-IsNormal = record { nonneg = omega int_laws; below = omega int_laws }

-- The two add up to 9 s, which the code leaves as 8 s and 1000000000 ns.
time_add-IsNormal_example :
    IsNormal (time_add early late) ↔ (early.nsec +ℤ late.nsec ≢ pos nsec_per_sec)
time_add-IsNormal_example = time_add-IsNormal early late early-IsNormal late-IsNormal

time_cmp-value_example :
    ((time_cmp early late ≡ negsuc 0) × (value early <ℤ value late))
    ⊎ ((time_cmp early late ≡ pos 0) × (early ≡ late))
    ⊎ ((time_cmp early late ≡ pos 1) × (value late <ℤ value early))
time_cmp-value_example = time_cmp-value early late early-IsNormal late-IsNormal
