-- ===== src/Health/Memory/Tests.antt =====
-- A service that grows.
use tgshd.Base.{[], ◌∷◌, true, false, ◌≡◌, refl, arith, leb, ◌*◌}
use tgshd.Health.Memory.Growth.{Point, is_growing}
use tgshd.Health.Memory.Growth.Peaks.{is_growing-rise}

abbrev low : Point
low = record { at = 10; anon = 200 }

abbrev high : Point
high = record { at = 20; anon = 900 }

-- At least 90 percent of the peak.
is_growing-rise_example :
    is_growing (λ v peak. leb (9 * peak) (10 * v)) 500 false low (high ∷ []) ≡ true
is_growing-rise_example =
    is_growing-rise (λ v peak. leb (9 * peak) (10 * v)) 500 false low (high ∷ []) refl (omega arith)
      (omega arith, (omega arith, tt)) refl
