-- ===== src/Health/Runner/Tests.antt =====
-- The lock and the schedule at a few ticks.
use tgshd.Base.{◌+◌, List, [], ◌∷◌, ◌≡◌, arith, ltb}
use tgshd.Health.Types.{Time}
use tgshd.Health.Runner.{MaintenanceLock, free_lock, stuck}
use tgshd.Health.Runner.Maintenance.{AreClose, last_of, hold_all, hold_all-stuck}

abbrev ticks : List Time
ticks = 40_000_000_000 ∷ 70_000_000_000 ∷ []

ticks-AreClose : AreClose 10_000_000_000 ticks
ticks-AreClose = ((omega arith), (omega arith), ((omega arith), (omega arith), tt))

hold_all-stuck_example :
    stuck
      (hold_all free_lock (10_000_000_000 ∷ ticks))
      (last_of 10_000_000_000 ticks)
      50_000_000_000
    ≡ ltb (10_000_000_000 + 50_000_000_000) (last_of 10_000_000_000 ticks)
hold_all-stuck_example =
    hold_all-stuck 10_000_000_000 ticks 50_000_000_000 (omega arith) ticks-AreClose

abbrev stored : MaintenanceLock
stored = record { held_since = 5_000_000_000; last_seen_held = 8_000_000_000 }
