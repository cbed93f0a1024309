-- ===== src/Health/Runner/Due.antt =====
-- When a check runs: `due` of pkg/health/runner/schedule.go.
use tgshd.Base.{◌+◌, ◌≤◌, ◌<◌, List, [], ◌∷◌, true, ◌≡◌, arith, if◌then◌else◌, Bool-cases, inl, inr}
use tgshd.Health.Types.{Time, Duration}
use tgshd.Health.Runner.{due, due_slack}

-- The times at which a check last run at `last` runs, of the ticks at the given times.
unfoldable pub runs : Time → Duration → List Time → List Time
runs last interval [] = []
runs last interval (now ∷ ticks) =
    let ran = runs now interval ticks in
    let waited = runs last interval ticks in if due last now interval then now ∷ ran else waited

-- Ticks of a clock that does not go back.
abbrev pub Rising : Time → List Time → Type 0
Rising last [] = Unit
Rising last (now ∷ ticks) = (last ≤ now) × Rising now ticks

-- Each run is an interval, less the slack, after the one before.
abbrev pub Spaced : Duration → Time → List Time → Type 0
Spaced interval last [] = Unit
Spaced interval last (now ∷ later) = (last + interval ≤ now + due_slack) × Spaced interval now later

Rising-from_earlier :
    (last now : Time) (ticks : List Time) → last ≤ now → Rising now ticks → Rising last ticks
Rising-from_earlier last now [] h r = tt
Rising-from_earlier last now (t ∷ ticks) h r = (omega (arith, r.0), r.1)

due_waits :
    (last now : Time) (interval : Duration)
    → 0 < last
    → last ≤ now
    → due last now interval ≡ true
    → last + interval ≤ now + due_slack
unfolding due
due_waits last now interval pos le d = ground arith

-- A check that has run does not run again earlier than half a tick before its interval is over,
-- however the ticks fall, under a clock that does not go back.
pub runs-Spaced :
    (last : Time) (interval : Duration) (ticks : List Time)
    → 0 < last
    → Rising last ticks
    → Spaced interval last (runs last interval ticks)
unfolding runs
runs-Spaced last interval [] pos r = tt
runs-Spaced last interval (now ∷ ticks) pos r = elim (Bool-cases (due last now interval)) [
  | inl d ↦ rw d (
    due_waits last now interval pos r.0 d,
    runs-Spaced now interval ticks (omega (arith, r.0)) r.1,
  )
  | inr d ↦ rw d (runs-Spaced last interval ticks pos (Rising-from_earlier last now ticks r.0 r.1))
]
