-- ===== src/Health/Runner/Maintenance.antt =====
-- How long the maintenance lock counts as held: pkg/health/runner/maintenance.go.
use tgshd.Base.{◌+◌, ◌≤◌, ◌<◌, List, [], ◌∷◌, Bool, true, false, ◌≡◌, refl, ap, ◌∙◌, arith, ltb}
use tgshd.Health.Types.{Time, Duration}
use tgshd.Health.Runner.{
  MaintenanceLock, free_lock, maintenance_gap, observe, stuck, Observed, observe_maintenance,
  restore_maintenance,
}

-- Ticks at which the lock is held, each at most the gap after the one before.
abbrev pub AreClose : Time → List Time → Type 0
AreClose last [] = Unit
AreClose last (t ∷ ts) = (last ≤ t) × (t ≤ last + maintenance_gap) × AreClose t ts

abbrev pub last_of : Time → List Time → Time
last_of last [] = last
last_of last (t ∷ ts) = last_of t ts

unfoldable pub hold_all : MaintenanceLock → List Time → MaintenanceLock
hold_all m [] = m
hold_all m (t ∷ ts) = hold_all (observe m t true) ts

abbrev lock : Time → Time → MaintenanceLock
lock since last = record { held_since = since; last_seen_held = last }

observe_close :
    (since last now : Time)
    → 0 < since
    → now ≤ last + maintenance_gap
    → observe (lock since last) now true ≡ lock since now
unfolding observe
observe_close since last now pos close = ground arith

hold_on :
    (since last : Time) (ts : List Time)
    → 0 < since
    → AreClose last ts
    → hold_all (lock since last) ts ≡ lock since (last_of last ts)
unfolding hold_all
hold_on since last [] pos close = refl
hold_on since last (t ∷ ts) pos close =
    ap (λ m. hold_all m ts) (observe_close since last t pos close.1)
    ∙ hold_on since t ts pos close.2

observe_free : (now : Time) → observe free_lock now true ≡ lock now now
unfolding observe
observe_free now = refl

lock-stuck :
    (since last now : Time) (max_hold : Duration)
    → 0 < since
    → stuck (lock since last) now max_hold ≡ ltb (since + max_hold) now
unfolding stuck
lock-stuck since last now max_hold pos = ground arith

-- A lock found held at a tick after it was free, and at each of the ticks since, which come at
-- most five minutes apart, is stuck just when the time from the first to the last of these ticks
-- exceeds the maximum.
pub hold_all-stuck :
    (first : Time) (ts : List Time) (max_hold : Duration)
    → 0 < first
    → AreClose first ts
    → stuck (hold_all free_lock (first ∷ ts)) (last_of first ts) max_hold
      ≡ ltb (first + max_hold) (last_of first ts)
unfolding hold_all
hold_all-stuck first ts max_hold pos close =
    ap (λ m. stuck (hold_all m ts) (last_of first ts) max_hold) (observe_free first)
    ∙ ap (λ m. stuck m (last_of first ts) max_hold) (hold_on first first ts pos close)
    ∙ lock-stuck first (last_of first ts) (last_of first ts) max_hold pos

-- What a runner keeps of the lock when it starts.
abbrev pub at_start : Observed
at_start = record { maint = free_lock; maint_observed = false }

-- The order of restoring the stored observation and of the first tick after a start does not
-- matter, provided that the stored hold began before the tick: a tick after the restore and a
-- restore after the tick leave the same observation.
pub restore_maintenance-observe :
    (stored : MaintenanceLock) (now : Time) (held : Bool) (max_hold : Duration)
    → 0 < now
    → stored.held_since < now
    → (observe_maintenance now held max_hold (restore_maintenance stored at_start)).0
      ≡ restore_maintenance stored (observe_maintenance now held max_hold at_start).0
unfolding observe_maintenance restore_maintenance observe
restore_maintenance-observe stored now false max_hold pos past = ground arith
restore_maintenance-observe stored now true max_hold pos past = ground arith
