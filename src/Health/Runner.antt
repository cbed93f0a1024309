-- ===== src/Health/Runner.antt =====
-- The clocks of the runner: schedule.go and maintenance.go of pkg/health/runner, and
-- pkg/health/quiet.go.
pub mod Maintenance
pub mod Due
pub mod Lane
pub mod Cycle
pub mod Saving
pub mod Retire
pub mod Schedule
pub mod Delivery
pub mod Tests
use tgshd.Base.{
  ℕ, ◌+◌, ◌-◌, max, List, [], ◌∷◌, Bool, true, false, not, ◌&&◌, ◌||◌, ltb, leb, nat_beq,
  if◌then◌else◌, Option, none, some,
}
use tgshd.Health.Types.{Time, Duration}

-- `MaintenanceLock`.
pub record MaintenanceLock : Type 0 where
  pub held_since : Time
  pub last_seen_held : Time

abbrev pub free_lock : MaintenanceLock
free_lock = record { held_since = 0; last_seen_held = 0 }

-- `maintenanceGap`, 5 minutes.
abbrev pub maintenance_gap : Duration
maintenance_gap = 300_000_000_000

-- `MaintenanceLock.observe`.
unfoldable pub observe : MaintenanceLock → Time → Bool → MaintenanceLock
observe m now false = free_lock
observe m now true = record {
  held_since =
      if nat_beq m.held_since 0 || ltb (m.last_seen_held + maintenance_gap) now
      then now
      else m.held_since;
  last_seen_held = now;
}

-- `MaintenanceLock.stuck`.
unfoldable pub stuck : MaintenanceLock → Time → Duration → Bool
stuck m now max_hold = not (nat_beq m.held_since 0) && ltb (m.held_since + max_hold) now

-- What the runner keeps of the lock.
pub record Observed : Type 0 where
  pub maint : MaintenanceLock
  pub maint_observed : Bool

-- `Runner.observeMaintenance`, with whether it raises the checker error.
unfoldable pub observe_maintenance : Time → Bool → Duration → Observed → Observed × Bool
observe_maintenance now held max_hold r =
    let m = observe r.maint now held in
    (record { maint = m; maint_observed = true }, stuck m now max_hold)

-- `Runner.restoreMaintenance` of an observation that was decoded.
unfoldable pub restore_maintenance : MaintenanceLock → Observed → Observed
restore_maintenance stored r =
    if nat_beq stored.held_since 0
    then r
    else if not r.maint_observed
    then record r { maint = stored }
    else if nat_beq r.maint.held_since 0
    then r
    else if leb r.maint.held_since (stored.last_seen_held + maintenance_gap)
        && ltb stored.held_since r.maint.held_since
    then record r { maint = record r.maint { held_since = stored.held_since } }
    else r

-- The reason a quiet window is open.
pub data QuietReason : Type 0 where
  maintenance boot_grace : QuietReason

-- `Quiet`.
unfoldable pub quiet : Bool → Duration → Duration → Option QuietReason
quiet maint_held uptime grace =
    if maint_held
    then some maintenance
    else if ltb 0 grace && ltb uptime grace
    then some boot_grace
    else none

-- `dueSlack`, half a tick of 30 s.
abbrev pub due_slack : Duration
due_slack = 15_000_000_000

-- `due`.
unfoldable pub due : Time → Time → Duration → Bool
due last now interval = nat_beq last 0 || ltb now last || leb interval ((now - last) + due_slack)

-- `later`.
abbrev pub later : Time → Time → Time
later a b = if ltb a b then b else a
