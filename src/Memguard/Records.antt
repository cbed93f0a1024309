-- ===== src/Memguard/Records.antt =====
-- The interventions that the guard remembers, pkg/health/memguard/episode.go.
pub mod Repeat
pub mod Merging
use tgshd.Base.{
  ℕ, ◌+◌, ◌-◌, List, [], ◌∷◌, ◌++◌, Bool, true, false, not, ◌||◌, ◌&&◌, ◌≡◌, ◌↔◌, Option, none,
  some, arith, ltb, leb, nat_beq, if◌then◌else◌, any, Bytes, bytes_beq, bytes_beq_iff, select, sort,
}
use tgshd.Health.Types.{Time, Duration}
use tgshd.Memguard.Types.{
  Mode, mode_report, mode_act, mode_off, Action, unset, restart, stop, kill, Intervention,
}

abbrev pub action_beq : Action → Action → Bool
action_beq unset unset = true
action_beq restart restart = true
action_beq stop stop = true
action_beq kill kill = true
action_beq _ _ = false

abbrev pub mode_beq : Mode → Mode → Bool
mode_beq mode_report mode_report = true
mode_beq mode_act mode_act = true
mode_beq mode_off mode_off = true
mode_beq _ _ = false

-- `Record.Equal`.
unfoldable pub same_record : Intervention → Intervention → Bool
same_record r o =
    bytes_beq r.service_id o.service_id
    && bytes_beq r.name o.name
    && action_beq r.action o.action
    && nat_beq r.at o.at
    && nat_beq r.before o.before
    && mode_beq r.mode o.mode

-- `Record.Within` and `Guard.live`: `at - r.at <= window` without a subtraction.
abbrev pub within : Duration → Time → Intervention → Bool
within window at r = leb at (r.at + window)

-- The loop of `MergeRecords`.
unfoldable pub merge_loop :
    Duration → Time → List Intervention → List Intervention → List Intervention
merge_loop window at merged [] = merged
merge_loop window at merged (r ∷ rs) =
    merge_loop window at
      (if within window at r && not (any (same_record r) merged) then merged ++ r ∷ [] else merged)
      rs

abbrev pub by_time : Intervention → Intervention → Bool
by_time a b = leb a.at b.at

-- `MergeRecords`.
unfoldable pub merge_records :
    Duration → Time → List Intervention → List Intervention → List Intervention
merge_records window at own more = sort by_time (merge_loop window at [] (own ++ more))

-- `Guard.prune` from an empty start, which `Export` and `Restore` are.
abbrev pub prune : Duration → Time → List Intervention → List Intervention
prune window at = select (within window at)

-- `Guard.addRecord`.
unfoldable pub add_record : Duration → Time → Intervention → List Intervention → List Intervention
add_record window at r records = prune window at records ++ r ∷ []

-- Whether the repeat rule counts a record.
abbrev pub counts : Duration → Bytes → Time → Intervention → Bool
counts window id at r = bytes_beq r.service_id id && mode_beq r.mode mode_act && within window at r

-- The loop of `Guard.actionFor`.
unfoldable pub last_loop : Duration → Bytes → Time → List Intervention → Time → Time
last_loop window id at [] last = last
last_loop window id at (r ∷ rs) last =
    last_loop window id at rs (if counts window id at r && ltb last r.at then r.at else last)

-- `Guard.actionFor`.
unfoldable pub action_for : Duration → Bytes → Time → List Intervention → Action × Time
unfolding last_loop
action_for window id at records =
    let last = last_loop window id at records 0 in
    if nat_beq window 0 then (restart, 0) else if nat_beq last 0 then (restart, 0) else (stop, last)
