-- ===== src/Memguard/Tests.antt =====
-- The memory guard on small inputs.
use tgshd.Base.{
  not, ℕ, ◌≤◌, ◌<◌, [], ◌∷◌, true, false, ◌≡◌, ◌⊎◌, refl, inr, none, some, arith, Bytes, codes,
  bytes_beq, trim, trim_left, trim_right, cut_prefix, cut_suffix, has_prefix, has_suffix,
  after_last, lookup, insert, take, All,
}
use mathlib.Core.List.{Memᴰ}
use tgshd.Health.Types.{Time}
use tgshd.Memguard.Types.{
  unit, mode_act, restart, stop, restarted, Config, Service, Sample, ServiceKey, service_key_eq,
  Point, Host, Intervention, Decision, Culprit,
}
use tgshd.Memguard.Eligibility.{
  is_service_cgroup, holds_from, holds_self, is_core_unit, never_touch, service_of,
}
use tgshd.Memguard.Eligibility.Safety.{IsServicePath, IsForeign, Untouched, service_of-eligible}
use tgshd.Memguard.Ring.{Ring, new_ring, add, latest, reset, nth_newest}
use tgshd.Memguard.Ring.Window.{IsValid, to_list, to_list-add}
use tgshd.Memguard.Culprit.{Entry, growth, growth_loop, culprit, choose, candidate, beats}
use tgshd.Memguard.Culprit.Choice.{NoCandidate, IsCandidate, Unbeaten, culprit_lem}
use tgshd.Memguard.Guard.{
  Guard, Entries, new_guard, observe_services, sample_all, sampled, entry_for, judge_anew,
}
use tgshd.Memguard.Guard.Presence.{IsFresh}
use tgshd.Memguard.Guard.History.{IsHeld}
use tgshd.Memguard.Records.{counts, action_for, last_loop}
use tgshd.Memguard.Records.Repeat.{action_for_lem}
use tgshd.Memguard.Episode.{
  is_danger, track, decide, decide_with, decide_on, build_up, judge, observe_host, blamed,
}
use tgshd.Memguard.Episode.Inputs.{host, services, step, Reach, start, next}
use tgshd.Memguard.Episode.Diagram.{Edge, view, kind_of, observe_host-Edge}
use tgshd.Memguard.Episode.Runs.{run_start, Counts, Reach-Counts}

abbrev cfg : Config
cfg = record {
  culprit_window = 10_000_000_000;
  culprit_min_growth = 10;
  never_touch = codes "db*" ∷ [];
  self_cgroup = codes "system.slice/tgshd.service";
  mode = mode_act;
  danger_available_percent = 10;
  danger_pressure_percent = 5;
  danger_for = 10;
  repeat_window = 1000;
  recovery_window = 100;
}

abbrev web_path : Bytes
web_path = codes "/system.slice/web.service"

abbrev web : Bytes
web = codes "web.service"

web_is_eligible : (service_of bytes_beq cfg unit web web_path).eligible ≡ true
unfolding service_of is_service_cgroup holds_self holds_from is_core_unit never_touch trim trim_left
    trim_right cut_prefix cut_suffix has_prefix has_suffix after_last
web_is_eligible = refl

service_of-eligible_example :
    IsServicePath (trim b'/' web_path)
    × IsForeign (trim b'/' cfg.self_cgroup) (trim b'/' web_path)
    × (unit ≡ unit → is_core_unit web ≡ false)
    × Untouched bytes_beq unit web cfg.never_touch
    × ((service_of bytes_beq cfg unit web web_path).is_protected ≡ false)
service_of-eligible_example = service_of-eligible bytes_beq cfg unit web web_path web_is_eligible

abbrev point : Time → ℕ → Point
point at anon = record { at = at; anon = anon }

-- A ring of two points that has come round.
abbrev full_ring : Ring
full_ring = record { points = point 20 300 ∷ point 10 100 ∷ []; next = 1; n = 2 }

full_ring-IsValid : IsValid 2 full_ring
full_ring-IsValid = record { sized = refl; next_below = omega arith; filled = omega arith }

to_list-add_example :
    IsValid 2 (add full_ring (point 30 700))
    × (to_list (add full_ring (point 30 700)) ≡ point 30 700 ∷ take 1 (to_list full_ring))
    × (latest (add full_ring (point 30 700)) ≡ point 30 700)
to_list-add_example = to_list-add 1 full_ring (point 30 700) full_ring-IsValid

abbrev web_service : Service
web_service = record {
  id = codes "unit:web.service";
  kind = unit;
  name = web;
  cgroup_path = web_path;
  eligible = true;
  is_protected = false;
}

abbrev web_entry : Entry
web_entry = record { service = web_service; history = full_ring; seen = 2 }

abbrev web_key : ServiceKey
web_key = record { kind = unit; name = web }

abbrev entries : Entries
entries = (web_key, web_entry) ∷ []

culprit_lem_example :
    ((culprit cfg 21 entries ≡ none) × NoCandidate cfg 21 entries)
    ⊎ ((c : Culprit) × (culprit cfg 21 entries ≡ some c)
        × IsCandidate cfg 21 c entries
        × Unbeaten cfg 21 c entries)
culprit_lem_example = culprit_lem cfg 21 entries

abbrev sample : Bytes → ℕ → Sample
sample path anon = record { kind = unit; name = web; cgroup_path = path; anon = anon }

-- A guard that has seen one entry at its 2nd sample.
abbrev seeing : Guard
seeing = record (new_guard cfg) { gen = 2; entries = entries }

seeing-IsFresh : IsFresh seeing
unfolding lookup
seeing-IsFresh = record { keyed = (refl, tt); bounded = omega arith; seen = (refl, tt) }

web_entry-IsHeld : IsHeld 2 web_entry
web_entry-IsHeld = record { allocated = inr full_ring-IsValid; tracked = λ h. full_ring-IsValid }

abbrev stopped_once : Intervention
stopped_once = record {
  service_id = codes "unit:web.service";
  name = web;
  action = restart;
  at = 5;
  before = 400;
  mode = mode_act;
}

action_for_stops : action_for 1000 (codes "unit:web.service") 90 (stopped_once ∷ []) ≡ (stop, 5)
unfolding action_for last_loop
action_for_stops = refl

action_for_lem_example :
    let id = codes "unit:web.service" in
    ((r : Intervention) × (action_for 1000 id 90 (stopped_once ∷ []) ≡ (stop, r.at))
      × Memᴰ r (stopped_once ∷ [])
      × (counts 1000 id 90 r ≡ true)
      × All (λ o. counts 1000 id 90 o ≡ true → o.at ≤ r.at) (stopped_once ∷ [])
      × (0 < cfg.repeat_window)
      × (0 < r.at))
    ⊎ ((action_for 1000 id 90 (stopped_once ∷ []) ≡ (restart, 0))
        × ((cfg.repeat_window ≡ 0)
            ⊎ All (λ o. counts 1000 id 90 o ≡ true → o.at ≡ 0) (stopped_once ∷ [])))
action_for_lem_example =
    action_for_lem cfg.repeat_window (codes "unit:web.service") 90 (stopped_once ∷ [])

-- Two samples of a service that grows, and two readings of danger.
abbrev reading : Time → Host
reading at = record { at = at; available_pct = 3; full_avg10 = 40 }

abbrev after_one : Guard
after_one = (step bytes_beq (new_guard cfg) (services 5 (sample web_path 100 ∷ []))).0

abbrev after_two : Guard
after_two = (step bytes_beq after_one (services 10 (sample web_path 400 ∷ []))).0

abbrev in_danger : Guard
in_danger = (step bytes_beq after_two (host (reading 12))).0

in_danger-Reach : Reach bytes_beq cfg in_danger (reading 12 ∷ [])
in_danger-Reach = next (host (reading 12)) (
    next (services 10 (sample web_path 400 ∷ []))
      (next (services 5 (sample web_path 100 ∷ [])) start))

Reach-Counts_example : (in_danger.cfg ≡ cfg) × Counts cfg in_danger (reading 12 ∷ [])
Reach-Counts_example = Reach-Counts bytes_beq in_danger-Reach (omega arith, tt)

holds_danger : 0 < in_danger.cfg.danger_for
unfolding step observe_services sample_all sampled entry_for judge_anew service_of is_service_cgroup
    holds_self holds_from is_core_unit never_touch trim trim_left trim_right cut_prefix cut_suffix
    has_prefix has_suffix after_last insert lookup new_guard new_ring reset add latest nth_newest
    growth growth_loop candidate choose culprit beats action_for last_loop observe_host judge track
    is_danger build_up decide decide_with decide_on
holds_danger = omega arith

observe_host-Edge_example :
    let (g, d) = observe_host (reading 25) in_danger in
    let readings = reading 25 ∷ reading 12 ∷ [] in
    Edge
      (view
        (reading 25)
        in_danger
        (run_start (is_danger cfg) readings)
        (run_start (λ x. not (is_danger cfg x)) readings))
      in_danger.episode.state
      (kind_of d)
      g.episode.state
observe_host-Edge_example =
    observe_host-Edge bytes_beq cfg in_danger (reading 12 ∷ []) (reading 25) in_danger-Reach
      holds_danger (omega arith, (omega arith, tt))

abbrev blamed_web : Culprit
blamed_web = record { service = web_service; before = 100; size = 400; growth = 300; window = 5 }

abbrev restart_web : Decision
restart_web = record {
  act = true;
  outcome = blamed (reading 25) blamed_web restart 0 restarted;
  intervention = some (record stopped_once { at = 25; before = 400 });
}
