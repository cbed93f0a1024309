-- ===== src/Memguard/Episode.antt =====
-- The danger episode of the memory guard, pkg/health/memguard/episode.go. A decision is `none`
-- where the source returns false.
pub mod Invariant
pub mod Judging
pub mod Inputs
pub mod Diagram
pub mod Deciding
pub mod Runs
use tgshd.Base.{
  ℕ, ◌+◌, ◌-◌, List, [], ◌∷◌, Bool, true, false, not, ◌&&◌, ◌||◌, Option, none, some, ltb, leb,
  nat_beq, if◌then◌else◌,
}
use tgshd.Health.Types.{Time, Duration}
use tgshd.Memguard.Types.{
  Mode, mode_report, mode_act, mode_off, Action, unset, restart, stop, kill, OutcomeKind, restarted,
  stopped, would_restart, would_stop, not_recovered, protected, no_culprit, State, idle, danger,
  acted, reported, recovery_failed, Config, Culprit, Host, Outcome, Intervention, Decision, Episode,
}
use tgshd.Memguard.Culprit.{culprit}
use tgshd.Memguard.Guard.{Guard, idle_episode}
use tgshd.Memguard.Records.{action_for, add_record, merge_records, prune}

-- Whether a reading is one of danger.
unfoldable pub is_danger : Config → Host → Bool
is_danger cfg h =
    ltb h.available_pct cfg.danger_available_percent && leb cfg.danger_pressure_percent h.full_avg10

-- The time if it is set, or else the time now.
abbrev pub or_now : Time → Time → Time
or_now t now = if nat_beq t 0 then now else t

-- `Guard.track`.
unfoldable pub track : Host → Guard → Guard
track h g =
    if is_danger g.cfg h
    then record g { danger_since = or_now g.danger_since h.at; clear_since = 0 }
    else record g { danger_since = 0; clear_since = or_now g.clear_since h.at }

-- `Guard.outcome`, with no culprit and no action.
abbrev pub outcome : Host → OutcomeKind → Outcome
outcome h kind = record {
  culprit = none;
  at = h.at;
  kind = kind;
  action = unset;
  available_pct = h.available_pct;
  full_avg10 = h.full_avg10;
  last_action = 0;
}

abbrev pub decision : Outcome → Decision
decision out = record { act = false; outcome = out; intervention = none }

-- `pick`.
abbrev pub pick : Action → OutcomeKind → OutcomeKind → OutcomeKind
pick stop if_stop if_restart = if_stop
pick unset if_stop if_restart = if_restart
pick restart if_stop if_restart = if_restart
pick kill if_stop if_restart = if_restart

abbrev pub set_state : State → Guard → Guard
set_state s g = record g { episode = record g.episode { state = s } }

-- The record of an intervention decided on.
abbrev pub intervention_of : Host → Culprit → Action → Mode → Intervention
intervention_of h c action mode = record {
  service_id = c.service.id;
  name = c.service.name;
  action = action;
  at = h.at;
  before = c.size;
  mode = mode;
}

abbrev pub blamed : Host → Culprit → Action → Time → OutcomeKind → Outcome
blamed h c action last kind = record (outcome h kind) {
  culprit = some c;
  action = action;
  last_action = last;
}

-- The part of `Guard.decide` after a culprit was found that is not protected.
unfoldable pub decide_on : Mode → Host → Culprit → Action → Time → Guard → Guard × Decision
decide_on mode_act h c action last g = (
  record g {
    episode = record g.episode {
      state = acted;
      culprit = some c;
      action = action;
      acted_at = h.at;
    };
  },
  record {
    act = true;
    outcome = blamed h c action last (pick action stopped restarted);
    intervention = some (intervention_of h c action mode_act);
  },
)
decide_on other h c action last g = (
  record g {
    episode = record g.episode { state = reported; culprit = some c };
    records =
        add_record g.cfg.repeat_window h.at (intervention_of h c action mode_report) g.records;
  },
  decision (blamed h c action last (pick action would_stop would_restart)),
)

-- `Guard.decide` once `Guard.Culprit` has answered.
unfoldable pub decide_with : Option Culprit → Host → Guard → Guard × Decision
unfolding decide_on
decide_with none h g = (set_state reported g, decision (outcome h no_culprit))
decide_with (some c) h g =
    if c.service.is_protected
    then (
      record g { episode = record g.episode { state = reported; culprit = some c } },
      decision (record (outcome h protected) { culprit = some c }),
    )
    else (let (action, last) = action_for g.cfg.repeat_window c.service.id h.at g.records in
        decide_on g.cfg.mode h c action last g)

unfoldable pub decide : Host → Guard → Guard × Decision
decide h g = decide_with (culprit g.cfg h.at g.entries) h g

-- `Guard.recovered`.
unfoldable pub recovered : Host → Guard → Guard × Option Decision
recovered h g =
    if nat_beq g.episode.done_at 0 || ltb h.at (g.episode.done_at + g.cfg.recovery_window)
    then (g, none)
    else if not (is_danger g.cfg h)
    then (
      if leb (g.clear_since + g.cfg.danger_for) h.at
          then record g { episode = idle_episode }
          else g,
      none,
    )
    else (
      set_state recovery_failed g,
      some (
          decision (record (outcome h not_recovered) {
            culprit = g.episode.culprit;
            action = g.episode.action;
          })),
    )

-- The end of an episode that was reported or not recovered.
unfoldable pub unwind : Host → Guard → Guard × Option Decision
unwind h g =
    if not (is_danger g.cfg h) && leb (g.clear_since + g.cfg.recovery_window) h.at
    then (record g { episode = idle_episode }, none)
    else (g, none)

abbrev pub enter_danger : State → Guard → Guard
enter_danger idle g = record g {
  episode = record idle_episode { state = danger; since = g.danger_since };
}
enter_danger other g = g

-- A reading while no episode is in progress, or one is building up.
unfoldable pub build_up : Host → Guard → Guard × Option Decision
build_up h g =
    if not (is_danger g.cfg h)
    then (record g { episode = idle_episode }, none)
    else (let g1 = enter_danger g.episode.state g in
        if ltb h.at (g1.danger_since + g1.cfg.danger_for)
        then (g1, none)
        else (let (g2, d) = decide h g1 in (g2, some d)))

-- The switch of `Guard.ObserveHost`.
unfoldable pub judge : State → Host → Guard → Guard × Option Decision
judge acted h g = recovered h g
judge reported h g = unwind h g
judge recovery_failed h g = unwind h g
judge idle h g = build_up h g
judge danger h g = build_up h g

-- `Guard.ObserveHost`.
unfoldable pub observe_host : Host → Guard → Guard × Option Decision
observe_host h g = judge g.episode.state h (track h g)

abbrev pub is_acted : State → Bool
is_acted acted = true
is_acted _ = false

-- `Guard.ActionDone`.
unfoldable pub action_done : Time → Intervention → Bool → Guard → Guard
action_done at r ok g =
    let current = is_acted g.episode.state && nat_beq g.episode.acted_at r.at in
    let noted =
      if current
      then record g { episode = record g.episode { action = r.action; done_at = at } }
      else g in
    if not ok
    then (if current then set_state reported g else g)
    else record noted { records = add_record g.cfg.repeat_window r.at r g.records }

-- `Guard.Merge`, `Guard.Export` and `Guard.Restore`.
unfoldable pub merge : Time → List Intervention → Guard → Guard
merge at more g = record g { records = merge_records g.cfg.repeat_window at g.records more }

abbrev pub export : Time → Guard → List Intervention
export at g = prune g.cfg.repeat_window at g.records

unfoldable pub restore : Time → List Intervention → Guard → Guard
restore at stored g = record g { records = prune g.cfg.repeat_window at stored }
