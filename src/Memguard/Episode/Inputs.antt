-- ===== src/Memguard/Episode/Inputs.antt =====
-- The calls that change a guard and what holds after any of them: pkg/health/memguard, guard.go
-- and episode.go.
use tgshd.Base.{List, [], ◌∷◌, Bool, ◌≡◌, ◌⊎◌, ap, ◌∙◌, Option, none, arith, Bytes}
use tgshd.Health.Types.{Time}
use tgshd.Memguard.Types.{
  idle, danger, acted, reported, Config, Host, Sample, Intervention, Decision,
}
use tgshd.Memguard.Guard.{Guard, new_guard, observe_services}
use tgshd.Memguard.Episode.{observe_host, action_done, merge, restore}
use tgshd.Memguard.Episode.Invariant.{Inv, new-Inv}
use tgshd.Memguard.Episode.Judging.{observe_host-Inv}

pub data Input : Type 0 where
  host : Host → Input
  done : Time → Intervention → Bool → Input
  services : Time → List Sample → Input
  merges restores : Time → List Intervention → Input

pub action_done-frame :
    (at : Time) (r : Intervention) (ok : Bool) (g : Guard)
    → ((action_done at r ok g).cfg ≡ g.cfg)
      × ((action_done at r ok g).danger_since ≡ g.danger_since)
      × ((action_done at r ok g).clear_since ≡ g.clear_since)
unfolding action_done
action_done-frame at r ok g = (ground arith, ground arith, ground arith)

-- The state moves only from acted to reported.
action_done-state :
    (at : Time) (r : Intervention) (ok : Bool) (g : Guard)
    → ((action_done at r ok g).episode.state ≡ g.episode.state)
      ⊎ ((g.episode.state ≡ acted) × ((action_done at r ok g).episode.state ≡ reported))
unfolding action_done
action_done-state at r ok g = ground arith

action_done-kept :
    (at : Time) (r : Intervention) (ok : Bool) (g : Guard)
    → (g.episode.state ≡ idle) ⊎ (g.episode.state ≡ danger)
    → (action_done at r ok g).episode.done_at ≡ g.episode.done_at
unfolding action_done
action_done-kept at r ok g e = ground arith

action_done-Inv :
    (at : Time) (r : Intervention) (ok : Bool) (g : Guard) (past : List Host)
    → Inv g past
    → Inv (action_done at r ok g) past
action_done-Inv at r ok g past v =
    let (same_cfg, same_danger, same_clear) = action_done-frame at r ok g in
    let state = action_done-state at r ok g in
    record {
      danger_run = rw (same_cfg, same_danger) v.danger_run;
      clear_run = rw (same_cfg, same_clear) v.clear_run;
      idle_calm = λ e. same_danger ∙ v.idle_calm (ground arith);
      fresh = λ e. action_done-kept at r ok g (ground arith) ∙ v.fresh (ground arith);
      acted_mode = λ e. ap (λ c. c.mode) same_cfg ∙ v.acted_mode (ground arith);
    }

module _ (path_match : Bytes → Bytes → Bool) where
  unfoldable pub step : Guard → Input → Guard × Option Decision
  step g (host h) = observe_host h g
  step g (done at r ok) = (action_done at r ok g, none)
  step g (services at samples) = (observe_services path_match at samples g, none)
  step g (merges at more) = (merge at more g, none)
  step g (restores at stored) = (restore at stored g, none)

  -- The readings that an input adds.
  abbrev pub reading_of : Input → List Host → List Host
  reading_of (host h) past = h ∷ past
  reading_of (done at r ok) past = past
  reading_of (services at samples) past = past
  reading_of (merges at more) past = past
  reading_of (restores at stored) past = past

  -- The guards reached from a new one, with the readings seen on the way, newest first.
  pub data Reach (cfg : Config) : Guard → List Host → Type 0 where
    start : Reach cfg (new_guard cfg) []
    next :
        {g : Guard} {past : List Host} (i : Input)
        → Reach cfg g past
        → Reach cfg (step g i).0 (reading_of i past)

  step-Inv :
      (g : Guard) (past : List Host) (i : Input) → Inv g past → Inv (step g i).0 (reading_of i past)
  unfolding step merge restore observe_services
  step-Inv g past (host h) v = observe_host-Inv h g past v
  step-Inv g past (done at r ok) v = action_done-Inv at r ok g past v
  step-Inv g past (services at samples) v = record {
    danger_run = v.danger_run;
    clear_run = v.clear_run;
    idle_calm = v.idle_calm;
    fresh = v.fresh;
    acted_mode = v.acted_mode;
  }
  step-Inv g past (merges at more) v = record {
    danger_run = v.danger_run;
    clear_run = v.clear_run;
    idle_calm = v.idle_calm;
    fresh = v.fresh;
    acted_mode = v.acted_mode;
  }
  step-Inv g past (restores at stored) v = record {
    danger_run = v.danger_run;
    clear_run = v.clear_run;
    idle_calm = v.idle_calm;
    fresh = v.fresh;
    acted_mode = v.acted_mode;
  }

  -- Whatever calls a guard has had, in whatever order: the time from which it counts danger is unset or
  -- that of a reading since which all readings were of danger, and likewise for clear ones; in the idle
  -- state no danger is counted; no action is marked done while no episode is acted on; and an episode
  -- is acted on in act mode only.
  pub Reach-Inv : {cfg : Config} {g : Guard} {past : List Host} → Reach cfg g past → Inv g past
  Reach-Inv {cfg} start = new-Inv cfg
  Reach-Inv (next {g} {past} i r) = step-Inv g past i (Reach-Inv r)
