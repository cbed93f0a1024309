-- ===== src/Memguard/Episode/Runs.antt =====
-- The readings that a guard has seen and the times that it counts from: `Guard.track` of
-- pkg/health/memguard/episode.go.
use tgshd.Base.{
  ◌<◌, List, [], ◌∷◌, Bool, true, false, not, ◌≡◌, refl, ap, ◌∙◌, arith, nat_beq, if◌then◌else◌,
  All, Bool-cases, inl, inr, Bytes,
}
use tgshd.Health.Types.{Time}
use tgshd.Memguard.Types.{Config, Host}
use tgshd.Memguard.Guard.{Guard, new_guard, observe_services}
use tgshd.Memguard.Episode.{is_danger, or_now, track, merge, restore}
use tgshd.Memguard.Episode.Invariant.{Inv, track_danger, track_clear}
use tgshd.Memguard.Episode.Judging.{observe_host-track}
use tgshd.Memguard.Episode.Inputs.{
  Input, host, done, services, merges, restores, step, reading_of, Reach, start, next, Reach-Inv,
  action_done-frame,
}

-- Whether the newest reading is of a kind.
abbrev pub newest_is : (Host → Bool) → List Host → Bool
newest_is is_one [] = false
newest_is is_one (h ∷ past) = is_one h

-- The time of the first reading of the run of readings of a kind that lasts until the newest one, or
-- 0 when the newest is not of that kind.
unfoldable pub run_start : (Host → Bool) → List Host → Time
run_start is_one [] = 0
run_start is_one (h ∷ past) =
    let earlier = run_start is_one past in
    if is_one h then (if newest_is is_one past then earlier else h.at) else 0

-- Readings that were taken at a time that is set.
abbrev pub AreTimed : List Host → Type 0
AreTimed = All λ h. 0 < h.at

run_start-unset :
    (is_one : Host → Bool) (past : List Host)
    → AreTimed past
    → nat_beq (run_start is_one past) 0 ≡ not (newest_is is_one past)
unfolding run_start
run_start-unset is_one [] t = refl
run_start-unset is_one (h ∷ past) t = ground (arith, t.0, run_start-unset is_one past t.1)

-- One reading more, as `track` counts it.
run_start-or_now :
    (is_one : Host → Bool) (h : Host) (past : List Host)
    → AreTimed past
    → is_one h ≡ true
    → or_now (run_start is_one past) h.at ≡ run_start is_one (h ∷ past)
unfolding run_start
run_start-or_now is_one h past t e =
    rw (run_start-unset is_one past t, e)
      (flip (newest_is is_one past) h.at (run_start is_one past))
  where
    flip : (b : Bool) (x y : Time) → (if not b then x else y) ≡ (if b then y else x)
    flip true x y = refl
    flip false x y = refl

run_start-none :
    (is_one : Host → Bool) (h : Host) (past : List Host)
    → is_one h ≡ false
    → 0 ≡ run_start is_one (h ∷ past)
unfolding run_start
run_start-none is_one h past e = rw e refl

-- The times that a guard counts from are those of its readings.
abbrev pub Counts : Config → Guard → List Host → Type 0
Counts cfg g past =
    (g.danger_since ≡ run_start (is_danger cfg) past)
    × (g.clear_since ≡ run_start (λ h. not (is_danger cfg h)) past)

pub track-Counts :
    (cfg : Config) (h : Host) (g : Guard) (past : List Host)
    → g.cfg ≡ cfg
    → AreTimed past
    → Counts cfg g past
    → Counts cfg (track h g) (h ∷ past)
track-Counts cfg h g past same t c = elim (Bool-cases (is_danger cfg h)) [
  | inl e ↦ rw (track_danger h g (ap (λ x. is_danger x h) same ∙ e)) (
    ap (λ s. or_now s h.at) c.0 ∙ run_start-or_now (is_danger cfg) h past t e,
    run_start-none (λ x. not (is_danger cfg x)) h past (ap not e),
  )
  | inr e ↦ rw (track_clear h g (ap (λ x. is_danger x h) same ∙ e)) (
    run_start-none (is_danger cfg) h past e,
    ap (λ s. or_now s h.at) c.1 ∙ run_start-or_now (λ x. not (is_danger cfg x)) h past t (ap not e),
  )
]

module _ (path_match : Bytes → Bytes → Bool) where
  step-Counts :
      (cfg : Config) (g : Guard) (past : List Host) (i : Input)
      → Inv g past
      → AreTimed (reading_of path_match i past)
      → (g.cfg ≡ cfg) × Counts cfg g past
      → ((step path_match g i).0.cfg ≡ cfg)
        × Counts cfg (step path_match g i).0 (reading_of path_match i past)
  unfolding step merge restore observe_services
  step-Counts cfg g past (host h) v t (same, c) =
      let kept = observe_host-track h g past v in
      let tracked = track-Counts cfg h g past same t.1 c in
      (kept.0 ∙ same, (kept.1 ∙ tracked.0, kept.2 ∙ tracked.1))
  step-Counts cfg g past (done at r ok) v t (same, c) =
      let kept = action_done-frame at r ok g in (kept.0 ∙ same, (kept.1 ∙ c.0, kept.2 ∙ c.1))
  step-Counts cfg g past (services at samples) v t c = (c.0, c.1)
  step-Counts cfg g past (merges at more) v t c = (c.0, c.1)
  step-Counts cfg g past (restores at stored) v t c = (c.0, c.1)

  earlier_timed :
      (i : Input) (past : List Host) → AreTimed (reading_of path_match i past) → AreTimed past
  earlier_timed (host h) past t = t.1
  earlier_timed (done at r ok) past t = t
  earlier_timed (services at samples) past t = t
  earlier_timed (merges at more) past t = t
  earlier_timed (restores at stored) past t = t

  -- Whatever calls a guard has had, in whatever order, its configuration is the first one, and the
  -- time from which it counts danger is that of the first reading of the run of danger readings that
  -- lasts until the newest reading, and is unset when that one is clear; and likewise for clear ones.
  -- It holds when every reading was taken at a time that is set.
  pub Reach-Counts :
      {cfg : Config} {g : Guard} {past : List Host}
      → Reach path_match cfg g past
      → AreTimed past
      → (g.cfg ≡ cfg) × Counts cfg g past
  unfolding run_start new_guard
  Reach-Counts {cfg} start t = (refl, (refl, refl))
  Reach-Counts {cfg} (next {g} {past} i r) t =
      step-Counts cfg g past i (Reach-Inv path_match r) t (Reach-Counts r (earlier_timed i past t))
