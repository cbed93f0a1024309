-- ===== src/Memguard/Episode/Diagram.antt =====
-- The state diagram in the comment of `Guard.ObserveHost` (pkg/health/memguard/episode.go), and
-- the outcome that each of its edges reports.
use tgshd.Base.{
  ℕ, ◌+◌, ◌<◌, ◌≤◌, List, ◌∷◌, Bool, true, false, not, ◌≡◌, ◌≢◌, ◌⊎◌, inl, inr, refl, ap, ◌∙◌,
  subst, Option, none, some, arith, Bytes, Bool-cases, nat_beq, ltb, leb,
}
use tgshd.Health.Types.{Time, Duration}
use tgshd.Memguard.Types.{
  Mode, mode_act, mode_report, mode_off, Action, unset, restart, stop, kill, OutcomeKind, restarted,
  stopped, would_restart, would_stop, not_recovered, protected, no_culprit, State, idle, danger,
  acted, reported, recovery_failed, Config, Host, Decision, Culprit,
}
use tgshd.Memguard.Culprit.{culprit}
use tgshd.Memguard.Guard.{Guard}
use tgshd.Memguard.Records.{action_for}
use tgshd.Memguard.Episode.{
  is_danger, track, decide_on, decide_with, decide, recovered, unwind, build_up, judge,
  observe_host,
}
use tgshd.Memguard.Episode.Invariant.{track-Tracked, track_danger, track_clear}
use tgshd.Memguard.Episode.Inputs.{Reach, Reach-Inv}
use tgshd.Memguard.Episode.Runs.{run_start, AreTimed, Reach-Counts, track-Counts}

abbrev pub kind_of : Option Decision → Option OutcomeKind
kind_of none = none
kind_of (some d) = some d.outcome.kind

-- What an edge depends on: the configuration, when the action was done, the culprit, the reading, and
-- the times of the first readings of the runs of danger and of clear ones that last until it.
pub record View : Type 0 where
  pub cfg : Config
  pub done_at : Time
  pub found : Option Culprit
  pub host : Host
  pub danger_from : Time
  pub clear_from : Time

abbrev pub view : Host → Guard → Time → Time → View
view h g danger_from clear_from = record {
  cfg = g.cfg;
  done_at = g.episode.done_at;
  found = culprit g.cfg h.at g.entries;
  host = h;
  danger_from = danger_from;
  clear_from = clear_from;
}

-- The conditions on the edges.
abbrev IsDanger : View → Type 0
IsDanger v = is_danger v.cfg v.host ≡ true

abbrev IsClear : View → Type 0
IsClear v = is_danger v.cfg v.host ≡ false

-- Danger held for `DangerFor`, and clear held for a duration.
abbrev IsHeld : View → Type 0
IsHeld v = IsDanger v × (v.danger_from + v.cfg.danger_for ≤ v.host.at)

abbrev IsClearFor : Duration → View → Type 0
IsClearFor d v = IsClear v × (v.clear_from + d ≤ v.host.at)

-- The action was done `RecoveryWindow` ago.
abbrev HasRecovered : View → Type 0
HasRecovered v = (0 < v.done_at) × (v.done_at + v.cfg.recovery_window ≤ v.host.at)

-- A culprit that may be touched.
abbrev IsBlamed : View → Culprit → Type 0
IsBlamed v c = (v.found ≡ some c) × (c.service.is_protected ≡ false)

-- An edge of the diagram with its condition and with what the reading reports; or a reading that
-- leaves the state, with the reason.
pub data Edge (v : View) : State → Option OutcomeKind → State → Type 0 where
  keep_idle : IsClear v → Edge v idle none idle
  notice : IsDanger v → v.host.at < v.danger_from + v.cfg.danger_for → Edge v idle none danger
  pass : IsClear v → Edge v danger none idle
  build : IsDanger v → v.host.at < v.danger_from + v.cfg.danger_for → Edge v danger none danger
  restart_it :
      (c : Culprit)
      → IsHeld v
      → IsBlamed v c
      → v.cfg.mode ≡ mode_act
      → Edge v danger (some restarted) acted
  stop_it :
      (c : Culprit)
      → IsHeld v
      → IsBlamed v c
      → v.cfg.mode ≡ mode_act
      → Edge v danger (some stopped) acted
  blame_none : IsHeld v → v.found ≡ none → Edge v danger (some no_culprit) reported
  spare :
      (c : Culprit)
      → IsHeld v
      → v.found ≡ some c
      → c.service.is_protected ≡ true
      → Edge v danger (some protected) reported
  would_restart_it :
      (c : Culprit)
      → IsHeld v
      → IsBlamed v c
      → v.cfg.mode ≢ mode_act
      → Edge v danger (some would_restart) reported
  would_stop_it :
      (c : Culprit)
      → IsHeld v
      → IsBlamed v c
      → v.cfg.mode ≢ mode_act
      → Edge v danger (some would_stop) reported
  wait_done : v.done_at ≡ 0 → Edge v acted none acted
  wait_recovery : v.host.at < v.done_at + v.cfg.recovery_window → Edge v acted none acted
  wait_clear :
      HasRecovered v
      → IsClear v
      → v.host.at < v.clear_from + v.cfg.danger_for
      → Edge v acted none acted
  recover : HasRecovered v → IsClearFor v.cfg.danger_for v → Edge v acted none idle
  give_up : HasRecovered v → IsDanger v → Edge v acted (some not_recovered) recovery_failed
  keep_reported :
      IsDanger v ⊎ (v.host.at < v.clear_from + v.cfg.recovery_window)
      → Edge v reported none reported
  keep_failed :
      IsDanger v ⊎ (v.host.at < v.clear_from + v.cfg.recovery_window)
      → Edge v recovery_failed none recovery_failed
  end_reported : IsClearFor v.cfg.recovery_window v → Edge v reported none idle
  end_failed : IsClearFor v.cfg.recovery_window v → Edge v recovery_failed none idle

decide_on-Edge :
    (v : View) (mode : Mode) (h : Host) (c : Culprit) (action : Action) (last : ℕ) (g : Guard)
    → v.cfg.mode ≡ mode
    → IsHeld v
    → IsBlamed v c
    → let (g', d) = decide_on mode h c action last g in
      Edge v danger (some d.outcome.kind) g'.episode.state
unfolding decide_on
decide_on-Edge v mode_act h c stop last g m held b = stop_it c held b m
decide_on-Edge v mode_act h c unset last g m held b = restart_it c held b m
decide_on-Edge v mode_act h c restart last g m held b = restart_it c held b m
decide_on-Edge v mode_act h c kill last g m held b = restart_it c held b m
decide_on-Edge v mode_report h c stop last g m held b = would_stop_it c held b (λ e. cc)
decide_on-Edge v mode_report h c unset last g m held b = would_restart_it c held b (λ e. cc)
decide_on-Edge v mode_report h c restart last g m held b = would_restart_it c held b (λ e. cc)
decide_on-Edge v mode_report h c kill last g m held b = would_restart_it c held b (λ e. cc)
decide_on-Edge v mode_off h c stop last g m held b = would_stop_it c held b (λ e. cc)
decide_on-Edge v mode_off h c unset last g m held b = would_restart_it c held b (λ e. cc)
decide_on-Edge v mode_off h c restart last g m held b = would_restart_it c held b (λ e. cc)
decide_on-Edge v mode_off h c kill last g m held b = would_restart_it c held b (λ e. cc)

decide_with-Edge :
    (v : View) (found : Option Culprit) (h : Host) (g : Guard)
    → v.found ≡ found
    → v.cfg ≡ g.cfg
    → IsHeld v
    → let (g', d) = decide_with found h g in Edge v danger (some d.outcome.kind) g'.episode.state
unfolding decide_with
decide_with-Edge v none h g f same held = blame_none held f
decide_with-Edge v (some c) h g f same held = elim (Bool-cases c.service.is_protected) [
  | inl e ↦ simp e (spare c held f e)
  | inr e ↦
      let (action, last) = action_for g.cfg.repeat_window c.service.id h.at g.records in
      simp e (decide_on-Edge v g.cfg.mode h c action last g (ap (λ x. x.mode) same) held (f, e))
]

-- The view at a reading as the guard counts its times.
abbrev counted : Host → Guard → View
counted h g = view h g g.danger_since g.clear_since

recovered-Edge :
    (h : Host) (g : Guard)
    → g.episode.state ≡ acted
    → let (g', d) = recovered h g in Edge (counted h g) acted (kind_of d) g'.episode.state
unfolding recovered
recovered-Edge h g e = elim (Bool-cases (nat_beq g.episode.done_at 0)) [
  | inl z ↦ simp (z, e) (wait_done (ground (arith, z)))
  | inr z ↦ elim (Bool-cases (ltb h.at (g.episode.done_at + g.cfg.recovery_window))) [
    | inl w ↦ simp (z, w, e) (wait_recovery (ground (arith, w)))
    | inr w ↦
        let done : HasRecovered (counted h g) = (ground (arith, z), ground (arith, w)) in
        elim (Bool-cases (is_danger g.cfg h)) [
          | inl d ↦ simp (z, w, d) (give_up done d)
          | inr d ↦ elim (Bool-cases (leb (g.clear_since + g.cfg.danger_for) h.at)) [
            | inl k ↦ simp (z, w, d, k) (recover done (d, ground (arith, k)))
            | inr k ↦ simp (z, w, d, k, e) (wait_clear done d (ground (arith, k)))
          ]
        ]
  ]
]

unwind_cases :
    (h : Host) (g : Guard)
    → let (g', d) = unwind h g in
      ((kind_of d ≡ none)
        × (g'.episode.state ≡ idle)
        × IsClearFor g.cfg.recovery_window (counted h g))
      ⊎ ((kind_of d ≡ none)
          × (g'.episode.state ≡ g.episode.state)
          × (IsDanger (counted h g) ⊎ (h.at < g.clear_since + g.cfg.recovery_window)))
unfolding unwind
unwind_cases h g = elim (Bool-cases (is_danger g.cfg h)) [
  | inl d ↦ simp d (inr (refl, refl, inl refl))
  | inr d ↦ elim (Bool-cases (leb (g.clear_since + g.cfg.recovery_window) h.at)) [
    | inl k ↦ simp (d, k) (inl (refl, refl, (refl, ground (arith, k))))
    | inr k ↦ simp (d, k) (inr (refl, refl, inr (ground (arith, k))))
  ]
]

unwind_reported-Edge :
    (h : Host) (g : Guard)
    → g.episode.state ≡ reported
    → let (g', d) = unwind h g in Edge (counted h g) reported (kind_of d) g'.episode.state
unwind_reported-Edge h g e = elim (unwind_cases h g) [
  | inl p ↦ simp (p.0, p.1) (end_reported p.2)
  | inr p ↦ simp (p.0, p.1, e) (keep_reported p.2)
]

unwind_failed-Edge :
    (h : Host) (g : Guard)
    → g.episode.state ≡ recovery_failed
    → let (g', d) = unwind h g in Edge (counted h g) recovery_failed (kind_of d) g'.episode.state
unwind_failed-Edge h g e = elim (unwind_cases h g) [
  | inl p ↦ simp (p.0, p.1) (end_failed p.2)
  | inr p ↦ simp (p.0, p.1, e) (keep_failed p.2)
]

decide-Edge :
    (h : Host) (g : Guard)
    → IsHeld (counted h g)
    → Edge (counted h g) danger (some (decide h g).1.outcome.kind) (decide h g).0.episode.state
unfolding decide
decide-Edge h g held =
    decide_with-Edge (counted h g) (culprit g.cfg h.at g.entries) h g refl refl held

-- In the danger state a reading passes, waits or decides; in the idle state it does not decide.
build_up_danger-Edge :
    (h : Host) (g : Guard)
    → g.episode.state ≡ danger
    → let (g', d) = build_up h g in Edge (counted h g) danger (kind_of d) g'.episode.state
unfolding build_up
build_up_danger-Edge h g e = elim (Bool-cases (is_danger g.cfg h)) [
  | inr d ↦ simp d (pass d)
  | inl d ↦ elim (Bool-cases (ltb h.at (g.danger_since + g.cfg.danger_for))) [
    | inl w ↦ simp (d, e, w) (build d (ground (arith, w)))
    | inr w ↦ simp (d, e, w) (decide-Edge h g (d, ground (arith, w)))
  ]
]

build_up_idle-Edge :
    (h : Host) (g : Guard)
    → g.episode.state ≡ idle
    → (is_danger g.cfg h ≡ true → h.at < g.danger_since + g.cfg.danger_for)
    → let (g', d) = build_up h g in Edge (counted h g) idle (kind_of d) g'.episode.state
unfolding build_up
build_up_idle-Edge h g e w = elim (Bool-cases (is_danger g.cfg h)) [
  | inr d ↦ simp d (keep_idle d)
  | inl d ↦
      let early : ltb h.at (g.danger_since + g.cfg.danger_for) ≡ true = ground (arith, w d) in
      simp (d, e, early) (notice d (w d))
]

judge-Edge :
    (s : State) (h : Host) (g : Guard)
    → g.episode.state ≡ s
    → (s ≡ idle → is_danger g.cfg h ≡ true → h.at < g.danger_since + g.cfg.danger_for)
    → let (g', d) = judge s h g in Edge (counted h g) s (kind_of d) g'.episode.state
unfolding judge
judge-Edge acted h g e w = recovered-Edge h g e
judge-Edge reported h g e w = unwind_reported-Edge h g e
judge-Edge recovery_failed h g e w = unwind_failed-Edge h g e
judge-Edge idle h g e w = build_up_idle-Edge h g e (w refl)
judge-Edge danger h g e w = build_up_danger-Edge h g e

track_starts :
    (h : Host) (g : Guard)
    → 0 < g.cfg.danger_for
    → g.danger_since ≡ 0
    → is_danger g.cfg h ≡ true
    → h.at < (track h g).danger_since + g.cfg.danger_for
unfolding track
track_starts h g pos calm d = ground arith

view-track : (h : Host) (g : Guard) (a b : Time) → view h (track h g) a b ≡ view h g a b
view-track h g a b = elim (Bool-cases (is_danger g.cfg h)) [
  | inl e ↦ rw (track_danger h g e) refl
  | inr e ↦ rw (track_clear h g e) refl
]

-- Every reading of a reachable guard follows an edge of the state diagram, the condition of the edge
-- holds of the readings, and it reports what that edge reports. A reading keeps the state only when
-- no condition of an edge out of it holds. How long danger or clear was held is counted from the first
-- reading of the run that lasts until this one. It holds when danger must be held for some time and
-- every reading was taken at a time that is set.
pub observe_host-Edge :
    (path_match : Bytes → Bytes → Bool) (cfg : Config) (g : Guard) (past : List Host) (h : Host)
    → Reach path_match cfg g past
    → 0 < g.cfg.danger_for
    → AreTimed (h ∷ past)
    → let (g', d) = observe_host h g in
      let danger_from = run_start (is_danger cfg) (h ∷ past) in
      let clear_from = run_start (λ x. not (is_danger cfg x)) (h ∷ past) in
      Edge (view h g danger_from clear_from) g.episode.state (kind_of d) g'.episode.state
unfolding observe_host
observe_host-Edge path_match cfg g past h r pos timed =
    let v = Reach-Inv path_match r in
    let t = track-Tracked h g past v in
    let g1 = track h g in
    let known = Reach-Counts path_match r timed.1 in
    let times = track-Counts cfg h g past known.0 timed.1 known.1 in
    let seen =
      view-track h g g1.danger_since g1.clear_since
      ∙ ap (λ a. view h g a g1.clear_since) times.0
      ∙ ap (view h g (run_start (is_danger cfg) (h ∷ past))) times.1 in
    subst
      (λ w.
        Edge w g.episode.state (kind_of (judge g.episode.state h g1).1)
          (judge g.episode.state h g1).0.episode.state)
      seen
      (judge-Edge g.episode.state h g1 (ap (λ e. e.state) t.same)
        (λ calm d. rw t.same_cfg (track_starts h g pos (v.idle_calm calm) (rw t.same_cfg at d))))
