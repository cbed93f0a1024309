-- ===== src/Memguard/Episode/Judging.antt =====
-- The switch of `Guard.ObserveHost` and what the guard remembers: pkg/health/memguard/episode.go.
use tgshd.Base.{
  List, ◌∷◌, false, ◌≡◌, ◌⊎◌, inl, inr, refl, ap, ◌∙◌, Option, none, some, arith, Bool-cases,
}
use tgshd.Health.Types.{Time}
use tgshd.Memguard.Types.{
  Mode, mode_act, Action, State, idle, danger, acted, reported, recovery_failed, Host, Culprit,
}
use tgshd.Memguard.Culprit.{culprit}
use tgshd.Memguard.Guard.{Guard}
use tgshd.Memguard.Records.{action_for}
use tgshd.Memguard.Episode.{
  is_danger, track, decide_on, decide_with, decide, recovered, unwind, enter_danger, build_up,
  judge, observe_host,
}
use tgshd.Memguard.Episode.Invariant.{Inv, Tracked, track-Tracked}

-- What `decide` leaves: an episode that was acted on, in act mode only, or reported.
record Decided (g g' : Guard) : Type 0 where
  ended : (g'.episode.state ≡ reported) ⊎ ((g'.episode.state ≡ acted) × (g.cfg.mode ≡ mode_act))
  same_cfg : g'.cfg ≡ g.cfg
  same_danger : g'.danger_since ≡ g.danger_since
  same_clear : g'.clear_since ≡ g.clear_since

decide_on-Decided :
    (mode : Mode) (h : Host) (c : Culprit) (action : Action) (last : Time) (g : Guard)
    → g.cfg.mode ≡ mode
    → Decided g (decide_on mode h c action last g).0
unfolding decide_on
decide_on-Decided mode_act h c action last g e = record {
  ended = inr (refl, e);
  same_cfg = refl;
  same_danger = refl;
  same_clear = refl;
}
decide_on-Decided _ h c action last g e = record {
  ended = inl refl;
  same_cfg = refl;
  same_danger = refl;
  same_clear = refl;
}

decide_with-Decided :
    (found : Option Culprit) (h : Host) (g : Guard) → Decided g (decide_with found h g).0
unfolding decide_with
decide_with-Decided none h g = record {
  ended = inl refl;
  same_cfg = refl;
  same_danger = refl;
  same_clear = refl;
}
decide_with-Decided (some c) h g = elim (Bool-cases c.service.is_protected) [
  | inl e ↦
      simp e (record { ended = inl refl; same_cfg = refl; same_danger = refl; same_clear = refl })
  | inr e ↦
      let (action, last) = action_for g.cfg.repeat_window c.service.id h.at g.records in
      simp e (decide_on-Decided g.cfg.mode h c action last g refl)
]

decide-Decided : (h : Host) (g : Guard) → Decided g (decide h g).0
unfolding decide
decide-Decided h g = decide_with-Decided (culprit g.cfg h.at g.entries) h g

-- What the switch of `ObserveHost` needs and keeps.
record Sound (g : Guard) : Type 0 where
  fresh : (g.episode.state ≡ idle) ⊎ (g.episode.state ≡ danger) → g.episode.done_at ≡ 0
  acted_mode : g.episode.state ≡ acted → g.cfg.mode ≡ mode_act

record Judged (g g' : Guard) : Type 0 where
  sound : Sound g'
  idle_calm : g'.episode.state ≡ idle → g'.danger_since ≡ 0
  same_cfg : g'.cfg ≡ g.cfg
  same_danger : g'.danger_since ≡ g.danger_since
  same_clear : g'.clear_since ≡ g.clear_since

recovered-Judged :
    (h : Host) (g : Guard)
    → Sound g
    → g.episode.state ≡ acted
    → (is_danger g.cfg h ≡ false → g.danger_since ≡ 0)
    → Judged g (recovered h g).0
unfolding recovered
recovered-Judged h g s e calm = ground arith

unwind-Judged :
    (h : Host) (g : Guard)
    → Sound g
    → (g.episode.state ≡ reported) ⊎ (g.episode.state ≡ recovery_failed)
    → (is_danger g.cfg h ≡ false → g.danger_since ≡ 0)
    → Judged g (unwind h g).0
unfolding unwind
unwind-Judged h g s e calm = ground arith

build_up-Judged :
    (st : State) (h : Host) (g : Guard)
    → Sound g
    → g.episode.state ≡ st
    → (st ≡ idle) ⊎ (st ≡ danger)
    → (is_danger g.cfg h ≡ false → g.danger_since ≡ 0)
    → Judged g (build_up h g).0
unfolding build_up
build_up-Judged idle h g s e w calm = ground (arith, decide-Decided h (enter_danger idle g))
build_up-Judged danger h g s e w calm = ground (arith, decide-Decided h g)
build_up-Judged acted h g s e w calm = ground arith
build_up-Judged reported h g s e w calm = ground arith
build_up-Judged recovery_failed h g s e w calm = ground arith

judge-Judged :
    (st : State) (h : Host) (g : Guard)
    → Sound g
    → g.episode.state ≡ st
    → (is_danger g.cfg h ≡ false → g.danger_since ≡ 0)
    → Judged g (judge st h g).0
unfolding judge
judge-Judged acted h g s e calm = recovered-Judged h g s e calm
judge-Judged reported h g s e calm = unwind-Judged h g s (inl e) calm
judge-Judged recovery_failed h g s e calm = unwind-Judged h g s (inr e) calm
judge-Judged idle h g s e calm = build_up-Judged idle h g s e (inl refl) calm
judge-Judged danger h g s e calm = build_up-Judged danger h g s e (inr refl) calm

observed_Judged :
    (h : Host) (g g1 : Guard) (past : List Host)
    → Inv g past
    → Tracked h g g1 past
    → Judged g1 (judge g.episode.state h g1).0
observed_Judged h g g1 past v t =
    judge-Judged g.episode.state h g1 sound (ap (λ e. e.state) t.same) calm
  where
    sound : Sound g1
    sound = record { fresh = rw t.same v.fresh; acted_mode = rw (t.same, t.same_cfg) v.acted_mode }

    calm : is_danger g1.cfg h ≡ false → g1.danger_since ≡ 0
    calm e = (t.on_clear (rw t.same_cfg at e)).0

Judged-Inv :
    (h : Host) (g g1 g2 : Guard) (past : List Host)
    → Tracked h g g1 past
    → Judged g1 g2
    → Inv g2 (h ∷ past)
Judged-Inv h g g1 g2 past t j = record {
  danger_run = rw (j.same_cfg, j.same_danger) t.danger_run;
  clear_run = rw (j.same_cfg, j.same_clear) t.clear_run;
  idle_calm = j.idle_calm;
  fresh = j.sound.fresh;
  acted_mode = j.sound.acted_mode;
}

pub observe_host-Inv :
    (h : Host) (g : Guard) (past : List Host) → Inv g past → Inv (observe_host h g).0 (h ∷ past)
unfolding observe_host
observe_host-Inv h g past v =
    let t = track-Tracked h g past v in
    Judged-Inv h g (track h g) _ past t (observed_Judged h g (track h g) past v t)

-- A reading changes nothing of the configuration, and the times only as `track` does.
pub observe_host-track :
    (h : Host) (g : Guard) (past : List Host)
    → Inv g past
    → ((observe_host h g).0.cfg ≡ g.cfg)
      × ((observe_host h g).0.danger_since ≡ (track h g).danger_since)
      × ((observe_host h g).0.clear_since ≡ (track h g).clear_since)
unfolding observe_host
observe_host-track h g past v =
    let t = track-Tracked h g past v in
    let j = observed_Judged h g (track h g) past v t in
    (j.same_cfg ∙ t.same_cfg, j.same_danger, j.same_clear)
