-- ===== src/Memguard/Episode/Invariant.antt =====
-- What the guard remembers of the readings: pkg/health/memguard/episode.go.
use tgshd.Base.{
  List, [], ◌∷◌, Bool, true, false, not, ◌≡◌, ◌⊎◌, inl, inr, refl, arith, nat_beq, Bool-cases,
}
use tgshd.Health.Types.{Time}
use tgshd.Memguard.Types.{mode_act, idle, danger, acted, Config, Host}
use tgshd.Memguard.Guard.{Guard, new_guard}
use tgshd.Memguard.Episode.{is_danger, or_now, track}

-- Danger (or clear) readings that follow one another until now, newest reading first, with the time
-- of one of them that all the later ones are like.
pub data Run (is_one : Host → Bool) : Time → List Host → Type 0 where
  begins : (h : Host) (past : List Host) → is_one h ≡ true → Run is_one h.at (h ∷ past)
  goes_on :
      {since : Time} {past : List Host} (h : Host)
      → is_one h ≡ true
      → Run is_one since past
      → Run is_one since (h ∷ past)

-- What the guard remembers of the readings, and what its states say.
pub record Inv (g : Guard) (past : List Host) : Type 0 where
  pub danger_run : (g.danger_since ≡ 0) ⊎ Run (is_danger g.cfg) g.danger_since past
  pub clear_run : (g.clear_since ≡ 0) ⊎ Run (λ h. not (is_danger g.cfg h)) g.clear_since past
  pub idle_calm : g.episode.state ≡ idle → g.danger_since ≡ 0
  pub fresh : (g.episode.state ≡ idle) ⊎ (g.episode.state ≡ danger) → g.episode.done_at ≡ 0
  pub acted_mode : g.episode.state ≡ acted → g.cfg.mode ≡ mode_act

pub new-Inv : (cfg : Config) → Inv (new_guard cfg) []
unfolding new_guard
new-Inv cfg = record {
  danger_run = inl refl;
  clear_run = inl refl;
  idle_calm = λ e. refl;
  fresh = λ e. refl;
  acted_mode = λ e. cc;
}

extend-Run :
    (is_one : Host → Bool) (since : Time) (h : Host) (past : List Host)
    → is_one h ≡ true
    → (since ≡ 0) ⊎ Run is_one since past
    → Run is_one (or_now since h.at) (h ∷ past)
extend-Run is_one since h past e r = elim (Bool-cases (nat_beq since 0)) [
  | inl z ↦ rw z (begins h past e)
  | inr z ↦ rw z (goes_on h e (elim r [ inl same ↦ absurd (ground arith) | inr run ↦ run ]))
]

pub track_danger :
    (h : Host) (g : Guard)
    → is_danger g.cfg h ≡ true
    → track h g ≡ record g { danger_since = or_now g.danger_since h.at; clear_since = 0 }
unfolding track
track_danger h g e = rw e

pub track_clear :
    (h : Host) (g : Guard)
    → is_danger g.cfg h ≡ false
    → track h g ≡ record g { danger_since = 0; clear_since = or_now g.clear_since h.at }
unfolding track
track_clear h g e = rw e

-- The invariant between `track` and the switch of `ObserveHost`: the idle state may have been
-- left behind by the reading.
pub record Tracked (h : Host) (g g1 : Guard) (past : List Host) : Type 0 where
  pub danger_run : (g1.danger_since ≡ 0) ⊎ Run (is_danger g1.cfg) g1.danger_since (h ∷ past)
  pub clear_run :
      (g1.clear_since ≡ 0) ⊎ Run (λ x. not (is_danger g1.cfg x)) g1.clear_since (h ∷ past)
  pub same : g1.episode ≡ g.episode
  pub same_cfg : g1.cfg ≡ g.cfg
  pub on_danger : is_danger g.cfg h ≡ true → Run (is_danger g1.cfg) g1.danger_since (h ∷ past)
  pub on_clear :
      is_danger g.cfg h ≡ false
      → (g1.danger_since ≡ 0) × Run (λ x. not (is_danger g1.cfg x)) g1.clear_since (h ∷ past)

pub track-Tracked :
    (h : Host) (g : Guard) (past : List Host) → Inv g past → Tracked h g (track h g) past
track-Tracked h g past v = elim (Bool-cases (is_danger g.cfg h)) [
  | inl e ↦
      let run = extend-Run (is_danger g.cfg) g.danger_since h past e v.danger_run in
      rw (track_danger h g e) (record {
        danger_run = inr run;
        clear_run = inl refl;
        same = refl;
        same_cfg = refl;
        on_danger = λ f. run;
        on_clear = λ f. cc;
      })
  | inr e ↦
      let run = extend-Run (λ x. not (is_danger g.cfg x)) g.clear_since h past (rw e) v.clear_run in
      rw (track_clear h g e) (record {
        danger_run = inl refl;
        clear_run = inr run;
        same = refl;
        same_cfg = refl;
        on_danger = λ f. cc;
        on_clear = λ f. (refl, run);
      })
]
