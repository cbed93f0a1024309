-- ===== src/Memguard/Episode/Deciding.antt =====
-- When the guard acts: `Guard.ObserveHost` of pkg/health/memguard/episode.go.
use tgshd.Base.{◌+◌, ◌≤◌, List, ◌∷◌, false, ◌≡◌, some}
use tgshd.Health.Types.{Time}
use tgshd.Memguard.Types.{mode_act, acted, Host, Decision, Culprit}
use tgshd.Memguard.Culprit.{culprit}
use tgshd.Memguard.Guard.{Guard}
use tgshd.Memguard.Records.{action_for}
use tgshd.Memguard.Episode.{is_danger, intervention_of}
use tgshd.Memguard.Episode.Invariant.{Run}

-- What an action rests on when it is decided, in the guard `g` and with the guard `g'` left.
pub record Acts (h : Host) (g g' : Guard) (d : Decision) : Type 0 where
  pub act_mode : g.cfg.mode ≡ mode_act
  pub on : Culprit
  pub chosen : culprit g.cfg h.at g.entries ≡ some on
  pub spared : on.service.is_protected ≡ false
  pub noted :
      d.intervention
      ≡ some (
          intervention_of h on
            (action_for g.cfg.repeat_window on.service.id h.at g.records).0
            mode_act)
  pub state : g'.episode.state ≡ acted
  pub running : g'.episode.done_at ≡ g.episode.done_at
  pub records : g'.records ≡ g.records

-- The guard that decides, `g1`, against the one that the reading came to, `g`.
record Frame (g g1 : Guard) : Type 0 where
  same_cfg : g1.cfg ≡ g.cfg
  same_entries : g1.entries ≡ g.entries
  same_records : g1.records ≡ g.records

-- Why the guard `g` acts at the reading `h` after `past`, and what it leaves.
pub record Justified (h : Host) (past : List Host) (g g' : Guard) (d : Decision) : Type 0 where
  pub act_mode : g.cfg.mode ≡ mode_act
  pub since : Time
  pub held : Run (is_danger g.cfg) since (h ∷ past)
  pub long : since + g.cfg.danger_for ≤ h.at
  pub on : Culprit
  pub chosen : culprit g.cfg h.at g.entries ≡ some on
  pub spared : on.service.is_protected ≡ false
  pub noted :
      d.intervention
      ≡ some (
          intervention_of h on
            (action_for g.cfg.repeat_window on.service.id h.at g.records).0
            mode_act)
  pub state : g'.episode.state ≡ acted
  pub running : g'.episode.done_at ≡ 0
