-- ===== src/Memguard/Types.antt =====
-- The data of pkg/health/memguard: guard.go and episode.go. Texts that are cut are bytes.
use tgshd.Base.{
  ℕ, List, Bool, true, false, ◌≡◌, ◌↔◌, Option, arith, Eq, Bytes, bytes_beq, bytes_beq_iff,
  bytes_eq, ◌&&◌,
}
use tgshd.Health.Types.{Time, Duration}

pub data Kind : Type 0 where
  container unit : Kind

abbrev pub kind_beq : Kind → Kind → Bool
kind_beq container container = true
kind_beq container unit = false
kind_beq unit container = false
kind_beq unit unit = true

pub kind_beq_iff : (a b : Kind) → (kind_beq a b ≡ true) ↔ (a ≡ b)
kind_beq_iff container container = ground arith
kind_beq_iff container unit = ground arith
kind_beq_iff unit container = ground arith
kind_beq_iff unit unit = ground arith

-- What the guard does about a culprit: `Mode`.
pub data Mode : Type 0 where
  mode_report mode_act mode_off : Mode

pub data Action : Type 0 where
  -- The zero value of the source's string type: no action.
  unset : Action
  restart stop kill : Action

pub data OutcomeKind : Type 0 where
  restarted stopped killed would_restart would_stop not_recovered protected no_culprit
        action_failed :
      OutcomeKind

pub data State : Type 0 where
  idle danger acted reported recovery_failed : State

-- `Config`. The percentages are floats in the source, read once and only compared; here they are
-- numbers of one fixed unit.
pub record Config : Type 0 where
  pub culprit_window : Duration
  pub culprit_min_growth : ℕ
  pub never_touch : List Bytes
  pub self_cgroup : Bytes
  pub mode : Mode
  pub danger_available_percent : ℕ
  pub danger_pressure_percent : ℕ
  pub danger_for : Duration
  pub repeat_window : Duration
  pub recovery_window : Duration

pub record Service : Type 0 where
  pub id : Bytes
  pub kind : Kind
  pub name : Bytes
  pub cgroup_path : Bytes
  pub eligible : Bool
  pub is_protected : Bool

pub record Sample : Type 0 where
  pub kind : Kind
  pub name : Bytes
  pub cgroup_path : Bytes
  pub anon : ℕ  -- uint64

pub record ServiceKey : Type 0 where
  pub kind : Kind
  pub name : Bytes

abbrev pub service_key_beq : ServiceKey → ServiceKey → Bool
service_key_beq a b = kind_beq a.kind b.kind && bytes_beq a.name b.name

pub service_key_beq_iff : (a b : ServiceKey) → (service_key_beq a b ≡ true) ↔ (a ≡ b)
service_key_beq_iff a b = ground (arith, kind_beq_iff a.kind b.kind, bytes_beq_iff a.name b.name)

instance abbrev pub service_key_eq : Eq ServiceKey
service_key_eq = record { beq = service_key_beq; beq_iff = service_key_beq_iff }

pub record Point : Type 0 where
  pub at : Time
  pub anon : ℕ  -- uint64

pub record Culprit : Type 0 where
  pub service : Service
  pub before : ℕ
  pub size : ℕ
  pub growth : ℕ
  pub window : Duration

pub record Host : Type 0 where
  pub at : Time
  pub available_pct : ℕ
  pub full_avg10 : ℕ

pub record Outcome : Type 0 where
  -- `Culprit` embedded in the source; none is its zero value.
  pub culprit : Option Culprit
  pub at : Time
  pub kind : OutcomeKind
  pub action : Action
  pub available_pct : ℕ
  pub full_avg10 : ℕ
  pub last_action : Time

-- `Record`, an intervention.
pub record Intervention : Type 0 where
  pub service_id : Bytes
  pub name : Bytes
  pub action : Action
  pub at : Time
  pub before : ℕ
  pub mode : Mode

-- `Decision`: `act` holds the intervention of an Act decision.
pub record Decision : Type 0 where
  pub act : Bool
  pub outcome : Outcome
  pub intervention : Option Intervention

pub record Episode : Type 0 where
  pub state : State
  pub since : Time
  pub culprit : Option Culprit
  pub action : Action
  pub acted_at : Time
  pub done_at : Time
