-- ===== src/Health/Types.antt =====
-- The values that checks produce and the engine judges (pkg/health/types.go, and the alert and
-- condition types of pkg/health/engine.go).
use tgshd.Base.{ℕ, String, Bool}

-- A `time.Time` is the nanoseconds since Go's zero time, so the zero time (`IsZero`) is 0. A
-- `time.Duration` is a number of nanoseconds that is never negative in the code modelled.
abbrev pub Time : Type 0
Time = ℕ

abbrev pub Duration : Type 0
Duration = ℕ

pub data Verdict : Type 0 where
  unknown good bad : Verdict

pub data Kind : Type 0 where
  state event : Kind

-- `Mode` is a string type with these four constants.
pub data Mode : Type 0 where
  mode_default mode_telegram mode_sms mode_telegram_or_sms : Mode

pub record Reading : Type 0 where
  pub key : String
  pub verdict : Verdict
  pub text : String
  pub mode : Mode
  pub kind : Kind
  pub since : Time

pub data AlertKind : Type 0 where
  alert_problem alert_resolved alert_event : AlertKind

pub record Alert : Type 0 where
  pub kind : AlertKind
  pub check : String
  pub key : String
  pub text : String
  pub streak_start : Time
  pub mode : Mode

pub record Condition : Type 0 where
  pub key : String
  pub check : String
  pub streak_start : Time
  pub bad_for : Duration
  pub last_reading_at : Time
  pub last_text : String
  pub is_open : Bool
  pub opened_at : Time
