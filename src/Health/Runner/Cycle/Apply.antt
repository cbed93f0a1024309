-- ===== src/Health/Runner/Cycle/Apply.antt =====
-- `apply`, `forget`, `dropped` and `records` of pkg/health/runner/runner.go, `fixRecords` of fix.go
-- and `dropRetired` of retire.go.
use tgshd.Base.{
  ℕ, ◌*◌, ◌/◌, String, List, [], ◌∷◌, ◌++◌, map, Bool, not, ◌&&◌, Option, none, some, leb, ◌==◌,
  text_eq, if◌then◌else◌, any, select, starts_with,
}
use Prim.Native.String.{◌++◌ as join_text}
use tgshd.Health.Types.{
  Time, Duration, Reading, AlertKind, alert_problem, alert_resolved, alert_event, Alert, Condition,
}
use tgshd.Health.Engine.{Engine, condition, clear, reopen}
use tgshd.Health.Engine as HealthEngine
use tgshd.Health.CheckErrors.{GoError}
use tgshd.Health.Store.{LoggedAlert, SampleRow, Baseline}
use tgshd.Health.Notify.{QueuedMessage}
use tgshd.Health.Notify.Queue.{Notifier}
use tgshd.Health.Notify.Send.{forget_ended}
use tgshd.Health.Notify.Undelivered.{UndeliveredProblem, Undelivered, add}
use tgshd.Health.Runner.Cycle.{Check, CheckResult, Fix, Cycle, fail_err, fail_unreadable, with_mode}

abbrev pub retire_check : String
retire_check = "disks"

abbrev pub retire_prefix : String → String
retire_prefix serial = join_text "disks/" (join_text serial "/")

-- `dropRetired`, of the drive book's baselines.
unfoldable pub is_retired_key : List Baseline → String → Bool
is_retired_key bases key = any (λ b. b.retired && starts_with key (retire_prefix b.serial)) bases

unfoldable pub drop_retired : String → List Baseline → List Reading → List Reading
unfolding is_retired_key
drop_retired check bases readings =
    if check == retire_check
    then select (λ r. not (is_retired_key bases r.key)) readings
    else readings

-- What the runner holds while it applies results.
pub record Applied : Type 0 where
  pub cycle : Cycle
  pub engine : Engine
  pub notifier : Notifier

abbrev pub cleared_of : Time → String → String → LoggedAlert
cleared_of now check key = record {
  at = now;
  kind = "cleared";
  check = check;
  key = key;
  text = "no longer judged";
}

-- One key of `forget`: another check's condition is left alone.
unfoldable pub forget_found : String → String → Option Condition → Applied → Applied
forget_found check key none a = a
forget_found check key (some c) a =
    if c.check == check
    then record {
      cycle = record a.cycle {
        cleared = a.cycle.cleared ++ (cleared_of a.cycle.now check key ∷ []);
      };
      engine = (clear key a.engine).0;
      notifier = forget_ended (λ k. k == key) a.notifier;
    }
    else a

unfoldable pub forget : String → List String → Applied → Applied
unfolding forget_found
forget check [] a = a
forget check (key ∷ keys) a = forget check keys (forget_found check key (condition key a.engine) a)

abbrev pub sample_of : Time → String × ℕ → SampleRow
sample_of now (metric, value) = record { at = now; metric = metric; value = value }

module _ (error_text : GoError → String) (join_errors : List GoError → String) where
  -- `apply`.
  unfoldable pub apply : Check → List Baseline → CheckResult → Applied → Applied
  apply check bases res a =
      let readings = drop_retired check.name bases res.readings in
      let c =
        fail_unreadable error_text join_errors check.name readings
          (fail_err error_text join_errors check.name res.error a.cycle) in
      let (engine, alerts) =
        HealthEngine.apply a.cycle.now check.name check.interval check.threshold readings
          a.engine in
      let forgotten = forget check.name res.forget (record a {
        cycle = record c {
          alerts = c.alerts ++ map (with_mode error_text join_errors check.mode) alerts;
        };
        engine = engine;
      }) in
      record forgotten {
        cycle = record forgotten.cycle {
          samples = forgotten.cycle.samples ++ map (sample_of a.cycle.now) res.samples;
        };
      }

abbrev pub second : Duration
second = 1_000_000_000

-- `dropped`: the engine, and the undelivered list that the PROBLEM joins otherwise.
unfoldable pub drop_problem :
    QueuedMessage
    → UndeliveredProblem
    → Option Condition
    → Engine
    → Undelivered
    → Engine × Undelivered
drop_problem m p none e u = (e, add p u)
drop_problem m p (some c) e u =
    let (next, reopened) = reopen m.key e in
    if leb (c.streak_start / second * second) m.created_at && reopened
    then (next, u)
    else (e, add p u)

unfoldable pub dropped :
    QueuedMessage → UndeliveredProblem → Engine → Undelivered → Engine × Undelivered
unfolding drop_problem
dropped m p e u = if m.kind == "problem" then drop_problem m p (condition m.key e) e u else (e, u)

-- `storeKind`.
unfoldable pub store_kind : AlertKind → String
store_kind alert_problem = "problem"
store_kind alert_resolved = "resolved"
store_kind alert_event = "event"

abbrev pub alert_record : Time → Alert → LoggedAlert
alert_record now a = record {
  at = now;
  kind = store_kind a.kind;
  check = a.check;
  key = a.key;
  text = a.text;
}

-- `fixRecords`, of one fix.
abbrev pub fix_record : Fix → LoggedAlert
fix_record f = record { at = f.at; kind = "fix"; check = f.check; key = f.key; text = f.text }

-- A checker error that went out, as `Drain` gives it.
pub record SentError : Type 0 where
  pub at : Time
  pub check : String
  pub key : String
  pub text : String

abbrev pub error_record : SentError → LoggedAlert
error_record e = record {
  at = e.at;
  kind = "checker_error";
  check = e.check;
  key = e.key;
  text = e.text;
}

-- `records`, of the records logged since the last tick and the checker errors drained.
unfoldable pub records : List LoggedAlert → List SentError → Cycle → List LoggedAlert
records logged drained c =
    logged
    ++ map (alert_record c.now) c.alerts
    ++ c.cleared
    ++ map fix_record c.fixes
    ++ map error_record drained
