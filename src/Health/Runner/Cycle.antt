-- ===== src/Health/Runner/Cycle.antt =====
-- What one tick of the runner collects and how it feeds the engine: pkg/health/runner/runner.go.
-- A check's run is its result; the texts of errors are made by parameters.
pub mod Apply
pub mod Results
pub mod Retired
pub mod Tests
use tgshd.Base.{
  ℕ, suc, ◌+◌, ◌-◌, ◌*◌, ◌/◌, String, List, [], ◌∷◌, ◌++◌, map, Bool, true, false, not, ◌&&◌, ◌||◌,
  Option, none, some, nat_beq, leb, ◌==◌, text_eq, if◌then◌else◌, any, select, length, lookup,
}
use Prim.Native.String.{◌++◌ as join_text}
use Prim.Native.String
use Prim.Native.Char.{code}
use tgshd.Health.Types.{
  Time, Duration, Verdict, unknown, good, bad, Kind, state, event, Mode, mode_default, Reading,
  AlertKind, alert_problem, alert_resolved, alert_event, Alert, Condition,
}
use tgshd.Health.Engine.{Engine, condition, clear, reopen}
use tgshd.Health.Engine as HealthEngine
use tgshd.Health.CheckErrors.{GoError, split_errors, key as check_error_key}
use tgshd.Health.Store.{LoggedAlert, SampleRow}
use tgshd.Health.Notify.{QueuedMessage, MessageKind, kind_problem, kind_resolved, kind_event}
use tgshd.Health.Notify.Undelivered.{UndeliveredProblem, Undelivered, add}
use tgshd.Health.Runner.{due}

-- `Check`, less its run.
pub record Check : Type 0 where
  pub name : String
  pub interval : Duration
  pub threshold : Duration
  pub mode : Mode
  pub needs_internet : Bool
  pub pause_in_quiet : Bool
  pub depends_on : String

-- A configured check with what the runner keeps of it at the same index.
pub record Scheduled : Type 0 where
  pub check : Check
  pub last_run : Time
  pub running : Bool

-- `CheckResult.Err`: none, a run that did not end or start before the tick deadline with its text,
-- or the run's own error.
pub data RunError : Type 0 where
  no_error : RunError
  tick_deadline : String → RunError
  run_error : GoError → RunError

pub record CheckResult : Type 0 where
  pub readings : List Reading
  pub samples : List (String × ℕ)
  pub forget : List String
  pub error : RunError

pub record CheckerError : Type 0 where
  pub check : String
  pub key : String
  pub text : String

pub record Fix : Type 0 where
  pub at : Time
  pub check : String
  pub key : String
  pub text : String
  pub send : Bool
  pub mode : Mode

-- `cycle`.
pub record Cycle : Type 0 where
  pub now : Time
  pub alerts : List Alert
  pub cleared : List LoggedAlert
  pub samples : List SampleRow
  pub fixes : List Fix
  pub errs : List CheckerError
  pub overruns : List (String × String)

abbrev pub new_cycle : Time → Cycle
new_cycle now = record {
  now = now;
  alerts = [];
  cleared = [];
  samples = [];
  fixes = [];
  errs = [];
  overruns = [];
}

abbrev pub key_network : String
key_network = "network/connectivity"

abbrev pub key_overrun : String
key_overrun = "health/tick/overrun"

-- `cycle.failCheck` and `cycle.fail`, which labels with the first segment of the key.
unfoldable pub fail_check : String → String → String → Cycle → Cycle
fail_check check key text c = record c {
  errs = c.errs ++ (record { check = check; key = key; text = text } ∷ []);
}

unfoldable pub first_segment : String → String
first_segment String.[] = String.[]
first_segment (String.◌∷◌ c s) =
    if nat_beq (code c) 47 then String.[] else String.◌∷◌ c (first_segment s)

unfoldable pub fail : String → String → Cycle → Cycle
unfolding fail_check first_segment
fail key text c = fail_check (first_segment key) key text c

-- `Runner.bad`.
abbrev pub is_tracked : Option Condition → Bool
is_tracked none = false
is_tracked (some c) = true

unfoldable pub is_bad : String → Engine → Bool
is_bad key e = is_tracked (condition key e)

-- `dependsOnKey`.
unfoldable pub depends_on_key : String → String
depends_on_key key =
    if key == "network/router" || key == "network/internet" then key_network else key

-- `paused`.
unfoldable pub paused : Check → Bool → Bool
paused c quiet = quiet && c.pause_in_quiet

-- The cases of `eligible`, for a check other than the network check.
unfoldable pub may_run : Time → Bool → Bool → Engine → Scheduled → Bool
unfolding paused is_bad
may_run now no_internet quiet e s =
    not (paused s.check quiet || s.running || not (due s.last_run now s.check.interval))
    && not (s.check.needs_internet && no_internet)
    && not (not (s.check.depends_on == "") && is_bad (depends_on_key s.check.depends_on) e)

abbrev pub is_network : Option ℕ → ℕ → Bool
is_network none i = false
is_network (some n) i = nat_beq i n

-- `eligible`, of the checks from an index on; the network check's index is none when there is none.
unfoldable pub eligible : Time → Bool → Bool → Engine → Option ℕ → ℕ → List Scheduled → List ℕ
unfolding may_run
eligible now no_internet quiet e network i [] = []
eligible now no_internet quiet e network i (s ∷ checks) =
    let rest = eligible now no_internet quiet e network (suc i) checks in
    if not (is_network network i) && may_run now no_internet quiet e s then i ∷ rest else rest

abbrev pub is_state : Kind → Bool
is_state state = true
is_state event = false

abbrev pub is_unknown : Verdict → Bool
is_unknown unknown = true
is_unknown _ = false

-- `unjudged`.
unfoldable pub unjudged_by : RunError → List Reading → Bool
unjudged_by no_error readings =
    not
      (any (λ r. (r.key == key_network) && is_state r.kind && not (is_unknown r.verdict)) readings)
unjudged_by _ readings = true

unfoldable pub unjudged : CheckResult → Bool
unfolding unjudged_by
unjudged res = unjudged_by res.error res.readings

-- `raiseOverruns`; the text of several overruns, from their names, is a parameter.
unfoldable pub raise_overruns_of : (List String → String) → List (String × String) → Cycle → Cycle
raise_overruns_of text [] c = c
raise_overruns_of text ((check, error) ∷ []) c =
    fail_check check (join_text check "/run/error") error c
raise_overruns_of text (a ∷ b ∷ rest) c = fail key_overrun (text (map (λ p. p.0) (a ∷ b ∷ rest))) c

unfoldable pub raise_overruns : (List String → String) → Cycle → Cycle
unfolding raise_overruns_of
raise_overruns text c = raise_overruns_of text c.overruns c

module _ (error_text : GoError → String) (join_errors : List GoError → String) where
  -- The CheckErrors of a run, each under its own key.
  abbrev pub raised_key : String → GoError → String
  raised_key check (GoError.check_error subject kind cause) = check_error_key check subject kind
  raised_key check e = check

  unfoldable pub fail_each : String → List GoError → Cycle → Cycle
  fail_each check [] c = c
  fail_each check (e ∷ errors) c =
      fail_each check errors (fail_check check (raised_key check e) (error_text e) c)

  unfoldable pub fail_plain : String → List GoError → Cycle → Cycle
  fail_plain check [] c = c
  fail_plain check (e ∷ errors) c =
      fail_check check (join_text check "/run/error") (join_errors (e ∷ errors)) c

  -- `failErr`.
  unfoldable pub fail_err : String → RunError → Cycle → Cycle
  unfolding fail_each fail_plain
  fail_err check no_error c = c
  fail_err check (tick_deadline text) c = record c { overruns = c.overruns ++ ((check, text) ∷ []) }
  fail_err check (run_error e) c =
      let (checks, plain) = split_errors e in fail_plain check plain (fail_each check checks c)

  -- The checker errors of the unreadable readings, in `apply`.
  abbrev pub is_unreadable : Reading → Bool
  is_unreadable r = is_state r.kind && is_unknown r.verdict

  unfoldable pub fail_unreadable : String → List Reading → Cycle → Cycle
  fail_unreadable check [] c = c
  fail_unreadable check (r ∷ readings) c = fail_unreadable check readings (
      if is_unreadable r
      then fail_check check (join_text r.key "/unreadable")
          (if r.text == "" then join_text r.key " could not be read" else r.text) c
      else c)

  abbrev pub with_mode : Mode → Alert → Alert
  with_mode mode a = record a { mode = own_mode a.mode mode }
    where
      own_mode : Mode → Mode → Mode
      own_mode mode_default m = m
      own_mode own m = own
