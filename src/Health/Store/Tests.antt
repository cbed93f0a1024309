-- ===== src/Health/Store/Tests.antt =====
-- The store over a short outage, and a checkpoint read back.
use tgshd.Base.{
  ◌≤◌, List, [], ◌∷◌, ◌++◌, map, true, false, ◌≡◌, refl, arith, length, lookup, find_key, text_eq,
  nat_eq, last_key,
}
use tgshd.Telegram.Route.{route_text}
use tgshd.Health.Types.{Condition}
use tgshd.Health.RateMarks.{RateMark}
use tgshd.Health.Notify.{QueuedMessage, default_route}
use tgshd.Health.Store.{
  Baseline, State, empty_state, LoggedAlert, SampleRow, Checkpointer, written, write_failed, merge,
  validate, one_of, validate_queue, validate_queued,
}
use tgshd.Health.Store.Rows.{Tables}
use tgshd.Health.Store.Calls.{Call, run, limit_of, accepted}
use tgshd.Health.Store.Outage.{accepted_alerts, flatten, run-none_lost}
use tgshd.Health.Store.Reports.{results, is_report, reports_due, results-reports_due}
use tgshd.Health.Store.Snapshots.{
  merge_all, last_value, serial_of, all_baselines, all_kv, merge_all-last,
}

abbrev alert : LoggedAlert
alert = record {
  at = 63_900_000_000_500_000_000;
  kind = "problem";
  check = "temp";
  key = "temp/cpu";
  text = "91 °C";
}

-- The value is 42.0.
abbrev sample : SampleRow
sample = record {
  at = 63_900_000_000_500_000_000;
  metric = "temp/cpu";
  value = 4631107791820423168;
}

abbrev resolved : LoggedAlert
resolved = record alert { kind = "resolved"; text = "70 °C" }

abbrev hot : Condition
hot = record {
  key = "temp/cpu";
  check = "temp";
  streak_start = 63_900_000_000_500_000_000;
  bad_for = 600_000_000_000;
  last_reading_at = 63_900_000_600_000_000_000;
  last_text = "90 °C";
  is_open = true;
  opened_at = 63_900_000_600_000_000_000;
}

abbrev quiet : Condition
quiet = record hot { key = "http/site"; check = "http"; is_open = false; opened_at = 0 }

abbrev queued : QueuedMessage
queued = record {
  id = 7;
  created_at = 63_900_000_600_000_000_000;
  channel = "tlg";
  text = 104 ∷ 105 ∷ [];
  attempts = 1;
  kind = "problem";
  check = "temp";
  key = "temp/cpu";
  plain = 104 ∷ [];
  since = 63_900_000_000_500_000_000;
  route = default_route "problem";
}

abbrev mark : RateMark
mark = record { key = "temp/cpu"; channel = "tlg"; last_sent_at = 63_900_000_600_000_000_000 }

abbrev drive : Baseline
drive = record {
  serial = "WD1";
  model = "WD";
  bus = "sata";
  payload = "{}";
  first_seen_at = 63_900_000_000_000_000_000;
  last_seen_at = 63_900_000_600_000_000_000;
  retired = false;
}

abbrev snapshot : State
snapshot = record {
  conditions = hot ∷ quiet ∷ [];
  baselines = drive ∷ [];
  kv = ("cursor", "s=1") ∷ [];
  rate_marks = mark ∷ [];
  queue = queued ∷ record queued { id = 3 } ∷ [];
}

abbrev later_snapshot : State
later_snapshot = record snapshot {
  baselines = record drive { retired = true } ∷ [];
  kv = ("cursor", "s=2") ∷ [];
  queue = [];
}

abbrev fresh : Checkpointer
fresh = record {
  degraded = false;
  pending = empty_state;
  alerts = [];
  samples = [];
  max_alerts = 3;
  max_samples = 2;
  dropped_alerts = 0;
  dropped_samples = 0;
}

-- Two calls fail and the third writes.
abbrev outage : List Call
outage =
    record {
      ended = false;
      dirty = snapshot;
      alerts = alert ∷ [];
      samples = [];
      outcome = write_failed;
    }
    ∷ record {
      ended = false;
      dirty = later_snapshot;
      alerts = [];
      samples = [];
      outcome = write_failed;
    }
    ∷ record {
      ended = false;
      dirty = later_snapshot;
      alerts = resolved ∷ alert ∷ [];
      samples = [];
      outcome = written;
    }
    ∷ []

outage-IsShort : length (accepted_alerts outage) ≤ limit_of fresh
unfolding accepted_alerts accepted validate one_of validate_queue validate_queued default_route
    route_text
outage-IsShort = omega arith

run-none_lost_example :
    flatten (run outage fresh []).0 ++ (run outage fresh []).1.alerts ≡ accepted_alerts outage
run-none_lost_example = run-none_lost outage fresh refl outage-IsShort

results-reports_due_example :
    map is_report (results outage fresh []) ≡ reports_due fresh.degraded outage
results-reports_due_example = results-reports_due outage fresh []

merge_all-last_example :
    let c = merge_all (snapshot ∷ []) fresh in
    (find_key serial_of "WD1" (merge later_snapshot c).pending.baselines
      ≡ last_key serial_of "WD1" later_snapshot.baselines (
          last_key serial_of "WD1"
            (all_baselines (snapshot ∷ []))
            (find_key serial_of "WD1" fresh.pending.baselines)))
    × (lookup "WD1" (merge later_snapshot c).pending.kv
        ≡ last_value "WD1" later_snapshot.kv
            (last_value "WD1" (all_kv (snapshot ∷ [])) (lookup "WD1" fresh.pending.kv)))
    × ((merge later_snapshot c).pending.conditions ≡ later_snapshot.conditions)
    × ((merge later_snapshot c).pending.rate_marks ≡ later_snapshot.rate_marks)
    × ((merge later_snapshot c).pending.queue ≡ later_snapshot.queue)
merge_all-last_example = merge_all-last (snapshot ∷ []) later_snapshot fresh "WD1"

abbrev tables : Tables
tables = record {
  conditions = [];
  baselines = [];
  kv = ("cursor", "s=0") ∷ [];
  queue = [];
  alerts = [];
  samples = [];
}
