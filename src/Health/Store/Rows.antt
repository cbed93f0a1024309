-- ===== src/Health/Store/Rows.antt =====
-- The rows that a checkpoint writes and that `Load` reads back: `write`, the `write…` and `load…`
-- functions and `Load` of pkg/health/store/state.go. A table is the list of its rows; the JSON of
-- the rate marks is made and read by encoding/json, a parameter.
use tgshd.Base.{
  ℕ, ℤ, pos, negsuc, ◌+◌, ◌-◌, ◌*◌, ◌/◌, String, List, [], ◌∷◌, Bool, Option, none, some, leb,
  nat_beq, ◌==◌, text_eq, if◌then◌else◌,
}
use tgshd.Health.Types.{Time, Duration, Condition}
use tgshd.Health.Notify.{QueuedMessage, Runes}
use tgshd.Health.Store.{Baseline, LoggedAlert, SampleRow}
use tgshd.Telegram.Route.{Route, route_text, parse_route}

abbrev pub second : Duration
second = 1_000_000_000

-- The seconds from Go's zero time to the Unix epoch.
abbrev pub unix_epoch : ℕ
unix_epoch = 62_135_596_800

unfoldable pub from_epoch : ℕ → ℤ
from_epoch s = if leb unix_epoch s then pos (s - unix_epoch) else negsuc (unix_epoch - s - 1)

-- `Time.Unix`.
unfoldable pub unix : Time → ℤ
unfolding from_epoch
unix t = from_epoch (t / second)

-- `time.Unix(n, 0)`, for times from the zero time on.
unfoldable pub time_unix : ℤ → Time
time_unix (pos n) = (n + unix_epoch) * second
time_unix (negsuc n) = (unix_epoch - n - 1) * second

-- `nullUnix` and `fromNull`.
unfoldable pub null_unix : Time → Option ℤ
null_unix t = if nat_beq t 0 then none else some (unix t)

unfoldable pub from_null : Option ℤ → Time
from_null none = 0
from_null (some n) = time_unix n

pub record ConditionRow : Type 0 where
  pub key : String
  pub check_name : String
  pub streak_start : Option ℤ
  pub bad_for_s : ℕ
  pub last_reading_at : Option ℤ
  pub last_text : String
  pub is_open : Bool
  pub opened_at : Option ℤ

pub record BaselineRow : Type 0 where
  pub serial : String
  pub model : String
  pub bus : String
  pub payload : String
  pub first_seen_at : ℤ
  pub last_seen_at : ℤ
  pub retired : Bool

pub record QueueRow : Type 0 where
  pub id : ℕ
  pub created_at : ℤ
  pub channel : String
  pub text : Runes
  pub attempts : ℕ
  pub kind : String
  pub check_name : String
  pub key : String
  pub plain : Runes
  pub since : Option ℤ
  pub route : String

pub record AlertRow : Type 0 where
  pub at : ℤ
  pub kind : String
  pub check_name : String
  pub key : String
  pub text : String

pub record StoredSample : Type 0 where
  pub at : ℤ
  pub metric : String
  pub value : ℕ

pub record Tables : Type 0 where
  pub conditions : List ConditionRow
  pub baselines : List BaselineRow
  pub kv : List (String × String)
  pub queue : List QueueRow
  pub alerts : List AlertRow
  pub samples : List StoredSample

-- The row of `writeConditions` and what `loadConditions` reads from it.
unfoldable pub condition_row : Condition → ConditionRow
condition_row c = record {
  key = c.key;
  check_name = c.check;
  streak_start = null_unix c.streak_start;
  bad_for_s = c.bad_for / second;
  last_reading_at = null_unix c.last_reading_at;
  last_text = c.last_text;
  is_open = c.is_open;
  opened_at = null_unix c.opened_at;
}

unfoldable pub read_condition : ConditionRow → Condition
read_condition r = record {
  key = r.key;
  check = r.check_name;
  streak_start = from_null r.streak_start;
  bad_for = r.bad_for_s * second;
  last_reading_at = from_null r.last_reading_at;
  last_text = r.last_text;
  is_open = r.is_open;
  opened_at = from_null r.opened_at;
}

-- The row of `writeBaselines`: empty data is stored as an empty object.
unfoldable pub baseline_row : Baseline → BaselineRow
baseline_row b = record {
  serial = b.serial;
  model = b.model;
  bus = b.bus;
  payload = if b.payload == "" then "{}" else b.payload;
  first_seen_at = unix b.first_seen_at;
  last_seen_at = unix b.last_seen_at;
  retired = b.retired;
}

unfoldable pub read_baseline : BaselineRow → Baseline
read_baseline r = record {
  serial = r.serial;
  model = r.model;
  bus = r.bus;
  payload = r.payload;
  first_seen_at = time_unix r.first_seen_at;
  last_seen_at = time_unix r.last_seen_at;
  retired = r.retired;
}

-- The row of `writeQueue` and what `loadQueue` reads from it, none when its route does not parse.
unfoldable pub queue_row : QueuedMessage → QueueRow
queue_row m = record {
  id = m.id;
  created_at = unix m.created_at;
  channel = m.channel;
  text = m.text;
  attempts = m.attempts;
  kind = m.kind;
  check_name = m.check;
  key = m.key;
  plain = m.plain;
  since = null_unix m.since;
  route = route_text m.route;
}

unfoldable pub message_of : QueueRow → Route → QueuedMessage
message_of r route = record {
  id = r.id;
  created_at = time_unix r.created_at;
  channel = r.channel;
  text = r.text;
  attempts = r.attempts;
  kind = r.kind;
  check = r.check_name;
  key = r.key;
  plain = r.plain;
  since = from_null r.since;
  route = route;
}

unfoldable pub read_row :
    QueueRow → Option Route → Option (List QueuedMessage) → Option (List QueuedMessage)
read_row r (some route) (some rest) = some (message_of r route ∷ rest)
read_row r (some route) none = none
read_row r none rest = none

unfoldable pub read_queue : List QueueRow → Option (List QueuedMessage)
unfolding read_row
read_queue [] = some []
read_queue (r ∷ rows) = read_row r (parse_route r.route) (read_queue rows)

-- The rows of `writeAlerts` and `writeSamples`.
unfoldable pub alert_row : LoggedAlert → AlertRow
alert_row a = record {
  at = unix a.at;
  kind = a.kind;
  check_name = a.check;
  key = a.key;
  text = a.text;
}

unfoldable pub sample_row : SampleRow → StoredSample
sample_row r = record { at = unix r.at; metric = r.metric; value = r.value }
