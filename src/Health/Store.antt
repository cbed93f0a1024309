-- ===== src/Health/Store.antt =====
-- The state store, pkg/health/store/state.go: what a checkpoint validates, merges, bounds and keeps
-- while it cannot be written. `Checkpoint` holds the mutex, so it is one step.
pub mod Bounds
pub mod Calls
pub mod Outage
pub mod Reports
pub mod Snapshots
pub mod Rows
pub mod Database
pub mod Encoding
pub mod Tests
use tgshd.Base.{
  ℕ, ◌+◌, ◌-◌, String, List, [], ◌∷◌, ◌++◌, Bool, true, false, not, ◌&&◌, ◌||◌, Option, none, some,
  leb, nat_beq, ◌==◌, text_eq, if◌then◌else◌, insert, length, drop, any, or_else,
}
use tgshd.Health.Types.{Time, Condition}
use tgshd.Health.RateMarks.{RateMark}
use tgshd.Health.Notify.{QueuedMessage}
use tgshd.Telegram.Route.{Route, Topic, topic_none, route_text}

-- `Baseline`: its `Data`, opaque JSON, is the payload.
pub record Baseline : Type 0 where
  pub serial : String
  pub model : String
  pub bus : String
  pub payload : String
  pub first_seen_at : Time
  pub last_seen_at : Time
  pub retired : Bool

-- `State`: a nil map and an empty one are the same to every use.
pub record State : Type 0 where
  pub conditions : List Condition
  pub baselines : List Baseline
  pub kv : List (String × String)
  pub rate_marks : List RateMark
  pub queue : List QueuedMessage

abbrev pub empty_state : State
empty_state = record { conditions = []; baselines = []; kv = []; rate_marks = []; queue = [] }

-- `Alert`: its kind is a text, of the seven that the table accepts.
pub record LoggedAlert : Type 0 where
  pub at : Time
  pub kind : String
  pub check : String
  pub key : String
  pub text : String

-- A sample's value, a float, is only stored: it stands by its 64 bits.
pub record SampleRow : Type 0 where
  pub at : Time
  pub metric : String
  pub value : ℕ

abbrev pub max_pending_samples : ℕ
max_pending_samples = 100_000

abbrev pub max_pending_alerts : ℕ
max_pending_alerts = 10_000

-- `checkpointer`.
pub record Checkpointer : Type 0 where
  pub degraded : Bool
  pub pending : State
  pub alerts : List LoggedAlert
  pub samples : List SampleRow
  pub max_alerts : ℕ
  pub max_samples : ℕ
  pub dropped_alerts : ℕ
  pub dropped_samples : ℕ

-- `KeepNewest`.
unfoldable pub keep_newest {ℓ} : {A : Type ℓ} → ℕ → List A → List A × ℕ
keep_newest limit s =
    if leb (length s) limit then (s, 0) else (drop (length s - limit) s, length s - limit)

-- `cmp.Or` of a bound that may be unset.
abbrev pub bound_or : ℕ → ℕ → ℕ
bound_or limit default = if nat_beq limit 0 then default else limit

-- `checkpointer.add`.
unfoldable pub add : List LoggedAlert → List SampleRow → Checkpointer → Checkpointer
add alerts samples c =
    let (kept, n) = keep_newest (bound_or c.max_alerts max_pending_alerts) (c.alerts ++ alerts) in
    let (kept_samples, k) =
      keep_newest (bound_or c.max_samples max_pending_samples) (c.samples ++ samples) in
    record c {
      alerts = kept;
      dropped_alerts = c.dropped_alerts + n;
      samples = kept_samples;
      dropped_samples = c.dropped_samples + k;
    }

-- What `validate` refuses.
pub data Invalid : Type 0 where
  invalid_alert_kind invalid_channel invalid_kind : String → Invalid
  invalid_route : Route → Invalid

unfoldable pub one_of : String → List String → Bool
one_of s names = any (λ name. s == name) names

abbrev pub alert_kinds : List String
alert_kinds =
    "problem" ∷ "resolved" ∷ "event" ∷ "fix" ∷ "retired" ∷ "cleared" ∷ "checker_error" ∷ []

abbrev pub queue_channels : List String
queue_channels = "tlg" ∷ "sms" ∷ "email" ∷ []

abbrev pub queue_kinds : List String
queue_kinds = "problem" ∷ "resolved" ∷ "event" ∷ []

-- `route == Route{}`.
abbrev zero_topic : Topic → Bool
zero_topic topic_none = true
zero_topic _ = false

abbrev pub zero_route : Route → Bool
zero_route r = zero_topic r.topic && not r.silent

-- `validateQueued`, none when the message is accepted.
unfoldable pub validate_queued : QueuedMessage → Option Invalid
validate_queued m =
    if not (one_of m.channel queue_channels)
    then some (invalid_channel m.channel)
    else if not (one_of m.kind queue_kinds)
    then some (invalid_kind m.kind)
    else if not (zero_route m.route) && (route_text m.route == "")
    then some (invalid_route m.route)
    else none

unfoldable pub validate_queue : List QueuedMessage → Option Invalid
validate_queue [] = none
validate_queue (m ∷ queue) = or_else (validate_queued m) (validate_queue queue)

-- `validate`.
unfoldable pub validate : State → List LoggedAlert → Option Invalid
validate st [] = validate_queue st.queue
validate st (a ∷ alerts) =
    if one_of a.kind alert_kinds then validate st alerts else some (invalid_alert_kind a.kind)

-- The baselines of `checkpointer.merge`: one with a known serial replaces it where it stands.
unfoldable pub put_baseline : Baseline → List Baseline → List Baseline
put_baseline b [] = b ∷ []
put_baseline b (c ∷ rest) = if c.serial == b.serial then b ∷ rest else c ∷ put_baseline b rest

unfoldable pub put_baselines : List Baseline → List Baseline → List Baseline
put_baselines [] known = known
put_baselines (b ∷ bs) known = put_baselines bs (put_baseline b known)

-- `maps.Copy`.
unfoldable pub copy_kv : List (String × String) → List (String × String) → List (String × String)
copy_kv [] kv = kv
copy_kv ((k, v) ∷ rest) kv = copy_kv rest (insert k v kv)

-- `checkpointer.merge`.
unfoldable pub merge : State → Checkpointer → Checkpointer
merge dirty c = record c {
  pending = record {
    conditions = dirty.conditions;
    baselines = put_baselines dirty.baselines c.pending.baselines;
    kv = copy_kv dirty.kv c.pending.kv;
    rate_marks = dirty.rate_marks;
    queue = dirty.queue;
  };
}

-- What `Checkpoint` returns.
pub data CheckpointResult : Type 0 where
  saved err_cancelled err_degraded : CheckpointResult
  err_invalid : Invalid → CheckpointResult

-- How one call of `Store.write` ends. A context that ends during the write makes it fail.
pub data WriteResult : Type 0 where
  written write_cancelled write_failed : WriteResult

-- A failed write is reported once per outage.
unfoldable pub after_failure : Bool → Checkpointer → Checkpointer × CheckpointResult
after_failure true c = (c, saved)
after_failure false c = (record c { degraded = true }, err_degraded)

-- The rest of `Checkpoint` once the write has returned.
unfoldable pub after_write : WriteResult → Checkpointer → Checkpointer × CheckpointResult
unfolding after_failure
after_write written c =
    (record c { degraded = false; pending = empty_state; alerts = []; samples = [] }, saved)
after_write write_cancelled c = (c, err_cancelled)
after_write write_failed c = after_failure c.degraded c

-- The write is a parameter: what it writes of the pending state and records is its own, and it
-- changes the database only when it succeeds.
module _ {ℓ} {D : Type ℓ}
    (write : State → List LoggedAlert → List SampleRow → D → D × WriteResult) where
  unfoldable pub flush : Bool → Checkpointer → D → D × (Checkpointer × CheckpointResult)
  flush true c db = (db, (c, err_cancelled))
  flush false c db =
      let (next, result) = write c.pending c.alerts c.samples db in (next, after_write result c)

  unfoldable pub checked :
      Option Invalid
      → Bool
      → State
      → List LoggedAlert
      → List SampleRow
      → Checkpointer
      → D
      → D × (Checkpointer × CheckpointResult)
  checked (some e) cancelled dirty alerts samples c db = (db, (c, err_invalid e))
  checked none cancelled dirty alerts samples c db =
      flush cancelled (add alerts samples (merge dirty c)) db

  -- `Store.Checkpoint`; the first argument tells that the context has ended before the write.
  unfoldable pub checkpoint :
      Bool
      → State
      → List LoggedAlert
      → List SampleRow
      → Checkpointer
      → D
      → D × (Checkpointer × CheckpointResult)
  checkpoint cancelled dirty alerts samples c db =
      checked (validate dirty alerts) cancelled dirty alerts samples c db
