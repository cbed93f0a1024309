-- ===== src/Health/Store/Database.antt =====
-- The transaction of a checkpoint and `Load`, over the tables: `write`, `writeConditions` to
-- `writeSamples`, `PutKV`, `loadConditions` to `loadQueue` and `Load` of
-- pkg/health/store/state.go, with the keys and checks of the schema in store.go.
pub mod RoundTrip
pub mod Inserts
pub mod Loading
use tgshd.Base.{
  ℕ, ℤ, ◌/◌, ◌%◌, ◌^◌, String, List, [], ◌∷◌, ◌++◌, map, Bool, true, false, not, ◌&&◌, Option, none,
  some, leb, nat_beq, Eq, nat_eq, ◌==◌, text_eq, if◌then◌else◌, lookup, insert, delete, sort,
  text_leb, find_key,
}
use tgshd.Health.Types.{Time, Condition}
use tgshd.Health.RateMarks.{RateMark}
use tgshd.Health.Notify.{QueuedMessage}
use tgshd.Health.Store.{
  Baseline, State, LoggedAlert, SampleRow, one_of, alert_kinds, queue_channels,
}
use tgshd.Health.Store.Rows.{
  ConditionRow, BaselineRow, QueueRow, AlertRow, StoredSample, Tables, condition_row,
  read_condition, baseline_row, read_baseline, queue_row, read_queue, alert_row, sample_row, unix,
  time_unix,
}

abbrev pub condition_key : ConditionRow → String
condition_key r = r.key

abbrev pub queue_id : QueueRow → ℕ
queue_id r = r.id

abbrev pub baseline_serial : BaselineRow → String
baseline_serial r = r.serial

abbrev pub is_absent {ℓ} : {A : Type ℓ} → Option A → Bool
is_absent none = true
is_absent (some a) = false

-- One INSERT per entry, none when one repeats a primary key or is refused by a CHECK.
module _ {ℓ κ ι} {K : Type ι} {A : Type ℓ} {R : Type κ} ⦃e : Eq K⦄ (key_of : A → K)
    (row_key : R → K) (row : A → R) (accepts : A → Bool) where
  unfoldable pub insert_rows : List A → List R → Option (List R)
  insert_rows [] table = some table
  insert_rows (a ∷ rest) table =
      let next = insert_rows rest (table ++ (row a ∷ [])) in
      if accepts a && is_absent (find_key row_key (key_of a) table) then next else none

abbrev pub key_of_condition : Condition → String
key_of_condition c = c.key

-- The inserts of `writeConditions`, after the table is cleared.
unfoldable pub write_conditions : List Condition → Option (List ConditionRow)
unfolding insert_rows
write_conditions cs = insert_rows key_of_condition condition_key condition_row (λ c. true) cs []

abbrev pub id_of : QueuedMessage → ℕ
id_of m = m.id

abbrev pub channel_ok : QueuedMessage → Bool
channel_ok m = one_of m.channel queue_channels

-- The inserts of `writeQueue`, after the table is cleared.
unfoldable pub write_queue : List QueuedMessage → Option (List QueueRow)
unfolding insert_rows
write_queue ms = insert_rows id_of queue_id queue_row channel_ok ms []

-- `writeBaselines`: an upsert by serial.
unfoldable pub upsert_baseline : BaselineRow → List BaselineRow → List BaselineRow
upsert_baseline r [] = r ∷ []
upsert_baseline r (b ∷ table) =
    if b.serial == r.serial then r ∷ table else b ∷ upsert_baseline r table

unfoldable pub write_baselines : List Baseline → List BaselineRow → List BaselineRow
write_baselines [] table = table
write_baselines (b ∷ bs) table = write_baselines bs (upsert_baseline (baseline_row b) table)

abbrev pub rate_marks_key : String
rate_marks_key = "rate_marks"

-- `writeKV`: the reserved key is written last, and never from the state's own map.
unfoldable pub write_own : List (String × String) → List (String × String) → List (String × String)
write_own [] table = table
write_own ((k, v) ∷ kv) table =
    write_own kv (if k == rate_marks_key then table else insert k v table)

unfoldable pub write_kv :
    List (String × String) → String → List (String × String) → List (String × String)
write_kv kv marks table = insert rate_marks_key marks (write_own kv table)

abbrev pub kind_ok : LoggedAlert → Bool
kind_ok a = one_of a.kind alert_kinds

-- The inserts of `writeAlerts`, none when one has a kind that the table refuses.
unfoldable pub insert_alerts : List LoggedAlert → List AlertRow → Option (List AlertRow)
insert_alerts [] table = some table
insert_alerts (a ∷ alerts) table =
    let rest = insert_alerts alerts (table ++ (alert_row a ∷ [])) in
    if kind_ok a then rest else none

-- The bits of a value that is not a number: the exponent is all ones and the fraction is not zero.
unfoldable pub is_nan : ℕ → Bool
is_nan bits = nat_beq (bits / 2 ^ 52 % 2 ^ 11) 2047 && not (nat_beq (bits % 2 ^ 52) 0)

-- The inserts of `writeSamples`, none when a value is not a number: SQLite takes that as NULL, which
-- the table refuses.
unfoldable pub insert_samples : List SampleRow → List StoredSample → Option (List StoredSample)
insert_samples [] table = some table
insert_samples (r ∷ samples) table =
    let rest = insert_samples samples (table ++ (sample_row r ∷ [])) in
    if is_nan r.value then none else rest

-- `rateMarkJSON`.
pub record RateMarkJson : Type 0 where
  pub key : String
  pub channel : String
  pub at : ℤ

-- `encodeRateMarks`.
unfoldable pub encode_mark : RateMark → RateMarkJson
encode_mark m = record { key = m.key; channel = m.channel; at = unix m.last_sent_at }

unfoldable pub decode_mark : RateMarkJson → RateMark
decode_mark m = record { key = m.key; channel = m.channel; last_sent_at = time_unix m.at }

abbrev pub commit_of :
    Option (List ConditionRow)
    → Option (List QueueRow)
    → Option (List AlertRow)
    → Option (List StoredSample)
    → Tables
    → Option Tables
commit_of (some conditions) (some queue) (some alerts) (some samples) t =
    some (record t { conditions = conditions; queue = queue; alerts = alerts; samples = samples })
commit_of none queue alerts samples t = none
commit_of (some conditions) none alerts samples t = none
commit_of (some conditions) (some queue) none samples t = none
commit_of (some conditions) (some queue) (some alerts) none t = none

abbrev pub marks_of : Option (List RateMarkJson) → List RateMark
marks_of none = []
marks_of (some marks) = map decode_mark marks

module _ (marshal : List RateMarkJson → String)
    (unmarshal : String → Option (List RateMarkJson)) where
  -- `Store.write` where the database itself does not fail: none when a row breaks a constraint, and
  -- then nothing is committed.
  unfoldable pub write : State → List LoggedAlert → List SampleRow → Tables → Option Tables
  write st alerts samples t =
      commit_of (write_conditions st.conditions) (write_queue st.queue)
        (insert_alerts alerts t.alerts) (insert_samples samples t.samples)
        (record t {
          baselines = write_baselines st.baselines t.baselines;
          kv = write_kv st.kv (marshal (map encode_mark st.rate_marks)) t.kv;
        })

  -- `decodeRateMarks`: no marks for a corrupt value.
  unfoldable pub decode_rate_marks : String → List RateMark
  decode_rate_marks raw = marks_of (unmarshal raw)

  unfoldable pub load_marks : Option String → List RateMark
  unfolding decode_rate_marks
  load_marks none = []
  load_marks (some raw) = decode_rate_marks raw

  abbrev pub loaded : Tables → Option (List QueuedMessage) → Option State
  loaded t none = none
  loaded t (some queue) = some (record {
    conditions = map read_condition (sort (λ a b. text_leb a.key b.key) t.conditions);
    baselines = map read_baseline (sort (λ a b. text_leb a.serial b.serial) t.baselines);
    kv = delete rate_marks_key t.kv;
    rate_marks = load_marks (lookup rate_marks_key t.kv);
    queue = queue;
  })

  -- `Store.Load`, none for a queued route that does not parse.
  unfoldable pub load : Tables → Option State
  load t = loaded t (read_queue (sort (λ a b. leb a.id b.id) t.queue))

-- `Store.PutKV`, none where it refuses the reserved key.
unfoldable pub put_kv : String → String → Tables → Option Tables
put_kv key value t =
    if key == rate_marks_key then none else some (record t { kv = insert key value t.kv })
