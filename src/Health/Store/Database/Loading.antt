-- ===== src/Health/Store/Database/Loading.antt =====
-- What `Load` reads from the tables that a checkpoint leaves (pkg/health/store/state.go).
use tgshd.Base.{
  String, List, [], ◌∷◌, ◌++◌, map, Bool, true, ◌≡◌, refl, Option, some, leb, text_eq, text_leb,
  All, nat_eq,
}
use tgshd.Health.Types.{Condition}
use tgshd.Health.Notify.{QueuedMessage}
use tgshd.Health.Store.{State, LoggedAlert, SampleRow}
use tgshd.Health.Store.Rows.{Tables, condition_row, queue_row, alert_row, sample_row}
use tgshd.Health.Store.Database.{RateMarkJson, encode_mark, write_kv, write_baselines}

abbrev all_true {ℓ} : {A : Type ℓ} (xs : List A) → All (λ x. true ≡ true) xs
all_true [] = tt
all_true (x ∷ xs) = (refl, all_true xs)

abbrev pub by_condition_key : Condition → Condition → Bool
by_condition_key a b = text_leb a.key b.key

abbrev pub by_id : QueuedMessage → QueuedMessage → Bool
by_id a b = leb a.id b.id

module _ (marshal : List RateMarkJson → String) (unmarshal : String → Option (List RateMarkJson))
    (law : (marks : List RateMarkJson) → unmarshal (marshal marks) ≡ some marks) where
  -- The tables that the transaction leaves.
  abbrev committed : State → List LoggedAlert → List SampleRow → Tables → Tables
  committed st alerts samples t = record t {
    conditions = map condition_row st.conditions;
    queue = map queue_row st.queue;
    alerts = t.alerts ++ map alert_row alerts;
    baselines = write_baselines st.baselines t.baselines;
    kv = write_kv st.kv (marshal (map encode_mark st.rate_marks)) t.kv;
    samples = t.samples ++ map sample_row samples;
  }
