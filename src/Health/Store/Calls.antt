-- ===== src/Health/Store/Calls.antt =====
-- The calls of `Checkpoint` as a sequence, over a database that is the log of the batches committed
-- to it, and what a store without bounds would commit.
use tgshd.Base.{
  ℕ, List, [], ◌∷◌, ◌++◌, Bool, true, false, if◌then◌else◌, Option, none, some, not, ◌&&◌,
}
use tgshd.Health.Store.{
  State, LoggedAlert, SampleRow, Checkpointer, keep_newest, bound_or, max_pending_alerts, validate,
  CheckpointResult, WriteResult, written, write_cancelled, write_failed, checkpoint,
}

pub record Call : Type 0 where
  pub ended : Bool
  pub dirty : State
  pub alerts : List LoggedAlert
  pub samples : List SampleRow
  pub outcome : WriteResult

-- The batches of alerts that were committed.
abbrev pub Log : Type 0
Log = List (List LoggedAlert)

unfoldable pub write_log :
    WriteResult → State → List LoggedAlert → List SampleRow → Log → Log × WriteResult
write_log written st alerts samples log = (log ++ (alerts ∷ []), written)
write_log write_cancelled st alerts samples log = (log, write_cancelled)
write_log write_failed st alerts samples log = (log, write_failed)

unfoldable pub step : Call → Checkpointer → Log → Log × (Checkpointer × CheckpointResult)
step k c log = checkpoint (write_log k.outcome) k.ended k.dirty k.alerts k.samples c log

unfoldable pub run : List Call → Checkpointer → Log → Log × Checkpointer
run [] c log = (log, c)
run (k ∷ calls) c log = let (log1, (c1, result)) = step k c log in run calls c1 log1

abbrev pub limit_of : Checkpointer → ℕ
limit_of c = bound_or c.max_alerts max_pending_alerts

abbrev pub newest {ℓ} : {A : Type ℓ} → ℕ → List A → List A
newest n xs = (keep_newest n xs).0

-- Whether a call is accepted, and whether it reaches the database and is written.
abbrev pub is_none {ℓ} : {A : Type ℓ} → Option A → Bool
is_none none = true
is_none (some a) = false

abbrev pub is_written : WriteResult → Bool
is_written written = true
is_written _ = false

unfoldable pub accepted : Call → Bool
accepted k = is_none (validate k.dirty k.alerts)

unfoldable pub succeeds : Call → Bool
succeeds k = not k.ended && is_written k.outcome

-- The batches that a store which never bounds its buffer would commit, each cut to the newest
-- records at the end: the alerts of all accepted calls since the last success.
unfoldable pub batches : ℕ → List Call → List LoggedAlert → Log
batches n [] all = []
batches n (k ∷ calls) all =
    let refused = batches n calls all in
    let failed = batches n calls (all ++ k.alerts) in
    let fresh = batches n calls [] in
    if not (accepted k)
    then refused
    else if succeeds k
    then newest n (all ++ k.alerts) ∷ fresh
    else failed

-- The alerts of the accepted calls since the last success.
unfoldable pub remaining : List Call → List LoggedAlert → List LoggedAlert
remaining [] all = all
remaining (k ∷ calls) all =
    let refused = remaining calls all in
    let failed = remaining calls (all ++ k.alerts) in
    let fresh = remaining calls [] in
    if not (accepted k) then refused else if succeeds k then fresh else failed
