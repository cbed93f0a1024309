-- ===== src/Health/Runner/Saving.antt =====
-- The records waiting for the store and the report of a failed write: `addPending`, `takePending`,
-- `checkpoint` and `saveRecovered` of pkg/health/runner/runner.go, and `saveInterruptedFixes` of
-- fix.go.
pub mod Notices
use tgshd.Base.{
  ℕ, ◌+◌, List, [], ◌∷◌, ◌++◌, map, Bool, true, false, not, ◌&&◌, ◌||◌, if◌then◌else◌, nat_beq,
  length,
}
use tgshd.Health.Store.{
  LoggedAlert, SampleRow, keep_newest, max_pending_alerts, max_pending_samples,
}
use tgshd.Health.Runner.Cycle.{Fix}
use tgshd.Health.Runner.Cycle.Apply.{fix_record}

pub record Pending : Type 0 where
  pub alerts : List LoggedAlert
  pub samples : List SampleRow
  pub dropped : Bool
  pub save_reported : Bool

-- `addPending`, with whether it logs the first drop of a run of drops.
unfoldable pub add_pending : List LoggedAlert → List SampleRow → Pending → Pending × Bool
add_pending alerts samples r =
    let (kept, da) = keep_newest max_pending_alerts (r.alerts ++ alerts) in
    let (kept_samples, ds) = keep_newest max_pending_samples (r.samples ++ samples) in
    let any_dropped = not (nat_beq (da + ds) 0) in
    (
      record r { alerts = kept; samples = kept_samples; dropped = r.dropped || any_dropped },
      any_dropped && not r.dropped,
    )

-- `takePending`.
unfoldable pub take_pending : Pending → Pending × (List LoggedAlert × List SampleRow)
take_pending r = (record r { alerts = []; samples = []; dropped = false }, (r.alerts, r.samples))

-- How the store's `Checkpoint` ends for the runner: a store that is still degraded returns no error
-- again, and a write may be cut off by a shutdown.
pub data SaveOutcome : Type 0 where
  save_ok save_degraded save_cut save_failed : SaveOutcome

-- What a checkpoint hands to the store, and what it sends.
pub data SaveEvent : Type 0 where
  handed : List LoggedAlert → List SampleRow → SaveEvent
  reported recovered : SaveEvent

-- `saveRecovered`.
unfoldable pub save_recovered : Pending → Pending × List SaveEvent
save_recovered r =
    if r.save_reported then (record r { save_reported = false }, recovered ∷ []) else (r, [])

-- What follows the write; the first argument tells whether a report of the failure goes out.
unfoldable pub after_save : Bool → SaveOutcome → Pending → Pending × List SaveEvent
unfolding save_recovered
after_save sent save_ok r = save_recovered r
after_save sent save_degraded r = (r, [])
after_save sent save_cut r = (r, [])
after_save sent save_failed r =
    if sent then (record r { save_reported = true }, reported ∷ []) else (r, [])

unfoldable pub save_taken :
    Bool → SaveOutcome → Pending × (List LoggedAlert × List SampleRow) → Pending × List SaveEvent
unfolding after_save
save_taken sent outcome (r, (alerts, samples)) =
    let (next, events) = after_save sent outcome r in (next, handed alerts samples ∷ events)

-- `checkpoint`, of the tick's records: whether the runner writes to a store, whether the state has
-- been loaded, whether a report would go out, and how the write ends.
unfoldable pub checkpoint :
    Bool
    → Bool
    → Bool
    → SaveOutcome
    → List LoggedAlert
    → List SampleRow
    → Pending
    → Pending × List SaveEvent
unfolding save_taken take_pending
checkpoint persistent loaded sent outcome alerts samples r =
    let (added, logs) = add_pending alerts samples r in
    if not persistent
    then (record added { alerts = []; samples = [] }, [])
    else if not loaded
    then (added, [])
    else save_taken sent outcome (take_pending added)

-- `saveInterruptedFixes`, of the fixes taken; nothing is sent, whatever the write's end.
unfoldable pub save_interrupted_fixes : Bool → Bool → List Fix → Pending → Pending × List SaveEvent
save_interrupted_fixes persistent loaded [] r = (r, [])
save_interrupted_fixes false loaded (f ∷ fixes) r = (r, [])
save_interrupted_fixes true loaded (f ∷ fixes) r =
    let (added, logs) = add_pending (map fix_record (f ∷ fixes)) [] r in
    let (taken, (alerts, samples)) = take_pending added in
    if loaded then (taken, handed alerts samples ∷ []) else (added, [])
