-- ===== src/Health/Store/Reports.antt =====
-- The results of a sequence of calls of `Checkpoint` (pkg/health/store/state.go).
use tgshd.Base.{
  List, [], ◌∷◌, Bool, true, false, not, ◌&&◌, ◌||◌, map, ◌≡◌, refl, arith, Option, none, some,
}
use tgshd.Health.Store.{
  Checkpointer, add, merge, Invalid, validate, CheckpointResult, err_degraded, WriteResult, written,
  write_cancelled, write_failed, flush, checked, checkpoint, after_write, after_failure,
}
use tgshd.Health.Store.Calls.{Call, Log, write_log, step, is_none, is_written, accepted, succeeds}

unfoldable pub results : List Call → Checkpointer → Log → List CheckpointResult
results [] c log = []
results (k ∷ calls) c log =
    let (log1, (c1, result)) = step k c log in result ∷ results calls c1 log1

abbrev pub is_report : CheckpointResult → Bool
is_report err_degraded = true
is_report _ = false

abbrev pub is_failure : WriteResult → Bool
is_failure write_failed = true
is_failure _ = false

unfoldable pub fails : Call → Bool
fails k = accepted k && not k.ended && is_failure k.outcome

-- The calls that report: those whose write fails when none has failed since the last one that was
-- written; the first argument tells that one has failed before.
unfoldable pub reports_due : Bool → List Call → List Bool
reports_due down [] = []
reports_due down (k ∷ calls) =
    (fails k && not down) ∷ reports_due (fails k || down && not (accepted k && succeeds k)) calls

failure_lem :
    (d : Bool) (c : Checkpointer)
    → c.degraded ≡ d
    → let r = after_failure d c in (is_report r.1 ≡ not d) × (r.0.degraded ≡ true)
unfolding after_failure
failure_lem true c h = (refl, h)
failure_lem false c h = (refl, refl)

-- The report and the mark of one call.
report_lem :
    (v : Option Invalid) (ended : Bool) (o : WriteResult) (k : Call) (c : Checkpointer) (log : Log)
    → let r = checked (write_log o) v ended k.dirty k.alerts k.samples c log in
      let failed = is_none v && not ended && is_failure o in
      (is_report r.1.1 ≡ failed && not c.degraded)
      × (r.1.0.degraded ≡ failed || c.degraded && not (is_none v && (not ended && is_written o)))
unfolding checked flush add merge after_write write_log
report_lem (some e) ended o k c log = ground arith
report_lem none true o k c log = ground arith
report_lem none false written k c log = ground arith
report_lem none false write_cancelled k c log = ground arith
report_lem none false write_failed k c log =
    failure_lem c.degraded (add k.alerts k.samples (merge k.dirty c)) refl

step-report :
    (k : Call) (c : Checkpointer) (log : Log)
    → let r = step k c log in
      (is_report r.1.1 ≡ fails k && not c.degraded)
      × (r.1.0.degraded ≡ fails k || c.degraded && not (accepted k && succeeds k))
unfolding step checkpoint accepted succeeds fails
step-report k c log = report_lem (validate k.dirty k.alerts) k.ended k.outcome k c log

-- An outage is reported once, and each anew: in any sequence of calls the ones that return the report
-- are exactly those whose write fails while no write has failed since the last that succeeded, or
-- since the start of a healthy store.
pub results-reports_due :
    (calls : List Call) (c : Checkpointer) (log : Log)
    → map is_report (results calls c log) ≡ reports_due c.degraded calls
unfolding results reports_due
results-reports_due [] c log = refl
results-reports_due (k ∷ calls) c log =
    let r = step-report k c log in
    let rest = results-reports_due calls (step k c log).1.0 (step k c log).0 in
    rw (r.0, rest, r.1) refl
