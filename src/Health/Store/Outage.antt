-- ===== src/Health/Store/Outage.antt =====
-- A store that cannot be written for a while: the calls of `Checkpoint` as a sequence, over a
-- database that is the log of the batches committed to it.
use tgshd.Base.{
  ℕ, ◌+◌, ◌≤◌, List, [], ◌∷◌, ◌++◌, Bool, true, false, ◌≡◌, refl, sym, ap, ◌∙◌, arith,
  if◌then◌else◌, Option, none, some, length, length-append, not, ◌&&◌,
}
use mathlib.Core.List.{append-nil, append_assoc}
use tgshd.Health.Store.Bounds.{keep_newest-append, keep_newest-within}
use tgshd.Health.Store.{
  LoggedAlert, Checkpointer, add, merge, Invalid, validate, WriteResult, written, write_cancelled,
  write_failed, flush, checked, checkpoint, after_write, after_failure,
}
use tgshd.Health.Store.Calls.{
  Call, Log, write_log, step, run, limit_of, newest, is_none, is_written, accepted, succeeds,
  batches, remaining,
}

-- The log and the pending alerts after a call, by what `validate` and the write say.
abbrev log_after : Bool → Bool → Checkpointer → Call → Log → Log
log_after false ok c k log = log
log_after true false c k log = log
log_after true true c k log = log ++ (newest (limit_of c) (c.alerts ++ k.alerts) ∷ [])

abbrev pending_after : Bool → Bool → Checkpointer → Call → List LoggedAlert
pending_after false ok c k = c.alerts
pending_after true false c k = newest (limit_of c) (c.alerts ++ k.alerts)
pending_after true true c k = []

after_failure-alerts :
    (b : Bool) (c : Checkpointer)
    → ((after_failure b c).0.alerts ≡ c.alerts) × (limit_of (after_failure b c).0 ≡ limit_of c)
unfolding after_failure
after_failure-alerts true c = (refl, refl)
after_failure-alerts false c = (refl, refl)

checked_lem :
    (v : Option Invalid) (ended : Bool) (o : WriteResult) (k : Call) (c : Checkpointer) (log : Log)
    → ((checked (write_log o) v ended k.dirty k.alerts k.samples c log).0
        ≡ log_after (is_none v) (not ended && is_written o) c k log)
      × ((checked (write_log o) v ended k.dirty k.alerts k.samples c log).1.0.alerts
          ≡ pending_after (is_none v) (not ended && is_written o) c k)
      × (limit_of (checked (write_log o) v ended k.dirty k.alerts k.samples c log).1.0 ≡ limit_of c)
unfolding checked flush add merge after_write write_log
checked_lem (some e) ended o k c log = (refl, refl, refl)
checked_lem none true o k c log = (refl, refl, refl)
checked_lem none false written k c log = (refl, refl, refl)
checked_lem none false write_cancelled k c log = (refl, refl, refl)
checked_lem none false write_failed k c log =
    let next = add k.alerts k.samples (merge k.dirty c) in
    let same = after_failure-alerts next.degraded next in (refl, same.0, same.1)

step_lem :
    (k : Call) (c : Checkpointer) (log : Log)
    → ((step k c log).0 ≡ log_after (accepted k) (succeeds k) c k log)
      × ((step k c log).1.0.alerts ≡ pending_after (accepted k) (succeeds k) c k)
      × (limit_of (step k c log).1.0 ≡ limit_of c)
unfolding step checkpoint accepted succeeds
step_lem k c log = checked_lem (validate k.dirty k.alerts) k.ended k.outcome k c log

newest_added :
    (n : ℕ) (k : Call) (c : Checkpointer) (all : List LoggedAlert)
    → limit_of c ≡ n
    → c.alerts ≡ newest n all
    → newest (limit_of c) (c.alerts ++ k.alerts) ≡ newest n (all ++ k.alerts)
newest_added n k c all l h =
    ap (λ m. newest m (c.alerts ++ k.alerts)) l
    ∙ ap (λ xs. newest n (xs ++ k.alerts)) h
    ∙ keep_newest-append n all k.alerts

newest-nil : (n : ℕ) → newest {A = LoggedAlert} n [] ≡ []
newest-nil n = keep_newest-within n [] (omega arith)

-- One call, and the rest by hypothesis.
run-after :
    (n : ℕ) (calls : List Call)
    → ((c : Checkpointer) (all : List LoggedAlert) (log : Log)
        → limit_of c ≡ n
        → c.alerts ≡ newest n all
        → ((run calls c log).0 ≡ log ++ batches n calls all)
          × ((run calls c log).1.alerts ≡ newest n (remaining calls all)))
    → (a s : Bool) (k : Call) (c d : Checkpointer) (all : List LoggedAlert) (log next : Log)
    → limit_of c ≡ n
    → c.alerts ≡ newest n all
    → (next ≡ log_after a s c k log)
      × (d.alerts ≡ pending_after a s c k)
      × (limit_of d ≡ limit_of c)
    → ((run calls d next).0
        ≡ log
          ++ (if not a
              then batches n calls all
              else if s
              then newest n (all ++ k.alerts) ∷ batches n calls []
              else batches n calls (all ++ k.alerts)))
      × ((run calls d next).1.alerts
          ≡ newest n (
              if not a
              then remaining calls all
              else if s
              then remaining calls []
              else remaining calls (all ++ k.alerts)))
run-after n calls rest false s k c d all log next l h e =
    let r = rest d all next (e.2 ∙ l) (e.1 ∙ h) in
    (r.0 ∙ ap (λ z. z ++ batches n calls all) e.0, r.1)
run-after n calls rest true false k c d all log next l h e =
    let r = rest d (all ++ k.alerts) next (e.2 ∙ l) (e.1 ∙ newest_added n k c all l h) in
    (r.0 ∙ ap (λ z. z ++ batches n calls (all ++ k.alerts)) e.0, r.1)
run-after n calls rest true true k c d all log next l h e =
    let r = rest d [] next (e.2 ∙ l) (e.1 ∙ sym (newest-nil n)) in
    (
      r.0
          ∙ ap (λ z. z ++ batches n calls []) e.0
          ∙ append_assoc log (newest (limit_of c) (c.alerts ++ k.alerts) ∷ []) (batches n calls [])
          ∙ ap (λ z. log ++ (z ∷ batches n calls [])) (newest_added n k c all l h),
      r.1,
    )

pub run-batches_from :
    (n : ℕ) (calls : List Call) (c : Checkpointer) (all : List LoggedAlert) (log : Log)
    → limit_of c ≡ n
    → c.alerts ≡ newest n all
    → ((run calls c log).0 ≡ log ++ batches n calls all)
      × ((run calls c log).1.alerts ≡ newest n (remaining calls all))
unfolding run batches remaining
run-batches_from n [] c all log l h = (sym (append-nil log), h)
run-batches_from n (k ∷ calls) c all log l h =
    run-after n calls (run-batches_from n calls) (accepted k) (succeeds k) k c (step k c log).1.0
      all log (step k c log).0 l h (step_lem k c log)

pub run-batches :
    (calls : List Call) (c : Checkpointer)
    → c.alerts ≡ []
    → ((run calls c []).0 ≡ batches (limit_of c) calls [])
      × ((run calls c []).1.alerts ≡ newest (limit_of c) (remaining calls []))
run-batches calls c h =
    run-batches_from (limit_of c) calls c [] [] refl (h ∙ sym (newest-nil (limit_of c)))

-- The alerts of the accepted calls, in order.
unfoldable pub accepted_alerts : List Call → List LoggedAlert
accepted_alerts [] = []
accepted_alerts (k ∷ calls) =
    let rest = accepted_alerts calls in if accepted k then k.alerts ++ rest else rest

abbrev pub flatten {ℓ} : {A : Type ℓ} → List (List A) → List A
flatten [] = []
flatten (xs ∷ rest) = xs ++ flatten rest

complete-after :
    (n : ℕ) (calls : List Call)
    → ((all : List LoggedAlert)
        → length all + length (accepted_alerts calls) ≤ n
        → flatten (batches n calls all) ++ remaining calls all ≡ all ++ accepted_alerts calls)
    → (a s : Bool) (new all : List LoggedAlert)
    → length all + length (if a then new ++ accepted_alerts calls else accepted_alerts calls) ≤ n
    → flatten (
          if not a
          then batches n calls all
          else if s
          then newest n (all ++ new) ∷ batches n calls []
          else batches n calls (all ++ new))
        ++ (if not a
            then remaining calls all
            else if s
            then remaining calls []
            else remaining calls (all ++ new))
      ≡ all ++ (if a then new ++ accepted_alerts calls else accepted_alerts calls)
complete-after n calls rest false s new all h = rest all h
complete-after n calls rest true false new all h =
    rest (all ++ new)
      (omega (arith, h, length-append all new, length-append new (accepted_alerts calls)))
    ∙ append_assoc all new (accepted_alerts calls)
complete-after n calls rest true true new all h =
    append_assoc (newest n (all ++ new)) (flatten (batches n calls [])) (remaining calls [])
    ∙ ap (λ z. newest n (all ++ new) ++ z)
        (rest [] (omega (arith, h, length-append new (accepted_alerts calls))))
    ∙ ap (λ z. z ++ accepted_alerts calls)
        (keep_newest-within n (all ++ new)
          (omega (arith, h, length-append all new, length-append new (accepted_alerts calls))))
    ∙ append_assoc all new (accepted_alerts calls)

batches_complete :
    (n : ℕ) (calls : List Call) (all : List LoggedAlert)
    → length all + length (accepted_alerts calls) ≤ n
    → flatten (batches n calls all) ++ remaining calls all ≡ all ++ accepted_alerts calls
unfolding batches remaining accepted_alerts
batches_complete n [] all h = sym (append-nil all)
batches_complete n (k ∷ calls) all h =
    complete-after n calls (batches_complete n calls) (accepted k) (succeeds k) k.alerts all h

remaining-le :
    (n : ℕ) (calls : List Call)
    → length (accepted_alerts calls) ≤ n
    → length (remaining calls []) ≤ n
remaining-le n calls h =
    let same = ap length (batches_complete n calls [] (omega (arith, h))) in
    omega (arith, h, same, length-append (flatten (batches n calls [])) (remaining calls []))

-- As long as the accepted calls bring no more alerts than the bound, none is lost and none is
-- written twice: the committed batches, in order, then those that are pending, are exactly the
-- alerts of the accepted calls in their order.
pub run-none_lost :
    (calls : List Call) (c : Checkpointer)
    → c.alerts ≡ []
    → length (accepted_alerts calls) ≤ limit_of c
    → flatten (run calls c []).0 ++ (run calls c []).1.alerts ≡ accepted_alerts calls
run-none_lost calls c h fits =
    let n = limit_of c in
    let e = run-batches calls c h in
    ap (λ z. flatten z ++ (run calls c []).1.alerts) e.0
    ∙ ap (λ z. flatten (batches n calls []) ++ z)
        (e.1 ∙ keep_newest-within n (remaining calls []) (remaining-le n calls fits))
    ∙ batches_complete n calls [] (omega (arith, fits))
