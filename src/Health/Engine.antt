-- ===== src/Health/Engine.antt =====
-- The threshold state machine, pkg/health/engine.go. The engine's map of conditions is an
-- association list; each exported method holds the mutex, so it is one step.
pub mod Alternation
pub mod Streaks
pub mod Validity
pub mod Export
pub mod Tests
use tgshd.Base.{
  ℕ, ◌+◌, ◌-◌, ◌*◌, ◌/◌, min, max, String, List, [], ◌∷◌, ◌++◌, map, Bool, true, false, not, ◌&&◌,
  ◌||◌, Option, none, some, ltb, nat_beq, ◌==◌, text_eq, if◌then◌else◌, lookup, insert, delete,
  select, length, starts_with, sort, text_leb,
}
use tgshd.Health.Types.{
  Time, Duration, Verdict, unknown, good, bad, Kind, state, event, Mode, Reading, AlertKind,
  alert_problem, alert_resolved, alert_event, Alert, Condition,
}

abbrev pub Engine : Type 0
Engine = List (String × Condition)

abbrev pub new_engine : Engine
new_engine = []

-- `time.Duration(1.5 * float64(interval))`: exact for intervals below 2^52 ns (52 days).
abbrev pub gap_cap : Duration → Duration
gap_cap interval = interval * 3 / 2

-- The streak starts at the check's own `Since` when that is set and in the past.
unfoldable pub streak_start_of : Time → Reading → Time
streak_start_of now r = if not (nat_beq r.since 0) && ltb r.since now then r.since else now

-- The condition that a Bad reading updates: a fresh one, or the tracked one with the time since
-- its last reading added, at most the gap cap. `now - last` stops at 0, which is the source's
-- `max(elapsed, 0)`.
unfoldable pub streak : Time → String → Duration → Reading → Option Condition → Condition
unfolding streak_start_of
streak now check interval r none = record {
  key = r.key;
  check = check;
  streak_start = streak_start_of now r;
  bad_for = 0;
  last_reading_at = 0;
  last_text = "";
  is_open = false;
  opened_at = 0;
}
streak now check interval r (some c) =
    if nat_beq c.last_reading_at 0
    then c
    else record c { bad_for = c.bad_for + min (now - c.last_reading_at) (gap_cap interval) }

-- `Engine.bad` on the condition: the condition it leaves, and whether a PROBLEM is raised.
unfoldable pub judge_bad :
    Time → String → Duration → Duration → Reading → Option Condition → Condition × Bool
unfolding streak
judge_bad now check interval threshold r tracked =
    let c = streak now check interval r tracked in
    let seen = record c { check = check; last_reading_at = now; last_text = r.text } in
    if seen.is_open || ltb seen.bad_for threshold
    then (seen, false)
    else (record seen { is_open = true; opened_at = now }, true)

abbrev pub problem_of : String → Reading → Condition → Alert
problem_of check r c = record {
  kind = alert_problem;
  check = check;
  key = r.key;
  text = r.text;
  streak_start = c.streak_start;
  mode = r.mode;
}

unfoldable pub apply_bad :
    Time → String → Duration → Duration → Reading → Engine → Engine × List Alert
apply_bad now check interval threshold r e =
    let (c, raised) = judge_bad now check interval threshold r (lookup r.key e) in
    (insert r.key c e, if raised then problem_of check r c ∷ [] else [])

abbrev pub resolved_of : String → Reading → Condition → Alert
resolved_of check r c = record {
  kind = alert_resolved;
  check = check;
  key = r.key;
  text = if r.text == "" then c.last_text else r.text;
  streak_start = c.streak_start;
  mode = r.mode;
}

-- `Engine.good`.
unfoldable pub apply_good : String → Reading → Engine → Engine × List Alert
apply_good check r e = elim (lookup r.key e) [
  | none ↦ (e, [])
  | some c ↦ (delete r.key e, if c.is_open then resolved_of check r c ∷ [] else [])
]

abbrev pub event_of : String → Reading → Alert
event_of check r = record {
  kind = alert_event;
  check = check;
  key = r.key;
  text = r.text;
  streak_start = 0;
  mode = r.mode;
}

-- One round of the loop of `Engine.Apply`.
unfoldable pub apply_verdict :
    Time → String → Duration → Duration → Reading → Verdict → Engine → Engine × List Alert
apply_verdict now check interval threshold r bad e = apply_bad now check interval threshold r e
apply_verdict now check interval threshold r good e = apply_good check r e
apply_verdict now check interval threshold r unknown e = (e, [])

unfoldable pub apply_kind :
    Time → String → Duration → Duration → Reading → Kind → Engine → Engine × List Alert
unfolding apply_verdict
apply_kind now check interval threshold r event e = (e, event_of check r ∷ [])
apply_kind now check interval threshold r state e =
    apply_verdict now check interval threshold r r.verdict e

unfoldable pub apply_one :
    Time → String → Duration → Duration → Reading → Engine → Engine × List Alert
unfolding apply_kind
apply_one now check interval threshold r e = apply_kind now check interval threshold r r.kind e

-- `Engine.Apply`: the alerts in the order of the readings.
unfoldable pub apply :
    Time → String → Duration → Duration → List Reading → Engine → Engine × List Alert
apply now check interval threshold [] e = (e, [])
apply now check interval threshold (r ∷ rs) e =
    let (e1, out) = apply_one now check interval threshold r e in
    let (e2, more) = apply now check interval threshold rs e1 in (e2, out ++ more)

-- `Engine.Clear`.
unfoldable pub clear : String → Engine → Engine × Bool
clear key e = (delete key e, elim (lookup key e) [ none ↦ false | some c ↦ true ])

-- `Engine.ClearPrefix`: the engine, and how many conditions were dropped.
abbrev pub has_prefix : String → String × Condition → Bool
has_prefix prefix (k, c) = starts_with k prefix

unfoldable pub clear_prefix : String → Engine → Engine × ℕ
clear_prefix prefix e =
    (select (λ p. not (has_prefix prefix p)) e, length (select (has_prefix prefix) e))

-- `Engine.Reopen`.
unfoldable pub reopen : String → Engine → Engine × Bool
reopen key e = elim (lookup key e) [
  | none ↦ (e, false)
  | some c ↦
      if c.is_open
      then (insert key (record c { is_open = false; opened_at = 0 }) e, true)
      else (e, false)
]

-- `Engine.Condition`.
abbrev pub condition : String → Engine → Option Condition
condition key e = lookup key e

-- `Engine.Conditions` and `Engine.OpenConditions`, sorted by key.
abbrev pub by_key : Condition → Condition → Bool
by_key a b = text_leb a.key b.key

unfoldable pub conditions : Engine → List Condition
conditions e = sort by_key (map (λ p. p.1) e)

unfoldable pub open_conditions : Engine → List Condition
open_conditions e = select (λ c. c.is_open) (conditions e)

-- `Engine.Restore`: a later condition with the same key wins.
unfoldable pub restore_onto : List Condition → Engine → Engine
restore_onto [] e = e
restore_onto (c ∷ cs) e = restore_onto cs (insert c.key c e)

unfoldable pub restore : List Condition → Engine
unfolding restore_onto
restore cs = restore_onto cs []

-- `Engine.Merge`: a tracked key keeps its state.
unfoldable pub merge : List Condition → Engine → Engine
merge [] e = e
merge (c ∷ cs) e = merge cs (elim (lookup c.key e) [ none ↦ insert c.key c e | some d ↦ e ])
