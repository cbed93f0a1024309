-- ===== src/Health/Engine/Alternation.antt =====
-- The alerts of one condition over any runs of checks: `Engine.Apply` of pkg/health/engine.go
-- against the life of a problem that is raised and resolved in turn.
use tgshd.Base.{
  String, List, [], ◌∷◌, ◌++◌, Bool, true, false, ◌≡◌, refl, ◌∙◌, Option, none, some, ◌⊎◌, arith,
  text_eq, ◌==◌, if◌then◌else◌, lookup, lookup-insert, lookup-delete, eq_iff,
}
use tgshd.Health.Types.{
  Time, Duration, Verdict, unknown, good, bad, Kind, state, event, Reading, AlertKind,
  alert_problem, alert_resolved, alert_event, Alert, Condition,
}
use tgshd.Health.Engine.{
  Engine, judge_bad, apply_bad, apply_good, apply_verdict, apply_kind, apply_one, apply,
}

-- Whether a problem has been raised for the key and not resolved.
abbrev open_of : Option Condition → Bool
open_of none = false
open_of (some c) = c.is_open

abbrev pub is_open_at : String → Engine → Bool
is_open_at k e = open_of (lookup k e)

-- What a reader of the alerts knows: a PROBLEM opens, a RESOLVED closes, and each is refused
-- where it is out of turn.
unfoldable pub react_kind : AlertKind → Bool → Option Bool
react_kind alert_event o = some o
react_kind alert_problem true = none
react_kind alert_problem false = some true
react_kind alert_resolved true = some false
react_kind alert_resolved false = none

unfoldable pub replay : String → Bool → List Alert → Option Bool
unfolding react_kind
replay k o [] = some o
replay k o (a ∷ rest) = elim (if a.key == k then react_kind a.kind o else some o) [
  | none ↦ none
  | some o' ↦ replay k o' rest
]

replay-append :
    (k : String) (o o' : Bool) (xs ys : List Alert)
    → replay k o xs ≡ some o'
    → replay k o (xs ++ ys) ≡ replay k o' ys
unfolding replay
replay-append k o o' [] ys h = ground arith
replay-append k o o' (x ∷ xs) ys h = ground (
  arith,
  replay-append k o o' xs ys,
  replay-append k true o' xs ys,
  replay-append k false o' xs ys,
)

-- A PROBLEM is raised just when the condition turns open.
judge_bad_opens :
    (now : Time) (check : String) (interval threshold : Duration) (r : Reading)
    (tracked : Option Condition)
    → let (c, raised) = judge_bad now check interval threshold r tracked in
      ((raised ≡ true) × (open_of tracked ≡ false) × (c.is_open ≡ true))
      ⊎ ((raised ≡ false) × (c.is_open ≡ open_of tracked))
unfolding judge_bad
judge_bad_opens now check interval threshold r none = ground arith
judge_bad_opens now check interval threshold r (some c) = ground arith

replay-apply_bad :
    (now : Time) (check : String) (interval threshold : Duration) (r : Reading) (e : Engine)
    (k : String)
    → let (e', out) = apply_bad now check interval threshold r e in
      replay k (is_open_at k e) out ≡ some (is_open_at k e')
unfolding apply_bad replay
replay-apply_bad now check interval threshold r e k = ground (
  arith,
  eq_iff r.key k,
  judge_bad_opens now check interval threshold r (lookup r.key e),
  lookup-insert r.key k (judge_bad now check interval threshold r (lookup r.key e)).0 e,
)

replay-apply_good :
    (check : String) (r : Reading) (e : Engine) (k : String)
    → let (e', out) = apply_good check r e in replay k (is_open_at k e) out ≡ some (is_open_at k e')
unfolding apply_good replay
replay-apply_good check r e k = ground (arith, eq_iff r.key k, lookup-delete r.key k e)

replay-apply_kind :
    (now : Time) (check : String) (interval threshold : Duration) (r : Reading) (d : Kind)
    (v : Verdict) (e : Engine) (k : String)
    → r.verdict ≡ v
    → let (e', out) = apply_kind now check interval threshold r d e in
      replay k (is_open_at k e) out ≡ some (is_open_at k e')
unfolding apply_kind replay
replay-apply_kind now check interval threshold r event v e k h = ground arith
replay-apply_kind now check interval threshold r state unknown e k h = rw (h, apply_verdict)
replay-apply_kind now check interval threshold r state good e k h =
    rw (h, apply_verdict) (replay-apply_good check r e k)
replay-apply_kind now check interval threshold r state bad e k h =
    rw (h, apply_verdict) (replay-apply_bad now check interval threshold r e k)

-- For each key the alerts of one call of `Apply` alternate, PROBLEM first if no problem was open
-- before and RESOLVED first if one was, and the last of them tells whether one is open after.
pub apply-alternates :
    (now : Time) (check : String) (interval threshold : Duration) (rs : List Reading) (e : Engine)
    (k : String)
    → let (e', out) = apply now check interval threshold rs e in
      replay k (is_open_at k e) out ≡ some (is_open_at k e')
unfolding apply replay
apply-alternates now check interval threshold [] e k = refl
apply-alternates now check interval threshold (r ∷ rs) e k =
    let (e1, out) = apply_one now check interval threshold r e in
    replay-append k (is_open_at k e) (is_open_at k e1) out _ (
      unfold apply_one in
      replay-apply_kind now check interval threshold r r.kind r.verdict e k refl)
    ∙ apply-alternates now check interval threshold rs e1 k
