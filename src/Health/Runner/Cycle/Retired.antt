-- ===== src/Health/Runner/Cycle/Retired.antt =====
-- The results of the disks check for a retired drive: `dropRetired` of pkg/health/runner/retire.go
-- before `Engine.Apply` of pkg/health/engine.go.
use tgshd.Base.{
  String, List, [], ◌∷◌, Bool, true, false, not, ◌&&◌, ◌≡◌, ◌≢◌, refl, sym, ap, ◌∙◌, arith, Option,
  none, some, any, ◌==◌, text_eq, eq_iff, if◌then◌else◌, lookup, delete, lookup-insert_ne,
  lookup-delete_ne, select, All, All-append, starts_with, Bool-cases, inl, inr,
}
use Prim.Native.String.{◌++◌ as join_text}
use tgshd.Health.Types.{
  Time, Duration, Verdict, unknown, good, bad, Kind, state, event, Reading, Alert, Condition,
}
use tgshd.Health.Engine.{
  Engine, apply, apply_one, apply_kind, apply_verdict, apply_bad, apply_good, judge_bad, problem_of,
  resolved_of,
}
use tgshd.Health.Store.{Baseline}
use tgshd.Health.Runner.Cycle.Apply.{is_retired_key, drop_retired}

-- Nothing happens to a key: its condition is what it was, and no alert is of it.
abbrev pub IsUntouched : String → Engine → Engine × List Alert → Type 0
IsUntouched k e (e', alerts) = (lookup k e' ≡ lookup k e) × All (λ a. a.key == k ≡ false) alerts

differs : (a b : String) → a == b ≡ false → a ≢ b
differs a b h e = absurd (ground (arith, h, (eq_iff a b).1 e))

when-IsUntouched :
    (b : Bool) (k : String) (a : Alert)
    → a.key == k ≡ false
    → All (λ x. x.key == k ≡ false) (if b then a ∷ [] else [])
when-IsUntouched true k a h = (h, tt)
when-IsUntouched false k a h = tt

found-IsUntouched :
    (k check : String) (r : Reading) (e : Engine) (found : Option Condition)
    → r.key == k ≡ false
    → IsUntouched k e (elim found [
      | none ↦ (e, [])
      | some c ↦ (delete r.key e, if c.is_open then resolved_of check r c ∷ [] else [])
    ])
found-IsUntouched k check r e none h = (refl, tt)
found-IsUntouched k check r e (some c) h = (
  lookup-delete_ne r.key k e (differs r.key k h),
  when-IsUntouched c.is_open k (resolved_of check r c) h,
)

good-IsUntouched :
    (k check : String) (r : Reading) (e : Engine)
    → r.key == k ≡ false
    → IsUntouched k e (apply_good check r e)
unfolding apply_good
good-IsUntouched k check r e h = found-IsUntouched k check r e (lookup r.key e) h

module _ (now : Time) (check : String) (interval threshold : Duration) where
  bad-IsUntouched :
      (k : String) (r : Reading) (e : Engine)
      → r.key == k ≡ false
      → IsUntouched k e (apply_bad now check interval threshold r e)
  unfolding apply_bad
  bad-IsUntouched k r e h =
      let judged = judge_bad now check interval threshold r (lookup r.key e) in
      (
        lookup-insert_ne r.key k judged.0 e (differs r.key k h),
        when-IsUntouched judged.1 k (problem_of check r judged.0) h,
      )

  verdict-IsUntouched :
      (v : Verdict) (k : String) (r : Reading) (e : Engine)
      → r.key == k ≡ false
      → IsUntouched k e (apply_verdict now check interval threshold r v e)
  unfolding apply_verdict
  verdict-IsUntouched unknown k r e h = (refl, tt)
  verdict-IsUntouched good k r e h = good-IsUntouched k check r e h
  verdict-IsUntouched bad k r e h = bad-IsUntouched k r e h

  kind-IsUntouched :
      (kind : Kind) (k : String) (r : Reading) (e : Engine)
      → r.key == k ≡ false
      → IsUntouched k e (apply_kind now check interval threshold r kind e)
  unfolding apply_kind
  kind-IsUntouched state k r e h = verdict-IsUntouched r.verdict k r e h
  kind-IsUntouched event k r e h = (refl, (h, tt))

  apply-IsUntouched :
      (k : String) (rs : List Reading) (e : Engine)
      → All (λ r. r.key == k ≡ false) rs
      → IsUntouched k e (apply now check interval threshold rs e)
  unfolding apply apply_one
  apply-IsUntouched k [] e h = (refl, tt)
  apply-IsUntouched k (r ∷ rs) e h =
      let one = apply_kind now check interval threshold r r.kind e in
      let first = kind-IsUntouched r.kind k r e h.0 in
      let rest = apply-IsUntouched k rs one.0 h.1 in
      (
        rest.0 ∙ first.0,
        All-append (λ a. a.key == k ≡ false) one.1 (apply now check interval threshold rs one.0).1
            first.1 rest.1,
      )

-- A key of a retired drive.
abbrev pub is_of_retired : List Baseline → String → Bool
is_of_retired bases k =
    any (λ b. b.retired && starts_with k (join_text "disks/" (join_text b.serial "/"))) bases

other_key :
    (bases : List Baseline) (a k : String)
    → is_of_retired bases k ≡ true
    → is_of_retired bases a ≡ false
    → a == k ≡ false
other_key bases a k h e = elim (Bool-cases (a == k)) [
  | inl s ↦ absurd (apart (sym (ap (is_of_retired bases) ((eq_iff a k).0 s) ∙ h) ∙ e))
  | inr s ↦ s
]
  where
    apart : true ≢ false
    apart q = cc

dropped_keys :
    (bases : List Baseline) (k : String) (rs : List Reading)
    → is_of_retired bases k ≡ true
    → All (λ r. r.key == k ≡ false) (select (λ r. not (is_of_retired bases r.key)) rs)
dropped_keys bases k [] h = tt
dropped_keys bases k (r ∷ rs) h = elim (Bool-cases (is_of_retired bases r.key)) [
  | inl e ↦ rw e (dropped_keys bases k rs h)
  | inr e ↦ rw e (other_key bases r.key k h e, dropped_keys bases k rs h)
]

-- Whatever readings a run of the disks check still brings for a retired drive, they recreate no
-- condition of the drive, change none and raise no alert of it.
pub apply-drop_retired :
    (now : Time) (interval threshold : Duration) (bases : List Baseline) (rs : List Reading)
    (e : Engine) (k : String)
    → is_of_retired bases k ≡ true
    → IsUntouched k e (apply now "disks" interval threshold (drop_retired "disks" bases rs) e)
unfolding drop_retired is_retired_key
apply-drop_retired now interval threshold bases rs e k h =
    apply-IsUntouched now "disks" interval threshold k
      (select (λ r. not (is_of_retired bases r.key)) rs) e (dropped_keys bases k rs h)
