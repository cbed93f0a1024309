-- ===== src/Health/Engine/Streaks.antt =====
-- How a bad streak counts observed time: `Engine.bad` of pkg/health/engine.go over the readings
-- of one condition.
use tgshd.Base.{
  ◌+◌, ◌*◌, ◌≤◌, ◌<◌, String, List, [], ◌∷◌, true, false, ◌≡◌, refl, ◌∙◌, Option, none, some, arith,
  ◌++◌, ◌≢◌, text_eq, leb, lookup, insert, lookup-insert_self, lookup-insert_ne, length,
}
use tgshd.Health.Types.{Time, Duration, bad, state, Reading, Alert, Condition}
use tgshd.Health.Engine.{
  Engine, gap_cap, streak_start_of, streak, judge_bad, apply_bad, apply_one, apply, problem_of,
  reopen, apply_verdict, apply_kind,
}

-- Bad readings of one condition at the given times, on the condition alone.
unfoldable pub bad_run :
    String → Duration → Duration → Reading → List Time → Option Condition → Option Condition
bad_run check interval threshold r [] c = c
bad_run check interval threshold r (t ∷ ts) c =
    bad_run check interval threshold r ts (some (judge_bad t check interval threshold r c).0)

-- The same readings given to the engine, one run of the check for each time.
unfoldable pub apply_run :
    String → Duration → Duration → Reading → List Time → Engine → Engine × List Alert
apply_run check interval threshold r [] e = (e, [])
apply_run check interval threshold r (t ∷ ts) e =
    let (e1, out) = apply t check interval threshold (r ∷ []) e in
    let (e2, more) = apply_run check interval threshold r ts e1 in (e2, out ++ more)

-- Each time is at most the gap cap after the one before.
abbrev pub Steady : Duration → Time → List Time → Type 0
Steady interval t [] = Unit
Steady interval t (u ∷ us) = (t ≤ u) × (u ≤ t + gap_cap interval) × Steady interval u us

abbrev pub last_of : Time → List Time → Time
last_of t [] = t
last_of t (u ∷ us) = last_of u us

apply-lookup :
    (t : Time) (check : String) (interval threshold : Duration) (r : Reading) (e : Engine)
    → r.kind ≡ state
    → r.verdict ≡ bad
    → lookup r.key (apply t check interval threshold (r ∷ []) e).0
      ≡ some (judge_bad t check interval threshold r (lookup r.key e)).0
unfolding apply apply_one apply_kind apply_bad
apply-lookup t check interval threshold r e hk hv =
    simp (hk, apply_kind, hv, apply_verdict) (lookup-insert_self r.key _ e)

-- The engine's condition after the run is the condition of `bad_run`.
lookup-apply_run :
    (check : String) (interval threshold : Duration) (r : Reading) (ts : List Time) (e : Engine)
    → r.kind ≡ state
    → r.verdict ≡ bad
    → lookup r.key (apply_run check interval threshold r ts e).0
      ≡ bad_run check interval threshold r ts (lookup r.key e)
unfolding apply_run bad_run
lookup-apply_run check interval threshold r [] e hk hv = refl
lookup-apply_run check interval threshold r (t ∷ ts) e hk hv =
    lookup-apply_run check interval threshold r ts _ hk hv
    ∙ rw (apply-lookup t check interval threshold r e hk hv)

-- What a condition holds of a steady streak seen from `first` to `at`, said to begin at `start`.
pub record Streak (start first at : Time) (threshold : Duration) (c : Condition) : Type 0 where
  pub since_start : c.streak_start ≡ start
  pub counted : c.bad_for + first ≡ at
  pub seen_at : c.last_reading_at ≡ at
  pub raised : c.is_open ≡ leb threshold c.bad_for
  pub past : 0 < at

bad_run-Streak :
    (check : String) (interval threshold : Duration) (r : Reading) (start first t : Time)
    (ts : List Time) (c : Condition)
    → Streak start first t threshold c
    → Steady interval t ts
    → (c' : Condition) × (bad_run check interval threshold r ts (some c) ≡ some c')
      × Streak start first (last_of t ts) threshold c'
unfolding bad_run judge_bad streak
bad_run-Streak check interval threshold r start first t [] c s h = (c, refl, s)
bad_run-Streak check interval threshold r start first t (u ∷ us) c s h =
    bad_run-Streak check interval threshold r start first u us
      (judge_bad u check interval threshold r (some c)).0 (ground arith) h.2

-- Bad readings of an untracked condition, each at most 1.5 intervals after the one before: the
-- condition counts exactly the time from the first to the last of them, is open just when that
-- time has reached the threshold, and keeps the start of the streak that the first reading gave.
pub apply_run-Streak :
    (check : String) (interval threshold : Duration) (r : Reading) (first : Time) (ts : List Time)
    (e : Engine)
    → r.kind ≡ state
    → r.verdict ≡ bad
    → lookup r.key e ≡ none
    → 0 < first
    → Steady interval first ts
    → (c : Condition) × (lookup r.key (apply_run check interval threshold r (first ∷ ts) e).0
        ≡ some c)
      × Streak (streak_start_of first r) first (last_of first ts) threshold c
unfolding bad_run judge_bad streak
apply_run-Streak check interval threshold r first ts e hk hv fresh pos steady =
    let (c, ran, s) =
      bad_run-Streak check interval threshold r (streak_start_of first r) first first ts
        (judge_bad first check interval threshold r none).0 (ground arith) steady in
    (c, lookup-apply_run check interval threshold r (first ∷ ts) e hk hv ∙ rw fresh ran, s)

judge_bad_counts :
    (t : Time) (check : String) (interval threshold : Duration) (r : Reading) (c : Condition)
    → (judge_bad t check interval threshold r (some c)).0.bad_for ≤ c.bad_for + gap_cap interval
unfolding judge_bad streak
judge_bad_counts t check interval threshold r c = ground arith

bad_run-bad_for :
    (check : String) (interval threshold : Duration) (r : Reading) (ts : List Time) (c : Condition)
    → (c' : Condition) × (bad_run check interval threshold r ts (some c) ≡ some c')
      × (c'.bad_for ≤ c.bad_for + length ts * gap_cap interval)
unfolding bad_run
bad_run-bad_for check interval threshold r [] c = (c, refl, omega arith)
bad_run-bad_for check interval threshold r (t ∷ ts) c =
    let (c', ran, bound) =
      bad_run-bad_for check interval threshold r ts
        (judge_bad t check interval threshold r (some c)).0 in
    (c', ran, grind (arith, judge_bad_counts t check interval threshold r c, bound))

-- Bad readings at any times, in any order and with any gaps: each adds at most 1.5 intervals to
-- the time counted, so a sum of int64 nanoseconds cannot overflow within
-- 2^63 / (1.5 * interval) readings.
pub apply_run-bad_for :
    (check : String) (interval threshold : Duration) (r : Reading) (ts : List Time) (e : Engine)
    (c : Condition)
    → r.kind ≡ state
    → r.verdict ≡ bad
    → lookup r.key e ≡ some c
    → (c' : Condition) × (lookup r.key (apply_run check interval threshold r ts e).0 ≡ some c')
      × (c'.bad_for ≤ c.bad_for + length ts * gap_cap interval)
apply_run-bad_for check interval threshold r ts e c hk hv tracked =
    let (c', ran, bound) = bad_run-bad_for check interval threshold r ts c in
    (c', lookup-apply_run check interval threshold r ts e hk hv ∙ rw tracked ran, bound)

reopen_open :
    (key : String) (e : Engine) (c : Condition)
    → lookup key e ≡ some c
    → c.is_open ≡ true
    → reopen key e ≡ (insert key (record c { is_open = false; opened_at = 0 }) e, true)
unfolding reopen
reopen_open key e c tracked opened = ground arith

apply_raises :
    (now : Time) (check : String) (interval threshold : Duration) (r : Reading) (e : Engine)
    (c : Condition)
    → r.kind ≡ state
    → r.verdict ≡ bad
    → lookup r.key e ≡ some c
    → c.is_open ≡ false
    → threshold ≤ c.bad_for
    → (apply now check interval threshold (r ∷ []) e).1 ≡ problem_of check r c ∷ []
unfolding apply apply_one apply_kind apply_bad judge_bad streak
apply_raises now check interval threshold r e c hk hv tracked shut long = ground arith

-- A reopened condition keeps its streak: the next Bad reading raises the PROBLEM again at once,
-- with the start that the first one had, and no other condition changes.
pub apply-reopen :
    (now : Time) (check : String) (interval threshold : Duration) (r : Reading) (e : Engine)
    (c : Condition)
    → r.kind ≡ state
    → r.verdict ≡ bad
    → lookup r.key e ≡ some c
    → c.is_open ≡ true
    → threshold ≤ c.bad_for
    → let (e', done) = reopen r.key e in
      (done ≡ true)
      × ((apply now check interval threshold (r ∷ []) e').1 ≡ problem_of check r c ∷ [])
      × ((k : String) → r.key ≢ k → lookup k e' ≡ lookup k e)
apply-reopen now check interval threshold r e c hk hv tracked opened long =
    rw (reopen_open r.key e c tracked opened) (
      refl,
      apply_raises now check interval threshold r _ (record c { is_open = false; opened_at = 0 }) hk
          hv (lookup-insert_self r.key _ e) refl long,
      λ k other. lookup-insert_ne r.key k _ e other,
    )
