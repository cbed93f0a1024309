-- ===== src/Health/Runner/Cycle/Results.antt =====
-- The results of checks in the cycle and the engine, and dropped messages
-- (pkg/health/runner/runner.go).
use tgshd.Base.{
  ◌+◌, ◌≤◌, ◌<◌, ◌*◌, ◌/◌, String, List, [], ◌∷◌, ◌++◌, Bool, true, false, not, ◌&&◌, ◌≡◌, ◌⊎◌, inl,
  inr, refl, sym, ap, subst, ◌∙◌, arith, some, leb, lookup, insert, length, select, length-append,
  if◌then◌else◌, Bool-cases, lookup-insert_self, eq_iff, text_eq, min,
}
use Prim.Native.String.{◌++◌ as join_text}
use tgshd.Health.Types.{
  Time, Duration, Verdict, unknown, good, bad, Kind, state, event, Reading, Condition,
}
use tgshd.Health.Engine.{
  Engine, condition, reopen, apply_one, apply_kind, apply_verdict, apply_bad, judge_bad, streak,
  problem_of,
}
use tgshd.Health.Engine as HealthEngine
use tgshd.Health.CheckErrors.{GoError, split_errors}
use tgshd.Health.CheckErrors.Leaves.{leaves, is_check, split_errors-leaves}
use tgshd.Health.Notify.{QueuedMessage}
use tgshd.Health.Notify.Undelivered.{UndeliveredProblem, Undelivered, add}
use tgshd.Health.Runner.Cycle.{
  Cycle, run_error, fail_check, fail_each, fail_plain, fail_err, is_state, is_unknown, raised_key,
}
use tgshd.Health.Runner.Cycle.Apply.{drop_problem, dropped, second}

module _ (error_text : GoError → String) (join_errors : List GoError → String) where
  length-fail_check :
      (check key text : String) (c : Cycle)
      → length (fail_check check key text c).errs ≡ length c.errs + 1
  unfolding fail_check
  length-fail_check check key text c =
      omega (arith, length-append c.errs (record { check = check; key = key; text = text } ∷ []))

  length-fail_each :
      (check : String) (errors : List GoError) (c : Cycle)
      → length (fail_each error_text join_errors check errors c).errs
        ≡ length c.errs + length errors
  unfolding fail_each fail_check
  length-fail_each check [] c = omega arith
  length-fail_each check (e ∷ errors) c =
      let next = fail_check check (raised_key error_text join_errors check e) (error_text e) c in
      omega (
        arith,
        length-fail_each check errors next,
        length-fail_check check (raised_key error_text join_errors check e) (error_text e) c,
      )

  length-fail_plain :
      (check : String) (errors : List GoError) (c : Cycle)
      → length (fail_plain error_text join_errors check errors c).errs
        ≡ length c.errs + min 1 (length errors)
  unfolding fail_plain
  length-fail_plain check [] c = omega arith
  length-fail_plain check (e ∷ errors) c =
      omega
        (arith, length-fail_check check (join_text check "/run/error") (join_errors (e ∷ errors)) c)

  -- A failed run raises one checker error for each CheckError in its error tree, and one more when
  -- there are plain errors: nothing of a failed run stays silent.
  pub fail_err-raises :
      (check : String) (e : GoError) (c : Cycle)
      → length (fail_err error_text join_errors check (run_error e) c).errs
        ≡ length c.errs + length (select is_check (leaves e)) + min 1 (length (split_errors e).1)
  unfolding fail_err
  fail_err-raises check e c =
      let r = split_errors e in
      omega (
        arith,
        length-fail_plain check r.1 (fail_each error_text join_errors check r.0 c),
        length-fail_each check r.0 c,
        ap length (split_errors-leaves e).0,
      )

module _ (now : Time) (check : String) (interval threshold : Duration) where
  verdict-is_unknown :
      (v : Verdict) (r : Reading) (e : Engine)
      → is_unknown v ≡ true
      → apply_verdict now check interval threshold r v e ≡ (e, [])
  unfolding apply_verdict
  verdict-is_unknown unknown r e h = refl
  verdict-is_unknown good r e h = cc
  verdict-is_unknown bad r e h = cc

  kind-unreadable :
      (k : Kind) (r : Reading) (e : Engine)
      → is_state k && is_unknown r.verdict ≡ true
      → apply_kind now check interval threshold r k e ≡ (e, [])
  unfolding apply_kind
  kind-unreadable state r e h = verdict-is_unknown r.verdict r e h
  kind-unreadable event r e h = cc

  abbrev pub readable : Reading → Bool
  readable r = not (is_state r.kind && is_unknown r.verdict)

  -- Readings that could not be read change no condition and raise no alert: the engine does with a
  -- run's readings what it does with the others alone.
  pub apply-unreadable :
      (rs : List Reading) (e : Engine)
      → HealthEngine.apply now check interval threshold rs e
        ≡ HealthEngine.apply now check interval threshold (select readable rs) e
  unfolding HealthEngine.apply apply_one
  apply-unreadable [] e = refl
  apply-unreadable (r ∷ rs) e = elim (Bool-cases (is_state r.kind && is_unknown r.verdict)) [
    | inl h ↦ rw (h, kind-unreadable r.kind r e h) (apply-unreadable rs e)
    | inr h ↦ rw h (
        ap (λ q. (q.0, (apply_kind now check interval threshold r r.kind e).1 ++ q.1))
          (apply-unreadable rs (apply_kind now check interval threshold r r.kind e).0))
  ]

-- The condition of a key can raise a PROBLEM at its next Bad reading.
abbrev pub IsRaisable : String → Duration → Engine → Type 0
IsRaisable key threshold e =
    (c : Condition) × (lookup key e ≡ some c) × (c.is_open ≡ false) × (threshold ≤ c.bad_for)

abbrev reopen_if : Bool → Engine → Engine → Engine × Bool
reopen_if b x y = if b then (x, true) else (y, false)

reopen_found :
    (key : String) (c : Condition) (e : Engine)
    → lookup key e ≡ some c
    → reopen key e
      ≡ reopen_if c.is_open (insert key (record c { is_open = false; opened_at = 0 }) e) e
unfolding reopen
reopen_found key c e found = rw (found, reopen) refl

opened : (b : Bool) (x y : Engine) → (reopen_if b x y).1 ≡ true → b ≡ true
opened true x y h = refl
opened false x y h = cc

reopen-IsRaisable :
    (key : String) (threshold : Duration) (c : Condition) (e : Engine)
    → threshold ≤ c.bad_for
    → lookup key e ≡ some c
    → (reopen key e).1 ≡ true
    → IsRaisable key threshold (reopen key e).0
reopen-IsRaisable key threshold c e h found r =
    let found_as = reopen_found key c e found in
    let closed : Condition = record c { is_open = false; opened_at = 0 } in
    let is_open = opened c.is_open (insert key closed e) e (sym (ap (λ p. p.1) found_as) ∙ r) in
    (
      closed,
      ap (λ p. lookup key p.0) found_as
          ∙ ap (λ b. lookup key (reopen_if b (insert key closed e) e).0) is_open
          ∙ lookup-insert_self key closed e,
      refl,
      h,
    )

judge_bad_raises :
    (now : Time) (check : String) (interval threshold : Duration) (r : Reading) (c : Condition)
    → c.is_open ≡ false
    → threshold ≤ c.bad_for
    → (judge_bad now check interval threshold r (some c)).1 ≡ true
unfolding judge_bad streak
judge_bad_raises now check interval threshold r c closed h = ground (arith, closed, h)

IsRaisable-raises :
    (now : Time) (check : String) (interval threshold : Duration) (r : Reading) (e : Engine)
    → IsRaisable r.key threshold e
    → length (apply_bad now check interval threshold r e).1 ≡ 1
unfolding apply_bad
IsRaisable-raises now check interval threshold r e (c, found, closed, h) =
    ap
      (λ o. length (
        if (judge_bad now check interval threshold r o).1
        then problem_of check r (judge_bad now check interval threshold r o).0 ∷ []
        else []))
      found
    ∙ ap
        (λ b. length (
          if b
          then problem_of check r (judge_bad now check interval threshold r (some c)).0 ∷ []
          else []))
        (judge_bad_raises now check interval threshold r c closed h)

abbrev drop_if :
    Bool → QueuedMessage → UndeliveredProblem → Engine → Undelivered → Engine × Undelivered
drop_if b m p e u = if b then ((reopen m.key e).0, u) else (e, add p u)

dropped_is :
    (m : QueuedMessage) (p : UndeliveredProblem) (e : Engine) (u : Undelivered) (c : Condition)
    → m.kind ≡ "problem"
    → lookup m.key e ≡ some c
    → dropped m p e u
      ≡ drop_if (leb (c.streak_start / second * second) m.created_at && (reopen m.key e).1) m p e u
unfolding dropped drop_problem
dropped_is m p e u c k found = rw ((eq_iff m.kind "problem").1 k, found) refl

both_of : (a b : Bool) → a && b ≡ true → (a ≡ true) × (b ≡ true)
both_of true b h = (refl, h)
both_of false b h = cc

reopen_if-second : (b : Bool) (x y : Engine) → (reopen_if b x y).1 ≡ b
reopen_if-second true x y = refl
reopen_if-second false x y = refl

-- Why a condition is not reopened.
not_again : (a b is_open : Bool) → b ≡ is_open → a && b ≡ false → (is_open ≡ false) ⊎ (a ≡ false)
not_again a b is_open h k = ground (arith, h, k)

-- A dropped PROBLEM whose condition is tracked with a streak past the threshold. Either the condition
-- is open and the message is not older than its streak, whose start counts in whole seconds: then
-- nothing is listed, and the next Bad reading of the key raises the PROBLEM again. Or the condition is
-- not open, or the message is of an earlier streak: then the PROBLEM is added to the undelivered list,
-- and the engine is as it was.
pub dropped_lem :
    (m : QueuedMessage) (p : UndeliveredProblem) (e : Engine) (u : Undelivered) (c : Condition)
    (now : Time) (check : String) (interval threshold : Duration) (r : Reading)
    → m.kind ≡ "problem"
    → r.key ≡ m.key
    → lookup m.key e ≡ some c
    → threshold ≤ c.bad_for
    → let streak_start = c.streak_start / second * second in
      ((c.is_open ≡ true)
        × (streak_start ≤ m.created_at)
        × ((dropped m p e u).1 ≡ u)
        × (length (apply_bad now check interval threshold r (dropped m p e u).0).1 ≡ 1))
      ⊎ (((c.is_open ≡ false) ⊎ (m.created_at < streak_start)) × (dropped m p e u ≡ (e, add p u)))
dropped_lem m p e u c now check interval threshold r k same found h =
    let current = leb (c.streak_start / second * second) m.created_at in
    let is = dropped_is m p e u c k found in
    let found_as = reopen_found m.key c e found in
    let closed : Condition = record c { is_open = false; opened_at = 0 } in
    let reopened : (reopen m.key e).1 ≡ c.is_open =
      ap (λ q. q.1) found_as ∙ reopen_if-second c.is_open (insert m.key closed e) e in
    elim (Bool-cases (current && (reopen m.key e).1)) [
      | inl t ↦
          let now_is = is ∙ ap (λ b. drop_if b m p e u) t in
          let why = both_of current (reopen m.key e).1 t in
          inl (
            sym reopened ∙ why.1,
            ground (arith, why.0),
            ap (λ q. q.1) now_is,
            ap (λ q. length (apply_bad now check interval threshold r q.0).1) now_is
                ∙ IsRaisable-raises now check interval threshold r (reopen m.key e).0 (
                    subst (λ key. IsRaisable key threshold (reopen m.key e).0) (sym same)
                      (reopen-IsRaisable m.key threshold c e h found why.1)),
          )
      | inr f ↦ inr (
        elim (not_again current (reopen m.key e).1 c.is_open reopened f) [
          | inl o ↦ inl o
          | inr o ↦ inr (ground (arith, o))
        ],
        is ∙ ap (λ b. drop_if b m p e u) f,
      )
    ]
