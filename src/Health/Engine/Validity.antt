-- ===== src/Health/Engine/Validity.antt =====
-- The map of the engine under the operations of pkg/health/engine.go.
use tgshd.Base.{
  String, List, [], ◌∷◌, Bool, not, ◌≡◌, refl, Option, none, some, inl, inr, arith, text_eq, lookup,
  insert, delete, insert-IsKeyed, delete-IsKeyed, Bool-cases, Option-cases, eq_iff, select, IsKeyed,
}
use tgshd.Health.Types.{
  Time, Duration, Verdict, unknown, good, bad, Kind, state, event, Reading, Condition,
}
use tgshd.Health.Engine.{
  Engine, judge_bad, streak, apply_bad, apply_good, apply_verdict, apply_kind, apply_one, apply,
  clear, has_prefix, clear_prefix, reopen, restore_onto, restore, merge,
}

-- Each condition stands under its own key.
abbrev pub OwnKeys : Engine → Type 0
OwnKeys [] = Unit
OwnKeys ((k, c) ∷ m) = (c.key ≡ k) × OwnKeys m

-- The engine's map: each key once, each condition under its own key.
pub record IsValid (e : Engine) : Type 0 where
  pub keyed : IsKeyed e
  pub own : OwnKeys e

insert-OwnKeys :
    (k : String) (c : Condition) (e : Engine) → c.key ≡ k → OwnKeys e → OwnKeys (insert k c e)
unfolding insert
insert-OwnKeys k c [] h o = (h, tt)
insert-OwnKeys k c ((j, d) ∷ e) h o = ground (arith, eq_iff j k, insert-OwnKeys k c e h o.1)

delete-OwnKeys : (k : String) (e : Engine) → OwnKeys e → OwnKeys (delete k e)
unfolding delete
delete-OwnKeys k [] o = tt
delete-OwnKeys k ((j, d) ∷ e) o = ground (arith, delete-OwnKeys k e o.1)

own_key_of : (k : String) (c : Condition) (e : Engine) → OwnKeys e → lookup k e ≡ some c → c.key ≡ k
unfolding lookup
own_key_of k c [] o h = cc
own_key_of k c ((j, d) ∷ e) o h = ground (arith, eq_iff j k, own_key_of k c e o.1)

insert-IsValid :
    (k : String) (c : Condition) (e : Engine) → c.key ≡ k → IsValid e → IsValid (insert k c e)
insert-IsValid k c e h v = record {
  keyed = insert-IsKeyed k c e v.keyed;
  own = insert-OwnKeys k c e h v.own;
}

delete-IsValid : (k : String) (e : Engine) → IsValid e → IsValid (delete k e)
delete-IsValid k e v = record { keyed = delete-IsKeyed k e v.keyed; own = delete-OwnKeys k e v.own }

judge_bad_key :
    (now : Time) (check : String) (interval threshold : Duration) (r : Reading) (e : Engine)
    (tracked : Option Condition)
    → OwnKeys e
    → lookup r.key e ≡ tracked
    → (judge_bad now check interval threshold r tracked).0.key ≡ r.key
unfolding judge_bad streak
judge_bad_key now check interval threshold r e none o h = ground arith
judge_bad_key now check interval threshold r e (some c) o h =
    ground (arith, own_key_of r.key c e o h)

apply_bad-IsValid :
    (now : Time) (check : String) (interval threshold : Duration) (r : Reading) (e : Engine)
    → IsValid e
    → IsValid (apply_bad now check interval threshold r e).0
unfolding apply_bad
apply_bad-IsValid now check interval threshold r e v =
    insert-IsValid r.key _ e (judge_bad_key now check interval threshold r e _ v.own refl) v

apply_good-IsValid :
    (check : String) (r : Reading) (e : Engine) → IsValid e → IsValid (apply_good check r e).0
unfolding apply_good
apply_good-IsValid check r e v = elim (Option-cases (lookup r.key e)) [
  | inl h ↦ rw (h, apply_good) v
  | inr (c, h) ↦ rw (h, apply_good) (delete-IsValid r.key e v)
]

apply_kind-IsValid :
    (now : Time) (check : String) (interval threshold : Duration) (r : Reading) (d : Kind)
    (w : Verdict) (e : Engine)
    → r.verdict ≡ w
    → IsValid e
    → IsValid (apply_kind now check interval threshold r d e).0
unfolding apply_kind
apply_kind-IsValid now check interval threshold r event w e h v = v
apply_kind-IsValid now check interval threshold r state unknown e h v = rw (h, apply_verdict) v
apply_kind-IsValid now check interval threshold r state good e h v =
    rw (h, apply_verdict) (apply_good-IsValid check r e v)
apply_kind-IsValid now check interval threshold r state bad e h v =
    rw (h, apply_verdict) (apply_bad-IsValid now check interval threshold r e v)

pub apply-IsValid :
    (now : Time) (check : String) (interval threshold : Duration) (rs : List Reading) (e : Engine)
    → IsValid e
    → IsValid (apply now check interval threshold rs e).0
unfolding apply apply_one
apply-IsValid now check interval threshold [] e v = v
apply-IsValid now check interval threshold (r ∷ rs) e v =
    apply-IsValid now check interval threshold rs _
      (apply_kind-IsValid now check interval threshold r r.kind r.verdict e refl v)

reopen-IsValid : (k : String) (e : Engine) → IsValid e → IsValid (reopen k e).0
unfolding reopen
reopen-IsValid k e v = elim (Option-cases (lookup k e)) [
  | inl h ↦ rw (h, reopen) v
  | inr (c, h) ↦ elim (Bool-cases c.is_open) [
    | inl o ↦ rw (h, reopen, o) (insert-IsValid k _ e (own_key_of k c e v.own h) v)
    | inr o ↦ rw (h, reopen, o) v
  ]
]

restore_onto-IsValid : (cs : List Condition) (e : Engine) → IsValid e → IsValid (restore_onto cs e)
unfolding restore_onto
restore_onto-IsValid [] e v = v
restore_onto-IsValid (c ∷ cs) e v = restore_onto-IsValid cs _ (insert-IsValid c.key c e refl v)

-- Whatever was stored, the restored engine is well formed.
pub restore-IsValid : (cs : List Condition) → IsValid (restore cs)
unfolding restore
restore-IsValid cs = restore_onto-IsValid cs [] (record { keyed = tt; own = tt })

pub merge-IsValid : (cs : List Condition) (e : Engine) → IsValid e → IsValid (merge cs e)
unfolding merge
merge-IsValid [] e v = v
merge-IsValid (c ∷ cs) e v = elim (Option-cases (lookup c.key e)) [
  | inl h ↦ rw (h, merge) (merge-IsValid cs _ (insert-IsValid c.key c e refl v))
  | inr (d, h) ↦ rw (h, merge) (merge-IsValid cs e v)
]

select-lookup-none :
    (p : String × Condition → Bool) (k : String) (e : Engine)
    → lookup k e ≡ none
    → lookup k (select p e) ≡ none
unfolding lookup
select-lookup-none p k [] h = refl
select-lookup-none p k ((j, c) ∷ e) h = ground (arith, eq_iff j k, select-lookup-none p k e)

select-IsKeyed : (p : String × Condition → Bool) (e : Engine) → IsKeyed e → IsKeyed (select p e)
select-IsKeyed p [] h = tt
select-IsKeyed p ((j, c) ∷ e) h =
    ground (arith, select-lookup-none p j e h.0, select-IsKeyed p e h.1)

select-OwnKeys : (p : String × Condition → Bool) (e : Engine) → OwnKeys e → OwnKeys (select p e)
select-OwnKeys p [] o = tt
select-OwnKeys p ((j, c) ∷ e) o = ground (arith, select-OwnKeys p e o.1)

-- The calls that change an engine.
pub data Call : Type 0 where
  applies : Time → String → Duration → Duration → List Reading → Call
  clears clears_prefix reopens : String → Call
  restores merges : List Condition → Call

pub step : Engine → Call → Engine
step e (applies now check interval threshold rs) = (apply now check interval threshold rs e).0
step e (clears k) = (clear k e).0
step e (clears_prefix p) = (clear_prefix p e).0
step e (reopens k) = (reopen k e).0
step e (restores cs) = restore cs
step e (merges cs) = merge cs e

-- Every call keeps each key once in the map and each condition under its own key.
pub step-IsValid : (e : Engine) (call : Call) → IsValid e → IsValid (step e call)
unfolding step clear clear_prefix
step-IsValid e (applies now check interval threshold rs) v =
    apply-IsValid now check interval threshold rs e v
step-IsValid e (clears k) v = delete-IsValid k e v
step-IsValid e (clears_prefix p) v = record {
  keyed = select-IsKeyed (λ q. not (has_prefix p q)) e v.keyed;
  own = select-OwnKeys (λ q. not (has_prefix p q)) e v.own;
}
step-IsValid e (reopens k) v = reopen-IsValid k e v
step-IsValid e (restores cs) v = restore-IsValid cs
step-IsValid e (merges cs) v = merge-IsValid cs e v
