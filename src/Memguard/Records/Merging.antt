-- ===== src/Memguard/Records/Merging.antt =====
-- Merging two lists of interventions: `MergeRecords` and `Record.Equal` of
-- pkg/health/memguard/episode.go.
use tgshd.Base.{
  ℕ, suc, ◌+◌, List, [], ◌∷◌, ◌++◌, Bool, true, false, not, ◌&&◌, ◌||◌, ◌≡◌, inl, inr, refl, sym,
  ap, subst, ◌∙◌, arith, if◌then◌else◌, nat_beq, any, bytes_beq_iff, Bool-cases, place, sort,
  IsSorted, sort-IsSorted,
}
use tgshd.Health.Types.{Time, Duration}
use tgshd.Memguard.Types.{
  Action, unset, restart, stop, kill, Mode, mode_report, mode_act, mode_off, Intervention,
}
use tgshd.Memguard.Records.{
  action_beq, mode_beq, same_record, within, merge_loop, merge_records, by_time,
}

action_beq_eq : (a b : Action) → action_beq a b ≡ true → a ≡ b
action_beq_eq unset unset e = refl
action_beq_eq restart restart e = refl
action_beq_eq stop stop e = refl
action_beq_eq kill kill e = refl
action_beq_eq unset restart e = cc
action_beq_eq unset stop e = cc
action_beq_eq unset kill e = cc
action_beq_eq restart unset e = cc
action_beq_eq restart stop e = cc
action_beq_eq restart kill e = cc
action_beq_eq stop unset e = cc
action_beq_eq stop restart e = cc
action_beq_eq stop kill e = cc
action_beq_eq kill unset e = cc
action_beq_eq kill restart e = cc
action_beq_eq kill stop e = cc

action_beq_self : (a : Action) → action_beq a a ≡ true
action_beq_self unset = refl
action_beq_self restart = refl
action_beq_self stop = refl
action_beq_self kill = refl

mode_beq_eq : (a b : Mode) → mode_beq a b ≡ true → a ≡ b
mode_beq_eq mode_report mode_report e = refl
mode_beq_eq mode_act mode_act e = refl
mode_beq_eq mode_off mode_off e = refl
mode_beq_eq mode_report mode_act e = cc
mode_beq_eq mode_report mode_off e = cc
mode_beq_eq mode_act mode_report e = cc
mode_beq_eq mode_act mode_off e = cc
mode_beq_eq mode_off mode_report e = cc
mode_beq_eq mode_off mode_act e = cc

mode_beq_self : (a : Mode) → mode_beq a a ≡ true
mode_beq_self mode_report = refl
mode_beq_self mode_act = refl
mode_beq_self mode_off = refl

same_record_eq : (r o : Intervention) → same_record r o ≡ true → r ≡ o
unfolding same_record
same_record_eq r o h = ground (
  arith,
  bytes_beq_iff r.service_id o.service_id,
  bytes_beq_iff r.name o.name,
  action_beq_eq r.action o.action,
  mode_beq_eq r.mode o.mode,
)

same_record_self : (r : Intervention) → same_record r r ≡ true
unfolding same_record
same_record_self r = ground (
  arith,
  bytes_beq_iff r.service_id r.service_id,
  bytes_beq_iff r.name r.name,
  action_beq_self r.action,
  mode_beq_self r.mode,
)

-- How often a record is in a list.
unfoldable pub times : Intervention → List Intervention → ℕ
times x [] = 0
times x (r ∷ rs) = if same_record x r then suc (times x rs) else times x rs

times-place :
    (le : Intervention → Intervention → Bool) (x r : Intervention) (rs : List Intervention)
    → times x (place le r rs) ≡ times x (r ∷ rs)
unfolding times place
times-place le x r [] = refl
times-place le x r (o ∷ os) = ground (arith, times-place le x r os)

times-sort :
    (le : Intervention → Intervention → Bool) (x : Intervention) (rs : List Intervention)
    → times x (sort le rs) ≡ times x rs
unfolding sort times
times-sort le x [] = refl
times-sort le x (r ∷ rs) = ground (arith, times-place le x r (sort le rs), times-sort le x rs)

times-append :
    (x : Intervention) (rs os : List Intervention) → times x (rs ++ os) ≡ times x rs + times x os
unfolding times
times-append x [] os = omega arith
times-append x (r ∷ rs) os = ground (arith, times-append x rs os)

any-times :
    (x : Intervention) (rs : List Intervention)
    → any (same_record x) rs ≡ not (nat_beq (times x rs) 0)
unfolding times
any-times x [] = refl
any-times x (r ∷ rs) = ground (arith, any-times x rs)

-- The count of a record after the loop: unchanged if there was one, or else one if it is to be
-- added.
abbrev seen_once : ℕ → Bool → ℕ
seen_once n due = if nat_beq n 0 then (if due then 1 else 0) else n

abbrev added : Duration → Time → List Intervention → Intervention → List Intervention
added window at merged r =
    if within window at r && not (any (same_record r) merged) then merged ++ r ∷ [] else merged

times-added_self :
    (window : Duration) (at : Time) (merged : List Intervention) (r : Intervention)
    → times r (added window at merged r) ≡ seen_once (times r merged) (within window at r)
unfolding times
times-added_self window at merged r =
    ground (arith, any-times r merged, times-append r merged (r ∷ []), same_record_self r)

times-added_other :
    (window : Duration) (at : Time) (merged : List Intervention) (x r : Intervention)
    → same_record x r ≡ false
    → times x (added window at merged r) ≡ times x merged
unfolding times
times-added_other window at merged x r e = ground (arith, times-append x merged (r ∷ []))

seen_twice : (n : ℕ) (w a : Bool) → seen_once (seen_once n w) (w && a) ≡ seen_once n (w && true)
seen_twice n true a = ground arith
seen_twice n false a = ground arith

times-merge_loop :
    (window : Duration) (at : Time) (x : Intervention) (merged rs : List Intervention)
    → times x (merge_loop window at merged rs)
      ≡ seen_once (times x merged) (within window at x && any (same_record x) rs)
unfolding merge_loop
times-merge_loop window at x merged [] = ground arith
times-merge_loop window at x merged (r ∷ rs) =
    let rest = times-merge_loop window at x (added window at merged r) rs in
    elim (Bool-cases (same_record x r)) [
      | inl e ↦
          let known =
            subst
              (λ y.
                times y (added window at merged r)
                ≡ seen_once (times y merged) (within window at y))
              (sym (same_record_eq x r e)) (times-added_self window at merged r) in
          rest
          ∙ ap (λ n. seen_once n (within window at x && any (same_record x) rs)) known
          ∙ rw e (seen_twice (times x merged) (within window at x) (any (same_record x) rs))
      | inr e ↦ rest ∙ rw (e, times-added_other window at merged x r e) refl
    ]

any-append :
    (p : Intervention → Bool) (rs os : List Intervention)
    → any p (rs ++ os) ≡ (any p rs || any p os)
any-append p [] os = refl
any-append p (r ∷ rs) os = ground (arith, any-append p rs os)

by_time_total : (a b : Intervention) → by_time a b ≡ false → by_time b a ≡ true
by_time_total a b h = ground arith

-- A merge is in the order of time and holds each intervention of either list that is within the
-- window once, however often the lists hold it, and no other.
pub merge_records_lem :
    (window : Duration) (at : Time) (own more : List Intervention)
    → let merged = merge_records window at own more in
      IsSorted by_time merged
      × ((x : Intervention)
          → times x merged ≡ (
              if within window at x && (any (same_record x) own || any (same_record x) more)
              then 1
              else 0))
unfolding merge_records times
merge_records_lem window at own more = (
  sort-IsSorted by_time by_time_total (merge_loop window at [] (own ++ more)),
  λ x.
      times-sort by_time x (merge_loop window at [] (own ++ more))
      ∙ times-merge_loop window at x [] (own ++ more)
      ∙ rw (any-append (same_record x) own more) refl,
)
