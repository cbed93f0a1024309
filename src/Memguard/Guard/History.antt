-- ===== src/Memguard/Guard/History.antt =====
-- What a sample does to the history of its service: `Guard.ObserveServices` of
-- pkg/health/memguard/guard.go for one sample.
use tgshd.Base.{
  ℕ, zero, suc, List, [], ◌∷◌, Bool, true, false, ◌≡◌, ◌⊎◌, inl, inr, refl, sym, ap, ◌∙◌, Option,
  none, some, arith, if◌then◌else◌, Bytes, bytes_beq, take, length, length-replicate, Bool-cases,
}
use tgshd.Health.Types.{Time}
use tgshd.Memguard.Types.{Config, Service, Sample, Point}
use tgshd.Memguard.Eligibility.{service_of}
use tgshd.Memguard.Ring.{Ring, add, new_ring, reset, zero_point}
use tgshd.Memguard.Ring.Window.{to_list, points_from, IsValid, to_list-add}
use tgshd.Memguard.Culprit.{Entry}
use tgshd.Memguard.Guard.{is_tracked, is_nil, judge_anew, sampled, blank}

abbrev pub point_of : Time → Sample → Point
point_of at s = record { at = at; anon = s.anon }

-- A ring that was never allocated, or one of the guard's depth.
abbrev pub IsAllocated : ℕ → Ring → Type 0
IsAllocated depth r = (r.points ≡ []) ⊎ IsValid depth r

reset_new-IsValid : (depth : ℕ) → IsValid (suc depth) (reset (new_ring (suc depth)))
unfolding reset new_ring
reset_new-IsValid depth = record {
  sized = length-replicate (suc depth) zero_point;
  next_below = omega arith;
  filled = omega arith;
}

reset-IsValid : (depth : ℕ) (r : Ring) → IsValid (suc depth) r → IsValid (suc depth) (reset r)
unfolding reset
reset-IsValid depth r v = record { sized = v.sized; next_below = omega arith; filled = omega arith }

to_list-reset : (r : Ring) → to_list (reset r) ≡ []
unfolding to_list points_from reset
to_list-reset r = refl

take_nil : (n : ℕ) → take n (let none_left : List Point = [] in none_left) ≡ []
take_nil zero = refl
take_nil (suc n) = refl

not_nil : (n : ℕ) (ps : List Point) → length ps ≡ suc n → is_nil ps ≡ false
not_nil n [] h = absurd (omega arith)
not_nil n (p ∷ ps) h = refl

-- An entry's ring is allocated if ever, and surely if its service is tracked.
pub record IsHeld (depth : ℕ) (e : Entry) : Type 0 where
  pub allocated : IsAllocated depth e.history
  pub tracked : is_tracked e.service ≡ true → IsValid depth e.history

abbrev pub AllHeld : ℕ → Option Entry → Type 0
AllHeld depth none = Unit
AllHeld depth (some e) = IsHeld depth e

-- What is remembered of the service when the sample comes: nothing of a new service or of one
-- whose cgroup changed.
abbrev pub remembered : ℕ → Option Entry → Sample → List Point
remembered depth none s = []
remembered depth (some e) s =
    if bytes_beq e.service.cgroup_path s.cgroup_path then take depth (to_list e.history) else []

module _ (path_match : Bytes → Bytes → Bool) (cfg : Config) (depth : ℕ) (at : Time)
    (s : Sample) where
  -- The service judged anew.
  abbrev judged_service : Service
  judged_service = service_of path_match cfg s.kind s.name s.cgroup_path

  anew_tracked :
      (e : Entry)
      → IsAllocated (suc depth) e.history
      → is_tracked judged_service ≡ true
      → (r : Ring) × ((judge_anew path_match cfg (suc depth) s e).history ≡ reset r)
        × IsValid (suc depth) (reset r)
  unfolding judge_anew
  anew_tracked e (inl nil) h = (new_ring (suc depth), rw (h, nil), reset_new-IsValid depth)
  anew_tracked e (inr v) h =
      (e.history, rw (h, not_nil depth e.history.points v.sized), reset-IsValid depth e.history v)

  anew_untracked :
      (e : Entry)
      → IsAllocated (suc depth) e.history
      → is_tracked judged_service ≡ false
      → IsAllocated (suc depth) (judge_anew path_match cfg (suc depth) s e).history
  unfolding judge_anew reset
  anew_untracked e (inl nil) h = inl (rw h nil)
  anew_untracked e (inr v) h = inr (rw h (unfold reset in reset-IsValid depth e.history v))

  anew_service : (e : Entry) → (judge_anew path_match cfg (suc depth) s e).service ≡ judged_service
  unfolding judge_anew
  anew_service e = refl

  anew-IsHeld :
      (e : Entry)
      → IsAllocated (suc depth) e.history
      → IsHeld (suc depth) (judge_anew path_match cfg (suc depth) s e)
  anew-IsHeld e a = elim (Bool-cases (is_tracked judged_service)) [
    | inl t ↦
        let (r, same, v) = anew_tracked e a t in
        record { allocated = inr (rw same v); tracked = λ h. rw same v }
    | inr f ↦ record {
      allocated = anew_untracked e a f;
      tracked = λ h. absurd (true_is_not_false (sym h ∙ ap is_tracked (anew_service e) ∙ f));
    }
  ]
    where
      true_is_not_false : ◌≡◌ {A = Bool} true false → ⊥
      true_is_not_false e = cc

  anew_empty :
      (e : Entry)
      → IsAllocated (suc depth) e.history
      → is_tracked judged_service ≡ true
      → to_list (judge_anew path_match cfg (suc depth) s e).history ≡ []
  anew_empty e a t = let (r, same, v) = anew_tracked e a t in rw same (to_list-reset r)

  -- The entry with the sample's point added if it is tracked.
  abbrev extended : ℕ → Entry → Entry
  extended gen e = record e {
    seen = gen;
    history = if is_tracked e.service then add e.history (point_of at s) else e.history;
  }

  extended-IsHeld :
      (gen : ℕ) (e : Entry)
      → IsHeld (suc depth) e
      → IsHeld (suc depth) (extended gen e)
        × (is_tracked e.service ≡ true
            → to_list (extended gen e).history ≡ point_of at s ∷ take depth (to_list e.history))
  extended-IsHeld gen e h = elim (Bool-cases (is_tracked e.service)) [
    | inl t ↦
        let (valid, list, newest) = to_list-add depth e.history (point_of at s) (h.tracked t) in
        (record { allocated = inr (rw t valid); tracked = λ u. rw t valid }, λ u. rw t list)
    | inr f ↦ (
      record { allocated = rw f h.allocated; tracked = λ u. rw f (h.tracked u) },
      λ u. absurd (true_is_not_false (sym u ∙ f)),
    )
  ]
    where
      true_is_not_false : ◌≡◌ {A = Bool} true false → ⊥
      true_is_not_false e = cc

  anew_extended :
      (gen : ℕ) (e : Entry)
      → IsAllocated (suc depth) e.history
      → let f = judge_anew path_match cfg (suc depth) s e in
        IsHeld (suc depth) (extended gen f)
        × (is_tracked f.service ≡ true → to_list (extended gen f).history ≡ point_of at s ∷ [])
  anew_extended gen e a =
      let (held, list) = extended-IsHeld gen _ (anew-IsHeld e a) in
      (
        held,
        λ t.
            list t
            ∙ ap (λ ps. point_of at s ∷ take depth ps)
                (anew_empty e a (sym (ap is_tracked (anew_service e)) ∙ t))
            ∙ ap (◌∷◌ (point_of at s)) (take_nil depth),
      )

  -- A sample puts its point in front of what is remembered of its service, if the service is
  -- tracked, and nothing is remembered of a service that is new or whose cgroup changed; the
  -- entry keeps a ring of the guard's depth.
  pub sampled-history :
      (gen : ℕ) (found : Option Entry)
      → AllHeld (suc depth) found
      → let e = sampled path_match cfg (suc depth) gen at s found in
        IsHeld (suc depth) e
        × (is_tracked e.service ≡ true
            → to_list e.history ≡ point_of at s ∷ remembered depth found s)
  unfolding sampled
  sampled-history gen none h = anew_extended gen (blank path_match s) (inl refl)
  sampled-history gen (some e) h =
      elim (Bool-cases (bytes_beq e.service.cgroup_path s.cgroup_path)) [
        | inl same ↦ rw same (extended-IsHeld gen e h)
        | inr moved ↦ rw moved (anew_extended gen e h.allocated)
      ]
