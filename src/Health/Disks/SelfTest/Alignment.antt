-- ===== src/Health/Disks/SelfTest/Alignment.antt =====
-- The self-test log against the one last seen: `AlignSelfTests` of
-- pkg/health/check/disks/selftest.go.
use tgshd.Base.{
  subst, All, ℕ, zero, suc, ◌+◌, ◌-◌, ◌%◌, ◌≤◌, ◌<◌, min, List, [], ◌∷◌, ◌++◌, Bool, true, false,
  ◌&&◌, ◌≡◌, ◌⊎◌, refl, ap, ◌∙◌, Option, some, inl, inr, arith, if◌then◌else◌, take, any, length,
  Bool-cases,
}
use mathlib.Core.List.{Memᴰ}
use mathlib.Core.List.Memᴰ
use tgshd.Health.Disks.Types.{SelfTestId, SelfTestEntry}
use tgshd.Health.Disks.Log.{is_failure}
use tgshd.Health.Disks.SelfTest.{
  SelfTestState, SelfTestNewest, hours_ahead, newer_than, matches, aligned_at, new_count, log_head,
  newest_of, failures_from, is_pass, with_new, align_to, align_self_tests,
}

matches-log_head : (n : ℕ) (log : List SelfTestEntry) → matches (log_head n log) log ≡ true
unfolding matches log_head
matches-log_head zero log = refl
matches-log_head (suc n) [] = refl
matches-log_head (suc n) (e ∷ log) = ground (arith, matches-log_head n log)

-- The head is found no later than where the log that it is of begins.
aligned_at-append :
    (head : List SelfTestId) (new : List SelfTestEntry) (e : SelfTestEntry)
    (log : List SelfTestEntry)
    → matches head (e ∷ log) ≡ true
    → (i : ℕ) × (aligned_at head (new ++ e ∷ log) ≡ some i) × (i ≤ length new)
unfolding aligned_at
aligned_at-append head [] e log h = (0, rw h, omega arith)
aligned_at-append head (x ∷ new) e log h = elim (Bool-cases (matches head (x ∷ new ++ e ∷ log))) [
  | inl m ↦ (0, rw m, omega arith)
  | inr m ↦
      let (i, found, below) = aligned_at-append head new e log h in
      (suc i, rw (m, found), omega arith)
]

new_count-le :
    (h n : ℕ) (new : List SelfTestEntry) (e : SelfTestEntry) (log : List SelfTestEntry)
    → new_count h (log_head n (e ∷ log)) (new ++ e ∷ log) ≤ length new
unfolding new_count
new_count-le h n new e log =
    let (i, found, below) =
      aligned_at-append (log_head n (e ∷ log)) new e log (matches-log_head n (e ∷ log)) in
    rw found below

-- What is in `keep_if c e rest` is `e`, if the test holds, or in the rest.
keep_if-mem :
    (c : Bool) (e x : SelfTestEntry) (rest : List SelfTestEntry)
    → Memᴰ x (if c then e ∷ rest else rest)
    → ((c ≡ true) × (x ≡ e)) ⊎ Memᴰ x rest
keep_if-mem true e x rest (Memᴰ.head same) = inl (refl, same)
keep_if-mem true e x rest (Memᴰ.tail m) = inr m
keep_if-mem false e x rest m = inr m

failures_from-mem :
    (i : ℕ) (newest : Option (ℕ × SelfTestNewest)) (log : List SelfTestEntry) (x : SelfTestEntry)
    → Memᴰ x (failures_from i newest log)
    → Memᴰ x log × (is_failure x.result ≡ true)
unfolding failures_from
failures_from-mem i newest [] x m = absurd (Memᴰ.not-nil m)
failures_from-mem i newest (e ∷ log) x m =
    elim (keep_if-mem _ e x (failures_from (suc i) newest log) m) [
      | inl (c, same) ↦ (Memᴰ.head same, ap (λ y. is_failure y.result) same ∙ and_left _ _ c)
      | inr rest ↦
          let (inside, fails) = failures_from-mem (suc i) newest log x rest in
          (Memᴰ.tail inside, fails)
    ]
  where
    and_left : (a b : Bool) → (a && b) ≡ true → a ≡ true
    and_left a b h = ground arith

take-mem :
    (n : ℕ) (new log : List SelfTestEntry) (x : SelfTestEntry)
    → n ≤ length new
    → Memᴰ x (take n (new ++ log))
    → Memᴰ x new
take-mem zero new log x h m = absurd (Memᴰ.not-nil m)
take-mem (suc n) [] log x h m = absurd (omega arith)
take-mem (suc n) (e ∷ new) log x h (Memᴰ.head same) = Memᴰ.head same
take-mem (suc n) (e ∷ new) log x h (Memᴰ.tail m) = Memᴰ.tail (take-mem n new log x (omega arith) m)

-- What is reported of a log that is not empty against a head that is not.
aligned :
    (prev : SelfTestState) (h : SelfTestId) (head : List SelfTestId) (x : SelfTestEntry)
    (log : List SelfTestEntry) (now : ℕ)
    → prev.head ≡ h ∷ head
    → let n = new_count h.hours (h ∷ head) (x ∷ log) in
      let u = align_self_tests prev (x ∷ log) now in
      (u.failures ≡ failures_from 0 (newest_of (x ∷ log)) (take n (x ∷ log)))
      × (u.ok_at ≡ (if any is_pass (take n (x ∷ log)) then now else min prev.ok_at now))
unfolding align_self_tests align_to with_new
aligned prev h head x log now e = rw e (refl, refl)

log_head-cons :
    (e : SelfTestEntry) (log : List SelfTestEntry) → log_head 5 (e ∷ log) ≡ e.id ∷ log_head 4 log
unfolding log_head
log_head-cons e log = refl

-- The failures reported are among the first `n` entries of the log.
aligned-mem :
    (prev : SelfTestState) (h : SelfTestId) (head : List SelfTestId) (new : List SelfTestEntry)
    (e : SelfTestEntry) (log : List SelfTestEntry) (now : ℕ) (x : SelfTestEntry)
    → prev.head ≡ h ∷ head
    → new_count h.hours (h ∷ head) (new ++ e ∷ log) ≤ length new
    → Memᴰ x (align_self_tests prev (new ++ e ∷ log) now).failures
    → Memᴰ x new × (is_failure x.result ≡ true)
aligned-mem prev h head [] e log now x s below m =
    let here = subst (Memᴰ x) (aligned prev h head e log now s).0 m in
    let (inside, fails) = failures_from-mem 0 (newest_of (e ∷ log)) _ x here in
    (take-mem _ [] (e ∷ log) x below inside, fails)
aligned-mem prev h head (y ∷ new) e log now x s below m =
    let here = subst (Memᴰ x) (aligned prev h head y (new ++ e ∷ log) now s).0 m in
    let (inside, fails) = failures_from-mem 0 (newest_of (y ∷ new ++ e ∷ log)) _ x here in
    (take-mem _ (y ∷ new) (e ∷ log) x below inside, fails)

All-of_mem :
    (P : SelfTestEntry → Type 0) (xs : List SelfTestEntry)
    → ((x : SelfTestEntry) → Memᴰ x xs → P x)
    → All P xs
All-of_mem P [] f = tt
All-of_mem P (x ∷ xs) f = (f x (Memᴰ.head refl), All-of_mem P xs (λ y m. f y (Memᴰ.tail m)))

le_zero : (n : ℕ) → n ≤ 0 → n ≡ 0
le_zero n h = omega arith

-- After a read of the log `e ∷ log`, a read of that log with new entries in front reports as failed
-- only new entries that failed; and one with nothing new reports no failure and leaves the time
-- of the last pass, or sets it to now if it lies in the future.
pub align_self_tests-new :
    (prev : SelfTestState) (new : List SelfTestEntry) (e : SelfTestEntry) (log : List SelfTestEntry)
    (now : ℕ)
    → prev.head ≡ log_head 5 (e ∷ log)
    → All
        (λ x. Memᴰ x new × (is_failure x.result ≡ true))
        (align_self_tests prev (new ++ e ∷ log) now).failures
      × ((align_self_tests prev (e ∷ log) now).failures ≡ [])
      × ((align_self_tests prev (e ∷ log) now).ok_at ≡ min prev.ok_at now)
unfolding failures_from
align_self_tests-new prev new e log now h =
    let s = h ∙ log_head-cons e log in
    let le : (new : List SelfTestEntry)
        → new_count e.id.hours (e.id ∷ log_head 4 log) (new ++ e ∷ log) ≤ length new =
      λ new.
        subst (λ head. new_count e.id.hours head (new ++ e ∷ log) ≤ length new)
          (log_head-cons e log) (new_count-le e.id.hours 5 new e log) in
    let (failures, ok_at) = aligned prev e.id (log_head 4 log) e log now s in
    let none_new = le_zero (new_count e.id.hours (e.id ∷ log_head 4 log) (e ∷ log)) (le []) in
    (
      All-of_mem _ _ (λ x m. aligned-mem prev e.id (log_head 4 log) new e log now x s (le new) m),
      failures ∙ ap (λ n. failures_from 0 (newest_of (e ∷ log)) (take n (e ∷ log))) none_new,
      ok_at ∙ ap (λ n. if any is_pass (take n (e ∷ log)) then now else min prev.ok_at now) none_new,
    )

hours_ahead_lem :
    (hours ahead : ℕ)
    → hours < 65536
    → 0 < ahead
    → ahead < 65536
    → (hours_ahead ((hours + ahead) % 65536) hours ≡ ahead)
      × (hours_ahead hours ((hours + ahead) % 65536) ≡ 65536 - ahead)
unfolding hours_ahead
hours_ahead_lem hours ahead below more less = (ground arith, ground arith)

-- An entry of an ATA log that ran less than 32768 hours after the newest one stored is newer,
-- also where its 16-bit hours wrapped, and the stored one is not newer than it.
pub newer_than-wraps :
    (e f : SelfTestEntry) (hours ahead : ℕ)
    → e.wraps ≡ true
    → f.wraps ≡ true
    → hours < 65536
    → 0 < ahead
    → ahead < 32768
    → e.id.hours ≡ (hours + ahead) % 65536
    → f.id.hours ≡ hours
    → (newer_than e hours ≡ true) × (newer_than f e.id.hours ≡ false)
unfolding newer_than
newer_than-wraps e f hours ahead we wf below more less he hf =
    let (forth, back) = hours_ahead_lem hours ahead below more (omega arith) in
    (rw (we, he, forth) (ground arith), rw (wf, hf, he, back) (ground arith))
