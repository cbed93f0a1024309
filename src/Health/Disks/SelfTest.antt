-- ===== src/Health/Disks/SelfTest.antt =====
-- What is new in a drive's self-test log, pkg/health/check/disks/selftest.go.
pub mod Alignment
use tgshd.Base.{
  ℕ, zero, suc, ◌+◌, ◌-◌, ◌*◌, ◌%◌, min, max, String, List, [], ◌∷◌, Bool, true, false, not, ◌&&◌,
  ◌||◌, Option, none, some, ltb, leb, nat_beq, if◌then◌else◌, take, select, any, length,
}
use tgshd.Health.Types.{Time, Duration}
use tgshd.Health.Disks.Types.{
  SelfTestId, SelfTestEntry, SelfTestResult, passed, aborted, in_progress, failed, skipped,
}
use tgshd.Health.Disks.Log.{is_finished, is_failure}

-- `SelfTestState`, with the time in Unix seconds.
pub record SelfTestState : Type 0 where
  pub head : List SelfTestId
  pub seen : Bool
  pub ok_at : ℕ

pub record SelfTestNewest : Type 0 where
  pub result : SelfTestResult
  pub description : String
  pub hours : ℕ

pub record SelfTestUpdate : Type 0 where
  pub failures : List SelfTestEntry
  pub head : List SelfTestId
  pub seen : Bool
  pub ok_at : ℕ
  pub newest : Option SelfTestNewest

abbrev pub id_beq : SelfTestId → SelfTestId → Bool
id_beq a b = nat_beq a.hours b.hours && nat_beq a.type b.type && nat_beq a.code b.code

-- The `d` of `newerThan`: how far `a` is ahead of `h` in 16 bits. Go's remainder of a negative
-- number is negative; the code adds the range to it.
unfoldable pub hours_ahead : ℕ → ℕ → ℕ
hours_ahead a h =
    let behind = (h - a) % 65536 in
    if leb h a then (a - h) % 65536 else if nat_beq behind 0 then 0 else 65536 - behind

-- `newerThan`.
unfoldable pub newer_than : SelfTestEntry → ℕ → Bool
newer_than e h =
    if not e.wraps
    then ltb h e.id.hours
    else (let d = hours_ahead e.id.hours h in not (nat_beq d 0) && ltb d 32768)

-- The inner loop of `alignedAt`: the head matches as far as both go.
unfoldable pub matches : List SelfTestId → List SelfTestEntry → Bool
matches [] log = true
matches (h ∷ head) [] = true
matches (h ∷ head) (e ∷ log) = id_beq e.id h && matches head log

-- `alignedAt`, none for -1.
unfoldable pub aligned_at : List SelfTestId → List SelfTestEntry → Option ℕ
unfolding matches
aligned_at head [] = none
aligned_at head (e ∷ log) =
    if matches head (e ∷ log)
    then some 0
    else elim (aligned_at head log) [ none ↦ none | some i ↦ some (suc i) ]

-- The loop of `newCount`.
unfoldable pub count_newer : ℕ → List SelfTestEntry → ℕ
count_newer h [] = 0
count_newer h (e ∷ log) = if e.has_hours && newer_than e h then suc (count_newer h log) else 0

-- `newCount`, of a head that is not empty.
abbrev position_or : Option ℕ → ℕ → ℕ
position_or none n = n
position_or (some i) n = i

unfoldable pub new_count : ℕ → List SelfTestId → List SelfTestEntry → ℕ
new_count newest_hours head log = position_or (aligned_at head log) (count_newer newest_hours log)

-- `logHead`.
unfoldable pub log_head : ℕ → List SelfTestEntry → List SelfTestId
log_head zero log = []
log_head (suc n) [] = []
log_head (suc n) (e ∷ log) = e.id ∷ log_head n log

-- `newestOf`: the position is none for -1.
abbrev newest_of_entry : SelfTestEntry → SelfTestNewest
newest_of_entry e = record {
  result = e.result;
  description = e.description;
  hours = if e.has_hours then e.id.hours else 0;
}

abbrev shift : Option (ℕ × SelfTestNewest) → Option (ℕ × SelfTestNewest)
shift none = none
shift (some (i, n)) = some (suc i, n)

unfoldable pub newest_of : List SelfTestEntry → Option (ℕ × SelfTestNewest)
newest_of [] = none
newest_of (e ∷ log) =
    if is_finished e.result then some (0, newest_of_entry e) else shift (newest_of log)

abbrev is_at : ℕ → Option (ℕ × SelfTestNewest) → Bool
is_at i none = false
is_at i (some (j, n)) = nat_beq i j

abbrev pub summary_of : Option (ℕ × SelfTestNewest) → Option SelfTestNewest
summary_of none = none
summary_of (some (i, n)) = some n

-- The loop of `AlignSelfTests` over the new entries, from position `i` on: the failures.
unfoldable pub failures_from :
    ℕ → Option (ℕ × SelfTestNewest) → List SelfTestEntry → List SelfTestEntry
failures_from i newest [] = []
failures_from i newest (e ∷ log) =
    let rest = failures_from (suc i) newest log in
    if is_failure e.result && not (is_at i newest) then e ∷ rest else rest

abbrev pub is_pass : SelfTestEntry → Bool
is_pass e = is_finished e.result && not (is_failure e.result)

abbrev update : SelfTestState → ℕ → Option SelfTestNewest → SelfTestUpdate
update prev now newest = record {
  failures = [];
  head = prev.head;
  seen = true;
  ok_at = min prev.ok_at now;
  newest = newest;
}

-- The update when the first `n` entries of the log are new.
unfoldable pub with_new :
    ℕ → ℕ → Option (ℕ × SelfTestNewest) → List SelfTestEntry → SelfTestUpdate → SelfTestUpdate
with_new now n newest log out = record out {
  failures = failures_from 0 newest (take n log);
  ok_at = if any is_pass (take n log) then now else out.ok_at;
}

-- `AlignSelfTests` of a log that is not empty, by the stored head.
unfoldable pub align_to :
    List SelfTestId
    → Bool
    → ℕ
    → Option (ℕ × SelfTestNewest)
    → List SelfTestEntry
    → SelfTestUpdate
    → SelfTestUpdate
align_to (h ∷ head) seen now newest log out =
    with_new now (new_count h.hours (h ∷ head) log) newest log out
align_to [] true now newest log out = with_new now (length log) newest log out
align_to [] false now newest log out = out

-- `AlignSelfTests`, at `now` in Unix seconds.
unfoldable pub align_self_tests : SelfTestState → List SelfTestEntry → ℕ → SelfTestUpdate
align_self_tests prev [] now = update prev now none
align_self_tests prev (e ∷ log) now =
    let newest = newest_of (e ∷ log) in
    align_to prev.head prev.seen now newest (e ∷ log)
      (record (update prev now (summary_of newest)) { head = log_head 5 (e ∷ log) })

-- `time.Unix s 0`.
abbrev pub of_unix : ℕ → Time
of_unix s = (s + 62135596800) * 1000000000

-- `SelfTestAge`.
unfoldable pub self_test_age : ℕ → Time → Time → Duration
self_test_age ok_at first_seen now =
    let start = if ltb 0 ok_at then max first_seen (of_unix ok_at) else first_seen in now - start
