-- ===== src/Health/Runner/Schedule.antt =====
-- The stored last-run times: `scheduleKV`, `restoreSchedule`, `attempt` and the daily and weekly
-- jobs of pkg/health/runner/schedule.go. Writing and reading a number, the calendar and the jobs are
-- parameters.
pub mod Restarts
use tgshd.Base.{
  ℕ, ℤ, pos, negsuc, ◌+◌, ◌*◌, ◌/◌, String, List, [], ◌∷◌, Bool, true, false, not, ◌&&◌, ◌||◌,
  Option, none, some, nat_beq, ltb, if◌then◌else◌, lookup, insert, ◌==◌, text_eq, suc,
}
use Prim.Native.String.{◌++◌ as join_text}
use tgshd.Health.Types.{Time, Duration}
use tgshd.Health.Runner.{later}
use tgshd.Health.Runner.Cycle.{Check, Scheduled, Cycle, fail, is_network}
use tgshd.Health.Store.Rows.{unix, time_unix}

abbrev pub key_daily_last : String
key_daily_last = "schedule.daily.last"

abbrev pub key_weekly_last : String
key_weekly_last = "schedule.weekly.last"

-- `checkKey`.
unfoldable pub check_key : String → String
check_key name = join_text "schedule.check." (join_text name ".last")

-- The last attempts of the two jobs, and the checks with their last runs.
pub record Schedule : Type 0 where
  pub checks : List Scheduled
  pub daily_last : Time
  pub weekly_last : Time
  pub restored : Bool

-- The times of `decodeTime` that count: seconds after the Unix epoch.
unfoldable pub time_of : Option ℤ → Time
time_of none = 0
time_of (some (negsuc n)) = 0
time_of (some (pos n)) = if nat_beq n 0 then 0 else time_unix (pos n)

module _ (format_int : ℤ → String) (parse_int : String → Option ℤ) where
  -- `encodeTime` and `decodeTime`, of a value that may be missing.
  unfoldable pub encode_time : Time → String
  encode_time t = format_int (unix t)

  unfoldable pub decode_time : Option String → Time
  unfolding time_of
  decode_time none = 0
  decode_time (some s) = time_of (parse_int s)

  abbrev pub put_time : String → Time → List (String × String) → List (String × String)
  put_time key t kv = if nat_beq t 0 then kv else insert key (encode_time t) kv

  unfoldable pub put_checks : List Scheduled → List (String × String) → List (String × String)
  put_checks [] kv = kv
  put_checks (s ∷ checks) kv = put_checks checks (put_time (check_key s.check.name) s.last_run kv)

  -- `scheduleKV`.
  unfoldable pub schedule_kv : Schedule → List (String × String)
  unfolding put_checks encode_time
  schedule_kv s =
      put_time key_weekly_last s.weekly_last
        (put_time key_daily_last s.daily_last (put_checks s.checks []))

  -- `restoreSchedule`: the network check, by index, keeps its own time.
  unfoldable pub restore_checks :
      Option ℕ → ℕ → List (String × String) → List Scheduled → List Scheduled
  unfolding decode_time
  restore_checks network i kv [] = []
  restore_checks network i kv (s ∷ checks) =
      let rest = restore_checks network (suc i) kv checks in
      let merged : Scheduled = record s {
        last_run = later s.last_run (decode_time (lookup (check_key s.check.name) kv));
      } in
      (if is_network network i then s else merged) ∷ rest

  unfoldable pub restore_schedule : Option ℕ → List (String × String) → Schedule → Schedule
  unfolding restore_checks decode_time
  restore_schedule network kv s = if s.restored then s else record {
    checks = restore_checks network 0 kv s.checks;
    daily_last = later s.daily_last (decode_time (lookup key_daily_last kv));
    weekly_last = later s.weekly_last (decode_time (lookup key_weekly_last kv));
    restored = true;
  }

-- How a job ends: well, with an error, or with one because the context ended.
pub data JobEnd : Type 0 where
  job_ok job_ended : JobEnd
  job_failed : String → JobEnd

-- `attempt`: the time of the last attempt and the cycle.
unfoldable pub attempt : String → String → Time → JobEnd → Cycle → Time × Cycle
attempt key text last job_ok c = (c.now, c)
attempt key text last job_ended c = (last, c)
attempt key text last (job_failed error) c = (c.now, fail key (join_text text error) c)

-- `runDaily`, of whether the day has changed, and `runWeekly`, of the latest slot.
unfoldable pub run_daily : (Time → Time → Bool) → JobEnd → Time → Cycle → Time × Cycle
unfolding attempt
run_daily same_day end last c =
    if nat_beq last 0 || not (same_day last c.now)
    then attempt "health/daily/error" "daily job failed: " last end c
    else (last, c)

unfoldable pub run_weekly : Time → JobEnd → Time → Cycle → Time × Cycle
unfolding attempt
run_weekly slot end last c =
    let seeded = if nat_beq last 0 then slot else last in
    if ltb seeded slot
    then attempt "health/weekly/error" "weekly job failed: " seeded end c
    else (seeded, c)
