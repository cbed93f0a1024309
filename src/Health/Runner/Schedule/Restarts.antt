-- ===== src/Health/Runner/Schedule/Restarts.antt =====
-- The stored times of the jobs over a restart (pkg/health/runner/schedule.go).
use tgshd.Base.{
  ℕ, ℤ, ◌/◌, ◌<◌, String, false, ◌≡◌, refl, ap, ◌∙◌, arith, Option, some, lookup, text_eq, max,
  nat_beq, [], insert, lookup-insert_self, lookup-insert_ne,
}
use tgshd.Health.Types.{Time}
use tgshd.Health.Runner.{later}
use tgshd.Health.Store.Rows.{unix, time_unix, from_epoch, second, unix_epoch}
use tgshd.Health.Store.Database.RoundTrip.{truncate, time_unix-unix}
use tgshd.Health.Runner.Schedule.{
  time_of, encode_time, decode_time, Schedule, restore_schedule, schedule_kv, put_time, put_checks,
  key_daily_last, key_weekly_last,
}

past-pos : (s : ℕ) → unix_epoch < s → time_of (some (from_epoch s)) ≡ time_unix (from_epoch s)
unfolding time_of from_epoch
past-pos s h = ground (arith, h)

later-eq-max : (a b : Time) → later a b ≡ max a b
later-eq-max a b = ground arith

past_unset : (t : Time) → unix_epoch < t / second → nat_beq t 0 ≡ false
past_unset t h = ground (arith, h)

module _ (format_int : ℤ → String) (parse_int : String → Option ℤ)
    (law : (n : ℤ) → parse_int (format_int n) ≡ some n) where
  -- A time stored in the schedule is read back cut to whole seconds, when it is at least a second
  -- after the Unix epoch. A number written is assumed to read back.
  decode-encode_time :
      (t : Time)
      → unix_epoch < t / second
      → decode_time format_int parse_int (some (encode_time format_int parse_int t)) ≡ truncate t
  unfolding decode_time encode_time unix
  decode-encode_time t h =
      ap time_of (law (from_epoch (t / second))) ∙ past-pos (t / second) h ∙ time_unix-unix t

  stored_weekly :
      (s : Schedule)
      → unix_epoch < s.weekly_last / second
      → lookup key_weekly_last (schedule_kv format_int parse_int s)
        ≡ some (encode_time format_int parse_int s.weekly_last)
  unfolding schedule_kv
  stored_weekly s w = rw (past_unset s.weekly_last w) (
      lookup-insert_self key_weekly_last (encode_time format_int parse_int s.weekly_last) (
        put_time format_int parse_int key_daily_last s.daily_last
          (put_checks format_int parse_int s.checks [])))

  stored_daily :
      (s : Schedule)
      → unix_epoch < s.daily_last / second
      → unix_epoch < s.weekly_last / second
      → lookup key_daily_last (schedule_kv format_int parse_int s)
        ≡ some (encode_time format_int parse_int s.daily_last)
  unfolding schedule_kv
  stored_daily s d w =
      let checks = put_checks format_int parse_int s.checks [] in
      let daily = encode_time format_int parse_int s.daily_last in
      rw (past_unset s.weekly_last w, past_unset s.daily_last d)
        (lookup-insert_ne key_weekly_last key_daily_last
            (encode_time format_int parse_int s.weekly_last) (insert key_daily_last daily checks)
            (λ e. cc)
          ∙ lookup-insert_self key_daily_last daily checks)

  -- A runner that restores what an earlier one stored has the daily and the weekly job last attempted
  -- at the later of its own time and of the earlier runner's, cut to whole seconds, each under its own
  -- key; and a second restore changes nothing. It holds of times at least a second after the Unix
  -- epoch. A number written is assumed to read back.
  pub restore_schedule-schedule_kv :
      (network : Option ℕ) (earlier s : Schedule)
      → s.restored ≡ false
      → unix_epoch < earlier.daily_last / second
      → unix_epoch < earlier.weekly_last / second
      → let kv = schedule_kv format_int parse_int earlier in
        let r = restore_schedule format_int parse_int network kv s in
        (r.daily_last ≡ max s.daily_last (truncate earlier.daily_last))
        × (r.weekly_last ≡ max s.weekly_last (truncate earlier.weekly_last))
        × (restore_schedule format_int parse_int network kv r ≡ r)
  unfolding restore_schedule
  restore_schedule-schedule_kv network earlier s f d w = simp f (
    ap (later s.daily_last) (
          ap (decode_time format_int parse_int) (stored_daily earlier d w)
          ∙ decode-encode_time earlier.daily_last d)
        ∙ later-eq-max s.daily_last (truncate earlier.daily_last),
    ap (later s.weekly_last) (
          ap (decode_time format_int parse_int) (stored_weekly earlier w)
          ∙ decode-encode_time earlier.weekly_last w)
        ∙ later-eq-max s.weekly_last (truncate earlier.weekly_last),
    refl,
  )
