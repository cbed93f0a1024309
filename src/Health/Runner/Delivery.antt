-- ===== src/Health/Runner/Delivery.antt =====
-- The lanes, the saves and the restarts of the runner at small inputs.
use tgshd.Base.{
  max, ◌↔◌, ◌+◌, [], ◌∷◌, true, false, ◌≡◌, refl, none, arith, text_eq, Bytes, codes, bytes_beq,
}
use tgshd.Health.Store.{LoggedAlert, Baseline, SampleRow}
use tgshd.Health.Store.Encoding.{format_int, parse_int, parse_int-format_int}
use tgshd.Health.Store.Database.RoundTrip.{truncate}
use tgshd.Health.Runner.Lane.{
  World, Reach, here, next, takes, gives_up, start, acquire, acquire_as, release, abandon, refused,
  taken, has,
}
use tgshd.Health.Runner.Lane.Safety.{Reach-abandoned}
use tgshd.Health.Runner.Saving.{Pending, save_ok, save_failed}
use tgshd.Health.Runner.Saving.Notices.{Tick}
use tgshd.Health.Runner.Retire.{Drive, choose, chosen, active_drives}
use tgshd.Health.Runner.Retire.Matching.{IsMeant, choose_iff}
use tgshd.Health.Runner.Schedule.{Schedule, restore_schedule, schedule_kv}
use tgshd.Health.Runner.Schedule.Restarts.{restore_schedule-schedule_kv}

abbrev given_up : World
given_up = record {
  lane = record { in_flight = true; abandoned = true; seq = 1 };
  running = 1 ∷ [];
  given_up = 1 ∷ [];
}

given_up-Reach : Reach start given_up
unfolding acquire acquire_as abandon
given_up-Reach = next (next here (takes start 1 _ refl)) (gives_up _ 1 (omega arith))

Reach-abandoned_example :
    (acquire given_up.lane ≡ refused)
    × (given_up.running ≡ given_up.lane.seq ∷ [])
    × (has given_up.lane.seq given_up.given_up ≡ true)
    × (acquire (release given_up.lane)
        ≡ taken
            (given_up.lane.seq + 1)
            (record { in_flight = true; abandoned = false; seq = given_up.lane.seq + 1 }))
Reach-abandoned_example = Reach-abandoned given_up-Reach refl

abbrev alert : LoggedAlert
alert = record { at = 100; kind = "problem"; check = "temp"; key = "temp/cpu"; text = "91 °C" }

abbrev sample : SampleRow
sample = record { at = 100; metric = "temp/cpu"; value = 7 }

abbrev fresh : Pending
fresh = record { alerts = []; samples = []; dropped = false; save_reported = false }

abbrev failed_tick : Tick
failed_tick = record {
  persistent = true;
  loaded = true;
  sent = true;
  outcome = save_failed;
  alerts = alert ∷ [];
  samples = sample ∷ [];
}

abbrev saved_tick : Tick
saved_tick = record failed_tick { outcome = save_ok }

abbrev unloaded_tick : Tick
unloaded_tick = record failed_tick { loaded = false }

abbrev sata : Baseline
sata = record {
  serial = "WD-1234";
  model = "WD";
  bus = "sata";
  payload = "{}";
  first_seen_at = 1;
  last_seen_at = 2;
  retired = false;
}

abbrev nvme : Baseline
nvme = record sata { serial = "S5-9876"; bus = "nvme" }

abbrev meant : Drive
meant = record { serial = "S5-9876"; model = "WD"; bus = "nvme" }

abbrev as_is : Bytes → Bytes
as_is s = s

choose_iff_example :
    (choose as_is bytes_beq as_is (sata ∷ nvme ∷ []) (codes "9876") ≡ chosen meant)
    ↔ IsMeant as_is bytes_beq (active_drives (sata ∷ nvme ∷ [])) (codes "9876") meant
choose_iff_example = choose_iff as_is bytes_beq as_is (sata ∷ nvme ∷ []) (codes "9876") meant

abbrev just_started : Schedule
just_started = record { checks = []; daily_last = 0; weekly_last = 0; restored = false }

abbrev earlier : Schedule
earlier = record {
  checks = [];
  daily_last = 63_900_000_000_500_000_000;
  weekly_last = 63_800_000_000_500_000_000;
  restored = true;
}

restore_schedule-schedule_kv_example :
    let kv = schedule_kv format_int parse_int earlier in
    let r = restore_schedule format_int parse_int none kv just_started in
    (r.daily_last ≡ max 0 (truncate 63_900_000_000_500_000_000))
    × (r.weekly_last ≡ max 0 (truncate 63_800_000_000_500_000_000))
    × (restore_schedule format_int parse_int none kv r ≡ r)
restore_schedule-schedule_kv_example =
    restore_schedule-schedule_kv format_int parse_int parse_int-format_int none earlier just_started
      refl (omega arith) (omega arith)
