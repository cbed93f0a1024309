-- ===== src/Health/Disks/Tests.antt =====
-- Reports and self-test logs of small drives.
use tgshd.Base.{pos, ℕ, ◌++◌, min, [], ◌∷◌, true, ◌≡◌, refl, none, some, inr, All}
use mathlib.Core.List.{Memᴰ}
use tgshd.Health.Disks.Types.{
  ata, passed, failed, SelfTestId, SelfTestEntry, Report, SmartJson, AtaAttribute, counter_eq,
}
use tgshd.Health.Disks.Smart.{builtin_counters, decode_smart, read_sections}
use tgshd.Health.Disks.Log.{is_failure}
use tgshd.Health.Disks.Smart.Verdict.{IsDecoded, decode_smart-IsDecoded}
use tgshd.Health.Disks.SelfTest.{
  SelfTestState, newest_of, log_head, align_self_tests, align_to, with_new, new_count, aligned_at,
  matches, failures_from,
}
use tgshd.Health.Disks.SelfTest.Alignment.{align_self_tests-new}

abbrev pending : AtaAttribute
pending = record {
  id = 197;
  name = "Current_Pending_Sector";
  value = some (pos 100);
  raw = some (some 8);
}

abbrev output : SmartJson
output = record {
  messages = [];
  device_name = "/dev/sda";
  protocol = ata;
  rotation_rate = some 7200;
  logical_block = some 512;
  model_name = "Disk";
  serial_number = "S1";
  smart_status = some (some true);
  ata_attributes = some (pending ∷ []);
  nvme_health = none;
  temperature = some (some (pos 31));
  power_on_time = none;
  ata_self_test = none;
  nvme_self_test = none;
}

abbrev decoded : Report
decoded = read_sections output 64 builtin_counters

decodes : decode_smart (some output) 64 builtin_counters ≡ inr decoded
unfolding decode_smart
decodes = refl

decode_smart-IsDecoded_example :
    (raw : SmartJson) × (some output ≡ some raw) × IsDecoded raw 64 decoded
decode_smart-IsDecoded_example =
    decode_smart-IsDecoded (some output) 64 builtin_counters decoded decodes

abbrev test_id : ℕ → SelfTestId
test_id hours = record { hours = hours; type = 1; code = 0 }

abbrev passed_at : ℕ → SelfTestEntry
passed_at hours = record {
  id = test_id hours;
  description = "Completed without error";
  result = passed;
  has_hours = true;
  wraps = true;
}

abbrev failed_at : ℕ → SelfTestEntry
failed_at hours = record (passed_at hours) { result = failed; description = "read failure" }

abbrev stored : SelfTestState
stored = record { head = test_id 5 ∷ []; seen = true; ok_at = 1000 }

reads_new_failure :
    (align_self_tests stored (passed_at 20 ∷ failed_at 9 ∷ passed_at 5 ∷ []) 2000).failures
    ≡ failed_at 9 ∷ []
unfolding align_self_tests align_to with_new new_count aligned_at matches newest_of failures_from
    log_head
reads_new_failure = refl

stored_head : stored.head ≡ log_head 5 (passed_at 5 ∷ [])
unfolding log_head
stored_head = refl

align_self_tests-new_example :
    All
      (λ x. Memᴰ x (passed_at 20 ∷ failed_at 9 ∷ []) × (is_failure x.result ≡ true))
      (align_self_tests stored
        ((passed_at 20 ∷ failed_at 9 ∷ []) ++ passed_at 5 ∷ [])
        2000).failures
    × ((align_self_tests stored (passed_at 5 ∷ []) 2000).failures ≡ [])
    × ((align_self_tests stored (passed_at 5 ∷ []) 2000).ok_at ≡ min stored.ok_at 2000)
align_self_tests-new_example =
    align_self_tests-new stored (passed_at 20 ∷ failed_at 9 ∷ []) (passed_at 5) [] 2000 stored_head
