-- ===== src/Health/Disks/Log.antt =====
-- The self-test log of a drive as smartctl prints it, pkg/health/check/disks/smart.go.
use tgshd.Base.{
  ℕ, ◌/◌, List, [], ◌∷◌, Bool, true, false, Option, none, some, leb, nat_beq, if◌then◌else◌,
  text_eq,
}
use tgshd.Health.Disks.Types.{
  Bus, ata, nvme, scsi, other_bus, SelfTestResult, passed, aborted, in_progress, failed, skipped,
  SelfTestEntry, SelfTest, counter_eq, LogRow, SmartJson,
}

-- `classifyATA` and `classifyNVMe`.
unfoldable pub classify_ata : ℕ → SelfTestResult
classify_ata code =
    if nat_beq code 0
    then passed
    else if leb code 2
    then aborted
    else if nat_beq code 15
    then in_progress
    else failed

unfoldable pub classify_nvme : ℕ → SelfTestResult
classify_nvme code =
    if nat_beq code 0
    then passed
    else if leb code 3
    then aborted
    else if nat_beq code 15
    then skipped
    else failed

abbrev pub hours_or_zero : Option ℕ → ℕ
hours_or_zero none = 0
hours_or_zero (some h) = h

abbrev pub is_given : Option ℕ → Bool
is_given none = false
is_given (some h) = true

abbrev pub ata_entry : LogRow → ℕ → SelfTestEntry
ata_entry e status = record {
  id = record { hours = hours_or_zero e.hours; type = e.type; code = status / 16 };
  description = e.text;
  result = classify_ata (status / 16);
  has_hours = is_given e.hours;
  wraps = true;
}

abbrev pub nvme_entry : LogRow → ℕ → SelfTestEntry
nvme_entry e code = record {
  id = record { hours = hours_or_zero e.hours; type = e.type; code = code };
  description = e.text;
  result = classify_nvme code;
  has_hours = is_given e.hours;
  wraps = false;
}

-- The loop of `ataSelfTestEntries` and `nvmeSelfTestEntries`: none if a row has no status.
unfoldable pub entries_of : (LogRow → ℕ → SelfTestEntry) → List LogRow → Option (List SelfTestEntry)
entries_of entry [] = some []
entries_of entry (e ∷ es) = elim e.status [
  | none ↦ none
  | some status ↦ elim (entries_of entry es) [
    | none ↦ none
    | some rest ↦ some (entry e status ∷ rest)
  ]
]

unfoldable pub ata_self_test_entries : Option (Option (List LogRow)) → Option (List SelfTestEntry)
ata_self_test_entries none = none
ata_self_test_entries (some none) = none
ata_self_test_entries (some (some table)) = entries_of ata_entry table

unfoldable pub nvme_self_test_entries : Option (List LogRow) → Option (List SelfTestEntry)
nvme_self_test_entries none = none
nvme_self_test_entries (some table) = entries_of nvme_entry table

abbrev pub is_finished : SelfTestResult → Bool
is_finished passed = true
is_finished failed = true
is_finished _ = false

abbrev pub is_failure : SelfTestResult → Bool
is_failure failed = true
is_failure _ = false

-- `hoursOf`.
abbrev pub hours_of : SelfTestEntry → Option ℕ
hours_of e = if e.has_hours then some e.id.hours else none

abbrev pub self_test_of : SelfTestEntry → SelfTest
self_test_of e = record {
  description = e.description;
  is_failed = is_failure e.result;
  power_on_hours = hours_of e;
}

-- The newest finished entry, the loop of `applySelfTest`.
unfoldable pub newest_finished : List SelfTestEntry → Option SelfTest
newest_finished [] = none
newest_finished (e ∷ es) =
    if is_finished e.result then some (self_test_of e) else newest_finished es

abbrev pub is_nil {ℓ} : {A : Type ℓ} → Option A → Bool
is_nil none = true
is_nil (some a) = false

-- `selfTestLogMissing`.
unfoldable pub self_test_log_missing : SmartJson → Bus → Bool
self_test_log_missing raw ata = is_nil raw.ata_self_test
self_test_log_missing raw nvme = is_nil raw.nvme_self_test
self_test_log_missing raw scsi = false
self_test_log_missing raw (other_bus s) = false

abbrev pub log_entries : SmartJson → Bus → Option (List SelfTestEntry)
log_entries raw ata = ata_self_test_entries raw.ata_self_test
log_entries raw nvme = nvme_self_test_entries raw.nvme_self_test
log_entries raw scsi = none
log_entries raw (other_bus s) = none
