-- ===== src/Health/Disks/Smart.antt =====
-- The decoding of a drive's SMART report, pkg/health/check/disks/smart.go.
pub mod Verdict
pub mod Counters
use tgshd.Base.{
  ℕ, ℤ, pos, negsuc, ◌+◌, ◌-◌, ◌*◌, ◌/◌, ◌%◌, ◌^◌, ◌++◌, String, List, [], ◌∷◌, Bool, true, false,
  not, ◌&&◌, ◌||◌, Option, none, some, ltb, leb, nat_beq, if◌then◌else◌, ◌==◌, text_eq, insert, any,
  ◌⊎◌, inl, inr,
}
use tgshd.Health.Disks.Types.{
  Bus, ata, nvme, scsi, other_bus, Health, unknown, ok, failing, Gap, attributes, nvme_health_log,
  selftest_log, temperature, SelfTestResult, passed, aborted, in_progress, failed, skipped,
  SelfTestFormat, format_ok, unsupported, SelfTestId, SelfTestEntry, SelfTest, Counter, ata_counter,
  nvme_media_errors, counter_eq, Report, AtaAttribute, NvmeHealth, LogRow, SmartJson, Unreadable,
  not_opened, not_decoded, no_serial,
}
use tgshd.Health.Disks.Log.{
  classify_ata, classify_nvme, hours_or_zero, is_given, ata_entry, nvme_entry, entries_of,
  ata_self_test_entries, nvme_self_test_entries, is_finished, is_failure, hours_of, self_test_of,
  newest_finished, is_nil, self_test_log_missing, log_entries,
}

-- `exitStatus & (exitCommandLine | exitDeviceOpen) != 0` and `exitStatus & exitDiskFailing != 0`.
abbrev pub failed_to_open : ℕ → Bool
failed_to_open exit_status = not (nat_beq (exit_status % 4) 0)

abbrev pub disk_failing : ℕ → Bool
disk_failing exit_status = not (nat_beq ((exit_status / 8) % 2) 0)

abbrev pub join {ℓ} : {A : Type ℓ} → Option (Option A) → Option A
join none = none
join (some o) = o

-- `smartJSON.health`.
abbrev pub verdict_of : Option (Option Bool) → Health
verdict_of none = unknown
verdict_of (some none) = unknown
verdict_of (some (some true)) = ok
verdict_of (some (some false)) = failing

unfoldable pub health : SmartJson → ℕ → Health
health raw exit_status = if disk_failing exit_status then failing else verdict_of raw.smart_status

abbrev pub is_ata : Bus → Bool
is_ata ata = true
is_ata _ = false

abbrev pub is_nvme : Bus → Bool
is_nvme nvme = true
is_nvme _ = false

abbrev pub is_zero : Option ℕ → Bool
is_zero none = false
is_zero (some n) = nat_beq n 0

-- `wearLeveling`.
abbrev pub wear_leveling : ℕ → String → Bool
wear_leveling id name = nat_beq id 177 && name == "Wear_Leveling_Count"

-- `wearUsed`.
unfoldable pub wear_used : Option ℤ → Option ℤ
wear_used none = none
wear_used (some (negsuc n)) = none
wear_used (some (pos v)) = if ltb 100 v then none else some (pos (100 - v))

-- `writtenBytes`, in uint64.
unfoldable pub written_bytes : ℕ → Option ℕ → Option ℕ
written_bytes lbas none = none
written_bytes lbas (some block) = some ((lbas * block) % 2 ^ 64)

-- `tracked`, of the set `counters`.
abbrev pub tracked : (ℕ → Bool) → ℕ → Bool
tracked counters id = counters id && leb 1 id && leb id 255

-- `BuiltinCounters`.
unfoldable pub builtin_counters : ℕ → Bool
builtin_counters id =
    any (nat_beq id) (5 ∷ 179 ∷ 181 ∷ 182 ∷ 183 ∷ 187 ∷ 188 ∷ 195 ∷ 197 ∷ 198 ∷ 199 ∷ [])

module _ (counters : ℕ → Bool) (solid_state : Bool) (block : Option ℕ) where
  -- The raw value of a row of the attribute table.
  unfoldable pub apply_raw : ℕ → Option ℕ → Report → Report
  apply_raw id none r = r
  apply_raw id (some v) r =
      let counted =
        if tracked counters id
        then record r { counters = insert (ata_counter id) v r.counters }
        else r in
      if nat_beq id 241
      then record counted { data_written_bytes = written_bytes v block }
      else counted

  unfoldable pub apply_attribute : AtaAttribute → Report → Report
  apply_attribute a r = apply_raw a.id (join a.raw) (
      if solid_state && wear_leveling a.id a.name
      then record r { percentage_used = wear_used a.value }
      else r)

  unfoldable pub apply_attributes : List AtaAttribute → Report → Report
  apply_attributes [] r = r
  apply_attributes (a ∷ rest) r = apply_attributes rest (apply_attribute a r)

abbrev pub table_of : Option (List AtaAttribute) → List AtaAttribute
table_of none = []
table_of (some table) = table

-- `applyATA`.
unfoldable pub apply_ata : (ℕ → Bool) → SmartJson → Report → Report
unfolding apply_attributes
apply_ata counters raw r =
    apply_attributes counters (is_ata r.bus && is_zero raw.rotation_rate) raw.logical_block
      (table_of raw.ata_attributes) r

abbrev or_else_of {ℓ} : {A : Type ℓ} → Option A → Option A → Option A
or_else_of none o = o
or_else_of (some n) o = some n

abbrev pub with_written : Option ℕ → Report → Report
with_written none r = r
with_written (some units) r = record r { data_written_bytes = some ((units * 512000) % 2 ^ 64) }

abbrev pub with_media_errors : Option ℕ → Report → Report
with_media_errors none r = r
with_media_errors (some n) r = record r { counters = insert nvme_media_errors n r.counters }

-- `applyNVMe`.
unfoldable pub apply_nvme : Option NvmeHealth → Report → Report
apply_nvme none r = r
apply_nvme (some h) r =
    let spare = record r {
      critical_warning = h.critical_warning;
      available_spare = h.available_spare;
      spare_threshold = h.spare_threshold;
      percentage_used = h.percentage_used;
      temperature = or_else_of r.temperature h.temperature;
    } in
    record (with_media_errors h.media_errors (with_written h.data_units_wrote spare)) {
      nvme_error_log_entries = h.err_log_entries;
    }

abbrev with_log : Option (List SelfTestEntry) → Report → Report
with_log none r = record r { self_test_format = unsupported }
with_log (some es) r = record r {
  self_test_format = format_ok;
  self_test_log = es;
  self_test = newest_finished es;
}

-- `applySelfTest`.
unfoldable pub apply_self_test : SmartJson → Report → Report
apply_self_test raw r =
    if self_test_log_missing raw r.bus
    then record r { self_test_format = format_ok }
    else with_log (log_entries raw r.bus) r

abbrev gap_if : Bool → Gap → List Gap
gap_if true g = g ∷ []
gap_if false g = []

-- `gaps`.
unfoldable pub gaps : Report → SmartJson → List Gap
gaps r raw =
    gap_if (is_ata r.bus && is_nil raw.ata_attributes) attributes
    ++ gap_if (is_ata r.bus && is_nil raw.ata_self_test) selftest_log
    ++ gap_if (is_nvme r.bus && is_nil raw.nvme_health) nvme_health_log
    ++ gap_if (is_nvme r.bus && is_nil raw.nvme_self_test) selftest_log
    ++ gap_if (is_nil r.temperature) temperature

abbrev first_message : List String → Option String
first_message [] = none
first_message (m ∷ ms) = some m

-- `openError`.
abbrev pub open_error : Option SmartJson → ℕ → Unreadable
open_error none exit_status = not_opened exit_status none
open_error (some raw) exit_status = not_opened exit_status (first_message raw.messages)

-- The report before the sections of a drive are read.
abbrev pub base_report : SmartJson → ℕ → Report
base_report raw exit_status = record {
  serial = raw.serial_number;
  model = raw.model_name;
  device = raw.device_name;
  bus = raw.protocol;
  health = health raw exit_status;
  gaps = [];
  temperature = join raw.temperature;
  power_on_hours = join raw.power_on_time;
  percentage_used = none;
  available_spare = none;
  spare_threshold = none;
  critical_warning = none;
  data_written_bytes = none;
  self_test = none;
  self_test_log = [];
  self_test_format = format_ok;
  nvme_error_log_entries = none;
  counters = [];
}

abbrev with_gaps : SmartJson → Report → Report
with_gaps raw r = record r { gaps = gaps r raw }

-- The sections of a drive that answered.
unfoldable pub read_sections : SmartJson → ℕ → (ℕ → Bool) → Report
read_sections raw exit_status counters = with_gaps raw (
    apply_self_test raw
      (apply_nvme raw.nvme_health (apply_ata counters raw (base_report raw exit_status))))

-- `DecodeSMART`. The output parsed by `json.Unmarshal` is an argument, none where it fails.
unfoldable pub decode_smart : Option SmartJson → ℕ → (ℕ → Bool) → Unreadable ⊎ Report
decode_smart json exit_status counters =
    if failed_to_open exit_status then inl (open_error json exit_status) else elim json [
      | none ↦ inl not_decoded
      | some raw ↦
          if raw.serial_number == ""
          then inl no_serial
          else inr (read_sections raw exit_status counters)
    ]
