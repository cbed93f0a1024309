-- ===== src/Health/Disks/Types.antt =====
-- The data of pkg/health/check/disks/smart.go: the parsed output of smartctl and the report made
-- of it. A pointer is an option. Hours, ids, codes and exit statuses are natural numbers, which
-- smartctl prints; the other values of type int are integers.
use tgshd.Base.{
  ℕ, ℤ, String, List, Bool, true, false, Option, ◌≡◌, ◌↔◌, Eq, arith, nat_beq, nat_beq_iff,
}

pub data Bus : Type 0 where
  ata nvme scsi : Bus
  -- Any other protocol text.
  other_bus : String → Bus

pub data Health : Type 0 where
  unknown ok failing : Health

pub data Gap : Type 0 where
  attributes nvme_health_log selftest_log temperature : Gap

pub data SelfTestResult : Type 0 where
  passed aborted in_progress failed skipped : SelfTestResult

pub data SelfTestFormat : Type 0 where
  format_ok unsupported : SelfTestFormat

pub record SelfTestId : Type 0 where
  pub hours : ℕ
  pub type : ℕ
  pub code : ℕ

pub record SelfTestEntry : Type 0 where
  pub id : SelfTestId
  pub description : String
  pub result : SelfTestResult
  pub has_hours : Bool
  pub wraps : Bool

pub record SelfTest : Type 0 where
  pub description : String
  pub is_failed : Bool
  pub power_on_hours : Option ℕ

-- The keys of the counters: the texts "ata.<id>" and "nvme.media_errors".
pub data Counter : Type 0 where
  ata_counter : ℕ → Counter
  nvme_media_errors : Counter

abbrev pub counter_beq : Counter → Counter → Bool
counter_beq (ata_counter a) (ata_counter b) = nat_beq a b
counter_beq (ata_counter a) nvme_media_errors = false
counter_beq nvme_media_errors (ata_counter b) = false
counter_beq nvme_media_errors nvme_media_errors = true

pub counter_beq_iff : (a b : Counter) → (counter_beq a b ≡ true) ↔ (a ≡ b)
counter_beq_iff (ata_counter a) (ata_counter b) = ground (arith, nat_beq_iff a b)
counter_beq_iff (ata_counter a) nvme_media_errors = ground arith
counter_beq_iff nvme_media_errors (ata_counter b) = ground arith
counter_beq_iff nvme_media_errors nvme_media_errors = ground arith

instance abbrev pub counter_eq : Eq Counter
counter_eq = record { beq = counter_beq; beq_iff = counter_beq_iff }

pub record Report : Type 0 where
  pub serial : String
  pub model : String
  pub device : String
  pub bus : Bus
  pub health : Health
  pub gaps : List Gap
  pub temperature : Option ℤ
  pub power_on_hours : Option ℕ
  pub percentage_used : Option ℤ
  pub available_spare : Option ℤ
  pub spare_threshold : Option ℤ
  pub critical_warning : Option ℤ
  pub data_written_bytes : Option ℕ  -- uint64
  pub self_test : Option SelfTest
  pub self_test_log : List SelfTestEntry
  pub self_test_format : SelfTestFormat
  pub nvme_error_log_entries : Option ℕ
  pub counters : List (Counter × ℕ)

pub record AtaAttribute : Type 0 where
  pub id : ℕ
  pub name : String
  pub value : Option ℤ
  pub raw : Option (Option ℕ)

pub record NvmeHealth : Type 0 where
  pub critical_warning : Option ℤ
  pub temperature : Option ℤ
  pub available_spare : Option ℤ
  pub spare_threshold : Option ℤ
  pub percentage_used : Option ℤ
  pub data_units_wrote : Option ℕ
  pub media_errors : Option ℕ
  pub err_log_entries : Option ℕ

-- A row of either self-test log: its hours, the code of the test's kind, and its status.
pub record LogRow : Type 0 where
  pub hours : Option ℕ
  pub type : ℕ
  pub status : Option ℕ
  pub text : String

-- `smartJSON`, the output of smartctl as `json.Unmarshal` fills it. A nil table is `none`.
pub record SmartJson : Type 0 where
  pub messages : List String
  pub device_name : String
  pub protocol : Bus
  pub rotation_rate : Option ℕ
  pub logical_block : Option ℕ
  pub model_name : String
  pub serial_number : String
  pub smart_status : Option (Option Bool)
  pub ata_attributes : Option (List AtaAttribute)
  pub nvme_health : Option NvmeHealth
  pub temperature : Option (Option ℤ)
  pub power_on_time : Option (Option ℕ)
  pub ata_self_test : Option (Option (List LogRow))
  pub nvme_self_test : Option (List LogRow)

-- What an unreadable drive is reported with.
pub data Unreadable : Type 0 where
  not_opened : ℕ → Option String → Unreadable
  not_decoded no_serial : Unreadable
