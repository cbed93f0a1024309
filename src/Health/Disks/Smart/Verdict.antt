-- ===== src/Health/Disks/Smart/Verdict.antt =====
-- The verdict, the gaps and the newest self-test of a decoded report: `DecodeSMART` of
-- pkg/health/check/disks/smart.go, and `newestOf` of selftest.go beside it.
use tgshd.Base.{
  ℕ, List, [], ◌∷◌, Bool, true, false, ◌&&◌, ◌≡◌, ◌↔◌, ◌⊎◌, refl, ap, subst, ◌∙◌, Option, none,
  some, inl, inr, arith, if◌then◌else◌, ◌==◌, text_eq, any, Bool-cases,
}
use tgshd.Health.Disks.Types.{
  ok, failing, Gap, attributes, nvme_health_log, selftest_log, temperature, passed, failed,
  SelfTestEntry, SelfTest, Report, AtaAttribute, NvmeHealth, SmartJson, Unreadable,
}
use tgshd.Health.Disks.Smart.{
  failed_to_open, disk_failing, is_ata, is_zero, table_of, health, apply_raw, apply_attribute,
  apply_attributes, apply_ata, apply_nvme, apply_self_test, gaps, read_sections, decode_smart,
}
use tgshd.Health.Disks.Log.{self_test_log_missing, newest_finished}
use tgshd.Health.Disks.SelfTest.{SelfTestNewest, newest_of, summary_of}

-- What no section changes.
record Kept (r r' : Report) : Type 0 where
  health : r'.health ≡ r.health
  bus : r'.bus ≡ r.bus

Kept-trans : (r s t : Report) → Kept r s → Kept s t → Kept r t
Kept-trans r s t a b = record { health = b.health ∙ a.health; bus = b.bus ∙ a.bus }

apply_raw-Kept :
    (counters : ℕ → Bool) (solid : Bool) (block : Option ℕ) (id : ℕ) (v : Option ℕ) (r : Report)
    → Kept r (apply_raw counters solid block id v r)
unfolding apply_raw
apply_raw-Kept counters solid block id none r = record { health = refl; bus = refl }
apply_raw-Kept counters solid block id (some v) r = record {
  health = ground arith;
  bus = ground arith;
}

apply_attribute-Kept :
    (counters : ℕ → Bool) (solid : Bool) (block : Option ℕ) (a : AtaAttribute) (r : Report)
    → Kept r (apply_attribute counters solid block a r)
unfolding apply_attribute
apply_attribute-Kept counters solid block a r =
    Kept-trans r _ _ (record { health = ground arith; bus = ground arith })
      (apply_raw-Kept counters solid block a.id _ _)

apply_attributes-Kept :
    (counters : ℕ → Bool) (solid : Bool) (block : Option ℕ) (table : List AtaAttribute) (r : Report)
    → Kept r (apply_attributes counters solid block table r)
unfolding apply_attributes
apply_attributes-Kept counters solid block [] r = record { health = refl; bus = refl }
apply_attributes-Kept counters solid block (a ∷ rest) r =
    Kept-trans r _ _ (apply_attribute-Kept counters solid block a r)
      (apply_attributes-Kept counters solid block rest _)

apply_nvme-Kept : (h : Option NvmeHealth) (r : Report) → Kept r (apply_nvme h r)
unfolding apply_nvme
apply_nvme-Kept none r = record { health = refl; bus = refl }
apply_nvme-Kept (some h) r = record { health = ground arith; bus = ground arith }

apply_self_test-Kept : (raw : SmartJson) (r : Report) → Kept r (apply_self_test raw r)
unfolding apply_self_test
apply_self_test-Kept raw r = record { health = ground arith; bus = ground arith }

abbrev pub gap_beq : Gap → Gap → Bool
gap_beq selftest_log selftest_log = true
gap_beq attributes attributes = true
gap_beq nvme_health_log nvme_health_log = true
gap_beq temperature temperature = true
gap_beq _ _ = false

gaps-self_test :
    (r : Report) (raw : SmartJson)
    → any (gap_beq selftest_log) (gaps r raw) ≡ self_test_log_missing raw r.bus
unfolding gaps self_test_log_missing
gaps-self_test r raw = ground arith

-- The newest self-test of a report, as the stored summary words it.
abbrev pub worded : Option SelfTest → Option SelfTestNewest
worded none = none
worded (some t) = some (record {
  result = if t.is_failed then failed else passed;
  description = t.description;
  hours = elim t.power_on_hours [ none ↦ 0 | some h ↦ h ];
})

-- The two loops that find the newest finished self-test, that of the report and that of the
-- stored summary, find the same one of any log.
pub newest_of-newest_finished :
    (log : List SelfTestEntry) → summary_of (newest_of log) ≡ worded (newest_finished log)
unfolding newest_of newest_finished
newest_of-newest_finished [] = refl
newest_of-newest_finished (e ∷ log) = ground (arith, newest_of-newest_finished log)

sections-Kept :
    (counters : ℕ → Bool) (raw : SmartJson) (r : Report)
    → Kept r (apply_self_test raw (apply_nvme raw.nvme_health (apply_ata counters raw r)))
unfolding apply_ata
sections-Kept counters raw r =
    let first =
      apply_attributes-Kept counters (is_ata r.bus && is_zero raw.rotation_rate) raw.logical_block
        (table_of raw.ata_attributes) r in
    let second = apply_nvme-Kept raw.nvme_health _ in
    let third = apply_self_test-Kept raw _ in Kept-trans r _ _ (Kept-trans r _ _ first second) third

health-ok :
    (raw : SmartJson) (exit_status : ℕ)
    → (health raw exit_status ≡ ok)
      ↔ ((disk_failing exit_status ≡ false) × (raw.smart_status ≡ some (some true)))
unfolding health
health-ok raw exit_status = ground arith

health-failing :
    (raw : SmartJson) (exit_status : ℕ)
    → (health raw exit_status ≡ failing)
      ↔ ((disk_failing exit_status ≡ true) ⊎ (raw.smart_status ≡ some (some false)))
unfolding health
health-failing raw exit_status = ground arith

-- What a report says of the output that it was decoded from.
pub record IsDecoded (raw : SmartJson) (exit_status : ℕ) (r : Report) : Type 0 where
  pub opened : failed_to_open exit_status ≡ false
  pub named : (raw.serial_number == "") ≡ false
  pub healthy :
      (r.health ≡ ok) ↔ ((disk_failing exit_status ≡ false) × (raw.smart_status ≡ some (some true)))
  pub fails :
      (r.health ≡ failing)
      ↔ ((disk_failing exit_status ≡ true) ⊎ (raw.smart_status ≡ some (some false)))
  pub log_gap : any (gap_beq selftest_log) r.gaps ≡ self_test_log_missing raw raw.protocol

read_sections-IsDecoded :
    (raw : SmartJson) (exit_status : ℕ) (counters : ℕ → Bool)
    → failed_to_open exit_status ≡ false
    → (raw.serial_number == "") ≡ false
    → IsDecoded raw exit_status (read_sections raw exit_status counters)
unfolding read_sections
read_sections-IsDecoded raw exit_status counters o n =
    let kept = sections-Kept counters raw _ in
    record {
      opened = o;
      named = n;
      healthy = rw kept.health (health-ok raw exit_status);
      fails = rw kept.health (health-failing raw exit_status);
      log_gap = gaps-self_test _ raw ∙ ap (self_test_log_missing raw) kept.bus;
    }

-- A report is made only of output that was parsed, of a drive that was opened and has a serial
-- number. It says ok just when smartctl gave a passed verdict and no failing exit bit, and failing
-- just when either says so, so no verdict is never healthy; and it lists the self-test log as a
-- gap just when the output of an ATA or NVMe drive has none.
pub decode_smart-IsDecoded :
    (json : Option SmartJson) (exit_status : ℕ) (counters : ℕ → Bool) (r : Report)
    → decode_smart json exit_status counters ≡ inr r
    → (raw : SmartJson) × (json ≡ some raw) × IsDecoded raw exit_status r
unfolding decode_smart
decode_smart-IsDecoded none exit_status counters r e = absurd (ground arith)
decode_smart-IsDecoded (some raw) exit_status counters r e =
    elim (Bool-cases (failed_to_open exit_status)) [
      | inl o ↦ absurd (not_left _ r (rw o at e))
      | inr o ↦ elim (Bool-cases (raw.serial_number == "")) [
        | inl n ↦ absurd (not_left _ r (rw (o, n) at e))
        | inr n ↦ (
          raw,
          refl,
          subst (IsDecoded raw exit_status) (right_of _ r (rw (o, n) at e))
              (read_sections-IsDecoded raw exit_status counters o n),
        )
      ]
    ]
  where
    not_left : (u : Unreadable) (r : Report) → ◌≡◌ {A = Unreadable ⊎ Report} (inl u) (inr r) → ⊥
    not_left u r h = cc

    right_of : (r s : Report) → ◌≡◌ {A = Unreadable ⊎ Report} (inr r) (inr s) → r ≡ s
    right_of r s h = cc
