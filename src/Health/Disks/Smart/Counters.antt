-- ===== src/Health/Disks/Smart/Counters.antt =====
-- The error counters of a decoded report: `applyATA` and `applyNVMe` of
-- pkg/health/check/disks/smart.go.
use tgshd.Base.{
  ℕ, List, [], ◌∷◌, Bool, true, false, ◌&&◌, ◌≡◌, refl, ◌∙◌, Option, none, some, arith, nat_beq,
  if◌then◌else◌, lookup, lookup-insert,
}
use tgshd.Health.Disks.Types.{
  Counter, ata_counter, nvme_media_errors, counter_eq, Report, AtaAttribute, NvmeHealth, SmartJson,
}
use tgshd.Health.Disks.Smart.{
  join, tracked, is_ata, is_zero, table_of, apply_raw, apply_attribute, apply_attributes, apply_ata,
  apply_nvme, apply_self_test, read_sections, base_report, with_written, with_media_errors,
}

-- The raw value of the last row of an attribute that has one.
abbrev pub newer : Option ℕ → Option ℕ → Option ℕ
newer none old = old
newer (some v) old = some v

unfoldable pub latest_raw : ℕ → List AtaAttribute → Option ℕ → Option ℕ
latest_raw id [] v = v
latest_raw id (a ∷ rest) v =
    latest_raw id rest (if nat_beq a.id id then newer (join a.raw) v else v)

abbrev counter : ℕ → Report → Option ℕ
counter id r = lookup (ata_counter id) r.counters

counter-apply_raw :
    (counters : ℕ → Bool) (solid : Bool) (block : Option ℕ) (row : ℕ) (v : Option ℕ) (r : Report)
    (id : ℕ)
    → counter id (apply_raw counters solid block row v r)
      ≡ (if tracked counters id && nat_beq row id then newer v (counter id r) else counter id r)
unfolding apply_raw
counter-apply_raw counters solid block row none r id = ground arith
counter-apply_raw counters solid block row (some v) r id =
    ground (arith, lookup-insert (ata_counter row) (ata_counter id) v r.counters)

counter-apply_attribute :
    (counters : ℕ → Bool) (solid : Bool) (block : Option ℕ) (a : AtaAttribute) (r : Report) (id : ℕ)
    → counter id (apply_attribute counters solid block a r) ≡ (
        if tracked counters id && nat_beq a.id id
        then newer (join a.raw) (counter id r)
        else counter id r)
unfolding apply_attribute
counter-apply_attribute counters solid block a r id =
    counter-apply_raw counters solid block a.id (join a.raw) _ id ∙ ground arith

by_test :
    (b c : Bool) (f : Option ℕ → Option ℕ) (new old : Option ℕ)
    → (if b then f (if b && c then new else old) else (if b && c then new else old))
      ≡ (if b then f (if c then new else old) else old)
by_test true c f new old = refl
by_test false c f new old = refl

counter-apply_attributes :
    (counters : ℕ → Bool) (solid : Bool) (block : Option ℕ) (table : List AtaAttribute) (r : Report)
    (id : ℕ)
    → counter id (apply_attributes counters solid block table r)
      ≡ (if tracked counters id then latest_raw id table (counter id r) else counter id r)
unfolding apply_attributes latest_raw
counter-apply_attributes counters solid block [] r id = ground arith
counter-apply_attributes counters solid block (a ∷ rest) r id =
    counter-apply_attributes counters solid block rest (apply_attribute counters solid block a r) id
    ∙ rw (counter-apply_attribute counters solid block a r id) (
        by_test (tracked counters id) (nat_beq a.id id) (latest_raw id rest)
          (newer (join a.raw) (counter id r)) (counter id r))

counter-with_media_errors :
    (n : Option ℕ) (r : Report) (id : ℕ) → counter id (with_media_errors n r) ≡ counter id r
counter-with_media_errors none r id = refl
counter-with_media_errors (some n) r id =
    lookup-insert nvme_media_errors (ata_counter id) n r.counters

counter-with_written :
    (units : Option ℕ) (r : Report) (id : ℕ) → counter id (with_written units r) ≡ counter id r
counter-with_written none r id = refl
counter-with_written (some units) r id = refl

counter-apply_nvme :
    (h : Option NvmeHealth) (r : Report) (id : ℕ) → counter id (apply_nvme h r) ≡ counter id r
unfolding apply_nvme
counter-apply_nvme none r id = refl
counter-apply_nvme (some h) r id =
    counter-with_media_errors h.media_errors _ id ∙ counter-with_written h.data_units_wrote _ id

counter-apply_self_test :
    (raw : SmartJson) (r : Report) (id : ℕ) → counter id (apply_self_test raw r) ≡ counter id r
unfolding apply_self_test
counter-apply_self_test raw r id = ground arith

no_counter :
    (id : ℕ) → lookup (ata_counter id) (let nothing : List (Counter × ℕ) = [] in nothing) ≡ none
unfolding lookup
no_counter id = refl

-- The report has, for each ATA attribute that is tracked, the raw value of its last row that has
-- one, if any, whatever the other rows and sections say; and nothing for one that is not tracked.
pub counter-read_sections :
    (raw : SmartJson) (exit_status : ℕ) (counters : ℕ → Bool) (id : ℕ)
    → counter id (read_sections raw exit_status counters)
      ≡ (if tracked counters id then latest_raw id (table_of raw.ata_attributes) none else none)
unfolding read_sections apply_ata
counter-read_sections raw exit_status counters id =
    counter-apply_self_test raw _ id
    ∙ counter-apply_nvme raw.nvme_health _ id
    ∙ counter-apply_attributes counters (is_ata raw.protocol && is_zero raw.rotation_rate)
        raw.logical_block (table_of raw.ata_attributes) (base_report raw exit_status) id
    ∙ rw (no_counter id) refl
