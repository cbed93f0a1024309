-- ===== src/Health/Runner/Retire.antt =====
-- Retiring a drive: pkg/health/runner/retire.go. `strings.ToLower`, `strings.EqualFold` and
-- `strings.TrimSpace` are parameters; a serial is the list of its characters.
pub mod Matching
use tgshd.Base.{
  ℕ, ◌+◌, ◌-◌, String, List, [], ◌∷◌, ◌++◌, Bool, true, false, not, Option, none, some, ltb,
  nat_beq, if◌then◌else◌, length, drop, select, Bytes, codes, has_suffix, sort, text_leb, ◌==◌,
  text_eq,
}
use tgshd.Health.Store.{Baseline}

-- `MinSerialSuffix` and `serialTailChars`.
abbrev pub min_serial_suffix : ℕ
min_serial_suffix = 4

abbrev pub serial_tail_chars : ℕ
serial_tail_chars = 4

pub record Drive : Type 0 where
  pub serial : String
  pub model : String
  pub bus : String

-- A part of a label with a space after it, when it is there.
abbrev part : String → Bytes
part p = if p == "" then [] else codes p ++ (32 ∷ [])

-- `Drive.Label`.
unfoldable pub label : Drive → Bytes
label d =
    let r = codes d.serial in
    part d.bus ++ part d.model ++ (8230 ∷ []) ++ drop (length r - serial_tail_chars) r

-- `activeDrives`, of the drive book's baselines.
unfoldable pub drives_of : List Baseline → List Drive
drives_of [] = []
drives_of (b ∷ bases) =
    let rest = drives_of bases in
    if b.retired then rest else record { serial = b.serial; model = b.model; bus = b.bus } ∷ rest

unfoldable pub active_drives : List Baseline → List Drive
unfolding drives_of
active_drives bases = sort (λ a b. text_leb a.serial b.serial) (drives_of bases)

module _ (to_lower : Bytes → Bytes) (equal_fold : Bytes → Bytes → Bool) where
  -- The exact match of `matchDrives`.
  unfoldable pub exact : List Drive → Bytes → Option Drive
  exact [] s = none
  exact (d ∷ drives) s =
      let rest = exact drives s in if equal_fold (codes d.serial) s then some d else rest

  abbrev pub ends_with : Bytes → Drive → Bool
  ends_with s d = has_suffix (to_lower (codes d.serial)) (to_lower s)

  -- `matchDrives`.
  unfoldable pub match_found : Option Drive → List Drive → Bytes → List Drive
  match_found (some d) drives s = d ∷ []
  match_found none drives s =
      if ltb (length s) min_serial_suffix then [] else select (ends_with s) drives

  unfoldable pub match_drives : List Drive → Bytes → List Drive
  unfolding match_found exact
  match_drives drives [] = []
  match_drives drives (c ∷ s) = match_found (exact drives (c ∷ s)) drives (c ∷ s)

  -- What `Retire` decides before it changes anything: the drive, or the candidates of its error.
  pub data Choice : Type 0 where
    chosen : Drive → Choice
    no_drive ambiguous : List Drive → Choice

  unfoldable pub choose_of : List Drive → List Drive → Choice
  choose_of drives [] = no_drive drives
  choose_of drives (d ∷ []) = chosen d
  choose_of drives (d ∷ e ∷ rest) = ambiguous (d ∷ e ∷ rest)

  unfoldable pub choose : (Bytes → Bytes) → List Baseline → Bytes → Choice
  unfolding choose_of
  choose trim_space bases serial =
      let drives = active_drives bases in choose_of drives (match_drives drives (trim_space serial))
