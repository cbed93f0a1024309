-- ===== src/Health/Runner/Retire/Matching.antt =====
-- Which drive a text means: `matchDrives` and `Retire` of pkg/health/runner/retire.go.
use tgshd.Base.{
  List, [], ◌∷◌, Bool, ◌≡◌, ◌⊎◌, inl, inr, refl, Option, none, some, select, Bytes, Bool-cases, ltb,
  length, ◌↔◌, ◌<◌, ◌≤◌, ap, sym, ◌∙◌, arith, codes, has_suffix,
}
use tgshd.Health.Store.{Baseline}
use tgshd.Health.Runner.Retire.{
  Drive, active_drives, exact, match_found, match_drives, chosen, choose_of, choose,
}

first_of : List Drive → Option Drive
first_of [] = none
first_of (d ∷ drives) = some d

module _ (to_lower : Bytes → Bytes) (equal_fold : Bytes → Bytes → Bool) where
  -- A drive's serial is a text, but for case, and ends with one, in lower case.
  abbrev pub has_serial : Bytes → Drive → Bool
  has_serial s d = equal_fold (codes d.serial) s

  abbrev pub has_ending : Bytes → Drive → Bool
  has_ending s d = has_suffix (to_lower (codes d.serial)) (to_lower s)

  -- The drive that a text means: the first whose serial it is, but for case; or, when it is none's and
  -- has at least four characters, the only one whose serial ends with it.
  abbrev pub IsMeant : List Drive → Bytes → Drive → Type 0
  IsMeant drives s d =
      (0 < length s)
      × (((rest : List Drive) × (select (has_serial s) drives ≡ d ∷ rest))
          ⊎ ((select (has_serial s) drives ≡ [])
              × (4 ≤ length s)
              × (select (has_ending s) drives ≡ d ∷ [])))

  exact-select :
      (drives : List Drive) (s : Bytes)
      → exact to_lower equal_fold drives s ≡ first_of (select (has_serial s) drives)
  unfolding exact first_of
  exact-select [] s = refl
  exact-select (d ∷ drives) s = elim (Bool-cases (equal_fold (codes d.serial) s)) [
    | inl e ↦ rw e refl
    | inr e ↦ rw e (exact-select drives s)
  ]

  chosen_of_iff :
      (drives found : List Drive) (d : Drive)
      → (choose_of to_lower equal_fold drives found ≡ chosen d) ↔ (found ≡ d ∷ [])
  unfolding choose_of
  chosen_of_iff drives [] d = (λ h. cc, λ h. cc)
  chosen_of_iff drives (x ∷ []) d = (λ h. cc, λ h. cc)
  chosen_of_iff drives (x ∷ y ∷ rest) d = (λ h. cc, λ h. cc)

  found_iff :
      (exactly drives : List Drive) (s : Bytes) (d : Drive)
      → (match_found to_lower equal_fold (first_of exactly) drives s ≡ d ∷ []) ↔ (
          ((rest : List Drive) × (exactly ≡ d ∷ rest))
          ⊎ ((exactly ≡ []) × (4 ≤ length s) × (select (has_ending s) drives ≡ d ∷ [])))
  unfolding match_found first_of
  found_iff (x ∷ exactly) drives s d =
      (λ h. inl (exactly, cc), λ h. elim h [ inl p ↦ cc p.1 | inr q ↦ cc q.0 ])
  found_iff [] drives s d = elim (Bool-cases (ltb (length s) 4)) [
    | inl e ↦
        rw e (λ h. cc, λ h. elim h [ inl p ↦ cc p.1 | inr q ↦ absurd (ground (arith, e, q.1)) ])
    | inr e ↦
        rw e (λ h. inr (refl, ground (arith, e), h), λ h. elim h [ inl p ↦ cc p.1 | inr q ↦ q.2 ])
  ]

  match_iff :
      (drives : List Drive) (s : Bytes) (d : Drive)
      → (match_drives to_lower equal_fold drives s ≡ d ∷ []) ↔ IsMeant drives s d
  unfolding match_drives
  match_iff drives [] d = (λ h. cc, λ h. absurd (omega (arith, h.0)))
  match_iff drives (c ∷ s) d =
      let found = found_iff (select (has_serial (c ∷ s)) drives) drives (c ∷ s) d in
      let by =
        ap (λ o. match_found to_lower equal_fold o drives (c ∷ s)) (exact-select drives (c ∷ s)) in
      (λ h. (omega arith, found.0 (sym by ∙ h)), λ h. by ∙ found.1 h.1)

  -- A drive is chosen to be retired exactly when the trimmed text means it among the active drives: it
  -- is the first whose serial is the text, but for case; or the text is no drive's serial, has at
  -- least four characters, and the drive is the only one whose serial ends with it. An empty text
  -- means none.
  pub choose_iff :
      (trim_space : Bytes → Bytes) (bases : List Baseline) (serial : Bytes) (d : Drive)
      → (choose to_lower equal_fold trim_space bases serial ≡ chosen d)
        ↔ IsMeant (active_drives bases) (trim_space serial) d
  unfolding choose
  choose_iff trim_space bases serial d =
      let drives = active_drives bases in
      let s = trim_space serial in
      let of_choice = chosen_of_iff drives (match_drives to_lower equal_fold drives s) d in
      let of_match = match_iff drives s d in
      (λ h. of_match.0 (of_choice.0 h), λ h. of_choice.1 (of_match.1 h))
