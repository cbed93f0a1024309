-- ===== src/Health/RateMarks/Spacing.antt =====
-- `Allow` and `Revert` of pkg/health/ratelimit.go over the sends of one message.
use tgshd.Base.{
  ◌+◌, ◌≤◌, ◌<◌, List, [], ◌∷◌, true, false, ◌≡◌, ◌≢◌, refl, ◌∙◌, none, some, inl, inr, arith,
  if◌then◌else◌, lookup, insert, delete, lookup-insert_self, lookup-delete_self, lookup-insert_ne,
  lookup-delete_ne, Option-cases, Bool-cases,
}
use tgshd.Health.Types.{Time, Duration}
use tgshd.Health.RateMarks.{RateKey, rate_key_eq, Marks, within_window, allow, revert}

-- The times at which the message of `k` was let through, asked at each of `ts`.
unfoldable pub sends : RateKey → Duration → List Time → Marks → List Time
sends k window [] marks = []
sends k window (t ∷ ts) marks =
    let (marks', ok) = allow k t window marks in
    let later = sends k window ts marks' in if ok then t ∷ later else later

-- The clock does not go backwards.
abbrev pub Ordered : Time → List Time → Type 0
Ordered from [] = Unit
Ordered from (t ∷ ts) = (from ≤ t) × Ordered t ts

-- Each send is at least a window after the one before it.
abbrev pub Spaced : Duration → Time → List Time → Type 0
Spaced window last [] = Unit
Spaced window last (t ∷ ts) = (last + window ≤ t) × Spaced window t ts

abbrev pub SpacedAll : Duration → List Time → Type 0
SpacedAll window [] = Unit
SpacedAll window (t ∷ ts) = Spaced window t ts

Ordered-mono :
    (from from' : Time) (ts : List Time) → from ≤ from' → Ordered from' ts → Ordered from ts
Ordered-mono from from' [] h o = tt
Ordered-mono from from' (t ∷ ts) h o = (omega arith, o.1)

-- With a mark at `last`, `Allow` refuses just within the window, and else moves the mark.
allow_marked :
    (k : RateKey) (last t : Time) (window : Duration) (marks : Marks)
    → lookup k marks ≡ some last
    → allow k t window marks
      ≡ (if within_window last t window then (marks, false) else (insert k t marks, true))
unfolding allow
allow_marked k last t window marks h = rw (h, allow)

sends-Spaced :
    (k : RateKey) (window : Duration) (ts : List Time) (marks : Marks) (last : Time)
    → lookup k marks ≡ some last
    → Ordered last ts
    → Spaced window last (sends k window ts marks)
unfolding sends
sends-Spaced k window [] marks last h o = tt
sends-Spaced k window (t ∷ ts) marks last h o =
    rw (allow_marked k last t window marks h) (elim (Bool-cases (within_window last t window)) [
      | inl e ↦ rw e (sends-Spaced k window ts marks last h (Ordered-mono last t ts o.0 o.1))
      | inr e ↦ rw e (
        ground arith,
        sends-Spaced k window ts (insert k t marks) t (lookup-insert_self k t marks) o.1,
      )
    ])

allow_unmarked :
    (k : RateKey) (t : Time) (window : Duration) (marks : Marks)
    → lookup k marks ≡ none
    → allow k t window marks ≡ (insert k t marks, true)
unfolding allow
allow_unmarked k t window marks h = rw (h, allow)

Spaced→SpacedAll :
    (window last : Duration) (ts : List Time) → Spaced window last ts → SpacedAll window ts
Spaced→SpacedAll window last [] s = tt
Spaced→SpacedAll window last (t ∷ ts) s = s.1

-- Under a clock that does not go backwards, the sends that `Allow` lets through for one key and
-- channel are at least a window apart, whatever marks there were.
pub sends-SpacedAll :
    (k : RateKey) (window : Duration) (from : Time) (ts : List Time) (marks : Marks)
    → Ordered from ts
    → SpacedAll window (sends k window ts marks)
unfolding sends
sends-SpacedAll k window from [] marks o = tt
sends-SpacedAll k window from (t ∷ ts) marks o = elim (Option-cases (lookup k marks)) [
  | inl h ↦
      rw (allow_unmarked k t window marks h)
        (sends-Spaced k window ts (insert k t marks) t (lookup-insert_self k t marks) o.1)
  | inr (last, h) ↦
      rw (allow_marked k last t window marks h) (elim (Bool-cases (within_window last t window)) [
        | inl e ↦ rw e (sends-SpacedAll k window t ts marks o.1)
        | inr e ↦
            rw e (sends-Spaced k window ts (insert k t marks) t (lookup-insert_self k t marks) o.1)
      ])
]

-- A denial leaves every mark, a send moves only its own mark, and a mark of the future denies
-- nothing.
pub allow-lookup :
    (k j : RateKey) (now : Time) (window : Duration) (marks : Marks)
    → let (marks', ok) = allow k now window marks in
      (ok ≡ false → marks' ≡ marks)
      × (ok ≡ true → lookup k marks' ≡ some now)
      × (k ≢ j → lookup j marks' ≡ lookup j marks)
      × ((last : Time) → lookup k marks ≡ some last → now < last → ok ≡ true)
unfolding allow
allow-lookup k j now window marks = elim (Option-cases (lookup k marks)) [
  | inl h ↦
      rw (h, allow)
        (
          λ e. cc,
          λ e. lookup-insert_self k now marks,
          lookup-insert_ne k j now marks,
          λ last e f. refl,
        )
  | inr (last, h) ↦ elim (Bool-cases (within_window last now window)) [
    | inl w ↦ rw (h, allow, w) (λ e. refl, λ e. cc, λ e. refl, λ l e f. ground arith)
    | inr w ↦
        rw (h, allow, w)
          (
            λ e. cc,
            λ e. lookup-insert_self k now marks,
            lookup-insert_ne k j now marks,
            λ l e f. refl,
          )
  ]
]

revert_marked :
    (k : RateKey) (at : Time) (marks : Marks)
    → lookup k marks ≡ some at
    → revert k at marks ≡ delete k marks
unfolding revert
revert_marked k at marks h = ground arith

revert_other :
    (k : RateKey) (at since : Time) (marks : Marks)
    → lookup k marks ≡ some since
    → since ≢ at
    → revert k at marks ≡ marks
unfolding revert
revert_other k at since marks h ne = ground arith

-- A send that was refused without being attempted gives its mark back: after `Revert` at the time
-- that `Allow` set, the message may go out at once. A mark set since is kept, and so is every
-- other mark.
pub revert-allow :
    (k j : RateKey) (at now since : Time) (window : Duration) (marks : Marks)
    → (allow k at window marks).1 ≡ true
    → k ≢ j
    → since ≢ at
    → let marks' = (allow k at window marks).0 in
      ((allow k now window (revert k at marks')).1 ≡ true)
      × (lookup j (revert k at marks') ≡ lookup j marks)
      × (revert k at (insert k since marks') ≡ insert k since marks')
revert-allow k j at now since window marks sent ne later =
    let mine = (allow-lookup k j at window marks).1 sent in
    let others = (allow-lookup k j at window marks).2 in
    (
      rw (revert_marked k at _ mine)
          (rw (allow_unmarked k now window _ (lookup-delete_self k (allow k at window marks).0))),
      rw (revert_marked k at _ mine) (lookup-delete_ne k j _ ne ∙ others ne),
      revert_other k at since _ (lookup-insert_self k since _) later,
    )
