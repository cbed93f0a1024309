-- ===== src/Memguard/Records/Repeat.antt =====
-- The repeat rule: `Guard.actionFor` of pkg/health/memguard/episode.go.
use tgshd.Base.{
  ◌≤◌, ◌<◌, List, [], ◌∷◌, true, ◌&&◌, ◌≡◌, ◌⊎◌, inl, inr, refl, sym, ◌∙◌, arith, if◌then◌else◌,
  nat_beq, ltb, Bytes, Bool-cases, All, All-map,
}
use mathlib.Core.List.{Memᴰ}
use tgshd.Health.Types.{Time, Duration}
use tgshd.Memguard.Types.{restart, stop, Intervention}
use tgshd.Memguard.Records.{counts, last_loop, action_for}

-- The loop ends with a time that no counted record exceeds, which it began with or which is that of a
-- counted record.
record IsLast (window : Duration) (id : Bytes) (at : Time) (rs : List Intervention)
    (first last : Time) : Type 0 where
  grows : first ≤ last
  bound : All (λ r. counts window id at r ≡ true → r.at ≤ last) rs
  met :
      (last ≡ first)
      ⊎ ((r : Intervention) × Memᴰ r rs × (counts window id at r ≡ true) × (r.at ≡ last))

met_later :
    (window : Duration) (id : Bytes) (at : Time) (r : Intervention) (rs : List Intervention)
    (first last next : Time)
    → (next ≡ first) ⊎ ((counts window id at r ≡ true) × (r.at ≡ next))
    → (last ≡ next)
      ⊎ ((o : Intervention) × Memᴰ o rs × (counts window id at o ≡ true) × (o.at ≡ last))
    → (last ≡ first)
      ⊎ ((o : Intervention) × Memᴰ o (r ∷ rs) × (counts window id at o ≡ true) × (o.at ≡ last))
met_later window id at r rs first last next w (inr (o, m, c, e)) = inr (o, Memᴰ.tail m, c, e)
met_later window id at r rs first last next (inl e) (inl f) = inl (f ∙ e)
met_later window id at r rs first last next (inr (c, e)) (inl f) =
    inr (r, Memᴰ.head refl, c, e ∙ sym f)

abbrev next_last : Duration → Bytes → Time → Intervention → Time → Time
next_last window id at r last = if counts window id at r && ltb last r.at then r.at else last

next_last_lem :
    (window : Duration) (id : Bytes) (at : Time) (r : Intervention) (last : Time)
    → let next = next_last window id at r last in
      (last ≤ next)
      × (counts window id at r ≡ true → r.at ≤ next)
      × ((next ≡ last) ⊎ ((counts window id at r ≡ true) × (r.at ≡ next)))
next_last_lem window id at r last = (ground arith, ground arith, ground arith)

last_loop-IsLast :
    (window : Duration) (id : Bytes) (at : Time) (rs : List Intervention) (first : Time)
    → IsLast window id at rs first (last_loop window id at rs first)
unfolding last_loop
last_loop-IsLast window id at [] first = record { grows = omega arith; bound = tt; met = inl refl }
last_loop-IsLast window id at (r ∷ rs) first =
    let next = next_last window id at r first in
    let (grows, bound, met) = next_last_lem window id at r first in
    let rest = last_loop-IsLast window id at rs next in
    record {
      grows = omega (arith, grows, rest.grows);
      bound = (λ c. omega (arith, bound c, rest.grows), rest.bound);
      met = met_later window id at r rs first _ next met rest.met;
    }

-- The action is a stop, told with the time of the latest counted intervention on the service,
-- when the rule has a window and some counted intervention is after the zero time; else it is a
-- restart.
pub action_for_lem :
    (window : Duration) (id : Bytes) (at : Time) (rs : List Intervention)
    → ((r : Intervention) × (action_for window id at rs ≡ (stop, r.at))
        × Memᴰ r rs
        × (counts window id at r ≡ true)
        × All (λ o. counts window id at o ≡ true → o.at ≤ r.at) rs
        × (0 < window)
        × (0 < r.at))
      ⊎ ((action_for window id at rs ≡ (restart, 0))
          × ((window ≡ 0) ⊎ All (λ o. counts window id at o ≡ true → o.at ≡ 0) rs))
unfolding action_for
action_for_lem window id at rs = elim (Bool-cases (nat_beq window 0)) [
  | inl z ↦ inr (rw z refl, inl (ground arith))
  | inr z ↦
      let l = last_loop-IsLast window id at rs 0 in
      elim (Bool-cases (nat_beq (last_loop window id at rs 0) 0)) [
        | inl e ↦
            inr (rw (z, e) refl, inr (All-map _ _ rs (λ o h k. ground (arith, h k, e)) l.bound))
        | inr e ↦ elim l.met [
          | inl f ↦ absurd (ground arith)
          | inr (r, m, c, f) ↦ inl (
            r,
            rw (z, e, f) refl,
            m,
            c,
            All-map _ _ rs (λ o h k. rw f (h k)) l.bound,
            ground arith,
            ground arith,
          )
        ]
      ]
]
