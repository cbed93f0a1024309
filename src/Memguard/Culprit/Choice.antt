-- ===== src/Memguard/Culprit/Choice.antt =====
-- The choice among the growths: `beats` and `Guard.Culprit` of pkg/health/memguard/culprit.go.
use tgshd.Base.{
  List, [], ◌∷◌, Bool, true, false, ◌≡◌, ◌⊎◌, inl, inr, refl, sym, ap, ◌∙◌, Option, none, some,
  arith, All, Bool-cases, Option-cases, bytes_ltb_trans, bytes_ltb_total, bytes_ltb_irrefl,
}
use tgshd.Health.Types.{Time}
use tgshd.Memguard.Types.{Config, ServiceKey, Culprit}
use tgshd.Memguard.Culprit.{Entry, beats, candidate, better, choose, culprit}

beats_trans : (a b c : Culprit) → beats a b ≡ true → beats b c ≡ true → beats a c ≡ true
unfolding beats
beats_trans a b c h k = ground (arith, bytes_ltb_trans a.service.id b.service.id c.service.id)

-- Of two services with different IDs, one beats the other.
beats_total : (a b : Culprit) → beats a b ≡ false → beats b a ≡ false → a.service.id ≡ b.service.id
unfolding beats
beats_total a b h k = ground (arith, bytes_ltb_total a.service.id b.service.id)

beats_irrefl : (a : Culprit) → beats a a ≡ false
unfolding beats
beats_irrefl a = ground (arith, bytes_ltb_irrefl a.service.id)

-- No growth of the entries that is not skipped beats `c`.
abbrev pub Unbeaten : Config → Time → Culprit → List (ServiceKey × Entry) → Type 0
Unbeaten cfg at c =
    All λ entry. (d : Culprit) → candidate cfg at entry.1 ≡ some d → beats d c ≡ false

-- The growth is that of one of the entries.
abbrev pub IsCandidate : Config → Time → Culprit → List (ServiceKey × Entry) → Type 0
IsCandidate cfg at c [] = ⊥
IsCandidate cfg at c ((k, e) ∷ es) = (candidate cfg at e ≡ some c) ⊎ IsCandidate cfg at c es

-- The two outcomes of the loop started with `best`.
record Chosen (cfg : Config) (at : Time) (es : List (ServiceKey × Entry)) (best : Culprit)
    (c : Culprit) : Type 0 where
  chosen : (c ≡ best) ⊎ IsCandidate cfg at c es
  above : (d : Culprit) → beats d best ≡ false → beats d c ≡ false
  unbeaten : Unbeaten cfg at c es

not_above : (a b d : Culprit) → beats a b ≡ true → beats d b ≡ false → beats d a ≡ false
not_above a b d h k = elim (Bool-cases (beats d a)) [
  | inl e ↦ absurd (true_is_not_false (sym (beats_trans d a b e h) ∙ k))
  | inr e ↦ e
]
  where
    true_is_not_false : ◌≡◌ {A = Bool} true false → ⊥
    true_is_not_false e = cc

-- What one entry does to the best growth so far.
record Improves (found : Option Culprit) (best b : Culprit) : Type 0 where
  kept : (b ≡ best) ⊎ (found ≡ some b)
  above : (d : Culprit) → beats d best ≡ false → beats d b ≡ false
  beyond : (d : Culprit) → found ≡ some d → beats d b ≡ false

beats-false_of_eq :
    (c d b : Culprit)
    → ◌≡◌ {A = Option Culprit} (some c) (some d)
    → beats c b ≡ false
    → beats d b ≡ false
beats-false_of_eq c d b e h = cc

better-some :
    (found : Option Culprit) (best : Culprit)
    → (b : Culprit) × (better found (some best) ≡ some b) × Improves found best b
better-some none best =
    (best, refl, record { kept = inl refl; above = λ d h. h; beyond = λ d e. cc })
better-some (some c) best = elim (Bool-cases (beats c best)) [
  | inl h ↦ (
    c,
    rw h,
    record {
      kept = inr refl;
      above = λ d k. not_above c best d h k;
      beyond = λ d e. beats-false_of_eq c d c e (beats_irrefl c);
    },
  )
  | inr h ↦ (
    best,
    rw h,
    record { kept = inl refl; above = λ d k. k; beyond = λ d e. beats-false_of_eq c d best e h },
  )
]

choose-some :
    (cfg : Config) (at : Time) (es : List (ServiceKey × Entry)) (best : Culprit)
    → (c : Culprit) × (choose cfg at es (some best) ≡ some c) × Chosen cfg at es best c
unfolding choose
choose-some cfg at [] best =
    (best, refl, record { chosen = inl refl; above = λ d h. h; unbeaten = tt })
choose-some cfg at ((k, e) ∷ es) best =
    let (b, here, step) = better-some (candidate cfg at e) best in
    let (c, rest, s) = choose-some cfg at es b in
    (
      c,
      ap (choose cfg at es) here ∙ rest,
      record {
        chosen = elim s.chosen [
          | inl same ↦ elim step.kept [
            | inl old ↦ inl (same ∙ old)
            | inr found ↦ inr (inl (found ∙ ap some (sym same)))
          ]
          | inr later ↦ inr (inr later)
        ];
        above = λ d h. s.above d (step.above d h);
        unbeaten = (λ d f. s.above d (step.beyond d f), s.unbeaten);
      },
    )

-- No entry has a growth that is not skipped.
abbrev pub NoCandidate : Config → Time → List (ServiceKey × Entry) → Type 0
NoCandidate cfg at = All λ entry. candidate cfg at entry.1 ≡ none

-- `Culprit` finds none when every entry is skipped, and else the growth of one of the entries
-- that is not skipped and that no other such growth beats.
pub culprit_lem :
    (cfg : Config) (at : Time) (es : List (ServiceKey × Entry))
    → ((culprit cfg at es ≡ none) × NoCandidate cfg at es)
      ⊎ ((c : Culprit) × (culprit cfg at es ≡ some c)
          × IsCandidate cfg at c es
          × Unbeaten cfg at c es)
unfolding culprit choose
culprit_lem cfg at [] = inl (refl, tt)
culprit_lem cfg at ((k, e) ∷ es) = elim (Option-cases (candidate cfg at e)) [
  | inl skipped ↦ elim (culprit_lem cfg at es) [
    | inl (none_found, skips) ↦ inl (rw skipped none_found, (skipped, skips))
    | inr (c, found, is_one, best) ↦ inr (c, rw skipped found, inr is_one, (λ d f. cc, best))
  ]
  | inr (b, found) ↦
      let (c, rest, s) = choose-some cfg at es b in
      inr (
        c,
        rw found rest,
        elim s.chosen [ inl same ↦ inl (found ∙ ap some (sym same)) | inr later ↦ inr later ],
        (λ d f. s.above d (beats-false_of_eq b d b (sym found ∙ f) (beats_irrefl b)), s.unbeaten),
      )
]

-- Two unbeaten growths of the same entries are of services with one ID.
pub Unbeaten-unique :
    (cfg : Config) (at : Time) (es fs : List (ServiceKey × Entry)) (c d : Culprit)
    → IsCandidate cfg at c fs
    → IsCandidate cfg at d es
    → Unbeaten cfg at c es
    → Unbeaten cfg at d fs
    → c.service.id ≡ d.service.id
Unbeaten-unique cfg at es fs c d cf de uc ud =
    beats_total c d (beats_of c d fs cf ud) (beats_of d c es de uc)
  where
    beats_of :
        (a b : Culprit) (xs : List (ServiceKey × Entry))
        → IsCandidate cfg at a xs
        → Unbeaten cfg at b xs
        → beats a b ≡ false
    beats_of a b [] i u = absurd i
    beats_of a b ((k, e) ∷ xs) (inl f) u = u.0 a f
    beats_of a b ((k, e) ∷ xs) (inr i) u = beats_of a b xs i u.1
