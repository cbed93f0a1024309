-- ===== src/Memguard/Culprit.antt =====
-- The service whose memory grew the most, pkg/health/memguard/culprit.go.
pub mod Growth
pub mod Choice
use tgshd.Base.{
  ℕ, zero, suc, ◌+◌, ◌-◌, ◌≤◌, List, [], ◌∷◌, Bool, true, false, not, ◌||◌, Option, none, some, ltb,
  nat_beq, if◌then◌else◌, Bytes, bytes_ltb,
}
use tgshd.Health.Types.{Time, Duration}
use tgshd.Memguard.Types.{Config, Service, ServiceKey, Point, Culprit}
use tgshd.Memguard.Ring.{Ring, latest, nth_newest}

-- `entry` of guard.go.
pub record Entry : Type 0 where
  pub service : Service
  pub history : Ring
  pub seen : ℕ  -- uint64

-- The loop of `entry.growth`: it stops at the first point before the window. `at - p.at > window`
-- is written without a subtraction.
unfoldable pub growth_loop : Ring → Time → Duration → ℕ → ℕ → Point → ℕ → Point × ℕ
growth_loop r at window zero i low samples = (low, samples)
growth_loop r at window (suc left) i low samples =
    let p = nth_newest r i in
    elim (ltb (p.at + window) at) [
      | true ↦ (low, samples)
      | false ↦
          growth_loop r at window left (suc i) (if ltb p.anon low.anon then p else low)
            (samples + 1)
    ]

abbrev pub culprit_of : Service → Point → Point → Culprit
culprit_of s newest low = record {
  service = s;
  before = low.anon;
  size = newest.anon;
  growth = newest.anon - low.anon;
  window = newest.at - low.at;
}

-- `entry.growth`.
unfoldable pub growth : Entry → Time → Duration → Option Culprit
growth e at window =
    let (low, samples) = growth_loop e.history at window e.history.n 0 (latest e.history) 0 in
    if ltb e.history.n 2
    then none
    else if ltb samples 2
    then none
    else some (culprit_of e.service (latest e.history) low)

-- `beats`.
unfoldable pub beats : Culprit → Culprit → Bool
beats c best =
    if not (nat_beq c.growth best.growth)
    then ltb best.growth c.growth
    else if not (nat_beq c.size best.size)
    then ltb best.size c.size
    else bytes_ltb c.service.id best.service.id

-- The entry's growth if `Guard.Culprit` does not skip it.
unfoldable pub candidate : Config → Time → Entry → Option Culprit
candidate cfg at e = elim (growth e at cfg.culprit_window) [
  | none ↦ none
  | some c ↦ if nat_beq c.growth 0 || ltb c.growth cfg.culprit_min_growth then none else some c
]

abbrev pub better : Option Culprit → Option Culprit → Option Culprit
better none best = best
better (some c) none = some c
better (some c) (some best) = if beats c best then some c else some best

-- The loop of `Guard.Culprit`, over the entries in any order.
unfoldable pub choose : Config → Time → List (ServiceKey × Entry) → Option Culprit → Option Culprit
choose cfg at [] best = best
choose cfg at ((k, e) ∷ es) best = choose cfg at es (better (candidate cfg at e) best)

-- `Guard.Culprit`.
unfoldable pub culprit : Config → Time → List (ServiceKey × Entry) → Option Culprit
unfolding choose
culprit cfg at es = choose cfg at es none
