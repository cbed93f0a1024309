-- ===== src/Memguard/Culprit/Growth.antt =====
-- The growth of one service against its history: `entry.growth` of
-- pkg/health/memguard/culprit.go.
use tgshd.Base.{
  ℕ, zero, suc, ◌+◌, ◌≤◌, ◌<◌, List, [], ◌∷◌, ◌≡◌, ◌⊎◌, inl, inr, refl, sym, ap, ◌∙◌, none, some,
  arith, ltb, if◌then◌else◌, length, All, Bool-cases,
}
use mathlib.Core.List.{Memᴰ}
use native.Mathlib.Decide.{dec_lt}
use tgshd.Health.Types.{Time, Duration}
use tgshd.Memguard.Types.{Point, Culprit}
use tgshd.Memguard.Ring.{Ring, latest, nth_newest}
use tgshd.Memguard.Ring.Window.{points_from, to_list, IsValid, latest_lem}
use tgshd.Memguard.Culprit.{Entry, growth_loop, growth, culprit_of}

-- The points, newest first, up to the first one before the window.
unfoldable pub within : Time → Duration → List Point → List Point
within at window [] = []
within at window (p ∷ ps) = if ltb (p.at + window) at then [] else p ∷ within at window ps

abbrev lower : Point → Point → Point
lower p low = if ltb p.anon low.anon then p else low

lower-le : (p low : Point) → ((lower p low).anon ≤ low.anon) × ((lower p low).anon ≤ p.anon)
lower-le p low = ground arith

lower_cases : (p low : Point) → (lower p low ≡ p) ⊎ (lower p low ≡ low)
lower_cases p low = elim (Bool-cases (ltb p.anon low.anon)) [
  | inl e ↦ inl (rw e)
  | inr e ↦ inr (rw e)
]

-- The lowest of a point and some others, the first of equal ones.
unfoldable pub lowest : Point → List Point → Point
lowest low [] = low
lowest low (p ∷ ps) = lowest (lower p low) ps

growth_loop_lem :
    (r : Ring) (at : Time) (window : Duration) (left i : ℕ) (low : Point) (samples : ℕ)
    → growth_loop r at window left i low samples ≡ (
      lowest low (within at window (points_from r i left)),
      samples + length (within at window (points_from r i left)),
    )
unfolding growth_loop points_from within lowest
growth_loop_lem r at window zero i low samples = ground arith
growth_loop_lem r at window (suc left) i low samples = ground (
  arith,
  growth_loop_lem r at window left (suc i)
      (if ltb (nth_newest r i).anon low.anon then nth_newest r i else low) (samples + 1),
)

lowest-le :
    (low : Point) (ps : List Point)
    → ((lowest low ps).anon ≤ low.anon) × All (λ p. (lowest low ps).anon ≤ p.anon) ps
unfolding lowest
lowest-le low [] = (omega arith, tt)
lowest-le low (p ∷ ps) =
    let (first, rest) = lowest-le (lower p low) ps in
    (omega (arith, lower-le p low, first), (omega (arith, lower-le p low, first), rest))

lowest-mem : (low : Point) (ps : List Point) → (lowest low ps ≡ low) ⊎ Memᴰ (lowest low ps) ps
unfolding lowest
lowest-mem low [] = inl refl
lowest-mem low (p ∷ ps) = elim (lowest-mem (lower p low) ps) [
  | inl same ↦ elim (lower_cases p low) [
    | inl e ↦ inr (Memᴰ.head (same ∙ e))
    | inr e ↦ inl (same ∙ e)
  ]
  | inr m ↦ inr (Memᴰ.tail m)
]

length-within-le :
    (at : Time) (window : Duration) (ps : List Point) → length (within at window ps) ≤ length ps
unfolding within
length-within-le at window [] = omega arith
length-within-le at window (p ∷ ps) = ground (arith, length-within-le at window ps)

length-points_from : (r : Ring) (i n : ℕ) → length (points_from r i n) ≡ n
unfolding points_from
length-points_from r i zero = omega arith
length-points_from r i (suc n) = omega (arith, length-points_from r (suc i) n)

-- The points of the history that are judged: the newest ones up to the first before the window.
abbrev pub judged : Entry → Time → Duration → List Point
judged e at window = within at window (to_list e.history)

-- What a growth says of the points judged.
pub record IsGrowth (e : Entry) (points : List Point) (c : Culprit) : Type 0 where
  pub of_entry : c.service ≡ e.service
  pub newest : c.size ≡ (latest e.history).anon
  pub sum : c.growth + c.before ≡ c.size
  pub least : All (λ p. c.before ≤ p.anon) points
  pub reached : (p : Point) × Memᴰ p points × (p.anon ≡ c.before)

growth_small :
    (e : Entry) (at : Time) (window : Duration)
    → length (judged e at window) < 2
    → growth e at window ≡ none
unfolding growth to_list
growth_small e at window h =
    rw (growth_loop_lem e.history at window e.history.n 0 (latest e.history) 0)
      (ground (arith, length-within-le at window (points_from e.history 0 e.history.n)))

growth_large :
    (e : Entry) (at : Time) (window : Duration)
    → 2 ≤ length (judged e at window)
    → growth e at window
      ≡ some
          (culprit_of e.service (latest e.history) (lowest (latest e.history) (judged e at window)))
unfolding growth to_list
growth_large e at window h =
    rw (growth_loop_lem e.history at window e.history.n 0 (latest e.history) 0) (
      ground (
        arith,
        length-within-le at window (points_from e.history 0 e.history.n),
        length-points_from e.history 0 e.history.n,
      ))

within_head :
    (r : Ring) (at : Time) (window : Duration) (n : ℕ)
    → 0 < length (within at window (points_from r 0 n))
    → (rest : List Point) × (within at window (points_from r 0 n) ≡ nth_newest r 0 ∷ rest)
unfolding within points_from
within_head r at window zero h = elim h [ ]
within_head r at window (suc n) h = (within at window (points_from r 1 n), ground arith)

lowest_reached :
    (newest : Point) (points rest : List Point)
    → points ≡ newest ∷ rest
    → (p : Point) × Memᴰ p points × (p.anon ≡ (lowest newest points).anon)
lowest_reached newest points rest e = elim (lowest-mem newest points) [
  | inl same ↦ (newest, rw e (Memᴰ.head refl), rw same)
  | inr m ↦ (lowest newest points, m, refl)
]

large-IsGrowth :
    (depth : ℕ) (e : Entry) (at : Time) (window : Duration)
    → IsValid depth e.history
    → 2 ≤ length (judged e at window)
    → IsGrowth e
        (judged e at window)
        (culprit_of e.service (latest e.history) (lowest (latest e.history) (judged e at window)))
large-IsGrowth depth e at window v h =
    let (below, least) = lowest-le (latest e.history) (judged e at window) in
    let (rest, head) =
      within_head e.history at window e.history.n (unfold to_list in omega arith) in
    record {
      of_entry = refl;
      newest = refl;
      sum = omega arith;
      least = least;
      reached =
          lowest_reached (latest e.history) (judged e at window) rest
            (unfold to_list in head ∙ ap (λ p. p ∷ rest) (sym (latest_lem depth e.history v)));
    }

-- A service has a growth just when at least two of its points are judged. The growth then runs
-- from the least of the points judged to the newest point: nothing judged is lower, the least is
-- one of them, and the difference of the two uint64 values does not wrap.
pub growth_lem :
    (depth : ℕ) (e : Entry) (at : Time) (window : Duration)
    → IsValid depth e.history
    → ((length (judged e at window) < 2) × (growth e at window ≡ none))
      ⊎ ((c : Culprit) × (2 ≤ length (judged e at window))
          × (growth e at window ≡ some c)
          × IsGrowth e (judged e at window) c)
growth_lem depth e at window v = elim (dec_lt (length (judged e at window)) 2) [
  | yes few ↦ inl (few, growth_small e at window few)
  | no many ↦ inr (
    culprit_of e.service (latest e.history) (lowest (latest e.history) (judged e at window)),
    omega arith,
    growth_large e at window (omega arith),
    large-IsGrowth depth e at window v (omega arith),
  )
]
