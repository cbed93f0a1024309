-- ===== src/Health/Memory/Growth.antt =====
-- The growth of a service's memory over a window: pkg/health/check/memory/growth.go. `path.Match`,
-- the float comparison with the share of the peak and the texts are parameters; a uint64 wraps at
-- 2^64.
pub mod Peaks
use tgshd.Base.{
  ℕ, suc, ◌+◌, ◌-◌, ◌*◌, ◌%◌, ◌^◌, min, String, List, [], ◌∷◌, ◌++◌, map, Bool, true, false, not,
  ◌&&◌, ◌||◌, Option, none, some, nat_beq, leb, ltb, ◌==◌, text_eq, if◌then◌else◌, any, lookup,
  insert, delete, select, sort, text_leb, Bytes, codes, cut_suffix, length,
}
use tgshd.Health.Types.{Time, Duration}

pub record Point : Type 0 where
  pub at : Time
  pub anon : ℕ

-- `growth`: the opened services are a list of names.
pub record Growth : Type 0 where
  pub rings : List (String × List Point)
  pub opened : List String

pub record Settings : Type 0 where
  pub window : Duration
  pub warn : ℕ
  pub exclude : List String

pub record Service : Type 0 where
  pub name : String
  pub anon : ℕ

-- An index of a ring with the value there.
pub record Found : Type 0 where
  pub index : ℕ
  pub anon : ℕ

-- One round of the loop of `judgeService`, for the least value and for the greatest.
unfoldable pub lower : ℕ → Point → Found → Found
lower i p best = if ltb p.anon best.anon then record { index = i; anon = p.anon } else best

unfoldable pub higher : ℕ → Point → Found → Found
higher i p best = if leb best.anon p.anon then record { index = i; anon = p.anon } else best

-- The first least value and the last greatest one, of the points from an index on.
unfoldable pub low_from : ℕ → Found → List Point → Found
low_from i best [] = best
low_from i best (p ∷ ring) = low_from (suc i) (lower i p best) ring

unfoldable pub high_from : ℕ → Found → List Point → Found
high_from i best [] = best
high_from i best (p ∷ ring) = high_from (suc i) (higher i p best) ring

abbrev pub first_of : Point → Found
first_of p = record { index = 0; anon = p.anon }

-- The latest point of a ring that begins with a point.
abbrev pub latest_of : Point → List Point → Point
latest_of p [] = p
latest_of p (q ∷ ring) = latest_of q ring

abbrev pub two_64 : ℕ
two_64 = 2 ^ 64

module _ (at_peak : ℕ → ℕ → Bool) where
  -- Whether `judgeService` finds a ring, of a first point and the others, climbing or, when it was
  -- open, not yet down to half the warn level.
  unfoldable pub is_growing : ℕ → Bool → Point → List Point → Bool
  is_growing warn is_opened p ring =
      let low = low_from 0 (first_of p) (p ∷ ring) in
      let high = high_from 0 (first_of p) (p ∷ ring) in
      let latest = latest_of p ring in
      let rise = latest.anon - min latest.anon low.anon in
      let climbing = leb warn rise && ltb low.index high.index && at_peak latest.anon high.anon in
      climbing || (is_opened && leb warn (rise * 2 % two_64))

abbrev pub has_name : String → List String → Bool
has_name name names = any (λ n. n == name) names

abbrev pub without_name : String → List String → List String
without_name name names = select (λ n. not (n == name)) names

-- The ring of a service, empty when it has none.
abbrev pub points_of : Option (List Point) → List Point
points_of none = []
points_of (some ring) = ring

-- A reading of the check: its key is the service's name.
pub data GrowthVerdict : Type 0 where
  grew at_rest excluded gone : GrowthVerdict

module _ (at_peak : ℕ → ℕ → Bool) (matches : String → Bytes → Bool) where
  -- `growthExcluded`.
  unfoldable pub matches_short : String → Option Bytes → Bool
  matches_short glob none = false
  matches_short glob (some short) = matches glob short

  unfoldable pub growth_excluded : List String → String → Bool
  unfolding matches_short
  growth_excluded exclude name =
      any
        (λ glob.
          matches glob (codes name)
          || matches_short glob (cut_suffix (codes name) (codes ".service")))
        exclude

  -- `judgeService`, of the service's ring: a ring is never empty here, and an empty one rests.
  unfoldable pub judge_ring : ℕ → Bool → List Point → Bool
  judge_ring warn is_opened [] = false
  judge_ring warn is_opened (p ∷ ring) = is_growing at_peak warn is_opened p ring

  unfoldable pub judge_service : Settings → String → Growth → Growth × GrowthVerdict
  unfolding judge_ring
  judge_service settings name g =
      let ring = points_of (lookup name g.rings) in
      let others = without_name name g.opened in
      if judge_ring settings.warn (has_name name g.opened) ring
      then (record g { opened = name ∷ others }, grew)
      else (record g { opened = others }, at_rest)

  -- `pruneLocked`: the points of a ring that are kept, and the rings that are left.
  unfoldable pub in_window : Time → Duration → Point → Bool
  in_window now window p = leb now (p.at + window)

  abbrev pub is_empty : List Point → Bool
  is_empty [] = true
  is_empty (p ∷ ring) = false

  unfoldable pub prune_rings :
      Time
      → Duration
      → List (String × List Point)
      → List String
      → List (String × List Point) × List String
  unfolding in_window
  prune_rings now window [] opened = ([], opened)
  prune_rings now window ((name, ring) ∷ rings) opened =
      let kept = select (in_window now window) ring in
      let next = if is_empty kept then without_name name opened else opened in
      let (rest, left) = prune_rings now window rings next in
      (if is_empty kept then rest else (name, kept) ∷ rest, left)

  unfoldable pub prune : Time → Duration → Growth → Growth
  unfolding prune_rings
  prune now window g =
      let (rings, opened) = prune_rings now window g.rings g.opened in
      record { rings = rings; opened = opened }

  -- The points recorded by `judgeGrowth`.
  unfoldable pub add_point :
      Time → Service → List (String × List Point) → List (String × List Point)
  add_point now s rings =
      let ring = points_of (lookup s.name rings) in
      insert s.name (ring ++ (record { at = now; anon = s.anon } ∷ [])) rings

  unfoldable pub record_points :
      Time → List String → List Service → List (String × List Point) → List (String × List Point)
  unfolding add_point
  record_points now exclude [] rings = rings
  record_points now exclude (s ∷ services) rings =
      record_points now exclude services
        (if growth_excluded exclude s.name then rings else add_point now s rings)

  -- The services seen in a run, less the excluded ones.
  abbrev pub is_seen : List String → List Service → String → Bool
  is_seen exclude services name =
      any (λ s. (s.name == name) && not (growth_excluded exclude s.name)) services

  -- `serviceReading`.
  unfoldable pub service_reading : Settings → Bool → String → Growth → Growth × GrowthVerdict
  unfolding judge_service
  service_reading settings seen name g =
      let others = without_name name g.opened in
      if seen
      then judge_service settings name g
      else if growth_excluded settings.exclude name
      then (record { rings = delete name g.rings; opened = others }, excluded)
      else (record g { opened = others }, gone)

  unfoldable pub readings :
      Settings → List Service → List String → Growth → Growth × List (String × GrowthVerdict)
  unfolding service_reading
  readings settings services [] g = (g, [])
  readings settings services (name ∷ names) g =
      let (g1, v) = service_reading settings (is_seen settings.exclude services name) name g in
      let (g2, rest) = readings settings services names g1 in (g2, (name, v) ∷ rest)

  -- `judgeGrowth`, of the services read: disabled when the window or the warn level is zero.
  unfoldable pub judge_growth :
      Settings → Time → List Service → Growth → Growth × List (String × GrowthVerdict)
  unfolding readings prune record_points
  judge_growth settings now services g =
      let rings = record_points now settings.exclude services g.rings in
      let pruned = prune now settings.window (record g { rings = rings }) in
      if nat_beq settings.window 0 || nat_beq settings.warn 0
      then (g, [])
      else readings settings services (sort text_leb (map (λ r. r.0) pruned.rings)) pruned
