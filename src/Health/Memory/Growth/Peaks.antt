-- ===== src/Health/Memory/Growth/Peaks.antt =====
-- When a service counts as growing (pkg/health/check/memory/growth.go).
use tgshd.Base.{
  ℕ, suc, ◌+◌, ◌-◌, ◌*◌, ◌%◌, ◌≤◌, ◌<◌, min, List, [], ◌∷◌, Bool, true, false, ◌&&◌, ◌||◌, ◌≡◌, inl,
  inr, refl, sym, ap, ◌∙◌, arith, leb, ltb, if◌then◌else◌, length, All, Bool-cases, leb→le, le→leb,
  lt→ltb, any,
}
use tgshd.Health.Memory.Growth.{
  Point, Found, lower, higher, low_from, high_from, first_of, latest_of, is_growing, two_64,
}

lower-le :
    (i : ℕ) (p : Point) (best : Found)
    → ((lower i p best).anon ≤ best.anon) × ((lower i p best).anon ≤ p.anon)
unfolding lower
lower-le i p best = elim (Bool-cases (ltb p.anon best.anon)) [
  | inl e ↦ rw e (below p.anon best.anon e, omega arith)
  | inr e ↦ rw e (omega arith, not_below p.anon best.anon e)
]
  where
    below : (a b : ℕ) → ltb a b ≡ true → a ≤ b
    below a b e = ground (arith, e)

    not_below : (a b : ℕ) → ltb a b ≡ false → b ≤ a
    not_below a b e = ground (arith, e)

lower-ge :
    (i m : ℕ) (p : Point) (best : Found) → m ≤ best.anon → m ≤ p.anon → m ≤ (lower i p best).anon
unfolding lower
lower-ge i m p best h k = elim (Bool-cases (ltb p.anon best.anon)) [
  | inl e ↦ rw e k
  | inr e ↦ rw e h
]

lower-index : (i : ℕ) (p : Point) (best : Found) → best.index < i → (lower i p best).index < suc i
unfolding lower
lower-index i p best h = elim (Bool-cases (ltb p.anon best.anon)) [
  | inl e ↦ rw e (omega arith)
  | inr e ↦ rw e (omega (arith, h))
]

higher-le :
    (i m : ℕ) (p : Point) (best : Found) → best.anon ≤ m → p.anon ≤ m → (higher i p best).anon ≤ m
unfolding higher
higher-le i m p best h k = elim (Bool-cases (leb best.anon p.anon)) [
  | inl e ↦ rw e k
  | inr e ↦ rw e h
]

-- The least value is at most the best one so far and every point, and at least what they all are.
low_from-le :
    (i : ℕ) (best : Found) (ring : List Point)
    → ((low_from i best ring).anon ≤ best.anon)
      × All (λ p. (low_from i best ring).anon ≤ p.anon) ring
unfolding low_from
low_from-le i best [] = (omega arith, tt)
low_from-le i best (p ∷ ring) =
    let r = low_from-le (suc i) (lower i p best) ring in
    let one = lower-le i p best in (omega (arith, r.0, one.0), (omega (arith, r.0, one.1), r.1))

low_from-ge :
    (i m : ℕ) (best : Found) (ring : List Point)
    → m ≤ best.anon
    → All (λ p. m ≤ p.anon) ring
    → m ≤ (low_from i best ring).anon
unfolding low_from
low_from-ge i m best [] h a = h
low_from-ge i m best (p ∷ ring) h a =
    low_from-ge (suc i) m (lower i p best) ring (lower-ge i m p best h a.0) a.1

-- When the latest point is at least every other, the greatest value is found at it.
high_from-latest :
    (i : ℕ) (best : Found) (p : Point) (ring : List Point)
    → All (λ q. q.anon ≤ (latest_of p ring).anon) (p ∷ ring)
    → best.anon ≤ (latest_of p ring).anon
    → high_from i best (p ∷ ring)
      ≡ record { index = i + length ring; anon = (latest_of p ring).anon }
unfolding high_from higher
high_from-latest i best p [] h b =
    rw (le→leb best.anon p.anon b) (ap (λ n. the_found n p.anon) {x = i} (omega arith))
  where
    the_found : ℕ → ℕ → Found
    the_found n a = record { index = n; anon = a }
high_from-latest i best p (q ∷ ring) h b =
    high_from-latest (suc i) (higher i p best) q ring h.1
      (higher-le i (latest_of q ring).anon p best b h.0)
    ∙ ap (λ n. the_found n (latest_of q ring).anon) {x = suc i + length ring} (omega arith)
  where
    the_found : ℕ → ℕ → Found
    the_found n a = record { index = n; anon = a }

kept_before :
    (t : Bool) (i : ℕ) (p : Point) (best : Found)
    → best.index < i
    → (if t then record { index = i; anon = p.anon } else best).anon < p.anon
    → (if t then record { index = i; anon = p.anon } else best).index < i + 0
kept_before true i p best h l = absurd (not-lt_self p.anon l)
  where
    not-lt_self : (n : ℕ) → ¬ (n < n)
    not-lt_self n l = omega (arith, l)
kept_before false i p best h l = omega (arith, h)

-- A least value below the latest one is found before it.
low_from-before :
    (i : ℕ) (best : Found) (p : Point) (ring : List Point)
    → best.index < i
    → (low_from i best (p ∷ ring)).anon < (latest_of p ring).anon
    → (low_from i best (p ∷ ring)).index < i + length ring
unfolding low_from lower
low_from-before i best p [] h l = kept_before (ltb p.anon best.anon) i p best h l
low_from-before i best p (q ∷ ring) h l =
    let r = low_from-before (suc i) (lower i p best) q ring (lower-index i p best h) l in
    omega (arith, r)

any_above :
    (m warn l : ℕ) (ring : List Point)
    → All (λ p. m ≤ p.anon) ring
    → any (λ q. leb (q.anon + warn) l) ring ≡ true
    → m + warn ≤ l
any_above m warn l [] a h = absurd_of h
  where
    absurd_of : false ≡ true → m + warn ≤ l
    absurd_of h = cc
any_above m warn l (p ∷ ring) a h = elim (Bool-cases (leb (p.anon + warn) l)) [
  | inl e ↦ omega (arith, leb→le (p.anon + warn) l e, a.0)
  | inr e ↦
      any_above m warn l ring a.1 (sym (ap (λ b. b || any (λ q. leb (q.anon + warn) l) ring) e) ∙ h)
]

not-above_self : (n warn : ℕ) → 0 < warn → ¬ (n + warn ≤ n)
not-above_self n warn w h = omega (arith, w, h)

lower_first : (p : Point) → (lower 0 p (first_of p)).index < 1
unfolding lower
lower_first p = elim (Bool-cases (ltb p.anon p.anon)) [
  | inl e ↦ rw e (omega arith)
  | inr e ↦ rw e (omega arith)
]

climbs :
    (warn rise li hi : ℕ) (x c : Bool)
    → warn ≤ rise
    → li < hi
    → x ≡ true
    → (leb warn rise && ltb li hi && x) || c ≡ true
climbs warn rise li hi x c r l h = rw (le→leb warn rise r, lt→ltb li hi l, h) refl

-- A service that stands at the highest value of the window, and has risen by at least the warn level
-- above some point of it, is found growing. That the share of the peak holds of the peak itself is
-- assumed of the float comparison.
pub is_growing-rise :
    (at_peak : ℕ → ℕ → Bool) (warn : ℕ) (is_opened : Bool) (p : Point) (ring : List Point)
    → at_peak (latest_of p ring).anon (latest_of p ring).anon ≡ true
    → 0 < warn
    → All (λ q. q.anon ≤ (latest_of p ring).anon) (p ∷ ring)
    → any (λ q. leb (q.anon + warn) (latest_of p ring).anon) (p ∷ ring) ≡ true
    → is_growing at_peak warn is_opened p ring ≡ true
unfolding is_growing low_from
is_growing-rise at_peak warn is_opened p [] law w h r =
    absurd
      (not-above_self p.anon warn w (any_above p.anon warn p.anon (p ∷ []) (omega arith, tt) r))
is_growing-rise at_peak warn is_opened p (q ∷ ring) law w h r =
    let latest = latest_of q ring in
    let low = low_from 0 (first_of p) (p ∷ q ∷ ring) in
    let high = high_from-latest 0 (first_of p) p (q ∷ ring) h h.0 in
    let risen =
      any_above low.anon warn latest.anon (p ∷ q ∷ ring)
        (low_from-le 0 (first_of p) (p ∷ q ∷ ring)).1 r in
    let before =
      low_from-before 1 (lower 0 p (first_of p)) q ring (lower_first p) (omega (arith, risen, w)) in
    climbs warn (latest.anon - min latest.anon low.anon) low.index
      (high_from 0 (first_of p) (p ∷ q ∷ ring)).index
      (at_peak latest.anon (high_from 0 (first_of p) (p ∷ q ∷ ring)).anon)
      (is_opened && leb warn ((latest.anon - min latest.anon low.anon) * 2 % two_64))
      (omega (arith, risen)) (omega (arith, before, ap (λ f. f.index) high))
      (ap (λ f. at_peak latest.anon f.anon) high ∙ law)

-- A service that stands at the lowest value of the window is not found growing, also when its problem
-- was open.
pub is_growing-fall :
    (at_peak : ℕ → ℕ → Bool) (warn : ℕ) (is_opened : Bool) (p : Point) (ring : List Point)
    → 0 < warn
    → All (λ q. (latest_of p ring).anon ≤ q.anon) (p ∷ ring)
    → is_growing at_peak warn is_opened p ring ≡ false
unfolding is_growing
is_growing-fall at_peak warn is_opened p ring w h =
    let low = low_from 0 (first_of p) (p ∷ ring) in
    let latest = latest_of p ring in
    let least = low_from-ge 0 latest.anon (first_of p) (p ∷ ring) h.0 h in
    no_rise latest.anon low.anon (latest.anon - min latest.anon low.anon) warn is_opened
      (ltb low.index (high_from 0 (first_of p) (p ∷ ring)).index)
      (at_peak latest.anon (high_from 0 (first_of p) (p ∷ ring)).anon) (omega (arith, least)) w
  where
    no_rise :
        (a b rise warn : ℕ) (o x y : Bool)
        → rise ≡ 0
        → 0 < warn
        → (leb warn rise && x && y) || (o && leb warn (rise * 2 % two_64)) ≡ false
    no_rise a b rise warn o x y z w = rw z (ground (arith, w))
