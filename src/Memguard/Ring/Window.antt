-- ===== src/Memguard/Ring/Window.antt =====
-- The ring of pkg/health/memguard/guard.go as the list of the latest points, newest first.
use tgshd.Base.{
  ℕ, zero, suc, ◌+◌, ◌-◌, ◌*◌, ◌%◌, ◌≤◌, ◌<◌, min, List, [], ◌∷◌, length, get_or, ◌≡◌, refl, sym,
  ap, ◌∙◌, ◌≢◌, arith, take, length-set, get_or-set_self, get_or-set_ne,
}
use mathlib.Core.Path.{ap₂}
use native.Mathlib.Decide.{dec_lt}
use tgshd.Memguard.Types.{Point}
use tgshd.Memguard.Ring.{Ring, zero_point, add, latest, nth_newest}

pub record IsValid (depth : ℕ) (r : Ring) : Type 0 where
  pub sized : length r.points ≡ depth
  pub next_below : r.next < depth
  pub filled : r.n ≤ depth

-- `k` points from the i-th newest on.
unfoldable pub points_from : Ring → ℕ → ℕ → List Point
points_from r i zero = []
points_from r i (suc k) = nth_newest r i ∷ points_from r (suc i) k

unfoldable pub to_list : Ring → List Point
unfolding points_from
to_list r = points_from r 0 r.n

mod_once : (a len : ℕ) → a < len → (a + len) % len ≡ a
mod_once a len h = grind arith

mod_twice : (a len : ℕ) → a < len → (a + 2 * len) % len ≡ a
mod_twice a len h = grind arith

-- The slot of the i-th newest point.
abbrev slot : ℕ → ℕ → ℕ → ℕ
slot next len i = (next + 2 * len - 1 - i) % len

slot_below : (next len i : ℕ) → next < len → i < next → slot next len i ≡ next - 1 - i
slot_below next len i h k =
    ap (λ a. a % len) (omega arith) ∙ mod_twice (next - 1 - i) len (omega arith)

slot_above :
    (next len i : ℕ) → next < len → next ≤ i → i < len → slot next len i ≡ next + len - 1 - i
slot_above next len i h k l =
    ap (λ a. a % len) (omega arith) ∙ mod_once (next + len - 1 - i) len (omega arith)

advance_inside : (next len : ℕ) → next + 1 < len → (next + 1) % len ≡ next + 1
advance_inside next len h = grind arith

advance_wraps : (next len : ℕ) → 0 < len → next + 1 ≡ len → (next + 1) % len ≡ 0
advance_wraps next len h e = rw e (mod_self len h)
  where
    mod_self : (k : ℕ) → 0 < k → k % k ≡ 0
    mod_self k p = grind arith

slot-advance :
    (next len i : ℕ)
    → next < len
    → suc i < len
    → (slot ((next + 1) % len) len (suc i) ≡ slot next len i) × (slot next len i ≢ next)
slot-advance next len i h k = elim (dec_lt (next + 1) len) [
  | yes inside ↦ elim (dec_lt i next) [
    | yes lt ↦ rw (advance_inside next len inside) (
        omega (
          arith,
          slot_below (next + 1) len (suc i) (omega arith) (omega arith),
          slot_below next len i (omega arith) (omega arith),
        ))
    | no ge ↦ rw (advance_inside next len inside) (
        omega (
          arith,
          slot_above (next + 1) len (suc i) (omega arith) (omega arith) (omega arith),
          slot_above next len i (omega arith) (omega arith) (omega arith),
        ))
  ]
  | no wraps ↦ rw (advance_wraps next len (omega arith) (omega arith)) (
      omega (
        arith,
        slot_above 0 len (suc i) (omega arith) (omega arith) (omega arith),
        slot_below next len i (omega arith) (omega arith),
      ))
]

slot_newest : (next len : ℕ) → next < len → slot ((next + 1) % len) len 0 ≡ next
slot_newest next len h = elim (dec_lt (next + 1) len) [
  | yes inside ↦
      rw (advance_inside next len inside)
        (omega (arith, slot_below (next + 1) len 0 (omega arith) (omega arith)))
  | no wraps ↦
      rw (advance_wraps next len (omega arith) (omega arith))
        (omega (arith, slot_above 0 len 0 (omega arith) (omega arith) (omega arith)))
]

mod_below : (a len : ℕ) → 0 < len → a % len < len
mod_below a len h = grind arith

mod_add_self : (a len : ℕ) → (a + len) % len ≡ a % len
mod_add_self a len = grind arith

add-IsValid :
    (depth : ℕ) (r : Ring) (p : Point) → 0 < depth → IsValid depth r → IsValid depth (add r p)
unfolding add
add-IsValid depth r p pos v = record {
  sized = length-set r.points r.next p ∙ v.sized;
  next_below = rw (v.sized) (mod_below (r.next + 1) depth pos);
  filled = ground arith;
}

nth_newest-add :
    (depth : ℕ) (r : Ring) (p : Point) (i : ℕ)
    → IsValid depth r
    → suc i < depth
    → nth_newest (add r p) (suc i) ≡ nth_newest r i
unfolding add nth_newest
nth_newest-add depth r p i v h =
    let (same, other) =
      slot-advance r.next (length r.points) i (omega (arith, v.next_below)) (omega arith) in
    rw (length-set r.points r.next p, same)
      (get_or-set_ne r.points r.next (slot r.next (length r.points) i) p zero_point
        (λ e. other (sym e)))

nth_newest-add_newest :
    (depth : ℕ) (r : Ring) (p : Point) → IsValid depth r → nth_newest (add r p) 0 ≡ p
unfolding add nth_newest
nth_newest-add_newest depth r p v =
    rw (length-set r.points r.next p, slot_newest r.next (length r.points) (omega arith))
      (get_or-set_self r.points r.next p zero_point (omega arith))

points_from-add :
    (depth : ℕ) (r : Ring) (p : Point) (i k : ℕ)
    → IsValid depth r
    → i + k < depth
    → points_from (add r p) (suc i) k ≡ points_from r i k
unfolding points_from
points_from-add depth r p i zero v h = refl
points_from-add depth r p i (suc k) v h = rw (
  nth_newest-add depth r p i v (omega arith),
  points_from-add depth r p (suc i) k v (omega arith),
)

take-points_from : (r : Ring) (i k n : ℕ) → take k (points_from r i n) ≡ points_from r i (min k n)
unfolding points_from
take-points_from r i zero n = let e : 0 ≡ min 0 n = omega arith in ap (points_from r i) e
take-points_from r i (suc k) zero =
    let e : 0 ≡ min (suc k) 0 = omega arith in ap (points_from r i) e
take-points_from r i (suc k) (suc n) =
    let e : suc (min k n) ≡ min (suc k) (suc n) = omega arith in
    ap (◌∷◌ (nth_newest r i)) (take-points_from r (suc i) k n) ∙ ap (points_from r i) e

pub latest_lem : (depth : ℕ) (r : Ring) → IsValid depth r → latest r ≡ nth_newest r 0
unfolding latest nth_newest
latest_lem depth r v =
    ap (λ a. get_or r.points a zero_point)
      (sym (mod_add_self (r.next + length r.points - 1) (length r.points))
        ∙ ap (λ a. a % length r.points) (omega arith))

count-add :
    (depth : ℕ) (r : Ring) (p : Point) → IsValid (suc depth) r → (add r p).n ≡ suc (min depth r.n)
unfolding add
count-add depth r p v = ground arith

-- A ring of a positive depth refines the list of the latest points: adding a point puts it in
-- front and drops what is past the depth, and the newest point is the one last added.
pub to_list-add :
    (depth : ℕ) (r : Ring) (p : Point)
    → IsValid (suc depth) r
    → IsValid (suc depth) (add r p)
      × (to_list (add r p) ≡ p ∷ take depth (to_list r))
      × (latest (add r p) ≡ p)
unfolding to_list points_from
to_list-add depth r p v = (
  kept,
  ap (points_from (add r p) 0) (count-add depth r p v)
      ∙ ap₂ ◌∷◌ newest (
          points_from-add (suc depth) r p 0 (min depth r.n) v (omega arith)
          ∙ sym (take-points_from r 0 depth r.n)),
  latest_lem (suc depth) (add r p) kept ∙ newest,
)
  where
    kept : IsValid (suc depth) (add r p)
    kept = add-IsValid (suc depth) r p (omega arith) v

    newest : nth_newest (add r p) 0 ≡ p
    newest = nth_newest-add_newest (suc depth) r p v
