-- ===== src/Memguard/Ring.antt =====
-- The preallocated history of a service, the `ring` of pkg/health/memguard/guard.go.
pub mod Window
use tgshd.Base.{
  ℕ, zero, suc, ◌+◌, ◌-◌, ◌*◌, ◌%◌, List, [], ◌∷◌, length, get_or, set, replicate, ltb,
  if◌then◌else◌,
}
use tgshd.Memguard.Types.{Point}

-- `points` is nil, here [], until the service is first tracked.
pub record Ring : Type 0 where
  pub points : List Point
  pub next : ℕ
  pub n : ℕ

abbrev pub zero_point : Point
zero_point = record { at = 0; anon = 0 }

abbrev pub empty_ring : Ring
empty_ring = record { points = []; next = 0; n = 0 }

-- `newRing`.
unfoldable pub new_ring : ℕ → Ring
new_ring depth = record { points = replicate depth zero_point; next = 0; n = 0 }

-- `ring.add`.
unfoldable pub add : Ring → Point → Ring
add r p = record r {
  points = set r.points r.next p;
  next = (r.next + 1) % length r.points;
  n = if ltb r.n (length r.points) then r.n + 1 else r.n;
}

-- `ring.reset`.
unfoldable pub reset : Ring → Ring
reset r = record r { next = 0; n = 0 }

-- `ring.latest`.
unfoldable pub latest : Ring → Point
latest r = get_or r.points ((r.next + length r.points - 1) % length r.points) zero_point

-- `r.points[(r.next-1-i+2*len(r.points))%len(r.points)]`: the i-th newest point.
unfoldable pub nth_newest : Ring → ℕ → Point
nth_newest r i =
    get_or r.points ((r.next + 2 * length r.points - 1 - i) % length r.points) zero_point
