-- ===== src/Health/Runner/Lane.antt =====
-- A delivery channel of the runner: `lane`, `deliveries` and the bounds of a tick's sends in
-- pkg/health/runner/deliver.go. What a method does while it holds the mutex is one step; `done`,
-- `stop` and the context of a caller are the choices of the step relation.
pub mod Safety
use tgshd.Base.{
  ℕ, ◌+◌, ◌-◌, ◌/◌, ◌≤◌, List, [], ◌∷◌, Bool, true, false, ◌&&◌, ◌≡◌, nat_beq, if◌then◌else◌,
  Option, none, some, any,
}
use tgshd.Health.Types.{Time, Duration}

-- `lane`, less its channels.
pub record Lane : Type 0 where
  pub in_flight : Bool
  pub abandoned : Bool
  pub seq : ℕ

abbrev pub new_lane : Lane
new_lane = record { in_flight = false; abandoned = false; seq = 0 }

-- What one round of the loop of `acquire` finds: the lane refuses, it is taken by a send with a
-- number, or the caller waits for a change.
pub data Acquired : Type 0 where
  refused waiting : Acquired
  taken : ℕ → Lane → Acquired

-- `lane.acquire`.
unfoldable pub acquire_as : Bool → Bool → ℕ → Acquired
acquire_as true in_flight seq = refused
acquire_as false true seq = waiting
acquire_as false false seq =
    taken (seq + 1) (record { in_flight = true; abandoned = false; seq = seq + 1 })

unfoldable pub acquire : Lane → Acquired
unfolding acquire_as
acquire l = acquire_as l.abandoned l.in_flight l.seq

-- `lane.release`.
unfoldable pub release : Lane → Lane
release l = record l { in_flight = false; abandoned = false }

-- `lane.abandon`.
abbrev pub mark_abandoned : Bool → Lane → Lane
mark_abandoned true l = record l { abandoned = true }
mark_abandoned false l = l

unfoldable pub abandon : ℕ → Lane → Lane
abandon n l = mark_abandoned (l.in_flight && nat_beq l.seq n) l

-- The lane with the sends in progress, by number, and those whose callers stopped waiting.
pub record World : Type 0 where
  pub lane : Lane
  pub running : List ℕ
  pub given_up : List ℕ

abbrev pub start : World
start = record { lane = new_lane; running = []; given_up = [] }

abbrev pub has : ℕ → List ℕ → Bool
has n xs = any (nat_beq n) xs

-- The sends left when one has returned.
unfoldable pub without : ℕ → List ℕ → List ℕ
without n [] = []
without n (m ∷ rest) = if nat_beq n m then rest else m ∷ without n rest

-- The steps of `lane.run` by any number of callers, in any order: a caller takes the lane, a send
-- in progress returns and releases it, and a caller stops waiting for the send it made and abandons
-- it, which may come after that send has returned.
pub data Step : World → World → Type 0 where
  takes :
      (w : World) (n : ℕ) (l : Lane)
      → acquire w.lane ≡ taken n l
      → Step w (record w { lane = l; running = n ∷ w.running })
  returns :
      (w : World) (n : ℕ)
      → has n w.running ≡ true
      → Step w (record w { lane = release w.lane; running = without n w.running })
  gives_up :
      (w : World) (n : ℕ)
      → n ≤ w.lane.seq
      → Step w (record w { lane = abandon n w.lane; given_up = n ∷ w.given_up })

pub data Reach (s : World) : World → Type 0 where
  here : Reach s s
  next : {v w : World} → Reach s v → Step v w → Reach s w

-- `mailShareDiv`.
abbrev pub mail_share_div : ℕ
mail_share_div = 10

-- `boundSends`: when the Telegram and SMS sends of a tick must end, and when its emails must.
unfoldable pub bound_sends : Time → Duration → Time × Time
bound_sends now budget = (now + (budget - budget / mail_share_div), now + budget)
