-- ===== src/Health/Notify/Queue/Order.antt =====
-- The ids and the length of the retry queue under the operations of pkg/health/notify.
use tgshd.Base.{
  ℕ, ◌+◌, ◌-◌, ◌≤◌, max, String, List, [], ◌∷◌, ◌++◌, Bool, true, false, not, ◌≡◌, refl, arith,
  nat_beq, nat_eq, text_eq, Option, none, some, if◌then◌else◌, length, select, length-drop,
  length-select-le, lookup,
}
use tgshd.Health.Types.{Time, Duration}
use tgshd.Health.Notify.{Runes, QueuedMessage, Message, max_queue}
use tgshd.Health.Notify.Queue.{
  Outcome, Notifier, delivered, failed, past_deadline, abandoned, track, trim, queued_message,
  enqueue_tracked, bump, remove, telegram_sent, queued_telegram, settle_on, settle_found, settle,
  expired, expire, move_resolved, top_id, next_above, restore, renumber, new_ids, renumber_flights,
  merge,
}
use tgshd.Health.Notify.Queue.Between.{
  Between, Between-weaken, Between-append, Between-drop, Between-select, Between-remove,
  Between-bump, Between-renumber, length-bump, length-remove-le, Between-next_above, Between-top_id,
}

-- The ids of the queue rise and are below the next one, and the queue is within its bound.
abbrev pub IsOrdered : Notifier → Type 0
IsOrdered n = Between 0 n.queue n.next_id × (length n.queue ≤ max_queue)

trim-IsOrdered : (n : Notifier) → Between 0 n.queue n.next_id → IsOrdered (trim n).1
unfolding trim
trim-IsOrdered n o = (
  Between-drop 0 n.next_id (length n.queue - max_queue) n.queue o,
  omega (arith, length-drop (length n.queue - max_queue) n.queue),
)

-- What the notifier does to its queue. The messages restored and merged are those of the store.
pub data Action : Type 0 where
  enqueues : Time → Message → String → Runes → Outcome → Action
  expires : Time → Duration → Action
  bumps removes : ℕ → Action
  settles : Time → ℕ → Bool → Action
  restores merges : List QueuedMessage → Action

unfoldable pub act : Action → Notifier → Notifier
act (enqueues now msg channel text outcome) n = (enqueue_tracked now msg channel text outcome n).1
act (expires now max_age) n = (expire now max_age n).1
act (bumps id) n = bump id n
act (removes id) n = remove id n
act (settles now f ok) n = settle now f ok n
act (restores items) n = (restore items n).1
act (merges stored) n = (merge stored n).1

-- Stored messages come by rising id.
abbrev pub FromStore : Action → Type 0
FromStore (restores items) = Between 0 items (next_above 0 items)
FromStore (merges stored) = Between 0 stored (next_above 0 stored)
FromStore _ = Unit

pub track-same :
    (id : ℕ) (o : Outcome) (n : Notifier)
    → ((track id o n).queue ≡ n.queue) × ((track id o n).next_id ≡ n.next_id)
unfolding track
track-same id delivered n = (refl, refl)
track-same id failed n = (refl, refl)
track-same id past_deadline n = (refl, refl)
track-same id (abandoned f) n = (refl, refl)

enqueue-IsOrdered :
    (now : Time) (msg : Message) (channel : String) (text : Runes) (o : Outcome) (n : Notifier)
    → Between 0 n.queue n.next_id
    → IsOrdered (enqueue_tracked now msg channel text o n).1
unfolding enqueue_tracked queued_message
enqueue-IsOrdered now msg channel text o n b =
    let m = queued_message n.next_id now msg channel text in
    let next : Notifier = record n { queue = n.queue ++ (m ∷ []); next_id = n.next_id + 1 } in
    let same = track-same n.next_id o next in
    trim-IsOrdered (track n.next_id o next) (
      rw (same.0, same.1)
        (Between-append 0 n.next_id (n.next_id + 1) n.queue (m ∷ []) b (omega arith, omega arith)))

delivered-IsOrdered :
    (now : Time) (id : ℕ) (b : Bool) (n : Notifier)
    → IsOrdered n
    → IsOrdered (remove id (if b then telegram_sent now true n else n))
unfolding remove telegram_sent
delivered-IsOrdered now id true n o =
    (Between-remove id 0 n.next_id n.queue o.0, omega (arith, o.1, length-remove-le id n.queue))
delivered-IsOrdered now id false n o =
    (Between-remove id 0 n.next_id n.queue o.0, omega (arith, o.1, length-remove-le id n.queue))

settle_on-IsOrdered :
    (now : Time) (ok : Bool) (id : ℕ) (n : Notifier)
    → IsOrdered n
    → IsOrdered (settle_on now ok id n)
unfolding settle_on remove bump telegram_sent
settle_on-IsOrdered now false id n o =
    (Between-bump id 0 n.next_id n.queue o.0, omega (arith, o.1, length-bump id n.queue))
settle_on-IsOrdered now true id n o = delivered-IsOrdered now id (queued_telegram id n.queue) n o

settle_found-IsOrdered :
    (now : Time) (f : ℕ) (ok : Bool) (found : Option ℕ) (n : Notifier)
    → IsOrdered n
    → IsOrdered (settle_found now f ok found n)
unfolding settle_found
settle_found-IsOrdered now f ok none n o = o
settle_found-IsOrdered now f ok (some id) n o =
    settle_on-IsOrdered now ok id
      (record n { in_flight = select (λ p. not (nat_beq p.0 f)) n.in_flight }) o

settle-IsOrdered :
    (now : Time) (f : ℕ) (ok : Bool) (n : Notifier) → IsOrdered n → IsOrdered (settle now f ok n)
unfolding settle
settle-IsOrdered now f ok n o = settle_found-IsOrdered now f ok (lookup f n.in_flight) n o

merge-IsOrdered :
    (stored : List QueuedMessage) (n : Notifier)
    → Between 0 stored (next_above 0 stored)
    → IsOrdered (merge stored n).1
unfolding merge move_resolved
merge-IsOrdered stored n o =
    let top = top_id 0 stored in
    let next = max n.next_id (top + length n.queue + 1) in
    trim-IsOrdered
      (move_resolved (new_ids top n.queue) (record n {
        queue = stored ++ renumber top n.queue;
        in_flight = renumber_flights (new_ids top n.queue) n.in_flight;
        next_id = next;
      }))
      (Between-append 0 (top + 1) next stored (renumber top n.queue)
        (Between-top_id 0 (next_above 0 stored) 0 stored (omega arith) o)
        (Between-weaken (top + 1) (top + 1) (top + length n.queue + 1) next (renumber top n.queue)
          (omega arith) (omega arith) (Between-renumber top n.queue)))

restore-IsOrdered :
    (items : List QueuedMessage) (n : Notifier)
    → Between 0 items (next_above 0 items)
    → IsOrdered (restore items n).1
unfolding restore move_resolved
restore-IsOrdered items n o =
    trim-IsOrdered
      (move_resolved []
        (record n { queue = items; in_flight = []; next_id = next_above n.next_id items }))
      (Between-next_above 0 (next_above 0 items) n.next_id items (omega arith) o)

-- Whatever the notifier does to its queue, the ids stay rising and below the next one, also when
-- stored messages are restored or merged late, and the queue stays within its bound.
pub act-IsOrdered : (a : Action) (n : Notifier) → FromStore a → IsOrdered n → IsOrdered (act a n)
unfolding act expire remove bump restore move_resolved
act-IsOrdered (enqueues now msg channel text outcome) n s o =
    enqueue-IsOrdered now msg channel text outcome n o.0
act-IsOrdered (expires now max_age) n s o = (
  Between-select (λ m. not (expired now max_age m)) 0 n.next_id n.queue o.0,
  omega (arith, o.1, length-select-le (λ m. not (expired now max_age m)) n.queue),
)
act-IsOrdered (bumps id) n s o =
    (Between-bump id 0 n.next_id n.queue o.0, omega (arith, o.1, length-bump id n.queue))
act-IsOrdered (removes id) n s o =
    (Between-remove id 0 n.next_id n.queue o.0, omega (arith, o.1, length-remove-le id n.queue))
act-IsOrdered (settles now f ok) n s o = settle-IsOrdered now f ok n o
act-IsOrdered (restores items) n s o = restore-IsOrdered items n s
act-IsOrdered (merges stored) n s o = merge-IsOrdered stored n s
