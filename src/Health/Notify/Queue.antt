-- ===== src/Health/Notify/Queue.antt =====
-- The retry queue of the notifier: pkg/health/notify/notify.go and abandon.go. A method that holds
-- the mutex is one step; what it drops is returned with the state, for `OnDrop`.
pub mod Between
pub mod Order
pub mod Losses
use tgshd.Base.{
  ℕ, suc, ◌+◌, ◌-◌, max, String, List, [], ◌∷◌, ◌++◌, map, Bool, true, false, not, ◌&&◌, ◌||◌,
  Option, none, some, nat_beq, nat_eq, ltb, leb, ◌==◌, text_eq, if◌then◌else◌, lookup, insert,
  length, take, drop, select, any,
}
use tgshd.Health.Types.{Time, Duration}
use tgshd.Health.Notify.{
  Runes, QueuedMessage, Message, kind_text, max_queue, channel_telegram, channel_sms, ChannelHealth,
  fail, succeed, healthy,
}
use tgshd.Health.Notify.Undelivered.{Undelivered, Shown, UndeliveredProblem}

-- How a send ends for its caller: an abandoned one is known by the number of its result, which comes
-- later.
pub data Outcome : Type 0 where
  delivered failed past_deadline : Outcome
  abandoned : ℕ → Outcome

-- `Notifier`. An in-flight mark is the number of an abandoned send's result with the id of its
-- message; the set of condition keys sent by SMS is a list; and `prefix_by` is the number of the
-- abandoned send that still holds the undelivered prefix, with what it shows.
pub record Notifier : Type 0 where
  pub queue : List QueuedMessage
  pub next_id : ℕ
  pub offline : Bool
  pub degraded : Bool
  pub telegram : ChannelHealth
  pub telegram_ok : Bool
  pub sms_problems : List String
  pub resolved_before : List (String × ℕ)
  pub in_flight : List (ℕ × ℕ)
  pub undelivered : Undelivered
  pub showing : Bool
  pub held : ℕ
  pub prefix_by : Option (ℕ × Shown)

-- `SMSProblems`.
abbrev pub has_key : String → List String → Bool
has_key k keys = any (λ j. j == k) keys

unfoldable pub add_key : String → List String → List String
add_key k keys = if has_key k keys then keys else keys ++ (k ∷ [])

unfoldable pub remove_key : String → List String → List String
remove_key k keys = select (λ j. not (j == k)) keys

-- `trackLocked`.
unfoldable pub track : ℕ → Outcome → Notifier → Notifier
track id (abandoned f) n = record n {
  in_flight = (f, id) ∷ select (λ p. not (nat_beq p.1 id)) n.in_flight;
}
track id _ n = n

-- `Notifier.inFlight`.
unfoldable pub is_in_flight : ℕ → Notifier → Bool
is_in_flight id n = any (λ p. nat_beq p.1 id) n.in_flight

-- `Notifier.trim`: the messages dropped, oldest first.
unfoldable pub trim : Notifier → List QueuedMessage × Notifier
trim n =
    let extra = length n.queue - max_queue in
    (take extra n.queue, record n { queue = drop extra n.queue })

-- The message that `enqueueTracked` queues.
unfoldable pub queued_message : ℕ → Time → Message → String → Runes → QueuedMessage
queued_message id now msg channel text = record {
  id = id;
  created_at = now;
  channel = channel;
  text = text;
  attempts = 0;
  kind = kind_text msg.kind;
  check = msg.check;
  key = msg.key;
  plain = msg.text;
  since = msg.since;
  route = msg.route;
}

-- `Notifier.enqueueTracked` and `enqueue`, which tracks nothing.
unfoldable pub enqueue_tracked :
    Time → Message → String → Runes → Outcome → Notifier → List QueuedMessage × Notifier
unfolding track trim
enqueue_tracked now msg channel text outcome n =
    let m = queued_message n.next_id now msg channel text in
    trim
      (track n.next_id outcome (record n { queue = n.queue ++ (m ∷ []); next_id = n.next_id + 1 }))

unfoldable pub enqueue : Time → Message → String → Runes → Notifier → List QueuedMessage × Notifier
unfolding enqueue_tracked
enqueue now msg channel text n = enqueue_tracked now msg channel text failed n

-- `bumpLocked`.
unfoldable pub bump_in : ℕ → List QueuedMessage → List QueuedMessage
bump_in id [] = []
bump_in id (m ∷ queue) =
    (if nat_beq m.id id then record m { attempts = m.attempts + 1 } else m) ∷ bump_in id queue

unfoldable pub bump : ℕ → Notifier → Notifier
unfolding bump_in
bump id n = record n { queue = bump_in id n.queue }

-- `removeLocked`: the first message with the id.
unfoldable pub remove_in : ℕ → List QueuedMessage → List QueuedMessage
remove_in id [] = []
remove_in id (m ∷ queue) = if nat_beq m.id id then queue else m ∷ remove_in id queue

unfoldable pub remove : ℕ → Notifier → Notifier
unfolding remove_in
remove id n = record n { queue = remove_in id n.queue }

-- `queuedChannelLocked`, as whether the message is queued for Telegram.
unfoldable pub queued_telegram : ℕ → List QueuedMessage → Bool
queued_telegram id [] = false
queued_telegram id (m ∷ queue) =
    if nat_beq m.id id then m.channel == channel_telegram else queued_telegram id queue

-- `telegramSentLocked`.
unfoldable pub telegram_sent : Time → Bool → Notifier → Notifier
telegram_sent now true n = record n { telegram = healthy; telegram_ok = true }
telegram_sent now false n = record n { telegram = fail now n.telegram }

-- `settle`, once the result number `f` has come: a mark that is gone settles nothing.
unfoldable pub settle_on : Time → Bool → ℕ → Notifier → Notifier
unfolding telegram_sent remove bump
settle_on now true id n =
    remove id (if queued_telegram id n.queue then telegram_sent now true n else n)
settle_on now false id n = bump id n

unfoldable pub settle_found : Time → ℕ → Bool → Option ℕ → Notifier → Notifier
settle_found now f ok none n = n
settle_found now f ok (some id) n =
    settle_on now ok id (record n { in_flight = select (λ p. not (nat_beq p.0 f)) n.in_flight })

unfoldable pub settle : Time → ℕ → Bool → Notifier → Notifier
unfolding settle_found
settle now f ok n = settle_found now f ok (lookup f n.in_flight) n

-- `Notifier.Export`.
abbrev pub export : Notifier → List QueuedMessage
export n = n.queue

-- `Notifier.Expire`: the messages dropped.
unfoldable pub expired : Time → Duration → QueuedMessage → Bool
expired now max_age m = ltb (m.created_at + max_age) now

unfoldable pub expire : Time → Duration → Notifier → List QueuedMessage × Notifier
unfolding expired
expire now max_age n = (
  select (expired now max_age) n.queue,
  record n { queue = select (λ m. not (expired now max_age m)) n.queue },
)

-- `moveResolvedLocked`, of one mark.
unfoldable pub moved_mark : ℕ → List (ℕ × ℕ) → ℕ → ℕ
moved_mark mark [] moved = moved
moved_mark mark ((from, to) ∷ ids) moved =
    moved_mark mark ids (if leb mark from && ltb to moved then to else moved)

unfoldable pub move_resolved : List (ℕ × ℕ) → Notifier → Notifier
unfolding moved_mark
move_resolved ids n = record n {
  resolved_before = map (λ p. (p.0, moved_mark p.1 ids n.next_id)) n.resolved_before;
}

-- The highest id of a list, and at least a given one.
unfoldable pub top_id : ℕ → List QueuedMessage → ℕ
top_id top [] = top
top_id top (m ∷ ms) = top_id (max top m.id) ms

unfoldable pub next_above : ℕ → List QueuedMessage → ℕ
next_above next [] = next
next_above next (m ∷ ms) = next_above (max next (m.id + 1)) ms

-- `Notifier.Restore`.
unfoldable pub restore : List QueuedMessage → Notifier → List QueuedMessage × Notifier
unfolding trim move_resolved
restore items n = trim (
    move_resolved []
      (record n { queue = items; in_flight = []; next_id = next_above n.next_id items }))

-- The renumbering of `Notifier.Merge`: the messages after the highest id, and their old and new ids.
unfoldable pub renumber : ℕ → List QueuedMessage → List QueuedMessage
renumber top [] = []
renumber top (m ∷ ms) = record m { id = top + 1 } ∷ renumber (top + 1) ms

unfoldable pub new_ids : ℕ → List QueuedMessage → List (ℕ × ℕ)
new_ids top [] = []
new_ids top (m ∷ ms) = (m.id, top + 1) ∷ new_ids (top + 1) ms

-- `renumberLocked`.
unfoldable pub renumber_flights : List (ℕ × ℕ) → List (ℕ × ℕ) → List (ℕ × ℕ)
renumber_flights ids [] = []
renumber_flights ids ((f, id) ∷ rest) = elim (lookup id ids) [
  | none ↦ renumber_flights ids rest
  | some to ↦ (f, to) ∷ renumber_flights ids rest
]

-- `Notifier.Merge`.
unfoldable pub merge : List QueuedMessage → Notifier → List QueuedMessage × Notifier
unfolding trim move_resolved renumber
merge stored n =
    let top = top_id 0 stored in
    let ids = new_ids top n.queue in
    trim (
      move_resolved ids (record n {
        queue = stored ++ renumber top n.queue;
        in_flight = renumber_flights ids n.in_flight;
        next_id = max n.next_id (top + length n.queue + 1);
      }))
