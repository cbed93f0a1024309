-- ===== src/Health/Notify/Send/Turns.antt =====
-- Which of the queued messages a flush sends (pkg/health/notify/notify.go), message by message.
use tgshd.Base.{
  String, List, [], ◌∷◌, Bool, true, false, ◌&&◌, ◌≡◌, ◌≢◌, ◌==◌, text_eq, nat_beq, ltb, lookup,
  any, All,
}
use tgshd.Telegram.Route.{Route}
use tgshd.Health.Notify.{QueuedMessage}
use tgshd.Health.Notify.Undelivered.{Undelivered}
use tgshd.Health.Notify.Queue.{Outcome, delivered, Notifier, has_key}
use tgshd.Health.Notify.Queue.Between.{Between}
use tgshd.Health.Notify.Send.{mark_of}

-- An abandoned send of the message has not ended.
abbrev pub is_pending : QueuedMessage → Notifier → Bool
is_pending m n = any (λ p. nat_beq p.1 m.id) n.in_flight

-- A PROBLEM for SMS that was queued before the latest RESOLVED of its key.
abbrev pub is_stale : QueuedMessage → Notifier → Bool
is_stale m n =
    (m.channel == "sms")
    && (m.kind == "problem")
    && ltb m.id (mark_of (lookup m.key n.resolved_before))

-- The sends of a flush of a queue, with their ends, by what the notifier knows when the flush begins
-- and the channels that are blocked.
pub data Sends (n : Notifier)
    : List String → List QueuedMessage → List (QueuedMessage × Outcome) → Type 0 where
  ended : (blocked : List String) → Sends n blocked [] []
  is_blocked :
      {blocked : List String} {queue : List QueuedMessage} {sent : List (QueuedMessage × Outcome)}
      (m : QueuedMessage)
      → has_key m.channel blocked ≡ true
      → Sends n blocked queue sent
      → Sends n blocked (m ∷ queue) sent
  waits :
      {blocked : List String} {queue : List QueuedMessage} {sent : List (QueuedMessage × Outcome)}
      (m : QueuedMessage)
      → has_key m.channel blocked ≡ false
      → is_pending m n ≡ true
      → Sends n (m.channel ∷ blocked) queue sent
      → Sends n blocked (m ∷ queue) sent
  discards :
      {blocked : List String} {queue : List QueuedMessage} {sent : List (QueuedMessage × Outcome)}
      (m : QueuedMessage)
      → has_key m.channel blocked ≡ false
      → is_pending m n ≡ false
      → is_stale m n ≡ true
      → Sends n blocked queue sent
      → Sends n blocked (m ∷ queue) sent
  delivers :
      {blocked : List String} {queue : List QueuedMessage} {sent : List (QueuedMessage × Outcome)}
      (m : QueuedMessage)
      → has_key m.channel blocked ≡ false
      → is_pending m n ≡ false
      → is_stale m n ≡ false
      → Sends n blocked queue sent
      → Sends n blocked (m ∷ queue) ((m, delivered) ∷ sent)
  fails :
      {blocked : List String} {queue : List QueuedMessage} {sent : List (QueuedMessage × Outcome)}
      (m : QueuedMessage) (o : Outcome)
      → has_key m.channel blocked ≡ false
      → is_pending m n ≡ false
      → is_stale m n ≡ false
      → o ≢ delivered
      → Sends n (m.channel ∷ blocked) queue sent
      → Sends n blocked (m ∷ queue) ((m, o) ∷ sent)

-- What a send changes neither: the sends in flight and the marks of the RESOLVEDs.
abbrev IsSame : Notifier → Notifier → Type 0
IsSame n k = (k.in_flight ≡ n.in_flight) × (k.resolved_before ≡ n.resolved_before)

-- The messages of a queue are as pending and as stale for one notifier as for another.
abbrev Agrees : Notifier → List QueuedMessage → Notifier → Type 0
Agrees n queue k =
    (k.resolved_before ≡ n.resolved_before) × All (λ m. is_pending m k ≡ is_pending m n) queue
