-- ===== src/Health/Notify/Send/Kept.antt =====
-- What the sends of pkg/health/notify/notify.go leave of the queue.
use tgshd.Base.{String, List, [], ◌∷◌, ◌++◌, Bool, true, false, ◌≡◌, refl, sym, ap, ◌∙◌}
use mathlib.Core.List.{append_assoc}
use tgshd.Health.Types.{Time}
use tgshd.Health.Notify.{
  Runes, QueuedMessage, MessageKind, kind_problem, kind_resolved, kind_event, Message,
}
use tgshd.Health.Notify.Undelivered.{Shown}
use tgshd.Health.Notify.Queue.{
  Outcome, delivered, failed, past_deadline, abandoned, Notifier, queued_message, enqueue_tracked,
  telegram_sent,
}
use tgshd.Health.Notify.Queue.Losses.{enqueue-keeps}
use tgshd.Health.Notify.Send.{Progress, record_telegram, after_prefix, release_prefix}
use tgshd.Health.Notify.Send.Delivery.{queue_for, claim_abandoned}

-- The queue and the next id are the same.
abbrev pub IsSame : Notifier → Notifier → Type 0
IsSame n m = (m.queue ≡ n.queue) × (m.next_id ≡ n.next_id)

pub record_telegram-IsSame :
    (now : Time) (stopping : Bool) (o : Outcome) (n : Notifier)
    → IsSame n (record_telegram now stopping o n)
unfolding record_telegram telegram_sent
record_telegram-IsSame now stopping delivered n = (refl, refl)
record_telegram-IsSame now stopping past_deadline n = (refl, refl)
record_telegram-IsSame now true failed n = (refl, refl)
record_telegram-IsSame now false failed n = (refl, refl)
record_telegram-IsSame now true (abandoned f) n = (refl, refl)
record_telegram-IsSame now false (abandoned f) n = (refl, refl)

pub after_prefix-IsSame : (s : Shown) (o : Outcome) (n : Notifier) → IsSame n (after_prefix s o n)
unfolding after_prefix release_prefix
after_prefix-IsSame s delivered n = (refl, refl)
after_prefix-IsSame s failed n = (refl, refl)
after_prefix-IsSame s past_deadline n = (refl, refl)
after_prefix-IsSame s (abandoned f) n = (refl, refl)

pub claim_abandoned-IsSame :
    (msg : Message) (k : MessageKind) (o : Outcome) (n : Notifier)
    → IsSame n (claim_abandoned msg k o n)
unfolding claim_abandoned
claim_abandoned-IsSame msg kind_problem delivered n = (refl, refl)
claim_abandoned-IsSame msg kind_problem failed n = (refl, refl)
claim_abandoned-IsSame msg kind_problem past_deadline n = (refl, refl)
claim_abandoned-IsSame msg kind_problem (abandoned f) n = (refl, refl)
claim_abandoned-IsSame msg kind_resolved o n = (refl, refl)
claim_abandoned-IsSame msg kind_event o n = (refl, refl)

module _ {ℓ} {W : Type ℓ} where
  -- Every message that the handler has dropped or holds, in order.
  abbrev pub messages : Progress W → List QueuedMessage
  messages p = p.dropped ++ p.notifier.queue

  abbrev pub HasSame : Progress W → Progress W → Type 0
  HasSame p q = (q.dropped ≡ p.dropped) × IsSame p.notifier q.notifier

  pub queue_for-messages :
      (now : Time) (msg : Message) (channel : String) (text : Runes) (o : Outcome)
      (p q : Progress W)
      → HasSame p q
      → messages (queue_for now msg channel text o q)
        ≡ messages p ++ (queued_message p.notifier.next_id now msg channel text ∷ [])
  unfolding queue_for
  queue_for-messages now msg channel text o p q h =
      append_assoc q.dropped (enqueue_tracked now msg channel text o q.notifier).0
        (enqueue_tracked now msg channel text o q.notifier).1.queue
      ∙ ap (λ z. q.dropped ++ z) (enqueue-keeps now msg channel text o q.notifier)
      ∙ rw (h.0, h.1.0, h.1.1)
          (sym (
            append_assoc p.dropped p.notifier.queue
              (queued_message p.notifier.next_id now msg channel text ∷ [])))
