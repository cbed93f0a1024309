-- ===== src/Health/Notify/Send/Flush.antt =====
-- `Flush` of pkg/health/notify/notify.go, less the SMS fallback that ends it.
use tgshd.Base.{ℕ, String, List, [], ◌∷◌, ◌++◌, Bool, true, not, ◌||◌, ◌==◌, text_eq, if◌then◌else◌}
use tgshd.Health.Types.{Time}
use tgshd.Telegram.Route.{Route}
use tgshd.Health.Notify.{Runes, QueuedMessage, resolve_route, channel_telegram, channel_sms}
use tgshd.Health.Notify.Undelivered.{Undelivered, Shown}
use tgshd.Health.Notify.Queue.{
  Outcome, delivered, Notifier, has_key, track, is_in_flight, bump, remove,
}
use tgshd.Health.Notify.Send.{record_telegram, stale_sms_problem, send_telegram_text}

-- The state of the loop: the channels blocked so far.
pub record FlushState {ℓ} (W : Type ℓ) : Type ℓ where
  pub notifier : Notifier
  pub world : W
  pub blocked : List String

-- The channels blocked from the start.
unfoldable pub blocked_at_start : Bool → Bool → Bool → List String
blocked_at_start has_telegram has_sms offline =
    "email" ∷ (if offline || not has_telegram then channel_telegram ∷ [] else [])
    ++ (if has_sms then [] else channel_sms ∷ [])

-- What the loop does with a message.
pub data FlushStep : Type 0 where
  skips blocks drops sends : FlushStep

unfoldable pub flush_step : QueuedMessage → List String → Notifier → FlushStep
flush_step m blocked n =
    if has_key m.channel blocked
    then skips
    else if is_in_flight m.id n
    then blocks
    else if stale_sms_problem m n
    then drops
    else sends

-- After a send.
unfoldable pub after_flush_send {ℓ} :
    {W : Type ℓ} → QueuedMessage → List String → Outcome → Notifier → W → FlushState W
after_flush_send m blocked delivered n w = record {
  notifier = remove m.id n;
  world = w;
  blocked = blocked;
}
after_flush_send m blocked o n w = record {
  notifier = track m.id o (bump m.id n);
  world = w;
  blocked = m.channel ∷ blocked;
}

module _ {ℓ} {W : Type ℓ} (telegram : Route → Runes → W → W × Outcome)
    (sms : Runes → W → W × Outcome) (prefix_of : ℕ → Time → Undelivered → Runes × Shown)
    (stopping : Bool) (now : Time) where
  -- `send`, and `telegramSent` for a message of that channel.
  unfoldable pub send_queued : QueuedMessage → Notifier → W → (Notifier × W) × Outcome
  send_queued m n w =
      let (w1, o) = sms m.text w in
      let ((n2, w2), o2) =
        send_telegram_text true true telegram sms prefix_of stopping now
          (resolve_route m.kind m.route) m.text n w in
      if m.channel == channel_sms then ((n, w1), o) else (
        (if m.channel == channel_telegram then record_telegram now stopping o2 n2 else n2, w2),
        o2,
      )

  -- One round of the loop.
  unfoldable pub flush_as : FlushStep → QueuedMessage → FlushState W → FlushState W
  flush_as skips m s = s
  flush_as blocks m s = record s { blocked = m.channel ∷ s.blocked }
  flush_as drops m s = record s { notifier = remove m.id s.notifier }
  flush_as sends m s =
      let ((n, w), o) = send_queued m s.notifier s.world in after_flush_send m s.blocked o n w

  unfoldable pub flush_one : QueuedMessage → FlushState W → FlushState W
  unfolding flush_as
  flush_one m s = flush_as (flush_step m s.blocked s.notifier) m s

  unfoldable pub flush_loop : List QueuedMessage → FlushState W → FlushState W
  flush_loop [] s = s
  flush_loop (m ∷ pending) s = flush_loop pending (flush_one m s)

  unfoldable pub flush : Bool → Bool → Notifier → W → FlushState W
  unfolding flush_loop
  flush has_telegram has_sms n w = flush_loop n.queue (record {
    notifier = n;
    world = w;
    blocked = blocked_at_start has_telegram has_sms n.offline;
  })
