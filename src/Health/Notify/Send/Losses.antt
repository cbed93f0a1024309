-- ===== src/Health/Notify/Send/Losses.antt =====
-- The queue after `Notify` of pkg/health/notify/notify.go, by the ways in which its sends may end.
use tgshd.Base.{ℕ, [], ◌∷◌, ◌++◌, Bool, true, false, not, ◌&&◌, ◌||◌, ◌≡◌, if◌then◌else◌}
use tgshd.Health.Types.{Time}
use tgshd.Telegram.Route.{Route}
use tgshd.Health.Notify.{
  Runes, QueuedMessage, Message, PushMode, mode_sms, mode_telegram_or_sms, channel_telegram,
  channel_sms,
}
use tgshd.Health.Notify.Undelivered.{Undelivered, Shown}
use tgshd.Health.Notify.Queue.{Outcome, delivered, past_deadline, queued_message}
use tgshd.Health.Notify.Send.{Progress}
use tgshd.Health.Notify.Send.Kept.{messages}

abbrev pub is_delivered : Outcome → Bool
is_delivered delivered = true
is_delivered _ = false

abbrev pub is_past_deadline : Outcome → Bool
is_past_deadline past_deadline = true
is_past_deadline _ = false

-- Whether one of the sends of a mode delivers the message: the arguments tell whether Telegram is
-- tried and whether there is an SMS sender.
unfoldable pub reaches : PushMode → Bool → Bool → Outcome → Outcome → Bool
reaches mode_sms tried has_sms ot os = is_delivered os
reaches mode_telegram_or_sms tried has_sms ot os =
    (tried && is_delivered ot) || (has_sms && not (tried && is_past_deadline ot) && is_delivered os)
reaches _ tried has_sms ot os = tried && is_delivered ot

-- The copy that is queued.
abbrev pub copy_of : PushMode → Time → Message → Runes → Runes → ℕ → QueuedMessage
copy_of mode_sms now msg plain rich id = queued_message id now msg channel_sms plain
copy_of _ now msg plain rich id = queued_message id now msg channel_telegram rich

module _ {ℓ} {W : Type ℓ} (ot os : Outcome) (prefix_of : ℕ → Time → Undelivered → Runes × Shown)
    (stopping : Bool) (now : Time) where
  abbrev pub tlg : Route → Runes → W → W × Outcome
  tlg r text w = (w, ot)

  abbrev pub sms : Runes → W → W × Outcome
  sms text w = (w, os)

  -- The copy of a message is the last of all, or there is none.
  abbrev Ends : Bool → QueuedMessage → Progress W → Progress W → Type 0
  Ends reached copy p q = messages q ≡ messages p ++ (if reached then [] else copy ∷ [])
