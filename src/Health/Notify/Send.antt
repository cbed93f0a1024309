-- ===== src/Health/Notify/Send.antt =====
-- The sends of the notifier: `Notify`, `Flush` and the SMS fallback of pkg/health/notify/notify.go.
-- The two senders are parameters that change the state of a world; what one handler does is one
-- sequence of steps, at one reading of the clock.
pub mod Flush
pub mod Stopping
pub mod Turns
pub mod Delivery
pub mod Kept
pub mod Losses
pub mod Fallback
use tgshd.Base.{
  ℕ, ◌+◌, ◌-◌, String, List, [], ◌∷◌, ◌++◌, Bool, true, false, not, ◌&&◌, ◌||◌, Option, none, some,
  nat_beq, ltb, leb, ◌==◌, text_eq, if◌then◌else◌, lookup, insert, length, any,
}
use tgshd.Health.Types.{Time}
use tgshd.Telegram.Route.{Route, Topic, topic_alerts}
use tgshd.Health.Notify.{
  Runes, QueuedMessage, MessageKind, kind_problem, kind_resolved, kind_event, Message, PushMode,
  mode_unset, mode_telegram, mode_sms, mode_telegram_or_sms, kind_text, resolve_route, resolve_mode,
  fail, channel_telegram, channel_sms, failing, max_message_units,
}
use tgshd.Health.Notify.Texts.{utf16_len}
use tgshd.Health.Notify.Undelivered.{Undelivered, Shown, is_empty, ack}
use tgshd.Health.Notify.Queue.{
  Outcome, delivered, failed, past_deadline, abandoned, Notifier, has_key, add_key, remove_key,
  track, is_in_flight, enqueue_tracked, enqueue, bump, remove, telegram_sent,
}

-- A notifier in the course of a handler: with the world, and the messages dropped from the queue.
pub record Progress {ℓ} (W : Type ℓ) : Type ℓ where
  pub notifier : Notifier
  pub world : W
  pub dropped : List QueuedMessage

-- `telegramSent`: the second argument tells that the context was cancelled for a stop.
unfoldable pub record_telegram : Time → Bool → Outcome → Notifier → Notifier
record_telegram now stopping delivered n = telegram_sent now true n
record_telegram now stopping past_deadline n = n
record_telegram now stopping _ n = if stopping then n else telegram_sent now false n

abbrev is_alerts : Topic → Bool
is_alerts topic_alerts = true
is_alerts _ = false

-- `releasePrefix`.
unfoldable pub release_prefix : Shown → Bool → Notifier → Notifier
release_prefix shown ok n = record n {
  showing = false;
  held = 0;
  undelivered = if ok then ack shown n.undelivered else n.undelivered;
}

-- What `sendTelegramText` does with the prefix once its send has returned.
unfoldable pub after_prefix : Shown → Outcome → Notifier → Notifier
unfolding release_prefix
after_prefix shown delivered n = release_prefix shown true n
after_prefix shown (abandoned f) n = record n { prefix_by = some (f, shown) }
after_prefix shown _ n = release_prefix shown false n

-- The late result of an abandoned send that holds the prefix.
unfoldable pub settle_prefix_by : Option (ℕ × Shown) → ℕ → Bool → Notifier → Notifier
unfolding release_prefix
settle_prefix_by none f ok n = n
settle_prefix_by (some (g, shown)) f ok n =
    if nat_beq g f then release_prefix shown ok (record n { prefix_by = none }) else n

unfoldable pub settle_prefix : ℕ → Bool → Notifier → Notifier
unfolding settle_prefix_by
settle_prefix f ok n = settle_prefix_by n.prefix_by f ok n

-- The queued PROBLEMs and RESOLVEDs of a key: the id of the last one queued for Telegram.
unfoldable pub last_queued : String → List QueuedMessage → ℕ → ℕ
last_queued key [] last = last
last_queued key (m ∷ queue) last = last_queued key queue (
    if m.channel == channel_telegram && not (m.kind == "event") && (m.key == key)
    then m.id
    else last)

abbrev pub mark_of : Option ℕ → ℕ
mark_of none = 0
mark_of (some mark) = mark

-- `fallbackDueItemLocked`.
unfoldable pub fallback_due_item : QueuedMessage → ℕ → Notifier → Bool
fallback_due_item m last n =
    (m.channel == channel_telegram)
    && (m.kind == "problem")
    && nat_beq m.id last
    && leb (mark_of (lookup m.key n.resolved_before)) m.id
    && not (has_key m.key n.sms_problems)

-- The loop of `fallbackDueLocked` over the queue: the messages due, and the keys claimed.
unfoldable pub claim_due :
    List QueuedMessage → List QueuedMessage → Notifier → List QueuedMessage × Notifier
claim_due all [] n = ([], n)
claim_due all (m ∷ queue) n =
    let is_due = fallback_due_item m (last_queued m.key all 0) n in
    let next : Notifier = record n {
      sms_problems = if is_due then add_key m.key n.sms_problems else n.sms_problems;
    } in
    let (due, claimed) = claim_due all queue next in (if is_due then m ∷ due else due, claimed)

-- `fallbackDueLocked`.
unfoldable pub fallback_due : Notifier → List QueuedMessage × Notifier
unfolding claim_due
fallback_due n =
    let claimed = claim_due n.queue n.queue n in if failing n.telegram then claimed else ([], n)

-- `staleSMSProblem`.
unfoldable pub stale_sms_problem : QueuedMessage → Notifier → Bool
stale_sms_problem m n =
    (m.channel == channel_sms)
    && (m.kind == "problem")
    && ltb m.id (mark_of (lookup m.key n.resolved_before))

-- `degrade`: the mode, the notifier, and whether the checker error is raised.
unfoldable pub degrade : Bool → PushMode → Notifier → PushMode × (Notifier × Bool)
degrade has_sms mode_sms n =
    if has_sms
    then (mode_sms, (n, false))
    else (mode_telegram, (record n { degraded = true }, not n.degraded))
degrade has_sms mode n = (mode, (n, false))

-- `ForgetEnded`: the condition keys that ended leave the SMS-sent set.
unfoldable pub forget_keys : (String → Bool) → List String → Notifier → Notifier
forget_keys ended [] n = n
forget_keys ended (key ∷ keys) n = forget_keys ended keys (
    if ended key
    then record n {
      sms_problems = remove_key key n.sms_problems;
      resolved_before = insert key n.next_id n.resolved_before;
    }
    else n)

unfoldable pub forget_ended : (String → Bool) → Notifier → Notifier
unfolding forget_keys
forget_ended ended n = forget_keys ended n.sms_problems n

-- The senders, whether each is there, how the prefix is written, and how a message is.
module _ {ℓ} {W : Type ℓ} (has_telegram has_sms : Bool) (telegram : Route → Runes → W → W × Outcome)
    (sms : Runes → W → W × Outcome) (prefix_of : ℕ → Time → Undelivered → Runes × Shown)
    (stopping : Bool) (now : Time) where
  -- `takePrefix`, for a message in the alerts topic.
  unfoldable pub take_prefix : Route → Runes → Notifier → Option (Runes × Shown)
  take_prefix r text n =
      let (prefix, shown) = prefix_of (max_message_units - utf16_len text) now n.undelivered in
      if not (is_alerts r.topic) || n.showing || is_empty n.undelivered || nat_beq (length prefix) 0
      then none
      else some (prefix, shown)

  -- `sendTelegramText`.
  unfoldable pub send_with_prefix :
      Option (Runes × Shown) → Route → Runes → Notifier → W → (Notifier × W) × Outcome
  send_with_prefix none r text n w = let (w1, o) = telegram r text w in ((n, w1), o)
  send_with_prefix (some (prefix, shown)) r text n w =
      let (w1, o) = telegram (record r { silent = false }) (prefix ++ text) w in
      ((after_prefix shown o (record n { showing = true; held = shown.items }), w1), o)

  unfoldable pub send_telegram_text : Route → Runes → Notifier → W → (Notifier × W) × Outcome
  unfolding send_with_prefix
  send_telegram_text r text n w = send_with_prefix (take_prefix r text n) r text n w
