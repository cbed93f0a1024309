-- ===== src/Health/Notify/Send/Delivery.antt =====
-- `Notify` of pkg/health/notify/notify.go, and the SMS fallback.
use tgshd.Base.{
  ℕ, String, List, [], ◌∷◌, ◌++◌, Bool, true, false, not, ◌&&◌, ◌||◌, Option, none, some, text_eq,
  if◌then◌else◌, insert,
}
use tgshd.Health.Types.{Time}
use tgshd.Telegram.Route.{Route}
use tgshd.Health.Notify.{
  Runes, QueuedMessage, MessageKind, kind_problem, kind_resolved, Message, PushMode, mode_sms,
  mode_telegram_or_sms, kind_text, resolve_route, resolve_mode, fail, channel_telegram, channel_sms,
}
use tgshd.Health.Notify.Undelivered.{Undelivered, Shown}
use tgshd.Health.Notify.Queue.{
  Outcome, delivered, failed, past_deadline, abandoned, Notifier, has_key, add_key, remove_key,
  enqueue_tracked,
}
use tgshd.Health.Notify.Send.{Progress, record_telegram, send_telegram_text, fallback_due, degrade}

-- Queueing a message in the course of a handler.
unfoldable pub queue_for {ℓ} :
    {W : Type ℓ} → Time → Message → String → Runes → Outcome → Progress W → Progress W
queue_for now msg channel text o p =
    let (dropped, n) = enqueue_tracked now msg channel text o p.notifier in
    record { notifier = n; world = p.world; dropped = p.dropped ++ dropped }

-- `enqueueOffline`.
unfoldable pub queue_offline {ℓ} : {W : Type ℓ} → Time → Message → Runes → Progress W → Progress W
unfolding queue_for
queue_offline now msg rich p =
    queue_for now msg channel_telegram rich failed
      (record p { notifier = record p.notifier { telegram = fail now p.notifier.telegram } })

-- `claimAbandonedProblem`.
unfoldable pub claim_abandoned : Message → MessageKind → Outcome → Notifier → Notifier
claim_abandoned msg kind_problem (abandoned f) n = record n {
  sms_problems = add_key msg.key n.sms_problems;
}
claim_abandoned msg kind o n = n

module _ {ℓ} {W : Type ℓ} (has_telegram has_sms : Bool) (telegram : Route → Runes → W → W × Outcome)
    (sms : Runes → W → W × Outcome) (prefix_of : ℕ → Time → Undelivered → Runes × Shown)
    (stopping : Bool) (now : Time) where
  -- `sendSMS`, once the send has returned.
  unfoldable pub after_sms : Message → Runes → Outcome → Progress W → Progress W
  after_sms msg plain delivered p = p
  after_sms msg plain o p = queue_for now msg channel_sms plain o p

  unfoldable pub send_sms : Message → Runes → Progress W → Progress W
  unfolding after_sms
  send_sms msg plain p =
      let (w, o) = sms plain p.world in after_sms msg plain o (record p { world = w })

  -- `sendTelegram`.
  unfoldable pub after_telegram : Message → Runes → Outcome → Progress W → Progress W
  after_telegram msg rich delivered p = p
  after_telegram msg rich o p = queue_for now msg channel_telegram rich o p

  unfoldable pub try_telegram : Message → Runes → Progress W → Progress W × Outcome
  try_telegram msg rich p =
      let ((n, w), o) =
        send_telegram_text has_telegram has_sms telegram sms prefix_of stopping now msg.route rich
          p.notifier p.world in
      (record p { notifier = record_telegram now stopping o n; world = w }, o)

  unfoldable pub send_telegram : Message → Runes → Bool → Progress W → Progress W
  unfolding after_telegram try_telegram
  send_telegram msg rich offline p =
      let (tried, o) = try_telegram msg rich p in
      if offline || not has_telegram
      then queue_offline now msg rich p
      else after_telegram msg rich o tried

  -- The SMS of `sendTelegramOrSMS`, after a Telegram send that ended so, none if it was not tried.
  unfoldable pub after_fallback :
      Message → Runes → Option Outcome → Outcome → Progress W → Progress W × Bool
  after_fallback msg rich tried delivered p = (p, true)
  after_fallback msg rich none o p = (
    queue_offline now msg rich (record p { notifier = claim_abandoned msg msg.kind o p.notifier }),
    false,
  )
  after_fallback msg rich (some t) o p = (
    queue_for now msg channel_telegram rich t
        (record p { notifier = claim_abandoned msg msg.kind o p.notifier }),
    false,
  )

  unfoldable pub fall_back :
      Message → Runes → Runes → Option Outcome → Progress W → Progress W × Bool
  unfolding after_fallback
  fall_back msg plain rich tried p =
      let (w, o) = sms plain p.world in after_fallback msg rich tried o (record p { world = w })

  unfoldable pub after_tried : Message → Runes → Runes → Outcome → Progress W → Progress W × Bool
  after_tried msg plain rich delivered p = (p, false)
  after_tried msg plain rich past_deadline p =
      (queue_for now msg channel_telegram rich failed p, false)
  after_tried msg plain rich o p = fall_back msg plain rich (some o) p

  -- `sendTelegramOrSMS`, with whether the SMS went out.
  unfoldable pub send_telegram_or_sms :
      Message → Runes → Runes → Bool → Progress W → Progress W × Bool
  unfolding try_telegram after_tried fall_back
  send_telegram_or_sms msg plain rich offline p =
      let (tried, o) = try_telegram msg rich p in
      if not has_sms
      then (send_telegram msg rich offline p, false)
      else if not offline && has_telegram
      then after_tried msg plain rich o tried
      else fall_back msg plain rich none p

  -- The delivery of a message by its mode.
  unfoldable pub deliver :
      PushMode → Message → Runes → Runes → Bool → Progress W → Progress W × Bool
  deliver mode_sms msg plain rich offline p = (send_sms msg plain p, true)
  deliver mode_telegram_or_sms msg plain rich offline p =
      send_telegram_or_sms msg plain rich offline p
  deliver _ msg plain rich offline p = (send_telegram msg rich offline p, false)

  -- `resolvedBySMS`.
  unfoldable pub resolved_by_sms : Message → Runes → Bool → Progress W → Progress W
  unfolding send_sms
  resolved_by_sms msg plain via_sms p =
      let was_sms = has_key msg.key p.notifier.sms_problems in
      let next : Progress W = record p {
        notifier = record p.notifier {
          resolved_before = insert msg.key p.notifier.next_id p.notifier.resolved_before;
          sms_problems = remove_key msg.key p.notifier.sms_problems;
        };
      } in
      if not was_sms || via_sms || not has_sms then next else send_sms msg plain next

  unfoldable pub after_delivery : MessageKind → Message → Runes → Bool → Progress W → Progress W
  after_delivery kind_resolved msg plain via_sms p = resolved_by_sms msg plain via_sms p
  after_delivery _ msg plain via_sms p = p

  unfoldable pub unclaim : List QueuedMessage → Notifier → Notifier
  unclaim [] n = n
  unclaim (m ∷ rest) n = unclaim rest (record n { sms_problems = remove_key m.key n.sms_problems })

  -- `smsFallback`, over the messages due; the plain form of a queued text is a parameter.
  unfoldable pub fallback_sends : (Runes → Runes) → List QueuedMessage → Progress W → Progress W
  fallback_sends unescape [] p = p
  fallback_sends unescape (m ∷ due) p =
      let (w, o) = sms (unescape m.text) p.world in
      let next : Progress W = record p { world = w } in
      let rest = fallback_sends unescape due next in
      elim o [
        | delivered ↦ rest
        | abandoned f ↦ record next { notifier = unclaim due next.notifier }
        | _ ↦ record next { notifier = unclaim (m ∷ due) next.notifier }
      ]

  unfoldable pub sms_fallback : (Runes → Runes) → Progress W → Progress W
  unfolding fallback_sends
  sms_fallback unescape p =
      let (due, claimed) = fallback_due p.notifier in
      if has_sms then fallback_sends unescape due (record p { notifier = claimed }) else p

  -- `Notify`: the handler, and whether it raises the checker error of a missing SMS backend.
  unfoldable pub notify :
      PushMode
      → (Message → Runes × Runes)
      → (Runes → Runes)
      → Message
      → Progress W
      → Progress W × Bool
  unfolding deliver after_delivery sms_fallback
  notify default render unescape asked p =
      let msg : Message = record asked {
        route = resolve_route (kind_text asked.kind) asked.route;
      } in
      let (plain, rich) = render msg in
      let (mode, (n, hook)) = degrade has_sms (resolve_mode default msg) p.notifier in
      let (sent, via_sms) = deliver mode msg plain rich n.offline (record p { notifier = n }) in
      (sms_fallback unescape (after_delivery msg.kind msg plain via_sms sent), hook)
