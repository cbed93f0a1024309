-- ===== src/Health/Notify/Send/Stopping.antt =====
-- The order in which a flush sends (pkg/health/notify/notify.go): what it attempts, and when it
-- stops.
use tgshd.Base.{
  ℕ, String, List, [], ◌∷◌, ◌++◌, Bool, true, false, not, ◌||◌, ◌≡◌, refl, sym, ap, subst, ◌∙◌,
  arith, ◌==◌, text_eq, eq_iff, if◌then◌else◌, All, All-append, Bool-cases, inl, inr, beq_self,
}
use tgshd.Health.Types.{Time}
use tgshd.Telegram.Route.{Route}
use tgshd.Health.Notify.{Runes, QueuedMessage, channel_telegram, channel_sms}
use tgshd.Health.Notify.Undelivered.{Undelivered, Shown}
use tgshd.Health.Notify.Queue.{
  Outcome, delivered, failed, past_deadline, abandoned, Notifier, has_key,
}
use tgshd.Health.Notify.Send.Flush.{
  FlushState, blocked_at_start, FlushStep, skips, blocks, drops, sends, flush_step,
  after_flush_send, send_queued, flush_as, flush_one,
}

module _ {ℓ} {W : Type ℓ} (telegram : Route → Runes → W → W × Outcome)
    (sms : Runes → W → W × Outcome) (prefix_of : ℕ → Time → Undelivered → Runes × Shown)
    (stopping : Bool) (now : Time) where
  -- The messages that the loop sends, in order, with how each send ends.
  unfoldable pub attempt_as :
      FlushStep → QueuedMessage → FlushState W → List (QueuedMessage × Outcome)
  attempt_as sends m s =
      (m, (send_queued telegram sms prefix_of stopping now m s.notifier s.world).1) ∷ []
  attempt_as _ m s = []

  unfoldable pub attempts : List QueuedMessage → FlushState W → List (QueuedMessage × Outcome)
  unfolding attempt_as
  attempts [] s = []
  attempts (m ∷ pending) s =
      attempt_as (flush_step m s.blocked s.notifier) m s
      ++ attempts pending (flush_one telegram sms prefix_of stopping now m s)

-- What holds when a test does.
abbrev pub When {ℓ} : Bool → Type ℓ → Type ℓ
When true P = P
When false P = Unit

when_true {ℓ} : (t : Bool) (P : Type ℓ) → (t ≡ true → P) → When t P
when_true true P h = h refl
when_true false P h = tt

telegram_blocked :
    (t has_sms : Bool)
    → t ≡ true
    → has_key channel_telegram (
        "email" ∷ (if t then channel_telegram ∷ [] else [])
        ++ (if has_sms then [] else channel_sms ∷ []))
      ≡ true
telegram_blocked true has_sms h = refl
telegram_blocked false has_sms h = cc

sms_blocked :
    (t has_sms : Bool)
    → not has_sms ≡ true
    → has_key channel_sms (
        "email" ∷ (if t then channel_telegram ∷ [] else [])
        ++ (if has_sms then [] else channel_sms ∷ []))
      ≡ true
sms_blocked true false h = refl
sms_blocked false false h = refl
sms_blocked t true h = cc

-- No send of a channel.
abbrev pub Avoids : String → List (QueuedMessage × Outcome) → Type 0
Avoids channel sent = All (λ p. p.0.channel == channel ≡ false) sent

abbrev pub StopsAfter : Outcome → String → List (QueuedMessage × Outcome) → Type 0
StopsAfter delivered channel sent = Unit
StopsAfter _ channel sent = Avoids channel sent

-- After a send that fails nothing more is sent on its channel.
abbrev pub Stops : List (QueuedMessage × Outcome) → Type 0
Stops [] = Unit
Stops (p ∷ sent) = StopsAfter p.1 p.0.channel sent × Stops sent

module _ {ℓ} {W : Type ℓ} (telegram : Route → Runes → W → W × Outcome)
    (sms : Runes → W → W × Outcome) (prefix_of : ℕ → Time → Undelivered → Runes × Shown)
    (stopping : Bool) (now : Time) where
  -- A blocked channel stays blocked.
  after_send-blocked :
      (channel : String) (m : QueuedMessage) (blocked : List String) (o : Outcome) (n : Notifier)
      (w : W)
      → has_key channel blocked ≡ true
      → has_key channel (after_flush_send m blocked o n w).blocked ≡ true
  unfolding after_flush_send
  after_send-blocked channel m blocked delivered n w h = h
  after_send-blocked channel m blocked failed n w h = ground (arith, h)
  after_send-blocked channel m blocked past_deadline n w h = ground (arith, h)
  after_send-blocked channel m blocked (abandoned f) n w h = ground (arith, h)

  flush_as-blocked :
      (channel : String) (step : FlushStep) (m : QueuedMessage) (s : FlushState W)
      → has_key channel s.blocked ≡ true
      → has_key channel (flush_as telegram sms prefix_of stopping now step m s).blocked ≡ true
  unfolding flush_as
  flush_as-blocked channel skips m s h = h
  flush_as-blocked channel blocks m s h = ground (arith, h)
  flush_as-blocked channel drops m s h = h
  flush_as-blocked channel sends m s h =
      let r = send_queued telegram sms prefix_of stopping now m s.notifier s.world in
      after_send-blocked channel m s.blocked r.1 r.0.0 r.0.1 h

  any_step-Avoids :
      (channel : String) (step : FlushStep) (m : QueuedMessage) (s : FlushState W)
      → m.channel == channel ≡ false
      → Avoids channel (attempt_as telegram sms prefix_of stopping now step m s)
  unfolding attempt_as
  any_step-Avoids channel skips m s h = tt
  any_step-Avoids channel blocks m s h = tt
  any_step-Avoids channel drops m s h = tt
  any_step-Avoids channel sends m s h = (h, tt)

  blocked-skips :
      (m : QueuedMessage) (blocked : List String) (n : Notifier)
      → has_key m.channel blocked ≡ true
      → flush_step m blocked n ≡ skips
  unfolding flush_step
  blocked-skips m blocked n h = rw h refl

  attempt-Avoids :
      (channel : String) (m : QueuedMessage) (s : FlushState W)
      → has_key channel s.blocked ≡ true
      → Avoids channel
          (attempt_as telegram sms prefix_of stopping now (flush_step m s.blocked s.notifier) m s)
  unfolding attempt_as
  attempt-Avoids channel m s h = elim (Bool-cases (m.channel == channel)) [
    | inl e ↦
        let same = (eq_iff m.channel channel).0 e in
        subst (λ step. Avoids channel (attempt_as telegram sms prefix_of stopping now step m s))
          (sym (blocked-skips m s.blocked s.notifier (ap (λ c. has_key c s.blocked) same ∙ h))) tt
    | inr e ↦ any_step-Avoids channel (flush_step m s.blocked s.notifier) m s e
  ]

  attempts-Avoids :
      (channel : String) (pending : List QueuedMessage) (s : FlushState W)
      → has_key channel s.blocked ≡ true
      → Avoids channel (attempts telegram sms prefix_of stopping now pending s)
  unfolding attempts flush_one
  attempts-Avoids channel [] s h = tt
  attempts-Avoids channel (m ∷ pending) s h =
      let step = flush_step m s.blocked s.notifier in
      let next = flush_as telegram sms prefix_of stopping now step m s in
      All-append (λ p. p.0.channel == channel ≡ false)
        (attempt_as telegram sms prefix_of stopping now step m s)
        (attempts telegram sms prefix_of stopping now pending next) (attempt-Avoids channel m s h)
        (attempts-Avoids channel pending next (flush_as-blocked channel step m s h))

  own_blocked :
      (m : QueuedMessage) (blocked : List String) → has_key m.channel (m.channel ∷ blocked) ≡ true
  own_blocked m blocked = rw (beq_self m.channel) refl

  send-StopsAfter :
      (m : QueuedMessage) (blocked : List String) (o : Outcome) (n : Notifier) (w : W)
      (pending : List QueuedMessage)
      → StopsAfter o m.channel
          (attempts telegram sms prefix_of stopping now pending (after_flush_send m blocked o n w))
  unfolding after_flush_send
  send-StopsAfter m blocked delivered n w pending = tt
  send-StopsAfter m blocked failed n w pending =
      attempts-Avoids m.channel pending (after_flush_send m blocked failed n w)
        (own_blocked m blocked)
  send-StopsAfter m blocked past_deadline n w pending =
      attempts-Avoids m.channel pending (after_flush_send m blocked past_deadline n w)
        (own_blocked m blocked)
  send-StopsAfter m blocked (abandoned f) n w pending =
      attempts-Avoids m.channel pending (after_flush_send m blocked (abandoned f) n w)
        (own_blocked m blocked)

  step-Stops :
      (step : FlushStep) (m : QueuedMessage) (s : FlushState W) (pending : List QueuedMessage)
      → Stops (
          attempts telegram sms prefix_of stopping now pending
            (flush_as telegram sms prefix_of stopping now step m s))
      → Stops (
          attempt_as telegram sms prefix_of stopping now step m s
          ++ attempts telegram sms prefix_of stopping now pending
              (flush_as telegram sms prefix_of stopping now step m s))
  unfolding attempt_as flush_as
  step-Stops skips m s pending h = h
  step-Stops blocks m s pending h = h
  step-Stops drops m s pending h = h
  step-Stops sends m s pending h =
      let r = send_queued telegram sms prefix_of stopping now m s.notifier s.world in
      (send-StopsAfter m s.blocked r.1 r.0.0 r.0.1 pending, h)

  attempts-Stops :
      (pending : List QueuedMessage) (s : FlushState W)
      → Stops (attempts telegram sms prefix_of stopping now pending s)
  unfolding attempts flush_one
  attempts-Stops [] s = tt
  attempts-Stops (m ∷ pending) s =
      let step = flush_step m s.blocked s.notifier in
      step-Stops step m s pending
        (attempts-Stops pending (flush_as telegram sms prefix_of stopping now step m s))

  -- A flush sends the queued messages of each channel in the order of the queue until the first of
  -- them that fails, and nothing of that channel after it; while the outside is known down, or
  -- without a sender, it sends nothing of that channel at all.
  pub flush-Stops :
      (has_telegram has_sms : Bool) (n : Notifier) (w : W)
      → let s : FlushState W = record {
        notifier = n;
        world = w;
        blocked = blocked_at_start has_telegram has_sms n.offline;
      } in
        let sent = attempts telegram sms prefix_of stopping now n.queue s in
        Stops sent
        × When (n.offline || not has_telegram) (Avoids channel_telegram sent)
        × When (not has_sms) (Avoids channel_sms sent)
  unfolding blocked_at_start
  flush-Stops has_telegram has_sms n w =
      let s : FlushState W = record {
        notifier = n;
        world = w;
        blocked = blocked_at_start has_telegram has_sms n.offline;
      } in
      (
        attempts-Stops n.queue s,
        when_true (n.offline || not has_telegram)
            (Avoids channel_telegram (attempts telegram sms prefix_of stopping now n.queue s))
            (λ e.
              attempts-Avoids channel_telegram n.queue s
                (telegram_blocked (n.offline || not has_telegram) has_sms e)),
        when_true (not has_sms)
            (Avoids channel_sms (attempts telegram sms prefix_of stopping now n.queue s))
            (λ e.
              attempts-Avoids channel_sms n.queue s
                (sms_blocked (n.offline || not has_telegram) has_sms e)),
      )
