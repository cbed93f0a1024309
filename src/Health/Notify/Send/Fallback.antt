-- ===== src/Health/Notify/Send/Fallback.antt =====
-- What one call of `fallbackDueLocked` of pkg/health/notify/notify.go hands to the SMS fallback, and
-- how a stored outage of a channel is merged.
use tgshd.Base.{
  ◌≤◌, ◌<◌, List, [], ◌∷◌, Bool, true, false, not, ◌&&◌, ◌||◌, ◌≡◌, arith, nat_beq, leb, ◌==◌,
  text_eq, any, All, lookup,
}
use tgshd.Health.Types.{Time}
use tgshd.Health.Notify.{QueuedMessage, ChannelHealth, fail, restore_channel, channel_telegram}
use tgshd.Health.Notify.Queue.{Notifier, has_key}
use tgshd.Health.Notify.Send.{last_queued, mark_of}

-- A queued PROBLEM that the fallback may send, of a queue.
abbrev pub IsDue : List QueuedMessage → Notifier → QueuedMessage → Type 0
IsDue all n m =
    (has_key m.key n.sms_problems ≡ false)
    × (m.channel == channel_telegram ≡ true)
    × (m.kind == "problem" ≡ true)
    × (nat_beq m.id (last_queued m.key all 0) ≡ true)
    × (leb (mark_of (lookup m.key n.resolved_before)) m.id ≡ true)

-- A message that is not due for the fallback.
abbrev pub is_left : List QueuedMessage → Notifier → QueuedMessage → Bool
is_left all n m = not (
    (m.channel == channel_telegram)
    && (m.kind == "problem")
    && nat_beq m.id (last_queued m.key all 0)
    && leb (mark_of (lookup m.key n.resolved_before)) m.id
    && not (has_key m.key n.sms_problems))

-- No two messages of the same key.
abbrev pub OncePerKey : List QueuedMessage → Type 0
OncePerKey [] = Unit
OncePerKey (m ∷ ms) = All (λ k. k.key == m.key ≡ false) ms × OncePerKey ms

-- A message is left, or one of its key is handed over.
abbrev pub IsServed : List QueuedMessage → Notifier → List QueuedMessage → QueuedMessage → Type 0
IsServed all n due m = is_left all n m || any (λ d. d.key == m.key) due ≡ true

-- A stored outage that began before a failure seen in memory is the same outage, whichever comes
-- first: a failed send and then the late load leave the same health as the load and then the send.
pub restore_channel-fail :
    (ok : Bool) (stored mem : ChannelHealth) (now : Time)
    → 0 < now
    → stored.failing_since ≤ now
    → restore_channel ok stored (fail now mem) ≡ fail now (restore_channel ok stored mem)
unfolding restore_channel fail
restore_channel-fail ok stored mem now pos past = ground arith
