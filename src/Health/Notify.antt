-- ===== src/Health/Notify.antt =====
-- Pushed messages, their routing and the health of a channel: the types and the small operations of
-- pkg/health/notify (notify.go and channels.go).
pub mod Texts
pub mod Undelivered
pub mod Queue
pub mod Send
pub mod Tests
use tgshd.Base.{
  ℕ, ◌+◌, List, String, Bool, true, false, not, ◌&&◌, ◌||◌, Bytes, nat_beq, ltb, leb, ◌==◌, text_eq,
  if◌then◌else◌,
}
use tgshd.Health.Types.{Time, Duration}
use tgshd.Telegram.Route.{Route, Topic, topic_none, topic_alerts, route}

-- A text is the list of its code points.
abbrev pub Runes : Type 0
Runes = Bytes

-- `QueuedMessage`: its channel and kind are the texts that the store holds.
pub record QueuedMessage : Type 0 where
  pub id : ℕ
  pub created_at : Time
  pub channel : String
  pub text : Runes
  pub attempts : ℕ
  pub kind : String
  pub check : String
  pub key : String
  pub plain : Runes
  pub since : Time
  pub route : Route

-- `Mode`, with the empty one, and `Kind` of a message.
pub data PushMode : Type 0 where
  mode_unset mode_telegram mode_sms mode_telegram_or_sms : PushMode

pub data MessageKind : Type 0 where
  kind_problem kind_resolved kind_event : MessageKind

pub record Message : Type 0 where
  pub kind : MessageKind
  pub check : String
  pub key : String
  pub text : Runes
  pub since : Time
  pub mode : PushMode
  pub route : Route

-- The text a kind is queued under.
unfoldable pub kind_text : MessageKind → String
kind_text kind_problem = "problem"
kind_text kind_resolved = "resolved"
kind_text kind_event = "event"

abbrev pub channel_telegram : String
channel_telegram = "tlg"

abbrev pub channel_sms : String
channel_sms = "sms"

abbrev pub check_network : String
check_network = "network"

-- `MaxMessageUnits`, `MaxQueue`.
abbrev pub max_message_units : ℕ
max_message_units = 4096

abbrev pub max_queue : ℕ
max_queue = 1000

-- `defaultRoute`.
unfoldable pub default_route : String → Route
default_route kind = route topic_alerts (kind == "resolved")

abbrev no_topic : Topic → Bool
no_topic topic_none = true
no_topic _ = false

-- `resolveRoute`.
unfoldable pub resolve_route : String → Route → Route
resolve_route kind r = if no_topic r.topic && not r.silent then default_route kind else r

-- `Notifier.resolveMode`, on the default mode of the options.
unfoldable pub valid_mode : PushMode → PushMode → PushMode
valid_mode mode_unset default = default
valid_mode mode default = mode

unfoldable pub resolve_network : MessageKind → PushMode → PushMode
resolve_network kind_problem mode = mode_sms
resolve_network kind_resolved mode = mode_telegram_or_sms
resolve_network kind_event mode = mode

unfoldable pub resolve_mode : PushMode → Message → PushMode
unfolding valid_mode resolve_network
resolve_mode default msg =
    let mode = valid_mode msg.mode (valid_mode default mode_telegram) in
    if msg.check == check_network then resolve_network msg.kind mode else mode

-- `ChannelHealth`.
pub record ChannelHealth : Type 0 where
  pub failing_since : Time
  pub reported : Bool

abbrev pub healthy : ChannelHealth
healthy = record { failing_since = 0; reported = false }

abbrev pub failing : ChannelHealth → Bool
failing h = not (nat_beq h.failing_since 0)

-- `Fail`, `Succeed`, `NoticeDue` and `MarkReported`.
unfoldable pub fail : Time → ChannelHealth → ChannelHealth
fail now h = if failing h then h else record h { failing_since = now }

unfoldable pub succeed : ChannelHealth → ChannelHealth
succeed h = healthy

unfoldable pub notice_due : Time → Duration → ChannelHealth → Bool
notice_due now after h = failing h && not h.reported && leb (h.failing_since + after) now

unfoldable pub mark_reported : ChannelHealth → ChannelHealth
mark_reported h = if failing h then record h { reported = true } else h

-- `Notifier.MarkTelegramReported`, on the channel's health.
unfoldable pub mark_telegram_reported : Time → ChannelHealth → ChannelHealth
unfolding mark_reported
mark_telegram_reported since h = if nat_beq h.failing_since since then mark_reported h else h

-- `Notifier.RestoreChannels`, on the stored health; the first argument tells that a send succeeded
-- since start.
unfoldable pub restore_channel : Bool → ChannelHealth → ChannelHealth → ChannelHealth
restore_channel telegram_ok stored mem =
    if telegram_ok || not (failing stored) then mem else record {
      failing_since =
          if not (failing mem) || ltb stored.failing_since mem.failing_since
          then stored.failing_since
          else mem.failing_since;
      reported = stored.reported || mem.reported;
    }
