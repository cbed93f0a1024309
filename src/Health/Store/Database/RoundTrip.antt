-- ===== src/Health/Store/Database/RoundTrip.antt =====
-- Each row of the tables and the value read from it, and the messages that `validate` accepts.
use tgshd.Base.{
  ℕ, ◌+◌, ◌-◌, ◌*◌, ◌/◌, List, [], ◌∷◌, map, Bool, true, false, not, ◌&&◌, ◌≡◌, refl, sym, ap,
  arith, Option, none, some, leb, nat_beq, nat_beq_iff, nat_eq, ◌==◌, text_eq, Bool-cases, inl, inr,
  if◌then◌else◌, All, or_else,
}
use tgshd.Health.Types.{Time, Condition}
use tgshd.Health.RateMarks.{RateMark}
use tgshd.Health.Notify.{QueuedMessage}
use tgshd.Health.Store.{
  State, LoggedAlert, Invalid, one_of, queue_channels, queue_kinds, zero_route, validate,
  validate_queue, validate_queued,
}
use tgshd.Health.Store.Rows.{
  second, unix_epoch, from_epoch, unix, time_unix, null_unix, from_null, condition_row,
  read_condition, queue_row, message_of, read_row, read_queue,
}
use tgshd.Health.Store.Database.{channel_ok, kind_ok, encode_mark, decode_mark}
use tgshd.Telegram.Route.{Topic, route_text, parse_route, text_of, route}

abbrev pub truncate : Time → Time
truncate t = t / second * second

past_epoch : (s e : ℕ) → leb e s ≡ true → s - e + e ≡ s
past_epoch s e h = ground arith

before_epoch : (s e : ℕ) → leb e s ≡ false → e - (e - s - 1) - 1 ≡ s
before_epoch s e h = ground arith

time_unix-from_epoch : (s : ℕ) → time_unix (from_epoch s) ≡ s * second
unfolding time_unix from_epoch
time_unix-from_epoch s = elim (Bool-cases (leb unix_epoch s)) [
  | inl e ↦ rw e (ap (λ n. n * second) (past_epoch s unix_epoch e))
  | inr e ↦ rw e (ap (λ n. n * second) (before_epoch s unix_epoch e))
]

pub time_unix-unix : (t : Time) → time_unix (unix t) ≡ truncate t
unfolding unix
time_unix-unix t = time_unix-from_epoch (t / second)

from_null-null_unix : (t : Time) → from_null (null_unix t) ≡ truncate t
unfolding null_unix from_null
from_null-null_unix t = elim (Bool-cases (nat_beq t 0)) [
  | inl e ↦ rw e (sym (ap truncate ((nat_beq_iff t 0).0 e)))
  | inr e ↦ rw e (time_unix-unix t)
]

-- A condition, a message and a mark with their times cut to whole seconds.
unfoldable pub truncated_condition : Condition → Condition
truncated_condition c = record c {
  streak_start = truncate c.streak_start;
  bad_for = truncate c.bad_for;
  last_reading_at = truncate c.last_reading_at;
  opened_at = truncate c.opened_at;
}

unfoldable pub truncated_message : QueuedMessage → QueuedMessage
truncated_message m = record m { created_at = truncate m.created_at; since = truncate m.since }

unfoldable pub truncated_mark : RateMark → RateMark
truncated_mark m = record m { last_sent_at = truncate m.last_sent_at }

pub read_condition-row : (c : Condition) → read_condition (condition_row c) ≡ truncated_condition c
unfolding read_condition condition_row truncated_condition
read_condition-row c =
    rw
      (
        from_null-null_unix c.streak_start,
        from_null-null_unix c.last_reading_at,
        from_null-null_unix c.opened_at,
      )
      refl

message_of-row : (m : QueuedMessage) → message_of (queue_row m) m.route ≡ truncated_message m
unfolding message_of queue_row truncated_message
message_of-row m = rw (time_unix-unix m.created_at, from_null-null_unix m.since) refl

pub decode-encode_mark : (m : RateMark) → decode_mark (encode_mark m) ≡ truncated_mark m
unfolding decode_mark encode_mark truncated_mark
decode-encode_mark m = rw (time_unix-unix m.last_sent_at) refl

-- A message that `validate` accepts: its route is one that its text gives back.
accepted_route :
    (t : Topic) (b : Bool)
    → not (zero_route (route t b)) && (text_of t b == "") ≡ false
    → parse_route (text_of t b) ≡ some (route t b)
unfolding text_of parse_route
accepted_route Topic.topic_none false h = refl
accepted_route Topic.topic_none true h = cc
accepted_route Topic.topic_alerts false h = refl
accepted_route Topic.topic_alerts true h = refl
accepted_route Topic.topic_sms false h = refl
accepted_route Topic.topic_sms true h = cc
accepted_route Topic.topic_system false h = cc
accepted_route Topic.topic_system true h = refl

abbrev pub IsAccepted : QueuedMessage → Type 0
IsAccepted m = (channel_ok m ≡ true) × (parse_route (route_text m.route) ≡ some m.route)

passed_tests :
    (a b r : Bool) (x y z : Invalid)
    → (if not a then some x else if not b then some y else if r then some z else none) ≡ none
    → (a ≡ true) × (r ≡ false)
passed_tests true true false x y z h = (refl, refl)
passed_tests true true true x y z h = cc
passed_tests true false r x y z h = cc
passed_tests false b r x y z h = cc

or_else-none_iff : (a b : Option Invalid) → or_else a b ≡ none → (a ≡ none) × (b ≡ none)
or_else-none_iff none b h = (refl, h)
or_else-none_iff (some x) b h = cc

validate_queued-IsAccepted : (m : QueuedMessage) → validate_queued m ≡ none → IsAccepted m
unfolding validate_queued route_text
validate_queued-IsAccepted m h =
    let passed =
      passed_tests (one_of m.channel queue_channels) (one_of m.kind queue_kinds)
        (not (zero_route m.route) && (text_of m.route.topic m.route.silent == "")) _ _ _ h in
    (passed.0, accepted_route m.route.topic m.route.silent passed.1)

validate_queue-All : (ms : List QueuedMessage) → validate_queue ms ≡ none → All IsAccepted ms
unfolding validate_queue
validate_queue-All [] h = tt
validate_queue-All (m ∷ ms) h =
    let parts = or_else-none_iff (validate_queued m) (validate_queue ms) h in
    (validate_queued-IsAccepted m parts.0, validate_queue-All ms parts.1)

kind-none :
    (b : Bool) (rest : Option Invalid) (x : Invalid)
    → (if b then rest else some x) ≡ none
    → (b ≡ true) × (rest ≡ none)
kind-none true rest x h = (refl, h)
kind-none false rest x h = cc

pub validate-All :
    (st : State) (alerts : List LoggedAlert)
    → validate st alerts ≡ none
    → All (λ a. kind_ok a ≡ true) alerts × All IsAccepted st.queue
unfolding validate
validate-All st [] h = (tt, validate_queue-All st.queue h)
validate-All st (a ∷ alerts) h =
    let parts = kind-none (kind_ok a) (validate st alerts) _ h in
    let rest = validate-All st alerts parts.1 in ((parts.0, rest.0), rest.1)

pub read_queue-map :
    (ms : List QueuedMessage)
    → All IsAccepted ms
    → read_queue (map queue_row ms) ≡ some (map truncated_message ms)
unfolding read_queue read_row queue_row
read_queue-map [] h = refl
read_queue-map (m ∷ ms) h =
    rw (h.0.1, read_queue-map ms h.1)
      (ap (λ z. some (z ∷ map truncated_message ms)) (message_of-row m))
