-- ===== src/Telegram/Route.antt =====
-- Routes, topics and the fallback of a send: route.go and fallback.go of pkg/telegram/route.
-- `strconv.Atoi` and `strings.ToLower` are parameters.
pub mod Texts
pub mod Fallback
use tgshd.Base.{
  ℕ, ℤ, pos, negsuc, is_positive, ◌++◌, String, List, [], ◌∷◌, Bool, true, false, not, ◌&&◌, ◌||◌,
  Option, none, some, nat_beq, if◌then◌else◌, ◌==◌, text_eq, any, Bytes, codes, has_prefix,
}

pub record Destination : Type 0 where
  pub chat_id : ℤ
  pub thread_id : ℕ
  pub silent : Bool

pub data Topic : Type 0 where
  topic_none topic_alerts topic_sms topic_system : Topic

pub record Route : Type 0 where
  pub topic : Topic
  pub silent : Bool

abbrev pub route : Topic → Bool → Route
route topic silent = record { topic = topic; silent = silent }

-- `Route.String`.
unfoldable pub text_of : Topic → Bool → String
text_of topic_alerts false = "alerts"
text_of topic_alerts true = "alerts/silent"
text_of topic_sms false = "sms"
text_of topic_sms true = ""
text_of topic_system false = ""
text_of topic_system true = "system/silent"
text_of topic_none silent = ""

unfoldable pub route_text : Route → String
unfolding text_of
route_text r = text_of r.topic r.silent

-- `ParseRoute`, none for an error.
unfoldable pub parse_route : String → Option Route
parse_route s =
    if s == ""
    then some (route topic_none false)
    else if s == "alerts"
    then some (route topic_alerts false)
    else if s == "alerts/silent"
    then some (route topic_alerts true)
    else if s == "sms"
    then some (route topic_sms false)
    else if s == "system/silent"
    then some (route topic_system true)
    else none

-- `Topics`: 0 is a topic that is not configured.
pub record Topics : Type 0 where
  pub alerts : ℕ
  pub sms : ℕ
  pub system : ℕ

-- `Topics.Resolve`.
abbrev pub thread_of : Topics → Topic → ℕ
thread_of t topic_alerts = t.alerts
thread_of t topic_sms = t.sms
thread_of t topic_system = t.system
thread_of t topic_none = 0

unfoldable pub resolve : Topics → ℤ → Route → Destination
resolve t chat_id r = record {
  chat_id = chat_id;
  thread_id = thread_of t r.topic;
  silent = r.silent;
}

-- A warning of `ParseTopics`: its setting, and which of its two texts it has.
pub data TopicWarning : Type 0 where
  not_set not_positive : String → TopicWarning

-- The closure `parse` on the number that `strconv.Atoi` gives, none for its error.
abbrev parsed : String → Option ℤ → ℕ × List TopicWarning
parsed name none = (0, not_positive name ∷ [])
parsed name (some (negsuc n)) = (0, not_positive name ∷ [])
parsed name (some (pos n)) = if nat_beq n 0 then (0, not_positive name ∷ []) else (n, [])

module _ (atoi : String → Option ℤ) where
  unfoldable pub parse_topic : Bool → String → String → ℕ × List TopicWarning
  parse_topic any_set name value =
      if value == ""
      then (0, if any_set then not_set name ∷ [] else [])
      else parsed name (atoi value)

  -- `ParseTopics`.
  unfoldable pub parse_topics : String → String → String → Topics × List TopicWarning
  parse_topics alerts sms system =
      let any_set = not (alerts == "") || not (sms == "") || not (system == "") in
      let (a, wa) = parse_topic any_set "TELEGRAM_TOPIC_ALERTS" alerts in
      let (s, ws) = parse_topic any_set "TELEGRAM_TOPIC_SMS" sms in
      let (y, wy) = parse_topic any_set "TELEGRAM_TOPIC_SYSTEM" system in
      (record { alerts = a; sms = s; system = y }, wa ++ ws ++ wy)

-- `strings.Contains`.
unfoldable pub contains : Bytes → Bytes → Bool
contains [] part = has_prefix [] part
contains (c ∷ s) part = has_prefix (c ∷ s) part || contains s part

module _ (to_lower : Bytes → Bytes) where
  -- `ThreadRejected`, of the text of an error.
  unfoldable pub thread_rejected : Bytes → Bool
  thread_rejected text =
      any (contains (to_lower text))
        (codes "message thread not found" ∷ codes "topic_closed" ∷ codes "topic_deleted" ∷ [])

  module _ {ℓ} {W : Type ℓ} (send : Destination → W → W × Option Bytes)
      (warn : ℕ → Bytes → W → W) where
    -- What follows the first send, whose error is given by its text.
    unfoldable pub after_send : Destination → Option Bytes → W → W × Option Bytes
    after_send d none w = (w, none)
    after_send d (some text) w =
        if nat_beq d.thread_id 0 || not (thread_rejected text)
        then (w, some text)
        else send (record d { thread_id = 0 }) (warn d.thread_id text w)

    -- `SendWithFallback` on the state of the world that the sends and warnings change.
    unfoldable pub send_with_fallback : Destination → W → W × Option Bytes
    unfolding after_send
    send_with_fallback d w = let (w1, error) = send d w in after_send d error w1
