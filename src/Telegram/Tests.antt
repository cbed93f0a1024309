-- ===== src/Telegram/Tests.antt =====
-- Routes and access lists of a small chat.
use tgshd.Base.{
  ◌+◌, ℕ, ◌+◌, nat_beq, ℤ, pos, negsuc, String, [], ◌∷◌, true, false, ◌≡◌, ◌↔◌, Option, none, some,
  if◌then◌else◌, ◌==◌, text_eq, Bytes, codes,
}
use tgshd.Telegram.Route.{Destination, route, topic_alerts, parse_route, route_text}
use tgshd.Telegram.Route.Texts.{is_supported, parse_route_iff}
use tgshd.Telegram.Access.{AccessList}

parse_route_iff_example : (parse_route "alerts/silent" ≡ some (route topic_alerts true)) ↔ (
    (route_text (route topic_alerts true) ≡ "alerts/silent")
    × (is_supported topic_alerts true ≡ true))
parse_route_iff_example = parse_route_iff "alerts/silent" (route topic_alerts true)

-- One number is known.
abbrev knows_seven : String → Option ℤ
knows_seven s = if s == "7" then some (pos 7) else none

-- A chat whose topics are all closed; the state counts the sends.
abbrev closed : Bytes
closed = codes "topic_closed"

abbrev closed_topics : Destination → ℕ → ℕ × Option Bytes
closed_topics d n = (n + 1, if nat_beq d.thread_id 0 then none else some closed)

abbrev keep_case : Bytes → Bytes
keep_case text = text

abbrev count_warning : ℕ → Bytes → ℕ → ℕ
count_warning thread text n = n

abbrev to_topic : Destination
to_topic = record { chat_id = negsuc 99; thread_id = 5; silent = false }

abbrev allowed_ids : AccessList
allowed_ids = pos 7 ∷ negsuc 99 ∷ []
