-- ===== src/Telegram/Route/Texts.antt =====
-- Routes and their texts, and the topic settings: route.go of pkg/telegram/route.
use tgshd.Base.{
  ℕ, ◌+◌, ℤ, ◌++◌, String, List, [], Bool, true, false, not, ◌&&◌, ◌||◌, ◌≡◌, ◌↔◌, refl, sym, ap,
  ◌∙◌, Option, some, arith, nat_beq, if◌then◌else◌, ◌==◌, text_eq, eq_iff, length, length-append,
  Bool-cases, inl, inr,
}
use tgshd.Telegram.Route.{
  Topic, topic_none, topic_alerts, topic_sms, topic_system, Route, route, text_of, route_text,
  parse_route, Topics, TopicWarning, parse_topic, parse_topics,
}

-- The routes that have a text of their own: those that the senders ask for, and no route.
abbrev pub is_supported : Topic → Bool → Bool
is_supported topic_none false = true
is_supported topic_none true = false
is_supported topic_alerts silent = true
is_supported topic_sms silent = not silent
is_supported topic_system silent = silent

parse-text :
    (topic : Topic) (silent : Bool)
    → is_supported topic silent ≡ true
    → parse_route (text_of topic silent) ≡ some (route topic silent)
unfolding parse_route text_of
parse-text topic_none false h = refl
parse-text topic_none true h = cc
parse-text topic_alerts false h = refl
parse-text topic_alerts true h = refl
parse-text topic_sms false h = refl
parse-text topic_sms true h = cc
parse-text topic_system false h = cc
parse-text topic_system true h = refl

text-parse :
    (s : String) (r : Route)
    → parse_route s ≡ some r
    → (route_text r ≡ s) × (is_supported r.topic r.silent ≡ true)
unfolding parse_route route_text text_of
text-parse s r h = ground (
  arith,
  eq_iff s "",
  eq_iff s "alerts",
  eq_iff s "alerts/silent",
  eq_iff s "sms",
  eq_iff s "system/silent",
)

-- A text parses to a route just when it is the text of that route and the route is a supported
-- one; so printing and parsing are inverse on the supported routes and any other text is refused.
pub parse_route_iff :
    (s : String) (r : Route)
    → (parse_route s ≡ some r) ↔ ((route_text r ≡ s) × (is_supported r.topic r.silent ≡ true))
unfolding route_text
parse_route_iff s r =
    (text-parse s r, λ h. ap parse_route (sym h.0) ∙ parse-text r.topic r.silent h.1)

abbrev zeros : ℕ → ℕ
zeros n = if nat_beq n 0 then 1 else 0

-- The number of topics that are not configured.
abbrev pub unconfigured : Topics → ℕ
unconfigured t = zeros t.alerts + zeros t.sms + zeros t.system

module _ (atoi : String → Option ℤ) where
  length-parse_topic :
      (name value : String)
      → length (parse_topic atoi true name value).1 ≡ zeros (parse_topic atoi true name value).0
  unfolding parse_topic
  length-parse_topic name value = ground arith

  parse_topic_empty :
      (name value : String) → (value == "") ≡ true → parse_topic atoi false name value ≡ (0, [])
  unfolding parse_topic
  parse_topic_empty name value h = rw h

  no_settings : (a s y : Bool) → (a && s && y) ≡ true → (a ≡ true) × (s ≡ true) × (y ≡ true)
  no_settings a s y h = (ground arith, ground arith, ground arith)

  some_setting : (a s y : Bool) → (a && s && y) ≡ false → (not a || not s || not y) ≡ true
  some_setting a s y h = ground arith

  length-append3 :
      (xs ys zs : List TopicWarning) → length (xs ++ ys ++ zs) ≡ length xs + length ys + length zs
  length-append3 xs ys zs = omega (arith, length-append (xs ++ ys) zs, length-append xs ys)

  -- When some setting is given there is one warning for each topic left unconfigured, whatever
  -- is wrong with its setting; when none is given there is no topic and no warning.
  pub parse_topics-warnings :
      (alerts sms system : String)
      → let (t, warnings) = parse_topics atoi alerts sms system in
        length warnings ≡ (if alerts == "" && sms == "" && system == "" then 0 else unconfigured t)
  unfolding parse_topics
  parse_topics-warnings alerts sms system =
      elim (Bool-cases (alerts == "" && sms == "" && system == "")) [
        | inl none_set ↦
            let (a, s, y) = no_settings (alerts == "") (sms == "") (system == "") none_set in
            rw
              (
                a,
                s,
                y,
                parse_topic_empty "TELEGRAM_TOPIC_ALERTS" alerts a,
                parse_topic_empty "TELEGRAM_TOPIC_SMS" sms s,
                parse_topic_empty "TELEGRAM_TOPIC_SYSTEM" system y,
              )
              refl
        | inr e ↦
            rw (e, some_setting (alerts == "") (sms == "") (system == "") e)
              (length-append3 (parse_topic atoi true "TELEGRAM_TOPIC_ALERTS" alerts).1
                  (parse_topic atoi true "TELEGRAM_TOPIC_SMS" sms).1
                  (parse_topic atoi true "TELEGRAM_TOPIC_SYSTEM" system).1
                ∙ rw
                    (
                      length-parse_topic "TELEGRAM_TOPIC_ALERTS" alerts,
                      length-parse_topic "TELEGRAM_TOPIC_SMS" sms,
                      length-parse_topic "TELEGRAM_TOPIC_SYSTEM" system,
                    )
                    refl)
      ]
