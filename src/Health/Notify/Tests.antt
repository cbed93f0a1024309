-- ===== src/Health/Notify/Tests.antt =====
-- The notifier with a few queued messages.
use tgshd.Base.{ℕ, ◌+◌, ◌≤◌, List, [], ◌∷◌, ◌++◌, map, false, ◌≡◌, none, arith, codes}
use tgshd.Telegram.Route.{Route}
use tgshd.Health.Types.{Time}
use tgshd.Health.Notify.{
  Runes, QueuedMessage, Message, kind_problem, mode_unset, default_route, max_message_units,
}
use tgshd.Health.Notify.Texts.{
  utf16_len, rune_units, escape, escape_rune, label_of, suffix_of, render, render-fits,
}
use tgshd.Health.Notify.Undelivered.{UndeliveredProblem, Undelivered, Shown, nothing_shown}
use tgshd.Health.Notify.Queue.{Notifier, Outcome, delivered, failed, merge, next_above}
use tgshd.Health.Notify.Queue.Order.{merges, IsOrdered, act, act-IsOrdered}
use tgshd.Health.Notify.Queue.Losses.{without_id, merge-keeps}
use tgshd.Health.Notify.Send.{Progress}
use tgshd.Health.Notify.Send.Stopping.{attempts}

abbrev queued : QueuedMessage
queued = record {
  id = 4;
  created_at = 100;
  channel = "tlg";
  text = codes "host: PROBLEM: 91 °C";
  attempts = 1;
  kind = "problem";
  check = "temp";
  key = "temp/cpu";
  plain = codes "91 °C";
  since = 40;
  route = default_route "problem";
}

abbrev by_sms : QueuedMessage
by_sms = record queued { id = 6; channel = "sms" }

abbrev item : UndeliveredProblem
item = record { key = "temp/cpu"; text = codes "91 °C"; since = 40; dropped_at = 90 }

abbrev listed_before : Undelivered
listed_before = record { items = item ∷ item ∷ []; folded = 1 }

abbrev notifier : Notifier
notifier = record {
  queue = queued ∷ by_sms ∷ [];
  next_id = 7;
  offline = false;
  degraded = false;
  telegram = record { failing_since = 60; reported = false };
  telegram_ok = false;
  sms_problems = [];
  resolved_before = ("http/site", 5) ∷ [];
  in_flight = [];
  undelivered = listed_before;
  showing = false;
  held = 0;
  prefix_by = none;
}

abbrev message : Message
message = record {
  kind = kind_problem;
  check = "http";
  key = "http/site";
  text = codes "no answer <500>";
  since = 90;
  mode = mode_unset;
  route = default_route "problem";
}

abbrev no_prefix : ℕ → Time → Undelivered → Runes × Shown
no_prefix limit now u = ([], nothing_shown)

abbrev digits : ℕ → Runes
digits n = 49 ∷ []

abbrev clock : Time → Time → Runes
clock since now = codes "08:15"

abbrev stored : List QueuedMessage
stored = record queued { id = 1 } ∷ record queued { id = 3 } ∷ []

act-IsOrdered_example : IsOrdered (act (merges stored) notifier)
unfolding next_above
act-IsOrdered_example =
    act-IsOrdered (merges stored) notifier (omega arith, (omega arith, omega arith))
      ((omega arith, (omega arith, omega arith)), omega arith)

merge-keeps_example :
    map without_id ((merge stored notifier).0 ++ (merge stored notifier).1.queue)
    ≡ map without_id stored ++ map without_id notifier.queue
merge-keeps_example = merge-keeps stored notifier

abbrev progress : Progress ℕ
progress = record { notifier = notifier; world = 0; dropped = [] }

abbrev down : Route → Runes → ℕ → ℕ × Outcome
down r text w = (w + 1, failed)

abbrev up : Runes → ℕ → ℕ × Outcome
up text w = (w + 1, delivered)

abbrev clock_since : Time → Runes
clock_since since = codes "08:15"

render-fits_example : utf16_len (render clock_since (codes "host") message).1 ≤ max_message_units
unfolding utf16_len rune_units escape escape_rune label_of suffix_of
render-fits_example = render-fits clock_since (codes "host") message (omega arith)
