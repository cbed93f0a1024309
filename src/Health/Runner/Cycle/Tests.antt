-- ===== src/Health/Runner/Cycle/Tests.antt =====
-- A tick's readings and a dropped message.
use tgshd.Base.{
  ◌/◌, ◌*◌, ◌<◌, ◌≤◌, [], ◌∷◌, true, false, ◌≡◌, refl, arith, length, lookup, text_eq, select, ◌⊎◌,
  codes,
}
use tgshd.Health.Types.{Reading, Condition, bad, unknown, state, mode_default}
use tgshd.Health.Engine.{Engine, apply, apply_bad}
use tgshd.Health.Notify.{QueuedMessage, default_route}
use tgshd.Health.Notify.Undelivered.{UndeliveredProblem, Undelivered, add}
use tgshd.Health.Runner.Cycle.Apply.{dropped, second, drop_retired}
use tgshd.Health.Store.{Baseline}
use tgshd.Health.Runner.Cycle.Retired.{IsUntouched, apply-drop_retired}
use tgshd.Health.Runner.Cycle.Results.{readable, apply-unreadable, dropped_lem}

abbrev hot : Reading
hot = record {
  key = "temp/cpu";
  verdict = bad;
  text = "91 °C";
  mode = mode_default;
  kind = state;
  since = 0;
}

abbrev unread : Reading
unread = record hot { verdict = unknown; text = "no sensor" }

abbrev tracked : Condition
tracked = record {
  key = "temp/cpu";
  check = "temp";
  streak_start = 100;
  bad_for = 600;
  last_reading_at = 700;
  last_text = "90 °C";
  is_open = true;
  opened_at = 700;
}

abbrev engine : Engine
engine = ("temp/cpu", tracked) ∷ []

abbrev queued : QueuedMessage
queued = record {
  id = 4;
  created_at = 700;
  channel = "tlg";
  text = codes "host: PROBLEM: 91 °C";
  attempts = 1;
  kind = "problem";
  check = "temp";
  key = "temp/cpu";
  plain = codes "91 °C";
  since = 100;
  route = default_route "problem";
}

abbrev problem : UndeliveredProblem
problem = record { key = "temp/cpu"; text = codes "91 °C"; since = 100; dropped_at = 760 }

abbrev nothing_listed : Undelivered
nothing_listed = record { items = []; folded = 0 }

apply-unreadable_example :
    apply 760 "temp" 60 90 (unread ∷ hot ∷ []) engine
    ≡ apply 760 "temp" 60 90 (select (readable 760 "temp" 60 90) (unread ∷ hot ∷ [])) engine
apply-unreadable_example = apply-unreadable 760 "temp" 60 90 (unread ∷ hot ∷ []) engine

dropped_lem_example :
    ((tracked.is_open ≡ true)
      × (tracked.streak_start / second * second ≤ queued.created_at)
      × ((dropped queued problem engine nothing_listed).1 ≡ nothing_listed)
      × (length (apply_bad 760 "temp" 60 90 hot (dropped queued problem engine nothing_listed).0).1
          ≡ 1))
    ⊎ (((tracked.is_open ≡ false) ⊎ (queued.created_at < tracked.streak_start / second * second))
        × (dropped queued problem engine nothing_listed ≡ (engine, add problem nothing_listed)))
unfolding lookup
dropped_lem_example =
    dropped_lem queued problem engine nothing_listed tracked 760 "temp" 60 90 hot refl refl refl
      (omega arith)

abbrev retired : Baseline
retired = record {
  serial = "WD-1234";
  model = "WD";
  bus = "sata";
  payload = "{}";
  first_seen_at = 1;
  last_seen_at = 2;
  retired = true;
}

abbrev late : Reading
late = record hot { key = "disks/WD-1234/health" }

apply-drop_retired_example :
    IsUntouched "disks/WD-1234/health" engine
      (apply 760 "disks" 60 90 (drop_retired "disks" (retired ∷ []) (late ∷ hot ∷ [])) engine)
apply-drop_retired_example =
    apply-drop_retired 760 60 90 (retired ∷ []) (late ∷ hot ∷ []) engine "disks/WD-1234/health" refl
