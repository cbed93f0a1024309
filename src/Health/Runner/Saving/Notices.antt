-- ===== src/Health/Runner/Saving/Notices.antt =====
-- Ticks of the runner as a sequence: what is handed to the store, and the notices about it.
use tgshd.Base.{List, [], ◌∷◌, ◌++◌, Bool, true, false, ◌&&◌, if◌then◌else◌, select, ◌≡◌}
use tgshd.Health.Store.{LoggedAlert, SampleRow}
use tgshd.Health.Runner.Saving.{
  Pending, SaveOutcome, save_ok, save_failed, SaveEvent, handed, reported, recovered, checkpoint,
}

pub record Tick : Type 0 where
  pub persistent : Bool
  pub loaded : Bool
  pub sent : Bool
  pub outcome : SaveOutcome
  pub alerts : List LoggedAlert
  pub samples : List SampleRow

abbrev pub step : Tick → Pending → Pending × List SaveEvent
step t r = checkpoint t.persistent t.loaded t.sent t.outcome t.alerts t.samples r

-- The events of a sequence of ticks, and what is pending after it.
unfoldable pub run : List Tick → Pending → Pending × List SaveEvent
run [] r = (r, [])
run (t ∷ ticks) r =
    let (next, events) = step t r in let (last, more) = run ticks next in (last, events ++ more)

-- The events that are messages.
abbrev pub is_notice : SaveEvent → Bool
is_notice (handed alerts samples) = false
is_notice reported = true
is_notice recovered = true

-- What the ticks should say of their saves: a failed save that may be reported is, and the first save
-- that succeeds after a report announces the recovery. The Boolean tells that a report is out.
unfoldable pub notice_due : Bool → Bool → SaveOutcome → List SaveEvent × Bool
notice_due sent owed save_ok = (if owed then recovered ∷ [] else [], false)
notice_due true owed save_failed = (reported ∷ [], true)
notice_due _ owed _ = ([], owed)

unfoldable pub notices_due : Bool → List Tick → List SaveEvent
notices_due owed [] = []
notices_due owed (t ∷ ticks) =
    let (now, next) =
      if t.persistent && t.loaded then notice_due t.sent owed t.outcome else ([], owed) in
    now ++ notices_due next ticks

-- The notices of one save and the mark it leaves.
abbrev AsDue : Bool → Pending × List SaveEvent → List SaveEvent × Bool → Type 0
AsDue owed (next, events) due = (select is_notice events ≡ due.0) × (next.save_reported ≡ due.1)

abbrev pub alerts_of : List Tick → List LoggedAlert
alerts_of [] = []
alerts_of (t ∷ ticks) = t.alerts ++ alerts_of ticks

abbrev pub samples_of : List Tick → List SampleRow
samples_of [] = []
samples_of (t ∷ ticks) = t.samples ++ samples_of ticks

-- Ticks of a runner whose stored state could not be loaded.
abbrev pub Unloaded : List Tick → Type 0
Unloaded [] = Unit
Unloaded (t ∷ ticks) = (t.persistent ≡ true) × (t.loaded ≡ false) × Unloaded ticks

-- What is handed to the store.
abbrev pub handed_in : List SaveEvent → List (List LoggedAlert × List SampleRow)
handed_in [] = []
handed_in (handed alerts samples ∷ events) = (alerts, samples) ∷ handed_in events
handed_in (reported ∷ events) = handed_in events
handed_in (recovered ∷ events) = handed_in events
