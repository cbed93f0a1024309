-- ===== src/Health/Notify/Undelivered/Accounting.antt =====
-- The undelivered list of pkg/health/notify/channels.go around a message that shows a part of it.
use tgshd.Base.{ℕ, ◌≤◌, List, [], ◌∷◌, ◌++◌, length}
use tgshd.Health.Types.{Time}
use tgshd.Health.Notify.{Runes}
use tgshd.Health.Notify.Texts.{utf16_len}
use tgshd.Health.Notify.Undelivered.{UndeliveredProblem, Undelivered, Shown, undelivered_line}

module _ (itoa : ℕ → Runes) (format_since : Time → Time → Runes) where
  abbrev lines_of : Time → List UndeliveredProblem → Runes
  lines_of now [] = []
  lines_of now (it ∷ items) = undelivered_line itoa format_since it now ++ lines_of now items

  Shows : ℕ → Undelivered → Runes × Shown → Type 0
  Shows limit u (text, shown) =
      (utf16_len text ≤ limit) × (shown.items ≤ length u.items) × (shown.folded ≤ u.folded)
