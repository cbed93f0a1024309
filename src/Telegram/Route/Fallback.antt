-- ===== src/Telegram/Route/Fallback.antt =====
-- The retry of a send without its topic: fallback.go of pkg/telegram/route.
use tgshd.Base.{true, ◌≡◌, Option, some, Bytes}
use tgshd.Telegram.Route.{Destination, thread_rejected}

-- How a send can fail that only its topic stands in the way of.
abbrev pub FailsByTopic {ℓ} :
    (to_lower : Bytes → Bytes) {W : Type ℓ} (send : Destination → W → W × Option Bytes)
    → Destination
    → Type ℓ
FailsByTopic to_lower {W} send d =
    (w : W) (text : Bytes) → (send d w).1 ≡ some text → thread_rejected to_lower text ≡ true
