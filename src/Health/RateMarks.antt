-- ===== src/Health/RateMarks.antt =====
-- The rate limiter of messages, pkg/health/ratelimit.go: a map from key and channel to the time of
-- the last send. Each method holds the mutex, so it is one step.
pub mod Spacing
pub mod Export
pub mod Tests
use tgshd.Base.{
  ℕ, ◌+◌, ◌-◌, String, List, [], ◌∷◌, map, Bool, true, false, ◌≡◌, ◌↔◌, Option, none, some, arith,
  Eq, text_eq, ◌==◌, ◌&&◌, ltb, leb, nat_beq, if◌then◌else◌, lookup, insert, delete, sort, text_leb,
  eq_iff,
}
use tgshd.Health.Types.{Time, Duration}

pub record RateKey : Type 0 where
  pub key : String
  pub channel : String

abbrev pub rate_key_beq : RateKey → RateKey → Bool
rate_key_beq a b = a.key == b.key && a.channel == b.channel

pub rate_key_beq_iff : (a b : RateKey) → (rate_key_beq a b ≡ true) ↔ (a ≡ b)
rate_key_beq_iff a b = ground (arith, eq_iff a.key b.key, eq_iff a.channel b.channel)

instance abbrev pub rate_key_eq : Eq RateKey
rate_key_eq = record { beq = rate_key_beq; beq_iff = rate_key_beq_iff }

pub record RateMark : Type 0 where
  pub key : String
  pub channel : String
  pub last_sent_at : Time

abbrev pub Marks : Type 0
Marks = List (RateKey × Time)

-- Whether a mark at `last` refuses a send at `now`: `elapsed >= 0 && elapsed < window`.
abbrev pub within_window : Time → Time → Duration → Bool
within_window last now window = leb last now && ltb (now - last) window

-- `RateMarks.Allow`.
unfoldable pub allow : RateKey → Time → Duration → Marks → Marks × Bool
allow k now window marks = elim (lookup k marks) [
  | none ↦ (insert k now marks, true)
  | some last ↦ if within_window last now window then (marks, false) else (insert k now marks, true)
]

-- `RateMarks.Revert`.
unfoldable pub revert : RateKey → Time → Marks → Marks
revert k at marks = elim (lookup k marks) [
  | none ↦ marks
  | some last ↦ if nat_beq last at then delete k marks else marks
]

abbrev pub rate_mark_of : RateKey × Time → RateMark
rate_mark_of (k, at) = record { key = k.key; channel = k.channel; last_sent_at = at }

-- The order of the export: by key, then by channel.
abbrev pub by_key_channel : RateMark → RateMark → Bool
by_key_channel a b = if a.key == b.key then text_leb a.channel b.channel else text_leb a.key b.key

-- `RateMarks.Export`.
unfoldable pub export : Marks → List RateMark
export marks = sort by_key_channel (map rate_mark_of marks)

abbrev pub key_of_mark : RateMark → RateKey
key_of_mark m = record { key = m.key; channel = m.channel }

-- `RateMarks.Merge`: the later mark wins.
unfoldable pub merge_one : RateMark → Marks → Marks
merge_one m marks = elim (lookup (key_of_mark m) marks) [
  | none ↦ insert (key_of_mark m) m.last_sent_at marks
  | some cur ↦ if ltb cur m.last_sent_at then insert (key_of_mark m) m.last_sent_at marks else marks
]

unfoldable pub merge : List RateMark → Marks → Marks
merge [] marks = marks
merge (m ∷ ms) marks = merge ms (merge_one m marks)

-- `RateMarks.Restore`.
unfoldable pub restore_onto : List RateMark → Marks → Marks
restore_onto [] marks = marks
restore_onto (m ∷ ms) marks = restore_onto ms (insert (key_of_mark m) m.last_sent_at marks)

unfoldable pub restore : List RateMark → Marks
unfolding restore_onto
restore ms = restore_onto ms []
