-- ===== src/Health/RateMarks/Tests.antt =====
-- The rate limiter on small inputs.
use tgshd.Base.{
  eq_iff, Bool, false, List, [], ◌∷◌, true, ◌≡◌, ◌≢◌, ap, refl, arith, lookup, insert, IsKeyed,
}
use tgshd.Health.RateMarks.{RateKey, rate_key_eq, RateMark, Marks, allow}
use tgshd.Health.RateMarks.Spacing.{sends, SpacedAll, sends-SpacedAll}

abbrev by_mail : RateKey
by_mail = record { key = "kernel/oom"; channel = "email" }

abbrev by_telegram : RateKey
by_telegram = record { key = "kernel/oom"; channel = "tlg" }

abbrev sent : Marks
sent = (by_telegram, 50) ∷ (by_mail, 20) ∷ []

sends_once_a_window : sends by_mail 24 (10 ∷ 30 ∷ 44 ∷ 60 ∷ 69 ∷ []) sent ≡ 10 ∷ 44 ∷ 69 ∷ []
unfolding sends allow lookup insert
sends_once_a_window = refl

sends-SpacedAll_example : SpacedAll 24 (sends by_mail 24 (10 ∷ 30 ∷ 44 ∷ []) sent)
sends-SpacedAll_example = sends-SpacedAll by_mail 24 10 (10 ∷ 30 ∷ 44 ∷ []) sent (omega arith)

key_ne : by_mail ≢ by_telegram
key_ne e = not_true ((eq_iff "email" "tlg").1 (ap (λ k. k.channel) e))
  where
    not_true : ◌≡◌ {A = Bool} false true → ⊥
    not_true h = cc

sent-IsKeyed : IsKeyed sent
unfolding lookup
sent-IsKeyed = (refl, (refl, tt))

abbrev stored : List RateMark
stored = record { key = "kernel/oom"; channel = "email"; last_sent_at = 25 } ∷ []
