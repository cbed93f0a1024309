-- ===== src/Health/Engine/Tests.antt =====
-- The engine on small inputs.
use tgshd.Base.{[], ◌∷◌, true, false, ◌≡◌, refl, some, arith, text_eq, lookup, insert, map}
use tgshd.Health.Types.{
  mode_default, state, bad, good, Reading, Condition, alert_problem, alert_resolved,
}
use tgshd.Health.Engine.{
  Engine, new_engine, apply, apply_bad, apply_good, conditions, restore, judge_bad, streak,
  apply_one, streak_start_of,
}
use tgshd.Health.Engine.Alternation.{is_open_at, replay, apply-alternates}
use tgshd.Health.Engine.Streaks.{apply_run, Streak, apply_run-Streak}
use tgshd.Health.Engine.Validity.{IsValid, applies, step, step-IsValid}
use tgshd.Health.Engine.Export.{restore-conditions}

abbrev hot : Reading
hot = record {
  key = "temp/cpu";
  verdict = bad;
  text = "91 °C";
  mode = mode_default;
  kind = state;
  since = 0;
}

abbrev cool : Reading
cool = record hot { verdict = good; text = "" }

abbrev tracked : Condition
tracked = record {
  key = "temp/cpu";
  check = "temp";
  streak_start = 100;
  bad_for = 600;
  last_reading_at = 700;
  last_text = "90 °C";
  is_open = true;
  opened_at = 700;
}

abbrev quiet : Condition
quiet = record tracked { key = "http/site"; check = "http"; is_open = false; opened_at = 0 }

abbrev running : Engine
running = ("temp/cpu", tracked) ∷ ("http/site", quiet) ∷ []

running-IsValid : IsValid running
unfolding lookup
running-IsValid = record { keyed = (refl, (refl, tt)); own = (refl, (refl, tt)) }

-- A condition turns open at the threshold, stays silent, and is resolved with its last text.
life_of_a_problem :
    let (e1, out1) = apply 1000 "temp" 60 90 (hot ∷ []) new_engine in
    let (e2, out2) = apply 1060 "temp" 60 90 (hot ∷ []) e1 in
    let (e3, out3) = apply 1120 "temp" 60 90 (hot ∷ cool ∷ []) e2 in
    (out1 ≡ []) × (out2 ≡ []) × (map (λ a. a.kind) out3 ≡ alert_problem ∷ alert_resolved ∷ [])
unfolding apply apply_one judge_bad streak apply_bad apply_good lookup insert
life_of_a_problem = (refl, refl, refl)

apply-alternates_example :
    let (e, out) = apply 800 "temp" 60 90 (cool ∷ hot ∷ []) running in
    replay "temp/cpu" (is_open_at "temp/cpu" running) out ≡ some (is_open_at "temp/cpu" e)
apply-alternates_example = apply-alternates 800 "temp" 60 90 (cool ∷ hot ∷ []) running "temp/cpu"

apply_run-Streak_example :
    (c : Condition) × (lookup "temp/cpu" (apply_run "temp" 60 90 hot (1000 ∷ 1060 ∷ 1150 ∷ []) []).0
      ≡ some c)
    × Streak (streak_start_of 1000 hot) 1000 1150 90 c
unfolding lookup
apply_run-Streak_example =
    apply_run-Streak "temp" 60 90 hot 1000 (1060 ∷ 1150 ∷ []) [] refl refl refl (omega arith)
      (omega arith)

step-IsValid_example : IsValid (step running (applies 800 "temp" 60 90 (cool ∷ hot ∷ [])))
step-IsValid_example =
    step-IsValid running (applies 800 "temp" 60 90 (cool ∷ hot ∷ [])) running-IsValid

restore-conditions_example :
    lookup "temp/cpu" (restore (conditions running)) ≡ lookup "temp/cpu" running
restore-conditions_example = restore-conditions running "temp/cpu" running-IsValid
