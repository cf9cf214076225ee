-- ===== src/Cadence/Examples.antt =====
-- Cadences of each kind, and the theorems there.
use stacks_k8s.Common.{ℕ, ◌/◌, ◌*◌, ◌%◌, ◌≤◌, ◌<◌, ◌≡◌, refl, String, [], ◌∷◌, arith, ok, err}
use stacks_k8s.Common.Int.{pos}
use stacks_k8s.Cadence.{
  second, seconds, due, GenerationCadence, validate_action_cadence, action_delay,
}
use stacks_k8s.Cadence.Delays.{HasDelay, due_rounds, seconds_bounds, action_delay_total}

-- Draws the middle.
abbrev middle : String → ℕ → ℕ
middle key n = n / 2

middle_below : (n : ℕ) → 0 < n → middle "k" n < n
middle_below n h = omega arith

abbrev explicit : GenerationCadence
explicit = record {
  mode = "Explicit";
  interval_seconds = pos 0;
  min_seconds = pos 0;
  max_seconds = pos 0;
  delays_seconds = pos 3 ∷ pos 60 ∷ [];
}

explicit_admitted : validate_action_cadence explicit (pos 3) ≡ ok tt
unfolding validate_action_cadence
explicit_admitted = refl

short_refused : validate_action_cadence explicit (pos 4) ≡ err "unsupported finite cadence"
unfolding validate_action_cadence
short_refused = refl

due_rounds_example : (7 ≤ due 3 4) × (due 3 4 < 1007) × (due 3 4 % 1000 ≡ 0)
due_rounds_example = due_rounds 3 4

seconds_bounds_example :
    (s : ℕ) × (seconds middle (pos 10) (pos 20) "k" ≡ ok (s * second)) × (10 ≤ s) × (s ≤ 20)
seconds_bounds_example = seconds_bounds middle 10 20 "k" middle_below (omega arith) (omega arith)

action_delay_total_example : HasDelay (action_delay middle explicit (pos 3) (pos 2) "k")
action_delay_total_example =
    action_delay_total middle explicit (pos 3) (pos 2) "k" middle_below explicit_admitted
      (omega arith) (omega arith)
