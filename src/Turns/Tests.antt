-- ===== src/Turns/Tests.antt =====
-- Two conversations whose turns share the lane, with the theorems applied to them.
use mathlib.Core.Path.{◌≡◌, refl}
use personal_computing_space.Shared.{String, true, List, [], ◌∷◌, string_beq}
use personal_computing_space.Turns.Coordinator.{
  Pending, Step, granted, submit, take, enter, activate, step, steps, on_submit, new_coordinator,
}
use personal_computing_space.Turns.Exclusion.{has_lane, one_turn_at_a_time}
use personal_computing_space.Turns.Within.{Within}
use personal_computing_space.Turns.Order.{turns_in_order}

abbrev turn : String → String → Pending
turn id c = record { request_id = id; conversation_ref = c; prompt = "p"; claim_token = "t" }

-- "b" asks for the lane while "a" has it
abbrev two_turns : List Step
two_turns =
    submit (turn "1" "a") granted
    ∷ submit (turn "2" "a") granted
    ∷ submit (turn "3" "b") granted
    ∷ take "a"
    ∷ enter "a"
    ∷ take "b"
    ∷ enter "b"
    ∷ activate "a"
    ∷ []

a_has_the_lane : has_lane ((steps two_turns new_coordinator).conversations "a").worker ≡ true
unfolding steps step on_submit string_beq
a_has_the_lane = refl

one_turn_at_a_time_example : ◌≡◌ {A = String} "a" "a"
one_turn_at_a_time_example = one_turn_at_a_time two_turns "a" "a" a_has_the_lane a_has_the_lane

first_started : ((steps two_turns new_coordinator).conversations "a").started ≡ turn "1" "a" ∷ []
unfolding steps step on_submit string_beq
first_started = refl

turns_in_order_example :
    Within
      ((steps two_turns new_coordinator).conversations "a").started
      ((steps two_turns new_coordinator).conversations "a").submitted
turns_in_order_example = turns_in_order two_turns "a"
