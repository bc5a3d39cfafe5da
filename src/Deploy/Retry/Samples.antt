-- ===== src/Deploy/Retry/Samples.antt =====
-- Courses of a retry at concrete outcomes.
use edge_caddy.Prelude.{
  true, false, String, none, some, List, [], ◌∷◌, str_eq, ◌≡◌, refl, if◌then◌else◌,
}
use edge_caddy.Deploy.Retry.{
  applied, unreachable, from_push, superseded, World, result, round, run, max_attempts,
}
use edge_caddy.Deploy.Retry.Settled.{final, IsSettled, run_settles, stopped_round}

-- "a" applies the configuration at once, "b" never answers; a new deployment cancels the retry when
-- it is the turn of "b" in the first attempt.
abbrev cancelled : World
cancelled = record {
  stopped_waiting = λ attempt. false;
  baseline = λ attempt. some "cfg-1";
  stopped_at = λ attempt node. str_eq node "b";
  push = λ attempt node. if str_eq node "a" then applied else unreachable;
}

abbrev late : List String
late = "a" ∷ "b" ∷ []

run_settles_example : IsSettled (final "b" none (run cancelled "cfg-1" max_attempts late))
run_settles_example = run_settles cancelled "cfg-1" late "b" refl

-- "a" runs the new configuration, and its last result is a failure.
stopped_round_example :
    final "a" none (round cancelled 1 false late late).0 ≡ some (result "a" false superseded false)
unfolding round
stopped_round_example = stopped_round cancelled 1 false late late "a" refl refl

first_result_of_a :
    (round cancelled 1 false late late).0
    ≡ result "a" true from_push false
      ∷ result "a" false superseded false
      ∷ result "b" false superseded false
      ∷ []
unfolding round
first_result_of_a = refl
