-- ===== src/Examples/Loops.antt =====
-- Runs of src/core/runner.c, run_tests_async, on a small set of tests.
use criterion.Common.{ℕ, ◌+◌, ◌≡◌, refl, arith, map, List, [], ◌∷◌, length, Option, some}
use criterion.Client.Server.{Msg, pid, Value}
use criterion.Client.Handlers.{normal}
use criterion.Runner.Coroutine.{is_disabled}
use criterion.Runner.Schedule.{planned}
use criterion.Runner.Loop.{Status, run_tests_async}
use criterion.Runner.Deaths.{Ends, deaths, run_tests_async-Ends}
use criterion.Examples.Runs.{three_tests, no_options, fresh_test, global, suite}

abbrev death_of : ℕ → Option Msg
death_of key = some (record {
  version = 1;
  id = pid key;
  value = Value.death (record { result = normal; status = 0 });
})

-- The deaths of all processes that the workers can have, and of some others.
abbrev all_deaths : List (Option Msg)
all_deaths = map death_of (101 ∷ 102 ∷ 103 ∷ 104 ∷ 105 ∷ 106 ∷ 107 ∷ 108 ∷ [])

abbrev run : List (Option Msg) → Status
run = run_tests_async no_options (λ ref. ref + 100) fresh_test 2 three_tests global 1 (λ _. suite)

three_deaths : deaths no_options (λ ref. ref + 100) fresh_test all_deaths (run []) ≡ 3
unfolding deaths run_tests_async
three_deaths = refl

run_tests_async-Ends_example :
    Ends
      (length (planned three_tests))
      (deaths no_options (λ ref. ref + 100) fresh_test all_deaths (run []))
      (run all_deaths)
unfolding is_disabled
run_tests_async-Ends_example =
    run_tests_async-Ends no_options (λ ref. ref + 100) fresh_test 2 three_tests global 1
      (λ _. suite) all_deaths refl (omega arith) (omega arith) (omega arith)
