-- ===== src/Examples/Runs.antt =====
-- Runs of src/core/stats.c, client.c, ordered-set.c and runner.c on small inputs.
use criterion.Common.{ℕ, ◌+◌, ◌≤◌, ◌≡◌, ◌≢◌, refl, ◌↔◌, ◌⊎◌, true, false, none, some, arith}
use criterion.Common.{List, [], ◌∷◌, Bytes, codes}
use criterion.Stats.{Stats, TestData, GlobalStats, SuiteStats, TestStats, AssertStats}
use criterion.Stats.{no_counts, test_stats_init, stat_push_event}
use criterion.Stats.{push_post_test, u64, passed, failed, skipped, assert, post_test}
use criterion.Stats.{pre_init}
use criterion.Stats.Counters.{MirrorsIn, Failure, finished, AssertsCounted, run_events}
use criterion.Stats.Counters.{stat_push_event-Mirrors, push_post_test-status}
use criterion.Stats.Counters.{run_events-AssertsCounted}
use criterion.Client.State.{PhaseKind, phase_to_state, worker, Scope, setup}
use criterion.Client.State.{main, teardown, timeout, nested_too_deep}
use criterion.Client.Phases.{Phase, phase_error, handle_phase, next_state}
use criterion.Client.Server.{Msg, Server, birth, pid, process_client_message}
use criterion.Client.Server.{init_server_context, add_client_from_worker}
use criterion.Client.Lifecycle.{outer, nested, in_main, in_teardown, encode}
use criterion.Client.Lifecycle.{Handled, handle_phase-Handled, Reachable, start, next}
use criterion.Client.Lifecycle.{Reachable-not_too_deep, reads_past_table, reads_past_table_iff}
use criterion.Client.Answers.{acks, IsDefined, process_client_message-acks}
use criterion.Client.Accounting.{handle_phase-finished}
use criterion.Client.Accounting.{teardown_timeout-finished, setup_setup-next}
use criterion.OrderedSet.{OrderedSet}
use criterion.Runner.Registry.{Test, cmp_test, criterion_init}
use criterion.Runner.Registry.{SuiteSet}
use criterion.Runner.Coroutine.{Call, at_suites, is_disabled}
use criterion.Runner.Schedule.{planned, started_tests, started_tests-planned}
use criterion.Runner.Loop.{Options, run_tests_async, run_result}
use criterion.Runner.Workers.{KeepsBusy, run_tests_async-KeepsBusy}
use criterion.Runner.Death.{InstanceStatus}
use criterion.Runner.Sorting.{AllOrdered, criterion_init-AllOrdered}

abbrev a_test : TestData
a_test = record {
  name = codes "passing";
  line_ = 4;
  file_ = codes "simple.c";
  signal = 0;
  exit_code = 0;
  disabled = false;
}

abbrev pub fresh_test : TestStats
fresh_test = record {
  ref = 7;
  test = a_test;
  asserts = [];
  test_status = passed;
  passed_asserts = 0;
  failed_asserts = 0;
  signal = 0;
  exit_code = 0;
  elapsed_time = 0;
  timed_out = false;
  crashed = false;
  progress = 4;
  file = codes "simple.c";
  message = none;
  next = none;
}

abbrev pub global : GlobalStats
global = record { suites = none; nb_suites = 0; counts = no_counts; errors = 0; warnings = 0 }

abbrev pub suite : SuiteStats
suite = record { ref = 1; tests = none; counts = no_counts; next = none }

abbrev fresh_stats : Stats
fresh_stats = record { gstats = global; sstats = suite; tstats = fresh_test }

abbrev pub failed_assert : AssertStats
failed_assert = record { message = codes "0"; passed = false; line = 5; file = codes "simple.c" }

-- A client in a given state.
abbrev pub client_in : ℕ → Scope
client_in state = record {
  client = record {
    kind = worker;
    elapsed = 10;
    state = state;
    alive = true;
    start_time = 0;
    suite = 1;
    tstats = fresh_test;
  };
  gstats = global;
  sstats = suite;
  out = [];
}

abbrev pub message_of : PhaseKind → Phase
message_of k = record { phase = k; timestamp = 3; message = none }

failing_run :
    (run_events (pre_init ∷ assert failed_assert ∷ post_test 9 ∷ []) fresh_stats).tstats.test_status
    ≡ failed
unfolding run_events stat_push_event
failing_run = refl

stat_push_event-Mirrors_example : MirrorsIn no_counts (stat_push_event (post_test 9) fresh_stats)
stat_push_event-Mirrors_example =
    stat_push_event-Mirrors no_counts (post_test 9) fresh_stats (omega arith)

push_post_test-status_example :
    let s' = push_post_test 9 fresh_stats in
    ((s'.tstats.test_status ≡ failed)
      ↔ ((fresh_stats.tstats.test_status ≡ failed) ⊎ Failure fresh_stats.tstats))
    × (u64 (finished s'.sstats.counts) ≡ u64 (finished fresh_stats.sstats.counts + 1))
    × (s'.tstats.test_status ≡ failed
        → s'.sstats.counts.tests_failed ≡ u64 (fresh_stats.sstats.counts.tests_failed + 1))
    × (s'.tstats.test_status ≡ passed
        → s'.sstats.counts.tests_passed ≡ u64 (fresh_stats.sstats.counts.tests_passed + 1))
    × (s'.tstats.test_status ≡ skipped
        → s'.sstats.counts.tests_skipped ≡ u64 (fresh_stats.sstats.counts.tests_skipped + 1))
push_post_test-status_example = push_post_test-status 9 fresh_stats

run_events-AssertsCounted_example :
    AssertsCounted
      (run_events
        (assert failed_assert ∷ [])
        (record { gstats = global; sstats = suite; tstats = test_stats_init 7 a_test })).tstats
run_events-AssertsCounted_example =
    run_events-AssertsCounted (assert failed_assert ∷ []) global suite 7 a_test

handle_phase-Handled_example :
    Handled
      (client_in 1)
      (handle_phase (message_of teardown) (client_in 1))
      (some (outer in_teardown))
handle_phase-Handled_example =
    handle_phase-Handled (message_of teardown) (client_in 1) (outer in_main) refl

in_setup_reached : Reachable (next_state (phase_to_state setup) 0)
unfolding phase_error
in_setup_reached = next setup start refl

Reachable-not_too_deep_example :
    (next_state (phase_to_state setup) 0 ≤ 6)
    × (phase_error (phase_to_state setup) (next_state (phase_to_state setup) 0)
        ≢ some nested_too_deep)
Reachable-not_too_deep_example = Reachable-not_too_deep setup in_setup_reached

reads_past_table_iff_example :
    (reads_past_table (phase_error (phase_to_state main) (encode (nested in_teardown))) ≡ true) ↔ (
      (nested in_teardown ≡ nested in_teardown)
      × ((◌≡◌ {A = PhaseKind} main main) ⊎ (◌≡◌ {A = PhaseKind} main teardown)))
reads_past_table_iff_example = reads_past_table_iff (nested in_teardown) main

handle_phase-finished_example :
    u64 (finished (handle_phase (message_of teardown) (client_in 1)).0.sstats.counts)
    ≡ u64 (finished (client_in 1).sstats.counts + 1)
handle_phase-finished_example =
    handle_phase-finished (message_of teardown) (client_in 1) (outer in_main) (outer in_teardown)
      refl refl (λ e. cc)

teardown_timeout-finished_example :
    let s1 = (handle_phase (message_of teardown) (client_in 1)).0 in
    let s2 = (handle_phase (message_of timeout) s1).0 in
    u64 (finished s2.sstats.counts) ≡ u64 (finished (client_in 1).sstats.counts + 2)
teardown_timeout-finished_example = teardown_timeout-finished 3 none (client_in 1) refl

setup_setup-next_example :
    let s2 =
      (handle_phase (message_of setup) (handle_phase (message_of setup) (client_in 0)).0).0 in
    (s2.client.tstats.next ≡ some s2.client.tstats.ref)
    × (s2.sstats.tests ≡ some s2.client.tstats.ref)
setup_setup-next_example = setup_setup-next 3 none (client_in 0) refl

abbrev a_server : Server
a_server =
    add_client_from_worker 42 (client_in 0).client (init_server_context global 1 (λ _. suite))

abbrev a_birth : Msg
a_birth = record { version = 1; id = pid 42; value = birth }

birth_is_known : (process_client_message a_birth a_server).1 ≡ some (client_in 0).client
unfolding process_client_message add_client_from_worker init_server_context
birth_is_known = refl

birth-IsDefined : IsDefined a_birth a_server
unfolding process_client_message add_client_from_worker init_server_context
birth-IsDefined = refl

process_client_message-acks_example :
    acks (process_client_message a_birth a_server).0.out ≡ acks a_server.out + 1
process_client_message-acks_example = process_client_message-acks a_birth a_server birth-IsDefined

abbrev test_named : Bytes → Test
test_named name = record {
  name = name;
  category = codes "misc";
  identifier_ = codes "misc/x";
  file_ = [];
  line_ = 0;
  signal = 0;
  exit_code = 0;
  param_ = none;
  disabled = false;
}

abbrev one_test : OrderedSet Test
one_test = record { first = test_named (codes "b") ∷ []; size = 1 }

criterion_init-AllOrdered_example :
    AllOrdered
      (criterion_init
        (none ∷ [])
        (some (test_named (codes "b")) ∷ some (test_named (codes "a")) ∷ [])).suites
criterion_init-AllOrdered_example =
    criterion_init-AllOrdered (none ∷ [])
      (some (test_named (codes "b")) ∷ some (test_named (codes "a")) ∷ [])

-- A simple test, a disabled one and a parameterized one.
abbrev pub three_tests : List SuiteSet
three_tests =
    record {
      suite = record { name = codes "misc"; disabled = false };
      tests = some (record {
        first =
            test_named (codes "a")
            ∷ record (test_named (codes "b")) { disabled = true }
            ∷ record (test_named (codes "c")) { param_ = some 2 }
            ∷ [];
        size = 3;
      });
    }
    ∷ []

planned_three :
    planned three_tests
    ≡ test_named (codes "a")
      ∷ record (test_named (codes "c")) { param_ = some 2 }
      ∷ record (test_named (codes "c")) { param_ = some 2 }
      ∷ []
unfolding is_disabled
planned_three = refl

-- The server does nothing between the calls.
abbrev no_change : Call → Server
no_change call = call.sctx

started_tests-planned_example :
    started_tests fresh_test no_change 3 (at_suites three_tests) a_server ≡ planned three_tests
unfolding is_disabled
started_tests-planned_example =
    started_tests-planned fresh_test no_change 3 three_tests a_server (omega arith)

abbrev pub no_options : Options
no_options = record {
  fail_fast = false;
  wait_for_clients = false;
  ignore_warnings = false;
  always_succeed = false;
}

run_tests_async-KeepsBusy_example : KeepsBusy 2 (
    run_tests_async no_options
      (λ ref. ref + 100)
      fresh_test
      2
      three_tests
      global
      1
      (λ _. suite)
      (some a_birth ∷ []))
run_tests_async-KeepsBusy_example =
    run_tests_async-KeepsBusy no_options (λ ref. ref + 100) fresh_test 2 three_tests global 1
      (λ _. suite) (some a_birth ∷ []) (omega arith) (omega arith)

clean_run : run_result no_options global ≡ true
unfolding run_result
clean_run = refl

abbrev late_status : InstanceStatus
late_status = record { signal = 9; exit = 0; timed_out = true }

-- The server, with a worker in the main phase of its test.
abbrev main_server : Server
main_server =
    add_client_from_worker 42 (client_in 1).client (init_server_context global 1 (λ _. suite))

main_is_known : main_server.subprocesses 42 ≡ some (client_in 1).client
unfolding add_client_from_worker init_server_context
main_is_known = refl
