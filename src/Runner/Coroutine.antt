-- ===== src/Runner/Coroutine.antt =====
-- src/core/runner_coroutine.c: which test the runner starts next.
-- The coroutine's context between two calls is a value of `Coroutine`, and the suite statistics,
-- which the clients of a suite share, are in the server's table. A generator of parameters is
-- user code, of which only the number of parameters is kept. Spawning is assumed to succeed.
use criterion.Common.{ℕ, zero, suc, ◌+◌, Bool, true, false, ◌||◌, Option, none, some, List, [], ◌∷◌}
use criterion.Stats.{TestData, TestStats, Event, pre_suite, pre_init, skipped}
use criterion.Stats.{suite_stats_init, test_stats_init, stat_push_event}
use criterion.Client.State.{ClientCtx, worker, log, Log, report, Report}
use criterion.Client.Server.{Server, update}
use criterion.Runner.Registry.{Test, Suite, SuiteSet}

unfoldable pub is_disabled : Test → Suite → Bool
is_disabled t s = t.disabled || s.disabled

abbrev pub data_of : Test → TestData
data_of t = record {
  name = t.name;
  line_ = t.line_;
  file_ = t.file_;
  signal = t.signal;
  exit_code = t.exit_code;
  disabled = t.disabled;
}

-- An event on the statistics of a suite, by their number, and of a test.
abbrev pub push : Event → ℕ → TestStats → Server → Server
push e ref t sctx =
    let s =
      stat_push_event e (record { gstats = sctx.gstats; sstats = sctx.suites ref; tstats = t }) in
    record sctx { gstats = s.gstats; suites = update sctx.suites ref s.sstats }

-- The body of skip_disabled, for a disabled test.
unfoldable pub skip_disabled : Test → ℕ → Server → Server
unfolding test_stats_init stat_push_event
skip_disabled t ref sctx =
    let stats = record (test_stats_init sctx.fresh (data_of t)) { test_status = skipped } in
    let pushed = push pre_init ref stats sctx in
    record pushed { fresh = pushed.fresh + 1; out = log Log.pre_init ∷ pushed.out }

-- The report and the log entry of a new suite, and its statistics, numbered `fresh`. The event PRE_SUITE has no test, and its
-- handler reads none.
unfoldable pub begin_suite : TestStats → Server → Server
unfolding suite_stats_init stat_push_event
begin_suite no_test sctx =
    let ref = sctx.fresh in
    let added = record sctx {
      suites = update sctx.suites ref (suite_stats_init ref);
      fresh = ref + 1;
      out = log Log.pre_suite ∷ report Report.pre_suite ∷ sctx.out;
    } in
    push pre_suite ref no_test added

-- The client that run_test fills.
unfoldable pub run_test : Test → ℕ → Server → ClientCtx
unfolding test_stats_init
run_test t ref sctx = record {
  kind = worker;
  elapsed = 0;
  state = 0;
  alive = false;
  start_time = 0;
  suite = ref;
  tstats = test_stats_init sctx.fresh (data_of t);
}

-- Where the coroutine waits: at the head of the loop over suites, or after it has started a
-- test, with the number of its runs that are left, its suite and that suite's statistics, and the
-- tests and suites behind it.
pub data Coroutine : Type 0 where
  at_suites : List SuiteSet → Coroutine
  in_test : Test → ℕ → Suite → ℕ → List Test → List SuiteSet → Coroutine

-- The end of the loop over a suite's tests, or a test to start with its further runs and the
-- tests behind it.
pub data Walk : Type 0 where
  finished : Server → Walk
  found : Test → ℕ → List Test → Server → Walk

-- How often a test that is not disabled runs.
abbrev pub runs : Option ℕ → ℕ
runs none = 1
runs (some n) = n

-- The first run of a test, if it runs at all; else the walk goes on.
unfoldable pub first_run : ℕ → Test → List Test → Server → Walk → Walk
first_run zero t tests sctx rest = rest
first_run (suc more) t tests sctx rest = found t more tests sctx

unfoldable pub walk_tests : Suite → ℕ → List Test → Server → Walk
unfolding is_disabled skip_disabled first_run
walk_tests suite ref [] sctx = finished sctx
walk_tests suite ref (t ∷ tests) sctx = elim (is_disabled t suite) [
  | true ↦ walk_tests suite ref tests (skip_disabled t ref sctx)
  | false ↦ first_run (runs t.param_) t tests sctx (walk_tests suite ref tests sctx)
]

-- What a call returns: the test that it starts and its client, if there is one.
pub record Call : Type 0 where
  pub started : Option (Test × ClientCtx)
  pub coroutine : Coroutine
  pub sctx : Server

unfoldable pub start_test : Test → ℕ → Suite → ℕ → List Test → List SuiteSet → Server → Call
unfolding run_test
start_test t more suite ref tests suites sctx = record {
  started = some (t, run_test t ref sctx);
  coroutine = in_test t more suite ref tests suites;
  sctx = record sctx { fresh = sctx.fresh + 1 };
}

-- What follows a walk over the tests of a suite, with the report at its end, given the loop over the suites behind it.
unfoldable pub after_walk : Walk → Suite → ℕ → List SuiteSet → (Server → Call) → Call
unfolding start_test
after_walk (finished sctx) suite ref suites others =
    others (record sctx { out = report Report.post_suite ∷ sctx.out })
after_walk (found t more tests sctx) suite ref suites others =
    start_test t more suite ref tests suites sctx

unfoldable pub walk_suites : TestStats → List SuiteSet → Server → Call
unfolding walk_tests begin_suite after_walk
walk_suites no_test [] sctx = record { started = none; coroutine = at_suites []; sctx = sctx }
walk_suites no_test (s ∷ suites) sctx = elim s.tests [
  | none ↦ walk_suites no_test suites sctx
  | some tests ↦
      after_walk (walk_tests s.suite sctx.fresh tests.first (begin_suite no_test sctx)) s.suite
        sctx.fresh suites (walk_suites no_test suites)
]

-- One call, from where the last one has returned.
unfoldable pub cri_run_next_test : TestStats → Coroutine → Server → Call
unfolding walk_tests after_walk walk_suites start_test
cri_run_next_test no_test (at_suites suites) sctx = walk_suites no_test suites sctx
cri_run_next_test no_test (in_test t (suc more) suite ref tests suites) sctx =
    start_test t more suite ref tests suites sctx
cri_run_next_test no_test (in_test t zero suite ref tests suites) sctx =
    after_walk (walk_tests suite ref tests sctx) suite ref suites (walk_suites no_test suites)
