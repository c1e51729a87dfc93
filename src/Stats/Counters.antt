-- ===== src/Stats/Counters.antt =====
-- src/core/stats.c: what holds of the counters after any events.
use criterion.Common.{ℕ, ◌+◌, ◌≡◌, refl, ◌⊎◌, ◌↔◌, ◌≢◌, ◌<◌, ◌^◌, arith}
use criterion.Common.{true, List, [], ◌∷◌, length}
use criterion.Stats.{
  test_stats_init, GlobalStats, SuiteStats, TestData, Counts, Stats, Event, TestStats, u32, u64,
  has_failed,
}
use criterion.Stats.{passed, failed, skipped, stat_push_event, push_post_test}
use criterion.Stats.{pre_suite, pre_init, test_crash}
use criterion.Stats.{assert, post_test}

-- The run's counters are those of the suite and of the `others`, added up.
pub record Mirrors (others c g : Counts) : Type 0 where
  pub nb_tests : g.nb_tests ≡ u64 (others.nb_tests + c.nb_tests)
  pub nb_asserts : g.nb_asserts ≡ u64 (others.nb_asserts + c.nb_asserts)
  pub tests_skipped : g.tests_skipped ≡ u64 (others.tests_skipped + c.tests_skipped)
  pub tests_failed : g.tests_failed ≡ u64 (others.tests_failed + c.tests_failed)
  pub tests_crashed : g.tests_crashed ≡ u64 (others.tests_crashed + c.tests_crashed)
  pub tests_passed : g.tests_passed ≡ u64 (others.tests_passed + c.tests_passed)
  pub asserts_failed : g.asserts_failed ≡ u64 (others.asserts_failed + c.asserts_failed)
  pub asserts_passed : g.asserts_passed ≡ u64 (others.asserts_passed + c.asserts_passed)

abbrev pub MirrorsIn : Counts → Stats → Type 0
MirrorsIn others s = Mirrors others s.sstats.counts s.gstats.counts

-- Every event keeps the counters of the run equal to the sum of those of the event's suite and of
-- all the other suites, modulo 2^64.
pub stat_push_event-Mirrors :
    (others : Counts) (e : Event) (s : Stats)
    → MirrorsIn others s
    → MirrorsIn others (stat_push_event e s)
unfolding stat_push_event
stat_push_event-Mirrors others pre_suite s v = ground arith
stat_push_event-Mirrors others pre_init s v = ground arith
stat_push_event-Mirrors others (assert a) s v = ground arith
stat_push_event-Mirrors others (post_test t) s v = ground arith
stat_push_event-Mirrors others test_crash s v = ground arith
stat_push_event-Mirrors others _ s v = v

-- How many tests the counters call finished.
abbrev pub finished : Counts → ℕ
finished c = c.tests_passed + c.tests_failed + c.tests_skipped

-- Why a test has failed when it ends. Counters are bit patterns, of which those below 2^31 are not
-- negative.
abbrev pub Failure : TestStats → Type 0
Failure t =
    ((0 < t.failed_asserts) × (t.failed_asserts < 2 ^ 31))
    ⊎ (t.timed_out ≡ true)
    ⊎ (t.signal ≢ t.test.signal)
    ⊎ (t.exit_code ≢ t.test.exit_code)

-- A finished test is marked failed exactly when it was already, or its counter of failed assertions is
-- above 0 as an `int`, or it timed out, or its signal or exit code is not the expected one. Its suite then counts one more
-- failed test; a test whose status is passed or skipped instead counts as one of those. The
-- number of finished tests grows by one. All counters are modulo 2^64.
pub push_post_test-status :
    (elapsed : ℕ) (s : Stats)
    → let s' = push_post_test elapsed s in
      ((s'.tstats.test_status ≡ failed) ↔ ((s.tstats.test_status ≡ failed) ⊎ Failure s.tstats))
      × (u64 (finished s'.sstats.counts) ≡ u64 (finished s.sstats.counts + 1))
      × (s'.tstats.test_status ≡ failed
          → s'.sstats.counts.tests_failed ≡ u64 (s.sstats.counts.tests_failed + 1))
      × (s'.tstats.test_status ≡ passed
          → s'.sstats.counts.tests_passed ≡ u64 (s.sstats.counts.tests_passed + 1))
      × (s'.tstats.test_status ≡ skipped
          → s'.sstats.counts.tests_skipped ≡ u64 (s.sstats.counts.tests_skipped + 1))
unfolding push_post_test has_failed
push_post_test-status elapsed s =
    ((grind arith, grind arith), ground arith, ground arith, ground arith, ground arith)

abbrev pub AssertsCounted : TestStats → Type 0
AssertsCounted t = u32 (length t.asserts) ≡ u32 (t.passed_asserts + t.failed_asserts)

-- A run of events about one test.
unfoldable pub run_events : List Event → Stats → Stats
run_events [] s = s
run_events (e ∷ es) s = run_events es (stat_push_event e s)

stat_push_event-AssertsCounted :
    (e : Event) (s : Stats) → AssertsCounted s.tstats → AssertsCounted (stat_push_event e s).tstats
unfolding stat_push_event
stat_push_event-AssertsCounted pre_suite s v = v
stat_push_event-AssertsCounted pre_init s v = ground arith
stat_push_event-AssertsCounted (assert a) s v = ground arith
stat_push_event-AssertsCounted (post_test t) s v = ground arith
stat_push_event-AssertsCounted test_crash s v = v
stat_push_event-AssertsCounted _ s v = v

run_events-kept :
    (es : List Event) (s : Stats)
    → AssertsCounted s.tstats
    → AssertsCounted (run_events es s).tstats
unfolding run_events
run_events-kept [] s v = v
run_events-kept (e ∷ es) s v =
    run_events-kept es (stat_push_event e s) (stat_push_event-AssertsCounted e s v)

-- After any events on a fresh test, its list of assertions is as long as its two counters of
-- passed and failed assertions say, modulo 2^32.
pub run_events-AssertsCounted :
    (es : List Event) (g : GlobalStats) (u : SuiteStats) (ref : ℕ) (t : TestData)
    → AssertsCounted
        (run_events es (record { gstats = g; sstats = u; tstats = test_stats_init ref t })).tstats
unfolding test_stats_init
run_events-AssertsCounted es g u ref t = run_events-kept es _ refl
