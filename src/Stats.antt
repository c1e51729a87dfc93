-- ===== src/Stats.antt =====
-- src/core/stats.c and include/criterion/stats.h: the statistics of a run, and the events that
-- change them.
-- A list that C links through `next` keeps its links: a suite holds the number of its first test
-- and a test that of the next one, so that a test linked twice shows. An assertion is copied, so
-- its list is a list. `size_t` and `int` counters are bit patterns that wrap. An elapsed time is
-- kept in nanoseconds, before its conversion to `float`.
pub mod Counters
use criterion.Common.{ℕ, ◌+◌, ◌%◌, ◌^◌, Bool, true, false, not, ◌&&◌, ◌||◌, Option, none, some}
use criterion.Common.{List, [], ◌∷◌, Bytes, ltb, ◌==◌, if◌then◌else◌}

-- enum criterion_test_status.
pub data TestStatus : Type 0 where
  passed failed skipped : TestStatus

pub record AssertStats : Type 0 where
  pub message : Bytes
  pub passed : Bool
  pub line : ℕ
  pub file : Bytes

-- What the statistics read of `struct criterion_test` and its extra data.
pub record TestData : Type 0 where
  pub name : Bytes
  pub line_ : ℕ
  pub file_ : Bytes
  pub signal : ℕ
  pub exit_code : ℕ
  pub disabled : Bool

-- struct criterion_test_stats. `ref` stands for its address.
pub record TestStats : Type 0 where
  pub ref : ℕ
  pub test : TestData
  pub asserts : List AssertStats
  pub test_status : TestStatus
  pub passed_asserts : ℕ
  pub failed_asserts : ℕ
  pub signal : ℕ
  pub exit_code : ℕ
  pub elapsed_time : ℕ
  pub timed_out : Bool
  pub crashed : Bool
  pub progress : ℕ
  pub file : Bytes
  pub message : Option Bytes
  pub next : Option ℕ

-- The counters that a suite and the whole run share.
pub record Counts : Type 0 where
  pub nb_tests : ℕ
  pub nb_asserts : ℕ
  pub tests_skipped : ℕ
  pub tests_failed : ℕ
  pub tests_crashed : ℕ
  pub tests_passed : ℕ
  pub asserts_failed : ℕ
  pub asserts_passed : ℕ

-- struct criterion_suite_stats.
pub record SuiteStats : Type 0 where
  pub ref : ℕ
  pub tests : Option ℕ
  pub counts : Counts
  pub next : Option ℕ

-- struct criterion_global_stats.
pub record GlobalStats : Type 0 where
  pub suites : Option ℕ
  pub nb_suites : ℕ
  pub counts : Counts
  pub errors : ℕ
  pub warnings : ℕ

-- The three objects that an event is about.
pub record Stats : Type 0 where
  pub gstats : GlobalStats
  pub sstats : SuiteStats
  pub tstats : TestStats

abbrev pub u32 : ℕ → ℕ
u32 n = n % 2 ^ 32

abbrev pub u64 : ℕ → ℕ
u64 n = n % 2 ^ 64

-- `x > 0` for an `int`.
abbrev pub is_positive : ℕ → Bool
is_positive x = ltb 0 x && ltb x (2 ^ 31)

abbrev pub no_counts : Counts
no_counts = record {
  nb_tests = 0;
  nb_asserts = 0;
  tests_skipped = 0;
  tests_failed = 0;
  tests_crashed = 0;
  tests_passed = 0;
  asserts_failed = 0;
  asserts_passed = 0;
}

unfoldable pub stats_init : GlobalStats
stats_init = record { suites = none; nb_suites = 0; counts = no_counts; errors = 0; warnings = 0 }

unfoldable pub suite_stats_init : ℕ → SuiteStats
suite_stats_init ref = record { ref = ref; tests = none; counts = no_counts; next = none }

unfoldable pub test_stats_init : ℕ → TestData → TestStats
test_stats_init ref t = record {
  ref = ref;
  test = t;
  asserts = [];
  test_status = passed;
  passed_asserts = 0;
  failed_asserts = 0;
  signal = 0;
  exit_code = 0;
  elapsed_time = 0;
  timed_out = false;
  crashed = false;
  progress = t.line_;
  file = t.file_;
  message = none;
  next = none;
}

-- struct event, by its kind. PRE_ALL is refused by the assertion and is no event here.
pub data Event : Type 0 where
  pre_suite pre_init pre_test theory_fail test_crash post_fini post_suite post_all : Event
  assert : AssertStats → Event
  post_test : ℕ → Event

abbrev count_skipped : Counts → Counts
count_skipped c = record c { tests_skipped = u64 (c.tests_skipped + 1) }

abbrev count_failed : Counts → Counts
count_failed c = record c { tests_failed = u64 (c.tests_failed + 1) }

abbrev count_passed : Counts → Counts
count_passed c = record c { tests_passed = u64 (c.tests_passed + 1) }

abbrev count_crashed : Counts → Counts
count_crashed c = record c {
  tests_failed = u64 (c.tests_failed + 1);
  tests_crashed = u64 (c.tests_crashed + 1);
}

-- The same change of the counters of the run and of the suite.
abbrev count_both : (Counts → Counts) → Stats → Stats
count_both f s = record s {
  gstats = record s.gstats { counts = f s.gstats.counts };
  sstats = record s.sstats { counts = f s.sstats.counts };
}

unfoldable pub push_pre_suite : Stats → Stats
push_pre_suite s = record s {
  sstats = record s.sstats { next = s.gstats.suites };
  gstats = record s.gstats { suites = some s.sstats.ref; nb_suites = u64 (s.gstats.nb_suites + 1) };
}

-- The switch over the status, in push_pre_init and in push_post_test.
unfoldable pub count_status : TestStatus → Stats → Stats
count_status failed s = count_both count_failed s
count_status passed s = count_both count_passed s
count_status skipped s = count_both count_skipped s

abbrev is_skipped : TestStatus → Bool
is_skipped skipped = true
is_skipped _ = false

abbrev count_test : Counts → Counts
count_test c = record c { nb_tests = u64 (c.nb_tests + 1) }

unfoldable pub push_pre_init : Stats → Stats
unfolding count_status
push_pre_init s =
    let linked = record s {
      tstats = record s.tstats { next = s.sstats.tests };
      sstats = record s.sstats { tests = some s.tstats.ref };
    } in
    let counted = count_both count_test linked in
    if is_skipped s.tstats.test_status then count_status skipped counted else counted

abbrev count_assert : Bool → Counts → Counts
count_assert true c = record c { asserts_passed = u64 (c.asserts_passed + 1) }
count_assert false c = record c { asserts_failed = u64 (c.asserts_failed + 1) }

unfoldable pub push_assert : AssertStats → Stats → Stats
push_assert a s =
    let t = record s.tstats {
      asserts = a ∷ s.tstats.asserts;
      passed_asserts =
          if a.passed then u32 (s.tstats.passed_asserts + 1) else s.tstats.passed_asserts;
      failed_asserts =
          if a.passed then s.tstats.failed_asserts else u32 (s.tstats.failed_asserts + 1);
      progress = a.line;
      file = a.file;
    } in
    count_both (count_assert a.passed) (record s { tstats = t })

-- The condition that makes push_post_test mark a test as failed.
unfoldable pub has_failed : TestStats → Bool
has_failed t =
    is_positive t.failed_asserts
    || t.timed_out
    || not (t.signal == t.test.signal)
    || not (t.exit_code == t.test.exit_code)

unfoldable pub push_post_test : ℕ → Stats → Stats
unfolding has_failed count_status
push_post_test elapsed s =
    let status = if has_failed s.tstats then failed else s.tstats.test_status in
    count_status status
      (record s { tstats = record s.tstats { elapsed_time = elapsed; test_status = status } })

unfoldable pub push_test_crash : Stats → Stats
push_test_crash s =
    count_both count_crashed
      (record s { tstats = record s.tstats { test_status = failed; crashed = true } })

unfoldable pub stat_push_event : Event → Stats → Stats
unfolding push_pre_suite push_pre_init push_assert push_test_crash push_post_test
stat_push_event pre_suite s = push_pre_suite s
stat_push_event pre_init s = push_pre_init s
stat_push_event pre_test s = s
stat_push_event (assert a) s = push_assert a s
stat_push_event theory_fail s = s
stat_push_event test_crash s = push_test_crash s
stat_push_event (post_test elapsed) s = push_post_test elapsed s
stat_push_event post_fini s = s
stat_push_event post_suite s = s
stat_push_event post_all s = s
