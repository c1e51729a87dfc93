-- ===== src/Client/Accounting.antt =====
-- src/core/client.c: what the phase messages do to the statistics.
use criterion.Common.{
  Bytes, ℕ, ◌+◌, ◌-◌, ◌^◌, ◌≤◌, ◌≡◌, refl, subst, sym, ap, ◌∙◌, ◌≢◌, inl, inr, arith,
}
use criterion.Common.{true, Option, none, some, Option-cases}
use criterion.Stats.{Stats, Event, u64, TestStatus, stat_push_event, pre_init, pre_test, post_test}
use criterion.Stats.{post_fini, skipped, failed, test_crash}
use criterion.Stats.Counters.{finished}
use criterion.Client.State.{
  PhaseKind, Scope, stats_of, push_event, Report, with_tstats, emit, log, Log,
}
use criterion.Client.State.{push_event_noreport, setup, teardown, abort, timeout, skip}
use criterion.Client.Phases.{Phase, run_handler, handle_phase, or_empty, end_test}
use criterion.Client.Phases.{handle_pre_init, handle_pre_test, handle_post_test, handle_post_fini}
use criterion.Client.Phases.{handle_abort, handle_timeout, handle_skip}
use criterion.Client.Lifecycle.{Position, outer, ended, nested, in_setup, in_main, in_teardown}
use criterion.Client.Lifecycle.{
  Handled, handle_phase-Handled, handle_phase-run_handler, encode, follow, Stage, stage_code,
}

-- How many tests an event counts as finished; a test that is linked while marked as skipped is
-- one.
abbrev pub finishes : Event → TestStatus → ℕ
finishes (post_test t) status = 1
finishes test_crash status = 1
finishes pre_init skipped = 1
finishes _ status = 0

stat_push_event-finished :
    (e : Event) (s : Stats)
    → u64 (finished (stat_push_event e s).sstats.counts)
      ≡ u64 (finished s.sstats.counts + finishes e s.tstats.test_status)
unfolding stat_push_event
stat_push_event-finished e s = ground arith

-- How many tests a phase message counts as finished, at a position.
abbrev pub ends : Position → PhaseKind → ℕ
ends (outer in_main) teardown = 1
ends (outer in_teardown) abort = 0
ends (outer _) abort = 1
ends (outer _) timeout = 1
ends (outer _) skip = 1
ends _ _ = 0

-- A message about a nested test.
run_handler-nested :
    (msg : Phase) (s : Scope) → 4 ≤ s.client.state → stats_of (run_handler msg s) ≡ stats_of s
unfolding run_handler
run_handler-nested msg s h = ground arith

abbrev pub finished_of : Scope → ℕ
finished_of s = finished s.sstats.counts

pub push_event-finished :
    (e : Event) (r : Report) (s : Scope)
    → u64 (finished_of (push_event e r s))
      ≡ u64 (finished_of s + finishes e s.client.tstats.test_status)
unfolding push_event
push_event-finished e r s = stat_push_event-finished e (stats_of s)

pub noreport-finished :
    (e : Event) (s : Scope)
    → u64 (finished_of (push_event_noreport e s))
      ≡ u64 (finished_of s + finishes e s.client.tstats.test_status)
unfolding push_event_noreport
noreport-finished e s = stat_push_event-finished e (stats_of s)

abbrev pub Finishes : ℕ → Scope → Scope → Type 0
Finishes n s s' = u64 (finished_of s') ≡ u64 (finished_of s + n)

handle_pre_init-Finishes :
    (s : Scope) → s.client.tstats.test_status ≢ skipped → Finishes 0 s (handle_pre_init s)
unfolding handle_pre_init
handle_pre_init-Finishes s n = ground (arith, noreport-finished pre_init s)

handle_pre_test-Finishes : (msg : Phase) (s : Scope) → Finishes 0 s (handle_pre_test msg s)
unfolding handle_pre_test
handle_pre_test-Finishes msg s = ground (
  arith,
  noreport-finished pre_test (record s { client = record s.client { start_time = msg.timestamp } }),
)

handle_post_test-Finishes :
    (msg : Phase) (s : Scope) → s.client.state ≤ 3 → Finishes 1 s (handle_post_test msg s)
unfolding handle_post_test
handle_post_test-Finishes msg s h =
    ground
      (arith, noreport-finished (post_test (u64 (msg.timestamp + 2 ^ 64 - s.client.start_time))) s)

handle_post_fini-Finishes : (s : Scope) → Finishes 0 s (handle_post_fini s)
unfolding handle_post_fini
handle_post_fini-Finishes s = ground (arith, push_event-finished post_fini Report.post_fini s)

-- The two events that end a test, with log entries between or behind them.
both_events :
    (t : ℕ) (s s' : Scope)
    → stats_of s' ≡ stats_of (push_event (post_test t) Report.post_test s)
    → Finishes 1 s (push_event post_fini Report.post_fini s')
both_events t s s' e = omega (
  arith,
  push_event-finished post_fini Report.post_fini s',
  push_event-finished (post_test t) Report.post_test s,
  ap (λ (x : Stats). finished x.sstats.counts) e,
)

handle_timeout-Finishes : (s : Scope) → s.client.state ≤ 3 → Finishes 1 s (handle_timeout s)
unfolding handle_timeout
handle_timeout-Finishes s h =
    let marked = with_tstats (record s.client.tstats { timed_out = true }) s in
    ground (arith, both_events s.client.elapsed marked _ refl)

handle_skip-Finishes :
    (msg : Phase) (s : Scope) → s.client.state ≤ 3 → Finishes 1 s (handle_skip msg s)
unfolding handle_skip
handle_skip-Finishes msg s h =
    let marked =
      with_tstats (record s.client.tstats { test_status = skipped; message = msg.message }) s in
    ground (arith, both_events 0 marked _ refl)

-- The scope behind the first log entry of handle_abort.
abbrev aborted : Phase → Scope → Scope
aborted msg s =
    emit (log (Log.test_abort (or_empty msg.message)))
      (with_tstats (record s.client.tstats { test_status = failed }) s)

handle_abort-Finishes :
    (msg : Phase) (s : Scope) (g : Stage)
    → s.client.state ≡ stage_code g
    → Finishes (ends (outer g) abort) s (handle_abort msg s)
unfolding handle_abort
handle_abort-Finishes msg s in_setup e =
    rw (e, handle_abort) (both_events 0 (aborted msg s) (end_test 0 (aborted msg s)) refl)
handle_abort-Finishes msg s in_main e =
    rw (e, handle_abort) (both_events 0 (aborted msg s) (end_test 0 (aborted msg s)) refl)
handle_abort-Finishes msg s in_teardown e =
    rw (e, handle_abort) (push_event-finished post_fini Report.post_fini (aborted msg s))

Finishes-of_equal : (s s' : Scope) → stats_of s' ≡ stats_of s → Finishes 0 s s'
Finishes-of_equal s s' e = omega (arith, ap (λ (x : Stats). finished x.sstats.counts) e)

outer-Finishes :
    (msg : Phase) (s : Scope) (g : Stage) (q : Position)
    → s.client.state ≡ stage_code g
    → follow (outer g) msg.phase ≡ some q
    → (msg.phase ≡ setup → s.client.tstats.test_status ≢ skipped)
    → Finishes (ends (outer g) msg.phase) s (run_handler msg s)
unfolding run_handler
outer-Finishes msg s g q e f n = ground (
  arith,
  handle_pre_init-Finishes s,
  handle_pre_test-Finishes msg s,
  handle_post_test-Finishes msg s,
  handle_post_fini-Finishes s,
  handle_abort-Finishes msg s g e,
  handle_timeout-Finishes s,
  handle_skip-Finishes msg s,
)

-- A phase message of a nested test changes no statistics, whether it is taken or refused.
pub handle_phase-nested :
    (msg : Phase) (s : Scope) (g : Stage)
    → s.client.state ≡ encode (nested g)
    → stats_of (handle_phase msg s).0 ≡ stats_of s
handle_phase-nested msg s g e = elim (Option-cases (follow (nested g) msg.phase)) [
  | inl f ↦
      let (_, c, x, y) =
        subst (Handled s (handle_phase msg s)) f (handle_phase-Handled msg s (nested g) e) in
      λ i. record { gstats = x i; sstats = y i; tstats = (c i).tstats }
  | inr (q, f) ↦
      handle_phase-run_handler msg s (nested g) q e f ∙ run_handler-nested msg s (omega arith)
]

follow-ended : (k : PhaseKind) → follow ended k ≡ none
follow-ended k = ground arith

-- A message that may follow counts one more finished test in the test's suite, modulo 2^64, when
-- it leaves the main phase, aborts the test before its teardown, or reports a timeout or a skip;
-- otherwise none. The test is not marked as skipped before its setup.
pub handle_phase-finished :
    (msg : Phase) (s : Scope) (p q : Position)
    → s.client.state ≡ encode p
    → follow p msg.phase ≡ some q
    → (msg.phase ≡ setup → s.client.tstats.test_status ≢ skipped)
    → u64 (finished (handle_phase msg s).0.sstats.counts)
      ≡ u64 (finished s.sstats.counts + ends p msg.phase)
handle_phase-finished msg s p q e f n =
    ap (λ (x : Stats). u64 (finished x.sstats.counts)) (handle_phase-run_handler msg s p q e f)
    ∙ by_position p e f
  where
    by_position :
        (p : Position)
        → s.client.state ≡ encode p
        → follow p msg.phase ≡ some q
        → Finishes (ends p msg.phase) s (run_handler msg s)
    by_position (outer g) e f = outer-Finishes msg s g q e f n
    by_position ended e f = cc (follow-ended msg.phase)
    by_position (nested g) e f =
        Finishes-of_equal s (run_handler msg s) (run_handler-nested msg s (omega arith))

-- A timeout during the teardown of a test counts the test a second time.
pub teardown_timeout-finished :
    (t : ℕ) (text : Option Bytes) (s : Scope)
    → s.client.state ≡ encode (outer in_main)
    → let s1 = (handle_phase (record { phase = teardown; timestamp = t; message = text }) s).0 in
      let s2 = (handle_phase (record { phase = timeout; timestamp = t; message = text }) s1).0 in
      u64 (finished s2.sstats.counts) ≡ u64 (finished s.sstats.counts + 2)
teardown_timeout-finished t text s e =
    let m1 : Phase = record { phase = teardown; timestamp = t; message = text } in
    let m2 : Phase = record { phase = timeout; timestamp = t; message = text } in
    let s1 = (handle_phase m1 s).0 in
    let here = (handle_phase-Handled m1 s (outer in_main) e).1 in
    omega (
      arith,
      handle_phase-finished m1 s (outer in_main) (outer in_teardown) e refl (λ x. cc),
      handle_phase-finished m2 s1 (outer in_teardown) ended here refl (λ x. cc),
    )

setup-stats :
    (t : ℕ) (text : Option Bytes) (s : Scope)
    → s.client.state ≡ 0
    → stats_of (handle_phase (record { phase = setup; timestamp = t; message = text }) s).0
      ≡ stat_push_event pre_init (stats_of s)
unfolding run_handler
setup-stats t text s e =
    handle_phase-run_handler _ s (outer in_setup) (outer in_setup) e refl ∙ rw (e, run_handler) refl

abbrev SelfLinked : Stats → Type 0
SelfLinked x = (x.tstats.next ≡ some x.tstats.ref) × (x.sstats.tests ≡ some x.tstats.ref)

pre_init_twice : (x : Stats) → SelfLinked (stat_push_event pre_init (stat_push_event pre_init x))
unfolding stat_push_event
pre_init_twice x = ground arith

-- A second SETUP before MAIN links the test to itself: the list of the suite's tests is then a
-- cycle.
pub setup_setup-next :
    (t : ℕ) (text : Option Bytes) (s : Scope)
    → s.client.state ≡ 0
    → let msg : Phase = record { phase = setup; timestamp = t; message = text } in
      let s2 = (handle_phase msg (handle_phase msg s).0).0 in
      (s2.client.tstats.next ≡ some s2.client.tstats.ref)
      × (s2.sstats.tests ≡ some s2.client.tstats.ref)
setup_setup-next t text s e =
    let msg : Phase = record { phase = setup; timestamp = t; message = text } in
    let s1 = (handle_phase msg s).0 in
    let here = (handle_phase-Handled msg s (outer in_setup) e).1 in
    subst SelfLinked
      (sym (setup-stats t text s1 here ∙ ap (stat_push_event pre_init) (setup-stats t text s e)))
      (pre_init_twice (stats_of s))
