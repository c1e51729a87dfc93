-- ===== src/Assertions/Failing.antt =====
-- src/core/client.c and stats.c: an assertion that the server hears of, and the end of its test.
use criterion.Common.{ℕ, ◌-◌, ◌^◌, ◌<◌, ◌≡◌, refl, ap, ◌∙◌, false, arith, List, []}
use criterion.Common.{◌∷◌}
use criterion.Stats.{Stats, AssertStats, failed, push_post_test, stat_push_event}
use criterion.Stats.{assert}
use criterion.Stats.Counters.{Failure, push_post_test-status}
use criterion.Common.{inl, inr, subst, sym}
use criterion.Client.State.{
  report, Report, Output, push_event_noreport, Scope, stats_of, Param, emit, log, Log,
}
use criterion.Client.Handlers.{Assert, Result, ResultValue, params, formatted, unset}
use criterion.Client.Handlers.{handle_assert, log_params, log_pair, log_value, log_result}
use criterion.Client.Handlers.{log_results, assert_stats}

-- Nothing but the list of outputs has changed.
pub record Quiet (s s' : Scope) : Type 0 where
  pub client : s'.client ≡ s.client
  pub gstats : s'.gstats ≡ s.gstats
  pub sstats : s'.sstats ≡ s.sstats

Quiet_trans : (s t u : Scope) → Quiet s t → Quiet t u → Quiet s u
Quiet_trans s t u q r = record {
  client = r.client ∙ q.client;
  gstats = r.gstats ∙ q.gstats;
  sstats = r.sstats ∙ q.sstats;
}

abbrev emit-Quiet : (o : Output) (s : Scope) → Quiet s (emit o s)
emit-Quiet o s = record { client = refl; gstats = refl; sstats = refl }

log_params-Quiet : (a : AssertStats) (list : List Param) (s : Scope) → Quiet s (log_params a list s)
unfolding log_params
log_params-Quiet a [] s = record { client = refl; gstats = refl; sstats = refl }
log_params-Quiet a (p ∷ list) s =
    Quiet_trans s (emit (log (Log.assert_param p)) s) _ (emit-Quiet (log (Log.assert_param p)) s)
      (log_params-Quiet a list (emit (log (Log.assert_param p)) s))

log_pair-Quiet :
    (a : AssertStats) (x y : Param) (list : List Param) (s : Scope)
    → Quiet s (log_pair a x y list s)
unfolding log_pair
log_pair-Quiet a x y list s = ground (
  arith,
  log_params-Quiet a (x ∷ y ∷ list) s,
  log_params-Quiet a list (emit (log (Log.assert_param_eq x y)) s),
)

log_value-Quiet : (a : AssertStats) (v : ResultValue) (s : Scope) → Quiet s (log_value a v s)
unfolding log_value
log_value-Quiet a (params (x ∷ y ∷ list)) s = log_pair-Quiet a x y list s
log_value-Quiet a (params []) s = log_params-Quiet a [] s
log_value-Quiet a (params (x ∷ [])) s = log_params-Quiet a (x ∷ []) s
log_value-Quiet a (formatted text word) s = emit-Quiet (log (Log.assert_formatted text)) s
log_value-Quiet a unset s = record { client = refl; gstats = refl; sstats = refl }

log_result-Quiet : (a : AssertStats) (r : Result) (s : Scope) → Quiet s (log_result a r s)
unfolding log_result
log_result-Quiet a r s =
    ground (arith, log_value-Quiet a r.value (emit (log (Log.assert_sub r.repr r.message)) s))

log_results-Quiet : (a : AssertStats) (rs : List Result) (s : Scope) → Quiet s (log_results a rs s)
unfolding log_results
log_results-Quiet a [] s = record { client = refl; gstats = refl; sstats = refl }
log_results-Quiet a (r ∷ rs) s =
    Quiet_trans s (log_result a r s) _ (log_result-Quiet a r s)
      (log_results-Quiet a rs (log_result a r s))

-- The results of an assertion change nothing but the outputs: only the assertion itself is counted.
pub handle_assert-Quiet :
    (a : Assert) (s : Scope)
    → Quiet (push_event_noreport (assert (assert_stats a)) s) (handle_assert a s)
unfolding handle_assert
handle_assert-Quiet a s =
    let counted = push_event_noreport (assert (assert_stats a)) s in
    let reported = emit (log (Log.assert (assert_stats a))) (emit (report Report.assert) counted) in
    let q = log_results-Quiet (assert_stats a) a.results reported in
    record { client = q.client; gstats = q.gstats; sstats = q.sstats }

pub handle_assert-stats :
    (a : Assert) (s : Scope)
    → stats_of (handle_assert a s) ≡ stat_push_event (assert (assert_stats a)) (stats_of s)
unfolding push_event_noreport
handle_assert-stats a s =
    let q = handle_assert-Quiet a s in
    λ i. record { gstats = q.gstats i; sstats = q.sstats i; tstats = (q.client i).tstats }

failed_assert-Failure :
    (a : AssertStats) (x : Stats)
    → a.passed ≡ false
    → x.tstats.failed_asserts < 2 ^ 31 - 1
    → let x' = stat_push_event (assert a) x in
      Failure x'.tstats × (x'.tstats.asserts ≡ a ∷ x.tstats.asserts)
unfolding stat_push_event
failed_assert-Failure a x e h = (inl (ground arith, ground arith), ground arith)

push_post_test-asserts :
    (elapsed : ℕ) (x : Stats) → (push_post_test elapsed x).tstats.asserts ≡ x.tstats.asserts
unfolding push_post_test
push_post_test-asserts elapsed x = ground arith

-- A failed assertion that the server has handled makes its test fail when the test ends, whatever
-- the assertion's results are; the assertion is then the first in the test's list. The test has
-- fewer than 2^31 - 1 failed assertions before.
pub handle_assert-fails :
    (a : Assert) (s : Scope) (elapsed : ℕ)
    → a.passed ≡ false
    → s.client.tstats.failed_asserts < 2 ^ 31 - 1
    → let s' = push_post_test elapsed (stats_of (handle_assert a s)) in
      (s'.tstats.test_status ≡ failed)
      × (s'.tstats.asserts ≡ assert_stats a ∷ s.client.tstats.asserts)
handle_assert-fails a s elapsed e h =
    let x = stats_of (handle_assert a s) in
    let (f, l) = failed_assert-Failure (assert_stats a) (stats_of s) e h in
    let same = handle_assert-stats a s in
    (
      (push_post_test-status elapsed x).0.1
          (inr (subst (λ (y : Stats). Failure y.tstats) (sym same) f)),
      push_post_test-asserts elapsed x ∙ ap (λ (y : Stats). y.tstats.asserts) same ∙ l,
    )
