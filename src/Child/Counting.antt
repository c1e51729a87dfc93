-- ===== src/Child/Counting.antt =====
-- src/core/test.c, abort.c and client.c: every test is counted once.
use mathlib.Core.List.{append_assoc}
use criterion.Common.{ℕ, ◌+◌, ◌≡◌, refl, ap, sym, subst, ◌≢◌, arith}
use criterion.Common.{Bool, true, false, none, some, List, [], ◌∷◌, ◌++◌}
use criterion.Stats.{skipped, u64}
use criterion.Stats.Counters.{finished}
use criterion.Client.State.{Scope, PhaseKind, setup, main, teardown, finish}
use criterion.Client.Server.{Value, process_client_message_impl}
use criterion.Client.Lifecycle.{Position, outer, in_setup, in_main, in_teardown, follow}
use criterion.Client.Accounting.{ends}
use criterion.Client.Phases.{Phase}
use criterion.Client.Accounting.{Finishes}
use criterion.Child.{both, Ending, UserCode, Part, and_then, returned, aborted, timed_out, died}
use criterion.Child.{exited, crashed, status_of, process_end, send_event, run_test_child, heard}
use criterion.Child.{or_exit, or_end, said, passed_message, criterion_internal_test_setup}
use criterion.Child.{criterion_internal_test_main, criterion_internal_test_teardown, sigabrt}
use criterion.Child.Closing.{
  hear, NoTheory, Accepts, Counts, Closes, Counts-append, Closes-append, phase-Moves,
}
use criterion.Child.Closing.{remarks-Counts, statistic-Counts, IsCounted, Ends, last_phase-Closes}
use criterion.Child.Closing.{crashed-Closes, process_end-Ends}

and_then_assoc :
    (vs : List Value) (x next : Part)
    → and_then (and_then (vs, none) x) next ≡ and_then (vs, none) (and_then x next)
unfolding and_then
and_then_assoc vs (xs, none) next = ap (λ l. (l, next.1)) (append_assoc vs xs next.0)
and_then_assoc vs (xs, some status) next = refl

and_then-Ends :
    (at : ℕ) (p q : Position) (m n : ℕ) (vs : List Value) (next : Part)
    → Counts p q m vs
    → Ends at q n next
    → Ends at p (m + n) (and_then (vs, none) next)
unfolding and_then heard
and_then-Ends at p q m n vs next c d =
    subst (Closes p (m + n)) (sym (append_assoc vs next.0 _))
      (Closes-append p q m n vs (heard at (next.0, or_exit next.1)) c d)

module _ (now : PhaseKind → ℕ) (at : ℕ) where
  abbrev phase-Counts :
      (k : PhaseKind) (p q : Position)
      → k ≢ setup
      → follow p k ≡ some q
      → Counts p q (ends p k) (send_event now k none ∷ [])
  phase-Counts k p q n f s e = phase-Moves _ s p q e f (λ x. absurd (n x))

  passed_message-Counts :
      (full_stats : Bool) (n : ℕ) (p : Position) → Counts p p 0 (passed_message full_stats n)
  passed_message-Counts true n p s e = (tt, (e, omega arith))
  passed_message-Counts false n p s e = statistic-Counts p _ s e

  abbrev setup_end : Ending → Part
  setup_end e = or_end now e ([], none) ([], some (status_of sigabrt 0 false))

  setup_end-Ends :
      (e : Ending) (next : Part)
      → Ends at (outer in_setup) 1 next
      → Ends at (outer in_setup) 1 (and_then (setup_end e) next)
  unfolding and_then process_end
  setup_end-Ends returned next c = c
  setup_end-Ends aborted next c = crashed-Closes at sigabrt in_setup
  setup_end-Ends (Ending.skipped m) next c =
      process_end-Ends now at in_setup (Ending.skipped m) tt tt
  setup_end-Ends (died m) next c = process_end-Ends now at in_setup (died m) tt tt
  setup_end-Ends (exited n) next c = process_end-Ends now at in_setup (exited n) tt tt
  setup_end-Ends (crashed n) next c = process_end-Ends now at in_setup (crashed n) tt tt
  setup_end-Ends timed_out next c = process_end-Ends now at in_setup timed_out tt tt

  abbrev ended_main : Bool → ℕ → List Value
  ended_main full_stats n = passed_message full_stats n ++ send_event now teardown none ∷ []

  abbrev main_end : Bool → ℕ → Ending → Part
  main_end full_stats n e =
      or_end now e (ended_main full_stats n, none) (ended_main full_stats n, none)

  back-Ends :
      (full_stats : Bool) (n : ℕ) (next : Part)
      → Ends at (outer in_teardown) 0 next
      → Ends at (outer in_main) 1 (and_then (ended_main full_stats n, none) next)
  back-Ends full_stats n next c =
      and_then-Ends at (outer in_main) (outer in_teardown) 1 0 (ended_main full_stats n) next
        (Counts-append (outer in_main) (outer in_main) (outer in_teardown) 0 1
          (passed_message full_stats n) (send_event now teardown none ∷ [])
          (passed_message-Counts full_stats n (outer in_main))
          (phase-Counts teardown (outer in_main) (outer in_teardown) (λ x. cc) refl))
        c

  main_end-Ends :
      (full_stats : Bool) (n : ℕ) (e : Ending) (next : Part)
      → Ends at (outer in_teardown) 0 next
      → Ends at (outer in_main) 1 (and_then (main_end full_stats n e) next)
  unfolding and_then process_end
  main_end-Ends full_stats n returned next c = back-Ends full_stats n next c
  main_end-Ends full_stats n aborted next c = back-Ends full_stats n next c
  main_end-Ends full_stats n (Ending.skipped m) next c =
      process_end-Ends now at in_main (Ending.skipped m) tt tt
  main_end-Ends full_stats n (died m) next c = process_end-Ends now at in_main (died m) tt tt
  main_end-Ends full_stats n (exited k) next c = process_end-Ends now at in_main (exited k) tt tt
  main_end-Ends full_stats n (crashed k) next c = process_end-Ends now at in_main (crashed k) tt tt
  main_end-Ends full_stats n timed_out next c = process_end-Ends now at in_main timed_out tt tt

  abbrev teardown_end : Ending → Part
  teardown_end e =
      or_end now e (send_event now finish none ∷ [], none) (send_event now finish none ∷ [], none)

  teardown_end-Ends :
      (e : Ending) → IsCounted in_teardown e → Ends at (outer in_teardown) 0 (teardown_end e)
  unfolding heard
  teardown_end-Ends returned c = last_phase-Closes (outer in_teardown) _ _ refl (λ x. cc)
  teardown_end-Ends aborted c = last_phase-Closes (outer in_teardown) _ _ refl (λ x. cc)
  teardown_end-Ends (Ending.skipped m) c = absurd c
  teardown_end-Ends (died m) c = process_end-Ends now at in_teardown (died m) tt tt
  teardown_end-Ends (exited n) c = process_end-Ends now at in_teardown (exited n) tt tt
  teardown_end-Ends (crashed n) c = process_end-Ends now at in_teardown (crashed n) tt tt
  teardown_end-Ends timed_out c = absurd c

  teardown-Ends :
      (fini : UserCode)
      → NoTheory fini
      → IsCounted in_teardown fini.ending
      → Ends at (outer in_teardown) 0 (criterion_internal_test_teardown now fini)
  unfolding criterion_internal_test_teardown
  teardown-Ends fini o c =
      and_then-Ends at (outer in_teardown) (outer in_teardown) 0 0 (said fini)
        (teardown_end fini.ending) (remarks-Counts (outer in_teardown) fini.remarks o)
        (teardown_end-Ends fini.ending c)

  main-Ends :
      (full_stats : Bool) (n : ℕ) (fn : UserCode) (next : Part)
      → NoTheory fn
      → Ends at (outer in_teardown) 0 next
      → Ends at
          (outer in_setup)
          1
          (and_then (criterion_internal_test_main now full_stats n fn) next)
  unfolding criterion_internal_test_main
  main-Ends full_stats n fn next o c =
      let begun =
        Counts-append (outer in_setup) (outer in_main) (outer in_main) 0 0
          (send_event now main none ∷ []) (said fn)
          (phase-Counts main (outer in_setup) (outer in_main) (λ x. cc) refl)
          (remarks-Counts (outer in_main) fn.remarks o) in
      let messages = send_event now main none ∷ said fn in
      let end = main_end full_stats n fn.ending in
      subst (Ends at (outer in_setup) 1) (sym (and_then_assoc messages end next)) (
        and_then-Ends at (outer in_setup) (outer in_main) 0 1 messages (and_then end next) begun
          (main_end-Ends full_stats n fn.ending next c))

  -- The rest of the test behind its SETUP message.
  setup-Ends :
      (init : UserCode) (next : Part)
      → NoTheory init
      → Ends at (outer in_setup) 1 next
      → Ends at
          (outer in_setup)
          1
          (and_then (said init, none) (and_then (setup_end init.ending) next))
  setup-Ends init next o c =
      and_then-Ends at (outer in_setup) (outer in_setup) 0 1 (said init)
        (and_then (setup_end init.ending) next) (remarks-Counts (outer in_setup) init.remarks o)
        (setup_end-Ends init.ending next c)

  -- The whole test, for a worker that has been born.
  test-Closes :
      (init : UserCode) (next : Part) (s : Scope)
      → NoTheory init
      → Ends at (outer in_setup) 1 next
      → s.client.state ≡ 0
      → s.client.tstats.test_status ≢ skipped
      → let part = and_then (criterion_internal_test_setup now init) next in
        let values = heard at (part.0, or_exit part.1) in
        let s' = hear values s in Accepts values s × Finishes 1 s s' × (s'.client.alive ≡ false)
  unfolding criterion_internal_test_setup heard and_then
  test-Closes init next s o d e ne =
      let messages = send_event now setup none ∷ said init in
      let end = setup_end init.ending in
      let msg : Phase = record { phase = setup; timestamp = now setup; message = none } in
      let (a, (here, x)) = phase-Moves msg s (outer in_setup) (outer in_setup) e refl (λ _. ne) in
      let (b, (y, dead)) =
        setup-Ends init next o d (process_client_message_impl (Value.phase msg) s) here in
      subst
        (λ (part : Part).
          Accepts (heard at (part.0, or_exit part.1)) s
          × Finishes 1 s (hear (heard at (part.0, or_exit part.1)) s)
          × ((hear (heard at (part.0, or_exit part.1)) s).client.alive ≡ false))
        (sym (and_then_assoc messages end next)) ((a.0, b), omega (arith, x, y), dead)

-- The server accepts every message of a test that runs no theory, so the worker never stops because of a refusal. All
-- that the runner hears of it counts the test exactly once as finished, and leaves its worker dead:
-- whatever the fixtures and the test report, and however each of them ends, a crash
-- of the setup and an early exit included. Excluded are a skip or a timeout in the teardown of the
-- test. The worker is new, and its test is not marked as skipped.
pub run_test_child-counted :
    (now : PhaseKind → ℕ) (at : ℕ) (full_stats : Bool) (passed_asserts : ℕ)
    (suite_init init fn fini suite_fini : UserCode) (s : Scope)
    → s.client.state ≡ 0
    → s.client.tstats.test_status ≢ skipped
    → NoTheory (both suite_init init)
    → NoTheory fn
    → NoTheory (both fini suite_fini)
    → IsCounted in_teardown (both fini suite_fini).ending
    → let values =
        heard at
          (run_test_child now full_stats passed_asserts suite_init init fn fini suite_fini) in
      let s' = hear values s in
      Accepts values s
      × (u64 (finished s'.sstats.counts) ≡ u64 (finished s.sstats.counts + 1))
      × (s'.client.alive ≡ false)
unfolding run_test_child heard process_client_message_impl
run_test_child-counted now at full_stats n suite_init init fn fini suite_fini s e ne o p q c =
    let (a, x, dead) =
      test-Closes now at (both suite_init init)
        (and_then (criterion_internal_test_main now full_stats n fn)
          (criterion_internal_test_teardown now (both fini suite_fini)))
        (process_client_message_impl Value.birth s) o
        (main-Ends now at full_stats n fn
          (criterion_internal_test_teardown now (both fini suite_fini)) p
          (teardown-Ends now at (both fini suite_fini) q c))
        e ne in
    ((refl, a), x, dead)
