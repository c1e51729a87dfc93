-- ===== src/Runner/Schedule.antt =====
-- src/core/runner_coroutine.c: the calls of cri_run_next_test start the enabled tests in order.
use criterion.Common.{ℕ, zero, suc, ◌≤◌, ◌≡◌, refl, sym, ap, subst, ◌∙◌, inl, inr, arith}
use criterion.Common.{Option, none, some, List, [], ◌∷◌, ◌++◌, length, replicate}
use criterion.Common.{Bool-cases, List-cases, Option-cases, if◌then◌else◌}
use mathlib.Core.List.{append_assoc}
use criterion.Stats.{TestStats}
use criterion.Client.State.{ClientCtx}
use criterion.Client.Server.{Server}
use criterion.Runner.Registry.{Test, Suite, SuiteSet}
use criterion.Runner.Coroutine.{is_disabled, runs, skip_disabled, begin_suite, Coroutine, at_suites}
use criterion.Runner.Coroutine.{in_test, Walk, finished, found, walk_tests, Call, start_test}
use criterion.Runner.Coroutine.{first_run}
use criterion.Runner.Coroutine.{after_walk, walk_suites, cri_run_next_test}

-- The runs of a suite's tests: none of a disabled test, one of a simple test, and one for each
-- parameter of a parameterized test.
abbrev pub planned_tests : Suite → List Test → List Test
planned_tests suite [] = []
planned_tests suite (t ∷ tests) =
    (if is_disabled t suite then [] else replicate (runs t.param_) t) ++ planned_tests suite tests

abbrev pub planned_in : SuiteSet → List Test
planned_in s = elim s.tests [ none ↦ [] | some tests ↦ planned_tests s.suite tests.first ]

-- The runs of all suites, in their order.
abbrev pub planned : List SuiteSet → List Test
planned [] = []
planned (s ∷ suites) = planned_in s ++ planned suites

-- The runs that are left.
abbrev pub remaining : Coroutine → List Test
remaining (at_suites suites) = planned suites
remaining (in_test t more suite ref tests suites) =
    replicate more t ++ (planned_tests suite tests ++ planned suites)

-- What a walk finds is the first of the planned runs.
abbrev Finds : Suite → List Test → Walk → Type 0
Finds suite plan (finished sctx) = plan ≡ []
Finds suite plan (found t more tests sctx) =
    plan ≡ t ∷ replicate more t ++ planned_tests suite tests

first_run-Finds :
    (suite : Suite) (n : ℕ) (t : Test) (tests : List Test) (sctx : Server) (rest : Walk)
    → Finds suite (planned_tests suite tests) rest
    → Finds suite (replicate n t ++ planned_tests suite tests) (first_run n t tests sctx rest)
unfolding first_run
first_run-Finds suite zero t tests sctx rest h = h
first_run-Finds suite (suc more) t tests sctx rest h = refl

walk_tests-Finds :
    (suite : Suite) (ref : ℕ) (tests : List Test) (sctx : Server)
    → Finds suite (planned_tests suite tests) (walk_tests suite ref tests sctx)
unfolding walk_tests
walk_tests-Finds suite ref [] sctx = refl
walk_tests-Finds suite ref (t ∷ tests) sctx = elim (Bool-cases (is_disabled t suite)) [
  | inl e ↦ rw (e, walk_tests) (walk_tests-Finds suite ref tests (skip_disabled t ref sctx))
  | inr e ↦
      rw (e, walk_tests)
        (first_run-Finds suite (runs t.param_) t tests sctx (walk_tests suite ref tests sctx)
          (walk_tests-Finds suite ref tests sctx))
]

-- What a call does with the runs that are left: it starts the first, or there is none.
abbrev pub StartsFirst : List Test → Coroutine → Option (Test × ClientCtx) → Type 0
StartsFirst plan co none = (plan ≡ []) × (remaining co ≡ [])
StartsFirst plan co (some (t, c)) = plan ≡ t ∷ remaining co

abbrev pub Starts : List Test → Call → Type 0
Starts plan call = StartsFirst plan call.coroutine call.started

after_walk-Starts :
    (w : Walk) (suite : Suite) (ref : ℕ) (suites : List SuiteSet) (others : Server → Call)
    (plan : List Test)
    → Finds suite plan w
    → ((sctx : Server) → Starts (planned suites) (others sctx))
    → Starts (plan ++ planned suites) (after_walk w suite ref suites others)
unfolding after_walk start_test
after_walk-Starts (finished sctx) suite ref suites others plan f h =
    subst (λ p. Starts (p ++ planned suites) (after_walk (finished sctx) suite ref suites others))
      (sym f) (h _)
after_walk-Starts (found t more tests sctx) suite ref suites others plan f h =
    rw f (ap (◌∷◌ t) (append_assoc (replicate more t) (planned_tests suite tests) (planned suites)))

walk_suites-Starts :
    (no_test : TestStats) (suites : List SuiteSet) (sctx : Server)
    → Starts (planned suites) (walk_suites no_test suites sctx)
unfolding walk_suites
walk_suites-Starts no_test [] sctx = (refl, refl)
walk_suites-Starts no_test (s ∷ suites) sctx = elim (Option-cases s.tests) [
  | inl e ↦ rw (e, walk_suites) (walk_suites-Starts no_test suites sctx)
  | inr (tests, e) ↦
      rw (e, walk_suites)
        (after_walk-Starts _ s.suite sctx.fresh suites (walk_suites no_test suites) _
          (walk_tests-Finds s.suite sctx.fresh tests.first (begin_suite no_test sctx))
          (walk_suites-Starts no_test suites))
]

pub cri_run_next_test-Starts :
    (no_test : TestStats) (co : Coroutine) (sctx : Server)
    → Starts (remaining co) (cri_run_next_test no_test co sctx)
unfolding cri_run_next_test start_test
cri_run_next_test-Starts no_test (at_suites suites) sctx = walk_suites-Starts no_test suites sctx
cri_run_next_test-Starts no_test (in_test t (suc more) suite ref tests suites) sctx = refl
cri_run_next_test-Starts no_test (in_test t zero suite ref tests suites) sctx =
    after_walk-Starts _ suite ref suites (walk_suites no_test suites) _
      (walk_tests-Finds suite ref tests sctx) (walk_suites-Starts no_test suites)

abbrev started_first : Option (Test × ClientCtx) → List Test → List Test
started_first none rest = []
started_first (some (t, c)) rest = t ∷ rest

started_first-plan :
    (n : ℕ) (plan : List Test) (co : Coroutine) (start : Option (Test × ClientCtx))
    (rest : List Test)
    → StartsFirst plan co start
    → length plan ≤ suc n
    → (length (remaining co) ≤ n → rest ≡ remaining co)
    → started_first start rest ≡ plan
started_first-plan n plan co none rest f h ih = sym f.0
started_first-plan n plan co (some (t, c)) rest f h ih =
    ap (◌∷◌ t) (ih (omega (arith, ap length f))) ∙ sym f

module _ (no_test : TestStats) (between : Call → Server) where
  -- The tests that up to `n` calls start, until one starts none. `between` is what the server
  -- does after a call.
  unfoldable pub started_tests : ℕ → Coroutine → Server → List Test
  unfolding cri_run_next_test
  started_tests zero co sctx = []
  started_tests (suc n) co sctx =
      let call = cri_run_next_test no_test co sctx in
      started_first call.started (started_tests n call.coroutine (between call))

  started_tests-remaining :
      (n : ℕ) (co : Coroutine) (sctx : Server)
      → length (remaining co) ≤ n
      → started_tests n co sctx ≡ remaining co
  unfolding started_tests
  started_tests-remaining zero co sctx h = elim (List-cases (remaining co)) [
    | inl e ↦ sym e
    | inr (t, ts, e) ↦ absurd (omega (arith, ap length e))
  ]
  started_tests-remaining (suc n) co sctx h =
      let call = cri_run_next_test no_test co sctx in
      started_first-plan n (remaining co) call.coroutine call.started
        (started_tests n call.coroutine (between call)) (cri_run_next_test-Starts no_test co sctx) h
        (started_tests-remaining n call.coroutine (between call))

  -- The calls of the coroutine start the planned runs, in the order of the suites and tests, each
  -- once and no others, whatever the server does between the calls; a run for which as many calls
  -- are made as there are planned runs, or more, starts them all.
  pub started_tests-planned :
      (n : ℕ) (suites : List SuiteSet) (sctx : Server)
      → length (planned suites) ≤ n
      → started_tests n (at_suites suites) sctx ≡ planned suites
  started_tests-planned n suites sctx h = started_tests-remaining n (at_suites suites) sctx h
