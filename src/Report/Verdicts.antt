-- ===== src/Report/Verdicts.antt =====
-- src/io/tap.c: what a reader of the report learns of the tests.
use mathlib.Core.List.{append-nil}
use criterion.Common.{◌≡◌, refl, sym, ap, ◌∙◌, arith, Bool}
use criterion.Common.{some, List, [], ◌∷◌, ◌++◌, Bytes, codes, All}
use criterion.Path.{decimal}
use criterion.Report.Statistics.{ReportedTest, ReportedSuite, ReportedRun, Printing, concat}
use criterion.Report.Tap.{◌then_print◌, print}
use criterion.Report.Tap.{print_test, print_prelude}
use criterion.Report.Tap.{print_pre_suite, print_tests, print_suites, tap_report}
use criterion.Report.Lines.{verdicts, all_verdicts, lines}
use criterion.Report.Reading.{OneLine, OneLine-decimal}
use criterion.Report.Reading.{Prints, Prints-then, Prints-line}
use criterion.Report.Tests.{CleanTest, is_ok, print_test-Prints}

abbrev pub CleanSuite : Printing → ReportedSuite → Type 0
CleanSuite o ss = OneLine ss.name × All (CleanTest o) ss.tests

abbrev pub tests_ok : List ReportedTest → List Bool
tests_ok [] = []
tests_ok (t ∷ ts) = is_ok t ∷ tests_ok ts

abbrev pub suites_ok : List ReportedSuite → List Bool
suites_ok [] = []
suites_ok (ss ∷ next) = tests_ok ss.tests ++ suites_ok next

module _ (o : Printing) where
  print_tests-Prints :
      (ts : List ReportedTest) → All (CleanTest o) ts → Prints (print_tests o ts) (tests_ok ts)
  unfolding print_tests
  print_tests-Prints [] h = ([], refl, λ rest. refl)
  print_tests-Prints (t ∷ ts) h =
      Prints-then (print_test o t) (print_tests o ts) (is_ok t ∷ []) (tests_ok ts)
        (print_test-Prints o t h.0) (print_tests-Prints ts h.1)

  print_pre_suite-Prints : (ss : ReportedSuite) → OneLine ss.name → Prints (print_pre_suite ss) []
  unfolding print_pre_suite
  print_pre_suite-Prints ss h = Prints-then (print []) (print _) [] [] (Prints-line [] tt) (
      Prints-line _
        (ground arith, (OneLine-decimal 20 ss.counts.nb_tests, (ground arith, (h, tt)))))

  print_suites-Prints :
      (suites : List ReportedSuite)
      → All (CleanSuite o) suites
      → Prints (print_suites o suites) (suites_ok suites)
  unfolding print_suites
  print_suites-Prints [] h = ([], refl, λ rest. refl)
  print_suites-Prints (ss ∷ next) h =
      Prints-then (print_pre_suite ss) (print_tests o ss.tests then_print print_suites o next) []
        (tests_ok ss.tests ++ suites_ok next) (print_pre_suite-Prints ss h.0.0)
        (Prints-then (print_tests o ss.tests) (print_suites o next) (tests_ok ss.tests)
          (suites_ok next) (print_tests-Prints ss.tests h.0.1) (print_suites-Prints next h.1))

  -- A TAP report is printed, and a reader that goes by the beginnings of the lines finds in it one
  -- verdict for each test, in order: passed for a test that was skipped, or that has neither
  -- crashed nor timed out and is not failed, and failed for any other. The lines of a failed assertion's
  -- message are never taken for a verdict. Names, files, descriptions and the messages
  -- of skipped tests have no line break, and no failed assertion has an empty message.
  pub tap_report-verdicts :
      (run : ReportedRun)
      → OneLine o.version
      → All (CleanSuite o) run.suites
      → (texts : List Bytes) × (tap_report o run ≡ some texts)
        × (verdicts texts ≡ suites_ok run.suites)
  unfolding tap_report print_prelude
  tap_report-verdicts run v h =
      let prelude =
        Prints-then (print (codes "TAP version 13" ∷ [])) _ [] [] (Prints-line _ (ground arith, tt))
          (Prints-then (print (codes "1.." ∷ decimal 20 run.counts.nb_tests ∷ [])) _ [] []
            (Prints-line _ (ground arith, (OneLine-decimal 20 run.counts.nb_tests, tt)))
            (Prints-line (codes "# Criterion v" ∷ o.version ∷ []) (ground arith, (v, tt)))) in
      let (texts, e, says) =
        Prints-then (print_prelude o run) (print_suites o run.suites) [] (suites_ok run.suites)
          prelude (print_suites-Prints run.suites h) in
      (
        texts,
        e,
        ap (λ s. all_verdicts (lines s)) (sym (append-nil (concat texts))) ∙ says [] ∙ append-nil _,
      )
