-- ===== src/Report/Tap.antt =====
-- src/io/tap.c: the TAP report. `none` stands for a null pointer that is printed as a text.
use criterion.Common.{Bool, true, false, Option, none, some}
use criterion.Common.{List, [], ◌∷◌, ◌++◌, Bytes, codes, length, if◌then◌else◌}
use criterion.Options.Tokens.{strtok_r, tokens}
use criterion.Path.{decimal}
use criterion.Stats.{TestStatus, passed, failed, skipped, AssertStats}
use criterion.Report.Statistics.{
  ReportedTest, ReportedSuite, ReportedRun, Printing, line, file_name, shown,
}

abbrev pub Printed : Type 0
Printed = Option (List Bytes)

infixr 5 ◌then_print◌
abbrev pub ◌then_print◌ : Printed → Printed → Printed
none then_print q = none
some xs then_print q = elim q [ none ↦ none | some ys ↦ some (xs ++ ys) ]

abbrev pub print : List Bytes → Printed
print pieces = some (line pieces ∷ [])

abbrev pub indented : List Bytes → List Bytes
indented [] = []
indented (l ∷ ls) = line (codes "    " ∷ l ∷ []) ∷ indented ls

-- A failed assertion: the lines of its message.
unfoldable pub print_assert : Printing → AssertStats → Printed
unfolding strtok_r tokens decimal
print_assert o asrt = elim (strtok_r 10 asrt.message) [
  | none ↦ none
  | some (first, rest) ↦
      print (
        codes "  "
        ∷ file_name o asrt.file
        ∷ codes ":"
        ∷ decimal 10 asrt.line
        ∷ codes ": Assertion failed: "
        ∷ first
        ∷ [])
      then_print some (indented (tokens 10 (length rest) rest))
]

-- The loop over the assertions.
unfoldable pub print_asserts : Printing → List AssertStats → Printed
unfolding print_assert
print_asserts o [] = some []
print_asserts o (asrt ∷ next) =
    let rest = print_asserts o next in
    if asrt.passed then rest else print_assert o asrt then_print rest

abbrev pub is_failed : TestStatus → Bool
is_failed failed = true
is_failed passed = false
is_failed skipped = false

unfoldable pub print_test_normal : Printing → ReportedTest → Printed
unfolding print_asserts
print_test_normal o t =
    print (
      (if is_failed t.stats.test_status then codes "not ok" else codes "ok")
      ∷ codes " - "
      ∷ t.category
      ∷ codes "::"
      ∷ t.stats.test.name
      ∷ codes " "
      ∷ shown t.description []
      ∷ codes " ("
      ∷ o.seconds t.stats.elapsed_time
      ∷ codes "s)"
      ∷ [])
    then_print print_asserts o t.stats.asserts

unfoldable pub print_test_crashed : Printing → ReportedTest → Printed
unfolding decimal
print_test_crashed o t = print (
    codes "not ok - "
    ∷ t.category
    ∷ codes "::"
    ∷ t.stats.test.name
    ∷ codes " unexpected signal after "
    ∷ file_name o t.stats.file
    ∷ codes ":"
    ∷ decimal 10 t.stats.progress
    ∷ [])

unfoldable pub print_test_timeout : Printing → ReportedTest → Printed
print_test_timeout o t = print (
    codes "not ok - "
    ∷ t.category
    ∷ codes "::"
    ∷ t.stats.test.name
    ∷ codes " timed out ("
    ∷ o.seconds t.stats.elapsed_time
    ∷ codes "s)"
    ∷ [])

abbrev pub is_skipped : TestStatus → Bool
is_skipped skipped = true
is_skipped passed = false
is_skipped failed = false

unfoldable pub print_test_skipped : ReportedTest → Printed
print_test_skipped t = print (
    codes "ok - "
    ∷ t.category
    ∷ codes "::"
    ∷ t.stats.test.name
    ∷ codes " "
    ∷ shown t.description []
    ∷ codes " # SKIP "
    ∷ shown t.stats.message (codes "test was skipped")
    ∷ [])

unfoldable pub print_test : Printing → ReportedTest → Printed
unfolding print_test_skipped print_test_crashed print_test_timeout print_test_normal
print_test o t =
    if is_skipped t.stats.test_status
    then print_test_skipped t
    else if t.stats.crashed
    then print_test_crashed o t
    else if t.stats.timed_out
    then print_test_timeout o t
    else print_test_normal o t

-- The first call of fprintf writes two lines.
unfoldable pub print_prelude : Printing → ReportedRun → Printed
unfolding decimal
print_prelude o run =
    print (codes "TAP version 13" ∷ [])
    then_print print (codes "1.." ∷ decimal 20 run.counts.nb_tests ∷ [])
    then_print print (codes "# Criterion v" ∷ o.version ∷ [])

-- The call of fprintf writes an empty line first.
unfoldable pub print_pre_suite : ReportedSuite → Printed
unfolding decimal
print_pre_suite ss =
    print []
    then_print print
        (codes "# Running " ∷ decimal 20 ss.counts.nb_tests ∷ codes " tests from " ∷ ss.name ∷ [])

unfoldable pub print_tests : Printing → List ReportedTest → Printed
unfolding print_test
print_tests o [] = some []
print_tests o (ts ∷ next) = print_test o ts then_print print_tests o next

unfoldable pub print_suites : Printing → List ReportedSuite → Printed
unfolding print_pre_suite print_tests
print_suites o [] = some []
print_suites o (ss ∷ next) =
    print_pre_suite ss then_print print_tests o ss.tests then_print print_suites o next

unfoldable pub tap_report : Printing → ReportedRun → Printed
unfolding print_prelude print_suites
tap_report o run = print_prelude o run then_print print_suites o run.suites
