-- ===== src/Examples/Reports.antt =====
-- Reports of src/io/tap.c, json.c and xml.c on a small run.
use criterion.Common.{◌≡◌, refl, arith, true, false, none, some, List, [], ◌∷◌, Bytes, codes}
use criterion.Stats.{TestData, AssertStats, failed, test_stats_init, no_counts}
use criterion.Output.{basename_from}
use criterion.Report.{concat, ReportedTest, ReportedSuite, ReportedRun, Printing, line}
use criterion.Report.Tap.{print_assert, print_test, tap_report}
use criterion.Report.Tests.{CleanTest}
use criterion.Report.Lines.{verdicts}
use criterion.Report.Verdicts.{tap_report-verdicts}
use criterion.Report.Json.{json_report}
use criterion.Report.JsonReader.{well_formed}
use criterion.Report.JsonTests.{PlainTest}
use criterion.Report.Xml.{Times, failure_lines, lf}
use criterion.Report.XmlReader.{well_nested, step}
use criterion.Report.Scanning.{run}
use criterion.Path.{decimal}
use criterion.Report.Nested.{PlainSuite, xml_report-nested}
use criterion.Report.Xml.{xml_report}
use criterion.Report.WellFormed.{json_report-well_formed}

abbrev printing : Printing
printing = record { version = codes "2.4"; short_filename = true; seconds = λ n. codes "0.00" }

abbrev data_named : Bytes → TestData
data_named name = record {
  name = name;
  line_ = 1;
  file_ = codes "a.c";
  signal = 0;
  exit_code = 0;
  disabled = false;
}

abbrev failed_assert : AssertStats
failed_assert = record {
  message = codes "one\nok two";
  passed = false;
  line = 7;
  file = codes "src/a.c";
}

abbrev reported : Bytes → ReportedTest
reported name = record {
  category = codes "s";
  description = none;
  stats = record (test_stats_init 1 (data_named name)) { file = codes "src/a.c" };
}

abbrev reported_failure : ReportedTest
reported_failure = record (reported (codes "b")) {
  stats = record (test_stats_init 1 (data_named (codes "b"))) {
    file = codes "src/a.c";
    test_status = failed;
    asserts = failed_assert ∷ [];
  };
}

abbrev a_suite : ReportedSuite
a_suite = record {
  name = codes "s";
  counts = record no_counts { nb_tests = 2 };
  tests = reported (codes "a") ∷ reported_failure ∷ [];
}

abbrev a_run : ReportedRun
a_run = record { counts = record no_counts { nb_tests = 2 }; suites = a_suite ∷ [] }

first_line : print_test printing (reported (codes "a")) ≡ some (codes "ok - s::a  (0.00s)\n" ∷ [])
unfolding print_test line test_stats_init
first_line = refl

message_lines :
    print_assert printing failed_assert
    ≡ some (codes "  a.c:7: Assertion failed: one\n" ∷ codes "    ok two\n" ∷ [])
unfolding print_assert line basename_from
message_lines = refl

-- An assertion with an empty message: a null pointer is printed.
empty_message : print_assert printing (record failed_assert { message = [] }) ≡ none
unfolding print_assert
empty_message = refl

passed-CleanTest : CleanTest printing (reported (codes "a"))
unfolding test_stats_init
passed-CleanTest = record {
  category = ground arith;
  name = ground arith;
  description = tt;
  message = ground arith;
  elapsed = ground arith;
  file = ground arith;
  asserts = tt;
}

failure-CleanTest : CleanTest printing reported_failure
unfolding test_stats_init
failure-CleanTest = record {
  category = ground arith;
  name = ground arith;
  description = tt;
  message = ground arith;
  elapsed = ground arith;
  file = ground arith;
  asserts = ((ground arith, tt), tt);
}

tap_report-verdicts_example :
    (texts : List Bytes) × (tap_report printing a_run ≡ some texts)
    × (verdicts texts ≡ true ∷ false ∷ [])
unfolding test_stats_init
tap_report-verdicts_example =
    tap_report-verdicts printing a_run (ground arith)
      ((ground arith, (passed-CleanTest, (failure-CleanTest, tt))), tt)

passed-PlainTest : PlainTest printing (reported (codes "a"))
unfolding test_stats_init
passed-PlainTest = record { name = ground arith; message = ground arith; asserts = tt }

failure-PlainTest : PlainTest printing reported_failure
unfolding test_stats_init
failure-PlainTest = record {
  name = ground arith;
  message = ground arith;
  asserts = ((ground arith, ground arith, tt), tt);
}

json_report-well_formed_example :
    (texts : List Bytes) × (json_report printing a_run ≡ some texts)
    × (well_formed (concat texts) ≡ true)
unfolding test_stats_init
json_report-well_formed_example =
    json_report-well_formed printing a_run (ground arith)
      ((ground arith, (passed-PlainTest, (failure-PlainTest, tt))), tt)

-- A comma behind the last element of an array is not accepted, and neither is an open object.
trailing_comma : well_formed (codes "[1,\n]") ≡ false
unfolding run criterion.Report.JsonReader.step
trailing_comma = refl

unclosed : well_formed (codes "{ \"a\": [] ") ≡ false
unfolding run criterion.Report.JsonReader.step
unclosed = refl

abbrev times : Times
times = record { of_test = λ n. codes "0.000"; of_suite = λ ns. codes "0.000" }

plain_suite : PlainSuite printing times a_suite
unfolding test_stats_init
plain_suite = record {
  name = ground arith;
  time = ground arith;
  tests = (
    record { name = ground arith; time = ground arith; asserts = tt },
    (
      record {
        name = ground arith;
        time = ground arith;
        asserts = ((ground arith, ground arith), tt);
      },
      tt,
    ),
  );
}

xml_report-nested_example : well_nested (concat (xml_report printing times a_run)) ≡ true
unfolding test_stats_init
xml_report-nested_example = xml_report-nested printing times a_run (ground arith) (plain_suite, tt)

-- A message that is empty is no null pointer here.
empty_lines :
    failure_lines printing (record failed_assert { message = [] })
    ≡ codes "a.c" ∷ codes ":" ∷ codes "7" ∷ codes ": " ∷ [] ∷ lf ∷ []
unfolding failure_lines basename_from decimal
empty_lines = refl

-- A `<` in a message is taken for a tag.
less_than : well_nested (codes "<failure>a < b</failure>") ≡ false
unfolding step run
less_than = refl
