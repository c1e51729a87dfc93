-- ===== src/Report/Xml.antt =====
-- src/io/xml.c: the XML report, as the texts that are written one after the other.
use criterion.Common.{ℕ, ◌+◌, ◌-◌, ◌^◌, ltb, Option, none, some}
use criterion.Common.{List, [], ◌∷◌, ◌++◌, Bytes, codes, length, map, if◌then◌else◌}
use criterion.Options.Tokens.{strtok_r, tokens}
use criterion.Path.{decimal}
use criterion.Stats.{AssertStats, Counts, u32}
use criterion.Report.Statistics.{ReportedTest, ReportedSuite, ReportedRun, Printing, file_name}
use criterion.Report.Tap.{is_failed, is_skipped}
use criterion.Report.Json.{get_status_string, size_of_int}

-- The texts of an elapsed time and of the sum of such times, by `%.3f` with a dot.
pub record Times : Type 0 where
  pub of_test : ℕ → Bytes
  pub of_suite : List ℕ → Bytes

abbrev pub lf : Bytes
lf = codes "&#10;"

-- The lines of a message behind the first one.
abbrev pub further_lines : List Bytes → List Bytes
further_lines [] = []
further_lines (l ∷ ls) = codes "        " ∷ l ∷ lf ∷ further_lines ls

abbrev pub lines_of : Option (Bytes × Bytes) → List Bytes
lines_of none = [] ∷ lf ∷ []
lines_of (some (line, rest)) = line ∷ lf ∷ further_lines (tokens 10 (length rest) rest)

unfoldable pub failure_lines : Printing → AssertStats → List Bytes
unfolding strtok_r tokens decimal
failure_lines o asrt =
    file_name o asrt.file
    ∷ codes ":"
    ∷ decimal 10 asrt.line
    ∷ codes ": "
    ∷ lines_of (strtok_r 10 asrt.message)

unfoldable pub failures : Printing → List AssertStats → List Bytes
unfolding failure_lines
failures o [] = []
failures o (asrt ∷ next) =
    let rest = failures o next in if asrt.passed then rest else failure_lines o asrt ++ rest

-- `%d` of an `int`.
abbrev pub signed : ℕ → Bytes
signed n = if ltb n (2 ^ 31) then decimal 10 n else b'-' ∷ decimal 10 (2 ^ 32 - n)

-- What stands inside the element of a test.
unfoldable pub outcome : Printing → ReportedTest → List Bytes
unfolding failures decimal
outcome o t =
    if is_skipped t.stats.test_status
    then codes "      <skipped/>\n" ∷ []
    else if t.stats.crashed
    then codes "      <error type=\"crash\" message=\"The test crashed.\" />" ∷ []
    else if t.stats.timed_out
    then codes "      <error type=\"timeout\" message=\"The test timed out.\" />" ∷ []
    else if is_failed t.stats.test_status
    then codes "      <failure type=\"assert\" message=\""
        ∷ signed t.stats.failed_asserts
        ∷ codes " assertion(s) failed.\">"
        ∷ failures o t.stats.asserts
      ++ codes "</failure>\n" ∷ []
    else []

unfoldable pub testcase : Printing → Times → ReportedTest → List Bytes
unfolding get_status_string outcome decimal
testcase o times t =
    codes "    <testcase name=\""
      ∷ t.stats.test.name
      ∷ codes "\" assertions=\""
      ∷ decimal 20 (size_of_int (u32 (t.stats.passed_asserts + t.stats.failed_asserts)))
      ∷ codes "\" status=\""
      ∷ get_status_string t
      ∷ codes "\" time=\""
      ∷ times.of_test t.stats.elapsed_time
      ∷ codes "\">\n"
      ∷ outcome o t
    ++ codes "    </testcase>\n" ∷ []

unfoldable pub testcases : Printing → Times → List ReportedTest → List Bytes
unfolding testcase
testcases o times [] = []
testcases o times (t ∷ next) = testcase o times t ++ testcases o times next

-- The attributes of the counters.
unfoldable pub counters : Counts → List Bytes
unfolding decimal
counters c =
    codes "tests=\""
    ∷ decimal 20 c.nb_tests
    ∷ codes "\" failures=\""
    ∷ decimal 20 c.tests_failed
    ∷ codes "\" errors=\""
    ∷ decimal 20 c.tests_crashed
    ∷ codes "\" disabled=\""
    ∷ decimal 20 c.tests_skipped
    ∷ codes "\""
    ∷ []

unfoldable pub testsuite : Printing → Times → ReportedSuite → List Bytes
unfolding counters testcases decimal
testsuite o times ss =
    codes "  <testsuite name=\"" ∷ ss.name ∷ codes "\" " ∷ counters ss.counts
    ++ codes " skipped=\""
      ∷ decimal 20 ss.counts.tests_skipped
      ∷ codes "\" time=\""
      ∷ times.of_suite (map (λ (t : ReportedTest). t.stats.elapsed_time) ss.tests)
      ∷ codes "\">\n"
      ∷ testcases o times ss.tests
    ++ codes "  </testsuite>\n" ∷ []

unfoldable pub testsuites : Printing → Times → List ReportedSuite → List Bytes
unfolding testsuite
testsuites o times [] = []
testsuites o times (ss ∷ next) = testsuite o times ss ++ testsuites o times next

unfoldable pub xml_report : Printing → Times → ReportedRun → List Bytes
unfolding counters testsuites
xml_report o times run =
    codes "<?xml version=\"1.0\" encoding=\"UTF-8\"?>\n<!-- Tests compiled with Criterion v"
      ∷ o.version
      ∷ codes " -->\n<testsuites name=\"Criterion Tests\" "
      ∷ counters run.counts
    ++ codes ">\n" ∷ testsuites o times run.suites
    ++ codes "</testsuites>\n" ∷ []
