-- ===== src/Report/Json.antt =====
-- src/io/json.c: the JSON report. `none` stands for a null pointer that is printed as a text.
use criterion.Common.{ℕ, ◌+◌, ◌-◌, ◌^◌, ltb, Bool, true, false, Option, none, some, ◌||◌}
use criterion.Common.{List, [], ◌∷◌, ◌++◌, Bytes, codes, length, if◌then◌else◌}
use criterion.Options.Tokens.{strtok_r, tokens}
use criterion.Path.{decimal}
use criterion.Stats.{AssertStats, Counts, u32}
use criterion.Report.Statistics.{
  ReportedTest, ReportedSuite, ReportedRun, Printing, file_name, shown,
}
use criterion.Report.Tap.{is_failed, is_skipped}

-- What is written: pieces of text, each of a template or of an argument.
abbrev pub Pieces : Type 0
Pieces = Option (List Bytes)

infixr 5 ◌then_write◌
abbrev pub ◌then_write◌ : Pieces → Pieces → Pieces
none then_write q = none
some xs then_write q = elim q [ none ↦ none | some ys ↦ some (xs ++ ys) ]

unfoldable pub get_status_string : ReportedTest → Bytes
get_status_string t =
    if t.stats.crashed || t.stats.timed_out
    then codes "ERRORED"
    else if is_failed t.stats.test_status
    then codes "FAILED"
    else if is_skipped t.stats.test_status
    then codes "SKIPPED"
    else codes "PASSED"

-- The further lines of a message.
abbrev pub message_lines : List Bytes → List Bytes
message_lines [] = []
message_lines (l ∷ ls) = codes ",\n            \"  " ∷ l ∷ codes "\"" ∷ message_lines ls

-- A failed assertion, with a comma before it unless it is the first one.
unfoldable pub write_assert : Printing → Bool → AssertStats → Pieces
unfolding strtok_r tokens decimal
write_assert o first asrt = elim (strtok_r 10 asrt.message) [
  | none ↦ none
  | some (line, rest) ↦ some (
      (if first then [] else codes ",\n")
      ∷ codes "            \""
      ∷ file_name o asrt.file
      ∷ codes ":"
      ∷ decimal 10 asrt.line
      ∷ codes ": "
      ∷ line
      ∷ codes "\""
      ∷ message_lines (tokens 10 (length rest) rest))
]

unfoldable pub write_asserts : Printing → Bool → List AssertStats → Pieces
unfolding write_assert
write_asserts o first [] = some []
write_asserts o first (asrt ∷ next) = elim asrt.passed [
  | true ↦ write_asserts o first next
  | false ↦ write_assert o first asrt then_write write_asserts o false next
]

-- `(size_t)` of an `int`.
abbrev pub size_of_int : ℕ → ℕ
size_of_int n = if ltb n (2 ^ 31) then n else n + (2 ^ 64 - 2 ^ 32)

-- What follows the status of a test.
unfoldable pub write_messages : Printing → ReportedTest → Pieces
unfolding write_asserts
write_messages o t =
    if is_skipped t.stats.test_status
    then some (
        codes ",\n          \"messages\": [\""
        ∷ shown t.stats.message (codes "The test was skipped.")
        ∷ codes "\"]"
        ∷ [])
    else if t.stats.crashed
    then some (codes ",\n          \"messages\": [\"The test crashed.\"]" ∷ [])
    else if t.stats.timed_out
    then some (codes ",\n          \"messages\": [\"The test timed out.\"]" ∷ [])
    else if is_failed t.stats.test_status
    then some (codes ",\n          \"messages\": [\n" ∷ [])
      then_write write_asserts o true t.stats.asserts
      then_write some (codes "\n          ]" ∷ [])
    else some []

unfoldable pub write_test : Printing → ReportedTest → Pieces
unfolding get_status_string write_messages decimal
write_test o t =
    some (
      codes "        {\n          \"name\": \""
      ∷ t.stats.test.name
      ∷ codes "\",\n          \"assertions\": "
      ∷ decimal 20 (size_of_int (u32 (t.stats.passed_asserts + t.stats.failed_asserts)))
      ∷ codes ",\n          \"status\": \""
      ∷ get_status_string t
      ∷ codes "\""
      ∷ [])
    then_write write_messages o t
    then_write some (codes "\n        }" ∷ [])

-- The two loops; a comma stands behind all but the last element.
abbrev pub separator {ℓ} : {A : Type ℓ} → List A → Bytes
separator [] = codes "\n"
separator (x ∷ next) = codes ",\n"

unfoldable pub write_tests : Printing → List ReportedTest → Pieces
unfolding write_test
write_tests o [] = some []
write_tests o (t ∷ next) =
    write_test o t then_write some (separator next ∷ []) then_write write_tests o next

unfoldable pub write_counts : Bytes → Counts → Pieces
unfolding decimal
write_counts margin c = some (
    margin
    ∷ codes "\"passed\": "
    ∷ decimal 20 c.tests_passed
    ∷ codes ",\n"
    ∷ margin
    ∷ codes "\"failed\": "
    ∷ decimal 20 c.tests_failed
    ∷ codes ",\n"
    ∷ margin
    ∷ codes "\"errored\": "
    ∷ decimal 20 c.tests_crashed
    ∷ codes ",\n"
    ∷ margin
    ∷ codes "\"skipped\": "
    ∷ decimal 20 c.tests_skipped
    ∷ codes ",\n"
    ∷ [])

unfoldable pub write_suite : Printing → ReportedSuite → Pieces
unfolding write_counts write_tests
write_suite o ss =
    some (codes "    {\n      \"name\": \"" ∷ ss.name ∷ codes "\",\n" ∷ [])
    then_write write_counts (codes "      ") ss.counts
    then_write some (codes "      \"tests\": [\n" ∷ [])
    then_write write_tests o ss.tests
    then_write some (codes "      ]\n    }" ∷ [])

unfoldable pub write_suites : Printing → List ReportedSuite → Pieces
unfolding write_suite
write_suites o [] = some []
write_suites o (ss ∷ next) =
    write_suite o ss then_write some (separator next ∷ []) then_write write_suites o next

unfoldable pub json_report : Printing → ReportedRun → Pieces
unfolding write_counts write_suites
json_report o run =
    some (codes "{\n  \"id\": \"Criterion v" ∷ o.version ∷ codes "\",\n" ∷ [])
    then_write write_counts (codes "  ") run.counts
    then_write some (codes "  \"test_suites\": [\n" ∷ [])
    then_write write_suites o run.suites
    then_write some (codes "  ]\n}\n" ∷ [])
