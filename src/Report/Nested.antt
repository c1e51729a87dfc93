-- ===== src/Report/Nested.antt =====
-- src/io/xml.c: the tags of the report pair up.
use criterion.Common.{ℕ, ◌+◌, ◌-◌, ◌^◌, ◌≡◌, refl, ap, arith, true, Bool-cases, inl, inr}
use criterion.Common.{some, List, [], ◌∷◌, Bytes, codes, All, map, ltb, if◌then◌else◌}
use criterion.Stats.{Counts, u32}
use criterion.Report.Statistics.{ReportedTest, ReportedSuite, ReportedRun, Printing, concat}
use criterion.Report.Tap.{is_failed, is_skipped}
use criterion.Report.Json.{get_status_string, size_of_int}
use criterion.Report.Xml.{
  Times, signed, outcome, testcase, testcases, counters, testsuite, testsuites, xml_report,
}
use criterion.Report.Scanning.{run, run-concat, done, ◌then◌, ◌thence◌}
use criterion.Report.XmlReader.{
  content, attributes, quoted, step, Plain, run-quoted, InDeclaration, run-declaration, well_nested,
  is_end,
}
use criterion.Report.XmlTests.{Reads, quoted_decimal, PlainAssert, failures-Stays}

counters-Reads :
    (c : Counts) (open_ : List Bytes) → Reads (attributes, open_) (counters c) (attributes, open_)
unfolding counters step run
counters-Reads c open_ =
    refl
    then quoted_decimal open_ 20 c.nb_tests
    then refl
    then quoted_decimal open_ 20 c.tests_failed
    then refl
    then quoted_decimal open_ 20 c.tests_crashed
    then refl
    then quoted_decimal open_ 20 c.tests_skipped
    then refl
    then done

run-signed :
    (open_ : List Bytes) (n : ℕ) → run step (quoted, open_) (signed n) ≡ some (quoted, open_)
unfolding step run
run-signed open_ n = elim (Bool-cases (ltb n (2 ^ 31))) [
  | inl e ↦ rw e (quoted_decimal open_ 10 n)
  | inr e ↦ rw e (quoted_decimal open_ 10 (2 ^ 32 - n))
]

status-Plain : (t : ReportedTest) → Plain (get_status_string t)
unfolding get_status_string
status-Plain t = ground arith

-- The texts of a test, and the text of its time.
pub record PlainTest (times : Times) (t : ReportedTest) : Type 0 where
  pub name : Plain t.stats.test.name
  pub time : Plain (times.of_test t.stats.elapsed_time)
  pub asserts : All PlainAssert t.stats.asserts

module _ (o : Printing) (times : Times) where
  outcome-Reads :
      (t : ReportedTest) (name : Bytes) (outer : List Bytes)
      → All PlainAssert t.stats.asserts
      → Reads (content, name ∷ outer) (outcome o t) (content, name ∷ outer)
  unfolding outcome step run
  outcome-Reads t name outer h = elim (Bool-cases (is_skipped t.stats.test_status)) [
    | inl e ↦ simp (e) (refl then done)
    | inr e ↦ elim (Bool-cases t.stats.crashed) [
      | inl f ↦ simp (e, f) (refl then done)
      | inr f ↦ elim (Bool-cases t.stats.timed_out) [
        | inl g ↦ simp (e, f, g) (refl then done)
        | inr g ↦ elim (Bool-cases (is_failed t.stats.test_status)) [
          | inl k ↦
              simp (e, f, g, k)
                (refl
                  then run-signed (codes "failure" ∷ name ∷ outer) t.stats.failed_asserts
                  then refl
                  then failures-Stays o (codes "failure") (name ∷ outer) t.stats.asserts h
                  thence refl
                  then done)
          | inr k ↦ simp (e, f, g, k) done
        ]
      ]
    ]
  ]

  testcase-Reads :
      (t : ReportedTest) (name : Bytes) (outer : List Bytes)
      → PlainTest times t
      → Reads (content, name ∷ outer) (testcase o times t) (content, name ∷ outer)
  unfolding testcase step run
  testcase-Reads t name outer h =
      let open_ = codes "testcase" ∷ name ∷ outer in
      refl
      then run-quoted open_ t.stats.test.name h.name
      then refl
      then quoted_decimal open_ 20
          (size_of_int (u32 (t.stats.passed_asserts + t.stats.failed_asserts)))
      then refl
      then run-quoted open_ (get_status_string t) (status-Plain t)
      then refl
      then run-quoted open_ (times.of_test t.stats.elapsed_time) h.time
      then refl
      then outcome-Reads t (codes "testcase") (name ∷ outer) h.asserts
      thence refl
      then done

  testcases-Reads :
      (tests : List ReportedTest) (name : Bytes) (outer : List Bytes)
      → All (PlainTest times) tests
      → Reads (content, name ∷ outer) (testcases o times tests) (content, name ∷ outer)
  unfolding testcases
  testcases-Reads [] name outer h = done
  testcases-Reads (t ∷ next) name outer h =
      testcase-Reads t name outer h.0 thence testcases-Reads next name outer h.1

  -- The texts of a suite, and the text of its time.
  pub record PlainSuite (ss : ReportedSuite) : Type 0 where
    pub name : Plain ss.name
    pub time : Plain (times.of_suite (map (λ (t : ReportedTest). t.stats.elapsed_time) ss.tests))
    pub tests : All (PlainTest times) ss.tests

  testsuite-Reads :
      (ss : ReportedSuite) (name : Bytes) (outer : List Bytes)
      → PlainSuite ss
      → Reads (content, name ∷ outer) (testsuite o times ss) (content, name ∷ outer)
  unfolding testsuite step run
  testsuite-Reads ss name outer h =
      let open_ = codes "testsuite" ∷ name ∷ outer in
      let time = times.of_suite (map (λ (t : ReportedTest). t.stats.elapsed_time) ss.tests) in
      refl
      then run-quoted open_ ss.name h.name
      then refl
      then counters-Reads ss.counts open_
      thence refl
      then quoted_decimal open_ 20 ss.counts.tests_skipped
      then refl
      then run-quoted open_ time h.time
      then refl
      then testcases-Reads ss.tests (codes "testsuite") (name ∷ outer) h.tests
      thence refl
      then done

  testsuites-Reads :
      (suites : List ReportedSuite) (name : Bytes) (outer : List Bytes)
      → All PlainSuite suites
      → Reads (content, name ∷ outer) (testsuites o times suites) (content, name ∷ outer)
  unfolding testsuites
  testsuites-Reads [] name outer h = done
  testsuites-Reads (ss ∷ next) name outer h =
      testsuite-Reads ss name outer h.0 thence testsuites-Reads next name outer h.1

  report-Reads :
      (report : ReportedRun)
      → InDeclaration o.version
      → All PlainSuite report.suites
      → Reads (content, []) (xml_report o times report) (content, [])
  unfolding xml_report step run
  report-Reads report v h =
      let root = codes "testsuites" in
      refl
      then run-declaration [] o.version v
      then refl
      then counters-Reads report.counts (root ∷ [])
      thence refl
      then testsuites-Reads report.suites root [] h
      thence refl
      then done

  -- The tags of an XML report pair up: each start tag has its end tag, in the order of their
  -- nesting, texts stand in elements only, and attributes are closed before their tag is. The names
  -- of suites and tests, the texts of times, and the files and messages of assertions hold no `<`,
  -- `&` or quotation mark, and the version no `>`.
  pub xml_report-nested :
      (report : ReportedRun)
      → InDeclaration o.version
      → All PlainSuite report.suites
      → well_nested (concat (xml_report o times report)) ≡ true
  xml_report-nested report v h = ap is_end (run-concat step (report-Reads report v h))
