-- ===== src/Report/WellFormed.antt =====
-- src/io/json.c: the report is a JSON text.
use criterion.Common.{◌⊎◌}
use criterion.Common.{◌≡◌, refl, ap, true, inl, inr}
use criterion.Common.{some, List, [], ◌∷◌, Bytes, codes, All}
use criterion.Report.Statistics.{ReportedTest, ReportedSuite, ReportedRun, Printing, concat}
use criterion.Report.Json.{separator, write_tests, write_suite, write_suites, json_report}
use criterion.Report.Scanning.{run, run-concat, Reading, done, ◌then◌}
use criterion.Report.JsonReader.{Mode, value, value_or_end, after, in_value}
use criterion.Report.JsonReader.{Open, object, array, step, Plain}
use criterion.Report.JsonReader.{run-Plain, well_formed, is_done}
use criterion.Report.JsonTests.{Reads, Reads-then, counts-Reads, PlainTest, test-Reads}

module _ (p : Printing) where
  separator-Reads :
      {A : Type 0} (next : List A) (o : List Open)
      → Reads
          (some (separator next ∷ []))
          after
          (array ∷ o)
          (elim next [ [] ↦ after | x ∷ xs ↦ value ])
          (array ∷ o)
  unfolding step run
  separator-Reads [] o = (_, refl, refl then done)
  separator-Reads (x ∷ next) o = (_, refl, refl then done)

  abbrev IsStart : Mode → Type 0
  IsStart m = (m ≡ value_or_end) ⊎ (m ≡ value)

  -- What the reader expects behind elements: the end of the array may follow.
  abbrev IsEnd : Mode → Type 0
  IsEnd m = (m ≡ value_or_end) ⊎ (m ≡ after)

  tests-Reads :
      (ts : List ReportedTest) (t : ReportedTest) (m : Mode) (o : List Open)
      → IsStart m
      → PlainTest p t
      → All (PlainTest p) ts
      → Reads (write_tests p (t ∷ ts)) m (array ∷ o) after (array ∷ o)
  unfolding write_tests
  tests-Reads [] t m o e h k =
      Reads-then _ _ (test-Reads p t m o e h)
        (Reads-then _ _ (separator-Reads {A = ReportedTest} [] o) ([], refl, done))
  tests-Reads (u ∷ ts) t m o e h k =
      Reads-then _ _ (test-Reads p t m o e h)
        (Reads-then _ _ (separator-Reads (u ∷ ts) o) (tests-Reads ts u value o (inr refl) k.0 k.1))

  any_tests-Reads :
      (ts : List ReportedTest) (o : List Open)
      → All (PlainTest p) ts
      → (m : Mode) × Reads (write_tests p ts) value_or_end (array ∷ o) m (array ∷ o) × IsEnd m
  unfolding write_tests
  any_tests-Reads [] o h = (value_or_end, ([], refl, done), inl refl)
  any_tests-Reads (t ∷ ts) o h =
      (after, tests-Reads ts t value_or_end o (inl refl) h.0 h.1, inr refl)

  -- The texts of a suite that stand in strings.
  abbrev pub PlainSuite : ReportedSuite → Type 0
  PlainSuite ss = Plain ss.name × All (PlainTest p) ss.tests

  close_tests :
      (m : Mode) (o : List Open)
      → IsEnd m
      → Reading step (after, o) (m, (array ∷ object ∷ o)) (codes "      ]\n    }" ∷ [])
  unfolding step run
  close_tests m o (inl e) = rw e (refl then done)
  close_tests m o (inr e) = rw e (refl then done)

  suite-Reads :
      (ss : ReportedSuite) (m : Mode) (o : List Open)
      → IsStart m
      → PlainSuite ss
      → Reads (write_suite p ss) m (array ∷ o) after (array ∷ o)
  unfolding write_suite step run
  suite-Reads ss m o e h =
      let (m', tests, ends) = any_tests-Reads ss.tests (object ∷ array ∷ o) h.1 in
      Reads-then _ _ (_, refl, begin then run-Plain _ _ h.0 then refl then done)
        (Reads-then _ _ (counts-Reads (codes "      ") ss.counts (array ∷ o) refl) (
          Reads-then _ _ (_, refl, refl then done)
            (Reads-then _ _ tests (_, refl, close_tests m' (array ∷ o) ends))))
    where
      begin :
          run step (m, (array ∷ o)) (codes "    {\n      \"name\": \"")
          ≡ some (in_value, object ∷ array ∷ o)
      begin = elim e [ inl q ↦ rw q refl | inr q ↦ rw q refl ]

  suites-Reads :
      (next : List ReportedSuite) (ss : ReportedSuite) (m : Mode) (o : List Open)
      → IsStart m
      → PlainSuite ss
      → All PlainSuite next
      → Reads (write_suites p (ss ∷ next)) m (array ∷ o) after (array ∷ o)
  unfolding write_suites
  suites-Reads [] ss m o e h k =
      Reads-then _ _ (suite-Reads ss m o e h)
        (Reads-then _ _ (separator-Reads {A = ReportedSuite} [] o) ([], refl, done))
  suites-Reads (u ∷ next) ss m o e h k = Reads-then _ _ (suite-Reads ss m o e h) (
      Reads-then _ _ (separator-Reads (u ∷ next) o)
        (suites-Reads next u value o (inr refl) k.0 k.1))

  any_suites-Reads :
      (suites : List ReportedSuite) (o : List Open)
      → All PlainSuite suites
      → (m : Mode) × Reads (write_suites p suites) value_or_end (array ∷ o) m (array ∷ o) × IsEnd m
  unfolding write_suites
  any_suites-Reads [] o h = (value_or_end, ([], refl, done), inl refl)
  any_suites-Reads (ss ∷ next) o h =
      (after, suites-Reads next ss value_or_end o (inl refl) h.0 h.1, inr refl)

  close_suites :
      (m : Mode)
      → IsEnd m
      → Reading step (after, []) (m, (array ∷ object ∷ [])) (codes "  ]\n}\n" ∷ [])
  unfolding step run
  close_suites m (inl e) = rw e (refl then done)
  close_suites m (inr e) = rw e (refl then done)

  -- A JSON report is written, and a reader of JSON accepts it as one value: the objects, arrays and
  -- strings are closed in order, each key has a value, and commas stand between elements only. The
  -- version, names, files and messages hold no quotation mark, no backslash and no control character,
  -- except for line breaks in the message of an assertion, and no failed assertion has a message
  -- of line breaks only.
  pub json_report-well_formed :
      (run : ReportedRun)
      → Plain p.version
      → All PlainSuite run.suites
      → (texts : List Bytes) × (json_report p run ≡ some texts)
        × (well_formed (concat texts) ≡ true)
  unfolding json_report step run
  json_report-well_formed run v h =
      let (m, suites, ends) = any_suites-Reads run.suites (object ∷ []) h in
      let (texts, e, reads) =
        Reads-then _ _ (_, refl, refl then run-Plain _ _ v then refl then done)
          (Reads-then _ _ (counts-Reads (codes "  ") run.counts [] refl) (
            Reads-then _ _ (_, refl, refl then done)
              (Reads-then _ _ suites (_, refl, close_suites m ends)))) in
      (texts, e, ap is_done (run-concat step reads))
