-- ===== src/Report/JsonTests.antt =====
-- src/io/json.c: each test of the report is a JSON value.
use criterion.Common.{◌⊎◌}
use criterion.Common.{◌+◌, ◌≡◌, refl, arith, Bool, true, false, Bool-cases, inl, inr}
use criterion.Common.{some, List, [], ◌∷◌, ◌++◌, Bytes, codes, All, length, if◌then◌else◌}
use criterion.Options.Tokens.{tokens}
use criterion.Path.{decimal}
use criterion.Stats.{AssertStats, Counts, u32}
use criterion.Report.Statistics.{ReportedTest, Printing, file_name, shown}
use criterion.Report.Tap.{is_failed, is_skipped}
use criterion.Report.Reading.{HasText, strtok_r-HasText}
use criterion.Report.Json.{
  Pieces, ◌then_write◌, get_status_string, message_lines, write_assert, write_asserts, size_of_int,
}
use criterion.Report.Json.{write_messages, write_test, write_counts}
use criterion.Report.PlainLines.{
  PlainLines, found-Plain, tokens-Plain, file_name-Plain, Plain-decimal,
}
use criterion.Report.Scanning.{run, Reading, done, ◌then◌, ◌thence◌}
use criterion.Report.JsonReader.{Mode, value, value_or_end, key, after, in_value}
use criterion.Report.JsonReader.{Open, object, array, step, is_plain, Plain}
use criterion.Report.JsonReader.{run-Plain, run-decimal}

-- Pieces that are written, and bring the reader from one state to another.
abbrev pub Reads : Pieces → Mode → List Open → Mode → List Open → Type 0
Reads p m o m' o' = (texts : List Bytes) × (p ≡ some texts) × Reading step (m', o') (m, o) texts

pub Reads-then :
    (p q : Pieces) {m m' m'' : Mode} {o o' o'' : List Open}
    → Reads p m o m' o'
    → Reads q m' o' m'' o''
    → Reads (p then_write q) m o m'' o''
Reads-then p q (xs, e, h) (ys, f, k) = (xs ++ ys, rw (e, f) refl, h thence k)

pub counts-Reads :
    (margin : Bytes) (c : Counts) (o : List Open)
    → run step (key, (object ∷ o)) margin ≡ some (key, object ∷ o)
    → Reads (write_counts margin c) key (object ∷ o) key (object ∷ o)
unfolding write_counts step run
counts-Reads margin c o h = (
  _,
  refl,
  h
      then refl
      then run-decimal _ 19 c.tests_passed
      then refl
      then h
      then refl
      then run-decimal _ 19 c.tests_failed
      then refl
      then h
      then refl
      then run-decimal _ 19 c.tests_crashed
      then refl
      then h
      then refl
      then run-decimal _ 19 c.tests_skipped
      then refl
      then done,
)

lines-Reads :
    (ls : List Bytes) (o : List Open)
    → All Plain ls
    → Reading step (after, (array ∷ o)) (after, (array ∷ o)) (message_lines ls)
unfolding step run
lines-Reads [] o h = done
lines-Reads (l ∷ ls) o h = refl then run-Plain _ l h.0 then refl then lines-Reads ls o h.1

-- The mode in which the assertions are written: nothing stands before the first one.
abbrev before : Bool → Mode
before true = value_or_end
before false = after

-- What an assertion is to hold if it has failed.
abbrev pub PlainAssert : AssertStats → Type 0
PlainAssert a =
    Plain a.file
    × PlainLines is_plain a.message
    × (if a.passed then Unit {0} else HasText a.message)

module _ (p : Printing) where
  assert_tail :
      (a : AssertStats) (t rest : Bytes) (o : List Open)
      → Plain a.file
      → Plain t
      → PlainLines is_plain rest
      → Reading step
          (after, (array ∷ o))
          (in_value, (array ∷ o))
          (file_name p a.file
            ∷ codes ":"
            ∷ decimal 10 a.line
            ∷ codes ": "
            ∷ t
            ∷ codes "\""
            ∷ message_lines (tokens 10 (length rest) rest))
  unfolding step run
  assert_tail a t rest o f h k =
      run-Plain _ (file_name p a.file) (file_name-Plain is_plain p a.file f)
      then refl
      then run-Plain _ (decimal 10 a.line) (Plain-decimal is_plain (λ n. ground arith) 10 a.line)
      then refl
      then run-Plain _ t h
      then refl
      then lines-Reads (tokens 10 (length rest) rest) o (tokens-Plain is_plain (length rest) rest k)

  assert-Reads :
      (first : Bool) (a : AssertStats) (o : List Open)
      → Plain a.file
      → PlainLines is_plain a.message
      → HasText a.message
      → Reads (write_assert p first a) (before first) (array ∷ o) after (array ∷ o)
  unfolding write_assert step run
  assert-Reads true a o f m h =
      let (t, rest, e, l) = strtok_r-HasText a.message h in
      let found = found-Plain is_plain a.message t rest m e in
      rw (e, write_assert) (_, refl, refl then refl then assert_tail a t rest o f found.0 found.1)
  assert-Reads false a o f m h =
      let (t, rest, e, l) = strtok_r-HasText a.message h in
      let found = found-Plain is_plain a.message t rest m e in
      rw (e, write_assert) (_, refl, refl then refl then assert_tail a t rest o f found.0 found.1)

  -- Whether the assertions leave the array without an element.
  asserts-Reads :
      (first : Bool) (next : List AssertStats) (o : List Open)
      → All PlainAssert next
      → (m : Mode) × Reads (write_asserts p first next) (before first) (array ∷ o) m (array ∷ o)
        × ((m ≡ value_or_end) ⊎ (m ≡ after))
  unfolding write_asserts
  asserts-Reads true [] o h = (value_or_end, ([], refl, done), inl refl)
  asserts-Reads false [] o h = (after, ([], refl, done), inr refl)
  asserts-Reads first (a ∷ next) o h = elim (Bool-cases a.passed) [
    | inl e ↦ simp (e) (asserts-Reads first next o h.1)
    | inr e ↦
        let (m, rest, ends) = asserts-Reads false next o h.1 in
        let own = assert-Reads first a o h.0.0 h.0.1 (rw e at (h.0.2)) in
        simp (e)
          (m, Reads-then (write_assert p first a) (write_asserts p false next) own rest, ends)
  ]

  -- The texts of a test that stand in strings.
  pub record PlainTest (t : ReportedTest) : Type 0 where
    pub name : Plain t.stats.test.name
    pub message : Plain (shown t.stats.message (codes "The test was skipped."))
    pub asserts : All PlainAssert t.stats.asserts

  close_messages :
      (m : Mode) (o : List Open)
      → (m ≡ value_or_end) ⊎ (m ≡ after)
      → Reading step (after, o) (m, (array ∷ o)) (codes "\n          ]" ∷ [])
  unfolding step run
  close_messages m o (inl e) = rw e (refl then done)
  close_messages m o (inr e) = rw e (refl then done)

  messages-Reads :
      (t : ReportedTest) (o : List Open)
      → PlainTest t
      → Reads (write_messages p t) after (object ∷ o) after (object ∷ o)
  unfolding write_messages step run
  messages-Reads t o h = elim (Bool-cases (is_skipped t.stats.test_status)) [
    | inl e ↦ simp (e) (_, refl, refl then run-Plain _ _ h.message then refl then done)
    | inr e ↦ elim (Bool-cases t.stats.crashed) [
      | inl f ↦ simp (e, f) (_, refl, refl then done)
      | inr f ↦ elim (Bool-cases t.stats.timed_out) [
        | inl g ↦ simp (e, f, g) (_, refl, refl then done)
        | inr g ↦ elim (Bool-cases (is_failed t.stats.test_status)) [
          | inl k ↦
              let (m, asserts, ends) = asserts-Reads true t.stats.asserts (object ∷ o) h.asserts in
              simp (e, f, g, k)
                (Reads-then _ _ (_, refl, refl then done)
                  (Reads-then _ _ asserts (_, refl, close_messages m (object ∷ o) ends)))
          | inr k ↦ simp (e, f, g, k) ([], refl, done)
        ]
      ]
    ]
  ]

  status-Plain : (t : ReportedTest) → Plain (get_status_string t)
  unfolding get_status_string
  status-Plain t = ground arith

  pub test-Reads :
      (t : ReportedTest) (m : Mode) (o : List Open)
      → (m ≡ value_or_end) ⊎ (m ≡ value)
      → PlainTest t
      → Reads (write_test p t) m (array ∷ o) after (array ∷ o)
  unfolding write_test step run
  test-Reads t m o e h =
      Reads-then _ _
        (
          _,
          refl,
          begin
              then run-Plain _ _ h.name
              then refl
              then run-decimal (object ∷ array ∷ o) 19
                  (size_of_int (u32 (t.stats.passed_asserts + t.stats.failed_asserts)))
              then refl
              then run-Plain _ _ (status-Plain t)
              then refl
              then done,
        )
        (Reads-then (write_messages p t) _ (messages-Reads t (array ∷ o) h)
          (_, refl, refl then done))
    where
      begin :
          run step (m, (array ∷ o)) (codes "        {\n          \"name\": \"")
          ≡ some (in_value, object ∷ array ∷ o)
      begin = elim e [ inl q ↦ rw q refl | inr q ↦ rw q refl ]
