-- ===== src/Report/Tests.antt =====
-- src/io/tap.c: what a reader of the report learns of each test.
use criterion.Common.{refl, arith, Bool, true, false, not, ◌||◌, Bool-cases, inl, inr}
use criterion.Common.{some, List, [], ◌∷◌, Bytes, codes, All, length, if◌then◌else◌}
use criterion.Options.Tokens.{tokens}
use criterion.Stats.{AssertStats}
use criterion.Report.Statistics.{ReportedTest, Printing, line, file_name, shown}
use criterion.Report.Tap.{print, indented, is_failed, is_skipped}
use criterion.Report.Tap.{print_assert, print_asserts, print_test_normal, print_test_crashed}
use criterion.Report.Tap.{print_test_timeout, print_test_skipped, print_test}
use criterion.Report.Reading.{OneLine, OneLine-decimal, OneLine-basename_compat}
use criterion.Report.Reading.{Says, Says-append, Says-line, Prints, Prints-then, Prints-line}
use criterion.Report.Reading.{HasText, strtok_r-HasText, tokens-OneLine}

-- No text that is printed unsplit has a line break in it, and the message of a failed assertion is not
-- empty.
abbrev pub CleanAssert : AssertStats → Type 0
CleanAssert a = OneLine a.file × (if a.passed then Unit {0} else HasText a.message)

pub record CleanTest (o : Printing) (t : ReportedTest) : Type 0 where
  pub category : OneLine t.category
  pub name : OneLine t.stats.test.name
  pub description : OneLine (shown t.description [])
  pub message : OneLine (shown t.stats.message (codes "test was skipped"))
  pub elapsed : OneLine (o.seconds t.stats.elapsed_time)
  pub file : OneLine t.stats.file
  pub asserts : All CleanAssert t.stats.asserts

-- Whether the report is to say that a test has passed: it was skipped, or it has neither crashed nor timed
-- out and is not failed.
abbrev pub is_ok : ReportedTest → Bool
is_ok t =
    is_skipped t.stats.test_status
    || not (t.stats.crashed || (t.stats.timed_out || is_failed t.stats.test_status))

OneLine-file_name : (o : Printing) (file : Bytes) → OneLine file → OneLine (file_name o file)
OneLine-file_name o file h = elim (Bool-cases o.short_filename) [
  | inl e ↦ rw e (OneLine-basename_compat file h)
  | inr e ↦ rw e h
]

indented-Says : (ls : List Bytes) → All OneLine ls → Says (indented ls) []
indented-Says [] h = λ rest. refl
indented-Says (l ∷ ls) h =
    Says-append (line (codes "    " ∷ l ∷ []) ∷ []) (indented ls) [] []
      (Says-line (codes "    " ∷ l ∷ []) (ground arith, (h.0, tt))) (indented-Says ls h.1)

module _ (o : Printing) where
  print_assert-Prints :
      (a : AssertStats) → OneLine a.file → HasText a.message → Prints (print_assert o a) []
  unfolding print_assert
  print_assert-Prints a f h =
      let (first, rest, e, l) = strtok_r-HasText a.message h in
      rw (e, print_assert)
        (Prints-then (print _) (some (indented (tokens 10 (length rest) rest))) [] []
          (Prints-line _ (
            ground arith,
            (
              OneLine-file_name o a.file f,
              (ground arith, (OneLine-decimal 10 a.line, (ground arith, (l, tt)))),
            ),
          ))
          (_, refl, indented-Says _ (tokens-OneLine (length rest) rest)))

  print_asserts-Prints :
      (next : List AssertStats) → All CleanAssert next → Prints (print_asserts o next) []
  unfolding print_asserts
  print_asserts-Prints [] h = ([], refl, λ rest. refl)
  print_asserts-Prints (a ∷ next) h = elim (Bool-cases a.passed) [
    | inl e ↦ rw (e, print_asserts) (print_asserts-Prints next h.1)
    | inr e ↦ simp (e) (
        Prints-then (print_assert o a) (print_asserts o next) [] []
          (print_assert-Prints a h.0.0 (rw e at (h.0.1))) (print_asserts-Prints next h.1))
  ]

  -- The line of a test without what it begins with.
  abbrev normal_pieces : ReportedTest → List Bytes
  normal_pieces t =
      codes " - "
      ∷ t.category
      ∷ codes "::"
      ∷ t.stats.test.name
      ∷ codes " "
      ∷ shown t.description []
      ∷ codes " ("
      ∷ o.seconds t.stats.elapsed_time
      ∷ codes "s)"
      ∷ []

  print_test_normal-Prints :
      (t : ReportedTest)
      → CleanTest o t
      → Prints (print_test_normal o t) (not (is_failed t.stats.test_status) ∷ [])
  unfolding print_test_normal
  print_test_normal-Prints t h =
      let asserts = print_asserts-Prints t.stats.asserts h.asserts in
      let behind : All OneLine (normal_pieces t) = (
        ground arith,
        (
          h.category,
          (
            ground arith,
            (
              h.name,
              (ground arith, (h.description, (ground arith, (h.elapsed, (ground arith, tt))))),
            ),
          ),
        ),
      ) in
      elim (Bool-cases (is_failed t.stats.test_status)) [
        | inl e ↦
            rw (e, print_test_normal)
              (Prints-then (print (codes "not ok" ∷ normal_pieces t))
                (print_asserts o t.stats.asserts) (false ∷ []) []
                (Prints-line (codes "not ok" ∷ normal_pieces t) (ground arith, behind)) asserts)
        | inr e ↦
            rw (e, print_test_normal)
              (Prints-then (print (codes "ok" ∷ normal_pieces t)) (print_asserts o t.stats.asserts)
                (true ∷ []) [] (Prints-line (codes "ok" ∷ normal_pieces t) (ground arith, behind))
                asserts)
      ]

  print_test_crashed-Prints :
      (t : ReportedTest) → CleanTest o t → Prints (print_test_crashed o t) (false ∷ [])
  unfolding print_test_crashed
  print_test_crashed-Prints t h = Prints-line _ (
    ground arith,
    (
      h.category,
      (
        ground arith,
        (
          h.name,
          (
            ground arith,
            (
              OneLine-file_name o t.stats.file h.file,
              (ground arith, (OneLine-decimal 10 t.stats.progress, tt)),
            ),
          ),
        ),
      ),
    ),
  )

  print_test_timeout-Prints :
      (t : ReportedTest) → CleanTest o t → Prints (print_test_timeout o t) (false ∷ [])
  unfolding print_test_timeout
  print_test_timeout-Prints t h = Prints-line _ (
    ground arith,
    (h.category, (ground arith, (h.name, (ground arith, (h.elapsed, (ground arith, tt)))))),
  )

  print_test_skipped-Prints :
      (t : ReportedTest) → CleanTest o t → Prints (print_test_skipped t) (true ∷ [])
  unfolding print_test_skipped
  print_test_skipped-Prints t h = Prints-line _ (
    ground arith,
    (
      h.category,
      (ground arith, (h.name, (ground arith, (h.description, (ground arith, (h.message, tt)))))),
    ),
  )

  pub print_test-Prints :
      (t : ReportedTest) → CleanTest o t → Prints (print_test o t) (is_ok t ∷ [])
  unfolding print_test
  print_test-Prints t h = elim (Bool-cases (is_skipped t.stats.test_status)) [
    | inl e ↦ simp (e) (print_test_skipped-Prints t h)
    | inr e ↦ elim (Bool-cases t.stats.crashed) [
      | inl f ↦ simp (e, f) (print_test_crashed-Prints t h)
      | inr f ↦ elim (Bool-cases t.stats.timed_out) [
        | inl g ↦ simp (e, f, g) (print_test_timeout-Prints t h)
        | inr g ↦ simp (e, f, g) (print_test_normal-Prints t h)
      ]
    ]
  ]
