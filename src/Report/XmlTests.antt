-- ===== src/Report/XmlTests.antt =====
-- src/io/xml.c: the element of each test is closed.
use criterion.Common.{ℕ, ◌≡◌, refl, arith, Bool-cases, inl, inr, Option-cases}
use criterion.Common.{some, List, [], ◌∷◌, Bytes, All, length, if◌then◌else◌}
use criterion.Options.Tokens.{strtok_r, tokens}
use criterion.Path.{decimal}
use criterion.Stats.{AssertStats}
use criterion.Report.Statistics.{Printing, file_name}
use criterion.Report.Xml.{lf, further_lines, lines_of, failure_lines, failures}
use criterion.Report.PlainLines.{
  PlainLines, found-Plain, tokens-Plain, file_name-Plain, Plain-decimal,
}
use criterion.Report.Scanning.{run, Reading, done, ◌then◌, ◌thence◌}
use criterion.Report.XmlReader.{
  content, quoted, State, step, is_plain, Plain, run-quoted, run-content,
}

-- The texts bring the reader from one state to another.
abbrev pub Reads : State → List Bytes → State → Type 0
Reads s texts s' = Reading step s' s texts

pub quoted_decimal :
    (open_ : List Bytes) (digits n : ℕ)
    → run step (quoted, open_) (decimal digits n) ≡ some (quoted, open_)
quoted_decimal open_ digits n =
    run-quoted open_ (decimal digits n) (Plain-decimal is_plain (λ n. ground arith) digits n)

-- The texts inside an element leave the reader inside it.
abbrev Stays : List Bytes → List Bytes → Type 0
Stays open_ texts = Reads (content, open_) texts (content, open_)

module _ (name : Bytes) (outer : List Bytes) where
  lf-Stays : (texts : List Bytes) → Stays (name ∷ outer) texts → Stays (name ∷ outer) (lf ∷ texts)
  unfolding step run
  lf-Stays texts h = refl then h

  further_lines-Stays : (ls : List Bytes) → All Plain ls → Stays (name ∷ outer) (further_lines ls)
  unfolding step run
  further_lines-Stays [] h = done
  further_lines-Stays (l ∷ ls) h =
      refl then run-content name outer l h.0 then refl then further_lines-Stays ls h.1

  lines_of-Stays :
      (message : Bytes)
      → PlainLines is_plain message
      → Stays (name ∷ outer) (lines_of (strtok_r 10 message))
  unfolding step run
  lines_of-Stays message h = elim (Option-cases (strtok_r 10 message)) [
    | inl e ↦ rw e (refl then refl then done)
    | inr ((t, rest), e) ↦
        let found = found-Plain is_plain message t rest h e in
        rw e (
          run-content name outer t found.0
          then refl
          then further_lines-Stays (tokens 10 (length rest) rest)
              (tokens-Plain is_plain (length rest) rest found.1))
  ]

-- The texts of a failed assertion, without a byte that wants to be escaped.
abbrev pub PlainAssert : AssertStats → Type 0
PlainAssert asrt = Plain asrt.file × PlainLines is_plain asrt.message

module _ (o : Printing) (name : Bytes) (outer : List Bytes) where
  failure_lines-Stays :
      (asrt : AssertStats) → PlainAssert asrt → Stays (name ∷ outer) (failure_lines o asrt)
  unfolding failure_lines step run
  failure_lines-Stays asrt h =
      run-content name outer (file_name o asrt.file) (file_name-Plain is_plain o asrt.file h.0)
      then refl
      then run-content name outer (decimal 10 asrt.line)
          (Plain-decimal is_plain (λ n. ground arith) 10 asrt.line)
      then refl
      then lines_of-Stays name outer asrt.message h.1

  pub failures-Stays :
      (asserts : List AssertStats)
      → All PlainAssert asserts
      → Stays (name ∷ outer) (failures o asserts)
  unfolding failures
  failures-Stays [] h = done
  failures-Stays (asrt ∷ next) h = elim (Bool-cases asrt.passed) [
    | inl e ↦ rw e (failures-Stays next h.1)
    | inr e ↦ rw e (failure_lines-Stays asrt h.0 thence failures-Stays next h.1)
  ]
