-- ===== src/Runner/Filter.antt =====
-- src/core/runner.c, disable_unmatching: which tests stay enabled.
use criterion.Common.{◌≡◌, ◌↔◌, Bool, true, false}
use criterion.Common.{Option, none, some, List, [], ◌∷◌, All}
use criterion.Glob.{Glob}
use criterion.Glob.Language.{Language}
use criterion.Glob.Matching.{NoAsterisk}
use criterion.Pattern.Syntax.{Pattern}
use criterion.Pattern.Documented.{Documented}
use criterion.OrderedSet.{OrderedSet}
use criterion.Runner.Registry.{Test, SuiteSet}

-- Two lists of one length, related element by element.
abbrev pub Pairwise : {A : Type 0} → (A → A → Type 0) → List A → List A → Type 0
Pairwise R [] [] = Unit
Pairwise R [] (y ∷ ys) = ⊥
Pairwise R (x ∷ xs) [] = ⊥
Pairwise R (x ∷ xs) (y ∷ ys) = R x y × Pairwise R xs ys

-- A test keeps all but its mark, and is enabled when it was and its identifier is in the language.
abbrev pub TestFiltered : Language → Test → Test → Type 0
TestFiltered L test test' =
    (test' ≡ record test { disabled = test'.disabled })
    × ((test'.disabled ≡ false) ↔ ((test.disabled ≡ false) × L test.identifier_))

abbrev pub TestsFiltered :
    Language → Bool → Option (OrderedSet Test) → Option (OrderedSet Test) → Type 0
TestsFiltered L true tests tests' = tests' ≡ tests
TestsFiltered L false none tests' = tests' ≡ none
TestsFiltered L false (some tests) none = ⊥
TestsFiltered L false (some tests) (some tests') =
    (tests'.size ≡ tests.size) × Pairwise (TestFiltered L) tests.first tests'.first

-- A disabled suite is left as it is.
abbrev pub SuiteFiltered : Language → SuiteSet → SuiteSet → Type 0
SuiteFiltered L s s' = (s'.suite ≡ s.suite) × TestsFiltered L s.suite.disabled s.tests s'.tests

-- No test of a suite has an asterisk in its identifier.
abbrev pub TestsNoAsterisk : Option (OrderedSet Test) → Type 0
TestsNoAsterisk none = Unit
TestsNoAsterisk (some tests) = All (λ (test : Test). NoAsterisk test.identifier_) tests.first
