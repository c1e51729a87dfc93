-- ===== src/Runner/Registry.antt =====
-- src/core/runner.c: criterion_init, criterion_register_test and disable_unmatching.
-- The registered objects, which the linker's sections hold, are lists, with a null entry as
-- `none`. A suite set points to its tests, if it has any.
use Prim.Native.Nat.{Ordering, compare}
use criterion.Common.{ℕ, ◌+◌, ◌≡◌, refl, Bool, true, false, ◌||◌, Option, none, some}
use criterion.Common.{List, [], ◌∷◌, Bytes, if◌then◌else◌, arith, map}
use criterion.Glob.{Glob, matches}
use criterion.Pattern.{Outcome, ok, rejected, fault, compile_pattern}
use criterion.OrderedSet.{Compare, OrderedSet, new_ordered_set, insert_ordered_set}

-- `strcmp`, by its sign.
unfoldable pub strcmp : Bytes → Bytes → Ordering
strcmp [] [] = Ordering.eq
strcmp [] (b ∷ t) = Ordering.lt
strcmp (a ∷ s) [] = Ordering.gt
strcmp (a ∷ s) (b ∷ t) = elim (compare a b) [
  | Ordering.lt ↦ Ordering.lt
  | Ordering.gt ↦ Ordering.gt
  | Ordering.eq ↦ strcmp s t
]

pub strcmp_refl : (s : Bytes) → strcmp s s ≡ Ordering.eq
unfolding strcmp
strcmp_refl [] = refl
strcmp_refl (a ∷ s) = ground (arith, strcmp_refl s)

pub strcmp_flip : (s t : Bytes) → strcmp s t ≡ Ordering.gt → strcmp t s ≡ Ordering.lt
unfolding strcmp
strcmp_flip [] [] h = ground arith
strcmp_flip [] (b ∷ t) h = ground arith
strcmp_flip (a ∷ s) [] h = refl
strcmp_flip (a ∷ s) (b ∷ t) h = ground (arith, strcmp_flip s t)

pub strcmp_trans :
    (s t u : Bytes) → strcmp s t ≡ Ordering.lt → strcmp t u ≡ Ordering.lt → strcmp s u ≡ Ordering.lt
unfolding strcmp
strcmp_trans [] [] u h k = ground arith
strcmp_trans [] (b ∷ t) [] h k = ground arith
strcmp_trans [] (b ∷ t) (d ∷ u) h k = refl
strcmp_trans (a ∷ s) [] u h k = ground arith
strcmp_trans (a ∷ s) (b ∷ t) [] h k = ground arith
strcmp_trans (a ∷ s) (b ∷ t) (d ∷ u) h k = ground (arith, strcmp_trans s t u)

-- struct criterion_test with its extra data. `param_` is the number of parameters that the
-- generator of a parameterized test returns.
pub record Test : Type 0 where
  pub name : Bytes
  pub category : Bytes
  pub identifier_ : Bytes
  pub file_ : Bytes
  pub line_ : ℕ
  pub signal : ℕ
  pub exit_code : ℕ
  pub param_ : Option ℕ
  pub disabled : Bool

pub record Suite : Type 0 where
  pub name : Bytes
  pub disabled : Bool

pub record SuiteSet : Type 0 where
  pub suite : Suite
  pub tests : Option (OrderedSet Test)

-- cmp_test and cmp_suite.
instance abbrev pub cmp_test : Compare Test
cmp_test = record {
  cmp = λ a b. strcmp a.name b.name;
  cmp_refl = λ a. strcmp_refl a.name;
  cmp_flip = λ a b. strcmp_flip a.name b.name;
  cmp_trans = λ a b d. strcmp_trans a.name b.name d.name;
}

instance abbrev pub cmp_suite : Compare SuiteSet
cmp_suite = record {
  cmp = λ a b. strcmp a.suite.name b.suite.name;
  cmp_refl = λ a. strcmp_refl a.suite.name;
  cmp_flip = λ a b. strcmp_flip a.suite.name b.suite.name;
  cmp_trans = λ a b d. strcmp_trans a.suite.name b.suite.name d.suite.name;
}

pub record TestSet : Type 0 where
  pub suites : OrderedSet SuiteSet
  pub tests : ℕ

-- A write through the pointer to the suite set of a name.
unfoldable pub write_suite : SuiteSet → List SuiteSet → List SuiteSet
unfolding strcmp
write_suite s [] = []
write_suite s (n ∷ next) = elim (strcmp s.suite.name n.suite.name) [
  | Ordering.eq ↦ s ∷ next
  | _ ↦ n ∷ write_suite s next
]

abbrev pub or_new : Option (OrderedSet Test) → OrderedSet Test
or_new none = new_ordered_set
or_new (some tests) = tests

unfoldable pub criterion_register_test : TestSet → Test → TestSet
unfolding insert_ordered_set write_suite new_ordered_set
criterion_register_test set test =
    let css : SuiteSet = record {
      suite = record { name = test.category; disabled = false };
      tests = none;
    } in
    let (suites, s) = insert_ordered_set set.suites css in
    let (tests, found) = insert_ordered_set (or_new s.tests) test in
    record {
      suites = record suites { first = write_suite (record s { tests = some tests }) suites.first };
      tests = set.tests + 1;
    }

abbrev pub is_null : Bytes → Bool
is_null [] = true
is_null (_ ∷ _) = false

-- The bodies of the two loops of criterion_init, for an entry that is not null.
unfoldable pub add_suite : OrderedSet SuiteSet → Suite → OrderedSet SuiteSet
unfolding insert_ordered_set
add_suite suites s =
    if is_null s.name
    then suites
    else (insert_ordered_set suites (record { suite = s; tests = none })).0

unfoldable pub add_test : TestSet → Test → TestSet
unfolding criterion_register_test
add_test set test =
    if is_null test.category || is_null test.name then set else criterion_register_test set test

-- The two loops over the sections.
unfoldable pub init_suites : OrderedSet SuiteSet → List (Option Suite) → OrderedSet SuiteSet
unfolding add_suite
init_suites suites [] = suites
init_suites suites (none ∷ section) = init_suites suites section
init_suites suites (some s ∷ section) = init_suites (add_suite suites s) section

unfoldable pub init_tests : TestSet → List (Option Test) → TestSet
unfolding add_test
init_tests set [] = set
init_tests set (none ∷ section) = init_tests set section
init_tests set (some test ∷ section) = init_tests (add_test set test) section

unfoldable pub criterion_init : List (Option Suite) → List (Option Test) → TestSet
unfolding init_suites init_tests
criterion_init suites tests =
    init_tests (record { suites = init_suites new_ordered_set suites; tests = 0 }) tests

-- The body of the two loops of disable_unmatching.
unfoldable pub disable_test : Glob → Test → Test
unfolding matches
disable_test g test = if matches g test.identifier_ then test else record test { disabled = true }

unfoldable pub disable_tests : Glob → Suite → Option (OrderedSet Test) → Option (OrderedSet Test)
unfolding disable_test
disable_tests g suite none = none
disable_tests g suite (some tests) =
    if suite.disabled
    then some tests
    else some (record tests { first = map (disable_test g) tests.first })

-- `exit(3)`, when there is no glob, is `ok none`.
unfoldable pub disable_unmatching : Bytes → List SuiteSet → Outcome (Option (List SuiteSet))
unfolding disable_tests compile_pattern
disable_unmatching pattern suites = elim (compile_pattern pattern) [
  | ok none ↦ ok none
  | ok (some g) ↦
      ok
        (some (map (λ (s : SuiteSet). record s { tests = disable_tests g s.suite s.tests }) suites))
  | rejected e ↦ rejected e
  | fault e ↦ fault e
]
