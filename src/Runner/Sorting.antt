-- ===== src/Runner/Sorting.antt =====
-- src/core/runner.c: the registered suites and tests are sorted by name, with no name twice.
use Prim.Native.Nat.{Ordering}
use criterion.Common.{suc, ◌≡◌, refl, sym, ap, subst, ◌∙◌, inl, inr, false}
use criterion.Common.{Option, none, some, List, [], ◌∷◌, Bytes, length, All, arith, if_cases, ◌||◌}
use criterion.OrderedSet.{OrderedSet, new_ordered_set, insert_ordered_set}
use criterion.OrderedSet.Order.{
  IsSorted, IsOrdered, insert_ordered_set-IsOrdered, insert_ordered_set-All, Ordering-cases,
}
use criterion.Runner.Registry.{strcmp, Test, Suite, SuiteSet, TestSet, cmp_test, cmp_suite}
use criterion.Runner.Registry.{write_suite, or_new, criterion_register_test, init_suites}
use criterion.Runner.Registry.{add_suite, add_test, init_tests, criterion_init, is_null}

strcmp-eq : (s t : Bytes) → strcmp s t ≡ Ordering.eq → s ≡ t
unfolding strcmp
strcmp-eq [] [] h = refl
strcmp-eq [] (b ∷ t) h = ground arith
strcmp-eq (a ∷ s) [] h = ground arith
strcmp-eq (a ∷ s) (b ∷ t) h = ground (arith, strcmp-eq s t)

abbrev TestsOrdered : Option (OrderedSet Test) → Type 0
TestsOrdered none = Unit
TestsOrdered (some tests) = IsOrdered tests

abbrev Each : List SuiteSet → Type 0
Each = All (λ s. TestsOrdered s.tests)

-- The suites are sorted by name, and so are the tests of each; the sizes are right.
pub record AllOrdered (suites : OrderedSet SuiteSet) : Type 0 where
  pub by_name : IsOrdered suites
  pub each : Each suites.first

write_suite_cases :
    (P : List SuiteSet → Type 0) (s n : SuiteSet) (next : List SuiteSet)
    → (strcmp s.suite.name n.suite.name ≡ Ordering.eq → P (s ∷ next))
    → P (n ∷ write_suite s next)
    → P (write_suite s (n ∷ next))
unfolding write_suite
write_suite_cases P s n next f g = elim (Ordering-cases (strcmp s.suite.name n.suite.name)) [
  | inl e ↦ rw (e, write_suite) g
  | inr (inl e) ↦ rw (e, write_suite) (f e)
  | inr (inr e) ↦ rw (e, write_suite) g
]

write_suite-length : (s : SuiteSet) (xs : List SuiteSet) → length (write_suite s xs) ≡ length xs
unfolding write_suite
write_suite-length s [] = refl
write_suite-length s (n ∷ next) =
    write_suite_cases (λ xs. length xs ≡ length (n ∷ next)) s n next (λ _. refl)
      (ap suc (write_suite-length s next))

write_suite-Each :
    (s : SuiteSet) (xs : List SuiteSet) → TestsOrdered s.tests → Each xs → Each (write_suite s xs)
unfolding write_suite
write_suite-Each s [] h v = tt
write_suite-Each s (n ∷ next) h v =
    write_suite_cases Each s n next (λ _. (h, v.1)) (v.0, write_suite-Each s next h v.1)

abbrev Named : (Bytes → Type 0) → List SuiteSet → Type 0
Named P = All (λ n. P n.suite.name)

-- The names do not change.
write_suite-Named :
    (s : SuiteSet) (P : Bytes → Type 0) (xs : List SuiteSet)
    → Named P xs
    → Named P (write_suite s xs)
unfolding write_suite
write_suite-Named s P [] v = tt
write_suite-Named s P (n ∷ next) v =
    write_suite_cases (Named P) s n next
      (λ e. (subst P (sym (strcmp-eq s.suite.name n.suite.name e)) v.0, v.1))
      (v.0, write_suite-Named s P next v.1)

Before : Bytes → Bytes → Type 0
Before a b = strcmp a b ≡ Ordering.lt

write_suite-IsSorted :
    (s : SuiteSet) (xs : List SuiteSet) → IsSorted xs → IsSorted (write_suite s xs)
unfolding write_suite Before
write_suite-IsSorted s [] v = tt
write_suite-IsSorted s (n ∷ next) v =
    write_suite_cases IsSorted s n next
      (λ e.
        (subst (λ a. Named (Before a) next) (sym (strcmp-eq s.suite.name n.suite.name e)) v.0, v.1))
      (write_suite-Named s (Before n.suite.name) next v.0, write_suite-IsSorted s next v.1)

or_new-IsOrdered : (o : Option (OrderedSet Test)) → TestsOrdered o → IsOrdered (or_new o)
unfolding new_ordered_set
or_new-IsOrdered none h = record { sorted = tt; counted = refl }
or_new-IsOrdered (some tests) h = h

criterion_register_test-AllOrdered :
    (set : TestSet) (test : Test)
    → AllOrdered set.suites
    → AllOrdered (criterion_register_test set test).suites
unfolding criterion_register_test
criterion_register_test-AllOrdered set test v =
    let css : SuiteSet = record {
      suite = record { name = test.category; disabled = false };
      tests = none;
    } in
    let suites = (insert_ordered_set set.suites css).0 in
    let s = (insert_ordered_set set.suites css).1 in
    let kept =
      insert_ordered_set-All (λ (x : SuiteSet). TestsOrdered x.tests) set.suites css tt v.each in
    let ordered = insert_ordered_set-IsOrdered set.suites css v.by_name in
    let tests =
      insert_ordered_set-IsOrdered (or_new s.tests) test (or_new-IsOrdered s.tests kept.1) in
    let s' : SuiteSet = record s { tests = some (insert_ordered_set (or_new s.tests) test).0 } in
    record {
      by_name = record {
        sorted = write_suite-IsSorted s' suites.first ordered.sorted;
        counted = ordered.counted ∙ sym (write_suite-length s' suites.first);
      };
      each = write_suite-Each s' suites.first tests kept.0;
    }

add_suite-AllOrdered :
    (suites : OrderedSet SuiteSet) (s : Suite) → AllOrdered suites → AllOrdered (add_suite suites s)
unfolding add_suite
add_suite-AllOrdered suites s v =
    let css : SuiteSet = record { suite = s; tests = none } in
    if_cases AllOrdered (is_null s.name) (λ _. v)
      λ _. record {
        by_name = insert_ordered_set-IsOrdered suites css v.by_name;
        each =
            (insert_ordered_set-All (λ (x : SuiteSet). TestsOrdered x.tests) suites css tt
              v.each).0;
      }

init_suites-AllOrdered :
    (suites : OrderedSet SuiteSet) (section : List (Option Suite))
    → AllOrdered suites
    → AllOrdered (init_suites suites section)
unfolding init_suites
init_suites-AllOrdered suites [] v = v
init_suites-AllOrdered suites (none ∷ section) v = init_suites-AllOrdered suites section v
init_suites-AllOrdered suites (some s ∷ section) v =
    init_suites-AllOrdered (add_suite suites s) section (add_suite-AllOrdered suites s v)

init_tests-AllOrdered :
    (set : TestSet) (section : List (Option Test))
    → AllOrdered set.suites
    → AllOrdered (init_tests set section).suites
unfolding init_tests add_test
init_tests-AllOrdered set [] v = v
init_tests-AllOrdered set (none ∷ section) v = init_tests-AllOrdered set section v
init_tests-AllOrdered set (some test ∷ section) v =
    init_tests-AllOrdered (add_test set test) section (
      if_cases (λ (t : TestSet). AllOrdered t.suites) (is_null test.category || is_null test.name)
        (λ _. v) (λ _. criterion_register_test-AllOrdered set test v))

-- Whatever suites and tests the sections hold, in whatever order, the initial set has its suites
-- sorted by name, no name twice, and so has each suite its tests; the sizes count them.
pub criterion_init-AllOrdered :
    (suites : List (Option Suite)) (tests : List (Option Test))
    → AllOrdered (criterion_init suites tests).suites
unfolding criterion_init
criterion_init-AllOrdered suites tests =
    init_tests-AllOrdered _ tests (init_suites-AllOrdered new_ordered_set suites empty)
  where
    empty : AllOrdered new_ordered_set
    empty =
        unfold new_ordered_set in
        record { by_name = record { sorted = tt; counted = refl }; each = tt }
