-- ===== src/Options/Listing.antt =====
-- src/entry/params.c, list_tests and is_disabled: what --list prints, line by line.
use criterion.Common.{ℕ, ◌+◌, ◌-◌, ◌%◌, ◌^◌, Bool, ◌||◌, none, some}
use criterion.Common.{List, [], ◌∷◌, ◌++◌, Bytes, codes, bytes_eq, ◌==◌, if◌then◌else◌}
use criterion.Path.{decimal}
use criterion.Runner.Registry.{Test, Suite, SuiteSet}

-- UTF8_TREE_NODE and the others, as bytes.
pub record Tree : Type 0 where
  pub node : Bytes
  pub join : Bytes
  pub end : Bytes

abbrev pub utf8_tree : Tree
utf8_tree = record {
  node = 0xE2 ∷ 0x94 ∷ 0x9C ∷ [];
  join = 0xE2 ∷ 0x94 ∷ 0x80 ∷ 0xE2 ∷ 0x94 ∷ 0x80 ∷ [];
  end = 0xE2 ∷ 0x94 ∷ 0x94 ∷ [];
}

abbrev pub ascii_tree : Tree
ascii_tree = record { node = codes "|"; join = codes "--"; end = codes "`" }

unfoldable pub is_disabled : Suite → Test → Bool
is_disabled s t = s.disabled || t.disabled

-- The loop over the tests of a suite; `tests` is the counter.
unfoldable pub list_suite : Tree → Suite → ℕ → List Test → List Bytes
unfolding is_disabled
list_suite tree suite tests [] = []
list_suite tree suite tests (t ∷ next) =
    let left = (tests + (2 ^ 64 - 1)) % 2 ^ 64 in
    ((if left == 0 then tree.end else tree.node)
      ++ (tree.join
          ++ (codes " " ++ (t.name ++ (if is_disabled suite t then codes " (skipped)" else [])))))
    ∷ list_suite tree suite left next

-- The loop over the suites.
unfoldable pub list_suites : Tree → List SuiteSet → List Bytes
unfolding list_suite decimal
list_suites tree [] = []
list_suites tree (s ∷ suites) =
    let rest = list_suites tree suites in
    elim s.tests [
      | none ↦ rest
      | some tests ↦
          if tests.size == 0
          then rest
          else (s.suite.name
              ++ (codes ": "
                  ++ (decimal 20 tests.size
                      ++ (codes " test" ++ (if tests.size == 1 then [] else codes "s")))))
            ∷ (list_suite tree s.suite tests.size tests.first ++ rest)
    ]

-- The set is that of criterion_init.
unfoldable pub list_tests : (encoding : Bytes) → List SuiteSet → List Bytes
unfolding list_suites bytes_eq
list_tests encoding suites =
    list_suites (if bytes_eq encoding (codes "UTF-8") then utf8_tree else ascii_tree) suites
