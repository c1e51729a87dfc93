-- ===== src/Report/Statistics.antt =====
-- What the reports read of include/criterion/stats.h, and what they are given besides.
use criterion.Common.{ℕ, Bool, Option, none, some, List, [], ◌∷◌, ◌++◌, Bytes, if◌then◌else◌}
use criterion.Output.{basename_compat}
use criterion.Stats.{TestStats, Counts}

-- struct criterion_test_stats with the names of its test.
pub record ReportedTest : Type 0 where
  pub category : Bytes
  pub description : Option Bytes
  pub stats : TestStats

-- struct criterion_suite_stats, with the tests that it links.
pub record ReportedSuite : Type 0 where
  pub name : Bytes
  pub counts : Counts
  pub tests : List ReportedTest

-- struct criterion_global_stats, with the suites that it links.
pub record ReportedRun : Type 0 where
  pub counts : Counts
  pub suites : List ReportedSuite

-- The VERSION of the build, criterion_options.short_filename, and the text of an elapsed time by
-- `%3.2f`.
pub record Printing : Type 0 where
  pub version : Bytes
  pub short_filename : Bool
  pub seconds : ℕ → Bytes

abbrev pub concat : List Bytes → Bytes
concat [] = []
concat (s ∷ ss) = s ++ concat ss

-- What a call of fprintf writes, from the pieces of its format and its arguments, before the line break at its end.
unfoldable pub line : List Bytes → Bytes
line pieces = concat pieces ++ 10 ∷ []

-- `sf ? basename_compat(file) : file`.
abbrev pub file_name : Printing → Bytes → Bytes
file_name o file = if o.short_filename then basename_compat file else file

-- `DEF(text, default)`.
abbrev pub shown : Option Bytes → Bytes → Bytes
shown none default = default
shown (some text) default = text
