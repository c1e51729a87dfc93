-- ===== src/Examples/Patterns.antt =====
-- A written pattern of src/string/extglobmatch.c, compiled and used as the filter of
-- src/core/runner.c.
use criterion.Common.{◌≡◌, refl, arith, false, some, none, List, [], ◌∷◌, codes}
use criterion.Pattern.{ok, compile, many, maybe}
use criterion.Pattern.Syntax.{
  literal, class, anything, group, Pattern, one, cat, only, either, print, Fits,
}
use criterion.Pattern.Documented.{Documented}
use criterion.Pattern.Printing.{glob_of, compile-print}
use criterion.Runner.Registry.{Test, SuiteSet}

abbrev written : Pattern
written = cat (literal b'a') (
    cat
      (group many
        (either (one (literal b'b')) (only (cat (class (codes "c-d")) (one (literal b'e'))))))
      (one (literal b'!')))

written_text : print written [] ≡ codes "a*(b|[c-d]e)\\!"
unfolding print
written_text = refl

written-Fits : Fits 0 0 written
unfolding Fits
written-Fits = ground arith

compile-print_example : compile (print written []) ≡ ok (some (glob_of written))
compile-print_example = compile-print written written-Fits

-- `*/a*(b)?(!|[c-d])`.
abbrev repeated : Pattern
repeated = cat anything (
    cat (literal b'/') (
      cat (literal b'a') (
        cat (group many (only (one (literal b'b'))))
          (one (group maybe (either (one (literal b'!')) (only (one (class (codes "c-d"))))))))))

repeated_text : print repeated [] ≡ codes "*/a*(b)?(\\!|[c-d])"
unfolding print
repeated_text = refl

abbrev a_test : Test
a_test = record {
  name = codes "abb!";
  category = codes "a";
  identifier_ = codes "s/abb!";
  file_ = [];
  line_ = 0;
  signal = 0;
  exit_code = 0;
  param_ = none;
  disabled = false;
}

abbrev one_suite : List SuiteSet
one_suite =
    record {
      suite = record { name = codes "a"; disabled = false };
      tests =
          some (record {
            first = a_test ∷ (record a_test { identifier_ = codes "ab" }) ∷ [];
            size = 2;
          });
    }
    ∷ []
