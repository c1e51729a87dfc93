-- ===== src/Options/Environment.antt =====
-- src/entry/params.c, criterion_handle_args: what the environment sets before the options are read.
use criterion.Common.{Bool, true, false, not, ◌||◌, Option, none, some}
use criterion.Common.{List, [], ◌∷◌, Bytes, codes, bytes_eq, length, if◌then◌else◌}
use criterion.Output.{criterion_add_output}
use criterion.Options.Tokens.{strtok_r, text_after, tokens}
use criterion.Options.State.{ℤ, atou, Options, Parsing}
use criterion.Options.Switch.{or_default, add_output}

abbrev pub is_one : Bytes → Bool
is_one value = bytes_eq (codes "1") value

abbrev set_from :
    {Seconds : Type 0}
    → (Bytes → Option Bytes)
    → Bytes
    → (Bytes → Options Seconds → Options Seconds)
    → Options Seconds
    → Options Seconds
set_from getenv name write o = elim (getenv name) [ none ↦ o | some value ↦ write value o ]

module _ {Seconds : Type 0} (getenv : Bytes → Option Bytes) (atoi : Bytes → ℤ) where
  -- The variables that stand for an option.
  unfoldable pub environment_options : Options Seconds → Options Seconds
  unfolding bytes_eq atou
  environment_options o =
      let is_term_dumb =
        bytes_eq (codes "dumb") (or_default (getenv (codes "TERM")) (codes "dumb")) in
      let o =
        set_from getenv (codes "CRITERION_ALWAYS_SUCCEED")
          (λ v (o : Options Seconds). record o { always_succeed = is_one v }) o in
      let o =
        set_from getenv (codes "CRITERION_FAIL_FAST")
          (λ v (o : Options Seconds). record o { fail_fast = is_one v }) o in
      let o =
        set_from getenv (codes "CRITERION_USE_ASCII")
          (λ v (o : Options Seconds). record o { use_ascii = is_one v || is_term_dumb }) o in
      let o =
        set_from getenv (codes "CRITERION_JOBS")
          (λ v (o : Options Seconds). record o { jobs = atou atoi v }) o in
      let o =
        set_from getenv (codes "CRITERION_VERBOSITY_LEVEL")
          (λ v (o : Options Seconds). record o { logging_threshold = atou atoi v }) o in
      let o =
        set_from getenv (codes "CRITERION_SHORT_FILENAME")
          (λ v (o : Options Seconds). record o { short_filename = is_one v }) o in
      let o =
        set_from getenv (codes "CRITERION_TEST_PATTERN")
          (λ v (o : Options Seconds). record o { pattern = some v }) o in
      record o {
        measure_time = not (
            is_one (or_default (getenv (codes "CRITERION_DISABLE_TIME_MEASUREMENTS")) (codes "0")));
      }

-- The parts, the first of which begins where the variable does.
unfoldable pub parts_of : Bytes → List Bytes
unfolding strtok_r text_after tokens
parts_of outputs = elim (strtok_r b',' outputs) [
  | none ↦ text_after b',' outputs ∷ []
  | some (token, rest) ↦ text_after b',' outputs ∷ tokens b',' (length rest) rest
]

module _ {Seconds : Type 0} where
  -- The block for CRITERION_ENABLE_TAP; `optarg` is the global variable of getopt.
  unfoldable pub enable_tap : (optarg variable : Option Bytes) → Parsing Seconds → Parsing Seconds
  unfolding bytes_eq criterion_add_output
  enable_tap optarg variable s =
      if is_one (or_default variable (codes "0"))
      then record s {
        quiet = true;
        outputs = criterion_add_output (codes "tap") (or_default optarg (codes "-")) s.outputs;
      }
      else s

  -- The loop over the parts of CRITERION_OUTPUTS, and whether it goes to `end`.
  unfoldable pub add_parts : List Bytes → Parsing Seconds → Parsing Seconds × Bool
  unfolding strtok_r add_output
  add_parts [] s = (s, false)
  add_parts (part ∷ parts) s = elim (strtok_r b':' part) [
    | none ↦ (record s { do_print_usage = true }, true)
    | some (provider, rest) ↦ elim (strtok_r b':' rest) [
      | none ↦ (record s { do_print_usage = true }, true)
      | some (path, rest') ↦ add_parts parts (add_output provider path s)
    ]
  ]

  -- The block for CRITERION_OUTPUTS.
  unfoldable pub environment_outputs : Option Bytes → Parsing Seconds → Parsing Seconds × Bool
  unfolding parts_of add_parts
  environment_outputs none s = (s, false)
  environment_outputs (some outputs) s = add_parts (parts_of outputs) s
