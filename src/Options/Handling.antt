-- ===== src/Options/Handling.antt =====
-- src/entry/params.c, criterion_handle_args, and src/entry/entry.c, main.
use criterion.Common.{ℕ, Bool, true, false, Option, some, List}
use criterion.Common.{Bytes, codes, if◌then◌else◌}
use criterion.Output.{Outputs}
use criterion.Options.State.{ℤ, Options, Parsing, Outcome, ok, ◌>>=◌, log_level_quiet}
use criterion.Options.Switch.{Opt, handle_options, set_encoding, deduce_color}
use criterion.Options.Environment.{environment_options, environment_outputs, enable_tap}

-- What criterion_handle_args ends with.
pub data Action : Type 0 where
  print_usage print_version list_tests proceed : Action

-- The returned value.
unfoldable pub returned : Action → Bool
returned proceed = true
returned print_usage = false
returned print_version = false
returned list_tests = false

pub record Handled (Seconds : Type 0) : Type 0 where
  pub options : Options Seconds
  pub outputs : Outputs
  pub action : Action

-- What the call is given besides the options: the process's environment and terminal.
pub record Process : Type 0 where
  pub getenv : Bytes → Option Bytes
  pub atoi : Bytes → ℤ
  pub isatty : Bool
  pub codeset : Bytes
  pub optarg : Option Bytes

module _ {Seconds : Type 0} where
  -- Behind the label `end`.
  unfoldable pub finish_args : Parsing Seconds → Handled Seconds
  finish_args s =
      let o =
        if s.quiet then record s.options { logging_threshold = log_level_quiet } else s.options in
      let o' =
        if o.use_ascii then record o { encoding = codes "ANSI_X3.4-1968"; color = false } else o in
      record {
        options = o';
        outputs = s.outputs;
        action =
            if s.do_print_usage
            then print_usage
            else if s.do_print_version
            then print_version
            else if s.do_list_tests
            then list_tests
            else proceed;
      }

  -- The state before the options are read, and whether they are skipped. `deduce_color` of `auto`
  -- does not exit.
  unfoldable pub before_options :
      Process → Options Seconds → Outputs → Outcome (Parsing Seconds × Bool)
  unfolding set_encoding deduce_color environment_options enable_tap environment_outputs
  before_options p options outputs = do
    colored ← deduce_color p.isatty (p.getenv (codes "TERM")) (some (codes "auto"))
    let o : Options Seconds = record (set_encoding p.codeset options) { color = colored }
    let start : Parsing Seconds = record {
      options = environment_options p.getenv p.atoi o;
      outputs = outputs;
      quiet = false;
      do_list_tests = false;
      do_print_version = false;
      do_print_usage = false;
    }
    ok (
        environment_outputs (p.getenv (codes "CRITERION_OUTPUTS"))
          (enable_tap p.optarg (p.getenv (codes "CRITERION_ENABLE_TAP")) start))

  unfoldable pub criterion_handle_args :
      Process
      → (atof : Bytes → Seconds) → (argv0 : Bytes) → (handle_unknown_arg : Bool) → List Opt
      → Options Seconds
      → Outputs
      → Outcome (Handled Seconds)
  unfolding before_options handle_options finish_args
  criterion_handle_args p atof argv0 handle_unknown_arg opts options outputs = do
    (s, skipped) ← before_options p options outputs
    let named : Parsing Seconds = record s {
      options = record s.options { executable_name = some argv0 };
    }
    elim skipped [
      | true ↦ ok (finish_args s)
      | false ↦ do
        s ←
            handle_options p.atoi atof p.isatty (p.getenv (codes "TERM")) handle_unknown_arg opts
              named
        ok (finish_args s)
    ]

-- main: the status of the process, for the result of criterion_run_all_tests under the options.
unfoldable pub main_status : {Seconds : Type 0} → (Handled Seconds → Bool) → Handled Seconds → ℕ
unfolding returned
main_status run_all_tests h = if returned h.action then (if run_all_tests h then 0 else 1) else 0
