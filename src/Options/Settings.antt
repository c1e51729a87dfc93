-- ===== src/Options/Settings.antt =====
-- src/entry/params.c, criterion_handle_args: what a well-formed environment and command line lead
-- to, as far as the reports that src/io/output.c writes.
use mathlib.Core.List.{map-append}
use criterion.Common.{◌≡◌, refl, sym, ap, ◌∙◌, arith, Bool, true, false, ◌||◌, some}
use criterion.Common.{List, ◌++◌, Bytes, codes, if◌then◌else◌, map, All}
use criterion.Output.{Outputs}
use criterion.Output.Providers.{calls}
use criterion.Options.State.{atou, Options, Parsing, ok, ◌>>=◌, log_level_quiet}
use criterion.Options.Handling.{
  Process, Handled, Action, print_usage, print_version, list_tests, proceed,
}
use criterion.Options.Handling.{finish_args, criterion_handle_args}
use criterion.Options.Written.{Request, IsListed}
use criterion.Options.Words.{Word, IsWord, spelled, add_call, set_by}
use criterion.Options.Words.{
  wants_usage, wants_version, wants_list, pattern_of, jobs_of, level_of, quiet_of,
}
use criterion.Options.CommandLine.{calls-append, requests, any, last_given, handle_options-Summary}
use criterion.Options.Started.{outputs_variable, environment_requests, environment_quiet}
use criterion.Options.Started.{before_options-Started}

-- What is set. Of two options for the same thing the last one holds, and an option holds against
-- the environment.
pub record Settings {Seconds : Type 0} (p : Process) (envs : List Request) (ws : List Word)
    (options : Options Seconds) (outputs : Outputs) (h : Handled Seconds) : Type 0 where
  pub asked : h.outputs ≡ calls (map add_call (environment_requests p envs ++ requests ws)) outputs
  pub action : h.action ≡ (
      if any wants_usage ws
      then print_usage
      else if any wants_version ws
      then print_version
      else if any wants_list ws
      then list_tests
      else proceed)
  pub pattern :
      h.options.pattern
      ≡ set_by
          (last_given pattern_of ws)
          some
          (set_by (p.getenv (codes "CRITERION_TEST_PATTERN")) some options.pattern)
  pub jobs :
      h.options.jobs
      ≡ set_by
          (last_given jobs_of ws)
          (atou p.atoi)
          (set_by (p.getenv (codes "CRITERION_JOBS")) (atou p.atoi) options.jobs)
  pub level : h.options.logging_threshold ≡ (
      if set_by (last_given quiet_of ws) (λ b. b) (environment_quiet p envs)
      then log_level_quiet
      else set_by (last_given level_of ws) (atou p.atoi) (
          set_by
            (p.getenv (codes "CRITERION_VERBOSITY_LEVEL"))
            (atou p.atoi)
            options.logging_threshold))

or_false : (b : Bool) → (b || false) ≡ b
or_false true = refl
or_false false = refl

abbrev action_of : Bool → Bool → Bool → Action
action_of usage version list =
    if usage
    then print_usage
    else if version
    then print_version
    else if list
    then list_tests
    else proceed

asked_for :
    (wants : Word → Bool) (ws : List Word) {b b' : Bool}
    → b ≡ (any wants ws || b')
    → b' ≡ false
    → b ≡ any wants ws
asked_for wants ws e e' = e ∙ ap (λ x. any wants ws || x) e' ∙ or_false (any wants ws)

finish_args-fields :
    {Seconds : Type 0} (s : Parsing Seconds)
    → ((finish_args s).outputs ≡ s.outputs)
      × ((finish_args s).options.pattern ≡ s.options.pattern)
      × ((finish_args s).options.jobs ≡ s.options.jobs)
      × ((finish_args s).options.logging_threshold
          ≡ (if s.quiet then log_level_quiet else s.options.logging_threshold))
      × ((finish_args s).action ≡ (
          if s.do_print_usage
          then print_usage
          else if s.do_print_version
          then print_version
          else if s.do_list_tests
          then list_tests
          else proceed))
unfolding finish_args
finish_args-fields s = ground arith

-- A command line of options that the program accepts is handled, whatever the environment holds,
-- if CRITERION_OUTPUTS is not set or lists outputs: the outputs asked for are those of the environment and
-- then those of the options, in order; the usage is printed if an option asks for it or is
-- unknown, or else the version, or else the list of the tests, as an option asks for them, or
-- else the tests are run; the filter, the number of jobs and the level are those of the last option that gives
-- them, or else of the environment, or else as before; and the level is that of quiet if the last of the
-- options that speak of it, outputs included, says so.
pub criterion_handle_args-Settings :
    {Seconds : Type 0} (p : Process) (envs : List Request) (ws : List Word) (atof : Bytes → Seconds)
    (argv0 : Bytes) (options : Options Seconds) (outputs : Outputs)
    → p.getenv (codes "CRITERION_OUTPUTS") ≡ outputs_variable envs
    → All IsListed envs
    → All IsWord ws
    → (h : Handled Seconds) × (criterion_handle_args p atof argv0 true
          (map spelled ws)
          options
          outputs
        ≡ ok h)
      × Settings p envs ws options outputs h
unfolding criterion_handle_args
criterion_handle_args-Settings {Seconds} p envs ws atof argv0 options outputs v l k =
    let (s, e, started) = before_options-Started p envs options outputs v l in
    let named : Parsing Seconds = record s {
      options = record s.options { executable_name = some argv0 };
    } in
    let (s', e', sum) =
      handle_options-Summary p.atoi atof p.isatty (p.getenv (codes "TERM")) ws named k in
    let (f_outputs, f_pattern, f_jobs, f_level, f_action) = finish_args-fields s' in
    (
      finish_args s',
      rw (e, criterion_handle_args) (ap (λ r. r >>= λ x. ok (finish_args x)) e'),
      record {
        asked =
            f_outputs
            ∙ sum.outputs
            ∙ ap (calls (map add_call (requests ws))) started.asked
            ∙ sym (
                calls-append (map add_call (environment_requests p envs))
                  (map add_call (requests ws)) outputs)
            ∙ ap (λ cs. calls cs outputs)
                (sym (map-append add_call (environment_requests p envs) (requests ws)));
        action = f_action ∙ λ i.
            action_of (asked_for wants_usage ws sum.usage started.usage i)
              (asked_for wants_version ws sum.version started.version i)
              (asked_for wants_list ws sum.list started.list i);
        pattern =
            f_pattern ∙ sum.pattern ∙ ap (set_by (last_given pattern_of ws) some) started.pattern;
        jobs = f_jobs ∙ sum.jobs ∙ ap (set_by (last_given jobs_of ws) (atou p.atoi)) started.jobs;
        level =
            let q = sum.quiet ∙ ap (set_by (last_given quiet_of ws) (λ b. b)) started.quiet in
            let n = sum.level ∙ ap (set_by (last_given level_of ws) (atou p.atoi)) started.level in
            f_level ∙ λ i. if q i then log_level_quiet else n i;
      },
    )
