-- ===== src/Options/Started.antt =====
-- src/entry/params.c, criterion_handle_args: what is set before the options are read.
use mathlib.Core.List.{map-append}
use criterion.Common.{
  ◌≡◌, refl, sym, ap, ◌∙◌, arith, Bool, true, false, not, ◌&&◌, Option, none, some,
}
use criterion.Common.{
  List, [], ◌∷◌, ◌++◌, Bytes, codes, bytes_eq, if◌then◌else◌, map, take, All, Bool-cases, inl, inr,
}
use criterion.Output.{Outputs}
use criterion.Output.Providers.{calls}
use criterion.Options.Tokens.{must_be_quiet}
use criterion.Options.State.{atou, Options, Parsing, ok}
use criterion.Options.Switch.{or_default, add_output}
use criterion.Options.Environment.{environment_options, environment_outputs, enable_tap}
use criterion.Options.Handling.{Process, before_options}
use criterion.Options.Written.{
  Request, IsListed, written_list, add_requests, environment_outputs-written,
}
use criterion.Options.Words.{add_call, set_by, report}
use criterion.Options.CommandLine.{calls-append, last_given}

-- The variable CRITERION_OUTPUTS for outputs that are asked for.
abbrev pub outputs_variable : List Request → Option Bytes
outputs_variable [] = none
outputs_variable (r ∷ rs) = some (written_list r rs)

-- The report that CRITERION_ENABLE_TAP asks for.
abbrev pub tap_requests : (optarg variable : Option Bytes) → List Request
tap_requests optarg none = []
tap_requests optarg (some v) =
    if bytes_eq (codes "1") v then report (codes "tap") optarg ∷ [] else []

abbrev pub tap_of : Process → List Request
tap_of p = tap_requests p.optarg (p.getenv (codes "CRITERION_ENABLE_TAP"))

abbrev pub is_asked : List Request → Bool
is_asked [] = false
is_asked (r ∷ rs) = true

abbrev pub environment_requests : Process → List Request → List Request
environment_requests p envs = tap_of p ++ envs

-- What the outputs of the environment say of being quiet. The report of CRITERION_ENABLE_TAP is
-- always quiet.
abbrev pub environment_quiet : Process → List Request → Bool
environment_quiet p envs =
    set_by (last_given (λ (r : Request). some (must_be_quiet r.path)) envs) (λ b. b)
      (is_asked (tap_of p))

environment_options-kept :
    {Seconds : Type 0} (p : Process) (o : Options Seconds)
    → ((environment_options p.getenv p.atoi o).pattern
        ≡ set_by (p.getenv (codes "CRITERION_TEST_PATTERN")) some o.pattern)
      × ((environment_options p.getenv p.atoi o).jobs
          ≡ set_by (p.getenv (codes "CRITERION_JOBS")) (atou p.atoi) o.jobs)
      × ((environment_options p.getenv p.atoi o).logging_threshold
          ≡ set_by (p.getenv (codes "CRITERION_VERBOSITY_LEVEL")) (atou p.atoi) o.logging_threshold)
unfolding environment_options
environment_options-kept p o = ground arith

-- What is asked for by a list of outputs, and what it leaves alone.
record Asked {Seconds : Type 0} (rs : List Request) (s s' : Parsing Seconds) : Type 0 where
  outputs : s'.outputs ≡ calls (map add_call rs) s.outputs
  options : s'.options ≡ s.options
  usage : s'.do_print_usage ≡ s.do_print_usage
  version : s'.do_print_version ≡ s.do_print_version
  list : s'.do_list_tests ≡ s.do_list_tests
  quiet :
      s'.quiet
      ≡ set_by (last_given (λ (r : Request). some (must_be_quiet r.path)) rs) (λ b. b) s.quiet

add_requests-Asked :
    {Seconds : Type 0} (rs : List Request) (s : Parsing Seconds) → Asked rs s (add_requests rs s)
unfolding add_output
add_requests-Asked [] s = ground arith
add_requests-Asked (r ∷ rs) s =
    let h = add_requests-Asked rs (add_output r.provider r.path s) in
    record {
      outputs = h.outputs;
      options = h.options;
      usage = h.usage;
      version = h.version;
      list = h.list;
      quiet = last_quiet (last_given (λ (q : Request). some (must_be_quiet q.path)) rs) h.quiet;
    }
  where
    last_quiet :
        (o : Option Bool)
        → (add_requests rs (add_output r.provider r.path s)).quiet
          ≡ set_by o (λ b. b) (must_be_quiet r.path)
        → (add_requests rs (add_output r.provider r.path s)).quiet
          ≡ set_by
              (elim o [ none ↦ some (must_be_quiet r.path) | some b ↦ some b ])
              (λ b. b)
              s.quiet
    last_quiet none e = e
    last_quiet (some b) e = e

-- The state in which the options are read.
pub record Started {Seconds : Type 0} (p : Process) (envs : List Request)
    (options : Options Seconds) (outputs : Outputs) (s : Parsing Seconds) : Type 0 where
  pub asked : s.outputs ≡ calls (map add_call (environment_requests p envs)) outputs
  pub usage : s.do_print_usage ≡ false
  pub version : s.do_print_version ≡ false
  pub list : s.do_list_tests ≡ false
  pub quiet : s.quiet ≡ environment_quiet p envs
  pub pattern :
      s.options.pattern ≡ set_by (p.getenv (codes "CRITERION_TEST_PATTERN")) some options.pattern
  pub jobs : s.options.jobs ≡ set_by (p.getenv (codes "CRITERION_JOBS")) (atou p.atoi) options.jobs
  pub level :
      s.options.logging_threshold
      ≡ set_by
          (p.getenv (codes "CRITERION_VERBOSITY_LEVEL"))
          (atou p.atoi)
          options.logging_threshold

environment_outputs-listed :
    {Seconds : Type 0} (envs : List Request) (s : Parsing Seconds)
    → All IsListed envs
    → environment_outputs (outputs_variable envs) s ≡ (add_requests envs s, false)
unfolding environment_outputs
environment_outputs-listed [] s h = refl
environment_outputs-listed (r ∷ rs) s h = environment_outputs-written r rs s h.0 h.1

enable_tap-Asked :
    {Seconds : Type 0} (optarg variable : Option Bytes) (s : Parsing Seconds)
    → s.quiet ≡ false
    → ((enable_tap optarg variable s).outputs
        ≡ calls (map add_call (tap_requests optarg variable)) s.outputs)
      × ((enable_tap optarg variable s).options ≡ s.options)
      × ((enable_tap optarg variable s).do_print_usage ≡ s.do_print_usage)
      × ((enable_tap optarg variable s).do_print_version ≡ s.do_print_version)
      × ((enable_tap optarg variable s).do_list_tests ≡ s.do_list_tests)
      × ((enable_tap optarg variable s).quiet ≡ is_asked (tap_requests optarg variable))
unfolding enable_tap
enable_tap-Asked optarg none s q = (refl, refl, refl, refl, refl, q)
enable_tap-Asked optarg (some v) s q = elim (Bool-cases (bytes_eq (codes "1") v)) [
  | inl e ↦ rw e (refl, refl, refl, refl, refl, refl)
  | inr e ↦ rw e (refl, refl, refl, refl, refl, q)
]

-- The two blocks for outputs, from a state that has asked for nothing.
outputs-Started :
    {Seconds : Type 0} (p : Process) (envs : List Request) (o : Options Seconds)
    (start : Parsing Seconds)
    → start.options ≡ environment_options p.getenv p.atoi o
    → start.quiet ≡ false
    → start.do_print_usage ≡ false
    → start.do_print_version ≡ false
    → start.do_list_tests ≡ false
    → Started p envs o start.outputs
        (add_requests envs (enable_tap p.optarg (p.getenv (codes "CRITERION_ENABLE_TAP")) start))
outputs-Started p envs o start eo eq eu ev el =
    let variable = p.getenv (codes "CRITERION_ENABLE_TAP") in
    let (t_outputs, t_options, t_usage, t_version, t_list, t_quiet) =
      enable_tap-Asked p.optarg variable start eq in
    let a = add_requests-Asked envs (enable_tap p.optarg variable start) in
    let kept = environment_options-kept p o in
    let options = a.options ∙ t_options ∙ eo in
    record {
      asked =
          a.outputs
          ∙ ap (calls (map add_call envs)) t_outputs
          ∙ sym (calls-append (map add_call (tap_of p)) (map add_call envs) start.outputs)
          ∙ ap (λ cs. calls cs start.outputs) (sym (map-append add_call (tap_of p) envs));
      usage = a.usage ∙ t_usage ∙ eu;
      version = a.version ∙ t_version ∙ ev;
      list = a.list ∙ t_list ∙ el;
      quiet =
          a.quiet
          ∙ ap (set_by (last_given (λ (r : Request). some (must_be_quiet r.path)) envs) (λ b. b))
              t_quiet;
      pattern = ap (λ x. x.pattern) options ∙ kept.0;
      jobs = ap (λ x. x.jobs) options ∙ kept.1;
      level = ap (λ x. x.logging_threshold) options ∙ kept.2;
    }

pub before_options-Started :
    {Seconds : Type 0} (p : Process) (envs : List Request) (options : Options Seconds)
    (outputs : Outputs)
    → p.getenv (codes "CRITERION_OUTPUTS") ≡ outputs_variable envs
    → All IsListed envs
    → (s : Parsing Seconds) × (before_options p options outputs ≡ ok (s, false))
      × Started p envs options outputs s
unfolding before_options
before_options-Started {Seconds} p envs options outputs v l =
    let o : Options Seconds = record options {
      encoding = take 63 p.codeset;
      color =
          p.isatty
          && not (bytes_eq (codes "dumb") (or_default (p.getenv (codes "TERM")) (codes "dumb")));
    } in
    let start : Parsing Seconds = record {
      options = environment_options p.getenv p.atoi o;
      outputs = outputs;
      quiet = false;
      do_list_tests = false;
      do_print_version = false;
      do_print_usage = false;
    } in
    let tapped = enable_tap p.optarg (p.getenv (codes "CRITERION_ENABLE_TAP")) start in
    let started = outputs-Started p envs o start refl refl refl refl refl in
    (
      add_requests envs tapped,
      ap ok (ap (λ x. environment_outputs x tapped) v ∙ environment_outputs-listed envs tapped l),
      record {
        asked = started.asked;
        usage = started.usage;
        version = started.version;
        list = started.list;
        quiet = started.quiet;
        pattern = started.pattern;
        jobs = started.jobs;
        level = started.level;
      },
    )
