-- ===== src/Examples/Commands.antt =====
-- Runs of src/entry/params.c on small command lines.
use criterion.Common.{
  ℕ, ◌≡◌, refl, arith, true, false, some, none, List, [], ◌∷◌, codes, map, bytes_eq, if◌then◌else◌,
}
use criterion.Output.{process_all_output}
use criterion.Output.Providers.{register, calls, no_outputs, paths_for}
use criterion.Options.State.{pos, Parsing, ok, exit_3, past_end, criterion_options}
use criterion.Options.Switch.{Opt, memory_after, parse_dbg_transport, parse_output, handle_options}
use criterion.Options.Environment.{environment_outputs}
use criterion.Options.Handling.{Process, Handled, criterion_handle_args}
use criterion.Options.Written.{Request, written_list, add_requests, environment_outputs-written}
use criterion.Options.Words.{Word, asks, transport, other, spelled}
use criterion.Options.Settings.{Settings, criterion_handle_args-Settings}
use criterion.Options.Reports.{criterion_handle_args-reports}

abbrev one_report : Request
one_report = record { provider = codes "xml"; path = codes "a.xml" }

abbrev other_report : Request
other_report = record { provider = codes "tap"; path = codes "-" }

-- The variable CRITERION_OUTPUTS lists one report, and no other variable is set.
abbrev a_process : Process
a_process = record {
  getenv =
      λ name. if bytes_eq name (codes "CRITERION_OUTPUTS") then some (codes "xml:a.xml") else none;
  atoi = λ s. pos 4;
  isatty = false;
  codeset = codes "UTF-8";
  optarg = none;
}

abbrev a_line : List Word
a_line =
    other Opt.quiet
    ∷ other (Opt.jobs (codes "4"))
    ∷ asks other_report
    ∷ transport (codes "12")
    ∷ other (Opt.xml (some (codes "b.xml")))
    ∷ other (Opt.filter (codes "a*"))
    ∷ []

abbrev fresh : Parsing ℕ
fresh = record {
  options = criterion_options 0;
  outputs = no_outputs;
  quiet = false;
  do_list_tests = false;
  do_print_version = false;
  do_print_usage = false;
}

-- An empty list of outputs asks for the usage.
no_list : environment_outputs (some []) fresh ≡ (record fresh { do_print_usage = true }, true)
unfolding environment_outputs
no_list = refl

-- A path ends at a second colon.
cut_path :
    (parse_output (codes "xml:C:/a") fresh).outputs ≡ (parse_output (codes "xml:C") fresh).outputs
unfolding parse_output
cut_path = refl

-- Without a port the text behind the copy is read.
no_port : parse_dbg_transport (λ s. pos 1) (codes "tcp") fresh.options ≡ past_end
unfolding parse_dbg_transport memory_after
no_port = refl

-- A transport that is not known is not refused.
unknown_transport :
    parse_dbg_transport (λ s. pos 1) (codes "udp:1") fresh.options ≡ ok fresh.options
unfolding parse_dbg_transport
unknown_transport = refl

removed_single :
    handle_options (λ s. pos 1) (λ s. 0) true none true (Opt.single [] ∷ []) fresh ≡ exit_3
unfolding handle_options
removed_single = refl

environment_outputs-written_example :
    environment_outputs (some (written_list one_report (other_report ∷ []))) fresh
    ≡ (add_requests (one_report ∷ other_report ∷ []) fresh, false)
environment_outputs-written_example =
    environment_outputs-written one_report (other_report ∷ []) fresh (ground arith) (ground arith)

a_variable : a_process.getenv (codes "CRITERION_OUTPUTS") ≡ some (codes "xml:a.xml")
unfolding bytes_eq
a_variable = refl

criterion_handle_args-Settings_example :
    (h : Handled ℕ) × (criterion_handle_args a_process
        (λ s. 1)
        (codes "./a")
        true
        (map spelled a_line)
        (criterion_options 0)
        no_outputs
      ≡ ok h)
    × Settings a_process (one_report ∷ []) a_line (criterion_options 0) no_outputs h
criterion_handle_args-Settings_example =
    criterion_handle_args-Settings a_process (one_report ∷ []) a_line (λ s. 1) (codes "./a")
      (criterion_options 0) no_outputs a_variable (ground arith) (ground arith)

criterion_handle_args-reports_example :
    (h : Handled ℕ) × (criterion_handle_args a_process
        (λ s. 1)
        (codes "./a")
        true
        (map spelled a_line)
        (criterion_options 0)
        (calls (register (codes "xml") 1 ∷ []) no_outputs)
      ≡ ok h)
    × (paths_for
          (codes "xml")
          (process_all_output (λ s. false) (λ s. false) (λ s. true) (codes "./a") 9 h.outputs)
        ≡ codes "a.xml" ∷ codes "b.xml" ∷ [])
unfolding bytes_eq
criterion_handle_args-reports_example =
    criterion_handle_args-reports (λ s. false) (λ s. false) (λ s. true) 9 (codes "xml")
      (register (codes "xml") 1 ∷ []) a_process (one_report ∷ []) a_line (λ s. 1) (codes "./a")
      (criterion_options 0) a_variable (ground arith) (ground arith)
