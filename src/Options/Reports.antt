-- ===== src/Options/Reports.antt =====
-- src/entry/params.c and src/io/output.c: the reports that the environment and the command line
-- ask for.
use criterion.Common.{ℕ, ◌≡◌, refl, sym, ap, ◌∙◌, Bool, true, false, Bool-cases, inl, inr}
use criterion.Common.{List, [], ◌∷◌, ◌++◌, Bytes, codes, bytes_eq, if◌then◌else◌, map, All}
use criterion.Output.{process_all_output}
use criterion.Output.Providers.{
  Call, register, add, calls, no_outputs, is_registered, added, paths_for,
}
use criterion.Output.Providers.{process_all_output-added}
use criterion.Options.State.{Options, ok}
use criterion.Options.Handling.{Process, Handled, criterion_handle_args}
use criterion.Options.Written.{Request, IsListed}
use criterion.Options.Words.{Word, IsWord, spelled, add_call}
use criterion.Options.CommandLine.{calls-append, requests}
use criterion.Options.Started.{outputs_variable, environment_requests}
use criterion.Options.Settings.{criterion_handle_args-Settings}

-- The paths that are asked for with a provider.
abbrev pub paths_asked : Bytes → List Request → List Bytes
paths_asked p [] = []
paths_asked p (r ∷ rs) =
    if bytes_eq r.provider p then r.path ∷ paths_asked p rs else paths_asked p rs

added-requests : (p : Bytes) (rs : List Request) → added p (map add_call rs) ≡ paths_asked p rs
added-requests p [] = refl
added-requests p (r ∷ rs) = rw (added-requests p rs) refl

added-append : (p : Bytes) (cs ds : List Call) → added p (cs ++ ds) ≡ added p cs ++ added p ds
added-append p [] ds = refl
added-append p (register name reporter ∷ cs) ds = added-append p cs ds
added-append p (add provider path ∷ cs) ds = elim (Bool-cases (bytes_eq provider p)) [
  | inl e ↦ rw (e, added-append p cs ds) refl
  | inr e ↦ rw (e, added-append p cs ds) refl
]

none_registered : (p : Bytes) (rs : List Request) → is_registered p (map add_call rs) ≡ false
none_registered p [] = refl
none_registered p (r ∷ rs) = none_registered p rs

is_registered-append :
    (p : Bytes) (cs : List Call) (rs : List Request)
    → is_registered p (cs ++ map add_call rs) ≡ is_registered p cs
is_registered-append p [] rs = none_registered p rs
is_registered-append p (register name reporter ∷ cs) rs = rw (is_registered-append p cs rs) refl
is_registered-append p (add provider path ∷ cs) rs = is_registered-append p cs rs

module _ (is_directory exists opens : Bytes → Bool) (fuel : ℕ) where
  -- The reports at the end of a run, of a provider that is registered before the arguments are
  -- handled: one for each path that the program has added for it, then one for each that the
  -- environment asks for, and then one for each that the options ask for, in order; there is none
  -- of a provider that is not registered. CRITERION_OUTPUTS is not set or lists outputs, and the program accepts the options.
  pub criterion_handle_args-reports :
      {Seconds : Type 0} (provider : Bytes) (cs : List Call) (p : Process) (envs : List Request)
      (ws : List Word) (atof : Bytes → Seconds) (argv0 : Bytes) (options : Options Seconds)
      → p.getenv (codes "CRITERION_OUTPUTS") ≡ outputs_variable envs
      → All IsListed envs
      → All IsWord ws
      → (h : Handled Seconds) × (criterion_handle_args p atof argv0 true
            (map spelled ws)
            options
            (calls cs no_outputs)
          ≡ ok h)
        × (paths_for provider (process_all_output is_directory exists opens argv0 fuel h.outputs)
            ≡ (if is_registered provider cs
                then added provider cs
                  ++ (paths_asked provider (environment_requests p envs ++ requests ws))
                else []))
  criterion_handle_args-reports provider cs p envs ws atof argv0 options v l k =
      let (h, e, set) =
        criterion_handle_args-Settings p envs ws atof argv0 options (calls cs no_outputs) v l k in
      let rs = environment_requests p envs ++ requests ws in
      let outputs = set.asked ∙ sym (calls-append cs (map add_call rs) no_outputs) in
      (
        h,
        e,
        ap (λ o. paths_for provider (process_all_output is_directory exists opens argv0 fuel o))
              outputs
            ∙ process_all_output-added is_directory exists opens argv0 fuel provider
                (cs ++ map add_call rs)
            ∙ λ i.
                if is_registered-append provider cs rs i
                then (added-append provider cs (map add_call rs)
                      ∙ ap (λ x. added provider cs ++ x) (added-requests provider rs))
                    i
                else [],
      )
