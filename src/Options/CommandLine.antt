-- ===== src/Options/CommandLine.antt =====
-- src/entry/params.c: what a well-formed command line sets.
use mathlib.Core.List.{map-append}
use criterion.Common.{◌≡◌, refl, sym, ap, ◌∙◌, arith, Bool, true, false, ◌||◌, Option, none, some}
use criterion.Common.{List, [], ◌∷◌, ◌++◌, Bytes, map, All}
use criterion.Output.{Outputs}
use criterion.Output.Providers.{Call, calls}
use criterion.Options.State.{ℤ, atou, Parsing, ok}
use criterion.Options.Switch.{handle_options}
use criterion.Options.Written.{Request}
use criterion.Options.Words.{
  Word, IsWord, spelled, requests_of, add_call, set_by, handle_option-Effect,
}
use criterion.Options.Words.{
  wants_usage, wants_version, wants_list, pattern_of, jobs_of, level_of, quiet_of,
}

pub calls-append : (cs ds : List Call) (o : Outputs) → calls (cs ++ ds) o ≡ calls ds (calls cs o)
calls-append [] ds o = refl
calls-append (c ∷ cs) ds o = calls-append cs ds (calls (c ∷ []) o)

abbrev pub requests : List Word → List Request
requests [] = []
requests (w ∷ ws) = requests_of w ++ requests ws

abbrev pub any {ℓ} : {A : Type ℓ} → (A → Bool) → List A → Bool
any f [] = false
any f (w ∷ ws) = any f ws || f w

-- What the last word says that says something.
abbrev pub last_given {ℓ κ} : {A : Type ℓ} {B : Type κ} → (A → Option B) → List A → Option B
last_given f [] = none
last_given f (w ∷ ws) = elim (last_given f ws) [ none ↦ f w | some b ↦ some b ]

module _ {Seconds : Type 0} (atoi : Bytes → ℤ) (atof : Bytes → Seconds) (isatty : Bool)
    (term : Option Bytes) where
  pub record Summary (ws : List Word) (s s' : Parsing Seconds) : Type 0 where
    pub outputs : s'.outputs ≡ calls (map add_call (requests ws)) s.outputs
    pub usage : s'.do_print_usage ≡ (any wants_usage ws || s.do_print_usage)
    pub version : s'.do_print_version ≡ (any wants_version ws || s.do_print_version)
    pub list : s'.do_list_tests ≡ (any wants_list ws || s.do_list_tests)
    pub quiet : s'.quiet ≡ set_by (last_given quiet_of ws) (λ b. b) s.quiet
    pub pattern : s'.options.pattern ≡ set_by (last_given pattern_of ws) some s.options.pattern
    pub level :
        s'.options.logging_threshold
        ≡ set_by (last_given level_of ws) (atou atoi) s.options.logging_threshold
    pub jobs : s'.options.jobs ≡ set_by (last_given jobs_of ws) (atou atoi) s.options.jobs

  any-cons :
      (f : Word → Bool) (w : Word) (ws : List Word) (b b' b'' : Bool)
      → b' ≡ (f w || b)
      → b'' ≡ (any f ws || b')
      → b'' ≡ (any f (w ∷ ws) || b)
  any-cons f w ws b b' b'' e e' = ground arith

  set_by-cons {ℓ κ} :
      {A : Type ℓ} {B : Type κ} (g : Word → Option A) (f : A → B) (w : Word) (ws : List Word)
      (b b' b'' : B)
      → b' ≡ set_by (g w) f b
      → b'' ≡ set_by (last_given g ws) f b'
      → b'' ≡ set_by (last_given g (w ∷ ws)) f b
  set_by-cons g f w ws b b' b'' e e' = go (last_given g ws) e'
    where
      go :
          (o : Option _)
          → b'' ≡ set_by o f b'
          → b'' ≡ set_by (elim o [ none ↦ g w | some a ↦ some a ]) f b
      go none p = p ∙ e
      go (some a) p = p

  pub handle_options-Summary :
      (ws : List Word) (s : Parsing Seconds)
      → All IsWord ws
      → (s' : Parsing Seconds) × (handle_options atoi atof isatty term true (map spelled ws) s
          ≡ ok s')
        × Summary ws s s'
  unfolding handle_options
  handle_options-Summary [] s h = (s, refl, ground arith)
  handle_options-Summary (w ∷ ws) s h =
      let (s1, e, f) = handle_option-Effect atoi atof isatty term w s h.0 in
      let (s2, e', g) = handle_options-Summary ws s1 h.1 in
      (
        s2,
        rw (e, handle_options) e',
        record {
          outputs =
              g.outputs
              ∙ ap (calls (map add_call (requests ws))) f.outputs
              ∙ sym (
                  calls-append (map add_call (requests_of w)) (map add_call (requests ws))
                    s.outputs)
              ∙ ap (λ cs. calls cs s.outputs)
                  (sym (map-append add_call (requests_of w) (requests ws)));
          usage = any-cons wants_usage w ws _ _ _ f.usage g.usage;
          version = any-cons wants_version w ws _ _ _ f.version g.version;
          list = any-cons wants_list w ws _ _ _ f.list g.list;
          quiet = set_by-cons quiet_of _ w ws _ _ _ f.quiet g.quiet;
          pattern = set_by-cons pattern_of _ w ws _ _ _ f.pattern g.pattern;
          level = set_by-cons level_of _ w ws _ _ _ f.level g.level;
          jobs = set_by-cons jobs_of _ w ws _ _ _ f.jobs g.jobs;
        },
      )
