-- ===== src/Options/Words.antt =====
-- src/entry/params.c: what each option of a well-formed command line does.
use criterion.Common.{◌≡◌, refl, ap, arith, Bool, true, false, not, ◌&&◌, ◌||◌, Option, none, some}
use criterion.Common.{◌⊎◌, inl, inr, List, [], ◌∷◌, ◌++◌, Bytes, map, codes, bytes_eq}
use criterion.Output.Providers.{Call, add, calls}
use criterion.Options.Tokens.{must_be_quiet}
use criterion.Options.State.{dbg_gdb, dbg_lldb, dbg_windbg, dbg_idle}
use criterion.Options.State.{ℤ, atou, Options, Parsing, ok}
use criterion.Options.Switch.{
  Opt, or_default, handle_option, parse_dbg, parse_dbg_transport, deduce_color,
}
use criterion.Options.Switch.{memory_after, c_string, add_output}
use criterion.Options.Written.{Request, IsRequest, written, parse_output-written}

-- An option as it is meant: an output, a transport for the debugging server, or any other.
pub data Word : Type 0 where
  asks : Request → Word
  transport : Bytes → Word
  other : Opt → Word

abbrev pub spelled : Word → Opt
spelled (asks r) = Opt.output (written r)
spelled (transport val) = Opt.debug_transport (codes "tcp:" ++ val)
spelled (other opt) = opt

-- The options that the program does not refuse.
abbrev pub IsAccepted : Opt → Type 0
IsAccepted (Opt.output arg) = ⊥
IsAccepted (Opt.debug_transport arg) = ⊥
IsAccepted (Opt.single arg) = ⊥
IsAccepted (Opt.debug (some arg)) =
    (arg ≡ codes "gdb") ⊎ (arg ≡ codes "lldb") ⊎ (arg ≡ codes "windbg") ⊎ (arg ≡ codes "idle")
IsAccepted (Opt.color (some arg)) =
    (arg ≡ codes "always") ⊎ (arg ≡ codes "auto") ⊎ (arg ≡ codes "never")
IsAccepted _ = Unit

abbrev pub IsWord : Word → Type 0
IsWord (asks r) = IsRequest r
IsWord (transport val) = Unit
IsWord (other opt) = IsAccepted opt

-- The outputs that an option asks for; `-` is the standard output.
abbrev pub report : Bytes → Option Bytes → Request
report provider arg = record { provider = provider; path = or_default arg (codes "-") }

abbrev pub requests_of : Word → List Request
requests_of (asks r) = r ∷ []
requests_of (transport val) = []
requests_of (other (Opt.tap arg)) = report (codes "tap") arg ∷ []
requests_of (other (Opt.xml arg)) = report (codes "xml") arg ∷ []
requests_of (other (Opt.json arg)) = report (codes "json") arg ∷ []
requests_of (other _) = []

abbrev pub add_call : Request → Call
add_call r = add r.provider r.path

abbrev pub wants_usage : Word → Bool
wants_usage (other Opt.help) = true
wants_usage (other Opt.unknown) = true
wants_usage _ = false

abbrev pub wants_version : Word → Bool
wants_version (other Opt.version) = true
wants_version _ = false

abbrev pub wants_list : Word → Bool
wants_list (other Opt.list) = true
wants_list _ = false

abbrev pub pattern_of : Word → Option Bytes
pattern_of (other (Opt.pattern arg)) = some arg
pattern_of (other (Opt.filter arg)) = some arg
pattern_of _ = none

abbrev pub jobs_of : Word → Option Bytes
jobs_of (other (Opt.jobs arg)) = some arg
jobs_of _ = none

abbrev pub level_of : Word → Option Bytes
level_of (other (Opt.verbose arg)) = some (or_default arg (codes "1"))
level_of _ = none

-- A value that an argument replaces, if there is one.
abbrev pub set_by {ℓ κ} : {A : Type ℓ} {B : Type κ} → Option A → (A → B) → B → B
set_by none f old = old
set_by (some arg) f old = f arg

-- Quiet is what the last option that says so makes it.
abbrev pub quiet_of : Word → Option Bool
quiet_of (other Opt.quiet) = some true
quiet_of w = elim (requests_of w) [ [] ↦ none | r ∷ rs ↦ some (must_be_quiet r.path) ]

memory_after-tcp :
    (val : Bytes) → memory_after (codes "tcp:" ++ val) ≡ codes "tcp" ++ 0 ∷ (val ++ 0 ∷ [])
unfolding memory_after
memory_after-tcp val = ground arith

module _ {Seconds : Type 0} (atoi : Bytes → ℤ) (atof : Bytes → Seconds) (isatty : Bool)
    (term : Option Bytes) where
  pub record Effect (w : Word) (s s' : Parsing Seconds) : Type 0 where
    pub outputs : s'.outputs ≡ calls (map add_call (requests_of w)) s.outputs
    pub usage : s'.do_print_usage ≡ (wants_usage w || s.do_print_usage)
    pub version : s'.do_print_version ≡ (wants_version w || s.do_print_version)
    pub list : s'.do_list_tests ≡ (wants_list w || s.do_list_tests)
    pub quiet : s'.quiet ≡ set_by (quiet_of w) (λ b. b) s.quiet
    pub pattern : s'.options.pattern ≡ set_by (pattern_of w) some s.options.pattern
    pub level :
        s'.options.logging_threshold ≡ set_by (level_of w) (atou atoi) s.options.logging_threshold
    pub jobs : s'.options.jobs ≡ set_by (jobs_of w) (atou atoi) s.options.jobs

  abbrev pub Handles : Word → Parsing Seconds → Type 0
  Handles w s =
      (s' : Parsing Seconds) × (handle_option atoi atof isatty term true (spelled w) s ≡ ok s')
      × Effect w s s'

  dbg_accepted :
      (arg : Bytes) (o : Options Seconds)
      → IsAccepted (Opt.debug (some arg))
      → (o' : Options Seconds) × (parse_dbg (some arg) o ≡ ok o')
        × (o'.pattern ≡ o.pattern)
        × (o'.jobs ≡ o.jobs)
        × (o'.logging_threshold ≡ o.logging_threshold)
  unfolding parse_dbg
  dbg_accepted arg o (inl e) =
      (record o { debug = dbg_gdb }, rw (e, parse_dbg) refl, refl, refl, refl)
  dbg_accepted arg o (inr (inl e)) =
      (record o { debug = dbg_lldb }, rw (e, parse_dbg) refl, refl, refl, refl)
  dbg_accepted arg o (inr (inr (inl e))) =
      (record o { debug = dbg_windbg }, rw (e, parse_dbg) refl, refl, refl, refl)
  dbg_accepted arg o (inr (inr (inr e))) =
      (record o { debug = dbg_idle }, rw (e, parse_dbg) refl, refl, refl, refl)

  color_accepted :
      (arg : Bytes)
      → IsAccepted (Opt.color (some arg))
      → (color : Bool) × (deduce_color isatty term (some arg) ≡ ok color)
  unfolding deduce_color
  color_accepted arg (inl e) = (true, rw (e, deduce_color) refl)
  color_accepted arg (inr (inl e)) = (
    isatty && not (bytes_eq (codes "dumb") (or_default term (codes "dumb"))),
    rw (e, deduce_color) refl,
  )
  color_accepted arg (inr (inr e)) = (false, rw (e, deduce_color) refl)

  transport_accepted :
      (val : Bytes) (o : Options Seconds)
      → (o' : Options Seconds) × (parse_dbg_transport atoi (codes "tcp:" ++ val) o ≡ ok o')
        × (o'.pattern ≡ o.pattern)
        × (o'.jobs ≡ o.jobs)
        × (o'.logging_threshold ≡ o.logging_threshold)
  unfolding parse_dbg_transport
  transport_accepted [] o = (
    record o { debug_port = atou atoi [] },
    rw (memory_after-tcp [], parse_dbg_transport) refl,
    refl,
    refl,
    refl,
  )
  transport_accepted (c ∷ val) o = (
    record o { debug_port = atou atoi (c_string (c ∷ (val ++ 0 ∷ []))) },
    rw (memory_after-tcp (c ∷ val), parse_dbg_transport) refl,
    refl,
    refl,
    refl,
  )

  pub handle_option-Effect : (w : Word) (s : Parsing Seconds) → IsWord w → Handles w s
  unfolding handle_option
  handle_option-Effect (asks r) s h =
      (add_output r.provider r.path s, ap ok (parse_output-written r s h), ground arith)
  handle_option-Effect (transport val) s h =
      let (o, e, same_pattern, same_jobs, same_level) = transport_accepted val s.options in
      (record s { options = o }, rw (e, handle_option) refl, ground arith)
  handle_option-Effect (other (Opt.output arg)) s h = absurd h
  handle_option-Effect (other (Opt.debug_transport arg)) s h = absurd h
  handle_option-Effect (other (Opt.single arg)) s h = absurd h
  handle_option-Effect (other (Opt.debug (some arg))) s h =
      let (o, e, same_pattern, same_jobs, same_level) = dbg_accepted arg s.options h in
      (record s { options = o }, rw (e, handle_option) refl, ground arith)
  handle_option-Effect (other (Opt.color (some arg))) s h =
      let (c, e) = color_accepted arg h in
      (
        record s { options = record s.options { color = c } },
        rw (e, handle_option) refl,
        ground arith,
      )
  handle_option-Effect (other _) s h = (_, refl, ground arith)
