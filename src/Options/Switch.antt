-- ===== src/Options/Switch.antt =====
-- src/entry/params.c: the table of options, and the `switch` of criterion_handle_args.
use criterion.Common.{◌+◌, Bool, true, false, not, ◌&&◌, Option, none, some}
use criterion.Common.{
  List, [], ◌∷◌, ◌++◌, Bytes, codes, bytes_eq, length, take, drop, ◌==◌, if◌then◌else◌,
}
use criterion.Output.{criterion_add_output}
use criterion.Options.Tokens.{skip, strtok_r, text_after, must_be_quiet}
use criterion.Options.State.{ℤ, atou, Options, Parsing, Outcome, ok, exit_3, past_end, ◌>>=◌}
use criterion.Options.State.{dbg_idle, dbg_native, dbg_gdb, dbg_lldb, dbg_windbg}

-- A row of `opts`, with `optarg`; `unknown` is what getopt_long reports by a question mark.
pub data Opt : Type 0 where
  verbose : Option Bytes → Opt
  quiet version help list ascii fail_fast short_filename always_succeed no_early_exit : Opt
  tap xml json : Option Bytes → Opt
  jobs timeout single pattern filter output debug_transport encoding : Bytes → Opt
  wait crash full_stats ignore_warnings unknown : Opt
  debug color : Option Bytes → Opt

abbrev pub or_default : Option Bytes → Bytes → Bytes
or_default none default = default
or_default (some arg) default = arg

-- Up to the first NUL.
abbrev pub c_string : Bytes → Bytes
c_string [] = []
c_string (c ∷ memory) = let rest = c_string memory in if c == 0 then [] else c ∷ rest

-- What strtok_r leaves in the memory of the copy: a NUL in place of the delimiter, the rest, and
-- the NUL at the end.
unfoldable pub memory_after : Bytes → Bytes
unfolding skip strtok_r text_after
memory_after arg = elim (strtok_r b':' arg) [
  | none ↦ arg ++ 0 ∷ []
  | some (token, rest) ↦
      let read = text_after b':' arg in
      if length read == length arg then read ++ 0 ∷ [] else read ++ 0 ∷ (rest ++ 0 ∷ [])
]

module _ {Seconds : Type 0} where
  -- The text `offset` bytes behind the beginning of the copy.
  abbrev pub debug_port_at : (Bytes → ℤ) → Bytes → Options Seconds → Outcome (Options Seconds)
  debug_port_at atoi [] o = past_end
  debug_port_at atoi (c ∷ memory) o =
      ok (record o { debug_port = atou atoi (c_string (c ∷ memory)) })

  -- The returned value is always 1.
  unfoldable pub parse_dbg_transport :
      (Bytes → ℤ) → Bytes → Options Seconds → Outcome (Options Seconds)
  unfolding atou strtok_r bytes_eq
  parse_dbg_transport atoi arg o = elim (strtok_r b':' arg) [
    | none ↦ ok o
    | some (transport, rest) ↦
        if bytes_eq transport (codes "tcp")
        then debug_port_at atoi (drop (length transport + 1) (memory_after arg)) o
        else ok o
  ]

  -- `exit(3)` follows the returned value 0.
  unfoldable pub parse_dbg : Option Bytes → Options Seconds → Outcome (Options Seconds)
  unfolding bytes_eq
  parse_dbg none o = ok (record o { debug = dbg_native })
  parse_dbg (some arg) o =
      if bytes_eq (codes "gdb") arg
      then ok (record o { debug = dbg_gdb })
      else if bytes_eq (codes "lldb") arg
      then ok (record o { debug = dbg_lldb })
      else if bytes_eq (codes "windbg") arg
      then ok (record o { debug = dbg_windbg })
      else if bytes_eq (codes "idle") arg
      then ok (record o { debug = dbg_idle })
      else exit_3

  -- The encoding has 64 bytes with its NUL.
  unfoldable pub set_encoding : Bytes → Options Seconds → Options Seconds
  set_encoding name o = record o { encoding = take 63 name }

  unfoldable pub add_output : Bytes → Bytes → Parsing Seconds → Parsing Seconds
  unfolding must_be_quiet criterion_add_output
  add_output provider path s = record s {
    quiet = must_be_quiet path;
    outputs = criterion_add_output provider path s.outputs;
  }

  -- `case 'O'`.
  unfoldable pub parse_output : Bytes → Parsing Seconds → Parsing Seconds
  unfolding strtok_r text_after add_output
  parse_output arg s = elim (strtok_r b':' arg) [
    | none ↦ record s { do_print_usage = true }
    | some (token, rest) ↦ elim (strtok_r b':' rest) [
      | none ↦ record s { do_print_usage = true }
      | some (path, rest') ↦ add_output (text_after b':' arg) path s
    ]
  ]

unfoldable pub deduce_color : (isatty : Bool) → (term : Option Bytes) → Option Bytes → Outcome Bool
unfolding bytes_eq
deduce_color isatty term none = ok true
deduce_color isatty term (some arg) =
    if bytes_eq arg (codes "always")
    then ok true
    else if bytes_eq arg (codes "auto")
    then ok (isatty && not (bytes_eq (codes "dumb") (or_default term (codes "dumb"))))
    else if bytes_eq arg (codes "never")
    then ok false
    else exit_3

module _ {Seconds : Type 0} (atoi : Bytes → ℤ) (atof : Bytes → Seconds) (isatty : Bool)
    (term : Option Bytes) (handle_unknown_arg : Bool) where
  -- The `switch`.
  unfoldable pub handle_option : Opt → Parsing Seconds → Outcome (Parsing Seconds)
  unfolding atou parse_dbg parse_dbg_transport add_output parse_output deduce_color set_encoding
  handle_option (verbose arg) s = ok (record s {
    options = record s.options { logging_threshold = atou atoi (or_default arg (codes "1")) };
  })
  handle_option always_succeed s =
      ok (record s { options = record s.options { always_succeed = true } })
  handle_option no_early_exit s = ok s
  handle_option ascii s = ok (record s { options = record s.options { use_ascii = true } })
  handle_option (jobs arg) s = ok (record s { options = record s.options { jobs = atou atoi arg } })
  handle_option fail_fast s = ok (record s { options = record s.options { fail_fast = true } })
  handle_option short_filename s =
      ok (record s { options = record s.options { short_filename = true } })
  handle_option (pattern arg) s =
      ok (record s { options = record s.options { pattern = some arg } })
  handle_option (filter arg) s = ok (record s { options = record s.options { pattern = some arg } })
  handle_option quiet s = ok (record s { quiet = true })
  handle_option (timeout arg) s =
      ok (record s { options = record s.options { timeout = atof arg } })
  handle_option (debug arg) s = do
    options ← parse_dbg arg s.options
    ok (record s { options = options })
  handle_option (debug_transport arg) s = do
    options ← parse_dbg_transport atoi arg s.options
    ok (record s { options = options })
  handle_option (tap arg) s = ok (add_output (codes "tap") (or_default arg (codes "-")) s)
  handle_option (xml arg) s = ok (add_output (codes "xml") (or_default arg (codes "-")) s)
  handle_option (json arg) s = ok (add_output (codes "json") (or_default arg (codes "-")) s)
  handle_option list s = ok (record s { do_list_tests = true })
  handle_option version s = ok (record s { do_print_version = true })
  handle_option help s = ok (record s { do_print_usage = true })
  handle_option (output arg) s = ok (parse_output arg s)
  handle_option wait s = ok (record s { options = record s.options { wait_for_clients = true } })
  handle_option (single arg) s = exit_3
  handle_option crash s = ok (record s { options = record s.options { crash = true } })
  handle_option full_stats s = ok (record s { options = record s.options { full_stats = true } })
  handle_option (color arg) s = do
    colored ← deduce_color isatty term arg
    ok (record s { options = record s.options { color = colored } })
  handle_option (encoding arg) s = ok (record s { options = set_encoding arg s.options })
  handle_option ignore_warnings s =
      ok (record s { options = record s.options { ignore_warnings = true } })
  handle_option unknown s = ok (record s { do_print_usage = handle_unknown_arg })

  -- The loop over the options.
  unfoldable pub handle_options : List Opt → Parsing Seconds → Outcome (Parsing Seconds)
  unfolding handle_option
  handle_options [] s = ok s
  handle_options (opt ∷ opts) s = do s ← handle_option opt s; handle_options opts s
