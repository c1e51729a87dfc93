-- ===== src/Options/State.antt =====
-- include/criterion/options.h and src/entry/params.c: the options of a run, and what the command
-- line has asked for so far.
use criterion.Common.{ℕ, ◌^◌, Bool, true, false, Option, none, [], Bytes}
use criterion.Output.{Outputs}

-- The result of atoi; `negsuc n` is -(n + 1).
pub data ℤ : Type 0 where
  pos : ℕ → ℤ
  negsuc : ℕ → ℤ

unfoldable pub atou : (Bytes → ℤ) → Bytes → ℕ
atou atoi str = elim (atoi str) [ pos n ↦ n | negsuc n ↦ 0 ]

-- enum criterion_debugger.
pub data Debugger : Type 0 where
  dbg_none dbg_idle dbg_native dbg_gdb dbg_lldb dbg_windbg : Debugger

-- struct criterion_options, but its logger and the field that does nothing. `Seconds` are the
-- numbers of atof.
pub record Options (Seconds : Type 0) : Type 0 where
  pub logging_threshold : ℕ
  pub always_succeed : Bool
  pub use_ascii : Bool
  pub fail_fast : Bool
  pub pattern : Option Bytes
  pub short_filename : Bool
  pub jobs : ℕ
  pub measure_time : Bool
  pub wait_for_clients : Bool
  pub crash : Bool
  pub debug : Debugger
  pub debug_port : ℕ
  pub timeout : Seconds
  pub full_stats : Bool
  pub encoding : Bytes
  pub color : Bool
  pub ignore_warnings : Bool
  pub executable_name : Option Bytes

-- CRITERION_LOG_LEVEL_QUIET.
abbrev pub log_level_quiet : ℕ
log_level_quiet = 2 ^ 30

-- The variables of criterion_handle_args, with the two objects that it changes.
pub record Parsing (Seconds : Type 0) : Type 0 where
  pub options : Options Seconds
  pub outputs : Outputs
  pub quiet : Bool
  pub do_list_tests : Bool
  pub do_print_version : Bool
  pub do_print_usage : Bool

-- `exit(3)` ends the program; `past_end` is a read behind the end of an object.
pub data Outcome {ℓ} (A : Type ℓ) : Type ℓ where
  ok : A → Outcome A
  exit_3 : Outcome A
  past_end : Outcome A

infixl 5 ◌>>=◌
abbrev pub ◌>>=◌ {ℓ κ} : {A : Type ℓ} {B : Type κ} → Outcome A → (A → Outcome B) → Outcome B
ok a >>= f = f a
exit_3 >>= f = exit_3
past_end >>= f = past_end

-- criterion_options before the program changes it; CRITERION_IMPORTANT is 2.
unfoldable pub criterion_options : {Seconds : Type 0} → Seconds → Options Seconds
criterion_options none_given = record {
  logging_threshold = 2;
  always_succeed = false;
  use_ascii = false;
  fail_fast = false;
  pattern = none;
  short_filename = false;
  jobs = 0;
  measure_time = true;
  wait_for_clients = false;
  crash = false;
  debug = dbg_none;
  debug_port = 1234;
  timeout = none_given;
  full_stats = false;
  encoding = [];
  color = false;
  ignore_warnings = false;
  executable_name = none;
}
