-- ===== src/Client/State.antt =====
-- src/core/client.h, and the part of the protocol that src/core/client.c reads.
-- What a handler does besides changing the state is a list of outputs, the latest first. Where C
-- leaves the behaviour undefined, an output says so.
use criterion.Common.{ℕ, Bool, false, Option, List, [], ◌∷◌, Bytes}
use criterion.Stats.{AssertStats, TestStats, SuiteStats, GlobalStats, Stats, Event, stat_push_event}

-- The phase messages, in the order of `enum client_state`.
pub data PhaseKind : Type 0 where
  setup main teardown finish abort timeout skip : PhaseKind

-- enum client_state, through the table phase_to_state.
abbrev pub cs_setup : ℕ
cs_setup = 0

abbrev pub cs_main : ℕ
cs_main = 1

abbrev pub cs_teardown : ℕ
cs_teardown = 2

abbrev pub cs_end : ℕ
cs_end = 3

abbrev pub phase_to_state : PhaseKind → ℕ
phase_to_state setup = 0
phase_to_state main = 1
phase_to_state teardown = 2
phase_to_state finish = 3
phase_to_state abort = 4
phase_to_state timeout = 5
phase_to_state skip = 6

-- CS_MAX_CLIENT_STATES and MAX_TEST_DEPTH.
abbrev pub max_client_states : ℕ
max_client_states = 4

abbrev pub max_test_depth : ℕ
max_test_depth = 16

-- The entries of the table state_to_string, which has seven.
pub data StateName : Type 0 where
  setup main teardown end abort timeout skip : StateName

abbrev pub state_to_string : List StateName
state_to_string =
    StateName.setup ∷ StateName.main ∷ StateName.teardown ∷ StateName.end ∷ StateName.abort
    ∷ StateName.timeout ∷ StateName.skip ∷ []

-- The messages of handler_error.
pub data Diagnostic : Type 0 where
  invalid_version : ℕ → Diagnostic
  not_a_child : ℕ → Diagnostic
  no_birth : Bytes → Diagnostic
  malformed_id : Diagnostic
  subtest_outside_main : Diagnostic
  nested_too_deep : Diagnostic
  already_ended : Option StateName → Diagnostic
  expected_state : Option StateName → Option StateName → Diagnostic

pub data Severity : Type 0 where
  info warning error : Severity

-- struct cr_log_assert_param.
pub data ParamValue : Type 0 where
  raw str : Bytes → ParamValue
  unset : ParamValue

pub record Param : Type 0 where
  pub name : Option Bytes
  pub value : ParamValue

-- The calls of the logger.
pub data Log : Type 0 where
  pre_suite pre_init pre_test post_test post_fini test_timeout : Log
  other_crash test_crash abnormal_exit : Log
  test_abort : Bytes → Log
  theory_fail : Bytes → Log
  assert : AssertStats → Log
  assert_sub : Bytes → Option Bytes → Log
  assert_param_eq : Param → Param → Log
  assert_param : Param → Log
  assert_formatted : Bytes → Log
  message : Severity → Bytes → Log

-- The report hooks.
pub data Report : Type 0 where
  pre_suite post_suite : Report
  pre_init pre_test assert theory_fail test_crash post_test post_fini : Report

-- Undefined behaviour: strdup or strcmp of a null pointer, a read past the table
-- state_to_string, a null parameter list, the run time of a null instance.
pub data Undefined : Type 0 where
  null_message null_name past_table null_params null_instance : Undefined

pub data Output : Type 0 where
  ack : Bool → Output
  perror : Diagnostic → Output
  log : Log → Output
  report : Report → Output
  undefined : Undefined → Output

pub data ClientKind : Type 0 where
  worker extern : ClientKind

-- struct client_ctx. `suite` is the number of its suite statistics; `elapsed` is the run time of
-- its instance in nanoseconds; the test itself is `tstats.test`.
pub record ClientCtx : Type 0 where
  pub kind : ClientKind
  pub elapsed : ℕ
  pub state : ℕ
  pub alive : Bool
  pub start_time : ℕ
  pub suite : ℕ
  pub tstats : TestStats

-- What a handler reads and changes.
pub record Scope : Type 0 where
  pub client : ClientCtx
  pub gstats : GlobalStats
  pub sstats : SuiteStats
  pub out : List Output

abbrev pub emit : Output → Scope → Scope
emit o s = record s { out = o ∷ s.out }

abbrev pub with_tstats : TestStats → Scope → Scope
with_tstats t s = record s { client = record s.client { tstats = t } }

abbrev pub stats_of : Scope → Stats
stats_of s = record { gstats = s.gstats; sstats = s.sstats; tstats = s.client.tstats }

abbrev with_stats : Stats → Scope → Scope
with_stats x s = record s {
  gstats = x.gstats;
  sstats = x.sstats;
  client = record s.client { tstats = x.tstats };
}

-- The macros push_event_noreport and push_event.
unfoldable pub push_event_noreport : Event → Scope → Scope
push_event_noreport e s = with_stats (stat_push_event e (stats_of s)) s

unfoldable pub push_event : Event → Report → Scope → Scope
unfolding push_event_noreport
push_event e r s = emit (report r) (push_event_noreport e s)

-- The macro handler_error: the handler then returns that it has answered.
unfoldable pub handler_error : Diagnostic → Scope → Scope
handler_error d s = emit (ack false) (emit (perror d) s)
