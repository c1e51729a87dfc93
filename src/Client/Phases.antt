-- ===== src/Client/Phases.antt =====
-- src/core/client.c, handle_phase and the handlers that it calls: the life of a test.
-- The handlers of one phase all return false, and so return only their scope here.
use criterion.Common.{ℕ, ◌+◌, ◌-◌, ◌*◌, ◌/◌, ◌%◌, ◌^◌, Bool, true, false, not, ◌&&◌}
use criterion.Common.{
  Option, none, some, List, [], ◌∷◌, Bytes, ltb, leb, ◌==◌, if◌then◌else◌, get_elem?,
}
use criterion.Stats.{failed, skipped, pre_init, pre_test, post_test, post_fini, u32, u64}
use criterion.Client.State.{PhaseKind, phase_to_state, cs_setup, cs_main, cs_teardown, cs_end}
use criterion.Client.State.{max_client_states, max_test_depth, state_to_string}
use criterion.Client.State.{Diagnostic, subtest_outside_main, already_ended, expected_state}
use criterion.Client.State.{nested_too_deep, Log, Report, log, report, undefined}
use criterion.Client.State.{null_message, null_instance, past_table, Scope, emit, Output}
use criterion.Client.State.{ClientKind, worker, extern}
use criterion.Client.State.{with_tstats, push_event_noreport, push_event, handler_error}
use criterion.Client.State.{setup, main, teardown, finish, abort, timeout, skip}

-- criterion_protocol_phase. A timestamp that is absent reads as 0.
pub record Phase : Type 0 where
  pub phase : PhaseKind
  pub timestamp : ℕ
  pub message : Option Bytes

-- `ctx->state < CS_MAX_CLIENT_STATES`: the message is about the test, not about a nested one.
abbrev pub is_outer : Scope → Bool
is_outer s = ltb s.client.state max_client_states

-- `ctx->state & (CS_MAX_CLIENT_STATES - 1)`.
abbrev pub curstate : ℕ → ℕ
curstate state = state % max_client_states

unfoldable pub handle_pre_init : Scope → Scope
unfolding push_event_noreport
handle_pre_init s =
    if s.client.state == 0
    then emit (log Log.pre_init) (emit (report Report.pre_init) (push_event_noreport pre_init s))
    else s

unfoldable pub handle_pre_test : Phase → Scope → Scope
unfolding push_event_noreport
handle_pre_test msg s =
    if is_outer s
    then emit (log Log.pre_test) (
        emit (report Report.pre_test) (
          push_event_noreport pre_test
            (record s { client = record s.client { start_time = msg.timestamp } })))
    else s

unfoldable pub handle_post_test : Phase → Scope → Scope
unfolding push_event_noreport
handle_post_test msg s =
    let elapsed_time = u64 (msg.timestamp + 2 ^ 64 - s.client.start_time) in
    if is_outer s
    then emit (log Log.post_test)
        (emit (report Report.post_test) (push_event_noreport (post_test elapsed_time) s))
    else s

unfoldable pub handle_post_fini : Scope → Scope
unfolding push_event
handle_post_fini s =
    if is_outer s then emit (log Log.post_fini) (push_event post_fini Report.post_fini s) else s

abbrev pub or_empty : Option Bytes → Bytes
or_empty none = []
or_empty (some m) = m

-- The event and the log entry that end the main phase, and those that end the test.
abbrev pub end_test : ℕ → Scope → Scope
end_test elapsed s = emit (log Log.post_test) (push_event (post_test elapsed) Report.post_test s)

abbrev pub end_fini : Scope → Scope
end_fini s = emit (log Log.post_fini) (push_event post_fini Report.post_fini s)

-- The branch of handle_abort for a nested test: strdup of the message, which may be null.
abbrev theory_failure : Option Bytes → Scope → Scope
theory_failure none s = emit (undefined null_message) s
theory_failure (some m) s = emit (log (Log.theory_fail m)) (emit (report Report.theory_fail) s)

unfoldable pub handle_abort : Phase → Scope → Scope
unfolding push_event
handle_abort msg s =
    let cur = curstate s.client.state in
    let marked = with_tstats (record s.client.tstats { test_status = failed }) s in
    let logged = emit (log (Log.test_abort (or_empty msg.message))) marked in
    let tested = if ltb cur cs_teardown then end_test 0 logged else logged in
    let finished = if ltb cur cs_end then end_fini tested else tested in
    if is_outer s then finished else theory_failure msg.message s

-- `ctx->instance->time`: only a worker has an instance.
abbrev pub read_instance : ClientKind → List Output → List Output
read_instance worker out = out
read_instance extern out = undefined null_instance ∷ out

unfoldable pub handle_timeout : Scope → Scope
unfolding push_event
handle_timeout s =
    let read = record s { out = read_instance s.client.kind s.out } in
    let marked = with_tstats (record s.client.tstats { timed_out = true }) read in
    let tested = push_event (post_test s.client.elapsed) Report.post_test marked in
    let finished = push_event post_fini Report.post_fini tested in
    if is_outer s then emit (log Log.test_timeout) finished else s

unfoldable pub handle_skip : Phase → Scope → Scope
unfolding push_event
handle_skip msg s =
    let marked =
      with_tstats (record s.client.tstats { test_status = skipped; message = msg.message }) s in
    let tested = push_event (post_test 0) Report.post_test marked in
    let finished = push_event post_fini Report.post_fini tested in
    if is_outer s then emit (log Log.post_test) finished else s

-- The checks at the head of handle_phase, for the new state and the client's.
unfoldable pub phase_error : ℕ → ℕ → Option Diagnostic
phase_error new_state state =
    let cur = curstate state in
    if new_state == cs_setup
    then if not (state == 0) && not (state == cs_main)
      then some subtest_outside_main
      else if not (state / 2 ^ ((max_test_depth - 1) * 2) % 4 == 0)
      then some nested_too_deep
      else none
    else if cur == cs_end
    then some (already_ended (get_elem? state_to_string new_state))
    else if ltb cur cs_end && leb new_state cs_end && not (new_state == cur + 1)
    then some (
        expected_state (get_elem? state_to_string (state + 1))
          (get_elem? state_to_string new_state))
    else none

-- The table `handlers`.
unfoldable pub run_handler : Phase → Scope → Scope
unfolding handle_pre_init handle_pre_test handle_post_test handle_post_fini handle_abort
    handle_timeout handle_skip
run_handler msg s = elim msg.phase [
  | setup ↦ handle_pre_init s
  | main ↦ handle_pre_test msg s
  | teardown ↦ handle_post_test msg s
  | finish ↦ handle_post_fini s
  | abort ↦ handle_abort msg s
  | timeout ↦ handle_timeout s
  | skip ↦ handle_skip msg s
]

-- The new value of `ctx->state`, a uint32_t.
unfoldable pub next_state : ℕ → ℕ → ℕ
next_state new_state state =
    if leb cs_end new_state
    then if not (state / 4 == 0) then state / 4 else cs_end
    else if new_state == cs_setup
    then u32 (state * 4)
    else u32 (state + 1)

-- Building the message reads state_to_string, out of its range when the entry is missing.
abbrev pub reads_past : Diagnostic → Bool
reads_past (expected_state none _) = true
reads_past _ = false

abbrev pub phase_failure : Diagnostic → Scope → Scope
phase_failure d s =
    if reads_past d then handler_error d (emit (undefined past_table) s) else handler_error d s

-- The result says whether an answer has been sent.
unfoldable pub handle_phase : Phase → Scope → Scope × Bool
unfolding phase_error run_handler next_state handler_error
handle_phase msg s =
    let new_state = phase_to_state msg.phase in
    let handled = run_handler msg s in
    let client = record handled.client { state = next_state new_state handled.client.state } in
    elim (phase_error new_state s.client.state) [
      | some d ↦ (phase_failure d s, true)
      | none ↦ (record handled { client = client }, false)
    ]
