-- ===== src/Client/Answers.antt =====
-- src/core/client.c: each message is answered once, which the worker that sent it waits for.
use criterion.Common.{ℕ, suc, ◌+◌, ◌≡◌, refl, ap, ◌∙◌, inl, inr, arith, Bool, true, false}
use criterion.Common.{Option, List, [], ◌∷◌, Option-cases, if_cases, Bytes}
use criterion.Common.{◌==◌, if◌then◌else◌}
use criterion.Stats.{AssertStats, u32}
use criterion.Client.State.{ClientKind, worker, extern, undefined}
use criterion.Client.State.{Output, ack, ClientCtx, Scope, handler_error, emit}
use criterion.Client.State.{Diagnostic, phase_to_state}
use criterion.Client.State.{Param, log, Log, Severity}
use criterion.Client.Phases.{
  Phase, phase_error, read_instance, run_handler, handle_phase, phase_failure,
}
use criterion.Client.Handlers.{Death, Assert, Statistic, Result, ResultValue, handle_death}
use criterion.Client.Handlers.{handle_assert, log_params, log_pair, log_value, log_result}
use criterion.Client.Handlers.{log_results, assert_stats, handle_statistic, handle_message}
use criterion.Client.Handlers.{handle_birth, params, formatted, unset}
use criterion.Client.Server.{
  Value, Msg, Server, handle, process_client_message_impl, process_pid, scope_of,
}
use criterion.Client.Server.{
  process_uid, process_client_message, register, process_id, MsgId, pid, uid, no_id,
}

-- How many answers have been sent.
abbrev pub acks : List Output → ℕ
acks [] = 0
acks (ack ok ∷ out) = suc (acks out)
acks (_ ∷ out) = acks out

-- How often the handlers have met undefined behaviour.
abbrev pub undefineds : List Output → ℕ
undefineds [] = 0
undefineds (undefined u ∷ out) = suc (undefineds out)
undefineds (_ ∷ out) = undefineds out

read_instance-acks : (k : ClientKind) (out : List Output) → acks (read_instance k out) ≡ acks out
read_instance-acks worker out = refl
read_instance-acks extern out = refl

run_handler-acks : (msg : Phase) (s : Scope) → acks (run_handler msg s).out ≡ acks s.out
unfolding run_handler
run_handler-acks msg s = ground (arith, read_instance-acks s.client.kind s.out)

-- What `answered` adds.
abbrev Answered : Scope → Scope × Bool → Type 0
Answered s (s', true) = acks s'.out ≡ acks s.out + 1
Answered s (s', false) = acks s'.out ≡ acks s.out

phase_failure-acks : (d : Diagnostic) (s : Scope) → acks (phase_failure d s).out ≡ acks s.out + 1
unfolding handler_error
phase_failure-acks d s = ground arith

handle_phase-Answered : (msg : Phase) (s : Scope) → Answered s (handle_phase msg s)
unfolding handle_phase
handle_phase-Answered msg s =
    elim (Option-cases (phase_error (phase_to_state msg.phase) s.client.state)) [
      | inl e ↦ rw (e, handle_phase) (run_handler-acks msg s)
      | inr (d, e) ↦ rw (e, handle_phase) (phase_failure-acks d s)
    ]

handle_death-acks : (d : Death) (s : Scope) → acks (handle_death d s).out ≡ acks s.out
unfolding handle_death
handle_death-acks d s = ground arith

log_params-acks :
    (a : AssertStats) (list : List Param) (s : Scope) → acks (log_params a list s).out ≡ acks s.out
unfolding log_params
log_params-acks a [] s = refl
log_params-acks a (p ∷ list) s = log_params-acks a list (emit _ s)

log_pair-acks :
    (a : AssertStats) (x y : Param) (list : List Param) (s : Scope)
    → acks (log_pair a x y list s).out ≡ acks s.out
unfolding log_pair
log_pair-acks a x y list s = ground (
  arith,
  log_params-acks a (x ∷ y ∷ list) s,
  log_params-acks a list (emit (log (Log.assert_param_eq x y)) s),
)

log_value-acks :
    (a : AssertStats) (v : ResultValue) (s : Scope) → acks (log_value a v s).out ≡ acks s.out
unfolding log_value
log_value-acks a (params (x ∷ y ∷ list)) s = log_pair-acks a x y list s
log_value-acks a (params []) s = log_params-acks a [] s
log_value-acks a (params (x ∷ [])) s = log_params-acks a (x ∷ []) s
log_value-acks a (formatted text word) s = refl
log_value-acks a unset s = refl

log_result-acks :
    (a : AssertStats) (r : Result) (s : Scope) → acks (log_result a r s).out ≡ acks s.out
unfolding log_result
log_result-acks a r s =
    ground (arith, log_value-acks a r.value (emit (log (Log.assert_sub r.repr r.message)) s))

log_results-acks :
    (a : AssertStats) (rs : List Result) (s : Scope) → acks (log_results a rs s).out ≡ acks s.out
unfolding log_results
log_results-acks a [] s = refl
log_results-acks a (r ∷ rs) s = log_results-acks a rs (log_result a r s) ∙ log_result-acks a r s

handle_assert-acks : (a : Assert) (s : Scope) → acks (handle_assert a s).out ≡ acks s.out
unfolding handle_assert
handle_assert-acks a s = log_results-acks (assert_stats a) a.results _

handle_statistic-acks : (x : Statistic) (s : Scope) → acks (handle_statistic x s).out ≡ acks s.out
unfolding handle_statistic
handle_statistic-acks x s = ground arith

handle_message-acks :
    (v : Severity) (t : Bytes) (s : Scope) → acks (handle_message v t s).out ≡ acks s.out
unfolding handle_message
handle_message-acks v t s = ground arith

handle-Answered : (v : Value) (s : Scope) → Answered s (handle v s)
unfolding handle handle_birth
handle-Answered Value.birth s = refl
handle-Answered (Value.phase p) s = handle_phase-Answered p s
handle-Answered (Value.death d) s = handle_death-acks d s
handle-Answered (Value.message v t) s = handle_message-acks v t s
handle-Answered (Value.assert a) s = handle_assert-acks a s
handle-Answered (Value.statistic x) s = handle_statistic-acks x s
handle-Answered Value.unknown s = refl

Answered-total :
    (s : Scope) (r : Scope × Bool)
    → Answered s r
    → acks (if r.1 then r.0 else emit (ack true) r.0).out ≡ acks s.out + 1
Answered-total s (s', true) h = h
Answered-total s (s', false) h = omega arith

impl-acks : (v : Value) (s : Scope) → acks (process_client_message_impl v s).out ≡ acks s.out + 1
unfolding process_client_message_impl
impl-acks v s = Answered-total s (handle v s) (handle-Answered v s)

process_pid-acks :
    (key : ℕ) (v : Value) (sctx : Server) → acks (process_pid key v sctx).0.out ≡ acks sctx.out + 1
unfolding process_pid
process_pid-acks key v sctx = elim (Option-cases (sctx.subprocesses (u32 key))) [
  | inl e ↦ rw (e, process_pid) (omega arith)
  | inr (c, e) ↦ rw (e, process_pid) (impl-acks v (scope_of c sctx))
]

process_uid-acks :
    (key : Bytes) (v : Value) (sctx : Server)
    → acks (process_uid key v sctx).0.out ≡ acks sctx.out + 1
unfolding process_uid
process_uid-acks key v sctx = elim (Option-cases (sctx.clients key)) [
  | inl e ↦ rw (e, process_uid) (omega arith)
  | inr (c, e) ↦ rw (e, process_uid) (impl-acks v (scope_of c sctx))
]

register-out : (key : Bytes) (v : Value) (sctx : Server) → (register key v sctx).out ≡ sctx.out
unfolding register
register-out key v sctx = ground arith

process_id-acks :
    (id : MsgId) (v : Value) (sctx : Server) → acks (process_id id v sctx).0.out ≡ acks sctx.out + 1
unfolding process_id
process_id-acks (pid key) v sctx = process_pid-acks key v sctx
process_id-acks (uid key) v sctx =
    process_uid-acks key v (register key v sctx)
    ∙ ap (λ out. acks out + 1) (register-out key v sctx)
process_id-acks no_id v sctx = omega arith

-- No handler dereferences a null pointer or reads past a table.
abbrev pub IsDefined : Msg → Server → Type 0
IsDefined msg sctx = undefineds (process_client_message msg sctx).0.out ≡ undefineds sctx.out

-- Whatever a message is, and whether its sender is known or not, the server answers it exactly
-- once, if its handler meets no undefined behaviour.
pub process_client_message-acks :
    (msg : Msg) (sctx : Server)
    → IsDefined msg sctx
    → acks (process_client_message msg sctx).0.out ≡ acks sctx.out + 1
unfolding process_client_message
process_client_message-acks msg sctx _ =
    if_cases (λ (r : Server × Option ClientCtx). acks r.0.out ≡ acks sctx.out + 1)
      (msg.version == 1) (λ _. process_id-acks msg.id msg.value sctx) (λ _. omega arith)
