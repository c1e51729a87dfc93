-- ===== src/Runner/Death.antt =====
-- src/core/runner_coroutine.c, death_callback: what the runner hears of a worker that has ended.
use criterion.Common.{ℕ, ◌≡◌, refl, Bool, true, false, not, none, some, List, [], ◌∷◌}
use criterion.Common.{==_iff, ◌==◌, if◌then◌else◌, arith}
use criterion.Stats.{TestStats, failed, u32, has_failed, stat_push_event, push_post_test}
use criterion.Client.State.{ClientCtx, Scope, push_event, timeout, cs_main, cs_end}
use criterion.Client.Handlers.{DeathResult, normal, crash}
use criterion.Client.Server.{Value, Msg, pid, Server, process_client_message_impl, scope_of}
use criterion.Client.Server.{process_client_message, process_pid, process_id}

-- The status of a boxfort instance, as the code reads it.
pub record InstanceStatus : Type 0 where
  pub signal : ℕ
  pub exit : ℕ
  pub timed_out : Bool

abbrev message_of : ℕ → Value → Msg
message_of key value = record { version = 1; id = pid key; value = value }

abbrev timeout_message : ℕ → ℕ → Msg
timeout_message key now =
    message_of key (Value.phase (record { phase = timeout; timestamp = now; message = none }))

abbrev death_message : ℕ → DeathResult → ℕ → Msg
death_message key result code =
    message_of key (Value.death (record { result = result; status = code }))

-- The messages that it sends, in their order, at the time `now`.
unfoldable pub death_callback : ℕ → ℕ → InstanceStatus → List Msg
death_callback key now status =
    if status.timed_out
    then timeout_message key now ∷ death_message key normal 0 ∷ []
    else if not (status.signal == 0)
    then death_message key crash status.signal ∷ []
    else death_message key normal status.exit ∷ []

-- The server, after messages.
unfoldable process_all : List Msg → Server → Server
unfolding process_client_message
process_all [] sctx = sctx
process_all (msg ∷ msgs) sctx = process_all msgs (process_client_message msg sctx).0

-- A client whose test has timed out and whose process is dead.
record TimedOut (c : ClientCtx) : Type 0 where
  pub dead : c.alive ≡ false
  pub over : c.state ≡ cs_end
  pub status : c.tstats.test_status ≡ failed

abbrev OverFailed : ClientCtx → Type 0
OverFailed c = (c.state ≡ 3) × (c.tstats.test_status ≡ failed)

has_failed-timed_out : (t : TestStats) → t.timed_out ≡ true → has_failed t ≡ true
unfolding has_failed
has_failed-timed_out t e = ground arith

timeout-OverFailed :
    (now : ℕ) (s : Scope)
    → s.client.state ≡ 1
    → OverFailed
        (process_client_message_impl
          (Value.phase (record { phase = timeout; timestamp = now; message = none }))
          s).client
unfolding process_client_message_impl stat_push_event push_post_test push_event
timeout-OverFailed now s e =
    let marked = record s.client.tstats { timed_out = true } in
    rw (e, process_client_message_impl) (refl, ground (arith, has_failed-timed_out marked refl))

death-TimedOut :
    (code : ℕ) (s : Scope)
    → OverFailed s.client
    → TimedOut
        (process_client_message_impl
          (Value.death (record { result = normal; status = code }))
          s).client
unfolding process_client_message_impl
death-TimedOut code s (e, f) =
    rw (e, process_client_message_impl) (record { dead = refl; over = refl; status = f })

process_client_message-known :
    (key : ℕ) (v : Value) (sctx : Server) (c : ClientCtx)
    → sctx.subprocesses (u32 key) ≡ some c
    → (process_client_message (message_of key v) sctx).0.subprocesses (u32 key)
      ≡ some (process_client_message_impl v (scope_of c sctx)).client
unfolding process_client_message
process_client_message-known key v sctx c e =
    rw (e, (==_iff (u32 key) (u32 key)).1 refl, process_client_message, process_id, process_pid)
      refl

-- A worker that times out in the main phase of its test: the messages of death_callback leave the
-- server with the client of that process dead, its test over and failed.
death_callback-TimedOut :
    (key now : ℕ) (status : InstanceStatus) (sctx : Server) (c : ClientCtx)
    → status.timed_out ≡ true
    → sctx.subprocesses (u32 key) ≡ some c
    → c.state ≡ cs_main
    → (d : ClientCtx) × ((process_all (death_callback key now status) sctx).subprocesses (u32 key)
        ≡ some d)
      × TimedOut d
unfolding process_all death_callback
death_callback-TimedOut key now status sctx c t e m =
    let v = Value.phase (record { phase = timeout; timestamp = now; message = none }) in
    let w = Value.death (record { result = normal; status = 0 }) in
    let s1 = (process_client_message (timeout_message key now) sctx).0 in
    let c1 = (process_client_message_impl v (scope_of c sctx)).client in
    rw (t, death_callback)
      (
        (process_client_message_impl w (scope_of c1 s1)).client,
        process_client_message-known key w s1 c1 (process_client_message-known key v sctx c e),
        death-TimedOut 0 (scope_of c1 s1) (timeout-OverFailed now (scope_of c sctx) m),
      )
