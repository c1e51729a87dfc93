-- ===== src/Runner/Loop.antt =====
-- src/core/runner.c, run_tests_async and criterion_run_all_tests: the workers and the messages.
-- `pid_of` is the process identifier that the system gives to the worker whose test statistics
-- have that number. What the calls of read_message deliver is a list, with `none` for a call that
-- does not return 1. cr_terminate ends the
-- program.
use criterion.Common.{ℕ, zero, suc, ◌+◌, ◌-◌, ◌^◌, Bool, true, false, not, ◌&&◌, ◌||◌}
use criterion.Common.{Option, none, some, List, [], ◌∷◌, ◌==◌, if◌then◌else◌}
use criterion.Stats.{TestStats, TestStatus, failed, GlobalStats, SuiteStats, u64}
use criterion.Client.State.{ClientCtx, ClientKind, worker, extern}
use criterion.Client.Server.{Server, Msg, MsgId, pid, process_client_message}
use criterion.Client.Server.{add_client_from_worker, remove_client_by_pid, init_server_context}
use criterion.Runner.Coroutine.{Coroutine, at_suites, cri_run_next_test}
use criterion.Runner.Registry.{SuiteSet, Test}

pub record Options : Type 0 where
  pub fail_fast : Bool
  pub wait_for_clients : Bool
  pub ignore_warnings : Bool
  pub always_succeed : Bool

-- The variables of run_tests_async.
pub record Loop : Type 0 where
  pub sctx : Server
  pub coroutine : Coroutine
  pub active_workers : ℕ

-- Between two messages: the loop goes on, has been left because no worker is active, has been left
-- because read_message did not return 1, or the program has ended.
pub data Status : Type 0 where
  running stopped unread terminated : Loop → Status

abbrev pub is_failed : TestStatus → Bool
is_failed failed = true
is_failed _ = false

abbrev pub is_worker : ClientKind → Bool
is_worker worker = true
is_worker extern = false

-- `cctx->instance->pid`: a worker is found by the identifier of its process.
abbrev pub instance_pid : MsgId → ℕ
instance_pid (pid key) = key
instance_pid _ = 0

-- Whether a worker has been started: the loop's state in each case.
abbrev pub if_started : Option (Test × ClientCtx) → Loop → Loop → Loop
if_started none l k = l
if_started (some _) l k = k

module _ (options : Options) (pid_of : ℕ → ℕ) (no_test : TestStats) where
  abbrev add_started : Option (Test × ClientCtx) → Server → Server
  add_started none sctx = sctx
  add_started (some (t, c)) sctx = add_client_from_worker (pid_of c.tstats.ref) c sctx

  -- After its end the coroutine starts anew without a set of tests, and returns null again. The
  -- loop's state after the call, and whether a worker has been started.
  unfoldable pub spawn_next_client : Loop → Loop × Option (Test × ClientCtx)
  unfolding cri_run_next_test add_client_from_worker
  spawn_next_client l =
      let call = cri_run_next_test no_test l.coroutine l.sctx in
      (
        record l { sctx = add_started call.started call.sctx; coroutine = call.coroutine },
        call.started,
      )

  -- The workers that are started at first.
  unfoldable pub start_workers : ℕ → Loop → Loop
  unfolding spawn_next_client
  start_workers zero l = l
  start_workers (suc n) l =
      let (l', started) = spawn_next_client l in
      let rest = start_workers n (record l' { active_workers = u64 (l'.active_workers + 1) }) in
      if_started started l' rest

  -- `if (!active_workers && !criterion_options.wait_for_clients)`.
  unfoldable pub stop_when_idle : Loop → Status
  stop_when_idle l =
      if l.active_workers == 0 && not options.wait_for_clients then stopped l else running l

  -- A worker that has died is replaced, as long as there are tests.
  unfoldable pub replace_worker : MsgId → Loop → Loop
  unfolding spawn_next_client remove_client_by_pid
  replace_worker id l =
      let sctx = remove_client_by_pid (instance_pid id) l.sctx in
      let (l', started) = spawn_next_client (record l { sctx = sctx }) in
      if_started started (record l' { active_workers = u64 (l'.active_workers + (2 ^ 64 - 1)) }) l'

  -- What follows process_client_message, for the client that it returns.
  unfoldable pub after_message : MsgId → ClientCtx → Loop → Status
  unfolding replace_worker stop_when_idle
  after_message id cctx l =
      if cctx.alive
      then stop_when_idle l
      else if is_failed cctx.tstats.test_status && options.fail_fast
      then terminated l
      else if is_worker cctx.kind
      then stop_when_idle (replace_worker id l)
      else stop_when_idle l

  -- One round of the loop. A message without a client is dropped.
  unfoldable pub receive : Msg → Loop → Status
  unfolding process_client_message after_message
  receive msg l =
      let (sctx, client) = process_client_message msg l.sctx in
      let l' : Loop = record l { sctx = sctx } in
      elim client [ none ↦ running l' | some cctx ↦ after_message msg.id cctx l' ]

  -- The loop of run_tests_async over its calls of read_message.
  unfoldable pub read_messages : List (Option Msg) → Status → Status
  unfolding receive
  read_messages [] s = s
  read_messages (arrival ∷ msgs) (running l) = elim arrival [
    | none ↦ unread l
    | some msg ↦ read_messages msgs (receive msg l)
  ]
  read_messages (arrival ∷ msgs) s = s

  -- The server's table is set up first; `fresh` and `table` number and hold the suite statistics.
  unfoldable pub run_tests_async :
      ℕ → List SuiteSet → GlobalStats → ℕ → (ℕ → SuiteStats) → List (Option Msg) → Status
  unfolding init_server_context start_workers stop_when_idle read_messages
  run_tests_async nb_workers suites gstats fresh table msgs =
      let l : Loop = record {
        sctx = init_server_context gstats fresh table;
        coroutine = at_suites suites;
        active_workers = 0;
      } in
      read_messages msgs (stop_when_idle (start_workers nb_workers l))

-- The result of criterion_run_all_tests, from the final statistics.
unfoldable pub run_result : Options → GlobalStats → Bool
run_result options stats =
    let ok = stats.counts.tests_failed == 0 && stats.errors == 0 in
    options.always_succeed || (if options.ignore_warnings then ok else ok && stats.warnings == 0)
