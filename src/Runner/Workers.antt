-- ===== src/Runner/Workers.antt =====
-- src/core/runner.c, run_tests_async: no worker is idle while a test waits.
use criterion.Common.{ℕ, zero, suc, ◌+◌, ◌^◌, ◌<◌, ◌==◌, not, ◌&&◌, ◌≡◌, refl}
use criterion.Common.{◌⊎◌, inl, inr, arith, Option, none, some, List, [], ◌∷◌}
use criterion.Common.{Option-cases, if_cases}
use criterion.Stats.{TestStats, GlobalStats, SuiteStats, u64}
use criterion.Client.State.{ClientCtx}
use criterion.Client.Server.{Msg, MsgId, process_client_message, remove_client_by_pid}
use criterion.Runner.Registry.{SuiteSet, Test}
use criterion.Runner.Coroutine.{Coroutine}
use criterion.Runner.Schedule.{remaining, StartsFirst, cri_run_next_test-Starts}
use criterion.Runner.Loop.{
  Options, Loop, Status, running, stopped, unread, terminated, spawn_next_client,
}
use criterion.Runner.Loop.{start_workers, stop_when_idle, replace_worker, after_message, receive}
use criterion.Runner.Loop.{
  read_messages, run_tests_async, if_started, is_failed, is_worker, instance_pid,
}

-- As many workers are active as there may be, or no run is left to start.
abbrev pub Busy : ℕ → Loop → Type 0
Busy n l = (l.active_workers ≡ n) ⊎ (remaining l.coroutine ≡ [])

-- The same of the loop as it goes on, is left for want of a message, or ends by cr_terminate. For
-- want of workers it is left only when no run is left to start.
abbrev pub KeepsBusy : ℕ → Status → Type 0
KeepsBusy n (running l) = Busy n l
KeepsBusy n (unread l) = Busy n l
KeepsBusy n (terminated l) = Busy n l
KeepsBusy n (stopped l) = remaining l.coroutine ≡ []

pub if_started_lem :
    (P : Loop → Type 0) (plan : List Test) (co : Coroutine) (started : Option (Test × ClientCtx))
    (l k : Loop)
    → StartsFirst plan co started
    → (remaining co ≡ [] → P l)
    → ((t : Test) → plan ≡ t ∷ remaining co → P k)
    → P (if_started started l k)
if_started_lem P plan co none l k f g h = g f.1
if_started_lem P plan co (some (t, c)) l k f g h = h t f

module _ (options : Options) (pid_of : ℕ → ℕ) (no_test : TestStats) where
  abbrev pub spawned : Loop → Loop × Option (Test × ClientCtx)
  spawned = spawn_next_client options pid_of no_test

  pub spawn_next_client-Starts :
      (l : Loop) → StartsFirst (remaining l.coroutine) (spawned l).0.coroutine (spawned l).1
  unfolding spawn_next_client
  spawn_next_client-Starts l = cri_run_next_test-Starts no_test l.coroutine l.sctx

  pub spawn_next_client-active_workers :
      (l : Loop) → (spawned l).0.active_workers ≡ l.active_workers
  unfolding spawn_next_client
  spawn_next_client-active_workers l = refl

  start_workers-Busy :
      (n total : ℕ) (l : Loop)
      → l.active_workers + n ≡ total
      → total < 2 ^ 64
      → Busy total (start_workers options pid_of no_test n l)
  unfolding start_workers
  start_workers-Busy zero total l e h = inl (omega arith)
  start_workers-Busy (suc n) total l e h =
      let l' = (spawned l).0 in
      if_started_lem (Busy total) (remaining l.coroutine) l'.coroutine (spawned l).1 _ _
        (spawn_next_client-Starts l) inr
        λ _ _.
          start_workers-Busy n total (record l' { active_workers = u64 (l'.active_workers + 1) })
            (omega (arith, spawn_next_client-active_workers l)) h

  module _ (n : ℕ) (pos : 0 < n) where
    stop_when_idle-KeepsBusy :
        (l : Loop) → Busy n l → KeepsBusy n (stop_when_idle options pid_of no_test l)
    unfolding stop_when_idle
    stop_when_idle-KeepsBusy l (inl e) =
        if_cases (KeepsBusy n) (l.active_workers == 0 && not options.wait_for_clients)
          (λ z. absurd (ground arith)) (λ _. inl e)
    stop_when_idle-KeepsBusy l (inr e) =
        if_cases (KeepsBusy n) (l.active_workers == 0 && not options.wait_for_clients) (λ _. e)
          (λ _. inr e)

    replace_worker-Busy :
        (id : MsgId) (l : Loop) → Busy n l → Busy n (replace_worker options pid_of no_test id l)
    unfolding replace_worker
    replace_worker-Busy id l h =
        let l1 : Loop = record l { sctx = remove_client_by_pid (instance_pid id) l.sctx } in
        let f = spawn_next_client-Starts l1 in
        if_started_lem (Busy n) (remaining l.coroutine) (spawned l1).0.coroutine (spawned l1).1 _ _
          f inr λ t e. elim h [ inl a ↦ inl a | inr z ↦ cc ]

    after_message-KeepsBusy :
        (id : MsgId) (cctx : ClientCtx) (l : Loop)
        → Busy n l
        → KeepsBusy n (after_message options pid_of no_test id cctx l)
    unfolding after_message
    after_message-KeepsBusy id cctx l h =
        if_cases (KeepsBusy n) cctx.alive (λ _. stop_when_idle-KeepsBusy l h)
          λ _.
            if_cases (KeepsBusy n) (is_failed cctx.tstats.test_status && options.fail_fast) (λ _. h)
              λ _.
                if_cases (KeepsBusy n) (is_worker cctx.kind)
                  (λ _. stop_when_idle-KeepsBusy _ (replace_worker-Busy id l h))
                  λ _. stop_when_idle-KeepsBusy l h

    receive-KeepsBusy :
        (msg : Msg) (l : Loop) → Busy n l → KeepsBusy n (receive options pid_of no_test msg l)
    unfolding receive
    receive-KeepsBusy msg l h = elim (Option-cases (process_client_message msg l.sctx).1) [
      | inl e ↦ rw (e, receive) h
      | inr (c, e) ↦ rw (e, receive) (after_message-KeepsBusy msg.id c _ h)
    ]

    read_messages-KeepsBusy :
        (msgs : List (Option Msg)) (s : Status)
        → KeepsBusy n s
        → KeepsBusy n (read_messages options pid_of no_test msgs s)
    unfolding read_messages
    read_messages-KeepsBusy [] s h = h
    read_messages-KeepsBusy (none ∷ msgs) (running l) h = h
    read_messages-KeepsBusy (some msg ∷ msgs) (running l) h =
        read_messages-KeepsBusy msgs _ (receive-KeepsBusy msg l h)
    read_messages-KeepsBusy (msg ∷ msgs) (stopped l) h = h
    read_messages-KeepsBusy (msg ∷ msgs) (unread l) h = h
    read_messages-KeepsBusy (msg ∷ msgs) (terminated l) h = h

  -- Whatever messages arrive, the loop keeps as many workers active as it may have as long as a
  -- planned run is left to start. It is left for want of active workers only when every planned run
  -- has been started; a call of read_message that does not return 1 leaves it too, and cr_terminate
  -- ends the program. It may have at least one worker, and fewer than 2^64.
  pub run_tests_async-KeepsBusy :
      (nb_workers : ℕ) (suites : List SuiteSet) (gstats : GlobalStats) (fresh : ℕ)
      (table : ℕ → SuiteStats) (msgs : List (Option Msg))
      → 0 < nb_workers
      → nb_workers < 2 ^ 64
      → KeepsBusy nb_workers
          (run_tests_async options pid_of no_test nb_workers suites gstats fresh table msgs)
  unfolding run_tests_async
  run_tests_async-KeepsBusy nb_workers suites gstats fresh table msgs pos h =
      read_messages-KeepsBusy nb_workers pos msgs _ (
        stop_when_idle-KeepsBusy nb_workers pos _
          (start_workers-Busy nb_workers nb_workers _ (omega arith) h))
