-- ===== src/Runner/Deaths.antt =====
-- src/core/runner.c, run_tests_async: the loop ends when the workers of all planned runs are dead.
use criterion.Common.{ℕ, zero, suc, ◌+◌, ◌^◌, ◌<◌, ◌==◌, not, ◌&&◌, ◌≡◌, subst, refl, ap, ◌∙◌}
use criterion.Common.{inl, inr, arith, false, Option, none, some, List, [], ◌∷◌, length}
use criterion.Common.{Option-cases, Bool-cases, if◌then◌else◌}
use criterion.Stats.{TestStats, GlobalStats, SuiteStats, u64}
use criterion.Client.State.{ClientCtx}
use criterion.Client.Server.{
  Msg, MsgId, process_client_message, remove_client_by_pid, init_server_context,
}
use criterion.Runner.Registry.{SuiteSet, Test}
use criterion.Runner.Coroutine.{Coroutine, at_suites}
use criterion.Runner.Schedule.{StartsFirst, remaining, planned}
use criterion.Runner.Loop.{
  Options, Loop, Status, running, stopped, unread, terminated, spawn_next_client,
}
use criterion.Runner.Loop.{start_workers, stop_when_idle, replace_worker, after_message, receive}
use criterion.Runner.Loop.{
  if_started, read_messages, run_tests_async, is_failed, is_worker, instance_pid,
}
use criterion.Runner.Workers.{KeepsBusy, run_tests_async-KeepsBusy}
use criterion.Runner.Workers.{spawn_next_client-Starts, spawn_next_client-active_workers}

-- The runs that are left to start, and those whose worker is active.
abbrev work : Loop → ℕ
work l = l.active_workers + length (remaining l.coroutine)

-- A message is the last one of a worker when the client that it is from is then dead.
abbrev is_death : Option ClientCtx → ℕ
is_death none = 0
is_death (some c) = if not c.alive && is_worker c.kind then 1 else 0

if_started-by_plan :
    (P : Loop → Type 0) (plan : List Test) (co : Coroutine) (started : Option (Test × ClientCtx))
    (l k : Loop)
    → StartsFirst plan co started
    → (length plan ≡ 0 → length (remaining co) ≡ 0 → P l)
    → (length plan ≡ suc (length (remaining co)) → P k)
    → P (if_started started l k)
if_started-by_plan P plan co none l k f g h = g (ap length f.0) (ap length f.1)
if_started-by_plan P plan co (some (t, c)) l k f g h = h (ap length f)

-- Between two messages, when `d` workers have died and `t` runs have been planned.
abbrev Counts : ℕ → ℕ → Status → Type 0
Counts t d (running l) = (0 < l.active_workers) × (work l + d ≡ t)
Counts t d (stopped l) = (l.active_workers ≡ 0) × (work l + d ≡ t)
Counts t d (unread l) = (0 < l.active_workers) × (work l + d ≡ t)
Counts t d (terminated l) = Unit

-- The loop goes on while fewer workers have died than runs were planned, and has been left when as
-- many have. Before that, a call of read_message that does not return 1 may leave it, and
-- cr_terminate end the program.
abbrev pub Ends : ℕ → ℕ → Status → Type 0
Ends t d (running l) = d < t
Ends t d (stopped l) = d ≡ t
Ends t d (unread l) = d < t
Ends t d (terminated l) = Unit

Counts-Ends : (t d n : ℕ) (s : Status) → Counts t d s → KeepsBusy n s → Ends t d s
Counts-Ends t d n (running l) (a, e) k = omega arith
Counts-Ends t d n (stopped l) (a, e) k = omega (arith, ap length k)
Counts-Ends t d n (unread l) (a, e) k = omega arith
Counts-Ends t d n (terminated l) c k = tt

module _ (options : Options) (pid_of : ℕ → ℕ) (no_test : TestStats) where
  -- How many workers have died.
  unfoldable pub deaths : List (Option Msg) → Status → ℕ
  deaths [] s = 0
  deaths (arrival ∷ msgs) (running l) = elim arrival [
    | none ↦ 0
    | some msg ↦
        is_death (process_client_message msg l.sctx).1
        + deaths msgs (receive options pid_of no_test msg l)
  ]
  deaths (arrival ∷ msgs) s = 0

  start_workers-work :
      (n : ℕ) (l : Loop)
      → work l < 2 ^ 64
      → work (start_workers options pid_of no_test n l) ≡ work l
  unfolding start_workers
  start_workers-work zero l h = refl
  start_workers-work (suc n) l h =
      let (l', started) = spawn_next_client options pid_of no_test l in
      let same = spawn_next_client-active_workers options pid_of no_test l in
      if_started-by_plan (λ k. work k ≡ work l) (remaining l.coroutine) l'.coroutine started _ _
        (spawn_next_client-Starts options pid_of no_test l) (λ a b. omega arith)
        (λ e.
          let next = record l' { active_workers = u64 (l'.active_workers + 1) } in
          let k : work next ≡ work l = omega arith in start_workers-work n next (omega arith) ∙ k)

  replace_worker-work :
      (id : MsgId) (l : Loop)
      → 0 < l.active_workers
      → work l < 2 ^ 64
      → work (replace_worker options pid_of no_test id l) + 1 ≡ work l
  unfolding replace_worker
  replace_worker-work id l a h =
      let l1 : Loop = record l { sctx = remove_client_by_pid (instance_pid id) l.sctx } in
      let (l', started) = spawn_next_client options pid_of no_test l1 in
      let same = spawn_next_client-active_workers options pid_of no_test l1 in
      if_started-by_plan (λ k. work k + 1 ≡ work l) (remaining l.coroutine) l'.coroutine started _ _
        (spawn_next_client-Starts options pid_of no_test l1) (λ x y. omega arith) (λ e. omega arith)

  module _ (idle : options.wait_for_clients ≡ false) (t : ℕ) (bound : t < 2 ^ 64) where
    stop_when_idle-Counts :
        (d : ℕ) (l : Loop) → work l + d ≡ t → Counts t d (stop_when_idle options pid_of no_test l)
    unfolding stop_when_idle
    stop_when_idle-Counts d l e = elim (Bool-cases (l.active_workers == 0)) [
      | inl z ↦ let o : l.active_workers ≡ 0 = ground arith in rw (z, idle) (o, e)
      | inr z ↦ rw z (ground arith, e)
    ]

    after_message-Counts :
        (d : ℕ) (id : MsgId) (c : ClientCtx) (l : Loop)
        → 0 < l.active_workers
        → work l + d ≡ t
        → Counts t (d + is_death (some c)) (after_message options pid_of no_test id c l)
    unfolding after_message
    after_message-Counts d id c l a e =
        let same : d + 0 ≡ d = omega arith in
        elim (Bool-cases c.alive) [
          | inl f ↦ rw (f, same) (stop_when_idle-Counts d l e)
          | inr f ↦ elim (Bool-cases (is_failed c.tstats.test_status && options.fail_fast)) [
            | inl g ↦ rw (f, g) tt
            | inr g ↦ elim (Bool-cases (is_worker c.kind)) [
              | inl w ↦
                  rw (f, g, w)
                    (stop_when_idle-Counts (d + 1) _
                      (omega (arith, replace_worker-work id l a (omega arith))))
              | inr w ↦ rw (f, g, w, same) (stop_when_idle-Counts d l e)
            ]
          ]
        ]

    receive-Counts :
        (d : ℕ) (msg : Msg) (l : Loop)
        → 0 < l.active_workers
        → work l + d ≡ t
        → Counts t
            (d + is_death (process_client_message msg l.sctx).1)
            (receive options pid_of no_test msg l)
    unfolding receive
    receive-Counts d msg l a e = elim (Option-cases (process_client_message msg l.sctx).1) [
      | inl n ↦ rw (n, receive) (a, omega arith)
      | inr (c, n) ↦ rw (n, receive) (after_message-Counts d msg.id c _ a e)
    ]

    read_messages-Counts :
        (d : ℕ) (msgs : List (Option Msg)) (s : Status)
        → Counts t d s
        → Counts t (d + deaths msgs s) (read_messages options pid_of no_test msgs s)
    unfolding read_messages deaths
    read_messages-Counts d [] s c = let k : d + 0 ≡ d = omega arith in rw k c
    read_messages-Counts d (none ∷ msgs) (running l) (a, e) = (a, omega arith)
    read_messages-Counts d (some msg ∷ msgs) (running l) (a, e) =
        let k : d
              + is_death (process_client_message msg l.sctx).1
              + deaths msgs (receive options pid_of no_test msg l)
            ≡ d
              + (is_death (process_client_message msg l.sctx).1
                  + deaths msgs (receive options pid_of no_test msg l)) =
          omega arith in
        subst
          (λ n.
            Counts t n
              (read_messages options pid_of no_test msgs (receive options pid_of no_test msg l)))
          k
          (read_messages-Counts (d + is_death (process_client_message msg l.sctx).1) msgs _
            (receive-Counts d msg l a e))
    read_messages-Counts d (msg ∷ msgs) (stopped l) (a, e) = (a, omega arith)
    read_messages-Counts d (msg ∷ msgs) (unread l) (a, e) = (a, omega arith)
    read_messages-Counts d (msg ∷ msgs) (terminated l) c = tt

  -- The loop over the messages is left at the death of a worker with which as many workers have
  -- died as runs were planned, whatever the other messages are. Before that it is left only by a
  -- call of read_message that does not return 1, and ended only by cr_terminate. The runner does not wait for clients, may have at least one worker, and
  -- there are fewer than 2^64 workers and planned runs.
  pub run_tests_async-Ends :
      (nb_workers : ℕ) (suites : List SuiteSet) (gstats : GlobalStats) (fresh : ℕ)
      (table : ℕ → SuiteStats) (msgs : List (Option Msg))
      → options.wait_for_clients ≡ false
      → 0 < nb_workers
      → nb_workers < 2 ^ 64
      → length (planned suites) < 2 ^ 64
      → let run = run_tests_async options pid_of no_test nb_workers suites gstats fresh table in
        Ends (length (planned suites)) (deaths msgs (run [])) (run msgs)
  unfolding run_tests_async read_messages
  run_tests_async-Ends nb_workers suites gstats fresh table msgs idle pos n h =
      let l : Loop = record {
        sctx = init_server_context gstats fresh table;
        coroutine = at_suites suites;
        active_workers = 0;
      } in
      let t = length (planned suites) in
      let started = start_workers options pid_of no_test nb_workers l in
      let first =
        stop_when_idle-Counts idle t h 0 started
          (omega (arith, start_workers-work nb_workers l (omega arith))) in
      let begun = stop_when_idle options pid_of no_test started in
      let died = deaths msgs begun in
      let k : 0 + died ≡ died = omega arith in
      subst (λ d. Ends t d (read_messages options pid_of no_test msgs begun)) k
        (Counts-Ends t (0 + died) nb_workers _ (read_messages-Counts idle t h 0 msgs begun first) (
          run_tests_async-KeepsBusy options pid_of no_test nb_workers suites gstats fresh table msgs
            pos n))
