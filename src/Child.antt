-- ===== src/Child.antt =====
-- src/core/test.c and abort.c, and run_test_child of src/core/runner_coroutine.c: a test in its own
-- process. User code is an argument: the messages that it sends, and how it ends. The jumps to
-- `g_pre_test` are a case of how it ends. `now` is the time of each phase message. Of the
-- messages, a worker's process sends no other; the socket delivers them in order.
pub mod Closing
pub mod Counting
use criterion.Common.{ℕ, Bool, true, false, Option, none, some, List, [], ◌∷◌, ◌++◌, Bytes, codes}
use criterion.Common.{map, if◌then◌else◌}
use criterion.Client.State.{PhaseKind, Severity, setup, main, teardown, finish, abort, skip}
use criterion.Client.Phases.{Phase}
use criterion.Client.Handlers.{Assert}
use criterion.Client.Server.{Value, Msg}
use criterion.Runner.Death.{InstanceStatus, death_callback}

-- What user code sends while it runs: an assertion, an entry of the log, or a phase of a nested
-- test, which a theory sends.
pub data Remark : Type 0 where
  asserted : Assert → Remark
  logged : Severity → Bytes → Remark
  nested_phase : Phase → Remark

abbrev pub remark_value : Remark → Value
remark_value (asserted a) = Value.assert a
remark_value (logged severity text) = Value.message severity text
remark_value (nested_phase p) = Value.phase p

-- How user code ends: it returns, jumps by criterion_abort_test, calls criterion_skip_test or
-- criterion_test_die, exits, gets a signal, or is killed at its time limit.
pub data Ending : Type 0 where
  returned aborted timed_out : Ending
  skipped : Option Bytes → Ending
  died : Bytes → Ending
  exited crashed : ℕ → Ending

pub record UserCode : Type 0 where
  pub remarks : List Remark
  pub ending : Ending

abbrev pub sigabrt : ℕ
sigabrt = 6

-- Two functions in a row. The fixtures of the suite and of the test are such a pair: the suite's
-- comes first in the setup, and last in the teardown.
unfoldable pub both : UserCode → UserCode → UserCode
both f g = elim f.ending [
  | returned ↦ record { remarks = f.remarks ++ g.remarks; ending = g.ending }
  | _ ↦ f
]

-- The messages of a part of the test, and the status of the process if it has ended there.
abbrev pub Part : Type 0
Part = List Value × Option InstanceStatus

abbrev pub status_of : ℕ → ℕ → Bool → InstanceStatus
status_of signal exit late = record { signal = signal; exit = exit; timed_out = late }

-- A part, and the one behind it if the process goes on.
unfoldable pub and_then : Part → Part → Part
and_then (values, none) (others, end) = (values ++ others, end)
and_then (values, some status) next = (values, some status)

abbrev pub said : UserCode → List Value
said f = map remark_value f.remarks

-- The count of passed assertions, unless each has been sent.
abbrev pub passed_message : Bool → ℕ → List Value
passed_message full_stats passed_asserts =
    if full_stats
    then []
    else Value.statistic (record { key = codes ".asserts_passed"; num = some passed_asserts }) ∷ []

-- The exit status of a process that has run to its end.
abbrev pub or_exit : Option InstanceStatus → InstanceStatus
or_exit none = status_of 0 0 false
or_exit (some status) = status

-- All that the runner hears of a worker: its messages, and those of death_callback.
unfoldable pub heard : ℕ → List Value × InstanceStatus → List Value
unfolding death_callback
heard at (values, status) = values ++ map (λ (m : Msg). m.value) (death_callback 0 at status)

module _ (now : PhaseKind → ℕ) where
  -- send_event.
  abbrev pub send_event : PhaseKind → Option Bytes → Value
  send_event k message = Value.phase (record { phase = k; timestamp = now k; message = message })

  -- The end of the process in user code that neither returns nor jumps.
  unfoldable pub process_end : Ending → Part
  process_end (skipped message) = (send_event skip message ∷ [], some (status_of 0 0 false))
  process_end (died message) = (send_event abort (some message) ∷ [], some (status_of 0 0 false))
  process_end (exited code) = ([], some (status_of 0 code false))
  process_end (crashed signal) = ([], some (status_of signal 0 false))
  process_end timed_out = ([], some (status_of 9 0 true))
  process_end _ = ([], none)

  -- What is sent behind user code that returns or jumps.
  abbrev pub or_end : Ending → Part → Part → Part
  or_end returned back jump = back
  or_end aborted back jump = jump
  or_end ending back jump = process_end ending

  -- The fixtures of the suite and of the test; a jump out of them is an abort().
  unfoldable pub criterion_internal_test_setup : UserCode → Part
  unfolding process_end and_then
  criterion_internal_test_setup init =
      and_then (send_event setup none ∷ said init, none)
        (or_end init.ending ([], none) ([], some (status_of sigabrt 0 false)))

  unfoldable pub criterion_internal_test_main : Bool → ℕ → UserCode → Part
  unfolding process_end and_then
  criterion_internal_test_main full_stats passed_asserts fn =
      let ended = passed_message full_stats passed_asserts ++ send_event teardown none ∷ [] in
      and_then (send_event main none ∷ said fn, none) (or_end fn.ending (ended, none) (ended, none))

  unfoldable pub criterion_internal_test_teardown : UserCode → Part
  unfolding process_end and_then
  criterion_internal_test_teardown fini =
      let ended = send_event finish none ∷ [] in
      and_then (said fini, none) (or_end fini.ending (ended, none) (ended, none))

  -- The messages of the process, and how it ends. A suite without data has fixtures that do
  -- nothing.
  unfoldable pub run_test_child :
      Bool → ℕ → UserCode → UserCode → UserCode → UserCode → UserCode → List Value × InstanceStatus
  unfolding criterion_internal_test_setup criterion_internal_test_main
      criterion_internal_test_teardown and_then both
  run_test_child full_stats passed_asserts suite_init init fn fini suite_fini =
      let run = and_then (criterion_internal_test_setup (both suite_init init)) (
        and_then (criterion_internal_test_main full_stats passed_asserts fn)
          (criterion_internal_test_teardown (both fini suite_fini))) in
      (Value.birth ∷ run.0, or_exit run.1)
