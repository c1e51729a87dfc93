-- ===== src/Child/Closing.antt =====
-- src/core/test.c and client.c: what the messages of a worker count.
use criterion.Common.{ℕ, ◌+◌, ◌≡◌, refl, ap, ◌∙◌, subst, ◌≢◌, arith}
use criterion.Common.{All, false, some, List, [], ◌∷◌, ◌++◌, map}
use criterion.Stats.{skipped, assert, stat_push_event}
use criterion.Client.State.{info, warning, error, Scope, PhaseKind, setup}
use criterion.Client.State.{push_event_noreport, push_event}
use criterion.Client.Phases.{Phase, handle_phase}
use criterion.Client.Handlers.{Death, Statistic, handle_message, handle_statistic}
use criterion.Client.Handlers.{handle_death, assert_stats, death_by_crash, death_normal, normal}
use criterion.Client.Handlers.{crash, other}
use criterion.Client.Server.{Value, handle, process_client_message_impl}
use criterion.Client.Lifecycle.{
  Stage, Position, outer, ended, in_setup, in_main, in_teardown, encode, follow,
}
use criterion.Client.Lifecycle.{Handled, handle_phase-Handled}
use criterion.Client.Accounting.{Finishes, ends, handle_phase-finished, noreport-finished}
use criterion.Assertions.Failing.{handle_assert-Quiet}
use criterion.Child.{UserCode, nested_phase}
use criterion.Child.{Remark, asserted, logged, remark_value, Ending, Part}
use criterion.Child.{returned, aborted, timed_out, died, exited, crashed, status_of, process_end}
use criterion.Child.{heard, or_exit}
use criterion.Runner.Death.{death_callback}

-- The worker's scope after messages of it.
abbrev pub hear : List Value → Scope → Scope
hear [] s = s
hear (v ∷ vs) s = hear vs (process_client_message_impl v s)

hear-append : (vs ws : List Value) (s : Scope) → hear (vs ++ ws) s ≡ hear ws (hear vs s)
hear-append [] ws s = refl
hear-append (v ∷ vs) ws s = hear-append vs ws (process_client_message_impl v s)

-- The server accepts each message: no handler refuses it with an answer of its own.
abbrev pub Accepts : List Value → Scope → Type 0
Accepts [] s = Unit
Accepts (v ∷ vs) s = ((handle v s).1 ≡ false) × Accepts vs (process_client_message_impl v s)

Accepts-append :
    (vs ws : List Value) (s : Scope) → Accepts vs s → Accepts ws (hear vs s) → Accepts (vs ++ ws) s
Accepts-append [] ws s a b = b
Accepts-append (v ∷ vs) ws s (x, a) b =
    (x, Accepts-append vs ws (process_client_message_impl v s) a b)

-- The messages are accepted, lead from a position to another, and count `n` tests as finished.
abbrev pub Moves : Position → Position → ℕ → List Value → Scope → Type 0
Moves p q n vs s = Accepts vs s × (((hear vs s).client.state ≡ encode q) × Finishes n s (hear vs s))

abbrev pub Counts : Position → Position → ℕ → List Value → Type 0
Counts p q n vs = (s : Scope) → s.client.state ≡ encode p → Moves p q n vs s

-- The messages behind a position are accepted and count `n` tests, and the
-- worker is dead after them.
abbrev pub Closes : Position → ℕ → List Value → Type 0
Closes p n vs =
    (s : Scope)
    → s.client.state ≡ encode p
    → Accepts vs s × (Finishes n s (hear vs s) × ((hear vs s).client.alive ≡ false))

pub Counts-append :
    (p q r : Position) (m n : ℕ) (vs ws : List Value)
    → Counts p q m vs
    → Counts q r n ws
    → Counts p r (m + n) (vs ++ ws)
Counts-append p q r m n vs ws c d s e =
    let (a, (f, x)) = c s e in
    let (b, (g, y)) = d (hear vs s) f in
    (Accepts-append vs ws s a b, rw (hear-append vs ws s) (g, omega (arith, x, y)))

pub Closes-append :
    (p q : Position) (m n : ℕ) (vs ws : List Value)
    → Counts p q m vs
    → Closes q n ws
    → Closes p (m + n) (vs ++ ws)
Closes-append p q m n vs ws c d s e =
    let (a, (f, x)) = c s e in
    let (b, (y, dead)) = d (hear vs s) f in
    (Accepts-append vs ws s a b, rw (hear-append vs ws s) (omega (arith, x, y), dead))

-- A phase message that may follow.
pub phase-Moves :
    (msg : Phase) (s : Scope) (p q : Position)
    → s.client.state ≡ encode p
    → follow p msg.phase ≡ some q
    → (msg.phase ≡ setup → s.client.tstats.test_status ≢ skipped)
    → Moves p q (ends p msg.phase) (Value.phase msg ∷ []) s
unfolding process_client_message_impl
phase-Moves msg s p q e f n =
    let (t, here) = subst (Handled s (handle_phase msg s)) f (handle_phase-Handled msg s p e) in
    ((t, tt), rw (t, process_client_message_impl) (here, handle_phase-finished msg s p q e f n))

-- A remark about the test itself, not about a nested one.
abbrev pub IsOwn : Remark → Type 0
IsOwn (nested_phase msg) = ⊥
IsOwn _ = Unit

-- User code that runs no theory.
abbrev pub NoTheory : UserCode → Type 0
NoTheory f = All IsOwn f.remarks

-- A remark of user code keeps the position and counts no test.
remark-Counts : (p : Position) (r : Remark) → IsOwn r → Counts p p 0 (remark_value r ∷ [])
unfolding process_client_message_impl push_event_noreport handle_message
remark-Counts p (asserted a) o s e =
    let q = handle_assert-Quiet a s in
    (
      (refl, tt),
      (
        ap (λ c. c.state) q.client ∙ e,
        omega (
          arith,
          noreport-finished (assert (assert_stats a)) s,
          ap (λ c. c.counts.tests_passed + c.counts.tests_failed + c.counts.tests_skipped) q.sstats,
        ),
      ),
    )
remark-Counts p (nested_phase msg) o s e = absurd o
remark-Counts p (logged info text) o s e = ((refl, tt), (e, omega arith))
remark-Counts p (logged warning text) o s e = ((refl, tt), (e, omega arith))
remark-Counts p (logged error text) o s e = ((refl, tt), (e, omega arith))

pub remarks-Counts :
    (p : Position) (rs : List Remark) → All IsOwn rs → Counts p p 0 (map remark_value rs)
remarks-Counts p [] o = λ s e. (tt, (e, omega arith))
remarks-Counts p (r ∷ rs) o =
    Counts-append p p p 0 0 (remark_value r ∷ []) (map remark_value rs) (remark-Counts p r o.0)
      (remarks-Counts p rs o.1)

pub statistic-Counts : (p : Position) (x : Statistic) → Counts p p 0 (Value.statistic x ∷ [])
unfolding process_client_message_impl handle_statistic
statistic-Counts p x s e = ((refl, tt), ground arith)

-- How many tests the end of the process counts, by the stage of its test.
abbrev pub lost : Stage → ℕ
lost in_teardown = 0
lost _ = 1

death-Closes :
    (g : Stage) (d : Death) → d.result ≢ other → Closes (outer g) (lost g) (Value.death d ∷ [])
unfolding process_client_message_impl handle_death death_by_crash death_normal push_event
    push_event_noreport stat_push_event
death-Closes g d h s e = ((refl, tt), ground arith)

ended-Closes : (d : Death) → Closes ended 0 (Value.death d ∷ [])
unfolding process_client_message_impl handle_death death_by_crash death_normal
ended-Closes d s e = ((refl, tt), ground arith)

abbrev pub IsOver : Ending → Type 0
IsOver returned = ⊥
IsOver aborted = ⊥
IsOver _ = Unit

-- The end of a process in its teardown that does not count the test again.
abbrev pub IsCounted : Stage → Ending → Type 0
IsCounted in_teardown (Ending.skipped _) = ⊥
IsCounted in_teardown timed_out = ⊥
IsCounted _ _ = Unit

abbrev pub Ends : ℕ → Position → ℕ → Part → Type 0
Ends at p n part = Closes p n (heard at (part.0, or_exit part.1))

pub last_phase-Closes :
    (p : Position) (msg : Phase) (d : Death)
    → follow p msg.phase ≡ some ended
    → msg.phase ≢ setup
    → Closes p (ends p msg.phase + 0) (Value.phase msg ∷ Value.death d ∷ [])
last_phase-Closes p msg d f n =
    Closes-append p ended (ends p msg.phase) 0 (Value.phase msg ∷ []) (Value.death d ∷ [])
      (λ s e. phase-Moves msg s p ended e f (λ x. absurd (n x))) (ended-Closes d)

pub crashed-Closes :
    (at n : ℕ) (g : Stage) → Closes (outer g) (lost g) (heard at ([], status_of n 0 false))
unfolding heard death_callback
crashed-Closes at n g s e = ground (
  arith,
  death-Closes g (record { result = crash; status = n }) (λ x. cc) s e,
  death-Closes g (record { result = normal; status = 0 }) (λ x. cc) s e,
)

module _ (now : PhaseKind → ℕ) (at : ℕ) where
  -- A process that ends in user code.
  pub process_end-Ends :
      (g : Stage) (e : Ending)
      → IsOver e
      → IsCounted g e
      → Ends at (outer g) (lost g) (process_end now e)
  unfolding process_end heard death_callback
  process_end-Ends g returned o c = absurd o
  process_end-Ends g aborted o c = absurd o
  process_end-Ends in_setup (Ending.skipped m) o c =
      last_phase-Closes (outer in_setup) _ _ refl (λ x. cc)
  process_end-Ends in_main (Ending.skipped m) o c =
      last_phase-Closes (outer in_main) _ _ refl (λ x. cc)
  process_end-Ends in_teardown (Ending.skipped m) o c = absurd c
  process_end-Ends in_setup (died m) o c = last_phase-Closes (outer in_setup) _ _ refl (λ x. cc)
  process_end-Ends in_main (died m) o c = last_phase-Closes (outer in_main) _ _ refl (λ x. cc)
  process_end-Ends in_teardown (died m) o c =
      last_phase-Closes (outer in_teardown) _ _ refl (λ x. cc)
  process_end-Ends g (exited code) o c = death-Closes g _ (λ x. cc)
  process_end-Ends g (crashed n) o c = crashed-Closes at n g
  process_end-Ends in_setup timed_out o c = last_phase-Closes (outer in_setup) _ _ refl (λ x. cc)
  process_end-Ends in_main timed_out o c = last_phase-Closes (outer in_main) _ _ refl (λ x. cc)
  process_end-Ends in_teardown timed_out o c = absurd c
