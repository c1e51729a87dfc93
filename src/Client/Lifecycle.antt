-- ===== src/Client/Lifecycle.antt =====
-- src/core/client.c, handle_phase: the two-bit fields of `ctx->state` against the life of a test
-- and of one test nested in it.
use criterion.Common.{
  ap, ◌≤◌, ℕ, ◌+◌, ◌≡◌, refl, sym, ◌∙◌, Bool, true, false, Option, none, some, arith,
}
use criterion.Common.{◌↔◌, ◌⊎◌, inl, inr, Option-cases, ◌≢◌}
use criterion.Client.State.{PhaseKind, phase_to_state, Diagnostic, Scope, stats_of, handler_error}
use criterion.Client.State.{nested_too_deep}
use criterion.Client.State.{setup, main, teardown, finish, abort, timeout, skip}
use criterion.Client.Phases.{Phase, phase_error, run_handler, next_state, handle_phase}
use criterion.Client.Phases.{phase_failure, reads_past}

-- Where a test is.
pub data Stage : Type 0 where
  in_setup in_main in_teardown : Stage

-- Where a client is: its own test runs, or has ended, or a nested test runs in its main phase.
pub data Position : Type 0 where
  outer : Stage → Position
  ended : Position
  nested : Stage → Position

-- The phase messages that are allowed, and where they lead. A nested test goes through the same
-- stages and returns to the main phase of the outer one. A second SETUP before MAIN is taken.
abbrev pub follow : Position → PhaseKind → Option Position
follow (outer in_setup) setup = some (outer in_setup)
follow (outer in_setup) main = some (outer in_main)
follow (outer in_main) setup = some (nested in_setup)
follow (outer in_main) teardown = some (outer in_teardown)
follow (outer in_teardown) finish = some ended
follow (outer _) abort = some ended
follow (outer _) timeout = some ended
follow (outer _) skip = some ended
follow (nested in_setup) main = some (nested in_main)
follow (nested in_main) teardown = some (nested in_teardown)
follow (nested in_teardown) finish = some (outer in_main)
follow (nested _) abort = some (outer in_main)
follow (nested _) timeout = some (outer in_main)
follow (nested _) skip = some (outer in_main)
follow _ _ = none

abbrev pub stage_code : Stage → ℕ
stage_code in_setup = 0
stage_code in_main = 1
stage_code in_teardown = 2

-- The value of `ctx->state`.
abbrev pub encode : Position → ℕ
encode (outer g) = stage_code g
encode ended = 3
encode (nested g) = 4 + stage_code g

abbrev is_error : Option Diagnostic → Bool
is_error none = false
is_error (some _) = true

abbrev Agrees : Position → PhaseKind → Option Position → Type 0
Agrees p k none = is_error (phase_error (phase_to_state k) (encode p)) ≡ true
Agrees p k (some q) =
    (phase_error (phase_to_state k) (encode p) ≡ none)
    × (next_state (phase_to_state k) (encode p) ≡ encode q)

Agrees_lem : (p : Position) (k : PhaseKind) → Agrees p k (follow p k)
unfolding phase_error next_state
Agrees_lem p k = ground arith

-- The handlers leave the state to handle_phase.
run_handler-state : (msg : Phase) (s : Scope) → (run_handler msg s).client.state ≡ s.client.state
unfolding run_handler
run_handler-state msg s = ground arith

-- What handle_phase does with a message that may follow, and with one that may not.
abbrev pub Handled : Scope → Scope × Bool → Option Position → Type 0
Handled s r (some q) = (r.1 ≡ false) × (r.0.client.state ≡ encode q)
Handled s r none =
    (r.1 ≡ true) × (r.0.client ≡ s.client) × (r.0.gstats ≡ s.gstats) × (r.0.sstats ≡ s.sstats)

handle_phase-taken :
    (msg : Phase) (s : Scope) (p q : Position)
    → s.client.state ≡ encode p
    → Agrees p msg.phase (some q)
    → Handled s (handle_phase msg s) (some q)
unfolding handle_phase
handle_phase-taken msg s p q e a =
    rw (e, a.0, handle_phase) (refl, rw (run_handler-state msg s, e) a.1)

phase_failure-keeps :
    (d : Diagnostic) (s : Scope)
    → ((phase_failure d s).client ≡ s.client)
      × ((phase_failure d s).gstats ≡ s.gstats)
      × ((phase_failure d s).sstats ≡ s.sstats)
unfolding handler_error
phase_failure-keeps d s = ground arith

handle_phase-refused :
    (msg : Phase) (s : Scope) (p : Position)
    → s.client.state ≡ encode p
    → Agrees p msg.phase none
    → Handled s (handle_phase msg s) none
unfolding handle_phase
handle_phase-refused msg s p e a =
    elim (Option-cases (phase_error (phase_to_state msg.phase) s.client.state)) [
      | inl f ↦ cc
      | inr (d, f) ↦ let (c, g, t) = phase_failure-keeps d s in rw (f, handle_phase) (refl, c, g, t)
    ]

-- handle_phase follows the life of a test. A client at a position, and a phase message that may
-- follow there: the message is taken and the client is at the next position. A message that may
-- not follow: an answer is sent at once, and neither the client nor any statistics change.
pub handle_phase-Handled :
    (msg : Phase) (s : Scope) (p : Position)
    → s.client.state ≡ encode p
    → Handled s (handle_phase msg s) (follow p msg.phase)
handle_phase-Handled msg s p e = by_agreement (follow p msg.phase) (Agrees_lem p msg.phase)
  where
    by_agreement :
        (next : Option Position) → Agrees p msg.phase next → Handled s (handle_phase msg s) next
    by_agreement none a = handle_phase-refused msg s p e a
    by_agreement (some q) a = handle_phase-taken msg s p q e a

-- The values of `ctx->state` that messages lead to, from the 0 of a new client.
pub data Reachable : ℕ → Type 0 where
  start : Reachable 0
  next :
      {n : ℕ} (k : PhaseKind)
      → Reachable n
      → phase_error (phase_to_state k) n ≡ none
      → Reachable (next_state (phase_to_state k) n)

follows_of_Agrees :
    (p : Position) (k : PhaseKind) (o : Option Position)
    → Agrees p k o
    → phase_error (phase_to_state k) (encode p) ≡ none
    → (q : Position) × (next_state (phase_to_state k) (encode p) ≡ encode q)
follows_of_Agrees p k none a e = cc
follows_of_Agrees p k (some q) a e = (q, a.1)

-- Every value that `ctx->state` can take stands for a position: at most one test is nested.
pub Reachable-encode : {n : ℕ} → Reachable n → (p : Position) × (n ≡ encode p)
Reachable-encode start = (outer in_setup, refl)
Reachable-encode (next k r e) =
    let (p, x) = Reachable-encode r in
    let (q, y) =
      follows_of_Agrees p k (follow p k) (Agrees_lem p k)
        (ap (phase_error (phase_to_state k)) (sym x) ∙ e) in
    (q, ap (next_state (phase_to_state k)) x ∙ y)

encode-le : (p : Position) → encode p ≤ 6
encode-le p = ground arith

encode-not_too_deep :
    (k : PhaseKind) (p : Position)
    → phase_error (phase_to_state k) (encode p) ≢ some nested_too_deep
unfolding phase_error
encode-not_too_deep k p e = ground arith

-- The check against MAX_TEST_DEPTH never fires: no state that messages lead to is nested so deep
-- as to be refused for its depth, because a second nested test is already refused.
pub Reachable-not_too_deep :
    {n : ℕ} (k : PhaseKind)
    → Reachable n
    → (n ≤ 6) × (phase_error (phase_to_state k) n ≢ some nested_too_deep)
Reachable-not_too_deep k r =
    let (p, x) = Reachable-encode r in
    (
      rw x (encode-le p),
      λ e. encode-not_too_deep k p (ap (phase_error (phase_to_state k)) (sym x) ∙ e),
    )

no_error_of_Agrees :
    (p : Position) (k : PhaseKind) (o : Option Position) {q : Position}
    → Agrees p k o
    → o ≡ some q
    → phase_error (phase_to_state k) (encode p) ≡ none
no_error_of_Agrees p k none a e = cc
no_error_of_Agrees p k (some r) a e = a.0

-- A message that may follow is taken: its handler runs on the whole scope.
pub handle_phase-run_handler :
    (msg : Phase) (s : Scope) (p q : Position)
    → s.client.state ≡ encode p
    → follow p msg.phase ≡ some q
    → stats_of (handle_phase msg s).0 ≡ stats_of (run_handler msg s)
unfolding handle_phase
handle_phase-run_handler msg s p q e f =
    rw
      (
        ap (phase_error (phase_to_state msg.phase)) e
            ∙ no_error_of_Agrees p msg.phase (follow p msg.phase) (Agrees_lem p msg.phase) f,
        handle_phase,
      )
      refl

abbrev pub reads_past_table : Option Diagnostic → Bool
reads_past_table none = false
reads_past_table (some d) = reads_past d

-- The message for a wrong phase is built from state_to_string[ctx->state + 1]. That reads past the
-- end of the table exactly when a nested test is in its teardown and MAIN or TEARDOWN arrives.
pub reads_past_table_iff :
    (p : Position) (k : PhaseKind)
    → (reads_past_table (phase_error (phase_to_state k) (encode p)) ≡ true)
      ↔ ((p ≡ nested in_teardown) × ((k ≡ main) ⊎ (k ≡ teardown)))
unfolding phase_error
reads_past_table_iff p k = (ground arith, ground arith)
