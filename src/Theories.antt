-- ===== src/Theories.antt =====
-- src/core/theories.c, cr_theory_main: a theory is run on each combination of its data points.
-- `lens` are the lengths of the arrays of data points, each below 2^64, and `indices` is the
-- array of that name. What the tested function does with the data at some indices, and how they
-- are printed, are arguments: both run code outside of this file. Each call of the function comes
-- back to the loop; one that ends the process is not modelled here. The loop runs on fuel.
pub mod Enumeration
pub mod Rounds
use criterion.Common.{
  ℕ, zero, suc, ◌+◌, ◌-◌, ◌^◌, Bool, true, false, not, Option, none, some, List, [],
}
use criterion.Common.{◌∷◌, ◌++◌, Bytes, codes, map, ◌==◌, if◌then◌else◌}
use criterion.Stats.{u64}
use criterion.Client.Handlers.{Assert}
use criterion.Client.State.{PhaseKind, Severity, setup, main, teardown, finish, abort}

-- How a call of the tested function ends: it returns, a failed assertion jumps to g_pre_test, or
-- a failed assumption jumps to theory_jmp.
pub data Ending : Type 0 where
  returned failed assumed : Ending

-- What the tested function sends: an assertion or an entry of the log.
pub data Remark : Type 0 where
  asserted : Assert → Remark
  logged : Severity → Bytes → Remark

pub record Call : Type 0 where
  pub said : List Remark
  pub ending : Ending

-- A phase message of round `round`, whose name ends in the round's number.
pub record RoundMessage : Type 0 where
  pub phase : PhaseKind
  pub round : ℕ
  pub message : Option Bytes

-- The messages of the worker within a theory.
pub data Message : Type 0 where
  phase_sent : RoundMessage → Message
  remark : Remark → Message

abbrev is_empty {ℓ} : {A : Type ℓ} → List A → Bool
is_empty [] = true
is_empty (_ ∷ _) = false

-- `dps[i].len - 1`, a `size_t`.
abbrev pub last_index : ℕ → ℕ
last_index len = u64 (len + (2 ^ 64 - 1))

-- The loop that increments the indices, the first one fastest, and what it leaves in `has_next`.
unfoldable pub next_indices : List ℕ → List ℕ → Bool → List ℕ × Bool
next_indices (len ∷ lens) (i ∷ indices) has_next =
    let (carried, more) = next_indices lens indices (not (is_empty lens)) in
    if i == last_index len then (0 ∷ carried, more) else (u64 (i + 1) ∷ indices, has_next)
next_indices lens indices has_next = (indices, has_next)

-- The arguments in the text of an abort message, from the first data point. Without any, the loop
-- over `datapoints - 1`, a `size_t`, reads out of bounds: `none`.
unfoldable pub concat_args : (ℕ → ℕ → Bytes) → ℕ → List ℕ → Option Bytes
concat_args format_arg i [] = none
concat_args format_arg i (index ∷ []) = some (format_arg i index)
concat_args format_arg i (index ∷ next ∷ indices) =
    elim (concat_args format_arg (i + 1) (next ∷ indices)) [
      | none ↦ none
      | some text ↦ some (format_arg i index ++ codes ", " ++ text)
    ]

-- A message without a text.
abbrev pub without_text : PhaseKind → ℕ → RoundMessage
without_text phase round = record { phase = phase; round = round; message = none }

abbrev pub plain : PhaseKind → ℕ → Message
plain phase round = phase_sent (without_text phase round)

-- What is sent behind the call of the tested function.
abbrev pub end_messages : Ending → Option Bytes → ℕ → Option (List Message)
end_messages failed none round = none
end_messages failed (some text) round =
    some (phase_sent (record { phase = abort; round = round; message = some text }) ∷ [])
end_messages _ text round = some (plain teardown round ∷ plain finish round ∷ [])

abbrev pub around : List Remark → ℕ → Option (List Message) → Option (List Message)
around said round none = none
around said round (some ends) =
    some (plain setup round ∷ plain main round ∷ (map remark said ++ ends))

-- The messages of one round.
unfoldable pub round_messages : Call → Option Bytes → ℕ → Option (List Message)
round_messages call text round = around call.said round (end_messages call.ending text round)

-- What the loop comes to: it reads out of bounds, or it has run some combinations and sent some
-- messages.
pub data Run : Type 0 where
  out_of_bounds : Run
  ran : List (List ℕ) → List Message → Run

-- The test of `has_next` behind a round, given what the rounds behind it would do.
unfoldable pub go_on : Bool → List ℕ → Option (List Message) → Option Run → Option Run
go_on more indices none rest = some out_of_bounds
go_on false indices (some sent) rest = some (ran (indices ∷ []) sent)
go_on true indices (some sent) none = none
go_on true indices (some sent) (some out_of_bounds) = some out_of_bounds
go_on true indices (some sent) (some (ran runs messages)) =
    some (ran (indices ∷ runs) (sent ++ messages))

module _ (call : List ℕ → Call) (format_arg : ℕ → ℕ → Bytes) (lens : List ℕ) where
  -- The loop, from one combination. `none` is that the fuel has run out.
  unfoldable pub theory_loop : ℕ → List ℕ → ℕ → Option Run
  unfolding next_indices round_messages concat_args go_on
  theory_loop zero indices round = none
  theory_loop (suc fuel) indices round =
      let (indices', has_next) = next_indices lens indices true in
      let sent = round_messages (call indices) (concat_args format_arg 0 indices) round in
      go_on has_next indices sent (theory_loop fuel indices' (round + 1))

  unfoldable pub cr_theory_main : ℕ → Option Run
  unfolding theory_loop
  cr_theory_main fuel = theory_loop fuel (map (λ _. 0) lens) 1
