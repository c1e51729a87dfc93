-- ===== src/Messages/Exchange.antt =====
-- src/protocol/messages.c and client.c: the answer to a message decides how its worker goes on.
use criterion.Common.{ℕ, ◌≡◌, refl, ap, ◌∙◌, ◌≢◌, arith, inl, inr}
use criterion.Common.{Bool, true, false, not, Option, some, List, [], ◌∷◌, Bytes, length}
use criterion.Common.{if◌then◌else◌, Option-cases}
use criterion.Stats.{u32}
use criterion.Client.State.{phase_to_state, emit, Diagnostic, Scope, Output, ack, handler_error}
use criterion.Common.{if_cases}
use criterion.Client.Phases.{Phase, reads_past, handle_phase, phase_error, phase_failure}
use criterion.Client.Server.{Value, handle, process_client_message_impl}
use criterion.Messages.{NetResult}
use criterion.Messages.{write_message, Ack, Mutex, continues, refused}
use criterion.Messages.{ack_outcome, cr_send_to_runner, ack_for, send_ack}
use criterion.Messages.Sending.{Comes, send_buffer-IsSent, write_message-IsWritten, written-outcome}

phase_failure-answer :
    (d : Diagnostic) (s : Scope) → (out : List Output) × ((phase_failure d s).out ≡ ack false ∷ out)
unfolding handler_error
phase_failure-answer d s =
    if_cases (λ (s' : Scope). (out : List Output) × (s'.out ≡ ack false ∷ out)) (reads_past d)
      (λ _. (_, refl)) (λ _. (_, refl))

-- What process_client_message_impl sends, from the result of the handler.
abbrev Answers : Scope × Bool → Type 0
Answers (s, answered) =
    (out : List Output) × ((if answered then s else emit (ack true) s).out
      ≡ ack (not answered) ∷ out)

handle_phase-Answers : (msg : Phase) (s : Scope) → Answers (handle_phase msg s)
unfolding handle_phase
handle_phase-Answers msg s =
    elim (Option-cases (phase_error (phase_to_state msg.phase) s.client.state)) [
      | inl e ↦ rw (e, handle_phase) (_, refl)
      | inr (d, e) ↦ rw (e, handle_phase) (phase_failure-answer d s)
    ]

handle-Answers : (v : Value) (s : Scope) → Answers (handle v s)
unfolding handle
handle-Answers (Value.phase msg) s = handle_phase-Answers msg s
handle-Answers Value.birth s = (_, refl)
handle-Answers (Value.death d) s = (_, refl)
handle-Answers (Value.message severity text) s = (_, refl)
handle-Answers (Value.assert a) s = (_, refl)
handle-Answers (Value.statistic x) s = (_, refl)
handle-Answers Value.unknown s = (_, refl)

answer_of :
    (v : Value) (s : Scope) (ok : Bool) (out : List Output)
    → (process_client_message_impl v s).out ≡ ack ok ∷ out
    → ok ≡ not (handle v s).1
unfolding process_client_message_impl
answer_of v s ok out e = let (out', f) = handle-Answers v s in cc

send_ack-whole :
    (encode_ack : Ack → Option Bytes) (ok : Bool) (text : Option Bytes) (reply : Bytes)
    (answers : List (NetResult ℕ))
    → send_ack encode_ack ok text answers ≡ some (some reply)
    → (encode_ack (ack_for ok text) ≡ some reply) × (reply ≢ [])
unfolding send_ack
send_ack-whole encode_ack ok text reply answers e =
    elim (Option-cases (encode_ack (ack_for ok text))) [
      | inl n ↦ ground arith
      | inr (buf, n) ↦
          let (whole, _) = send_buffer-IsSent buf answers (ground arith) in
          let same : buf ≡ reply = ground arith in
          (n ∙ ap some same, λ z. whole (ap (λ x. u32 (length x)) (same ∙ z)))
    ]

ack_for-outcome :
    (ok no : Bool) (text : Option Bytes)
    → ok ≡ not no
    → ack_outcome (some (ack_for ok text)) ≡ (if no then refused text else continues)
ack_for-outcome ok true text e = rw e refl
ack_for-outcome ok false text e = rw e refl

-- A worker sends a message, the server handles it, and the answer that the server then gives is
-- sent back. cr_send_to_runner returns if no handler has refused the message, and aborts the worker
-- with the text of the refusal if one has. Nothing fails in between, up to interruptions, and the
-- decoder of answers undoes their encoder.
pub cr_send_to_runner-answered {ℓ} :
    {M : Type ℓ} (encode : M → Option Bytes) (encode_ack : Ack → Option Bytes)
    (decode_ack : Bytes → Option Ack) (mutex : Mutex) (m : M) (v : Value) (s : Scope) (ok : Bool)
    (text : Option Bytes) (out : List Output) (reply : Bytes) (sends answers : List (NetResult ℕ))
    (received : List (NetResult Bytes))
    → (mutex.init_once ≡ true) × (mutex.lock ≡ true) × (mutex.unlock ≡ true)
    → ((a : Ack) (buf : Bytes) → encode_ack a ≡ some buf → decode_ack buf ≡ some a)
    → write_message encode m sends ≡ some true
    → (process_client_message_impl v s).out ≡ ack ok ∷ out
    → send_ack encode_ack ok text answers ≡ some (some reply)
    → Comes reply received
    → cr_send_to_runner encode decode_ack mutex m sends received
      ≡ some (if (handle v s).1 then refused text else continues)
cr_send_to_runner-answered encode encode_ack decode_ack mutex m v s ok text out reply sends answers
      received free inverse w e k c =
    let (r, full) = send_ack-whole encode_ack ok text reply answers k in
    written-outcome encode decode_ack mutex m sends received reply (ack_for ok text) free
      (write_message-IsWritten encode m sends w) full c (inverse (ack_for ok text) reply r)
    ∙ ap some (ack_for-outcome ok (handle v s).1 text (answer_of v s ok out e))
