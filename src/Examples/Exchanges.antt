-- ===== src/Examples/Exchanges.antt =====
-- Runs of src/protocol/messages.c on small inputs, with a codec of single bytes.
use criterion.Common.{ℕ, ◌≡◌, ◌↔◌, refl, true, false, Option, none, some, List, [], ◌∷◌, Bytes}
use criterion.Common.{if◌then◌else◌, arith, codes}
use criterion.Client.State.{main}
use criterion.Client.Server.{Value, handle, process_client_message_impl}
use criterion.Messages.{NetResult, interrupted, failed, done, read, read_message, write_message}
use criterion.Messages.{Ack, Mutex, continues, refused, not_written, cr_send_to_runner}
use criterion.Messages.{send_ack}
use criterion.Messages.Sending.{
  Comes, here, later, delivered, IsWritten, IsAcked, write_message-read_message,
}
use criterion.Messages.Sending.{cr_send_to_runner-continues_iff}
use criterion.Messages.Exchange.{cr_send_to_runner-answered}
use criterion.Examples.Runs.{client_in, message_of}

-- A message is one number.
abbrev encode : ℕ → Option Bytes
encode n = some (n ∷ [])

abbrev decode : Bytes → Option ℕ
decode (n ∷ []) = some n
decode _ = none

-- An answer, its text behind the code.
abbrev encode_ack : Ack → Option Bytes
encode_ack a = elim a.message [
  | none ↦ some (a.status_code ∷ [])
  | some text ↦ some (a.status_code ∷ 1 ∷ text)
]

abbrev decode_ack : Bytes → Option Ack
decode_ack [] = none
decode_ack (c ∷ []) = some (record { status_code = c; message = none })
decode_ack (c ∷ d ∷ text) = some (record { status_code = c; message = some text })

abbrev unlocked : Mutex
unlocked = record { init_once = true; lock = true; unlock = true }

decode_ack_lem : (a : Ack) (buf : Bytes) → encode_ack a ≡ some buf → decode_ack buf ≡ some a
decode_ack_lem a buf e = ground arith

write_message-read_message_example :
    (buf : Bytes) × (encode 7 ≡ some buf)
    × ((wire : Bytes) (received : List (NetResult Bytes))
        → delivered buf (interrupted ∷ done 1 ∷ []) ≡ some wire
        → Comes wire received
        → (rest : List (NetResult Bytes)) × (read_message decode received ≡ some (read 7, rest)))
unfolding write_message
write_message-read_message_example =
    write_message-read_message encode decode 7 (interrupted ∷ done 1 ∷ []) (λ buf e. ground arith)
      (λ buf e. ground arith) refl

-- A short write aborts the worker.
short_write :
    cr_send_to_runner encode decode_ack unlocked 7 (done 0 ∷ []) (done (0 ∷ []) ∷ [])
    ≡ some not_written
unfolding cr_send_to_runner
short_write = refl

cr_send_to_runner-continues_iff_example :
    (cr_send_to_runner encode decode_ack unlocked 7 (done 1 ∷ []) (interrupted ∷ failed ∷ [])
      ≡ some continues)
    ↔ ((unlocked.init_once ≡ true)
        × (unlocked.lock ≡ true)
        × (unlocked.unlock ≡ true)
        × IsWritten encode 7 (done 1 ∷ [])
        × IsAcked encode decode_ack (interrupted ∷ failed ∷ []))
cr_send_to_runner-continues_iff_example =
    cr_send_to_runner-continues_iff encode decode_ack unlocked 7 (done 1 ∷ [])
      (interrupted ∷ failed ∷ [])

-- A worker that sends MAIN twice.
cr_send_to_runner-answered_example :
    cr_send_to_runner encode decode_ack unlocked 7
      (done 1 ∷ [])
      (interrupted ∷ done (1 ∷ 1 ∷ codes "no") ∷ [])
    ≡ some (
        if (handle (Value.phase (message_of main)) (client_in 1)).1
        then refused (some (codes "no"))
        else continues)
unfolding write_message process_client_message_impl send_ack
cr_send_to_runner-answered_example =
    cr_send_to_runner-answered encode encode_ack decode_ack unlocked 7
      (Value.phase (message_of main)) (client_in 1) false (some (codes "no")) _ (1 ∷ 1 ∷ codes "no")
      (done 1 ∷ []) (done 4 ∷ []) (interrupted ∷ done (1 ∷ 1 ∷ codes "no") ∷ []) (refl, refl, refl)
      decode_ack_lem refl refl refl (later here)

main_twice : (handle (Value.phase (message_of main)) (client_in 1)).1 ≡ true
unfolding handle
main_twice = refl
