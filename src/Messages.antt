-- ===== src/Messages.antt =====
-- src/protocol/messages.c: messages and answers over a socket.
-- The codec (nanopb) and the socket (nanomsg) are libraries: the codec is an argument, and so are
-- the results of the calls of nn_send and nn_recv, in their order. `none` is that the last of these
-- calls was interrupted, so that the function still waits.
pub mod Sending
pub mod Exchange
use criterion.Common.{ℕ, Bool, true, false, not, ◌&&◌, Option, none, some, List, [], ◌∷◌, Bytes}
use criterion.Common.{length, ◌==◌, if◌then◌else◌}
use criterion.Stats.{u32}

-- What a call of nn_send or nn_recv comes to: EINTR, another error, or a result.
pub data NetResult {ℓ} (A : Type ℓ) : Type ℓ where
  interrupted failed : NetResult A
  done : A → NetResult A

-- The loops that repeat a call as long as it is interrupted: `none` for an error.
unfoldable pub retry {ℓ} :
    {A : Type ℓ} → List (NetResult A) → Option (Option A × List (NetResult A))
retry [] = none
retry (interrupted ∷ results) = retry results
retry (failed ∷ results) = some (none, results)
retry (done a ∷ results) = some (some a, results)

-- The results of read_message: -1, 0, -2, and 1 with the message.
pub data ReadResult {ℓ} (M : Type ℓ) : Type ℓ where
  not_read nothing not_decoded : ReadResult M
  read : M → ReadResult M

abbrev decoded {ℓ} : {M : Type ℓ} → Option M → ReadResult M
decoded none = not_decoded
decoded (some m) = read m

abbrev read_from {ℓ} : {M : Type ℓ} → (Bytes → Option M) → Option Bytes → ReadResult M
read_from decode none = not_read
read_from decode (some []) = nothing
read_from decode (some (c ∷ buf)) = decoded (decode (c ∷ buf))

unfoldable pub read_message {ℓ} :
    {M : Type ℓ}
    → (Bytes → Option M)
    → List (NetResult Bytes)
    → Option (ReadResult M × List (NetResult Bytes))
unfolding retry
read_message decode received = elim (retry received) [
  | none ↦ none
  | some (buf, rest) ↦ some (read_from decode buf, rest)
]

-- `written > 0 && written == (int) size`.
abbrev is_whole : ℕ → Option ℕ → Bool
is_whole size none = false
is_whole size (some written) = not (written == 0) && written == u32 size

-- The loop that sends a buffer.
unfoldable pub send_buffer : Bytes → List (NetResult ℕ) → Option Bool
unfolding retry
send_buffer buf results = elim (retry results) [
  | none ↦ none
  | some (written, rest) ↦ some (is_whole (length buf) written)
]

-- Whether `res` is 1.
unfoldable pub write_message {ℓ} :
    {M : Type ℓ} → (M → Option Bytes) → M → List (NetResult ℕ) → Option Bool
unfolding send_buffer
write_message encode message results = elim (encode message) [
  | none ↦ some false
  | some buf ↦ send_buffer buf results
]

-- criterion_protocol_ack; OK is 0.
pub record Ack : Type 0 where
  pub status_code : ℕ
  pub message : Option Bytes

-- What the calls of the mutex return.
pub record Mutex : Type 0 where
  pub init_once : Bool
  pub lock : Bool
  pub unlock : Bool

-- cr_send_to_runner returns, or aborts the process for a reason.
pub data Outcome : Type 0 where
  continues no_mutex not_written no_ack bad_ack : Outcome
  refused : Option Bytes → Outcome

abbrev pub answered : Ack → Outcome
answered ack = if ack.status_code == 0 then continues else refused ack.message

abbrev pub ack_outcome : Option Ack → Outcome
ack_outcome none = bad_ack
ack_outcome (some ack) = answered ack

module _ {ℓ} {M : Type ℓ} (encode : M → Option Bytes) (decode_ack : Bytes → Option Ack) where
  abbrev pub ack_from : Option Bytes → Outcome
  ack_from none = no_ack
  ack_from (some []) = no_ack
  ack_from (some (c ∷ buf)) = ack_outcome (decode_ack (c ∷ buf))

  unfoldable pub wait_for_ack : Mutex → List (NetResult Bytes) → Option Outcome
  unfolding retry
  wait_for_ack mutex received = elim (retry received) [
    | none ↦ none
    | some (buf, rest) ↦ some (if mutex.unlock then ack_from buf else no_mutex)
  ]

  unfoldable pub cr_send_to_runner :
      Mutex → M → List (NetResult ℕ) → List (NetResult Bytes) → Option Outcome
  unfolding write_message wait_for_ack
  cr_send_to_runner mutex message sends received =
      let sent = write_message encode message sends in
      let outcome = wait_for_ack mutex received in
      if not (mutex.init_once && mutex.lock)
      then some no_mutex
      else elim sent [ none ↦ none | some false ↦ some not_written | some true ↦ outcome ]

-- `text` is the formatted message, if it can be formatted.
abbrev pub ack_for : Bool → Option Bytes → Ack
ack_for ok text = record { status_code = if ok then 0 else 1; message = if ok then none else text }

-- The bytes that have been sent; inside, `none` is an abort.
unfoldable pub send_ack :
    (Ack → Option Bytes) → Bool → Option Bytes → List (NetResult ℕ) → Option (Option Bytes)
unfolding send_buffer
send_ack encode_ack ok text results = elim (encode_ack (ack_for ok text)) [
  | none ↦ some none
  | some buf ↦ elim (send_buffer buf results) [
    | none ↦ none
    | some whole ↦ some (if whole then some buf else none)
  ]
]
