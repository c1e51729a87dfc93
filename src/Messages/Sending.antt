-- ===== src/Messages/Sending.antt =====
-- src/protocol/messages.c: what has been written is read, and when cr_send_to_runner returns.
use criterion.Common.{ℕ, ◌≡◌, ◌<◌, ◌^◌, refl, ap, ◌∙◌, subst, ◌≢◌, ◌↔◌, arith, inl, inr}
use criterion.Common.{true, Option, none, some, List, [], ◌∷◌, Bytes, length}
use criterion.Common.{Option-cases, take}
use criterion.Stats.{u32}
use criterion.Messages.{NetResult, interrupted, failed, done, retry, read, read_message}
use criterion.Messages.{send_buffer, write_message, Ack, Mutex, continues}
use criterion.Messages.{ack_outcome, wait_for_ack, cr_send_to_runner}

-- The first call that is not interrupted gives this result.
pub data Comes {ℓ} {A : Type ℓ} (a : A) : List (NetResult A) → Type ℓ where
  here : {rest : List (NetResult A)} → Comes a (done a ∷ rest)
  later : {rest : List (NetResult A)} → Comes a rest → Comes a (interrupted ∷ rest)

Comes-retry {ℓ} :
    {A : Type ℓ} {a : A} {results : List (NetResult A)}
    → Comes a results
    → (rest : List (NetResult A)) × (retry results ≡ some (some a, rest))
unfolding retry
Comes-retry (here {rest}) = (rest, refl)
Comes-retry (later c) = Comes-retry c

-- The whole buffer, which is not empty, has been taken.
abbrev pub IsSent : Bytes → List (NetResult ℕ) → Type 0
IsSent buf results = (u32 (length buf) ≢ 0) × Comes (u32 (length buf)) results

pub send_buffer-IsSent :
    (buf : Bytes) (results : List (NetResult ℕ))
    → send_buffer buf results ≡ some true
    → IsSent buf results
unfolding send_buffer retry
send_buffer-IsSent buf [] e = cc
send_buffer-IsSent buf (interrupted ∷ results) e =
    let (n, c) = send_buffer-IsSent buf results e in (n, later c)
send_buffer-IsSent buf (failed ∷ results) e = cc
send_buffer-IsSent buf (done n ∷ results) e =
    let (m, k) : (n ≡ u32 (length buf)) × (n ≢ 0) = (ground arith, ground arith) in
    (λ z. k (m ∙ z), subst (λ x. Comes x (done n ∷ results)) m here)

IsSent-send_buffer :
    (buf : Bytes) (results : List (NetResult ℕ))
    → IsSent buf results
    → send_buffer buf results ≡ some true
unfolding send_buffer
IsSent-send_buffer buf results (n, c) =
    let (rest, e) = Comes-retry c in rw (e, send_buffer) (ground arith)

read_message-whole {ℓ} :
    {M : Type ℓ} (decode : Bytes → Option M) (m : M) (buf : Bytes)
    (received : List (NetResult Bytes))
    → u32 (length buf) ≢ 0
    → decode buf ≡ some m
    → Comes buf received
    → (rest : List (NetResult Bytes)) × (read_message decode received ≡ some (read m, rest))
unfolding read_message
read_message-whole decode m [] received n d c = absurd (n refl)
read_message-whole decode m (b ∷ buf) received n d c =
    let (rest, r) = Comes-retry c in (rest, rw (r, read_message, d) refl)

-- A message that write_message has written was encoded, and its bytes were sent.
abbrev pub IsWritten {ℓ} : {M : Type ℓ} → (M → Option Bytes) → M → List (NetResult ℕ) → Type 0
IsWritten encode m sends = (buf : Bytes) × (encode m ≡ some buf) × IsSent buf sends

pub write_message-IsWritten {ℓ} :
    {M : Type ℓ} (encode : M → Option Bytes) (m : M) (sends : List (NetResult ℕ))
    → write_message encode m sends ≡ some true
    → IsWritten encode m sends
unfolding write_message
write_message-IsWritten encode m sends e = elim (Option-cases (encode m)) [
  | inl n ↦ ground arith
  | inr (buf, n) ↦ (buf, n, send_buffer-IsSent buf sends (ground arith))
]

-- What nn_send passes on: the bytes that the first call that is not interrupted says to have taken.
abbrev pub delivered : Bytes → List (NetResult ℕ) → Option Bytes
delivered buf [] = none
delivered buf (interrupted ∷ sends) = delivered buf sends
delivered buf (failed ∷ sends) = none
delivered buf (done n ∷ sends) = some (take n buf)

Comes-delivered :
    (buf : Bytes) {n : ℕ} {sends : List (NetResult ℕ)}
    → Comes n sends
    → delivered buf sends ≡ some (take n buf)
Comes-delivered buf here = refl
Comes-delivered buf (later c) = Comes-delivered buf c

take-length : (s : Bytes) → take (length s) s ≡ s
take-length [] = refl
take-length (c ∷ s) = ap (◌∷◌ c) (take-length s)

-- A message that write_message reports as written has been passed on as a whole, and read_message
-- gets it from the bytes that were passed on, for any interruptions on either side. The decoder
-- undoes the encoder, which makes no more than 2^32 - 1 bytes.
pub write_message-read_message {ℓ} :
    {M : Type ℓ} (encode : M → Option Bytes) (decode : Bytes → Option M) (m : M)
    (sends : List (NetResult ℕ))
    → ((buf : Bytes) → encode m ≡ some buf → decode buf ≡ some m)
    → ((buf : Bytes) → encode m ≡ some buf → length buf < 2 ^ 32)
    → write_message encode m sends ≡ some true
    → (buf : Bytes) × (encode m ≡ some buf)
      × ((wire : Bytes) (received : List (NetResult Bytes))
          → delivered buf sends ≡ some wire
          → Comes wire received
          → (rest : List (NetResult Bytes)) × (read_message decode received ≡ some (read m, rest)))
write_message-read_message encode decode m sends inverse small e =
    let (buf, n, (whole, c)) = write_message-IsWritten encode m sends e in
    let size : u32 (length buf) ≡ length buf = omega (arith, small buf n) in
    let sent : delivered buf sends ≡ some buf =
      Comes-delivered buf c ∙ ap (λ k. some (take k buf)) size ∙ ap some (take-length buf) in
    (
      buf,
      n,
      λ wire received w k.
          let same : wire ≡ buf = cc (w, sent) in
          read_message-whole decode m buf received whole (inverse buf n)
            (subst (λ b. Comes b received) same k),
    )

module _ {ℓ} {M : Type ℓ} (encode : M → Option Bytes) (decode_ack : Bytes → Option Ack) where
  -- The runner has answered OK.
  abbrev pub IsAcked : List (NetResult Bytes) → Type 0
  IsAcked received =
      (buf : Bytes) × (a : Ack) × (buf ≢ [])
      × Comes buf received
      × (decode_ack buf ≡ some a)
      × (a.status_code ≡ 0)

  ack_outcome-continues :
      (o : Option Ack) → ack_outcome o ≡ continues → (a : Ack) × (o ≡ some a) × (a.status_code ≡ 0)
  ack_outcome-continues none e = cc
  ack_outcome-continues (some a) e = (a, refl, ground arith)

  wait_for_ack-IsAcked :
      (mutex : Mutex) (received : List (NetResult Bytes))
      → wait_for_ack encode decode_ack mutex received ≡ some continues
      → (mutex.unlock ≡ true) × IsAcked received
  unfolding wait_for_ack retry
  wait_for_ack-IsAcked mutex [] e = cc
  wait_for_ack-IsAcked mutex (interrupted ∷ received) e =
      let (u, (buf, a, n, c, d, z)) = wait_for_ack-IsAcked mutex received e in
      (u, (buf, a, n, later c, d, z))
  wait_for_ack-IsAcked mutex (failed ∷ received) e = ground arith
  wait_for_ack-IsAcked mutex (done [] ∷ received) e = ground arith
  wait_for_ack-IsAcked mutex (done (b ∷ buf) ∷ received) e =
      let u : mutex.unlock ≡ true = ground arith in
      let (a, d, z) = ack_outcome-continues (decode_ack (b ∷ buf)) (ground arith) in
      (u, (b ∷ buf, a, λ x. cc, here, d, z))

  IsAcked-wait_for_ack :
      (mutex : Mutex) (received : List (NetResult Bytes)) (buf : Bytes) (a : Ack)
      → mutex.unlock ≡ true
      → buf ≢ []
      → Comes buf received
      → decode_ack buf ≡ some a
      → wait_for_ack encode decode_ack mutex received ≡ some (ack_outcome (some a))
  unfolding wait_for_ack
  IsAcked-wait_for_ack mutex received [] a u n c d = absurd (n refl)
  IsAcked-wait_for_ack mutex received (b ∷ buf) a u n c d =
      let (rest, r) = Comes-retry c in rw (r, wait_for_ack, u, d) refl

  -- The whole of cr_send_to_runner when nothing fails: the answer decides.
  pub written-outcome :
      (mutex : Mutex) (m : M) (sends : List (NetResult ℕ)) (received : List (NetResult Bytes))
      (reply : Bytes) (a : Ack)
      → (mutex.init_once ≡ true) × (mutex.lock ≡ true) × (mutex.unlock ≡ true)
      → IsWritten encode m sends
      → reply ≢ []
      → Comes reply received
      → decode_ack reply ≡ some a
      → cr_send_to_runner encode decode_ack mutex m sends received ≡ some (ack_outcome (some a))
  unfolding cr_send_to_runner
  written-outcome mutex m sends received reply a (i, l, u) (buf, n, s) k c d =
      rw (i, l, n, IsSent-send_buffer buf sends s, cr_send_to_runner)
        (IsAcked-wait_for_ack mutex received reply a u k c d)

  -- cr_send_to_runner returns exactly when no call of the mutex fails, the whole message has been
  -- sent, and the runner has answered OK; with any fault or refusal it does not go on.
  pub cr_send_to_runner-continues_iff :
      (mutex : Mutex) (m : M) (sends : List (NetResult ℕ)) (received : List (NetResult Bytes))
      → (cr_send_to_runner encode decode_ack mutex m sends received ≡ some continues) ↔ (
          (mutex.init_once ≡ true)
          × (mutex.lock ≡ true)
          × (mutex.unlock ≡ true)
          × IsWritten encode m sends
          × IsAcked received)
  unfolding cr_send_to_runner
  cr_send_to_runner-continues_iff mutex m sends received = (
    λ e.
        let (u, k) = wait_for_ack-IsAcked mutex received (ground arith) in
        (ground arith, ground arith, u, write_message-IsWritten encode m sends (ground arith), k),
    λ (i, l, u, w, (reply, a, k, c, d, z)).
        written-outcome mutex m sends received reply a (i, l, u) w k c d ∙ rw z refl,
  )
