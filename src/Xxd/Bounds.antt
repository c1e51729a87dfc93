-- ===== src/Xxd/Bounds.antt =====
-- src/string/xxd.c: the text fits into the memory that is allocated for it.
use criterion.Common.{ℕ, zero, suc, ◌+◌, ◌-◌, ◌*◌, ◌/◌, ◌%◌, ◌^◌, ◌≤◌, ◌<◌, ◌≡◌, refl, ap, arith}
use criterion.Common.{Bool, [], ◌∷◌, ◌++◌, Bytes, map, length, replicate, take, drop}
use criterion.Common.{length-append, length-replicate, length-drop, length-take-le, if_cases, ◌==◌}
use criterion.Stats.{u64}
use criterion.Xxd.{ulog2, log_step, allocated, offwidth, hex_digit, hex_of, padded_hex}
use criterion.Xxd.{hex_bytes, columns, xxd_lines, cri_string_xxd, shown}

log_step-le : (k : ℕ) (p : ℕ × ℕ) → (log_step k p).1 ≤ p.1 + k
unfolding log_step
log_step-le k (n, i) = ground arith

ulog2-le : (n : ℕ) → ulog2 n ≤ 63
unfolding ulog2
ulog2-le n =
    let p = log_step 32 (n, 0) in
    let q = log_step 16 p in
    let r = log_step 8 q in
    let s = log_step 4 r in
    let t = log_step 2 s in
    omega (
      arith,
      log_step-le 32 (n, 0),
      log_step-le 16 p,
      log_step-le 8 q,
      log_step-le 4 r,
      log_step-le 2 s,
      log_step-le 1 t,
    )

offwidth-le : (size : ℕ) → offwidth size ≤ 16
unfolding offwidth
offwidth-le size = ground (arith, ulog2-le (size - 1))

length-hex_of : (digits n : ℕ) → length (hex_of digits n) ≤ digits
unfolding hex_of
length-hex_of zero n = omega arith
length-hex_of (suc digits) n =
    if_cases (λ (t : Bytes). length t ≤ suc digits) (n / 16 == 0) (λ _. omega arith)
      λ _. omega (
        arith,
        length-append (hex_of digits (n / 16)) (hex_digit (n % 16) ∷ []),
        length-hex_of digits (n / 16),
      )

length-padded_hex : (width n : ℕ) → width ≤ 16 → length (padded_hex width n) ≤ 16
unfolding padded_hex
length-padded_hex width n h = omega (
  arith,
  length-hex_of 16 n,
  length-append (replicate (width - length (hex_of 16 n)) b'0') (hex_of 16 n),
  length-replicate {A = ℕ} (width - length (hex_of 16 n)) b'0',
)

length-hex_bytes :
    (j : ℕ) (cs : Bytes)
    → length (hex_bytes j cs) + (j + 3) / 4 ≡ 2 * length cs + (j + length cs + 3) / 4
unfolding hex_bytes
length-hex_bytes j [] = omega arith
length-hex_bytes j (c ∷ cs) = ground (arith, length-hex_bytes (j + 1) cs)

length-map : (f : ℕ → ℕ) (xs : Bytes) → length (map f xs) ≡ length xs
length-map f [] = refl
length-map f (x ∷ xs) = ap suc (length-map f xs)

module _ (is_print : ℕ → Bool) where
  length-columns : (chunk : Bytes) → length chunk ≤ 16 → length (columns is_print chunk) ≡ 55
  unfolding columns
  length-columns chunk h =
      let left = 16 - length chunk in
      let pad = (left + 1) * 2 + left / 4 in
      let hex = hex_bytes 0 chunk in
      let end : Bytes = replicate left b' ' ++ 10 ∷ [] in
      let text = map (shown is_print) chunk in
      omega (
        arith,
        length-append hex (replicate pad b' ' ++ (text ++ end)),
        length-append (replicate pad b' ') (text ++ end),
        length-append text end,
        length-append {A = ℕ} (replicate left b' ') (10 ∷ []),
        length-replicate {A = ℕ} pad b' ',
        length-replicate {A = ℕ} left b' ',
        length-map (shown is_print) chunk,
        length-hex_bytes 0 chunk,
      )

  length-xxd_lines :
      (rounds width start i : ℕ) (bytes : Bytes)
      → width ≤ 16
      → length (xxd_lines is_print rounds width start i bytes) ≤ 72 * ((length bytes + 15) / 16)
  unfolding xxd_lines
  length-xxd_lines rounds width start i [] w = omega arith
  length-xxd_lines zero width start i (c ∷ bytes) w = omega arith
  length-xxd_lines (suc rounds) width start i (c ∷ bytes) w =
      let chunk = take 16 (c ∷ bytes) in
      let behind = drop 16 (c ∷ bytes) in
      let address = padded_hex width (u64 (i + start)) in
      let others = xxd_lines is_print rounds width start (i + length chunk) behind in
      omega (
        arith,
        length-append address (b':' ∷ (columns is_print chunk ++ others)),
        length-append (columns is_print chunk) others,
        length-columns chunk (length-take-le 16 (c ∷ bytes)),
        length-padded_hex width (u64 (i + start)) w,
        length-drop 16 (c ∷ bytes),
        length-xxd_lines rounds width start (i + length chunk) behind w,
      )

  -- The text of a buffer and its terminating NUL fit into the memory that is allocated for them,
  -- whatever the start address is and whichever bytes are printable. The buffer has fewer than
  -- 2^56 bytes.
  pub length-cri_string_xxd :
      (bytes : Bytes) (start : ℕ)
      → length bytes < 2 ^ 56
      → length (cri_string_xxd is_print bytes start) + 1 ≤ allocated (length bytes)
  unfolding cri_string_xxd allocated
  length-cri_string_xxd bytes start h =
      let size = length bytes in
      omega (arith, length-xxd_lines size (offwidth size) start 0 bytes (offwidth-le size))
