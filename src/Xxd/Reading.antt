-- ===== src/Xxd/Reading.antt =====
-- src/string/xxd.c: the bytes can be read back from the text.
use mathlib.Core.List.{append_assoc}
use criterion.Common.{
  ℕ, zero, suc, ◌+◌, ◌-◌, ◌*◌, ◌/◌, ◌%◌, ◌≤◌, ◌<◌, ◌≡◌, ◌≢◌, refl, sym, ap, subst, ◌∙◌,
}
use criterion.Common.{arith, inl, inr, Bool, true, false, [], ◌∷◌, ◌++◌, Bytes, map, length}
use criterion.Common.{replicate, take, drop, length-drop, take-drop, All, ltb, ◌==◌, if◌then◌else◌}
use criterion.Common.{if_cases, Bool-cases}
use criterion.Stats.{u64}
use criterion.Xxd.{hex_digit, hex_of, padded_hex, hex_bytes, columns, shown, xxd_lines}
use criterion.Xxd.{offwidth, cri_string_xxd}

-- Where a reader of the text is: in the address of a line, before a byte, behind the space before
-- a group, behind the first digit of a byte, or behind the last byte of a line.
pub data Place : Type 0 where
  address start gap beyond : Place
  half : ℕ → Place

unfoldable pub digit_value : ℕ → ℕ
digit_value c = if ltb c b'a' then c - b'0' else c - b'a' + 10

-- The bytes that the text stands for.
unfoldable pub read : Place → Bytes → Bytes
unfolding digit_value
read p [] = []
read address (c ∷ s) = read (if c == b':' then start else address) s
read start (c ∷ s) = read (if c == b' ' then gap else half (digit_value c)) s
read gap (c ∷ s) = read (if c == b' ' then beyond else half (digit_value c)) s
read beyond (c ∷ s) = read (if c == 10 then address else beyond) s
read (half high) (c ∷ s) = (high * 16 + digit_value c) ∷ read start s

digit_lem :
    (d : ℕ) → d < 16 → (digit_value (hex_digit d) ≡ d) × (hex_digit d ≢ b' ') × (hex_digit d ≢ b':')
unfolding digit_value hex_digit
digit_lem d h = (ground arith, ground arith, ground arith)

abbrev NotColon : ℕ → Type 0
NotColon c = c ≢ b':'

abbrev NotNewline : ℕ → Type 0
NotNewline c = c ≢ 10

module _ (P : ℕ → Type 0) where
  All-append : (xs ys : Bytes) → All P xs → All P ys → All P (xs ++ ys)
  All-append [] ys h k = k
  All-append (x ∷ xs) ys h k = (h.0, All-append xs ys h.1 k)

  All-replicate : (n c : ℕ) → P c → All P (replicate n c)
  All-replicate zero c h = tt
  All-replicate (suc n) c h = (h, All-replicate n c h)

  All-take : (n : ℕ) (xs : Bytes) → All P xs → All P (take n xs)
  All-take zero xs h = tt
  All-take (suc n) [] h = tt
  All-take (suc n) (x ∷ xs) h = (h.0, All-take n xs h.1)

  All-drop : (n : ℕ) (xs : Bytes) → All P xs → All P (drop n xs)
  All-drop zero xs h = h
  All-drop (suc n) [] h = tt
  All-drop (suc n) (x ∷ xs) h = All-drop n xs h.1

hex_of-NotColon : (digits n : ℕ) → All NotColon (hex_of digits n)
unfolding hex_of
hex_of-NotColon zero n = tt
hex_of-NotColon (suc digits) n =
    let last = (digit_lem (n % 16) (omega arith)).2 in
    if_cases (All NotColon) (n / 16 == 0) (λ _. (last, tt))
      λ _.
        All-append NotColon (hex_of digits (n / 16)) (hex_digit (n % 16) ∷ [])
          (hex_of-NotColon digits (n / 16)) (last, tt)

read-address : (xs s : Bytes) → All NotColon xs → read address (xs ++ b':' ∷ s) ≡ read start s
unfolding read
read-address [] s h = refl
read-address (x ∷ xs) s h =
    let n : (x == b':') ≡ false = ground arith in rw (n, read) (read-address xs s h.1)

read-padded_hex :
    (width n : ℕ) (s : Bytes) → read address (padded_hex width n ++ b':' ∷ s) ≡ read start s
unfolding padded_hex
read-padded_hex width n s =
    read-address (replicate (width - length (hex_of 16 n)) b'0' ++ hex_of 16 n) s (
      All-append NotColon (replicate (width - length (hex_of 16 n)) b'0') (hex_of 16 n)
        (All-replicate NotColon (width - length (hex_of 16 n)) b'0' (omega arith))
        (hex_of-NotColon 16 n))

read-beyond : (xs s : Bytes) → All NotNewline xs → read beyond (xs ++ s) ≡ read beyond s
unfolding read
read-beyond [] s h = refl
read-beyond (x ∷ xs) s h =
    let n : (x == 10) ≡ false = ground arith in rw (n, read) (read-beyond xs s h.1)

abbrev pub AreBytes : Bytes → Type 0
AreBytes = All (λ c. c < 256)

read-pair :
    (p : Place) (c : ℕ) (s : Bytes)
    → ((d : ℕ) (s : Bytes) → d ≢ b' ' → read p (d ∷ s) ≡ read (half (digit_value d)) s)
    → c < 256
    → read p (hex_digit (c / 16 % 16) ∷ hex_digit (c % 16) ∷ s) ≡ c ∷ read start s
unfolding read
read-pair p c s first h =
    let (v, n, _) = digit_lem (c / 16 % 16) (omega arith) in
    let (w, _, _) = digit_lem (c % 16) (omega arith) in
    first (hex_digit (c / 16 % 16)) (hex_digit (c % 16) ∷ s) n
    ∙ rw (v, w) (ap (λ d. d ∷ read start s) (omega arith))

start-digit : (d : ℕ) (s : Bytes) → d ≢ b' ' → read start (d ∷ s) ≡ read (half (digit_value d)) s
unfolding read
start-digit d s h = let n : (d == b' ') ≡ false = ground arith in rw n refl

gap-digit : (d : ℕ) (s : Bytes) → d ≢ b' ' → read gap (d ∷ s) ≡ read (half (digit_value d)) s
unfolding read
gap-digit d s h = let n : (d == b' ') ≡ false = ground arith in rw n refl

read-hex_bytes :
    (j : ℕ) (cs s : Bytes)
    → AreBytes cs
    → read start (hex_bytes j cs ++ b' ' ∷ b' ' ∷ s) ≡ cs ++ read beyond s
unfolding hex_bytes read
read-hex_bytes j [] s h = refl
read-hex_bytes j (c ∷ cs) s h =
    let others = read-hex_bytes (j + 1) cs s h.1 in
    let behind = hex_bytes (j + 1) cs ++ b' ' ∷ b' ' ∷ s in
    elim (Bool-cases (j % 4 == 0)) [
      | inl e ↦ rw e (read-pair gap c behind gap-digit h.0 ∙ ap (◌∷◌ c) others)
      | inr e ↦ rw e (read-pair start c behind start-digit h.0 ∙ ap (◌∷◌ c) others)
    ]

regroup :
    (a b c d e s : Bytes) → (a ++ (b ++ (c ++ (d ++ e)))) ++ s ≡ a ++ (b ++ (c ++ (d ++ (e ++ s))))
regroup a b c d e s = simp append_assoc

module _ (is_print : ℕ → Bool) (newline : is_print 10 ≡ false) where
  shown-NotNewline : (c : ℕ) → NotNewline (shown is_print c)
  shown-NotNewline c e = elim (Bool-cases (is_print c)) [
    | inl p ↦ cc (subst (λ d. is_print d ≡ true) (sym (ap (λ b. if b then c else b'.') p) ∙ e) p)
    | inr p ↦ absurd (omega (arith, sym (ap (λ b. if b then c else b'.') p) ∙ e))
  ]

  map-NotNewline : (cs : Bytes) → All NotNewline (map (shown is_print) cs)
  map-NotNewline [] = tt
  map-NotNewline (c ∷ cs) = (shown-NotNewline c, map-NotNewline cs)

  read-text :
      (spaces left : ℕ) (cs s : Bytes)
      → read beyond
          (replicate spaces b' ' ++ (map (shown is_print) cs ++ (replicate left b' ' ++ 10 ∷ s)))
        ≡ read address s
  unfolding read
  read-text spaces left cs s =
      let blank : NotNewline b' ' = omega arith in
      read-beyond (replicate spaces b' ') _ (All-replicate NotNewline spaces b' ' blank)
      ∙ read-beyond (map (shown is_print) cs) _ (map-NotNewline cs)
      ∙ read-beyond (replicate left b' ') _ (All-replicate NotNewline left b' ' blank)

  read-columns :
      (chunk s : Bytes)
      → AreBytes chunk
      → read start (columns is_print chunk ++ s) ≡ chunk ++ read address s
  unfolding columns
  read-columns chunk s h =
      let left = 16 - length chunk in
      let spaces = (left + 1) * 2 + left / 4 in
      let two : spaces ≡ suc (suc (spaces - 2)) = omega arith in
      let shown_text = map (shown is_print) chunk in
      let end = replicate left b' ' ++ 10 ∷ s in
      ap (read start) (
        regroup (hex_bytes 0 chunk) (replicate spaces b' ') shown_text (replicate left b' ')
          (10 ∷ []) s
        ∙ ap (λ n. hex_bytes 0 chunk ++ (replicate n b' ' ++ (shown_text ++ end))) two)
      ∙ read-hex_bytes 0 chunk (replicate (spaces - 2) b' ' ++ (shown_text ++ end)) h
      ∙ ap (λ xs. chunk ++ xs) (read-text (spaces - 2) left chunk s)

  read-xxd_lines :
      (rounds width start_ i : ℕ) (bytes : Bytes)
      → length bytes ≤ rounds
      → AreBytes bytes
      → read address (xxd_lines is_print rounds width start_ i bytes) ≡ bytes
  unfolding xxd_lines read
  read-xxd_lines rounds width start_ i [] k h = refl
  read-xxd_lines zero width start_ i (c ∷ bytes) k h = absurd (omega arith)
  read-xxd_lines (suc rounds) width start_ i (c ∷ bytes) k h =
      let chunk = take 16 (c ∷ bytes) in
      let behind = drop 16 (c ∷ bytes) in
      let others = xxd_lines is_print rounds width start_ (i + length chunk) behind in
      read-padded_hex width (u64 (i + start_)) (columns is_print chunk ++ others)
      ∙ read-columns chunk others (All-take (λ c. c < 256) 16 (c ∷ bytes) h)
      ∙ ap (λ xs. chunk ++ xs)
          (read-xxd_lines rounds width start_ (i + length chunk) behind
            (omega (arith, length-drop 16 (c ∷ bytes))) (All-drop (λ c. c < 256) 16 (c ∷ bytes) h))
      ∙ take-drop 16 (c ∷ bytes)

  -- A reader that knows nothing of the buffer gets every byte back from its dump, in order,
  -- whatever the start address is and whichever bytes are printable, as long as a newline is not.
  pub read-cri_string_xxd :
      (bytes : Bytes) (start_ : ℕ)
      → AreBytes bytes
      → read address (cri_string_xxd is_print bytes start_) ≡ bytes
  unfolding cri_string_xxd
  read-cri_string_xxd bytes start_ h =
      read-xxd_lines (length bytes) (offwidth (length bytes)) start_ 0 bytes (omega arith) h
