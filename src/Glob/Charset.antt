-- ===== src/Glob/Charset.antt =====
-- src/string/brz.c, derive_cset: the scan of a character class such as `!a-cx`.
use criterion.Common.{ℕ, Bool, true, false, not, ◌&&◌, [], ◌∷◌, Bytes}
use criterion.Common.{ltb, leb, ◌==◌, if◌then◌else◌}

-- How the scan ends: early on malformed text, or with the value of `match`.
pub data Scan : Type 0 where
  malformed : Scan
  scanned : Bool → Scan

-- `a <= chr && chr <= b` after the swap. `a` and `b` are `unsigned char`; `chr` is a signed
-- `char`, so a byte of 128 or more is negative and lies in no span.
unfoldable pub in_span : ℕ → ℕ → ℕ → Bool
in_span a b chr =
    let low = if ltb b a then b else a in
    let high = if ltb b a then a else b in ltb chr 128 && leb low chr && leb chr high

-- The rounds of the loop. The argument starts at the byte that `*class++` reads next; its end
-- is the NUL that ends the loop after the first round.
unfoldable pub scan_spans : Bytes → ℕ → Scan
unfolding in_span
scan_spans [] chr = scanned false
scan_spans (a ∷ []) chr = scanned (in_span a a chr)
scan_spans (a ∷ dash ∷ []) chr =
    let rest = scan_spans (dash ∷ []) chr in
    if dash == b'-' then malformed else if in_span a a chr then scanned true else rest
scan_spans (a ∷ dash ∷ b ∷ class) chr =
    let range = if in_span a b chr then scanned true else scan_spans class chr in
    let single = if in_span a a chr then scanned true else scan_spans (dash ∷ b ∷ class) chr in
    if dash == b'-' && not (b == b']') then range else single

-- The first round rejects an empty class.
scan_class : Bytes → ℕ → Scan
unfolding scan_spans
scan_class [] chr = malformed
scan_class (a ∷ class) chr = scan_spans (a ∷ class) chr

abbrev pub is_inverted : Bytes → Bool
is_inverted [] = false
is_inverted (c ∷ _) = c == b'!'

abbrev pub after_bang : Bytes → Bytes
after_bang [] = []
after_bang (c ∷ class) = if c == b'!' then class else c ∷ class

unfoldable pub scan_charset : Bytes → ℕ → Scan
unfolding scan_class
scan_charset cset chr = scan_class (after_bang cset) chr

-- Whether derive_cset returns glob_blank: the class is not malformed, and `match != inverted`.
unfoldable pub accepts : Bytes → ℕ → Bool
unfolding scan_charset
accepts cset chr = elim (scan_charset cset chr) [
  | malformed ↦ false
  | scanned found ↦ if is_inverted cset then not found else found
]
