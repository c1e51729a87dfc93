-- ===== src/Glob.antt =====
-- src/string/brz.c and brz.h: extended globs, matched by Brzozowski derivatives.
-- A node of `struct stc_glob` is a constructor of `Glob`, named after its `glob_type`; the
-- function pointers `nullable`, `derive` and `copy`, which each constructor function sets
-- according to that type, are the clauses of `nullable`, `derive` and `copy`.
-- Nodes are immutable and owned by one parent, so a tree is a value, and `free_glob` has no
-- counterpart. A `char` is a byte; the class test reads it as a signed `char`.
mod Charset
pub mod Language
pub mod Texts
pub mod Derivation
pub mod Matching
pub use Charset.{Scan, malformed, scanned}
unfoldable pub use Charset.{in_span, scan_spans, scan_charset, accepts}
use criterion.Common.{ℕ, Bool, true, false, not, ◌&&◌, ◌||◌, [], ◌∷◌, Bytes, ◌==◌, if◌then◌else◌}

pub data Glob : Type 0 where
  empty : Glob
  blank : Glob
  char : ℕ → Glob
  charset : Bytes → Glob
  or : Glob → Glob → Glob
  and : Glob → Glob → Glob
  star : Glob → Glob
  plus : Glob → Glob
  at : Glob → Glob
  opt : Glob → Glob
  seq : Glob → Glob → Glob
  not_glob : Glob → Glob

-- `first->type == EMPTY` and `first->type == BLANK`.
abbrev pub is_empty : Glob → Bool
is_empty empty = true
is_empty _ = false

abbrev pub is_blank : Glob → Bool
is_blank blank = true
is_blank _ = false

-- copy_zero, copy_one and copy_two.
unfoldable pub copy : Glob → Glob
copy empty = empty
copy blank = blank
copy (char c) = char c
copy (charset cset) = charset cset
copy (or first second) = or (copy first) (copy second)
copy (and first second) = and (copy first) (copy second)
copy (star first) = star (copy first)
copy (plus first) = plus (copy first)
copy (at first) = at (copy first)
copy (opt first) = opt (copy first)
copy (seq first second) = seq (copy first) (copy second)
copy (not_glob first) = not_glob (copy first)

unfoldable pub glob_empty : Glob
glob_empty = empty

unfoldable pub glob_blank : Glob
glob_blank = blank

unfoldable pub glob_char : ℕ → Glob
glob_char c = char c

unfoldable pub glob_cset : Bytes → Glob
glob_cset cset = charset cset

unfoldable pub glob_or : Glob → Glob → Glob
glob_or first second =
    if is_empty first
    then copy second
    else if is_empty second
    then copy first
    else or (copy first) (copy second)

unfoldable pub glob_and : Glob → Glob → Glob
unfolding glob_empty
glob_and first second =
    if is_empty first || is_empty second then glob_empty else and (copy first) (copy second)

unfoldable pub glob_star : Glob → Glob
glob_star pattern = star (copy pattern)

-- The C code builds a star and retypes it.
unfoldable pub glob_plus : Glob → Glob
glob_plus pattern = plus (copy pattern)

unfoldable pub glob_at : Glob → Glob
unfolding glob_empty glob_blank
glob_at pattern =
    if is_empty pattern
    then glob_empty
    else if is_blank pattern
    then glob_blank
    else at (copy pattern)

unfoldable pub glob_opt : Glob → Glob
glob_opt pattern = opt (copy pattern)

unfoldable pub glob_not : Glob → Glob
glob_not pattern = not_glob (copy pattern)

unfoldable pub glob_seq : Glob → Glob → Glob
unfolding glob_empty
glob_seq first second =
    if is_empty first || is_empty second
    then glob_empty
    else if is_blank first
    then copy second
    else seq (copy first) (copy second)

-- is_true, is_false, nullable_char, nullable_or, nullable_seq, nullable_first, nullable_not.
unfoldable pub nullable : Glob → Bool
nullable empty = false
nullable blank = true
nullable (char c) = c == b'?' || c == b'*'
nullable (charset cset) = false
nullable (or first second) = nullable first || nullable second
nullable (and first second) = nullable first && nullable second
nullable (star first) = true
nullable (plus first) = nullable first
nullable (at first) = nullable first
nullable (opt first) = true
nullable (seq first second) = nullable first && nullable second
nullable (not_glob first) = not (nullable first)

unfoldable pub derive_char : ℕ → ℕ → Glob
unfolding glob_blank glob_empty copy
derive_char c chr =
    if c == chr || c == b'?' then glob_blank else if c == b'*' then copy (char c) else glob_empty

unfoldable pub derive_cset : Bytes → ℕ → Glob
unfolding accepts glob_blank glob_empty
derive_cset cset chr = if accepts cset chr then glob_blank else glob_empty

unfoldable pub derive : Glob → ℕ → Glob
unfolding glob_empty derive_char derive_cset
derive empty chr = glob_empty
derive blank chr = glob_empty
derive (char c) chr = derive_char c chr
derive (charset cset) chr = derive_cset cset chr
derive (or first second) chr = glob_or (derive first chr) (derive second chr)
derive (and first second) chr = glob_and (derive first chr) (derive second chr)
derive (star pattern) chr = glob_seq (derive pattern chr) (glob_star pattern)
derive (plus pattern) chr = glob_seq (derive pattern chr) (glob_star pattern)
derive (at pattern) chr = glob_at (derive pattern chr)
derive (opt pattern) chr = glob_at (derive pattern chr)
derive (seq first second) chr =
    let d1 = derive first chr in
    let d2 = derive second chr in
    if nullable first then glob_or (glob_seq d1 second) d2 else glob_seq d1 second
derive (not_glob pattern) chr = glob_not (derive pattern chr)

unfoldable pub matches : Glob → Bytes → Bool
matches self [] = nullable self
matches self (chr ∷ string) = matches (derive self chr) string
