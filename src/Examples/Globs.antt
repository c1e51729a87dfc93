-- ===== src/Examples/Globs.antt =====
-- Runs of src/string/brz.c and extglobmatch.c on small patterns.
use criterion.Common.{◌≡◌, refl, ◌↔◌, ◌⊎◌, true, false, none, some, arith}
use criterion.Common.{[], codes, length, ◌<◌}
use criterion.Glob.{Glob, char, star, seq, or, charset, matches, nullable, derive, accepts}
use criterion.Glob.{glob_seq, glob_char, glob_cset, glob_or, glob_star, copy}
use criterion.Glob.Language.{Lang}
use criterion.Glob.Matching.{matches_iff, matches-asterisk}
use criterion.Pattern.{ok, rejected, fault, overflow, past_end, unexpected, compile}
use criterion.Pattern.{mismatched_paren, array_size}
use criterion.Pattern.Balance.{last?}
use criterion.Pattern.Safety.{compile_faults}

-- An `a`, and then any number of `b`.
abbrev a_then_bs : Glob
a_then_bs = seq (char b'a') (star (char b'b'))

compile_seq : compile (codes "ab*") ≡ ok (some (seq (seq (char b'a') (char b'b')) (char b'*')))
unfolding compile glob_seq glob_char copy
compile_seq = refl

compile_group : compile (codes "*(a|b)") ≡ ok (some (or (star (char b'a')) (star (char b'b'))))
unfolding compile glob_or glob_star copy glob_char
compile_group = refl

compile_class : compile (codes "[!a-c]") ≡ ok (some (charset (codes "!a-c")))
unfolding compile glob_cset
compile_class = refl

compile_open : compile (codes "@(a") ≡ rejected mismatched_paren
unfolding compile
compile_open = refl

compile_close : compile (codes "a)") ≡ rejected (unexpected b')')
unfolding compile
compile_close = refl

compile_nothing : compile [] ≡ ok none
unfolding compile
compile_nothing = refl

compile_backslash : compile (codes "a\\") ≡ fault past_end
unfolding compile
compile_backslash = refl

accepts_range : accepts (codes "!a-c") b'd' ≡ true
unfolding accepts
accepts_range = refl

match_group : matches (or (star (char b'a')) (star (char b'b'))) (codes "ab") ≡ false
unfolding matches derive nullable glob_or glob_seq glob_star
match_group = refl

matches_iff_example : (matches a_then_bs (codes "abb") ≡ true) ↔ Lang a_then_bs (codes "abb")
matches_iff_example = matches_iff a_then_bs (codes "abb") (omega arith)

asterisk_is_taken : matches (char b'*') (codes "*a") ≡ false
asterisk_is_taken = matches-asterisk b'a' []

compile_faults_example :
    ((past_end ≡ overflow) × (array_size < length (codes "a\\")))
    ⊎ ((past_end ≡ past_end) × (last? (codes "a\\") ≡ some 92))
compile_faults_example = compile_faults (codes "a\\") past_end compile_backslash
