-- ===== src/Glob/Matching.antt =====
-- src/string/brz.c, matches: the matcher decides the language of the glob.
use criterion.Common.{◌≢◌, ◌≡◌, ◌↔◌, ◌⨾◌, ℕ, true, false, refl, [], ◌∷◌, Bytes, All}
use criterion.Glob.{Glob, empty, char, nullable, derive, matches}
use criterion.Glob.Language.{Lang}
use criterion.Glob.Derivation.{nullable_iff, Lang-derive}

-- No byte of the text is an asterisk.
abbrev pub NoAsterisk : Bytes → Type 0
NoAsterisk s = All (λ c. c ≢ b'*') s

-- The matcher answers true exactly on the texts of the glob's language, for every text that has
-- no asterisk in it.
pub matches_iff : (g : Glob) (s : Bytes) → NoAsterisk s → (matches g s ≡ true) ↔ Lang g s
unfolding matches
matches_iff g [] n = nullable_iff g
matches_iff g (c ∷ s) n = matches_iff (derive g c) s n.1 ⨾ Lang-derive g c s n.0

matches-empty : (s : Bytes) → matches empty s ≡ false
unfolding matches derive nullable
matches-empty [] = refl
matches-empty (c ∷ s) = matches-empty s

-- The wildcard `*` does not match a text that begins with an asterisk and goes on.
pub matches-asterisk : (c : ℕ) (s : Bytes) → matches (char b'*') (b'*' ∷ c ∷ s) ≡ false
unfolding matches derive
matches-asterisk c s = matches-empty s
