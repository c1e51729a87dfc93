-- ===== src/Options/Tokens.antt =====
-- src/entry/params.c: what the calls of strtok_r and strcmp do with a text.
use criterion.Common.{ℕ, zero, suc, Bool, ◌||◌, Option, none, some, List, [], ◌∷◌, ◌++◌}
use criterion.Common.{Bytes, codes, bytes_eq, ◌==◌, if◌then◌else◌}

-- Up to the first delimiter, and behind it.
unfoldable pub cut : ℕ → Bytes → Bytes × Bytes
cut delim [] = ([], [])
cut delim (c ∷ s) =
    let (token, rest) = cut delim s in if c == delim then ([], s) else (c ∷ token, rest)

-- The delimiters at the beginning, and the rest.
unfoldable pub skip : ℕ → Bytes → Bytes × Bytes
skip delim [] = ([], [])
skip delim (c ∷ s) =
    let (before, rest) = skip delim s in if c == delim then (c ∷ before, rest) else ([], c ∷ s)

-- strtok_r: the token, if there is one, and the text behind its delimiter.
unfoldable pub strtok_r : ℕ → Bytes → Option (Bytes × Bytes)
unfolding skip cut
strtok_r delim s = elim (skip delim s).1 [ [] ↦ none | c ∷ rest ↦ some (cut delim (c ∷ rest)) ]

-- The text at the pointer that a first call of strtok_r was given, behind the call: the token is
-- ended by a NUL, and the delimiters before it stay.
unfoldable pub text_after : ℕ → Bytes → Bytes
unfolding skip strtok_r
text_after delim s = elim (strtok_r delim s) [
  | none ↦ s
  | some (token, rest) ↦ (skip delim s).0 ++ token
]

-- The tokens of the later calls, as long as there are any. A token and its
-- delimiter leave a shorter text, so its length is fuel enough.
unfoldable pub tokens : ℕ → ℕ → Bytes → List Bytes
unfolding strtok_r
tokens delim zero s = []
tokens delim (suc fuel) s = elim (strtok_r delim s) [
  | none ↦ []
  | some (token, rest) ↦ token ∷ tokens delim fuel rest
]

unfoldable pub must_be_quiet : Bytes → Bool
unfolding bytes_eq
must_be_quiet output_path =
    bytes_eq output_path (codes "-") || bytes_eq output_path (codes "/dev/stderr")
