-- ===== src/Pattern/Syntax.antt =====
-- The patterns of src/string/extglobmatch.c as trees: how one is written, which texts it stands
-- for, and how many fragments and open parentheses its compilation takes.
use criterion.Common.{ℕ, ◌+◌, ◌≤◌, ◌<◌, ◌≡◌, ◌⊎◌, Bool, true, false, ◌||◌}
use criterion.Common.{[], ◌∷◌, ◌++◌, Bytes, All, ◌==◌, if◌then◌else◌}
use criterion.Glob.{accepts}
use criterion.Glob.Language.{Language, Cat, Star, CharLang}
use criterion.Pattern.Stack.{Op, negate, many, some_of, one_of, maybe, array_size}

-- `anything` is a bare asterisk, and `group` an operator with its list of patterns.
mutual
  pub data Piece : Type 0 where
    literal : ℕ → Piece
    class : Bytes → Piece
    anything : Piece
    group : Op → Patterns → Piece

  pub data Pattern : Type 0 where
    one : Piece → Pattern
    cat : Piece → Pattern → Pattern

  pub data Patterns : Type 0 where
    only : Pattern → Patterns
    either : Pattern → Patterns → Patterns

-- The bytes that the compiler treats as more than themselves; 92 is the backslash.
unfoldable pub is_special : ℕ → Bool
is_special c =
    c == b'!'
    || c == b'?'
    || c == b'@'
    || c == b'*'
    || c == b'+'
    || c == b'('
    || c == b')'
    || c == b'['
    || c == b'|'
    || c == 92

abbrev pub op_char : Op → ℕ
op_char negate = b'!'
op_char many = b'*'
op_char some_of = b'+'
op_char one_of = b'@'
op_char maybe = b'?'

-- How a pattern is written, before a rest of the text. A special byte is escaped.
unfoldable mutual
  unfolding is_special

  pub print_piece : Piece → Bytes → Bytes
  print_piece (literal c) rest = if is_special c then 92 ∷ c ∷ rest else c ∷ rest
  print_piece (class cset) rest = b'[' ∷ (cset ++ b']' ∷ rest)
  print_piece anything rest = b'*' ∷ rest
  print_piece (group op ps) rest = op_char op ∷ b'(' ∷ print_patterns ps rest

  pub print : Pattern → Bytes → Bytes
  print (one x) rest = print_piece x rest
  print (cat x p) rest = print_piece x (print p rest)

  pub print_patterns : Patterns → Bytes → Bytes
  print_patterns (only p) rest = print p (b')' ∷ rest)
  print_patterns (either p ps) rest = print p (b'|' ∷ print_patterns ps rest)

-- What an operator makes of one of its patterns.
abbrev pub Applied : Op → Language → Language
Applied negate L s = ¬ (L s)
Applied many L s = Star L s
Applied some_of L s = Cat L (Star L) s
Applied one_of L s = L s
Applied maybe L s = (s ≡ []) ⊎ L s

-- How the patterns of an operator are joined: all of them for `!`, one of them for the others.
abbrev pub Joined : Op → Type 0 → Type 0 → Type 0
Joined negate P Q = P × Q
Joined many P Q = P ⊎ Q
Joined some_of P Q = P ⊎ Q
Joined one_of P Q = P ⊎ Q
Joined maybe P Q = P ⊎ Q

-- The texts that a pattern stands for.
unfoldable mutual
  pub PieceLang : Piece → Language
  PieceLang (literal c) s = CharLang c s
  PieceLang (class cset) s = (x : ℕ) × (s ≡ x ∷ []) × (accepts cset x ≡ true)
  PieceLang anything s = Unit
  PieceLang (group op ps) s = PatternsLang op ps s

  pub PatternLang : Pattern → Language
  PatternLang (one x) s = PieceLang x s
  PatternLang (cat x p) s = Cat (PieceLang x) (PatternLang p) s

  pub PatternsLang : Op → Patterns → Language
  PatternsLang op (only p) s = Applied op (PatternLang p) s
  PatternsLang op (either p ps) s = Joined op (Applied op (PatternLang p) s) (PatternsLang op ps s)

-- The compilation stays within its two arrays, with `b` fragments below and `d` open parentheses.
-- A class holds no closing bracket.
unfoldable mutual
  pub FitsPiece : ℕ → ℕ → Piece → Type 0
  FitsPiece b d (literal c) = b + 2 ≤ array_size
  FitsPiece b d (class cset) = (b + 2 ≤ array_size) × All (λ c. (c == b']') ≡ false) cset
  FitsPiece b d anything = b + 2 ≤ array_size
  FitsPiece b d (group op ps) =
      (b + 2 ≤ array_size) × (d < array_size) × FitsPatterns (b + 1) (d + 1) ps

  pub Fits : ℕ → ℕ → Pattern → Type 0
  Fits b d (one x) = FitsPiece b d x
  Fits b d (cat x p) = FitsPiece b d x × Fits b d p

  pub FitsPatterns : ℕ → ℕ → Patterns → Type 0
  FitsPatterns b d (only p) = Fits b d p
  FitsPatterns b d (either p ps) = Fits b d p × FitsPatterns (b + 1) d ps
