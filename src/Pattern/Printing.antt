-- ===== src/Pattern/Printing.antt =====
-- src/string/extglobmatch.c, compile: what a written pattern is compiled to.
use criterion.Common.{ℕ, suc, ◌+◌, ◌≤◌, ◌≡◌, refl, ap, ◌∙◌, arith}
use criterion.Common.{Option, none, some}
use criterion.Common.{List, [], ◌∷◌, ◌++◌, Bytes, length}
use criterion.Glob.{Glob, glob_seq, glob_char, glob_cset}
use criterion.Pattern.{ok, Frags, Paren, Op, array_size}
use criterion.Pattern.{handle_operator, finish}
use criterion.Pattern.{compile}
use criterion.Pattern.Syntax.{
  Piece, literal, class, anything, group, Pattern, one, cat, Patterns, only, either,
}
use criterion.Pattern.Syntax.{print_piece, print, print_patterns, FitsPiece, Fits, FitsPatterns}
use criterion.Pattern.Pending.{
  Pending, nothing, single, pair, stack, merge, add, whole, pending, saved,
}
use criterion.Pattern.Pending.{step-open, step-anything, NotParen}
use criterion.Pattern.Syntax.{is_special}
use criterion.Pattern.{negate, many, some_of, one_of, maybe}
use criterion.Common.{Bool-cases, inl, inr}
use criterion.Pattern.Runs.{
  Runs, next, here, Runs-trans, compile_loop-Runs, literal-Runs, bar-Runs, close-Runs, class-Runs,
}
use criterion.Pattern.Closing.{join, joined}

-- The glob of a sequence, on top of the glob of what stands before it.
abbrev behind : Option Glob → Glob → Glob
behind none g = g
behind (some a) g = glob_seq a g

unfoldable mutual
  unfolding glob_char glob_cset handle_operator glob_seq

  pub glob_piece : Piece → Glob
  glob_piece (literal c) = glob_char c
  glob_piece (class cset) = glob_cset cset
  glob_piece anything = glob_char b'*'
  glob_piece (group op ps) = glob_patterns op ps

  pub glob_behind : Option Glob → Pattern → Glob
  glob_behind before (one x) = behind before (glob_piece x)
  glob_behind before (cat x p) = glob_behind (some (behind before (glob_piece x))) p

  pub glob_patterns : Op → Patterns → Glob
  glob_patterns op (only p) = handle_operator op (glob_behind none p)
  glob_patterns op (either p ps) =
      join op (handle_operator op (glob_behind none p)) (glob_patterns op ps)

abbrev add_pattern : Pending → Pattern → Pending
add_pattern pend (one x) = add pend (glob_piece x)
add_pattern pend (cat x p) = add_pattern (add pend (glob_piece x)) p

whole-add : (pend : Pending) (g : Glob) → whole (add pend g) ≡ some (behind (whole pend) g)
whole-add nothing g = refl
whole-add (single a) g = refl
whole-add (pair a b) g = refl

whole-add_pattern :
    (pend : Pending) (p : Pattern) → whole (add_pattern pend p) ≡ some (glob_behind (whole pend) p)
unfolding glob_behind
whole-add_pattern pend (one x) = whole-add pend (glob_piece x)
whole-add_pattern pend (cat x p) =
    whole-add_pattern (add pend (glob_piece x)) p
    ∙ ap (λ before. some (glob_behind before p)) (whole-add pend (glob_piece x))

room_of : (b d : ℕ) (p : Pattern) → Fits b d p → b + 2 ≤ array_size
unfolding Fits FitsPiece
room_of b d (one (literal c)) h = h
room_of b d (one (class cset)) h = h.0
room_of b d (one anything) h = h
room_of b d (one (group op ps)) h = h.0
room_of b d (cat (literal c) p) h = h.0
room_of b d (cat (class cset) p) h = h.0.0
room_of b d (cat anything p) h = h.0
room_of b d (cat (group op ps) p) h = h.0.0

length-merge : (pend : Pending) (base : Frags) → length (stack (merge pend) base) ≤ length base + 1
length-merge nothing base = omega arith
length-merge (single a) base = omega arith
length-merge (pair a b) base = omega arith

print_piece-NotParen : (x : Piece) (rest : Bytes) → NotParen (print_piece x rest)
unfolding print_piece is_special
print_piece-NotParen (literal c) rest = elim (Bool-cases (is_special c)) [
  | inl e ↦ rw e refl
  | inr e ↦ rw e (ground arith)
]
print_piece-NotParen (class cset) rest = refl
print_piece-NotParen anything rest = refl
print_piece-NotParen (group negate ps) rest = refl
print_piece-NotParen (group many ps) rest = refl
print_piece-NotParen (group some_of ps) rest = refl
print_piece-NotParen (group one_of ps) rest = refl
print_piece-NotParen (group maybe ps) rest = refl

print-NotParen : (p : Pattern) (rest : Bytes) → NotParen (print p rest)
unfolding print_piece
print-NotParen (one x) rest = print_piece-NotParen x rest
print-NotParen (cat x p) rest = print_piece-NotParen x (print p rest)

mutual
  unfolding print_piece Fits FitsPiece FitsPatterns glob_piece

  piece-Runs :
      (x : Piece) (b d : ℕ) (pend : Pending) (base : Frags) (parens : List Paren) (alter : ℕ)
      (rest : Bytes)
      → NotParen rest
      → FitsPiece b d x
      → length base ≤ b
      → length parens ≤ d
      → Runs rest
          (pending (add pend (glob_piece x)) base parens alter)
          (print_piece x rest)
          (pending pend base parens alter)
  piece-Runs (literal c) b d pend base parens alter rest free fits hb hd =
      literal-Runs c pend base parens alter rest (omega arith)
  piece-Runs (class cset) b d pend base parens alter rest free fits hb hd =
      class-Runs cset pend base parens alter rest (omega arith) fits.1
  piece-Runs anything b d pend base parens alter rest free fits hb hd =
      next (omega arith) (step-anything pend base parens alter (omega arith) rest free) here
  piece-Runs (group op ps) b d pend base parens alter rest free fits hb hd =
      next (omega arith)
        (step-open pend base parens alter (omega arith) op (print_patterns ps rest) (omega arith))
        (patterns-Runs ps op (b + 1) (d + 1) pend [] base parens alter rest fits.2
          (omega (arith, length-merge pend base)) (omega arith))

  pattern-Runs :
      (p : Pattern) (b d : ℕ) (pend : Pending) (base : Frags) (parens : List Paren) (alter : ℕ)
      (rest : Bytes)
      → NotParen rest
      → Fits b d p
      → length base ≤ b
      → length parens ≤ d
      → Runs rest
          (pending (add_pattern pend p) base parens alter)
          (print p rest)
          (pending pend base parens alter)
  pattern-Runs (one x) b d pend base parens alter rest free fits hb hd =
      piece-Runs x b d pend base parens alter rest free fits hb hd
  pattern-Runs (cat x p) b d pend base parens alter rest free fits hb hd =
      Runs-trans
        (piece-Runs x b d pend base parens alter (print p rest) (print-NotParen p rest) fits.0 hb
          hd)
        (pattern-Runs p b d (add pend (glob_piece x)) base parens alter rest free fits.1 hb hd)

  patterns-Runs :
      (ps : Patterns) (op : Op) (b d : ℕ) (outer : Pending) (before base : Frags)
      (parens : List Paren) (alter : ℕ) (rest : Bytes)
      → FitsPatterns b d ps
      → length (before ++ stack (merge outer) base) ≤ b
      → suc (length parens) ≤ d
      → Runs rest
          (pending (add outer (joined op before (glob_patterns op ps))) base parens alter)
          (print_patterns ps rest)
          (pending nothing
            (before ++ stack (merge outer) base)
            (saved outer op alter ∷ parens)
            (length before))
  patterns-Runs (only p) op b d outer before base parens alter rest fits hb hd =
      Runs-trans (pattern-Runs p b d nothing _ _ (length before) (b')' ∷ rest) refl fits hb hd) (
        close-Runs (add_pattern nothing p) outer op alter _ before base parens rest
          (omega (arith, room_of b d p fits)) (whole-add_pattern nothing p))
  patterns-Runs (either p ps) op b d outer before base parens alter rest fits hb hd =
      let own = handle_operator op (glob_behind none p) in
      Runs-trans
        (pattern-Runs p b d nothing _ _ (length before) (b'|' ∷ print_patterns ps rest) refl fits.0
          hb hd)
        (Runs-trans
          (bar-Runs (add_pattern nothing p) _ _ _ parens (length before) (print_patterns ps rest)
            (omega (arith, room_of b d p fits.0)) (whole-add_pattern nothing p))
          (patterns-Runs ps op (b + 1) d outer (own ∷ before) base parens alter rest fits.1
            (omega arith) hd))

-- The glob of a whole pattern.
unfoldable pub glob_of : Pattern → Glob
unfolding glob_piece
glob_of p = glob_behind none p

finish-whole :
    (pend : Pending) (g : Glob) → whole pend ≡ some g → finish (pending pend [] [] 0) ≡ ok (some g)
unfolding finish
finish-whole nothing g w = cc
finish-whole (single a) g w = ground arith
finish-whole (pair a b) g w = ground arith

-- A written pattern that fits into the arrays is compiled, to its glob.
pub compile-print : (p : Pattern) → Fits 0 0 p → compile (print p []) ≡ ok (some (glob_of p))
unfolding compile glob_of
compile-print p fits =
    compile_loop-Runs (length (print p [])) (omega arith)
      (pattern-Runs p 0 0 nothing [] [] 0 [] tt fits (omega arith) (omega arith))
    ∙ finish-whole (add_pattern nothing p) (glob_behind none p) (whole-add_pattern nothing p)
