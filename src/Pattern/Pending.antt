-- ===== src/Pattern/Pending.antt =====
-- src/string/extglobmatch.c, compile: the stack while a sequence is read, which holds at most two
-- fragments of it, and the steps of the `switch` on such a stack.
use criterion.Common.{ℕ, ◌+◌, ◌≤◌, ◌<◌, ◌≡◌, refl, arith, false, Option, none, some}
use criterion.Common.{List, [], ◌∷◌, ◌++◌, Bytes, length, All, ◌==◌}
use criterion.Glob.{Glob, glob_seq, glob_char, glob_cset}
use criterion.Pattern.{ok, Frags, Paren, State, Op, array_size}
use criterion.Pattern.{negate, many, some_of, one_of, maybe}
use criterion.Pattern.{handle_operator}
use criterion.Pattern.{
  literal, bracket, bracket_at, split_bracket, open_paren, alternative_of, step,
}
use criterion.Pattern.Syntax.{is_special, op_char}

-- The fragments of a sequence that are on the stack, in the order of the text.
pub data Pending : Type 0 where
  nothing : Pending
  single : Glob → Pending
  pair : Glob → Glob → Pending

abbrev pub stack : Pending → Frags → Frags
stack nothing base = base
stack (single a) base = a ∷ base
stack (pair a b) base = b ∷ a ∷ base

abbrev pub count : Pending → ℕ
count nothing = 0
count (single a) = 1
count (pair a b) = 2

abbrev pub merge : Pending → Pending
merge nothing = nothing
merge (single a) = single a
merge (pair a b) = single (glob_seq a b)

abbrev pub add : Pending → Glob → Pending
add nothing g = single g
add (single a) g = pair a g
add (pair a b) g = pair (glob_seq a b) g

abbrev pub whole : Pending → Option Glob
whole nothing = none
whole (single a) = some a
whole (pair a b) = some (glob_seq a b)

abbrev pub pending : Pending → Frags → List Paren → ℕ → State
pending pend base parens alter = record {
  frags = stack pend base;
  parens = parens;
  alter = alter;
  atoms = count pend;
}

-- What is saved of the counters when a parenthesis is opened.
abbrev pub saved : Pending → Op → ℕ → Paren
saved pend op alter = record { alter = alter; atoms = count (merge pend); op = op }

split_bracket-class :
    (cset rest : Bytes)
    → All (λ c. (c == b']') ≡ false) cset
    → split_bracket (cset ++ b']' ∷ rest) ≡ some (cset, rest)
unfolding split_bracket
split_bracket-class [] rest h = refl
split_bracket-class (c ∷ cset) rest h = rw (h.0, split_bracket-class cset rest h.1) refl

-- The text does not go on with an opening parenthesis.
abbrev pub NotParen : Bytes → Type 0
NotParen [] = Unit
NotParen (c ∷ rest) = (c == b'(') ≡ false

module _ (pend : Pending) (base : Frags) (parens : List Paren) (alter : ℕ)
    (room : length base + 2 ≤ array_size) where
  literal-pending :
      (c : ℕ) (rest : Bytes)
      → literal c rest (pending pend base parens alter)
        ≡ ok (rest, pending (add pend (glob_char c)) base parens alter)
  unfolding literal
  literal-pending c rest = literal_at pend
    where
      literal_at :
          (q : Pending)
          → literal c rest (pending q base parens alter)
            ≡ ok (rest, pending (add q (glob_char c)) base parens alter)
      literal_at nothing = ground arith
      literal_at (single a) = ground arith
      literal_at (pair a b) = ground arith

  -- A byte that is not special, and one that is escaped.
  pub step-plain :
      (c : ℕ) (rest : Bytes)
      → is_special c ≡ false
      → step c rest (pending pend base parens alter)
        ≡ ok (rest, pending (add pend (glob_char c)) base parens alter)
  unfolding step is_special
  step-plain c rest h = ground (arith, literal-pending c rest)

  pub step-escaped :
      (c : ℕ) (rest : Bytes)
      → step 92 (c ∷ rest) (pending pend base parens alter)
        ≡ ok (rest, pending (add pend (glob_char c)) base parens alter)
  unfolding step
  step-escaped c rest = literal-pending c rest

  -- A bare asterisk, with no parenthesis behind it.
  pub step-anything :
      (rest : Bytes)
      → NotParen rest
      → step b'*' rest (pending pend base parens alter)
        ≡ ok (rest, pending (add pend (glob_char b'*')) base parens alter)
  unfolding step
  step-anything [] h = literal-pending b'*' []
  step-anything (c ∷ rest) h = rw h (literal-pending b'*' (c ∷ rest))

  -- A class, up to the first closing bracket.
  pub step-class :
      (cset rest : Bytes)
      → All (λ c. (c == b']') ≡ false) cset
      → step b'[' (cset ++ b']' ∷ rest) (pending pend base parens alter)
        ≡ ok (rest, pending (add pend (glob_cset cset)) base parens alter)
  unfolding step bracket
  step-class cset rest h = rw (split_bracket-class cset rest h) (class_at pend)
    where
      class_at :
          (q : Pending)
          → bracket_at (some (cset, rest)) (pending q base parens alter)
            ≡ ok (rest, pending (add q (glob_cset cset)) base parens alter)
      class_at nothing = ground arith
      class_at (single a) = ground arith
      class_at (pair a b) = ground arith

  -- An operator with its parenthesis saves the counters of the sequence before it.
  pub step-open :
      (op : Op) (rest : Bytes)
      → length parens < array_size
      → step (op_char op) (b'(' ∷ rest) (pending pend base parens alter)
        ≡ ok (rest, pending nothing (stack (merge pend) base) (saved pend op alter ∷ parens) 0)
  unfolding step open_paren
  step-open op rest h = open_op op
    where
      open_at :
          (op : Op) (q : Pending)
          → open_paren op rest (pending q base parens alter)
            ≡ ok (rest, pending nothing (stack (merge q) base) (saved q op alter ∷ parens) 0)
      open_at op nothing = ground arith
      open_at op (single a) = ground arith
      open_at op (pair a b) = ground arith

      open_op :
          (op : Op)
          → step (op_char op) (b'(' ∷ rest) (pending pend base parens alter)
            ≡ ok (rest, pending nothing (stack (merge pend) base) (saved pend op alter ∷ parens) 0)
      open_op negate = open_at negate pend
      open_op many = open_at many pend
      open_op some_of = open_at some_of pend
      open_op one_of = open_at one_of pend
      open_op maybe = open_at maybe pend

  -- A bar turns the sequence before it into an alternative.
  pub step-bar :
      (pa : Paren) (g : Glob) (rest : Bytes)
      → whole pend ≡ some g
      → step b'|' rest (pending pend base (pa ∷ parens) alter)
        ≡ ok (rest, pending nothing (handle_operator pa.op g ∷ base) (pa ∷ parens) (alter + 1))
  unfolding step alternative_of
  step-bar pa g rest h = bar_at pend h
    where
      bar_at :
          (q : Pending)
          → whole q ≡ some g
          → step b'|' rest (pending q base (pa ∷ parens) alter)
            ≡ ok (rest, pending nothing (handle_operator pa.op g ∷ base) (pa ∷ parens) (alter + 1))
      bar_at nothing e = cc
      bar_at (single a) e = ground arith
      bar_at (pair a b) e = ground arith
