-- ===== src/Pattern/Stack.antt =====
-- src/string/extglobmatch.c: the stack of fragments, and the macros that combine its top.
use criterion.Common.{ℕ, zero, suc, ◌-◌, Option, none, some}
use criterion.Common.{List, [], ◌∷◌, length, ltb, ◌==◌, if◌then◌else◌}
use criterion.Glob.{Glob, glob_seq, glob_not, glob_star, glob_plus, glob_at, glob_opt}
use criterion.Glob.{glob_and, glob_or}

-- The messages on the standard error stream, after which compile returns NULL.
pub data Error : Type 0 where
  unexpected : ℕ → Error
  nested_too_deep : Error
  mismatched_bracket : Error
  mismatched_paren : Error

-- `out_of_fuel` belongs to the model only.
pub data Fault : Type 0 where
  overflow underflow past_end out_of_fuel : Fault

pub data Outcome {ℓ} (A : Type ℓ) : Type ℓ where
  ok : A → Outcome A
  rejected : Error → Outcome A
  fault : Fault → Outcome A

infixl 5 ◌>>=◌
abbrev pub ◌>>=◌ {ℓ κ} : {A : Type ℓ} {B : Type κ} → Outcome A → (A → Outcome B) → Outcome B
ok a >>= f = f a
rejected e >>= f = rejected e
fault e >>= f = fault e

-- The labels of the `switch` in handle_operator: `!`, `*`, `+`, `@` and `?`.
pub data Op : Type 0 where
  negate many some_of one_of maybe : Op

unfoldable pub op_of : ℕ → Option Op
op_of p =
    if p == b'!'
    then some negate
    else if p == b'?'
    then some maybe
    else if p == b'@'
    then some one_of
    else if p == b'*'
    then some many
    else if p == b'+'
    then some some_of
    else none

unfoldable pub handle_operator : Op → Glob → Glob
handle_operator negate g = glob_not g
handle_operator many g = glob_star g
handle_operator some_of g = glob_plus g
handle_operator one_of g = glob_at g
handle_operator maybe g = glob_opt g

abbrev pub Frags : Type 0
Frags = List Glob

pub record Paren : Type 0 where
  pub alter : ℕ
  pub atoms : ℕ
  pub op : Op

pub record State : Type 0 where
  pub frags : Frags
  pub parens : List Paren
  pub alter : ℕ
  pub atoms : ℕ

-- ARRAY_SIZE.
abbrev pub array_size : ℕ
array_size = 100

unfoldable pub push_frag : Glob → Frags → Outcome Frags
push_frag f frags = if ltb (length frags) array_size then ok (f ∷ frags) else fault overflow

unfoldable pub pop_frag : Frags → Outcome (Glob × Frags)
pop_frag [] = fault underflow
pop_frag (f ∷ frags) = ok (f, frags)

-- The two fragments on top become their sequence.
cat_top : Frags → Outcome Frags
unfolding push_frag pop_frag
cat_top frags = do
  (b, frags) ← pop_frag frags
  (a, frags) ← pop_frag frags
  push_frag (glob_seq a b) frags

unfoldable pub cat_one : ℕ → Frags → Outcome Frags
unfolding cat_top
cat_one atoms frags = if ltb 1 atoms then cat_top frags else ok frags

-- `atoms` after cat_one.
abbrev pub atoms_after_cat : ℕ → ℕ
atoms_after_cat atoms = if ltb 1 atoms then atoms - 1 else atoms

-- `while (--atoms > 0)`.
unfoldable pub cat_all : ℕ → Frags → Outcome Frags
unfolding cat_top
cat_all zero frags = ok frags
cat_all (suc zero) frags = ok frags
cat_all (suc (suc atoms)) frags = cat_top frags >>= cat_all (suc atoms)

-- The loop over `alter` that joins the alternatives of a parenthesis.
unfoldable pub handle_alternatives : Op → ℕ → Frags → Outcome Frags
unfolding push_frag pop_frag
handle_alternatives op zero frags = ok frags
handle_alternatives op (suc alter) frags = do
  (b, frags) ← pop_frag frags
  (a, frags) ← pop_frag frags
  frags ← push_frag (elim op [ negate ↦ glob_and a b | _ ↦ glob_or a b ]) frags
  handle_alternatives op alter frags

-- `frags[0]`, which is null while nothing has been pushed.
unfoldable pub frags_bottom : Frags → Option Glob
frags_bottom [] = none
frags_bottom (f ∷ []) = some f
frags_bottom (f ∷ g ∷ frags) = frags_bottom (g ∷ frags)
