-- ===== src/Pattern/Runs.antt =====
-- src/string/extglobmatch.c, compile: runs of the loop over the text.
use criterion.Common.{ℕ, zero, suc, ◌+◌, ◌≤◌, ◌≡◌, refl, ap, ◌∙◌, arith}
use criterion.Common.{Bool-cases, inl, inr, false, some}
use criterion.Common.{List, [], ◌∷◌, ◌++◌, Bytes, length, length-append, All, ◌==◌}
use criterion.Glob.{Glob, glob_char, glob_cset}
use criterion.Pattern.{ok, Frags, Paren, State, Op, array_size}
use criterion.Pattern.{handle_operator, step, finish, compile_loop}
use criterion.Pattern.Syntax.{literal, class}
use criterion.Pattern.Syntax.{is_special, print_piece}
use criterion.Pattern.Pending.{Pending, nothing, stack, merge, add, whole, pending, saved}
use criterion.Pattern.Pending.{step-plain, step-escaped, step-class, step-bar}
use criterion.Pattern.Closing.{joined, step-close_saved}

-- The loop comes from a text and a state to the rest of the text and the state `end`.
pub data Runs (rest : Bytes) (end : State) : Bytes → State → Type 0 where
  here : Runs rest end rest end
  next :
      {p : ℕ} {pat pat' : Bytes} {st st' : State}
      → length pat' ≤ length pat
      → step p pat st ≡ ok (pat', st')
      → Runs rest end pat' st'
      → Runs rest end (p ∷ pat) st

pub Runs-trans :
    {rest mid : Bytes} {end between : State} {pat : Bytes} {st : State}
    → Runs mid between pat st
    → Runs rest end mid between
    → Runs rest end pat st
Runs-trans here s = s
Runs-trans (next h e r) s = next h e (Runs-trans r s)

pub compile_loop-Runs :
    {end : State} (fuel : ℕ) {pat : Bytes} {st : State}
    → length pat ≤ fuel
    → Runs [] end pat st
    → compile_loop fuel pat st ≡ finish end
unfolding compile_loop
compile_loop-Runs fuel h here = refl
compile_loop-Runs zero h (next k e r) = absurd (omega arith)
compile_loop-Runs (suc fuel) h (next k e r) = rw e (compile_loop-Runs fuel (omega arith) r)

pub literal-Runs :
    (c : ℕ) (pend : Pending) (base : Frags) (parens : List Paren) (alter : ℕ) (rest : Bytes)
    → length base + 2 ≤ array_size
    → Runs rest
        (pending (add pend (glob_char c)) base parens alter)
        (print_piece (literal c) rest)
        (pending pend base parens alter)
unfolding print_piece
literal-Runs c pend base parens alter rest room = elim (Bool-cases (is_special c)) [
  | inl e ↦ rw e (next (omega arith) (step-escaped pend base parens alter room c rest) here)
  | inr e ↦ rw e (next (omega arith) (step-plain pend base parens alter room c rest e) here)
]

pub bar-Runs :
    (pend : Pending) (pa : Paren) (g : Glob) (base : Frags) (parens : List Paren) (alter : ℕ)
    (rest : Bytes)
    → length base + 2 ≤ array_size
    → whole pend ≡ some g
    → Runs rest
        (pending nothing (handle_operator pa.op g ∷ base) (pa ∷ parens) (suc alter))
        (b'|' ∷ rest)
        (pending pend base (pa ∷ parens) alter)
bar-Runs pend pa g base parens alter rest room w =
    next (omega arith)
      (step-bar pend base parens alter room pa g rest w
        ∙ ap (λ n. ok (rest, pending nothing (handle_operator pa.op g ∷ base) (pa ∷ parens) n))
            (omega arith))
      here

pub close-Runs :
    (pend outer : Pending) (op : Op) (alter : ℕ) (g : Glob) (before base : Frags)
    (parens : List Paren) (rest : Bytes)
    → length (before ++ stack (merge outer) base) + 1 ≤ array_size
    → whole pend ≡ some g
    → Runs rest
        (pending (add outer (joined op before (handle_operator op g))) base parens alter)
        (b')' ∷ rest)
        (pending pend
          (before ++ stack (merge outer) base)
          (saved outer op alter ∷ parens)
          (length before))
close-Runs pend outer op alter g before base parens rest room w =
    next (omega arith) (step-close_saved pend outer op alter g before base parens rest w room) here

pub class-Runs :
    (cset : Bytes) (pend : Pending) (base : Frags) (parens : List Paren) (alter : ℕ) (rest : Bytes)
    → length base + 2 ≤ array_size
    → All (λ c. (c == b']') ≡ false) cset
    → Runs rest
        (pending (add pend (glob_cset cset)) base parens alter)
        (print_piece (class cset) rest)
        (pending pend base parens alter)
unfolding print_piece
class-Runs cset pend base parens alter rest room plain =
    next (omega (arith, length-append {0} cset (b']' ∷ rest)))
      (step-class pend base parens alter room cset rest plain) here
