-- ===== src/Pattern/Closing.antt =====
-- src/string/extglobmatch.c, compile: what a closing parenthesis makes of the alternatives.
use criterion.Common.{ℕ, ◌+◌, ◌≤◌, ◌≡◌, refl, arith, some}
use criterion.Common.{List, [], ◌∷◌, ◌++◌, Bytes, length}
use criterion.Glob.{Glob, glob_and, glob_or, glob_seq}
use criterion.Pattern.{ok, Frags, Paren, Op, array_size}
use criterion.Pattern.{negate, many, some_of, one_of, maybe}
use criterion.Pattern.{handle_operator, handle_alternatives, close_with, step}
use criterion.Pattern.Pending.{
  Pending, nothing, single, pair, stack, merge, add, whole, pending, saved,
}

-- How handle_alternatives joins two alternatives.
abbrev pub join : Op → Glob → Glob → Glob
join negate a b = glob_and a b
join many a b = glob_or a b
join some_of a b = glob_or a b
join one_of a b = glob_or a b
join maybe a b = glob_or a b

-- An alternative joined with those before it, the last of them first.
abbrev pub joined : Op → Frags → Glob → Glob
joined op [] g = g
joined op (a ∷ before) g = joined op before (join op a g)

handle_alternatives-joined :
    (op : Op) (before base : Frags) (g : Glob)
    → length (before ++ base) ≤ array_size
    → handle_alternatives op (length before) (g ∷ (before ++ base)) ≡ ok (joined op before g ∷ base)
unfolding handle_alternatives
handle_alternatives-joined op [] base g h = refl
handle_alternatives-joined negate (a ∷ before) base g h =
    ground (arith, handle_alternatives-joined negate before base (glob_and a g))
handle_alternatives-joined many (a ∷ before) base g h =
    ground (arith, handle_alternatives-joined many before base (glob_or a g))
handle_alternatives-joined some_of (a ∷ before) base g h =
    ground (arith, handle_alternatives-joined some_of before base (glob_or a g))
handle_alternatives-joined one_of (a ∷ before) base g h =
    ground (arith, handle_alternatives-joined one_of before base (glob_or a g))
handle_alternatives-joined maybe (a ∷ before) base g h =
    ground (arith, handle_alternatives-joined maybe before base (glob_or a g))

step-close :
    (pend : Pending) (pa : Paren) (g : Glob) (before base : Frags) (parens : List Paren)
    (rest : Bytes)
    → whole pend ≡ some g
    → length (before ++ base) + 1 ≤ array_size
    → step b')' rest (pending pend (before ++ base) (pa ∷ parens) (length before))
      ≡ ok (
        rest,
        record {
          frags = joined pa.op before (handle_operator pa.op g) ∷ base;
          parens = parens;
          alter = pa.alter;
          atoms = pa.atoms + 1;
        },
      )
unfolding step close_with
step-close nothing pa g before base parens rest w h = cc
step-close (single a) pa g before base parens rest w h =
    ground (arith, handle_alternatives-joined pa.op before base (handle_operator pa.op a))
step-close (pair a b) pa g before base parens rest w h =
    ground
      (arith, handle_alternatives-joined pa.op before base (handle_operator pa.op (glob_seq a b)))

-- A closing parenthesis joins the alternatives; the result is the next of the sequence outside.
pub step-close_saved :
    (pend outer : Pending) (op : Op) (alter : ℕ) (g : Glob) (before base : Frags)
    (parens : List Paren) (rest : Bytes)
    → whole pend ≡ some g
    → length (before ++ stack (merge outer) base) + 1 ≤ array_size
    → step b')' rest (
        pending pend
          (before ++ stack (merge outer) base)
          (saved outer op alter ∷ parens)
          (length before))
      ≡ ok (rest, pending (add outer (joined op before (handle_operator op g))) base parens alter)
step-close_saved pend nothing op alter g before base parens rest w h =
    step-close pend _ g before base parens rest w h
step-close_saved pend (single a) op alter g before base parens rest w h =
    step-close pend _ g before (a ∷ base) parens rest w h
step-close_saved pend (pair a b) op alter g before base parens rest w h =
    step-close pend _ g before (glob_seq a b ∷ base) parens rest w h
