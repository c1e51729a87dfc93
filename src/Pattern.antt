-- ===== src/Pattern.antt =====
-- src/string/extglobmatch.c: the compiler from pattern text to a glob, and its entry points.
-- The fragment stack `frags[ARRAY_SIZE]` is a list, its top first; the stack of open parentheses
-- likewise. What C leaves undefined is a `fault`: a write past the array, a pop below its
-- bottom, a read past the end of the text. The loop runs on fuel, the length
-- of the text, which `Pattern.Safety` shows to be enough.
mod Stack
pub mod Balance
pub mod Steps
pub mod Switch
pub mod Safety
pub mod Syntax
pub mod Pending
pub mod Closing
pub mod Runs
pub mod Printing
pub mod Meaning
pub mod Documented
pub use Stack.{Outcome, ok, rejected, fault, Error, Fault, Frags, Paren, State, Op}
pub use Stack.{unexpected, nested_too_deep, mismatched_bracket, mismatched_paren}
pub use Stack.{overflow, underflow, past_end, out_of_fuel}
pub use Stack.{negate, many, some_of, one_of, maybe}
unfoldable pub use Stack.{array_size, ◌>>=◌, push_frag, pop_frag, cat_one, cat_all, atoms_after_cat}
unfoldable pub use Stack.{op_of, handle_operator, handle_alternatives, frags_bottom}
use criterion.Common.{ℕ, zero, suc, ◌+◌, ◌≡◌, Bool, true, false, ◌&&◌, ◌||◌, Option, none, some}
use criterion.Common.{List, [], ◌∷◌, Bytes, length, leb, ◌==◌, if◌then◌else◌}
use criterion.Glob.{Glob, glob_char, glob_cset, matches}

-- `strchr(pat, ']')`: the text before the bracket, and the text behind it.
unfoldable pub split_bracket : Bytes → Option (Bytes × Bytes)
split_bracket [] = none
split_bracket (c ∷ pat) =
    if c == b']'
    then some ([], pat)
    else elim (split_bracket pat) [ none ↦ none | some (before, after) ↦ some (c ∷ before, after) ]

-- The label `character:` and what follows it.
unfoldable pub literal : ℕ → Bytes → State → Outcome (Bytes × State)
unfolding cat_one push_frag
literal p pat st = do
  frags ← cat_one st.atoms st.frags
  frags ← push_frag (glob_char p) frags
  ok (pat, record st { frags = frags; atoms = atoms_after_cat st.atoms + 1 })

-- An operator character that a parenthesis follows; `pat` begins behind the parenthesis.
unfoldable pub open_paren : Op → Bytes → State → Outcome (Bytes × State)
unfolding cat_one
open_paren op pat st = if leb array_size (length st.parens) then rejected nested_too_deep else do
  frags ← cat_one st.atoms st.frags
  let paren : Paren = record { alter = st.alter; atoms = atoms_after_cat st.atoms; op = op }
  ok (pat, record { frags = frags; parens = paren ∷ st.parens; alter = 0; atoms = 0 })

-- `case ')'`, for the parenthesis that it closes and those that stay open.
unfoldable pub close_with : Paren → List Paren → Bytes → State → Outcome (Bytes × State)
unfolding cat_all pop_frag push_frag handle_operator handle_alternatives
close_with pa parens pat st = do
  frags ← cat_all st.atoms st.frags
  (a, frags) ← pop_frag frags
  frags ← push_frag (handle_operator pa.op a) frags
  frags ← handle_alternatives pa.op st.alter frags
  ok (pat, record { frags = frags; parens = parens; alter = pa.alter; atoms = pa.atoms + 1 })

unfoldable pub close_paren : Bytes → State → Outcome (Bytes × State)
unfolding close_with
close_paren pat st = elim st.parens [
  | [] ↦ rejected (unexpected b')')
  | pa ∷ parens ↦ if st.atoms == 0 then rejected (unexpected b')') else close_with pa parens pat st
]

-- `case '['`, given what `strchr` finds.
unfoldable pub bracket_at : Option (Bytes × Bytes) → State → Outcome (Bytes × State)
unfolding cat_one push_frag
bracket_at none st = do frags ← cat_one st.atoms st.frags; rejected mismatched_bracket
bracket_at (some (cset, rest)) st = do
  frags ← cat_one st.atoms st.frags
  frags ← push_frag (glob_cset cset) frags
  ok (rest, record st { frags = frags; atoms = atoms_after_cat st.atoms + 1 })

unfoldable pub bracket : Bytes → State → Outcome (Bytes × State)
unfolding bracket_at split_bracket
bracket pat st = bracket_at (split_bracket pat) st

-- `case '|'`, for the operator of the innermost open parenthesis. `cat_all` leaves `atoms` at 0.
unfoldable pub alternative_of : Op → Bytes → State → Outcome (Bytes × State)
unfolding cat_all pop_frag push_frag handle_operator
alternative_of op pat st = do
  frags ← cat_all st.atoms st.frags
  (a, frags) ← pop_frag frags
  frags ← push_frag (handle_operator op a) frags
  ok (pat, record st { frags = frags; alter = st.alter + 1; atoms = 0 })

unfoldable pub alternative : Bytes → State → Outcome (Bytes × State)
unfolding alternative_of
alternative pat st = elim st.parens [
  | [] ↦ rejected (unexpected b'|')
  | pa ∷ parens ↦ if st.atoms == 0 then rejected (unexpected b'|') else alternative_of pa.op pat st
]

-- An operator character is one only before a parenthesis.
unfoldable pub operator : ℕ → Op → Bytes → State → Outcome (Bytes × State)
unfolding literal open_paren
operator p op [] st = literal p [] st
operator p op (c ∷ pat) st = if c == b'(' then open_paren op pat st else literal p (c ∷ pat) st

-- `case '\\'`: at the end of the text the NUL is taken as the escaped byte, and the loop goes on
-- reading behind it.
unfoldable pub escape : Bytes → State → Outcome (Bytes × State)
unfolding literal
escape [] st = fault past_end
escape (p ∷ pat) st = literal p pat st

-- The other cases of the `switch`; 92 is the backslash.
unfoldable pub plain : ℕ → Bytes → State → Outcome (Bytes × State)
unfolding close_paren bracket alternative escape literal
plain p pat st =
    if p == b'('
    then rejected (unexpected p)
    else if p == b')'
    then close_paren pat st
    else if p == b'['
    then bracket pat st
    else if p == b'|'
    then alternative pat st
    else if p == 92
    then escape pat st
    else literal p pat st

unfoldable pub dispatch : Option Op → ℕ → Bytes → State → Outcome (Bytes × State)
unfolding operator plain
dispatch (some op) p pat st = operator p op pat st
dispatch none p pat st = plain p pat st

-- The `switch` on the byte `p`, with the text behind it.
unfoldable pub step : ℕ → Bytes → State → Outcome (Bytes × State)
unfolding op_of dispatch
step p pat st = dispatch (op_of p) p pat st

-- What follows the loop: the check of the parentheses, `cat_all` and `frags[0]`.
unfoldable pub finish : State → Outcome (Option Glob)
unfolding cat_all frags_bottom
finish st = elim st.parens [
  | [] ↦ do frags ← cat_all st.atoms st.frags; ok (frags_bottom frags)
  | pa ∷ parens ↦ rejected mismatched_paren
]

unfoldable pub compile_loop : ℕ → Bytes → State → Outcome (Option Glob)
compile_loop fuel [] st = finish st
compile_loop zero (p ∷ pat) st = fault out_of_fuel
compile_loop (suc fuel) (p ∷ pat) st = do (rest, st') ← step p pat st; compile_loop fuel rest st'

abbrev pub initial : State
initial = record { frags = []; parens = []; alter = 0; atoms = 0 }

-- `none` is the null pointer.
unfoldable pub compile : Bytes → Outcome (Option Glob)
unfolding compile_loop step finish
compile pat = compile_loop (length pat) pat initial

-- compile_pattern: the stored glob, if there is one.
unfoldable pub compile_pattern : Bytes → Outcome (Option Glob)
unfolding compile
compile_pattern pattern = elim (compile pattern) [
  | ok g ↦ ok g
  | rejected e ↦ ok none
  | fault e ↦ fault e
]
