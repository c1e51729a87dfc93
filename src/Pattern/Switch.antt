-- ===== src/Pattern/Switch.antt =====
-- src/string/extglobmatch.c: the cases of a class and of an escape, and the whole `switch`.
use criterion.Common.{ℕ, suc, ◌≤◌, ◌≡◌, refl, subst, ◌⊎◌, inl, inr, arith}
use criterion.Common.{Option, none, some, [], ◌∷◌, Bytes, length, Bool-cases, ◌==◌}
use criterion.Common.{if_cases, ==_iff}
use criterion.Glob.{glob_cset}
use criterion.Pattern.{Outcome, ok, rejected, fault, State, Op}
use criterion.Pattern.{cat_one}
use criterion.Pattern.{literal, split_bracket, bracket_at, bracket, op_of}
use criterion.Pattern.{operator, escape, plain, dispatch, step}
use criterion.Pattern.Balance.{last?, last?-tail, Allowed, Ends-bind, Balanced}
use criterion.Pattern.Balance.{cat_one-Holds}
use criterion.Pattern.Steps.{StepsFrom, pushed, literal-Steps, open_paren-Steps, close_paren-Steps}
use criterion.Pattern.Steps.{alternative-Steps}

-- What `strchr` finds lies within the text, and keeps its last byte unless nothing is left.
After : Bytes → Option (Bytes × Bytes) → Type 0
After pat none = Unit
After pat (some (before, rest)) =
    (length rest ≤ length pat) × ((rest ≡ []) ⊎ (last? rest ≡ last? pat))

last?-ne-none : (c : ℕ) (s : Bytes) → ¬ (last? (c ∷ s) ≡ none)
last?-ne-none c [] e = cc
last?-ne-none c (d ∷ s) e = last?-ne-none d s e

pub last?-cons :
    (c : ℕ) (pat rest : Bytes)
    → (rest ≡ []) ⊎ (last? rest ≡ last? pat)
    → (rest ≡ []) ⊎ (last? rest ≡ last? (c ∷ pat))
last?-cons c [] [] h = inl refl
last?-cons c [] (d ∷ rest) (inl e) = cc
last?-cons c [] (d ∷ rest) (inr e) = absurd (last?-ne-none d rest e)
last?-cons c (d ∷ pat) rest h = h

split_bracket-After : (pat : Bytes) → After pat (split_bracket pat)
unfolding split_bracket After
split_bracket-After [] = tt
split_bracket-After (c ∷ pat) =
    if_cases (After (c ∷ pat)) (c == b']') (λ _. (omega arith, last?-tail c pat))
      λ _. go (split_bracket pat) (split_bracket-After pat)
  where
    go :
        (found : Option (Bytes × Bytes))
        → After pat found
        → After
            (c ∷ pat)
            (elim found [ none ↦ none | some (before, after) ↦ some (c ∷ before, after) ])
    go none h = tt
    go (some (before, rest)) h = (omega arith, last?-cons c pat rest h.1)

module _ (n : ℕ) (end : Option ℕ) where
  bracket_at-Steps :
      (pat : Bytes) (found : Option (Bytes × Bytes)) (st : State)
      → Balanced n (suc (length pat)) st
      → After pat found
      → StepsFrom n end pat (bracket_at found st)
  unfolding bracket_at After
  bracket_at-Steps pat none st v h =
      Ends-bind (Allowed n end) _ _ (cat_one st.atoms st.frags) _
        (cat_one-Holds n end st.atoms st.frags (omega arith) (omega arith)) λ r e. tt
  bracket_at-Steps pat (some (cset, rest)) st v h =
      pushed n end pat rest (glob_cset cset) st v h.0 h.1

  bracket-Steps :
      (pat : Bytes) (st : State)
      → Balanced n (suc (length pat)) st
      → StepsFrom n end pat (bracket pat st)
  unfolding bracket
  bracket-Steps pat st v = bracket_at-Steps pat (split_bracket pat) st v (split_bracket-After pat)

  weaken :
      (c : ℕ) (pat : Bytes) (r : Outcome (Bytes × State))
      → StepsFrom n end pat r
      → StepsFrom n end (c ∷ pat) r
  weaken c pat (ok (rest, st)) h = record {
    shorter = omega arith;
    same_end = last?-cons c pat rest h.same_end;
    balanced = h.balanced;
  }
  weaken c pat (rejected e) h = tt
  weaken c pat (fault e) h = h

  operator-Steps :
      (p : ℕ) (op : Op) (pat : Bytes) (st : State)
      → Balanced n (suc (length pat)) st
      → StepsFrom n end pat (operator p op pat st)
  unfolding operator
  operator-Steps p op [] st v = literal-Steps n end p [] st v
  operator-Steps p op (c ∷ pat) st v = elim (Bool-cases (c == b'(')) [
    | inl e ↦ rw e (open_paren-Steps n end c op pat st (tail v))
    | inr e ↦ rw e (literal-Steps n end p (c ∷ pat) st v)
  ]
    where
      tail : Balanced n (suc (suc (length pat))) st → Balanced n (suc (length pat)) st
      tail v = record { counted = v.counted; top = v.top; room = omega arith }

  escape-Steps :
      (pat : Bytes) (st : State)
      → Balanced n (suc (length pat)) st
      → end ≡ last? (92 ∷ pat)
      → StepsFrom n end pat (escape pat st)
  unfolding escape
  escape-Steps [] st v e = e
  escape-Steps (p ∷ pat) st v e = weaken p pat (literal p pat st) (
      literal-Steps n end p pat st
        (record { counted = v.counted; top = v.top; room = omega arith }))

  plain-Steps :
      (p : ℕ) (pat : Bytes) (st : State)
      → Balanced n (suc (length pat)) st
      → end ≡ last? (p ∷ pat)
      → StepsFrom n end pat (plain p pat st)
  unfolding plain
  plain-Steps p pat st v e =
      if_cases (StepsFrom n end pat) (p == b'(') (λ _. tt)
        λ _.
          if_cases (StepsFrom n end pat) (p == b')') (λ _. close_paren-Steps n end pat st v)
            λ _.
              if_cases (StepsFrom n end pat) (p == b'[') (λ _. bracket-Steps pat st v)
                λ _.
                  if_cases (StepsFrom n end pat) (p == b'|') (λ _. alternative-Steps n end pat st v)
                    λ _.
                      if_cases (StepsFrom n end pat) (p == 92)
                        (λ h.
                          escape-Steps pat st v
                            (subst (λ x. end ≡ last? (x ∷ pat)) ((==_iff p 92).0 h) e))
                        λ _. literal-Steps n end p pat st v

  dispatch-Steps :
      (op : Option Op) (p : ℕ) (pat : Bytes) (st : State)
      → Balanced n (suc (length pat)) st
      → end ≡ last? (p ∷ pat)
      → StepsFrom n end pat (dispatch op p pat st)
  unfolding dispatch
  dispatch-Steps (some op) p pat st v e = operator-Steps p op pat st v
  dispatch-Steps none p pat st v e = plain-Steps p pat st v e

  -- Every case of the `switch`.
  pub step-Steps :
      (p : ℕ) (pat : Bytes) (st : State)
      → Balanced n (suc (length pat)) st
      → end ≡ last? (p ∷ pat)
      → StepsFrom n end pat (step p pat st)
  unfolding step
  step-Steps p pat st v e = dispatch-Steps (op_of p) p pat st v e
