-- ===== src/Pattern/Steps.antt =====
-- src/string/extglobmatch.c: each case of the compiler's `switch` keeps the stack balanced.
use criterion.Common.{ℕ, suc, ◌+◌, ◌≤◌, ◌<◌, ◌≡◌, refl, subst, ap, ◌⊎◌, inl, inr, arith}
use criterion.Common.{Option, List, [], ◌∷◌, Bytes, length, Bool-cases, leb, ◌==◌}
use criterion.Common.{List-cases, sym}
use criterion.Glob.{Glob, glob_char}
use criterion.Pattern.{Outcome, ok, ◌>>=◌, Paren, State, Op}
use criterion.Pattern.{array_size, atoms_after_cat}
use criterion.Pattern.{push_frag, pop_frag, cat_one, cat_all, handle_alternatives, handle_operator}
use criterion.Pattern.{literal, open_paren, close_with, close_paren}
use criterion.Pattern.{alternative_of, alternative}
use criterion.Pattern.Balance.{last?, last?-tail, Allowed, Ends, Ends-bind, held, Balanced}
use criterion.Pattern.Balance.{NoTopAlternative, cat_one-Holds, cat_all-Holds, push_frag-Holds}
use criterion.Pattern.Balance.{pop_frag-Holds, handle_alternatives-Holds}

module _ (n : ℕ) (end : Option ℕ) where
  -- What a step leaves: a rest of the text, shorter or of the same length, and a balanced state.
  pub record Steps (pat : Bytes) (r : Bytes × State) : Type 0 where
    pub shorter : length r.0 ≤ length pat
    pub same_end : (r.0 ≡ []) ⊎ (last? r.0 ≡ last? pat)
    pub balanced : Balanced n (length r.0) r.1

  abbrev pub StepsFrom : Bytes → Outcome (Bytes × State) → Type 0
  StepsFrom pat = Ends (Allowed n end) (Steps pat)

  -- A fragment on top of those that cat_one leaves, counted as an atom.
  pub pushed :
      (pat rest : Bytes) (g : Glob) (st : State)
      → Balanced n (suc (length pat)) st
      → length rest ≤ length pat
      → (rest ≡ []) ⊎ (last? rest ≡ last? pat)
      → StepsFrom pat (do
        frags ← cat_one st.atoms st.frags
        frags ← push_frag g frags
        ok (rest, record st { frags = frags; atoms = atoms_after_cat st.atoms + 1 }))
  pushed pat rest g st v shorter same =
      Ends-bind (Allowed n end) _ _ (cat_one st.atoms st.frags) _
        (cat_one-Holds n end st.atoms st.frags (omega arith) (omega arith))
        λ r e.
          Ends-bind (Allowed n end) _ _ (push_frag g r) _ (push_frag-Holds n end g r (ground arith))
            λ r1 e1. record {
              shorter = shorter;
              same_end = same;
              balanced = record { counted = ground arith; top = v.top; room = ground arith };
            }

  pub literal-Steps :
      (p : ℕ) (pat : Bytes) (st : State)
      → Balanced n (suc (length pat)) st
      → StepsFrom pat (literal p pat st)
  unfolding literal
  literal-Steps p pat st v = pushed pat pat (glob_char p) st v (omega arith) (inr refl)

  pub open_paren-Steps :
      (c : ℕ) (op : Op) (pat : Bytes) (st : State)
      → Balanced n (suc (length pat)) st
      → StepsFrom (c ∷ pat) (open_paren op pat st)
  unfolding open_paren
  open_paren-Steps c op pat st v = elim (Bool-cases (leb array_size (length st.parens))) [
    | inl e ↦ rw e tt
    | inr e ↦ rw e (
        Ends-bind (Allowed n end) _ _ (cat_one st.atoms st.frags) _
          (cat_one-Holds n end st.atoms st.frags (omega arith) (omega arith))
          λ r e1. record {
            shorter = omega arith;
            same_end = last?-tail c pat;
            balanced = record { counted = ground arith; top = v.top; room = ground arith };
          })
  ]

  close_with-Steps :
      (pa : Paren) (parens : List Paren) (pat : Bytes) (st : State)
      → Balanced n (suc (length pat)) st
      → st.parens ≡ pa ∷ parens
      → 0 < st.atoms
      → StepsFrom pat (close_with pa parens pat st)
  unfolding close_with
  close_with-Steps pa parens pat st v q pos =
      let total = ap held q in
      Ends-bind (Allowed n end) _ _ (cat_all st.atoms st.frags) _
        (cat_all-Holds n end st.atoms st.frags (omega arith) (omega arith))
        λ r e.
          Ends-bind (Allowed n end) _ _ (pop_frag r) _ (pop_frag-Holds n end r (omega arith))
            λ (a, r1) e1.
              Ends-bind (Allowed n end) _ _ (push_frag _ r1) _
                (push_frag-Holds n end _ r1 (omega arith))
                λ r2 e2.
                  Ends-bind (Allowed n end) _ _ (handle_alternatives pa.op st.alter r2) _
                    (handle_alternatives-Holds n end pa.op st.alter r2 (omega arith) (omega arith))
                    λ r3 e3. record {
                      shorter = omega arith;
                      same_end = inr refl;
                      balanced = record {
                        counted = omega arith;
                        top = subst (NoTopAlternative st.alter) q v.top;
                        room = omega arith;
                      };
                    }

  pub close_paren-Steps :
      (pat : Bytes) (st : State)
      → Balanced n (suc (length pat)) st
      → StepsFrom pat (close_paren pat st)
  unfolding close_paren
  close_paren-Steps pat st v = elim (List-cases st.parens) [
    | inl e ↦ rw (e, close_paren) tt
    | inr (pa, parens, e) ↦
        rw (e, close_paren)
          (elim (Bool-cases (st.atoms == 0)) [
            | inl z ↦ rw z tt
            | inr z ↦ rw z (close_with-Steps pa parens pat st v e (ground arith))
          ])
  ]

  alternative_of-Steps :
      (op : Op) (pat : Bytes) (st : State)
      → Balanced n (suc (length pat)) st
      → NoTopAlternative (st.alter + 1) st.parens
      → 0 < st.atoms
      → StepsFrom pat (alternative_of op pat st)
  unfolding alternative_of
  alternative_of-Steps op pat st v top pos =
      Ends-bind (Allowed n end) _ _ (cat_all st.atoms st.frags) _
        (cat_all-Holds n end st.atoms st.frags (omega arith) (omega arith))
        λ r e.
          Ends-bind (Allowed n end) _ _ (pop_frag r) _ (pop_frag-Holds n end r (omega arith))
            λ (a, r1) e1.
              Ends-bind (Allowed n end) _ _ (push_frag (handle_operator op a) r1) _
                (push_frag-Holds n end (handle_operator op a) r1 (omega arith))
                λ r2 e2. record {
                  shorter = omega arith;
                  same_end = inr refl;
                  balanced = record { counted = omega arith; top = top; room = omega arith };
                }

  pub alternative-Steps :
      (pat : Bytes) (st : State)
      → Balanced n (suc (length pat)) st
      → StepsFrom pat (alternative pat st)
  unfolding alternative
  alternative-Steps pat st v = elim (List-cases st.parens) [
    | inl e ↦ rw (e, alternative) tt
    | inr (pa, parens, e) ↦
        rw (e, alternative)
          (elim (Bool-cases (st.atoms == 0)) [
            | inl z ↦ rw z tt
            | inr z ↦ rw z (
                alternative_of-Steps pa.op pat st v
                  (subst (NoTopAlternative (st.alter + 1)) (sym e)
                    (subst (NoTopAlternative st.alter) e v.top))
                  (ground arith))
          ])
  ]
