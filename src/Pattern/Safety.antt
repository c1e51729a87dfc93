-- ===== src/Pattern/Safety.antt =====
-- src/string/extglobmatch.c, compile: the faults that it can meet, and those that it cannot.
use criterion.Common.{ℕ, zero, suc, ◌≤◌, ◌<◌, ◌≡◌, refl, sym, subst, ◌⊎◌, inl, inr, arith}
use criterion.Common.{Option, some, [], ◌∷◌, Bytes, length, List-cases, ◌∙◌}
use criterion.Pattern.{fault, Fault, State}
use criterion.Pattern.{overflow, past_end, array_size, cat_all}
use criterion.Pattern.{step, finish, compile_loop, compile, initial}
use criterion.Pattern.Balance.{last?, Allowed, Ends, Ends-bind, Balanced, cat_all-Holds}
use criterion.Pattern.Steps.{Steps}
use criterion.Pattern.Switch.{last?-cons, step-Steps}

module _ (n : ℕ) (end : Option ℕ) where
  finish-Ends : (st : State) → Balanced n 0 st → Ends (Allowed n end) (λ _. Unit {0}) (finish st)
  unfolding finish
  finish-Ends st v = elim (List-cases st.parens) [
    | inl e ↦
        rw (e, finish)
          (Ends-bind (Allowed n end) _ _ (cat_all st.atoms st.frags) _
            (cat_all-Holds n end st.atoms st.frags (omega arith) (omega arith)) λ r e1. tt)
    | inr (pa, parens, e) ↦ rw (e, finish) tt
  ]

  still :
      {last : Option ℕ} {rest : Bytes}
      → end ≡ last
      → (rest ≡ []) ⊎ (last? rest ≡ last)
      → (rest ≡ []) ⊎ (end ≡ last? rest)
  still e (inl x) = inl x
  still e (inr x) = inr (e ∙ sym x)

  compile_loop-Ends :
      (fuel : ℕ) (pat : Bytes) (st : State)
      → Balanced n (length pat) st
      → length pat ≤ fuel
      → (pat ≡ []) ⊎ (end ≡ last? pat)
      → Ends (Allowed n end) (λ _. Unit {0}) (compile_loop fuel pat st)
  unfolding compile_loop
  compile_loop-Ends fuel [] st v h e = finish-Ends st v
  compile_loop-Ends zero (p ∷ pat) st v h e = absurd (omega arith)
  compile_loop-Ends (suc fuel) (p ∷ pat) st v h (inl e) = cc
  compile_loop-Ends (suc fuel) (p ∷ pat) st v h (inr e) =
      Ends-bind (Allowed n end) (Steps n end pat) _ (step p pat st) _
        (step-Steps n end p pat st v e)
        λ (rest, st1) s.
          compile_loop-Ends fuel rest st1 s.balanced (omega arith)
            (still e (last?-cons p pat rest s.same_end))

-- What a run of the compiler can come to: a fault only by more than 100 bytes or by a backslash
-- at the end.
compile-Ends : (pat : Bytes) → Ends (Allowed (length pat) (last? pat)) (λ _. Unit {0}) (compile pat)
unfolding compile
compile-Ends pat =
    compile_loop-Ends (length pat) (last? pat) (length pat) pat initial
      (record { counted = refl; top = refl; room = omega arith }) (omega arith) (inr refl)

-- A compilation that faults either overflows the fragment array, which takes a pattern of more
-- than 100 bytes, or reads past a final backslash. It never pops an empty stack, and the model's
-- fuel is always enough.
pub compile_faults :
    (pat : Bytes) (e : Fault)
    → compile pat ≡ fault e
    → ((e ≡ overflow) × (array_size < length pat)) ⊎ ((e ≡ past_end) × (last? pat ≡ some 92))
compile_faults pat e h = faults e (subst (Ends _ _) h (compile-Ends pat))
  where
    faults :
        (e : Fault)
        → Allowed (length pat) (last? pat) e
        → ((e ≡ overflow) × (array_size < length pat)) ⊎ ((e ≡ past_end) × (last? pat ≡ some 92))
    faults overflow a = inl (refl, a)
    faults past_end a = inr (refl, a)
    faults _ a = absurd a
