-- ===== src/Pattern/Balance.antt =====
-- src/string/extglobmatch.c: every operation of the compiler keeps the stack in step with its
-- counters.
use criterion.Common.{ℕ, zero, suc, ◌+◌, ◌-◌, ◌≤◌, ◌<◌, ◌≡◌, refl, subst, ◌⊎◌, inl, inr, arith}
use criterion.Common.{Option, none, some, List, [], ◌∷◌, Bytes, length}
use criterion.Glob.{Glob, glob_seq}
use criterion.Pattern.{Outcome, ok, rejected, fault, ◌>>=◌, Fault, Frags, Paren, State, Op}
use criterion.Pattern.{overflow, underflow, past_end, out_of_fuel, array_size, atoms_after_cat}
use criterion.Pattern.{push_frag, pop_frag, cat_one, cat_all, handle_alternatives}

-- The last byte of a text.
abbrev pub last? : Bytes → Option ℕ
last? [] = none
last? (c ∷ []) = some c
last? (c ∷ d ∷ s) = last? (d ∷ s)

-- The faults that a text of `n` bytes with a given last byte can meet.
abbrev pub Allowed : ℕ → Option ℕ → Fault → Type 0
Allowed n end overflow = array_size < n
Allowed n end past_end = end ≡ some 92
Allowed n end underflow = ⊥
Allowed n end out_of_fuel = ⊥

abbrev pub Ends {ℓ} : {A : Type ℓ} → (Fault → Type 0) → (A → Type 0) → Outcome A → Type 0
Ends V P (ok a) = P a
Ends V P (rejected e) = Unit
Ends V P (fault e) = V e

pub Ends-bind {ℓ κ} :
    {A : Type ℓ} {B : Type κ} (V : Fault → Type 0) (P : A → Type 0) (Q : B → Type 0) (r : Outcome A)
    (f : A → Outcome B)
    → Ends V P r
    → ((a : A) → P a → Ends V Q (f a))
    → Ends V Q (r >>= f)
Ends-bind V P Q (ok a) f h k = k a h
Ends-bind V P Q (rejected e) f h k = tt
Ends-bind V P Q (fault e) f h k = h

-- How many fragments the open parentheses hold below the innermost one.
abbrev pub held : List Paren → ℕ
held [] = 0
held (pa ∷ parens) = pa.alter + pa.atoms + held parens

-- There are no alternatives outside every parenthesis.
abbrev pub NoTopAlternative : ℕ → List Paren → Type 0
NoTopAlternative alter [] = alter ≡ 0
NoTopAlternative alter (pa ∷ parens) = NoTopAlternative pa.alter parens

-- The stack holds what the counters say. `n` bounds the fragments and the
-- bytes left together.
pub record Balanced (n left : ℕ) (st : State) : Type 0 where
  pub counted : length st.frags ≡ st.atoms + st.alter + held st.parens
  pub top : NoTopAlternative st.alter st.parens
  pub room : length st.frags + left ≤ n

pub last?-tail : (c : ℕ) (pat : Bytes) → (pat ≡ []) ⊎ (last? pat ≡ last? (c ∷ pat))
last?-tail c [] = inl refl
last?-tail c (d ∷ pat) = inr refl

module _ (n : ℕ) (end : Option ℕ) where
  abbrev pub Holds : ℕ → Outcome Frags → Type 0
  Holds k = Ends (Allowed n end) (λ (r : Frags). length r ≡ k)

  resize : {k k' : ℕ} (r : Outcome Frags) → k ≡ k' → Holds k r → Holds k' r
  resize r e h = subst (λ k. Holds k r) e h

  pub push_frag-Holds :
      (f : Glob) (frags : Frags) → length frags < n → Holds (suc (length frags)) (push_frag f frags)
  unfolding push_frag
  push_frag-Holds f frags h = ground arith

  pub pop_frag-Holds :
      (frags : Frags)
      → 0 < length frags
      → Ends
          (Allowed n end)
          (λ (r : Glob × Frags). suc (length r.1) ≡ length frags)
          (pop_frag frags)
  unfolding pop_frag
  pop_frag-Holds [] h = absurd (omega arith)
  pop_frag-Holds (f ∷ frags) h = refl

  pub cat_one-Holds :
      (atoms : ℕ) (frags : Frags)
      → atoms ≤ length frags
      → length frags ≤ n
      → Holds (length frags - (atoms - atoms_after_cat atoms)) (cat_one atoms frags)
  unfolding cat_one
  cat_one-Holds atoms [] h k = ground arith
  cat_one-Holds atoms (b ∷ []) h k = ground arith
  cat_one-Holds atoms (b ∷ a ∷ frags) h k = ground arith

  pub cat_all-Holds :
      (atoms : ℕ) (frags : Frags)
      → atoms ≤ length frags
      → length frags ≤ n
      → Holds (length frags - (atoms - 1)) (cat_all atoms frags)
  unfolding cat_all
  cat_all-Holds zero frags h k = ground arith
  cat_all-Holds (suc zero) frags h k = ground arith
  cat_all-Holds (suc (suc atoms)) [] h k = absurd (omega arith)
  cat_all-Holds (suc (suc atoms)) (b ∷ []) h k = absurd (omega arith)
  cat_all-Holds (suc (suc atoms)) (b ∷ a ∷ frags) h k =
      Ends-bind (Allowed n end) _ _ (push_frag (glob_seq a b) frags) (cat_all (suc atoms))
        (push_frag-Holds (glob_seq a b) frags (omega arith))
        λ r e.
          resize (cat_all (suc atoms) r) (omega arith)
            (cat_all-Holds (suc atoms) r (omega arith) (omega arith))

  pub handle_alternatives-Holds :
      (op : Op) (alter : ℕ) (frags : Frags)
      → alter < length frags
      → length frags ≤ n
      → Holds (length frags - alter) (handle_alternatives op alter frags)
  unfolding handle_alternatives
  handle_alternatives-Holds op zero frags h k = ground arith
  handle_alternatives-Holds op (suc alter) [] h k = absurd (omega arith)
  handle_alternatives-Holds op (suc alter) (b ∷ []) h k = absurd (omega arith)
  handle_alternatives-Holds op (suc alter) (b ∷ a ∷ frags) h k =
      Ends-bind (Allowed n end) _ _ (push_frag _ frags) (handle_alternatives op alter)
        (push_frag-Holds _ frags (omega arith))
        λ r e.
          resize (handle_alternatives op alter r) (omega arith)
            (handle_alternatives-Holds op alter r (omega arith) (omega arith))
