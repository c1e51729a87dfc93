-- ===== src/Glob/Texts.antt =====
-- The laws of `Cat` and `Star`: how a text that is a concatenation begins.
use criterion.Common.{ℕ, ◌≡◌, refl, sym, ap, subst, ◌∙◌, ◌↔◌, ◌⊎◌, inl, inr, [], ◌∷◌, ◌++◌, Bytes}
use criterion.Glob.Language.{Language, Cat, Star, done, more}

pub append_eq_nil : (u v : Bytes) → [] ≡ u ++ v → (u ≡ []) × (v ≡ [])
append_eq_nil [] v e = (refl, sym e)
append_eq_nil (x ∷ u) v e = cc

-- A text of `Cat` that begins with a byte: the byte comes from the first part, or that is empty.
pub cons_eq_append :
    (c : ℕ) (s u v : Bytes)
    → c ∷ s ≡ u ++ v
    → ((u ≡ []) × (v ≡ c ∷ s)) ⊎ ((u' : Bytes) × (u ≡ c ∷ u') × (s ≡ u' ++ v))
cons_eq_append c s [] v e = inl (refl, sym e)
cons_eq_append c s (x ∷ u) v e = inr (u, cc, cc)

-- A repetition that begins with a byte has a round that begins with it.
pub Star-cons :
    (L : Language) (c : ℕ) (s : Bytes) {t : Bytes}
    → Star L t
    → t ≡ c ∷ s
    → Cat (λ u. L (c ∷ u)) (Star L) s
Star-cons L c s done e = cc
Star-cons L c s (more u v e l r) p = elim (cons_eq_append c s u v (sym p ∙ e)) [
  | inl (_, q) ↦ Star-cons L c s r q
  | inr (u', q, q') ↦ (u', v, q', subst L q l, r)
]

pub Cat-nil : (L M : Language) → Cat L M [] ↔ (L [] × M [])
Cat-nil L M = (
  (λ (u, v, p, l, m). (subst L (append_eq_nil u v p).0 l, subst M (append_eq_nil u v p).1 m)),
  λ (l, m). ([], [], refl, l, m),
)

-- Cat of a byte and a rest, by whether the first part may be empty.
pub Cat-cons :
    (L M : Language) (c : ℕ) (s : Bytes)
    → Cat L M (c ∷ s) ↔ (Cat (λ u. L (c ∷ u)) M s ⊎ (L [] × M (c ∷ s)))
Cat-cons L M c s = (
  (λ (u, v, p, l, m). elim (cons_eq_append c s u v p) [
    | inl (q, q') ↦ inr (subst L q l, subst M q' m)
    | inr (u', q, q') ↦ inl (u', v, q', subst L q l, m)
  ]),
  elim [
    | inl (u, v, p, l, m) ↦ (c ∷ u, v, ap (◌∷◌ c) p, l, m)
    | inr (l, m) ↦ ([], c ∷ s, refl, l, m)
  ],
)

pub Star-iff : (L : Language) (c : ℕ) (s : Bytes) → Star L (c ∷ s) ↔ Cat (λ u. L (c ∷ u)) (Star L) s
Star-iff L c s =
    ((λ d. Star-cons L c s d refl), λ (u, v, p, l, m). more (c ∷ u) v (ap (◌∷◌ c) p) l m)

pub Cat_iff :
    {L L' M M' : Language} (s : Bytes)
    → ((u : Bytes) → L u ↔ L' u)
    → ((u : Bytes) → M u ↔ M' u)
    → Cat L M s ↔ Cat L' M' s
Cat_iff s f g = (
  (λ (u, v, p, l, m). (u, v, p, (f u).0 l, (g v).0 m)),
  λ (u, v, p, l, m). (u, v, p, (f u).1 l, (g v).1 m),
)
