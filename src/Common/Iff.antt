-- ===== src/Common/Iff.antt =====
-- Equivalences of statements, and how they go through the connectives.
use mathlib.Core.Path.{◌≡◌, refl}
use mathlib.Core.Logic.{◌↔◌, ◌⊎◌, inl, inr}
use mathlib.Core.Bool.{Bool, true, false, not, ◌&&◌}
use native.Mathlib.Omega.{arith}

pub iff_refl : (P : Type 0) → P ↔ P
iff_refl P = ((λ x. x), λ x. x)

infixr 5 ◌⨾◌
pub ◌⨾◌ : {P Q R : Type 0} → P ↔ Q → Q ↔ R → P ↔ R
p ⨾ q = ((λ x. q.0 (p.0 x)), λ x. p.1 (q.1 x))

pub swap_iff : {P Q : Type 0} → P ↔ Q → Q ↔ P
swap_iff p = (p.1, p.0)

pub ⊎_iff : {P Q R S : Type 0} → P ↔ Q → R ↔ S → (P ⊎ R) ↔ (Q ⊎ S)
⊎_iff p q = (
  elim [ inl x ↦ inl (p.0 x) | inr x ↦ inr (q.0 x) ],
  elim [ inl x ↦ inl (p.1 x) | inr x ↦ inr (q.1 x) ],
)

pub ×_iff : {P Q R S : Type 0} → P ↔ Q → R ↔ S → (P × R) ↔ (Q × S)
×_iff p q = ((λ (x, y). (p.0 x, q.0 y)), λ (x, y). (p.1 x, q.1 y))

pub ¬_iff : {P Q : Type 0} → P ↔ Q → (¬ P) ↔ (¬ Q)
¬_iff p = ((λ f x. f (p.1 x)), λ f x. f (p.0 x))

pub drop_left : {P Q : Type 0} → ¬ P → Q ↔ (P ⊎ Q)
drop_left n = (inr, elim [ inl x ↦ absurd (n x) | inr x ↦ x ])

pub drop_right : {P Q : Type 0} → ¬ Q → P ↔ (P ⊎ Q)
drop_right n = (inl, elim [ inl x ↦ x | inr x ↦ absurd (n x) ])

pub &&_iff :
    (a b : Bool) {P Q : Type 0} → (a ≡ true) ↔ P → (b ≡ true) ↔ Q → ((a && b) ≡ true) ↔ (P × Q)
&&_iff a b p q = grind (arith, p.0, p.1, q.0, q.1)

pub not_iff : (a : Bool) {P : Type 0} → (a ≡ true) ↔ P → (not a ≡ true) ↔ (¬ P)
not_iff true p = ((λ x. cc), λ x. absurd (x (p.0 refl)))
not_iff false p = ((λ x y. cc (p.1 y)), λ x. refl)
