-- ===== src/OrderedSet.antt =====
-- src/core/ordered-set.c: a set as a sorted linked list, generic in the comparison callback.
-- The nodes are a list. `insert_ordered_set` returns a pointer into the list; the model returns
-- the element that it points to.
pub mod Order
use Prim.Native.Nat.{Ordering}
use criterion.Common.{ℕ, ◌+◌, ◌≡◌, ◌≢◌, List, [], ◌∷◌}

-- What a callback `cmp` must be: the sign of a comparison of a total order on keys. Elements of
-- one key compare as equal.
pub record Compare (A : Type 0) : Type 0 where
  pub cmp : A → A → Ordering
  pub cmp_refl : (a : A) → cmp a a ≡ Ordering.eq
  pub cmp_flip : (a b : A) → cmp a b ≡ Ordering.gt → cmp b a ≡ Ordering.lt
  pub cmp_trans :
      (a b c : A) → cmp a b ≡ Ordering.lt → cmp b c ≡ Ordering.lt → cmp a c ≡ Ordering.lt

pub record OrderedSet (A : Type 0) : Type 0 where
  pub first : List A
  pub size : ℕ

unfoldable pub new_ordered_set : {A : Type 0} → OrderedSet A
new_ordered_set = record { first = []; size = 0 }

module _ {A : Type 0} ⦃c : Compare A⦄ where
  -- The walk to the place of the element: the list after it, how many nodes are new, and the
  -- element of the set that compares as equal.
  unfoldable pub insert_node : A → List A → List A × ℕ × A
  insert_node ptr [] = (ptr ∷ [], 1, ptr)
  insert_node ptr (n ∷ next) =
      let (next', new, found) = insert_node ptr next in
      elim (c.cmp ptr n) [
        | Ordering.gt ↦ (n ∷ next', new, found)
        | Ordering.eq ↦ (n ∷ next, 0, n)
        | Ordering.lt ↦ (ptr ∷ n ∷ next, 1, ptr)
      ]

  unfoldable pub insert_ordered_set : OrderedSet A → A → OrderedSet A × A
  unfolding insert_node
  insert_ordered_set l ptr =
      let (first, new, found) = insert_node ptr l.first in
      (record { first = first; size = l.size + new }, found)
