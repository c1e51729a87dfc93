-- ===== src/OrderedSet/Order.antt =====
-- src/core/ordered-set.c: the list stays sorted and without duplicates, and the size is right.
use Prim.Native.Nat.{Ordering}
use criterion.Common.{ℕ, ◌+◌, ◌≡◌, refl, ap, ◌∙◌, ◌⊎◌, inl, inr, List, [], ◌∷◌, length, All, arith}
use native.Mathlib.Nat.{add-zero}
use criterion.OrderedSet.{Compare, OrderedSet, insert_node, insert_ordered_set}

pub Ordering-cases : (o : Ordering) → (o ≡ Ordering.lt) ⊎ (o ≡ Ordering.eq) ⊎ (o ≡ Ordering.gt)
Ordering-cases Ordering.lt = inl refl
Ordering-cases Ordering.eq = inr (inl refl)
Ordering-cases Ordering.gt = inr (inr refl)

module _ {A : Type 0} ⦃c : Compare A⦄ where
  -- Each element lies before all those behind it.
  abbrev pub IsSorted : List A → Type 0
  IsSorted [] = Unit
  IsSorted (x ∷ xs) = All (λ y. c.cmp x y ≡ Ordering.lt) xs × IsSorted xs

  pub record IsOrdered (l : OrderedSet A) : Type 0 where
    pub sorted : IsSorted l.first
    pub counted : l.size ≡ length l.first

  All-before :
      (x y : A) (xs : List A)
      → c.cmp x y ≡ Ordering.lt
      → All (λ z. c.cmp y z ≡ Ordering.lt) xs
      → All (λ z. c.cmp x z ≡ Ordering.lt) xs
  All-before x y [] h v = tt
  All-before x y (z ∷ xs) h v = (c.cmp_trans x y z h v.0, All-before x y xs h v.1)

  insert_node-All :
      (x y : A) (xs : List A)
      → c.cmp x y ≡ Ordering.lt
      → All (λ z. c.cmp x z ≡ Ordering.lt) xs
      → All (λ z. c.cmp x z ≡ Ordering.lt) (insert_node y xs).0
  unfolding insert_node
  insert_node-All x y [] h v = (h, tt)
  insert_node-All x y (z ∷ xs) h v = elim (Ordering-cases (c.cmp y z)) [
    | inl e ↦ rw (e, insert_node) (h, v)
    | inr (inl e) ↦ rw (e, insert_node) v
    | inr (inr e) ↦ rw (e, insert_node) (v.0, insert_node-All x y xs h v.1)
  ]

  insert_node-IsSorted : (y : A) (xs : List A) → IsSorted xs → IsSorted (insert_node y xs).0
  unfolding insert_node
  insert_node-IsSorted y [] v = (tt, tt)
  insert_node-IsSorted y (z ∷ xs) v = elim (Ordering-cases (c.cmp y z)) [
    | inl e ↦ rw (e, insert_node) ((e, All-before y z xs e v.0), v)
    | inr (inl e) ↦ rw (e, insert_node) v
    | inr (inr e) ↦
        rw (e, insert_node)
          (insert_node-All z y xs (c.cmp_flip y z e) v.0, insert_node-IsSorted y xs v.1)
  ]

  insert_node-length :
      (y : A) (xs : List A) → length (insert_node y xs).0 ≡ length xs + (insert_node y xs).1
  unfolding insert_node
  insert_node-length y [] = omega arith
  insert_node-length y (z ∷ xs) = elim (Ordering-cases (c.cmp y z)) [
    | inl e ↦ rw (e, insert_node) (omega arith)
    | inr (inl e) ↦ rw (e, insert_node) (omega arith)
    | inr (inr e) ↦ rw (e, insert_node) (omega (arith, insert_node-length y xs))
  ]

  -- Insertion keeps the set sorted, without two elements that compare as equal, and its size the
  -- number of its nodes.
  pub insert_ordered_set-IsOrdered :
      (l : OrderedSet A) (ptr : A) → IsOrdered l → IsOrdered (insert_ordered_set l ptr).0
  unfolding insert_ordered_set
  insert_ordered_set-IsOrdered l ptr v = record {
    sorted = insert_node-IsSorted ptr l.first v.sorted;
    counted = omega (arith, insert_node-length ptr l.first, v.counted);
  }

  insert_node-again :
      (y : A) (xs : List A)
      → insert_node y (insert_node y xs).0 ≡ ((insert_node y xs).0, 0, (insert_node y xs).2)
  unfolding insert_node
  insert_node-again y [] = rw (c.cmp_refl y, insert_node) refl
  insert_node-again y (z ∷ xs) = elim (Ordering-cases (c.cmp y z)) [
    | inl e ↦ rw (e, insert_node) (rw (c.cmp_refl y, insert_node) refl)
    | inr (inl e) ↦ rw (e, insert_node) (rw (e, insert_node) refl)
    | inr (inr e) ↦
        rw (e, insert_node)
          (rw (e, insert_node)
            (ap (λ (r : List A × ℕ × A). (z ∷ r.0, r.1, r.2)) (insert_node-again y xs)))
  ]

  -- An element that is inserted a second time changes nothing, and is found where it was.
  pub insert_ordered_set-again :
      (l : OrderedSet A) (ptr : A)
      → let r = insert_ordered_set l ptr in insert_ordered_set r.0 ptr ≡ r
  unfolding insert_ordered_set
  insert_ordered_set-again l ptr =
      ap
        (λ (r : List A × ℕ × A).
          (record { first = r.0; size = l.size + (insert_node ptr l.first).1 + r.1 }, r.2))
        (insert_node-again ptr l.first)
      ∙ rw add-zero refl

  -- What holds of the elements and of the inserted one holds of the new elements, and of the one
  -- that is found.
  pub insert_ordered_set-All :
      (P : A → Type 0) (l : OrderedSet A) (ptr : A)
      → P ptr
      → All P l.first
      → All P (insert_ordered_set l ptr).0.first × P (insert_ordered_set l ptr).1
  unfolding insert_ordered_set
  insert_ordered_set-All P l ptr h v = go l.first v
    where
      go : (xs : List A) → All P xs → All P (insert_node ptr xs).0 × P (insert_node ptr xs).2
      go [] v = ((h, tt), h)
      go (z ∷ xs) v = elim (Ordering-cases (c.cmp ptr z)) [
        | inl e ↦ rw (e, insert_node) ((h, v), h)
        | inr (inl e) ↦ rw (e, insert_node) (v, v.0)
        | inr (inr e) ↦ rw (e, insert_node) ((v.0, (go xs v.1).0), (go xs v.1).1)
      ]
