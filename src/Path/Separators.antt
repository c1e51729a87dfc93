-- ===== src/Path/Separators.antt =====
-- src/compat/path.c: the separators around a part, and the components of a text.
use mathlib.Core.List.{append_assoc, append-nil}
use criterion.Common.{ℕ, zero, suc, ◌+◌, ◌-◌, ◌≤◌, ◌≡◌, refl, sym, ap, ◌∙◌, inl, inr}
use criterion.Common.{arith, true, Bool-cases, some, List, [], ◌∷◌, ◌++◌}
use criterion.Common.{Bytes, length, get_elem?, take, drop, take-drop, All, if◌then◌else◌, subst}
use criterion.Common.{Option-cases}
use criterion.Path.{is_separator, first_non_separator_index, trailing_from}
use criterion.Path.{first_trailing_separator_index}

abbrev flush : Bytes → List Bytes
flush [] = []
flush (c ∷ cur) = (c ∷ cur) ∷ []

-- The pieces between the separators of a text, behind the bytes of a piece that has begun.
abbrev pub pieces : Bytes → Bytes → List Bytes
pieces cur [] = flush cur
pieces cur (c ∷ s) = if is_separator c then flush cur ++ pieces [] s else pieces (cur ++ c ∷ []) s

-- The components of a path: its pieces, none of them empty.
abbrev pub components : Bytes → List Bytes
components s = pieces [] s

abbrev pub AllSeparators : Bytes → Type 0
AllSeparators = All (λ c. is_separator c ≡ true)

pub pieces-append :
    (cur s : Bytes) (c : ℕ) (t : Bytes)
    → is_separator c ≡ true
    → pieces cur (s ++ c ∷ t) ≡ pieces cur s ++ components t
pieces-append cur [] c t h = rw h refl
pieces-append cur (d ∷ s) c t h = elim (Bool-cases (is_separator d)) [
  | inl e ↦ rw e (
      ap (λ x. flush cur ++ x) (pieces-append [] s c t h)
      ∙ sym (append_assoc (flush cur) (components s) (components t)))
  | inr e ↦ rw e (pieces-append (cur ++ d ∷ []) s c t h)
]

pub components-separators : (s t : Bytes) → AllSeparators s → components (s ++ t) ≡ components t
components-separators [] t h = refl
components-separators (c ∷ s) t (h, hs) = rw h (components-separators s t hs)

pub AllSeparators-components : (s : Bytes) → AllSeparators s → components s ≡ []
AllSeparators-components [] h = refl
AllSeparators-components (c ∷ s) (h, hs) = rw h (AllSeparators-components s hs)

-- Separators at the end.
pub pieces-separators : (cur s t : Bytes) → AllSeparators t → pieces cur (s ++ t) ≡ pieces cur s
pieces-separators cur s [] h = ap (pieces cur) (append-nil s)
pieces-separators cur s (c ∷ t) (h, hs) =
    pieces-append cur s c t h
    ∙ ap (λ x. pieces cur s ++ x) (AllSeparators-components t hs)
    ∙ append-nil (pieces cur s)

pub take-first_non_separator_index :
    (s : Bytes) → AllSeparators (take (first_non_separator_index s) s)
unfolding first_non_separator_index
take-first_non_separator_index [] = tt
take-first_non_separator_index (c ∷ s) = elim (Bool-cases (is_separator c)) [
  | inl e ↦ rw e (e, take-first_non_separator_index s)
  | inr e ↦ rw e tt
]

drop-get_elem? : (s : Bytes) (i c : ℕ) → get_elem? s i ≡ some c → drop i s ≡ c ∷ drop (suc i) s
drop-get_elem? [] i c e = cc
drop-get_elem? (d ∷ s) zero c e = cc
drop-get_elem? (d ∷ s) (suc i) c e = drop-get_elem? s i c e

drop-trailing_from :
    (i : ℕ) (s : Bytes) → AllSeparators (drop i s) → AllSeparators (drop (trailing_from i s) s)
unfolding trailing_from
drop-trailing_from zero s h = h
drop-trailing_from (suc i) s h = elim (Option-cases (get_elem? s i)) [
  | inl e ↦ rw e h
  | inr (c, e) ↦ elim (Bool-cases (is_separator c)) [
    | inl f ↦
        rw (e, f)
          (drop-trailing_from i s (subst AllSeparators (sym (drop-get_elem? s i c e)) (f, h)))
    | inr f ↦ rw (e, f) h
  ]
]

drop-length : (s : Bytes) → drop (length s) s ≡ []
drop-length [] = refl
drop-length (c ∷ s) = drop-length s

pub drop-first_trailing_separator_index :
    (s : Bytes) → AllSeparators (drop (first_trailing_separator_index s) s)
unfolding first_trailing_separator_index
drop-first_trailing_separator_index s =
    drop-trailing_from (length s) s (subst AllSeparators (sym (drop-length s)) tt)

drop-nil : (n : ℕ) → drop {A = ℕ} n [] ≡ []
drop-nil zero = refl
drop-nil (suc n) = refl

drop-drop : (m n : ℕ) (s : Bytes) → drop n (drop m s) ≡ drop (m + n) s
drop-drop zero n s = ap (λ k. drop k s) (omega arith)
drop-drop (suc m) n [] = drop-nil n ∙ sym (drop-nil (suc m + n))
drop-drop (suc m) n (c ∷ s) =
    let k : suc m + n ≡ suc (m + n) = omega arith in rw k (drop-drop m n s)

AllSeparators-append : (s t : Bytes) → AllSeparators s → AllSeparators t → AllSeparators (s ++ t)
AllSeparators-append [] t h k = k
AllSeparators-append (c ∷ s) t (h, hs) k = (h, AllSeparators-append s t hs k)

take-take-le : (m n : ℕ) (s : Bytes) → m ≤ n → AllSeparators (take n s) → AllSeparators (take m s)
take-take-le zero n s h k = tt
take-take-le (suc m) zero s h k = absurd (omega arith)
take-take-le (suc m) (suc n) [] h k = tt
take-take-le (suc m) (suc n) (c ∷ s) h (k, ks) = (k, take-take-le m n s (omega arith) ks)

-- A part whose separators at both ends overlap has nothing else.
pub part-AllSeparators :
    (s : Bytes) → first_trailing_separator_index s ≤ first_non_separator_index s → AllSeparators s
part-AllSeparators s h = subst AllSeparators (take-drop (first_trailing_separator_index s) s) (
    AllSeparators-append _ _
      (take-take-le _ (first_non_separator_index s) s h (take-first_non_separator_index s))
      (drop-first_trailing_separator_index s))

-- What stands between the separators at the ends has the components of the part.
pub components-middle :
    (s : Bytes)
    → first_non_separator_index s ≤ first_trailing_separator_index s
    → components (
        take
          (first_trailing_separator_index s - first_non_separator_index s)
          (drop (first_non_separator_index s) s))
      ≡ components s
components-middle s h =
    let b = first_non_separator_index s in
    let e = first_trailing_separator_index s in
    let behind = drop b s in
    let middle = take (e - b) behind in
    let n : b + (e - b) ≡ e = omega arith in
    let end : drop (e - b) behind ≡ drop e s = drop-drop b (e - b) s ∙ ap (λ k. drop k s) n in
    sym (
      pieces-separators [] middle (drop (e - b) behind)
        (subst AllSeparators (sym end) (drop-first_trailing_separator_index s)))
    ∙ ap components (take-drop (e - b) behind)
    ∙ sym (components-separators (take b s) behind (take-first_non_separator_index s))
    ∙ ap components (take-drop b s)
