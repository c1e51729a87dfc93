-- ===== src/Glob/Derivation.antt =====
-- src/string/brz.c: the constructor functions, `nullable` and `derive`, against the languages.
use criterion.Common.{ℕ, ◌≡◌, refl, ap, subst, ◌↔◌, ◌⊎◌, inl, inr, arith}
use criterion.Common.{true, false, [], ◌∷◌, ◌++◌, Bytes, Bool-cases}
use criterion.Common.{
  ◌⨾◌, ⊎_iff, ×_iff, ¬_iff, &&_iff, not_iff, swap_iff, drop_left, drop_right, iff_refl, ◌≢◌, ◌==◌,
  ◌||◌, if◌then◌else◌,
}
use criterion.Glob.{Glob, accepts, copy, nullable, derive_char, derive_cset, derive}
use criterion.Glob.{is_empty, is_blank, glob_or, glob_and, glob_star, glob_at, glob_seq, glob_not}
use criterion.Glob.{empty, blank, char, charset, or, and, star, plus, at, opt, seq, not_glob}
use criterion.Glob.Language.{CharLang, AtMostOne, Lang, Cat, Star, done}
use criterion.Glob.Texts.{Cat-nil, Cat-cons, Star-iff, Cat_iff}

-- A copy is the tree itself.
pub copy_lem : (g : Glob) → copy g ≡ g
unfolding copy
copy_lem empty = refl
copy_lem blank = refl
copy_lem (char c) = refl
copy_lem (charset cset) = refl
copy_lem (or g h) = rw (copy_lem g, copy_lem h)
copy_lem (and g h) = rw (copy_lem g, copy_lem h)
copy_lem (star g) = rw (copy_lem g)
copy_lem (plus g) = rw (copy_lem g)
copy_lem (at g) = rw (copy_lem g)
copy_lem (opt g) = rw (copy_lem g)
copy_lem (seq g h) = rw (copy_lem g, copy_lem h)
copy_lem (not_glob g) = rw (copy_lem g)

eq_of_is_empty : (g : Glob) → is_empty g ≡ true → g ≡ empty
eq_of_is_empty empty h = refl
eq_of_is_empty _ h = cc

eq_of_is_blank : (g : Glob) → is_blank g ≡ true → g ≡ blank
eq_of_is_blank blank h = refl
eq_of_is_blank _ h = cc

-- The optimisations of glob_or and of the others keep the language.
pub Lang-glob_or : (g h : Glob) (s : Bytes) → Lang (glob_or g h) s ↔ (Lang g s ⊎ Lang h s)
unfolding glob_or
Lang-glob_or g h s = elim (Bool-cases (is_empty g)) [
  | inl e ↦ rw (eq_of_is_empty g e, copy_lem h) (inr, elim [ inl x ↦ absurd x | inr x ↦ x ])
  | inr e ↦ elim (Bool-cases (is_empty h)) [
    | inl f ↦ rw (e, eq_of_is_empty h f, copy_lem g) (inl, elim [ inl x ↦ x | inr x ↦ absurd x ])
    | inr f ↦ rw (e, f, copy_lem g, copy_lem h) (λ x. x, λ x. x)
  ]
]

pub Lang-glob_and : (g h : Glob) (s : Bytes) → Lang (glob_and g h) s ↔ (Lang g s × Lang h s)
unfolding glob_and
Lang-glob_and g h s = elim (Bool-cases (is_empty g)) [
  | inl e ↦ rw (eq_of_is_empty g e) ((λ x. absurd x), λ x. x.0)
  | inr e ↦ elim (Bool-cases (is_empty h)) [
    | inl f ↦ rw (e, eq_of_is_empty h f) ((λ x. absurd x), λ x. x.1)
    | inr f ↦ rw (e, f, copy_lem g, copy_lem h) (λ x. x, λ x. x)
  ]
]

pub Lang-glob_at : (g : Glob) (s : Bytes) → Lang (glob_at g) s ↔ Lang g s
unfolding glob_at
Lang-glob_at g s = elim (Bool-cases (is_empty g)) [
  | inl e ↦ rw (eq_of_is_empty g e) (λ x. x, λ x. x)
  | inr e ↦ elim (Bool-cases (is_blank g)) [
    | inl f ↦ rw (eq_of_is_blank g f) (λ x. x, λ x. x)
    | inr f ↦ rw (e, f, copy_lem g) (λ x. x, λ x. x)
  ]
]

blank_left : {s u v : Bytes} → s ≡ u ++ v → u ≡ [] → v ≡ s
blank_left p l = cc

pub Lang-glob_seq : (g h : Glob) (s : Bytes) → Lang (glob_seq g h) s ↔ Cat (Lang g) (Lang h) s
unfolding glob_seq
Lang-glob_seq g h s = elim (Bool-cases (is_empty g)) [
  | inl e ↦ rw (eq_of_is_empty g e) ((λ x. absurd x), λ (u, v, p, l, m). l)
  | inr e ↦ elim (Bool-cases (is_empty h)) [
    | inl f ↦ rw (e, eq_of_is_empty h f) ((λ x. absurd x), λ (u, v, p, l, m). m)
    | inr f ↦ elim (Bool-cases (is_blank g)) [
      | inl k ↦
          rw (eq_of_is_blank g k, f, copy_lem h)
            (λ x. ([], s, refl, refl, x), λ (u, v, p, l, m). subst (Lang h) (blank_left p l) m)
      | inr k ↦ rw (e, f, k, copy_lem g, copy_lem h) (λ x. x, λ x. x)
    ]
  ]
]

nullable_char_iff : (c : ℕ) → ((c == b'?' || c == b'*') ≡ true) ↔ CharLang c []
nullable_char_iff c = elim (Bool-cases (c == b'*')) [
  | inl e ↦ rw e ((λ x. tt), λ x. ground arith)
  | inr e ↦ elim (Bool-cases (c == b'?')) [
    | inl f ↦ rw (e, f) ((λ x. inl refl), λ x. refl)
    | inr f ↦ rw (e, f) ((λ x. cc), λ x. cc)
  ]
]

-- A glob is nullable exactly when it stands for the empty text.
pub nullable_iff : (g : Glob) → (nullable g ≡ true) ↔ Lang g []
unfolding nullable
nullable_iff empty = ((λ x. cc), λ x. absurd x)
nullable_iff blank = ((λ x. refl), λ x. refl)
nullable_iff (char c) = nullable_char_iff c
nullable_iff (charset cset) = ((λ x. cc), λ (x, p, a). cc)
nullable_iff (or g h) = grind (arith, nullable_iff g, nullable_iff h)
nullable_iff (and g h) = &&_iff (nullable g) (nullable h) (nullable_iff g) (nullable_iff h)
nullable_iff (star g) = ((λ x. done), λ x. refl)
nullable_iff (plus g) = (
  (λ x. (Cat-nil (Lang g) (Star (Lang g))).1 ((nullable_iff g).0 x, done)),
  λ x. (nullable_iff g).1 ((Cat-nil (Lang g) (Star (Lang g))).0 x).0,
)
nullable_iff (at g) = nullable_iff g
nullable_iff (opt g) = ((λ x. inl refl), λ x. refl)
nullable_iff (seq g h) =
    let both = &&_iff (nullable g) (nullable h) (nullable_iff g) (nullable_iff h) in
    ((λ x. (Cat-nil (Lang g) (Lang h)).1 (both.0 x)), λ x. both.1 ((Cat-nil (Lang g) (Lang h)).0 x))
nullable_iff (not_glob g) = not_iff (nullable g) (nullable_iff g)

-- The four ways of derive_char.
derive_char_cases :
    (c chr : ℕ)
    → chr ≢ b'*'
    → ((c ≡ b'*') × (derive_char c chr ≡ char c))
      ⊎ ((c ≡ b'?') × (derive_char c chr ≡ blank))
      ⊎ (((c == b'*') ≡ false) × ((c == b'?') ≡ false) × (c ≡ chr) × (derive_char c chr ≡ blank))
      ⊎ (((c == b'*') ≡ false) × ((c == b'?') ≡ false) × (c ≢ chr) × (derive_char c chr ≡ empty))
unfolding derive_char
derive_char_cases c chr n = ground arith

AtMostOne-cons : (c : ℕ) (s : Bytes) → (s ≡ []) ↔ AtMostOne (c ∷ s)
AtMostOne-cons c s = ((λ e. inr (c, ap (◌∷◌ c) e)), elim [ inl e ↦ cc | inr (x, e) ↦ cc ])

Lang-derive_char :
    (c chr : ℕ) (s : Bytes) → chr ≢ b'*' → Lang (derive_char c chr) s ↔ CharLang c (chr ∷ s)
Lang-derive_char c chr s n = elim (derive_char_cases c chr n) [
  | inl (e, d) ↦ rw (d, e) ((λ x. tt), λ x. tt)
  | inr (inl (e, d)) ↦ rw (d, e) (AtMostOne-cons chr s)
  | inr (inr (inl (e, f, q, d))) ↦ rw (d, e, f, q) ((λ x. ap (◌∷◌ chr) x), λ x. cc)
  | inr (inr (inr (e, f, q, d))) ↦ rw (d, e, f) ((λ x. absurd x), λ x. q (cc))
]

Lang-derive_cset :
    (cset : Bytes) (chr : ℕ) (s : Bytes)
    → Lang (derive_cset cset chr) s ↔ Lang (charset cset) (chr ∷ s)
unfolding derive_cset
Lang-derive_cset cset chr s = elim (Bool-cases (accepts cset chr)) [
  | inl e ↦ rw (e, derive_cset) ((λ x. (chr, ap (◌∷◌ chr) x, e)), λ (x, p, a). cc)
  | inr e ↦ rw (e, derive_cset) ((λ x. absurd x), λ (x, p, a). cc)
]

-- One round, and then any number.
Lang-round :
    (g d : Glob) (c : ℕ) (s : Bytes)
    → ((u : Bytes) → Lang d u ↔ Lang g (c ∷ u))
    → Lang (glob_seq d (glob_star g)) s ↔ Cat (λ u. Lang g (c ∷ u)) (Star (Lang g)) s
unfolding glob_star
Lang-round g d c s ih =
    rw (copy_lem g) (Lang-glob_seq d (star g) s ⨾ Cat_iff s ih (λ u. iff_refl _))

Lang-plus :
    (g : Glob) (c : ℕ) (s : Bytes)
    → Cat (λ u. Lang g (c ∷ u)) (Star (Lang g)) s ↔ Cat (Lang g) (Star (Lang g)) (c ∷ s)
Lang-plus g c s = (
  (λ x. (Cat-cons (Lang g) (Star (Lang g)) c s).1 (inl x)),
  λ x. elim ((Cat-cons (Lang g) (Star (Lang g)) c s).0 x) [
    | inl y ↦ y
    | inr (_, y) ↦ (Star-iff (Lang g) c s).0 y
  ],
)

Lang-tail :
    (g h d d' : Glob) (c : ℕ) (s : Bytes)
    → ((u : Bytes) → Lang d u ↔ Lang g (c ∷ u))
    → Lang d' s ↔ Lang h (c ∷ s)
    → Lang (if nullable g then glob_or (glob_seq d h) d' else glob_seq d h) s
      ↔ Cat (Lang g) (Lang h) (c ∷ s)
Lang-tail g h d d' c s ih ih' = elim (Bool-cases (nullable g)) [
  | inl e ↦ rw e (
      Lang-glob_or (glob_seq d h) d' s
      ⨾ ⊎_iff first_part (ih' ⨾ ((λ x. ((nullable_iff g).0 e, x)), λ x. x.1))
      ⨾ swap_iff (Cat-cons (Lang g) (Lang h) c s))
  | inr e ↦
      rw e (first_part ⨾ drop_right (λ x. never e x.0) ⨾ swap_iff (Cat-cons (Lang g) (Lang h) c s))
]
  where
    first_part : Lang (glob_seq d h) s ↔ Cat (λ u. Lang g (c ∷ u)) (Lang h) s
    first_part = Lang-glob_seq d h s ⨾ Cat_iff s ih (λ u. iff_refl _)

    never : nullable g ≡ false → ¬ (Lang g [])
    never e x = cc ((nullable_iff g).1 x)

-- The derivative by a byte stands for the rests of the texts that begin with the byte. The byte
-- is no asterisk.
pub Lang-derive : (g : Glob) (c : ℕ) (s : Bytes) → c ≢ b'*' → Lang (derive g c) s ↔ Lang g (c ∷ s)
unfolding derive glob_not
Lang-derive empty c s n = ((λ x. x), λ x. x)
Lang-derive blank c s n = ((λ x. absurd x), λ x. cc)
Lang-derive (char x) c s n = Lang-derive_char x c s n
Lang-derive (charset cset) c s n = Lang-derive_cset cset c s
Lang-derive (or g h) c s n =
    Lang-glob_or (derive g c) (derive h c) s ⨾ ⊎_iff (Lang-derive g c s n) (Lang-derive h c s n)
Lang-derive (and g h) c s n =
    Lang-glob_and (derive g c) (derive h c) s ⨾ ×_iff (Lang-derive g c s n) (Lang-derive h c s n)
Lang-derive (star g) c s n =
    Lang-round g (derive g c) c s (λ u. Lang-derive g c u n) ⨾ swap_iff (Star-iff (Lang g) c s)
Lang-derive (plus g) c s n =
    Lang-round g (derive g c) c s (λ u. Lang-derive g c u n) ⨾ Lang-plus g c s
Lang-derive (at g) c s n = Lang-glob_at (derive g c) s ⨾ Lang-derive g c s n
Lang-derive (opt g) c s n = Lang-glob_at (derive g c) s ⨾ Lang-derive g c s n ⨾ drop_left (λ e. cc)
Lang-derive (seq g h) c s n =
    Lang-tail g h (derive g c) (derive h c) c s (λ u. Lang-derive g c u n) (Lang-derive h c s n)
Lang-derive (not_glob g) c s n = rw (copy_lem (derive g c)) (¬_iff (Lang-derive g c s n))
