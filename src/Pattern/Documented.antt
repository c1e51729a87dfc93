-- ===== src/Pattern/Documented.antt =====
-- doc/env.rst, the table of patterns: the texts that a pattern stands for by the documentation,
-- and the patterns for which src/string/extglobmatch.c has the same ones.
use criterion.Common.{ℕ, ◌≡◌, ◌⊎◌, inl, inr, ◌↔◌, ◌⨾◌, true, false, [], ◌∷◌, Bytes, ◌==◌}
use criterion.Common.{iff_refl, ⊎_iff, ×_iff, ¬_iff}
use criterion.Glob.{accepts}
use criterion.Glob.Language.{Language, Cat}
use criterion.Glob.Texts.{Cat_iff}
use criterion.Pattern.{Op, negate, many, some_of, one_of, maybe}
use criterion.Pattern.Syntax.{
  Piece, literal, class, anything, group, Pattern, one, cat, Patterns, only, either,
}
use criterion.Pattern.Syntax.{Applied, PieceLang, PatternLang, PatternsLang}
use criterion.Pattern.Meaning.{Applied_iff}

-- A class is read as the code reads it. An operator is applied to its list of patterns as a whole:
-- to the texts of any of them.
unfoldable mutual
  pub DocumentedPiece : Piece → Language
  DocumentedPiece (literal c) s = s ≡ c ∷ []
  DocumentedPiece (class cset) s = (x : ℕ) × (s ≡ x ∷ []) × (accepts cset x ≡ true)
  DocumentedPiece anything s = Unit
  DocumentedPiece (group op ps) s = Applied op (AnyOf ps) s

  pub Documented : Pattern → Language
  Documented (one x) s = DocumentedPiece x s
  Documented (cat x p) s = Cat (DocumentedPiece x) (Documented p) s

  pub AnyOf : Patterns → Language
  AnyOf (only p) s = Documented p s
  AnyOf (either p ps) s = Documented p s ⊎ AnyOf ps s

-- The compiler repeats each pattern of a list for itself, so a list that is repeated has one.
abbrev pub Repeats : Op → Patterns → Type 0
Repeats many (either p ps) = ⊥
Repeats some_of (either p ps) = ⊥
Repeats _ _ = Unit

-- The other difference are a literal asterisk and question mark, which stay wildcards.
unfoldable mutual
  pub AgreesPiece : Piece → Type 0
  AgreesPiece (literal c) = ((c == b'*') ≡ false) × ((c == b'?') ≡ false)
  AgreesPiece (class cset) = Unit
  AgreesPiece anything = Unit
  AgreesPiece (group op ps) = Repeats op ps × AgreesPatterns ps

  pub Agrees : Pattern → Type 0
  Agrees (one x) = AgreesPiece x
  Agrees (cat x p) = AgreesPiece x × Agrees p

  pub AgreesPatterns : Patterns → Type 0
  AgreesPatterns (only p) = Agrees p
  AgreesPatterns (either p ps) = Agrees p × AgreesPatterns ps

not_either : (P Q : Type 0) → ((¬ P) × (¬ Q)) ↔ (¬ (P ⊎ Q))
not_either P Q =
    (λ (f, g) x. elim x [ inl p ↦ f p | inr q ↦ g q ], λ f. ((λ p. f (inl p)), λ q. f (inr q)))

maybe_either : (E P Q : Type 0) → ((E ⊎ P) ⊎ (E ⊎ Q)) ↔ (E ⊎ (P ⊎ Q))
maybe_either E P Q = (
  λ x. elim x [
    | inl y ↦ elim y [ inl e ↦ inl e | inr p ↦ inr (inl p) ]
    | inr y ↦ elim y [ inl e ↦ inl e | inr q ↦ inr (inr q) ]
  ],
  λ x. elim x [
    | inl e ↦ inl (inl e)
    | inr y ↦ elim y [ inl p ↦ inl (inr p) | inr q ↦ inr (inr q) ]
  ],
)

mutual
  unfolding DocumentedPiece AgreesPiece PieceLang

  piece_iff : (x : Piece) (s : Bytes) → AgreesPiece x → PieceLang x s ↔ DocumentedPiece x s
  piece_iff (literal c) s (a, q) = rw (a, q) (iff_refl _)
  piece_iff (class cset) s a = iff_refl _
  piece_iff anything s a = iff_refl _
  piece_iff (group op ps) s (r, a) = patterns_iff op ps s r a

  pub Documented_iff : (p : Pattern) (s : Bytes) → Agrees p → PatternLang p s ↔ Documented p s
  Documented_iff (one x) s a = piece_iff x s a
  Documented_iff (cat x p) s (a, b) = Cat_iff s (λ u. piece_iff x u a) (λ u. Documented_iff p u b)

  patterns_iff :
      (op : Op) (ps : Patterns) (s : Bytes)
      → Repeats op ps
      → AgreesPatterns ps
      → PatternsLang op ps s ↔ Applied op (AnyOf ps) s
  patterns_iff op (only p) s r a = Applied_iff op (λ u. Documented_iff p u a) s
  patterns_iff negate (either p ps) s r (a, b) =
      ×_iff (¬_iff (Documented_iff p s a)) (patterns_iff negate ps s tt b) ⨾ not_either _ _
  patterns_iff many (either p ps) s r (a, b) = absurd r
  patterns_iff some_of (either p ps) s r (a, b) = absurd r
  patterns_iff one_of (either p ps) s r (a, b) =
      ⊎_iff (Documented_iff p s a) (patterns_iff one_of ps s tt b)
  patterns_iff maybe (either p ps) s r (a, b) =
      ⊎_iff (⊎_iff (iff_refl _) (Documented_iff p s a)) (patterns_iff maybe ps s tt b)
      ⨾ maybe_either _ _ _
