-- ===== src/Report/Scanning.antt =====
-- Readers that go through a text byte by byte, as those of the reports of src/io/json.c and src/io/xml.c do.
use criterion.Common.{
  ℕ, Bool, true, All, ◌≡◌, refl, ap, ◌∙◌, Option, Option-cases, none, some, inl, inr, List, [], ◌∷◌,
  ◌++◌, Bytes,
}
use criterion.Report.Statistics.{concat}

module _ {S : Type 0} (step : S → ℕ → Option S) where
  unfoldable pub run : S → Bytes → Option S
  run s [] = some s
  run s (c ∷ text) = elim (step s c) [ none ↦ none | some s' ↦ run s' text ]

  -- The reader over a list of texts comes from one state to another.
  infixr 5 ◌then◌
  pub data Reading (goal : S) : S → List Bytes → Type 0 where
    done : Reading goal goal []
    ◌then◌ :
        {s s' : S} {text : Bytes} {texts : List Bytes}
        → run s text ≡ some s'
        → Reading goal s' texts
        → Reading goal s (text ∷ texts)

  -- The reader goes on where it has come to.
  abbrev pub go_on : Option S → Bytes → Option S
  go_on none t = none
  go_on (some s) t = run s t

  pub run-append : (s : S) (x y : Bytes) → run s (x ++ y) ≡ go_on (run s x) y
  unfolding run
  run-append s [] y = refl
  run-append s (c ∷ x) y = elim (Option-cases (step s c)) [
    | inl e ↦ rw (e, run) refl
    | inr (s', e) ↦ rw (e, run) (run-append s' x y)
  ]

  pub run-concat :
      {goal : S} {s : S} {texts : List Bytes}
      → Reading goal s texts
      → run s (concat texts) ≡ some goal
  unfolding run
  run-concat done = refl
  run-concat (◌then◌ {s} {s'} {text} {texts} e h) =
      run-append s text (concat texts) ∙ ap (λ r. go_on r (concat texts)) e ∙ run-concat h

  -- A text that leaves the reader where it is.
  pub run-stays :
      (s : S) (plain : ℕ → Bool)
      → ((c : ℕ) → plain c ≡ true → step s c ≡ some s)
      → (text : Bytes) → All (λ c. plain c ≡ true) text
      → run s text ≡ some s
  unfolding run
  run-stays s plain h [] k = refl
  run-stays s plain h (c ∷ text) k = rw (h c k.0, run) (run-stays s plain h text k.1)

infixr 5 ◌thence◌
pub ◌thence◌ :
    {S : Type 0} {step : S → ℕ → Option S} {goal goal' : S} {ys : List Bytes} {s : S}
    {xs : List Bytes}
    → Reading step goal s xs
    → Reading step goal' goal ys
    → Reading step goal' s (xs ++ ys)
done thence k = k
(e then h) thence k = e then (h thence k)
