-- ===== src/Report/PlainLines.antt =====
-- src/io/json.c and src/io/xml.c: the lines of a message, of bytes that may stand in the report.
use criterion.Common.{
  ℕ, zero, suc, ◌+◌, ◌/◌, ◌%◌, Bool, ◌≡◌, subst, true, ◌||◌, Bool-cases, Option-cases, inl, inr,
}
use criterion.Common.{Option, none, some, [], ◌∷◌, ◌++◌, Bytes, All, ◌==◌}
use criterion.Options.Tokens.{cut, skip, strtok_r, tokens}
use criterion.Output.{basename_from}
use criterion.Path.{decimal, is_separator}
use criterion.Report.Statistics.{Printing, file_name}

module _ (plain : ℕ → Bool) where
  abbrev Plain : Bytes → Type 0
  Plain s = All (λ c. plain c ≡ true) s

  -- Such bytes, and line breaks.
  abbrev pub PlainLines : Bytes → Type 0
  PlainLines s = All (λ c. (c == 10 || plain c) ≡ true) s

  cut-PlainLines : (s : Bytes) → PlainLines s → Plain (cut 10 s).0 × PlainLines (cut 10 s).1
  unfolding cut
  cut-PlainLines [] h = (tt, tt)
  cut-PlainLines (c ∷ s) h = elim (Bool-cases (c == 10)) [
    | inl e ↦ rw (e, cut) (tt, h.1)
    | inr e ↦ rw (e, cut) ((rw e at (h.0), (cut-PlainLines s h.1).0), (cut-PlainLines s h.1).1)
  ]

  skip-PlainLines : (s : Bytes) → PlainLines s → PlainLines (skip 10 s).1
  unfolding skip
  skip-PlainLines [] h = tt
  skip-PlainLines (c ∷ s) h = elim (Bool-cases (c == 10)) [
    | inl e ↦ rw (e, skip) (skip-PlainLines s h.1)
    | inr e ↦ rw (e, skip) h
  ]

  -- What strtok_r finds in such lines.
  abbrev Found : Option (Bytes × Bytes) → Type 0
  Found none = Unit
  Found (some (token, rest)) = Plain token × PlainLines rest

  strtok_r-Found : (s : Bytes) → PlainLines s → Found (strtok_r 10 s)
  unfolding strtok_r
  strtok_r-Found s h = from (skip 10 s).1 (skip-PlainLines s h)
    where
      from :
          (r : Bytes)
          → PlainLines r
          → Found (elim r [ [] ↦ none | c ∷ rest ↦ some (cut 10 (c ∷ rest)) ])
      from [] k = tt
      from (c ∷ r) k = cut-PlainLines (c ∷ r) k

  pub found-Plain :
      (s t rest : Bytes) → PlainLines s → strtok_r 10 s ≡ some (t, rest) → Plain t × PlainLines rest
  found-Plain s t rest h e = subst Found e (strtok_r-Found s h)

  pub tokens-Plain : (fuel : ℕ) (s : Bytes) → PlainLines s → All Plain (tokens 10 fuel s)
  unfolding tokens
  tokens-Plain zero s h = tt
  tokens-Plain (suc fuel) s h = elim (Option-cases (strtok_r 10 s)) [
    | inl e ↦ rw (e, tokens) tt
    | inr ((t, rest), e) ↦
        let found = found-Plain s t rest h e in
        rw (e, tokens) (found.0, tokens-Plain fuel rest found.1)
  ]

  basename_from-Plain :
      (start str : Bytes) → Plain start → Plain str → Plain (basename_from start str)
  unfolding basename_from
  basename_from-Plain start [] h k = h
  basename_from-Plain start (c ∷ []) h k = h
  basename_from-Plain start (c ∷ d ∷ str) h k = elim (Bool-cases (is_separator c)) [
    | inl e ↦ rw (e, basename_from) (basename_from-Plain (d ∷ str) (d ∷ str) k.1 k.1)
    | inr e ↦ rw (e, basename_from) (basename_from-Plain start (d ∷ str) h k.1)
  ]

  pub file_name-Plain : (o : Printing) (file : Bytes) → Plain file → Plain (file_name o file)
  file_name-Plain o file h = elim (Bool-cases o.short_filename) [
    | inl e ↦ rw e (basename_from-Plain file file h h)
    | inr e ↦ rw e h
  ]

  Plain-append : (s t : Bytes) → Plain s → Plain t → Plain (s ++ t)
  Plain-append [] t h k = k
  Plain-append (c ∷ s) t h k = (h.0, Plain-append s t h.1 k)

  pub Plain-decimal :
      ((n : ℕ) → plain (b'0' + n % 10) ≡ true) → (digits n : ℕ) → Plain (decimal digits n)
  unfolding decimal
  Plain-decimal d zero n = tt
  Plain-decimal d (suc digits) n = elim (Bool-cases (n / 10 == 0)) [
    | inl e ↦ rw (e, decimal) (d n, tt)
    | inr e ↦ rw (e, decimal) (Plain-append _ _ (Plain-decimal d digits (n / 10)) (d n, tt))
  ]
