-- ===== src/Report/Reading.antt =====
-- What the reader of Report.Lines gets from texts that are whole lines.
use mathlib.Core.List.{append_assoc}
use criterion.Common.{
  ℕ, zero, suc, ◌/◌, ◌≡◌, refl, sym, ap, ◌∙◌, arith, Bool, Bool-cases, Option-cases, subst, inl,
  inr,
}
use criterion.Common.{Option, none, some, List, [], ◌∷◌, ◌++◌, Bytes, All, ◌==◌, if◌then◌else◌}
use criterion.Options.Tokens.{cut, skip, strtok_r, tokens}
use criterion.Options.Written.{NoByte}
use criterion.Output.{basename_from, basename_compat}
use criterion.Path.{decimal, is_separator}
use criterion.Report.Statistics.{line, concat}
use criterion.Report.Tap.{Printed, ◌then_print◌, print}
use criterion.Report.Lines.{lines, verdict, all_verdicts}

-- One line: no line break in it.
abbrev pub OneLine : Bytes → Type 0
OneLine s = NoByte 10 s

pub OneLine-append : (s t : Bytes) → OneLine s → OneLine t → OneLine (s ++ t)
OneLine-append [] t h k = k
OneLine-append (c ∷ s) t h k = (h.0, OneLine-append s t h.1 k)

pub OneLine-decimal : (digits n : ℕ) → OneLine (decimal digits n)
unfolding decimal
OneLine-decimal zero n = tt
OneLine-decimal (suc digits) n = elim (Bool-cases (n / 10 == 0)) [
  | inl e ↦ rw (e, decimal) (ground arith, tt)
  | inr e ↦
      rw (e, decimal) (OneLine-append _ _ (OneLine-decimal digits (n / 10)) (ground arith, tt))
]

OneLine-basename_from :
    (start str : Bytes) → OneLine start → OneLine str → OneLine (basename_from start str)
unfolding basename_from
OneLine-basename_from start [] h k = h
OneLine-basename_from start (c ∷ []) h k = h
OneLine-basename_from start (c ∷ d ∷ str) h k = elim (Bool-cases (is_separator c)) [
  | inl e ↦ rw (e, basename_from) (OneLine-basename_from (d ∷ str) (d ∷ str) k.1 k.1)
  | inr e ↦ rw (e, basename_from) (OneLine-basename_from start (d ∷ str) h k.1)
]

pub OneLine-basename_compat : (str : Bytes) → OneLine str → OneLine (basename_compat str)
OneLine-basename_compat str h = OneLine-basename_from str str h h

lines-line : (l rest : Bytes) → OneLine l → lines (l ++ 10 ∷ rest) ≡ l ∷ lines rest
lines-line [] rest h = refl
lines-line (c ∷ l) rest h = rw (h.0, lines-line l rest h.1) refl

OneLine-concat : (pieces : List Bytes) → All OneLine pieces → OneLine (concat pieces)
OneLine-concat [] h = tt
OneLine-concat (s ∷ ss) h = OneLine-append s (concat ss) h.0 (OneLine-concat ss h.1)

concat-append : (xs ys : List Bytes) → concat (xs ++ ys) ≡ concat xs ++ concat ys
concat-append [] ys = refl
concat-append (x ∷ xs) ys =
    ap (λ s. x ++ s) (concat-append xs ys) ∙ sym (append_assoc x (concat xs) (concat ys))

-- Texts that say the verdicts `vs`, whatever comes behind them.
abbrev pub Says : List Bytes → List Bool → Type 0
Says texts vs =
    (rest : Bytes) → all_verdicts (lines (concat texts ++ rest)) ≡ vs ++ all_verdicts (lines rest)

pub Says-append :
    (xs ys : List Bytes) (vs ws : List Bool) → Says xs vs → Says ys ws → Says (xs ++ ys) (vs ++ ws)
Says-append xs ys vs ws h k rest =
    ap (λ s. all_verdicts (lines (s ++ rest))) (concat-append xs ys)
    ∙ ap (λ s. all_verdicts (lines s)) (append_assoc (concat xs) (concat ys) rest)
    ∙ h (concat ys ++ rest)
    ∙ ap (λ v. vs ++ v) (k rest)
    ∙ sym (append_assoc vs ws (all_verdicts (lines rest)))

pub Says-line :
    (pieces : List Bytes) → All OneLine pieces → Says (line pieces ∷ []) (verdict (concat pieces))
unfolding line
Says-line pieces h rest =
    let l = concat pieces in
    ap (λ s. all_verdicts (lines s))
      (append_assoc (l ++ 10 ∷ []) [] rest ∙ append_assoc l (10 ∷ []) rest)
    ∙ ap all_verdicts (lines-line l rest (OneLine-concat pieces h))

-- A report that is printed, with the verdicts in it.
abbrev pub Prints : Printed → List Bool → Type 0
Prints p vs = (texts : List Bytes) × (p ≡ some texts) × Says texts vs

pub Prints-then :
    (p q : Printed) (vs ws : List Bool)
    → Prints p vs
    → Prints q ws
    → Prints (p then_print q) (vs ++ ws)
Prints-then p q vs ws (xs, e, h) (ys, f, k) =
    (xs ++ ys, rw (e, f) refl, Says-append xs ys vs ws h k)

pub Prints-line :
    (pieces : List Bytes) → All OneLine pieces → Prints (print pieces) (verdict (concat pieces))
Prints-line pieces h = (line pieces ∷ [], refl, Says-line pieces h)

OneLine-cut : (s : Bytes) → OneLine (cut 10 s).0
unfolding cut
OneLine-cut [] = tt
OneLine-cut (c ∷ s) = elim (Bool-cases (c == 10)) [
  | inl e ↦ rw (e, cut) tt
  | inr e ↦ rw (e, cut) (e, OneLine-cut s)
]

-- A text with something else in it than line breaks.
abbrev pub HasText : Bytes → Type 0
HasText [] = ⊥
HasText (c ∷ s) = if c == 10 then HasText s else Unit {0}

token_of : Option (Bytes × Bytes) → Bytes
token_of none = []
token_of (some (t, rest)) = t

strtok_r-OneLine : (s : Bytes) → OneLine (token_of (strtok_r 10 s))
unfolding strtok_r token_of
strtok_r-OneLine s = from (skip 10 s).1
  where
    from :
        (r : Bytes)
        → OneLine (token_of (elim r [ [] ↦ none | c ∷ rest ↦ some (cut 10 (c ∷ rest)) ]))
    from [] = tt
    from (c ∷ r) = OneLine-cut (c ∷ r)

found-OneLine : (s t rest : Bytes) → strtok_r 10 s ≡ some (t, rest) → OneLine t
unfolding token_of
found-OneLine s t rest e = subst OneLine (ap token_of e) (strtok_r-OneLine s)

strtok_r-found :
    (s : Bytes) → HasText s → (t : Bytes) × (rest : Bytes) × (strtok_r 10 s ≡ some (t, rest))
unfolding strtok_r
strtok_r-found [] h = absurd h
strtok_r-found (c ∷ s) h = elim (Bool-cases (c == 10)) [
  | inl e ↦ rw (e, strtok_r) (strtok_r-found s (rw e at h))
  | inr e ↦ rw (e, strtok_r) (_, _, refl)
]

-- A text with something in it has a first line.
pub strtok_r-HasText :
    (s : Bytes)
    → HasText s
    → (t : Bytes) × (rest : Bytes) × (strtok_r 10 s ≡ some (t, rest)) × OneLine t
strtok_r-HasText s h =
    let (t, rest, e) = strtok_r-found s h in (t, rest, e, found-OneLine s t rest e)

pub tokens-OneLine : (fuel : ℕ) (s : Bytes) → All OneLine (tokens 10 fuel s)
unfolding tokens
tokens-OneLine zero s = tt
tokens-OneLine (suc fuel) s = elim (Option-cases (strtok_r 10 s)) [
  | inl e ↦ rw (e, tokens) tt
  | inr ((t, rest), e) ↦ rw (e, tokens) (found-OneLine s t rest e, tokens-OneLine fuel rest)
]
