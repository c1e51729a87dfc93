-- ===== src/Theories/Enumeration.antt =====
-- src/core/theories.c: the loop runs through all combinations, each once, and ends.
use criterion.Common.{ℕ, zero, suc, ◌+◌, ◌-◌, ◌*◌, ◌^◌, ◌≤◌, ◌<◌, ◌≡◌, refl, sym, ap, ◌∙◌, inl, inr}
use criterion.Common.{arith, true, false, not, Option, none, some, List, [], ◌∷◌, ◌++◌, Bytes, map}
use criterion.Common.{Bool, All, ◌≢◌, subst, codes, length, length-append, Bool-cases, ◌==◌}
use criterion.Theories.{
  next_indices, is_empty, last_index, Ending, theory_loop, go_on, cr_theory_main,
}
use criterion.Theories.{Message, Call, Run, out_of_bounds, ran, failed, end_messages, around}
use criterion.Client.State.{setup, main}
use criterion.Theories.{plain, remark, Remark, concat_args, round_messages}
use criterion.Stats.{u64}

-- `n` numbers from `i` on.
abbrev pub span : ℕ → ℕ → List ℕ
span i zero = []
span i (suc n) = i ∷ span (i + 1) n

-- Each index of the first array with each combination of the others, the first one fastest.
abbrev row : ℕ → ℕ → List ℕ → List (List ℕ)
row i n others = map (λ k. k ∷ others) (span i n)

abbrev pub rows : ℕ → List (List ℕ) → List (List ℕ)
rows len [] = []
rows len (others ∷ rest) = row 0 len others ++ rows len rest

-- All combinations of one index for each array.
abbrev pub combinations : List ℕ → List (List ℕ)
combinations [] = [] ∷ []
combinations (len ∷ lens) = rows len (combinations lens)

-- The combinations behind a given one.
abbrev after : List ℕ → List ℕ → List (List ℕ)
after (len ∷ lens) (i ∷ indices) =
    row (i + 1) (len - 1 - i) indices ++ rows len (after lens indices)
after _ _ = []

-- An array has a data point, and no more than an object can have.
abbrev pub IsLength : ℕ → Type 0
IsLength len = (0 < len) × (len < 2 ^ 64)

abbrev Below : List ℕ → List ℕ → Type 0
Below [] [] = Unit
Below (len ∷ lens) (i ∷ indices) = IsLength len × (i < len) × Below lens indices
Below _ _ = ⊥

-- The increment goes to the first of the combinations behind, or says that there is none.
abbrev Advances : List ℕ → List (List ℕ) → List ℕ × Bool → Type 0
Advances lens [] r = r.1 ≡ false
Advances lens (next ∷ rest) r = (r ≡ (next, true)) × (after lens next ≡ rest) × Below lens next

carry-Advances :
    (len : ℕ) (lens : List ℕ) (xs : List (List ℕ)) (r : List ℕ × Bool)
    → IsLength len
    → Advances lens xs r
    → Advances (len ∷ lens) (rows len xs) (0 ∷ r.0, r.1)
carry-Advances zero lens xs r l a = absurd (omega arith)
carry-Advances (suc len) lens [] r l a = a
carry-Advances (suc len) lens (next ∷ rest) r l (e, f, b) =
    let n : suc len - 1 - 0 ≡ len = omega arith in
    (ap (λ (x : List ℕ × Bool). (0 ∷ x.0, x.1)) e, rw (n, f) refl, (l, omega arith, b))

step-Advances :
    (len i : ℕ) (lens indices : List ℕ)
    → Below (len ∷ lens) (i ∷ indices)
    → i ≢ len - 1
    → Advances (len ∷ lens) (after (len ∷ lens) (i ∷ indices)) (u64 (i + 1) ∷ indices, true)
step-Advances len i lens indices (l, h, b) n =
    let here : len - 1 - i ≡ suc (len - 1 - (i + 1)) = omega arith in
    let small : u64 (i + 1) ≡ i + 1 = omega arith in
    rw (here, small) (refl, refl, (l, omega arith, b))

next_indices-Advances :
    (lens indices : List ℕ)
    → Below lens indices
    → Advances lens (after lens indices) (next_indices lens indices (not (is_empty lens)))
unfolding next_indices
next_indices-Advances [] [] b = refl
next_indices-Advances [] (i ∷ indices) b = elim b [ ]
next_indices-Advances (len ∷ lens) [] b = elim b [ ]
next_indices-Advances (len ∷ lens) (i ∷ indices) b = elim (Bool-cases (i == last_index len)) [
  | inl e ↦
      let none_left : len - 1 - i ≡ 0 = ground arith in
      rw (e, next_indices, none_left)
        (carry-Advances len lens (after lens indices)
          (next_indices lens indices (not (is_empty lens))) b.0
          (next_indices-Advances lens indices b.2))
  | inr e ↦ rw (e, next_indices) (step-Advances len i lens indices b (ground arith))
]

abbrev pub zeros : List ℕ → List ℕ
zeros lens = map (λ _. 0) lens

abbrev pub AreLengths : List ℕ → Type 0
AreLengths lens = All IsLength lens

zeros-Below : (lens : List ℕ) → AreLengths lens → Below lens (zeros lens)
zeros-Below [] h = tt
zeros-Below (len ∷ lens) h = (h.0, h.0.0, zeros-Below lens h.1)

-- The first combination is all zeros, and those behind it are the others.
combinations-zeros :
    (lens : List ℕ) → AreLengths lens → combinations lens ≡ zeros lens ∷ after lens (zeros lens)
combinations-zeros [] h = refl
combinations-zeros (zero ∷ lens) h = absurd (omega arith)
combinations-zeros (suc len ∷ lens) h =
    let n : suc len - 1 - 0 ≡ len = omega arith in rw (combinations-zeros lens h.1, n) refl

module _ (call : List ℕ → Call) (format_arg : ℕ → ℕ → Bytes) (len : ℕ) (lens : List ℕ) where
  -- With enough fuel, the loop runs what is left from a combination on.
  abbrev RunsOut : List (List ℕ) → Option Run → Type 0
  RunsOut plan none = ⊥
  RunsOut plan (some out_of_bounds) = ⊥
  RunsOut plan (some (ran runs messages)) = runs ≡ plan

  RunsOut-ran :
      (plan : List (List ℕ)) (r : Option Run)
      → RunsOut plan r
      → (messages : List Message) × (r ≡ some (ran plan messages))
  RunsOut-ran plan none h = absurd h
  RunsOut-ran plan (some out_of_bounds) h = absurd h
  RunsOut-ran plan (some (ran runs messages)) h = (messages, ap (λ x. some (ran x messages)) h)

  concat_args-some :
      (i index : ℕ) (indices : List ℕ)
      → (text : Bytes) × (concat_args format_arg i (index ∷ indices) ≡ some text)
  unfolding concat_args
  concat_args-some i index [] = (format_arg i index, refl)
  concat_args-some i index (next ∷ indices) =
      let (text, e) = concat_args-some (i + 1) next indices in
      (format_arg i index ++ codes ", " ++ text, rw (e, concat_args) refl)

  end_messages-some :
      (ending : Ending) (text : Bytes) (round : ℕ)
      → (ends : List Message) × (end_messages ending (some text) round ≡ some ends)
  end_messages-some failed text round = (_, refl)
  end_messages-some Ending.returned text round = (_, refl)
  end_messages-some Ending.assumed text round = (_, refl)

  round_messages-some :
      (c : Call) (index : ℕ) (indices : List ℕ) (round : ℕ)
      → (sent : List Message) × (round_messages c (concat_args format_arg 0 (index ∷ indices)) round
          ≡ some sent)
  unfolding round_messages
  round_messages-some c index indices round =
      let (text, e) = concat_args-some 0 index indices in
      let (ends, f) = end_messages-some c.ending text round in
      (plain setup round ∷ plain main round ∷ (map remark c.said ++ ends), rw (e, f) refl)

  abbrev loop_from : ℕ → List ℕ → ℕ → Option Run
  loop_from = theory_loop call format_arg (len ∷ lens)

  go_on-RunsOut :
      (indices : List ℕ) (sent : List Message) (plan : List (List ℕ)) (rest : Option Run)
      → RunsOut plan rest
      → RunsOut (indices ∷ plan) (go_on true indices (some sent) rest)
  unfolding go_on
  go_on-RunsOut indices sent plan none h = h
  go_on-RunsOut indices sent plan (some out_of_bounds) h = h
  go_on-RunsOut indices sent plan (some (ran runs messages)) h = ap (◌∷◌ indices) h

  round-RunsOut :
      (indices : List ℕ) (sent : List Message) (rest : List ℕ → Option Run) (xs : List (List ℕ))
      (r : List ℕ × Bool)
      → Advances (len ∷ lens) xs r
      → ((next : List ℕ)
          → Below (len ∷ lens) next
          → length (after (len ∷ lens) next) < length xs
          → RunsOut (next ∷ after (len ∷ lens) next) (rest next))
      → RunsOut (indices ∷ xs) (go_on r.1 indices (some sent) (rest r.0))
  unfolding go_on
  round-RunsOut indices sent rest [] r a ih =
      subst (λ more. RunsOut (indices ∷ []) (go_on more indices (some sent) (rest r.0))) (sym a)
        refl
  round-RunsOut indices sent rest (next ∷ others) r (e, f, b) ih =
      subst
        (λ (r : List ℕ × Bool).
          RunsOut (indices ∷ next ∷ others) (go_on r.1 indices (some sent) (rest r.0)))
        (sym e)
        (go_on-RunsOut indices sent (next ∷ others) (rest next) (
          subst (λ xs. RunsOut (next ∷ xs) (rest next)) f (ih next b (omega (arith, ap length f)))))

  theory_loop-RunsOut :
      (fuel : ℕ) (indices : List ℕ) (round : ℕ)
      → Below (len ∷ lens) indices
      → length (after (len ∷ lens) indices) < fuel
      → RunsOut (indices ∷ after (len ∷ lens) indices) (loop_from fuel indices round)
  unfolding theory_loop
  theory_loop-RunsOut zero indices round b h = absurd (omega arith)
  theory_loop-RunsOut (suc fuel) [] round b h = absurd b
  theory_loop-RunsOut (suc fuel) (i ∷ indices) round b h =
      let here = i ∷ indices in
      let (sent, e) = round_messages-some (call here) i indices round in
      let next = next_indices (len ∷ lens) here true in
      subst
        (λ sent.
          RunsOut (here ∷ after (len ∷ lens) here)
            (go_on next.1 here sent (loop_from fuel next.0 (round + 1))))
        (sym e)
        (round-RunsOut here sent (λ next. loop_from fuel next (round + 1)) (after (len ∷ lens) here)
          next (next_indices-Advances (len ∷ lens) here b)
          λ next v k. theory_loop-RunsOut fuel next (round + 1) v (omega arith))

-- How many combinations there are.
abbrev pub product : List ℕ → ℕ
product [] = 1
product (len ∷ lens) = len * product lens

length-row : (i n : ℕ) (others : List ℕ) → length (row i n others) ≡ n
length-row i zero others = refl
length-row i (suc n) others = omega (arith, length-row (i + 1) n others)

length-rows : (len : ℕ) (xs : List (List ℕ)) → length (rows len xs) ≡ len * length xs
length-rows len [] = omega arith
length-rows len (x ∷ xs) =
    grind (arith, length-append (row 0 len x) (rows len xs), length-row 0 len x, length-rows len xs)

length-combinations : (lens : List ℕ) → length (combinations lens) ≡ product lens
length-combinations [] = refl
length-combinations (len ∷ lens) =
    length-rows len (combinations lens) ∙ ap (λ n. len * n) (length-combinations lens)

-- A theory of at least one array of data points, none of them empty, ends, once it has run on
-- every combination of data points, each once, the first index fastest. As many rounds are enough
-- as there are combinations.
pub cr_theory_main-combinations :
    (call : List ℕ → Call) (format_arg : ℕ → ℕ → Bytes) (len : ℕ) (lens : List ℕ) (fuel : ℕ)
    → AreLengths (len ∷ lens)
    → product (len ∷ lens) ≤ fuel
    → (messages : List Message) × (cr_theory_main call format_arg (len ∷ lens) fuel
        ≡ some (ran (combinations (len ∷ lens)) messages))
unfolding cr_theory_main
cr_theory_main-combinations call format_arg len lens fuel h k =
    let first = combinations-zeros (len ∷ lens) h in
    let runs =
      theory_loop-RunsOut call format_arg len lens fuel (zeros (len ∷ lens)) 1
        (zeros-Below (len ∷ lens) h)
        (omega (arith, length-combinations (len ∷ lens), ap length first)) in
    let (messages, e) = RunsOut-ran call format_arg len lens _ _ runs in
    (messages, e ∙ ap (λ x. some (ran x messages)) (sym first))

theory_loop-endless :
    (call : List ℕ → Call) (format_arg : ℕ → ℕ → Bytes) (fuel round : ℕ)
    → ((round : ℕ) → (sent : List Message) × (round_messages (call []) none round ≡ some sent))
    → theory_loop call format_arg [] fuel [] round ≡ none
unfolding theory_loop
theory_loop-endless call format_arg zero round sends = refl
theory_loop-endless call format_arg (suc fuel) round sends =
    let (sent, e) = sends round in
    rw (e, theory_loop-endless call format_arg fuel (round + 1) sends, go_on) refl

not_failed-sends :
    (said : List Remark) (ending : Ending)
    → ending ≢ failed
    → (round : ℕ)
    → (sent : List Message) × (around said round (end_messages ending none round) ≡ some sent)
not_failed-sends said failed n round = absurd (n refl)
not_failed-sends said Ending.returned n round = (_, refl)
not_failed-sends said Ending.assumed n round = (_, refl)

-- A theory without any array of data points, whose function does not fail, never ends: no number of
-- rounds is enough.
pub cr_theory_main-endless :
    (call : List ℕ → Call) (format_arg : ℕ → ℕ → Bytes) (fuel : ℕ)
    → (call []).ending ≢ failed
    → cr_theory_main call format_arg [] fuel ≡ none
unfolding cr_theory_main round_messages
cr_theory_main-endless call format_arg fuel n =
    theory_loop-endless call format_arg fuel 1 (not_failed-sends (call []).said (call []).ending n)
