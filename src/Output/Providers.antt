-- ===== src/Output/Providers.antt =====
-- src/io/output.c: which outputs the reports at the end are written to.
use mathlib.Core.List.{append_assoc, append-nil}
use criterion.Common.{ℕ, zero, suc, ◌≤◌, ◌≡◌, refl, sym, ap, ◌∙◌, subst, inl, inr, arith}
use criterion.Common.{Bool, true, false, Bool-cases, some, List, [], ◌∷◌, ◌++◌}
use criterion.Common.{Bytes, bytes_eq, bytes_eq_iff, if◌then◌else◌, if_cases}
use criterion.Output.{Table, put, get, Outputs, criterion_register_output_provider}
use criterion.Output.{criterion_add_output, paths_or_none, Done, write_outputs}
use criterion.Output.{process_reporters, process_all_output}

-- What a program may call before the reports are written.
pub data Call : Type 0 where
  register : Bytes → ℕ → Call
  add : Bytes → Bytes → Call

abbrev call : Call → Outputs → Outputs
call (register name reporter) o = criterion_register_output_provider name reporter o
call (add provider path) o = criterion_add_output provider path o

-- The tables after calls, from tables that are null.
abbrev pub calls : List Call → Outputs → Outputs
calls [] o = o
calls (c ∷ cs) o = calls cs (call c o)

abbrev pub no_outputs : Outputs
no_outputs = record { reporters = []; outputs = [] }

-- Whether a call registers a provider, and the paths that calls add for it.
abbrev pub is_registered : Bytes → List Call → Bool
is_registered p [] = false
is_registered p (register name reporter ∷ cs) = if bytes_eq name p then true else is_registered p cs
is_registered p (add provider path ∷ cs) = is_registered p cs

abbrev pub added : Bytes → List Call → List Bytes
added p [] = []
added p (register name reporter ∷ cs) = added p cs
added p (add provider path ∷ cs) = if bytes_eq provider p then path ∷ added p cs else added p cs

-- The paths that have been dealt with for a provider.
abbrev pub paths_for : Bytes → List Done → List Bytes
paths_for p [] = []
paths_for p (d ∷ done) =
    if bytes_eq d.provider p then d.path ∷ paths_for p done else paths_for p done

paths_for-append :
    (p : Bytes) (xs ys : List Done) → paths_for p (xs ++ ys) ≡ paths_for p xs ++ paths_for p ys
paths_for-append p [] ys = refl
paths_for-append p (d ∷ xs) ys = elim (Bool-cases (bytes_eq d.provider p)) [
  | inl e ↦ rw (e, paths_for-append p xs ys) refl
  | inr e ↦ rw (e, paths_for-append p xs ys) refl
]

-- How often a name is a key.
abbrev times : {A : Type 0} → Bytes → Table A → ℕ
times p [] = 0
times p ((key, a) ∷ table) = if bytes_eq key p then suc (times p table) else times p table

same_name : (p : Bytes) → bytes_eq p p ≡ true
same_name p = (bytes_eq_iff p p).1 refl

get-put : {A : Type 0} (p : Bytes) (a : A) (table : Table A) → get p (put p a table) ≡ some a
unfolding get put
get-put p a [] = rw (same_name p) refl
get-put p a ((key, b) ∷ table) = elim (Bool-cases (bytes_eq key p)) [
  | inl e ↦ rw (e, e) refl
  | inr e ↦ rw (e, e) (get-put p a table)
]

other_name :
    (key k p : Bytes) → bytes_eq k p ≡ false → bytes_eq key k ≡ true → bytes_eq key p ≡ false
other_name key k p n e = subst (λ x. bytes_eq x p ≡ false) (sym ((bytes_eq_iff key k).0 e)) n

get-put_other :
    {A : Type 0} (k p : Bytes) (a : A) (table : Table A)
    → bytes_eq k p ≡ false
    → get p (put k a table) ≡ get p table
unfolding get put
get-put_other k p a [] n = rw n refl
get-put_other k p a ((key, b) ∷ table) n = elim (Bool-cases (bytes_eq key k)) [
  | inl e ↦ rw (e, other_name key k p n e) refl
  | inr e ↦ rw (e, get-put_other k p a table n) refl
]

times-put :
    {A : Type 0} (p : Bytes) (a : A) (table : Table A)
    → times p table ≤ 1
    → times p (put p a table) ≡ 1
unfolding put
times-put p a [] h = rw (same_name p) refl
times-put p a ((key, b) ∷ table) h = elim (Bool-cases (bytes_eq key p)) [
  | inl e ↦ let z : times p table ≡ 0 = ground arith in rw (e, e, z) refl
  | inr e ↦ let z : times p table ≤ 1 = ground arith in rw (e, e) (times-put p a table z)
]

times-put_other :
    {A : Type 0} (k p : Bytes) (a : A) (table : Table A)
    → bytes_eq k p ≡ false
    → times p (put k a table) ≡ times p table
unfolding put
times-put_other k p a [] n = rw n refl
times-put_other k p a ((key, b) ∷ table) n = elim (Bool-cases (bytes_eq key k)) [
  | inl e ↦ rw (e, other_name key k p n e) refl
  | inr e ↦ rw (e, times-put_other k p a table n) refl
]

calls-times :
    (p : Bytes) (cs : List Call) (o : Outputs)
    → times p o.reporters ≤ 1
    → times p (calls cs o).reporters ≡ (if is_registered p cs then 1 else times p o.reporters)
unfolding criterion_register_output_provider criterion_add_output
calls-times p [] o h = refl
calls-times p (add provider path ∷ cs) o h = calls-times p cs (call (add provider path) o) h
calls-times p (register name reporter ∷ cs) o h = elim (Bool-cases (bytes_eq name p)) [
  | inl e ↦
      let k : times p (put name reporter o.reporters) ≡ 1 =
        subst (λ x. times p (put x reporter o.reporters) ≡ 1) (sym ((bytes_eq_iff name p).0 e))
          (times-put p reporter o.reporters h) in
      rw e (
        calls-times p cs (call (register name reporter) o) (omega arith)
        ∙ if_cases (λ n. n ≡ 1) (is_registered p cs) (λ _. refl) (λ _. k))
  | inr e ↦
      let k = times-put_other name p reporter o.reporters e in
      rw e (
        calls-times p cs (call (register name reporter) o) (omega arith)
        ∙ ap (λ n. if is_registered p cs then 1 else n) k)
]

calls-added :
    (p : Bytes) (cs : List Call) (o : Outputs)
    → paths_or_none (get p (calls cs o).outputs) ≡ paths_or_none (get p o.outputs) ++ added p cs
unfolding criterion_register_output_provider criterion_add_output
calls-added p [] o = sym (append-nil (paths_or_none (get p o.outputs)))
calls-added p (register name reporter ∷ cs) o = calls-added p cs (call (register name reporter) o)
calls-added p (add provider path ∷ cs) o = elim (Bool-cases (bytes_eq provider p)) [
  | inl e ↦
      let old = paths_or_none (get p o.outputs) in
      let k : paths_or_none (get p (call (add provider path) o).outputs) ≡ old ++ path ∷ [] =
        subst (λ x. paths_or_none (get p (call (add x path) o).outputs) ≡ old ++ path ∷ [])
          (sym ((bytes_eq_iff provider p).0 e))
          (ap paths_or_none (get-put p (old ++ path ∷ []) o.outputs)) in
      rw e (
        calls-added p cs (call (add provider path) o)
        ∙ ap (λ x. x ++ added p cs) k
        ∙ append_assoc old (path ∷ []) (added p cs))
  | inr e ↦ rw e (
      calls-added p cs (call (add provider path) o)
      ∙ ap (λ x. paths_or_none x ++ added p cs) (get-put_other provider p _ o.outputs e))
]

module _ (is_directory exists opens : Bytes → Bool) (executable_name : Bytes) (fuel : ℕ) where
  paths_for-own :
      (p name : Bytes) (reporter : ℕ) (paths created : List Bytes)
      → bytes_eq name p ≡ true
      → paths_for p
          (write_outputs is_directory exists opens executable_name fuel name reporter paths
            created).0
        ≡ paths
  unfolding write_outputs
  paths_for-own p name reporter [] created e = refl
  paths_for-own p name reporter (path ∷ paths) created e =
      rw e (ap (◌∷◌ path) (paths_for-own p name reporter paths _ e))

  paths_for-other :
      (p name : Bytes) (reporter : ℕ) (paths created : List Bytes)
      → bytes_eq name p ≡ false
      → paths_for p
          (write_outputs is_directory exists opens executable_name fuel name reporter paths
            created).0
        ≡ []
  unfolding write_outputs
  paths_for-other p name reporter [] created e = refl
  paths_for-other p name reporter (path ∷ paths) created e =
      rw e (paths_for-other p name reporter paths _ e)

  abbrev copies : ℕ → List Bytes → List Bytes
  copies zero xs = []
  copies (suc n) xs = xs ++ copies n xs

  one_copy : (b : Bool) (xs : List Bytes) → copies (if b then 1 else 0) xs ≡ (if b then xs else [])
  one_copy true xs = append-nil xs
  one_copy false xs = refl

  paths_for-process_reporters :
      (p : Bytes) (reporters : Table ℕ) (outputs : Table (List Bytes)) (created : List Bytes)
      → paths_for p (
          process_reporters is_directory exists opens executable_name fuel reporters outputs
            created)
        ≡ copies (times p reporters) (paths_or_none (get p outputs))
  unfolding process_reporters
  paths_for-process_reporters p [] outputs created = refl
  paths_for-process_reporters p ((name, reporter) ∷ reporters) outputs created =
      let paths = paths_or_none (get name outputs) in
      let (done, created') =
        write_outputs is_directory exists opens executable_name fuel name reporter paths created in
      let behind =
        process_reporters is_directory exists opens executable_name fuel reporters outputs
          created' in
      let rest = paths_for-process_reporters p reporters outputs created' in
      elim (Bool-cases (bytes_eq name p)) [
        | inl e ↦
            let own = paths_for-own p name reporter paths created e in
            let same = ap (λ x. paths_or_none (get x outputs)) ((bytes_eq_iff name p).0 e) in
            rw e (
              paths_for-append p done behind
              ∙ ap (λ x. x ++ paths_for p behind) (own ∙ same)
              ∙ ap (λ x. paths_or_none (get p outputs) ++ x) rest)
        | inr e ↦
            let none_own = paths_for-other p name reporter paths created e in
            rw e
              (paths_for-append p done behind ∙ ap (λ x. x ++ paths_for p behind) none_own ∙ rest)
      ]

  -- Whatever outputs have been added, and whatever providers registered before or behind them:
  -- each path that was added for a registered provider is dealt with once, in the order of the
  -- calls, and no path of a provider that is not registered.
  pub process_all_output-added :
      (p : Bytes) (cs : List Call)
      → paths_for p
          (process_all_output is_directory exists opens executable_name fuel (calls cs no_outputs))
        ≡ (if is_registered p cs then added p cs else [])
  unfolding process_all_output get
  process_all_output-added p cs =
      let o = calls cs no_outputs in
      let k = calls-times p cs no_outputs (omega arith) in
      let a = calls-added p cs no_outputs in
      paths_for-process_reporters p o.reporters o.outputs []
      ∙ ap (λ n. copies n (paths_or_none (get p o.outputs))) k
      ∙ ap (copies (if is_registered p cs then 1 else 0)) a
      ∙ one_copy (is_registered p cs) (added p cs)
