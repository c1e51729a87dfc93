-- ===== src/Path/Unique.antt =====
-- src/compat/path.c: the choice of a file name.
use criterion.Common.{ℕ, zero, suc, ◌+◌, ◌≤◌, ◌<◌, ◌≡◌, refl, ◌≢◌, inl, inr}
use criterion.Common.{arith, Bool, true, false, Bool-cases, some}
use criterion.Common.{Bytes}
use criterion.Common.{==_iff, ◌==◌}
use criterion.Path.{candidate, unique_from}
use criterion.Path.{cri_path_gen_unique_filename}

-- The first name that does not exist.
abbrev pub FirstFree : (Bytes → Bool) → (ℕ → Bytes) → ℕ → ℕ → Type 0
FirstFree exists name from k =
    (exists (name k) ≡ false) × ((j : ℕ) → from ≤ j → j < k → exists (name j) ≡ true)

module _ (exists : Bytes → Bool) (path filename extension : Bytes) where
  abbrev name : ℕ → Bytes
  name = candidate path filename extension

  unique_from-FirstFree :
      (fuel from n : ℕ)
      → exists (name n) ≡ false
      → from ≤ n
      → n < from + fuel
      → (k : ℕ) × (from ≤ k)
        × (k ≤ n)
        × (unique_from exists path filename extension fuel from ≡ some (name k))
        × FirstFree exists name from k
  unfolding unique_from
  unique_from-FirstFree zero from n e h l = absurd (omega arith)
  unique_from-FirstFree (suc fuel) from n e h l = elim (Bool-cases (exists (name from))) [
    | inr f ↦ (from, omega arith, h, rw f refl, (f, λ j a b. absurd (omega arith)))
    | inl f ↦
        let ne : from ≢ n = λ z. cc in
        let (k, a, b, r, (x, g)) =
          unique_from-FirstFree fuel (suc from) n e (omega arith) (omega arith) in
        (
          k,
          omega arith,
          b,
          rw f r,
          (
            x,
            λ j c d. elim (Bool-cases (j == from)) [
              | inl z ↦ rw ((==_iff j from).0 z) f
              | inr z ↦ let other : j ≢ from = λ y. cc ((==_iff j from).1 y) in g j (omega arith) d
            ],
          ),
        )
  ]

  -- A name for a file is found when one of the names that are tried is free: the first one that
  -- does not exist. No more rounds are made than there are names up to it.
  pub cri_path_gen_unique_filename-FirstFree :
      (n fuel : ℕ)
      → exists (name n) ≡ false
      → n < fuel
      → (k : ℕ) × (cri_path_gen_unique_filename exists path filename extension fuel ≡ some (name k))
        × (k ≤ n)
        × FirstFree exists name 0 k
  unfolding cri_path_gen_unique_filename
  cri_path_gen_unique_filename-FirstFree n fuel e h =
      let (k, _, l, r, f) = unique_from-FirstFree fuel 0 n e (omega arith) (omega arith) in
      (k, r, l, f)
