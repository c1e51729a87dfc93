-- ===== src/Output/Files.antt =====
-- src/io/output.c: a report that is written into a directory.
use criterion.Common.{ℕ, ◌<◌, ◌≡◌, refl, ◌||◌, true, false, codes, List, Bytes, bytes_eq}
use criterion.Common.{Bool, if◌then◌else◌, arith, Bool-cases, inl, inr}
use criterion.Path.{candidate}
use criterion.Path.Unique.{cri_path_gen_unique_filename-FirstFree}
use criterion.Output.{write_output, is_created, basename_compat, reported, not_opened, file}

-- A report into a directory goes to a file that neither existed at first nor was written by an
-- earlier report of the run; or that file cannot be opened. One of the names that are tried is
-- free.
pub write_output-unused :
    (is_directory exists opens : Bytes → Bool) (executable_name : Bytes) (fuel : ℕ) (name : Bytes)
    (reporter : ℕ) (path : Bytes) (created : List Bytes) (n : ℕ)
    → is_directory path ≡ true
    → bytes_eq path (codes "-") ≡ false
    → bytes_eq path (codes "/dev/stderr") ≡ false
    → let tried = candidate path (basename_compat executable_name) name in
      let is_old = is_created created in
      (exists (tried n) || is_old (tried n)) ≡ false
      → n < fuel
      → (f : Bytes) × (exists f ≡ false)
        × (is_old f ≡ false)
        × ((write_output is_directory exists opens executable_name fuel name reporter path
              created).0
            ≡ (if opens f then reported reporter (file f) else not_opened f))
unfolding write_output
write_output-unused is_directory exists opens executable_name fuel name reporter path created n d a
      b e h =
    let is_old = is_created created in
    let tried = candidate path (basename_compat executable_name) name in
    let (k, r, _, (free, _)) =
      cri_path_gen_unique_filename-FirstFree (λ p. exists p || is_old p) path
        (basename_compat executable_name) name n fuel e h in
    (
      tried k,
      ground arith,
      ground arith,
      rw (a, b, d, r)
          (elim (Bool-cases (opens (tried k))) [ inl o ↦ rw o refl | inr o ↦ rw o refl ]),
    )
