-- ===== src/Output.antt =====
-- src/io/output.c: the outputs that are asked for, and the reports that are written at the end.
-- A khash table is a list of its entries, a table that is still null an empty one; the order of the
-- entries stands for the order of the buckets. A reporter is a number. What is a directory, which
-- names exist at first and which files can be opened are arguments.
pub mod Providers
pub mod Files
use criterion.Common.{ℕ, Bool, true, false, not, ◌&&◌, ◌||◌, Option, none, some, List, [], ◌∷◌}
use criterion.Common.{◌++◌, Bytes, codes, bytes_eq, if◌then◌else◌}
use criterion.Path.{cri_path_gen_unique_filename, is_separator}

abbrev pub Table : Type 0 → Type 0
Table A = List (Bytes × A)

-- kh_put, with the value that is then stored.
unfoldable pub put : {A : Type 0} → Bytes → A → Table A → Table A
unfolding bytes_eq
put name a [] = (name, a) ∷ []
put name a ((key, b) ∷ table) =
    let rest = put name a table in if bytes_eq key name then (key, a) ∷ table else (key, b) ∷ rest

-- kh_get, with the value.
unfoldable pub get : {A : Type 0} → Bytes → Table A → Option A
unfolding bytes_eq
get name [] = none
get name ((key, b) ∷ table) =
    let rest = get name table in if bytes_eq key name then some b else rest

-- The two static tables.
pub record Outputs : Type 0 where
  pub reporters : Table ℕ
  pub outputs : Table (List Bytes)

unfoldable pub criterion_register_output_provider : Bytes → ℕ → Outputs → Outputs
unfolding put
criterion_register_output_provider name reporter o = record o {
  reporters = put name reporter o.reporters;
}

abbrev pub paths_or_none : Option (List Bytes) → List Bytes
paths_or_none none = []
paths_or_none (some paths) = paths

unfoldable pub criterion_add_output : Bytes → Bytes → Outputs → Outputs
unfolding put get
criterion_add_output provider path o = record o {
  outputs = put provider (paths_or_none (get provider o.outputs) ++ path ∷ []) o.outputs;
}

-- basename_compat, of src/compat/path.c.
unfoldable pub basename_from : Bytes → Bytes → Bytes
basename_from start [] = start
basename_from start (c ∷ []) = start
basename_from start (c ∷ d ∷ str) =
    if is_separator c then basename_from (d ∷ str) (d ∷ str) else basename_from start (d ∷ str)

abbrev pub basename_compat : Bytes → Bytes
basename_compat str = basename_from str str

-- Where a report goes.
pub data Target : Type 0 where
  stdout stderr : Target
  file : Bytes → Target

-- What is done for an output: a report, an error message with a file's name, or no end of the
-- search for a name.
pub data Outcome : Type 0 where
  reported : ℕ → Target → Outcome
  not_opened : Bytes → Outcome
  endless : Outcome

pub record Done : Type 0 where
  pub provider : Bytes
  pub path : Bytes
  pub outcome : Outcome

-- Whether a file is one of those that have been opened.
abbrev pub is_created : List Bytes → Bytes → Bool
is_created [] name = false
is_created (c ∷ created) name = bytes_eq c name || is_created created name

module _ (is_directory exists opens : Bytes → Bool) (executable_name : Bytes) (fuel : ℕ) where
  abbrev open_file : ℕ → Bytes → List Bytes → Outcome × List Bytes
  open_file reporter name created =
      if opens name
      then (reported reporter (file name), name ∷ created)
      else (not_opened name, created)

  abbrev open_unique : ℕ → Option Bytes → List Bytes → Outcome × List Bytes
  open_unique reporter none created = (endless, created)
  open_unique reporter (some name) created = open_file reporter name created

  -- The round for a path; `created` are the files that have been opened so far.
  unfoldable pub write_output : Bytes → ℕ → Bytes → List Bytes → Outcome × List Bytes
  unfolding bytes_eq basename_from cri_path_gen_unique_filename
  write_output name reporter path created =
      if bytes_eq path (codes "-")
      then (reported reporter stdout, created)
      else if bytes_eq path (codes "/dev/stderr")
      then (reported reporter stderr, created)
      else if is_directory path
      then open_unique reporter
          (cri_path_gen_unique_filename (λ p. exists p || is_created created p) path
            (basename_compat executable_name) name fuel)
          created
      else open_file reporter path created

  unfoldable pub write_outputs : Bytes → ℕ → List Bytes → List Bytes → List Done × List Bytes
  unfolding write_output
  write_outputs name reporter [] created = ([], created)
  write_outputs name reporter (path ∷ paths) created =
      let (outcome, created') = write_output name reporter path created in
      let (rest, created'') = write_outputs name reporter paths created' in
      (record { provider = name; path = path; outcome = outcome } ∷ rest, created'')

  unfoldable pub process_reporters : Table ℕ → Table (List Bytes) → List Bytes → List Done
  unfolding write_outputs get
  process_reporters [] outputs created = []
  process_reporters ((name, reporter) ∷ reporters) outputs created =
      let (done, created') =
        write_outputs name reporter (paths_or_none (get name outputs)) created in
      done ++ process_reporters reporters outputs created'

  unfoldable pub process_all_output : Outputs → List Done
  unfolding process_reporters
  process_all_output o = process_reporters o.reporters o.outputs []
