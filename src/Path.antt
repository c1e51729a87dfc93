-- ===== src/Path.antt =====
-- src/compat/path.c: paths are put together from parts, and a name for a file is chosen.
-- A part is a C string without its NUL; the argument list ends at its null pointer. Whether a file
-- exists is an argument.
pub mod Separators
pub mod Components
pub mod Unique
use criterion.Common.{ℕ, zero, suc, ◌+◌, ◌-◌, ◌%◌, ◌/◌, Bool, true, false, not, ◌&&◌, ◌||◌, Option}
use criterion.Common.{none, some, List, [], ◌∷◌, ◌++◌, Bytes, codes, length, get_elem?, take, drop}
use criterion.Common.{leb, ◌==◌, if◌then◌else◌}

abbrev pub is_separator : ℕ → Bool
is_separator c = c == b'/' || c == b'\\'

unfoldable pub first_non_separator_index : Bytes → ℕ
first_non_separator_index [] = 0
first_non_separator_index (c ∷ str) =
    let rest = first_non_separator_index str in if is_separator c then suc rest else 0

abbrev pub separator_at : Option ℕ → Bool
separator_at none = false
separator_at (some c) = is_separator c

-- The loop that goes down from an index.
unfoldable pub trailing_from : ℕ → Bytes → ℕ
trailing_from zero str = 0
trailing_from (suc idx) str =
    let below = trailing_from idx str in if separator_at (get_elem? str idx) then below else suc idx

unfoldable pub first_trailing_separator_index : Bytes → ℕ
unfolding trailing_from
first_trailing_separator_index str = trailing_from (length str) str

-- The local variables of cri_path_build_va, and the output.
pub record Build : Type 0 where
  pub output : Bytes
  pub last_end_idx : ℕ
  pub is_first_non_empty : Bool
  pub leading : Bool
  pub last_path_part : Bytes

abbrev pub with_leading : Bytes → ℕ → Build → Build
with_leading part begin_idx b =
    if b.leading then b else record b { output = b.output ++ take begin_idx part; leading = true }

-- The rest of a round, for a part that has something between its separators.
abbrev pub add_middle : ℕ → Bytes → Build → Build
add_middle separator middle b = record b {
  output = (if b.is_first_non_empty then b.output else b.output ++ separator ∷ []) ++ middle;
  is_first_non_empty = false;
}

-- One round of the loop, for a part that is not empty.
unfoldable pub add_part : ℕ → Bytes → Build → Build
unfolding first_non_separator_index first_trailing_separator_index
add_part separator part b =
    let begin_idx = first_non_separator_index part in
    let end_idx = first_trailing_separator_index part in
    let started =
      with_leading part begin_idx (record b { last_path_part = part; last_end_idx = end_idx }) in
    if leb end_idx begin_idx
    then record started { last_end_idx = if b.is_first_non_empty then begin_idx else end_idx }
    else add_middle separator (take (end_idx - begin_idx) (drop begin_idx part)) started

unfoldable pub add_parts : ℕ → List Bytes → Build → Build
unfolding add_part
add_parts separator [] b = b
add_parts separator ([] ∷ parts) b = add_parts separator parts b
add_parts separator ((c ∷ part) ∷ parts) b =
    add_parts separator parts (add_part separator (c ∷ part) b)

abbrev pub start_build : Bytes → Build
start_build first = record {
  output = [];
  last_end_idx = 0;
  is_first_non_empty = true;
  leading = false;
  last_path_part = first;
}

abbrev pub end_build : Build → Bytes
end_build b = b.output ++ drop b.last_end_idx b.last_path_part

-- The text that is written.
unfoldable pub cri_path_build : ℕ → List Bytes → Bytes
unfolding add_parts
cri_path_build separator [] = []
cri_path_build separator (first ∷ parts) =
    end_build (add_parts separator (first ∷ parts) (start_build first))

-- cri_path_combine, where the separator of paths is a slash.
abbrev pub cri_path_combine : List Bytes → Bytes
cri_path_combine = cri_path_build b'/'

-- `%d`, of a number with at most `digits` digits.
unfoldable pub decimal : ℕ → ℕ → Bytes
decimal zero n = []
decimal (suc digits) n =
    let high = decimal digits (n / 10) in
    if n / 10 == 0 then (b'0' + n % 10) ∷ [] else high ++ (b'0' + n % 10) ∷ []

-- The name that is tried in a round.
unfoldable pub candidate : Bytes → Bytes → Bytes → ℕ → Bytes
unfolding cri_path_build decimal
candidate path filename extension zero = cri_path_combine (path ∷ filename ∷ []) ++ b'.' ∷ extension
candidate path filename extension (suc counter) =
    cri_path_combine (path ∷ filename ∷ []) ++ b'_' ∷ (decimal 10 (suc counter) ++ b'.' ∷ extension)

module _ (exists : Bytes → Bool) (path filename extension : Bytes) where
  -- The loop, on fuel: `none` is that the fuel has run out.
  unfoldable pub unique_from : ℕ → ℕ → Option Bytes
  unfolding candidate
  unique_from zero counter = none
  unique_from (suc fuel) counter =
      let rest = unique_from fuel (suc counter) in
      let name = candidate path filename extension counter in
      if exists name then rest else some name

  unfoldable pub cri_path_gen_unique_filename : ℕ → Option Bytes
  unfolding unique_from
  cri_path_gen_unique_filename fuel = unique_from fuel 0
