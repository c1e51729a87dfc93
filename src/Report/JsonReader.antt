-- ===== src/Report/JsonReader.antt =====
-- A reader of JSON texts without escapes: objects, arrays, strings and natural numbers.
use criterion.Common.{
  ℕ, suc, ◌+◌, ◌/◌, ◌%◌, ◌≡◌, ap, ◌∙◌, arith, Bool, true, false, not, ◌&&◌, ◌||◌, Bool-cases, inl,
  inr,
}
use criterion.Common.{Option, none, some, List, [], ◌∷◌, Bytes, All, leb, ◌==◌, if◌then◌else◌, zero}
use criterion.Path.{decimal}
use criterion.Report.Scanning.{run, run-stays, run-append, go_on}

-- What the reader expects: a value, a value or the end of an array, a key or the end of an object, a key, a
-- colon, what may stand behind a value, or the rest of a string, a key or a number.
pub data Mode : Type 0 where
  value value_or_end key_or_end key colon after in_value in_key number : Mode

-- What is open.
pub data Open : Type 0 where
  object array : Open

abbrev is_space : ℕ → Bool
is_space c = c == 32 || c == 10 || c == 9 || c == 13

abbrev is_digit : ℕ → Bool
is_digit c = leb b'0' c && leb c b'9'

-- A byte that may stand in a string.
abbrev pub is_plain : ℕ → Bool
is_plain c = leb 32 c && not (c == b'"') && not (c == 92)

-- With what is open, the innermost first.
abbrev pub State : Type 0
State = Mode × List Open

abbrev Next : Type 0
Next = Option State

abbrev begin_value : List Open → ℕ → Next
begin_value open_ c =
    if c == b'{'
    then some (key_or_end, object ∷ open_)
    else if c == b'['
    then some (value_or_end, array ∷ open_)
    else if c == b'"'
    then some (in_value, open_)
    else if is_digit c
    then some (number, open_)
    else none

abbrev begin_key : List Open → ℕ → Next
begin_key open_ c = if c == b'"' then some (in_key, open_) else none

abbrev behind_value : List Open → ℕ → Next
behind_value [] c = none
behind_value (object ∷ open_) c =
    if c == b','
    then some (key, object ∷ open_)
    else if c == b'}'
    then some (after, open_)
    else none
behind_value (array ∷ open_) c =
    if c == b','
    then some (value, array ∷ open_)
    else if c == b']'
    then some (after, open_)
    else none

abbrev end_array : List Open → Next
end_array (array ∷ open_) = some (after, open_)
end_array _ = none

abbrev end_object : List Open → Next
end_object (object ∷ open_) = some (after, open_)
end_object _ = none

abbrev in_string : Mode → Mode → List Open → ℕ → Next
in_string here behind open_ c =
    if c == b'"' then some (behind, open_) else if is_plain c then some (here, open_) else none

unfoldable pub step : State → ℕ → Next
step (value, open_) c = if is_space c then some (value, open_) else begin_value open_ c
step (value_or_end, open_) c =
    if is_space c
    then some (value_or_end, open_)
    else if c == b']'
    then end_array open_
    else begin_value open_ c
step (key_or_end, open_) c =
    if is_space c
    then some (key_or_end, open_)
    else if c == b'}'
    then end_object open_
    else begin_key open_ c
step (key, open_) c = if is_space c then some (key, open_) else begin_key open_ c
step (colon, open_) c =
    if is_space c then some (colon, open_) else if c == b':' then some (value, open_) else none
step (after, open_) c = if is_space c then some (after, open_) else behind_value open_ c
step (in_value, open_) c = in_string in_value after open_ c
step (in_key, open_) c = in_string in_key colon open_ c
step (number, open_) c =
    if is_digit c
    then some (number, open_)
    else if is_space c
    then some (after, open_)
    else behind_value open_ c

abbrev pub is_done : Next → Bool
is_done none = false
is_done (some (after, [])) = true
is_done (some (number, [])) = true
is_done (some _) = false

-- Whether a text is one value.
abbrev pub well_formed : Bytes → Bool
well_formed s = is_done (run step (value, []) s)

abbrev pub Plain : Bytes → Type 0
Plain s = All (λ c. is_plain c ≡ true) s

pub run-Plain :
    (open_ : List Open) (s : Bytes)
    → Plain s
    → run step (in_value, open_) s ≡ some (in_value, open_)
unfolding step
run-Plain open_ s h = run-stays step (in_value, open_) is_plain (λ c k. ground arith) s h

digit_number :
    (open_ : List Open) (n : ℕ)
    → (run step (value, open_) ((b'0' + n % 10) ∷ []) ≡ some (number, open_))
      × (run step (number, open_) ((b'0' + n % 10) ∷ []) ≡ some (number, open_))
unfolding step run
digit_number open_ n = ground arith

pub run-decimal :
    (open_ : List Open) (digits n : ℕ)
    → run step (value, open_) (decimal (suc digits) n) ≡ some (number, open_)
unfolding decimal
run-decimal open_ zero n = elim (Bool-cases (n / 10 == 0)) [
  | inl e ↦ rw (e, decimal) (digit_number open_ n).0
  | inr e ↦ rw (e, decimal) (digit_number open_ n).0
]
run-decimal open_ (suc digits) n = elim (Bool-cases (n / 10 == 0)) [
  | inl e ↦ rw (e, decimal) (digit_number open_ n).0
  | inr e ↦
      let last = (b'0' + n % 10) ∷ [] in
      rw (e, decimal)
        (run-append step (value, open_) (decimal (suc digits) (n / 10)) last
          ∙ ap (λ r. go_on step r last) (run-decimal open_ digits (n / 10))
          ∙ (digit_number open_ n).1)
]
