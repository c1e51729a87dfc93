-- ===== src/Report/XmlReader.antt =====
-- A reader of the tags of XML texts (src/io/xml.c): start tags and end tags, the quotation marks of
-- attributes, and references. Declarations and comments are passed over.
use criterion.Common.{ℕ, ◌≡◌, arith, Bool, true, false, not, ◌&&◌, ◌||◌}
use criterion.Common.{Option, none, some, List, [], ◌∷◌, ◌++◌, Bytes, All, leb, ◌==◌, if◌then◌else◌}
use criterion.Report.Scanning.{run, run-stays}

-- Where the reader is: between tags, behind a `<`, in the name of a start tag, behind it, in an
-- attribute's text, behind the `/` of an element without content, in the name of an end tag (with the rest of it), in a
-- reference, or in a declaration.
pub data Mode : Type 0 where
  content begin attributes quoted empty_tag reference declaration : Mode
  name closing : Bytes → Mode

-- With the names of the open elements, the innermost first.
abbrev pub State : Type 0
State = Mode × List Bytes

abbrev is_space : ℕ → Bool
is_space c = c == 32 || c == 10 || c == 9 || c == 13

abbrev is_letter : ℕ → Bool
is_letter c = leb b'a' c && leb c b'z'

abbrev begin_closing : List Bytes → Option State
begin_closing [] = none
begin_closing (n ∷ open_) = some (closing n, open_)

abbrev end_empty : List Bytes → Option State
end_empty [] = none
end_empty (n ∷ open_) = some (content, open_)

abbrev in_tag : List Bytes → ℕ → Option State
in_tag open_ c =
    if c == b'>'
    then some (content, open_)
    else if c == b'/'
    then some (empty_tag, open_)
    else if c == b'"'
    then some (quoted, open_)
    else if c == b'<'
    then none
    else some (attributes, open_)

-- Outside of every element there is only white space.
abbrev in_content : List Bytes → ℕ → Option State
in_content [] c =
    if c == b'<' then some (begin, []) else if is_space c then some (content, []) else none
in_content (n ∷ open_) c =
    if c == b'<'
    then some (begin, n ∷ open_)
    else if c == b'&'
    then some (reference, n ∷ open_)
    else some (content, n ∷ open_)

unfoldable pub step : State → ℕ → Option State
step (content, open_) c = in_content open_ c
step (begin, open_) c =
    if c == b'/'
    then begin_closing open_
    else if c == b'?' || c == b'!'
    then some (declaration, open_)
    else if is_letter c
    then some (name (c ∷ []), open_)
    else none
step (name n, open_) c =
    if is_letter c then some (name (n ++ c ∷ []), open_) else in_tag (n ∷ open_) c
step (attributes, open_) c = in_tag open_ c
step (quoted, open_) c =
    if c == b'"'
    then some (attributes, open_)
    else if c == b'<' || c == b'&'
    then none
    else some (quoted, open_)
step (empty_tag, open_) c = if c == b'>' then end_empty open_ else none
step (closing [], open_) c = if c == b'>' then some (content, open_) else none
step (closing (d ∷ n), open_) c = if c == d then some (closing n, open_) else none
step (reference, open_) c =
    if c == b';'
    then some (content, open_)
    else if c == b'<' || c == b'&'
    then none
    else some (reference, open_)
step (declaration, open_) c = if c == b'>' then some (content, open_) else some (declaration, open_)

abbrev pub is_end : Option State → Bool
is_end (some (content, [])) = true
is_end _ = false

-- Whether the tags of a text pair up.
abbrev pub well_nested : Bytes → Bool
well_nested text = is_end (run step (content, []) text)

-- A byte that may stand for itself.
abbrev pub is_plain : ℕ → Bool
is_plain c = not (c == b'<') && not (c == b'&') && not (c == b'"')

abbrev pub Plain : Bytes → Type 0
Plain text = All (λ c. is_plain c ≡ true) text

pub run-quoted :
    (open_ : List Bytes) (text : Bytes)
    → Plain text
    → run step (quoted, open_) text ≡ some (quoted, open_)
unfolding step
run-quoted open_ text h = run-stays step (quoted, open_) is_plain (λ c k. ground arith) text h

pub run-content :
    (n : Bytes) (open_ : List Bytes) (text : Bytes)
    → Plain text
    → run step (content, n ∷ open_) text ≡ some (content, n ∷ open_)
unfolding step
run-content n open_ text h =
    run-stays step (content, n ∷ open_) is_plain (λ c k. ground arith) text h

abbrev pub InDeclaration : Bytes → Type 0
InDeclaration text = All (λ c. not (c == b'>') ≡ true) text

pub run-declaration :
    (open_ : List Bytes) (text : Bytes)
    → InDeclaration text
    → run step (declaration, open_) text ≡ some (declaration, open_)
unfolding step
run-declaration open_ text h =
    run-stays step (declaration, open_) (λ c. not (c == b'>')) (λ c k. ground arith) text h
