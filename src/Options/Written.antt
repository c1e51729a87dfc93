-- ===== src/Options/Written.antt =====
-- src/entry/params.c: how strtok_r takes apart a list of outputs that is written as the
-- documentation says.
use criterion.Common.{ℕ, zero, suc, ◌≤◌, ◌≡◌, refl, ap, ◌∙◌, arith, false, some}
use criterion.Common.{List, [], ◌∷◌, ◌++◌, Bytes, length, length-append, map, All, ◌==◌}
use criterion.Options.Tokens.{cut, skip, strtok_r, text_after, tokens}
use criterion.Options.Environment.{parts_of, add_parts, environment_outputs}
use criterion.Options.State.{Parsing}
use criterion.Options.Switch.{add_output, parse_output}

abbrev pub NoByte : ℕ → Bytes → Type 0
NoByte delim s = All (λ c. (c == delim) ≡ false) s

-- A text that is one token: not empty, and without the delimiter.
abbrev pub IsToken : ℕ → Bytes → Type 0
IsToken delim [] = ⊥
IsToken delim (c ∷ s) = ((c == delim) ≡ false) × NoByte delim s

cut-delimited :
    (delim : ℕ) (t rest : Bytes) → NoByte delim t → cut delim (t ++ delim ∷ rest) ≡ (t, rest)
unfolding cut
cut-delimited delim [] rest h = ground arith
cut-delimited delim (c ∷ t) rest h = rw (h.0, cut-delimited delim t rest h.1) refl

cut-last : (delim : ℕ) (t : Bytes) → NoByte delim t → cut delim t ≡ (t, [])
unfolding cut
cut-last delim [] h = refl
cut-last delim (c ∷ t) h = rw (h.0, cut-last delim t h.1) refl

strtok_r-delimited :
    (delim : ℕ) (t rest : Bytes)
    → IsToken delim t
    → strtok_r delim (t ++ delim ∷ rest) ≡ some (t, rest)
unfolding strtok_r
strtok_r-delimited delim [] rest h = absurd h
strtok_r-delimited delim (c ∷ t) rest h =
    rw (h.0, strtok_r) (ap some (cut-delimited delim (c ∷ t) rest h))

strtok_r-last : (delim : ℕ) (t : Bytes) → IsToken delim t → strtok_r delim t ≡ some (t, [])
unfolding strtok_r
strtok_r-last delim [] h = absurd h
strtok_r-last delim (c ∷ t) h = rw (h.0, strtok_r) (ap some (cut-last delim (c ∷ t) h))

text_after-delimited :
    (delim : ℕ) (t rest : Bytes) → IsToken delim t → text_after delim (t ++ delim ∷ rest) ≡ t
unfolding text_after skip
text_after-delimited delim [] rest h = absurd h
text_after-delimited delim (c ∷ t) rest h =
    rw (strtok_r-delimited delim (c ∷ t) rest h, text_after) (rw h.0 refl)

text_after-last : (delim : ℕ) (t : Bytes) → IsToken delim t → text_after delim t ≡ t
unfolding text_after skip
text_after-last delim [] h = absurd h
text_after-last delim (c ∷ t) h = rw (strtok_r-last delim (c ∷ t) h, text_after) (rw h.0 refl)

-- An output that is asked for: its provider and its path.
pub record Request : Type 0 where
  pub provider : Bytes
  pub path : Bytes

-- Neither name has a colon in it, and none is empty.
abbrev pub IsRequest : Request → Type 0
IsRequest r = IsToken b':' r.provider × IsToken b':' r.path

abbrev pub written : Request → Bytes
written r = r.provider ++ b':' ∷ r.path

-- The requests with commas between them.
abbrev pub written_list : Request → List Request → Bytes
written_list r [] = written r
written_list r (q ∷ rs) = written r ++ b',' ∷ written_list q rs

-- What CRITERION_OUTPUTS may hold.
abbrev pub IsListed : Request → Type 0
IsListed r = IsRequest r × NoByte b',' (written r)

written-IsToken : (r : Request) → IsListed r → IsToken b',' (written r)
written-IsToken r h = token r.provider h.0.0 h.1
  where
    token :
        (t : Bytes)
        → IsToken b':' t
        → NoByte b',' (t ++ b':' ∷ r.path)
        → IsToken b',' (t ++ b':' ∷ r.path)
    token [] k n = absurd k
    token (c ∷ t) k n = n

tokens-nil : (delim fuel : ℕ) → tokens delim fuel [] ≡ []
unfolding tokens
tokens-nil delim zero = refl
tokens-nil delim (suc fuel) = refl

tokens-written :
    (fuel : ℕ) (r : Request) (rs : List Request)
    → length (written_list r rs) ≤ fuel
    → IsListed r
    → All IsListed rs
    → tokens b',' fuel (written_list r rs) ≡ map written (r ∷ rs)
unfolding tokens
tokens-written zero r [] h l k =
    absurd (omega (arith, length-append {0} r.provider (b':' ∷ r.path)))
tokens-written zero r (q ∷ rs) h l k =
    absurd (omega (arith, length-append {0} (written r) (b',' ∷ written_list q rs)))
tokens-written (suc fuel) r [] h l k =
    rw (strtok_r-last b',' (written r) (written-IsToken r l), tokens)
      (ap (◌∷◌ (written r)) (tokens-nil b',' fuel))
tokens-written (suc fuel) r (q ∷ rs) h l k =
    rw (strtok_r-delimited b',' (written r) (written_list q rs) (written-IsToken r l), tokens)
      (ap (◌∷◌ (written r)) (
        tokens-written fuel q rs
          (omega (arith, length-append {0} (written r) (b',' ∷ written_list q rs))) k.0 k.1))

parts_of-written :
    (r : Request) (rs : List Request)
    → IsListed r
    → All IsListed rs
    → parts_of (written_list r rs) ≡ map written (r ∷ rs)
unfolding parts_of
parts_of-written r [] l k =
    rw (strtok_r-last b',' (written r) (written-IsToken r l), parts_of)
      (ap (λ t. t ∷ []) (text_after-last b',' (written r) (written-IsToken r l)))
parts_of-written r (q ∷ rs) l k =
    let token = written-IsToken r l in
    rw (strtok_r-delimited b',' (written r) (written_list q rs) token, parts_of)
      (ap (λ t. t ∷ tokens b',' (length (written_list q rs)) (written_list q rs))
          (text_after-delimited b',' (written r) (written_list q rs) token)
        ∙ ap (◌∷◌ (written r))
            (tokens-written (length (written_list q rs)) q rs (omega arith) k.0 k.1))

module _ {Seconds : Type 0} where
  -- The outputs that are asked for, one after the other.
  abbrev pub add_requests : List Request → Parsing Seconds → Parsing Seconds
  add_requests [] s = s
  add_requests (r ∷ rs) s = add_requests rs (add_output r.provider r.path s)

  add_parts-written :
      (rs : List Request) (s : Parsing Seconds)
      → All IsListed rs
      → add_parts (map written rs) s ≡ (add_requests rs s, false)
  unfolding add_parts
  add_parts-written [] s k = refl
  add_parts-written (r ∷ rs) s k =
      rw
        (
          strtok_r-delimited b':' r.provider r.path k.0.0.0,
          strtok_r-last b':' r.path k.0.0.1,
          add_parts,
        )
        (add_parts-written rs (add_output r.provider r.path s) k.1)

  -- The list in CRITERION_OUTPUTS is taken apart into its requests, in order.
  pub environment_outputs-written :
      (r : Request) (rs : List Request) (s : Parsing Seconds)
      → IsListed r
      → All IsListed rs
      → environment_outputs (some (written_list r rs)) s ≡ (add_requests (r ∷ rs) s, false)
  unfolding environment_outputs
  environment_outputs-written r rs s l k =
      ap (λ parts. add_parts parts s) (parts_of-written r rs l k)
      ∙ add_parts-written (r ∷ rs) s (l, k)

  -- So is the argument of an option --output.
  pub parse_output-written :
      (r : Request) (s : Parsing Seconds)
      → IsRequest r
      → parse_output (written r) s ≡ add_output r.provider r.path s
  unfolding parse_output
  parse_output-written r s h =
      rw
        (strtok_r-delimited b':' r.provider r.path h.0, strtok_r-last b':' r.path h.1, parse_output)
        (ap (λ t. add_output t r.path s) (text_after-delimited b':' r.provider r.path h.0))
