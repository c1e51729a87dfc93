-- ===== src/Glob/Language.antt =====
-- What a glob means: the set of texts that it stands for, with no derivative in it.
use criterion.Common.{ℕ, ◌≡◌, ◌⊎◌, true, [], ◌∷◌, ◌++◌, Bytes, ◌==◌, if◌then◌else◌}
use criterion.Glob.{Glob, accepts}
use criterion.Glob.{empty, blank, char, charset, or, and, star, plus, at, opt, seq, not_glob}

-- A language is a set of byte strings.
abbrev pub Language : Type 1
Language = Bytes → Type 0

-- One text after another.
abbrev pub Cat : Language → Language → Language
Cat L M s = (u : Bytes) × (v : Bytes) × (s ≡ u ++ v) × L u × M v

-- Any number of texts of one language in a row.
pub data Star (L : Language) : Bytes → Type 0 where
  done : Star L []
  more : {s : Bytes} (u v : Bytes) → s ≡ u ++ v → L u → Star L v → Star L s

-- Without an asterisk or a question mark, a character stands for itself. `*` stands for every
-- text, and `?` for every text of at most one character.
abbrev pub AtMostOne : Language
AtMostOne s = (s ≡ []) ⊎ ((x : ℕ) × (s ≡ x ∷ []))

abbrev pub CharLang : ℕ → Language
CharLang c s = if c == b'*' then Unit {0} else if c == b'?' then AtMostOne s else s ≡ c ∷ []

abbrev pub Lang : Glob → Language
Lang empty s = ⊥
Lang blank s = s ≡ []
Lang (char c) s = CharLang c s
Lang (charset cset) s = (x : ℕ) × (s ≡ x ∷ []) × (accepts cset x ≡ true)
Lang (or g h) s = Lang g s ⊎ Lang h s
Lang (and g h) s = Lang g s × Lang h s
Lang (star g) s = Star (Lang g) s
Lang (plus g) s = Cat (Lang g) (Star (Lang g)) s
Lang (at g) s = Lang g s
Lang (opt g) s = (s ≡ []) ⊎ Lang g s
Lang (seq g h) s = Cat (Lang g) (Lang h) s
Lang (not_glob g) s = ¬ (Lang g s)
