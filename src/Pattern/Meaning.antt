-- ===== src/Pattern/Meaning.antt =====
-- src/string/extglobmatch.c and brz.c: the texts that a written pattern matches, and the tests
-- that disable_unmatching of src/core/runner.c leaves enabled.
use mathlib.Core.List.{append_assoc}
use criterion.Common.{◌≡◌, refl, sym, ap, ◌∙◌, ◌↔◌, ◌⨾◌}
use criterion.Common.{iff_refl, ⊎_iff, ×_iff, ¬_iff, none, some, [], ◌++◌, Bytes}
use criterion.Glob.{Glob, glob_seq, glob_char, glob_cset, glob_plus, glob_star, glob_not, glob_opt}
use criterion.Glob.Language.{Language, Cat, Star, done, more, Lang}
use criterion.Glob.Texts.{Cat_iff}
use criterion.Glob.Derivation.{copy_lem, Lang-glob_seq, Lang-glob_or, Lang-glob_and, Lang-glob_at}
use criterion.Pattern.{Op, negate, many, some_of, one_of, maybe, handle_operator}
use criterion.Pattern.Syntax.{
  Piece, literal, class, anything, group, Pattern, one, cat, Patterns, only, either,
}
use criterion.Pattern.Syntax.{Applied, Joined, PieceLang, PatternLang, PatternsLang}
use criterion.Pattern.Closing.{join}
use criterion.Pattern.Printing.{glob_piece, glob_behind, glob_patterns, glob_of}

Star-map : {L M : Language} {s : Bytes} → ((u : Bytes) → L u → M u) → Star L s → Star M s
Star-map f done = done
Star-map f (more u v e l r) = more u v e (f u l) (Star-map f r)

Star-congr : {L M : Language} → ((u : Bytes) → L u ↔ M u) → (s : Bytes) → Star L s ↔ Star M s
Star-congr f s = (Star-map (λ u. (f u).0), Star-map (λ u. (f u).1))

Cat_assoc : (L M N : Language) (s : Bytes) → Cat (Cat L M) N s ↔ Cat L (Cat M N) s
Cat_assoc L M N s = (
  (λ (u, v, e, (x, y, e', l, m), n).
      (x, y ++ v, e ∙ ap (λ w. w ++ v) e' ∙ append_assoc x y v, l, (y, v, refl, m, n))),
  λ (u, v, e, l, (x, y, e', m, n)).
      (u ++ x, y, e ∙ ap (λ w. u ++ w) e' ∙ sym (append_assoc u x y), (u, x, refl, l, m), n),
)

pub Applied_iff :
    (op : Op) {L M : Language}
    → ((u : Bytes) → L u ↔ M u)
    → (s : Bytes) → Applied op L s ↔ Applied op M s
Applied_iff negate f s = ¬_iff (f s)
Applied_iff many f s = Star-congr f s
Applied_iff some_of f s = Cat_iff s f (Star-congr f)
Applied_iff one_of f s = f s
Applied_iff maybe f s = ⊎_iff (iff_refl (s ≡ [])) (f s)

handle_operator-Applied :
    (op : Op) (g : Glob) (s : Bytes) → Lang (handle_operator op g) s ↔ Applied op (Lang g) s
unfolding handle_operator glob_plus glob_star glob_not glob_opt
handle_operator-Applied negate g s = rw (copy_lem g) (iff_refl _)
handle_operator-Applied many g s = rw (copy_lem g) (iff_refl _)
handle_operator-Applied some_of g s = rw (copy_lem g) (iff_refl _)
handle_operator-Applied one_of g s = Lang-glob_at g s
handle_operator-Applied maybe g s = rw (copy_lem g) (iff_refl _)

join-Joined :
    (op : Op) (a b : Glob) {P Q : Type 0} (s : Bytes)
    → Lang a s ↔ P
    → Lang b s ↔ Q
    → Lang (join op a b) s ↔ Joined op P Q
join-Joined negate a b s p q = Lang-glob_and a b s ⨾ ×_iff p q
join-Joined many a b s p q = Lang-glob_or a b s ⨾ ⊎_iff p q
join-Joined some_of a b s p q = Lang-glob_or a b s ⨾ ⊎_iff p q
join-Joined one_of a b s p q = Lang-glob_or a b s ⨾ ⊎_iff p q
join-Joined maybe a b s p q = Lang-glob_or a b s ⨾ ⊎_iff p q

mutual
  unfolding glob_piece PieceLang glob_char glob_cset

  piece_iff : (x : Piece) (s : Bytes) → Lang (glob_piece x) s ↔ PieceLang x s
  piece_iff (literal c) s = iff_refl _
  piece_iff (class cset) s = iff_refl _
  piece_iff anything s = iff_refl _
  piece_iff (group op ps) s = patterns_iff op ps s

  pattern_iff : (p : Pattern) (s : Bytes) → Lang (glob_behind none p) s ↔ PatternLang p s
  pattern_iff (one x) s = piece_iff x s
  pattern_iff (cat x p) s =
      behind_iff p (glob_piece x) s ⨾ Cat_iff s (λ u. piece_iff x u) (λ u. iff_refl _)

  behind_iff :
      (p : Pattern) (a : Glob) (s : Bytes)
      → Lang (glob_behind (some a) p) s ↔ Cat (Lang a) (PatternLang p) s
  behind_iff (one x) a s =
      Lang-glob_seq a (glob_piece x) s ⨾ Cat_iff s (λ u. iff_refl _) (λ u. piece_iff x u)
  behind_iff (cat x p) a s =
      behind_iff p (glob_seq a (glob_piece x)) s
      ⨾ Cat_iff s (λ u. Lang-glob_seq a (glob_piece x) u) (λ u. iff_refl (PatternLang p u))
      ⨾ Cat_assoc (Lang a) (Lang (glob_piece x)) (PatternLang p) s
      ⨾ Cat_iff s (λ u. iff_refl _) (λ u. Cat_iff u (λ v. piece_iff x v) (λ v. iff_refl _))

  patterns_iff :
      (op : Op) (ps : Patterns) (s : Bytes) → Lang (glob_patterns op ps) s ↔ PatternsLang op ps s
  patterns_iff op (only p) s =
      handle_operator-Applied op (glob_behind none p) s ⨾ Applied_iff op (λ u. pattern_iff p u) s
  patterns_iff op (either p ps) s =
      join-Joined op (handle_operator op (glob_behind none p)) (glob_patterns op ps) s
        (handle_operator-Applied op (glob_behind none p) s
          ⨾ Applied_iff op (λ u. pattern_iff p u) s)
        (patterns_iff op ps s)

-- The glob of a pattern stands for the texts of the pattern.
pub glob_of_iff : (p : Pattern) (s : Bytes) → Lang (glob_of p) s ↔ PatternLang p s
unfolding glob_of
glob_of_iff p s = pattern_iff p s
