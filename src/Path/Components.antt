-- ===== src/Path/Components.antt =====
-- src/compat/path.c: the components of a path that is put together.
use mathlib.Core.List.{append_assoc, append-nil}
use criterion.Common.{ℕ, zero, suc, ◌≡◌, refl, sym, ap, ◌∙◌, inl, inr}
use criterion.Common.{arith, true, false, Bool-cases, leb, leb→le, List, [], ◌∷◌, ◌++◌}
use criterion.Common.{Bytes, drop, subst}
use criterion.Path.{is_separator, first_non_separator_index}
use criterion.Path.{
  first_trailing_separator_index, Build, add_part, add_parts, add_middle, with_leading,
}
use criterion.Path.{start_build, end_build, cri_path_build}
use criterion.Path.Separators.{
  components, AllSeparators, pieces-append, components-separators, AllSeparators-components,
  pieces-separators, take-first_non_separator_index, drop-first_trailing_separator_index,
  part-AllSeparators, components-middle,
}

drop-AllSeparators : (n : ℕ) (s : Bytes) → AllSeparators s → AllSeparators (drop n s)
drop-AllSeparators zero s h = h
drop-AllSeparators (suc n) [] h = tt
drop-AllSeparators (suc n) (c ∷ s) (h, hs) = drop-AllSeparators n s hs

-- What holds between the rounds, for parts with the components `cs`.
record Builds (cs : List Bytes) (b : Build) : Type 0 where
  out : components b.output ≡ cs
  first : b.is_first_non_empty ≡ true → AllSeparators b.output
  unled : b.leading ≡ false → b.output ≡ []
  tail : AllSeparators (drop b.last_end_idx b.last_path_part)

with_leading-Builds :
    (cs : List Bytes) (part : Bytes) (b : Build)
    → Builds cs b
    → AllSeparators (drop (first_trailing_separator_index part) part)
    → Builds cs (
        with_leading part
          (first_non_separator_index part)
          (record b { last_path_part = part; last_end_idx = first_trailing_separator_index part }))
with_leading-Builds cs part b v h = elim (Bool-cases b.leading) [
  | inl e ↦ rw e (record { out = v.out; first = v.first; unled = λ x. cc; tail = h })
  | inr e ↦
      let pre = take-first_non_separator_index part in
      let none_yet = v.unled e in
      rw (e, none_yet)
        (record {
          out = AllSeparators-components _ pre ∙ ap components (sym none_yet) ∙ v.out;
          first = λ x. pre;
          unled = λ x. cc;
          tail = h;
        })
]

add_middle-Builds :
    (separator : ℕ) (cs : List Bytes) (middle : Bytes) (b : Build)
    → is_separator separator ≡ true
    → Builds cs b
    → components (add_middle separator middle b).output ≡ cs ++ components middle
add_middle-Builds separator cs middle b h v = elim (Bool-cases b.is_first_non_empty) [
  | inl e ↦ rw e (
      components-separators b.output middle (v.first e)
      ∙ ap (λ x. x ++ components middle)
          (sym (AllSeparators-components b.output (v.first e)) ∙ v.out))
  | inr e ↦ rw e (
      ap components (append_assoc b.output (separator ∷ []) middle)
      ∙ pieces-append [] b.output separator middle h
      ∙ ap (λ x. x ++ components middle) v.out)
]

with_leading-kept :
    (part : Bytes) (i : ℕ) (b : Build)
    → ((with_leading part i b).last_path_part ≡ b.last_path_part)
      × ((with_leading part i b).leading ≡ true)
with_leading-kept part i b = elim (Bool-cases b.leading) [
  | inl e ↦ rw e (refl, refl)
  | inr e ↦ rw e (refl, refl)
]

add_part-Builds :
    (separator : ℕ) (cs : List Bytes) (part : Bytes) (b : Build)
    → is_separator separator ≡ true
    → Builds cs b
    → Builds (cs ++ components part) (add_part separator part b)
unfolding add_part
add_part-Builds separator cs part b h v =
    let begin_idx = first_non_separator_index part in
    let end_idx = first_trailing_separator_index part in
    let opened = record b { last_path_part = part; last_end_idx = end_idx } in
    let w = with_leading-Builds cs part b v (drop-first_trailing_separator_index part) in
    let (same, led) = with_leading-kept part begin_idx opened in
    elim (Bool-cases (leb end_idx begin_idx)) [
      | inl e ↦
          let all = part-AllSeparators part (leb→le end_idx begin_idx e) in
          let empty = AllSeparators-components part all in
          rw (e, add_part)
            (record {
              out = w.out ∙ sym (ap (λ x. cs ++ x) empty ∙ append-nil cs);
              first = w.first;
              unled = w.unled;
              tail = drop-AllSeparators _ _ (subst AllSeparators (sym same) all);
            })
      | inr e ↦
          rw (e, add_part)
            (record {
              out =
                  add_middle-Builds separator cs _ (with_leading part begin_idx opened) h w
                  ∙ ap (λ x. cs ++ x) (components-middle part (ground arith));
              first = λ x. cc;
              unled = λ x. cc;
              tail = w.tail;
            })
    ]

-- The components of all parts, in their order.
abbrev pub components_of : List Bytes → List Bytes
components_of [] = []
components_of (part ∷ parts) = components part ++ components_of parts

add_parts-Builds :
    (separator : ℕ) (parts : List Bytes) (cs : List Bytes) (b : Build)
    → is_separator separator ≡ true
    → Builds cs b
    → Builds (cs ++ components_of parts) (add_parts separator parts b)
unfolding add_parts
add_parts-Builds separator [] cs b h v = rw (append-nil cs) v
add_parts-Builds separator ([] ∷ parts) cs b h v = add_parts-Builds separator parts cs b h v
add_parts-Builds separator ((c ∷ part) ∷ parts) cs b h v =
    subst (λ x. Builds x (add_parts separator parts (add_part separator (c ∷ part) b)))
      (append_assoc cs (components (c ∷ part)) (components_of parts))
      (add_parts-Builds separator parts _ _ h (add_part-Builds separator cs (c ∷ part) b h v))

start-Builds : Builds [] (start_build [])
start-Builds = record { out = refl; first = λ _. tt; unled = λ _. refl; tail = tt }

end_build-components : (cs : List Bytes) (b : Build) → Builds cs b → components (end_build b) ≡ cs
end_build-components cs b v = pieces-separators [] b.output _ v.tail ∙ v.out

-- A path that is put together has the components of its parts, in their order, and no others:
-- empty parts and parts of separators add none, and the boundary of two parts neither joins nor
-- splits a component. The separator is a slash or a backslash.
pub components-cri_path_build :
    (separator : ℕ) (parts : List Bytes)
    → is_separator separator ≡ true
    → components (cri_path_build separator parts) ≡ components_of parts
unfolding cri_path_build
components-cri_path_build separator [] h = refl
components-cri_path_build separator ([] ∷ parts) h =
    end_build-components _ _
      (add_parts-Builds separator ([] ∷ parts) [] (start_build []) h start-Builds)
components-cri_path_build separator ((c ∷ part) ∷ parts) h =
    end_build-components _ _
      (add_parts-Builds separator ((c ∷ part) ∷ parts) [] (start_build []) h start-Builds)
