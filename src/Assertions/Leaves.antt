-- ===== src/Assertions/Leaves.antt =====
-- src/core/assert.c: the children and the results have room in their arrays, and the message is a
-- failed assertion of the test.
use criterion.Common.{ℕ, zero, suc, ◌+◌, ◌*◌, ◌^◌, ◌≤◌, ◌<◌, ◌≡◌, refl, ap, ◌⊎◌, inl, inr, arith}
use criterion.Common.{Bool, true, false, not, Bool-cases, Option, none, some, List, []}
use criterion.Common.{◌∷◌, ◌++◌, Bytes, length, length-append, leb, ◌≢◌}
use criterion.Client.State.{Param, ParamValue, raw, str, unset}
use criterion.Client.Handlers.{Result, Assert}
use criterion.Assertions.{
  Node, Nodes, NodeData, NodeParam, node, nil, cons, data_of, grown, maxchild_after,
}
use criterion.Assertions.{cri_assert_node_negate, negate_all, leaf_count, leaf_counts, Collected}
use criterion.Assertions.{
  result, uninitialised, dies, written, has_died, make_objs, digest_objs, collect_leaves,
  collect_children, all_results, digest_params,
}
use criterion.Assertions.{formatted_by, skip_passed, is_diff}
use criterion.Common.{All, if_cases}
use criterion.Assertions.{own_or, cri_assert_node_send, sent}

grown_bounds :
    (nchild maxchild : ℕ)
    → nchild ≤ maxchild
    → maxchild ≤ 2 * nchild + 3
    → nchild < 2 ^ 30
    → (nchild < grown nchild maxchild) × (grown nchild maxchild ≤ 2 * nchild + 5)
unfolding grown
grown_bounds nchild maxchild h k l = ground arith

-- However many children are added to a node, up to 2^30: the array of children has room for all of
-- them, and is no longer than twice their number and three.
pub maxchild_after_bounds :
    (n : ℕ) → n ≤ 2 ^ 30 → (n ≤ maxchild_after n) × (maxchild_after n ≤ 2 * n + 3)
unfolding maxchild_after
maxchild_after_bounds zero h = (omega arith, omega arith)
maxchild_after_bounds (suc n) h =
    let (a, b) = maxchild_after_bounds n (omega arith) in
    omega (arith, grown_bounds n (maxchild_after n) a b (omega arith))

not-not : (b : Bool) → not (not b) ≡ b
not-not true = refl
not-not false = refl

mutual
  unfolding cri_assert_node_negate

  negate_twice : (n : Node) → cri_assert_node_negate (cri_assert_node_negate n) ≡ n
  negate_twice (node d children) = rw (not-not d.pass, negate_all_twice children) refl

  negate_all_twice : (ns : Nodes) → negate_all (negate_all ns) ≡ ns
  negate_all_twice nil = refl
  negate_all_twice (cons n rest) = cc (negate_twice n, negate_all_twice rest)

leb_of_le : (a b : ℕ) → a ≤ b → leb a b ≡ true
leb_of_le a b h = ground arith

-- The type of a parameter is one of the two known ones.
abbrev pub KnownType : NodeParam → Type 0
KnownType p = p.value ≢ unset

abbrev pub children_of : Node → Nodes
children_of (node d children) = children

-- The parameters of all nodes have known types.
abbrev pub KnownTypes : Nodes → Type 0
KnownTypes nil = Unit {0}
KnownTypes (cons (node d children) rest) =
    All KnownType d.params × (KnownTypes children × KnownTypes rest)

value_of : (v : ParamValue) → v ≢ unset → ((d : Bytes) × (v ≡ raw d)) ⊎ ((t : Bytes) × (v ≡ str t))
value_of (raw d) n = inl (d, refl)
value_of (str t) n = inr (t, refl)
value_of unset n = absurd (n refl)

module _ (diff : Bytes → Bytes → Option Bytes) (raw_text : Bytes → Bytes)
    (word_of : Bytes → ℕ) where
  own_or-length :
      (d : NodeData) (ps : List NodeParam) (leaves : List Collected)
      → length (own_or diff raw_text word_of d ps leaves) ≤ suc (length leaves)
  own_or-length d [] leaves = omega arith
  own_or-length d (p ∷ ps) leaves = omega arith

  collect_children-length :
      (ns : Nodes) → length (collect_children diff raw_text word_of ns) ≤ leaf_counts ns
  unfolding collect_leaves leaf_count
  collect_children-length nil = omega arith
  collect_children-length (cons (node d children) rest) = elim (Bool-cases d.pass) [
    | inl e ↦ rw e (omega (arith, collect_children-length rest))
    | inr e ↦ rw e (
        omega (
          arith,
          collect_children-length rest,
          collect_children-length children,
          own_or-length d d.params (collect_children diff raw_text word_of children),
          length-append
              (own_or diff raw_text word_of d d.params
                (collect_children diff raw_text word_of children))
              (collect_children diff raw_text word_of rest),
        ))
  ]

  collect_leaves-le :
      (n : Node)
      → (data_of n).params ≡ []
      → length (collect_leaves diff raw_text word_of n) ≤ leaf_count n
  unfolding collect_leaves leaf_count
  collect_leaves-le (node d children) e = rw e (collect_children-length children)

  -- No pointer is uninitialised, and the test goes on.
  abbrev IsResult : Collected → Type 0
  IsResult (result r) = Unit {0}
  IsResult uninitialised = ⊥
  IsResult dies = ⊥

  all_results-some :
      (leaves : List Collected)
      → All IsResult leaves
      → (rs : List Result) × (all_results diff raw_text word_of leaves ≡ some rs)
        × (length rs ≡ length leaves)
  all_results-some [] h = ([], refl, refl)
  all_results-some (uninitialised ∷ leaves) h = absurd h.0
  all_results-some (dies ∷ leaves) h = absurd h.0
  all_results-some (result r ∷ leaves) h =
      let (rs, e, n) = all_results-some leaves h.1 in (r ∷ rs, rw e refl, omega arith)

  written-IsResult :
      (leaves : List Collected)
      → All IsResult leaves
      → (written diff raw_text word_of leaves ≡ leaves)
        × (has_died diff raw_text word_of leaves ≡ false)
  written-IsResult [] h = (refl, refl)
  written-IsResult (uninitialised ∷ leaves) h = absurd h.0
  written-IsResult (dies ∷ leaves) h = absurd h.0
  written-IsResult (result r ∷ leaves) h =
      let (e, f) = written-IsResult leaves h.1 in (ap (λ ls. result r ∷ ls) e, f)

  All-append :
      (xs ys : List Collected) → All IsResult xs → All IsResult ys → All IsResult (xs ++ ys)
  All-append [] ys h k = k
  All-append (x ∷ xs) ys h k = (h.0, All-append xs ys h.1 k)

  make_objs-some :
      (ps : List NodeParam)
      → All KnownType ps
      → (objs : List Param) × (make_objs diff raw_text word_of ps ≡ some objs)
  make_objs-some [] h = ([], refl)
  make_objs-some (p ∷ ps) h =
      let (objs, e) = make_objs-some ps h.1 in
      elim (value_of p.value h.0) [
        | inl (d, f) ↦ (record { name = some p.name; value = raw d } ∷ objs, rw (f, e) refl)
        | inr (t, f) ↦ (record { name = some p.name; value = str t } ∷ objs, rw (f, e) refl)
      ]

  digest_objs-IsResult :
      (d : NodeData) (ps : List NodeParam)
      → All KnownType ps
      → IsResult (digest_objs diff raw_text word_of d (make_objs diff raw_text word_of ps))
  digest_objs-IsResult d ps h = let (objs, e) = make_objs-some ps h in rw e tt

  module _ (total : (a e : Bytes) → diff a e ≢ none) where
    formatted_by-IsResult :
        (d : NodeData) (o : Option Bytes)
        → o ≢ none
        → IsResult (formatted_by diff raw_text word_of d o)
    formatted_by-IsResult d none n = absurd (n refl)
    formatted_by-IsResult d (some text) n = tt

    digest_params-IsResult :
        (d : NodeData) (ps : List NodeParam)
        → All KnownType ps
        → IsResult (digest_params diff raw_text word_of d ps)
    unfolding digest_params
    digest_params-IsResult d [] h = tt
    digest_params-IsResult d (p ∷ []) h = digest_objs-IsResult d (p ∷ []) h
    digest_params-IsResult d (p ∷ q ∷ r ∷ ps) h = digest_objs-IsResult d (p ∷ q ∷ r ∷ ps) h
    digest_params-IsResult d (p ∷ q ∷ []) h =
        elim (Bool-cases (is_diff diff raw_text word_of p q)) [
          | inl e ↦ rw (e, digest_params) (formatted_by-IsResult d _ (total _ _))
          | inr e ↦ rw (e, digest_params) (digest_objs-IsResult d (p ∷ q ∷ []) h)
        ]

    own_or-IsResult :
        (d : NodeData) (ps : List NodeParam) (leaves : List Collected)
        → All KnownType ps
        → All IsResult leaves
        → All IsResult (own_or diff raw_text word_of d ps leaves)
    own_or-IsResult d [] leaves k h = h
    own_or-IsResult d (p ∷ ps) leaves k h = (digest_params-IsResult d (p ∷ ps) k, tt)

    collect_children-IsResult :
        (ns : Nodes) → KnownTypes ns → All IsResult (collect_children diff raw_text word_of ns)
    unfolding collect_leaves
    collect_children-IsResult nil k = tt
    collect_children-IsResult (cons (node d children) rest) (ps, (below, behind)) =
        All-append (skip_passed diff raw_text word_of d.pass _)
          (collect_children diff raw_text word_of rest)
          (if_cases (All IsResult) d.pass (λ _. tt)
            (λ _. own_or-IsResult d d.params _ ps (collect_children-IsResult children below)))
          (collect_children-IsResult rest behind)

    -- The tree of an assertion has no parameters at its root and below it none of an unknown type,
    -- and the diff of two texts does not fail. Then the results that are collected have room in their array, and the message is sent.
    pub cri_assert_node_send-sent :
        (file : Bytes) (line : ℕ) (message : Bytes) (tree : Node)
        → (data_of tree).params ≡ []
        → KnownTypes (children_of tree)
        → (m : Assert) × (cri_assert_node_send diff raw_text word_of file line message tree
            ≡ sent m)
          × (m.passed ≡ false)
          × (length m.results ≤ leaf_count tree)
    unfolding cri_assert_node_send collect_leaves
    cri_assert_node_send-sent file line message (node d children) e types =
        let leaves = collect_children diff raw_text word_of children in
        let (rs, q, n) = all_results-some leaves (collect_children-IsResult children types) in
        let (all, alive) = written-IsResult leaves (collect_children-IsResult children types) in
        let k = collect_children-length children in
        (
          record {
            message = message;
            passed = false;
            file = some file;
            line = some line;
            results = rs;
          },
          rw (e, all, leb_of_le _ _ k, alive, q) refl,
          refl,
          omega arith,
        )
