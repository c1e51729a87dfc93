-- ===== src/Assertions.antt =====
-- src/core/assert.c: the tree of an assertion's results, and the message that reports it.
-- A node's children are a list, whose allocated length `maxchild` is counted apart. What the diff
-- of two texts gives is an argument, since it is a library's; so is what `strlen` finds in a raw
-- value, which is no string, and the word that a formatted text is when it is read as a list.
pub mod Leaves
pub mod Failing
use criterion.Common.{ℕ, zero, suc, ◌+◌, ◌*◌, ◌/◌, ◌%◌, ◌^◌, Bool, true, false, not, ◌&&◌, ◌||◌}
use criterion.Common.{Option, none, some, List, [], ◌∷◌, ◌++◌, Bytes, codes, bytes_eq, length, leb}
use criterion.Common.{◌==◌, if◌then◌else◌, map}
use criterion.Stats.{u32}
use criterion.Client.State.{ParamValue, raw, str, unset, Param}
use criterion.Client.Handlers.{Result, ResultValue, params, formatted, Assert}

-- struct cri_assert_param, with a name.
pub record NodeParam : Type 0 where
  pub name : Bytes
  pub value : ParamValue

-- struct cri_assert_node, without its children.
pub record NodeData : Type 0 where
  pub repr : Bytes
  pub message : Option Bytes
  pub params : List NodeParam
  pub pass : Bool

mutual
  pub data Node : Type 0 where
    node : NodeData → Nodes → Node

  pub data Nodes : Type 0 where
    nil : Nodes
    cons : Node → Nodes → Nodes

abbrev pub data_of : Node → NodeData
data_of (node d children) = d

abbrev pub children_of : Node → Nodes
children_of (node d children) = children

-- `maxchild` behind cri_assert_node_add: `(maxchild + 1u) * 1.5`, cut to an integer, when there is
-- no room for one more child than the new one.
unfoldable pub grown : ℕ → ℕ → ℕ
grown nchild maxchild =
    if leb maxchild (u32 (nchild + 1)) then u32 (u32 (maxchild + 1) * 3 / 2) else maxchild

-- `maxchild` of a node behind `n` calls of cri_assert_node_add, from cri_assert_node_init.
unfoldable pub maxchild_after : ℕ → ℕ
unfolding grown
maxchild_after zero = 0
maxchild_after (suc n) = let before = maxchild_after n in grown n before

abbrev pub append_node : Nodes → Node → Nodes
append_node nil n = cons n nil
append_node (cons m rest) n = cons m (append_node rest n)

-- The new child is the last one.
unfoldable pub cri_assert_node_add : Node → Node → Node
cri_assert_node_add (node d children) n = node d (append_node children n)

unfoldable mutual
  pub cri_assert_node_negate : Node → Node
  cri_assert_node_negate (node d children) =
      node (record d { pass = not d.pass }) (negate_all children)

  pub negate_all : Nodes → Nodes
  negate_all nil = nil
  negate_all (cons n rest) = cons (cri_assert_node_negate n) (negate_all rest)

abbrev count_failed : Bool → ℕ → ℕ
count_failed pass count = if pass then count else suc count

unfoldable mutual
  pub leaf_count : Node → ℕ
  leaf_count (node d children) = leaf_counts children

  pub leaf_counts : Nodes → ℕ
  leaf_counts nil = 0
  leaf_counts (cons (node d children) rest) =
      count_failed d.pass (leaf_counts children) + leaf_counts rest

-- An entry of `results`. When the diff fails, the pointer to the text is not initialised. At a
-- parameter of unknown type the test dies.
pub data Collected : Type 0 where
  result : Result → Collected
  uninitialised dies : Collected

abbrev has_newline : Bytes → Bool
has_newline [] = false
has_newline (c ∷ s) = c == 10 || has_newline s

module _ (diff : Bytes → Bytes → Option Bytes) (raw_text : Bytes → Bytes)
    (word_of : Bytes → ℕ) where
  -- The bytes that `strlen` and `strchr` read of a parameter's data.
  abbrev text_of : ParamValue → Bytes
  text_of (raw d) = raw_text d
  text_of (str s) = s
  text_of unset = []

  -- criterion_test_die if the type of the parameter is unknown.
  abbrev make_obj : NodeParam → Option Param
  make_obj p = elim p.value [
    | raw d ↦ some (record { name = some p.name; value = raw d })
    | str s ↦ some (record { name = some p.name; value = str s })
    | unset ↦ none
  ]

  -- `process_params`.
  abbrev make_objs : List NodeParam → Option (List Param)
  make_objs [] = some []
  make_objs (p ∷ ps) = elim (make_obj p) [
    | none ↦ none
    | some obj ↦ elim (make_objs ps) [ none ↦ none | some objs ↦ some (obj ∷ objs) ]
  ]

  abbrev digest : NodeData → ResultValue → Collected
  digest d v = result (record { repr = d.repr; message = d.message; value = v })

  abbrev digest_objs : NodeData → Option (List Param) → Collected
  digest_objs d none = dies
  digest_objs d (some objs) = digest d (params objs)

  -- A pair of short texts of one line is shown as it is.
  abbrev is_short : Bytes → Bool
  is_short s = leb (length s) 30 && not (has_newline s)

  abbrev formatted_by : NodeData → Option Bytes → Collected
  formatted_by d none = uninitialised
  formatted_by d (some text) = digest d (formatted text (word_of text))

  -- The two texts of a pair, each ended by a newline.
  abbrev formatted_diff : NodeData → Bytes → Bytes → Collected
  formatted_diff d a e = formatted_by d (diff (a ++ 10 ∷ []) (e ++ 10 ∷ []))

  -- Two parameters of these names are shown as a diff, unless both texts are short.
  abbrev is_diff : NodeParam → NodeParam → Bool
  is_diff p q =
      bytes_eq p.name (codes "actual")
      && bytes_eq q.name (codes "expected")
      && not (is_short (text_of p.value) && is_short (text_of q.value))

  -- The result of a node that has parameters.
  unfoldable pub digest_params : NodeData → List NodeParam → Collected
  unfolding bytes_eq
  digest_params d (p ∷ q ∷ []) =
      if is_diff p q
      then formatted_diff d (text_of p.value) (text_of q.value)
      else digest_objs d (make_objs (p ∷ q ∷ []))
  digest_params d ps = digest_objs d (make_objs ps)

  abbrev skip_passed : Bool → List Collected → List Collected
  skip_passed pass leaves = if pass then [] else leaves

  -- A node with parameters stands for its children.
  abbrev own_or : NodeData → List NodeParam → List Collected → List Collected
  own_or d [] leaves = leaves
  own_or d (p ∷ ps) leaves = digest_params d (p ∷ ps) ∷ []

  unfoldable mutual
    unfolding digest_params

    pub collect_leaves : Node → List Collected
    collect_leaves (node d children) = own_or d d.params (collect_children children)

    pub collect_children : Nodes → List Collected
    collect_children nil = []
    collect_children (cons (node d children) rest) =
        skip_passed d.pass (own_or d d.params (collect_children children)) ++ collect_children rest

  -- What cri_assert_node_send comes to: the message, the death of the test, or a fault.
  pub data Sent : Type 0 where
    sent : Assert → Sent
    overflow : Sent
    bad_pointer : Sent
    test_dies : Sent

  abbrev all_results : List Collected → Option (List Result)
  all_results [] = some []
  all_results (uninitialised ∷ leaves) = none
  all_results (dies ∷ leaves) = none
  all_results (result r ∷ leaves) = elim (all_results leaves) [
    | none ↦ none
    | some rs ↦ some (r ∷ rs)
  ]

  abbrev message_of : Bytes → ℕ → Bytes → Option (List Result) → Sent
  message_of file line message none = bad_pointer
  message_of file line message (some rs) = sent (record {
    message = message;
    passed = false;
    file = some file;
    line = some line;
    results = rs;
  })

  -- The entries that are written, with the one at which the test dies as the last.
  abbrev written : List Collected → List Collected
  written [] = []
  written (dies ∷ leaves) = dies ∷ []
  written (leaf ∷ leaves) = leaf ∷ written leaves

  abbrev has_died : List Collected → Bool
  has_died [] = false
  has_died (dies ∷ leaves) = true
  has_died (leaf ∷ leaves) = has_died leaves

  -- The array has room for `leaf_count` results.
  unfoldable pub cri_assert_node_send : Bytes → ℕ → Bytes → Node → Sent
  unfolding collect_leaves leaf_count
  cri_assert_node_send file line message tree =
      let leaves = collect_leaves tree in
      if not (leb (length (written leaves)) (leaf_count tree))
      then overflow
      else if has_died leaves
      then test_dies
      else message_of file line message (all_results leaves)
