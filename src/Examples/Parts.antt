-- ===== src/Examples/Parts.antt =====
-- Runs of src/core/theories.c, assert.c, test.c and of src/string/xxd.c on small inputs.
use criterion.Client.State.{PhaseKind, setup, main, extern}
use criterion.Client.Phases.{handle_timeout}
use criterion.Client.Handlers.{normal}
use criterion.Client.Server.{Value, process_client_message_impl}
use criterion.Client.Answers.{undefineds}
use criterion.Common.{ℕ, zero, ◌*◌, ◌+◌, ◌≤◌, ◌≡◌, refl, true, false, none, some, arith}
use criterion.Common.{Bool, Option, List, [], ◌∷◌, ◌++◌, Bytes, codes, length, ltb, leb, ◌&&◌}
use criterion.Stats.{failed, push_post_test, u64}
use criterion.Stats.Counters.{finished}
use criterion.Client.State.{stats_of, str}
use criterion.Client.Lifecycle.{outer, in_main, encode}
use criterion.Client.Handlers.{Assert, handle_assert, assert_stats}
use criterion.Theories
use criterion.Theories.{Ending, returned, Message, Call, ran, cr_theory_main}
use criterion.Theories.Enumeration.{combinations, cr_theory_main-combinations}
use criterion.Theories.Enumeration.{cr_theory_main-endless}
use criterion.Theories.Rounds.{AllTaken, handle_all, counted, cr_theory_main-AllTaken}
use criterion.Assertions.{Node, node, nil, cons, maxchild_after, leaf_count}
use criterion.Assertions.{cri_assert_node_send, sent}
use criterion.Assertions.Leaves.{maxchild_after_bounds, cri_assert_node_send-sent}
use criterion.Assertions.Failing.{handle_assert-fails}
use criterion.Xxd.{cri_string_xxd, allocated}
use criterion.Xxd.Bounds.{length-cri_string_xxd}
use criterion.Xxd.Reading.{read, address, read-cri_string_xxd}
use criterion.Child.{both, UserCode, asserted, logged, exited, crashed, run_test_child, heard}
use criterion.Child.Closing.{hear, Accepts}
use criterion.Child.Counting.{run_test_child-counted}
use criterion.Examples.Runs.{client_in}

abbrev an_assert : Assert
an_assert = record { message = codes "0"; passed = false; file = none; line = some 5; results = [] }

-- The test fails on the first data points.
abbrev on_indices : List ℕ → Call
on_indices (zero ∷ zero ∷ []) = record {
  said = Theories.asserted an_assert ∷ [];
  ending = Ending.failed;
}
on_indices _ = record { said = []; ending = returned }

abbrev shown_index : ℕ → ℕ → Bytes
shown_index i index = (b'0' + index) ∷ []

two_by_two :
    combinations (2 ∷ 2 ∷ []) ≡ (0 ∷ 0 ∷ []) ∷ (1 ∷ 0 ∷ []) ∷ (0 ∷ 1 ∷ []) ∷ (1 ∷ 1 ∷ []) ∷ []
two_by_two = refl

cr_theory_main-combinations_example :
    (messages : List Message) × (cr_theory_main on_indices shown_index (2 ∷ 2 ∷ []) 4
      ≡ some (ran (combinations (2 ∷ 2 ∷ [])) messages))
cr_theory_main-combinations_example =
    cr_theory_main-combinations on_indices shown_index 2 (2 ∷ []) 4
      ((omega arith, omega arith), ((omega arith, omega arith), tt)) (omega arith)

cr_theory_main-endless_example : cr_theory_main on_indices shown_index [] 5 ≡ none
cr_theory_main-endless_example = cr_theory_main-endless on_indices shown_index 5 (λ x. cc)

cr_theory_main-AllTaken_example :
    (messages : List Message) × (cr_theory_main on_indices shown_index (2 ∷ 2 ∷ []) 4
      ≡ some (ran (combinations (2 ∷ 2 ∷ [])) messages))
    × AllTaken 3 messages (client_in 1)
    × ((handle_all 3 messages (client_in 1)).client.state ≡ encode (outer in_main))
    × (stats_of (handle_all 3 messages (client_in 1)) ≡ counted messages (stats_of (client_in 1)))
cr_theory_main-AllTaken_example =
    cr_theory_main-AllTaken on_indices shown_index 2 (2 ∷ []) 4 3 (client_in 1)
      ((omega arith, omega arith), ((omega arith, omega arith), tt)) (omega arith) refl

-- `a == b` within an assertion that all of two conditions hold.
abbrev leaf : Bool → Node
leaf pass =
    node
      (record {
        repr = codes "a == b";
        message = none;
        params =
            record { name = codes "actual"; value = str (codes "first") }
            ∷ record { name = codes "expected"; value = str (codes "second") }
            ∷ [];
        pass = pass;
      })
      nil

abbrev tree : Node
tree =
    node (record { repr = codes "all"; message = none; params = []; pass = false })
      (cons (leaf true) (cons (leaf false) nil))

abbrev both_texts : Bytes → Bytes → Option Bytes
both_texts a e = some (a ++ e)

abbrev same_text : Bytes → Bytes
same_text s = s

cri_assert_node_send-sent_example :
    (m : Assert) × (cri_assert_node_send both_texts same_text length (codes "a.c") 3 [] tree
      ≡ sent m)
    × (m.passed ≡ false)
    × (length m.results ≤ leaf_count tree)
cri_assert_node_send-sent_example =
    cri_assert_node_send-sent both_texts same_text length (λ a e x. cc) (codes "a.c") 3 [] tree refl
      (((λ x. cc), ((λ x. cc), tt)), (tt, (((λ x. cc), ((λ x. cc), tt)), (tt, tt))))

one_leaf : leaf_count tree ≡ 1
unfolding leaf_count
one_leaf = refl

maxchild_after_bounds_example : (5 ≤ maxchild_after 5) × (maxchild_after 5 ≤ 2 * 5 + 3)
maxchild_after_bounds_example = maxchild_after_bounds 5 (omega arith)

five_children : maxchild_after 5 ≡ 6
unfolding maxchild_after
five_children = refl

handle_assert-fails_example :
    let s' = push_post_test 9 (stats_of (handle_assert an_assert (client_in 1))) in
    (s'.tstats.test_status ≡ failed) × (s'.tstats.asserts ≡ assert_stats an_assert ∷ [])
handle_assert-fails_example = handle_assert-fails an_assert (client_in 1) 9 refl (omega arith)

abbrev is_ascii : ℕ → Bool
is_ascii c = leb 32 c && ltb c 127

-- The dump of "Criterion".
dumped :
    cri_string_xxd is_ascii (codes "Criterion") 0
    ≡ codes "00: 43726974 6572696f 6e                 Criterion       " ++ 10 ∷ []
unfolding cri_string_xxd
dumped = refl

length-cri_string_xxd_example :
    length (cri_string_xxd is_ascii (codes "Criterion") 0) + 1 ≤ allocated 9
length-cri_string_xxd_example = length-cri_string_xxd is_ascii (codes "Criterion") 0 (omega arith)

read-cri_string_xxd_example : read address (cri_string_xxd is_ascii (1 ∷ 255 ∷ []) 7) ≡ 1 ∷ 255 ∷ []
read-cri_string_xxd_example =
    read-cri_string_xxd is_ascii refl (1 ∷ 255 ∷ []) 7 (omega arith, (omega arith, tt))

abbrev quiet_fixture : UserCode
quiet_fixture = record { remarks = []; ending = criterion.Child.returned }

abbrev crashing : UserCode
crashing = record { remarks = asserted an_assert ∷ []; ending = crashed 11 }

run_test_child-counted_example :
    let values = heard 5 (
      run_test_child
        (λ k. 3)
        false
        0
        quiet_fixture
        quiet_fixture
        crashing
        quiet_fixture
        quiet_fixture) in
    let s' = hear values (client_in 0) in
    Accepts values (client_in 0)
    × (u64 (finished s'.sstats.counts) ≡ u64 (finished (client_in 0).sstats.counts + 1))
    × (s'.client.alive ≡ false)
unfolding both
run_test_child-counted_example =
    run_test_child-counted (λ k. 3) 5 false 0 quiet_fixture quiet_fixture crashing quiet_fixture
      quiet_fixture (client_in 0) refl (λ x. cc) tt (tt, tt) tt tt

abbrev nested_phase_of : PhaseKind → Value
nested_phase_of k = Value.phase (record { phase = k; timestamp = 0; message = none })

-- A worker that exits within a round of a theory is counted as finished by no message.
exit_in_round :
    let values =
      nested_phase_of setup
      ∷ nested_phase_of main
      ∷ Value.death (record { result = normal; status = 3 })
      ∷ [] in
    finished (hear values (client_in 1)).sstats.counts ≡ finished (client_in 1).sstats.counts
unfolding process_client_message_impl
exit_in_round = refl

-- A TIMEOUT message of an external client reads the run time of an instance that it does not have.
timeout_of_extern :
    let s = client_in 1 in
    undefineds (handle_timeout (record s { client = record s.client { kind = extern } })).out ≡ 1
unfolding handle_timeout
timeout_of_extern = refl
