-- ===== src/Client/Handlers.antt =====
-- src/core/client.c: the handlers of birth, death, assert, statistic and log messages.
use criterion.Common.{ℕ, ◌+◌, Bool, true, false, not, ◌&&◌, ◌||◌}
use criterion.Common.{Option, none, some, List, [], ◌∷◌, Bytes, length, codes, bytes_eq}
use criterion.Common.{ltb, ◌==◌, if◌then◌else◌}
use criterion.Stats.{AssertStats, Counts, test_crash, assert}
use criterion.Stats.{u32, u64}
use criterion.Client.State.{cs_setup, cs_main, cs_teardown, Severity, warning, error, info}
use criterion.Client.State.{Param, Log, Report, log, report, undefined, null_name}
use criterion.Client.State.{null_params, Scope, emit, with_tstats}
use criterion.Client.State.{push_event_noreport, push_event}
use criterion.Client.Phases.{curstate, end_test, end_fini}

unfoldable pub handle_birth : Scope → Scope
handle_birth s = record s { client = record s.client { alive = true } }

-- criterion_protocol_death. The status is kept as the bits of an `int`.
pub data DeathResult : Type 0 where
  normal crash other : DeathResult

pub record Death : Type 0 where
  pub result : DeathResult
  pub status : ℕ

abbrev count_warning : Scope → Scope
count_warning s = record s { gstats = record s.gstats { warnings = u64 (s.gstats.warnings + 1) } }

-- `case CRASH`.
unfoldable pub death_by_crash : ℕ → Scope → Scope
unfolding push_event push_event_noreport
death_by_crash status s =
    let warned = count_warning (emit (log Log.other_crash) s) in
    let signalled = with_tstats (record s.client.tstats { signal = u32 status }) s in
    if not (curstate s.client.state == cs_main)
    then if ltb s.client.state cs_main then push_event_noreport test_crash warned else warned
    else if s.client.tstats.test.signal == 0
    then emit (log Log.test_crash) (push_event test_crash Report.test_crash signalled)
    else end_fini (end_test 0 signalled)

-- `case NORMAL`.
unfoldable pub death_normal : ℕ → Scope → Scope
unfolding push_event push_event_noreport
death_normal status s =
    let logged = emit (log Log.abnormal_exit) s in
    let exited = with_tstats (record s.client.tstats { exit_code = u32 status }) s in
    if curstate s.client.state == cs_teardown || s.client.state == cs_setup
    then if s.client.state == cs_setup then push_event_noreport test_crash logged else logged
    else if s.client.state == cs_main
    then end_fini (end_test 0 exited)
    else exited

unfoldable pub handle_death : Death → Scope → Scope
unfolding death_by_crash death_normal
handle_death death s =
    let dead = record s { client = record s.client { alive = false } } in
    elim death.result [
      | crash ↦ death_by_crash death.status dead
      | normal ↦ death_normal death.status dead
      | other ↦ dead
    ]

-- criterion_protocol_result. A `formatted` value carries the word that the code reads when it
-- takes the text for a parameter list.
pub data ResultValue : Type 0 where
  params : List Param → ResultValue
  formatted : Bytes → ℕ → ResultValue
  unset : ResultValue

pub record Result : Type 0 where
  pub repr : Bytes
  pub message : Option Bytes
  pub value : ResultValue

pub record Assert : Type 0 where
  pub message : Bytes
  pub passed : Bool
  pub file : Option Bytes
  pub line : Option ℕ
  pub results : List Result

-- `res->value.params->list_count`.
abbrev list_count : ResultValue → Option ℕ
list_count (params list) = some (length list)
list_count (formatted text word) = some word
list_count unset = none

abbrev is_null : Option Bytes → Bool
is_null none = true
is_null (some _) = false

-- `!strcmp(name, text)`, of a name that may be null.
abbrev name_is : Bytes → Param → Option Bool
name_is text p = elim p.name [ none ↦ none | some name ↦ some (bytes_eq name text) ]

-- The loop that logs each parameter.
unfoldable pub log_params : AssertStats → List Param → Scope → Scope
log_params asrt [] s = s
log_params asrt (p ∷ list) s = log_params asrt list (emit (log (Log.assert_param p)) s)

-- Two leading parameters named `actual` and `expected` are logged together.
unfoldable pub log_pair : AssertStats → Param → Param → List Param → Scope → Scope
unfolding log_params bytes_eq
log_pair asrt a e list s = elim (name_is (codes "actual") a) [
  | none ↦ emit (undefined null_name) s
  | some false ↦ log_params asrt (a ∷ e ∷ list) s
  | some true ↦ elim (name_is (codes "expected") e) [
    | none ↦ emit (undefined null_name) s
    | some false ↦ log_params asrt (a ∷ e ∷ list) s
    | some true ↦ log_params asrt list (emit (log (Log.assert_param_eq a e)) s)
  ]
]

unfoldable pub log_value : AssertStats → ResultValue → Scope → Scope
unfolding log_params log_pair
log_value asrt (params (a ∷ e ∷ list)) s = log_pair asrt a e list s
log_value asrt (params list) s = log_params asrt list s
log_value asrt (formatted text word) s = emit (log (Log.assert_formatted text)) s
log_value asrt unset s = s

-- One round of the loop over the results.
unfoldable pub log_result : AssertStats → Result → Scope → Scope
unfolding log_value
log_result asrt res s = elim (list_count res.value) [
  | none ↦ emit (undefined null_params) s
  | some n ↦
      if n == 0 && is_null res.message
      then s
      else log_value asrt res.value (emit (log (Log.assert_sub res.repr res.message)) s)
]

unfoldable pub log_results : AssertStats → List Result → Scope → Scope
unfolding log_result
log_results asrt [] s = s
log_results asrt (res ∷ results) s = log_results asrt results (log_result asrt res s)

abbrev or_default {ℓ} : {A : Type ℓ} → A → Option A → A
or_default d none = d
or_default d (some a) = a

-- The line, an int64_t of the message, is kept in an `unsigned`.
abbrev pub assert_stats : Assert → AssertStats
assert_stats asrt = record {
  message = asrt.message;
  passed = asrt.passed;
  line = u32 (or_default 0 asrt.line);
  file = or_default (codes "unknown") asrt.file;
}

unfoldable pub handle_assert : Assert → Scope → Scope
unfolding push_event_noreport log_results
handle_assert asrt s =
    let stats = assert_stats asrt in
    log_results stats asrt.results (
      emit (log (Log.assert stats))
        (emit (report Report.assert) (push_event_noreport (assert stats) s)))

-- criterion_protocol_statistic, with the number of its value if it has one.
pub record Statistic : Type 0 where
  pub key : Bytes
  pub num : Option ℕ

abbrev add_passed : ℕ → Counts → Counts
add_passed n c = record c {
  asserts_passed = u64 (c.asserts_passed + n);
  nb_asserts = u64 (c.nb_asserts + n);
}

abbrev count_passed_asserts : ℕ → Scope → Scope
count_passed_asserts n s = record s {
  gstats = record s.gstats { counts = add_passed n s.gstats.counts };
  sstats = record s.sstats { counts = add_passed n s.sstats.counts };
  client = record s.client {
    tstats = record s.client.tstats { passed_asserts = u32 (s.client.tstats.passed_asserts + n) };
  };
}

unfoldable pub handle_statistic : Statistic → Scope → Scope
unfolding bytes_eq
handle_statistic stat s = elim stat.num [
  | none ↦ s
  | some n ↦ if bytes_eq stat.key (codes ".asserts_passed") then count_passed_asserts n s else s
]

-- criterion_protocol_log.
unfoldable pub handle_message : Severity → Bytes → Scope → Scope
handle_message severity text s =
    let logged = emit (log (Log.message severity text)) s in
    let g = logged.gstats in
    elim severity [
      | info ↦ logged
      | warning ↦ record logged { gstats = record g { warnings = u64 (g.warnings + 1) } }
      | error ↦ record logged { gstats = record g { errors = u64 (g.errors + 1) } }
    ]
