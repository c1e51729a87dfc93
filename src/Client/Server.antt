-- ===== src/Client/Server.antt =====
-- src/core/client.c: the tables of clients, and the dispatch of a message.
-- A khash table is a function from keys to values, its integer keys of 32 bits; the suite
-- statistics, which clients share, are kept by their numbers.
use criterion.Common.{ℕ, ◌+◌, Bool, true, false, not, ◌&&◌, Option, none, some, List, [], ◌∷◌}
use criterion.Common.{Bytes, bytes_eq, ◌==◌, if◌then◌else◌}
use criterion.Stats.{TestData, GlobalStats, SuiteStats, suite_stats_init, test_stats_init, u32}
use criterion.Client.State.{Severity, Diagnostic, invalid_version, not_a_child, no_birth}
use criterion.Client.State.{malformed_id, Output, ack, worker, extern, ClientCtx}
use criterion.Client.State.{Scope, emit}
use criterion.Client.Phases.{Phase, handle_phase}
use criterion.Client.Handlers.{Death, Assert, Statistic, handle_birth, handle_death}
use criterion.Client.Handlers.{handle_assert, handle_statistic, handle_message}

-- The value of a submessage; `unknown` is one that no entry of message_handlers takes.
pub data Value : Type 0 where
  birth : Value
  phase : Phase → Value
  death : Death → Value
  message : Severity → Bytes → Value
  assert : Assert → Value
  statistic : Statistic → Value
  unknown : Value

pub data MsgId : Type 0 where
  pid : ℕ → MsgId
  uid : Bytes → MsgId
  no_id : MsgId

pub record Msg : Type 0 where
  pub version : ℕ
  pub id : MsgId
  pub value : Value

-- struct server_ctx. `fresh` numbers the statistics that are allocated next.
pub record Server : Type 0 where
  pub gstats : GlobalStats
  pub suites : ℕ → SuiteStats
  pub extern_sstats : ℕ
  pub subprocesses : ℕ → Option ClientCtx
  pub clients : Bytes → Option ClientCtx
  pub fresh : ℕ
  pub out : List Output

abbrev pub update : {A : Type 0} → (ℕ → A) → ℕ → A → ℕ → A
update f k a j = if j == k then a else f j

abbrev pub update_uid : {A : Type 0} → (Bytes → A) → Bytes → A → Bytes → A
update_uid f k a j = if bytes_eq j k then a else f j

unfoldable pub init_server_context : GlobalStats → ℕ → (ℕ → SuiteStats) → Server
unfolding suite_stats_init
init_server_context gstats fresh suites = record {
  gstats = gstats;
  suites = update suites fresh (suite_stats_init fresh);
  extern_sstats = fresh;
  subprocesses = λ _. none;
  clients = λ _. none;
  fresh = fresh + 1;
  out = [];
}

unfoldable pub add_client_from_worker : ℕ → ClientCtx → Server → Server
add_client_from_worker key ctx sctx = record sctx {
  subprocesses = update sctx.subprocesses (u32 key) (some (record ctx { kind = worker }));
}

unfoldable pub remove_client_by_pid : ℕ → Server → Server
remove_client_by_pid key sctx = record sctx {
  subprocesses = update sctx.subprocesses (u32 key) none;
}

-- The test of an external client: its extra data are zero.
abbrev extern_test : Bytes → TestData
extern_test id = record {
  name = id;
  line_ = 0;
  file_ = [];
  signal = 0;
  exit_code = 0;
  disabled = false;
}

abbrev extern_client : Bytes → Server → ClientCtx
extern_client id sctx = record {
  kind = extern;
  elapsed = 0;
  state = 0;
  alive = false;
  start_time = 0;
  suite = sctx.extern_sstats;
  tstats = test_stats_init sctx.fresh (extern_test id);
}

unfoldable pub add_external_client : Bytes → Server → Server
unfolding test_stats_init
add_external_client id sctx = record sctx {
  clients = update_uid sctx.clients id (some (extern_client id sctx));
  fresh = sctx.fresh + 1;
}

-- The table message_handlers: the handler's scope, and whether it has answered.
unfoldable pub handle : Value → Scope → Scope × Bool
unfolding handle_phase handle_death handle_assert handle_statistic handle_message handle_birth
handle birth s = (handle_birth s, false)
handle (phase p) s = handle_phase p s
handle (death d) s = (handle_death d s, false)
handle (message severity text) s = (handle_message severity text s, false)
handle (assert a) s = (handle_assert a s, false)
handle (statistic x) s = (handle_statistic x s, false)
handle unknown s = (s, false)

unfoldable pub process_client_message_impl : Value → Scope → Scope
unfolding handle
process_client_message_impl value s =
    let (s', answered) = handle value s in if answered then s' else emit (ack true) s'

-- The view of a client, and the server after a handler has changed it.
abbrev pub scope_of : ClientCtx → Server → Scope
scope_of client sctx = record {
  client = client;
  gstats = sctx.gstats;
  sstats = sctx.suites client.suite;
  out = sctx.out;
}

abbrev put_scope : ℕ → Scope → Server → Server
put_scope suite s sctx = record sctx {
  gstats = s.gstats;
  suites = update sctx.suites suite s.sstats;
  out = s.out;
}

-- handler_error before any client is known.
abbrev pub refuse : Diagnostic → Server → Server
refuse d sctx = record sctx { out = ack false ∷ Output.perror d ∷ sctx.out }

abbrev is_birth : Value → Bool
is_birth birth = true
is_birth _ = false

unfoldable pub process_pid : ℕ → Value → Server → Server × Option ClientCtx
unfolding process_client_message_impl
process_pid key value sctx = elim (sctx.subprocesses (u32 key)) [
  | none ↦ (refuse (not_a_child key) sctx, none)
  | some client ↦
      let s = process_client_message_impl value (scope_of client sctx) in
      let stored = put_scope client.suite s sctx in
      (
        record stored { subprocesses = update stored.subprocesses (u32 key) (some s.client) },
        some s.client,
      )
]

unfoldable pub process_uid : Bytes → Value → Server → Server × Option ClientCtx
unfolding process_client_message_impl
process_uid key value sctx = elim (sctx.clients key) [
  | none ↦ (refuse (no_birth key) sctx, none)
  | some client ↦
      let s = process_client_message_impl value (scope_of client sctx) in
      let stored = put_scope client.suite s sctx in
      (record stored { clients = update_uid stored.clients key (some s.client) }, some s.client)
]

abbrev is_known : Bytes → Server → Bool
is_known key sctx = elim (sctx.clients key) [ none ↦ false | some _ ↦ true ]

-- A birth message from an unknown external client adds the client.
unfoldable pub register : Bytes → Value → Server → Server
unfolding add_external_client
register key value sctx =
    if is_birth value && not (is_known key sctx) then add_external_client key sctx else sctx

-- The `switch` on the kind of the identifier.
unfoldable pub process_id : MsgId → Value → Server → Server × Option ClientCtx
unfolding process_pid process_uid register
process_id (pid key) value sctx = process_pid key value sctx
process_id (uid key) value sctx = process_uid key value (register key value sctx)
process_id no_id value sctx = (refuse malformed_id sctx, none)

-- The client that the message is from, as it then is; `none` for a message that is dropped.
unfoldable pub process_client_message : Msg → Server → Server × Option ClientCtx
unfolding process_id
process_client_message msg sctx =
    if msg.version == 1
    then process_id msg.id msg.value sctx
    else (refuse (invalid_version msg.version) sctx, none)
