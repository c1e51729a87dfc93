-- ===== src/Theories/Rounds.antt =====
-- src/core/theories.c: what the server makes of the messages of a theory.
use criterion.Common.{ℕ, zero, suc, ◌+◌, ◌≤◌, ◌≡◌, refl, ap, map, ◌∙◌, subst, true, false, Bool}
use criterion.Common.{Option, none, some, List, [], ◌∷◌, ◌++◌, Bytes}
use criterion.Stats.{Stats, GlobalStats, u64, assert, stat_push_event}
use criterion.Client.State.{Scope, stats_of, setup, main, teardown, finish, abort}
use criterion.Client.Phases.{Phase, handle_phase, run_handler}
use criterion.Theories.Enumeration.{
  AreLengths, product, combinations, zeros, cr_theory_main-combinations,
}
use criterion.Client.Lifecycle.{
  Stage, Position, outer, nested, in_setup, in_main, in_teardown, encode,
}
use criterion.Client.Lifecycle.{follow, Handled, handle_phase-Handled, handle_phase-run_handler}
use criterion.Client.Accounting.{handle_phase-nested}
use criterion.Theories.{
  Ending, failed, RoundMessage, plain, without_text, end_messages, round_messages, go_on,
}
use criterion.Theories.{Message, phase_sent, remark, Remark, asserted, logged, Call, Run, around}
use criterion.Theories.{out_of_bounds, ran}
use criterion.Client.Handlers.{handle_assert, handle_message, assert_stats}
use criterion.Client.State.{Severity, info, warning, error, push_event_noreport}
use criterion.Assertions.Failing.{handle_assert-Quiet, handle_assert-stats}
use criterion.Theories.{theory_loop, cr_theory_main}

-- The phase message as the server reads it, at some time.
abbrev pub phase_of : ℕ → RoundMessage → Phase
phase_of now m = record { phase = m.phase; timestamp = now; message = m.message }

-- The handler of a message, and whether it has answered itself.
abbrev pub handle_message_of : ℕ → Message → Scope → Scope × Bool
handle_message_of now (phase_sent m) s = handle_phase (phase_of now m) s
handle_message_of now (remark (asserted a)) s = (handle_assert a s, false)
handle_message_of now (remark (logged severity text)) s = (handle_message severity text s, false)

-- The server takes every message, and the worker's scope behind the last one.
abbrev pub AllTaken : ℕ → List Message → Scope → Type 0
AllTaken now [] s = Unit
AllTaken now (m ∷ messages) s =
    ((handle_message_of now m s).1 ≡ false) × AllTaken now messages (handle_message_of now m s).0

abbrev pub handle_all : ℕ → List Message → Scope → Scope
handle_all now [] s = s
handle_all now (m ∷ messages) s = handle_all now messages (handle_message_of now m s).0

-- What an entry of the log counts.
abbrev count_log : Severity → GlobalStats → GlobalStats
count_log info g = g
count_log warning g = record g { warnings = u64 (g.warnings + 1) }
count_log error g = record g { errors = u64 (g.errors + 1) }

-- What the messages change of the statistics: only what the tested function has sent counts.
abbrev pub counted : List Message → Stats → Stats
counted [] c = c
counted (phase_sent m ∷ messages) c = counted messages c
counted (remark (asserted a) ∷ messages) c =
    counted messages (stat_push_event (assert (assert_stats a)) c)
counted (remark (logged severity text) ∷ messages) c =
    counted messages (record c { gstats = count_log severity c.gstats })

-- The server takes all messages, and is then at a position with the statistics `c`.
abbrev WalksFrom : ℕ → Stats → Scope → List Message → Position → Type 0
WalksFrom now c s messages q =
    AllTaken now messages s
    × ((handle_all now messages s).client.state ≡ encode q)
    × (stats_of (handle_all now messages s) ≡ counted messages c)

abbrev Walks : ℕ → Position → List Message → Position → Type 0
Walks now p messages q =
    (c : Stats) (s : Scope)
    → s.client.state ≡ encode p
    → stats_of s ≡ c
    → WalksFrom now c s messages q

Walks-step :
    (now : ℕ) (m : RoundMessage) (messages : List Message) (p q r : Position)
    → follow p m.phase ≡ some q
    → ((s : Scope)
        → s.client.state ≡ encode p
        → stats_of (handle_phase (phase_of now m) s).0 ≡ stats_of s)
    → Walks now q messages r
    → Walks now p (phase_sent m ∷ messages) r
Walks-step now m messages p q r f same w c s e k =
    let (t, here) =
      subst (Handled s (handle_phase (phase_of now m) s)) f
        (handle_phase-Handled (phase_of now m) s p e) in
    let (ts, there, kept) = w c (handle_phase (phase_of now m) s).0 here (same s e ∙ k) in
    ((t, ts), there, kept)

-- What the tested function sends keeps the position.
Walks-remark :
    (now : ℕ) (r : Remark) (messages : List Message) (p q : Position)
    → Walks now p messages q
    → Walks now p (remark r ∷ messages) q
unfolding handle_message push_event_noreport
Walks-remark now (asserted a) messages p q w c s e k =
    let quiet = handle_assert-Quiet a s in
    let (ts, there, kept) =
      w (stat_push_event (assert (assert_stats a)) c) (handle_assert a s)
        (ap (λ x. x.state) quiet.client ∙ e)
        (handle_assert-stats a s ∙ ap (stat_push_event (assert (assert_stats a))) k) in
    ((refl, ts), there, kept)
Walks-remark now (logged info text) messages p q w c s e k =
    let (ts, there, kept) = w c (handle_message info text s) e k in ((refl, ts), there, kept)
Walks-remark now (logged warning text) messages p q w c s e k =
    let (ts, there, kept) =
      w (record c { gstats = count_log warning c.gstats }) (handle_message warning text s) e
        (ap (λ (x : Stats). record x { gstats = count_log warning x.gstats }) k) in
    ((refl, ts), there, kept)
Walks-remark now (logged error text) messages p q w c s e k =
    let (ts, there, kept) =
      w (record c { gstats = count_log error c.gstats }) (handle_message error text s) e
        (ap (λ (x : Stats). record x { gstats = count_log error x.gstats }) k) in
    ((refl, ts), there, kept)

Walks-remarks :
    (now : ℕ) (said : List Remark) (messages : List Message) (p q : Position)
    → Walks now p messages q
    → Walks now p (map remark said ++ messages) q
Walks-remarks now [] messages p q w = w
Walks-remarks now (r ∷ said) messages p q w =
    Walks-remark now r (map remark said ++ messages) p q (Walks-remarks now said messages p q w)

Walks-nil : (now : ℕ) (p : Position) → Walks now p [] p
Walks-nil now p c s e k = (tt, e, k)

WalksFrom-append :
    (now : ℕ) (c : Stats) (s : Scope) (q r : Position) (ms ns : List Message)
    → WalksFrom now c s ms q
    → Walks now q ns r
    → WalksFrom now c s (ms ++ ns) r
WalksFrom-append now c s q r [] ns (t, e, k) w = w c s e k
WalksFrom-append now c s q r (phase_sent m ∷ ms) ns ((t, ts), e, k) w =
    let (us, there, kept) =
      WalksFrom-append now c (handle_phase (phase_of now m) s).0 q r ms ns (ts, e, k) w in
    ((t, us), there, kept)
WalksFrom-append now c s q r (remark (asserted a) ∷ ms) ns ((t, ts), e, k) w =
    let (us, there, kept) =
      WalksFrom-append now (stat_push_event (assert (assert_stats a)) c) (handle_assert a s) q r ms
        ns (ts, e, k) w in
    ((t, us), there, kept)
WalksFrom-append now c s q r (remark (logged v text) ∷ ms) ns ((t, ts), e, k) w =
    let (us, there, kept) =
      WalksFrom-append now (record c { gstats = count_log v c.gstats }) (handle_message v text s) q
        r ms ns (ts, e, k) w in
    ((t, us), there, kept)

spawn-stats :
    (msg : Phase) (s : Scope)
    → msg.phase ≡ setup
    → s.client.state ≡ 1
    → stats_of (handle_phase msg s).0 ≡ stats_of s
unfolding run_handler
spawn-stats msg s k e =
    handle_phase-run_handler msg s (outer in_main) (nested in_setup) e (rw k refl)
    ∙ rw (k, e, run_handler) refl

nested-step :
    (now : ℕ) (m : RoundMessage) (messages : List Message) (g : Stage) (q r : Position)
    → follow (nested g) m.phase ≡ some q
    → Walks now q messages r
    → Walks now (nested g) (phase_sent m ∷ messages) r
nested-step now m messages g q r f w =
    Walks-step now m messages (nested g) q r f (λ s e. handle_phase-nested (phase_of now m) s g e) w

-- Messages, if there are any, that lead from a position to another.
abbrev MayWalk : ℕ → Position → Option (List Message) → Position → Type 0
MayWalk now p none q = Unit
MayWalk now p (some messages) q = Walks now p messages q

abbrev teardown_and_end-Walks :
    (now round : ℕ)
    → Walks now (nested in_main) (plain teardown round ∷ plain finish round ∷ []) (outer in_main)
teardown_and_end-Walks now round =
    nested-step now (without_text teardown round) (plain finish round ∷ []) in_main
      (nested in_teardown) (outer in_main) refl
      (nested-step now (without_text finish round) [] in_teardown (outer in_main) (outer in_main)
        refl (Walks-nil now (outer in_main)))

end_messages-MayWalk :
    (now : ℕ) (ending : Ending) (text : Option Bytes) (round : ℕ)
    → MayWalk now (nested in_main) (end_messages ending text round) (outer in_main)
end_messages-MayWalk now failed none round = tt
end_messages-MayWalk now failed (some text) round =
    nested-step now (record { phase = abort; round = round; message = some text }) [] in_main
      (outer in_main) (outer in_main) refl (Walks-nil now (outer in_main))
end_messages-MayWalk now Ending.returned text round = teardown_and_end-Walks now round
end_messages-MayWalk now Ending.assumed text round = teardown_and_end-Walks now round

around-MayWalk :
    (now : ℕ) (said : List Remark) (round : ℕ) (ends : Option (List Message))
    → MayWalk now (nested in_main) ends (outer in_main)
    → MayWalk now (outer in_main) (around said round ends) (outer in_main)
around-MayWalk now said round none w = tt
around-MayWalk now said round (some ends) w =
    let behind = map remark said ++ ends in
    Walks-step now (without_text setup round) (plain main round ∷ behind) (outer in_main)
      (nested in_setup) (outer in_main) refl
      (λ s e. spawn-stats (phase_of now (without_text setup round)) s refl e)
      (nested-step now (without_text main round) behind in_setup (nested in_main) (outer in_main)
        refl (Walks-remarks now said ends (nested in_main) (outer in_main) w))

abbrev LoopWalks : ℕ → Option Run → Type 0
LoopWalks now none = Unit
LoopWalks now (some out_of_bounds) = Unit
LoopWalks now (some (ran runs messages)) = Walks now (outer in_main) messages (outer in_main)

go_on-LoopWalks :
    (now : ℕ) (more : Bool) (indices : List ℕ) (sent : Option (List Message)) (rest : Option Run)
    → MayWalk now (outer in_main) sent (outer in_main)
    → LoopWalks now rest
    → LoopWalks now (go_on more indices sent rest)
unfolding go_on
go_on-LoopWalks now more indices none rest w l = tt
go_on-LoopWalks now false indices (some sent) rest w l = w
go_on-LoopWalks now true indices (some sent) none w l = tt
go_on-LoopWalks now true indices (some sent) (some out_of_bounds) w l = tt
go_on-LoopWalks now true indices (some sent) (some (ran runs messages)) w l =
    λ c s e k. WalksFrom-append now c s (outer in_main) (outer in_main) sent messages (w c s e k) l

module _ (call : List ℕ → Call) (format_arg : ℕ → ℕ → Bytes) (lens : List ℕ) (now : ℕ) where
  theory_loop-LoopWalks :
      (fuel : ℕ) (indices : List ℕ) (round : ℕ)
      → LoopWalks now (theory_loop call format_arg lens fuel indices round)
  unfolding theory_loop round_messages
  theory_loop-LoopWalks zero indices round = tt
  theory_loop-LoopWalks (suc fuel) indices round =
      go_on-LoopWalks now _ indices _ _
        (around-MayWalk now (call indices).said round _
          (end_messages-MayWalk now (call indices).ending _ round))
        (theory_loop-LoopWalks fuel _ (round + 1))

-- A theory of at least one array of data points, none of them empty, runs within the main phase of
-- its test. Each call of the tested function sends assertions and entries of the log, and returns
-- or is left by a failed assertion or assumption. Then the server takes every message of every
-- round, its client is in the main phase again behind the last one, and the statistics have
-- changed by what the tested function has sent and by nothing else.
pub cr_theory_main-AllTaken :
    (call : List ℕ → Call) (format_arg : ℕ → ℕ → Bytes) (len : ℕ) (lens : List ℕ) (fuel now : ℕ)
    (s : Scope)
    → AreLengths (len ∷ lens)
    → product (len ∷ lens) ≤ fuel
    → s.client.state ≡ encode (outer in_main)
    → (messages : List Message) × (cr_theory_main call format_arg (len ∷ lens) fuel
        ≡ some (ran (combinations (len ∷ lens)) messages))
      × AllTaken now messages s
      × ((handle_all now messages s).client.state ≡ encode (outer in_main))
      × (stats_of (handle_all now messages s) ≡ counted messages (stats_of s))
unfolding cr_theory_main
cr_theory_main-AllTaken call format_arg len lens fuel now s h k e =
    let (messages, r) = cr_theory_main-combinations call format_arg len lens fuel h k in
    let (t, here, same) =
      subst (LoopWalks now) r
        (theory_loop-LoopWalks call format_arg (len ∷ lens) now fuel (zeros (len ∷ lens)) 1)
        (stats_of s) s e refl in
    (messages, r, t, here, same)
