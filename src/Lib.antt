-- ===== src/Lib.antt =====
-- Criterion: a model of the test runner.
--
-- Criterion runs each test in a process of its own. The runner registers the tests that the
-- linker's sections hold, in sorted sets; a pattern on the command line disables those that it
-- does not match; the workers then report what happens to a test by messages, which a server
-- turns into statistics, reports and log entries, and answers.
--
-- The files, and the code that they model:
--   Common        shared names and lemmas; it models no code.
--   Glob          src/string/brz.c and brz.h. `Glob` is `struct stc_glob`; each constructor
--                 function, `nullable`, `derive`, `copy` and `matches` keep their names.
--                 Glob.Charset is the scan of a character class in derive_cset. Glob.Language
--                 says what a glob means, Glob.Texts and Glob.Derivation prove what the operations
--                 mean, Glob.Matching what the matcher decides.
--   Pattern       src/string/extglobmatch.c. `step` is the `switch` of `compile`, with a function
--                 for each case; Pattern.Stack holds the stack of fragments and the macros
--                 `cat_one` and `cat_all`. What C leaves undefined is a `fault`. Pattern.Balance,
--                 Pattern.Steps, Pattern.Switch and Pattern.Safety prove which faults there are.
--                 Pattern.Syntax has patterns as trees, how they are written and what they stand
--                 for; Pattern.Pending, Pattern.Closing and Pattern.Runs follow the compiler over a
--                 written pattern, Pattern.Printing has the glob that comes out and
--                 Pattern.Meaning its texts. Pattern.Documented is the table of doc/env.rst.
--   OrderedSet    src/core/ordered-set.c, generic in the comparison, which is an instance
--                 argument with the laws of a total order.
--   Stats         src/core/stats.c and include/criterion/stats.h: a function for each event.
--   Client        src/core/client.c and client.h. Client.State has the records and the outputs,
--                 Client.Phases handle_phase and the handlers that it calls, Client.Handlers the
--                 other handlers, Client.Server the tables of clients and
--                 process_client_message. Client.Lifecycle, Client.Answers and Client.Accounting
--                 prove.
--   Runner        src/core/runner.c. Runner.Registry has criterion_init, criterion_register_test
--                 and disable_unmatching; Runner.Sorting and Runner.Filter prove.
--                 Runner.Coroutine is src/core/runner_coroutine.c: the coroutine that starts the
--                 tests, its context a value of `Coroutine`. Runner.Loop has run_tests_async, with
--                 the messages as a list, Runner.Death death_callback; Runner.Schedule,
--                 Runner.Workers and Runner.Deaths prove.
--   Theories      src/core/theories.c. `cr_theory_main` with its loop; Theories.Enumeration proves
--                 what it runs, Theories.Rounds what the server makes of its messages.
--   Assertions    src/core/assert.c and include/criterion/internal/assert/types.h: the tree of
--                 results and the message for it. Assertions.Leaves and Assertions.Failing prove.
--   Child         src/core/test.c and abort.c, and run_test_child of src/core/runner_coroutine.c:
--                 what a worker sends, by how its user code ends. Child.Closing has what each
--                 message counts, and Child.Counting puts them together.
--   Messages      src/protocol/messages.c: `read_message`, `write_message`, `cr_send_to_runner` and
--                 `send_ack`. Messages.Sending proves what is sent, Messages.Exchange what the
--                 answer does.
--   Path          src/compat/path.c: `cri_path_build` and `cri_path_gen_unique_filename`.
--                 Path.Separators, Path.Components and Path.Unique prove.
--   Output        src/io/output.c: `criterion_register_output_provider`, `criterion_add_output` and
--                 `process_all_output`, and `basename_compat` of src/compat/path.c.
--                 Output.Providers and Output.Files prove.
--   Options       src/entry/params.c, options.c and entry.c. Options.Tokens is strtok_r,
--                 Options.State `struct criterion_options` and the variables of
--                 criterion_handle_args; Options.Switch has its `switch`, Options.Environment the
--                 variables of the environment, Options.Handling the whole, Options.Listing
--                 list_tests. Options.Written, Options.Words, Options.CommandLine, Options.Started,
--                 Options.Settings and Options.Reports prove what a well-formed command line does.
--   Report        src/io/tap.c, src/io/json.c and src/io/xml.c. Report.Statistics is what a report
--                 reads, Report.Tap, Report.Json and Report.Xml what the three write.
--                 Report.Lines is a reader of TAP, and Report.Reading, Report.Tests and
--                 Report.Verdicts are about what it finds. Report.Scanning is what the other two
--                 readers share. Report.JsonReader is a reader of JSON texts without escapes, and
--                 Report.PlainLines, Report.JsonTests and Report.WellFormed are about the texts
--                 it accepts. Report.XmlReader is a reader of XML's tags, and Report.XmlTests and
--                 Report.Nested are about the texts it accepts.
--   Xxd           src/string/xxd.c and the macro of src/common.h. Xxd.Bounds and Xxd.Reading prove.
--   Examples      tests, and the theorems at concrete inputs.
--
-- The parts meet as in the code: the registry uses the ordered set, through an instance for each
-- comparison callback, and the filter the compiled pattern; the handlers of the server push
-- events to the statistics. The messages of a worker and of a theory go to the same handlers;
-- a worker waits for the answer to each of its messages. The outputs of the command line go to the
-- tables from which the reports are written at the end, and its filter to the compiler.
--
-- Numbers. Bytes and counters are natural numbers; counters wrap modulo 2^32 or 2^64, as their
-- types do. The compiler's loop runs on as much fuel as the pattern has bytes; each round takes at
-- least one byte, and the theorem on its faults shows that the fuel is enough. The array of
-- fragments has its 100 entries. The loop over a theory's combinations runs on fuel, and as many
-- rounds as there are combinations are enough; the loop that looks for a free file name needs as
-- many as there are names up to the first free one; the dump takes as many rounds as there are
-- bytes; the tokens of a text are at most as many as it has bytes.
--
-- Not modelled: allocation, destructors and shared ownership; processes and sockets (boxfort,
-- nanomsg, nanopb); what the logger and the hooks print, of which only the calls are recorded;
-- a theory whose function ends the process; the bare `?` of a pattern in the theorem on the
-- filter; the jump buffers of a worker, whose jumps are cases of how user code ends; how a theory
-- prints and passes its arguments; the texts of the usage and of warnings; the printers of values;
-- the macros of the public headers, which expand in user code; the vendored valgrind headers. `exit(3)` on a
-- pattern without a glob is a result.
pub mod Common
pub mod Glob
pub mod Pattern
pub mod OrderedSet
pub mod Stats
pub mod Client
pub mod Runner
pub mod Theories
pub mod Assertions
pub mod Messages
pub mod Path
pub mod Output
pub mod Options
pub mod Report
pub mod Xxd
pub mod Child
pub mod Examples
