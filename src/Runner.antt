-- ===== src/Runner.antt =====
-- src/core/runner.c and runner_coroutine.c: the registration of suites and tests, the filter of the
-- tests, and the loop that runs them.
pub mod Registry
pub mod Sorting
pub mod Filter
pub mod Coroutine
pub mod Schedule
pub mod Loop
pub mod Workers
pub mod Deaths
pub mod Death
