-- ===== src/Examples.antt =====
-- Runs of the model on small inputs, and the theorems at concrete inputs.
mod Globs
mod Parts
mod Exchanges
mod Paths
mod Loops
mod Patterns
mod Commands
mod Reports
mod Runs
