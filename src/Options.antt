-- ===== src/Options.antt =====
-- src/entry/params.c, options.c and entry.c: the command line and the environment. The code is
-- taken as built where isatty and nl_langinfo exist. What getopt_long returns is a list of
-- options, and getenv, atoi, atof, isatty and nl_langinfo are arguments.
pub mod Tokens
pub mod State
pub mod Switch
pub mod Environment
pub mod Handling
pub mod Written
pub mod Words
pub mod CommandLine
pub mod Started
pub mod Settings
pub mod Reports
pub mod Listing
