-- ===== src/Client.antt =====
-- src/core/client.c and client.h: what the runner does with the messages of the test workers.
-- State holds the records, Phases the handlers of a phase message, Handlers those of the other
-- messages, and Server the tables of clients and the dispatch of a message. The other modules
-- prove.
pub mod State
pub mod Phases
pub mod Handlers
pub mod Server
pub mod Lifecycle
pub mod Answers
pub mod Accounting
