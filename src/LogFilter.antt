-- ===== src/LogFilter.antt =====
-- log_filter/src/log_filter.c: the q extension that replays a journal's messages for some tables.
pub mod Memory
pub mod Check
pub mod Reify
pub mod Same
pub mod Replay
pub mod Total
pub mod Aborts
pub mod Ends
pub mod Agree
pub mod Messages
pub mod Vectors
pub mod Shapes
pub mod Built
pub mod Hits
pub mod Journals
mod Tests
pub mod Relevant
