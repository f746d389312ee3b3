-- ===== src/Committee.antt =====
-- The committee node of cpp/committee_node.cpp: its store and the handlers that read and change it.
-- A request is given by the fields that its handler reads; the JSON text and the HTTP server are
-- third-party code. A handler gives the store back with its reply, or with the exception (`err`)
-- that reaches the server.
pub mod Map
pub mod Handlers
pub mod Invalidate
pub mod Invariant
pub mod Request
pub mod Keys
pub mod KeyText
pub mod Spec
pub mod Refine
pub mod Runs
mod Tests
