-- ===== src/Handler.antt =====
-- server/phpstrom/handler.go: the state that the goroutines of the handler share.
pub mod Trace
pub mod Scan
pub mod Requests
pub mod Publication
pub mod Published
pub mod Schedule
pub mod Armed
pub mod Timers
mod Tests
