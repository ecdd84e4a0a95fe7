-- ===== src/Http.antt =====
-- The HTTP download engine, src/http.
pub mod Part
pub mod Path
pub mod UrlName
pub mod Split
pub mod Task
pub mod Failure
pub mod Result
pub mod Header
pub mod Resume
pub mod Engine
pub mod Request
pub mod Probe
pub mod Write
pub mod Aggregate
pub mod Complete
pub mod Transfer
mod Tests
