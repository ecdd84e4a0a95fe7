-- ===== src/Playback.antt =====
-- The playback proxy, src/playback/playback_proxy.cpp: a local HTTP server that plays a file while
-- it is still being downloaded.
pub mod Session
pub mod Request
pub mod Stream
pub mod Server
mod Tests
