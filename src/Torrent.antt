-- ===== src/Torrent.antt =====
-- The BitTorrent engine, src/torrent/torrent_engine.cpp.
pub mod Segments
pub mod Files
pub mod Errors
pub mod Session
pub mod Control
pub mod Alert
pub mod Adding
pub mod Lifecycle
mod Tests
