-- ===== src/Stream.antt =====
-- internal/stream: the tracks that a client passes on to the peers behind it.
pub mod Broadcaster
pub mod Manager
