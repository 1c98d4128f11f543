-- ===== src/Sender.antt =====
-- internal/sender: what the messages of the peers make a client do.
pub mod Configurer
pub mod Connection
pub mod Candidates
pub mod Mpegts
pub mod Peers
pub mod Relay
pub mod Whip
pub mod Run
