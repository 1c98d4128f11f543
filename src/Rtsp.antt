-- ===== src/Rtsp.antt =====
-- internal/rtsp: the RTSP server that the bridge feeds.
pub mod Aac
pub mod Ports
pub mod Server
