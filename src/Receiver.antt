-- ===== src/Receiver.antt =====
-- internal/receiver: the receiving side, from remote tracks to the RTSP server.
pub mod Stats
pub mod Nack
pub mod RtspBuffer
pub mod Bridge
pub mod VideoPacket
pub mod Sdp
pub mod TrackLoop
