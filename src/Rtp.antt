-- ===== src/Rtp.antt =====
-- The RTP part of mpf: packet statistics and headers of RTCP, receivers and transmitters, and media
-- descriptors.
pub mod Rtcp
pub mod Receiver
pub mod Media
pub mod MediaLaws
pub mod Packets
mod Tests
