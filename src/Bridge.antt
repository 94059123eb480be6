-- ===== src/Bridge.antt =====
-- Bridges between the audio streams of mpf: mpf/mpf_stream.go, mpf/mpf_object.go, mpf/mpf_bridge.go,
-- mpf/mpf_decoder.go and the functions of mpf that create the other media processing objects.
pub mod Stream
pub mod Direction
pub mod Process
pub mod Create
pub mod Laws
pub mod Balance
pub mod Decoder
pub mod DecoderLaws
mod Tests
