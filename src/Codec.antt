-- ===== src/Codec.antt =====
-- Codec descriptors, capabilities, lists and the codec manager: mpf/mpf_codec_descriptor.go,
-- mpf/mpf_codec_manager.go, and the descriptor checks of mpf/mpf_named_event.go and mpf_rtp_pt.go.
pub mod Descriptor
pub mod Capabilities
pub mod Lists
pub mod Intersect
pub mod Compare
pub mod Manager
pub mod G711
pub mod Linear
pub mod Methods
pub mod MediaPath
mod Tests
