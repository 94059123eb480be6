-- ===== src/Resources.antt =====
-- The resources of mrcp/resources: the synthesizer, the recognizer, the recorder and the verifier.
pub mod Synth
pub mod Recog
pub mod Recorder
pub mod Verifier
pub mod Properties
mod Tests
