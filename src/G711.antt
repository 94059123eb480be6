-- ===== src/G711.antt =====
-- The G.711 codec (mpf/codecs/g711/): tables, the A-law and mu-law sample and buffer functions, and
-- the encoder and decoder streams.
pub mod Table
pub mod AlawTables
pub mod UlawTables
pub mod Alaw
pub mod Ulaw
pub mod Samples
pub mod Buffers
pub mod Stream
pub mod StreamLaws
mod Tests
