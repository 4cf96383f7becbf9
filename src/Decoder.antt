-- ===== src/Decoder.antt =====
-- lib/src/decoder.rs and lib/src/decoder/: the stateful decoder and the splitters of encoded streams.
pub mod Format
pub mod Capture
pub mod Stateful
