-- ===== src/Compression.antt =====
-- src/compression.rs: three codecs over byte strings, and the engine that picks one.
pub mod RunLength
pub mod Dictionary
pub mod Lz77
pub mod Engine
