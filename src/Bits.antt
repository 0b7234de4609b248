-- ===== src/Bits.antt =====
-- Package bits (bits/*.go): slice readers and writers.
pub mod Reader
pub mod Writer
pub mod Reads
pub mod Writes
pub mod BitReader
pub mod BitWriter
pub mod EbspReader
pub mod EbspWriter
pub mod Emulation
pub mod Syntax
pub mod Fields
