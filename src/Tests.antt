-- ===== src/Tests.antt =====
-- Concrete boxes and tables, and the theorems at them.
mod Chunks
mod Containers
mod Fragments
mod Offsets
mod Samples
mod Tables
mod Kinds
mod Streams
mod Flags
mod Encryption
mod Ranges
mod ByteStreams
mod Adts
