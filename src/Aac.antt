-- ===== src/Aac.antt =====
-- Headers of AAC audio: aac/adts.go, and the frequencies of aac/aac.go.
pub mod Adts
pub mod Frequency
