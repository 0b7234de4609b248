-- ===== src/Avc.antt =====
-- Samples and byte streams of H.264 video: avc/nalus.go and avc/annexb.go.
pub mod Nalus
pub mod AnnexB
