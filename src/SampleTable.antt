-- ===== src/SampleTable.antt =====
-- The boxes of a sample table (mp4/stts.go, ctts.go, stsc.go, stco.go, co64.go, stss.go, stsz.go), and
-- the edit list beside it (elst.go).
pub mod Search
pub mod Ctts
pub mod Stts
pub mod Stsc
pub mod Stco
pub mod Co64
pub mod Elst
pub mod Stss
pub mod Stsz
