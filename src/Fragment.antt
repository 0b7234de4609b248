-- ===== src/Fragment.antt =====
-- The boxes of a movie fragment and of its index (mp4/mfhd.go, tfdt.go, mehd.go, trex.go, tfhd.go,
-- trun.go, sidx.go).
pub mod Mfhd
pub mod Tfdt
pub mod Mehd
pub mod Trex
pub mod Tfhd
pub mod Trun
pub mod SampleFlags
pub mod Samples
