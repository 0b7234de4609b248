-- ===== src/Fragment/Samples.antt =====
-- mp4/sample.go: `NewSample`, and the sync test of a sample. The type itself is in Fragment/Trun.antt.
use mp4ff.Base.{ℕ, Bool, not, ◌&&◌, ◌==◌}
use mp4ff.Base.Int.{ℤ}
use mp4ff.Fragment.Trun.{Sample}
use mp4ff.Fragment.SampleFlags.{decode_sample_flags}

unfoldable pub new_sample : ℕ → ℕ → ℕ → ℤ → Sample
new_sample flags dur size cto = record {
  flags = flags;
  dur = dur;
  size = size;
  composition_time_offset = cto;
}

-- `IsSync` of a sample.
unfoldable pub is_sync : Sample → Bool
is_sync s =
    let dec_flags = decode_sample_flags s.flags in
    not dec_flags.sample_is_non_sync && (dec_flags.sample_depends_on == 2)
