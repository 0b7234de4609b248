-- ===== src/Tests/ByteStreams.antt =====
-- A concrete sample and its byte stream.
use mp4ff.Base.{◌≡◌, refl, arith, [], ◌∷◌, List, Bytes}
use mp4ff.Base.Action.{ok}
use mp4ff.Avc.Nalus.RoundTrip.{sample_of}
use mp4ff.Avc.AnnexB.{convert_sample_to_byte_stream, extract_nalus_from_byte_stream}
use mp4ff.Avc.AnnexB.Convert.{stream_of, convert_sample_to_byte_stream_lem}
use mp4ff.Avc.AnnexB.Extract.{NoCode, extract_nalus_from_byte_stream_lem}

abbrev parameter_set : Bytes
parameter_set = 0x67 ∷ 0 ∷ 0 ∷ 3 ∷ 1 ∷ []

abbrev a_slice : Bytes
a_slice = 0x65 ∷ 0x80 ∷ []

convert_sample_to_byte_stream_lem_example :
    convert_sample_to_byte_stream (sample_of (parameter_set ∷ a_slice ∷ []))
    ≡ ok (stream_of (parameter_set ∷ a_slice ∷ []))
unfolding mp4ff.Base.Words.be_bytes
convert_sample_to_byte_stream_lem_example =
    convert_sample_to_byte_stream_lem (parameter_set ∷ a_slice ∷ []) (omega arith)

extract_nalus_from_byte_stream_lem_example :
    extract_nalus_from_byte_stream (stream_of (parameter_set ∷ a_slice ∷ []))
    ≡ parameter_set ∷ a_slice ∷ []
unfolding NoCode
extract_nalus_from_byte_stream_lem_example =
    extract_nalus_from_byte_stream_lem parameter_set (a_slice ∷ []) (
      (omega arith, (refl, (refl, (refl, (refl, (refl, tt)))))),
      ((omega arith, (refl, (refl, tt))), tt),
    )

-- A zero at the end of a NAL unit that is not the last one is taken for a part of the next start code.
extract_trailing_zero :
    extract_nalus_from_byte_stream (stream_of ((9 ∷ 8 ∷ 0 ∷ []) ∷ a_slice ∷ []))
    ≡ (9 ∷ 8 ∷ []) ∷ a_slice ∷ []
unfolding extract_nalus_from_byte_stream mp4ff.Avc.AnnexB.extract_loop mp4ff.Avc.AnnexB.trim
extract_trailing_zero = refl
