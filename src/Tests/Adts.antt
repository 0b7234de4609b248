-- ===== src/Tests/Adts.antt =====
-- An ADTS header behind and in front of other bytes.
use mp4ff.Base.{◌%◌, ◌^◌, ◌≡◌, refl, arith, [], ◌∷◌, ◌++◌}
use mp4ff.Base.Action.{ok}
use mp4ff.Bits.BitReader.{BitReader, ByteSource, new_bit_reader}
use mp4ff.Aac.Adts.{AdtsHeader, encode_adts_header, decode_adts_header}
use mp4ff.Aac.Adts.Decode.{IsOther, IsValid, as_written}
use mp4ff.Aac.Frequency.{lookup, new_adts_header, frequency, new_adts_header_lem}
use mp4ff.Aac.Adts.RoundTrip.{adts_round_trip}

-- 100 bytes of AAC-LC at 48 kHz, two channels, of MPEG-2 and with a checksum: neither is written.
abbrev a_header : AdtsHeader
a_header = record {
  id = 1;
  object_type = 2;
  sampling_frequency_index = 3;
  channel_config = 2;
  header_length = 9;
  payload_length = 100;
  buffer_fullness = 0x7ff;
}

adts_round_trip_example :
    (t : BitReader ByteSource) × (decode_adts_header (
        new_bit_reader (record {
          bytes = (0x47 ∷ 0x1f ∷ []) ++ (encode_adts_header a_header ++ (33 ∷ 16 ∷ []));
          nr_read = 0;
        }))
      ≡ ok ((as_written a_header, 2), t))
unfolding IsOther
adts_round_trip_example =
    adts_round_trip (0x47 ∷ 0x1f ∷ []) (33 ∷ 16 ∷ []) a_header
      (record {
        typed = omega arith;
        type_fits = omega arith;
        frequency = omega arith;
        channels = omega arith;
        payload = omega arith;
        fullness = omega arith;
      })
      ((omega arith, refl), ((omega arith, refl), tt)) (omega arith)
      (omega arith, (omega arith, tt))

new_adts_header_lem_example :
    (a : AdtsHeader) × (new_adts_header 96000 2 2 100 ≡ ok a)
    × IsValid a
    × (frequency a ≡ 96000 % 2 ^ 16)
unfolding lookup
new_adts_header_lem_example = new_adts_header_lem 96000 2 100 0 refl (omega arith) (omega arith)
