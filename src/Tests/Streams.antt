-- ===== src/Tests/Streams.antt =====
-- Bits and NAL units, written and read.
use mp4ff.Base.{◌<◌, ◌≡◌, refl, arith, false, none, List, [], ◌∷◌, All}
use mp4ff.Base.Action.{ok}
use mp4ff.Bits.BitReader.{BitReader, ByteSource, new_bit_reader}
use mp4ff.Bits.BitWriter.{new_bit_writer, write, write_whole, mask_value, flush}
use mp4ff.Bits.EbspReader.{EbspReader, new_ebsp_reader, more_rbsp_data, read_rbsp_trailing_bits}
use mp4ff.Bits.EbspWriter.{
  write_exp_golomb, write_code, golomb_prefix, stuff_byte_with_zeros, write_rbsp_trailing_bits,
}
use mp4ff.Bits.Fields.{Field, IsField, packed, read_fields, field_round_trip}
use mp4ff.Bits.Syntax.{
  Element, u, ue, IsElement, write_unit, read_elements, write_unit-no_start_code, unit_round_trip,
}

-- A sync word, a flag, and a value that crosses a byte.
abbrev some_fields : List Field
some_fields = (0xfff, 12) ∷ (1, 1) ∷ (77, 9) ∷ []

packed_run : packed some_fields ≡ 0xff ∷ 0xf9 ∷ 0x34 ∷ []
unfolding new_bit_writer write write_whole mask_value flush
packed_run = refl

some_fields-IsField : All IsField some_fields
some_fields-IsField =
    ((omega arith, omega arith), ((omega arith, omega arith), ((omega arith, omega arith), tt)))

field_round_trip_example :
    (t : BitReader ByteSource) × (read_fields some_fields
        (new_bit_reader (record { bytes = packed some_fields; nr_read = 0 }))
      ≡ ok (0xfff ∷ 1 ∷ 77 ∷ [], t))
field_round_trip_example = field_round_trip some_fields some_fields-IsField

-- Two bytes of zeros and a 1, which must not stand so in a stream, and the number 4.
abbrev some_elements : List Element
some_elements = u 24 1 ∷ ue 2 4 ∷ []

write_unit_run : write_unit some_elements ≡ 0 ∷ 0 ∷ 3 ∷ 1 ∷ 0x2c ∷ []
unfolding new_bit_writer write write_whole mask_value write_exp_golomb write_code golomb_prefix
    stuff_byte_with_zeros write_rbsp_trailing_bits
write_unit_run = refl

some_elements-IsElement : All IsElement some_elements
some_elements-IsElement = (
  (omega arith, omega arith),
  ((omega arith, record { low = omega arith; high = omega arith; short = omega arith }), tt),
)

write_unit-no_start_code_example : 2 < 3
write_unit-no_start_code_example =
    write_unit-no_start_code some_elements [] (1 ∷ 0x2c ∷ []) 3 some_elements-IsElement
      write_unit_run

unit_round_trip_example :
    (t : EbspReader) × (read_elements some_elements (new_ebsp_reader (write_unit some_elements))
      ≡ ok (1 ∷ 4 ∷ [], t))
    × (more_rbsp_data t ≡ ok (false, t))
    × ((read_rbsp_trailing_bits t).0 ≡ none)
unit_round_trip_example = unit_round_trip some_elements some_elements-IsElement
