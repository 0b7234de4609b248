-- ===== src/Aac/Adts/RoundTrip.antt =====
-- An ADTS header that aac/adts.go encodes is found and decoded, also behind other bytes.
use mathlib.Core.Path.{subst}
use mp4ff.Base.{
  ℕ, ◌+◌, ◌-◌, ◌%◌, ◌^◌, ◌<◌, ◌≡◌, refl, ap, sym, ◌∙◌, arith, List, [], ◌∷◌, ◌++◌, Bytes, All, flat,
  length, length-append, append_assoc, append-nil, IsByte, All-map,
}
use mp4ff.Base.Action.{ok}
use mp4ff.Base.Binary.{bits_of, length-bits_of}
use mp4ff.Bits.BitReader.{BitReader, ByteSource, byte_source, new_bit_reader}
use mp4ff.Bits.BitReader.Holds.{Holds, byte_bits, length-byte_bits}
use mp4ff.Bits.BitWriter.{new_bit_writer}
use mp4ff.Bits.Fields.{
  Field, IsField, field_bits, write_fields, write_fields_lem, Written, Delivers-bytes, puts-buffer,
}
use mp4ff.Aac.Adts.{AdtsHeader, adts_fields, encode_adts_header, decode_adts_header}
use mp4ff.Aac.Adts.Decode.{IsEncodable, IsOther, as_written, sync_bits, rest_bits, Takes-header}

All-append : (xs ys : Bytes) → All IsByte xs → All IsByte ys → All IsByte (xs ++ ys)
All-append [] ys h k = k
All-append (x ∷ xs) ys h k = (h.0, All-append xs ys h.1 k)

byte_bits-append :
    (xs ys : Bytes)
    → byte_bits byte_source (xs ++ ys) ≡ byte_bits byte_source xs ++ byte_bits byte_source ys
byte_bits-append [] ys = refl
byte_bits-append (x ∷ xs) ys =
    ap (◌++◌ (bits_of 8 x)) (byte_bits-append xs ys)
    ∙ sym (append_assoc (bits_of 8 x) (byte_bits byte_source xs) (byte_bits byte_source ys))

joined :
    (before enc after : Bytes) (sync rest : List ℕ)
    → byte_bits byte_source enc ≡ sync ++ rest
    → byte_bits byte_source (before ++ (enc ++ after))
      ≡ ((byte_bits byte_source before ++ sync) ++ rest) ++ byte_bits byte_source after
joined before enc after sync rest e =
    let b = byte_bits byte_source before in
    let a = byte_bits byte_source after in
    byte_bits-append before (enc ++ after)
    ∙ ap (◌++◌ b) (byte_bits-append enc after ∙ ap (λ x. x ++ a) e)
    ∙ sym (append_assoc b (sync ++ rest) a)
    ∙ ap (λ x. x ++ a) (sym (append_assoc b sync rest))

widths : List Field → ℕ
widths [] = 0
widths (f ∷ fs) = f.1 + widths fs

length-field_bits : (fs : List Field) → length (flat field_bits fs) ≡ widths fs
unfolding widths
length-field_bits [] = refl
length-field_bits (f ∷ fs) = omega (
  arith,
  length-append (field_bits f) (flat field_bits fs),
  length-bits_of f.1 f.0,
  length-field_bits fs,
)

fields_fit : (a : AdtsHeader) → IsEncodable a → All IsField (adts_fields a)
fields_fit a v = (
  (omega arith, omega arith),
  (
    (omega arith, omega arith),
    (
      (omega (arith, v.typed, v.type_fits), omega arith),
      (
        (v.frequency, omega arith),
        (
          (omega arith, omega arith),
          (
            (v.channels, omega arith),
            (
              (omega arith, omega arith),
              (
                (omega (arith, v.payload), omega arith),
                ((v.fullness, omega arith), ((omega arith, omega arith), tt)),
              ),
            ),
          ),
        ),
      ),
    ),
  ),
)

field_bits-adts :
    (a : AdtsHeader) → IsEncodable a → flat field_bits (adts_fields a) ≡ sync_bits ++ rest_bits a
unfolding bits_of
field_bits-adts a v =
    let t : (a.object_type + 2 ^ 64 - 1) % 2 ^ 64 ≡ a.object_type - 1 =
      omega (arith, v.typed, v.type_fits) in
    let p : (a.payload_length + 7) % 2 ^ 16 ≡ a.payload_length + 7 = omega (arith, v.payload) in
    rw (t, p)

empty_writer_lem : Written (new_bit_writer []) []
unfolding new_bit_writer bits_of
empty_writer_lem = (
  record { good = refl; bytes = []; are_bytes = tt; sent = refl; are = refl },
  omega arith,
  omega arith,
)

no_bits : (n v : ℕ) → n ≡ 0 → bits_of n v ≡ []
unfolding bits_of
no_bits n v h = rw h

-- Seven bytes are written, and no bits are left in the writer.
encode-bits :
    (a : AdtsHeader)
    → IsEncodable a
    → All IsByte (encode_adts_header a)
      × (byte_bits byte_source (encode_adts_header a) ≡ sync_bits ++ rest_bits a)
unfolding encode_adts_header widths
encode-bits a v =
    let w = write_fields (adts_fields a) (new_bit_writer []) in
    let (wrote, few, small) =
      write_fields_lem (adts_fields a) (new_bit_writer []) [] (fields_fit a v) empty_writer_lem in
    let sent : w.sink ≡ wrote.bytes = wrote.sent ∙ puts-buffer [] wrote.bytes in
    let bits = byte_bits byte_source wrote.bytes in
    let none_left : w.n ≡ 0 = omega (
      arith,
      ap length wrote.are,
      length-append bits (bits_of w.n w.v),
      length-bits_of w.n w.v,
      length-byte_bits byte_source wrote.bytes,
      length-field_bits (adts_fields a),
    ) in
    (
      subst (All IsByte) (sym sent) wrote.are_bytes,
      ap (byte_bits byte_source) sent
          ∙ sym (append-nil bits)
          ∙ ap (λ bs. bits ++ bs) (sym (no_bits w.n w.v none_left))
          ∙ wrote.are
          ∙ field_bits-adts a v,
    )

-- A header with fields that fit their bits is decoded from the bytes that it is encoded to, whatever bytes
-- follow, and all its fields come back but two: the id and the length of the header are not written, so
-- that the decoded header has the id 0, of MPEG-4, and the length 7, without a checksum. Before the header
-- there may be up to 187 bytes, none of them 0xff; how many is the offset that is reported.
pub adts_round_trip :
    (before after : Bytes) (a : AdtsHeader)
    → IsEncodable a
    → All IsOther before
    → length before < 188
    → All IsByte after
    → (t : BitReader ByteSource) × (decode_adts_header (
          new_bit_reader
            (record { bytes = before ++ (encode_adts_header a ++ after); nr_read = 0 }))
        ≡ ok ((as_written a, length before), t))
unfolding new_bit_reader IsOther
adts_round_trip before after a v h few h' =
    let (are_bytes, bits) = encode-bits a v in
    let all = before ++ (encode_adts_header a ++ after) in
    let bytes : All IsByte all =
      All-append before (encode_adts_header a ++ after)
        (All-map IsOther IsByte before (λ b o. o.0) h)
        (All-append (encode_adts_header a) after are_bytes h') in
    let holds : Holds byte_source (new_bit_reader (record { bytes = all; nr_read = 0 })) (
        ((byte_bits byte_source before ++ sync_bits) ++ rest_bits a)
        ++ byte_bits byte_source after) =
      record {
        good = refl;
        small = omega arith;
        bytes = all;
        delivers = Delivers-bytes 0 all bytes;
        are =
            ap (λ bs. bs ++ byte_bits byte_source all) (no_bits 0 0 refl)
            ∙ joined before (encode_adts_header a) after sync_bits (rest_bits a) bits;
      } in
    let (t, e, s) = (Takes-header before a v h few).run _ (byte_bits byte_source after) holds in
    (t, e)
