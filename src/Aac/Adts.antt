-- ===== src/Aac/Adts.antt =====
-- aac/adts.go: the ADTS header in front of a frame of AAC audio.
pub mod Decode
pub mod RoundTrip
use mp4ff.Base.{
  ℕ, zero, suc, ◌+◌, ◌-◌, ◌*◌, ◌/◌, ◌%◌, ◌^◌, Bool, true, false, not, ◌&&◌, Option, none, some,
  List, [], ◌∷◌, Bytes, ◌==◌, if◌then◌else◌,
}
use mp4ff.Base.Action.{
  Error, no_sync, bad_layer, raw_blocks, ok, err, Action, ◌>>=◌, ◌>>◌, pure, fail_if, when,
}
use mp4ff.Bits.BitReader.{BitReader, ByteSource, byte_source, read}
use mp4ff.Bits.BitWriter.{BitWriter, new_bit_writer}
use mp4ff.Bits.Fields.{Field, write_fields}

pub record AdtsHeader : Type 0 where
  pub id : ℕ
  pub object_type : ℕ
  pub sampling_frequency_index : ℕ
  pub channel_config : ℕ
  pub header_length : ℕ
  pub payload_length : ℕ
  pub buffer_fullness : ℕ

-- The values that `Encode` writes, with their widths.
abbrev pub adts_fields : AdtsHeader → List Field
adts_fields a =
    (0xfff, 12)
    ∷ (1, 4)
    ∷ ((a.object_type + 2 ^ 64 - 1) % 2 ^ 64, 2)
    ∷ (a.sampling_frequency_index, 4)
    ∷ (0, 1)
    ∷ (a.channel_config, 3)
    ∷ (0, 4)
    ∷ ((a.payload_length + 7) % 2 ^ 16, 13)
    ∷ (a.buffer_fullness, 11)
    ∷ (0, 2)
    ∷ []

unfoldable pub encode_adts_header : AdtsHeader → Bytes
encode_adts_header a = (write_fields (adts_fields a) (new_bit_writer [])).sink

abbrev pub Reads : Type 0 → Type 0
Reads = Action (BitReader ByteSource)

-- The variables of the search for the sync word.
pub record Sync : Type 0 where
  pub sync2 : ℕ
  pub mpeg_id : ℕ
  pub layer : ℕ
  pub protection_absent : ℕ
  pub offset : ℕ
  pub sync_found : Bool

abbrev pub sync_start : Sync
sync_start = record {
  sync2 = 0;
  mpeg_id = 0;
  layer = 0;
  protection_absent = 0;
  offset = 0;
  sync_found = false;
}

-- What is known of the second byte of a pattern.
abbrev pub seen_second : ℕ → ℕ → Sync
seen_second offset sync2 = record {
  sync2 = sync2;
  mpeg_id = sync2 / 2 ^ 3 % 2;
  layer = sync2 / 2 % 4;
  protection_absent = sync2 % 2;
  offset = offset;
  sync_found = sync2 / 2 ^ 4 == 0xf && sync2 / 2 % 4 == 0;
}

unfoldable pub sync_loop : ℕ → Sync → Reads Sync
sync_loop zero st = pure st
sync_loop (suc rounds) st =
    let known = st.sync2 == 0xff in
    let offset = if known then st.offset - 1 else st.offset in
    let second = read byte_source 8 >>= λ sync2.
    let seen = seen_second offset sync2 in
    let rest = sync_loop rounds (record seen { offset = offset + 2 }) in
    if seen.sync_found then pure seen else rest in
    let rest = sync_loop rounds (record st { offset = offset + 1 }) in
    (if known then pure st.sync2 else read byte_source 8) >>= λ sync1.
    if sync1 == 0xff then second else rest

-- `if br.AccError() != nil`
unfoldable pub check_acc_error : Reads (Unit {0})
check_acc_error r = elim r.err [ some e ↦ err e | none ↦ ok (tt, r) ]

unfoldable pub decode_adts_rest : Sync → Reads (AdtsHeader × ℕ)
decode_adts_rest st =
    let absent = st.protection_absent == 1 in
    let header_length = if absent then 7 else 9 in
    do
      profile ← read byte_source 2
      sfi ← read byte_source 4
      private ← read byte_source 1
      channel_config ← read byte_source 3
      copyright ← read byte_source 4
      frame_length ← read byte_source 13
      buffer_fullness ← read byte_source 11
      nr_raw_blocks_minus1 ← read byte_source 2
      fail_if (not (nr_raw_blocks_minus1 == 0)) raw_blocks
      crc ← when (not absent) 0 (read byte_source 16)
      check_acc_error
      pure (
        record {
          id = st.mpeg_id;
          object_type = (profile + 1) % 2 ^ 8;
          sampling_frequency_index = sfi;
          channel_config = channel_config;
          header_length = header_length;
          payload_length = (frame_length + 2 ^ 16 - header_length) % 2 ^ 16;
          buffer_fullness = buffer_fullness;
        },
        st.offset,
      )

unfoldable pub decode_adts_header : Reads (AdtsHeader × ℕ)
decode_adts_header = sync_loop 188 sync_start >>= λ st.
    check_acc_error
    >> (fail_if (not st.sync_found) no_sync
        >> (fail_if (not (st.layer == 0)) bad_layer >> decode_adts_rest st))
