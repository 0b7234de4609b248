-- ===== src/Box.antt =====
-- mp4/box.go, mp4/boxsr.go and mp4/unknown.go: box headers, and the dispatch of a box by its name.
pub mod Frame
pub mod Unknown
use mp4ff.Base.{
  ℕ, ◌+◌, ◌-◌, ◌*◌, ◌/◌, ◌%◌, ◌^◌, Bool, true, false, not, ◌&&◌, Option, none, some, Bytes, codes,
  equal, length, ltb, leb, ◌==◌, if◌then◌else◌,
}
use mp4ff.Base.Int.{pos}
use mp4ff.Base.Action.{
  header_too_short, extended_size, size_zero, header_exceeds_size, size_too_big, Result, ok, err,
  Action, ◌>>=◌, ◌>>◌, pure, fail, fail_if,
}
use mp4ff.Bits.Reader.{
  Reader, finish, read_uint32, read_uint64, read_fixed_length_string, read_bytes,
  nr_remaining_bytes,
}
use mp4ff.Bits.Writer.{
  Writer, write_uint32, write_uint64, write_string, write_bytes, writer_error, encode_with,
}

pub record BoxHeader : Type 0 where
  pub name : Bytes
  pub size : ℕ
  pub hdrlen : ℕ

-- The switch on the 32-bit size: the true size and the header's length.
header_size : ℕ → Bytes → Action Reader (ℕ × ℕ)
header_size size box_type =
    if size == 1
    then fail_if (not (equal box_type (codes "mdat"))) extended_size
      >> (read_uint64 >>= λ large. pure (large, 16))
    else if size == 0
    then fail size_zero
    else pure (size, 8)

unfoldable pub decode_header_sr : Action Reader BoxHeader
unfolding header_size
decode_header_sr = do
  n ← nr_remaining_bytes
  fail_if (ltb n 8) header_too_short
  size32 ← read_uint32
  box_type ← read_fixed_length_string 4
  (size, header_len) ← header_size size32 box_type
  fail_if (ltb size header_len) header_exceeds_size
  finish (record { name = box_type; size = size; hdrlen = header_len })

unfoldable pub encode_header_sw : Bytes → ℕ → Action Writer (Unit {0})
encode_header_sw box_type box_size = do
  fail_if (leb (2 ^ 32) box_size) size_too_big
  write_uint32 box_size
  write_string box_type false

unfoldable pub encode_header_with_size_sw : Bytes → ℕ → Bool → Action Writer (Unit {0})
encode_header_with_size_sw box_type box_size large_size = do
  fail_if (not large_size && leb (2 ^ 32) box_size) size_too_big
  (if large_size
      then write_uint32 1 >> write_string box_type false >> write_uint64 box_size
      else write_uint32 box_size >> write_string box_type false)
  writer_error

pub record UnknownBox : Type 0 where
  pub name : Bytes
  pub size : ℕ
  pub not_decoded : Bytes

-- `hdr.payloadLen()` is not negative for a header that `DecodeHeaderSR` returned.
unfoldable pub decode_unknown_sr : BoxHeader → ℕ → Action Reader UnknownBox
decode_unknown_sr hdr start_pos = do
  payload ← read_bytes (pos (hdr.size - hdr.hdrlen))
  finish (record { name = hdr.name; size = hdr.size; not_decoded = payload })

unfoldable pub encode_unknown_sw : UnknownBox → Action Writer (Unit {0})
encode_unknown_sw b = do encode_header_sw b.name b.size; write_bytes b.not_decoded; writer_error

unfoldable pub encode_unknown : UnknownBox → Result Bytes
encode_unknown b = encode_with b.size (encode_unknown_sw b)

-- `BoxDecoderSR`: the decoder of a box body, given the header and where the box starts.
abbrev pub Decoder {ℓ} : Type ℓ → Type ℓ
Decoder B = BoxHeader → ℕ → Action Reader B

-- The table `decodersSR`, which a program may change, and the box that holds an unknown one.
pub record Registry {ℓ} (B : Type ℓ) : Type ℓ where
  pub decoders_sr : Bytes → Option (Decoder B)
  pub of_unknown : UnknownBox → B

-- A decoder of one type of box as one of boxes.
abbrev pub as_box {ℓ κ} : {A : Type ℓ} {B : Type κ} → (A → B) → Decoder A → Decoder B
as_box inj d hdr start_pos = d hdr start_pos >>= λ b. pure (inj b)

module _ {ℓ} {B : Type ℓ} where
  unfoldable pub lookup_decoder : Registry B → Bytes → Decoder B
  lookup_decoder reg name = elim (reg.decoders_sr name) [
    | none ↦ as_box reg.of_unknown decode_unknown_sr
    | some d ↦ d
  ]

  unfoldable pub decode_box_body_sr : Registry B → ℕ → BoxHeader → Action Reader B
  unfolding lookup_decoder
  decode_box_body_sr reg start_pos hdr = do
    n ← nr_remaining_bytes
    fail_if (ltb (n + hdr.hdrlen) hdr.size && not (equal hdr.name (codes "mdat"))) size_too_big
    lookup_decoder reg hdr.name hdr start_pos

  unfoldable pub decode_box_sr : Registry B → ℕ → Action Reader B
  decode_box_sr reg start_pos = do hdr ← decode_header_sr; decode_box_body_sr reg start_pos hdr

-- The version and the flags of a full box, in one 32-bit word.
unfoldable pub version_and_flags : ℕ → ℕ → ℕ
version_and_flags version flags = (version * 2 ^ 24 % 2 ^ 32 + flags) % 2 ^ 32

unfoldable pub version_of : ℕ → ℕ
version_of word = word / 2 ^ 24 % 2 ^ 8

unfoldable pub flags_of : ℕ → ℕ
flags_of word = word % 2 ^ 24
