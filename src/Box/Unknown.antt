-- ===== src/Box/Unknown.antt =====
-- A box without a decoder: its payload is kept as it is.
use mp4ff.Base.{ℕ, ◌+◌, ◌-◌, ◌≡◌, arith, none, length}
use mp4ff.Base.Words.{IsUint32}
use mp4ff.Bits.Reads.{Reads, Reads-end, Reads-finish, Reads-last, Reads-bytes}
use mp4ff.Bits.Writes.{Writes-last, Writes-bytes, encode_with-Writes}
use mp4ff.Box.{
  UnknownBox, Registry, lookup_decoder, decode_unknown_sr, encode_unknown_sw, encode_unknown,
}
use mp4ff.Box.Frame.{Codec, header_of, Writes-box, Reads-box, length-box_bytes}

pub record IsValid (b : UnknownBox) : Type 0 where
  pub named : length b.name ≡ 4
  pub size : 8 + length b.not_decoded ≡ b.size
  pub small : IsUint32 b.size

module _ (b : UnknownBox) (v : IsValid b) where
  Reads-unknown :
      (start_pos : ℕ)
      → Reads (decode_unknown_sr (header_of b.name b.size) start_pos) b.not_decoded b
  unfolding decode_unknown_sr
  Reads-unknown start_pos =
      let e : b.size - 8 ≡ length b.not_decoded = omega (arith, v.size) in
      rw e (
        Reads-end _ (Reads-bytes b.not_decoded)
          (Reads-finish (record b { not_decoded = b.not_decoded })))

  -- Every box whose name has no decoder, and whose size is that of its payload and header, is encoded
  -- with its payload unchanged, and is decoded from there to the same unknown box.
  pub unknown_round_trip {ℓ} :
      {B : Type ℓ} (reg : Registry B)
      → reg.decoders_sr b.name ≡ none
      → Codec reg reg.of_unknown b
          (encode_unknown_sw b)
          (encode_unknown b)
          b.size
          b.name
          b.not_decoded
  unfolding encode_unknown encode_unknown_sw lookup_decoder
  unknown_round_trip reg unknown =
      let w =
        Writes-box b.name b.not_decoded b.size v.named v.size v.small
          (Writes-last (Writes-bytes b.not_decoded)) in
      let n = length-box_bytes b.name b.not_decoded b.size v.size v.named in
      (
        w,
        encode_with-Writes b.size w n,
        n,
        λ start_pos.
            Reads-box b.name b.not_decoded b.size v.size reg start_pos v.named v.small
              (rw (unknown, lookup_decoder) (Reads-last reg.of_unknown (Reads-unknown start_pos))),
      )
