-- ===== src/Box/Frame.antt =====
-- The header in front of a box, written and read back, for any box whose payload does so.
use mp4ff.Base.{
  ℕ, ◌+◌, ◌^◌, ◌≤◌, ◌≡◌, sym, arith, equal, [], ltb, ◌==◌, leb-false, false, not, ◌&&◌, some, Bytes,
  ◌++◌, append_assoc, codes, length, length-append, ltb-false,
}
use mp4ff.Base.Words.{be_bytes, length-be_bytes, IsUint8, IsUint24, IsUint32}
use mp4ff.Base.Action.{Result, ok, Action, ◌>>◌}
use mp4ff.Bits.Reader.{read_fixed_length_string}
use mp4ff.Bits.Writer.{Writer, encode_with}
use mp4ff.Bits.Reads.{
  Reads, Reads-bind, Reads-finish, Reads-fail_if, Reads-remaining, Reads-uint32,
  Reads-fixed_length_string, Reads-pure, Reads-last, Reads-end,
}
use mp4ff.Bits.Writes.{
  Writes, Writes-fail_if, Writes-seq, Writes-uint32, Writes-string, encode_with-Writes,
}
use mp4ff.Box.{
  BoxHeader, header_size, decode_header_sr, encode_header_sw, Decoder, Registry, as_box,
  lookup_decoder, decode_box_body_sr, decode_box_sr, version_and_flags, version_of, flags_of,
}

-- A box as it stands in a file: its size, its name, its payload.
unfoldable pub box_bytes : Bytes → Bytes → Bytes
box_bytes name payload = be_bytes 4 (8 + length payload) ++ (name ++ payload)

-- The header of such a box.
abbrev pub header_of : Bytes → ℕ → BoxHeader
header_of name size = record { name = name; size = size; hdrlen = 8 }

module _ (name : Bytes) (named : length name ≡ 4) where
  Reads-name : Reads (read_fixed_length_string 4) name name
  Reads-name = rw named at (Reads-fixed_length_string name)

  Reads-header_size : (size : ℕ) → 8 ≤ size → Reads (header_size size name) [] (size, 8)
  unfolding header_size
  Reads-header_size size lo =
      let e₁ : (size == 1) ≡ false = ground arith in
      let e₂ : (size == 0) ≡ false = ground arith in rw (e₁, e₂) (Reads-pure (size, 8))

  pub Reads-header :
      (size : ℕ)
      → 8 ≤ size
      → IsUint32 size
      → Reads decode_header_sr (be_bytes 4 size ++ name) (header_of name size)
  unfolding decode_header_sr
  Reads-header size lo hi =
      let long : (n : ℕ) → length (be_bytes 4 size ++ name) ≤ n → ltb n 8 ≡ false = λ n e.
        ltb-false n 8
          (omega (arith, length-append (be_bytes 4 size) name, length-be_bytes 4 size)) in
      Reads-remaining _ (λ n e. Reads-fail_if _ _ (long n e) (
        Reads-bind _ (Reads-uint32 size hi) (
          Reads-end _ Reads-name (
            Reads-end _ (Reads-header_size size lo)
              (Reads-fail_if _ _ (ltb-false size 8 lo) (Reads-finish _))))))

  pub Writes-header :
      (size : ℕ) → IsUint32 size → Writes (encode_header_sw name size) (be_bytes 4 size ++ name)
  unfolding encode_header_sw
  Writes-header size hi =
      Writes-fail_if _ _ (leb-false (2 ^ 32) size hi)
        (Writes-seq (Writes-uint32 size) (Writes-string name))

module _ (name payload : Bytes) (size : ℕ) (fits : 8 + length payload ≡ size) where
  pub box_bytes_lem : box_bytes name payload ≡ be_bytes 4 size ++ name ++ payload
  unfolding box_bytes
  box_bytes_lem = rw fits (sym (append_assoc (be_bytes 4 size) name payload))

  pub length-box_bytes : length name ≡ 4 → length (box_bytes name payload) ≡ size
  unfolding box_bytes
  length-box_bytes named = omega (
    arith,
    length-append (be_bytes 4 (8 + length payload)) (name ++ payload),
    length-append name payload,
    length-be_bytes 4 (8 + length payload),
  )

  -- `DecodeBoxSR` finds the decoder by the name, and hands it the payload.
  pub Reads-box {ℓ} :
      {B : Type ℓ} (reg : Registry B) (start_pos : ℕ) {b : B}
      → length name ≡ 4
      → IsUint32 size
      → Reads (lookup_decoder reg name (header_of name size) start_pos) payload b
      → Reads (decode_box_sr reg start_pos) (box_bytes name payload) b
  unfolding decode_box_sr decode_box_body_sr
  Reads-box reg start_pos named small r =
      let enough : (n : ℕ)
          → length payload ≤ n
          → (ltb (n + 8) size && not (equal name (codes "mdat"))) ≡ false =
        λ n e. rw (ltb-false (n + 8) size (omega arith)) in
      rw box_bytes_lem (
        Reads-bind _ (Reads-header name named size (omega arith) small)
          (Reads-remaining _ (λ n e. Reads-fail_if _ _ (enough n e) r)))

pub Writes-box :
    (name payload : Bytes) (size : ℕ) {body : Action Writer (Unit {0})}
    → length name ≡ 4
    → 8 + length payload ≡ size
    → IsUint32 size
    → Writes body payload
    → Writes (encode_header_sw name size >> body) (box_bytes name payload)
Writes-box name payload size named fits small w =
    rw (box_bytes_lem name payload size fits) (Writes-seq (Writes-header name named size small) w)

-- A box that is encoded to its size and name and `payload`, with every byte of its `Size()` used, by
-- `EncodeSW` into any writer with room for it and by `Encode` on its own, and that is decoded from
-- there to itself, whatever stands before and behind.
abbrev pub Codec {ℓ κ} :
    {A : Type ℓ} {B : Type κ}
    → Registry B
    → (A → B)
    → A
    → Action Writer (Unit {0})
    → Result Bytes
    → ℕ
    → Bytes
    → Bytes
    → Type κ
Codec reg inj b encode_sw encoded size name payload =
    Writes encode_sw (box_bytes name payload)
    × (encoded ≡ ok (box_bytes name payload))
    × (length (box_bytes name payload) ≡ size)
    × ((start_pos : ℕ) → Reads (decode_box_sr reg start_pos) (box_bytes name payload) (inj b))

module _ {ℓ κ} {A : Type ℓ} {B : Type κ} (reg : Registry B) (inj : A → B) where
  pub lookup_decoder_known :
      (name : Bytes) (d : Decoder A)
      → reg.decoders_sr name ≡ some (as_box inj d)
      → lookup_decoder reg name ≡ as_box inj d
  unfolding lookup_decoder
  lookup_decoder_known name d known = rw (known, lookup_decoder)

  pub codec :
      (name : Bytes) (d : Decoder A) (size : ℕ) {body : Action Writer (Unit {0})} {payload : Bytes}
      {b : A}
      → length name ≡ 4
      → reg.decoders_sr name ≡ some (as_box inj d)
      → 8 + length payload ≡ size
      → IsUint32 size
      → Writes body payload
      → ((start_pos : ℕ) → Reads (d (header_of name size) start_pos) payload b)
      → Codec reg inj b
          (encode_header_sw name size >> body)
          (encode_with size (encode_header_sw name size >> body))
          size
          name
          payload
  codec name d size {payload} named known fits small w r = (
    Writes-box name payload size named fits small w,
    encode_with-Writes size (Writes-box name payload size named fits small w)
        (length-box_bytes name payload size fits named),
    length-box_bytes name payload size fits named,
    λ start_pos.
        Reads-box name payload size fits reg start_pos named small
          (rw (lookup_decoder_known name d known) (Reads-last inj (r start_pos))),
  )

-- The version and the flags come back from their word.
module _ (version flags : ℕ) (hv : IsUint8 version) (hf : IsUint24 flags) where
  pub version_of_lem : version_of (version_and_flags version flags) ≡ version
  unfolding version_of version_and_flags
  version_of_lem = omega arith

  pub flags_of_lem : flags_of (version_and_flags version flags) ≡ flags
  unfolding flags_of version_and_flags
  flags_of_lem = omega arith

pub version_and_flags-lt : (version flags : ℕ) → IsUint32 (version_and_flags version flags)
unfolding version_and_flags
version_and_flags-lt version flags = omega arith
