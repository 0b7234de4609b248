-- ===== src/Aac/Adts/Decode.antt =====
-- The bits that the decoder of aac/adts.go takes, also behind other bytes.
use mathlib.Core.Path.{subst}
use mp4ff.Base.{
  ℕ, suc, ◌+◌, ◌-◌, ◌%◌, ◌^◌, ◌<◌, ◌≤◌, ◌≡◌, arith, false, none, some, List, [], ◌∷◌, ◌++◌, Bytes,
  ◌==◌, All, length, append_assoc, IsByte,
}
use mp4ff.Base.Action.{ok, err, pure}
use mp4ff.Base.Binary.{bits_of}
use mp4ff.Bits.BitReader.{byte_source}
use mp4ff.Bits.BitReader.Holds.{byte_bits}
use mp4ff.Bits.BitReader.Takes.{Takes, Takes-pure, Takes-bind, Takes-read}
use mp4ff.Aac.Adts.{
  AdtsHeader, Sync, sync_start, sync_loop, seen_second, check_acc_error, decode_adts_rest,
  decode_adts_header,
}

-- The fields that `Encode` writes fit their bits. It writes neither the id nor a checksum.
pub record IsEncodable (a : AdtsHeader) : Type 0 where
  pub typed : 0 < a.object_type
  pub type_fits : a.object_type ≤ 4
  pub frequency : a.sampling_frequency_index < 16
  pub channels : a.channel_config < 8
  pub payload : a.payload_length + 7 < 2 ^ 13
  pub fullness : a.buffer_fullness < 2 ^ 11

-- A header as `NewADTSHeader` makes it: of MPEG-4, without a checksum, with fields that fit their bits.
pub record IsValid (a : AdtsHeader) : Type 0 where
  pub mpeg4 : a.id ≡ 0
  pub short : a.header_length ≡ 7
  pub fits : IsEncodable a

-- The header as it comes back: `Encode` always writes one of MPEG-4 without a checksum.
abbrev pub as_written : AdtsHeader → AdtsHeader
as_written a = record a { id = 0; header_length = 7 }

Takes-check : Takes byte_source check_acc_error [] tt
unfolding check_acc_error
Takes-check = record {
  run = λ r rest h. (r, (λ i. elim (h.good i) [ some e ↦ err e | none ↦ ok (tt, r) ]), h);
}

-- The bits behind the sync word and what it is read with.
abbrev pub rest_bits : AdtsHeader → List ℕ
rest_bits a =
    bits_of 2 (a.object_type - 1)
    ++ (bits_of 4 a.sampling_frequency_index
        ++ (bits_of 1 0
            ++ (bits_of 3 a.channel_config
                ++ (bits_of 4 0
                    ++ (bits_of 13 (a.payload_length + 7)
                        ++ (bits_of 11 a.buffer_fullness ++ (bits_of 2 0 ++ [])))))))

Takes-rest :
    (a : AdtsHeader) (k : ℕ)
    → IsEncodable a
    → Takes byte_source (decode_adts_rest (seen_second k 0xf1)) (rest_bits a) (as_written a, k)
unfolding decode_adts_rest
Takes-rest a k v =
    let decoded : AdtsHeader = record a {
      id = 0;
      object_type = (a.object_type - 1 + 1) % 2 ^ 8;
      header_length = 7;
      payload_length = (a.payload_length + 7 + 2 ^ 16 - 7) % 2 ^ 16;
    } in
    let type_same : (a.object_type - 1 + 1) % 2 ^ 8 ≡ a.object_type =
      omega (arith, v.typed, v.type_fits) in
    let payload_same : (a.payload_length + 7 + 2 ^ 16 - 7) % 2 ^ 16 ≡ a.payload_length =
      omega (arith, v.payload) in
    let same : decoded ≡ as_written a = λ i. record a {
      id = 0;
      object_type = type_same i;
      header_length = 7;
      payload_length = payload_same i;
    } in
    let last : Takes byte_source {A = AdtsHeader × ℕ} (pure (decoded, k)) [] (as_written a, k) =
      subst (λ x. Takes byte_source {A = AdtsHeader × ℕ} (pure (decoded, k)) [] (x, k)) same
        (Takes-pure byte_source (decoded, k)) in
    let checked = Takes-bind byte_source (λ _. pure (decoded, k)) Takes-check last in
    Takes-bind byte_source _
      (Takes-read byte_source 2 (a.object_type - 1) (omega (arith, v.type_fits)) (omega arith))
      (Takes-bind byte_source _
        (Takes-read byte_source 4 a.sampling_frequency_index v.frequency (omega arith))
        (Takes-bind byte_source _ (Takes-read byte_source 1 0 (omega arith) (omega arith)) (
          Takes-bind byte_source _
            (Takes-read byte_source 3 a.channel_config v.channels (omega arith))
            (Takes-bind byte_source _ (Takes-read byte_source 4 0 (omega arith) (omega arith)) (
              Takes-bind byte_source _
                (Takes-read byte_source 13 (a.payload_length + 7) v.payload (omega arith))
                (Takes-bind byte_source _
                  (Takes-read byte_source 11 a.buffer_fullness v.fullness (omega arith))
                  (Takes-bind byte_source _ (Takes-read byte_source 2 0 (omega arith) (omega arith))
                    (Takes-bind byte_source _ (Takes-pure byte_source tt)
                      (Takes-bind byte_source _ (Takes-pure byte_source 0) checked)))))))))

abbrev at_offset : ℕ → Sync
at_offset k = record sync_start { offset = k }

-- A byte in front of the sync word.
unfoldable pub IsOther : ℕ → Type 0
IsOther b = IsByte b × ((b == 0xff) ≡ false)

-- The sync word, and the four bits behind it.
abbrev pub sync_bits : List ℕ
sync_bits = bits_of 8 0xff ++ (bits_of 8 0xf1 ++ [])

Takes-sync :
    (rounds k : ℕ)
    → Takes byte_source (sync_loop (suc rounds) (at_offset k)) sync_bits (seen_second k 0xf1)
unfolding sync_loop
Takes-sync rounds k =
    Takes-bind byte_source _ (Takes-read byte_source 8 0xff (omega arith) (omega arith)) (
      Takes-bind byte_source _ (Takes-read byte_source 8 0xf1 (omega arith) (omega arith))
        (Takes-pure byte_source (seen_second k 0xf1)))

Takes-search :
    (before : Bytes) (rounds k : ℕ)
    → All IsOther before
    → Takes byte_source
        (sync_loop (length before + suc rounds) (at_offset k))
        (byte_bits byte_source before ++ sync_bits)
        (seen_second (k + length before) 0xf1)
unfolding sync_loop IsOther
Takes-search [] rounds k h =
    let e : 0 + suc rounds ≡ suc rounds = omega arith in
    let f : k + 0 ≡ k = omega arith in rw (e, f) (Takes-sync rounds k)
Takes-search (b ∷ bs) rounds k h =
    let e : suc (length bs) + suc rounds ≡ suc (length bs + suc rounds) = omega arith in
    let f : k + suc (length bs) ≡ k + 1 + length bs = omega arith in
    let rest = Takes-search bs rounds (k + 1) h.1 in
    let here = h.0.1 in
    rw (e, f, append_assoc (bits_of 8 b) (byte_bits byte_source bs) sync_bits)
      (Takes-bind byte_source _ (Takes-read byte_source 8 b h.0.0 (omega arith)) (rw here rest))

pub Takes-header :
    (before : Bytes) (a : AdtsHeader)
    → IsEncodable a
    → All IsOther before
    → length before < 188
    → Takes byte_source decode_adts_header
        ((byte_bits byte_source before ++ sync_bits) ++ rest_bits a)
        (as_written a, length before)
unfolding decode_adts_header
Takes-header before a v h few =
    let rounds = 187 - length before in
    let e : 188 ≡ length before + suc rounds = omega arith in
    let found = Takes-search before rounds 0 h in
    let k : 0 + length before ≡ length before = omega arith in
    let checked =
      Takes-bind byte_source (λ _. _) Takes-check
        (Takes-bind byte_source (λ _. _) (Takes-pure byte_source tt)
          (Takes-bind byte_source (λ _. decode_adts_rest (seen_second (length before) 0xf1))
            (Takes-pure byte_source tt) (Takes-rest a (length before) v))) in
    rw e (Takes-bind byte_source _ (rw k at found) checked)
