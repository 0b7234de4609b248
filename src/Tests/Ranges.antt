-- ===== src/Tests/Ranges.antt =====
-- The protected ranges of concrete samples of NAL units.
use Prim.Native.Nat.{min}
use mp4ff.Base.{
  ℕ, suc, ◌-◌, ◌%◌, ◌==◌, ◌||◌, if◌then◌else◌, ◌<◌, ◌≡◌, refl, arith, [], ◌∷◌, List, Bytes, length,
  replicate, flat, All,
}
use mp4ff.Base.Words.{IsUint16}
use mp4ff.Base.Action.{Result, ok, err, no_slice_header}
use mp4ff.Avc.Nalus.RoundTrip.{sample_of}
use mp4ff.Crypto.{SubSamplePattern}
use mp4ff.Crypto.Ranges.{marks}
use mp4ff.Crypto.Cenc.{crypt_sample_cenc}
use mp4ff.Crypto.Cenc.Marked.{xor_marked}
use mp4ff.Crypto.Samples.{avc_syntax, is_video_nalu_type, cenc, cbcs, get_protect_ranges}
use mp4ff.Crypto.Samples.Cut.{nalu_marks}
use mp4ff.Crypto.Samples.Schemes.{cenc_bytes, cbcs_bytes, get_protect_ranges_cbcs}
use mp4ff.Crypto.Samples.Encrypt.{encrypt_nalus_round_trip}
use mp4ff.Tests.Encryption.{accept, toy_ctr, an_iv}

-- Slice headers of up to 12 bytes, in NAL units of the types 1, 2, 5 and 19 only.
abbrev parse_header : Bytes → Result ℕ
parse_header [] = err no_slice_header
parse_header (b ∷ bs) =
    let t = b % 32 in
    if (t == 1 || t == 2) || (t == 5 || t == 19)
    then ok (min 12 (suc (length bs)))
    else err no_slice_header

-- Parameters, and an instantaneous refresh.
abbrev parameters : Bytes
parameters = 0x67 ∷ replicate 9 1

abbrev picture : Bytes
picture = 0x65 ∷ replicate 139 2

encrypt_nalus_round_trip_example :
    (ssps : List SubSamplePattern) × (enc : Bytes) × (get_protect_ranges
        (avc_syntax parse_header)
        (sample_of (parameters ∷ picture ∷ []))
        cenc
      ≡ ok ssps)
    × (crypt_sample_cenc accept toy_ctr (sample_of (parameters ∷ picture ∷ [])) (50 ∷ []) an_iv ssps
        ≡ ok enc)
    × (enc
        ≡ xor_marked
            (toy_ctr (50 ∷ []) an_iv)
            0
            (flat (nalu_marks (avc_syntax parse_header) cenc_bytes) (parameters ∷ picture ∷ []))
            (sample_of (parameters ∷ picture ∷ [])))
    × (crypt_sample_cenc accept toy_ctr enc (50 ∷ []) an_iv ssps
        ≡ ok (sample_of (parameters ∷ picture ∷ [])))
unfolding mp4ff.Base.Words.be_bytes
encrypt_nalus_round_trip_example =
    encrypt_nalus_round_trip accept toy_ctr (50 ∷ []) (50 ∷ []) an_iv refl refl
      (avc_syntax parse_header) parameters (picture ∷ []) (omega arith, (omega arith, tt))
      (omega arith)

-- The parser fails on the parameters.
get_protect_ranges_cbcs_example :
    (ssps : List SubSamplePattern) × (get_protect_ranges
        (avc_syntax parse_header)
        (sample_of (parameters ∷ picture ∷ []))
        cbcs
      ≡ ok ssps)
    × (marks ssps
        ≡ flat
            (nalu_marks (avc_syntax parse_header) (cbcs_bytes (avc_syntax parse_header)))
            (parameters ∷ picture ∷ []))
    × All (λ ss. IsUint16 ss.bytes_of_clear_data) ssps
unfolding mp4ff.Base.Words.be_bytes is_video_nalu_type
get_protect_ranges_cbcs_example =
    get_protect_ranges_cbcs (avc_syntax parse_header) parameters (picture ∷ [])
      ((λ video. cc), ((λ video. (refl, omega arith)), tt)) (omega arith, (omega arith, tt))
      (omega arith)
