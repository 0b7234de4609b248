-- ===== src/Crypto/Samples.antt =====
-- mp4/crypto.go: `GetAVCProtectRanges` and `GetHEVCProtectRanges`, which bytes of a sample of NAL units
-- are to be encrypted. They differ in the package that they call.
pub mod Marks
pub mod Cut
pub mod Cover
pub mod Schemes
pub mod Encrypt
use mp4ff.Base.{
  ℕ, zero, suc, ◌+◌, ◌-◌, ◌*◌, ◌/◌, ◌%◌, ◌^◌, Bool, not, Option, none, some, [], ◌∷◌, List, Bytes,
  length, take, drop, get_elem?, ltb, leb, ◌==◌, if◌then◌else◌,
}
use mp4ff.Base.Action.{
  Result, ok, err, nalu_length, out_of_fuel, header_too_short, panic, unknown_scheme,
}
use mp4ff.Avc.Nalus.{length_field}
use mp4ff.Crypto.{SubSamplePattern, append_protect_range}

-- What is called of the packages avc and hevc. `slice_header_size` stands for `ParseSliceHeader` of
-- avc/slice.go or hevc/slice.go with the size that it reports: any function that may fail, as the former
-- does for all NAL units that are not slices. It depends on the parameter sets, which are fixed here.
pub record NaluSyntax : Type 0 where
  pub get_nalu_type : ℕ → ℕ
  pub highest_video_nalu_type : ℕ
  pub slice_header_size : Bytes → Result ℕ

unfoldable pub is_video_nalu_type : NaluSyntax → ℕ → Bool
is_video_nalu_type syn nalu_type = leb nalu_type syn.highest_video_nalu_type

abbrev pub avc_syntax : (Bytes → Result ℕ) → NaluSyntax
avc_syntax parse_slice_header = record {
  get_nalu_type = λ b. b % 32;
  highest_video_nalu_type = 5;
  slice_header_size = parse_slice_header;
}

abbrev pub hevc_syntax : (Bytes → Result ℕ) → NaluSyntax
hevc_syntax parse_slice_header = record {
  get_nalu_type = λ b. b / 2 % 64;
  highest_video_nalu_type = 31;
  slice_header_size = parse_slice_header;
}

-- The cases of the switch on the scheme.
pub data Scheme : Type 0 where
  cenc cbcs other_scheme : Scheme

pub record Ranges : Type 0 where
  pub ssps : List SubSamplePattern
  pub clear_start : ℕ
  pub clear_end : ℕ

-- `clearEnd` and `bytesToProtect` of a video NAL unit from `pos` on.
unfoldable pub protect_video : NaluSyntax → Scheme → ℕ → ℕ → Bytes → Result (ℕ × ℕ)
protect_video syn cenc pos n nalu =
    let clear_end = (pos + n) % 2 ^ 32 in
    let with_header = (n + 4) % 2 ^ 32 in
    if leb (96 + 16) with_header
    then (let bytes_to_protect = (with_header - 96) / 16 * 16 in
        ok ((clear_end + 2 ^ 32 - bytes_to_protect) % 2 ^ 32, bytes_to_protect))
    else ok (clear_end, 0)
protect_video syn cbcs pos n nalu = elim (syn.slice_header_size nalu) [
  | err e ↦ err e
  | ok size ↦
      let clear_head_size = size % 2 ^ 32 in
      ok ((pos + clear_head_size) % 2 ^ 32, (n + 2 ^ 32 - clear_head_size) % 2 ^ 32)
]
protect_video syn other_scheme pos n nalu = err unknown_scheme

-- `if bytesToProtect > 0`
unfoldable pub add_range : Ranges → ℕ → ℕ → Ranges
add_range r clear_end bytes_to_protect =
    if ltb 0 bytes_to_protect
    then record {
      ssps =
          append_protect_range r.ssps ((clear_end + 2 ^ 32 - r.clear_start) % 2 ^ 32)
            bytes_to_protect;
      clear_start = (clear_end + bytes_to_protect) % 2 ^ 32;
      clear_end = (clear_end + bytes_to_protect) % 2 ^ 32;
    }
    else record { ssps = r.ssps; clear_start = r.clear_start; clear_end = clear_end }

-- One NAL unit, from its first byte at `pos` to `stop`.
unfoldable pub nalu_range : NaluSyntax → Scheme → Bytes → ℕ → ℕ → ℕ → Result (ℕ × ℕ)
nalu_range syn scheme sample pos n stop = elim (get_elem? sample pos) [
  | none ↦ err panic
  | some b ↦
      if is_video_nalu_type syn (syn.get_nalu_type b)
      then (if ltb stop pos
          then err panic
          else protect_video syn scheme pos n (take (stop - pos) (drop pos sample)))
      else ok (stop, 0)
]

unfoldable pub ranges_loop : ℕ → NaluSyntax → Scheme → Bytes → ℕ → Ranges → Result Ranges
ranges_loop zero syn scheme sample pos r = err out_of_fuel
ranges_loop (suc fuel) syn scheme sample pos r =
    let n = length_field sample pos in
    let start = (pos + 4) % 2 ^ 32 in
    let stop = (start + n) % 2 ^ 32 in
    if not (ltb pos ((length sample - 4) % 2 ^ 32))
    then ok r
    else if ltb (length sample) stop
    then err nalu_length
    else elim (nalu_range syn scheme sample start n stop) [
      | err e ↦ err e
      | ok range ↦ ranges_loop fuel syn scheme sample stop (add_range r range.0 range.1)
    ]

-- What is appended behind the loop.
unfoldable pub add_clear_rest : ℕ → Ranges → List SubSamplePattern
add_clear_rest sample_length r =
    let ssps =
      if ltb r.clear_start r.clear_end
      then append_protect_range r.ssps (r.clear_end - r.clear_start) 0
      else r.ssps in
    if length ssps == 0 then append_protect_range ssps (sample_length % 2 ^ 32) 0 else ssps

unfoldable pub get_protect_ranges : NaluSyntax → Bytes → Scheme → Result (List SubSamplePattern)
get_protect_ranges syn sample scheme =
    if ltb (length sample) 4
    then err header_too_short
    else elim (ranges_loop (suc (length sample)) syn scheme sample 0
        (record { ssps = []; clear_start = 0; clear_end = 0 })) [
          | err e ↦ err e
          | ok r ↦ ok (add_clear_rest (length sample) r)
        ]

abbrev pub get_avc_protect_ranges :
    (Bytes → Result ℕ) → Bytes → Scheme → Result (List SubSamplePattern)
get_avc_protect_ranges parse_slice_header = get_protect_ranges (avc_syntax parse_slice_header)

abbrev pub get_hevc_protect_ranges :
    (Bytes → Result ℕ) → Bytes → Scheme → Result (List SubSamplePattern)
get_hevc_protect_ranges parse_slice_header = get_protect_ranges (hevc_syntax parse_slice_header)
