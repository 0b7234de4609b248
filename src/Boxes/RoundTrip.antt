-- ===== src/Boxes/RoundTrip.antt =====
-- Every box that is modelled is read back from the bytes that it is written to, through the interface
-- and the table of decoders.
use mathlib.Core.Path.{subst}
use mp4ff.Base.{ℕ, ◌+◌, ◌*◌, ◌^◌, ◌<◌, ◌≡◌, refl, List, Bytes, none, length, All}
use mp4ff.Base.Int.{ℤ}
use mp4ff.Base.Words.{IsUint8, IsUint24}
use mp4ff.Box.Frame.{Codec}
use mp4ff.Box.Unknown.{IsValid as IsValidUnknown, unknown_round_trip}
use mp4ff.Boxes.{
  AnyBox, Others, decoder_of, table, box_type, box_size, encode_sw, encode, of_unknown_box, of_mfhd,
  of_tfdt, of_mehd, of_trex, of_tfhd, of_trun, of_stts, of_ctts, of_stsc, of_stco, of_co64, of_elst,
  of_stss, of_stsz,
}
use mp4ff.Fragment.Mfhd.RoundTrip.{IsValid as IsValidMfhd, mfhd_round_trip, payload as mfhd_payload}
use mp4ff.Fragment.Tfdt.RoundTrip.{IsValid as IsValidTfdt, tfdt_round_trip, payload as tfdt_payload}
use mp4ff.Fragment.Mehd.RoundTrip.{IsValid as IsValidMehd, mehd_round_trip, payload as mehd_payload}
use mp4ff.Fragment.Trex.RoundTrip.{IsValid as IsValidTrex, trex_round_trip, payload as trex_payload}
use mp4ff.Fragment.Tfhd.RoundTrip.{
  IsValid as IsValidTfhd, tfhd_round_trip, payload as tfhd_payload, stored as stored_tfhd,
}
use mp4ff.Fragment.Trun.RoundTrip.{
  IsValid as IsValidTrun, trun_round_trip, payload as trun_payload, stored as stored_trun,
}
use mp4ff.SampleTable.Stts.{SttsBox}
use mp4ff.SampleTable.Stts.RoundTrip.{
  stts_round_trip, payload as stts_payload, IsEntry as IsSttsEntry, stts_of,
}
use mp4ff.SampleTable.Ctts.Entries.{ctts_of}
use mp4ff.SampleTable.Ctts.{CttsBox}
use mp4ff.SampleTable.Ctts.RoundTrip.{
  ctts_round_trip, payload as ctts_payload, IsEntry as IsCttsEntry,
}
use mp4ff.SampleTable.Stsc.{StscBox}
use mp4ff.SampleTable.Stsc.RoundTrip.{stsc_round_trip, payload as stsc_payload, Row, IsRow, stsc_of}
use mp4ff.SampleTable.Stco.RoundTrip.{
  IsValid as IsValidStco, stco_round_trip, payload as stco_payload,
}
use mp4ff.SampleTable.Co64.RoundTrip.{
  IsValid as IsValidCo64, co64_round_trip, payload as co64_payload,
}
use mp4ff.SampleTable.Elst.RoundTrip.{
  IsValid as IsValidElst, elst_round_trip, payload as elst_payload,
}
use mp4ff.SampleTable.Stss.RoundTrip.{
  IsValid as IsValidStss, stss_round_trip, payload as stss_payload,
}
use mp4ff.SampleTable.Stsz.RoundTrip.{
  IsValid as IsValidStsz, stsz_round_trip, payload as stsz_payload,
}

-- The box holds the table that stands for some runs.
pub record SttsRuns (b : SttsBox) : Type 0 where
  pub version : ℕ
  pub flags : ℕ
  pub runs : List (ℕ × ℕ)
  pub are : stts_of version flags runs ≡ b
  pub short : IsUint8 version
  pub flags24 : IsUint24 flags
  pub good : All IsSttsEntry runs
  pub fits : 16 + length runs * 8 < 2 ^ 32

-- The box holds the table that stands for some runs.
pub record CttsRuns (b : CttsBox) : Type 0 where
  pub version : ℕ
  pub flags : ℕ
  pub runs : List (ℕ × ℤ)
  pub are : ctts_of version flags runs ≡ b
  pub short : IsUint8 version
  pub flags24 : IsUint24 flags
  pub good : All IsCttsEntry runs
  pub fits : 16 + length runs * 8 < 2 ^ 32

-- The box holds the table that stands for some runs.
pub record StscRuns (b : StscBox) : Type 0 where
  pub version : ℕ
  pub flags : ℕ
  pub runs : List (Row)
  pub are : stsc_of version flags runs ≡ b
  pub short : IsUint8 version
  pub flags24 : IsUint24 flags
  pub good : All IsRow runs
  pub fits : 16 + length runs * 12 < 2 ^ 32

-- The fields fit their widths, and fields without their flag are at their defaults.
abbrev pub IsValidBox : Others → AnyBox → Type 0
IsValidBox others (of_unknown_box b) = IsValidUnknown b × (decoder_of others b.name ≡ none)
IsValidBox others (of_mfhd b) = IsValidMfhd b
IsValidBox others (of_tfdt b) = IsValidTfdt b
IsValidBox others (of_mehd b) = IsValidMehd b
IsValidBox others (of_trex b) = IsValidTrex b
IsValidBox others (of_tfhd b) = IsValidTfhd b × (stored_tfhd b ≡ b)
IsValidBox others (of_trun b) = IsValidTrun b × (stored_trun b ≡ b)
IsValidBox others (of_stts b) = SttsRuns b
IsValidBox others (of_ctts b) = CttsRuns b
IsValidBox others (of_stsc b) = StscRuns b
IsValidBox others (of_stco b) = IsValidStco b
IsValidBox others (of_co64 b) = IsValidCo64 b
IsValidBox others (of_elst b) = IsValidElst b
IsValidBox others (of_stss b) = IsValidStss b
IsValidBox others (of_stsz b) = IsValidStsz b

-- Some payload with which the box is what its methods write and what the table reads.
abbrev pub Coded : Others → AnyBox → Type 0
Coded others b =
    (payload : Bytes) × Codec (table others) (λ (c : AnyBox). c) b (encode_sw b) (encode b)
      (box_size b) (box_type b) payload

-- Every valid box of a modelled type, and every box without a decoder, is written by `EncodeSW` and
-- by `Encode` to the same bytes, `Size()` of them, behind a header with its name, and `DecodeBoxSR`
-- reads the same box from these bytes by the table of decoders, whatever its entries for other boxes
-- are.
pub any_box_round_trip : (others : Others) (b : AnyBox) → IsValidBox others b → Coded others b
any_box_round_trip others (of_unknown_box b) v =
    (b.not_decoded, unknown_round_trip b v.0 (table others) v.1)
any_box_round_trip others (of_mfhd b) v =
    (mfhd_payload b, mfhd_round_trip (table others) of_mfhd b refl v)
any_box_round_trip others (of_tfdt b) v =
    (tfdt_payload b, tfdt_round_trip (table others) of_tfdt b refl v)
any_box_round_trip others (of_mehd b) v =
    (mehd_payload b, mehd_round_trip (table others) of_mehd b refl v)
any_box_round_trip others (of_trex b) v =
    (trex_payload b, trex_round_trip (table others) of_trex b refl v)
any_box_round_trip others (of_tfhd b) v =
    (tfhd_payload b, rw v.1 at (tfhd_round_trip (table others) of_tfhd b refl v.0))
any_box_round_trip others (of_trun b) v =
    (trun_payload b, rw v.1 at (trun_round_trip (table others) of_trun b refl v.0))
any_box_round_trip others (of_stts b) v =
    let coded : Coded others (of_stts (stts_of v.version v.flags v.runs)) = (
      stts_payload v.version v.flags v.runs,
      stts_round_trip (table others) of_stts v.version v.flags v.runs refl v.short v.flags24 v.good
          v.fits,
    ) in
    subst (λ c. Coded others (of_stts c)) v.are coded
any_box_round_trip others (of_ctts b) v =
    let coded : Coded others (of_ctts (ctts_of v.version v.flags v.runs)) = (
      ctts_payload v.version v.flags v.runs,
      ctts_round_trip (table others) of_ctts v.version v.flags v.runs refl v.short v.flags24 v.good
          v.fits,
    ) in
    subst (λ c. Coded others (of_ctts c)) v.are coded
any_box_round_trip others (of_stsc b) v =
    let coded : Coded others (of_stsc (stsc_of v.version v.flags v.runs)) = (
      stsc_payload v.version v.flags v.runs,
      stsc_round_trip (table others) of_stsc v.version v.flags v.runs refl v.short v.flags24 v.good
          v.fits,
    ) in
    subst (λ c. Coded others (of_stsc c)) v.are coded
any_box_round_trip others (of_stco b) v =
    (stco_payload b, stco_round_trip (table others) of_stco b refl v)
any_box_round_trip others (of_co64 b) v =
    (co64_payload b, co64_round_trip (table others) of_co64 b refl v)
any_box_round_trip others (of_elst b) v =
    (elst_payload b, elst_round_trip (table others) of_elst b refl v)
any_box_round_trip others (of_stss b) v =
    (stss_payload b, stss_round_trip (table others) of_stss b refl v)
any_box_round_trip others (of_stsz b) v =
    (stsz_payload b, stsz_round_trip (table others) of_stsz b refl v)
