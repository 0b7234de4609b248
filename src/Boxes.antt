-- ===== src/Boxes.antt =====
-- The boxes that have a module here, under one type, as the interface `Box` of mp4/box.go joins them:
-- the methods that the code calls through the interface, and the entries for these boxes of the
-- table of decoders in mp4/boxsr.go. Its entries for all other names are a parameter, `others`, which
-- says `none` of a name that the table does not have.
pub mod RoundTrip
use mp4ff.Base.{ℕ, Option, some, Bytes, codes, equal, if◌then◌else◌}
use mp4ff.Base.Action.{Result, Action}
use mp4ff.Bits.Writer.{Writer}
use mp4ff.Box.{UnknownBox, Registry, Decoder, as_box, encode_unknown_sw, encode_unknown}
use mp4ff.Container.{BoxMethods}
use mp4ff.Fragment.Mfhd.{MfhdBox, decode_mfhd_sr, mfhd_size, encode_mfhd_sw, encode_mfhd}
use mp4ff.Fragment.Tfdt.{TfdtBox, decode_tfdt_sr, tfdt_size, encode_tfdt_sw, encode_tfdt}
use mp4ff.Fragment.Mehd.{MehdBox, decode_mehd_sr, mehd_size, encode_mehd_sw, encode_mehd}
use mp4ff.Fragment.Trex.{TrexBox, decode_trex_sr, trex_size, encode_trex_sw, encode_trex}
use mp4ff.Fragment.Tfhd.{TfhdBox, decode_tfhd_sr, tfhd_size, encode_tfhd_sw, encode_tfhd}
use mp4ff.Fragment.Trun.{TrunBox, decode_trun_sr, trun_size, encode_trun_sw, encode_trun}
use mp4ff.SampleTable.Stts.{SttsBox, decode_stts_sr, stts_size, encode_stts_sw, encode_stts}
use mp4ff.SampleTable.Ctts.{CttsBox, decode_ctts_sr, ctts_size, encode_ctts_sw, encode_ctts}
use mp4ff.SampleTable.Stsc.{StscBox, decode_stsc_sr, stsc_size, encode_stsc_sw, encode_stsc}
use mp4ff.SampleTable.Stco.{StcoBox, decode_stco_sr, stco_size, encode_stco_sw, encode_stco}
use mp4ff.SampleTable.Co64.{Co64Box, decode_co64_sr, co64_size, encode_co64_sw, encode_co64}
use mp4ff.SampleTable.Elst.{ElstBox, decode_elst_sr, elst_size, encode_elst_sw, encode_elst}
use mp4ff.SampleTable.Stss.{StssBox, decode_stss_sr, stss_size, encode_stss_sw, encode_stss}
use mp4ff.SampleTable.Stsz.{StszBox, decode_stsz_sr, stsz_size, encode_stsz_sw, encode_stsz}

pub data AnyBox : Type 0 where
  of_unknown_box : UnknownBox → AnyBox
  of_mfhd : MfhdBox → AnyBox
  of_tfdt : TfdtBox → AnyBox
  of_mehd : MehdBox → AnyBox
  of_trex : TrexBox → AnyBox
  of_tfhd : TfhdBox → AnyBox
  of_trun : TrunBox → AnyBox
  of_stts : SttsBox → AnyBox
  of_ctts : CttsBox → AnyBox
  of_stsc : StscBox → AnyBox
  of_stco : StcoBox → AnyBox
  of_co64 : Co64Box → AnyBox
  of_elst : ElstBox → AnyBox
  of_stss : StssBox → AnyBox
  of_stsz : StszBox → AnyBox

abbrev pub Others : Type 0
Others = Bytes → Option (Decoder AnyBox)

abbrev pub decoder_of : Others → Bytes → Option (Decoder AnyBox)
decoder_of others name =
    if equal name (codes "mfhd")
    then some (as_box of_mfhd decode_mfhd_sr)
    else if equal name (codes "tfdt")
    then some (as_box of_tfdt decode_tfdt_sr)
    else if equal name (codes "mehd")
    then some (as_box of_mehd decode_mehd_sr)
    else if equal name (codes "trex")
    then some (as_box of_trex decode_trex_sr)
    else if equal name (codes "tfhd")
    then some (as_box of_tfhd decode_tfhd_sr)
    else if equal name (codes "trun")
    then some (as_box of_trun decode_trun_sr)
    else if equal name (codes "stts")
    then some (as_box of_stts decode_stts_sr)
    else if equal name (codes "ctts")
    then some (as_box of_ctts decode_ctts_sr)
    else if equal name (codes "stsc")
    then some (as_box of_stsc decode_stsc_sr)
    else if equal name (codes "stco")
    then some (as_box of_stco decode_stco_sr)
    else if equal name (codes "co64")
    then some (as_box of_co64 decode_co64_sr)
    else if equal name (codes "elst")
    then some (as_box of_elst decode_elst_sr)
    else if equal name (codes "stss")
    then some (as_box of_stss decode_stss_sr)
    else if equal name (codes "stsz")
    then some (as_box of_stsz decode_stsz_sr)
    else others name

abbrev pub table : Others → Registry AnyBox
table others = record { decoders_sr = decoder_of others; of_unknown = of_unknown_box }

abbrev pub box_type : AnyBox → Bytes
box_type (of_unknown_box b) = b.name
box_type (of_mfhd b) = codes "mfhd"
box_type (of_tfdt b) = codes "tfdt"
box_type (of_mehd b) = codes "mehd"
box_type (of_trex b) = codes "trex"
box_type (of_tfhd b) = codes "tfhd"
box_type (of_trun b) = codes "trun"
box_type (of_stts b) = codes "stts"
box_type (of_ctts b) = codes "ctts"
box_type (of_stsc b) = codes "stsc"
box_type (of_stco b) = codes "stco"
box_type (of_co64 b) = codes "co64"
box_type (of_elst b) = codes "elst"
box_type (of_stss b) = codes "stss"
box_type (of_stsz b) = codes "stsz"

abbrev pub box_size : AnyBox → ℕ
box_size (of_unknown_box b) = b.size
box_size (of_mfhd b) = mfhd_size b
box_size (of_tfdt b) = tfdt_size b
box_size (of_mehd b) = mehd_size b
box_size (of_trex b) = trex_size b
box_size (of_tfhd b) = tfhd_size b
box_size (of_trun b) = trun_size b
box_size (of_stts b) = stts_size b
box_size (of_ctts b) = ctts_size b
box_size (of_stsc b) = stsc_size b
box_size (of_stco b) = stco_size b
box_size (of_co64 b) = co64_size b
box_size (of_elst b) = elst_size b
box_size (of_stss b) = stss_size b
box_size (of_stsz b) = stsz_size b

abbrev pub encode_sw : AnyBox → Action Writer (Unit {0})
encode_sw (of_unknown_box b) = encode_unknown_sw b
encode_sw (of_mfhd b) = encode_mfhd_sw b
encode_sw (of_tfdt b) = encode_tfdt_sw b
encode_sw (of_mehd b) = encode_mehd_sw b
encode_sw (of_trex b) = encode_trex_sw b
encode_sw (of_tfhd b) = encode_tfhd_sw b
encode_sw (of_trun b) = encode_trun_sw b
encode_sw (of_stts b) = encode_stts_sw b
encode_sw (of_ctts b) = encode_ctts_sw b
encode_sw (of_stsc b) = encode_stsc_sw b
encode_sw (of_stco b) = encode_stco_sw b
encode_sw (of_co64 b) = encode_co64_sw b
encode_sw (of_elst b) = encode_elst_sw b
encode_sw (of_stss b) = encode_stss_sw b
encode_sw (of_stsz b) = encode_stsz_sw b

abbrev pub encode : AnyBox → Result Bytes
encode (of_unknown_box b) = encode_unknown b
encode (of_mfhd b) = encode_mfhd b
encode (of_tfdt b) = encode_tfdt b
encode (of_mehd b) = encode_mehd b
encode (of_trex b) = encode_trex b
encode (of_tfhd b) = encode_tfhd b
encode (of_trun b) = encode_trun b
encode (of_stts b) = encode_stts b
encode (of_ctts b) = encode_ctts b
encode (of_stsc b) = encode_stsc b
encode (of_stco b) = encode_stco b
encode (of_co64 b) = encode_co64 b
encode (of_elst b) = encode_elst b
encode (of_stss b) = encode_stss b
encode (of_stsz b) = encode_stsz b

abbrev pub methods : BoxMethods AnyBox
methods = record { box_size = box_size; encode_sw = encode_sw }
