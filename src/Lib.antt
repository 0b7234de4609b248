-- ===== src/Lib.antt =====
-- mp4ff: boxes of MP4 files, as the Go library of this repository encodes, decodes and searches
-- them.
--
-- A box is a size, a name of four bytes and a payload. A decoder reads from a slice reader
-- (bits/fixedslicereader.go), which keeps the first error and then reads zeros; an encoder writes
-- to a slice writer (bits/fixedslicewriter.go) of as many bytes as the box's `Size()` says.
-- `DecodeBoxSR` (mp4/boxsr.go) reads a header, looks the name up in a table of decoders and calls
-- what it finds. Boxes of a fragment describe runs of samples (mp4/tfhd.go, mp4/trun.go and
-- others), boxes of a sample table hold durations, sizes and places of all samples (mp4/stts.go,
-- mp4/stsc.go and others), and container boxes (mp4/container.go) hold other boxes.
--
-- The files:
--   Base            the names that all files share; Base/Action errors as values, and actions on an
--                   explicit state that may end in one; Base/Int and Base/Words the integers of a
--                   fixed width and their bytes; Base/Lists and Base/Tests lists and Boolean tests
--                   over the native numbers.
--   Bits/Reader     bits/fixedslicereader.go: `FixedSliceReader` and its methods.
--   Bits/Writer     bits/fixedslicewriter.go: `FixedSliceWriter` and its methods on whole bytes.
--   Bits/Reads      what an action reads from a reader that stands before given bytes (`Reads`), and
--   Bits/Writes     what it writes into a writer with room for it (`Writes`), one rule for each method
--                   and for sequences, tests and loops. The boxes are proved with these alone.
--   Base/Binary     the bits of a number, and the laws of `|`; Base/Masks those of `&`.
--   Bits/BitReader  bits/reader.go: `Reader`, with a source of bytes as a parameter; Holds and Takes say
--                   which bits a reader has before it and which an action takes, Golomb the codes.
--   Bits/BitWriter  bits/writer.go: `Writer`, with a sink of bytes as a parameter; Wrote says which bits
--                   were written.
--   Bits/EbspReader bits/ebspreader.go and bits/ebspwriter.go: the same with emulation prevention in the
--   Bits/EbspWriter source and in the sink; Emulation is that of whole byte strings.
--   Bits/Fields     fields of some bits each, and Bits/Syntax NAL units of syntax elements, written and
--                   read back.
--   Box             mp4/box.go, mp4/boxsr.go and mp4/unknown.go: `BoxHeader`, `DecodeHeaderSR`,
--                   `DecodeBoxSR`, `EncodeHeaderSW`, `UnknownBox`. The table of decoders, a global
--                   map in the source, is the record `Registry`, an argument of `decode_box_sr`.
--   Box/Frame       the bytes of a box around its payload, and `Codec`: a box that `EncodeSW` and
--                   `Encode` write to these bytes, `Size()` of them, and `DecodeBoxSR` reads back.
--   Box/Unknown     boxes without a decoder.
--   Container       mp4/container.go: `DecodeContainerChildrenSR`, `EncodeContainerSW`,
--                   `GenericContainerBox`. The methods of the children are a record, `BoxMethods`.
--   Boxes           the interface `Box` of mp4/box.go with the boxes that are modelled, and their entries
--                   in the table of mp4/boxsr.go.
--   Fragment        Mfhd, Tfdt, Mehd, Trex, Tfhd and Trun: one module for each file of mp4/ of that
--                   name, with a child RoundTrip; Trun/Queries the look-ups of mp4/trun.go;
--                   SampleFlags the 32 bits of mp4/sampleflags.go, Samples `NewSample` and `IsSync`
--                   of mp4/sample.go.
--   SampleTable     Stts, Ctts, Stsc, Stco, Co64, Stss and Stsz, likewise, with Elst, the edit list of
--                   the same track (mp4/elst.go); Search the binary search
--                   that several of these files write out; Stsc/Chunks the look-ups of mp4/stsc.go,
--                   Stsc/Table the order of its entries, Stsc/Count the independent count of all
--                   chunks that the look-ups are compared with.
--   Avc/Nalus       avc/nalus.go: `GetNalusFromSample`.
--   Avc/AnnexB      avc/annexb.go: `ConvertSampleToByteStream` and `ExtractNalusFromByteStream`.
--   Aac/Adts        aac/adts.go: `Encode` and `DecodeADTSHeader`, on bits/writer.go and bits/reader.go;
--                   Aac/Frequency `NewADTSHeader` and `Frequency`, with the tables of aac/aac.go.
--   Crypto          mp4/crypto.go: `AppendProtectRange` and the loop over the subsamples of a sample;
--                   Cenc and Cbcs are its two schemes, Iv the initialization vector of the next sample;
--                   Ranges says which bytes patterns protect, Protect what the loop changes. Samples
--                   finds the ranges of a sample of NAL units (`GetAVCProtectRanges` and
--                   `GetHEVCProtectRanges`), and Samples/Encrypt puts them together. The block cipher of
--                   crypto/aes and the key stream of crypto/cipher are parameters.
--   Tests           concrete boxes and tables, and the theorems at them.
--
-- A definition has the name of the function in snake_case: `DecodeTrunSR` is `decode_trun_sr`,
-- `(b *SttsBox) GetDur` is `get_dur`; `X.Size`, `X.EncodeSW` and `X.Encode` are `x_size`,
-- `encode_x_sw` and `encode_x`. Unsigned integers are numbers whose wrap-around is written out;
-- `int`, the index type of Go, is a number. A panic (an index out of range, a division by 0) is
-- `none` or the error `panic`. A Go error is one of the constructors of `Error`.
--
-- Loops over a slice are recursion on the list, and counted loops recursion on the rounds left.
-- Other loops have fuel, and that it is enough is part of the theorems, since these state the
-- result: the binary search has as much as its range is long, and loses at least one of it in
-- every round; the loop over the children of a container has one more than the bytes of the
-- container, and every child takes at least one; the loop over the NAL units of a sample has one
-- more than the bytes of the sample, and every round takes at least four, as have those
-- that look for the ranges to protect and write start codes; the loops of the bit
-- readers and writers have one for each bit, and take or add eight; the loop that counts the
-- zeros of a Golomb code has one for each bit that is left; the loop that splits a clear range
-- has one for each of its bytes; the loop over the stripes of an encrypted range has one more
-- than its bytes. Encoders and decoders are related for all boxes whose size fits 32 bits, which
-- is all that `EncodeHeaderSW` accepts. Bits are read and written at most 56 at a time in the
-- theorems: with up to 7 more in the reader or writer these fit the 64 bits of its value.
--
-- Not modelled: the decoders from an io.Reader and the methods `Encode` of containers, `Info` and
-- whatever else prints, files, the encryption of whole fragments, the codecs' parameter sets and
-- the commands.
pub mod Base
pub mod Bits
pub mod Box
pub mod Container
pub mod Boxes
pub mod Crypto
pub mod Fragment
pub mod SampleTable
pub mod Avc
pub mod Aac
mod Tests
