-- ===== src/Bits/Syntax.antt =====
-- A NAL unit as a list of syntax elements, written by `EBSPWriter` and read by `EBSPReader`.
use mp4ff.Base.{
  ℕ, ◌^◌, ◌≤◌, ◌<◌, ◌≡◌, refl, sym, ap, ◌∙◌, arith, none, List, [], ◌∷◌, ◌++◌, map, append_assoc,
  append-nil, Bytes, All, flat, IsByte, false,
}
use mp4ff.Base.Binary.{bits_of}
use mp4ff.Base.Action.{ok, Action, ◌>>=◌, pure}
use mp4ff.Bits.BitReader.{new_bit_reader, read, read_exp_golomb}
use mp4ff.Bits.BitReader.Holds.{Holds}
use mp4ff.Bits.BitReader.Takes.{Takes, Takes-pure, Takes-bind, Takes-last, Takes-read}
use mp4ff.Bits.BitReader.Golomb.{golomb_code, IsCode, read_exp_golomb_lem}
use mp4ff.Bits.BitWriter.{BitWriter, new_bit_writer, write}
use mp4ff.Bits.EbspReader.{
  EbspReader, ebsp_source, new_ebsp_reader, more_rbsp_data, read_rbsp_trailing_bits,
}
use mp4ff.Bits.EbspReader.Trailing.{more_rbsp_data_lem, read_rbsp_trailing_bits_lem}
use mp4ff.Bits.EbspWriter.{
  EbspSink, ebsp_sink, new_ebsp_writer, write_exp_golomb, write_rbsp_trailing_bits,
}
use mp4ff.Bits.EbspWriter.Golomb.{Ready, write-Ready, write_exp_golomb-Ready}
use mp4ff.Bits.EbspWriter.Trailing.{trailing-Closed}
use mp4ff.Bits.Emulation.{
  escape, escape-Guarded, Guarded-at, Delivers-escape, buffer, puts-escape, ebsp_never_fails,
}

-- `u n v` is `v` in `n` bits; `ue p v` is the Golomb code of `v`, which has `p` zeros.
pub data Element : Type 0 where
  u : ℕ → ℕ → Element
  ue : ℕ → ℕ → Element

abbrev pub IsElement : Element → Type 0
IsElement (u n v) = (n ≤ 56) × (v < 2 ^ n)
IsElement (ue p v) = (p < 56) × IsCode p v

abbrev pub element_value : Element → ℕ
element_value (u n v) = v
element_value (ue p v) = v

abbrev pub element_bits : Element → List ℕ
element_bits (u n v) = bits_of n v
element_bits (ue p v) = golomb_code p v

abbrev EbspWriter : Type 0
EbspWriter = BitWriter (EbspSink Bytes)

abbrev pub write_element : Element → EbspWriter → EbspWriter
write_element (u n v) = write (ebsp_sink buffer) v n
write_element (ue p v) = write_exp_golomb buffer v

abbrev pub write_elements : List Element → EbspWriter → EbspWriter
write_elements [] w = w
write_elements (e ∷ es) w = write_elements es (write_element e w)

-- A whole NAL unit, with its trailing bits.
abbrev pub write_unit : List Element → Bytes
write_unit es =
    (write_rbsp_trailing_bits buffer (write_elements es (new_ebsp_writer buffer []))).sink.under

abbrev pub read_element : Element → Action EbspReader ℕ
read_element (u n v) = read ebsp_source n
read_element (ue p v) = read_exp_golomb ebsp_source

-- Reads elements of these kinds and widths.
abbrev pub read_elements : List Element → Action EbspReader (List ℕ)
read_elements [] = pure []
read_elements (e ∷ es) = read_element e >>= λ v. read_elements es >>= λ vs. pure (v ∷ vs)

abbrev start : EbspSink Bytes
start = record { under = []; nr0 = 0 }

abbrev WriterReady : EbspWriter → List ℕ → Type 0
WriterReady = Ready buffer ebsp_never_fails start

write_element-Ready :
    (e : Element) (w : EbspWriter) (bits : List ℕ)
    → IsElement e
    → WriterReady w bits
    → WriterReady (write_element e w) (bits ++ element_bits e)
write_element-Ready (u n v) w bits h r = write-Ready buffer ebsp_never_fails start v n w bits h.0 r
write_element-Ready (ue p v) w bits h r =
    write_exp_golomb-Ready buffer ebsp_never_fails start p v w bits h.1 h.0 r

write_elements-Ready :
    (es : List Element) (w : EbspWriter) (bits : List ℕ)
    → All IsElement es
    → WriterReady w bits
    → WriterReady (write_elements es w) (bits ++ flat element_bits es)
write_elements-Ready [] w bits h r = rw append-nil r
write_elements-Ready (e ∷ es) w bits h r =
    rw (append_assoc bits (element_bits e) (flat element_bits es)) at (
      write_elements-Ready es (write_element e w) (bits ++ element_bits e) h.1
        (write_element-Ready e w bits h.0 r))

Takes-element :
    (e : Element)
    → IsElement e
    → Takes ebsp_source (read_element e) (element_bits e) (element_value e)
Takes-element (u n v) h = Takes-read ebsp_source n v h.1 (omega (arith, h.0))
Takes-element (ue p v) h = read_exp_golomb_lem ebsp_source p v h.1

Takes-elements :
    (es : List Element)
    → All IsElement es
    → Takes ebsp_source (read_elements es) (flat element_bits es) (map element_value es)
Takes-elements [] h = Takes-pure ebsp_source []
Takes-elements (e ∷ es) h =
    Takes-bind ebsp_source _ (Takes-element e h.0)
      (Takes-last ebsp_source (λ vs. element_value e ∷ vs) (Takes-elements es h.1))

-- The bytes of a unit are the emulation-prevented form of bytes whose bits are those of the elements
-- and the trailing bits.
unit_bytes :
    (es : List Element)
    → All IsElement es
    → (bs : Bytes) × All IsByte bs
      × (write_unit es ≡ escape 0 bs)
      × ((m : ℕ) × (flat (bits_of 8) bs ≡ flat element_bits es ++ (1 ∷ bits_of m 0)))
unfolding new_bit_writer bits_of
unit_bytes es h =
    let new : WriterReady (new_ebsp_writer buffer []) [] = record {
      wrote = record { good = refl; bytes = []; are_bytes = tt; sent = refl; are = refl };
      few = omega arith;
      small = omega arith;
    } in
    let written = write_elements-Ready es (new_ebsp_writer buffer []) [] h new in
    let (m, (closed, whole)) =
      trailing-Closed buffer ebsp_never_fails start (write_elements es (new_ebsp_writer buffer []))
        (flat element_bits es) written in
    let w = write_rbsp_trailing_bits buffer (write_elements es (new_ebsp_writer buffer [])) in
    let bs = closed.wrote.bytes in
    (
      bs,
      closed.wrote.are_bytes,
      ap (λ k. k.under) closed.wrote.sent ∙ puts-escape bs [] 0,
      (m, sym (append-nil (flat (bits_of 8) bs)) ∙ (rw whole at closed.wrote.are)),
    )

-- The bytes that `EBSPWriter` writes hold no start code: two zeros are followed by a byte of 3 or
-- more, whatever syntax elements were written, each of at most 56 bits.
pub write_unit-no_start_code :
    (es : List Element) (front back : Bytes) (b : ℕ)
    → All IsElement es
    → write_unit es ≡ front ++ (0 ∷ 0 ∷ b ∷ back)
    → 2 < b
write_unit-no_start_code es front back b h e =
    let (bs, _, escaped, _) = unit_bytes es h in
    let guarded = escape-Guarded 0 bs (omega arith) in
    Guarded-at 0 front back b (rw (sym escaped ∙ e) at guarded)

-- `EBSPReader` reads back every syntax element that `EBSPWriter` wrote, numbers of up to 56 bits and
-- Golomb codes mixed, then finds that no more data follow, and finds the trailing bits in order.
pub unit_round_trip :
    (es : List Element)
    → All IsElement es
    → (t : EbspReader) × (read_elements es (new_ebsp_reader (write_unit es))
        ≡ ok (map element_value es, t))
      × (more_rbsp_data t ≡ ok (false, t))
      × ((read_rbsp_trailing_bits t).0 ≡ none)
unfolding new_bit_reader bits_of
unit_round_trip es h =
    let (bs, are_bytes, escaped, (m, bits)) = unit_bytes es h in
    let holds : Holds ebsp_source (new_ebsp_reader (escape 0 bs))
        (flat element_bits es ++ (1 ∷ bits_of m 0)) =
      record {
        good = refl;
        small = omega arith;
        bytes = bs;
        delivers = Delivers-escape 0 0 bs (omega arith) are_bytes;
        are = bits;
      } in
    let (t, e, s) =
      (Takes-elements es h).run (new_ebsp_reader (escape 0 bs)) (1 ∷ bits_of m 0) holds in
    (t, rw escaped e, more_rbsp_data_lem [] m t tt s, (read_rbsp_trailing_bits_lem m t s).0)
