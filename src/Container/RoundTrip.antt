-- ===== src/Container/RoundTrip.antt =====
-- A container in a file: its children one after the other.
use mp4ff.Base.{
  ℕ, zero, suc, ◌+◌, ◌-◌, ◌%◌, ◌^◌, ◌<◌, ◌≤◌, ◌≡◌, refl, sym, ◌∙◌, arith, some, List, [], ◌∷◌, ◌++◌,
  map, append-nil, append_assoc, Bytes, length, length-append, All, flat, ltb-false, true, false,
  ◌==◌, ==_self,
}
use mp4ff.Base.Words.{be_bytes, length-be_bytes, IsUint32, IsUint64}
use mp4ff.Base.Action.{Action, Result, ok, bind_ok, for_each}
use mp4ff.Bits.Reader.{get_pos}
use mp4ff.Bits.Writer.{Writer}
use mp4ff.Bits.Reads.{Reads, reader_at, Reads-last}
use mp4ff.Bits.Writes.{Writes, Writes-pure, Writes-seq}
use mp4ff.Box.{Registry, as_box, decode_box_sr}
use mp4ff.Box.Frame.{
  Codec, box_bytes, header_of, Writes-box, Reads-box, length-box_bytes, lookup_decoder_known,
}
use mp4ff.Container.{
  BoxMethods, GenericContainerBox, new_generic_container_box, add_child, add_children, content_size,
  container_size, children_loop, decode_container_children_sr, decode_generic_container_box_sr,
  encode_container_sw, encode_generic_container_box_sw,
}

-- A box whose methods write the bytes `bs` of its size, from which the decoders read it back at every
-- position where it ends before 2^64.
pub record IsBox {ℓ} {B : Type ℓ} (reg : Registry B) (methods : BoxMethods B) (b : B) (bs : Bytes)
    : Type ℓ where
  pub written : Writes (methods.encode_sw b) bs
  pub sized : length bs ≡ methods.box_size b
  pub not_empty : 0 < length bs
  pub read : (pos : ℕ) → IsUint64 (pos + length bs) → Reads (decode_box_sr reg pos) bs b

module _ {ℓ} {B : Type ℓ} (reg : Registry B) (methods : BoxMethods B) where
  abbrev pub boxes : List (B × Bytes) → List B
  boxes cs = map (λ c. c.0) cs

  abbrev pub content : List (B × Bytes) → Bytes
  content cs = flat (λ c. c.1) cs

  AllBoxes : List (B × Bytes) → Type ℓ
  AllBoxes cs = All (λ c. IsBox reg methods c.0 c.1) cs

  content_size_lem :
      (acc : ℕ) (cs : List (B × Bytes))
      → All (λ c. IsBox reg methods c.0 c.1) cs
      → IsUint64 (acc + length (content cs))
      → content_size methods acc (boxes cs) ≡ acc + length (content cs)
  unfolding content_size
  content_size_lem acc [] a h = omega arith
  content_size_lem acc (c ∷ cs) a h =
      let e = length-append c.1 (content cs) in
      let s = a.0.sized in
      let small : (acc + methods.box_size c.0) % 2 ^ 64 ≡ acc + length c.1 = omega arith in
      rw (small, content_size)
        (content_size_lem (acc + length c.1) cs a.1 (omega arith) ∙ omega arith)

  Writes-children :
      (cs : List (B × Bytes))
      → All (λ c. IsBox reg methods c.0 c.1) cs
      → Writes (for_each methods.encode_sw (boxes cs)) (content cs)
  unfolding for_each
  Writes-children [] a = Writes-pure
  Writes-children (c ∷ cs) a = Writes-seq a.0.written (Writes-children cs a.1)

  add_children_lem :
      (m : GenericContainerBox B) (cs : List B)
      → add_children m cs ≡ record m { children = m.children ++ cs }
  unfolding add_children add_child
  add_children_lem m [] = rw append-nil
  add_children_lem m (c ∷ cs) = add_children_lem (add_child m c) cs ∙ rw append_assoc

  get_pos-reader_at :
      (done rest : Bytes) → get_pos (reader_at done rest) ≡ ok (length done, reader_at done rest)
  unfolding get_pos reader_at
  get_pos-reader_at done rest = refl

  children_loop_lem :
      (fuel start_pos end_pos init_pos pos : ℕ) (cs : List (B × Bytes)) (done rest : Bytes)
      → All (λ c. IsBox reg methods c.0 c.1) cs
      → length (content cs) < fuel
      → pos + length (content cs) ≡ end_pos
      → IsUint64 end_pos
      → start_pos ≤ pos
      → length done ≡ init_pos + (pos - start_pos)
      → children_loop methods reg fuel start_pos end_pos init_pos pos
          (reader_at done (content cs ++ rest))
        ≡ ok (boxes cs, reader_at (done ++ content cs) rest)
  unfolding children_loop
  children_loop_lem zero start_pos end_pos init_pos pos cs done rest a f e u l d =
      absurd (omega arith)
  children_loop_lem (suc fuel) start_pos end_pos init_pos pos [] done rest a f e u l d =
      let t : (pos == end_pos) ≡ true = ground arith in
      rw (ltb-false end_pos pos (omega arith), t) (rw append-nil)
  children_loop_lem (suc fuel) start_pos end_pos init_pos pos (c ∷ cs) done rest a f e u l d =
      let split = length-append c.1 (content cs) in
      let b = a.0 in
      let size = b.sized in
      let filled = b.not_empty in
      let more : (pos == end_pos) ≡ false = ground arith in
      let next : (pos + methods.box_size c.0) % 2 ^ 64 ≡ pos + length c.1 = omega arith in
      let here = length-append done c.1 in
      let moved : ((pos + methods.box_size c.0) % 2 ^ 64 + 2 ^ 64 - start_pos) % 2 ^ 64
          ≡ (length (done ++ c.1) + 2 ^ 64 - init_pos) % 2 ^ 64 =
        omega arith in
      let later =
        children_loop_lem fuel start_pos end_pos init_pos (pos + length c.1) cs (done ++ c.1) rest
          a.1 (omega arith) (omega arith) u (omega arith) (omega arith) in
      rw (ltb-false end_pos pos (omega arith), more, append_assoc c.1 (content cs) rest)
        (bind_ok _ _ _ ((b.read pos (omega arith)).run done (content cs ++ rest))
          ∙ bind_ok _ _ _ (get_pos-reader_at (done ++ c.1) (content cs ++ rest))
          ∙ rw (moved, ==_self)
              (bind_ok _ _ _ refl ∙ rw next (bind_ok _ _ _ later ∙ rw append_assoc)))

  Reads-children :
      (name : Bytes) (start_pos end_pos : ℕ) (cs : List (B × Bytes))
      → All (λ c. IsBox reg methods c.0 c.1) cs
      → start_pos + length (content cs) ≡ end_pos
      → IsUint64 end_pos
      → Reads
          (decode_container_children_sr methods reg
            (header_of name (8 + length (content cs)))
            start_pos
            end_pos)
          (content cs)
          (boxes cs)
  unfolding decode_container_children_sr
  Reads-children name start_pos end_pos cs a e u = record {
    run = λ done rest.
        bind_ok _ _ _ (get_pos-reader_at done (content cs ++ rest))
        ∙ children_loop_lem (suc (end_pos - start_pos)) start_pos end_pos (length done) start_pos cs
            done rest a (omega arith) e u (omega arith) (omega arith);
  }

  Reads-container :
      (name : Bytes) (start_pos : ℕ) (cs : List (B × Bytes))
      → All (λ c. IsBox reg methods c.0 c.1) cs
      → IsUint64 (start_pos + (8 + length (content cs)))
      → Reads
          (decode_generic_container_box_sr methods reg
            (header_of name (8 + length (content cs)))
            start_pos)
          (content cs)
          (record { name = name; children = boxes cs })
  unfolding decode_generic_container_box_sr new_generic_container_box
  Reads-container name start_pos cs a u =
      let start : (start_pos + 8) % 2 ^ 64 ≡ start_pos + 8 = omega arith in
      let end : (start_pos + (8 + length (content cs))) % 2 ^ 64
          ≡ start_pos + (8 + length (content cs)) =
        omega arith in
      rw (start, end)
        (rw (add_children_lem _ (boxes cs)) at (
          Reads-last (add_children (record { name = name; children = [] })) (
            Reads-children name (start_pos + 8) (start_pos + (8 + length (content cs))) cs a
              (omega arith) u)))

  -- A generic container of boxes that are written and read back: its own bytes are a header and those
  -- of its children in order, `Size()` of them; they are written by `EncodeContainerSW`, and read back
  -- as a container of the same name and children, with fuel for all of them. The size fits 32 bits, the
  -- box ends before 2^64, and the container's decoder reads the children by the registry `reg`.
  pub container_round_trip {κ} :
      {C : Type κ} (outer : Registry C) (inj : GenericContainerBox B → C) (name : Bytes)
      (start_pos : ℕ) (cs : List (B × Bytes))
      → length name ≡ 4
      → outer.decoders_sr name ≡ some (as_box inj (decode_generic_container_box_sr methods reg))
      → All (λ c. IsBox reg methods c.0 c.1) cs
      → IsUint32 (8 + length (content cs))
      → IsUint64 (start_pos + (8 + length (content cs)))
      → Writes
          (encode_generic_container_box_sw methods (record { name = name; children = boxes cs }))
          (box_bytes name (content cs))
        × (length (box_bytes name (content cs)) ≡ container_size methods (boxes cs))
        × Reads
            (decode_box_sr outer start_pos)
            (box_bytes name (content cs))
            (inj (record { name = name; children = boxes cs }))
  unfolding encode_generic_container_box_sw encode_container_sw container_size
  container_round_trip outer inj name start_pos cs named known a small u =
      let size = 8 + length (content cs) in
      let total : (8 + content_size methods 0 (boxes cs)) % 2 ^ 64 ≡ size =
        omega (arith, content_size_lem 0 cs a (omega arith)) in
      (
        rw total (Writes-box name (content cs) size named refl small (Writes-children cs a)),
        length-box_bytes name (content cs) size refl named ∙ sym total,
        Reads-box name (content cs) size refl outer start_pos named small (
            rw (lookup_decoder_known outer inj name _ known)
              (Reads-last inj (Reads-container name start_pos cs a u))),
      )

-- What the theorem on one type of box says of it as a child.
pub Codec-IsBox {ℓ κ} :
    {A : Type ℓ} {B : Type κ} {reg : Registry B} (methods : BoxMethods B) (inj : A → B) {b : A}
    {encode_sw : Action Writer (Unit {0})} {encoded : Result Bytes} {size : ℕ}
    (name payload : Bytes)
    → Codec reg inj b encode_sw encoded size name payload
    → methods.encode_sw (inj b) ≡ encode_sw
    → methods.box_size (inj b) ≡ size
    → IsBox reg methods (inj b) (box_bytes name payload)
unfolding box_bytes
Codec-IsBox methods inj name payload c e s =
    let n = 8 + length payload in
    record {
      written = rw e c.0;
      sized = c.2 ∙ sym s;
      not_empty =
          omega (arith, length-append (be_bytes 4 n) (name ++ payload), length-be_bytes 4 n);
      read = λ pos u. c.3 pos;
    }
