-- ===== src/Bits/Fields.antt =====
-- Fields of some bits each, written by `bits.Writer` into a buffer, flushed, and read by `bits.Reader`.
use native.Mathlib.Nat.{pow-le-pow_right, mul-le-mul}
use mathlib.Core.Path.{subst}
use mp4ff.Base.{
  ℕ, suc, ◌+◌, ◌-◌, ◌*◌, ◌%◌, ◌^◌, ◌≤◌, ◌<◌, ◌≡◌, refl, sym, ap, ◌∙◌, arith, none, some, List, [],
  ◌∷◌, ◌++◌, map, append_assoc, append-nil, Bytes, All, flat, IsByte, Bool-cases, inl, inr, ◌==◌,
  if◌then◌else◌,
}
use mp4ff.Base.Binary.{bits_of, bits_of-append, bits_of-mod, pow_pos}
use mp4ff.Base.Action.{ok, Action, ◌>>=◌, pure}
use mp4ff.Bits.BitReader.{BitReader, ByteSource, byte_source, new_bit_reader, read}
use mp4ff.Bits.BitReader.Holds.{Holds, Delivers}
use mp4ff.Bits.BitReader.Takes.{Takes, Takes-pure, Takes-bind, Takes-last, Takes-read}
use mp4ff.Bits.BitWriter.{BitWriter, new_bit_writer, write, flush}
use mp4ff.Bits.BitWriter.Wrote.{Wrote, puts, write_lem, All-snoc, flat_snoc}
use mp4ff.Bits.Emulation.{buffer}

-- A value and its width.
abbrev pub Field : Type 0
Field = ℕ × ℕ

abbrev pub IsField : Field → Type 0
IsField f = (f.0 < 2 ^ f.1) × (f.1 ≤ 56)

abbrev pub field_bits : Field → List ℕ
field_bits f = bits_of f.1 f.0

abbrev pub write_fields : List Field → BitWriter Bytes → BitWriter Bytes
write_fields [] w = w
write_fields (f ∷ fs) w = write_fields fs (write buffer f.0 f.1 w)

abbrev pub read_fields : List Field → Action (BitReader ByteSource) (List ℕ)
read_fields [] = pure []
read_fields (f ∷ fs) = read byte_source f.1 >>= λ v. read_fields fs >>= λ vs. pure (v ∷ vs)

abbrev pub Written : BitWriter Bytes → List ℕ → Type 0
Written w bits = Wrote buffer [] w bits × (w.n < 8) × (w.v < 2 ^ 8)

pub write_fields_lem :
    (fs : List Field) (w : BitWriter Bytes) (bits : List ℕ)
    → All IsField fs
    → Written w bits
    → Written (write_fields fs w) (bits ++ flat field_bits fs)
write_fields_lem [] w bits h s = rw append-nil s
write_fields_lem (f ∷ fs) w bits h s =
    let (wrote, few, small) = s in
    rw (append_assoc bits (field_bits f) (flat field_bits fs)) at (
      write_fields_lem fs (write buffer f.0 f.1 w) (bits ++ field_bits f) h.1
        (write_lem buffer (λ b k. refl) [] f.0 f.1 w bits few small h.0.1 wrote))

Takes-fields :
    (fs : List Field)
    → All IsField fs
    → Takes byte_source (read_fields fs) (flat field_bits fs) (map (λ (f : Field). f.0) fs)
Takes-fields [] h = Takes-pure byte_source []
Takes-fields (f ∷ fs) h =
    Takes-bind byte_source _ (Takes-read byte_source f.1 f.0 h.0.0 (omega (arith, h.0.1)))
      (Takes-last byte_source (λ vs. f.0 ∷ vs) (Takes-fields fs h.1))

pub puts-buffer : (k bs : Bytes) → puts buffer k bs ≡ k ++ bs
puts-buffer k [] = rw append-nil
puts-buffer k (b ∷ bs) = puts-buffer (k ++ (b ∷ [])) bs ∙ append_assoc k (b ∷ []) bs

pub Delivers-bytes :
    (k : ℕ) (bs : Bytes)
    → All IsByte bs
    → Delivers byte_source (record { bytes = bs; nr_read = k }) bs
Delivers-bytes k [] a = refl
Delivers-bytes k (b ∷ bs) a = (refl, a.0, omega arith, Delivers-bytes (suc k) bs a.1)

-- The last byte that `Flush` writes, if bits are left.
last_byte :
    (n v : ℕ)
    → n ≤ 8
    → v < 2 ^ 8
    → bits_of 8 (v * 2 ^ (8 - n) % 2 ^ 64 % 2 ^ 8) ≡ bits_of n v ++ bits_of (8 - n) 0
last_byte n v h small =
    let wide : 2 ^ (8 - n) ≤ 2 ^ 8 = pow-le-pow_right (omega arith) {j = 8} (omega arith) in
    let le : v ≤ 2 ^ 8 = omega arith in
    let fits : v * 2 ^ (8 - n) % 2 ^ 64 ≡ v * 2 ^ (8 - n) + 0 = omega (arith, mul-le-mul le wide) in
    let e : n + (8 - n) ≡ 8 = omega arith in
    rw (bits_of-mod 8 (v * 2 ^ (8 - n) % 2 ^ 64), fits)
      (rw e at (bits_of-append n (8 - n) v 0 (pow_pos (8 - n))))

flush_lem :
    (w : BitWriter Bytes) (bits : List ℕ)
    → Written w bits
    → (m : ℕ) × (All IsByte (flush buffer w).sink
        × (flat (bits_of 8) (flush buffer w).sink ≡ bits ++ bits_of m 0))
unfolding flush bits_of
flush_lem w bits s =
    let (wrote, few, small) = s in
    let b : ℕ = w.v * 2 ^ (8 - w.n) % 2 ^ 64 % 2 ^ 8 in
    let flushed : BitWriter Bytes =
      if w.n == 0 then w else record w { sink = w.sink ++ (b ∷ []); err = none } in
    let e : flush buffer w ≡ flushed = λ i. elim (wrote.good i) [ some x ↦ w | none ↦ flushed ] in
    let sent : w.sink ≡ wrote.bytes = wrote.sent ∙ puts-buffer [] wrote.bytes in
    let ones = flat (bits_of 8) wrote.bytes in
    let joined : flat (bits_of 8) (wrote.bytes ++ (b ∷ [])) ≡ bits ++ bits_of (8 - w.n) 0 =
      sym (append-nil _)
      ∙ flat_snoc buffer wrote.bytes b []
      ∙ ap (λ bs. ones ++ bs) (append-nil (bits_of 8 b) ∙ last_byte w.n w.v (omega arith) small)
      ∙ sym (append_assoc ones (bits_of w.n w.v) (bits_of (8 - w.n) 0))
      ∙ ap (λ bs. bs ++ bits_of (8 - w.n) 0) wrote.are in
    rw e (elim (Bool-cases (w.n == 0)) [
      | inl whole ↦
          let none_left : w.n ≡ 0 = ground arith in
          (
            0,
            rw whole (
              subst (All IsByte) (sym sent) wrote.are_bytes,
              ap (flat (bits_of 8)) sent
                  ∙ sym (append-nil ones)
                  ∙ ap (λ n. ones ++ bits_of n w.v) (sym none_left)
                  ∙ wrote.are
                  ∙ sym (append-nil bits),
            ),
          )
      | inr part ↦ (
        8 - w.n,
        rw part (
          subst (λ k. All IsByte (k ++ (b ∷ []))) (sym sent)
              (All-snoc buffer wrote.bytes b wrote.are_bytes (omega arith)),
          ap (λ k. flat (bits_of 8) (k ++ (b ∷ []))) sent ∙ joined,
        ),
      )
    ])

-- The bytes that are written for some fields.
abbrev pub packed : List Field → Bytes
packed fs = (flush buffer (write_fields fs (new_bit_writer []))).sink

-- Fields of at most 56 bits each, written one after the other and flushed, are read back as they were
-- by reads of the same widths.
pub field_round_trip :
    (fs : List Field)
    → All IsField fs
    → (t : BitReader ByteSource) × (read_fields fs
          (new_bit_reader (record { bytes = packed fs; nr_read = 0 }))
        ≡ ok (map (λ (f : Field). f.0) fs, t))
unfolding new_bit_writer new_bit_reader bits_of
field_round_trip fs h =
    let new : Written (new_bit_writer []) [] = (
      record { good = refl; bytes = []; are_bytes = tt; sent = refl; are = refl },
      omega arith,
      omega arith,
    ) in
    let written = write_fields_lem fs (new_bit_writer []) [] h new in
    let (m, (are_bytes, bits)) = flush_lem (write_fields fs (new_bit_writer [])) _ written in
    let holds : Holds byte_source (new_bit_reader (record { bytes = packed fs; nr_read = 0 }))
        (flat field_bits fs ++ bits_of m 0) =
      record {
        good = refl;
        small = omega arith;
        bytes = packed fs;
        delivers = Delivers-bytes 0 (packed fs) are_bytes;
        are = bits;
      } in
    let (t, e, s) = (Takes-fields fs h).run _ (bits_of m 0) holds in (t, e)
