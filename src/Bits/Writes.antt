-- ===== src/Bits/Writes.antt =====
-- What an action writes into a writer that has room for it.
use mp4ff.Base.{
  ℕ, ◌+◌, ◌≡◌, refl, sym, ap, ◌∙◌, arith, Bool, true, false, List, [], ◌∷◌, ◌++◌, append-nil,
  append_assoc, none, Bytes, length, take, drop, replicate, All, flat, ltb-false, if◌then◌else◌,
  length-append, length-take, length-drop, length-replicate, take-append-drop, take-length_append,
  drop-length_append, length_eq_zero,
}
use native.Mathlib.Nat.{zero-add, suc-add}
use mp4ff.Base.Int.{ℤ, uint16, uint32, uint64}
use mp4ff.Base.Words.{be_bytes}
use mp4ff.Base.Action.{Error, fail_if, ◌>>=◌, bind_ok, ok, Action, ◌>>◌, pure, when, for_each}
use mp4ff.Bits.Writer.{
  Writer, new_writer, written, write_bytes, write_uint8, write_uint16, write_uint32, write_uint64,
  write_int16, write_int32, write_int64, write_string, writer_error, encode_with,
}

-- A writer that has written `done` and has `room` left, with no error and no bits pending.
unfoldable pub writer_at : Bytes → Bytes → Writer
writer_at done room = record {
  acc_error = none;
  buf = done ++ room;
  off = length done;
  n = 0;
  v = 0;
}

-- Wherever there is room for `bs`, `m` writes `bs` and nothing else.
pub record Writes (m : Action Writer (Unit {0})) (bs : Bytes) : Type 0 where
  pub run :
      (done gap room : Bytes)
      → length gap ≡ length bs
      → m (writer_at done (gap ++ room)) ≡ ok (tt, writer_at (done ++ bs) room)

no_gap : (gap room : Bytes) → length gap ≡ 0 → gap ++ room ≡ room
no_gap gap room h = rw (length_eq_zero gap h)

pub Writes-pure : Writes (pure tt) []
Writes-pure = record { run = λ done gap room h. rw (no_gap gap room h, append-nil) }

pub Writes-error : Writes writer_error []
unfolding writer_error writer_at
Writes-error = record { run = λ done gap room h. rw (no_gap gap room h, append-nil) }

-- A test that passes writes nothing.
pub Writes-fail_if :
    (e : Error) (k : Action Writer (Unit {0})) {c : Bool} {bs : Bytes}
    → c ≡ false
    → Writes k bs
    → Writes (fail_if c e >> k) bs
unfolding ◌>>=◌
Writes-fail_if e k h w = record { run = λ done gap room g. rw h (w.run done gap room g) }

split_gap :
    (gap bs cs : Bytes)
    → length gap ≡ length (bs ++ cs)
    → (length (take (length bs) gap) ≡ length bs) × (length (drop (length bs) gap) ≡ length cs)
split_gap gap bs cs h =
    omega (arith, length-append bs cs, length-take (length bs) gap, length-drop (length bs) gap)

pub Writes-seq :
    {m k : Action Writer (Unit {0})} {bs cs : Bytes}
    → Writes m bs
    → Writes k cs
    → Writes (m >> k) (bs ++ cs)
Writes-seq {m} {k} {bs} {cs} h h' = record {
  run = λ done gap room e.
      let (e₁, e₂) = split_gap gap bs cs e in
      let front = take (length bs) gap in
      let back = drop (length bs) gap in
      let e₃ : gap ++ room ≡ front ++ (back ++ room) =
        ap (λ g. g ++ room) (sym (take-append-drop (length bs) gap))
        ∙ append_assoc front back room in
      rw e₃ (
        bind_ok m _ _ (h.run done front (back ++ room) e₁)
        ∙ h'.run (done ++ bs) back room e₂
        ∙ rw append_assoc);
}

drop-add : (done gap room : Bytes) → drop (length done + length gap) (done ++ (gap ++ room)) ≡ room
drop-add [] gap room = rw zero-add (drop-length_append gap room)
drop-add (x ∷ done) gap room = rw suc-add (drop-add done gap room)

-- The last write, before the error is returned.
pub Writes-last :
    {m : Action Writer (Unit {0})} {bs : Bytes} → Writes m bs → Writes (m >> writer_error) bs
Writes-last w = rw append-nil at (Writes-seq w Writes-error)

-- The primitive write.
stored :
    (done gap bs room : Bytes)
    → length gap ≡ length bs
    → take (length done) (done ++ (gap ++ room))
        ++ (bs ++ drop (length done + length bs) (done ++ (gap ++ room)))
      ≡ done ++ bs ++ room
stored done gap bs room h =
    rw (take-length_append, ← h) (rw (drop-add done gap room) (sym (append_assoc done bs room)))

pub Writes-bytes : (bs : Bytes) → Writes (write_bytes bs) bs
unfolding write_bytes writer_at
Writes-bytes bs = record {
  run = λ done gap room h.
      rw
        (ltb-false (length (done ++ (gap ++ room))) (length done + length bs)
          (omega (arith, length-append done (gap ++ room), length-append gap room)))
        (rw (stored done gap bs room h) (rw (length-append done bs)));
}

module _ (v : ℕ) where
  pub Writes-uint8 : Writes (write_uint8 v) (be_bytes 1 v)
  unfolding write_uint8
  Writes-uint8 = Writes-bytes _

  pub Writes-uint16 : Writes (write_uint16 v) (be_bytes 2 v)
  unfolding write_uint16
  Writes-uint16 = Writes-bytes _

  pub Writes-uint32 : Writes (write_uint32 v) (be_bytes 4 v)
  unfolding write_uint32
  Writes-uint32 = Writes-bytes _

  pub Writes-uint64 : Writes (write_uint64 v) (be_bytes 8 v)
  unfolding write_uint64
  Writes-uint64 = Writes-bytes _

pub Writes-int16 : (z : ℤ) → Writes (write_int16 z) (be_bytes 2 (uint16 z))
unfolding write_int16
Writes-int16 z = Writes-bytes _

pub Writes-int32 : (z : ℤ) → Writes (write_int32 z) (be_bytes 4 (uint32 z))
unfolding write_int32
Writes-int32 z = Writes-bytes _

pub Writes-int64 : (z : ℤ) → Writes (write_int64 z) (be_bytes 8 (uint64 z))
unfolding write_int64
Writes-int64 z = Writes-bytes _

pub Writes-string : (s : Bytes) → Writes (write_string s false) s
unfolding write_string
Writes-string s = Writes-bytes s

-- A field that is written only under a flag.
pub Writes-when :
    (c : Bool) {m : Action Writer (Unit {0})} {bs : Bytes}
    → Writes m bs
    → Writes (when c tt m) (if c then bs else [])
Writes-when true h = h
Writes-when false h = Writes-pure

-- The same where the field is known to be good only under its flag.
pub Writes-when_given :
    (c : Bool) {m : Action Writer (Unit {0})} {bs : Bytes}
    → (c ≡ true → Writes m bs)
    → Writes (when c tt m) (if c then bs else [])
Writes-when_given true h = h refl
Writes-when_given false h = Writes-pure

-- Two forms of a field, by a test.
pub Writes-if :
    (c : Bool) {m k : Action Writer (Unit {0})} {bs cs : Bytes}
    → (c ≡ true → Writes m bs)
    → (c ≡ false → Writes k cs)
    → Writes (if c then m else k) (if c then bs else cs)
Writes-if true h h' = h refl
Writes-if false h h' = h' refl

-- A loop that writes `g x` for each element.
pub Writes-for_each {ℓ} :
    {A : Type ℓ} (f : A → Action Writer (Unit {0})) (g : A → Bytes) (xs : List A)
    → All (λ x. Writes (f x) (g x)) xs
    → Writes (for_each f xs) (flat g xs)
unfolding for_each
Writes-for_each f g [] h = Writes-pure
Writes-for_each f g (x ∷ xs) h = Writes-seq h.0 (Writes-for_each f g xs h.1)

writer_at-new : (size : ℕ) → new_writer size ≡ writer_at [] (replicate size 0 ++ [])
unfolding new_writer writer_at
writer_at-new size = rw append-nil

written-writer_at : (bs : Bytes) → written (writer_at bs []) ≡ bs
unfolding written writer_at
written-writer_at bs = take-length_append bs []

-- A writer of exactly the size is filled, and the bytes are what `Encode` hands on.
pub encode_with-Writes :
    (size : ℕ) {m : Action Writer (Unit {0})} {bs : Bytes}
    → Writes m bs
    → length bs ≡ size
    → encode_with size m ≡ ok bs
unfolding encode_with
encode_with-Writes size {m} {bs} h e =
    let filled : m (new_writer size) ≡ ok (tt, writer_at bs []) =
      rw (writer_at-new size) (h.run [] (replicate size 0) [] (length-replicate size 0 ∙ sym e)) in
    rw (filled, encode_with) (rw written-writer_at)
