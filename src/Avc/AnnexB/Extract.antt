-- ===== src/Avc/AnnexB/Extract.antt =====
-- The NAL units of a byte stream of avc/annexb.go come out of it.
use mp4ff.Base.{
  ℕ, zero, suc, ◌+◌, ◌-◌, ◌<◌, ◌≤◌, ◌≡◌, refl, ap, sym, ◌∙◌, arith, Bool, true, false, ◌&&◌, some,
  [], ◌∷◌, ◌++◌, List, Bytes, length, take, drop, ◌==◌, length-append, append_assoc, append-nil,
  take-length_append, drop-length_append, All,
}
use mp4ff.Avc.AnnexB.{
  start_code, byte_at, is_start_code, trim, extract_slice, extract_loop,
  extract_nalus_from_byte_stream,
}
use mp4ff.Avc.AnnexB.Convert.{stream_of}

-- A byte behind others.
byte_behind : (front bs : Bytes) (k : ℕ) → byte_at (front ++ bs) (length front + k) ≡ byte_at bs k
byte_behind [] bs k = ap (byte_at bs) (omega arith)
byte_behind (x ∷ xs) bs k =
    let e : suc (length xs) + k ≡ suc (length xs + k) = omega arith in rw e (byte_behind xs bs k)

start_code_behind :
    (front bs : Bytes) → is_start_code (front ++ bs) (length front) ≡ is_start_code bs 0
start_code_behind front bs =
    let e0 = byte_behind front bs 0 in
    let z : length front + 0 ≡ length front = omega arith in
    rw (rw z at e0, byte_behind front bs 1, byte_behind front bs 2)

-- At no byte of `bs`, in front of `rest`, a start code begins.
unfoldable pub NoCode : Bytes → Bytes → Type 0
NoCode [] rest = Unit
NoCode (b ∷ bs) rest = (is_start_code ((b ∷ bs) ++ rest) 0 ≡ false) × NoCode bs rest

-- The loop passes over such bytes.
skip :
    (rounds : ℕ) (front bs rest : Bytes) (start : ℕ)
    → NoCode bs rest
    → extract_loop (length bs + rounds) (front ++ (bs ++ rest)) (length front) (some start)
      ≡ extract_loop rounds (front ++ (bs ++ rest)) (length front + length bs) (some start)
unfolding extract_loop NoCode
skip rounds front [] rest start h =
    let e : 0 + rounds ≡ rounds = omega arith in
    let z : length front + 0 ≡ length front = omega arith in rw (e, z)
skip rounds front (b ∷ bs) rest start h =
    let e : suc (length bs) + rounds ≡ suc (length bs + rounds) = omega arith in
    let none_here = start_code_behind front ((b ∷ bs) ++ rest) ∙ h.0 in
    let front' = front ++ (b ∷ []) in
    let size : length front' ≡ length front + 1 = omega (arith, length-append front (b ∷ [])) in
    let same : front' ++ (bs ++ rest) ≡ front ++ ((b ∷ bs) ++ rest) =
      append_assoc front (b ∷ []) (bs ++ rest) in
    let next : length front' + length bs ≡ length front + suc (length bs) = omega arith in
    rw (e, none_here) (rw (same, next, size) at (skip rounds front' bs rest start h.1))

-- At the end of the stream.
skip_last :
    (rounds : ℕ) (front bs : Bytes) (start : ℕ)
    → rounds ≤ length bs
    → NoCode bs []
    → extract_loop rounds (front ++ bs) (length front) (some start)
      ≡ extract_slice (front ++ bs) start (length (front ++ bs)) ∷ []
unfolding extract_loop NoCode
skip_last zero front bs start r h = refl
skip_last (suc rounds) front [] start r h = absurd (omega arith)
skip_last (suc rounds) front (b ∷ bs) start r h =
    let here = rw (append-nil (b ∷ bs)) at h.0 in
    let none_here = start_code_behind front (b ∷ bs) ∙ here in
    let front' = front ++ (b ∷ []) in
    let size : length front' ≡ length front + 1 = omega (arith, length-append front (b ∷ [])) in
    let same : front' ++ bs ≡ front ++ (b ∷ bs) = append_assoc front (b ∷ []) bs in
    rw none_here (rw (same, size) at (skip_last rounds front' bs start (omega arith) h.1))

-- Behind the two zeros and the one of a start code that was found.
NoCode-tail : (n rest : Bytes) → NoCode n rest → NoCode (0 ∷ 1 ∷ n) rest
unfolding NoCode
NoCode-tail n rest h = (refl, (refl, h))

no_one : (p q : Bool) → ((p && q) && false) ≡ false
no_one true true = refl
no_one true false = refl
no_one false q = refl

-- A start code behind the bytes makes none that begins earlier.
NoCode-front : (bs rest : Bytes) → NoCode bs [] → NoCode bs (start_code ++ rest)
unfolding NoCode
NoCode-front [] rest h = tt
NoCode-front (b ∷ []) rest h = (no_one (b == 0) true, tt)
NoCode-front (b ∷ b' ∷ []) rest h = (no_one (b == 0) (b' == 0), NoCode-front (b' ∷ []) rest h.1)
NoCode-front (b ∷ b' ∷ b'' ∷ bs) rest h = (h.0, NoCode-front (b' ∷ b'' ∷ bs) rest h.1)

abbrev pub last_byte : Bytes → ℕ
last_byte [] = 0
last_byte (b ∷ []) = b
last_byte (b ∷ b' ∷ bs) = last_byte (b' ∷ bs)

last_at : (bs rest : Bytes) (k : ℕ) → length bs ≡ suc k → byte_at (bs ++ rest) k ≡ last_byte bs
last_at [] rest k h = absurd (omega arith)
last_at (b ∷ []) rest zero h = refl
last_at (b ∷ []) rest (suc k) h = absurd (omega arith)
last_at (b ∷ b' ∷ bs) rest zero h = absurd (omega arith)
last_at (b ∷ b' ∷ bs) rest (suc k) h = last_at (b' ∷ bs) rest k (omega arith)

-- Of the zeros in front of the second zero of a start code, the first zero of it is trimmed alone.
trim_lem :
    (pre prev back : Bytes) (m i : ℕ)
    → length prev ≡ suc m
    → 0 < last_byte prev
    → trim (suc m) (pre ++ (prev ++ (0 ∷ back))) (length pre) i ≡ length pre + suc m
unfolding trim
trim_lem pre prev back m i h full =
    let stream = pre ++ (prev ++ (0 ∷ back)) in
    let here : byte_at (prev ++ (0 ∷ back)) (suc m) ≡ 0 =
      ap (byte_at (prev ++ (0 ∷ back))) (omega arith) ∙ byte_behind prev (0 ∷ back) 0 in
    let zero_here : byte_at stream (length pre + suc m) ≡ 0 =
      byte_behind pre (prev ++ (0 ∷ back)) (suc m) ∙ here in
    rw zero_here (stops m h)
  where
    stops :
        (m : ℕ)
        → length prev ≡ suc m
        → trim m (pre ++ (prev ++ (0 ∷ back))) (length pre) (length pre + suc m)
          ≡ length pre + suc m
    stops zero h = refl
    stops (suc m) h =
        let byte : byte_at (pre ++ (prev ++ (0 ∷ back))) (length pre + suc m) ≡ last_byte prev =
          byte_behind pre (prev ++ (0 ∷ back)) (suc m) ∙ last_at prev (0 ∷ back) (suc m) h in
        let filled : (last_byte prev == 0) ≡ false = ground arith in rw (byte, filled)

-- The first start code at or behind a position, with its two zeros in front of the second.
tests :
    (front back : Bytes)
    → (is_start_code (front ++ (start_code ++ back)) (length front) ≡ false)
      × (is_start_code (front ++ (start_code ++ back)) (length front + 1) ≡ true)
tests front back =
    let front' = front ++ (0 ∷ []) in
    let size : length front' ≡ length front + 1 = omega (arith, length-append front (0 ∷ [])) in
    let same : front' ++ (0 ∷ 0 ∷ 1 ∷ back) ≡ front ++ (start_code ++ back) =
      append_assoc front (0 ∷ []) (0 ∷ 0 ∷ 1 ∷ back) in
    (
      start_code_behind front (start_code ++ back),
      rw (size, same) at (start_code_behind front' (0 ∷ 0 ∷ 1 ∷ back)),
    )

found :
    (rounds : ℕ) (pre prev back : Bytes) (m i : ℕ)
    → length prev ≡ suc m
    → 0 < last_byte prev
    → i ≡ length pre + length prev
    → extract_loop (suc (suc rounds)) (pre ++ (prev ++ (start_code ++ back))) i (some (length pre))
      ≡ prev ∷ extract_loop rounds (pre ++ (prev ++ (start_code ++ back))) (i + 2) (some (i + 4))
unfolding extract_loop
found rounds pre prev back m i h full at =
    let stream = pre ++ (prev ++ (start_code ++ back)) in
    let front = pre ++ prev in
    let size : length front ≡ i = omega (arith, length-append pre prev) in
    let same : front ++ (start_code ++ back) ≡ stream =
      append_assoc pre prev (start_code ++ back) in
    let (t0, t1) = tests front back in
    let t0' : is_start_code stream i ≡ false = rw (same, size) at t0 in
    let t1' : is_start_code stream (i + 1) ≡ true = rw (same, size) at t1 in
    let steps : i + 1 - 1 - length pre ≡ suc m = omega arith in
    let trimmed = trim_lem pre prev (0 ∷ 0 ∷ 1 ∷ back) m (i + 1) h full in
    let width : length pre + suc m - length pre ≡ length prev = omega arith in
    let slice : take (length prev) (drop (length pre) stream) ≡ prev =
      ap (take (length prev)) (drop-length_append pre (prev ++ (start_code ++ back)))
      ∙ take-length_append prev (start_code ++ back) in
    let e2 : i + 1 + 1 ≡ i + 2 = omega arith in
    let e4 : i + 1 + 3 ≡ i + 4 = omega arith in rw (t0', t1', steps, trimmed, width, slice, e2, e4)

last_byte-length : (bs : Bytes) → 0 < last_byte bs → 0 < length bs
last_byte-length [] h = h
last_byte-length (b ∷ bs) h = omega arith

-- Behind a start code.
after_code :
    (rounds : ℕ) (done n : Bytes) (ns : List Bytes)
    → rounds + 1 ≡ length n + length (stream_of ns)
    → All (λ nalu. (0 < last_byte nalu) × NoCode nalu []) (n ∷ ns)
    → extract_loop rounds
        (done ++ (start_code ++ (n ++ stream_of ns)))
        (length done + 2)
        (some (length done + 4))
      ≡ n ∷ ns
after_code rounds done n [] r h =
    let front = done ++ (0 ∷ 0 ∷ []) in
    let pre = done ++ start_code in
    let f = length-append done (0 ∷ 0 ∷ []) in
    let f' = length-append done start_code in
    let same : front ++ (0 ∷ 1 ∷ n) ≡ pre ++ n =
      append_assoc done (0 ∷ 0 ∷ []) (0 ∷ 1 ∷ n) ∙ sym (append_assoc done start_code n) in
    let last =
      skip_last rounds front (0 ∷ 1 ∷ n) (length pre) (omega arith) (NoCode-tail n [] h.0.1) in
    let at : length front ≡ length done + 2 = omega arith in
    let start : length pre ≡ length done + 4 = omega arith in
    let width : length (pre ++ n) - length pre ≡ length n = omega (arith, length-append pre n) in
    let slice : extract_slice (pre ++ n) (length pre) (length (pre ++ n)) ≡ n =
      rw (width, drop-length_append pre n) (rw append-nil at (take-length_append n [])) in
    let whole : done ++ (start_code ++ (n ++ [])) ≡ pre ++ n =
      ap (λ x. done ++ (start_code ++ x)) (append-nil n) ∙ sym (append_assoc done start_code n) in
    rw (whole, ← at, ← start) (rw same at last ∙ ap (λ x. x ∷ []) slice)
after_code rounds done n (k ∷ ks) r h =
    let back = k ++ stream_of ks in
    let rounds' = length k + length (stream_of ks) - 1 in
    let front = done ++ (0 ∷ 0 ∷ []) in
    let pre = done ++ start_code in
    let f = length-append done (0 ∷ 0 ∷ []) in
    let f' = length-append done start_code in
    let some_n = last_byte-length n h.0.0 in
    let some_k = last_byte-length k h.1.0.0 in
    let same : front ++ ((0 ∷ 1 ∷ n) ++ (start_code ++ back))
        ≡ done ++ (start_code ++ (n ++ (start_code ++ back))) =
      append_assoc done (0 ∷ 0 ∷ []) ((0 ∷ 1 ∷ n) ++ (start_code ++ back)) in
    let same' : pre ++ (n ++ (start_code ++ back))
        ≡ done ++ (start_code ++ (n ++ (start_code ++ back))) =
      append_assoc done start_code (n ++ (start_code ++ back)) in
    let skipped =
      skip (suc (suc rounds')) front (0 ∷ 1 ∷ n) (start_code ++ back) (length pre)
        (NoCode-tail n (start_code ++ back) (NoCode-front n back h.0.1)) in
    let i = length pre + length n in
    let one = found rounds' pre n back (length n - 1) i (omega arith) h.0.0 refl in
    let rec = after_code rounds' (pre ++ n) k ks (omega arith) h.1 in
    let at : length front ≡ length done + 2 = omega arith in
    let start : length pre ≡ length done + 4 = omega arith in
    let all : rounds ≡ length (0 ∷ 1 ∷ n) + suc (suc rounds') =
      omega (arith, length-append k (stream_of ks)) in
    let there : length front + length (0 ∷ 1 ∷ n) ≡ i = omega arith in
    let here : length (pre ++ n) ≡ i = length-append pre n in
    let rec' = rw (here, append_assoc pre n (start_code ++ back), same') at rec in
    rw (all, ← at, ← start) (rw (same, there) at skipped ∙ rw same' at one ∙ ap (◌∷◌ n) rec')

-- From the byte stream of NAL units, each behind a start code of 4 bytes, these NAL units are
-- extracted, in order. There is at least one, none is empty, none contains a start code, and none ends
-- with a 0.
pub extract_nalus_from_byte_stream_lem :
    (n : Bytes) (ns : List Bytes)
    → All (λ nalu. (0 < last_byte nalu) × NoCode nalu []) (n ∷ ns)
    → extract_nalus_from_byte_stream (stream_of (n ∷ ns)) ≡ n ∷ ns
unfolding extract_nalus_from_byte_stream extract_loop
extract_nalus_from_byte_stream_lem n ns h =
    let size = length-append n (stream_of ns) in
    let some_n = last_byte-length n h.0.0 in
    let rounds = length n + length (stream_of ns) - 1 in
    let all : length (stream_of (n ∷ ns)) - 3 ≡ suc (suc rounds) = omega arith in
    rw all (after_code rounds [] n ns (omega arith) h)
