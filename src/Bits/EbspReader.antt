-- ===== src/Bits/EbspReader.antt =====
-- bits/ebspreader.go: bits read from bytes with emulation prevention. `Read`, `ReadFlag` and the two
-- Golomb readers are those of Bits/BitReader with the source below.
pub mod Trailing
use mp4ff.Base.{
  ℕ, zero, suc, ◌+◌, ◌-◌, ◌*◌, Bool, true, false, not, ◌&&◌, Option, none, some, [], ◌∷◌, Bytes,
  length, ltb, ◌==◌, if◌then◌else◌,
}
use mp4ff.Base.Action.{
  Error, eof, trailing_start, trailing_one, ok, err, Result, Action, ◌>>=◌, pure, repeat,
}
use mp4ff.Bits.BitReader.{Source, BitReader, new_bit_reader, read_bits, read, bits_left}

-- `rd`, `pos` and `zeroCount`.
pub record EbspSource : Type 0 where
  pub bytes : Bytes
  pub nr_read : ℕ
  pub zero_count : ℕ

abbrev pub count_zero : ℕ → ℕ → ℕ
count_zero zeros b = if b == 0 then suc zeros else 0

-- The byte behind an emulation prevention byte.
abbrev pub next_behind : Bytes → ℕ → Option ℕ × EbspSource
next_behind [] k = (none, record { bytes = []; nr_read = k; zero_count = 2 })
next_behind (b ∷ bs) k =
    (some b, record { bytes = bs; nr_read = suc k; zero_count = count_zero 0 b })

-- The body of the loop of `Read`, which drops a 3 behind two zeros.
abbrev pub next_ebsp : Bytes → ℕ → ℕ → Option ℕ × EbspSource
next_ebsp [] k zeros = (none, record { bytes = []; nr_read = k; zero_count = zeros })
next_ebsp (b ∷ bs) k zeros =
    if zeros == 2 && b == 3
    then next_behind bs (suc k)
    else (some b, record { bytes = bs; nr_read = suc k; zero_count = count_zero zeros b })

abbrev pub ebsp_source : Source EbspSource
ebsp_source = record {
  next = λ s. next_ebsp s.bytes s.nr_read s.zero_count;
  left = λ s. length s.bytes;
}

abbrev pub EbspReader : Type 0
EbspReader = BitReader EbspSource

abbrev pub new_ebsp_reader : Bytes → EbspReader
new_ebsp_reader bs = new_bit_reader (record { bytes = bs; nr_read = 0; zero_count = 0 })

-- `none` is the `nil` slice after an error. The reads go on after an error, and give 0.
unfoldable pub read_ebsp_bytes : ℕ → Action EbspReader (Option Bytes)
read_ebsp_bytes n r = elim r.err [
  | some e ↦ ok (none, r)
  | none ↦
      (do
        payload ← repeat n (read ebsp_source 8)
        λ t. ok (elim t.err [ some e ↦ none | none ↦ some payload ], t))
        r
]

unfoldable pub set_error : Error → EbspReader → EbspReader
set_error e r = elim r.err [ none ↦ record r { err = some e } | some old ↦ r ]

-- The bits up to the end of the bytes: whether one of them is a 1, and the reader behind them.
unfoldable pub find_one : ℕ → EbspReader → Bool × EbspReader
find_one zero r = (false, r)
find_one (suc fuel) r =
    let b = (read_bits ebsp_source 1 r).0 in
    let t = (read_bits ebsp_source 1 r).1 in
    let rest = find_one fuel t in
    elim t.err [ some e ↦ (false, t) | none ↦ if b == 1 then (true, t) else rest ]

-- `reset` puts all of the reader back but the error. The only error of the source is its end, which
-- the loop resets.
abbrev pub rbsp_answer : EbspReader → ℕ → Bool → Bool × EbspReader
rbsp_answer r first_bit more =
    if not (first_bit == 1)
    then (true, record r { err = none })
    else (more, record r { err = none })

unfoldable pub more_rbsp_data : Action EbspReader Bool
more_rbsp_data r =
    let first_bit = (read_bits ebsp_source 1 r).0 in
    let t = (read_bits ebsp_source 1 r).1 in
    let more = (find_one (suc (bits_left ebsp_source t)) t).0 in
    ok (elim t.err [ some e ↦ (false, t) | none ↦ rbsp_answer r first_bit more ])

abbrev pub trailing_answer : ℕ → EbspReader → Bool × EbspReader → Option Error × EbspReader
trailing_answer first_bit t found =
    if not (first_bit == 1)
    then (some trailing_start, t)
    else if found.0
    then (some trailing_one, found.1)
    else (none, record found.1 { err = none })

unfoldable pub read_rbsp_trailing_bits : EbspReader → Option Error × EbspReader
read_rbsp_trailing_bits r =
    let first_bit = (read_bits ebsp_source 1 r).0 in
    let t = (read_bits ebsp_source 1 r).1 in
    let found = find_one (suc (bits_left ebsp_source t)) t in
    elim r.err [
      | some e ↦ (none, r)
      | none ↦ elim t.err [ some e ↦ (none, t) | none ↦ trailing_answer first_bit t found ]
    ]
