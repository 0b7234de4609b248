-- ===== src/Aac/Frequency.antt =====
-- aac/aac.go and aac/adts.go: the tables of sampling frequencies, new ADTS headers, and what a header
-- says of its frequency.
use mp4ff.Base.{
  ℕ, ◌+◌, ◌%◌, ◌^◌, ◌<◌, ◌≡◌, refl, ap, arith, not, Option, none, some, List, [], ◌∷◌, ◌==◌, ==_iff,
  if◌then◌else◌, All, Bool-cases, inl, inr,
}
use mathlib.Core.Option.{some-injective}
use mp4ff.Base.Action.{Result, ok, err, bad_object_type, bad_frequency}
use mp4ff.Aac.Adts.{AdtsHeader}
use mp4ff.Aac.Adts.Decode.{IsValid}

-- An index of a map literal; a missing key gives `none`.
unfoldable pub lookup : ℕ → List (ℕ × ℕ) → Option ℕ
lookup key [] = none
lookup key (entry ∷ entries) =
    let rest = lookup key entries in if entry.0 == key then some entry.1 else rest

abbrev pub frequency_table : List (ℕ × ℕ)
frequency_table =
    (0, 96000)
    ∷ (1, 88200)
    ∷ (2, 64000)
    ∷ (3, 48000)
    ∷ (4, 44100)
    ∷ (5, 32000)
    ∷ (6, 24000)
    ∷ (7, 22050)
    ∷ (8, 16000)
    ∷ (9, 12000)
    ∷ (10, 11025)
    ∷ (11, 8000)
    ∷ (12, 7350)
    ∷ []

abbrev pub reverse_frequencies : List (ℕ × ℕ)
reverse_frequencies =
    (96000, 0)
    ∷ (88200, 1)
    ∷ (64000, 2)
    ∷ (48000, 3)
    ∷ (44100, 4)
    ∷ (32000, 5)
    ∷ (24000, 6)
    ∷ (22050, 7)
    ∷ (16000, 8)
    ∷ (12000, 9)
    ∷ (11025, 10)
    ∷ (8000, 11)
    ∷ (7350, 12)
    ∷ []

abbrev pub value_or_zero : Option ℕ → ℕ
value_or_zero none = 0
value_or_zero (some v) = v

unfoldable pub new_adts_header : ℕ → ℕ → ℕ → ℕ → Result AdtsHeader
new_adts_header sampling_frequency channel_config object_type pl_len =
    if not (object_type == 2)
    then err bad_object_type
    else elim (lookup sampling_frequency reverse_frequencies) [
      | none ↦ err bad_frequency
      | some sfi ↦ ok (record {
        id = 0;
        object_type = object_type;
        sampling_frequency_index = sfi;
        channel_config = channel_config;
        header_length = 7;
        payload_length = pl_len;
        buffer_fullness = 0x7ff;
      })
    ]

-- A missing index gives 0, and the frequency is cut to 16 bits.
unfoldable pub frequency : AdtsHeader → ℕ
frequency a = value_or_zero (lookup a.sampling_frequency_index frequency_table) % 2 ^ 16

-- What holds of every entry holds of the one that is found.
lookup-All {ℓ} :
    (P : ℕ → ℕ → Type ℓ) (key value : ℕ) (entries : List (ℕ × ℕ))
    → All (λ e. P e.0 e.1) entries
    → lookup key entries ≡ some value
    → P key value
unfolding lookup
lookup-All P key value [] h e = cc
lookup-All P key value (x ∷ xs) h e = elim (Bool-cases (x.0 == key)) [
  | inl same ↦
      let key_same : x.0 ≡ key = (==_iff x.0 key).0 same in
      let value_same : x.1 ≡ value = some-injective x.1 value (rw same at e) in
      rw (key_same, value_same) at h.0
  | inr other ↦ lookup-All P key value xs h.1 (rw other at e)
]

-- The two tables agree, and an index fits 4 bits.
abbrev Agrees : ℕ → ℕ → Type 0
Agrees sampling_frequency sfi =
    (value_or_zero (lookup sfi frequency_table) ≡ sampling_frequency) × (sfi < 16)

tables_agree : All (λ e. Agrees e.0 e.1) reverse_frequencies
unfolding lookup
tables_agree = (
  (refl, omega arith),
  (
    (refl, omega arith),
    (
      (refl, omega arith),
      (
        (refl, omega arith),
        (
          (refl, omega arith),
          (
            (refl, omega arith),
            (
              (refl, omega arith),
              (
                (refl, omega arith),
                (
                  (refl, omega arith),
                  (
                    (refl, omega arith),
                    ((refl, omega arith), ((refl, omega arith), ((refl, omega arith), tt))),
                  ),
                ),
              ),
            ),
          ),
        ),
      ),
    ),
  ),
)

-- For every sampling frequency of the table, a new header of AAC-LC is valid, so that it is encoded and
-- found again, and its frequency is that number cut to 16 bits: 96000 and 88200 do not come back. The
-- channel configuration fits 3 bits, and the length of the payload with the header 13 bits.
pub new_adts_header_lem :
    (sampling_frequency channel_config pl_len sfi : ℕ)
    → lookup sampling_frequency reverse_frequencies ≡ some sfi
    → channel_config < 8
    → pl_len + 7 < 2 ^ 13
    → (a : AdtsHeader) × (new_adts_header sampling_frequency channel_config 2 pl_len ≡ ok a)
      × IsValid a
      × (frequency a ≡ sampling_frequency % 2 ^ 16)
unfolding new_adts_header frequency
new_adts_header_lem sampling_frequency channel_config pl_len sfi found c p =
    let (agree, small) =
      lookup-All Agrees sampling_frequency sfi reverse_frequencies tables_agree found in
    (
      record {
        id = 0;
        object_type = 2;
        sampling_frequency_index = sfi;
        channel_config = channel_config;
        header_length = 7;
        payload_length = pl_len;
        buffer_fullness = 0x7ff;
      },
      rw found,
      record {
        mpeg4 = refl;
        short = refl;
        fits = record {
          typed = omega arith;
          type_fits = omega arith;
          frequency = small;
          channels = c;
          payload = p;
          fullness = omega arith;
        };
      },
      ap (λ f. f % 2 ^ 16) agree,
    )
