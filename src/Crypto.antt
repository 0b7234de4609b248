-- ===== src/Crypto.antt =====
-- mp4/crypto.go: common encryption of samples, whose subsamples are runs of clear and of protected bytes.
pub mod Ranges
pub mod Protect
pub mod Cenc
pub mod Cbcs
pub mod Iv
pub mod Samples
use mp4ff.Base.{
  ℕ, zero, suc, ◌+◌, ◌-◌, ◌%◌, ◌^◌, ltb, Bool, true, false, [], ◌∷◌, ◌++◌, List, leb, if◌then◌else◌,
  replicate, Bytes, length, take, drop, ◌&&◌,
}
use mp4ff.Base.Action.{Result, ok, err, panic}

-- mp4/senc.go
pub record SubSamplePattern : Type 0 where
  pub bytes_of_clear_data : ℕ
  pub bytes_of_protected_data : ℕ

abbrev pub subsample : ℕ → ℕ → SubSamplePattern
subsample clear protected = record {
  bytes_of_clear_data = clear;
  bytes_of_protected_data = protected;
}

-- `for nrClear >= 65536`, with the patterns that it appends and the clear bytes that are left.
unfoldable pub split_clear : ℕ → ℕ → List SubSamplePattern × ℕ
split_clear zero nr_clear = ([], nr_clear)
split_clear (suc fuel) nr_clear =
    let rest = split_clear fuel (nr_clear - 65535) in
    if leb 65536 nr_clear then (subsample 65535 0 ∷ rest.0, rest.1) else ([], nr_clear)

-- The loop takes 65535 bytes in each round, so it has fewer rounds than there are clear bytes.
unfoldable pub append_protect_range : List SubSamplePattern → ℕ → ℕ → List SubSamplePattern
append_protect_range ssps nr_clear nr_protected =
    let (split, rest) = split_clear nr_clear nr_clear in
    ssps ++ split ++ (subsample (rest % 2 ^ 16) nr_protected ∷ [])

-- `f(data[lo:hi])` for an `f` that changes the bytes of its slice in place. The capacity of the data
-- is its length.
unfoldable pub in_place : (Bytes → Result Bytes) → ℕ → ℕ → Bytes → Result Bytes
in_place f lo hi s =
    if leb lo hi && leb hi (length s)
    then elim (f (take (hi - lo) (drop lo s))) [
      | ok new ↦ ok (take lo s ++ new ++ drop hi s)
      | err e ↦ err e
    ]
    else err panic

-- The loop over the patterns that `CryptSampleCenc` and `cryptSampleCbcs` both write out, where `crypt
-- used` is the change of a range with `used` protected bytes before it. Adding no clear bytes, which
-- the first of them guards against, leaves `pos` as it is.
unfoldable pub range_loop :
    (ℕ → Bytes → Result Bytes) → ℕ → ℕ → List SubSamplePattern → Bytes → Result Bytes
range_loop crypt used pos [] sample = ok sample
range_loop crypt used pos (ss ∷ sss) sample =
    let nr_enc = ss.bytes_of_protected_data in
    let start = (pos + ss.bytes_of_clear_data) % 2 ^ 32 in
    let stop = (start + nr_enc) % 2 ^ 32 in
    let all_clear = range_loop crypt used stop sss sample in
    if ltb 0 nr_enc
    then elim (in_place (crypt used) start stop sample) [
      | ok sample' ↦ range_loop crypt (used + nr_enc) stop sss sample'
      | err e ↦ err e
    ]
    else all_clear
