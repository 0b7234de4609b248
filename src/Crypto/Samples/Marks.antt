-- ===== src/Crypto/Samples/Marks.antt =====
-- Which bytes of a sample of NAL units mp4/crypto.go protects.
use mp4ff.Base.{
  ℕ, ◌+◌, ◌-◌, ◌%◌, ◌^◌, ◌<◌, ◌≤◌, ◌≡◌, ap, sym, ◌∙◌, arith, Bool, true, false, [], ◌∷◌, ◌++◌, List,
  length, ltb, ◌==◌, replicate, All, Bool-cases, inl, inr, append_assoc, append-nil, length-append,
  length-replicate,
}
use mp4ff.Base.Words.{IsUint16}
use mp4ff.Crypto.{SubSamplePattern, append_protect_range}
use mp4ff.Crypto.Ranges.{
  marks, append_protect_range-marks, append_protect_range-bounds, replicate-add,
}
use mp4ff.Crypto.Samples.{Ranges, add_range, add_clear_rest}

-- The patterns of the ranges, and the clear bytes behind them, say of the first `pos` bytes what `ms`
-- says.
pub record IsAt (pos : ℕ) (ms : List Bool) (r : Ranges) : Type 0 where
  pub starts : r.clear_start ≤ r.clear_end
  pub ends : r.clear_end ≡ pos
  pub same : marks r.ssps ++ replicate (pos - r.clear_start) false ≡ ms
  pub small : All (λ ss. IsUint16 ss.bytes_of_clear_data) r.ssps
  pub whole : length ms ≡ pos

-- `k` more clear bytes and `p` protected ones.
more_clear :
    (k a b : ℕ) (xs ms : List Bool)
    → xs ++ replicate a false ≡ ms
    → a + k ≡ b
    → xs ++ replicate b false ≡ ms ++ replicate k false
more_clear k a b xs ms h e =
    ap (λ n. xs ++ replicate n false) (sym e)
    ∙ ap (◌++◌ xs) (replicate-add a k false)
    ∙ sym (append_assoc xs (replicate a false) (replicate k false))
    ∙ ap (λ ys. ys ++ replicate k false) h

pub add_range-IsAt :
    (pos k p : ℕ) (ms : List Bool) (r : Ranges)
    → IsAt pos ms r
    → pos + k + p < 2 ^ 32
    → IsAt (pos + k + p) (ms ++ (replicate k false ++ replicate p true)) (add_range r (pos + k) p)
unfolding add_range
add_range-IsAt pos k p ms r h b = elim (Bool-cases (ltb 0 p)) [
  | inl some_protected ↦ rw some_protected (record {
    starts = omega arith;
    ends = omega arith;
    same =
        let gap : (pos + k + 2 ^ 32 - r.clear_start) % 2 ^ 32 ≡ pos + k - r.clear_start =
          omega (arith, h.starts, h.ends) in
        let none : pos + k + p - (pos + k + p) % 2 ^ 32 ≡ 0 = omega arith in
        rw (gap, none, append-nil)
          (append_protect_range-marks r.ssps (pos + k - r.clear_start) p
            ∙ sym (append_assoc (marks r.ssps) _ (replicate p true))
            ∙ ap (λ xs. xs ++ replicate p true) (clear h.starts h.ends)
            ∙ append_assoc ms (replicate k false) (replicate p true));
    small = (append_protect_range-bounds r.ssps _ p h.small).0;
    whole = size;
  })
  | inr none_protected ↦ rw none_protected (record {
    starts = omega (arith, h.starts, h.ends);
    ends = ground (arith, none_protected);
    same =
        let none : p ≡ 0 = ground (arith, none_protected) in
        let gap : pos + k + 0 ≡ pos + k = omega arith in
        rw (none, gap, append-nil) (clear h.starts h.ends);
    small = h.small;
    whole = size;
  })
]
  where
    size : length (ms ++ (replicate k false ++ replicate p true)) ≡ pos + k + p
    size = omega (
      arith,
      length-append ms (replicate k false ++ replicate p true),
      length-append (replicate k false) (replicate p true),
      length-replicate k false,
      length-replicate p true,
      h.whole,
    )

    clear :
        r.clear_start ≤ r.clear_end
        → r.clear_end ≡ pos
        → marks r.ssps ++ replicate (pos + k - r.clear_start) false ≡ ms ++ replicate k false
    clear s e =
        more_clear k (pos - r.clear_start) (pos + k - r.clear_start) (marks r.ssps) ms h.same
          (omega arith)

-- Patterns of some bytes are some patterns.
some_patterns :
    (ssps : List SubSamplePattern) (ms : List Bool)
    → marks ssps ≡ ms
    → 0 < length ms
    → (length ssps == 0) ≡ false
unfolding marks
some_patterns [] ms e h = absurd (omega (arith, ap length e))
some_patterns (s ∷ ss) ms e h = ground arith

pub add_clear_rest-IsAt :
    (ms : List Bool) (r : Ranges) (pos : ℕ)
    → IsAt pos ms r
    → 0 < pos
    → (marks (add_clear_rest pos r) ≡ ms)
      × All (λ ss. IsUint16 ss.bytes_of_clear_data) (add_clear_rest pos r)
unfolding add_clear_rest
add_clear_rest-IsAt ms r pos h p = elim (Bool-cases (ltb r.clear_start r.clear_end)) [
  | inl more ↦
      let ssps = append_protect_range r.ssps (r.clear_end - r.clear_start) 0 in
      let gap : r.clear_end - r.clear_start ≡ pos - r.clear_start = omega (arith, h.ends) in
      let e : marks ssps ≡ ms =
        append_protect_range-marks r.ssps (r.clear_end - r.clear_start) 0
        ∙ rw (append-nil, gap) h.same in
      let some = some_patterns ssps ms e (omega (arith, h.whole)) in
      rw (more, some)
        (e, (append_protect_range-bounds r.ssps (r.clear_end - r.clear_start) 0 h.small).0)
  | inr all ↦
      let none : pos - r.clear_start ≡ 0 = ground (arith, all, h.starts, h.ends) in
      let e : marks r.ssps ≡ ms = rw (none, append-nil) at h.same in
      let some = some_patterns r.ssps ms e (omega (arith, h.whole)) in rw (all, some) (e, h.small)
]
