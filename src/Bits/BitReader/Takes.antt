-- ===== src/Bits/BitReader/Takes.antt =====
-- What an action takes from a bit reader, with the rules to compose such facts.
use mp4ff.Base.{
  ℕ, ◌^◌, ◌≤◌, ◌<◌, ◌≡◌, refl, arith, Bool, true, false, List, [], ◌∷◌, ◌++◌, append_assoc, ◌==◌,
  ◌∙◌, if◌then◌else◌,
}
use mp4ff.Base.Binary.{bits_of}
use mp4ff.Base.Action.{ok, Action, ◌>>=◌, pure, bind_ok}
use mp4ff.Bits.BitReader.{Source, BitReader, read_bits, read, read_flag}
use mp4ff.Bits.BitReader.Holds.{Holds, read_bits_lem}

module _ {ℓ} {S : Type ℓ} (src : Source S) where
  -- Before a reader of `bits` and anything behind them, the action takes exactly these and gives `a`.
  pub record Takes {κ} {A : Type κ} (m : Action (BitReader S) A) (bits : List ℕ) (a : A)
      : Type (ℓ ⊔ κ) where
    pub run :
        (r : BitReader S) (rest : List ℕ)
        → Holds src r (bits ++ rest)
        → (t : BitReader S) × (m r ≡ ok (a, t)) × Holds src t rest

  pub Takes-pure {κ} : {A : Type κ} (a : A) → Takes (pure a) [] a
  Takes-pure a = record { run = λ r rest h. (r, refl, h) }

  pub Takes-bind {κ μ} :
      {A : Type κ} {B : Type μ} {m : Action (BitReader S) A} (f : A → Action (BitReader S) B)
      {bits more : List ℕ} {a : A} {b : B}
      → Takes m bits a
      → Takes (f a) more b
      → Takes (m >>= f) (bits ++ more) b
  Takes-bind {m} f {bits} {more} h k = record {
    run = λ r rest s.
        let (t, e, s') = h.run r (more ++ rest) (rw (append_assoc bits more rest) at s) in
        let (u, e', s'') = k.run t rest s' in (u, bind_ok m f r e ∙ e', s'');
  }

  -- The last step, and then only computation.
  pub Takes-last {κ μ} :
      {A : Type κ} {B : Type μ} {m : Action (BitReader S) A} (g : A → B) {bits : List ℕ} {a : A}
      → Takes m bits a
      → Takes (m >>= λ x. pure (g x)) bits (g a)
  Takes-last {m} g h = record {
    run = λ r rest s. let (t, e, s') = h.run r rest s in (t, bind_ok m _ r e, s');
  }

  pub Takes-read : (n v : ℕ) → v < 2 ^ n → n ≤ 57 → Takes (read src n) (bits_of n v) v
  unfolding read
  Takes-read n v h k = record {
    run = λ r rest s.
        let (e, s') = read_bits_lem src n v r rest h k s in
        ((read_bits src n r).1, (λ i. ok (e i, (read_bits src n r).1)), s');
  }

  pub Takes-flag : (b : Bool) → Takes (read_flag src) ((if b then 1 else 0) ∷ []) b
  unfolding read_flag bits_of
  Takes-flag true = Takes-last (λ bit. bit == 1) (Takes-read 1 1 (omega arith) (omega arith))
  Takes-flag false = Takes-last (λ bit. bit == 1) (Takes-read 1 0 (omega arith) (omega arith))
