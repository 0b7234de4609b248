-- ===== src/Base/Action.antt =====
-- Go's errors as values, and actions on an explicit state that may end in an error.
use mathlib.Core.List.{List, [], ◌∷◌}
use mathlib.Core.Bool.{Bool, true, false}
use mathlib.Core.Path.{◌≡◌, ap}
use Prim.Native.Nat.{ℕ, zero, suc}

-- One constructor for each `errors.New` or `fmt.Errorf` of the code that is modelled.
pub data Error : Type 0 where
  slice_read slice_write no_terminating_zero negative_read skip_beyond pos_beyond : Error
  out_of_fuel header_too_short extended_size size_zero header_exceeds_size size_too_big : Error
  body_too_short body_length size_mismatch no_sample_data bad_sdi bad_sample bad_interval
        no_slice_header :
      Error
  eof not_aligned trailing_start trailing_one : Error
  first_chunk bad_chunk no_samples no_match too_late nalu_length counts_differ unknown_version
        unknown_scheme no_sync bad_object_type bad_frequency bad_layer raw_blocks panic :
      Error

pub data Result {ℓ} (A : Type ℓ) : Type ℓ where
  ok : A → Result A
  err : Error → Result A

-- An action reads and changes a state, and gives a value or an error.
abbrev pub Action {ℓ κ} : Type ℓ → Type κ → Type (ℓ ⊔ κ)
Action S A = S → Result (A × S)

infixl 5 ◌>>=◌ ◌>>◌
unfoldable pub ◌>>=◌ {ℓ κ μ} :
    {S : Type ℓ} {A : Type κ} {B : Type μ} → Action S A → (A → Action S B) → Action S B
◌>>=◌ m f s = elim (m s) [ ok (a, t) ↦ f a t | err e ↦ err e ]

abbrev pub ◌>>◌ {ℓ κ} : {S : Type ℓ} {B : Type κ} → Action S (Unit {0}) → Action S B → Action S B
m >> k = m >>= λ _. k

abbrev pub pure {ℓ κ} : {S : Type ℓ} {A : Type κ} → A → Action S A
pure a s = ok (a, s)

abbrev pub fail {ℓ κ} : {S : Type ℓ} {A : Type κ} → Error → Action S A
fail e s = err e

-- `if cond { return nil, err }`
abbrev pub fail_if {ℓ} : {S : Type ℓ} → Bool → Error → Action S (Unit {0})
fail_if true e s = err e
fail_if false e s = ok (tt, s)

-- `if cond { m }`
abbrev pub when {ℓ κ} : {S : Type ℓ} {A : Type κ} → Bool → A → Action S A → Action S A
when true d m = m
when false d m = pure d

-- `for i := 0; i < n; i++ { v[i] = m() }`
unfoldable pub repeat {ℓ κ} : {S : Type ℓ} {A : Type κ} → ℕ → Action S A → Action S (List A)
repeat zero m = pure []
repeat (suc n) m = m >>= λ x. repeat n m >>= λ xs. pure (x ∷ xs)

-- `for _, x := range xs { f(x) }`
unfoldable pub for_each {ℓ κ} :
    {S : Type ℓ} {A : Type κ} → (A → Action S (Unit {0})) → List A → Action S (Unit {0})
for_each f [] = pure tt
for_each f (x ∷ xs) = f x >> for_each f xs

-- One step of a sequence, where the first action is known to succeed.
pub bind_ok {ℓ κ μ} :
    {S : Type ℓ} {A : Type κ} {B : Type μ} (m : Action S A) (f : A → Action S B) (s : S) {a : A}
    {t : S}
    → m s ≡ ok (a, t)
    → (m >>= f) s ≡ f a t
unfolding ◌>>=◌
bind_ok m f s h = rw (h, ◌>>=◌)

pub ok-injective {ℓ} : {A : Type ℓ} {a b : A} → ok a ≡ ok b → a ≡ b
ok-injective {a} h = ap (λ r. elim r [ ok x ↦ x | err e ↦ a ]) h
