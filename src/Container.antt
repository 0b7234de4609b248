-- ===== src/Container.antt =====
-- mp4/container.go: the children of a container box, and boxes that are nothing but their children.
pub mod RoundTrip
use mp4ff.Base.{
  ℕ, zero, suc, ◌+◌, ◌-◌, ◌%◌, ◌^◌, not, List, [], ◌∷◌, ◌++◌, Bytes, ltb, ◌==◌, if◌then◌else◌,
}
use mp4ff.Base.Action.{
  out_of_fuel, size_mismatch, Action, ◌>>=◌, ◌>>◌, pure, fail, fail_if, for_each,
}
use mp4ff.Bits.Reader.{Reader, get_pos}
use mp4ff.Bits.Writer.{Writer}
use mp4ff.Box.{BoxHeader, Registry, encode_header_sw, decode_box_sr}

-- What the code asks of the interface `Box`.
pub record BoxMethods {ℓ} (B : Type ℓ) : Type ℓ where
  pub box_size : B → ℕ
  pub encode_sw : B → Action Writer (Unit {0})

pub record GenericContainerBox {ℓ} (B : Type ℓ) : Type ℓ where
  pub name : Bytes
  pub children : List B

module _ {ℓ} {B : Type ℓ} where
  unfoldable pub new_generic_container_box : Bytes → GenericContainerBox B
  new_generic_container_box name = record { name = name; children = [] }

  unfoldable pub add_child : GenericContainerBox B → B → GenericContainerBox B
  add_child b child = record b { children = b.children ++ (child ∷ []) }

  -- `for _, c := range children { m.AddChild(c) }`
  unfoldable pub add_children : GenericContainerBox B → List B → GenericContainerBox B
  add_children m [] = m
  add_children m (c ∷ cs) = add_children (add_child m c) cs

module _ {ℓ} {B : Type ℓ} (methods : BoxMethods B) where
  unfoldable pub content_size : ℕ → List B → ℕ
  content_size acc [] = acc
  content_size acc (c ∷ cs) = content_size ((acc + methods.box_size c) % 2 ^ 64) cs

  unfoldable pub container_size : List B → ℕ
  container_size children = (8 + content_size 0 children) % 2 ^ 64

  -- The loop over the children, with fuel. `pos` counts the sizes of the children, `init_pos` and
  -- `get_pos` the bytes of the reader; their differences are compared as 64-bit integers.
  unfoldable pub children_loop : Registry B → ℕ → ℕ → ℕ → ℕ → ℕ → Action Reader (List B)
  children_loop reg zero start_pos end_pos init_pos pos = fail out_of_fuel
  children_loop reg (suc fuel) start_pos end_pos init_pos pos =
      let next : ℕ → Action Reader (List B) = children_loop reg fuel start_pos end_pos init_pos in
      if ltb end_pos pos then fail size_mismatch else if pos == end_pos then pure [] else (do
        child ← decode_box_sr reg pos
        now ← get_pos
        let pos' = (pos + methods.box_size child) % 2 ^ 64
        fail_if (not ((pos' + 2 ^ 64 - start_pos) % 2 ^ 64 == (now + 2 ^ 64 - init_pos) % 2 ^ 64))
            size_mismatch
        rest ← next pos'
        pure (child ∷ rest))

  -- Every child takes a byte at least, so the bytes between the positions are fuel enough.
  unfoldable pub decode_container_children_sr :
      Registry B → BoxHeader → ℕ → ℕ → Action Reader (List B)
  decode_container_children_sr reg hdr start_pos end_pos = do
    init_pos ← get_pos
    children_loop reg (suc (end_pos - start_pos)) start_pos end_pos init_pos start_pos

  unfoldable pub decode_generic_container_box_sr :
      Registry B → BoxHeader → ℕ → Action Reader (GenericContainerBox B)
  decode_generic_container_box_sr reg hdr start_pos = do
    children ←
        decode_container_children_sr reg hdr ((start_pos + 8) % 2 ^ 64)
          ((start_pos + hdr.size) % 2 ^ 64)
    pure (add_children (new_generic_container_box hdr.name) children)

  -- `EncodeContainerSW`, of a box with this name and these children.
  unfoldable pub encode_container_sw : Bytes → List B → Action Writer (Unit {0})
  encode_container_sw name children = do
    encode_header_sw name (container_size children)
    for_each methods.encode_sw children

  unfoldable pub encode_generic_container_box_sw : GenericContainerBox B → Action Writer (Unit {0})
  encode_generic_container_box_sw b = encode_container_sw b.name b.children
