-- ===== src/Tests/Containers.antt =====
-- A container of two boxes, and a box without a decoder.
use mp4ff.Base.{
  ℕ, ◌≡◌, refl, arith, Option, none, some, List, [], ◌∷◌, Bytes, codes, equal, length,
  if◌then◌else◌,
}
use mp4ff.Base.Words.{be_bytes}
use mp4ff.Base.Action.{Action}
use mp4ff.Bits.Reads.{Reads}
use mp4ff.Bits.Writer.{Writer}
use mp4ff.Bits.Writes.{Writes}
use mp4ff.Box.{UnknownBox, Registry, as_box, decode_box_sr, encode_unknown_sw}
use mp4ff.Box.Frame.{box_bytes}
use mp4ff.Box.Unknown.{unknown_round_trip}
use mp4ff.Container.{
  BoxMethods, GenericContainerBox, container_size, decode_generic_container_box_sr,
  encode_generic_container_box_sw,
}
use mp4ff.Container.RoundTrip.{IsBox, content, Codec-IsBox, container_round_trip}
use mp4ff.Fragment.Mfhd.{MfhdBox, decode_mfhd_sr, mfhd_size, encode_mfhd_sw}
use mp4ff.Fragment.Mfhd.RoundTrip.{mfhd_round_trip, payload as mfhd_payload}

abbrev opaque_box : UnknownBox
opaque_box = record { name = codes "zzzz"; size = 11; not_decoded = 1 ∷ 2 ∷ 3 ∷ [] }

-- The methods of the two types of box.
data Child : Type 0 where
  child_mfhd : MfhdBox → Child
  child_unknown : UnknownBox → Child

abbrev child_registry : Registry Child
child_registry = record {
  decoders_sr =
      λ name. if equal name (codes "mfhd") then some (as_box child_mfhd decode_mfhd_sr) else none;
  of_unknown = child_unknown;
}

abbrev size_of_child : Child → ℕ
size_of_child (child_mfhd m) = mfhd_size m
size_of_child (child_unknown u) = u.size

abbrev encode_child : Child → Action Writer (Unit {0})
encode_child (child_mfhd m) = encode_mfhd_sw m
encode_child (child_unknown u) = encode_unknown_sw u

abbrev child_methods : BoxMethods Child
child_methods = record { box_size = size_of_child; encode_sw = encode_child }

abbrev seventh : MfhdBox
seventh = record { version = 0; flags = 0; sequence_number = 7 }

abbrev two_children : List (Child × Bytes)
two_children =
    (child_mfhd seventh, box_bytes (codes "mfhd") (mfhd_payload seventh))
    ∷ (child_unknown opaque_box, box_bytes (codes "zzzz") (1 ∷ 2 ∷ 3 ∷ []))
    ∷ []

mfhd-IsBox :
    IsBox child_registry child_methods
      (child_mfhd seventh)
      (box_bytes (codes "mfhd") (mfhd_payload seventh))
mfhd-IsBox =
    Codec-IsBox child_methods child_mfhd (codes "mfhd") (mfhd_payload seventh)
      (mfhd_round_trip child_registry child_mfhd seventh refl
        (record { version = omega arith; flags = omega arith; sequence_number = omega arith }))
      refl refl

unknown-IsBox :
    IsBox child_registry child_methods
      (child_unknown opaque_box)
      (box_bytes (codes "zzzz") (1 ∷ 2 ∷ 3 ∷ []))
unknown-IsBox =
    Codec-IsBox child_methods child_unknown (codes "zzzz") (1 ∷ 2 ∷ 3 ∷ [])
      (unknown_round_trip opaque_box (record { named = refl; size = refl; small = omega arith })
        child_registry refl)
      refl refl

-- The boxes of the outer table are containers of the inner ones.
abbrev outer : Registry (Option (GenericContainerBox Child))
outer = record {
  decoders_sr = λ name.
      if equal name (codes "desc")
      then some (as_box some (decode_generic_container_box_sr child_methods child_registry))
      else none;
  of_unknown = λ u. none;
}

container_round_trip_example :
    Writes
      (encode_generic_container_box_sw child_methods (record {
        name = codes "desc";
        children = child_mfhd seventh ∷ child_unknown opaque_box ∷ [];
      }))
      (box_bytes (codes "desc") (content child_registry child_methods two_children))
    × (length (box_bytes (codes "desc") (content child_registry child_methods two_children))
        ≡ container_size child_methods (child_mfhd seventh ∷ child_unknown opaque_box ∷ []))
    × Reads
        (decode_box_sr outer 100)
        (box_bytes (codes "desc") (content child_registry child_methods two_children))
        (some (record {
          name = codes "desc";
          children = child_mfhd seventh ∷ child_unknown opaque_box ∷ [];
        }))
unfolding box_bytes be_bytes
container_round_trip_example =
    container_round_trip child_registry child_methods outer some (codes "desc") 100 two_children
      refl refl (mfhd-IsBox, (unknown-IsBox, tt)) (omega arith) (omega arith)
