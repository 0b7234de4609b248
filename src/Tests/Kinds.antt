-- ===== src/Tests/Kinds.antt =====
-- A box through the interface.
use mp4ff.Base.{none, arith, ◌∷◌, []}
use mp4ff.Base.Int.{pos, negsuc}
use mp4ff.SampleTable.Elst.{ElstEntry, ElstBox}
use mp4ff.Boxes.{of_elst, Others}
use mp4ff.Boxes.RoundTrip.{Coded, any_box_round_trip}

-- An empty edit, which has the media time -1.
abbrev empty_edit : ElstEntry
empty_edit = record {
  segment_duration = 1000;
  media_time = negsuc 0;
  media_rate_integer = pos 1;
  media_rate_fraction = pos 0;
}

abbrev an_elst : ElstBox
an_elst = record { version = 0; flags = 0; entries = empty_edit ∷ [] }

-- No other boxes have decoders.
abbrev no_others : Others
no_others name = none

any_box_round_trip_example : Coded no_others (of_elst an_elst)
any_box_round_trip_example = any_box_round_trip no_others (of_elst an_elst) (record {
  version = omega arith;
  flags = omega arith;
  long = λ e. ground (arith, e);
  short = λ e. (
    record {
      duration = omega arith;
      time = omega arith;
      whole = omega arith;
      fraction = omega arith;
    },
    tt,
  );
  fits = omega arith;
})
