-- ===== src/SampleTable/Stsc/Build.antt =====
-- An stsc box built entry by entry with `AddEntry`.
use mp4ff.Base.{
  ℕ, suc, ◌<◌, ◌≡◌, refl, sym, ap, arith, Option, none, some, List, [], ◌∷◌, ◌++◌, length,
  length-append, length-map, All,
}
use mp4ff.Base.Action.{ok}
use mp4ff.SampleTable.Stsc.{
  StscEntry, next_sample, first_sample_after, last_entry, add_entry, add_description,
}
use mp4ff.SampleTable.Stsc.Descriptions.{kept, add_description_lem}
use mp4ff.SampleTable.Stsc.RoundTrip.{Row, entries_from, ids_of, stsc_of, length-entries_from}

-- The entry that another row adds.
last_of_rows :
    (rs : List Row) (r new : Row) (acc : ℕ) (before : Option StscEntry)
    → (e : StscEntry) × (last_entry (entries_from acc before (r ∷ rs)) ≡ some e)
      × (entries_from acc before (r ∷ rs ++ (new ∷ []))
          ≡ entries_from acc before (r ∷ rs)
            ++ (record {
              first_chunk_nr = new.0;
              samples_per_chunk = new.1;
              first_sample_nr = first_sample_after e.first_sample_nr e new.0;
            }
                ∷ []))
last_of_rows [] r new acc before = (_, refl, refl)
last_of_rows (r' ∷ rs) r new acc before =
    let nr = next_sample acc before r.0 in
    let first : StscEntry = record {
      first_chunk_nr = r.0;
      samples_per_chunk = r.1;
      first_sample_nr = nr;
    } in
    let (e, e₁, e₂) = last_of_rows rs r' new nr (some first) in (e, e₁, ap (λ xs. first ∷ xs) e₂)

map-end : (rs : List Row) (r : Row) → ids_of (rs ++ (r ∷ [])) ≡ ids_of rs ++ (r.2 ∷ [])
map-end [] r = refl
map-end (x ∷ rs) r = ap (λ xs. x.2 ∷ xs) (map-end rs r)

added_ids :
    (r new : Row) (rs : List Row)
    → All (λ d. 0 < d) (ids_of (r ∷ rs))
    → 0 < new.2
    → add_description
        (length (entries_from 1 none (r ∷ rs)))
        new.2
        (kept (length (r ∷ rs)) (ids_of (r ∷ rs)))
      ≡ kept (length (r ∷ rs ++ (new ∷ []))) (ids_of (r ∷ rs ++ (new ∷ [])))
added_ids r new rs a h =
    let n = length-map rs (λ (row : Row). row.2) in
    rw (length-entries_from rs 1 _, map-end rs new)
      (add_description_lem (length (r ∷ rs)) (length (r ∷ rs ++ (new ∷ []))) new.2 r.2 (ids_of rs)
        (ap suc (sym n))
        (omega (arith, length-append rs (new ∷ []), length-append (ids_of rs) (new.2 ∷ []))) a h)

-- Adding an entry to a box made of rows, at least one, gives the box of the rows with the new one
-- behind them: its first sample follows from the last entry, and the ids become a list with the first
-- that differs. The ids are not 0.
pub add_entry_lem :
    (version flags : ℕ) (r new : Row) (rs : List Row)
    → All (λ d. 0 < d) (ids_of (r ∷ rs))
    → 0 < new.2
    → add_entry (stsc_of version flags (r ∷ rs)) new.0 new.1 new.2
      ≡ ok (stsc_of version flags (r ∷ rs ++ (new ∷ [])))
unfolding add_entry
add_entry_lem version flags r new rs a h =
    let (e, e₁, e₂) = last_of_rows rs r new 1 none in
    rw (e₁, add_entry, e₂)
      (ap
        (λ (ids : ℕ × List ℕ). ok (record {
          version = version;
          flags = flags;
          single_sample_description_id = ids.0;
          entries =
              entries_from 1 none (r ∷ rs)
              ++ (record {
                first_chunk_nr = new.0;
                samples_per_chunk = new.1;
                first_sample_nr = first_sample_after e.first_sample_nr e new.0;
              }
                  ∷ []);
          sample_description_id = ids.1;
        }))
        (added_ids r new rs a h))
