-- ===== src/SampleTable/Stsc/Order.antt =====
-- `AddEntry` keeps the entries in order.
use mp4ff.Base.{
  ℕ, zero, suc, ◌+◌, ◌-◌, ◌*◌, ◌%◌, ◌^◌, ◌<◌, ◌≡◌, refl, sym, inl, inr, arith, some, List, [], ◌∷◌,
  ◌++◌, length, length-append, ◌==◌, Bool-cases,
}
use mp4ff.Base.Words.{IsUint32}
use mp4ff.Base.Action.{ok}
use mp4ff.SampleTable.Stsc.{StscEntry, StscBox, first_sample_after, last_entry, add_entry}
use mp4ff.SampleTable.Stsc.Chunks.{entry_at}
use mp4ff.SampleTable.Stsc.Table.{IsTable}

entry_at-front :
    (es : List StscEntry) (x : StscEntry) (i : ℕ)
    → i < length es
    → entry_at (es ++ (x ∷ [])) i ≡ entry_at es i
entry_at-front [] x i h = absurd (omega arith)
entry_at-front (e ∷ es) x zero h = refl
entry_at-front (e ∷ es) x (suc i) h = entry_at-front es x i (omega arith)

entry_at-end :
    (es : List StscEntry) (x : StscEntry) (i : ℕ) → i ≡ length es → entry_at (es ++ (x ∷ [])) i ≡ x
entry_at-end [] x zero h = refl
entry_at-end [] x (suc i) h = absurd (omega arith)
entry_at-end (e ∷ es) x zero h = absurd (omega arith)
entry_at-end (e ∷ es) x (suc i) h = entry_at-end es x i (omega arith)

last_entry-entry_at :
    (es : List StscEntry) (l : ℕ) → length es ≡ suc l → last_entry es ≡ some (entry_at es l)
last_entry-entry_at [] l h = absurd (omega arith)
last_entry-entry_at (e ∷ []) zero h = refl
last_entry-entry_at (e ∷ []) (suc l) h = absurd (omega arith)
last_entry-entry_at (e ∷ e' ∷ es) zero h = absurd (omega arith)
last_entry-entry_at (e ∷ e' ∷ es) (suc l) h = last_entry-entry_at (e' ∷ es) l (omega arith)

-- One more entry behind the last one, `l`.
module _ (es : List StscEntry) (x : StscEntry) (l : ℕ) (n : length es ≡ suc l) where
  longer : length (es ++ (x ∷ [])) ≡ suc (suc l)
  longer = omega (arith, length-append es (x ∷ []))

  IsTable-end :
      IsTable es
      → length es < 2 ^ 31 - 1
      → 0 < x.samples_per_chunk
      → (entry_at es l).first_chunk_nr < x.first_chunk_nr
      → x.first_sample_nr
        ≡ (entry_at es l).first_sample_nr
          + (x.first_chunk_nr - (entry_at es l).first_chunk_nr) * (entry_at es l).samples_per_chunk
      → IsTable (es ++ (x ∷ []))
  IsTable-end t small p up s =
      let front = entry_at-front es x in
      let at_end = entry_at-end es x in
      record {
        not_empty = omega (arith, longer);
        small = omega (arith, longer);
        first_chunk = rw (front 0 t.not_empty) t.first_chunk;
        first_sample = rw (front 0 t.not_empty) t.first_sample;
        positive = λ i h. elim (Bool-cases (i == suc l)) [
          | inl e ↦ rw (at_end i (ground arith)) p
          | inr e ↦
              let inside : i < length es = ground (arith, longer) in
              rw (front i inside) (t.positive i inside)
        ];
        ascends = λ i h. elim (Bool-cases (i == l)) [
          | inl e ↦
              let e' : i ≡ l = ground arith in
              rw (e', front l (omega arith), at_end (suc l) (sym n)) up
          | inr e ↦
              let inside : suc i < length es = ground (arith, longer) in
              rw (front i (omega arith), front (suc i) inside) (t.ascends i (omega arith))
        ];
        step = λ i h. elim (Bool-cases (i == l)) [
          | inl e ↦
              let e' : i ≡ l = ground arith in
              rw (e', front l (omega arith), at_end (suc l) (sym n)) s
          | inr e ↦
              let inside : suc i < length es = ground (arith, longer) in
              rw (front i (omega arith), front (suc i) inside) (t.step i (omega arith))
        ];
      }

-- `AddEntry` of a later chunk keeps a table in order: it succeeds, and the entries are those of before,
-- unchanged, with one behind them that has the chunk and the number of samples that were given, and
-- starts behind the samples of the chunks from the last entry on. The new entry has samples, its chunk
-- and its first sample fit 32 bits, and there are fewer than 2^31 - 1 entries before.
pub add_entry-IsTable :
    (b : StscBox) (nr samples_per_chunk sdi : ℕ)
    → IsTable b.entries
    → length b.entries < 2 ^ 31 - 1
    → 0 < samples_per_chunk
    → (entry_at b.entries (length b.entries - 1)).first_chunk_nr < nr
    → IsUint32 nr
    → IsUint32 (
        (entry_at b.entries (length b.entries - 1)).first_sample_nr
        + (nr - (entry_at b.entries (length b.entries - 1)).first_chunk_nr)
          * (entry_at b.entries (length b.entries - 1)).samples_per_chunk)
    → (b' : StscBox) × (add_entry b nr samples_per_chunk sdi ≡ ok b')
      × (b'.entries
          ≡ b.entries
            ++ (record {
              first_chunk_nr = nr;
              samples_per_chunk = samples_per_chunk;
              first_sample_nr =
                  (entry_at b.entries (length b.entries - 1)).first_sample_nr
                  + (nr - (entry_at b.entries (length b.entries - 1)).first_chunk_nr)
                    * (entry_at b.entries (length b.entries - 1)).samples_per_chunk;
            }
                ∷ []))
      × IsTable b'.entries
unfolding add_entry
add_entry-IsTable b nr samples_per_chunk sdi t small p up hn fits =
    let l = length b.entries - 1 in
    let n : length b.entries ≡ suc l = omega (arith, t.not_empty) in
    let e = entry_at b.entries l in
    let gap : (nr + 2 ^ 32 - e.first_chunk_nr) % 2 ^ 32 ≡ nr - e.first_chunk_nr = omega arith in
    let s : first_sample_after e.first_sample_nr e nr
        ≡ e.first_sample_nr + (nr - e.first_chunk_nr) * e.samples_per_chunk =
      rw gap (omega arith) in
    let x : StscEntry = record {
      first_chunk_nr = nr;
      samples_per_chunk = samples_per_chunk;
      first_sample_nr = first_sample_after e.first_sample_nr e nr;
    } in
    rw (last_entry-entry_at b.entries l n, add_entry)
      (
        _,
        refl,
        (λ i.
            b.entries
            ++ (record {
              first_chunk_nr = nr;
              samples_per_chunk = samples_per_chunk;
              first_sample_nr = s i;
            }
                ∷ [])),
        IsTable-end b.entries x l n t small p up s,
      )
