-- ===== src/LinearStorage/Sweep.antt =====
-- LinearStorage.cpp, Storage::scanPrefix: the sweep over the first bytes of the records, which stops
-- after a number of records and goes on from a cursor.
use tiny_mq.Prelude.{
  ℕ, zero, suc, Bool, true, false, ◌&&◌, Option, none, some, [], ◌∷◌, ◌++◌, ltb, leb, ◌==◌,
  if◌then◌else◌, is_empty,
}
use tiny_mq.Prelude.Maps.{nat_eq}
use tiny_mq.LinearStorage.Tom.{Tom, Record, Outcome, ok, fault, no_fuel, record_at, data_prefix}
use tiny_mq.LinearStorage.Storage.{Found, Toms, next_offset, at_end, is_live}

-- scanPrefix over one file, from an offset: what was found, and how many records were looked at,
-- with the offset to go on from where the budget ended first.
pub record Swept : Type 0 where
  pub found : Found
  pub scanned : ℕ
  pub stopped_at : Option ℕ

abbrev swept : Found → Outcome Swept × Tom → Outcome Swept × Tom
swept xs (ok s, t) = (ok (record s { found = xs ++ s.found }), t)
swept xs (fault f, t) = (fault f, t)

unfoldable pub prefix_found : Tom → Record → ℕ → Found × Tom
unfolding data_prefix
prefix_found t rec len =
    if is_live rec
    then (let (bs, t') = data_prefix t rec len in
        if is_empty bs then ([], t') else ((rec, bs) ∷ [], t'))
    else ([], t)

unfoldable pub sweep_tom : ℕ → ℕ → ℕ → ℕ → Tom → ℕ → Outcome Swept × Tom
unfolding record_at prefix_found
sweep_tom zero len budget scanned t offset = (fault no_fuel, t)
sweep_tom (suc n) len budget scanned t offset =
    let (r, t1) = record_at t offset in
    let finished : Swept = record { found = []; scanned = scanned; stopped_at = none } in
    let full : Swept = record { found = []; scanned = scanned; stopped_at = some offset } in
    let step : Outcome Swept × Tom = elim r [
      | fault f ↦ (fault f, t1)
      | ok rec ↦
          let rest =
            (let (xs, t2) = prefix_found t1 rec len in
              swept xs (sweep_tom n len budget (suc scanned) t2 (next_offset offset rec))) in
          if at_end rec then (ok finished, t1) else rest
    ] in
    if leb budget scanned then (ok full, t) else step

pub record SweepCursor : Type 0 where
  pub tom_id : ℕ
  pub offset : ℕ

abbrev pub first_cursor : SweepCursor
first_cursor = record { tom_id = 0; offset = 0 }

unfoldable pub insert_tom : ℕ × Tom → Toms → Toms
insert_tom t [] = t ∷ []
insert_tom (id, t) ((j, u) ∷ toms) =
    if ltb j id then (j, u) ∷ insert_tom (id, t) toms else (id, t) ∷ (j, u) ∷ toms

unfoldable pub sort_toms : Toms → Toms
unfolding insert_tom
sort_toms [] = []
sort_toms (t ∷ toms) = insert_tom t (sort_toms toms)

-- What one call of scanPrefix found and changed, and where the next goes on.
pub record Sweep : Type 0 where
  pub found : Found
  pub cursor : SweepCursor
  pub toms : Toms

abbrev kept_tom : ℕ × Tom → Outcome Sweep → Outcome Sweep
kept_tom t (fault f) = fault f
kept_tom t (ok s) = ok (record s { toms = t ∷ s.toms })

abbrev after_tom : ℕ → Toms → Swept × Tom → Outcome Sweep → Outcome Sweep
after_tom id toms (s, t) (fault f) = fault f
after_tom id toms (s, t) (ok w) =
    ok (record w { found = s.found ++ w.found; toms = (id, t) ∷ w.toms })

abbrev stopped : ℕ → Toms → Swept × Tom → Option ℕ → Outcome Sweep → Outcome Sweep
stopped id toms (s, t) none rest = after_tom id toms (s, t) rest
stopped id toms (s, t) (some offset) rest = ok (record {
  found = s.found;
  cursor = record { tom_id = id; offset = offset };
  toms = (id, t) ∷ toms;
})

-- scanPrefix over sorted files; `resuming` as in the source. At the end the cursor is reset.
unfoldable pub sweep : ℕ → ℕ → ℕ → SweepCursor → ℕ → Bool → Toms → Outcome Sweep
unfolding sweep_tom
sweep fuel len budget cursor scanned resuming [] =
    ok (record { found = []; cursor = first_cursor; toms = [] })
sweep fuel len budget cursor scanned resuming ((id, t) ∷ toms) =
    let offset = (if resuming && id == cursor.tom_id then cursor.offset else 0) in
    let skipped = kept_tom (id, t) (sweep fuel len budget cursor scanned resuming toms) in
    let (r, t') = sweep_tom fuel len budget scanned t offset in
    let visited = elim r as (λ _. Outcome Sweep) [
      | fault f ↦ fault f
      | ok s ↦
          let rest = sweep fuel len budget cursor s.scanned false toms in
          stopped id toms (s, t') s.stopped_at rest
    ] in
    if resuming && ltb id cursor.tom_id then skipped else visited

unfoldable pub scan_prefix : ℕ → ℕ → ℕ → SweepCursor → Toms → Outcome Sweep
unfolding sweep sort_toms
scan_prefix fuel len budget cursor toms = sweep fuel len budget cursor 0 true (sort_toms toms)
