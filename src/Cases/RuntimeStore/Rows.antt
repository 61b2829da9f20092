-- ===== src/Cases/RuntimeStore/Rows.antt =====
-- case_management/adapters/runtime_store.py: reading a run back after an update of its row.
use mathlib.Core.Option
use mathlib.Core.Path.{subst}
use unknown_file_threat_agen.Cases.RuntimeStore.{
  InvestigationRun, RunRow, RuntimeStore, is_run, find_row, get_row, get_run, update_rows,
  update_run,
}
use unknown_file_threat_agen.Prelude.{
  String, ◌≡◌, refl, ◌⊎◌, inl, inr, Bool, true, false, Option, none, some, List, [], ◌∷◌, arith,
  eq_iff, if◌then◌else◌, Bool-cases, is_some, str_refl,
}

first_row :
    (b : Bool) (r row : RunRow) (rest : Option RunRow)
    → (if b then some r else rest) ≡ some row
    → ((b ≡ true) × (r ≡ row)) ⊎ (rest ≡ some row)
first_row true r row rest h = inl (refl, cc)
first_row false r row rest h = inr h

later_row :
    (b : Bool) (r : RunRow) (rest : Option RunRow)
    → b ≡ false
    → is_some (if b then some r else rest) ≡ true
    → is_some rest ≡ true
later_row true r rest e h = cc
later_row false r rest e h = h

mapped_row :
    (o : Option RunRow) (run : InvestigationRun)
    → Option.map (λ (row : RunRow). row.run) o ≡ some run
    → (row : RunRow) × (o ≡ some row) × (row.run ≡ run)
mapped_row none run h = cc
mapped_row (some row) run h = (row, refl, cc)

mapped_some :
    (o : Option RunRow)
    → is_some (Option.map (λ (row : RunRow). row.run) o) ≡ true
    → is_some o ≡ true
mapped_some none h = h
mapped_some (some row) h = refl

find_row-own :
    (tenant run_id : String) (rows : List RunRow) (row : RunRow)
    → find_row tenant run_id rows ≡ some row
    → is_run tenant run_id row.run ≡ true
unfolding find_row
find_row-own tenant run_id [] row h = cc
find_row-own tenant run_id (r ∷ rows) row h =
    elim (first_row (is_run tenant run_id r.run) r row (find_row tenant run_id rows) h) [
      | inl (own, e) ↦ subst (λ (x : RunRow). is_run tenant run_id x.run ≡ true) e own
      | inr later ↦ find_row-own tenant run_id rows row later
    ]

-- a run that is read has the key that was asked for
pub get_run-own :
    (tenant run_id : String) (s : RuntimeStore) (run : InvestigationRun)
    → get_run tenant run_id s ≡ some run
    → (run.tenant_id ≡ tenant) × (run.run_id ≡ run_id)
unfolding get_run get_row
get_run-own tenant run_id s run h =
    let found = mapped_row (find_row tenant run_id s.runs) run h in
    let own =
      subst (λ (x : InvestigationRun). is_run tenant run_id x ≡ true) found.2
        (find_row-own tenant run_id s.runs found.0 found.1) in
    (
      (eq_iff run.tenant_id tenant).0 (ground (arith, own)),
      (eq_iff run.run_id run_id).0 (ground (arith, own)),
    )

find_row-update_rows :
    (run : InvestigationRun) (rows : List RunRow)
    → is_some (find_row run.tenant_id run.run_id rows) ≡ true
    → Option.map
        (λ (row : RunRow). row.run)
        (find_row run.tenant_id run.run_id (update_rows run rows))
      ≡ some run
unfolding find_row update_rows
find_row-update_rows run [] h = cc
find_row-update_rows run (r ∷ rows) h = elim (Bool-cases (is_run run.tenant_id run.run_id r.run)) [
  | inl own ↦ rw (own, str_refl run.tenant_id, str_refl run.run_id) refl
  | inr other ↦
      rw (other, find_row, other)
        (find_row-update_rows run rows (
          later_row (is_run run.tenant_id run.run_id r.run) r
            (find_row run.tenant_id run.run_id rows) other h))
]

-- an updated run is read back
pub get_run-update_run :
    (run : InvestigationRun) (s : RuntimeStore)
    → is_some (get_run run.tenant_id run.run_id s) ≡ true
    → get_run run.tenant_id run.run_id (update_run run s).store ≡ some run
unfolding get_run get_row update_run
get_run-update_run run s h =
    rw h
      (find_row-update_rows run s.runs (mapped_some (find_row run.tenant_id run.run_id s.runs) h))
