-- ===== src/Esm/Rows/Counts.antt =====
-- The counts that crates/ashfall-server/src/db/esm_import.rs reports.
use ashfall.Prelude.{
  ℕ, suc, ◌+◌, ◌≡◌, refl, Bool, true, false, Option, none, some, List, [], ◌∷◌, ◌++◌, arith, nat_eq,
  bytes_eq, length, length-append,
}
use ashfall.Reliable.{Bytes}
use ashfall.StringCache.{Text}
use ashfall.Esm.{Formats, Subrecord}
use ashfall.Esm.Rows.{
  Row, EsmImportStats, Progress, first_of, add_row, import_cell, stages, stage_rows, import_record,
}

abbrev pub total : EsmImportStats → ℕ
total s =
    s.records + s.weapons + s.npcs + s.races + s.items + s.containers + s.terminals + s.factions
    + s.quest_stages + s.interiors + s.exteriors + s.references

-- Each row has been counted once.
pub record IsCounted {F : Type 0} (p : Progress F) : Type 0 where
  pub rows_counted : length p.rows ≡ total p.stats

module _ {F : Type 0} (m : Formats F) where
  add_row-IsCounted :
      (p : Progress F) (stats : EsmImportStats) (row : Row F)
      → IsCounted p
      → total stats ≡ suc (total p.stats)
      → IsCounted (add_row m p stats row)
  add_row-IsCounted p stats row c h = record {
    rows_counted = omega (arith, length-append p.rows (row ∷ []), c.rows_counted);
  }

  length-stage_rows : (quest : ℕ) (l : List ℕ) → length (stage_rows m quest l) ≡ length l
  unfolding stage_rows
  length-stage_rows quest [] = refl
  length-stage_rows quest (x ∷ l) = omega (arith, length-stage_rows quest l)

  stages-IsCounted :
      (quest : ℕ) (l : List ℕ) (p : Progress F)
      → IsCounted p
      → IsCounted (record p {
        stats = record p.stats { quest_stages = p.stats.quest_stages + length l };
        rows = p.rows ++ stage_rows m quest l;
      })
  stages-IsCounted quest l p c = record {
    rows_counted = omega (
      arith,
      length-append p.rows (stage_rows m quest l),
      length-stage_rows quest l,
      c.rows_counted,
    );
  }

  import_cell-IsCounted :
      (form_id : ℕ) (subs : List Subrecord) (p : Progress F) (xclc : Option Bytes) (name : Text)
      → IsCounted p
      → IsCounted (import_cell m form_id subs p xclc name)
  unfolding import_cell
  import_cell-IsCounted form_id subs p (some xclc) name c =
      add_row-IsCounted p (record p.stats { exteriors = p.stats.exteriors + 1 }) _ c (omega arith)
  import_cell-IsCounted form_id subs p none [] c = c
  import_cell-IsCounted form_id subs p none (x ∷ name) c =
      add_row-IsCounted p (record p.stats { interiors = p.stats.interiors + 1 }) _ c (omega arith)

  arm-IsCounted :
      (b : Bool) (q : Progress F) (arms : List (Bool × Progress F)) (p : Progress F)
      → IsCounted q
      → IsCounted (first_of arms p)
      → IsCounted (first_of ((b, q) ∷ arms) p)
  unfolding first_of
  arm-IsCounted true q arms p h later = h
  arm-IsCounted false q arms p h later = later

  no_arm-IsCounted : (p : Progress F) → IsCounted p → IsCounted (first_of [] p)
  unfolding first_of
  no_arm-IsCounted p h = h

  pub import_record-IsCounted :
      (index : ℕ) (rec_type : Bytes) (form_id : ℕ) (subs : List Subrecord) (p : Progress F)
      → IsCounted p
      → IsCounted (import_record m index rec_type form_id subs p)
  unfolding import_record
  import_record-IsCounted index rec_type form_id subs p c =
      arm-IsCounted _ _ _ _
        (add_row-IsCounted p (record p.stats { weapons = p.stats.weapons + 1 }) _ c (omega arith))
        (arm-IsCounted _ _ _ _
          (add_row-IsCounted p (record p.stats { npcs = p.stats.npcs + 1 }) _ c (omega arith))
          (arm-IsCounted _ _ _ _
            (add_row-IsCounted p (record p.stats { races = p.stats.races + 1 }) _ c (omega arith))
            (arm-IsCounted _ _ _ _
              (add_row-IsCounted p (record p.stats { containers = p.stats.containers + 1 }) _ c
                (omega arith))
              (arm-IsCounted _ _ _ _
                (add_row-IsCounted p (record p.stats { items = p.stats.items + 1 }) _ c
                  (omega arith))
                (arm-IsCounted _ _ _ _
                  (add_row-IsCounted p (record p.stats { terminals = p.stats.terminals + 1 }) _ c
                    (omega arith))
                  (arm-IsCounted _ _ _ _
                    (add_row-IsCounted p (record p.stats { factions = p.stats.factions + 1 }) _ c
                      (omega arith))
                    (arm-IsCounted _ _ _ _ (stages-IsCounted form_id (stages subs) p c) (
                      arm-IsCounted _ _ _ _ (import_cell-IsCounted form_id subs p _ _ c) (
                        arm-IsCounted _ _ _ _
                          (add_row-IsCounted p
                            (record p.stats { references = p.stats.references + 1 }) _ c
                            (omega arith))
                          (no_arm-IsCounted _ (
                            add_row-IsCounted p (record p.stats { records = p.stats.records + 1 }) _
                              c (omega arith))))))))))))
