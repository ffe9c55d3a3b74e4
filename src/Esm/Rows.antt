-- ===== src/Esm/Rows.antt =====
-- crates/ashfall-server/src/db/esm_import.rs, `import_record`: the rows that a record becomes. A row is a
-- call of one of the database's insert functions (an `INSERT OR REPLACE`, its error ignored) with the struct that
-- it is given.
pub mod Counts
use ashfall.Prelude.{
  ℕ, suc, ◌+◌, ◌*◌, ◌-◌, ◌/◌, ◌%◌, Bool, true, false, not, ◌&&◌, ◌||◌, Option, none, some, List, [],
  ◌∷◌, ◌++◌, ltb, leb, ◌==◌, nat_eq, bytes_eq, if◌then◌else◌, length, drop, contains, bit_and,
  bit_or, from_le_bytes, from_le_bytes4,
}
use ashfall.Prelude.Int.{ℤ, pos, negsuc}
use ashfall.Map.{is_some}
use ashfall.Reliable.{Bytes}
use ashfall.StringCache.{Text}
use ashfall.Esm.{Formats, Subrecord, sub, full_name, desc, sub_f32_at, sub_u32_at, sub_u16_at}

pub data Row (F : Type 0) : Type 0 where
  weapon :
      (base_id : ℕ) (name : Text) (damage crit_damage crit_chance : F) (weapon_type : ℕ) → Row F
  npc : (base_id : ℕ) (name : Text) (race : ℕ) (female : Bool) (health level : ℕ) → Row F
  race : (base_id : ℕ) (name : Text) → Row F
  container : (base_id : ℕ) (name : Text) → Row F
  item : (base_id : ℕ) (name : Text) (weight : F) (value : ℕ) → Row F
  terminal : (base_id : ℕ) (name : Text) → Row F
  faction : (id : ℕ) (name : Text) (hostility_mask : ℕ) → Row F
  quest_stage : (quest stage : ℕ) → Row F
  exterior : (world_id : ℕ) (x y : ℤ) → Row F
  interior : (cell : ℕ) (name : Text) → Row F
  reference : (ref_id base_id cell_id object_id : ℕ) → Row F
  generic : (base_id : ℕ) (name description : Text) (kind : ℕ) → Row F

pub record EsmImportStats : Type 0 where
  pub records : ℕ
  pub weapons : ℕ
  pub npcs : ℕ
  pub races : ℕ
  pub items : ℕ
  pub containers : ℕ
  pub terminals : ℕ
  pub factions : ℕ
  pub quest_stages : ℕ
  pub interiors : ℕ
  pub exteriors : ℕ
  pub references : ℕ
  pub skipped_compressed : ℕ

abbrev pub no_stats : EsmImportStats
no_stats = record {
  records = 0;
  weapons = 0;
  npcs = 0;
  races = 0;
  items = 0;
  containers = 0;
  terminals = 0;
  factions = 0;
  quest_stages = 0;
  interiors = 0;
  exteriors = 0;
  references = 0;
  skipped_compressed = 0;
}

-- What an import has done: its counts, its rows, and the world and the cell of the groups that it is in.
pub record Progress (F : Type 0) : Type 0 where
  pub stats : EsmImportStats
  pub rows : List (Row F)
  pub world_ctx : ℕ
  pub cell_ctx : ℕ

-- The placeholder index byte 0x01 of a form id becomes the index of the load order.
unfoldable pub remap : ℕ → ℕ → ℕ
remap index fid =
    if not (index == 0) && (fid / 16777216 == 1)
    then bit_or (bit_and fid 0x00FFFFFF) (index * 16777216)
    else fid

to_i32 : ℕ → ℤ
to_i32 n = if ltb n 2147483648 then pos n else negsuc (4294967295 - n)

i32_from : Bytes → ℤ
unfolding to_i32
i32_from (a ∷ b ∷ c ∷ d ∷ rest) = to_i32 (from_le_bytes4 a b c d)
i32_from _ = pos 0

i32_in : ℕ → Option Bytes → ℤ
unfolding i32_from
i32_in offset none = pos 0
i32_in offset (some bytes) = i32_from (drop offset bytes)

abbrev ty : ℕ → ℕ → ℕ → ℕ → Bytes
ty a b c d = a ∷ b ∷ c ∷ d ∷ []

item_types : List Bytes
item_types =
    ty b'M' b'I' b'S' b'C'
    ∷ ty b'A' b'L' b'C' b'H'
    ∷ ty b'A' b'M' b'M' b'O'
    ∷ ty b'A' b'R' b'M' b'O'
    ∷ ty b'B' b'O' b'O' b'K'
    ∷ ty b'K' b'E' b'Y' b'M'
    ∷ ty b'N' b'O' b'T' b'E'
    ∷ ty b'S' b'L' b'G' b'M'
    ∷ []

stage_in : Bytes → List ℕ → List ℕ
stage_in (lo ∷ hi ∷ bytes) later = from_le_bytes lo hi ∷ later
stage_in _ later = later

unfoldable pub stages : List Subrecord → List ℕ
unfolding stage_in
stages [] = []
stages (s ∷ subs) =
    let rest = stages subs in if s.ty == ty b'I' b'N' b'D' b'X' then stage_in s.bytes rest else rest

kind_of : Bytes → ℕ
kind_of (a ∷ b ∷ c ∷ d ∷ rest) = from_le_bytes4 a b c d
kind_of _ = 0

-- The arm of a `match` whose pattern fits first.
unfoldable pub first_of : {A : Type 0} → List (Bool × A) → A → A
first_of [] a = a
first_of ((fits, b) ∷ arms) a = let later = first_of arms a in if fits then b else later

module _ {F : Type 0} (m : Formats F) where
  abbrev pub add_row : Progress F → EsmImportStats → Row F → Progress F
  add_row p stats row = record p { stats = stats; rows = p.rows ++ row ∷ [] }

  unfoldable pub stage_rows : ℕ → List ℕ → List (Row F)
  stage_rows quest [] = []
  stage_rows quest (s ∷ later) = quest_stage quest s ∷ stage_rows quest later

  -- A cell with coordinates lies in the open, one with a name inside.
  unfoldable pub import_cell : ℕ → List Subrecord → Progress F → Option Bytes → Text → Progress F
  unfolding i32_in
  import_cell form_id subs p (some xclc) name =
      add_row p (record p.stats { exteriors = p.stats.exteriors + 1 })
        (exterior p.world_ctx (i32_in 0 (some xclc)) (i32_in 4 (some xclc)))
  import_cell form_id subs p none [] = p
  import_cell form_id subs p none (c ∷ name) =
      add_row p (record p.stats { interiors = p.stats.interiors + 1 }) (interior form_id (c ∷ name))

  unfoldable pub import_record : ℕ → Bytes → ℕ → List Subrecord → Progress F → Progress F
  unfolding item_types kind_of
  import_record index rec_type form_id subs p =
      let bytes = ty b'D' b'A' b'T' b'A' in
      let name = full_name m subs in
      first_of
        ((
          rec_type == ty b'W' b'E' b'A' b'P',
          add_row p (record p.stats { weapons = p.stats.weapons + 1 })
              (weapon form_id name (sub_f32_at m subs bytes 0) (sub_f32_at m subs bytes 28)
                (sub_f32_at m subs bytes 32) 0),
        )
          ∷ (
            rec_type == ty b'N' b'P' b'C' b'_' || rec_type == ty b'C' b'R' b'E' b'A',
            add_row p (record p.stats { npcs = p.stats.npcs + 1 })
                (npc form_id name (remap index (sub_u32_at subs (ty b'R' b'N' b'A' b'M') 0))
                  (not (bit_and (sub_u32_at subs (ty b'A' b'C' b'B' b'S') 0) 1 == 0))
                  (sub_u32_at subs (ty b'A' b'C' b'D' b'T') 0)
                  (sub_u16_at subs (ty b'A' b'C' b'D' b'T') 32)),
          )
          ∷ (
            rec_type == ty b'R' b'A' b'C' b'E',
            add_row p (record p.stats { races = p.stats.races + 1 }) (race form_id name),
          )
          ∷ (
            rec_type == ty b'C' b'O' b'N' b'T',
            add_row p (record p.stats { containers = p.stats.containers + 1 })
                (container form_id name),
          )
          ∷ (
            contains item_types rec_type,
            add_row p (record p.stats { items = p.stats.items + 1 })
                (item form_id name (sub_f32_at m subs bytes 0) (sub_u32_at subs bytes 4)),
          )
          ∷ (
            rec_type == ty b'T' b'E' b'R' b'M',
            add_row p (record p.stats { terminals = p.stats.terminals + 1 })
                (terminal form_id name),
          )
          ∷ (
            rec_type == ty b'F' b'A' b'C' b'T',
            add_row p (record p.stats { factions = p.stats.factions + 1 })
                (faction form_id name (sub_u32_at subs bytes 0)),
          )
          ∷ (
            rec_type == ty b'Q' b'U' b'S' b'T',
            record p {
              stats = record p.stats { quest_stages = p.stats.quest_stages + length (stages subs) };
              rows = p.rows ++ stage_rows form_id (stages subs);
            },
          )
          ∷ (
            rec_type == ty b'C' b'E' b'L' b'L',
            import_cell form_id subs p (sub subs (ty b'X' b'C' b'L' b'C')) name,
          )
          ∷ (
            rec_type == ty b'R' b'E' b'F' b'R'
                || rec_type == ty b'A' b'C' b'H' b'R'
                || rec_type == ty b'A' b'C' b'R' b'E',
            add_row p (record p.stats { references = p.stats.references + 1 })
                (reference form_id (remap index (sub_u32_at subs (ty b'N' b'A' b'M' b'E') 0))
                  p.cell_ctx 0),
          )
          ∷ [])
        (add_row p (record p.stats { records = p.stats.records + 1 })
          (generic form_id name (desc m subs) (kind_of rec_type)))
