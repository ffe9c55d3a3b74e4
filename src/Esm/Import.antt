-- ===== src/Esm/Import.antt =====
-- crates/ashfall-server/src/db/esm_import.rs: the walk over the groups and records of a plugin file. The
-- functions that Rust calls recursively, and the loops in them, take fuel; `out_of_fuel` is the model's.
pub mod Advance
pub mod Termination
use ashfall.Prelude.{
  ℕ, zero, suc, ◌+◌, ◌*◌, Bool, true, false, not, ◌||◌, Option, none, some, List, [], ◌∷◌, ◌++◌,
  ltb, leb, ◌==◌, nat_eq, bytes_eq, if◌then◌else◌, length, drop, bit_and,
}
use ashfall.Map.{is_some}
use ashfall.Reliable.{Bytes}
use ashfall.Esm.{Formats, read, skip, peek_4cc, read_u32, read_u32_or, parse_subrecords}
use ashfall.Esm.Rows.{Row, EsmImportStats, no_stats, Progress, remap, import_record}

pub data Failure : Type 0 where
  truncated_group_header invalid_group_size group_overruns : Failure
  truncated_record_type truncated_record record_overruns truncated_body : Failure
  expected_group begin_failed commit_failed out_of_fuel : Failure

pub data Result {ℓ} (A : Type ℓ) : Type ℓ where
  ok : A → Result A
  err : Failure → Result A

infixl 5 ◌>>=◌
abbrev pub ◌>>=◌ {ℓ κ} : {A : Type ℓ} {B : Type κ} → Result A → (A → Result B) → Result B
ok a >>= k = k a
err e >>= k = err e

abbrev pub ok_or {ℓ} : {A : Type ℓ} → Failure → Option A → Result A
ok_or e none = err e
ok_or e (some a) = ok a

abbrev pub ensure : Bool → Failure → Result (Unit {0})
ensure true e = ok tt
ensure false e = err e

abbrev pub grup : Bytes
grup = b'G' ∷ b'R' ∷ b'U' ∷ b'P' ∷ []

abbrev pub tes4 : Bytes
tes4 = b'T' ∷ b'E' ∷ b'S' ∷ b'4' ∷ []

-- Whether the next four bytes are there and are these.
unfoldable pub next_is : Bytes → Bytes → ℕ → Bool
next_is ty bytes at = elim (peek_4cc bytes at) [ some t ↦ t == ty | none ↦ false ]

-- Where the groups start: behind the header record, if there is one.
unfoldable pub after_header : Bytes → ℕ
unfolding next_is
after_header bytes =
    if next_is tes4 bytes 0
    then (let (size, at) = read_u32_or bytes (skip bytes 0 4) in skip bytes (skip bytes at 16) size)
    else 0

abbrev pub enough_fuel : Bytes → ℕ
enough_fuel bytes = 2 * length bytes + 3

module _ {F : Type 0} where
  -- The end of the transaction: `COMMIT`, which the database may refuse, or `ROLLBACK`. A `Row` is one
  -- call of an `INSERT OR REPLACE`, whose own error is ignored; `inserts` are those that were committed.
  unfoldable pub committed :
      (commits : Bool) (inserts : List (Row F))
      → Result (Progress F)
      → Result EsmImportStats × List (Row F)
  committed true inserts (ok p) = (ok p.stats, inserts ++ p.rows)
  committed false inserts (ok p) = (err commit_failed, inserts)
  committed commits inserts (err e) = (err e, inserts)

  abbrev pub nothing_done : Progress F
  nothing_done = record { stats = no_stats; rows = []; world_ctx = 0; cell_ctx = 0 }

module _ {F : Type 0} (index : ℕ) where
  -- The world of a group of a world's children, the cell of one of a cell's.
  unfoldable pub enter_group : ℕ → ℕ → Progress F → Progress F
  enter_group group_type label p =
      if group_type == 1
      then record p { world_ctx = remap index label }
      else if group_type == 6 || group_type == 8 || group_type == 10
      then record p { cell_ctx = remap index label }
      else p

  -- The header of a group: where the group ends, where its contents start, and whose they are.
  unfoldable pub group_header : Bytes → ℕ → Progress F → Result (ℕ × (ℕ × Progress F))
  group_header bytes start p = do
    (size, at_label) ← ok_or truncated_group_header (read_u32 bytes (skip bytes start 4))
    (label, at_type) ← ok_or truncated_group_header (read_u32 bytes at_label)
    let (group_type, at_rest) = read_u32_or bytes at_type
    _ ← ensure (not (ltb size 24)) invalid_group_size
    _ ← ensure (not (ltb (length bytes) (start + size))) group_overruns
    ok (start + size, (skip bytes at_rest 8, enter_group group_type label p))

module _ {F : Type 0} (m : Formats F) (index : ℕ) where
  unfoldable pub inflated : Bytes → ℕ → Progress F → Option Bytes → Progress F
  inflated rec_type form_id p none = record p {
    stats = record p.stats { skipped_compressed = p.stats.skipped_compressed + 1 };
  }
  inflated rec_type form_id p (some body) =
      import_record m index rec_type form_id (parse_subrecords body) p

  -- The body of a record: compressed behind four bytes of its size, if the flag says so.
  unfoldable pub import_body : Bytes → ℕ → ℕ → Bytes → Progress F → Result (Progress F)
  unfolding inflated
  import_body rec_type form_id flags body p =
      if bit_and flags 0x00040000 == 0
      then ok (import_record m index rec_type form_id (parse_subrecords body) p)
      else if ltb (length body) 4
      then err truncated_body
      else ok (inflated rec_type form_id p (m.inflate (drop 4 body)))

  unfoldable pub parse_record : Bytes → ℕ → Progress F → Result (ℕ × Progress F)
  parse_record bytes at p = do
    (rec_type, at_size) ← ok_or truncated_record_type (read bytes at 4)
    (size, at_flags) ← ok_or truncated_record (read_u32 bytes at_size)
    let (flags, at_id) = read_u32_or bytes at_flags
    let (form_id, at_rest) = read_u32_or bytes at_id
    (body, next) ← ok_or record_overruns (read bytes (skip bytes at_rest 8) size)
    q ← import_body rec_type (remap index form_id) flags body p
    ok (next, q)

  -- A group, the loop over its contents up to `end`, and the loop over the file.
  unfoldable mutual
    pub parse_group : ℕ → Bytes → ℕ → Progress F → Result (ℕ × Progress F)
    parse_group zero bytes start p = err out_of_fuel
    parse_group (suc fuel) bytes start p =
        group_header index bytes start p >>= λ h. walk_group fuel bytes h.0 h.1.0 h.1.1

    pub walk_group : ℕ → Bytes → (end at : ℕ) → Progress F → Result (ℕ × Progress F)
    walk_group zero bytes end at p = err out_of_fuel
    walk_group (suc fuel) bytes end at p =
        let nested = parse_group fuel bytes at p in
        let rest : ℕ × Progress F → Result (ℕ × Progress F) =
          λ r. walk_group fuel bytes end r.0 r.1 in
        if not (ltb at end)
        then ok (end, p)
        else if next_is grup bytes at
        then nested >>= rest
        else if is_some (peek_4cc bytes at)
        then parse_record bytes at p >>= rest
        else ok (end, p)

  unfoldable pub walk_file : ℕ → Bytes → ℕ → Progress F → Result (Progress F)
  walk_file zero bytes at p = err out_of_fuel
  walk_file (suc fuel) bytes at p =
      let rest : ℕ × Progress F → Result (Progress F) = λ r. walk_file fuel bytes r.0 r.1 in
      if leb (length bytes) at
      then ok p
      else if next_is grup bytes at
      then parse_group fuel bytes at p >>= rest
      else err expected_group

  -- The counts, and the inserts that were committed, in their order, with those of the plugin. Whether
  -- the database lets the transaction begin and commit is its own affair.
  unfoldable pub import_plugin_bytes_at :
      (begins commits : Bool)
      → Bytes
      → (inserts : List (Row F)) → Result EsmImportStats × List (Row F)
  unfolding walk_file committed
  import_plugin_bytes_at begins commits bytes inserts =
      if begins
      then committed commits inserts
          (walk_file (enough_fuel bytes) bytes (after_header bytes) nothing_done)
      else (err begin_failed, inserts)
