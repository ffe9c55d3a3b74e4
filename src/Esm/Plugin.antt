-- ===== src/Esm/Plugin.antt =====
-- A plugin file as a tree of groups and records: the layout that the readers of
-- crates/ashfall-server/src/db/esm_import.rs (and the builders in its tests) go by.
pub mod Reads
pub mod Subrecords
pub mod RoundTrip
use ashfall.Prelude.{
  ℕ, ◌||◌, if◌then◌else◌, ◌+◌, ◌*◌, ◌/◌, ◌%◌, ◌≤◌, ◌<◌, ◌≡◌, ◌⊎◌, Bool, true, false, Option, some,
  List, [], ◌∷◌, ◌++◌, ◌==◌, nat_eq, bytes_eq, length, drop, bit_and, to_le_bytes, to_le_bytes4,
  All,
}
use ashfall.Reliable.{Bytes}
use ashfall.Esm.{Formats, Subrecord}
use ashfall.Esm.Rows.{Progress, remap, import_record}
use ashfall.Esm.Import.{grup, tes4}

unfoldable pub encode_subrecords : List Subrecord → Bytes
encode_subrecords [] = []
encode_subrecords (s ∷ subs) =
    s.ty ++ (to_le_bytes (length s.bytes) ++ (s.bytes ++ encode_subrecords subs))

-- The type of a record, its flags and form id, and the two words behind them.
pub record Header : Type 0 where
  pub a : ℕ
  pub b : ℕ
  pub c : ℕ
  pub d : ℕ
  pub flags : ℕ
  pub form_id : ℕ
  pub stamp : ℕ
  pub version : ℕ

mutual
  pub data Node : Type 0 where
    -- A record with its body and the subrecords that the body stands for.
    a_record : Header → Bytes → List Subrecord → Node
    a_group : (group_type label stamp version : ℕ) → Nodes → Node

  pub data Nodes : Type 0 where
    nil : Nodes
    cons : Node → Nodes → Nodes

abbrev pub ty_of : Header → Bytes
ty_of h = h.a ∷ h.b ∷ h.c ∷ h.d ∷ []

pub encode_record : Header → Bytes → Bytes
encode_record h body =
    ty_of h
    ++ (to_le_bytes4 (length body)
        ++ (to_le_bytes4 h.flags
            ++ (to_le_bytes4 h.form_id
                ++ (to_le_bytes4 h.stamp ++ (to_le_bytes4 h.version ++ body)))))

-- A group that takes `size` bytes, its header included.
pub encode_group : (size label group_type stamp version : ℕ) → Bytes → Bytes
encode_group size label group_type stamp version contents =
    grup
    ++ (to_le_bytes4 size
        ++ (to_le_bytes4 label
            ++ (to_le_bytes4 group_type
                ++ (to_le_bytes4 stamp ++ (to_le_bytes4 version ++ contents)))))

unfoldable mutual
  unfolding encode_record encode_group

  pub encode : Node → Bytes
  encode (a_record h body subs) = encode_record h body
  encode (a_group group_type label stamp version nodes) =
      encode_group (24 + length (encode_all nodes)) label group_type stamp version
        (encode_all nodes)

  pub encode_all : Nodes → Bytes
  encode_all nil = []
  encode_all (cons n nodes) = encode n ++ encode_all nodes

-- The record in front of the groups: its flags, form id and two more words, and its body.
unfoldable pub encode_plugin : (flags form_id stamp version : ℕ) → Bytes → Nodes → Bytes
encode_plugin flags form_id stamp version body groups =
    tes4
    ++ (to_le_bytes4 (length body)
        ++ (to_le_bytes4 flags
            ++ (to_le_bytes4 form_id
                ++ (to_le_bytes4 stamp ++ (to_le_bytes4 version ++ (body ++ encode_all groups))))))

-- There are only groups at the top of a file.
abbrev pub AreGroups : Nodes → Type 0
AreGroups nil = Unit {0}
AreGroups (cons (a_record h body subs) nodes) = ⊥
AreGroups (cons (a_group group_type label stamp version inner) nodes) = AreGroups nodes

abbrev pub IsSubrecord : Subrecord → Type 0
IsSubrecord s = (length s.ty ≡ 4) × (length s.bytes < 65536)

module _ {F : Type 0} where
  -- In a group of a world's children (type 1), that world; in one of a cell's children (types 6, 8 and
  -- 10), that cell; each by its label.
  unfoldable pub within : (index group_type label : ℕ) → Progress F → Progress F
  within index group_type label p = record p {
    world_ctx = if group_type == 1 then remap index label else p.world_ctx;
    cell_ctx =
        if group_type == 6 || group_type == 8 || group_type == 10
        then remap index label
        else p.cell_ctx;
  }

module _ {F : Type 0} (m : Formats F) where
  -- A body stands for subrecords as it is, or compressed behind its size.
  abbrev pub Holds : ℕ → Bytes → List Subrecord → Type 0
  Holds flags body subs =
      ((bit_and flags 0x00040000 ≡ 0) × (body ≡ encode_subrecords subs))
      ⊎ (((bit_and flags 0x00040000 == 0) ≡ false)
          × ((4 ≤ length body) × (m.inflate (drop 4 body) ≡ some (encode_subrecords subs))))

  abbrev pub IsHeader : Header → Type 0
  IsHeader h = ((ty_of h == grup) ≡ false) × ((h.flags < 4294967296) × (h.form_id < 4294967296))

  unfoldable mutual
    pub IsNode : Node → Type 0
    IsNode (a_record h body subs) =
        IsHeader h × ((length body < 4294967296) × (All IsSubrecord subs × Holds h.flags body subs))
    IsNode (a_group group_type label stamp version nodes) =
        (24 + length (encode_all nodes) < 4294967296)
        × ((group_type < 4294967296) × ((label < 4294967296) × AreNodes nodes))

    pub AreNodes : Nodes → Type 0
    AreNodes nil = Unit {0}
    AreNodes (cons n nodes) = IsNode n × AreNodes nodes

  -- What an import makes of a tree: each record once, in the order of the file, in the world and the cell
  -- of the last group before it that set them.
  unfoldable mutual
    pub take_in : ℕ → Node → Progress F → Progress F
    take_in index (a_record h body subs) p =
        import_record m index (ty_of h) (remap index h.form_id) subs p
    take_in index (a_group group_type label stamp version nodes) p =
        take_in_all index nodes (within index group_type label p)

    pub take_in_all : ℕ → Nodes → Progress F → Progress F
    take_in_all index nil p = p
    take_in_all index (cons n nodes) p = take_in_all index nodes (take_in index n p)
