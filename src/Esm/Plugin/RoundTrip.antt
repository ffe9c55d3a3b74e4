-- ===== src/Esm/Plugin/RoundTrip.antt =====
-- crates/ashfall-server/src/db/esm_import.rs reads a plugin file as the tree that was laid out in it.
use ashfall.Prelude.{
  ℕ, zero, suc, ◌+◌, ◌*◌, ◌≤◌, ◌<◌, ◌≡◌, refl, subst, inl, inr, true, false, Bool-cases,
  nat_beq_iff, ◌==◌, ◌||◌, some, List, [], ◌++◌, arith, ltb, leb, nat_eq, bytes_eq, length,
  length-append, append_assoc, append-nil, to_le_bytes4, All,
}
use ashfall.Map.{is_some}
use ashfall.Reliable.{Bytes}
use ashfall.Esm.{Formats, Subrecord, peek_4cc, skip, read_u32_or}
use ashfall.Esm.Rows.{Row, Progress, remap, import_record}
use ashfall.Esm.Import.{
  ok, grup, tes4, next_is, inflated, import_body, parse_record, enter_group, group_header,
  parse_group, walk_group, walk_file, after_header, nothing_done, enough_fuel,
  import_plugin_bytes_at,
}
use ashfall.Esm.Plugin.{
  Header, a_record, a_group, Nodes, nil, cons, ty_of, encode_record, encode_group, encode,
  encode_all, IsSubrecord, Holds, IsHeader, IsNode, AreNodes, within, take_in, take_in_all,
  AreGroups, encode_plugin,
}
use ashfall.Esm.Plugin.Subrecords.{parse_subrecords-encode}
use ashfall.Esm.Plugin.Reads.{At, At-next, read_at, read_u32_at, read_u32_or_at, skip_at, peek_at}

long_enough : (body : Bytes) → 4 ≤ length body → ltb (length body) 4 ≡ false
long_enough body h = ground arith

long_group : (size : ℕ) → 24 ≤ size → ltb size 24 ≡ false
long_group size h = ground arith

inside_file :
    (bytes : Bytes) (at size : ℕ)
    → at + size ≤ length bytes
    → ltb (length bytes) (at + size) ≡ false
inside_file bytes at size h = ground arith

at_end : (at end : ℕ) → end ≤ at → ltb at end ≡ false
at_end at end h = ground arith

not_at_end : (at end : ℕ) → at < end → ltb at end ≡ true
not_at_end at end h = ground arith

At-assoc :
    {bytes : Bytes} {at : ℕ} (xs ys zs : Bytes)
    → At bytes at ((xs ++ ys) ++ zs)
    → At bytes at (xs ++ (ys ++ zs))
At-assoc {bytes} {at} xs ys zs here = subst (At bytes at) (append_assoc xs ys zs) here

behind_file : (bytes : Bytes) (at : ℕ) → length bytes ≤ at → leb (length bytes) at ≡ true
behind_file bytes at h = ground arith

in_file : (bytes : Bytes) (at : ℕ) → at < length bytes → leb (length bytes) at ≡ false
in_file bytes at h = ground arith

module _ {F : Type 0} (m : Formats F) (index : ℕ) where
  import_body-Holds :
      (ty : Bytes) (form_id flags : ℕ) (body : Bytes) (subs : List Subrecord) (p : Progress F)
      → Holds m flags body subs
      → All IsSubrecord subs
      → import_body m index ty form_id flags body p ≡ ok (import_record m index ty form_id subs p)
  unfolding import_body inflated
  import_body-Holds ty form_id flags body subs p (inl (plain, same)) valid =
      rw (plain, same, parse_subrecords-encode subs valid) refl
  import_body-Holds ty form_id flags body subs p (inr (packed, (long, same))) valid =
      rw (packed, long_enough body long, same, parse_subrecords-encode subs valid) refl

  module _ {bytes : Bytes} {at : ℕ} (h : Header) (body rest : Bytes) (subs : List Subrecord) where
    -- A record that is there is imported, and the reader stands behind it.
    parse_record_at :
        (p : Progress F)
        → IsHeader m h
        → length body < 4294967296
        → All IsSubrecord subs
        → Holds m h.flags body subs
        → At bytes at (encode_record h body ++ rest)
        → parse_record m index bytes at p
          ≡ ok (
            at + (24 + length body),
            import_record m index (ty_of h) (remap index h.form_id) subs p,
          )
    unfolding parse_record encode_record
    parse_record_at p ok_h small valid holds here =
        let at4 = At-next (ty_of h) _ here (at + 4) refl in
        let at8 = At-next (to_le_bytes4 (length body)) _ at4 (at + 8) (omega arith) in
        let at12 = At-next (to_le_bytes4 h.flags) _ at8 (at + 12) (omega arith) in
        let at16 = At-next (to_le_bytes4 h.form_id) _ at12 (at + 16) (omega arith) in
        let at24 =
          At-next (to_le_bytes4 h.stamp ++ to_le_bytes4 h.version) _ at16 (at + 24) (omega arith) in
        rw
          (
            read_at (ty_of h) _ here 4 (at + 4) refl refl,
            read_u32_at (length body) _ small at4 (at + 8) (omega arith),
            read_u32_or_at h.flags _ ok_h.1.0 at8 (at + 12) (omega arith),
            read_u32_or_at h.form_id _ ok_h.1.1 at12 (at + 16) (omega arith),
            skip_at (to_le_bytes4 h.stamp ++ to_le_bytes4 h.version) _ at16 8 (at + 24) refl
                (omega arith),
            read_at body rest at24 (length body) (at + (24 + length body)) refl (omega arith),
            import_body-Holds (ty_of h) (remap index h.form_id) h.flags body subs p holds valid,
          )
          refl

  enter_group-within :
      (group_type label : ℕ) (p : Progress F)
      → enter_group index group_type label p ≡ within index group_type label p
  unfolding enter_group within
  enter_group-within group_type label p = elim (Bool-cases (group_type == 1)) [
    | inl e ↦ rw ((nat_beq_iff group_type 1).0 e) refl
    | inr e ↦ elim (Bool-cases (group_type == 6 || group_type == 8 || group_type == 10)) [
      | inl c ↦ rw (e, c) refl
      | inr c ↦ rw (e, c) refl
    ]
  ]

  -- The header of a group that is there and ends within the file.
  group_header_at :
      {bytes : Bytes} {at : ℕ} (size label group_type stamp version : ℕ) (contents rest : Bytes)
      (p : Progress F)
      → 24 ≤ size
      → size ≤ 24 + length contents
      → size < 4294967296
      → label < 4294967296
      → group_type < 4294967296
      → At bytes at (encode_group size label group_type stamp version contents ++ rest)
      → group_header index bytes at p ≡ ok (at + size, (at + 24, within index group_type label p))
  unfolding group_header encode_group
  group_header_at {bytes} {at} size label group_type stamp version contents rest p long inside small
        small_label small_type here =
      let at4 = At-next grup _ here (at + 4) refl in
      let at8 = At-next (to_le_bytes4 size) _ at4 (at + 8) (omega arith) in
      let at12 = At-next (to_le_bytes4 label) _ at8 (at + 12) (omega arith) in
      let at16 = At-next (to_le_bytes4 group_type) _ at12 (at + 16) (omega arith) in
      rw
        (
          skip_at grup _ here 4 (at + 4) refl refl,
          read_u32_at size _ small at4 (at + 8) (omega arith),
          read_u32_at label _ small_label at8 (at + 12) (omega arith),
          read_u32_or_at group_type _ small_type at12 (at + 16) (omega arith),
          long_group size long,
          inside_file bytes at size (omega (arith, at16.size, length-append contents rest)),
          skip_at (to_le_bytes4 stamp ++ to_le_bytes4 version) _ at16 8 (at + 24) refl
              (omega arith),
          enter_group-within group_type label p,
        )
        refl

  group_is :
      {bytes : Bytes} {at : ℕ} (size label group_type stamp version : ℕ) (contents rest : Bytes)
      → At bytes at (encode_group size label group_type stamp version contents ++ rest)
      → next_is grup bytes at ≡ true
  unfolding next_is encode_group
  group_is size label group_type stamp version contents rest here =
      rw (peek_at grup _ here refl, next_is) refl

  record_is :
      {bytes : Bytes} {at : ℕ} (h : Header) (body rest : Bytes)
      → IsHeader m h
      → At bytes at (encode_record h body ++ rest)
      → (next_is grup bytes at ≡ false) × (is_some (peek_4cc bytes at) ≡ true)
  unfolding next_is encode_record
  record_is h body rest ok_h here =
      (rw (peek_at (ty_of h) _ here refl, next_is) ok_h.0, rw (peek_at (ty_of h) _ here refl) refl)

  encode_record-length :
      (h : Header) (body : Bytes) → length (encode_record h body) ≡ 24 + length body
  unfolding encode_record
  encode_record-length h body = omega arith

  encode_group-length :
      (size label group_type stamp version : ℕ) (contents : Bytes)
      → length (encode_group size label group_type stamp version contents) ≡ 24 + length contents
  unfolding encode_group
  encode_group-length size label group_type stamp version contents = omega arith

  -- The contents of an encoded group lie behind its header.
  contents_at :
      {bytes : Bytes} {at : ℕ} (size label group_type stamp version : ℕ) (contents rest : Bytes)
      → At bytes at (encode_group size label group_type stamp version contents ++ rest)
      → At bytes (at + 24) (contents ++ rest)
  unfolding encode_group
  contents_at {bytes} {at} size label group_type stamp version contents rest here =
      At-next
        (grup
          ++ (to_le_bytes4 size
              ++ (to_le_bytes4 label
                  ++ (to_le_bytes4 group_type ++ (to_le_bytes4 stamp ++ to_le_bytes4 version)))))
        _ here (at + 24) refl

  mutual
    unfolding parse_group encode take_in IsNode

    parse_group_at :
        (fuel : ℕ) (bytes : Bytes) (at : ℕ) (group_type label stamp version : ℕ) (nodes : Nodes)
        (rest : Bytes) (p : Progress F)
        → IsNode m (a_group group_type label stamp version nodes)
        → 2 * (24 + length (encode_all nodes)) ≤ fuel
        → At bytes at (encode (a_group group_type label stamp version nodes) ++ rest)
        → parse_group m index fuel bytes at p
          ≡ ok (
            at + (24 + length (encode_all nodes)),
            take_in m index (a_group group_type label stamp version nodes) p,
          )
    parse_group_at zero bytes at group_type label stamp version nodes rest p valid enough here =
        absurd (omega arith)
    parse_group_at (suc fuel) bytes at group_type label stamp version nodes rest p valid enough
          here =
        rw
          (group_header_at (24 + length (encode_all nodes)) label group_type stamp version
            (encode_all nodes) rest p (omega arith) (omega arith) valid.0 valid.1.1.0 valid.1.0
            here)
          (walk_group_at fuel bytes (at + (24 + length (encode_all nodes))) (at + 24) nodes rest
            (within index group_type label p) valid.1.1.1 (omega arith)
            (contents_at (24 + length (encode_all nodes)) label group_type stamp version
              (encode_all nodes) rest here)
            (omega arith))

    walk_group_at :
        (fuel : ℕ) (bytes : Bytes) (end at : ℕ) (nodes : Nodes) (rest : Bytes) (p : Progress F)
        → AreNodes m nodes
        → 2 * length (encode_all nodes) + 1 ≤ fuel
        → At bytes at (encode_all nodes ++ rest)
        → end ≡ at + length (encode_all nodes)
        → walk_group m index fuel bytes end at p ≡ ok (end, take_in_all m index nodes p)
    walk_group_at zero bytes end at nodes rest p valid enough here e = absurd (omega arith)
    walk_group_at (suc fuel) bytes end at nil rest p valid enough here e =
        rw (at_end at end (omega arith)) refl
    walk_group_at (suc fuel) bytes end at (cons (a_record h body subs) nodes) rest p valid enough
          here e =
        let here_record = At-assoc (encode_record h body) (encode_all nodes) rest here in
        let size = length-append (encode_record h body) (encode_all nodes) in
        let is = record_is h body (encode_all nodes ++ rest) valid.0.0 here_record in
        rw
          (
            not_at_end at end (omega (arith, size, encode_record-length h body)),
            is.0,
            is.1,
            parse_record_at h body (encode_all nodes ++ rest) subs p valid.0.0 valid.0.1.0
                valid.0.1.1.0 valid.0.1.1.1 here_record,
          )
          (walk_group_at fuel bytes end (at + (24 + length body)) nodes rest _ valid.1
            (omega (arith, size, encode_record-length h body))
            (At-next (encode_record h body) (encode_all nodes ++ rest) here_record
              (at + (24 + length body)) (omega (arith, encode_record-length h body)))
            (omega (arith, size, encode_record-length h body)))
    walk_group_at (suc fuel) bytes end at
          (cons (a_group group_type label stamp version inner) nodes) rest p valid enough here e =
        let group = encode (a_group group_type label stamp version inner) in
        let here_group = At-assoc group (encode_all nodes) rest here in
        let total = 24 + length (encode_all inner) in
        let size = length-append group (encode_all nodes) in
        let own = encode_group-length total label group_type stamp version (encode_all inner) in
        rw
          (
            not_at_end at end (omega (arith, size, own)),
            group_is total label group_type stamp version (encode_all inner)
                (encode_all nodes ++ rest) here_group,
            parse_group_at fuel bytes at group_type label stamp version inner
                (encode_all nodes ++ rest) p valid.0 (omega (arith, size, own)) here_group,
          )
          (walk_group_at fuel bytes end (at + total) nodes rest _ valid.1 (omega (arith, size, own))
            (At-next group (encode_all nodes ++ rest) here_group (at + total) (omega (arith, own)))
            (omega (arith, size, own)))

  walk_file_at :
      (fuel : ℕ) (bytes : Bytes) (at : ℕ) (nodes : Nodes) (p : Progress F)
      → AreNodes m nodes
      → AreGroups nodes
      → 2 * length (encode_all nodes) + 1 ≤ fuel
      → At bytes at (encode_all nodes ++ [])
      → walk_file m index fuel bytes at p ≡ ok (take_in_all m index nodes p)
  unfolding walk_file encode take_in IsNode
  walk_file_at zero bytes at nodes p valid groups enough here = absurd (omega arith)
  walk_file_at (suc fuel) bytes at nil p valid groups enough here =
      rw (behind_file bytes at (omega (arith, here.size))) refl
  walk_file_at (suc fuel) bytes at (cons (a_record h body subs) nodes) p valid groups enough here =
      absurd groups
  walk_file_at (suc fuel) bytes at (cons (a_group group_type label stamp version inner) nodes) p
        valid groups enough here =
      let group = encode (a_group group_type label stamp version inner) in
      let here_group = At-assoc group (encode_all nodes) [] here in
      let total = 24 + length (encode_all inner) in
      let size = length-append group (encode_all nodes) in
      let own = encode_group-length total label group_type stamp version (encode_all inner) in
      rw
        (
          in_file bytes at
              (omega (arith, here_group.size, length-append group (encode_all nodes ++ []), own)),
          group_is total label group_type stamp version (encode_all inner) (encode_all nodes ++ [])
              here_group,
          parse_group_at fuel bytes at group_type label stamp version inner (encode_all nodes ++ [])
              p valid.0 (omega (arith, size, own)) here_group,
        )
        (walk_file_at fuel bytes (at + total) nodes _ valid.1 groups (omega (arith, size, own))
          (At-next group (encode_all nodes ++ []) here_group (at + total) (omega (arith, own))))

after_header_reads :
    (bytes : Bytes) (n : ℕ)
    → next_is tes4 bytes 0 ≡ true
    → skip bytes 0 4 ≡ 4
    → read_u32_or bytes 4 ≡ (n, 8)
    → skip bytes 8 16 ≡ 24
    → skip bytes 24 n ≡ 24 + n
    → after_header bytes ≡ 24 + n
unfolding after_header
after_header_reads bytes n is s4 size s24 s = rw (is, s4, size, s24) s

is_tes4 : (bytes : Bytes) → peek_4cc bytes 0 ≡ some tes4 → next_is tes4 bytes 0 ≡ true
unfolding next_is
is_tes4 bytes h = rw (h, next_is) refl

module _ (flags form_id stamp version : ℕ) (body : Bytes) (groups : Nodes)
    (small : length body < 4294967296) where
  abbrev file : Bytes
  file = encode_plugin flags form_id stamp version body groups

  start : At file 0 file
  start = record { behind = refl; size = omega arith }

  -- The header record is passed over.
  after_header_at :
      (after_header file ≡ 24 + length body) × At file (24 + length body) (encode_all groups ++ [])
  unfolding encode_plugin
  after_header_at =
      let at4 = At-next tes4 _ start 4 refl in
      let at8 = At-next (to_le_bytes4 (length body)) _ at4 8 refl in
      let at24 =
        At-next
          (to_le_bytes4 flags
            ++ (to_le_bytes4 form_id ++ (to_le_bytes4 stamp ++ to_le_bytes4 version)))
          _ at8 24 refl in
      (
        after_header_reads file (length body) (is_tes4 file (peek_at tes4 _ start refl))
            (skip_at tes4 _ start 4 4 refl refl) (read_u32_or_at (length body) _ small at4 8 refl)
            (skip_at
              (to_le_bytes4 flags
                ++ (to_le_bytes4 form_id ++ (to_le_bytes4 stamp ++ to_le_bytes4 version)))
              _ at8 16 24 refl refl)
            (skip_at body (encode_all groups) at24 (length body) (24 + length body) refl refl),
        rw append-nil (At-next body (encode_all groups) at24 (24 + length body) refl),
      )

module _ {F : Type 0} (m : Formats F) (index : ℕ) where
  -- A plugin file that is laid out as a tree of groups is imported as that tree, where the database lets
  -- the transaction begin and commit: the inserts and the counts of each record once, in the order of the
  -- file, in the world of the last group of a world's children (type 1) before it and the cell of the last
  -- one of a cell's (types 6, 8 and 10).
  pub import_plugin_bytes_at-encode_plugin :
      (flags form_id stamp version : ℕ) (body : Bytes) (groups : Nodes) (db : List (Row F))
      → length body < 4294967296
      → AreGroups groups
      → AreNodes m groups
      → import_plugin_bytes_at m index true true
          (encode_plugin flags form_id stamp version body groups)
          db
        ≡ (
          ok (take_in_all m index groups nothing_done).stats,
          db ++ (take_in_all m index groups nothing_done).rows,
        )
  unfolding import_plugin_bytes_at
  import_plugin_bytes_at-encode_plugin flags form_id stamp version body groups db small tops valid =
      let (header, here) = after_header_at flags form_id stamp version body groups small in
      rw
        (
          header,
          walk_file_at m index (enough_fuel (encode_plugin flags form_id stamp version body groups))
              _ (24 + length body) groups nothing_done valid tops
              (omega (arith, here.size, length-append (encode_all groups) [])) here,
        )
        refl
