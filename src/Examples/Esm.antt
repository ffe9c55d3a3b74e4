-- ===== src/Examples/Esm.antt =====
-- Runs of the import of a plugin file.
use ashfall.Prelude.{
  ℕ, ◌≡◌, ◌≢◌, ◌⊎◌, refl, inl, true, none, List, [], ◌∷◌, ◌++◌, arith, length, to_le_bytes4,
}
use ashfall.Reliable.{Bytes}
use ashfall.Esm.{
  Formats, Subrecord, parse_subrecords, full_name, peek_4cc, read, read_u32, read_u32_or, skip,
}
use ashfall.Esm.Rows.{Row, EsmImportStats, import_record, first_of}
use ashfall.Esm.Rows.Counts.{total}
use ashfall.Esm.Import.{
  Failure, out_of_fuel, ok, err, grup, nothing_done, after_header, walk_file, parse_group,
  group_header, enter_group, parse_record, import_body, next_is, import_plugin_bytes_at,
}
use ashfall.Esm.Import.Termination.{import_plugin_bytes_at-total}
use ashfall.Esm.Plugin.{
  Header, Nodes, nil, cons, a_record, a_group, encode, IsNode, encode_subrecords, encode_plugin,
  take_in_all, AreNodes,
}
use ashfall.Esm.Plugin.RoundTrip.{import_plugin_bytes_at-encode_plugin}

abbrev formats : Formats ℕ
formats = record {
  f32_of = λ a b c d. a;
  zero_f32 = 0;
  from_utf8_lossy = λ s. s;
  inflate = λ s. none;
}

-- A group of weapons with one weapon, whose name is a letter.
abbrev subs : List Subrecord
subs = record { ty = b'F' ∷ b'U' ∷ b'L' ∷ b'L' ∷ []; bytes = b'x' ∷ 0 ∷ [] } ∷ []

abbrev weapon : Header
weapon = record {
  a = b'W';
  b = b'E';
  c = b'A';
  d = b'P';
  flags = 0;
  form_id = 0x01000800;
  stamp = 0;
  version = 0;
}

abbrev body : Bytes
body = b'F' ∷ b'U' ∷ b'L' ∷ b'L' ∷ 2 ∷ 0 ∷ b'x' ∷ 0 ∷ []

abbrev groups : Nodes
groups = cons (a_group 1 5 0 0 (cons (a_record weapon body subs) nil)) nil

groups_valid : AreNodes formats groups
unfolding IsNode encode encode_subrecords
groups_valid = (
  (
    omega arith,
    (
      omega arith,
      (
        omega arith,
        (
          (
            (refl, (omega arith, omega arith)),
            (omega arith, (((refl, omega arith), tt), inl (refl, refl))),
          ),
          tt,
        ),
      ),
    ),
  ),
  tt,
)

import_plugin_bytes_at-encode_plugin_example :
    import_plugin_bytes_at formats 2 true true (encode_plugin 0 0 0 0 [] groups) [] ≡ (
      ok (take_in_all formats 2 groups nothing_done).stats,
      [] ++ (take_in_all formats 2 groups nothing_done).rows,
    )
import_plugin_bytes_at-encode_plugin_example =
    import_plugin_bytes_at-encode_plugin formats 2 0 0 0 0 [] groups [] (omega arith) tt
      groups_valid

import_plugin_bytes_at-total_example :
    ((true ≡ true)
      × ((true ≡ true)
          × ((stats : EsmImportStats) × ((rows : List (Row ℕ)) × ((import_plugin_bytes_at formats 0
                      true true grup []
                    ≡ (ok stats, [] ++ rows))
                  × (length rows ≡ total stats))))))
    ⊎ ((e : Failure) × ((import_plugin_bytes_at formats 0 true true grup [] ≡ (err e, []))
          × (e ≢ out_of_fuel)))
import_plugin_bytes_at-total_example = import_plugin_bytes_at-total formats 0 true true grup []

-- A group that runs past the end of the one it is in: its record is imported twice.
abbrev no_words : Bytes
no_words = 0 ∷ 0 ∷ 0 ∷ 0 ∷ 0 ∷ 0 ∷ 0 ∷ 0 ∷ 0 ∷ 0 ∷ 0 ∷ 0 ∷ 0 ∷ 0 ∷ 0 ∷ 0 ∷ []

abbrev overlapping : Bytes
overlapping =
    (grup ++ to_le_bytes4 48 ++ no_words)
    ++ (grup ++ to_le_bytes4 72 ++ no_words)
    ++ (grup ++ to_le_bytes4 48 ++ no_words)
    ++ (b'T' ∷ b'E' ∷ b'R' ∷ b'M' ∷ to_le_bytes4 0 ++ no_words)

imported_twice : length (import_plugin_bytes_at formats 0 true true overlapping []).1 ≡ 2
unfolding import_plugin_bytes_at after_header walk_file parse_group group_header enter_group
    parse_record import_body import_record first_of parse_subrecords full_name next_is peek_4cc read
    read_u32 read_u32_or skip
imported_twice = refl
