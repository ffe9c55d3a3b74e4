-- ===== src/Esm/Import/Termination.antt =====
-- The walk of crates/ashfall-server/src/db/esm_import.rs over a plugin file ends, whatever the bytes are.
use ashfall.Prelude.{
  ℕ, zero, suc, ◌+◌, ◌*◌, ◌-◌, ◌≤◌, ◌≡◌, ◌≢◌, ◌⊎◌, refl, inl, inr, Bool, true, false, Bool-cases,
  List, ◌++◌, arith, ltb, leb, length,
}
use ashfall.Map.{is_some}
use ashfall.Reliable.{Bytes}
use ashfall.Esm.{Formats, peek_4cc}
use ashfall.Esm.Rows.{Row, EsmImportStats, Progress}
use ashfall.Esm.Rows.Counts.{IsCounted, total}
use ashfall.Esm.Import.{
  Failure, begin_failed, commit_failed, out_of_fuel, Result, ok, err, grup, next_is, parse_record,
  group_header, parse_group, walk_group, walk_file, after_header, nothing_done, enough_fuel,
  committed, import_plugin_bytes_at,
}
use ashfall.Esm.Import.Advance.{
  Ensures, Ensures_mono, >>=-Ensures, parse_record-Ensures, group_header-Ensures,
}

-- Four bytes that can be looked at are within the file.
peek_4cc-le : (bytes : Bytes) (at : ℕ) → is_some (peek_4cc bytes at) ≡ true → at + 4 ≤ length bytes
unfolding peek_4cc
peek_4cc-le bytes at h = ground arith

next_is-le : (ty bytes : Bytes) (at : ℕ) → next_is ty bytes at ≡ true → at + 4 ≤ length bytes
unfolding next_is peek_4cc
next_is-le ty bytes at h = ground arith

begun : {A B : Type 0} → A ⊎ B → ((true ≡ true) × A) ⊎ B
begun (inl a) = inl (refl, a)
begun (inr b) = inr b

module _ {F : Type 0} (m : Formats F) (index : ℕ) where
  -- Each step of the two loops is taken further on in the file, and each level of groups too.
  mutual
    unfolding parse_group

    parse_group-Ensures :
        (fuel : ℕ) (bytes : Bytes) (start : ℕ) (p : Progress F)
        → 2 * (length bytes - start) + 1 ≤ fuel
        → IsCounted p
        → Ensures
            (parse_group m index fuel bytes start p)
            (λ (r : ℕ × Progress F). (start + 24 ≤ r.0) × IsCounted r.1)
    parse_group-Ensures zero bytes start p h c = absurd (omega arith)
    parse_group-Ensures (suc fuel) bytes start p h c =
        >>=-Ensures (group_header index bytes start p) _ _ _
          (group_header-Ensures index bytes start p c)
          λ g hg.
            Ensures_mono (walk_group m index fuel bytes g.0 g.1.0 g.1.1)
              (λ (r : ℕ × Progress F). (r.0 ≡ g.0) × IsCounted r.1) _
              (walk_group-Ensures fuel bytes g.0 g.1.0 g.1.1 (omega arith) hg.1.1.1)
              λ r ends. (omega arith, ends.1)

    walk_group-Ensures :
        (fuel : ℕ) (bytes : Bytes) (end at : ℕ) (p : Progress F)
        → 2 * (length bytes - at) + 2 ≤ fuel
        → IsCounted p
        → Ensures
            (walk_group m index fuel bytes end at p)
            (λ (r : ℕ × Progress F). (r.0 ≡ end) × IsCounted r.1)
    walk_group-Ensures zero bytes end at p h c = absurd (omega arith)
    walk_group-Ensures (suc fuel) bytes end at p h c = elim (Bool-cases (ltb at end)) [
      | inr past ↦ rw past (refl, c)
      | inl inside ↦ elim (Bool-cases (next_is grup bytes at)) [
        | inl group ↦
            rw (inside, group)
              (>>=-Ensures (parse_group m index fuel bytes at p) _
                (λ (r : ℕ × Progress F). (at + 24 ≤ r.0) × IsCounted r.1) _
                (parse_group-Ensures fuel bytes at p (omega arith) c)
                λ r further.
                  walk_group-Ensures fuel bytes end r.0 r.1
                    (omega (arith, next_is-le grup bytes at group)) further.1)
        | inr other ↦ elim (Bool-cases (is_some (peek_4cc bytes at))) [
          | inl more ↦
              rw (inside, other, more)
                (>>=-Ensures (parse_record m index bytes at p) _ _ _
                  (parse_record-Ensures m index bytes at p c)
                  λ r further.
                    walk_group-Ensures fuel bytes end r.0 r.1
                      (omega (arith, peek_4cc-le bytes at more)) further.1)
          | inr done ↦ rw (inside, other, done) (refl, c)
        ]
      ]
    ]

  walk_file-Ensures :
      (fuel : ℕ) (bytes : Bytes) (at : ℕ) (p : Progress F)
      → 2 * (length bytes - at) + 3 ≤ fuel
      → IsCounted p
      → Ensures (walk_file m index fuel bytes at p) IsCounted
  unfolding walk_file
  walk_file-Ensures zero bytes at p h c = absurd (omega arith)
  walk_file-Ensures (suc fuel) bytes at p h c = elim (Bool-cases (leb (length bytes) at)) [
    | inl end ↦ rw end c
    | inr more ↦ elim (Bool-cases (next_is grup bytes at)) [
      | inl group ↦
          rw (more, group)
            (>>=-Ensures (parse_group m index fuel bytes at p) _
              (λ (r : ℕ × Progress F). (at + 24 ≤ r.0) × IsCounted r.1) _
              (parse_group-Ensures fuel bytes at p (omega arith) c)
              λ r further.
                walk_file-Ensures fuel bytes r.0 r.1 (omega (arith, next_is-le grup bytes at group))
                  further.1)
      | inr other ↦ rw (more, other) (λ h. cc)
    ]
  ]

  settled :
      (commits : Bool) (inserts : List (Row F)) (r : Result (Progress F))
      → Ensures r IsCounted
      → ((commits ≡ true)
          × ((stats : EsmImportStats) × ((rows : List (Row F)) × ((committed commits inserts r
                    ≡ (ok stats, inserts ++ rows))
                  × (length rows ≡ total stats)))))
        ⊎ ((e : Failure) × ((committed commits inserts r ≡ (err e, inserts)) × (e ≢ out_of_fuel)))
  unfolding committed
  settled true inserts (ok p) h = inl (refl, (p.stats, (p.rows, (refl, h.rows_counted))))
  settled false inserts (ok p) h = inr (commit_failed, (refl, λ h. cc))
  settled true inserts (err e) h = inr (e, (refl, h))
  settled false inserts (err e) h = inr (e, (refl, h))

  -- Every import ends, whatever the file is and whether or not the database lets its transaction begin
  -- and commit: either both were let, and it commits just as many inserts as it reports, behind those
  -- that were there; or it fails, and what was committed before stays. It never runs out of fuel.
  pub import_plugin_bytes_at-total :
      (begins commits : Bool) (bytes : Bytes) (inserts : List (Row F))
      → ((begins ≡ true)
          × ((commits ≡ true)
              × ((stats : EsmImportStats) × ((rows : List (Row F)) × ((import_plugin_bytes_at m
                          index begins commits bytes inserts
                        ≡ (ok stats, inserts ++ rows))
                      × (length rows ≡ total stats))))))
        ⊎ ((e : Failure) × ((import_plugin_bytes_at m index begins commits bytes inserts
                ≡ (err e, inserts))
              × (e ≢ out_of_fuel)))
  unfolding import_plugin_bytes_at
  import_plugin_bytes_at-total false commits bytes inserts = inr (begin_failed, (refl, λ h. cc))
  import_plugin_bytes_at-total true commits bytes inserts = begun (
      settled commits inserts
        (walk_file m index (enough_fuel bytes) bytes (after_header bytes) nothing_done)
        (walk_file-Ensures (enough_fuel bytes) bytes (after_header bytes) nothing_done (omega arith)
          (record { rows_counted = refl })))
