-- ===== src/Esm/Import/Advance.antt =====
-- How far the reader of crates/ashfall-server/src/db/esm_import.rs moves.
use ashfall.Prelude.{
  ℕ, ◌+◌, ◌≤◌, ◌≡◌, ◌≢◌, refl, inl, inr, Bool, true, false, not, Bool-cases, Option, none, some,
  Option-cases, [], ◌∷◌, arith, ltb, ◌==◌, nat_eq, length, drop, bit_and,
}
use ashfall.Reliable.{Bytes}
use ashfall.Esm.{
  Formats, parse_subrecords, read, skip, read_u32, read_u32_or, word_of, skip_to, or_zero_word,
}
use ashfall.Esm.Rows.{Progress, remap}
use ashfall.Esm.Rows.Counts.{IsCounted, import_record-IsCounted}
use ashfall.Esm.Import.{
  Failure, truncated_group_header, invalid_group_size, group_overruns, truncated_record_type,
  truncated_record, record_overruns, Result, ok, err, ◌>>=◌, ok_or, ensure, out_of_fuel,
  parse_record, import_body, inflated, enter_group, group_header,
}

-- What holds of a result: of its value, and that it did not run out of fuel.
abbrev pub Ensures : {A : Type 0} → Result A → (A → Type 0) → Type 0
Ensures (ok a) P = P a
Ensures (err e) P = e ≢ out_of_fuel

pub Ensures_mono :
    {A : Type 0} (m : Result A) (P Q : A → Type 0)
    → Ensures m P
    → ((a : A) → P a → Q a)
    → Ensures m Q
Ensures_mono (ok a) P Q h imp = imp a h
Ensures_mono (err e) P Q h imp = h

pub >>=-Ensures :
    {A B : Type 0} (m : Result A) (k : A → Result B) (P : A → Type 0) (Q : B → Type 0)
    → Ensures m P
    → ((a : A) → P a → Ensures (k a) Q)
    → Ensures (m >>= k) Q
>>=-Ensures (ok a) k P Q h next = next a h
>>=-Ensures (err e) k P Q h next = h

ok_or-Ensures :
    {A : Type 0} (e : Failure) (o : Option A) (P : A → Type 0)
    → e ≢ out_of_fuel
    → ((a : A) → o ≡ some a → P a)
    → Ensures (ok_or e o) P
ok_or-Ensures e none P ne h = ne
ok_or-Ensures e (some a) P ne h = h a refl

ensure-Ensures :
    (b : Bool) (e : Failure) → e ≢ out_of_fuel → Ensures (ensure b e) (λ (t : Unit {0}). b ≡ true)
ensure-Ensures true e ne = refl
ensure-Ensures false e ne = ne

pub read-le :
    (bytes : Bytes) (at n : ℕ) (r : Bytes × ℕ)
    → read bytes at n ≡ some r
    → (r.1 ≡ at + n) × (r.1 ≤ length bytes)
unfolding read
read-le bytes at n r h = ground arith

nothing : {r : ℕ × ℕ} → word_of none ≡ some r → ⊥
unfolding word_of
nothing h = cc

word-le :
    (bytes : Bytes) (next at len : ℕ) {r : ℕ × ℕ}
    → (next ≡ at + 4) × (next ≤ len)
    → word_of (some (bytes, next)) ≡ some r
    → (r.1 ≡ at + 4) × (r.1 ≤ len)
unfolding word_of
word-le [] next at len b h = cc
word-le (a ∷ []) next at len b h = cc
word-le (a ∷ c ∷ []) next at len b h = cc
word-le (a ∷ c ∷ d ∷ []) next at len b h = cc
word-le (a ∷ c ∷ d ∷ e ∷ bytes) next at len b h = ground arith

pub read_u32-le :
    (bytes : Bytes) (at : ℕ) (r : ℕ × ℕ)
    → read_u32 bytes at ≡ some r
    → (r.1 ≡ at + 4) × (r.1 ≤ length bytes)
unfolding read_u32 word_of
read_u32-le bytes at r h = elim (Option-cases (read bytes at 4)) [
  | inl e ↦ absurd (nothing (rw e at h))
  | inr (x, e) ↦ word-le x.0 x.1 at (length bytes) (read-le bytes at 4 x e) (rw e at h)
]

pub skip-le : (bytes : Bytes) (at n : ℕ) → at ≤ skip bytes at n
unfolding skip skip_to
skip-le bytes at n = elim (Option-cases (read bytes at n)) [
  | inl e ↦ rw e (omega arith)
  | inr (x, e) ↦ rw e (omega (arith, read-le bytes at n x e))
]

pub read_u32_or-le : (bytes : Bytes) (at : ℕ) → at ≤ (read_u32_or bytes at).1
unfolding read_u32_or or_zero_word
read_u32_or-le bytes at = elim (Option-cases (read_u32 bytes at)) [
  | inl e ↦ rw e (omega arith)
  | inr (x, e) ↦ rw e (omega (arith, read_u32-le bytes at x e))
]

module _ {F : Type 0} (index : ℕ) where
  enter_group-IsCounted :
      (group_type label : ℕ) (p : Progress F)
      → IsCounted p
      → IsCounted (enter_group index group_type label p)
  unfolding enter_group
  enter_group-IsCounted group_type label p c = ground arith

  -- A group is at least as long as its header, and ends within the file.
  pub group_header-Ensures :
      (bytes : Bytes) (start : ℕ) (p : Progress F)
      → IsCounted p
      → Ensures (group_header index bytes start p) (λ (h : ℕ × (ℕ × Progress F)).
        (start + 24 ≤ h.0) × ((h.0 ≤ length bytes) × ((start + 8 ≤ h.1.0) × IsCounted h.1.1)))
  unfolding group_header
  group_header-Ensures bytes start p c =
      let label_at = skip bytes start 4 in
      >>=-Ensures (ok_or truncated_group_header (read_u32 bytes label_at)) _
        (λ (s : ℕ × ℕ). (s.1 ≡ label_at + 4) × (s.1 ≤ length bytes)) _
        (ok_or-Ensures _ (read_u32 bytes label_at) _ (λ h. cc) (read_u32-le bytes label_at))
        λ s hs.
          >>=-Ensures (ok_or truncated_group_header (read_u32 bytes s.1)) _
            (λ (l : ℕ × ℕ). (l.1 ≡ s.1 + 4) × (l.1 ≤ length bytes)) _
            (ok_or-Ensures _ (read_u32 bytes s.1) _ (λ h. cc) (read_u32-le bytes s.1))
            λ l hl.
              >>=-Ensures (ensure (not (ltb s.0 24)) invalid_group_size) _ _ _
                (ensure-Ensures (not (ltb s.0 24)) invalid_group_size (λ h. cc))
                λ t long.
                  >>=-Ensures (ensure (not (ltb (length bytes) (start + s.0))) group_overruns) _ _ _
                    (ensure-Ensures (not (ltb (length bytes) (start + s.0))) group_overruns
                      (λ h. cc))
                    λ u inside. (
                      ground arith,
                      (
                        ground arith,
                        (
                          omega (
                            arith,
                            skip-le bytes start 4,
                            read_u32_or-le bytes l.1,
                            skip-le bytes (read_u32_or bytes l.1).1 8,
                          ),
                          enter_group-IsCounted (read_u32_or bytes l.1).0 l.0 p c,
                        ),
                      ),
                    )

module _ {F : Type 0} (m : Formats F) (index : ℕ) where
  inflated-IsCounted :
      (rec_type : Bytes) (form_id : ℕ) (p : Progress F) (o : Option Bytes)
      → IsCounted p
      → IsCounted (inflated m index rec_type form_id p o)
  unfolding inflated
  inflated-IsCounted rec_type form_id p none c = record { rows_counted = c.rows_counted }
  inflated-IsCounted rec_type form_id p (some body) c =
      import_record-IsCounted m index rec_type form_id (parse_subrecords body) p c

  import_body-Ensures :
      (rec_type : Bytes) (form_id flags : ℕ) (body : Bytes) (p : Progress F)
      → IsCounted p
      → Ensures (import_body m index rec_type form_id flags body p) IsCounted
  unfolding import_body
  import_body-Ensures rec_type form_id flags body p c =
      elim (Bool-cases (bit_and flags 0x00040000 == 0)) [
        | inl plain ↦
            rw plain (import_record-IsCounted m index rec_type form_id (parse_subrecords body) p c)
        | inr packed ↦ elim (Bool-cases (ltb (length body) 4)) [
          | inl short ↦ rw (packed, short) (λ h. cc)
          | inr whole ↦
              rw (packed, whole) (inflated-IsCounted rec_type form_id p (m.inflate (drop 4 body)) c)
        ]
      ]

  -- A record takes at least its type and its size.
  pub parse_record-Ensures :
      (bytes : Bytes) (at : ℕ) (p : Progress F)
      → IsCounted p
      → Ensures
          (parse_record m index bytes at p)
          (λ (r : ℕ × Progress F). (at + 8 ≤ r.0) × IsCounted r.1)
  unfolding parse_record
  parse_record-Ensures bytes at p c =
      >>=-Ensures (ok_or truncated_record_type (read bytes at 4)) _
        (λ (t : Bytes × ℕ). (t.1 ≡ at + 4) × (t.1 ≤ length bytes)) _
        (ok_or-Ensures _ (read bytes at 4) _ (λ h. cc) (read-le bytes at 4))
        λ t ht.
          >>=-Ensures (ok_or truncated_record (read_u32 bytes t.1)) _
            (λ (s : ℕ × ℕ). (s.1 ≡ t.1 + 4) × (s.1 ≤ length bytes)) _
            (ok_or-Ensures _ (read_u32 bytes t.1) _ (λ h. cc) (read_u32-le bytes t.1))
            λ s hs.
              let flags = read_u32_or bytes s.1 in
              let id = read_u32_or bytes flags.1 in
              let body_at = skip bytes id.1 8 in
              >>=-Ensures (ok_or record_overruns (read bytes body_at s.0)) _
                (λ (b : Bytes × ℕ). (b.1 ≡ body_at + s.0) × (b.1 ≤ length bytes)) _
                (ok_or-Ensures _ (read bytes body_at s.0) _ (λ h. cc) (read-le bytes body_at s.0))
                λ b hb.
                  >>=-Ensures (import_body m index t.0 (remap index id.0) flags.0 b.0 p) _ IsCounted
                    _ (import_body-Ensures t.0 (remap index id.0) flags.0 b.0 p c)
                    λ q counted. (
                      omega (
                        arith,
                        read_u32_or-le bytes s.1,
                        read_u32_or-le bytes flags.1,
                        skip-le bytes id.1 8,
                      ),
                      counted,
                    )
