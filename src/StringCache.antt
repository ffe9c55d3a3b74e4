-- ===== src/StringCache.antt =====
-- crates/ashfall-core/src/string_cache.rs: the dictionary that replaces repeated strings by ids.
-- A string is the list of its UTF-8 bytes.
pub mod Sync
pub mod Forget
use ashfall.Prelude.{
  ℕ, suc, ◌+◌, ◌-◌, Bool, Option, none, some, List, [], ◌∷◌, ◌++◌, ◌==◌, nat_eq, bytes_eq,
  if◌then◌else◌, length, get_elem?, set, take, replicate, u16,
}
use ashfall.Map
use ashfall.Map.{Map, is_some}

abbrev pub Text : Type 0
Text = List ℕ

pub record StringTable : Type 0 where
  pub by_id : List Text
  pub by_str : Map Text ℕ

unfoldable pub new : StringTable
new = record { by_id = []; by_str = Map.empty }

intern_missing : StringTable → Text → Option ℕ → ℕ × StringTable
intern_missing t value (some id) = (id, t)
intern_missing t value none =
    let id = u16 (length t.by_id) in
    (id, record t { by_id = t.by_id ++ value ∷ []; by_str = Map.insert t.by_str value id })

-- The id of a string; a string that has none gets the next one.
unfoldable pub intern : StringTable → Text → ℕ × StringTable
unfolding intern_missing
intern t value = intern_missing t value (Map.lookup t.by_str value)

nonempty : Option Text → Option Text
nonempty none = none
nonempty (some []) = none
nonempty (some (c ∷ s)) = some (c ∷ s)

-- Empty strings stand for ids that were never learned.
unfoldable pub lookup : StringTable → ℕ → Option Text
unfolding nonempty
lookup t id = nonempty (get_elem? t.by_id id)

pub data CachedString : Type 0 where
  plain : Text → CachedString
  inline : (id : ℕ) (value : Text) → CachedString
  id_only : ℕ → CachedString

-- `Vec::resize`: it cuts a longer vector off, and fills a shorter one up.
abbrev pub resize {ℓ} : {A : Type ℓ} → List A → ℕ → A → List A
resize xs n a = take n xs ++ replicate (n - length xs) a

learn : StringTable → ℕ → Text → Option Text → StringTable
learn t id value (some old) = t
learn t id value none = record {
  by_id = set (resize t.by_id (id + 1) []) id value;
  by_str = Map.insert t.by_str value id;
}

abbrev pub or_empty : Option Text → Text
or_empty none = []
or_empty (some s) = s

-- What a receiver reads, and what it learns.
unfoldable pub resolve : CachedString → StringTable → Text × StringTable
unfolding learn
resolve (plain s) t = (s, t)
resolve (inline id value) t = (value, learn t id value (lookup t id))
resolve (id_only id) t = (or_empty (lookup t id), t)

bind_missing : StringTable → Text → Option ℕ → CachedString × StringTable
bind_missing t value (some id) = (id_only id, t)
bind_missing t value none = let (id, t') = intern t value in (inline id value, t')

-- `CachedString::intern`: the first time the id and the string, from then on the id alone.
unfoldable pub bind : StringTable → Text → CachedString × StringTable
unfolding bind_missing
bind t value = bind_missing t value (Map.lookup t.by_str value)

-- `impl From<CachedString> for String`
unfoldable pub to_text : CachedString → Text
to_text (plain s) = s
to_text (inline id s) = s
to_text (id_only id) = []
