-- ===== src/Handlers/Auth/Admission.antt =====
-- What crates/ashfall-server/src/handlers/auth.rs and game.rs admit: the names, versions and load orders.
use ashfall.Prelude.{
  ℕ, ◌≡◌, ◌↔◌, ◌<◌, ◌≤◌, ◌⊎◌, refl, inl, inr, true, none, List, [], ◌∷◌, arith, nat_eq, nat_beq_iff,
  bytes_eq, bytes_beq_iff, length,
}
use ashfall.Map.{is_some}
use ashfall.StringCache.{Text}
use ashfall.Handlers.Auth.{dedicated_version, handle_auth, handle_mod_list, match_mods}

module _ (F : Type 0) where
  -- A session is opened exactly for a name of 1 to 16 bytes and the server's own version.
  pub handle_auth_iff :
      (addr : ℕ) (name password version : Text) (guid now : ℕ)
      → (is_some (handle_auth {F = F} addr name password version guid now).0 ≡ true)
        ↔ ((0 < length name) × ((length name ≤ 16) × (version ≡ dedicated_version)))
  unfolding handle_auth
  handle_auth_iff addr name password version guid now =
      ground (arith, bytes_beq_iff version dedicated_version)

  match_mods_sound :
      (expected mods : List (Text × ℕ))
      → length mods ≡ length expected
      → match_mods {F = F} expected mods ≡ none
      → mods ≡ expected
  unfolding match_mods
  match_mods_sound [] [] l h = refl
  match_mods_sound (e ∷ expected) [] l h = ground arith
  match_mods_sound [] (m ∷ mods) l h = ground arith
  match_mods_sound ((n, c) ∷ expected) ((k, d) ∷ mods) l h =
      let same = match_mods_sound expected mods (omega arith) in
      ground (arith, bytes_beq_iff k n, nat_beq_iff d c, same)

  match_mods_refl : (mods : List (Text × ℕ)) → match_mods {F = F} mods mods ≡ none
  unfolding match_mods
  match_mods_refl [] = refl
  match_mods_refl (m ∷ mods) =
      rw ((bytes_beq_iff m.0 m.0).1 refl, (nat_beq_iff m.1 m.1).1 refl) (match_mods_refl mods)

  -- A server that expects a load order accepts that one and no other; one that expects none accepts any.
  pub handle_mod_list_iff :
      (expected mods : List (Text × ℕ))
      → (handle_mod_list {F = F} expected mods ≡ none) ↔ ((expected ≡ []) ⊎ (mods ≡ expected))
  unfolding handle_mod_list
  handle_mod_list_iff [] mods = (λ h. inl refl, λ h. refl)
  handle_mod_list_iff (e ∷ expected) mods = (
    λ h. inr (
        match_mods_sound (e ∷ expected) mods
          (ground (arith, nat_beq_iff (length mods) (length (e ∷ expected)))) (ground arith)),
    accepted,
  )
    where
      accepted :
          ((e ∷ expected ≡ []) ⊎ (mods ≡ e ∷ expected))
          → handle_mod_list {F = F} (e ∷ expected) mods ≡ none
      accepted (inl h) = cc
      accepted (inr h) = rw h (
          rw ((nat_beq_iff (length (e ∷ expected)) (length (e ∷ expected))).1 refl)
            (match_mods_refl (e ∷ expected)))
