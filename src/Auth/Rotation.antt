-- ===== src/Auth/Rotation.antt =====
-- The keys of assets/backend/auth.py across fetches.
use rag_agent_chatbot.Prelude.{
  String, ◌≡◌, refl, true, Option, none, some, List, [], ◌∷◌, inl, inr, ◌⊎◌,
}
use rag_agent_chatbot.Auth.{
  Jwk, Provider, Auth, has_keys, collect, replace_keys, fetched, fetch_jwks,
}

module _ (p : Provider) where
  replace_keys-has_keys :
      (world : p.World) (cache : List (String × p.Key)) (s : Auth p)
      → ((replace_keys p world cache s).keys_by_kid ≡ s.keys_by_kid)
        ⊎ (has_keys p (replace_keys p world cache s).keys_by_kid ≡ true)
          × ((replace_keys p world cache s).keys_by_kid ≡ cache)
  unfolding replace_keys
  replace_keys-has_keys world [] s = inl refl
  replace_keys-has_keys world (k ∷ ks) s = inr (refl, refl)

  -- After a fetch the keys are the ones from before; or the answer had entries, the keys are the
  -- ones collected from it, and there is at least one. So a fetch that fails, or that brings no
  -- usable key, never empties the cache.
  pub fetch_jwks-has_keys :
      (s : Auth p)
      → ((fetch_jwks p s).keys_by_kid ≡ s.keys_by_kid)
        ⊎ (has_keys p (fetch_jwks p s).keys_by_kid ≡ true)
          × ((keys : List (Jwk p.Material)) × ((p.get s.world).1 ≡ some keys)
              × ((fetch_jwks p s).keys_by_kid ≡ collect p keys []))
  unfolding fetch_jwks
  fetch_jwks-has_keys s = cases (p.get s.world) refl
    where
      cases :
          (answer : p.World × Option (List (Jwk p.Material)))
          → p.get s.world ≡ answer
          → ((fetched p answer s).keys_by_kid ≡ s.keys_by_kid)
            ⊎ (has_keys p (fetched p answer s).keys_by_kid ≡ true)
              × ((keys : List (Jwk p.Material)) × (answer.1 ≡ some keys)
                  × ((fetched p answer s).keys_by_kid ≡ collect p keys []))
      cases (world, none) e = inl refl
      cases (world, some keys) e = elim (replace_keys-has_keys world (collect p keys []) s) [
        | inl same ↦ inl same
        | inr (some_key, same) ↦ inr (some_key, (keys, refl, same))
      ]
