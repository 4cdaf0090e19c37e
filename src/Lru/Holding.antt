-- ===== src/Lru/Holding.antt =====
-- What `LRUCache` of assets/backend/postgres_storage.py holds under one key, expired or not.
use rag_agent_chatbot.Prelude.{
  ℕ, ◌+◌, ◌<◌, String, ◌≡◌, refl, ap, sym, ◌∙◌, Bool, true, false, Option, none, some, arith,
  eq_iff, if◌then◌else◌,
}
use rag_agent_chatbot.Dict.{lookup, without, has_key-without_self, lookup-without}
use rag_agent_chatbot.Lru.{CacheEntry, LruCache, is_expired, move_to_end, get_entry, get, put}
use rag_agent_chatbot.Lru.Recency.{put_entries, lookup_last, lookup-move_to_end, stored}

module _ {ℓ} {A : Type ℓ} where
  -- An entry under the key has this content.
  abbrev pub Holds : LruCache A → String → A → Type ℓ
  Holds c key x = (e : CacheEntry A) → lookup key c.entries ≡ some e → e.content ≡ x

  abbrev Answers : String → A → LruCache A × Option A → Type ℓ
  Answers key x (c, found) = Holds c key x × ((v : A) → found ≡ some v → v ≡ x)

  get_entry-Holds :
      (now : ℕ) (c : LruCache A) (key : String) (x : A) (o : Option (CacheEntry A))
      → lookup key c.entries ≡ o
      → Holds c key x
      → Answers key x (get_entry now c key o)
  unfolding get_entry
  get_entry-Holds now c key x none h holds = (holds, λ v e. absurd (cc e))
  get_entry-Holds now c key x (some e) h holds =
      go (is_expired now e)
        (λ f k. absurd (ground (arith, lookup-without key key c.entries, eq_iff key key)))
        (λ f k. holds f (sym (lookup-move_to_end key key e c.entries h) ∙ k))
    where
      go :
          (b : Bool)
          → Holds (record c { entries = without key c.entries; misses = c.misses + 1 }) key x
          → Holds (record c { entries = move_to_end key e c.entries; hits = c.hits + 1 }) key x
          → Answers key x (
              if b
              then (record c { entries = without key c.entries; misses = c.misses + 1 }, none)
              else (
                record c { entries = move_to_end key e c.entries; hits = c.hits + 1 },
                some e.content,
              ))
      go true gone moved = (gone, λ v e. absurd (cc e))
      go false gone moved =
          (moved, λ v f. (let same : e.content ≡ v = (cc f) in sym same ∙ holds e h))

  -- What `get` returns is what the cache holds, which stays so.
  pub get-Holds :
      (now : ℕ) (c : LruCache A) (key : String) (x : A)
      → Holds c key x
      → Answers key x (get now c key)
  unfolding get
  get-Holds now c key x h = get_entry-Holds now c key x (lookup key c.entries) refl h

  pub put-Holds :
      (now : ℕ) (c : LruCache A) (key : String) (x : A) (ttl : Option ℕ)
      → 0 < c.max_size
      → Holds (put now c key x ttl) key x
  put-Holds now c key x ttl room e h =
      let at_end =
        lookup_last key (stored now c x ttl) c.max_size (without key c.entries) room
          (has_key-without_self key c.entries) in
      let found : some e ≡ some (stored now c x ttl) =
        sym h ∙ ap (lookup key) (put_entries now c key x ttl) ∙ at_end in
      let same : e ≡ stored now c x ttl = (cc found) in ap (λ f. f.content) same

  -- A call leaves the bound of the cache.
  pub max_size-put :
      (now : ℕ) (c : LruCache A) (key : String) (x : A) (ttl : Option ℕ)
      → (put now c key x ttl).max_size ≡ c.max_size
  unfolding put
  max_size-put now c key x ttl = refl

  pub max_size-get :
      (now : ℕ) (c : LruCache A) (key : String) → (get now c key).0.max_size ≡ c.max_size
  unfolding get get_entry
  max_size-get now c key = go (lookup key c.entries)
    where
      go : (o : Option (CacheEntry A)) → (get_entry now c key o).0.max_size ≡ c.max_size
      go none = refl
      go (some e) = ground arith
