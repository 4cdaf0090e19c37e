-- ===== src/Lru.antt =====
-- `CacheEntry` and `LRUCache` of assets/backend/postgres_storage.py. The clock is an argument of
-- the methods that read it: `time.time()`, in whole ticks.
pub mod Bounds
pub mod Recency
pub mod Holding
use rag_agent_chatbot.Prelude.{
  ℕ, suc, ◌+◌, ◌-◌, String, Bool, Option, none, some, List, [], ◌∷◌, ◌++◌, ltb, if◌then◌else◌,
  length, ◌==◌, keep_if, map,
}
use rag_agent_chatbot.Dict.{lookup, has_key, without, assign}

module _ {ℓ} (A : Type ℓ) where
  -- A `CacheEntry`: the clock at which it was stored, and how long it lives.
  pub record CacheEntry : Type ℓ where
    pub content : A
    pub timestamp : ℕ
    pub ttl : ℕ

  -- The entries stand as in the ordered dict, the least recently used first.
  pub record LruCache : Type ℓ where
    pub entries : List (String × CacheEntry)
    pub max_size : ℕ
    pub default_ttl : ℕ
    pub hits : ℕ
    pub misses : ℕ

-- `ttl or self.default_ttl`: a ttl of zero counts as none.
unfoldable pub effective_ttl : Option ℕ → ℕ → ℕ
effective_ttl none default_ttl = default_ttl
effective_ttl (some ttl) default_ttl = if ttl == 0 then default_ttl else ttl

module _ {ℓ} {A : Type ℓ} where
  -- `time.time() - timestamp > ttl`; a clock that has gone back gives a negative age, no expiry.
  unfoldable pub is_expired : ℕ → CacheEntry A → Bool
  is_expired now e = ltb e.ttl (now - e.timestamp)

  unfoldable pub init : ℕ → ℕ → LruCache A
  init max_size default_ttl = record {
    entries = [];
    max_size = max_size;
    default_ttl = default_ttl;
    hits = 0;
    misses = 0;
  }

  -- `OrderedDict.move_to_end` of a key that holds `e`.
  unfoldable pub move_to_end :
      String → CacheEntry A → List (String × CacheEntry A) → List (String × CacheEntry A)
  move_to_end key e d = without key d ++ (key, e) ∷ []

  -- The body of `get` behind the lookup.
  unfoldable pub get_entry : ℕ → LruCache A → String → Option (CacheEntry A) → LruCache A × Option A
  unfolding is_expired move_to_end
  get_entry now c key none = (record c { misses = c.misses + 1 }, none)
  get_entry now c key (some e) =
      if is_expired now e
      then (record c { entries = without key c.entries; misses = c.misses + 1 }, none)
      else (record c { entries = move_to_end key e c.entries; hits = c.hits + 1 }, some e.content)

  unfoldable pub get : ℕ → LruCache A → String → LruCache A × Option A
  unfolding get_entry
  get now c key = get_entry now c key (lookup key c.entries)

  -- `while len(self._data) > self.max_size: self._data.popitem(last=False)`
  unfoldable pub trim : ℕ → List (String × CacheEntry A) → List (String × CacheEntry A)
  trim max_size [] = []
  trim max_size (e ∷ d) =
      let rest = trim max_size d in if ltb max_size (length (e ∷ d)) then rest else e ∷ d

  -- `if key in self._data: self._data.move_to_end(key)`
  unfoldable pub touch : String → List (String × CacheEntry A) → List (String × CacheEntry A)
  unfolding move_to_end
  touch key d = elim (lookup key d) [ none ↦ d | some e ↦ move_to_end key e d ]

  unfoldable pub put : ℕ → LruCache A → String → A → Option ℕ → LruCache A
  unfolding touch effective_ttl
  put now c key value ttl =
      let entry : CacheEntry A = record {
        content = value;
        timestamp = now;
        ttl = effective_ttl ttl c.default_ttl;
      } in
      record c { entries = trim c.max_size (assign key entry (touch key c.entries)) }

  unfoldable pub remove : LruCache A → String → LruCache A
  remove c key = record c { entries = without key c.entries }

  unfoldable pub clear : LruCache A → LruCache A
  clear c = record c { entries = [] }

  -- `len(cache)`
  unfoldable pub size : LruCache A → ℕ
  size c = length c.entries

  -- `[k for k, v in self._data.items() if v.is_expired()]`
  unfoldable pub expired_keys : ℕ → List (String × CacheEntry A) → List String
  unfolding is_expired
  expired_keys now d = map (λ e. e.0) (keep_if (λ e. is_expired now e.1) d)

  -- `for k in expired: del self._data[k]`
  unfoldable pub delete_all :
      List String → List (String × CacheEntry A) → List (String × CacheEntry A)
  delete_all [] d = d
  delete_all (k ∷ ks) d = delete_all ks (without k d)

  unfoldable pub evict_expired : ℕ → LruCache A → LruCache A × ℕ
  unfolding expired_keys delete_all
  evict_expired now c =
      let expired = expired_keys now c.entries in
      (record c { entries = delete_all expired c.entries }, length expired)
