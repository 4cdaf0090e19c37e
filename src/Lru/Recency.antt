-- ===== src/Lru/Recency.antt =====
-- What `LRUCache` remembers: the values that a reader can see, and which entry goes first.
use rag_agent_chatbot.Prelude.{
  ℕ, ◌+◌, ◌≤◌, ◌<◌, String, ◌≡◌, refl, ap, ◌∙◌, Bool, true, false, not, Option, none, some, List,
  [], ◌∷◌, ◌++◌, arith, ltb, leb, length, length-append, Bool-cases, inl, inr, eq_iff, str_eq,
  if◌then◌else◌, map, keep_if, any_of, lt→ltb,
}
use rag_agent_chatbot.Dict.{
  lookup, has_key, without, distinct, has_key-without_self, lookup-without, without_absent,
}
use rag_agent_chatbot.Lru.{
  CacheEntry, LruCache, is_expired, move_to_end, get_entry, get, trim, put, effective_ttl,
  delete_all, evict_expired, expired_keys,
}
use rag_agent_chatbot.Lru.Bounds.{IsValid, assign-touch, trim_fits}

module _ {ℓ} {A : Type ℓ} where
  -- What a cached entry shows at clock `now`: its content, as long as the clock is not past the
  -- moment of storing and the time to live together.
  unfoldable pub fresh : ℕ → Option (CacheEntry A) → Option A
  fresh now none = none
  fresh now (some e) = if ltb (e.timestamp + e.ttl) now then none else some e.content

  unfoldable pub view : ℕ → LruCache A → String → Option A
  unfolding fresh
  view now c key = fresh now (lookup key c.entries)

  pub lookup-concat :
      (j k : String) (e : CacheEntry A) (d : List (String × CacheEntry A))
      → has_key k d ≡ false
      → lookup j (d ++ (k, e) ∷ []) ≡ (if str_eq k j then some e else lookup j d)
  unfolding lookup has_key
  lookup-concat j k e [] h = refl
  lookup-concat j k e ((i, v) ∷ d) h =
      ground (arith, lookup-concat j k e d, eq_iff i j, eq_iff k j, eq_iff i k)

  pub lookup-move_to_end :
      (j k : String) (e : CacheEntry A) (d : List (String × CacheEntry A))
      → lookup k d ≡ some e
      → lookup j (move_to_end k e d) ≡ lookup j d
  unfolding move_to_end
  lookup-move_to_end j k e d h = ground (
    arith,
    lookup-concat j k e (without k d) (has_key-without_self k d),
    lookup-without k j d,
    eq_iff k j,
  )

  get_entry-view :
      (now : ℕ) (c : LruCache A) (key : String) (o : Option (CacheEntry A))
      → lookup key c.entries ≡ o
      → ((get_entry now c key o).1 ≡ fresh now o)
        × ((j : String) → view now (get_entry now c key o).0 j ≡ view now c j)
  unfolding get_entry view fresh is_expired
  get_entry-view now c key none h = (refl, λ j. refl)
  get_entry-view now c key (some e) h = (
    ground arith,
    λ j. ground (
      arith,
      lookup-move_to_end j key e c.entries h,
      lookup-without key j c.entries,
      eq_iff key j,
    ),
  )

  -- `get` returns exactly the value of its key whose time of storing and time to live together are
  -- not before the clock, and changes no value that any reader can see at that clock.
  pub get-view :
      (now : ℕ) (c : LruCache A) (key : String)
      → ((get now c key).1 ≡ view now c key)
        × ((j : String) → view now (get now c key).0 j ≡ view now c j)
  unfolding get view
  get-view now c key = get_entry-view now c key (lookup key c.entries) refl

  -- The entry that `put` stores.
  abbrev pub stored : ℕ → LruCache A → A → Option ℕ → CacheEntry A
  stored now c value ttl = record {
    content = value;
    timestamp = now;
    ttl = effective_ttl ttl c.default_ttl;
  }

  pub put_entries :
      (now : ℕ) (c : LruCache A) (key : String) (value : A) (ttl : Option ℕ)
      → (put now c key value ttl).entries
        ≡ trim c.max_size (without key c.entries ++ (key, stored now c value ttl) ∷ [])
  unfolding put
  put_entries now c key value ttl = ap (trim c.max_size) (assign-touch key _ c.entries)

  fresh_stored :
      (now : ℕ) (c : LruCache A) (value : A) (ttl : Option ℕ)
      → fresh now (some (stored now c value ttl)) ≡ some value
  unfolding fresh
  fresh_stored now c value ttl = ground arith

  pub lookup_last :
      (k : String) (e : CacheEntry A) (n : ℕ) (d : List (String × CacheEntry A))
      → 0 < n
      → has_key k d ≡ false
      → lookup k (trim n (d ++ (k, e) ∷ [])) ≡ some e
  unfolding trim lookup has_key
  lookup_last k e n [] h m = ground (arith, eq_iff k k)
  lookup_last k e n ((j, f) ∷ d) h m =
      ground (arith, lookup_last k e n d h, lookup-concat k k e d, eq_iff j k, eq_iff k k)

  -- A value just stored can be read, whatever was evicted, unless the cache has no room at all.
  pub view-put_self :
      (now : ℕ) (c : LruCache A) (key : String) (value : A) (ttl : Option ℕ)
      → 0 < c.max_size
      → view now (put now c key value ttl) key ≡ some value
  unfolding view
  view-put_self now c key value ttl room = rw (put_entries now c key value ttl) (
      rw
        (lookup_last key (stored now c value ttl) c.max_size (without key c.entries) room
          (has_key-without_self key c.entries))
        (fresh_stored now c value ttl))

  -- Where the key is present or there is room, storing changes nothing that another key shows.
  pub view-put_ne :
      (now : ℕ) (c : LruCache A) (key j : String) (value : A) (ttl : Option ℕ)
      → length (without key c.entries) < c.max_size
      → str_eq key j ≡ false
      → view now (put now c key value ttl) j ≡ view now c j
  unfolding view
  view-put_ne now c key j value ttl room other =
      let e = stored now c value ttl in
      let fits : length (without key c.entries ++ (key, e) ∷ []) ≤ c.max_size =
        omega (arith, length-append (without key c.entries) ((key, e) ∷ [])) in
      rw (put_entries now c key value ttl) (
        rw (trim_fits c.max_size _ fits) (
          rw (lookup-concat j key e (without key c.entries) (has_key-without_self key c.entries))
            (ground (arith, lookup-without key j c.entries))))

  -- On a full cache a new key pushes out exactly the least recently used entry, and the other
  -- entries keep their order behind it.
  pub put_evicts_oldest :
      (now : ℕ) (c : LruCache A) (key : String) (value : A) (ttl : Option ℕ)
      (oldest : String × CacheEntry A) (rest : List (String × CacheEntry A))
      → c.entries ≡ oldest ∷ rest
      → length c.entries ≡ c.max_size
      → has_key key c.entries ≡ false
      → (put now c key value ttl).entries ≡ rest ++ (key, stored now c value ttl) ∷ []
  unfolding trim
  put_evicts_oldest now c key value ttl oldest rest split full new =
      let e = stored now c value ttl in
      let size : length (rest ++ (key, e) ∷ []) ≡ c.max_size =
        omega (arith, length-append rest ((key, e) ∷ []), ap length split) in
      let over : ltb c.max_size (length (oldest ∷ rest ++ (key, e) ∷ [])) ≡ true =
        lt→ltb _ _ (omega arith) in
      put_entries now c key value ttl
      ∙ rw (without_absent key c.entries new)
          (rw split (rw over (trim_fits c.max_size (rest ++ (key, e) ∷ []) (omega arith))))

  delete_all_cons :
      (k : String) (e : CacheEntry A) (ks : List String) (d : List (String × CacheEntry A))
      → any_of (λ j. str_eq k j) ks ≡ false
      → delete_all ks ((k, e) ∷ d) ≡ (k, e) ∷ delete_all ks d
  unfolding delete_all without
  delete_all_cons k e [] d h = refl
  delete_all_cons k e (j ∷ ks) d h = ground (arith, delete_all_cons k e ks (without j d))

  expired_absent :
      (now : ℕ) (k : String) (d : List (String × CacheEntry A))
      → has_key k d ≡ false
      → any_of (λ j. str_eq k j) (expired_keys now d) ≡ false
  unfolding expired_keys has_key
  expired_absent now k [] h = refl
  expired_absent now k ((j, e) ∷ d) h =
      ground (arith, expired_absent now k d, eq_iff j k, eq_iff k j)

  delete_all_hit :
      (k : String) (e : CacheEntry A) (ks : List String) (d : List (String × CacheEntry A))
      → has_key k d ≡ false
      → delete_all (k ∷ ks) ((k, e) ∷ d) ≡ delete_all ks d
  unfolding delete_all without
  delete_all_hit k e ks d h = ap (delete_all ks) (ground (arith, eq_iff k k, without_absent k d h))

  expired_keys_old :
      (now : ℕ) (k : String) (e : CacheEntry A) (d : List (String × CacheEntry A))
      → is_expired now e ≡ true
      → expired_keys now ((k, e) ∷ d) ≡ k ∷ expired_keys now d
  unfolding expired_keys
  expired_keys_old now k e d h = rw h

  expired_keys_live :
      (now : ℕ) (k : String) (e : CacheEntry A) (d : List (String × CacheEntry A))
      → is_expired now e ≡ false
      → expired_keys now ((k, e) ∷ d) ≡ expired_keys now d
  unfolding expired_keys
  expired_keys_live now k e d h = rw h

  delete_expired :
      (now : ℕ) (d : List (String × CacheEntry A))
      → distinct d ≡ true
      → delete_all (expired_keys now d) d ≡ keep_if (λ e. not (is_expired now e.1)) d
  unfolding distinct
  delete_expired now [] h = unfold expired_keys delete_all in refl
  delete_expired now ((k, e) ∷ d) h =
      let absent : has_key k d ≡ false = ground arith in
      let ih : delete_all (expired_keys now d) d ≡ keep_if (λ x. not (is_expired now x.1)) d =
        delete_expired now d (ground arith) in
      elim (Bool-cases (is_expired now e)) [
        | inl old ↦
            ap (λ ks. delete_all ks ((k, e) ∷ d)) (expired_keys_old now k e d old)
            ∙ delete_all_hit k e (expired_keys now d) d absent
            ∙ ih
            ∙ rw old
        | inr live ↦
            ap (λ ks. delete_all ks ((k, e) ∷ d)) (expired_keys_live now k e d live)
            ∙ delete_all_cons k e (expired_keys now d) d (expired_absent now k d absent)
            ∙ ap (◌∷◌ (k, e)) ih
            ∙ rw live
      ]

  length-keep_if_split :
      (test : String × CacheEntry A → Bool) (d : List (String × CacheEntry A))
      → length (keep_if (λ e. not (test e)) d) + length (map (λ e. e.0) (keep_if test d)) ≡ length d
  length-keep_if_split test [] = omega arith
  length-keep_if_split test (e ∷ d) = ground (arith, length-keep_if_split test d)

  abbrev pub is_live : ℕ → String × CacheEntry A → Bool
  is_live now e = leb now (e.1.timestamp + e.1.ttl)

  is_live_lem :
      (now : ℕ) (e : CacheEntry A) → not (is_expired now e) ≡ leb now (e.timestamp + e.ttl)
  unfolding is_expired
  is_live_lem now e = ground arith

  -- On a cache that keeps no key twice, the sweep keeps exactly the entries whose time of storing and
  -- time to live together are not before the clock, in their order, and reports how many it dropped.
  pub evict_expired_lem :
      (now : ℕ) (c : LruCache A)
      → IsValid c
      → ((evict_expired now c).0.entries ≡ keep_if (is_live now) c.entries)
        × (length (evict_expired now c).0.entries + (evict_expired now c).1 ≡ length c.entries)
  unfolding evict_expired
  evict_expired_lem now c v =
      let swept = delete_expired now c.entries v.unique in
      (
        swept ∙ (λ i. keep_if (λ e. is_live_lem now e.1 i) c.entries),
        rw swept (unfold expired_keys in length-keep_if_split (λ e. is_expired now e.1) c.entries),
      )
