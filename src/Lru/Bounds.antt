-- ===== src/Lru/Bounds.antt =====
-- The invariant of `LRUCache`: no key twice, never more entries than `max_size`.
use rag_agent_chatbot.Prelude.{
  ℕ, ◌+◌, ◌≤◌, String, ◌≡◌, refl, true, false, Option, none, some, List, [], ◌∷◌, ◌++◌, arith,
  length, length-append, Option-cases, inl, inr, eq_iff, str_eq,
}
use rag_agent_chatbot.Dict.{
  lookup, has_key, without, assign, distinct, without-distinct, has_key-without_self,
  length-without-le, assign_absent, without_absent,
}
use rag_agent_chatbot.Lru.{CacheEntry, LruCache, move_to_end, get_entry, get, trim, touch, put}

pub record IsValid {ℓ} {A : Type ℓ} (c : LruCache A) : Type ℓ where
  pub unique : distinct c.entries ≡ true
  pub bounded : length c.entries ≤ c.max_size

module _ {ℓ} {V : Type ℓ} where
  has_key-concat :
      (j k : String) (e : V) (d : List (String × V))
      → has_key j d ≡ false
      → str_eq k j ≡ false
      → has_key j (d ++ (k, e) ∷ []) ≡ false
  unfolding has_key
  has_key-concat j k e [] h n = ground arith
  has_key-concat j k e ((i, v) ∷ d) h n = ground (arith, has_key-concat j k e d)

  pub distinct-concat :
      (k : String) (e : V) (d : List (String × V))
      → distinct d ≡ true
      → has_key k d ≡ false
      → distinct (d ++ (k, e) ∷ []) ≡ true
  unfolding distinct has_key
  distinct-concat k e [] h n = refl
  distinct-concat k e ((i, v) ∷ d) h n =
      ground (arith, distinct-concat k e d, has_key-concat i k e d, eq_iff i k, eq_iff k i)

  assign-concat :
      (k : String) (v w : V) (d : List (String × V))
      → has_key k d ≡ false
      → assign k v (d ++ (k, w) ∷ []) ≡ d ++ (k, v) ∷ []
  unfolding assign has_key
  assign-concat k v w [] h = ground (arith, eq_iff k k)
  assign-concat k v w ((i, u) ∷ d) h = ground (arith, assign-concat k v w d)

  pub absent_of_lookup :
      (k : String) (d : List (String × V)) → lookup k d ≡ none → has_key k d ≡ false
  unfolding lookup has_key
  absent_of_lookup k [] h = refl
  absent_of_lookup k ((i, v) ∷ d) h = ground (arith, absent_of_lookup k d)

  pub length-without_present :
      (k : String) (d : List (String × V)) (v : V)
      → lookup k d ≡ some v
      → length (without k d) + 1 ≤ length d
  unfolding lookup without
  length-without_present k [] v h = absurd (cc)
  length-without_present k ((i, w) ∷ d) v h =
      ground (arith, length-without_present k d v, length-without-le k d)

module _ {ℓ} {A : Type ℓ} where
  -- What `put` stores before it trims: the key's entry at the end, once.
  pub assign-touch :
      (k : String) (e : CacheEntry A) (d : List (String × CacheEntry A))
      → assign k e (touch k d) ≡ without k d ++ (k, e) ∷ []
  unfolding touch
  assign-touch k e d = elim (Option-cases (lookup k d)) [
    | inl miss ↦
        rw (miss, touch)
          (rw (without_absent k d (absent_of_lookup k d miss))
            (assign_absent k e d (absent_of_lookup k d miss)))
    | inr (old, hit) ↦
        rw (hit, touch) (assign-concat k e old (without k d) (has_key-without_self k d))
  ]

  pub trim_fits : (n : ℕ) (d : List (String × CacheEntry A)) → length d ≤ n → trim n d ≡ d
  unfolding trim
  trim_fits n [] h = refl
  trim_fits n (e ∷ d) h = ground arith

  pub length-trim-le : (n : ℕ) (d : List (String × CacheEntry A)) → length (trim n d) ≤ n
  unfolding trim
  length-trim-le n [] = omega arith
  length-trim-le n (e ∷ d) = ground (arith, length-trim-le n d)

  has_key-trim :
      (n : ℕ) (k : String) (d : List (String × CacheEntry A))
      → has_key k d ≡ false
      → has_key k (trim n d) ≡ false
  unfolding trim has_key
  has_key-trim n k [] h = refl
  has_key-trim n k ((j, e) ∷ d) h = ground (arith, has_key-trim n k d)

  trim-distinct :
      (n : ℕ) (d : List (String × CacheEntry A)) → distinct d ≡ true → distinct (trim n d) ≡ true
  unfolding trim distinct
  trim-distinct n [] h = refl
  trim-distinct n ((j, e) ∷ d) h = ground (arith, trim-distinct n d)

  length-move_to_end-le :
      (k : String) (e : CacheEntry A) (d : List (String × CacheEntry A))
      → lookup k d ≡ some e
      → length (move_to_end k e d) ≤ length d
  unfolding move_to_end
  length-move_to_end-le k e d h =
      omega (arith, length-append (without k d) ((k, e) ∷ []), length-without_present k d e h)

  get_entry-IsValid :
      (now : ℕ) (c : LruCache A) (key : String) (o : Option (CacheEntry A))
      → lookup key c.entries ≡ o
      → IsValid c
      → IsValid (get_entry now c key o).0
  unfolding get_entry
  get_entry-IsValid now c key none h v = record { unique = v.unique; bounded = v.bounded }
  get_entry-IsValid now c key (some e) h v = ground (
    arith,
    without-distinct key c.entries,
    length-without-le key c.entries,
    length-move_to_end-le key e c.entries h,
    distinct-concat key e (without key c.entries),
    has_key-without_self key c.entries,
  )

  -- `get` keeps the invariant, on a miss, on a hit and on an expired entry.
  pub get-IsValid :
      (now : ℕ) (c : LruCache A) (key : String) → IsValid c → IsValid (get now c key).0
  unfolding get
  get-IsValid now c key v = get_entry-IsValid now c key (lookup key c.entries) refl v

  -- `put` keeps the invariant: no key twice, and never more entries than `max_size`, whatever the
  -- key and the ttl.
  pub put-IsValid :
      (now : ℕ) (c : LruCache A) (key : String) (value : A) (ttl : Option ℕ)
      → IsValid c
      → IsValid (put now c key value ttl)
  unfolding put
  put-IsValid now c key value ttl v = record {
    unique = rw assign-touch (
        trim-distinct _ _ (
          distinct-concat key _ (without key c.entries) (without-distinct key c.entries v.unique)
            (has_key-without_self key c.entries)));
    bounded = length-trim-le c.max_size _;
  }
