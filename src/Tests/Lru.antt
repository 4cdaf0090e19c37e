-- ===== src/Tests/Lru.antt =====
-- The in-memory cache of assets/backend/postgres_storage.py at small caches.
use rag_agent_chatbot.Prelude.{
  ℕ, String, ◌≡◌, refl, none, [], ◌∷◌, ◌++◌, arith, ◌+◌, keep_if, length,
}
use rag_agent_chatbot.Lru.{CacheEntry, LruCache, get, put, evict_expired}
use rag_agent_chatbot.Lru.Bounds.{IsValid, put-IsValid}
use rag_agent_chatbot.Lru.Recency.{
  view, stored, is_live, evict_expired_lem, get-view, view-put_ne, put_evicts_oldest,
}

abbrev old_entry : CacheEntry ℕ
old_entry = record { content = 1; timestamp = 0; ttl = 10 }

abbrev young_entry : CacheEntry ℕ
young_entry = record { content = 2; timestamp = 95; ttl = 10 }

-- A full cache of two.
abbrev full : LruCache ℕ
full = record {
  entries = ("a", old_entry) ∷ ("b", young_entry) ∷ [];
  max_size = 2;
  default_ttl = 10;
  hits = 0;
  misses = 0;
}

full-IsValid : IsValid full
unfolding rag_agent_chatbot.Dict.distinct rag_agent_chatbot.Dict.has_key
full-IsValid = record { unique = refl; bounded = omega arith }

evict_expired_example :
    ((evict_expired 100 full).0.entries ≡ keep_if (is_live 100) full.entries)
    × (length (evict_expired 100 full).0.entries + (evict_expired 100 full).1 ≡ length full.entries)
evict_expired_example = evict_expired_lem 100 full full-IsValid

get-view_example :
    ((get 100 full "b").1 ≡ view 100 full "b")
    × ((j : String) → view 100 (get 100 full "b").0 j ≡ view 100 full j)
get-view_example = get-view 100 full "b"

put-IsValid_example : IsValid (put 100 full "c" 3 none)
put-IsValid_example = put-IsValid 100 full "c" 3 none full-IsValid

view-put_ne_example : view 100 (put 100 full "a" 3 none) "b" ≡ view 100 full "b"
unfolding rag_agent_chatbot.Dict.without
view-put_ne_example = view-put_ne 100 full "a" "b" 3 none (omega arith) refl

put_evicts_oldest_example :
    (put 100 full "c" 3 none).entries
    ≡ ("b", young_entry) ∷ [] ++ ("c", stored 100 full 3 none) ∷ []
unfolding rag_agent_chatbot.Dict.has_key
put_evicts_oldest_example =
    put_evicts_oldest 100 full "c" 3 none ("a", old_entry) (("b", young_entry) ∷ []) refl refl refl
