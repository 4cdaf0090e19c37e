-- ===== src/Storage/Coherence/Messaging.antt =====
-- `get_messages` and `append_messages_to_chat` of assets/backend/postgres_storage.py on one chat,
-- with warm and cold caches.
use mathlib.Core.Path.{subst}
use rag_agent_chatbot.Prelude.{
  ℕ, arith, String, ◌≡◌, refl, ap, sym, Bool, true, Option, none, some, List, [], map,
}
use rag_agent_chatbot.Cache.{cache_key}
use rag_agent_chatbot.Lru
use rag_agent_chatbot.Dict
use rag_agent_chatbot.Storage.Pool.{init_storage}
use rag_agent_chatbot.Storage.Messages.{
  Message, MessageDict, Row, row_to_message, message_to_dict, dict_to_message,
}
use rag_agent_chatbot.Storage.Sql.{Tables, select_messages}
use rag_agent_chatbot.Storage.Sql.Histories.{history, Restores}
use rag_agent_chatbot.Storage.State.{
  L2Cache, Storage, Action, pure, with_conn, reading, ◌>>=◌, ◌>>◌, l2_read, l2_write, last_of,
}
use rag_agent_chatbot.Storage.Conversations.{
  get_cached_messages, cache_messages, fetch_messages, messages_from_l2, messages_from_cache,
  get_messages,
}
use rag_agent_chatbot.Storage.Coherence.{
  MessagesLaws, Settles, Settles->>=, Coherent, history-Restores, get_cached-Coherent,
  cache_messages-Coherent, set_messages-Coherent, read_messages-Coherent, select-Coherent,
}

module _ (calm : Bool) (l2 : L2Cache) (laws : MessagesLaws l2) (user_id chat_id : String) where
  -- Both caches hold the chat's messages or nothing.
  abbrev pub IsCoherent : List Message → Storage l2.State → Type 0
  IsCoherent h s = Coherent calm l2 user_id chat_id h h h s

  -- The result is `xs`, and the caches agree with the database on `h`.
  abbrev pub Returns : List Message → List Message → List Message → Storage l2.State → Type 0
  Returns xs h out t = (out ≡ xs) × IsCoherent h t

  pub Coherent-Restores :
      (near far h : List Message) (s : Storage l2.State)
      → Coherent calm l2 user_id chat_id near far h s
      → Restores h
  Coherent-Restores near far h s c =
      subst Restores c.rows (history-Restores user_id chat_id s.tables)

  -- The caches hold these, and the database `h`.
  abbrev pub Between :
      List Message → List Message → List Message → Unit {0} → Storage l2.State → Type 0
  Between near far h _ t = Coherent calm l2 user_id chat_id near far h t

  abbrev pub Selected :
      List Message → List Message → List Message → List Row → Storage l2.State → Type 0
  Selected near far h rows t =
      Coherent calm l2 user_id chat_id near far h t × (map row_to_message rows ≡ h)

  abbrev pub Cached :
      List Message → List Message → List Message → Option (List Message) → Storage l2.State → Type 0
  Cached near far h found t =
      Coherent calm l2 user_id chat_id near far h t
      × ((ms : List Message) → found ≡ some ms → ms ≡ near)

  abbrev Shown : List Message → Option (List MessageDict) → Storage l2.State → Type 0
  Shown h found t =
      IsCoherent h t × ((ds : List MessageDict) → found ≡ some ds → map dict_to_message ds ≡ h)

  fetch_messages-Returns :
      (now : ℕ) (limit : Option ℕ) (h : List Message) (s : Storage l2.State)
      → IsCoherent h s
      → Settles calm (Returns (last_of limit h) h) (fetch_messages l2 now user_id chat_id limit s)
  unfolding fetch_messages ◌>>◌
  fetch_messages-Returns now limit h s c =
      Settles->>= calm (Selected h h h) (Returns (last_of limit h) h)
        (with_conn (reading (select_messages user_id chat_id)))
        (λ rows. cache_messages l2 now user_id chat_id (map row_to_message rows) >>= (λ _.
          save (map row_to_message rows) >>= (λ _. pure (last_of limit (map row_to_message rows)))))
        s (select-Coherent calm l2 laws user_id chat_id h h h s c)
        (λ rows t (d, e). stored (map row_to_message rows) t d e)
    where
      save : List Message → Action l2 (Unit {0})
      save xs = l2_write l2 (l2.set_messages (cache_key user_id chat_id) (map message_to_dict xs))

      saved :
          (xs : List Message) (t : Storage l2.State)
          → Between xs h h tt t
          → xs ≡ h
          → Settles calm
              (Returns (last_of limit h) h)
              ((save xs >>= (λ _. pure (last_of limit xs))) t)
      saved xs t d e =
          Settles->>= calm (Between xs xs h) (Returns (last_of limit h) h) (save xs)
            (λ _. pure (last_of limit xs)) t
            (set_messages-Coherent calm l2 laws user_id chat_id xs h h xs t
              (subst Restores (sym e) (Coherent-Restores xs h h t d)) d)
            (λ _ u f.
              (ap (last_of limit) e, subst (λ ys. Coherent calm l2 user_id chat_id ys ys h u) e f))

      stored :
          (xs : List Message) (t : Storage l2.State)
          → IsCoherent h t
          → xs ≡ h
          → Settles calm (Returns (last_of limit h) h) (
              (cache_messages l2 now user_id chat_id xs
                  >>= (λ _. save xs >>= (λ _. pure (last_of limit xs))))
                t)
      stored xs t d e =
          Settles->>= calm (Between xs h h) (Returns (last_of limit h) h)
            (cache_messages l2 now user_id chat_id xs)
            (λ _. save xs >>= (λ _. pure (last_of limit xs))) t
            (cache_messages-Coherent calm l2 laws user_id chat_id now h h h xs t d)
            (λ _ u f. saved xs u f e)

  messages_from_l2-Returns :
      (now : ℕ) (limit : Option ℕ) (h : List Message) (found : Option (List MessageDict))
      (s : Storage l2.State)
      → Shown h found s
      → Settles calm
          (Returns (last_of limit h) h)
          (messages_from_l2 l2 now user_id chat_id limit found s)
  unfolding messages_from_l2 ◌>>◌
  messages_from_l2-Returns now limit h none s (c, shown) = fetch_messages-Returns now limit h s c
  messages_from_l2-Returns now limit h (some ds) s (c, shown) =
      let e = shown ds refl in
      Settles->>= calm (Between (map dict_to_message ds) h h) (Returns (last_of limit h) h)
        (cache_messages l2 now user_id chat_id (map dict_to_message ds))
        (λ _. pure (last_of limit (map dict_to_message ds))) s
        (cache_messages-Coherent calm l2 laws user_id chat_id now h h h (map dict_to_message ds) s
          c)
        (λ _ t d.
          (ap (last_of limit) e, subst (λ ys. Coherent calm l2 user_id chat_id ys h h t) e d))

  messages_from_cache-Returns :
      (now : ℕ) (limit : Option ℕ) (h : List Message) (found : Option (List Message))
      (s : Storage l2.State)
      → Cached h h h found s
      → Settles calm
          (Returns (last_of limit h) h)
          (messages_from_cache l2 now user_id chat_id limit found s)
  unfolding messages_from_cache
  messages_from_cache-Returns now limit h (some ms) s (c, held) =
      (ap (last_of limit) (held ms refl), c)
  messages_from_cache-Returns now limit h none s (c, held) =
      Settles->>= calm (Shown h) (Returns (last_of limit h) h)
        (l2_read l2 (l2.get_messages (cache_key user_id chat_id)))
        (messages_from_l2 l2 now user_id chat_id limit) s
        (read_messages-Coherent calm l2 laws user_id chat_id h h h s c)
        (λ found t d. messages_from_l2-Returns now limit h found t d)

  -- With coherent caches, warm or cold: what `get_messages` returns is the end of the database's list,
  -- and the caches stay coherent.
  pub get_messages-Returns :
      (now : ℕ) (limit : Option ℕ) (h : List Message) (s : Storage l2.State)
      → IsCoherent h s
      → Settles calm (Returns (last_of limit h) h) (get_messages l2 now user_id chat_id limit s)
  unfolding get_messages
  get_messages-Returns now limit h s c =
      Settles->>= calm (Cached h h h) (Returns (last_of limit h) h)
        (get_cached_messages l2 now user_id chat_id)
        (messages_from_cache l2 now user_id chat_id limit) s
        (get_cached-Coherent calm l2 laws user_id chat_id now h h h s c)
        (λ found t d. messages_from_cache-Returns now limit h found t d)

  -- A process that starts agrees with the database on the chat, where Redis has nothing of it.
  pub init_storage-IsCoherent :
      (cache_ttl : ℕ) (tables : Tables) (remote : l2.State) (faults : List Bool)
      → (l2.get_messages (cache_key user_id chat_id) remote).1 ≡ none
      → (calm ≡ true → faults ≡ [])
      → IsCoherent (history user_id chat_id tables) (init_storage cache_ttl tables remote faults)
  unfolding init_storage Lru.init Dict.lookup
  init_storage-IsCoherent cache_ttl tables remote faults empty quiet = record {
    room = omega arith;
    held = λ e h. absurd (cc h);
    shown = λ ds h. absurd (cc (h, empty));
    rows = refl;
    quiet = quiet;
  }
