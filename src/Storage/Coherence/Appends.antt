-- ===== src/Storage/Coherence/Appends.antt =====
-- `append_messages_to_chat` of assets/backend/postgres_storage.py on one chat, and a read behind it.
use mathlib.Core.Path.{subst}
use rag_agent_chatbot.Prelude.{
  ℕ, String, ◌≡◌, refl, ap, sym, ◌∙◌, Bool, true, false, Option, none, some, List, [], ◌∷◌, ◌++◌,
  append-nil, map, if◌then◌else◌,
}
use rag_agent_chatbot.Cache.{cache_key}
use rag_agent_chatbot.Storage.Messages.{Message, row_to_message, message_to_dict}
use rag_agent_chatbot.Storage.Sql.{Tables, select_messages, append_transaction}
use rag_agent_chatbot.Storage.Sql.Histories.{Restores, append_transaction-Extends}
use rag_agent_chatbot.Storage.State.{
  L2Cache, Storage, Result, Action, pure, with_conn, reading, next_fault, ◌>>=◌, ◌>>◌,
  connection_error, l2_write, last_of,
}
use rag_agent_chatbot.Storage.Conversations.{
  get_cached_messages, cache_messages, forget_chat_list, reload_messages_from_db, get_messages,
  combine, after_append, append_messages_to_chat,
}
use rag_agent_chatbot.Storage.Coherence.{
  MessagesLaws, Settles, Settles->>=, Coherent, get_cached-Coherent, cache_messages-Coherent,
  set_messages-Coherent, forget_chats-Coherent, select-Coherent, forget_list-Coherent,
  raised_unless_calm, still_quiet,
}
use rag_agent_chatbot.Storage.Coherence.Messaging.{
  IsCoherent, Returns, Coherent-Restores, Selected, Cached, get_messages-Returns,
}

module _ (calm : Bool) (l2 : L2Cache) (laws : MessagesLaws l2) (user_id chat_id : String) where
  abbrev Combined : List Message → List Message → List Message → Storage l2.State → Type 0
  Combined old new xs t =
      Coherent calm l2 user_id chat_id old old (old ++ new) t × (xs ≡ old ++ new)

  combine-Combined :
      (old new : List Message) (found : Option (List Message)) (s : Storage l2.State)
      → Restores new
      → Cached calm l2 laws user_id chat_id old old (old ++ new) found s
      → Settles calm (Combined old new) (combine l2 user_id chat_id new found s)
  unfolding combine reload_messages_from_db
  combine-Combined old new (some ms) s r (c, held) = (c, ap (λ xs. xs ++ new) (held ms refl))
  combine-Combined old new none s r (c, held) =
      Settles->>= calm (Selected calm l2 laws user_id chat_id old old (old ++ new))
        (Combined old new) (with_conn (reading (select_messages user_id chat_id)))
        (λ rows. pure (map row_to_message rows)) s
        (select-Coherent calm l2 laws user_id chat_id old old (old ++ new) s c) (λ rows t d. d)

  abbrev Held : List Message → List Message → List Message → Unit {0} → Storage l2.State → Type 0
  Held near far h _ t = Coherent calm l2 user_id chat_id near far h t

  abbrev Done : List Message → List Message → Storage l2.State → Type 0
  Done h = Returns calm l2 laws user_id chat_id h h

  -- The calls behind the combined list, each with those that follow it.
  abbrev tell_redis : List Message → Action l2 (List Message)
  tell_redis xs =
      l2_write l2 (l2.set_messages (cache_key user_id chat_id) (map message_to_dict xs))
      >>= (λ _. l2_write l2 (l2.delete_chats user_id) >>= (λ _. pure xs))

  abbrev fill_caches : ℕ → List Message → Action l2 (List Message)
  fill_caches now xs =
      cache_messages l2 now user_id chat_id xs
      >>= (λ _. forget_chat_list l2 user_id >>= (λ _. tell_redis xs))

  tell_redis-Done :
      (h far : List Message) (s : Storage l2.State)
      → Held h far h tt s
      → Settles calm (Done h) (tell_redis h s)
  tell_redis-Done h far s c =
      Settles->>= calm (Held h h h) (Done h)
        (l2_write l2 (l2.set_messages (cache_key user_id chat_id) (map message_to_dict h)))
        (λ _. l2_write l2 (l2.delete_chats user_id) >>= (λ _. pure h)) s
        (set_messages-Coherent calm l2 laws user_id chat_id h far h h s
          (Coherent-Restores calm l2 laws user_id chat_id h far h s c) c)
        (λ _ t d.
          Settles->>= calm (Held h h h) (Done h) (l2_write l2 (l2.delete_chats user_id))
            (λ _. pure h) t (forget_chats-Coherent calm l2 laws user_id chat_id h h h t d)
            (λ _ u f. (refl, f)))

  fill_caches-Done :
      (now : ℕ) (h near far : List Message) (s : Storage l2.State)
      → Held near far h tt s
      → Settles calm (Done h) (fill_caches now h s)
  fill_caches-Done now h near far s c =
      Settles->>= calm (Held h far h) (Done h) (cache_messages l2 now user_id chat_id h)
        (λ _. forget_chat_list l2 user_id >>= (λ _. tell_redis h)) s
        (cache_messages-Coherent calm l2 laws user_id chat_id now near far h h s c)
        (λ _ t d.
          Settles->>= calm (Held h far h) (Done h) (forget_chat_list l2 user_id) (λ _. tell_redis h)
            t (forget_list-Coherent calm l2 laws user_id chat_id h far h t d)
            (λ _ u f. tell_redis-Done h far u f))

  after_append-Done :
      (now : ℕ) (old new : List Message) (s : Storage l2.State)
      → Restores new
      → Coherent calm l2 user_id chat_id old old (old ++ new) s
      → Settles calm (Done (old ++ new)) (after_append l2 now user_id chat_id new true s)
  unfolding after_append ◌>>◌
  after_append-Done now old new s r c =
      Settles->>= calm (Cached calm l2 laws user_id chat_id old old (old ++ new))
        (Done (old ++ new)) (get_cached_messages l2 now user_id chat_id)
        (λ cached. combine l2 user_id chat_id new cached >>= fill_caches now) s
        (get_cached-Coherent calm l2 laws user_id chat_id now old old (old ++ new) s c)
        (λ found t d.
          Settles->>= calm (Combined old new) (Done (old ++ new))
            (combine l2 user_id chat_id new found) (fill_caches now) t
            (combine-Combined old new found t r d)
            (λ xs u (f, e).
              subst (λ ys. Settles calm (Done (old ++ new)) (fill_caches now ys u)) (sym e)
                (fill_caches-Done now (old ++ new) old old u f)))

  -- What the chat holds behind an append, given whether the chat is the user's.
  abbrev pub grown : List Message → List Message → Bool → List Message
  grown old new owned = if owned then old ++ new else old

  after_append-grown :
      (now : ℕ) (old new : List Message) (owned : Bool) (s : Storage l2.State)
      → Restores new
      → Coherent calm l2 user_id chat_id old old (grown old new owned) s
      → Settles calm (Done (grown old new owned)) (after_append l2 now user_id chat_id new owned s)
  unfolding after_append last_of
  after_append-grown now old new true s r c = after_append-Done now old new s r c
  after_append-grown now old new false s r c =
      get_messages-Returns calm l2 laws user_id chat_id now none old s c

  grown_none : (old : List Message) (owned : Bool) → grown old [] owned ≡ old
  grown_none old true = append-nil old
  grown_none old false = refl

  transaction-Coherent :
      (now : ℕ) (old new : List Message) (s : Storage l2.State)
      → Restores new
      → IsCoherent calm l2 laws user_id chat_id old s
      → Settles calm
          (λ owned t.
            (owned ≡ (append_transaction now user_id chat_id new s.tables).1)
            × Coherent calm l2 user_id chat_id old old
                (grown old new (append_transaction now user_id chat_id new s.tables).1)
                t)
          (with_conn (append_transaction now user_id chat_id new) s)
  unfolding with_conn
  transaction-Coherent now old new s r c = go (next_fault s.faults).0 refl
    where
      result : Tables × Bool
      result = append_transaction now user_id chat_id new s.tables

      Post : Bool → Storage l2.State → Type 0
      Post owned t =
          (owned ≡ result.1) × Coherent calm l2 user_id chat_id old old (grown old new result.1) t

      go :
          (b : Bool)
          → (next_fault s.faults).0 ≡ b
          → Settles calm Post (
              if b
              then (record s { faults = (next_fault s.faults).1 }, Result.raise connection_error)
              else (
                record s { tables = result.0; faults = (next_fault s.faults).1 },
                Result.ok result.1,
              ))
      go true e = raised_unless_calm calm s.faults c.quiet e
      go false e = (
        refl,
        record {
          room = c.room;
          held = c.held;
          shown = c.shown;
          rows =
              append_transaction-Extends now user_id chat_id new s.tables r
              ∙ ap (λ h. grown h new result.1) c.rows;
          quiet = λ q. still_quiet s.faults (c.quiet q);
        },
      )

  pub append_messages-Done :
      (now : ℕ) (old new : List Message) (s : Storage l2.State)
      → Restores new
      → IsCoherent calm l2 laws user_id chat_id old s
      → Settles calm
          (Done (grown old new (append_transaction now user_id chat_id new s.tables).1))
          (append_messages_to_chat l2 now user_id chat_id new s)
  unfolding append_messages_to_chat last_of
  append_messages-Done now old [] s r c =
      subst (λ h. Settles calm (Done h) (get_messages l2 now user_id chat_id none s))
        (sym (grown_none old (append_transaction now user_id chat_id [] s.tables).1))
        (get_messages-Returns calm l2 laws user_id chat_id now none old s c)
  append_messages-Done now old (m ∷ ms) s r c =
      let mine = (append_transaction now user_id chat_id (m ∷ ms) s.tables).1 in
      Settles->>= calm
        (λ owned t.
          (owned ≡ mine) × Coherent calm l2 user_id chat_id old old (grown old (m ∷ ms) mine) t)
        (Done (grown old (m ∷ ms) mine))
        (with_conn (append_transaction now user_id chat_id (m ∷ ms)))
        (after_append l2 now user_id chat_id (m ∷ ms)) s
        (transaction-Coherent now old (m ∷ ms) s r c)
        (λ owned t (e, d).
          subst
            (λ b.
              Settles calm (Done (grown old (m ∷ ms) mine))
                (after_append l2 now user_id chat_id (m ∷ ms) b t))
            (sym e) (after_append-grown now old (m ∷ ms) mine t r d))

  -- An append and a read behind it, over any cache in Redis with the laws.
  pub append_get-Returns :
      (now later : ℕ) (limit : Option ℕ) (old new : List Message) (s : Storage l2.State)
      → Restores new
      → IsCoherent calm l2 laws user_id chat_id old s
      → let h = grown old new (append_transaction now user_id chat_id new s.tables).1 in
        Settles calm (Returns calm l2 laws user_id chat_id (last_of limit h) h) (
          (append_messages_to_chat l2 now user_id chat_id new
              >>= (λ _. get_messages l2 later user_id chat_id limit))
            s)
  append_get-Returns now later limit old new s r c =
      let h = grown old new (append_transaction now user_id chat_id new s.tables).1 in
      Settles->>= calm (Done h) (Returns calm l2 laws user_id chat_id (last_of limit h) h)
        (append_messages_to_chat l2 now user_id chat_id new)
        (λ _. get_messages l2 later user_id chat_id limit) s
        (append_messages-Done now old new s r c)
        (λ out t (e, d). get_messages-Returns calm l2 laws user_id chat_id later limit h t d)
