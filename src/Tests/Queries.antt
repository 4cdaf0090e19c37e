-- ===== src/Tests/Queries.antt =====
-- Queries, histories, uploads and the connection pool of assets/backend at concrete inputs.
use rag_agent_chatbot.Prelude.{
  ℕ, zero, suc, String, ◌≡◌, ◌≢◌, ◌↔◌, refl, ap, Bool, true, false, Option, none, some, List, [],
  ◌∷◌, ◌++◌, arith, All, eq_iff, str_eq, sym, ◌∙◌, Bool-cases, inl, inr, if◌then◌else◌,
}
use Prim.Native.String.{◌++◌ as ◌<>◌}
use mathlib.Core.Bool.{false≢true}
use rag_agent_chatbot.Text.{codes}
use rag_agent_chatbot.Lru
use rag_agent_chatbot.Dict
use rag_agent_chatbot.Cache.{Codec, Partial, RedisCache, get_json}
use rag_agent_chatbot.Cache.Client.{done}
use rag_agent_chatbot.Storage.Messages.{ToolCall, Message, MessageDict, human, row_to_message}
use rag_agent_chatbot.Storage.Sql.{owner_of, conversation_exists, select_messages}
use rag_agent_chatbot.Storage.Sql.Histories.{history}
use rag_agent_chatbot.Storage.State.{L2Cache, Storage, last_of, ◌>>=◌}
use rag_agent_chatbot.Storage.Conversations.{append_messages_to_chat, get_messages}
use rag_agent_chatbot.Storage.Coherence.{MessagesLaws, Settles}
use rag_agent_chatbot.Storage.Coherence.Messaging.{IsCoherent, Returns}
use rag_agent_chatbot.Storage.Coherence.Shared.{
  redis_l2, TakesValues, redis_l2-MessagesLaws, append_get_messages,
}
use rag_agent_chatbot.Storage.Pool.{
  Attempt, refused, no_tables, up, no_pool, init_pool, Connects, init_pool-Connects,
}
use rag_agent_chatbot.Main.Query.{Event, finished, token, stream_chat_query, stream_response_of}
use rag_agent_chatbot.Main.Query.Slots.{OtherKeys, Admitted, Running, stream_response_of_lem}
use rag_agent_chatbot.Main.Query.Owners.{IsRefused, stream_chat_query-other}
use rag_agent_chatbot.Main.Uploads.{chunk, ingest_files}
use rag_agent_chatbot.Main.Uploads.Sizes.{IsAccepted, Fits, Passes, ingest_files-Fits}
use rag_agent_chatbot.Tests.Redis.{one_key, one_key_laws, one_key_answers, settings, two_streams}
use rag_agent_chatbot.Tests.Tables.{empty_l2, two_chats, two_users}
use rag_agent_chatbot.Tests.Requests.{lenient, two_files}

abbrev user : String
user = "ann"

abbrev owner : String
owner = "bob"

owner≢user : owner ≢ user
owner≢user h = false≢true ((eq_iff owner user).1 h)

owner≢empty : owner ≢ ""
owner≢empty h = false≢true ((eq_iff owner "").1 h)

stream_chat_query-other_example :
    ((stream_chat_query one_key settings empty_l2 5 "2"
        (codes "hi")
        user
        (two_users, two_streams)).0.1
      ≡ two_streams)
    × IsRefused
        (stream_chat_query one_key settings empty_l2 5 "2"
          (codes "hi")
          user
          (two_users, two_streams)).1
unfolding owner_of conversation_exists Lru.get Dict.lookup
stream_chat_query-other_example =
    stream_chat_query-other empty_l2 one_key settings 5 user "2" owner (codes "hi") two_users
      two_streams refl owner≢user owner≢empty refl refl

one_key-OtherKeys : OtherKeys one_key one_key_laws
one_key-OtherKeys = record { set_lem = λ k j value ttl s n. refl; delete_lem = λ k j s n. refl }

abbrev no_json : Codec Partial
no_json = record { dumps = λ p. p.content; loads = λ s. none }

two_streams-Running :
    Running one_key one_key_laws one_key-OtherKeys settings no_json user one_key_answers two_streams
      2
two_streams-Running = record { up = refl; count = refl }

abbrev sent : List (Event × Bool)
sent = (token (some "Hel"), false) ∷ (token (some "lo"), true) ∷ []

stream_response_of_example :
    Admitted one_key one_key_laws one_key-OtherKeys settings no_json user one_key_answers empty_l2 2
      (stream_chat_query one_key settings empty_l2 5 "1" (codes "hi") user (two_users, two_streams))
    × Running one_key one_key_laws one_key-OtherKeys settings no_json user one_key_answers
        (stream_response_of one_key settings no_json empty_l2 5 "1"
          (codes "hi")
          user
          finished
          sent
          (two_users, two_streams)).0.1
        2
stream_response_of_example =
    stream_response_of_lem one_key one_key_laws one_key-OtherKeys settings no_json user
      one_key_answers empty_l2 5 "1" (codes "hi") finished sent two_users 2 two_streams
      two_streams-Running

some_eq : {A : Type 0} (a b : A) → some a ≡ some b → b ≡ a
some_eq a b h = cc

-- A codec that writes a list of one human message as its text, and reads nothing from no text.
abbrev of_text : String → MessageDict
of_text content = record {
  kind = "HumanMessage";
  content = content;
  tool_calls = none;
  tool_call_id = none;
  name = none;
}

abbrev text_of :
    Bool → Option (List ToolCall) → Option String → Option (Option String) → String → String
text_of true none none none content = content
text_of true none none (some name) content = ""
text_of true none (some id) name content = ""
text_of true (some calls) id name content = ""
text_of false calls id name content = ""

abbrev dump_one : List MessageDict → String
dump_one [] = ""
dump_one (d ∷ []) =
    text_of (str_eq d.kind "HumanMessage") d.tool_calls d.tool_call_id d.name d.content
dump_one (d ∷ e ∷ ds) = ""

abbrev one_message : Codec (List MessageDict)
one_message = record {
  dumps = dump_one;
  loads = λ s. if str_eq s "" then none else some (of_text s ∷ []);
}

abbrev chats : Codec (List String)
chats = record { dumps = λ cs. ""; loads = λ s. none }

loads-text_of :
    (kind content : String) (calls : Option (List ToolCall)) (id : Option String)
    (name : Option (Option String)) (ds : List MessageDict) (b : Bool)
    → str_eq kind "HumanMessage" ≡ b
    → one_message.loads (text_of b calls id name content) ≡ some ds
    → ds
      ≡ (record {
        kind = kind;
        content = content;
        tool_calls = calls;
        tool_call_id = id;
        name = name;
      })
        ∷ []
loads-text_of kind content none none none ds true k h = elim (Bool-cases (str_eq content "")) [
  | inl e ↦ absurd (cc (rw e at h))
  | inr e ↦
      some_eq (of_text content ∷ []) ds (rw e at h)
      ∙ ap
          (λ x.
            (record {
              kind = x;
              content = content;
              tool_calls = none;
              tool_call_id = none;
              name = none;
            })
            ∷ [])
          (sym ((eq_iff kind "HumanMessage").0 k))
]
loads-text_of kind content none none (some name) ds true k h = absurd (cc h)
loads-text_of kind content none (some id) name ds true k h = absurd (cc h)
loads-text_of kind content (some calls) id name ds true k h = absurd (cc h)
loads-text_of kind content calls id name ds false k h = absurd (cc h)

loads-dump_one : (ds ds' : List MessageDict) → one_message.loads (dump_one ds) ≡ some ds' → ds' ≡ ds
loads-dump_one [] ds' h = absurd (cc h)
loads-dump_one (d ∷ []) ds' h =
    loads-text_of d.kind d.content d.tool_calls d.tool_call_id d.name ds'
      (str_eq d.kind "HumanMessage") refl h
loads-dump_one (d ∷ e ∷ ds) ds' h = absurd (cc h)

some_of : (a b : Option String) → done a ≡ done b → a ≡ b
some_of a b h = cc

one_key-TakesValues : TakesValues one_key one_message
one_key-TakesValues = record {
  set_lem = λ k v w ttl s h. some_eq v w (some_of _ _ h);
  get_lem = λ k w s h. h;
  delete_lem = λ k j w s n h. absurd (cc h);
  loads_lem = loads-dump_one;
}

-- A process that has just started, on a Redis without messages.
abbrev cold : Storage (RedisCache one_key)
cold = record {
  tables = two_chats;
  message_cache = record { entries = []; max_size = 2; default_ttl = 300; hits = 0; misses = 0 };
  metadata_cache = record { entries = []; max_size = 2; default_ttl = 300; hits = 0; misses = 0 };
  chat_list_cache = [];
  l2 = two_streams;
  faults = [];
}

abbrev shared_l2 : L2Cache
shared_l2 = redis_l2 one_key settings one_message chats

abbrev shared_laws : MessagesLaws shared_l2
shared_laws = redis_l2-MessagesLaws one_key settings one_message chats one_key-TakesValues

abbrev turn : List Message
turn = human "more?" ∷ []

cold-IsCoherent : IsCoherent true shared_l2 shared_laws owner "2" [] cold
unfolding history select_messages row_to_message Dict.lookup get_json
cold-IsCoherent = record {
  room = omega arith;
  held = λ e h. absurd (cc h);
  shown = λ ds h. absurd (cc h);
  rows = refl;
  quiet = λ _. refl;
}

append_get_messages_example :
    Settles true (Returns true shared_l2 shared_laws owner "2" turn turn) (
      (append_messages_to_chat shared_l2 9 owner "2" turn
          >>= (λ _. get_messages shared_l2 10 owner "2" none))
        cold)
unfolding owner_of last_of
append_get_messages_example =
    append_get_messages one_key settings one_message chats one_key-TakesValues true owner "2" 9 10
      none [] turn cold (refl, tt) cold-IsCoherent

abbrev late : ℕ → Attempt
late zero = refused
late (suc zero) = no_tables
late (suc (suc n)) = up

init_pool_example : Connects late no_pool (init_pool late no_pool)
init_pool_example = init_pool-Connects late no_pool

two_files-Passes : All (Passes lenient (codes "up")) two_files
two_files-Passes = (
  record { extension = refl; inside = refl; magic = refl; whole = (refl, (refl, tt)) },
  (record { extension = refl; inside = refl; magic = refl; whole = (refl, tt) }, tt),
)

ingest_files-Fits_example :
    IsAccepted (ingest_files lenient (codes "up") two_files "private" []).1 ↔ Fits 0 two_files
ingest_files-Fits_example =
    ingest_files-Fits lenient (codes "up")
      (record { filename = some (codes "a.txt"); reads = chunk 5 ∷ chunk 0 ∷ [] })
      ((record { filename = none; reads = chunk 60000000 ∷ [] }) ∷ []) "private" [] refl
      two_files-Passes

-- The letter `A`, so many times.
abbrev capitals : ℕ → List ℕ
capitals zero = []
capitals (suc n) = 65 ∷ capitals n
