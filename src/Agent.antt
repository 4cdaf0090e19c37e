-- ===== src/Agent.antt =====
-- `ChatAgent` of assets/backend/agent.py: `query`, `_run_graph`, `generate` and
-- `_persist_conversation`, which share the fields of one object. A query runs in segments, each from
-- one suspension to the next; between two of them other queries may run. The graph library is
-- taken by what it documents: the states that it yields. Tracing and logging are left out.
pub mod Turns
pub mod Serial
pub mod Overlap
pub mod Mixup
use rag_agent_chatbot.Prelude.{
  ℕ, ◌+◌, String, Bool, true, false, not, ◌||◌, Option, none, some, List, [], ◌∷◌, ◌++◌, ◌==◌, ltb,
  str_eq, map, if◌then◌else◌, any_of, keep_if,
}
use rag_agent_chatbot.Text.{Text, joined}
use rag_agent_chatbot.Stream.{Usage, Chunk, Stream, stream_response}

pub data AnyMessage : Type 0 where
  human ai system : Text → AnyMessage

-- What stands in a `token_q`, `SENTINEL` included.
pub data Item : Type 0 where
  node_start node_end done sentinel : Item
  token : Text → Item
  usage : Usage → Item
  failed : Item

-- A call of `append_messages_to_chat`.
pub record Append : Type 0 where
  pub user_id : String
  pub chat_id : String
  pub messages : List AnyMessage

-- The fields that the queries share. `stream_callback` is known by the query whose queue it writes
-- to; `saved` holds the calls of the storage, in order.
pub record ChatAgent : Type 0 where
  pub current_model : String
  pub stream_callback : ℕ
  pub last_state : Option (List AnyMessage)
  pub usage_accumulator : Usage
  pub queues : ℕ → List Item
  pub saved : List Append

-- A query, with what it meets: the answers of the configuration at its launch, and the chunks of the
-- completion, or none where retrieval or the model raises.
pub record Query : Type 0 where
  pub query_text : Text
  pub chat_id : String
  pub user_id : String
  pub selected_model : String
  pub available_models : List String
  pub completion : Option (List Chunk)

-- Where a query stands: the segment that comes next, with its local variables. `ended` says whether
-- the graph has raised.
pub data Phase : Type 0 where
  waiting launched started : Phase
  streaming : ℕ → List Chunk → Phase
  streamed : Option Stream → Phase
  generated : List AnyMessage → Phase
  ended : Bool → Phase
  saving closed : Phase

abbrev pub update {ℓ} : {A : Type ℓ} → (ℕ → A) → ℕ → A → ℕ → A
update f i a j = if i == j then a else f j

abbrev pub no_usage : Usage
no_usage = record { prompt_tokens = 0; completion_tokens = 0; total_tokens = 0 }

abbrev pub add_usage : Usage → Usage → Usage
add_usage u v = record {
  prompt_tokens = u.prompt_tokens + v.prompt_tokens;
  completion_tokens = u.completion_tokens + v.completion_tokens;
  total_tokens = u.total_tokens + v.total_tokens;
}

-- `token_q.put`, of the queue of query `i`
unfoldable pub put_items : ℕ → List Item → ChatAgent → ChatAgent
put_items i items a = record a { queues = update a.queues i (a.queues i ++ items) }

-- `await self.stream_callback(…)`: the callback is read now.
unfoldable pub call_back : List Item → ChatAgent → ChatAgent
unfolding put_items
call_back items a = put_items a.stream_callback items a

abbrev pub initial_messages : Query → List AnyMessage
initial_messages q = human q.query_text ∷ []

-- `query`, up to its first `get`: `set_current_model` raises for a model that is not available.
unfoldable pub launch : ℕ → Query → ChatAgent → Phase × ChatAgent
unfolding put_items
launch i q a =
    if str_eq a.current_model q.selected_model
      || any_of (str_eq q.selected_model) q.available_models
    then (
      launched,
      record a {
        current_model = q.selected_model;
        stream_callback = i;
        last_state = none;
        usage_accumulator = no_usage;
        queues = update a.queues i [];
      },
    )
    else (closed, put_items i (failed ∷ []) a)

-- The head of `generate`. `emits_input` says whether the graph yields the state it is given first.
unfoldable pub start_node : Bool → Query → ChatAgent → Phase × ChatAgent
unfolding call_back
start_node emits_input q a =
    let a₁ = if emits_input then record a { last_state = some (initial_messages q) } else a in
    let a₂ = call_back (node_start ∷ []) a₁ in
    (if str_eq q.user_id "" then ended true else started, a₂)

-- The stream is there: the callback is read, for all of its tokens.
unfoldable pub open_stream : Query → ChatAgent → Phase × ChatAgent
open_stream q a = elim q.completion [
  | none ↦ (ended true, a)
  | some chunks ↦ (streaming a.stream_callback chunks, a)
]

unfoldable pub put_tokens : ℕ → Option Stream → ChatAgent → ChatAgent
unfolding put_items
put_tokens sink none a = a
put_tokens sink (some s) a = put_items sink (map token s.output) a

-- `if usage:`
unfoldable pub count_usage : Option Usage → ChatAgent → ChatAgent
count_usage none a = a
count_usage (some u) a = record a { usage_accumulator = add_usage a.usage_accumulator u }

abbrev pub usage_items : Usage → List Item
usage_items u = if ltb 0 u.total_tokens then usage u ∷ [] else []

-- The rest of `generate`, behind the stream.
unfoldable pub finish_node : Query → Option Stream → ChatAgent → Phase × ChatAgent
unfolding call_back count_usage
finish_node q none a = (ended true, a)
finish_node q (some s) a =
    let a₁ = count_usage s.usage a in
    (
      generated (initial_messages q ++ ai (joined s.output) ∷ []),
      call_back (usage_items a₁.usage_accumulator ++ node_end ∷ []) a₁,
    )

abbrev pub has_messages : Option (List AnyMessage) → Bool
has_messages none = false
has_messages (some []) = false
has_messages (some (m ∷ ms)) = true

-- The `finally` of `_run_graph`, and behind the sentinel the error that `query` yields where the graph
-- has raised.
unfoldable pub end_graph : ℕ → Bool → ChatAgent → Phase × ChatAgent
unfolding put_items
end_graph i raised a = (
  if has_messages a.last_state then saving else closed,
  put_items i (done ∷ sentinel ∷ (if raised then failed ∷ [] else [])) a,
)

abbrev pub not_system : AnyMessage → Bool
not_system (human content) = true
not_system (ai content) = true
not_system (system content) = false

-- `_persist_conversation`. With no state, the subscript raises and nothing is saved.
unfoldable pub persist_conversation : Query → Option (List AnyMessage) → ChatAgent → ChatAgent
persist_conversation q none a = a
persist_conversation q (some messages) a = record a {
  saved =
      a.saved
      ++ (record {
        user_id = q.user_id;
        chat_id = q.chat_id;
        messages = keep_if not_system messages;
      })
        ∷ [];
}

-- The next segment of query `i`.
unfoldable pub advance : Bool → ℕ → Query → Phase → ChatAgent → Phase × ChatAgent
unfolding launch start_node open_stream put_tokens finish_node end_graph persist_conversation
advance emits_input i q waiting a = launch i q a
advance emits_input i q launched a = start_node emits_input q a
advance emits_input i q started a = open_stream q a
advance emits_input i q (streaming sink chunks) a =
    (streamed (stream_response chunks), put_tokens sink (stream_response chunks) a)
advance emits_input i q (streamed s) a = finish_node q s a
advance emits_input i q (generated messages) a =
    (ended false, record a { last_state = some messages })
advance emits_input i q (ended raised) a = end_graph i raised a
advance emits_input i q saving a = (closed, persist_conversation q a.last_state a)
advance emits_input i q closed a = (closed, a)

-- The queries and the agent.
pub record System : Type 0 where
  pub agent : ChatAgent
  pub phases : ℕ → Phase

module _ (emits_input : Bool) (queries : ℕ → Query) where
  unfoldable pub turn : ℕ → System → System
  unfolding advance
  turn i s =
      let (phase, agent) = advance emits_input i (queries i) (s.phases i) s.agent in
      record { agent = agent; phases = update s.phases i phase }

  -- The queries in the order in which they run their segments.
  unfoldable pub run : List ℕ → System → System
  unfolding turn
  run [] s = s
  run (i ∷ schedule) s = run schedule (turn i s)
