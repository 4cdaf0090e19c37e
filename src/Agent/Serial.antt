-- ===== src/Agent/Serial.antt =====
-- A query of assets/backend/agent.py that runs with no other query between its segments.
use rag_agent_chatbot.Prelude.{
  ℕ, ◌+◌, ◌≡◌, refl, ap, ◌∙◌, Bool, true, false, Option, none, some, List, [], ◌∷◌, ◌++◌, str_eq,
  map, if◌then◌else◌, any_of, ◌<◌, take, append_assoc, arith, Bool-cases, inl, inr,
}
use rag_agent_chatbot.Text.{joined}
use rag_agent_chatbot.Stream.{Usage, Chunk, Stream, stream_response}
use rag_agent_chatbot.Stream.Received.{received, NoToolFinish}
use rag_agent_chatbot.Stream.Shown.{unshown, stream_response_lem}
use rag_agent_chatbot.Think.{open_tag}
use rag_agent_chatbot.Think.Strip.{strip_think}
use rag_agent_chatbot.Agent.{
  AnyMessage, human, ai, Item, node_start, node_end, done, sentinel, token, ChatAgent, Query, Phase,
  waiting, launched, started, streaming, streamed, generated, ended, saving, closed, update,
  no_usage, put_items, call_back, initial_messages, launch, start_node, open_stream, put_tokens,
  count_usage, usage_items, finish_node, end_graph, persist_conversation, advance, System, run,
}
use rag_agent_chatbot.Agent.Turns.{alone, run-alone, steps, steps_add, then_steps, update_self}

-- The usage event of a completion: it is left out where nothing was counted.
abbrev pub usage_sent : Option Usage → List Item
usage_sent none = []
usage_sent (some u) = usage_items u

-- The agents that the segments of a query leave, one by one.
module _ (emits_input : Bool) (i : ℕ) (q : Query) (a : ChatAgent) (out : Stream) where
  abbrev pub after_launch : ChatAgent
  after_launch = record a {
    current_model = q.selected_model;
    stream_callback = i;
    last_state = none;
    usage_accumulator = no_usage;
    queues = update a.queues i [];
  }

  abbrev pub after_start : ChatAgent
  after_start =
      put_items i (node_start ∷ []) (record after_launch {
        last_state = if emits_input then some (initial_messages q) else none;
      })

  abbrev pub after_tokens : ChatAgent
  after_tokens = put_items i (map token out.output) after_start

  abbrev pub counted : ChatAgent
  counted = count_usage out.usage after_tokens

  abbrev pub last_items : List Item
  last_items = usage_items counted.usage_accumulator ++ node_end ∷ []

  abbrev pub turn_messages : List AnyMessage
  turn_messages = initial_messages q ++ ai (joined out.output) ∷ []

  abbrev pub after_node : ChatAgent
  after_node = put_items i last_items counted

  abbrev pub after_graph : ChatAgent
  after_graph =
      put_items i (done ∷ sentinel ∷ []) (record after_node { last_state = some turn_messages })

  abbrev pub at_end : ChatAgent
  at_end = record after_graph {
    saved =
        after_graph.saved
        ++ (record { user_id = q.user_id; chat_id = q.chat_id; messages = turn_messages }) ∷ [];
  }

  pub launch-available :
      any_of (str_eq q.selected_model) q.available_models ≡ true
      → advance emits_input i q waiting a ≡ (launched, after_launch)
  unfolding advance launch
  launch-available listed = elim (Bool-cases (str_eq a.current_model q.selected_model)) [
    | inl e ↦ rw e refl
    | inr e ↦ rw (e, listed) refl
  ]

  pub start_node-named :
      str_eq q.user_id "" ≡ false
      → advance emits_input i q launched after_launch ≡ (started, after_start)
  unfolding advance start_node call_back put_items
  start_node-named named = elim (Bool-cases emits_input) [
    | inl e ↦ rw (e, named) refl
    | inr e ↦ rw (e, named) refl
  ]

  finish_node-counted :
      advance emits_input i q (streamed (some out)) after_tokens
      ≡ (generated turn_messages, after_node)
  unfolding advance finish_node call_back put_items count_usage
  finish_node-counted = ap (λ x. (generated turn_messages, x)) (by_usage out.usage)
    where
      by_usage :
          (u : Option Usage)
          → call_back
              (usage_items (count_usage u after_tokens).usage_accumulator ++ node_end ∷ [])
              (count_usage u after_tokens)
            ≡ put_items i
                (usage_items (count_usage u after_tokens).usage_accumulator ++ node_end ∷ [])
                (count_usage u after_tokens)
      by_usage none = refl
      by_usage (some u) = refl

  -- The first five segments, up to the reply.
  pub steps-after_node :
      (chunks : List Chunk)
      → any_of (str_eq q.selected_model) q.available_models ≡ true
      → str_eq q.user_id "" ≡ false
      → q.completion ≡ some chunks
      → stream_response chunks ≡ some out
      → steps emits_input i q 5 (waiting, a) ≡ (generated turn_messages, after_node)
  unfolding advance open_stream put_tokens put_items steps
  steps-after_node chunks listed named completes streams =
      then_steps emits_input i q 4 waiting launched a after_launch (launch-available listed)
      ∙ then_steps emits_input i q 3 launched started after_launch after_start
          (start_node-named named)
      ∙ then_steps emits_input i q 2 started (streaming i chunks) after_start after_start (
          ap
            (λ (c : Option (List Chunk)). elim c as (λ _. Phase × ChatAgent) [
              | none ↦ (ended true, after_start)
              | some chunks' ↦ (streaming i chunks', after_start)
            ])
            completes)
      ∙ then_steps emits_input i q 1 (streaming i chunks) (streamed (some out)) after_start
          after_tokens (ap (λ r. (streamed r, put_tokens i r after_start)) streams)
      ∙ finish_node-counted

  -- All but the last.
  pub steps-after_graph :
      (chunks : List Chunk)
      → any_of (str_eq q.selected_model) q.available_models ≡ true
      → str_eq q.user_id "" ≡ false
      → q.completion ≡ some chunks
      → stream_response chunks ≡ some out
      → steps emits_input i q 7 (waiting, a) ≡ (saving, after_graph)
  unfolding advance put_items end_graph steps
  steps-after_graph chunks listed named completes streams =
      steps_add emits_input i q 5 2 (waiting, a)
      ∙ ap (steps emits_input i q 2) (steps-after_node chunks listed named completes streams)

  -- The eight segments.
  steps-at_end :
      (chunks : List Chunk)
      → any_of (str_eq q.selected_model) q.available_models ≡ true
      → str_eq q.user_id "" ≡ false
      → q.completion ≡ some chunks
      → stream_response chunks ≡ some out
      → steps emits_input i q 8 (waiting, a) ≡ (closed, at_end)
  unfolding advance put_items end_graph persist_conversation steps
  steps-at_end chunks listed named completes streams =
      steps_add emits_input i q 5 3 (waiting, a)
      ∙ ap (steps emits_input i q 3) (steps-after_node chunks listed named completes streams)

  counted_queue : counted.queues i ≡ node_start ∷ map token out.output
  unfolding count_usage put_items
  counted_queue = by_usage out.usage
    where
      tokens : after_tokens.queues i ≡ node_start ∷ map token out.output
      tokens =
          update_self after_start.queues i (after_start.queues i ++ map token out.output)
          ∙ ap (λ l. l ++ map token out.output)
              (update_self after_launch.queues i (after_launch.queues i ++ node_start ∷ [])
                ∙ ap (λ l. l ++ node_start ∷ []) (update_self a.queues i []))

      by_usage :
          (u : Option Usage)
          → (count_usage u after_tokens).queues i ≡ node_start ∷ map token out.output
      by_usage none = tokens
      by_usage (some u) = tokens

  pub counted_saved : counted.saved ≡ a.saved
  unfolding count_usage put_items
  counted_saved = by_usage out.usage
    where
      by_usage : (u : Option Usage) → (count_usage u after_tokens).saved ≡ a.saved
      by_usage none = refl
      by_usage (some u) = refl

  counted_usage : usage_items counted.usage_accumulator ≡ usage_sent out.usage
  unfolding count_usage put_items
  counted_usage = by_usage out.usage
    where
      by_usage :
          (u : Option Usage)
          → usage_items (count_usage u after_tokens).usage_accumulator ≡ usage_sent u
      by_usage none = refl
      by_usage (some u) =
          let p : 0 + u.prompt_tokens ≡ u.prompt_tokens = omega arith in
          let c : 0 + u.completion_tokens ≡ u.completion_tokens = omega arith in
          let n : 0 + u.total_tokens ≡ u.total_tokens = omega arith in
          ap usage_items
            (λ k. record { prompt_tokens = p k; completion_tokens = c k; total_tokens = n k })

  -- What the queue holds at the end.
  at_end_queue :
      at_end.queues i
      ≡ node_start
        ∷ (map token out.output ++ (usage_sent out.usage ++ node_end ∷ done ∷ sentinel ∷ []))
  unfolding put_items
  at_end_queue =
      let toks = node_start ∷ map token out.output in
      update_self after_node.queues i (after_node.queues i ++ done ∷ sentinel ∷ [])
      ∙ ap (λ l. l ++ done ∷ sentinel ∷ [])
          (update_self counted.queues i (counted.queues i ++ last_items)
            ∙ ap (λ l. l ++ last_items) counted_queue
            ∙ ap (λ l. toks ++ (l ++ node_end ∷ [])) counted_usage)
      ∙ append_assoc toks (usage_sent out.usage ++ node_end ∷ []) (done ∷ sentinel ∷ [])
      ∙ ap (λ l. toks ++ l)
          (append_assoc (usage_sent out.usage) (node_end ∷ []) (done ∷ sentinel ∷ []))

  pub at_end_saved :
      at_end.saved
      ≡ a.saved
        ++ (record { user_id = q.user_id; chat_id = q.chat_id; messages = turn_messages }) ∷ []
  unfolding put_items
  at_end_saved =
      ap
        (λ l.
          l ++ (record { user_id = q.user_id; chat_id = q.chat_id; messages = turn_messages }) ∷ [])
        counted_saved

-- A query whose segments run with no other query's between them, from whatever state an earlier one
-- has left, for an available model, a named user, and a completion in which no choice ends in tool
-- calls: it ends; its queue holds the start, the tokens of the reply, the usage if there is any, the
-- end and the sentinel; exactly its question and its reply are saved, under its user and chat, where
-- the reply is what `_stream_response` sends for the completion; and this, with a proper beginning of
-- `<think>` that is left unshown, is the received text without its `<think>` blocks.
pub run-alone_turn :
    (emits_input : Bool) (queries : ℕ → Query) (i : ℕ) (s : System) (chunks : List Chunk)
    → s.phases i ≡ waiting
    → any_of (str_eq (queries i).selected_model) (queries i).available_models ≡ true
    → str_eq (queries i).user_id "" ≡ false
    → (queries i).completion ≡ some chunks
    → NoToolFinish chunks
    → let t = run emits_input queries (alone 8 i) s in
      let q = queries i in
      (out : Stream) × (stream_response chunks ≡ some out)
      × (t.phases i ≡ closed)
      × (t.agent.queues i
          ≡ node_start
            ∷ (map token out.output ++ (usage_sent out.usage ++ node_end ∷ done ∷ sentinel ∷ [])))
      × (t.agent.saved
          ≡ s.agent.saved
            ++ (record {
              user_id = q.user_id;
              chat_id = q.chat_id;
              messages = human q.query_text ∷ ai (joined out.output) ∷ [];
            })
              ∷ [])
      × (joined out.output ++ unshown out ≡ strip_think (received chunks))
      × ((k : ℕ) × (k < 7) × (unshown out ≡ take k open_tag))
run-alone_turn emits_input queries i s chunks idle listed named completes plain =
    let q = queries i in
    let (out, streams, shown, held) = stream_response_lem chunks plain in
    let ends =
      run-alone emits_input queries 8 i s waiting idle
      ∙ steps-at_end emits_input i q s.agent out chunks listed named completes streams in
    (
      out,
      streams,
      ap (λ (r : Phase × ChatAgent). r.0) ends,
      ap (λ (r : Phase × ChatAgent). r.1.queues i) ends ∙ at_end_queue emits_input i q s.agent out,
      ap (λ (r : Phase × ChatAgent). r.1.saved) ends ∙ at_end_saved emits_input i q s.agent out,
      shown,
      held,
    )
