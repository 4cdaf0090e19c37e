-- ===== src/Agent/Mixup.antt =====
-- Two queries of assets/backend/agent.py, and what is saved for them: `_persist_conversation` reads the
-- state of the agent when it runs, which may be another query's by then.
use rag_agent_chatbot.Prelude.{
  ℕ, zero, suc, ◌≡◌, ◌≢◌, refl, ap, ◌∙◌, Bool, true, false, some, List, [], ◌∷◌, ◌++◌, ◌==◌, str_eq,
  any_of, keep_if, arith,
}
use rag_agent_chatbot.Text.{joined}
use rag_agent_chatbot.Stream.{Chunk, Stream, stream_response}
use rag_agent_chatbot.Agent.{
  AnyMessage, human, ai, ChatAgent, Query, Phase, waiting, generated, ended, saving, closed, update,
  advance, System, turn, run, persist_conversation, not_system, put_items,
}
use rag_agent_chatbot.Agent.Serial.{
  turn_messages, steps-after_node, steps-after_graph, counted_saved,
}
use rag_agent_chatbot.Agent.Turns.{alone, run-alone}
use rag_agent_chatbot.Agent.Overlap.{update_ne, turn_lem}

module _ (emits_input : Bool) (queries : ℕ → Query) where
  run-append :
      (xs ys : List ℕ) (s : System)
      → run emits_input queries (xs ++ ys) s
        ≡ run emits_input queries ys (run emits_input queries xs s)
  unfolding run
  run-append [] ys s = refl
  run-append (x ∷ xs) ys s = run-append xs ys (turn emits_input queries x s)

  -- The turns of one query leave the phase of every other.
  phases_alone :
      (n i k : ℕ) (s : System)
      → (i == k) ≡ false
      → (run emits_input queries (alone n i) s).phases k ≡ s.phases k
  unfolding run turn
  phases_alone zero i k s h = refl
  phases_alone (suc n) i k s h =
      phases_alone n i k (turn emits_input queries i s) h ∙ update_ne s.phases i k _ h

  -- A query that is about to save, and one that is about to set the state.
  two_turns :
      (i j : ℕ) (s : System) (messages : List AnyMessage)
      → (j == i) ≡ false
      → s.phases i ≡ saving
      → s.phases j ≡ generated messages
      → (run emits_input queries (j ∷ i ∷ []) s).agent.saved
        ≡ s.agent.saved
          ++ (record {
            user_id = (queries i).user_id;
            chat_id = (queries i).chat_id;
            messages = keep_if not_system messages;
          })
            ∷ []
  unfolding run advance persist_conversation
  two_turns i j s messages apart at_save at_state =
      let s₁ : System = record {
        agent = record s.agent { last_state = some messages };
        phases = update s.phases j (ended false);
      } in
      ap (λ t. (turn emits_input queries i t).agent.saved)
        (turn_lem emits_input queries j s (generated messages) (ended false) s₁.agent at_state refl)
      ∙ ap (λ (t : System). t.agent.saved)
          (turn_lem emits_input queries i s₁ saving closed
            (persist_conversation (queries i) (some messages) s₁.agent)
            (update_ne s.phases j i (ended false) apart ∙ at_save) refl)

-- Two queries: the second runs up to its reply, the first runs to its end, the state of the second
-- comes out, and then the first one's save runs. Under the first one's user and chat, the question and
-- the reply of the second are saved.
pub run-mixup_saved :
    (emits_input : Bool) (queries : ℕ → Query) (i j : ℕ) (s : System)
    (chunks_i chunks_j : List Chunk) (out_i out_j : Stream)
    → i ≢ j
    → s.phases i ≡ waiting
    → s.phases j ≡ waiting
    → any_of (str_eq (queries i).selected_model) (queries i).available_models ≡ true
    → any_of (str_eq (queries j).selected_model) (queries j).available_models ≡ true
    → str_eq (queries i).user_id "" ≡ false
    → str_eq (queries j).user_id "" ≡ false
    → (queries i).completion ≡ some chunks_i
    → (queries j).completion ≡ some chunks_j
    → stream_response chunks_i ≡ some out_i
    → stream_response chunks_j ≡ some out_j
    → (run emits_input queries (alone 5 j ++ (alone 7 i ++ j ∷ i ∷ [])) s).agent.saved
      ≡ s.agent.saved
        ++ (record {
          user_id = (queries i).user_id;
          chat_id = (queries i).chat_id;
          messages = human (queries j).query_text ∷ ai (joined out_j.output) ∷ [];
        })
          ∷ []
unfolding put_items
run-mixup_saved emits_input queries i j s chunks_i chunks_j out_i out_j n idle_i idle_j listed_i
      listed_j named_i named_j completes_i completes_j streams_i streams_j =
    let apart : (i == j) ≡ false = ground arith in
    let apart' : (j == i) ≡ false = ground arith in
    let go = run emits_input queries in
    let s₁ = go (alone 5 j) s in
    let s₂ = go (alone 7 i) s₁ in
    let ms = turn_messages emits_input j (queries j) s.agent out_j in
    let run_j =
      run-alone emits_input queries 5 j s waiting idle_j
      ∙ steps-after_node emits_input j (queries j) s.agent out_j chunks_j listed_j named_j
          completes_j streams_j in
    let run_i =
      run-alone emits_input queries 7 i s₁ waiting
        (phases_alone emits_input queries 5 j i s apart' ∙ idle_i)
      ∙ steps-after_graph emits_input i (queries i) s₁.agent out_i chunks_i listed_i named_i
          completes_i streams_i in
    let at_state : s₂.phases j ≡ generated ms =
      phases_alone emits_input queries 7 i j s₁ apart ∙ ap (λ (r : Phase × ChatAgent). r.0) run_j in
    let kept : s₂.agent.saved ≡ s.agent.saved =
      ap (λ (r : Phase × ChatAgent). r.1.saved) run_i
      ∙ counted_saved emits_input i (queries i) s₁.agent out_i
      ∙ ap (λ (r : Phase × ChatAgent). r.1.saved) run_j
      ∙ counted_saved emits_input j (queries j) s.agent out_j in
    ap (λ (t : System). t.agent.saved)
      (run-append emits_input queries (alone 5 j) (alone 7 i ++ j ∷ i ∷ []) s
        ∙ run-append emits_input queries (alone 7 i) (j ∷ i ∷ []) s₁)
    ∙ two_turns emits_input queries i j s₂ ms apart' (ap (λ (r : Phase × ChatAgent). r.0) run_i)
        at_state
    ∙ ap
        (λ l.
          l
          ++ (record {
            user_id = (queries i).user_id;
            chat_id = (queries i).chat_id;
            messages = ms;
          })
            ∷ [])
        kept
