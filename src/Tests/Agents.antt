-- ===== src/Tests/Agents.antt =====
-- Two queries of assets/backend/agent.py, one after the other and overlapping.
use rag_agent_chatbot.Prelude.{
  ℕ, ◌≡◌, refl, true, none, some, List, [], ◌∷◌, ◌++◌, map, ◌==◌, if◌then◌else◌, arith, ◌<◌, take,
}
use rag_agent_chatbot.Text.{codes, joined}
use rag_agent_chatbot.Think.{open_tag}
use rag_agent_chatbot.Think.Strip.{strip_think}
use rag_agent_chatbot.Stream.{Chunk, Stream, is_tool_finish, stream_response}
use rag_agent_chatbot.Stream.Received.{received, NoToolFinish}
use rag_agent_chatbot.Stream.Shown.{unshown, stream_response_lem}
use rag_agent_chatbot.Agent.{
  human, ai, node_start, node_end, done, sentinel, token, Query, waiting, closed, no_usage, System,
  run,
}
use rag_agent_chatbot.Agent.Serial.{usage_sent, run-alone_turn}
use rag_agent_chatbot.Agent.Turns.{alone}
use rag_agent_chatbot.Agent.Overlap.{run-overlap_tokens}
use rag_agent_chatbot.Agent.Mixup.{run-mixup_saved}

abbrev answer : List Chunk
answer =
    record {
      usage = none;
      choices =
          (record {
            delta = some (record { content = codes "<think>hm</think>forty-two"; tool_calls = [] });
            finish_reason = none;
          })
          ∷ [];
    }
    ∷ []

answer-NoToolFinish : NoToolFinish answer
unfolding is_tool_finish
answer-NoToolFinish = ((refl, tt), tt)

abbrev asked : ℕ → Query
asked i = record {
  query_text = codes "what?";
  chat_id = if i == 0 then "chat of ann" else "chat of bob";
  user_id = if i == 0 then "ann" else "bob";
  selected_model = "nemotron";
  available_models = "nemotron" ∷ [];
  completion = some answer;
}

abbrev idle : System
idle = record {
  agent = record {
    current_model = "";
    stream_callback = 0;
    last_state = none;
    usage_accumulator = no_usage;
    queues = λ i. [];
    saved = [];
  };
  phases = λ i. waiting;
}

run-alone_turn_example :
    let t = run true asked (alone 8 0) idle in
    (out : Stream) × (stream_response answer ≡ some out)
    × (t.phases 0 ≡ closed)
    × (t.agent.queues 0
        ≡ node_start
          ∷ (map token out.output ++ (usage_sent out.usage ++ node_end ∷ done ∷ sentinel ∷ [])))
    × (t.agent.saved
        ≡ (record {
          user_id = "ann";
          chat_id = "chat of ann";
          messages = human (codes "what?") ∷ ai (joined out.output) ∷ [];
        })
          ∷ [])
    × (joined out.output ++ unshown out ≡ strip_think (received answer))
    × ((k : ℕ) × (k < 7) × (unshown out ≡ take k open_tag))
run-alone_turn_example =
    run-alone_turn true asked 0 idle answer refl refl refl refl answer-NoToolFinish

abbrev shown : Stream
shown = (stream_response_lem answer answer-NoToolFinish).0

run-overlap_tokens_example :
    let t = run true asked (0 ∷ 0 ∷ 1 ∷ 0 ∷ 0 ∷ []) idle in
    (t.agent.queues 1 ≡ map token shown.output) × (t.agent.queues 0 ≡ node_start ∷ [])
run-overlap_tokens_example =
    run-overlap_tokens true asked 0 1 idle answer shown (λ e. absurd (omega arith)) refl refl refl
      refl refl refl (stream_response_lem answer answer-NoToolFinish).1

run-mixup_saved_example :
    (run true asked (alone 5 1 ++ (alone 7 0 ++ 1 ∷ 0 ∷ [])) idle).agent.saved
    ≡ (record {
      user_id = "ann";
      chat_id = "chat of ann";
      messages = human (codes "what?") ∷ ai (joined shown.output) ∷ [];
    })
      ∷ []
run-mixup_saved_example =
    run-mixup_saved true asked 0 1 idle answer answer shown shown (λ e. absurd (omega arith)) refl
      refl refl refl refl refl refl refl (stream_response_lem answer answer-NoToolFinish).1
      (stream_response_lem answer answer-NoToolFinish).1
