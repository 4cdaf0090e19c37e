-- ===== src/Tests/Replies.antt =====
-- A streamed reply of assets/backend/agent.py, cut inside its tags.
use rag_agent_chatbot.Prelude.{ℕ, ◌<◌, String, ◌≡◌, refl, none, some, List, [], ◌∷◌, ◌++◌, take}
use rag_agent_chatbot.Text.{codes, joined}
use rag_agent_chatbot.Think.{open_tag}
use rag_agent_chatbot.Think.Strip.{strip_think}
use rag_agent_chatbot.Stream.{Chunk, Stream, stream_response, is_tool_finish}
use rag_agent_chatbot.Stream.Received.{received, NoToolFinish}
use rag_agent_chatbot.Stream.Shown.{unshown, stream_response_lem}

abbrev piece : String → Chunk
piece content = record {
  usage = none;
  choices =
      (record {
        delta = some (record { content = codes content; tool_calls = [] });
        finish_reason = none;
      })
      ∷ [];
}

abbrev reply : List Chunk
reply = piece "<thi" ∷ piece "nk>no</th" ∷ piece "ink>yes <" ∷ []

reply-NoToolFinish : NoToolFinish reply
unfolding is_tool_finish
reply-NoToolFinish = ((refl, tt), ((refl, tt), ((refl, tt), tt)))

stream_response_example :
    (s : Stream) × (stream_response reply ≡ some s)
    × (joined s.output ++ unshown s ≡ strip_think (received reply))
    × ((k : ℕ) × (k < 7) × (unshown s ≡ take k open_tag))
stream_response_example = stream_response_lem reply reply-NoToolFinish
