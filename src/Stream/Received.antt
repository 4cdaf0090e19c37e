-- ===== src/Stream/Received.antt =====
-- The text that a stream carries, as a specification of what reaches the filter.
use rag_agent_chatbot.Prelude.{
  ◌≡◌, Bool, true, false, Option, none, some, List, [], ◌∷◌, ◌++◌, if◌then◌else◌, All,
}
use rag_agent_chatbot.Text.{Text, starts_with, lstrip}
use rag_agent_chatbot.Think.{open_tag}
use rag_agent_chatbot.Stream.{Delta, Choice, Chunk, is_tool_finish}

-- The text that a stream of chunks carries: the contents of its choices in order. Blanks before an
-- opening tag at the very start of the first content are not part of it.
unfoldable pub lead : Text → Text
lead c = if starts_with open_tag (lstrip c) then lstrip c else c

pub record Received : Type 0 where
  pub started : Bool
  pub text : Text

unfoldable pub receive : Received → Text → Received
unfolding lead
receive a [] = a
receive a (c ∷ cs) = record {
  started = true;
  text = a.text ++ (if a.started then c ∷ cs else lead (c ∷ cs));
}

unfoldable pub receive_delta : Received → Option Delta → Received
unfolding receive
receive_delta a none = a
receive_delta a (some d) = receive a d.content

unfoldable pub receive_choices : Received → List Choice → Received
unfolding receive_delta
receive_choices a [] = a
receive_choices a (c ∷ choices) = receive_choices (receive_delta a c.delta) choices

unfoldable pub receive_chunks : Received → List Chunk → Received
unfolding receive_choices
receive_chunks a [] = a
receive_chunks a (c ∷ chunks) = receive_chunks (receive_choices a c.choices) chunks

-- The whole text of the chunks.
unfoldable pub received : List Chunk → Text
unfolding receive_chunks
received chunks = (receive_chunks (record { started = false; text = [] }) chunks).text

-- No choice of the stream ends in tool calls.
abbrev pub NoToolFinish : List Chunk → Type 0
NoToolFinish = All (λ c. All (λ (x : Choice). is_tool_finish x.finish_reason ≡ false) c.choices)
