-- ===== src/Openai.antt =====
-- `convert_langgraph_messages_to_openai` of assets/backend/utils.py. The arguments of a tool call stand
-- as the JSON that they are written to.
use rag_agent_chatbot.Prelude.{
  ◌≡◌, refl, ap, ◌∙◌, String, Option, none, some, List, [], ◌∷◌, ◌++◌, map,
}
use rag_agent_chatbot.Storage.Messages.{Message, ToolCall, human, ai, system, tool, other}

-- An entry of `tool_calls`.
pub record FunctionCall : Type 0 where
  pub id : String
  pub type : String
  pub name : String
  pub arguments : String

pub record OpenaiMessage : Type 0 where
  pub role : String
  pub content : String
  pub tool_calls : Option (List FunctionCall)
  pub tool_call_id : Option String

abbrev pub function_call : ToolCall → FunctionCall
function_call tc = record {
  id = tc.id;
  type = "function";
  name = tc.name;
  arguments = tc.arguments;
}

-- `if msg.tool_calls`
abbrev pub function_calls : List ToolCall → Option (List FunctionCall)
function_calls [] = none
function_calls (tc ∷ calls) = some (map function_call (tc ∷ calls))

-- The branch of the loop for a message; another class has none.
unfoldable pub openai_message : Message → Option OpenaiMessage
openai_message (system content) =
    some (record { role = "system"; content = content; tool_calls = none; tool_call_id = none })
openai_message (human content) =
    some (record { role = "user"; content = content; tool_calls = none; tool_call_id = none })
openai_message (ai content calls) = some (record {
  role = "assistant";
  content = content;
  tool_calls = function_calls calls;
  tool_call_id = none;
})
openai_message (tool content id name) =
    some (record { role = "tool"; content = content; tool_calls = none; tool_call_id = some id })
openai_message (other content) = none

abbrev pub append_some : Option OpenaiMessage → List OpenaiMessage → List OpenaiMessage
append_some none ms = ms
append_some (some m) ms = m ∷ ms

unfoldable pub convert_langgraph_messages_to_openai : List Message → List OpenaiMessage
unfolding openai_message
convert_langgraph_messages_to_openai [] = []
convert_langgraph_messages_to_openai (m ∷ ms) =
    append_some (openai_message m) (convert_langgraph_messages_to_openai ms)

-- A conversation is converted turn by turn.
convert-append :
    (ms ns : List Message)
    → convert_langgraph_messages_to_openai (ms ++ ns)
      ≡ convert_langgraph_messages_to_openai ms ++ convert_langgraph_messages_to_openai ns
unfolding convert_langgraph_messages_to_openai
convert-append [] ns = refl
convert-append (m ∷ ms) ns =
    ap (append_some (openai_message m)) (convert-append ms ns) ∙ go (openai_message m)
  where
    go :
        (o : Option OpenaiMessage)
        → append_some o
            (convert_langgraph_messages_to_openai ms ++ convert_langgraph_messages_to_openai ns)
          ≡ append_some o (convert_langgraph_messages_to_openai ms)
            ++ convert_langgraph_messages_to_openai ns
    go none = refl
    go (some x) = refl
