-- ===== src/Storage/Messages.antt =====
-- Messages, their rows and their dicts: the conversions of assets/backend/postgres_storage.py.
-- Contents are texts, and the JSON of a row's tool calls stands for the calls themselves.
use rag_agent_chatbot.Prelude.{
  ℕ, String, ◌≡◌, refl, Option, none, some, List, [], ◌∷◌, str_eq, if◌then◌else◌,
}

pub record ToolCall : Type 0 where
  pub id : String
  pub name : String
  pub arguments : String

-- The classes of langchain's messages. `other` is any class beyond the four.
pub data Message : Type 0 where
  human : String → Message
  ai : String → List ToolCall → Message
  system : String → Message
  -- content, `tool_call_id`, `name`
  tool : String → String → Option String → Message
  other : String → Message

-- A row of the table `messages`, `tool_calls` with `none` for NULL.
pub record Row : Type 0 where
  pub chat_id : String
  pub user_id : String
  pub position : ℕ
  pub role : String
  pub content : String
  pub tool_calls : Option (List ToolCall)
  pub tool_call_id : Option String
  pub name : Option String

-- The dict of a message: a key that is left out is `none`.
pub record MessageDict : Type 0 where
  pub kind : String
  pub content : String
  pub tool_calls : Option (List ToolCall)
  pub tool_call_id : Option String
  pub name : Option (Option String)

unfoldable pub message_role : Message → String
message_role (human content) = "human"
message_role (ai content calls) = "ai"
message_role (system content) = "system"
message_role (tool content id name) = "tool"
message_role (other content) = "human"

abbrev pub content_of : Message → String
content_of (human content) = content
content_of (ai content calls) = content
content_of (system content) = content
content_of (tool content id name) = content
content_of (other content) = content

-- `x or y` of an optional text: an empty text counts as none.
abbrev pub text_or_empty : Option String → String
text_or_empty none = ""
text_or_empty (some t) = t

-- A list of calls where there are some: `if message.tool_calls`.
abbrev pub if_any : List ToolCall → Option (List ToolCall)
if_any [] = none
if_any (c ∷ calls) = some (c ∷ calls)

-- `if row.get("tool_calls")`: NULL and an empty list are no calls.
abbrev pub calls_of : Option (List ToolCall) → List ToolCall
calls_of none = []
calls_of (some calls) = calls

abbrev tool_calls_column : Message → Option (List ToolCall)
tool_calls_column (ai content calls) = if_any calls
tool_calls_column _ = none

abbrev tool_call_id_column : Message → Option String
tool_call_id_column (tool content id name) = some id
tool_call_id_column _ = none

abbrev name_column : Message → Option String
name_column (tool content id name) = name
name_column _ = none

-- The row that `append_messages_to_chat` inserts for a message.
unfoldable pub row_of : String → String → ℕ → Message → Row
unfolding message_role
row_of chat_id user_id position m = record {
  chat_id = chat_id;
  user_id = user_id;
  position = position;
  role = message_role m;
  content = content_of m;
  tool_calls = tool_calls_column m;
  tool_call_id = tool_call_id_column m;
  name = name_column m;
}

unfoldable pub row_to_message : Row → Message
row_to_message r =
    if str_eq r.role "ai"
    then ai r.content (calls_of r.tool_calls)
    else if str_eq r.role "human"
    then human r.content
    else if str_eq r.role "system"
    then system r.content
    else if str_eq r.role "tool"
    then tool r.content (text_or_empty r.tool_call_id) (some (text_or_empty r.name))
    else human r.content

unfoldable pub message_to_dict : Message → MessageDict
message_to_dict (human content) = record {
  kind = "HumanMessage";
  content = content;
  tool_calls = none;
  tool_call_id = none;
  name = none;
}
message_to_dict (ai content calls) = record {
  kind = "AIMessage";
  content = content;
  tool_calls = if_any calls;
  tool_call_id = none;
  name = none;
}
message_to_dict (system content) = record {
  kind = "SystemMessage";
  content = content;
  tool_calls = none;
  tool_call_id = none;
  name = none;
}
message_to_dict (tool content id name) = record {
  kind = "ToolMessage";
  content = content;
  tool_calls = none;
  tool_call_id = some id;
  name = some name;
}
message_to_dict (other content) = record {
  kind = "BaseMessage";
  content = content;
  tool_calls = none;
  tool_call_id = none;
  name = none;
}

-- `data.get("name", "")`
abbrev name_of : Option (Option String) → Option String
name_of none = some ""
name_of (some name) = name

unfoldable pub dict_to_message : MessageDict → Message
dict_to_message d =
    if str_eq d.kind "AIMessage"
    then ai d.content (calls_of d.tool_calls)
    else if str_eq d.kind "HumanMessage"
    then human d.content
    else if str_eq d.kind "SystemMessage"
    then system d.content
    else if str_eq d.kind "ToolMessage"
    then tool d.content (text_or_empty d.tool_call_id) (name_of d.name)
    else human d.content

unfoldable pub type_for_role : String → String
type_for_role role =
    if str_eq role "human"
    then "HumanMessage"
    else if str_eq role "ai"
    then "AIMessage"
    else if str_eq role "system"
    then "SystemMessage"
    else if str_eq role "tool"
    then "ToolMessage"
    else "HumanMessage"

-- `if tc: d["tool_calls"] = tc`
abbrev present : Option (List ToolCall) → Option (List ToolCall)
present none = none
present (some calls) = if_any calls

-- The dict that `get_history_dicts` builds from a row.
unfoldable pub row_to_dict : Row → MessageDict
unfolding type_for_role
row_to_dict r = record {
  kind = type_for_role r.role;
  content = r.content;
  tool_calls = present r.tool_calls;
  tool_call_id = if str_eq r.role "tool" then some (text_or_empty r.tool_call_id) else none;
  name = if str_eq r.role "tool" then some (some (text_or_empty r.name)) else none;
}

-- What the database gives back for a message: the four classes as they were, except that a tool's
-- missing name becomes an empty one, and any other class as a human message.
abbrev pub restored : Message → Message
restored (tool content id name) = tool content id (some (text_or_empty name))
restored (other content) = human content
restored m = m

-- A message that is written as a row and read back is the message as it was, except that a tool's
-- missing name is an empty one and any other class is a human message.
pub row_to_message-row_of :
    (chat_id user_id : String) (position : ℕ) (m : Message)
    → row_to_message (row_of chat_id user_id position m) ≡ restored m
unfolding row_to_message row_of
row_to_message-row_of chat_id user_id position (human content) = refl
row_to_message-row_of chat_id user_id position (ai content []) = refl
row_to_message-row_of chat_id user_id position (ai content (c ∷ calls)) = refl
row_to_message-row_of chat_id user_id position (system content) = refl
row_to_message-row_of chat_id user_id position (tool content id name) = refl
row_to_message-row_of chat_id user_id position (other content) = refl

-- A restored message goes through the dicts of the Redis cache unchanged.
pub dict_to_message-restored :
    (m : Message) → dict_to_message (message_to_dict (restored m)) ≡ restored m
unfolding dict_to_message message_to_dict
dict_to_message-restored (human content) = refl
dict_to_message-restored (ai content []) = refl
dict_to_message-restored (ai content (c ∷ calls)) = refl
dict_to_message-restored (system content) = refl
dict_to_message-restored (tool content id name) = refl
dict_to_message-restored (other content) = refl

-- Built from the row directly, the dict is the one of the row's message.
pub row_to_dict_lem :
    (chat_id user_id : String) (position : ℕ) (m : Message)
    → row_to_dict (row_of chat_id user_id position m)
      ≡ message_to_dict (row_to_message (row_of chat_id user_id position m))
unfolding row_to_dict row_of row_to_message message_to_dict
row_to_dict_lem chat_id user_id position (human content) = refl
row_to_dict_lem chat_id user_id position (ai content []) = refl
row_to_dict_lem chat_id user_id position (ai content (c ∷ calls)) = refl
row_to_dict_lem chat_id user_id position (system content) = refl
row_to_dict_lem chat_id user_id position (tool content id name) = refl
row_to_dict_lem chat_id user_id position (other content) = refl
