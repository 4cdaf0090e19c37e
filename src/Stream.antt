-- ===== src/Stream.antt =====
-- `ChatAgent._stream_response` of assets/backend/agent.py: the chunks of a streamed completion,
-- folded into the shown output, the tool calls and the token usage. Absent and empty texts of a
-- chunk are one, since the code tests them for truth. Times and tracing are left out.
pub mod Received
pub mod Content
pub mod Shown
use rag_agent_chatbot.Prelude.{
  ℕ, zero, suc, ◌+◌, String, Bool, true, false, Option, none, some, List, [], ◌∷◌, ◌++◌, ◌==◌,
  if◌then◌else◌, str_eq, drop,
}
use Prim.Native.Nat.{max}
use Prim.Native.String
use rag_agent_chatbot.Text.{Text, starts_with, lstrip}
use rag_agent_chatbot.Think.{open_tag, Buffer, feed}

pub record Usage : Type 0 where
  pub prompt_tokens : ℕ
  pub completion_tokens : ℕ
  pub total_tokens : ℕ

-- A piece of a tool call: `index`, `id`, `function.name`, `function.arguments`.
pub record ToolPiece : Type 0 where
  pub index : Option ℕ
  pub id : Text
  pub name : Text
  pub arguments : Text

pub record Delta : Type 0 where
  pub content : Text
  pub tool_calls : List ToolPiece

pub record Choice : Type 0 where
  pub delta : Option Delta
  pub finish_reason : Option String

pub record Chunk : Type 0 where
  pub usage : Option Usage
  pub choices : List Choice

-- An entry of `tool_calls_buffer`.
pub record ToolCall : Type 0 where
  pub id : Option Text
  pub name : Option Text
  pub arguments : Text

-- The variables of the method. `output` holds the texts of the token events, in order.
pub record Stream : Type 0 where
  pub output : List Text
  pub tool_calls : List (ℕ × ToolCall)
  pub saw_tool_finish : Bool
  pub usage : Option Usage
  pub in_think : Bool
  pub seen_first_content : Bool
  pub pending : Text

abbrev pub start : Stream
start = record {
  output = [];
  tool_calls = [];
  saw_tool_finish = false;
  usage = none;
  in_think = false;
  seen_first_content = false;
  pending = [];
}

-- `if emit:` send the token and keep it.
unfoldable pub append_emit : Stream → Text → Stream
append_emit s [] = s
append_emit s (c ∷ cs) = record s { output = s.output ++ (c ∷ cs) ∷ [] }

-- What a buffer loop leaves in the variables.
unfoldable pub absorb : Stream → Buffer → Stream
unfolding append_emit
absorb s b = append_emit (record s { in_think = b.in_think; pending = b.pending }) b.emit

-- The loop over `_pending + content`. The flag says that the choice is gone on with.
unfoldable pub filter_content : Stream → Text → Option (Stream × Bool)
unfolding absorb
filter_content s content = elim (feed s.in_think s.pending content) [
  | none ↦ none
  | some b ↦ some (absorb s b, true)
]

-- `if not content: continue` behind the opening tag: the rest of the choice is skipped.
unfoldable pub enter_block : Stream → Text → Option (Stream × Bool)
unfolding filter_content
enter_block s [] = some (s, false)
enter_block s (c ∷ cs) = filter_content s (c ∷ cs)

-- `if content:`, for a content that is not empty.
unfoldable pub push_content : Stream → Text → Option (Stream × Bool)
unfolding enter_block
push_content s content =
    if s.seen_first_content
    then filter_content s content
    else if starts_with open_tag (lstrip content)
    then enter_block (record s { seen_first_content = true; in_think = true })
        (drop 7 (lstrip content))
    else filter_content (record s { seen_first_content = true }) content

unfoldable pub take_content : Stream → Text → Option (Stream × Bool)
unfolding push_content
take_content s [] = some (s, true)
take_content s (c ∷ cs) = push_content s (c ∷ cs)

-- `max(tool_calls_buffer) + 1`, or 0 of an empty buffer
unfoldable pub next_index : List (ℕ × ToolCall) → ℕ
next_index [] = 0
next_index ((i, t) ∷ calls) = max (i + 1) (next_index calls)

-- `if getattr(tc, "id", None): entry["id"] = tc.id`
unfoldable pub set_if : Text → Option Text → Option Text
set_if [] old = old
set_if (c ∷ cs) old = some (c ∷ cs)

unfoldable pub merge_piece : ToolCall → ToolPiece → ToolCall
unfolding set_if
merge_piece t p = record {
  id = set_if p.id t.id;
  name = set_if p.name t.name;
  arguments = t.arguments ++ p.arguments;
}

-- `setdefault(idx, …)`, then the updates of the entry.
unfoldable pub merge_at : ℕ → ToolPiece → List (ℕ × ToolCall) → List (ℕ × ToolCall)
unfolding merge_piece
merge_at idx p [] = (idx, merge_piece (record { id = none; name = none; arguments = [] }) p) ∷ []
merge_at idx p ((i, t) ∷ calls) =
    let rest = merge_at idx p calls in
    if i == idx then (i, merge_piece t p) ∷ calls else (i, t) ∷ rest

unfoldable pub piece_index : List (ℕ × ToolCall) → Option ℕ → ℕ
unfolding next_index
piece_index calls none = next_index calls
piece_index calls (some i) = i

-- `for tc in delta.tool_calls`
unfoldable pub merge_tool_calls : List (ℕ × ToolCall) → List ToolPiece → List (ℕ × ToolCall)
unfolding merge_at piece_index
merge_tool_calls calls [] = calls
merge_tool_calls calls (p ∷ pieces) =
    merge_tool_calls (merge_at (piece_index calls p.index) p calls) pieces

unfoldable pub is_tool_finish : Option String → Bool
is_tool_finish none = false
is_tool_finish (some reason) = str_eq reason "tool_calls"

-- The rest of a choice: its tool calls and its finish reason. The flag says that the loop over the
-- choices goes on.
unfoldable pub finish_choice : Stream → Delta → Option String → Stream × Bool
unfolding merge_tool_calls is_tool_finish
finish_choice s d reason =
    let t = record s { tool_calls = merge_tool_calls s.tool_calls d.tool_calls } in
    if is_tool_finish reason then (record t { saw_tool_finish = true }, false) else (t, true)

-- The body of the loop over the choices, behind the test of `delta`.
unfoldable pub take_delta : Stream → Delta → Option String → Option (Stream × Bool)
unfolding take_content finish_choice
take_delta s d reason = elim (take_content s d.content) [
  | none ↦ none
  | some (t, go_on) ↦ some (if go_on then finish_choice t d reason else (t, true))
]

-- `if not delta: continue`
unfoldable pub take_choice : Stream → Option Delta → Option String → Option (Stream × Bool)
unfolding take_delta
take_choice s none reason = some (s, true)
take_choice s (some d) reason = take_delta s d reason

unfoldable pub take_choices : Stream → List Choice → Option Stream
unfolding take_choice
take_choices s [] = some s
take_choices s (c ∷ choices) = elim (take_choice s c.delta c.finish_reason) [
  | none ↦ none
  | some (t, go_on) ↦ elim go_on [ true ↦ take_choices t choices | false ↦ some t ]
]

unfoldable pub record_usage : Stream → Option Usage → Stream
record_usage s none = s
record_usage s (some u) = record s { usage = some u }

-- `async for chunk in stream`
unfoldable pub take_chunks : Stream → List Chunk → Option Stream
unfolding take_choices record_usage
take_chunks s [] = some s
take_chunks s (c ∷ chunks) =
    let t = record_usage s c.usage in
    elim t.saw_tool_finish [
      | true ↦ take_chunks t chunks
      | false ↦ elim (take_choices t c.choices) [ none ↦ none | some u ↦ take_chunks u chunks ]
    ]

unfoldable pub stream_response : List Chunk → Option Stream
unfolding take_chunks
stream_response chunks = take_chunks start chunks
