-- ===== src/Agent/Dispatch.antt =====
-- backend/agent/tool_dispatch.py: from the tool calls of a completion to the messages that answer
-- them. `json.loads` and the handlers, which may do anything, are the arguments `Tools`; a handler
-- is told the round and the place of its call, so that no two calls need agree.
use taigi_agent.Prelude.{
  ℕ, suc, Bool, true, false, Option, none, some, List, [], ◌∷◌, ◌++◌, if◌then◌else◌, Text, codes,
  text_eq,
}
use taigi_agent.Agent.Context.{assistant, tool, Content, none_given, text, ToolCall, Message}

-- A tool call as the SDK delivers it; `kind` is its `type`.
pub record RawCall : Type 0 where
  pub kind : Text
  pub call : ToolCall

pub record Completion : Type 0 where
  pub content : Option Text
  pub tool_calls : List RawCall

-- `function_tool_calls`
unfoldable pub function_tool_calls : List RawCall → List ToolCall
function_tool_calls [] = []
function_tool_calls (r ∷ rs) =
    let rest = function_tool_calls rs in
    if text_eq r.kind (codes "function") then r.call ∷ rest else rest

-- A content of the model, which is none, empty or a text.
abbrev pub content_of : Text → Content
content_of [] = none_given
content_of (c ∷ t) = text (c ∷ t)

abbrev pub or_empty : Option Text → Text
or_empty none = []
or_empty (some t) = t

-- `assistant_message`, with the content that the caller puts into it.
unfoldable pub assistant_message : Text → List ToolCall → Message
assistant_message content calls = record {
  role = assistant;
  content = content_of content;
  tool_calls = calls;
  tool_call_id = none;
}

-- `tool_result_msg`
unfoldable pub tool_result_msg : Text → Text → Message
tool_result_msg id content = record {
  role = tool;
  content = content_of content;
  tool_calls = [];
  tool_call_id = some id;
}

pub record ToolCallResult : Type 0 where
  pub message : Message
  pub is_error : Bool

-- What `json.loads` makes of a text.
pub data Parsed (Args : Type 0) : Type 0 where
  malformed : Parsed Args
  no_object : Parsed Args
  object : Args → Parsed Args

-- How a handler ends: with a result, or with an exception of this text.
pub data Handled : Type 0 where
  returned : Text → Handled
  raised : Text → Handled

pub record Tools (Args : Type 0) : Type 0 where
  pub loads : Text → Parsed Args
  pub handlers : Text → Option (ℕ → ℕ → Args → Handled)

-- `call.function.arguments or "{}"`
abbrev pub arguments_or_object : Text → Text
arguments_or_object [] = codes "{}"
arguments_or_object (c ∷ t) = c ∷ t

unfoldable pub failed_result : ToolCall → Text → ToolCallResult
unfolding tool_result_msg
failed_result c message = record { message = tool_result_msg c.id message; is_error = true }

-- The result of a handler that was called.
unfoldable pub handled_result : ToolCall → Handled → ToolCallResult
unfolding failed_result tool_result_msg
handled_result c (returned t) = record { message = tool_result_msg c.id t; is_error = false }
handled_result c (raised e) = failed_result c (codes "工具 " ++ (c.name ++ (codes " 執行失敗：" ++ e)))

module _ {Args : Type 0} (tools : Tools Args) (round : ℕ) where
  unfoldable pub run_handler :
      ℕ → ToolCall → Args → Option (ℕ → ℕ → Args → Handled) → ToolCallResult
  unfolding failed_result handled_result
  run_handler place c args none = failed_result c (codes "錯誤：找不到工具 " ++ c.name)
  run_handler place c args (some h) = handled_result c (h round place args)

  unfoldable pub parsed_result : ℕ → ToolCall → Parsed Args → ToolCallResult
  unfolding failed_result run_handler
  parsed_result place c malformed = failed_result c (codes "錯誤：工具參數格式有誤，無法執行 " ++ c.name)
  parsed_result place c no_object = failed_result c (codes "錯誤：工具參數必須是 JSON object，無法執行 " ++ c.name)
  parsed_result place c (object args) = run_handler place c args (tools.handlers c.name)

  -- `_execute_one`
  unfoldable pub execute_one : ℕ → ToolCall → ToolCallResult
  unfolding parsed_result
  execute_one place c = parsed_result place c (tools.loads (arguments_or_object c.arguments))

  unfoldable pub execute_from : ℕ → List ToolCall → List ToolCallResult
  unfolding execute_one
  execute_from place [] = []
  execute_from place (c ∷ calls) = execute_one place c ∷ execute_from (suc place) calls

  -- `execute_tool_calls`, whose gathered results come in the order of the calls.
  unfoldable pub execute_tool_calls : List ToolCall → List ToolCallResult
  unfolding execute_from
  execute_tool_calls calls = execute_from 0 calls
