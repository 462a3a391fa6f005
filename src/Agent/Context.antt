-- ===== src/Agent/Context.antt =====
-- backend/agent/context.py: how the history of a conversation is cut to size. A message keeps what
-- the code reads of it. The token counts (tiktoken, over json.dumps for tool calls) are an argument, `count`.
pub mod Groups
pub mod Trim
pub mod Suffix
pub mod Compact
use taigi_agent.Prelude.{
  ℕ, zero, suc, ◌+◌, ◌-◌, max, Bool, true, false, not, ◌&&◌, ◌||◌, Option, none, some, List, [],
  ◌∷◌, ◌++◌, length, take, drop, concat, ltb, leb, ◌==◌, if◌then◌else◌, Text, codes, starts_with,
}
use mathlib.Core.List.{reverse}

pub data Role : Type 0 where
  system user assistant tool : Role

-- `none_given` is a content that is missing, None or empty; `parts` is one that is no text.
pub data Content : Type 0 where
  none_given : Content
  text : Text → Content
  parts : Content

-- A tool call of a message: its id, the name of its function and the text of its arguments.
pub record ToolCall : Type 0 where
  pub id : Text
  pub name : Text
  pub arguments : Text

pub record Message : Type 0 where
  pub role : Role
  pub content : Content
  pub tool_calls : List ToolCall
  pub tool_call_id : Option Text

-- The tokens of a text, and of the JSON text of tool calls.
pub record Counter : Type 0 where
  pub text_tokens : Text → ℕ
  pub call_tokens : List ToolCall → ℕ

abbrev pub max_history_tokens : ℕ
max_history_tokens = 4000

abbrev pub max_exchanges : ℕ
max_exchanges = 5

abbrev pub long_tool_result_chars : ℕ
long_tool_result_chars = 12_000

abbrev pub tool_result_preview_chars : ℕ
tool_result_preview_chars = 1_500

abbrev pub compact_marker : Text
compact_marker = codes "[長工具結果已截斷]"

abbrev pub preview_label : Text
preview_label = codes "\n預覽：\n"

abbrev pub ellipsis : Text
ellipsis = codes "\n..."

content_tokens : Counter → Content → ℕ
content_tokens count none_given = count.text_tokens []
content_tokens count (text t) = count.text_tokens t
content_tokens count parts = 0

calls_tokens : Counter → List ToolCall → ℕ
calls_tokens count [] = 0
calls_tokens count (c ∷ calls) = count.call_tokens (c ∷ calls)

-- `_count_msg_tokens`
unfoldable pub count_msg_tokens : Counter → Message → ℕ
unfolding content_tokens calls_tokens
count_msg_tokens count m = content_tokens count m.content + calls_tokens count m.tool_calls + 4

unfoldable pub sum_tokens : Counter → List Message → ℕ
sum_tokens count [] = 0
sum_tokens count (m ∷ ms) = count_msg_tokens count m + sum_tokens count ms

-- `estimate_tokens`
unfoldable pub estimate_tokens : Counter → List Message → ℕ
unfolding sum_tokens count_msg_tokens
estimate_tokens count ms = max (sum_tokens count ms) 1

abbrev pub is_user : Message → Bool
is_user m = elim m.role [ user ↦ true | _ ↦ false ]

abbrev pub is_tool : Message → Bool
is_tool m = elim m.role [ tool ↦ true | _ ↦ false ]

abbrev pub is_empty {ℓ} : {A : Type ℓ} → List A → Bool
is_empty [] = true
is_empty (x ∷ xs) = false

-- The loop of `group_exchanges`, with its variables `exchanges` and `current`.
unfoldable pub group_loop : List (List Message) → List Message → List Message → List (List Message)
group_loop exchanges current [] = if is_empty current then exchanges else exchanges ++ current ∷ []
group_loop exchanges current (m ∷ ms) =
    let fresh = group_loop (exchanges ++ current ∷ []) (m ∷ []) ms in
    let same = group_loop exchanges (current ++ m ∷ []) ms in
    if is_user m && not (is_empty current) then fresh else same

-- `group_exchanges`
unfoldable pub group_exchanges : List Message → List (List Message)
unfolding group_loop
group_exchanges ms = group_loop [] [] ms

-- `xs[-n:]`, which is all of `xs` for 0.
unfoldable pub last_n {ℓ} : {A : Type ℓ} → ℕ → List A → List A
last_n n xs = if n == 0 then xs else drop (length xs - n) xs

-- The cap on the number of exchanges.
unfoldable pub cap_exchanges : ℕ → List (List Message) → List (List Message)
unfolding last_n
cap_exchanges n exchanges = if ltb n (length exchanges) then last_n n exchanges else exchanges

-- The loop over `reversed(exchanges)`, with its variables `tokens_used` and `kept`.
unfoldable pub keep_newest :
    Counter → ℕ → List (List Message) → ℕ → List (List Message) → List (List Message)
keep_newest count budget [] used kept = kept
keep_newest count budget (e ∷ older) used kept =
    let more = keep_newest count budget older (used + estimate_tokens count e) (e ∷ kept) in
    if ltb budget (used + estimate_tokens count e) && not (is_empty kept) then kept else more

-- The exchanges that `trim_history` keeps, and `trim_history`.
unfoldable pub kept_exchanges : Counter → ℕ → ℕ → List Message → List (List Message)
unfolding cap_exchanges keep_newest group_exchanges
kept_exchanges count budget n ms =
    keep_newest count budget (reverse (cap_exchanges n (group_exchanges ms))) 0 []

unfoldable pub trim_history : Counter → ℕ → ℕ → List Message → List Message
unfolding kept_exchanges
trim_history count budget n ms = concat (kept_exchanges count budget n ms)

-- The text that replaces a long tool result.
unfoldable pub preview : ℕ → Text → Text
preview preview_chars t =
    compact_marker
    ++ (preview_label
        ++ (take preview_chars t ++ (if ltb preview_chars (length t) then ellipsis else [])))

is_long : ℕ → Text → Bool
is_long max_chars t = ltb max_chars (length t) && not (starts_with compact_marker t)

compact_content : ℕ → ℕ → Content → Content
unfolding is_long preview
compact_content max_chars preview_chars (text t) =
    if is_long max_chars t then text (preview preview_chars t) else text t
compact_content max_chars preview_chars c = c

-- One message of `compact_long_tool_results`.
unfoldable pub compact_message : ℕ → ℕ → Message → Message
unfolding compact_content
compact_message max_chars preview_chars m =
    if is_tool m
    then record m { content = compact_content max_chars preview_chars m.content }
    else m

-- `compact_long_tool_results`
unfoldable pub compact_long_tool_results : ℕ → ℕ → List Message → List Message
unfolding compact_message
compact_long_tool_results max_chars preview_chars [] = []
compact_long_tool_results max_chars preview_chars (m ∷ ms) =
    compact_message max_chars preview_chars m ∷ compact_long_tool_results max_chars preview_chars ms
