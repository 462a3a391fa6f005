-- ===== src/Agent/Session.antt =====
-- backend/agent/session.py: a turn of the conversation. The language model is an argument that is
-- told how many calls went before, so that it may answer anything at any time; an answer is the
-- deltas that are streamed and how the call ends. Retries inside a call (llm_client.py) are its own.
pub mod Termination
pub mod Owed
pub mod Pairing
pub mod Speech
use taigi_agent.Prelude.{
  ℕ, zero, suc, ◌+◌, ◌-◌, ◌/◌, max, Bool, true, false, not, ◌&&◌, ◌||◌, Option, none, some, List,
  [], ◌∷◌, ◌++◌, map, concat, ltb, leb, ◌==◌, if◌then◌else◌, Text, codes, text_eq,
}
use taigi_agent.Pipeline.Streaming.{Stream}
use taigi_agent.Pipeline.Streaming
use taigi_agent.Pipeline.Output.{normalize_llm_output}
use taigi_agent.Agent.Context.{
  system, user, assistant, tool, Content, text, none_given, parts, ToolCall, Message, Counter,
  max_exchanges, tool_result_preview_chars, is_empty, trim_history, compact_long_tool_results,
}
use taigi_agent.Agent.Dispatch.{
  Completion, ToolCallResult, Tools, function_tool_calls, content_of, or_empty, assistant_message,
  execute_tool_calls,
}

abbrev pub max_context_recovery_retries : ℕ
max_context_recovery_retries = 1

abbrev pub tool_round_limit_message : Text
tool_round_limit_message = codes "查詢逾時，請換個方式再問一次。"

abbrev pub empty_reply_message : Text
empty_reply_message = codes "歹勢，我沒聽清楚，麻煩再說一次。"

-- How a call of the model ends. `failed` is any other exception, a stream without a completion
-- included.
pub data Ending : Type 0 where
  completed : Completion → Ending
  context_window_exceeded tool_call_failed failed : Ending

pub record Answer : Type 0 where
  pub deltas : List Text
  pub ending : Ending

-- The session's settings, and what it stands on. `breaks` says after which round the gathering of
-- the tool results itself raises.
pub record Config (Args : Type 0) : Type 0 where
  pub system_prompt : Text
  pub max_tool_rounds : ℕ
  pub max_history_tokens : ℕ
  pub compact_tool_result_chars : ℕ
  pub count : Counter
  pub convert : Text → Text
  pub tools : Tools Args
  pub breaks : ℕ → Bool
  pub llm : ℕ → List Message → Bool → Answer

pub data TurnOutcome : Type 0 where
  ok tool_round_limit error : TurnOutcome

-- What a turn leaves: the history, the chunks that were spoken, and `_LlmTurnResult`.
pub record Turn : Type 0 where
  pub messages : List Message
  pub chunks : List Text
  pub outcome : TurnOutcome
  pub tool_rounds : ℕ

-- The variables of `_run_llm_loop`, the history, and the chunks so far; `llm_calls` counts.
pub record Loop : Type 0 where
  pub messages : List Message
  pub chunks : List Text
  pub tool_rounds : ℕ
  pub context_retries : ℕ
  pub force_required : Bool
  pub llm_calls : ℕ

-- What a pass of the loop comes to.
pub data Pass : Type 0 where
  continue : Loop → Pass
  finished : Turn → Pass

-- An assistant message without tool calls.
unfoldable pub plain_message : Text → Message
unfolding assistant_message
plain_message content = assistant_message content []

-- A message that `_drop_dangling_tool_call` takes away where it is the last.
abbrev pub is_dangling : Message → Bool
is_dangling m = elim m.role [ assistant ↦ not (is_empty m.tool_calls) | _ ↦ false ]

-- `_drop_dangling_tool_call`
unfoldable pub drop_dangling_tool_call : List Message → List Message
drop_dangling_tool_call [] = []
drop_dangling_tool_call (m ∷ []) = if is_dangling m then [] else m ∷ []
drop_dangling_tool_call (m ∷ n ∷ ms) = m ∷ drop_dangling_tool_call (n ∷ ms)

-- `_find_direct_response`, on the texts of the results.
unfoldable pub find_direct_response : List ToolCall → List ToolCallResult → Option Text
find_direct_response (c ∷ []) (r ∷ []) =
    if text_eq c.name (codes "respond_directly") && not r.is_error
    then some (spoken r.message.content)
    else none
  where
    spoken : Content → Text
    spoken (text t) = t
    spoken none_given = []
    spoken parts = []
find_direct_response _ _ = none

-- The loop at its start.
unfoldable pub start : List Message → Loop
start ms = record {
  messages = ms;
  chunks = [];
  tool_rounds = 0;
  context_retries = 0;
  force_required = true;
  llm_calls = 0;
}

module _ {Args : Type 0} (config : Config Args) where
  unfoldable pub trim : List Message → List Message
  trim ms = trim_history config.count config.max_history_tokens max_exchanges ms

  -- `_request_messages`
  unfoldable pub request_messages : List Message → List Message
  request_messages ms =
      record {
        role = system;
        content = content_of config.system_prompt;
        tool_calls = [];
        tool_call_id = none;
      }
      ∷ ms

  -- `_compact_and_trim`
  unfoldable pub compact_and_trim : ℕ → List Message → List Message
  compact_and_trim budget ms =
      trim_history config.count budget max_exchanges
        (compact_long_tool_results config.compact_tool_result_chars tool_result_preview_chars ms)

  -- `_prepare_context` and `_recover_context`
  unfoldable pub prepare_context : List Message → List Message
  unfolding compact_and_trim
  prepare_context ms = compact_and_trim config.max_history_tokens ms

  unfoldable pub recover_context : List Message → List Message
  unfolding compact_and_trim
  recover_context ms = compact_and_trim (max (config.max_history_tokens / 2) 1) ms

  -- The deltas through the normalizer, and the pieces that it emits.
  unfoldable pub feed_all : Stream → List Text → Stream × List Text
  feed_all s [] = (s, [])
  feed_all s (delta ∷ deltas) =
      let (s', pieces) = Streaming.feed config.convert s delta in
      let (last, more) = feed_all s' deltas in (last, pieces ++ more)

  unfoldable pub normalized : Text → Text
  unfolding normalize_llm_output
  normalized t = normalize_llm_output config.convert t

  -- The exit of an exception.
  unfoldable pub fail : Loop → Pass
  unfolding trim drop_dangling_tool_call
  fail s = finished (record {
    messages = trim (drop_dangling_tool_call s.messages);
    chunks = s.chunks;
    outcome = error;
    tool_rounds = s.tool_rounds;
  })

  -- An exit with a last assistant message, whose text may be among the chunks already.
  unfoldable pub finish_with : TurnOutcome → Loop → List Text → Text → Pass
  unfolding trim
  finish_with outcome s chunks content = finished (record {
    messages = trim (s.messages ++ plain_message content ∷ []);
    chunks = s.chunks ++ chunks;
    outcome = outcome;
    tool_rounds = s.tool_rounds;
  })

  -- The exit of a reply without tool calls. `more` is what the normalizer still emits.
  unfoldable pub conclude : Loop → Bool → List Text → Text → Pass
  unfolding finish_with
  conclude s forced more [] =
      finish_with ok s (more ++ empty_reply_message ∷ []) empty_reply_message
  conclude s forced more (c ∷ content) =
      finish_with ok s (if forced then (c ∷ content) ∷ [] else more) (c ∷ content)

  unfoldable pub reply : Loop → Bool → Stream → List Text → Completion → Pass
  unfolding conclude normalized
  reply s true normalizer pieces m = conclude s true [] (normalized (or_empty m.content))
  reply s false normalizer pieces m =
      let more = (Streaming.flush config.convert normalizer).1 in
      conclude s false more (concat (pieces ++ more))

  -- The end of a round: a direct response ends the turn.
  unfoldable pub after_tools : Loop → Option Text → Pass
  unfolding finish_with normalized
  after_tools s (some direct) = finish_with ok s (normalized direct ∷ []) (normalized direct)
  after_tools s none = continue s

  -- The entry of a round of tool calls, and the messages that answer it.
  unfoldable pub begin_round : Loop → Completion → List ToolCall → Loop
  unfolding normalized
  begin_round s m calls = record s {
    messages = s.messages ++ assistant_message (normalized (or_empty m.content)) calls ∷ [];
    tool_rounds = suc s.tool_rounds;
  }

  unfoldable pub end_round : Loop → Completion → List ToolCall → Loop
  unfolding begin_round
  end_round s m calls = record (begin_round s m calls) {
    messages =
        (begin_round s m calls).messages
        ++ map (λ r. r.message) (execute_tool_calls config.tools s.tool_rounds calls);
  }

  -- A round of tool calls.
  unfoldable pub tool_round : Loop → Completion → List ToolCall → Pass
  unfolding fail after_tools begin_round end_round
  tool_round s m calls =
      if config.breaks s.tool_rounds
      then fail (begin_round s m calls)
      else after_tools (end_round s m calls)
          (find_direct_response calls (execute_tool_calls config.tools s.tool_rounds calls))

  unfoldable pub after_completion :
      Loop → Bool → Stream → List Text → Completion → List ToolCall → Pass
  unfolding reply tool_round finish_with
  after_completion s forced normalizer pieces m [] = reply s forced normalizer pieces m
  after_completion s forced normalizer pieces m (c ∷ calls) =
      if leb config.max_tool_rounds s.tool_rounds
      then finish_with tool_round_limit s (tool_round_limit_message ∷ []) tool_round_limit_message
      else tool_round s m (c ∷ calls)

  -- What follows on the call of the model.
  unfoldable pub after_call : Loop → Bool → Stream → List Text → Ending → Pass
  unfolding after_completion fail recover_context
  after_call s forced normalizer pieces failed = fail s
  after_call s forced normalizer pieces context_window_exceeded =
      if not (is_empty pieces) || leb max_context_recovery_retries s.context_retries
      then fail s
      else continue (record s {
        messages = recover_context s.messages;
        context_retries = suc s.context_retries;
      })
  after_call s forced normalizer pieces tool_call_failed =
      if s.force_required then continue (record s { force_required = false }) else fail s
  after_call s forced normalizer pieces (completed m) =
      after_completion s forced normalizer pieces m (function_tool_calls m.tool_calls)

  -- `force_tool`
  unfoldable pub is_forced : Loop → Bool
  is_forced s = s.tool_rounds == 0 && s.force_required

  -- What the model is asked in a pass.
  unfoldable pub asked : Loop → List Message
  unfolding request_messages prepare_context
  asked s = request_messages (prepare_context s.messages)

  unfoldable pub answer_to : Loop → Answer
  unfolding asked is_forced
  answer_to s = config.llm s.llm_calls (asked s) (is_forced s)

  -- The normalizer behind the deltas, and the pieces that it emitted; a forced call is not streamed.
  unfoldable pub heard : Loop → Stream × List Text
  unfolding feed_all answer_to
  heard s = feed_all Streaming.new (if is_forced s then [] else (answer_to s).deltas)

  -- The state behind a call of the model.
  unfoldable pub called : Loop → Loop
  unfolding prepare_context heard
  called s = record s {
    messages = prepare_context s.messages;
    chunks = s.chunks ++ (heard s).1;
    llm_calls = suc s.llm_calls;
  }

  -- A pass of the loop of `_run_llm_loop`.
  unfoldable pub pass : Loop → Pass
  unfolding called is_forced heard answer_to after_call
  pass s = after_call (called s) (is_forced s) (heard s).0 (heard s).1 (answer_to s).ending

  -- `_run_llm_loop`; none is a loop that has used up its fuel.
  unfoldable pub run : ℕ → Loop → Option Turn
  unfolding pass
  run zero s = none
  run (suc fuel) s = elim (pass s) [ continue s' ↦ run fuel s' | finished t ↦ some t ]

  -- The passes that are enough: every round, the retry of the context, the fall back to automatic
  -- tool choice, and the last answer.
  unfoldable pub enough : ℕ
  enough = config.max_tool_rounds + 3

  unfoldable pub run_llm_loop : List Message → Option Turn
  unfolding run start enough
  run_llm_loop ms = run enough (start ms)
