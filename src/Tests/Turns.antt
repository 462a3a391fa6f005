-- ===== src/Tests/Turns.antt =====
-- Turns of backend/agent/session.py, with a model that looks something up and then answers.
use taigi_agent.Prelude.{
  ℕ, zero, suc, ◌≡◌, ◌⊎◌, refl, Bool, true, false, ◌&&◌, Option, none, some, List, [], ◌∷◌, length,
  leb, Text, codes,
}
use taigi_agent.Pipeline.Streaming
use taigi_agent.Agent.Context.{
  trim_history, compact_long_tool_results, estimate_tokens, user, assistant, text, Message,
}
use taigi_agent.Agent.Dispatch.{
  function_tool_calls, execute_tool_calls, Completion, Tools, object, returned,
}
use taigi_agent.Agent.Session.{
  plain_message, find_direct_response, Config, Loop, Turn, Answer, completed, tool_call_failed, ok,
  error, finished, pass, start, run_llm_loop, asked,
}
use taigi_agent.Agent.Router.{classify, timetable_unsupported, to_model}
use taigi_agent.Agent.Responses.{Session}
use taigi_agent.Agent.Session.Owed.{IsPaired, owed, owed_behind}
use taigi_agent.Agent.Session.Pairing.{here, turn-IsPaired}
use taigi_agent.Agent.Session.Speech.{Said, turn-Said}
use taigi_agent.Agent.Session.Termination.{run_llm_loop_ends}

-- Arguments are their own text.
abbrev tools : Tools Text
tools = record {
  loads = λ t. object t;
  handlers = λ name. some (λ round place args. returned (codes "三分鐘"));
}

abbrev lookup : Completion
lookup = record {
  content = none;
  tool_calls =
      record {
        kind = codes "function";
        call = record { id = codes "a"; name = codes "get_arrivals_here"; arguments = [] };
      }
      ∷ [];
}

abbrev spoken : Completion
spoken = record { content = none; tool_calls = [] }

abbrev answers : ℕ → Answer
answers zero = record { deltas = []; ending = completed lookup }
answers (suc zero) = record { deltas = codes "還有三" ∷ codes "分鐘。再" ∷ []; ending = completed spoken }
answers (suc (suc n)) = record { deltas = []; ending = tool_call_failed }

abbrev config : Config Text
config = record {
  system_prompt = codes "阿姨";
  max_tool_rounds = 8;
  max_history_tokens = 4000;
  compact_tool_result_chars = 12_000;
  count = record { text_tokens = length; call_tokens = length };
  convert = λ t. t;
  tools = tools;
  breaks = λ round. false;
  llm = λ n ms forced. answers n;
}

abbrev question : List Message
question =
    record { role = user; content = text (codes "201?"); tool_calls = []; tool_call_id = none } ∷ []

abbrev chunks_of : Option Turn → List Text
chunks_of none = []
chunks_of (some t) = t.chunks

spoken_chunks : chunks_of (run_llm_loop config question) ≡ codes "還有三分鐘。" ∷ codes "再" ∷ []
unfolding run_llm_loop function_tool_calls find_direct_response execute_tool_calls Streaming.feed
    Streaming.new Streaming.flush
spoken_chunks = refl

run_llm_loop_ends_example : (t : Turn) × (run_llm_loop config question ≡ some t)
run_llm_loop_ends_example = run_llm_loop_ends config question

question-IsPaired : IsPaired question
unfolding owed owed_behind
question-IsPaired = refl

turn-IsPaired_example :
    IsPaired (asked config (start question))
    × ((t : Turn) → pass config (start question) ≡ finished t → IsPaired t.messages)
turn-IsPaired_example = turn-IsPaired config question (start question) question-IsPaired here

-- The second pass, behind the round of tools.
abbrev second : Loop
second = record {
  messages = question;
  chunks = [];
  tool_rounds = 1;
  context_retries = 0;
  force_required = true;
  llm_calls = 1;
}

abbrev answered : Turn
answered = record {
  messages =
      record { role = user; content = text (codes "201?"); tool_calls = []; tool_call_id = none }
      ∷ record {
        role = assistant;
        content = text (codes "還有三分鐘。再");
        tool_calls = [];
        tool_call_id = none;
      }
      ∷ [];
  chunks = codes "還有三分鐘。" ∷ codes "再" ∷ [];
  outcome = ok;
  tool_rounds = 1;
}

second_pass : pass config second ≡ finished answered
unfolding pass function_tool_calls Streaming.feed Streaming.new Streaming.flush trim_history
    compact_long_tool_results estimate_tokens plain_message
second_pass = refl

turn-Said_example : (answered.outcome ≡ error) ⊎ Said 1 answered
turn-Said_example = turn-Said config second answered second_pass

-- The stream breaks off with a refused tool call after a sentence was spoken: the loop asks again, and
-- the sentence is spoken twice.
abbrev stuttering : Config Text
stuttering = record config { llm = λ n ms forced. stutter n }
  where
    stutter : ℕ → Answer
    stutter zero = record { deltas = []; ending = completed lookup }
    stutter (suc zero) = record { deltas = codes "還有三分鐘。" ∷ []; ending = tool_call_failed }
    stutter (suc (suc n)) = record { deltas = codes "還有三分鐘。" ∷ []; ending = completed spoken }

spoken_twice : chunks_of (run_llm_loop stuttering question) ≡ codes "還有三分鐘。" ∷ codes "還有三分鐘。" ∷ []
unfolding run_llm_loop function_tool_calls find_direct_response execute_tool_calls Streaming.feed
    Streaming.new Streaming.flush
spoken_twice = refl

-- A direct response without text ends the turn, and what is said is empty.
abbrev silent : Config Text
silent = record config {
  tools = record tools { handlers = λ name. some (λ round place args. returned []) };
  llm = λ n ms forced. record { deltas = []; ending = completed direct };
}
  where
    direct : Completion
    direct = record {
      content = none;
      tool_calls =
          record {
            kind = codes "function";
            call = record { id = codes "a"; name = codes "respond_directly"; arguments = [] };
          }
          ∷ [];
    }

silent_turn : chunks_of (run_llm_loop silent question) ≡ [] ∷ []
unfolding run_llm_loop function_tool_calls find_direct_response execute_tool_calls Streaming.feed
    Streaming.new Streaming.flush
silent_turn = refl

abbrev ascii_digit : ℕ → Bool
ascii_digit c = leb 48 c && leb c 57

spoken_route :
    (classify ascii_digit (codes " 七零一二路")).canned_response
    ≡ some (codes "7012您想查什麼，到站時間還是有沒有停某個地方？")
unfolding classify
spoken_route = refl

travel_time : (classify ascii_digit (codes "從斗六到虎尾要幾分")).intent ≡ timetable_unsupported
unfolding classify
travel_time = refl

year_is_for_model : classify ascii_digit (codes "１２３４５") ≡ to_model
unfolding classify
year_is_for_model = refl

abbrev fresh : Session
fresh = record { messages = []; conv_state = record { last_intent = none } }

nothing-IsPaired : IsPaired []
unfolding owed
nothing-IsPaired = refl
