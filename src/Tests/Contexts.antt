-- ===== src/Tests/Contexts.antt =====
-- Runs of backend/agent/context.py.
use taigi_agent.Prelude.{◌≡◌, refl, false, none, List, [], ◌∷◌, ◌++◌, length, All, Text, codes}
use taigi_agent.Agent.Context.{
  user, assistant, tool, text, Message, Counter, is_empty, estimate_tokens, group_exchanges,
  kept_exchanges, trim_history, compact_long_tool_results,
}
use taigi_agent.Agent.Context.Groups.{IsTurn, AreExchanges, group_exchanges-AreExchanges}
use taigi_agent.Agent.Context.Trim.{IsNewest, kept_exchanges-IsNewest}
use taigi_agent.Agent.Context.Suffix.{trim_history-suffix}
use taigi_agent.Agent.Context.Compact.{AllCompacted, compact_long_tool_results-AllCompacted}

-- A token for each character.
abbrev characters : Counter
characters = record { text_tokens = length; call_tokens = length }

abbrev ask : Text → Message
ask t = record { role = user; content = text t; tool_calls = []; tool_call_id = none }

abbrev reply : Text → Message
reply t = record { role = assistant; content = text t; tool_calls = []; tool_call_id = none }

abbrev result : Text → Message
result t = record { role = tool; content = text t; tool_calls = []; tool_call_id = none }

abbrev history : List Message
history =
    reply (codes "hello")
    ∷ ask (codes "201?")
    ∷ result (codes "3 min")
    ∷ reply (codes "soon")
    ∷ ask (codes "bye")
    ∷ reply (codes "bye")
    ∷ []

grouped :
    group_exchanges history
    ≡ (reply (codes "hello") ∷ [])
      ∷ (ask (codes "201?") ∷ result (codes "3 min") ∷ reply (codes "soon") ∷ [])
      ∷ (ask (codes "bye") ∷ reply (codes "bye") ∷ [])
      ∷ []
unfolding group_exchanges
grouped = refl

-- With a token for each character the last exchange costs 14, and the two last 39.
trimmed : trim_history characters 38 5 history ≡ ask (codes "bye") ∷ reply (codes "bye") ∷ []
unfolding trim_history estimate_tokens
trimmed = refl

group_exchanges-AreExchanges_example : AreExchanges (group_exchanges history)
group_exchanges-AreExchanges_example = group_exchanges-AreExchanges history

kept_exchanges-IsNewest_example : IsNewest characters 38 5 history
kept_exchanges-IsNewest_example = kept_exchanges-IsNewest characters 38 5 history

trim_history-suffix_example :
    (dropped : List Message) × (history ≡ dropped ++ trim_history characters 38 5 history)
    × (is_empty dropped ≡ false → All IsTurn (kept_exchanges characters 38 5 history))
    × (is_empty history ≡ false → is_empty (trim_history characters 38 5 history) ≡ false)
trim_history-suffix_example = trim_history-suffix characters 38 5 history

compact_long_tool_results-AllCompacted_example :
    AllCompacted 4 2 history (compact_long_tool_results 4 2 history)
compact_long_tool_results-AllCompacted_example = compact_long_tool_results-AllCompacted 4 2 history
