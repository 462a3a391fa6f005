-- ===== src/Agent/Responses.antt =====
-- The turns of backend/agent/session.py around its loop: `respond_stream` and what it calls. A turn
-- gives the session that it leaves, and what was said.
pub mod Answers
use taigi_agent.Prelude.{
  ℕ, ◌≡◌, ◌⊎◌, refl, ap, sym, subst, ◌∙◌, Bool, true, false, Option, none, some, List, [], ◌∷◌,
  ◌++◌, Option-cases, inl, inr, Text,
}
use taigi_agent.Agent.Context.{user, assistant, Message}
use taigi_agent.Agent.Dispatch.{content_of}
use taigi_agent.Agent.Router.{ConvState, Intent, Decision, classify}
use taigi_agent.Agent.Session.{
  Config, Turn, TurnOutcome, ok, error, plain_message, trim, run_llm_loop,
}

-- What an `AgentSession` keeps between turns.
pub record Session : Type 0 where
  pub messages : List Message
  pub conv_state : ConvState

-- What a turn says, and how it ends.
pub record Spoken : Type 0 where
  pub chunks : List Text
  pub outcome : TurnOutcome

abbrev pub user_message : Text → Message
user_message content = record {
  role = user;
  content = content_of content;
  tool_calls = [];
  tool_call_id = none;
}

abbrev pub or_state : Option ConvState → ConvState → ConvState
or_state none s = s
or_state (some s') s = s'

module _ {Args : Type 0} (config : Config Args) where
  -- `_record_canned_turn`
  unfoldable pub record_canned_turn : Session → Text → Text → Option ConvState → Session
  unfolding trim plain_message
  record_canned_turn s input response next = record {
    messages = trim config ((s.messages ++ user_message input ∷ []) ++ plain_message response ∷ []);
    conv_state = or_state next s.conv_state;
  }

  -- `extra`, with none for an enricher that raises or is not there.
  unfoldable pub extra_of : Option (Text → Option Text) → Text → Text
  extra_of none input = []
  extra_of (some enrich) input = elim (enrich input) [ none ↦ [] | some extra ↦ extra ]

  unfoldable pub after_loop : Session → Option Turn → Option (Session × Spoken)
  after_loop s none = none
  after_loop s (some t) =
      some (record s { messages = t.messages }, record { chunks = t.chunks; outcome = t.outcome })

  -- `_llm_respond_stream`
  unfoldable pub llm_respond_stream :
      Session → Option (Text → Option Text) → Text → Option (Session × Spoken)
  unfolding extra_of run_llm_loop after_loop
  llm_respond_stream s enricher input =
      after_loop s
        (run_llm_loop config (s.messages ++ user_message (input ++ extra_of enricher input) ∷ []))

  -- `respond_stream`
  unfoldable pub respond_stream :
      (ℕ → Bool) → Session → Option (Text → Option Text) → Text → Option (Session × Spoken)
  unfolding classify record_canned_turn llm_respond_stream
  respond_stream is_decimal s enricher input =
      let decision = classify is_decimal input in
      elim decision.canned_response [
        | some response ↦ some (
          record_canned_turn s input response decision.next_state,
          record { chunks = response ∷ []; outcome = ok },
        )
        | none ↦ llm_respond_stream s enricher input
      ]
