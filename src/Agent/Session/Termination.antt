-- ===== src/Agent/Session/Termination.antt =====
-- A turn of backend/agent/session.py comes to an end.
use taigi_agent.Prelude.{
  ℕ, zero, suc, ◌+◌, ◌-◌, ◌<◌, ◌≡◌, refl, subst, Bool, true, false, not, ◌||◌, Option, none, some,
  List, [], ◌∷◌, arith, leb, if◌then◌else◌, Bool-cases, inl, inr, Text,
}
use taigi_agent.Pipeline.Streaming.{Stream}
use taigi_agent.Agent.Context.{is_empty, Message, ToolCall}
use taigi_agent.Agent.Dispatch.{Completion, function_tool_calls}
use taigi_agent.Agent.Session.{
  Config, Loop, Turn, Pass, continue, finished, Ending, completed, context_window_exceeded,
  tool_call_failed, failed, fail, finish_with, conclude, reply, after_tools, begin_round, end_round,
  tool_round, after_completion, after_call, recover_context, is_forced, heard, called, answer_to,
  pass, run, start, enough, run_llm_loop,
}

module _ {Args : Type 0} (config : Config Args) where
  -- The passes that may still follow on a state.
  left : Loop → ℕ
  left s =
      config.max_tool_rounds
      - s.tool_rounds
      + (1 - s.context_retries)
      + (if s.force_required then 1 else 0)

  conclude-finished :
      (s s' : Loop) (forced : Bool) (more : List Text) (content : Text)
      → conclude config s forced more content ≡ continue s'
      → ⊥
  unfolding conclude finish_with
  conclude-finished s s' forced more [] h = cc
  conclude-finished s s' forced more (c ∷ content) h = cc

  reply-finished :
      (s s' : Loop) (forced : Bool) (n : Stream) (pieces : List Text) (m : Completion)
      → reply config s forced n pieces m ≡ continue s'
      → ⊥
  unfolding reply
  reply-finished s s' true n pieces m h = conclude-finished s s' true [] _ h
  reply-finished s s' false n pieces m h = conclude-finished s s' false _ _ h

  after_tools-continue :
      (s s' : Loop) (direct : Option Text) → after_tools config s direct ≡ continue s' → s ≡ s'
  unfolding after_tools finish_with
  after_tools-continue s s' none h = cc
  after_tools-continue s s' (some t) h = cc

  broken-continue :
      (broken : Bool) (begun done s' : Loop) (direct : Option Text)
      → (if broken then fail config begun else after_tools config done direct) ≡ continue s'
      → done ≡ s'
  unfolding fail
  broken-continue true begun done s' direct h = cc
  broken-continue false begun done s' direct h = after_tools-continue done s' direct h

  tool_round-less :
      (s s' : Loop) (m : Completion) (calls : List ToolCall)
      → leb config.max_tool_rounds s.tool_rounds ≡ false
      → tool_round config s m calls ≡ continue s'
      → left s' < left s
  unfolding tool_round end_round left
  tool_round-less s s' m calls room h =
      subst (λ x. left x < left s)
        (broken-continue (config.breaks s.tool_rounds) (begin_round config s m calls)
          (end_round config s m calls) s' _ h)
        (ground arith)

  after_completion-less :
      (s s' : Loop) (forced : Bool) (n : Stream) (pieces : List Text) (m : Completion)
      (calls : List ToolCall)
      → after_completion config s forced n pieces m calls ≡ continue s'
      → left s' < left s
  unfolding after_completion finish_with
  after_completion-less s s' forced n pieces m [] h =
      absurd (reply-finished s s' forced n pieces m h)
  after_completion-less s s' forced n pieces m (c ∷ calls) h =
      elim (Bool-cases (leb config.max_tool_rounds s.tool_rounds)) [
        | inl t ↦ cc
        | inr t ↦
            let e : tool_round config s m (c ∷ calls) ≡ continue s' = cc in
            tool_round-less s s' m (c ∷ calls) t e
      ]

  retry-less :
      (b : Bool) (s t s' : Loop)
      → (b ≡ false → left t < left s)
      → (if b then fail config s else continue t) ≡ continue s'
      → left s' < left s
  unfolding fail
  retry-less true s t s' l h = cc
  retry-less false s t s' l h = let same : t ≡ s' = cc in subst (λ x. left x < left s) same (l refl)

  after_call-less :
      (s s' : Loop) (forced : Bool) (n : Stream) (pieces : List Text) (e : Ending)
      → after_call config s forced n pieces e ≡ continue s'
      → left s' < left s
  unfolding after_call fail left
  after_call-less s s' forced n pieces failed h = cc
  after_call-less s s' forced n pieces context_window_exceeded h =
      retry-less (not (is_empty pieces) || leb 1 s.context_retries) s
        (record s {
          messages = recover_context config s.messages;
          context_retries = suc s.context_retries;
        })
        s' (λ room. ground arith) h
  after_call-less s s' forced n pieces tool_call_failed h = elim (Bool-cases s.force_required) [
    | inl t ↦
        let same : record s { force_required = false } ≡ s' = cc in
        subst (λ x. left x < left s) same (rw t (omega arith))
    | inr t ↦ cc
  ]
  after_call-less s s' forced n pieces (completed m) h =
      after_completion-less s s' forced n pieces m (function_tool_calls m.tool_calls) h

  pass-less : (s s' : Loop) → pass config s ≡ continue s' → left s' < left s
  unfolding pass called left
  pass-less s s' h =
      after_call-less (called config s) s' (is_forced config s) (heard config s).0
        (heard config s).1 (answer_to config s).ending h

  run-enough : (fuel : ℕ) (s : Loop) → left s < fuel → (t : Turn) × (run config fuel s ≡ some t)
  unfolding run
  run-enough zero s h = absurd (omega arith)
  run-enough (suc fuel) s h =
      go (pass config s) refl (λ s' e. run-enough fuel s' (omega (arith, pass-less s s' e)))
    where
      go :
          (p : Pass)
          → pass config s ≡ p
          → ((s' : Loop) → pass config s ≡ continue s' → (t : Turn) × (run config fuel s' ≡ some t))
          → (t : Turn) × (run config (suc fuel) s ≡ some t)
      go (finished t) e later = (t, rw (e, run) refl)
      go (continue s') e later = let (t, r) = later s' e in (t, rw (e, run) r)

  -- A turn ends: whatever the model answers and the tools do, the loop leaves a result, after three
  -- passes more than there may be tool rounds at most.
  pub run_llm_loop_ends : (ms : List Message) → (t : Turn) × (run_llm_loop config ms ≡ some t)
  unfolding run_llm_loop start enough left
  run_llm_loop_ends ms = run-enough (enough config) (start ms) (omega arith)
