-- ===== src/Agent/Session/Pairing.antt =====
-- Every tool call in a history of backend/agent/session.py is answered.
use taigi_agent.Prelude.{
  ℕ, ◌≡◌, refl, sym, subst, ◌∙◌, Bool, true, false, not, ◌||◌, Option, none, some, List, [], ◌∷◌,
  ◌++◌, map, leb, Bool-cases, inl, inr, Text,
}
use taigi_agent.Pipeline.Streaming.{Stream}
use taigi_agent.Agent.Context.{Message, ToolCall, is_empty}
use taigi_agent.Agent.Dispatch.{
  Completion, function_tool_calls, assistant_message, execute_tool_calls,
}
use taigi_agent.Agent.Session.Owed.{
  IsPaired, owed, owed_behind, owed-append, trim_history-IsPaired, owed-compact, drop_dangling-last,
  drop_dangling-append, owed-execute_from,
}
use taigi_agent.Agent.Session.{
  Config, Loop, Turn, Pass, continue, finished, Ending, completed, context_window_exceeded,
  tool_call_failed, failed, plain_message, drop_dangling_tool_call, empty_reply_message,
  tool_round_limit_message, normalized, trim, request_messages, compact_and_trim, prepare_context,
  recover_context, fail, finish_with, conclude, reply, after_tools, begin_round, end_round,
  tool_round, after_completion, after_call, asked, is_forced, heard, called, answer_to, pass, start,
}

-- What a pass leaves is paired.
abbrev pub PassIsPaired : Pass → Type 0
PassIsPaired (continue s) = IsPaired s.messages
PassIsPaired (finished t) = IsPaired t.messages

pub plain-IsPaired :
    (ms : List Message) (t : Text) → IsPaired ms → IsPaired (ms ++ plain_message t ∷ [])
plain-IsPaired ms t h = owed-append [] [] ms (plain_message t ∷ []) h ∙ alone
  where
    alone : IsPaired (plain_message t ∷ [])
    alone = unfold owed owed_behind plain_message in refl

module _ {Args : Type 0} (config : Config Args) where
  compact_and_trim-IsPaired :
      (budget : ℕ) (ms : List Message) → IsPaired ms → IsPaired (compact_and_trim config budget ms)
  unfolding compact_and_trim
  compact_and_trim-IsPaired budget ms h =
      trim_history-IsPaired config.count budget _ _
        (owed-compact config.compact_tool_result_chars _ [] ms ∙ h)

  fail-IsPaired :
      (s : Loop) → IsPaired (drop_dangling_tool_call s.messages) → PassIsPaired (fail config s)
  unfolding fail trim
  fail-IsPaired s h = trim_history-IsPaired config.count _ _ (drop_dangling_tool_call s.messages) h

  fail-paired : (s : Loop) → IsPaired s.messages → PassIsPaired (fail config s)
  fail-paired s h = fail-IsPaired s (subst IsPaired (sym (drop_dangling-last [] s.messages h)) h)

  -- A last assistant message without calls, after which the history is trimmed.
  plain_end-IsPaired :
      (s : Loop) (t : Text)
      → IsPaired s.messages
      → IsPaired (trim config (s.messages ++ plain_message t ∷ []))
  unfolding trim
  plain_end-IsPaired s t h =
      trim_history-IsPaired config.count _ _ _ (plain-IsPaired s.messages t h)

  conclude-IsPaired :
      (s : Loop) (forced : Bool) (more : List Text) (t : Text)
      → IsPaired s.messages
      → PassIsPaired (conclude config s forced more t)
  unfolding conclude finish_with
  conclude-IsPaired s forced more [] h = plain_end-IsPaired s empty_reply_message h
  conclude-IsPaired s forced more (c ∷ t) h = plain_end-IsPaired s (c ∷ t) h

  reply-IsPaired :
      (s : Loop) (forced : Bool) (n : Stream) (pieces : List Text) (m : Completion)
      → IsPaired s.messages
      → PassIsPaired (reply config s forced n pieces m)
  unfolding reply
  reply-IsPaired s true n pieces m h = conclude-IsPaired s true [] _ h
  reply-IsPaired s false n pieces m h = conclude-IsPaired s false _ _ h

  after_tools-IsPaired :
      (s : Loop) (direct : Option Text)
      → IsPaired s.messages
      → PassIsPaired (after_tools config s direct)
  unfolding after_tools finish_with
  after_tools-IsPaired s none h = h
  after_tools-IsPaired s (some t) h = plain_end-IsPaired s (normalized config t) h

  -- The entry of a round owes the answers to its calls.
  owed-begin_round :
      (s : Loop) (m : Completion) (calls : List ToolCall)
      → IsPaired s.messages
      → owed [] (begin_round config s m calls).messages ≡ some (map (λ c. c.id) calls)
  unfolding begin_round
  owed-begin_round s m calls h =
      owed-append [] [] s.messages _ h ∙ (unfold owed owed_behind assistant_message in refl)

  end_round-IsPaired :
      (s : Loop) (m : Completion) (calls : List ToolCall)
      → IsPaired s.messages
      → IsPaired (end_round config s m calls).messages
  unfolding end_round execute_tool_calls
  end_round-IsPaired s m calls h =
      owed-append [] (map (λ c. c.id) calls) (begin_round config s m calls).messages _
        (owed-begin_round s m calls h)
      ∙ owed-execute_from config.tools s.tool_rounds 0 calls

  tool_round-IsPaired :
      (s : Loop) (m : Completion) (c : ToolCall) (calls : List ToolCall)
      → IsPaired s.messages
      → PassIsPaired (tool_round config s m (c ∷ calls))
  unfolding tool_round
  tool_round-IsPaired s m c calls h = elim (Bool-cases (config.breaks s.tool_rounds)) [
    | inl t ↦
        rw t (fail-IsPaired (begin_round config s m (c ∷ calls)) (subst IsPaired (sym dropped) h))
    | inr t ↦ rw t (
        after_tools-IsPaired (end_round config s m (c ∷ calls)) _
          (end_round-IsPaired s m (c ∷ calls) h))
  ]
    where
      dropped : drop_dangling_tool_call (begin_round config s m (c ∷ calls)).messages ≡ s.messages
      dropped = unfold begin_round assistant_message in drop_dangling-append s.messages _ refl

  after_completion-IsPaired :
      (s : Loop) (forced : Bool) (n : Stream) (pieces : List Text) (m : Completion)
      (calls : List ToolCall)
      → IsPaired s.messages
      → PassIsPaired (after_completion config s forced n pieces m calls)
  unfolding after_completion finish_with
  after_completion-IsPaired s forced n pieces m [] h = reply-IsPaired s forced n pieces m h
  after_completion-IsPaired s forced n pieces m (c ∷ calls) h =
      elim (Bool-cases (leb config.max_tool_rounds s.tool_rounds)) [
        | inl t ↦ rw t (plain_end-IsPaired s tool_round_limit_message h)
        | inr t ↦ rw t (tool_round-IsPaired s m c calls h)
      ]

  after_call-IsPaired :
      (s : Loop) (forced : Bool) (n : Stream) (pieces : List Text) (e : Ending)
      → IsPaired s.messages
      → PassIsPaired (after_call config s forced n pieces e)
  unfolding after_call recover_context
  after_call-IsPaired s forced n pieces failed h = fail-paired s h
  after_call-IsPaired s forced n pieces context_window_exceeded h =
      elim (Bool-cases (not (is_empty pieces) || leb 1 s.context_retries)) [
        | inl t ↦ rw t (fail-paired s h)
        | inr t ↦ rw t (compact_and_trim-IsPaired _ s.messages h)
      ]
  after_call-IsPaired s forced n pieces tool_call_failed h = elim (Bool-cases s.force_required) [
    | inl t ↦ rw t h
    | inr t ↦ rw t (fail-paired s h)
  ]
  after_call-IsPaired s forced n pieces (completed m) h =
      after_completion-IsPaired s forced n pieces m (function_tool_calls m.tool_calls) h

  called-IsPaired : (s : Loop) → IsPaired s.messages → IsPaired (called config s).messages
  unfolding called prepare_context
  called-IsPaired s h = compact_and_trim-IsPaired config.max_history_tokens s.messages h

  pub pass-IsPaired : (s : Loop) → IsPaired s.messages → PassIsPaired (pass config s)
  unfolding pass
  pass-IsPaired s h =
      after_call-IsPaired (called config s) (is_forced config s) (heard config s).0
        (heard config s).1 (answer_to config s).ending (called-IsPaired s h)

  asked-IsPaired : (s : Loop) → IsPaired s.messages → IsPaired (asked config s)
  unfolding asked request_messages prepare_context owed owed_behind
  asked-IsPaired s h = compact_and_trim-IsPaired config.max_history_tokens s.messages h

  -- The states that a turn passes through.
  pub data Reaches (s : Loop) : Loop → Type 0 where
    here : Reaches s s
    later : {t u : Loop} → Reaches s t → pass config t ≡ continue u → Reaches s u

  Reaches-IsPaired : {s t : Loop} → IsPaired s.messages → Reaches s t → IsPaired t.messages
  Reaches-IsPaired h here = h
  Reaches-IsPaired h (later {t} r e) = subst PassIsPaired e (pass-IsPaired t (Reaches-IsPaired h r))

  -- From a paired history, the model is only ever asked with a paired history, and every way out of
  -- a turn leaves one, the ways out by an error and by a broken round of tools included: each tool
  -- call is followed by its answers, one to each and in order, and there is no other answer.
  pub turn-IsPaired :
      (ms : List Message) (s : Loop)
      → IsPaired ms
      → Reaches (start ms) s
      → IsPaired (asked config s) × ((t : Turn) → pass config s ≡ finished t → IsPaired t.messages)
  unfolding start
  turn-IsPaired ms s h r =
      let paired = Reaches-IsPaired h r in
      (asked-IsPaired s paired, λ t e. subst PassIsPaired e (pass-IsPaired s paired))
