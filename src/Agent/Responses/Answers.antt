-- ===== src/Agent/Responses/Answers.antt =====
-- How a turn of backend/agent/session.py ends for who asked.
use taigi_agent.Prelude.{
  ℕ, zero, suc, ◌≡◌, ◌⊎◌, refl, ap, sym, subst, ◌∙◌, Bool, Option, none, some, List, [], ◌∷◌, ◌++◌,
  append-nil, concat, inl, inr, Text,
}
use taigi_agent.Agent.Context.{Message}
use taigi_agent.Agent.Router.{classify, ConvState}
use taigi_agent.Agent.Session.{
  Config, Loop, Turn, Pass, continue, finished, TurnOutcome, ok, error, plain_message, trim, pass,
  run, start, enough, run_llm_loop,
}
use taigi_agent.Agent.Session.Owed.{IsPaired, owed, owed_behind, owed-append, trim_history-IsPaired}
use taigi_agent.Agent.Session.Pairing.{PassIsPaired, pass-IsPaired, plain-IsPaired}
use taigi_agent.Agent.Session.Speech.{Said, turn-Said, trim_history-last}
use taigi_agent.Agent.Session.Termination.{run_llm_loop_ends}
use taigi_agent.Agent.Responses.{
  Session, Spoken, user_message, record_canned_turn, extra_of, after_loop, llm_respond_stream,
  respond_stream,
}

-- The chunks end with the text of the message that the history ends with.
abbrev pub EndsWithSpoken : List Text → List Message → Type 0
EndsWithSpoken chunks ms =
    (earlier : List Text) × (last : List Text) × (before : List Message) × (chunks
      ≡ earlier ++ last)
    × (ms ≡ before ++ plain_message (concat last) ∷ [])

-- A turn kept its history in order, and has said its last message or ended with an error.
abbrev pub IsAnswered : List Message → List Text → TurnOutcome → Type 0
IsAnswered ms chunks outcome = IsPaired ms × ((outcome ≡ error) ⊎ EndsWithSpoken chunks ms)

user-IsPaired : (ms : List Message) (t : Text) → IsPaired ms → IsPaired (ms ++ user_message t ∷ [])
user-IsPaired ms t h =
    owed-append [] [] ms (user_message t ∷ []) h ∙ (unfold owed owed_behind in refl)

module _ {Args : Type 0} (config : Config Args) where
  pass-IsAnswered :
      (s : Loop) (t : Turn)
      → IsPaired s.messages
      → pass config s ≡ finished t
      → IsAnswered t.messages t.chunks t.outcome
  pass-IsAnswered s t h e =
      (subst PassIsPaired e (pass-IsPaired config s h), said (turn-Said config s t e))
    where
      said :
          (t.outcome ≡ error) ⊎ Said s.tool_rounds t
          → (t.outcome ≡ error) ⊎ EndsWithSpoken t.chunks t.messages
      said (inl x) = inl x
      said (inr (earlier, last, before, chunks, ms, n)) = inr (earlier, last, before, chunks, ms)

  run-IsAnswered :
      (fuel : ℕ) (s : Loop) (t : Turn)
      → IsPaired s.messages
      → run config fuel s ≡ some t
      → IsAnswered t.messages t.chunks t.outcome
  unfolding run
  run-IsAnswered zero s t h e = cc
  run-IsAnswered (suc fuel) s t h e =
      go (pass config s) refl (λ s' p r. run-IsAnswered fuel s' t p r)
    where
      go :
          (p : Pass)
          → pass config s ≡ p
          → ((s' : Loop)
              → IsPaired s'.messages
              → run config fuel s' ≡ some t
              → IsAnswered t.messages t.chunks t.outcome)
          → IsAnswered t.messages t.chunks t.outcome
      go (continue s') p later =
          let rest : run config fuel s' ≡ some t = cc in
          later s' (subst PassIsPaired p (pass-IsPaired config s h)) rest
      go (finished u) p later =
          let same : u ≡ t = cc in pass-IsAnswered s t h (p ∙ ap finished same)

  run_llm_loop-IsAnswered :
      (ms : List Message) (t : Turn)
      → IsPaired ms
      → run_llm_loop config ms ≡ some t
      → IsAnswered t.messages t.chunks t.outcome
  unfolding run_llm_loop start
  run_llm_loop-IsAnswered ms t h e = run-IsAnswered (enough config) (start ms) t h e

  canned-IsAnswered :
      (s : Session) (input response : Text) (next : Option ConvState)
      → IsPaired s.messages
      → IsAnswered (record_canned_turn config s input response next).messages (response ∷ []) ok
  unfolding record_canned_turn trim
  canned-IsAnswered s input response next h =
      let asked = s.messages ++ user_message input ∷ [] in
      let paired = plain-IsPaired asked response (user-IsPaired s.messages input h) in
      let (before, kept) = trim_history-last config.count _ _ asked (plain_message response) in
      (
        trim_history-IsPaired config.count _ _ _ paired,
        inr (
          [],
          response ∷ [],
          before,
          refl,
          kept ∙ ap (λ x. before ++ plain_message x ∷ []) (sym (append-nil response)),
        ),
      )

  -- From a paired history, whatever the model, the tools and the enricher do, the turn ends and
  -- leaves a paired history; and unless it ends with an error, that history ends with the assistant
  -- message that the last chunks make up. The message may be empty, behind a direct response.
  pub respond_stream_answers :
      (is_decimal : ℕ → Bool) (s : Session) (enricher : Option (Text → Option Text)) (input : Text)
      → IsPaired s.messages
      → (s' : Session) × (said : Spoken) × (respond_stream config is_decimal s enricher input
          ≡ some (s', said))
        × IsAnswered s'.messages said.chunks said.outcome
  unfolding respond_stream llm_respond_stream after_loop
  respond_stream_answers is_decimal s enricher input h =
      go (classify is_decimal input).canned_response refl
    where
      go :
          (o : Option Text)
          → (classify is_decimal input).canned_response ≡ o
          → (s' : Session) × (said : Spoken) × (respond_stream config is_decimal s enricher input
              ≡ some (s', said))
            × IsAnswered s'.messages said.chunks said.outcome
      go (some response) e = (
        record_canned_turn config s input response (classify is_decimal input).next_state,
        record { chunks = response ∷ []; outcome = ok },
        rw (e, respond_stream) refl,
        canned-IsAnswered s input response (classify is_decimal input).next_state h,
      )
      go none e =
          let ms = s.messages ++ user_message (input ++ extra_of config enricher input) ∷ [] in
          let (t, ended) = run_llm_loop_ends config ms in
          (
            record s { messages = t.messages },
            record { chunks = t.chunks; outcome = t.outcome },
            rw (e, respond_stream, llm_respond_stream, ended) refl,
            run_llm_loop-IsAnswered ms t (user-IsPaired s.messages _ h) ended,
          )
