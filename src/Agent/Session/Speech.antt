-- ===== src/Agent/Session/Speech.antt =====
-- What a turn of backend/agent/session.py says, against the history that it leaves.
use taigi_agent.Prelude.{
  ℕ, suc, ◌≡◌, ◌⊎◌, refl, sym, ap, subst, ◌∙◌, Bool, true, false, not, ◌||◌, Option, none, some,
  List, [], ◌∷◌, ◌++◌, append-nil, append_assoc, concat, leb, Bool-cases, inl, inr, Text,
}
use taigi_agent.Pipeline.Streaming
use taigi_agent.Pipeline.Streaming.{Stream}
use taigi_agent.Agent.Context.{Message, Counter, ToolCall, is_empty, trim_history}
use taigi_agent.Agent.Context.Suffix.{trim_history-suffix}
use taigi_agent.Agent.Dispatch.{Completion, function_tool_calls}
use taigi_agent.Agent.Session.{
  Config, Loop, Turn, TurnOutcome, ok, error, Pass, continue, finished, Ending, completed,
  context_window_exceeded, tool_call_failed, failed, plain_message, empty_reply_message,
  tool_round_limit_message, normalized, trim, fail, finish_with, conclude, reply, after_tools,
  begin_round, end_round, tool_round, after_completion, after_call, is_forced, heard, called,
  answer_to, pass,
}

no_room {ℓ} : {A : Type ℓ} (ds ks : List A) → [] ≡ ds ++ ks → is_empty ks ≡ false → ⊥
no_room [] [] e n = cc
no_room [] (k ∷ ks) e n = cc
no_room (d ∷ ds) ks e n = cc

-- The end of a list is the end of each part behind which it is not cut.
last_of_part {ℓ} :
    {A : Type ℓ} (ds xs ks : List A) (m : A)
    → xs ++ m ∷ [] ≡ ds ++ ks
    → is_empty ks ≡ false
    → (before : List A) × (ks ≡ before ++ m ∷ [])
last_of_part [] xs ks m e n = (xs, sym e)
last_of_part (d ∷ ds) [] ks m e n = absurd (no_room ds ks tail n)
  where
    tail : [] ≡ ds ++ ks
    tail = cc
last_of_part (d ∷ ds) (x ∷ xs) ks m e n =
    let tail : xs ++ m ∷ [] ≡ ds ++ ks = cc in last_of_part ds xs ks m tail n

append-nonempty : (ms : List Message) (m : Message) → is_empty (ms ++ m ∷ []) ≡ false
append-nonempty [] m = refl
append-nonempty (x ∷ ms) m = refl

pub trim_history-last :
    (count : Counter) (budget n : ℕ) (ms : List Message) (m : Message)
    → (before : List Message) × (trim_history count budget n (ms ++ m ∷ []) ≡ before ++ m ∷ [])
trim_history-last count budget n ms m =
    let cut = trim_history-suffix count budget n (ms ++ m ∷ []) in
    last_of_part cut.0 ms (trim_history count budget n (ms ++ m ∷ [])) m cut.1
      (cut.3 (append-nonempty ms m))

-- The last chunks make up the message that the history ends with, and that message is empty only
-- behind a further round of tools.
abbrev pub Said : ℕ → Turn → Type 0
Said rounds t =
    (earlier : List Text) × (last : List Text) × (before : List Message) × (t.chunks
      ≡ earlier ++ last)
    × (t.messages ≡ before ++ plain_message (concat last) ∷ [])
    × (concat last ≡ [] → t.tool_rounds ≡ suc rounds)

abbrev pub PassSays : ℕ → Pass → Type 0
PassSays rounds (continue s) = Unit
PassSays rounds (finished t) = (t.outcome ≡ error) ⊎ Said rounds t

module _ {Args : Type 0} (config : Config Args) where
  finish_with-Says :
      (rounds : ℕ) (o : TurnOutcome) (s : Loop) (chunks earlier last : List Text) (t : Text)
      → s.chunks ++ chunks ≡ earlier ++ last
      → concat last ≡ t
      → (t ≡ [] → s.tool_rounds ≡ suc rounds)
      → PassSays rounds (finish_with config o s chunks t)
  unfolding finish_with trim
  finish_with-Says rounds o s chunks earlier last t e c n =
      let (before, kept) = trim_history-last config.count _ _ s.messages (plain_message t) in
      inr (
        earlier,
        last,
        before,
        e,
        kept ∙ ap (λ x. before ++ plain_message x ∷ []) (sym c),
        λ z. n (sym c ∙ z),
      )

  -- One chunk that is the whole message.
  whole-Says :
      (rounds : ℕ) (o : TurnOutcome) (s : Loop) (chunks : List Text) (t : Text)
      → (t ≡ [] → s.tool_rounds ≡ suc rounds)
      → PassSays rounds (finish_with config o s (chunks ++ t ∷ []) t)
  whole-Says rounds o s chunks t n =
      finish_with-Says rounds o s (chunks ++ t ∷ []) (s.chunks ++ chunks) (t ∷ []) t
        (sym (append_assoc s.chunks chunks (t ∷ []))) (append-nil t) n

  conclude-Says :
      (rounds : ℕ) (s : Loop) (earlier pieces more : List Text) (t : Text)
      → s.chunks ≡ earlier ++ pieces
      → concat (pieces ++ more) ≡ t
      → PassSays rounds (conclude config s false more t)
  unfolding conclude
  conclude-Says rounds s earlier pieces more [] e c =
      whole-Says rounds ok s more empty_reply_message (λ z. cc)
  conclude-Says rounds s earlier pieces more (x ∷ t) e c =
      finish_with-Says rounds ok s more earlier (pieces ++ more) (x ∷ t)
        (ap (λ y. y ++ more) e ∙ append_assoc earlier pieces more) c (λ z. cc)

  conclude_forced-Says :
      (rounds : ℕ) (s : Loop) (t : Text) → PassSays rounds (conclude config s true [] t)
  unfolding conclude
  conclude_forced-Says rounds s [] = whole-Says rounds ok s [] empty_reply_message (λ z. cc)
  conclude_forced-Says rounds s (x ∷ t) = whole-Says rounds ok s [] (x ∷ t) (λ z. cc)

  reply-Says :
      (rounds : ℕ) (s : Loop) (forced : Bool) (n : Stream) (earlier pieces : List Text)
      (m : Completion)
      → s.chunks ≡ earlier ++ pieces
      → PassSays rounds (reply config s forced n pieces m)
  unfolding reply
  reply-Says rounds s true n earlier pieces m e = conclude_forced-Says rounds s _
  reply-Says rounds s false n earlier pieces m e =
      conclude-Says rounds s earlier pieces (Streaming.flush config.convert n).1 _ e refl

  after_tools-Says :
      (rounds : ℕ) (s : Loop) (direct : Option Text)
      → s.tool_rounds ≡ suc rounds
      → PassSays rounds (after_tools config s direct)
  unfolding after_tools
  after_tools-Says rounds s none e = tt
  after_tools-Says rounds s (some t) e = whole-Says rounds ok s [] (normalized config t) (λ z. e)

  tool_round-Says :
      (s : Loop) (m : Completion) (calls : List ToolCall)
      → PassSays s.tool_rounds (tool_round config s m calls)
  unfolding tool_round fail end_round begin_round
  tool_round-Says s m calls = elim (Bool-cases (config.breaks s.tool_rounds)) [
    | inl t ↦ rw t (inl refl)
    | inr t ↦ rw t (after_tools-Says s.tool_rounds (end_round config s m calls) _ refl)
  ]

  after_completion-Says :
      (s : Loop) (forced : Bool) (n : Stream) (earlier pieces : List Text) (m : Completion)
      (calls : List ToolCall)
      → s.chunks ≡ earlier ++ pieces
      → PassSays s.tool_rounds (after_completion config s forced n pieces m calls)
  unfolding after_completion
  after_completion-Says s forced n earlier pieces m [] e =
      reply-Says s.tool_rounds s forced n earlier pieces m e
  after_completion-Says s forced n earlier pieces m (c ∷ calls) e =
      elim (Bool-cases (leb config.max_tool_rounds s.tool_rounds)) [
        | inl t ↦ rw t (whole-Says s.tool_rounds _ s [] tool_round_limit_message (λ z. cc))
        | inr t ↦ rw t (tool_round-Says s m (c ∷ calls))
      ]

  after_call-Says :
      (s : Loop) (forced : Bool) (n : Stream) (earlier pieces : List Text) (ending : Ending)
      → s.chunks ≡ earlier ++ pieces
      → PassSays s.tool_rounds (after_call config s forced n pieces ending)
  unfolding after_call fail
  after_call-Says s forced n earlier pieces failed e = inl refl
  after_call-Says s forced n earlier pieces context_window_exceeded e =
      elim (Bool-cases (not (is_empty pieces) || leb 1 s.context_retries)) [
        | inl t ↦ rw t (inl refl)
        | inr t ↦ rw t tt
      ]
  after_call-Says s forced n earlier pieces tool_call_failed e =
      elim (Bool-cases s.force_required) [ inl t ↦ rw t tt | inr t ↦ rw t (inl refl) ]
  after_call-Says s forced n earlier pieces (completed m) e =
      after_completion-Says s forced n earlier pieces m (function_tool_calls m.tool_calls) e

  -- A turn that does not end with an error has said what its history ends with: the last chunks, put
  -- together, are the text of the assistant message at the end of the history, after it was trimmed.
  -- That text is empty only where a round of tools ended the turn with a direct response.
  pub turn-Said :
      (s : Loop) (t : Turn)
      → pass config s ≡ finished t
      → (t.outcome ≡ error) ⊎ Said s.tool_rounds t
  unfolding pass called
  turn-Said s t h = subst (PassSays s.tool_rounds) h (
      after_call-Says (called config s) (is_forced config s) (heard config s).0 s.chunks
        (heard config s).1 (answer_to config s).ending refl)
