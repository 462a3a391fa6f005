-- ===== src/Agent/Session/Owed.antt =====
-- The tool calls of a history of backend/agent/session.py that are still to be answered, and what the
-- steps on a history do to them.
use taigi_agent.Prelude.{
  ℕ, suc, ◌≡◌, refl, ap, subst, ◌∙◌, Bool, true, false, not, ◌&&◌, Option, none, some, List, [],
  ◌∷◌, ◌++◌, arith, map, All, concat, if◌then◌else◌, Bool-cases, Option-cases, inl, inr, Text,
  text_eq, text_eq_refl,
}
use taigi_agent.Agent.Context.{
  Message, Counter, ToolCall, is_user, is_tool, is_empty, trim_history, kept_exchanges,
  compact_message, compact_long_tool_results,
}
use taigi_agent.Agent.Context.Groups.{IsTurn}
use taigi_agent.Agent.Context.Suffix.{trim_history-suffix}
use taigi_agent.Agent.Dispatch.{
  Tools, Handled, returned, raised, Parsed, malformed, no_object, object, run_handler,
  handled_result, execute_one, execute_from, parsed_result, arguments_or_object,
}
use taigi_agent.Agent.Session.{is_dangling, drop_dangling_tool_call}

-- A message answers the call with this id.
abbrev pub answers : Option Text → Text → Bool
answers none i = false
answers (some j) i = text_eq j i

-- The ids that are still to be answered behind a message; none where the message may not stand.
unfoldable pub owed_behind : List Text → Message → Option (List Text)
owed_behind [] m = if is_tool m then none else some (map (λ c. c.id) m.tool_calls)
owed_behind (i ∷ ids) m = if is_tool m && answers m.tool_call_id i then some ids else none

unfoldable pub owed : List Text → List Message → Option (List Text)
unfolding owed_behind
owed ids [] = some ids
owed ids (m ∷ ms) = elim (owed_behind ids m) [ none ↦ none | some rest ↦ owed rest ms ]

-- Each message with tool calls is followed by the answers to them, one to each and in order, and
-- there are no other answers.
abbrev pub IsPaired : List Message → Type 0
IsPaired ms = owed [] ms ≡ some []

pub owed-append :
    (ids rest : List Text) (xs ys : List Message)
    → owed ids xs ≡ some rest
    → owed ids (xs ++ ys) ≡ owed rest ys
unfolding owed
owed-append ids rest [] ys h = let same : ids ≡ rest = cc in ap (λ r. owed r ys) same
owed-append ids rest (m ∷ xs) ys h = elim (Option-cases (owed_behind ids m)) [
  | inl o ↦ cc
  | inr (next, o) ↦
      let tail : owed next xs ≡ some rest = cc in rw (o, owed) (owed-append next rest xs ys tail)
]

owed_behind-user :
    (ids rest : List Text) (m : Message)
    → is_user m ≡ true
    → owed_behind ids m ≡ some rest
    → ids ≡ []
unfolding owed_behind
owed_behind-user [] rest m u h = refl
owed_behind-user (i ∷ ids) rest m u h =
    let no_tool : is_tool m ≡ false = ground arith in ground arith

-- What begins with a user message is paired on its own.
owed-user :
    (ids : List Text) (xs : List Message) (m : Message) (ys : List Message)
    → is_user m ≡ true
    → owed ids (xs ++ m ∷ ys) ≡ some []
    → owed [] (m ∷ ys) ≡ some []
unfolding owed
owed-user ids [] m ys u h = elim (Option-cases (owed_behind ids m)) [
  | inl o ↦ cc
  | inr (next, o) ↦
      let none_owed : ids ≡ [] = owed_behind-user ids next m u o in
      subst (λ x. owed x (m ∷ ys) ≡ some []) none_owed h
]
owed-user ids (x ∷ xs) m ys u h = elim (Option-cases (owed_behind ids x)) [
  | inl o ↦ cc
  | inr (next, o) ↦
      let tail : owed next (xs ++ m ∷ ys) ≡ some [] = cc in owed-user next xs m ys u tail
]

owed-turns :
    (es : List (List Message))
    → All IsTurn es
    → (xs : List Message) → IsPaired (xs ++ concat es)
    → IsPaired (concat es)
owed-turns [] t xs h = unfold owed in refl
owed-turns ([] ∷ es) t xs h = absurd t.0
owed-turns ((m ∷ ms) ∷ es) t xs h = owed-user [] xs m (ms ++ concat es) t.0.0 h

empty_nil {ℓ} : {A : Type ℓ} (xs : List A) → is_empty xs ≡ true → xs ≡ []
empty_nil [] h = refl
empty_nil (x ∷ xs) h = cc

pub trim_history-IsPaired :
    (count : Counter) (budget n : ℕ) (ms : List Message)
    → IsPaired ms
    → IsPaired (trim_history count budget n ms)
unfolding trim_history
trim_history-IsPaired count budget n ms h = elim (Bool-cases (is_empty dropped)) [
  | inl t ↦
      subst IsPaired
        (cut.1 ∙ ap (λ x. x ++ concat (kept_exchanges count budget n ms)) (empty_nil dropped t)) h
  | inr t ↦ owed-turns (kept_exchanges count budget n ms) (cut.2 t) dropped (subst IsPaired cut.1 h)
]
  where
    cut :
        (dropped : List Message) × (ms ≡ dropped ++ trim_history count budget n ms)
        × (is_empty dropped ≡ false → All IsTurn (kept_exchanges count budget n ms))
        × (is_empty ms ≡ false → is_empty (trim_history count budget n ms) ≡ false)
    cut = trim_history-suffix count budget n ms

    dropped : List Message
    dropped = cut.0

compact_message-same :
    (max_chars n : ℕ) (m : Message)
    → ((compact_message max_chars n m).role ≡ m.role)
      × ((compact_message max_chars n m).tool_calls ≡ m.tool_calls)
      × ((compact_message max_chars n m).tool_call_id ≡ m.tool_call_id)
unfolding compact_message
compact_message-same max_chars n m = elim (Bool-cases (is_tool m)) [
  | inl t ↦ rw t (refl, refl, refl)
  | inr t ↦ rw t (refl, refl, refl)
]

owed_behind-compact :
    (max_chars n : ℕ) (ids : List Text) (m : Message)
    → owed_behind ids (compact_message max_chars n m) ≡ owed_behind ids m
unfolding owed_behind
owed_behind-compact max_chars n [] m =
    let (role, calls, id) = compact_message-same max_chars n m in rw (role, calls) refl
owed_behind-compact max_chars n (i ∷ ids) m =
    let (role, calls, id) = compact_message-same max_chars n m in rw (role, id) refl

pub owed-compact :
    (max_chars n : ℕ) (ids : List Text) (ms : List Message)
    → owed ids (compact_long_tool_results max_chars n ms) ≡ owed ids ms
unfolding compact_long_tool_results owed
owed-compact max_chars n ids [] = refl
owed-compact max_chars n ids (m ∷ ms) = elim (Option-cases (owed_behind ids m)) [
  | inl o ↦ rw (owed_behind-compact max_chars n ids m, o, owed) refl
  | inr (rest, o) ↦
      rw (owed_behind-compact max_chars n ids m, o, owed) (owed-compact max_chars n rest ms)
]

ids-nonempty :
    (calls : List ToolCall) → not (is_empty calls) ≡ true → map (λ c. c.id) calls ≡ [] → ⊥
ids-nonempty [] t h = cc
ids-nonempty (c ∷ calls) t h = cc

-- A message that dangles owes its answers.
dangling-owes :
    (ids : List Text) (m : Message) → is_dangling m ≡ true → owed_behind ids m ≡ some [] → ⊥
unfolding owed_behind
dangling-owes [] m t h =
    let no_tool : is_tool m ≡ false = ground arith in
    let calls : not (is_empty m.tool_calls) ≡ true = ground arith in
    let none_owed : map (λ c. c.id) m.tool_calls ≡ [] = ground arith in
    ids-nonempty m.tool_calls calls none_owed
dangling-owes (i ∷ ids) m t h = let no_tool : is_tool m ≡ false = ground arith in ground arith

pub drop_dangling-last :
    (ids : List Text) (ms : List Message) → owed ids ms ≡ some [] → drop_dangling_tool_call ms ≡ ms
unfolding drop_dangling_tool_call owed
drop_dangling-last ids [] h = refl
drop_dangling-last ids (m ∷ []) h = elim (Bool-cases (is_dangling m)) [
  | inl t ↦ elim (Option-cases (owed_behind ids m)) [
    | inl o ↦ cc
    | inr (rest, o) ↦
        let settled : owed_behind ids m ≡ some [] = cc in absurd (dangling-owes ids m t settled)
  ]
  | inr t ↦ rw t refl
]
drop_dangling-last ids (m ∷ n ∷ ms) h = elim (Option-cases (owed_behind ids m)) [
  | inl o ↦ cc
  | inr (rest, o) ↦
      let tail : owed rest (n ∷ ms) ≡ some [] = cc in
      ap (◌∷◌ m) (drop_dangling-last rest (n ∷ ms) tail)
]

pub drop_dangling-append :
    (ms : List Message) (m : Message)
    → is_dangling m ≡ true
    → drop_dangling_tool_call (ms ++ m ∷ []) ≡ ms
unfolding drop_dangling_tool_call
drop_dangling-append [] m h = rw h refl
drop_dangling-append (x ∷ []) m h = rw h refl
drop_dangling-append (x ∷ y ∷ ms) m h = ap (◌∷◌ x) (drop_dangling-append (y ∷ ms) m h)

-- The results of a round answer its calls.
module _ {Args : Type 0} (tools : Tools Args) (round : ℕ) where
  -- A tool message with this id.
  abbrev AnswersCall : ToolCall → Message → Type 0
  AnswersCall c m = (is_tool m ≡ true) × (m.tool_call_id ≡ some c.id)

  handled_result-AnswersCall :
      (c : ToolCall) (h : Handled) → AnswersCall c (handled_result c h).message
  unfolding handled_result
  handled_result-AnswersCall c (returned t) = (refl, refl)
  handled_result-AnswersCall c (raised t) = (refl, refl)

  run_handler-AnswersCall :
      (place : ℕ) (c : ToolCall) (args : Args) (h : Option (ℕ → ℕ → Args → Handled))
      → AnswersCall c (run_handler tools round place c args h).message
  unfolding run_handler
  run_handler-AnswersCall place c args none = (refl, refl)
  run_handler-AnswersCall place c args (some h) = handled_result-AnswersCall c (h round place args)

  parsed_result-AnswersCall :
      (place : ℕ) (c : ToolCall) (p : Parsed Args)
      → AnswersCall c (parsed_result tools round place c p).message
  unfolding parsed_result
  parsed_result-AnswersCall place c malformed = (refl, refl)
  parsed_result-AnswersCall place c no_object = (refl, refl)
  parsed_result-AnswersCall place c (object args) =
      run_handler-AnswersCall place c args (tools.handlers c.name)

  execute_one-AnswersCall :
      (place : ℕ) (c : ToolCall) → AnswersCall c (execute_one tools round place c).message
  unfolding execute_one
  execute_one-AnswersCall place c =
      parsed_result-AnswersCall place c (tools.loads (arguments_or_object c.arguments))

  pub owed-execute_from :
      (place : ℕ) (calls : List ToolCall)
      → owed (map (λ c. c.id) calls) (map (λ r. r.message) (execute_from tools round place calls))
        ≡ some []
  unfolding execute_from owed
  owed-execute_from place [] = refl
  owed-execute_from place (c ∷ calls) = rw (first, owed) (owed-execute_from (suc place) calls)
    where
      ids : List Text
      ids = map (λ x. x.id) calls

      first : owed_behind (c.id ∷ ids) (execute_one tools round place c).message ≡ some ids
      first =
          let (is_answer, id) = execute_one-AnswersCall place c in
          unfold owed_behind in rw (is_answer, id, text_eq_refl) refl
