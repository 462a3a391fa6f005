-- ===== src/Agent/Context/Groups.antt =====
-- `group_exchanges` of backend/agent/context.py splits a history at its user messages.
use taigi_agent.Prelude.{
  ◌≡◌, ◌∙◌, true, false, not, ◌&&◌, List, [], ◌∷◌, ◌++◌, append-nil, append_assoc, concat,
  concat-append, All, All-append, Bool-cases, inl, inr,
}
use taigi_agent.Agent.Context.{Message, is_user, is_empty, group_loop, group_exchanges}

-- What the loop still holds, put in order.
concat-group_loop :
    (exchanges : List (List Message)) (current ms : List Message)
    → concat (group_loop exchanges current ms) ≡ concat exchanges ++ (current ++ ms)
unfolding group_loop
concat-group_loop exchanges [] [] = rw append-nil
concat-group_loop exchanges (c ∷ cs) [] = rw concat-append (rw (append-nil (c ∷ cs)))
concat-group_loop exchanges current (m ∷ ms) =
    elim (Bool-cases (is_user m && not (is_empty current))) [
      | inl t ↦ rw t (
          concat-group_loop (exchanges ++ current ∷ []) (m ∷ []) ms
          ∙ simp (concat-append, append_assoc, append-nil))
      | inr t ↦ rw t (concat-group_loop exchanges (current ++ m ∷ []) ms ∙ simp append_assoc)
    ]

-- No message is lost, made or moved by the grouping.
pub concat-group_exchanges : (ms : List Message) → concat (group_exchanges ms) ≡ ms
unfolding group_exchanges
concat-group_exchanges ms = concat-group_loop [] [] ms

-- An exchange: messages of which none but the first is the user's.
abbrev pub NoUser : List Message → Type 0
NoUser = All (λ m. is_user m ≡ false)

abbrev pub IsExchange : List Message → Type 0
IsExchange [] = ⊥
IsExchange (m ∷ ms) = NoUser ms

-- An exchange that the user began.
abbrev pub IsTurn : List Message → Type 0
IsTurn [] = ⊥
IsTurn (m ∷ ms) = (is_user m ≡ true) × NoUser ms

-- Only the first exchange of a history may lack a user message at its head.
abbrev pub AreExchanges : List (List Message) → Type 0
AreExchanges [] = Unit
AreExchanges (e ∷ es) = IsExchange e × All IsTurn es

pub IsTurn-IsExchange : (e : List Message) → IsTurn e → IsExchange e
IsTurn-IsExchange [] h = h
IsTurn-IsExchange (m ∷ ms) h = h.1

-- One more turn behind the exchanges.
AreExchanges-append_turn :
    (es : List (List Message)) (e : List Message)
    → AreExchanges es
    → IsTurn e
    → AreExchanges (es ++ e ∷ [])
AreExchanges-append_turn [] e h t = (IsTurn-IsExchange e t, tt)
AreExchanges-append_turn (x ∷ es) e h t = (h.0, All-append IsTurn es (e ∷ []) h.1 (t, tt))

-- One more message in the last exchange, which is not the user's.
All-IsTurn-grow :
    (es : List (List Message)) (c m : Message) (cs : List Message)
    → is_user m ≡ false
    → All IsTurn (es ++ (c ∷ cs) ∷ [])
    → All IsTurn (es ++ (c ∷ (cs ++ m ∷ [])) ∷ [])
All-IsTurn-grow [] c m cs n h = ((h.0.0, All-append _ cs (m ∷ []) h.0.1 (n, tt)), tt)
All-IsTurn-grow (e ∷ es) c m cs n h = (h.0, All-IsTurn-grow es c m cs n h.1)

AreExchanges-grow :
    (es : List (List Message)) (c m : Message) (cs : List Message)
    → is_user m ≡ false
    → AreExchanges (es ++ (c ∷ cs) ∷ [])
    → AreExchanges (es ++ (c ∷ (cs ++ m ∷ [])) ∷ [])
AreExchanges-grow [] c m cs n h = (All-append _ cs (m ∷ []) h.0 (n, tt), tt)
AreExchanges-grow (e ∷ es) c m cs n h = (h.0, All-IsTurn-grow es c m cs n h.1)

AreExchanges-group_loop :
    (es : List (List Message)) (c : Message) (cs ms : List Message)
    → AreExchanges (es ++ (c ∷ cs) ∷ [])
    → AreExchanges (group_loop es (c ∷ cs) ms)
unfolding group_loop
AreExchanges-group_loop es c cs [] h = h
AreExchanges-group_loop es c cs (m ∷ ms) h = elim (Bool-cases (is_user m)) [
  | inl t ↦ rw t (
      AreExchanges-group_loop (es ++ (c ∷ cs) ∷ []) m [] ms
        (AreExchanges-append_turn (es ++ (c ∷ cs) ∷ []) (m ∷ []) h (t, tt)))
  | inr t ↦ rw t (AreExchanges-group_loop es c (cs ++ m ∷ []) ms (AreExchanges-grow es c m cs t h))
]

-- The groups are exchanges: each begins with a user message and has no other, but the first, which
-- may begin with any message.
pub group_exchanges-AreExchanges : (ms : List Message) → AreExchanges (group_exchanges ms)
unfolding group_exchanges group_loop
group_exchanges-AreExchanges [] = tt
group_exchanges-AreExchanges (m ∷ ms) = elim (Bool-cases (is_user m)) [
  | inl t ↦ rw t (AreExchanges-group_loop [] m [] ms (tt, tt))
  | inr t ↦ rw t (AreExchanges-group_loop [] m [] ms (tt, tt))
]

-- Behind a first part that is not empty, all exchanges are turns.
pub AreExchanges-rest :
    (es fs : List (List Message)) → AreExchanges (es ++ fs) → is_empty es ≡ false → All IsTurn fs
AreExchanges-rest [] fs h n = cc
AreExchanges-rest (e ∷ es) fs h n = behind es h.1
  where
    behind : (ds : List (List Message)) → All IsTurn (ds ++ fs) → All IsTurn fs
    behind [] k = k
    behind (d ∷ ds) k = behind ds k.1
