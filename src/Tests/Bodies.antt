-- ===== src/Tests/Bodies.antt =====
-- Uploads through the limit of backend/api/request_limits.py.
use taigi_agent.Prelude.{
  ℕ, ◌≡◌, ◌≢◌, ◌≤◌, refl, true, false, Option, none, some, List, [], ◌∷◌, Text, codes, arith,
}
use taigi_agent.Api.BodyLimit.{
  Incoming, request, App, Outgoing, response_body, send_413, returns, raises_too_large, receives,
  sends, response_start, too_large, Scope, limit_for_path, is_limited, header, declares_too_much,
  direct, limited_receive, handle,
}
use taigi_agent.Api.BodyLimit.Passing.{total_length, handle-received, handle-direct}

-- An application that reads one message and answers, or lets the error through.
abbrev echo : App
echo = receives after
  where
    after : Option Incoming → App
    after none = raises_too_large
    after (some m) = sends (response_start 200 []) returns

abbrev chat : Scope
chat = record { kind = codes "http"; method = codes "POST"; path = codes "/api/chat"; headers = [] }

abbrev unread : Text → Option ℕ
unread t = none

abbrev small : List Incoming
small = request (codes "201?") ∷ []

passes : (handle (λ t. t) unread echo chat small).sent ≡ response_start 200 [] ∷ []
unfolding handle is_limited limited_receive limit_for_path
passes = refl

limited_chat : is_limited chat ≡ true
unfolding is_limited
limited_chat = refl

undeclared :
    declares_too_much unread
      (limit_for_path chat.path)
      (header (codes "content-length") chat.headers)
    ≡ false
unfolding declares_too_much header
undeclared = refl

fits : total_length small ≤ limit_for_path chat.path
unfolding limit_for_path
fits = omega arith

ends_well : (direct echo small).ended ≢ too_large
unfolding direct
ends_well e = cc

handle-received_example :
    total_length (handle (λ t. t) unread echo chat small).received ≤ limit_for_path chat.path
handle-received_example = handle-received (λ t. t) unread echo chat small limited_chat

handle-direct_example : handle (λ t. t) unread echo chat small ≡ direct echo small
handle-direct_example = handle-direct (λ t. t) unread echo chat small undeclared fits ends_well

-- A request that declares 70,000 bytes is answered without the application.
abbrev statuses : List Outgoing → List ℕ
statuses [] = []
statuses (response_start status headers ∷ ms) = status ∷ statuses ms
statuses (response_body payload ∷ ms) = statuses ms

abbrev declared : Scope
declared = record chat { headers = (codes "Content-Length", codes "70000") ∷ [] }

refused : statuses (handle (λ t. t) (λ t. some 70_000) echo declared small).sent ≡ 413 ∷ []
unfolding handle is_limited limit_for_path header declares_too_much send_413
refused = refl
