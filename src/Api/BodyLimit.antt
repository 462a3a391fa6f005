-- ===== src/Api/BodyLimit.antt =====
-- RequestBodyLimitMiddleware of backend/api/request_limits.py. The application behind it is an
-- argument: what it does depends on the messages that it receives, and it may catch what a receive
-- raises. Behind the last message of a client comes its disconnect.
pub mod Passing
use taigi_agent.Prelude.{
  ℕ, ◌+◌, ◌*◌, ◌/◌, Bool, true, false, not, ◌&&◌, ◌||◌, Option, none, some, List, [], ◌∷◌, ◌++◌,
  any, length, ltb, leb, if◌then◌else◌, Text, codes, text_eq,
}
use taigi_agent.Pipeline.Numerals.{str}

abbrev pub default_body_limit : ℕ
default_body_limit = 65_536

abbrev pub asr_body_limit : ℕ
asr_body_limit = 27_262_976

-- Whatever is not an `http.request` has no body.
pub data Incoming : Type 0 where
  request : Text → Incoming
  disconnect : Incoming

pub data Outgoing : Type 0 where
  response_start : ℕ → List (Text × Text) → Outgoing
  response_body : Text → Outgoing

-- An application; a receive that raises `_BodyTooLarge` is none.
pub data App : Type 0 where
  returns raises_too_large raises : App
  receives : (Option Incoming → App) → App
  sends : Outgoing → App → App

pub data Ended : Type 0 where
  returned too_large raised : Ended

-- What went out, what the application received, and how the call ended.
pub record Run : Type 0 where
  pub sent : List Outgoing
  pub received : List Incoming
  pub ended : Ended

pub record Scope : Type 0 where
  pub kind : Text
  pub method : Text
  pub path : Text
  pub headers : List (Text × Text)

abbrev pub body_length : Incoming → ℕ
body_length (request body) = length body
body_length disconnect = 0

abbrev pub is_start : Outgoing → Bool
is_start (response_start status headers) = true
is_start (response_body payload) = false

abbrev pub ends : Ended → Run
ends e = record { sent = []; received = []; ended = e }

abbrev pub with_sent : Outgoing → Run → Run
with_sent m r = record r { sent = m ∷ r.sent }

abbrev pub with_received : Option Incoming → Run → Run
with_received none r = r
with_received (some m) r = record r { received = m ∷ r.received }

abbrev pub first : List Incoming → Incoming
first [] = disconnect
first (m ∷ ms) = m

abbrev pub rest : List Incoming → List Incoming
rest [] = []
rest (m ∷ ms) = ms

-- `limited_receive`, given the message and the bytes with it.
unfoldable pub limited_receive : ℕ → ℕ → Incoming → Option Incoming
limited_receive limit total disconnect = some disconnect
limited_receive limit total (request body) = if ltb limit total then none else some (request body)

-- The application behind `limited_receive`.
unfoldable pub limited : ℕ → ℕ → App → List Incoming → Run
unfolding limited_receive
limited limit total returns ms = ends returned
limited limit total raises_too_large ms = ends too_large
limited limit total raises ms = ends raised
limited limit total (sends m app) ms = with_sent m (limited limit total app ms)
limited limit total (receives k) ms =
    let now = total + body_length (first ms) in
    let message = limited_receive limit now (first ms) in
    with_received message (limited limit now (k message) (rest ms))

-- The application on its own.
unfoldable pub direct : App → List Incoming → Run
direct returns ms = ends returned
direct raises_too_large ms = ends too_large
direct raises ms = ends raised
direct (sends m app) ms = with_sent m (direct app ms)
direct (receives k) ms = with_received (some (first ms)) (direct (k (some (first ms))) (rest ms))

unfoldable pub limit_for_path : Text → ℕ
limit_for_path path = if text_eq path (codes "/api/asr") then asr_body_limit else default_body_limit

-- Whether requests of this kind are limited.
unfoldable pub is_limited : Scope → Bool
is_limited s =
    text_eq s.kind (codes "http")
    && (text_eq s.method (codes "POST")
        || text_eq s.method (codes "PUT")
        || text_eq s.method (codes "PATCH"))

-- `bytes.lower`
abbrev pub lower : Text → Text
lower [] = []
lower (c ∷ s) = (if leb 65 c && leb c 90 then c + 32 else c) ∷ lower s

-- The last value of a header.
unfoldable pub header : Text → List (Text × Text) → Option Text
header name [] = none
header name (h ∷ hs) = elim (header name hs) [
  | some v ↦ some v
  | none ↦ if text_eq (lower h.0) name then some h.1 else none
]

unfoldable pub detail : ℕ → Text
unfolding str
detail limit =
    codes "{\"detail\": \"請求內容過大（上限 "
    ++ ((if leb 1_048_576 limit then str (limit / 1_048_576) else str (limit / 1024))
        ++ ((if leb 1_048_576 limit then codes " MB" else codes " KB") ++ codes "）\"}"))

-- `_send_413`; `encode` is the text in UTF-8.
unfoldable pub send_413 : (Text → Text) → ℕ → List Outgoing
unfolding detail str
send_413 encode limit =
    response_start 413 (
      (codes "content-type", codes "application/json; charset=utf-8")
      ∷ (codes "content-length", str (length (encode (detail limit))))
      ∷ [])
    ∷ response_body (encode (detail limit))
    ∷ []

-- What is done with the end of the call.
unfoldable pub answer : (Text → Text) → ℕ → Run → Ended → Run
unfolding send_413
answer encode limit r too_large =
    if any is_start r.sent
    then r
    else record r { sent = r.sent ++ send_413 encode limit; ended = returned }
answer encode limit r returned = r
answer encode limit r raised = r

-- `int(raw_length)`, with none where it raises or is negative, which both let the request through.
unfoldable pub declares_too_much : (Text → Option ℕ) → ℕ → Option Text → Bool
declares_too_much int_of limit none = false
declares_too_much int_of limit (some raw) = elim (int_of raw) [
  | none ↦ false
  | some n ↦ ltb limit n
]

-- `__call__`
unfoldable pub handle : (Text → Text) → (Text → Option ℕ) → App → Scope → List Incoming → Run
unfolding is_limited header declares_too_much limit_for_path limited direct answer send_413
handle encode int_of app s ms =
    let limit = limit_for_path s.path in
    if not (is_limited s)
    then direct app ms
    else if declares_too_much int_of limit (header (codes "content-length") s.headers)
    then record { sent = send_413 encode limit; received = []; ended = returned }
    else answer encode limit (limited limit 0 app ms) (limited limit 0 app ms).ended
