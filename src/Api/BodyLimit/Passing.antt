-- ===== src/Api/BodyLimit/Passing.antt =====
-- Which bodies the middleware of backend/api/request_limits.py lets through.
use taigi_agent.Prelude.{
  ℕ, ◌+◌, ◌-◌, ◌≤◌, ◌≡◌, ◌≢◌, refl, sym, ap, subst, Bool, true, false, not, Option, none, some,
  List, [], ◌∷◌, ◌++◌, any, length, ltb, if◌then◌else◌, Text, codes, arith,
}
use taigi_agent.Api.BodyLimit.{
  Incoming, request, disconnect, App, returns, raises_too_large, raises, receives, sends, Ended,
  returned, too_large, raised, Run, Scope, body_length, is_start, with_sent, with_received,
  limited_receive, limited, direct, limit_for_path, is_limited, header, send_413, answer,
  declares_too_much, handle,
}

abbrev pub total_length : List Incoming → ℕ
total_length [] = 0
total_length (m ∷ ms) = body_length m + total_length ms

limited-received :
    (limit total : ℕ) (app : App) (ms : List Incoming)
    → total_length (limited limit total app ms).received ≤ limit - total
unfolding limited limited_receive
limited-received limit total returns ms = omega arith
limited-received limit total raises_too_large ms = omega arith
limited-received limit total raises ms = omega arith
limited-received limit total (sends m app) ms = limited-received limit total app ms
limited-received limit total (receives k) [] =
    omega (arith, limited-received limit (total + 0) (k (some disconnect)) [])
limited-received limit total (receives k) (disconnect ∷ ms) =
    omega (arith, limited-received limit (total + 0) (k (some disconnect)) ms)
limited-received limit total (receives k) (request body ∷ ms) =
    go (ltb limit (total + length body)) refl
      (λ o. limited-received limit (total + length body) (k o) ms)
  where
    go :
        (b : Bool)
        → ltb limit (total + length body) ≡ b
        → ((o : Option Incoming)
            → total_length (limited limit (total + length body) (k o) ms).received
              ≤ limit - (total + length body))
        → total_length
            (with_received (if b then none else some (request body)) (
              limited limit
                (total + length body)
                (k (if b then none else some (request body)))
                ms)).received
          ≤ limit - total
    go true e later = omega (arith, later none)
    go false e later = let more = later (some (request body)) in ground (arith, e, more)

limited-direct :
    (limit total : ℕ) (app : App) (ms : List Incoming)
    → total + total_length ms ≤ limit
    → limited limit total app ms ≡ direct app ms
unfolding limited direct limited_receive
limited-direct limit total returns ms h = refl
limited-direct limit total raises_too_large ms h = refl
limited-direct limit total raises ms h = refl
limited-direct limit total (sends m app) ms h =
    ap (with_sent m) (limited-direct limit total app ms h)
limited-direct limit total (receives k) [] h =
    ap (with_received (some disconnect))
      (limited-direct limit (total + 0) (k (some disconnect)) [] (omega (arith, h)))
limited-direct limit total (receives k) (disconnect ∷ ms) h =
    ap (with_received (some disconnect))
      (limited-direct limit (total + 0) (k (some disconnect)) ms (omega (arith, h)))
limited-direct limit total (receives k) (request body ∷ ms) h = rw within (
    ap (with_received (some (request body)))
      (limited-direct limit (total + length body) (k (some (request body))) ms (omega (arith, h))))
  where
    within : ltb limit (total + length body) ≡ false
    within = ground (arith, h)

answer-received :
    (encode : Text → Text) (limit : ℕ) (r : Run) (e : Ended)
    → (answer encode limit r e).received ≡ r.received
unfolding answer
answer-received encode limit r returned = refl
answer-received encode limit r raised = refl
answer-received encode limit r too_large = go (any is_start r.sent)
  where
    go :
        (b : Bool)
        → (if b
            then r
            else record r { sent = r.sent ++ send_413 encode limit; ended = returned }).received
          ≡ r.received
    go true = refl
    go false = refl

answer-same :
    (encode : Text → Text) (limit : ℕ) (r : Run) (e : Ended)
    → e ≢ too_large
    → answer encode limit r e ≡ r
unfolding answer
answer-same encode limit r returned n = refl
answer-same encode limit r raised n = refl
answer-same encode limit r too_large n = absurd (n refl)

-- Of a limited request the application never receives more bytes than the limit of its path,
-- whatever the client declares and sends, and even where the application catches what a receive
-- raises and receives again.
pub handle-received :
    (encode : Text → Text) (int_of : Text → Option ℕ) (app : App) (s : Scope) (ms : List Incoming)
    → is_limited s ≡ true
    → total_length (handle encode int_of app s ms).received ≤ limit_for_path s.path
unfolding handle
handle-received encode int_of app s ms h = rw h (
    go (
      declares_too_much int_of (limit_for_path s.path) (header (codes "content-length") s.headers)))
  where
    limit : ℕ
    limit = limit_for_path s.path

    run : Run
    run = limited limit 0 app ms

    go :
        (b : Bool)
        → total_length
            (if b
              then record { sent = send_413 encode limit; received = []; ended = returned }
              else answer encode limit run run.ended).received
          ≤ limit
    go true = omega arith
    go false =
        subst (λ r. total_length r ≤ limit) (sym (answer-received encode limit run run.ended))
          (omega (arith, limited-received limit 0 app ms))

-- A request within the limit passes untouched: if it neither declares nor sends more bytes than the
-- limit of its path, the application runs as it would without the middleware.
pub handle-direct :
    (encode : Text → Text) (int_of : Text → Option ℕ) (app : App) (s : Scope) (ms : List Incoming)
    → declares_too_much int_of (limit_for_path s.path) (header (codes "content-length") s.headers)
      ≡ false
    → total_length ms ≤ limit_for_path s.path
    → (direct app ms).ended ≢ too_large
    → handle encode int_of app s ms ≡ direct app ms
unfolding handle
handle-direct encode int_of app s ms d h n = go (is_limited s)
  where
    limit : ℕ
    limit = limit_for_path s.path

    same : limited limit 0 app ms ≡ direct app ms
    same = limited-direct limit 0 app ms (omega (arith, h))

    go :
        (b : Bool)
        → (if not b
            then direct app ms
            else if declares_too_much int_of limit (header (codes "content-length") s.headers)
            then record { sent = send_413 encode limit; received = []; ended = returned }
            else answer encode limit (limited limit 0 app ms) (limited limit 0 app ms).ended)
          ≡ direct app ms
    go false = refl
    go true = rw (d, same) (answer-same encode limit (direct app ms) (direct app ms).ended n)
