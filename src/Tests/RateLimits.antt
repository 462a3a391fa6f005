-- ===== src/Tests/RateLimits.antt =====
-- Runs of backend/providers/tdx_rate_limit.py and of backend/api/request_limits.py.
use taigi_agent.Prelude.{
  ℕ, ◌+◌, ◌*◌, ◌-◌, ◌≤◌, ◌≡◌, ◌≢◌, refl, ◌⊎◌, true, none, some, List, [], ◌∷◌, arith, Text, codes,
}
use taigi_agent.Prelude.Table.{find, store}
use taigi_agent.Providers.TdxRateLimit.{
  RateLimit, Limiter, background_requests, new, try_take, acquire, granted, budget_exceeded,
  still_waiting, penalize,
}
use taigi_agent.Providers.TdxRateLimit.Trace.{Call, attempt, penalty, play, start, sent_in}
use taigi_agent.Providers.TdxRateLimit.Window.{play_window}
use taigi_agent.Providers.TdxRateLimit.Acquire.{acquire_ends, acquire_in_budget}
use taigi_agent.Api.RequestLimits.{Rate, Buckets, capacity, call, admitted, too_many}
use taigi_agent.Api.RequestLimits.Bounds.{IsValid, call-IsValid}
use taigi_agent.Api.RequestLimits.Retry.{after_calls, retry_after-is_enough}
use taigi_agent.Api.RequestLimits.Budget.{Request, serve, opened, serve_budget}

-- 5 requests in 60 ticks, of which 3 are for background callers.
abbrev basic : RateLimit
basic = record { requests = 5; per = 60 }

basic_share : background_requests basic ≡ 3
unfolding background_requests
basic_share = refl

-- Four background calls at once: the fourth has to wait, and a rider still gets a slot.
abbrev busy : List Call
busy =
    attempt 1 none
    ∷ attempt 0 none
    ∷ attempt 0 none
    ∷ attempt 0 none
    ∷ attempt 0 (some 5)
    ∷ penalty 2 30
    ∷ attempt 1 (some 5)
    ∷ []

busy_run :
    ((play (start basic) busy).grants ≡ 1 ∷ 1 ∷ 1 ∷ 1 ∷ [])
    × ((play (start basic) busy).background ≡ 1 ∷ 1 ∷ 1 ∷ [])
unfolding play start new try_take penalize
busy_run = (refl, refl)

play_window_example :
    (sent_in 60 0 (play (start basic) busy).grants ≤ 5)
    × (sent_in 60 0 (play (start basic) busy).background ≤ background_requests basic)
play_window_example = play_window basic (omega arith) busy 0

-- A full key that is paused too.
abbrev full_key : Limiter
full_key = record { limit = basic; sent = 10 ∷ 11 ∷ 12 ∷ 13 ∷ 14 ∷ []; paused_until = 40 }

acquire_waits :
    acquire (0 ∷ 0 ∷ 0 ∷ []) full_key 20 (some 90)
    ≡ granted (record full_key { sent = 11 ∷ 12 ∷ 13 ∷ 14 ∷ 70 ∷ [] }) 70
unfolding acquire
acquire_waits = refl

acquire_gives_up : acquire (0 ∷ 0 ∷ 0 ∷ []) full_key 20 (some 50) ≡ budget_exceeded full_key 40
unfolding acquire
acquire_gives_up = refl

acquire_ends_example : acquire (3 ∷ 0 ∷ 1 ∷ []) full_key 20 none ≢ still_waiting
acquire_ends_example = acquire_ends 3 0 1 [] full_key 20 none (omega arith) (omega arith)

acquire_in_budget_example : (◌≡◌ {A = ℕ} 70 20) ⊎ (70 ≤ 90)
acquire_in_budget_example = acquire_in_budget 3 full_key 20 90 acquire_waits

-- 2 requests in 60 ticks, 1 tick to the second.
abbrev two_a_minute : Rate
two_a_minute = record { requests = 2; per = 60; second = 1 }

abbrev kiosk : Text
kiosk = codes "10.0.0.7"

abbrev phone : Text
phone = codes "10.0.0.8"

abbrev spent : Buckets
spent = (kiosk, record { tokens = 20; updated_at = 100 }) ∷ []

refused_at_110 : (call two_a_minute true spent kiosk 110).1 ≡ too_many 11
unfolding call
refused_at_110 = refl

call-IsValid_example : IsValid two_a_minute (call two_a_minute true spent phone 110).0
call-IsValid_example =
    call-IsValid two_a_minute true spent phone 110
      (record { bounded = omega arith; distinct = (tt, tt); filled = (omega arith, tt) })

retry_after-is_enough_example :
    (call two_a_minute true
      (after_calls two_a_minute (call two_a_minute true spent kiosk 110).0 ((phone, 112) ∷ []))
      kiosk
      121).1
    ≡ admitted
retry_after-is_enough_example =
    retry_after-is_enough two_a_minute spent kiosk 110 121 11 ((phone, 112) ∷ []) (omega arith)
      (omega arith) refused_at_110 (refl, tt) (omega arith)

abbrev burst : List Request
burst =
    record { delay = 0; client = kiosk }
    ∷ record { delay = 1; client = kiosk }
    ∷ record { delay = 1; client = kiosk }
    ∷ record { delay = 40; client = phone }
    ∷ []

serve_budget_example :
    (serve two_a_minute kiosk (opened 100) burst).granted * 60
    ≤ capacity two_a_minute + ((serve two_a_minute kiosk (opened 100) burst).now - 100) * 2
serve_budget_example = serve_budget two_a_minute kiosk 100 burst (omega arith)

burst_granted : (serve two_a_minute kiosk (opened 100) burst).granted ≡ 2
unfolding serve call find store
burst_granted = refl
