-- ===== src/Api/RequestLimits/Retry.antt =====
-- The Retry-After header of backend/api/request_limits.py is long enough.
use native.Mathlib.Nat.{div-add-mod, mod-lt}
use taigi_agent.Prelude.{
  ℕ, ◌+◌, ◌-◌, ◌*◌, ◌/◌, ◌≤◌, ◌<◌, ◌≡◌, refl, true, false, Option, none, some, List, [], ◌∷◌, arith,
  subst, max, All, All-append, All-map, ltb, Bool-cases, Option-cases, inl, inr, Text, text_eq,
}
use taigi_agent.Api.RequestLimits.{
  Rate, Bucket, Buckets, prune, retry_after, refill, spend, call, Verdict, admitted, too_many,
}
use taigi_agent.Api.RequestLimits.Bounds.{All-prune}
use taigi_agent.Prelude.Table.{find, without, store, Absent-without, All-without, find-All}

-- Requests that other clients send, each at its instant.
pub after_calls : Rate → Buckets → List (Text × ℕ) → Buckets
after_calls r m [] = m
after_calls r m ((client, now) ∷ cs) = after_calls r (call r true m client now).0 cs

abbrev Others : Text → List (Text × ℕ) → Type 0
Others client = All (λ c. text_eq c.0 client ≡ false)

-- If the table holds a bucket of the client, it is this one.
abbrev Only : Text → Bucket → Buckets → Type 0
Only client b = All (λ e. text_eq e.0 client ≡ true → e.1 ≡ b)

Only-call :
    (r : Rate) (m : Buckets) (client other : Text) (now : ℕ) (b : Bucket)
    → text_eq other client ≡ false
    → Only client b m
    → Only client b (call r true m other now).0
unfolding call store
Only-call r m client other now b ne h =
    All-append _ (without other (prune r now m)) _
      (All-without _ other (prune r now m) (All-prune _ r now m h)) (λ e. cc, tt)

Only-after_calls :
    (r : Rate) (client : Text) (b : Bucket) (cs : List (Text × ℕ)) (m : Buckets)
    → Others client cs
    → Only client b m
    → Only client b (after_calls r m cs)
unfolding after_calls
Only-after_calls r client b [] m o h = h
Only-after_calls r client b ((c, now) ∷ cs) m o h =
    Only-after_calls r client b cs (call r true m c now).0 o.1 (Only-call r m client c now b o.0 h)

-- A refused request leaves the bucket that it was refused for.
Only-refused :
    (r : Rate) (m : Buckets) (client : Text) (now : ℕ)
    → Only client
        (spend r (refill r now (find client (prune r now m)))).0
        (call r true m client now).0
unfolding call store
Only-refused r m client now =
    All-append _ (without client (prune r now m)) _
      (All-map _ _ (λ e h t. cc) (without client (prune r now m))
        (Absent-without client (prune r now m)))
      (λ e. refl, tt)

-- `x / d + 1` times `d` is more than `x`.
lt-div-mul : (x d : ℕ) → 0 < d → x < (x / d + 1) * d
lt-div-mul x d h = grind (arith, div-add-mod x d, mod-lt x h)

pub mul_mono : (a b k : ℕ) → a ≤ b → a * k ≤ b * k
mul_mono a b k h = grind arith

enough :
    (r : Rate) (b : Bucket) (later : ℕ)
    → 0 < r.requests
    → 0 < r.second
    → b.tokens < r.per
    → b.updated_at + retry_after r b * r.second ≤ later
    → r.per ≤ (refill r later (some b)).tokens
unfolding refill retry_after
enough r b later p q short h =
    let x = r.per - b.tokens in
    let d = r.requests * r.second in
    let w = max 1 (x / d + 1) in
    let over : x < (x / d + 1) * d = lt-div-mul x d (grind arith) in
    let more : (x / d + 1) * d ≤ w * d = mul_mono (x / d + 1) w d (omega arith) in
    let waited : w * r.second * r.requests ≤ (later - b.updated_at) * r.requests =
      mul_mono (w * r.second) (later - b.updated_at) r.requests (omega arith) in
    let full : 1 * r.per ≤ r.requests * r.per = mul_mono 1 r.requests r.per p in omega arith

pub refill-updated_at : (r : Rate) (now : ℕ) (o : Option Bucket) → (refill r now o).updated_at ≡ now
unfolding refill
refill-updated_at r now none = refl
refill-updated_at r now (some b) = refl

call-answer :
    (r : Rate) (m : Buckets) (client : Text) (now : ℕ) {v : Verdict}
    → (call r true m client now).1 ≡ v
    → (spend r (refill r now (find client (prune r now m)))).1 ≡ v
unfolding call
call-answer r m client now h = h

spend-refused :
    (r : Rate) (b : Bucket) (seconds : ℕ)
    → (spend r b).1 ≡ too_many seconds
    → (b.tokens < r.per) × (retry_after r b ≡ seconds) × ((spend r b).0 ≡ b)
unfolding spend
spend-refused r b seconds h = elim (Bool-cases (ltb b.tokens r.per)) [
  | inl t ↦ (ground arith, ground arith, rw t)
  | inr t ↦ absurd (ground arith)
]

spend-admitted : (r : Rate) (b : Bucket) → r.per ≤ b.tokens → (spend r b).1 ≡ admitted
unfolding spend
spend-admitted r b h = ground arith

fresh_bucket : (r : Rate) (later : ℕ) → 0 < r.requests → r.per ≤ (refill r later none).tokens
unfolding refill
fresh_bucket r later p =
    let full : 1 * r.per ≤ r.requests * r.per = mul_mono 1 r.requests r.per p in omega arith

-- The client's bucket, kept or evicted, has a token after the wait.
refilled :
    (r : Rate) (client : Text) (later : ℕ) (b : Bucket) (m : Buckets)
    → 0 < r.requests
    → 0 < r.second
    → b.tokens < r.per
    → b.updated_at + retry_after r b * r.second ≤ later
    → Only client b m
    → r.per ≤ (refill r later (find client (prune r later m))).tokens
refilled r client later b m p q short h only = elim (Option-cases (find client (prune r later m))) [
  | inl gone ↦ rw gone (fresh_bucket r later p)
  | inr (c, hit) ↦
      let (j, t, same) = find-All _ client (prune r later m) c (All-prune _ r later m only) hit in
      rw (hit, same t) (enough r b later p q short h)
]

-- A client that was refused and waits for the seconds that Retry-After names is let through,
-- however many other clients call in between. The limit allows a request, and a second is a tick
-- or more.
pub retry_after-is_enough :
    (r : Rate) (m : Buckets) (client : Text) (now later seconds : ℕ) (others : List (Text × ℕ))
    → 0 < r.requests
    → 0 < r.second
    → (call r true m client now).1 ≡ too_many seconds
    → Others client others
    → now + seconds * r.second ≤ later
    → (call r true (after_calls r (call r true m client now).0 others) client later).1 ≡ admitted
retry_after-is_enough r m client now later seconds others p q refused o h =
    let had = refill r now (find client (prune r now m)) in
    let (short, same, left) = spend-refused r had seconds (call-answer r m client now refused) in
    let m' = after_calls r (call r true m client now).0 others in
    let only : Only client (spend r had).0 m' =
      Only-after_calls r client (spend r had).0 others (call r true m client now).0 o
        (Only-refused r m client now) in
    let only' : Only client had m' = subst (λ b. Only client b m') left only in
    unfold call in
    spend-admitted r (refill r later (find client (prune r later m'))) (
      refilled r client later had m' p q short
        (rw (refill-updated_at r now (find client (prune r now m)), same) h) only')
