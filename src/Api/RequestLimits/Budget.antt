-- ===== src/Api/RequestLimits/Budget.antt =====
-- What one client of backend/api/request_limits.py gets over time.
use taigi_agent.Prelude.{
  ℕ, suc, ◌+◌, ◌-◌, ◌*◌, ◌≤◌, ◌<◌, ◌≡◌, refl, ap, ◌∙◌, ◌⊎◌, Bool, true, false, Option, none, some,
  List, [], ◌∷◌, arith, length, length-append, ltb, if◌then◌else◌, Bool-cases, inl, inr, Text,
  text_eq, text_eq_iff,
}
use taigi_agent.Api.RequestLimits.{
  Rate, Bucket, Buckets, max_clients, capacity, prune, refill, spend, call, Verdict, admitted,
  too_many,
}
use taigi_agent.Prelude.Table.{find, without, store, find-store, length-without-le}
use taigi_agent.Api.RequestLimits.Retry.{mul_mono, refill-updated_at}
use native.Mathlib.Nat.{add-zero}

-- A request of some client, after a delay.
pub record Request : Type 0 where
  pub delay : ℕ
  pub client : Text

pub record Run : Type 0 where
  pub now : ℕ
  pub buckets : Buckets
  -- how many requests of the client under observation were let through
  pub granted : ℕ

abbrev pub one_if : Bool → Verdict → ℕ
one_if true admitted = 1
one_if true (too_many s) = 0
one_if false v = 0

unfoldable pub serve_one : Rate → Text → Run → Request → Run
serve_one r who s q =
    let now = s.now + q.delay in
    let (m, answer) = call r true s.buckets q.client now in
    record { now = now; buckets = m; granted = s.granted + one_if (text_eq q.client who) answer }

unfoldable pub serve : Rate → Text → Run → List Request → Run
unfolding serve_one
serve r who s [] = s
serve r who s (q ∷ qs) = serve r who (serve_one r who s q) qs

abbrev pub opened : ℕ → Run
opened now = record { now = now; buckets = []; granted = 0 }

-- What the client under observation has been given, against its bucket.
abbrev Balanced : Rate → ℕ → ℕ → ℕ → Option Bucket → Type 0
Balanced r began now granted none = granted ≡ 0
Balanced r began now granted (some b) =
    (granted * r.per + b.tokens ≤ capacity r + (b.updated_at - began) * r.requests)
    × (began ≤ b.updated_at)
    × (b.updated_at ≤ now)

refill-Balanced :
    (r : Rate) (began now granted : ℕ) (o : Option Bucket)
    → Balanced r began now granted o
    → granted * r.per + (refill r now o).tokens ≤ capacity r + (now - began) * r.requests
unfolding refill
refill-Balanced r began now granted none h = rw h (omega arith)
refill-Balanced r began now granted (some b) h =
    let spans : now - began ≡ (b.updated_at - began) + (now - b.updated_at) = omega arith in
    omega (arith, ap (λ (t : ℕ). t * r.requests) spans)

-- A request takes a token from the bucket, or leaves it.
spend_balance :
    (r : Rate) (granted : ℕ) (b : Bucket)
    → (granted + one_if true (spend r b).1) * r.per + (spend r b).0.tokens
      ≡ granted * r.per + b.tokens
unfolding spend
spend_balance r granted b = elim (Bool-cases (ltb b.tokens r.per)) [
  | inl t ↦ rw t (omega arith)
  | inr t ↦ let enough : r.per ≤ b.tokens = ground arith in rw t (omega arith)
]

spend-updated_at : (r : Rate) (b : Bucket) → (spend r b).0.updated_at ≡ b.updated_at
unfolding spend
spend-updated_at r b = ground arith

Balanced-spend :
    (r : Rate) (began now granted : ℕ) (o : Option Bucket)
    → began ≤ now
    → Balanced r began now granted o
    → Balanced r began now
        (granted + one_if true (spend r (refill r now o)).1)
        (some (spend r (refill r now o)).0)
Balanced-spend r began now granted o p h =
    let b = refill r now o in
    let at : (spend r b).0.updated_at ≡ now = spend-updated_at r b ∙ refill-updated_at r now o in
    (
      rw (spend_balance r granted b, at) (refill-Balanced r began now granted o h),
      rw at p,
      rw at (omega arith),
    )

Balanced-later :
    (r : Rate) (began now later granted : ℕ) (o : Option Bucket)
    → now ≤ later
    → Balanced r began now granted o
    → Balanced r began later granted o
Balanced-later r began now later granted none p h = h
Balanced-later r began now later granted (some b) p h = (h.0, h.1, omega arith)

-- No client is dropped while there is room.
prune_idle : (r : Rate) (now : ℕ) (m : Buckets) → length m < max_clients → prune r now m ≡ m
unfolding prune
prune_idle r now m h = ground arith

call-buckets :
    (r : Rate) (m : Buckets) (client : Text) (now : ℕ)
    → length m < max_clients
    → call r true m client now ≡ (
      store client (spend r (refill r now (find client m))).0 m,
      (spend r (refill r now (find client m))).1,
    )
unfolding call
call-buckets r m client now h = rw (prune_idle r now m h)

length-store-le : (k : Text) (b : Bucket) (m : Buckets) → length (store k b m) ≤ length m + 1
unfolding store
length-store-le k b m =
    omega (arith, length-append {0} (without k m) ((k, b) ∷ []), length-without-le k m)

record Fair (r : Rate) (who : Text) (began spare : ℕ) (s : Run) : Type 0 where
  begun : began ≤ s.now
  room : length s.buckets + spare ≤ max_clients
  balance : Balanced r began s.now s.granted (find who s.buckets)

Fair-serve_one :
    (r : Rate) (who : Text) (began spare : ℕ) (s : Run) (q : Request)
    → Fair r who began (suc spare) s
    → Fair r who began spare (serve_one r who s q)
unfolding serve_one
Fair-serve_one r who began spare s q f =
    let now = s.now + q.delay in
    let b = (spend r (refill r now (find q.client s.buckets))).0 in
    rw (call-buckets r s.buckets q.client now (fits f.room)) (record {
      begun = omega (arith, f.begun);
      room = omega (arith, length-store-le q.client b s.buckets, f.room);
      balance = rw (find-store q.client who b s.buckets) (own (Bool-cases (text_eq q.client who)));
    })
  where
    fits : length s.buckets + suc spare ≤ max_clients → length s.buckets < max_clients
    fits h = omega arith

    own :
        (text_eq q.client who ≡ true) ⊎ (text_eq q.client who ≡ false)
        → Balanced r began
            (s.now + q.delay)
            (s.granted
              + one_if
                  (text_eq q.client who)
                  (spend r (refill r (s.now + q.delay) (find q.client s.buckets))).1)
            (if text_eq q.client who
              then some (spend r (refill r (s.now + q.delay) (find q.client s.buckets))).0
              else find who s.buckets)
    own (inl t) =
        let same : q.client ≡ who = (text_eq_iff q.client who).0 t in
        rw (t, same)
          (Balanced-spend r began (s.now + q.delay) s.granted (find who s.buckets)
            (omega (arith, f.begun))
            (Balanced-later r began s.now _ s.granted _ (omega arith) f.balance))
    own (inr t) = rw t (rest _ f.balance)
      where
        rest :
            (o : Option Bucket)
            → Balanced r began s.now s.granted o
            → Balanced r began (s.now + q.delay) (s.granted + 0) o
        rest o h = rw add-zero (Balanced-later r began s.now _ s.granted o (omega arith) h)

Fair-serve :
    (r : Rate) (who : Text) (began : ℕ) (qs : List Request) (s : Run)
    → Fair r who began (length qs) s
    → Fair r who began 0 (serve r who s qs)
unfolding serve
Fair-serve r who began [] s f = f
Fair-serve r who began (q ∷ qs) s f =
    Fair-serve r who began qs (serve_one r who s q) (Fair-serve_one r who began (length qs) s q f)

balance-le :
    (r : Rate) (began now granted : ℕ) (o : Option Bucket)
    → Balanced r began now granted o
    → granted * r.per ≤ capacity r + (now - began) * r.requests
balance-le r began now granted none h = rw h (omega arith)
balance-le r began now granted (some b) h =
    let span : (b.updated_at - began) * r.requests ≤ (now - began) * r.requests =
      mul_mono (b.updated_at - began) (now - began) r.requests (omega arith) in
    omega arith

-- From an empty table, and while at most 2048 requests come, so that no client is dropped: what a
-- client is let through is at most the capacity and the refill of the time that has passed,
-- counted in tokens of `per` units, whatever the other clients do.
pub serve_budget :
    (r : Rate) (who : Text) (began : ℕ) (qs : List Request)
    → length qs ≤ max_clients
    → (serve r who (opened began) qs).granted * r.per
      ≤ capacity r + ((serve r who (opened began) qs).now - began) * r.requests
serve_budget r who began qs h =
    let f : Fair r who began 0 (serve r who (opened began) qs) =
      Fair-serve r who began qs (opened began)
        (record { begun = omega arith; room = omega arith; balance = unfold find in refl }) in
    balance-le r began _ _ _ f.balance
