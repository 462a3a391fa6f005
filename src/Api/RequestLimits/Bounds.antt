-- ===== src/Api/RequestLimits/Bounds.antt =====
-- The table of buckets of backend/api/request_limits.py stays bounded and well formed.
use taigi_agent.Prelude.{
  ℕ, ◌≤◌, ◌<◌, ◌≡◌, Bool, true, false, not, Option, none, some, [], ◌∷◌, ◌++◌, arith, length, keep,
  All, All-append, length-append, ltb, leb, Bool-cases, inl, inr, Text, text_eq, text_eq_iff,
}
use taigi_agent.Prelude.Table.{
  find, without, store, Absent, Absent-without, All-keep, All-without, length-without-le,
}
use taigi_agent.Api.RequestLimits.{
  Rate, Bucket, Buckets, max_clients, capacity, is_stale, evict, prune, refill, spend, call,
}

abbrev pub Distinct : Buckets → Type 0
Distinct [] = Unit
Distinct (e ∷ m) = Absent e.0 m × Distinct m

abbrev pub Filled : Rate → Buckets → Type 0
Filled r m = All (λ e. e.1.tokens ≤ capacity r) m

-- At most 2048 clients, one bucket for each, and no bucket over its capacity.
pub record IsValid (r : Rate) (m : Buckets) : Type 0 where
  pub bounded : length m ≤ max_clients
  pub distinct : Distinct m
  pub filled : Filled r m

Distinct-keep : (p : Text × Bucket → Bool) (m : Buckets) → Distinct m → Distinct (keep p m)
Distinct-keep p [] h = tt
Distinct-keep p (e ∷ m) h = elim (Bool-cases (p e)) [
  | inl t ↦ rw t (All-keep _ p m h.0, Distinct-keep p m h.1)
  | inr t ↦ rw t (Distinct-keep p m h.1)
]

pub All-evict : (P : Text × Bucket → Type 0) (m : Buckets) → All P m → All P (evict m)
unfolding evict
All-evict P [] h = tt
All-evict P (e ∷ m) h = elim (Bool-cases (leb max_clients (length (e ∷ m)))) [
  | inl t ↦ rw t (All-evict P m h.1)
  | inr t ↦ rw t h
]

Distinct-evict : (m : Buckets) → Distinct m → Distinct (evict m)
unfolding evict
Distinct-evict [] h = tt
Distinct-evict (e ∷ m) h = elim (Bool-cases (leb max_clients (length (e ∷ m)))) [
  | inl t ↦ rw t (Distinct-evict m h.1)
  | inr t ↦ rw t h
]

length-evict-lt : (m : Buckets) → length (evict m) < max_clients
unfolding evict
length-evict-lt [] = omega arith
length-evict-lt (e ∷ m) = elim (Bool-cases (leb max_clients (length (e ∷ m)))) [
  | inl t ↦ rw t (length-evict-lt m)
  | inr t ↦ rw t (ground arith)
]

length-prune-lt : (r : Rate) (now : ℕ) (m : Buckets) → length (prune r now m) < max_clients
unfolding prune
length-prune-lt r now m = elim (Bool-cases (ltb (length m) max_clients)) [
  | inl t ↦ rw t (ground arith)
  | inr t ↦ rw t (length-evict-lt (keep (λ e. not (is_stale r now e)) m))
]

pub All-prune :
    (P : Text × Bucket → Type 0) (r : Rate) (now : ℕ) (m : Buckets)
    → All P m
    → All P (prune r now m)
unfolding prune
All-prune P r now m h = elim (Bool-cases (ltb (length m) max_clients)) [
  | inl t ↦ rw t h
  | inr t ↦ rw t (All-evict P _ (All-keep P _ m h))
]

pub Distinct-prune : (r : Rate) (now : ℕ) (m : Buckets) → Distinct m → Distinct (prune r now m)
unfolding prune
Distinct-prune r now m h = elim (Bool-cases (ltb (length m) max_clients)) [
  | inl t ↦ rw t h
  | inr t ↦ rw t (Distinct-evict _ (Distinct-keep _ m h))
]

Distinct-without : (k : Text) (m : Buckets) → Distinct m → Distinct (without k m)
unfolding without
Distinct-without k [] h = tt
Distinct-without k ((j, b) ∷ m) h = elim (Bool-cases (text_eq j k)) [
  | inl t ↦ rw t (Distinct-without k m h.1)
  | inr t ↦ rw t (All-without _ k m h.0, Distinct-without k m h.1)
]

text_eq_sym : (s t : Text) → text_eq s t ≡ false → text_eq t s ≡ false
text_eq_sym s t h = ground (arith, text_eq_iff s t, text_eq_iff t s)

Distinct-append_one :
    (k : Text) (b : Bucket) (m : Buckets) → Absent k m → Distinct m → Distinct (m ++ (k, b) ∷ [])
Distinct-append_one k b [] a d = (tt, tt)
Distinct-append_one k b (e ∷ m) a d =
    (All-append _ m _ d.0 (text_eq_sym e.0 k a.0, tt), Distinct-append_one k b m a.1 d.1)

refill-le : (r : Rate) (now : ℕ) (o : Option Bucket) → (refill r now o).tokens ≤ capacity r
unfolding refill
refill-le r now none = omega arith
refill-le r now (some b) = omega arith

spend-le : (r : Rate) (b : Bucket) → (spend r b).0.tokens ≤ b.tokens
unfolding spend
spend-le r b = ground arith

-- A request, refused or not, keeps the table bounded, with one bucket for each client and no
-- bucket over its capacity.
pub call-IsValid :
    (r : Rate) (enabled : Bool) (m : Buckets) (client : Text) (now : ℕ)
    → IsValid r m
    → IsValid r (call r enabled m client now).0
unfolding call store
call-IsValid r false m client now v = v
call-IsValid r true m client now v = record {
  bounded = omega (
    arith,
    length-append {0} (without client kept) ((client, b) ∷ []),
    length-without-le client kept,
    length-prune-lt r now m,
  );
  distinct =
      Distinct-append_one client b (without client kept) (Absent-without client kept)
        (Distinct-without client kept (Distinct-prune r now m v.distinct));
  filled =
      All-append _ (without client kept) _
        (All-without _ client kept (All-prune _ r now m v.filled))
        (
          omega (
            arith,
            refill-le r now (find client kept),
            spend-le r (refill r now (find client kept)),
          ),
          tt,
        );
}
  where
    kept : Buckets
    kept = prune r now m

    b : Bucket
    b = (spend r (refill r now (find client kept))).0
