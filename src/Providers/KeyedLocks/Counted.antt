-- ===== src/Providers/KeyedLocks/Counted.antt =====
-- What the registry of locks in backend/providers/ttl_cache.py keeps right in every state.
use taigi_agent.Prelude.{
  ==-eq, ℕ, suc, ◌-◌, ◌<◌, ◌≡◌, ◌⊎◌, inl, inr, refl, sym, ap, subst, ◌∙◌, Bool, true, false, ◌&&◌,
  ◌||◌, Option, none, some, List, [], ◌∷◌, ◌==◌, if◌then◌else◌, get_elem?, tally, All, All-map,
  Bool-cases, arith,
}
use taigi_agent.Providers.KeyedLocks.{
  Use, Registry, write, remove_at, hold_at, new, make_entry, join, enter_with, enter, take_lock,
  is_entry, leave, Event, enters, takes, leaves, or_same, with_use, step, play,
}
use taigi_agent.Providers.KeyedLocks.Counts.{
  tally-remove_at, tally-hold_at, All-remove_at, All-get, All-hold_at,
}

abbrev pub at_entry : ℕ → Use → Bool
at_entry e u = u.entry == e

abbrev pub inside : ℕ → Use → Bool
inside e u = (u.entry == e) && u.holds

-- A task stands at the entry of its key.
abbrev pub Linked : (ℕ → Option ℕ) → Use → Type 0
Linked entries u = entries u.key ≡ some u.entry

pub record Sound (s : Registry) : Type 0 where
  pub linked : All (Linked s.entries) s.uses
  pub counted : (e : ℕ) → s.users e ≡ tally (at_entry e) s.uses
  pub fresh : (k e : ℕ) → s.entries k ≡ some e → e < s.next
  pub apart : (k l e : ℕ) → s.entries k ≡ some e → s.entries l ≡ some e → k ≡ l
  pub used : (k e : ℕ) → s.entries k ≡ some e → 0 < s.users e
  pub locked : (e : ℕ) → tally (inside e) s.uses ≡ (if s.taken e then 1 else 0)

pub tally-none : (p : Use → Bool) (us : List Use) → All (λ u. p u ≡ false) us → tally p us ≡ 0
tally-none p [] h = refl
tally-none p (u ∷ us) h = ground (arith, h.0, tally-none p us h.1)

-- No task stands at an entry that is not made yet.
none_ahead : (s : Registry) → Sound s → All (λ u. at_entry s.next u ≡ false) s.uses
none_ahead s h =
    All-map (Linked s.entries) (λ u. at_entry s.next u ≡ false)
      (λ u l. let n = h.fresh u.key u.entry l in ground arith) s.uses h.linked

none_inside : (e : ℕ) (us : List Use) → All (λ u. at_entry e u ≡ false) us → tally (inside e) us ≡ 0
none_inside e us h =
    tally-none (inside e) us
      (All-map (λ u. at_entry e u ≡ false) (λ u. inside e u ≡ false) (λ u l. rw l refl) us h)

-- A join of an entry that the key has.
join-Sound :
    (s : Registry) (k e : ℕ)
    → s.entries k ≡ some e
    → ((x y : ℕ) → s.entries x ≡ some y → (y ≡ e) ⊎ (0 < s.users y))
    → All (Linked s.entries) s.uses
    → ((x : ℕ) → s.users x ≡ tally (at_entry x) s.uses)
    → ((x y : ℕ) → s.entries x ≡ some y → y < s.next)
    → ((x y z : ℕ) → s.entries x ≡ some z → s.entries y ≡ some z → x ≡ y)
    → ((x : ℕ) → tally (inside x) s.uses ≡ (if s.taken x then 1 else 0))
    → Sound (join s k e)
unfolding join
join-Sound s k e o used linked counted fresh apart locked = record {
  linked = (o, linked);
  counted = λ x. ground (arith, counted x, counted e);
  fresh = fresh;
  apart = apart;
  used = λ x y p. elim (used x y p) [ inl q ↦ ground (arith, q) | inr q ↦ ground (arith, q) ];
  locked = λ x. ground (arith, locked x);
}

make_entry-Linked :
    (s : Registry) (k loop : ℕ)
    → s.entries k ≡ none
    → (us : List Use) → All (Linked s.entries) us
    → All (Linked (make_entry s k loop).entries) us
unfolding make_entry
make_entry-Linked s k loop o us h =
    All-map (Linked s.entries) (Linked (write k (some s.next) s.entries))
      (λ u l. elim (Bool-cases (u.key == k)) [
        | inr n ↦ rw n l
        | inl y ↦ absurd (clash u (==-eq u.key k y) l)
      ])
      us h
  where
    clash : (u : Use) → u.key ≡ k → s.entries u.key ≡ some u.entry → ⊥
    clash u q l = let no : none ≡ some u.entry = sym o ∙ ap s.entries (sym q) ∙ l in cc

-- What a key refers to behind the making of an entry.
made :
    (s : Registry) (k x y : ℕ)
    → write k (some s.next) s.entries x ≡ some y
    → ((x ≡ k) × (y ≡ s.next)) ⊎ (s.entries x ≡ some y)
made s k x y p = go (x == k) refl p
  where
    go :
        (b : Bool)
        → (x == k) ≡ b
        → (if b then some s.next else s.entries x) ≡ some y
        → ((x ≡ k) × (y ≡ s.next)) ⊎ (s.entries x ≡ some y)
    go true q r = let same : y ≡ s.next = cc in inl (==-eq x k q, same)
    go false q r = inr r

new_entry-Sound :
    (s : Registry) (k loop : ℕ)
    → s.entries k ≡ none
    → Sound s
    → Sound (join (make_entry s k loop) k s.next)
unfolding make_entry
new_entry-Sound s k loop o h =
    join-Sound (make_entry s k loop) k s.next (ground arith) used
      (make_entry-Linked s k loop o s.uses h.linked) counted fresh apart locked
  where
    used :
        (x y : ℕ)
        → write k (some s.next) s.entries x ≡ some y
        → (y ≡ s.next) ⊎ (0 < write s.next 0 s.users y)
    used x y p = elim (made s k x y p) [
      | inl q ↦ inl q.1
      | inr q ↦ inr (ground (arith, h.used x y q, h.fresh x y q))
    ]

    counted : (x : ℕ) → write s.next 0 s.users x ≡ tally (at_entry x) s.uses
    counted x = elim (Bool-cases (x == s.next)) [
      | inr n ↦ rw n (h.counted x)
      | inl y ↦ rw y (
          sym (
            ap (λ n. tally (at_entry n) s.uses) (==-eq x s.next y)
            ∙ tally-none (at_entry s.next) s.uses (none_ahead s h)))
    ]

    fresh : (x y : ℕ) → write k (some s.next) s.entries x ≡ some y → y < suc s.next
    fresh x y p = elim (made s k x y p) [
      | inl q ↦ omega (arith, q.1)
      | inr q ↦ omega (arith, h.fresh x y q)
    ]

    apart :
        (x y z : ℕ)
        → write k (some s.next) s.entries x ≡ some z
        → write k (some s.next) s.entries y ≡ some z
        → x ≡ y
    apart x y z p q = elim (made s k x z p) [
      | inl a ↦ elim (made s k y z q) [
        | inl b ↦ a.0 ∙ sym b.0
        | inr b ↦ omega (arith, a.1, h.fresh y z b)
      ]
      | inr a ↦ elim (made s k y z q) [
        | inl b ↦ omega (arith, b.1, h.fresh x z a)
        | inr b ↦ h.apart x y z a b
      ]
    ]

    locked : (x : ℕ) → tally (inside x) s.uses ≡ (if write s.next false s.taken x then 1 else 0)
    locked x = elim (Bool-cases (x == s.next)) [
      | inr n ↦ rw n (h.locked x)
      | inl y ↦ rw y (
          ap (λ n. tally (inside n) s.uses) (==-eq x s.next y)
          ∙ none_inside s.next s.uses (none_ahead s h))
    ]

enter-Sound :
    (s : Registry) (k loop : ℕ) (o : Option ℕ)
    → s.entries k ≡ o
    → Sound s
    → Sound (or_same s (enter_with s k loop o))
unfolding enter_with
enter-Sound s k loop none e h = new_entry-Sound s k loop e h
enter-Sound s k loop (some d) e h = go (s.loops d == loop)
  where
    go : (b : Bool) → Sound (or_same s (if b then some (join s k d) else none))
    go true =
        join-Sound s k d e (λ x y p. inr (h.used x y p)) h.linked h.counted h.fresh h.apart h.locked
    go false = h

take_lock-Sound :
    (s : Registry) (i : ℕ) (u : Use)
    → get_elem? s.uses i ≡ some u
    → Sound s
    → Sound (take_lock s i u)
unfolding take_lock
take_lock-Sound s i u g h = go (s.taken u.entry) u.holds refl refl
  where
    go :
        (b c : Bool)
        → s.taken u.entry ≡ b
        → u.holds ≡ c
        → Sound (
            if b || c
            then s
            else record s { taken = write u.entry true s.taken; uses = hold_at i s.uses })
    go true c x y = h
    go false true x y = h
    go false false x y = record {
      linked = All-hold_at (Linked s.entries) i s.uses (λ v l. l) h.linked;
      counted = λ e.
          let same = tally-hold_at (at_entry e) i s.uses u g in omega (arith, same, h.counted e);
      fresh = h.fresh;
      apart = h.apart;
      used = h.used;
      locked =
          λ e. let same = tally-hold_at (inside e) i s.uses u g in ground (arith, same, h.locked e);
    }

-- What a key still refers to behind the end of its entry.
left :
    (s : Registry) (k x y : ℕ)
    → write k none s.entries x ≡ some y
    → (x ≡ k → ⊥) × (s.entries x ≡ some y)
left s k x y p = go (x == k) refl p
  where
    go :
        (b : Bool)
        → (x == k) ≡ b
        → (if b then none else s.entries x) ≡ some y
        → (x ≡ k → ⊥) × (s.entries x ≡ some y)
    go true q r = cc
    go false q r = (λ z. ground (arith, q, z), r)

tally-zero : (p : Use → Bool) (us : List Use) → tally p us ≡ 0 → All (λ u. p u ≡ false) us
tally-zero p [] h = tt
tally-zero p (u ∷ us) h = (ground (arith, h), tally-zero p us (ground (arith, h)))

All-both {κ} :
    (P Q R : Use → Type κ) (us : List Use)
    → ((u : Use) → P u → Q u → R u)
    → All P us
    → All Q us
    → All R us
All-both P Q R [] f a b = tt
All-both P Q R (u ∷ us) f a b = (f u a.0 b.0, All-both P Q R us f a.1 b.1)

leave-Sound :
    (s : Registry) (i : ℕ) (u : Use) → get_elem? s.uses i ≡ some u → Sound s → Sound (leave s i u)
unfolding leave
leave-Sound s i u g h = go (s.users u.entry - 1 == 0 && is_entry (s.entries u.key) u.entry) refl
  where
    here : s.entries u.key ≡ some u.entry
    here = All-get (Linked s.entries) i s.uses u g h.linked

    stays : All (Linked s.entries) (remove_at i s.uses)
    stays = All-remove_at (Linked s.entries) i s.uses h.linked

    is_here : is_entry (s.entries u.key) u.entry ≡ true
    is_here = rw here (ground arith)

    one_less : s.users u.entry - 1 ≡ tally (at_entry u.entry) (remove_at i s.uses)
    one_less = ground (arith, h.counted u.entry, tally-remove_at (at_entry u.entry) i s.uses u g)

    counted :
        (e : ℕ)
        → write u.entry (s.users u.entry - 1) s.users e ≡ tally (at_entry e) (remove_at i s.uses)
    counted e = elim (Bool-cases (e == u.entry)) [
      | inr n ↦ rw n (ground (arith, n, h.counted e, tally-remove_at (at_entry e) i s.uses u g))
      | inl y ↦ rw y (
          subst (λ n. s.users u.entry - 1 ≡ tally (at_entry n) (remove_at i s.uses))
            (sym (==-eq e u.entry y)) one_less)
    ]

    locked :
        (e : ℕ)
        → tally (inside e) (remove_at i s.uses)
          ≡ (if (if u.holds then write u.entry false s.taken else s.taken) e then 1 else 0)
    locked e = unlock u.holds refl
      where
        unlock :
            (b : Bool)
            → u.holds ≡ b
            → tally (inside e) (remove_at i s.uses)
              ≡ (if (if b then write u.entry false s.taken else s.taken) e then 1 else 0)
        unlock true q = ground (arith, q, h.locked e, tally-remove_at (inside e) i s.uses u g)
        unlock false q = ground (arith, q, h.locked e, tally-remove_at (inside e) i s.uses u g)

    still_used :
        (k e : ℕ)
        → (k ≡ u.key → ⊥) × (s.entries k ≡ some e)
        → 0 < write u.entry (s.users u.entry - 1) s.users e
    still_used k e l = elim (Bool-cases (e == u.entry)) [
      | inr n ↦ rw n (h.used k e l.1)
      | inl y ↦ absurd (l.0 (h.apart k u.key e l.1 (here ∙ ap some (sym (==-eq e u.entry y)))))
    ]

    others :
        (v : Use)
        → Linked s.entries v
        → at_entry u.entry v ≡ false
        → Linked (write u.key none s.entries) v
    others v l n = elim (Bool-cases (v.key == u.key)) [
      | inr m ↦ rw m l
      | inl y ↦ absurd (clash (sym l ∙ ap s.entries (==-eq v.key u.key y) ∙ here))
    ]
      where
        clash : some v.entry ≡ some u.entry → ⊥
        clash q = let same : v.entry ≡ u.entry = cc in ground (arith, n, same)

    go :
        (b : Bool)
        → (s.users u.entry - 1 == 0 && is_entry (s.entries u.key) u.entry) ≡ b
        → Sound (record s {
          taken = (if u.holds then write u.entry false s.taken else s.taken);
          users = write u.entry (s.users u.entry - 1) s.users;
          uses = remove_at i s.uses;
          entries = if b then write u.key none s.entries else s.entries;
        })
    go false c = record {
      linked = stays;
      counted = counted;
      fresh = h.fresh;
      apart = h.apart;
      used = λ k e p. ground (arith, c, is_here, h.used k e p);
      locked = locked;
    }
    go true c = record {
      linked =
          All-both (Linked s.entries) (λ v. at_entry u.entry v ≡ false)
            (Linked (write u.key none s.entries)) (remove_at i s.uses) others stays
            (tally-zero (at_entry u.entry) (remove_at i s.uses) (ground (arith, one_less, c)));
      counted = counted;
      fresh = λ k e p. h.fresh k e (left s u.key k e p).1;
      apart = λ k l e p q. h.apart k l e (left s u.key k e p).1 (left s u.key l e q).1;
      used = λ k e p. still_used k e (left s u.key k e p);
      locked = locked;
    }

step-Sound : (s : Registry) (x : Event) → Sound s → Sound (step s x)
unfolding step enter
step-Sound s (enters k loop) h = enter-Sound s k loop (s.entries k) refl h
step-Sound s (takes i) h = go (get_elem? s.uses i) refl
  where
    go : (o : Option Use) → get_elem? s.uses i ≡ o → Sound (with_use s (take_lock s i) o)
    go none e = h
    go (some u) e = take_lock-Sound s i u e h
step-Sound s (leaves i) h = go (get_elem? s.uses i) refl
  where
    go : (o : Option Use) → get_elem? s.uses i ≡ o → Sound (with_use s (leave s i) o)
    go none e = h
    go (some u) e = leave-Sound s i u e h

pub play-Sound : (s : Registry) (xs : List Event) → Sound s → Sound (play s xs)
unfolding play
play-Sound s [] h = h
play-Sound s (x ∷ xs) h = play-Sound (step s x) xs (step-Sound s x h)

pub new-Sound : Sound new
unfolding new
new-Sound = record {
  linked = tt;
  counted = λ e. refl;
  fresh = λ k e p. cc;
  apart = λ k l e p q. cc;
  used = λ k e p. cc;
  locked = λ e. refl;
}
