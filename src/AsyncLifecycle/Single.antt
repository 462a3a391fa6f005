-- ===== src/AsyncLifecycle/Single.antt =====
-- A resource is closed by one task at a time (backend/async_lifecycle.py).
use taigi_agent.Prelude.{
  ==-eq, ℕ, ◌≡◌, inl, inr, refl, ap, sym, subst, ◌∙◌, Bool, true, false, Option, none, some, List,
  ◌∷◌, ◌==◌, if◌then◌else◌, Bool-cases, arith,
}
use taigi_agent.AsyncLifecycle.{
  member, discard, write, is_task, CloseTask, succeeded, errored, running, Owner, new,
  drop_acquisition, close_admission, retire_closed, close_entry, end_release, begin_release,
  release_owned, joins, draining, joining,
}
use taigi_agent.AsyncLifecycle.Events.{set_drain, is_done, Event, play, go_on, after_start}
use taigi_agent.AsyncLifecycle.Changes.{Preserved, born, cancelled, end_release-close_tasks}
use taigi_agent.AsyncLifecycle.Changes.Induction.{play_keeps}
use taigi_agent.AsyncLifecycle.Members.{member-split}
use taigi_agent.AsyncLifecycle.Numbers.{entry_of, Sound, Sound-Preserved, new-Sound}

-- The task that closes an entry is in its slot, and the entry is owned.
abbrev Slotted : Owner → Type 0
Slotted s =
    (t e : ℕ)
    → s.close_tasks t ≡ running e
    → ((s.objects e).close_task ≡ some t) × (member e s.entries ≡ true)

Single : Owner → Type 0
Single s = Sound s × Slotted s

running_entry :
    (s : Owner) (t e : ℕ) → s.close_tasks t ≡ running e → entry_of (s.close_tasks t) ≡ some e
unfolding entry_of
running_entry s t e r = ap entry_of r

true-ne-false : true ≡ false → ⊥
true-ne-false e = cc

-- The end of one task leaves the resource of another where it is.
discard-keeps :
    (s : Owner) (t e u k : ℕ)
    → s.close_tasks t ≡ running e
    → s.close_tasks u ≡ running k
    → (u ≡ t → ⊥)
    → Slotted s
    → member k (discard e s.entries) ≡ true
discard-keeps s t e u k r p apart h = elim (member-split k e s.entries (h u k p).1) [
  | inr m ↦ m
  | inl same ↦ absurd (apart (one same))
]
  where
    one : k ≡ e → u ≡ t
    one same =
        let slots : some u ≡ some t =
          sym (h u k p).0 ∙ ap (λ x. (s.objects x).close_task) same ∙ (h t e r).0 in
        cc

-- A task that still runs when another has ended.
others :
    (f : ℕ → CloseTask) (x : CloseTask) (t u k : ℕ)
    → (x ≡ running k → ⊥)
    → write t x f u ≡ running k
    → (u ≡ t → ⊥) × (f u ≡ running k)
others f x t u k done p = elim (Bool-cases (u == t)) [
  | inl y ↦ absurd (done (ground (arith, p, y)))
  | inr n ↦ (λ same. ground (arith, n, same), ground (arith, p, n))
]

closed-Slotted :
    (s : Owner) (t e : ℕ) (ok : Bool)
    → s.close_tasks t ≡ running e
    → Slotted s
    → Slotted (close_entry s t e ok)
unfolding close_entry
closed-Slotted s t e true r h u k p =
    let (apart, q) = others s.close_tasks (succeeded e) t u k (λ z. cc) p in
    let slot = (h u k q).0 in (ground (arith, slot), discard-keeps s t e u k r q apart h)
closed-Slotted s t e false r h u k p =
    let (apart, q) = others s.close_tasks (errored e) t u k (λ z. cc) (ground (arith, p)) in
    let slot = (h u k q).0 in
    let left = discard-keeps s t e u k r q apart h in
    let held = (h u k q).1 in (ground (arith, slot), ground (arith, left, held))

cleared-Slotted :
    (s : Owner) (t e : ℕ)
    → is_done (s.close_tasks t) ≡ true
    → Slotted s
    → Slotted (end_release s t e)
unfolding end_release is_done
cleared-Slotted s t e d h u k p = (go (s.objects e).close_task refl, held)
  where
    run : s.close_tasks u ≡ running k
    run = sym (end_release-close_tasks s t e u) ∙ p

    apart : u ≡ t → ⊥
    apart same =
        true-ne-false (sym d ∙ ap (λ x. is_done (s.close_tasks x)) (sym same) ∙ ap is_done run)

    held : member k (end_release s t e).entries ≡ true
    held = let m = (h u k run).1 in ground (arith, m)

    go :
        (o : Option ℕ)
        → (s.objects e).close_task ≡ o
        → ((if is_task o t
              then record s {
                objects = write e (record (s.objects e) { close_task = none }) s.objects;
              }
              else s).objects
            k).close_task
          ≡ some u
    go none q = (h u k run).0
    go (some v) q = elim (Bool-cases (v == t)) [
      | inr n ↦ rw n (h u k run).0
      | inl y ↦ rw y (elim (Bool-cases (k == e)) [
        | inr n ↦ rw n (h u k run).0
        | inl z ↦ absurd (apart (other v q (==-eq v t y) (==-eq k e z)))
      ])
    ]
      where
        other : (v : ℕ) → (s.objects e).close_task ≡ some v → v ≡ t → k ≡ e → u ≡ t
        other v q y z =
            let same : some u ≡ some v =
              sym (h u k run).0 ∙ ap (λ x. (s.objects x).close_task) z ∙ q in
            cc

retired-Slotted : (s : Owner) (e : ℕ) → Slotted s → Slotted (retire_closed s e)
unfolding retire_closed
retired-Slotted s e h u k p = (same_slot ∙ (h u k run).0, held)
  where
    run : s.close_tasks u ≡ running k
    run = ground (arith, p)

    same_slot : ((retire_closed s e).objects k).close_task ≡ (s.objects k).close_task
    same_slot = ground arith

    held : member k (retire_closed s e).entries ≡ true
    held = elim (member-split k e s.entries (h u k run).1) [
      | inr d ↦ let m = (h u k run).1 in ground (arith, d, m)
      | inl same ↦
          let slot = ap (λ x. (s.objects x).close_task) (sym same) ∙ (h u k run).0 in
          let m = (h u k run).1 in rw slot (ground (arith, m))
    ]

born-Slotted :
    (s : Owner) (e : ℕ)
    → member e s.entries ≡ true
    → (s.objects e).close_task ≡ none
    → Slotted s
    → Slotted (born s e)
born-Slotted s e m o h u k p = elim (Bool-cases (u == s.next)) [
  | inl y ↦
      let same : k ≡ e = ground (arith, p, y) in
      (ground (arith, y, same), subst (λ x. member x s.entries ≡ true) (sym same) m)
  | inr n ↦ let (slot, held) = h u k (ground (arith, p, n)) in (ground (arith, slot, o), held)
]

cancelled-Slotted : (s : Owner) (t e : ℕ) → Slotted s → Slotted (cancelled s t e)
cancelled-Slotted s t e h u k p = h u k (others s.close_tasks (errored e) t u k (λ z. cc) p).1

Slotted-Preserved : Preserved Single
unfolding Single close_admission set_drain drop_acquisition retire_closed close_entry end_release
    is_done
Slotted-Preserved = record {
  begun = λ s e h. (Sound-Preserved.begun s e h.0, h.1);
  adopted = λ s a m h. (
    Sound-Preserved.adopted s a m h.0,
    λ t e r.
        let q = h.0.tasks t e (running_entry s t e r) in
        (ground (arith, (h.1 t e r).0), ground (arith, (h.1 t e r).1)),
  );
  aborted = λ s a m h. (Sound-Preserved.aborted s a m h.0, h.1);
  gated = λ s h. (Sound-Preserved.gated s h.0, h.1);
  retired = λ s e h. (Sound-Preserved.retired s e h.0, retired-Slotted s e h.1);
  born = λ s e m o h. (Sound-Preserved.born s e m o h.0, born-Slotted s e m o h.1);
  closed = λ s t e ok r h. (Sound-Preserved.closed s t e ok r h.0, closed-Slotted s t e ok r h.1);
  cancelled = λ s t e r h. (Sound-Preserved.cancelled s t e r h.0, cancelled-Slotted s t e h.1);
  cleared = λ s t e d h. (Sound-Preserved.cleared s t e d h.0, cleared-Slotted s t e d h.1);
  retrying = λ s es e h. (Sound-Preserved.retrying s es e h.0, h.1);
  shutting = λ s e n h. (Sound-Preserved.shutting s e n h.0, h.1);
  concluded = λ s t ok e d h. (Sound-Preserved.concluded s t ok e d h.0, h.1);
  moved = λ s d p q e m h. (Sound-Preserved.moved s d p q e m h.0, h.1);
}

new-Single : Single new
unfolding Single new
new-Single = (new-Sound, λ t e r. cc)

-- Who releases a resource that a task closes waits for that task, and changes nothing.
release-joins :
    (s : Owner) (t e : ℕ) (creates : Bool)
    → (s.objects e).close_task ≡ some t
    → member e s.entries ≡ true
    → begin_release creates s e ≡ (joins t, s)
unfolding begin_release release_owned
release-joins s t e creates slot held = rw slot (rw held refl)

drain-joins :
    (s : Owner) (t e : ℕ) (good : Bool) (d : ℕ) (es : List ℕ) (n : ℕ)
    → begin_release good s e ≡ (joins t, s)
    → go_on good s d (draining (e ∷ es) n) ≡ set_drain s d (joining t e es n)
unfolding go_on after_start
drain-joins s t e good d es n start = ap (λ x. set_drain x.1 d (after_start x.0 e es n)) start

-- In every state that is reached, a resource that a close task runs for is owned, and no other close
-- task runs for it. A release of it starts no task, changes nothing and waits for that one, and so
-- does a task of a retry or of the shutdown whose turn has come to release it.
pub one_close_at_a_time :
    (xs : List Event) (t u e : ℕ) (creates good : Bool) (d : ℕ) (es : List ℕ) (n : ℕ)
    → (play new xs).close_tasks t ≡ running e
    → (play new xs).close_tasks u ≡ running e
    → (t ≡ u)
      × (member e (play new xs).entries ≡ true)
      × (begin_release creates (play new xs) e ≡ (joins t, play new xs))
      × (go_on good (play new xs) d (draining (e ∷ es) n)
          ≡ set_drain (play new xs) d (joining t e es n))
unfolding Single
one_close_at_a_time xs t u e creates good d es n p q =
    let s = play new xs in
    let slots = (play_keeps Single Slotted-Preserved new xs new-Single).1 in
    let (slot, held) = slots t e p in
    let same : some t ≡ some u = sym slot ∙ (slots u e q).0 in
    (
      cc,
      held,
      release-joins s t e creates slot held,
      drain-joins s t e good d es n (release-joins s t e good slot held),
    )
