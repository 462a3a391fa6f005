-- ===== src/AsyncLifecycle/Changes/Induction.antt =====
-- A property that every change keeps holds after every sequence of events of the owner in
-- backend/async_lifecycle.py.
use taigi_agent.Prelude.{
  ==-eq, ℕ, zero, suc, ◌≡◌, refl, ap, ◌∙◌, Bool, true, false, Option, none, some, List, [], ◌∷◌,
  ◌==◌, if◌then◌else◌, arith,
}
use taigi_agent.AsyncLifecycle.{
  member, is_task, CloseTask, unborn, running, succeeded, errored, Drain, absent, waiting, woken,
  draining, joining, ended, Owner, begin_acquisition, drop_acquisition, finish_acquisition,
  abort_acquisition, adopt, close_admission, begin_release, end_release, retry_failed, begin_aclose,
  end_aclose, release_owned, retry, shut_down,
}
use taigi_agent.AsyncLifecycle.Events.{
  Event, begins, closes_admission, adopts, finishes, aborts, retires, releases, close_ends,
  close_never_starts, release_ends, retries, acloses, aclose_ends, advances, or_same, or_unchanged,
  end_close, cancel_close, finish_aclose, step, play, set_drain, after_join, is_done, after_start,
  go_on, advance,
}
use taigi_agent.AsyncLifecycle.Changes.{
  begun, adopted, born, concluded, gives_up, wakes, looks, is_through, skips, counts, waits, hears,
  Preserved, end_release-drains, end_release-close_tasks,
}

module _ (I : Owner → Type 0) (keeps : Preserved I) where
  begin_keeps : (s : Owner) → I s → I (or_same s (begin_acquisition s))
  unfolding begin_acquisition
  begin_keeps s h = go s.is_closing refl
    where
      go :
          (b : Bool) → s.is_closing ≡ b → I (or_same s (if b then none else some (s.next, begun s)))
      go true e = h
      go false e = keeps.begun s e h

  finish_keeps : (s : Owner) (a : ℕ) → I s → I (or_same s (finish_acquisition s a))
  unfolding finish_acquisition
  finish_keeps s a h = go (member a s.pending) refl
    where
      go :
          (b : Bool)
          → member a s.pending ≡ b
          → I (or_same s (if b then some (s.next, drop_acquisition (adopted s) a) else none))
      go true e = keeps.adopted s a e h
      go false e = h

  abort_keeps : (s : Owner) (a : ℕ) → I s → I (or_unchanged s (abort_acquisition s a))
  unfolding abort_acquisition
  abort_keeps s a h = go (member a s.pending) refl
    where
      go :
          (b : Bool)
          → member a s.pending ≡ b
          → I (or_unchanged s (if b then some (drop_acquisition s a) else none))
      go true e = keeps.aborted s a e h
      go false e = h

  adopt_keeps : (s : Owner) → I s → I (or_same s (adopt s))
  unfolding adopt begin_acquisition finish_acquisition
  adopt_keeps s h = go s.is_closing refl
    where
      ended :
          (b : Bool)
          → I (begun s)
          → member s.next (begun s).pending ≡ b
          → I (
              or_same s (
                if b then some (suc s.next, drop_acquisition (adopted (begun s)) s.next) else none))
      ended true k e = keeps.adopted (begun s) s.next e k
      ended false k e = h

      go :
          (b : Bool)
          → s.is_closing ≡ b
          → I (
              or_same s
                (elim (if◌then◌else◌ {A = Option (ℕ × Owner)} b none (some (s.next, begun s))) [
                  | none ↦ none
                  | some x ↦ finish_acquisition x.1 x.0
                ]))
      go true e = h
      go false e = ended (member s.next (begun s).pending) (keeps.begun s e h) refl

  end_close_keeps :
      (s : Owner) (ok : Bool) (t : ℕ) (c : CloseTask)
      → s.close_tasks t ≡ c
      → I s
      → I (end_close s ok t c)
  unfolding end_close
  end_close_keeps s ok t (running e) r h = keeps.closed s t e ok r h
  end_close_keeps s ok t unborn r h = h
  end_close_keeps s ok t (succeeded e) r h = h
  end_close_keeps s ok t (errored e) r h = h

  cancel_close_keeps :
      (s : Owner) (t : ℕ) (c : CloseTask) → s.close_tasks t ≡ c → I s → I (cancel_close s t c)
  unfolding cancel_close
  cancel_close_keeps s t (running e) r h = keeps.cancelled s t e r h
  cancel_close_keeps s t unborn r h = h
  cancel_close_keeps s t (succeeded e) r h = h
  cancel_close_keeps s t (errored e) r h = h

  release_owned_keeps :
      (creates : Bool) (s : Owner) (e : ℕ) (b : Bool) (o : Option ℕ)
      → member e s.entries ≡ b
      → (s.objects e).close_task ≡ o
      → I s
      → I (release_owned creates s e b o).1
  unfolding release_owned
  release_owned_keeps creates s e false o m q h = h
  release_owned_keeps creates s e true (some t) m q h = h
  release_owned_keeps false s e true none m q h = h
  release_owned_keeps true s e true none m q h = keeps.born s e m q h

  release_ends_keeps :
      (s : Owner) (t e : ℕ) → I s → I (if is_done (s.close_tasks t) then end_release s t e else s)
  release_ends_keeps s t e h = go (is_done (s.close_tasks t)) refl
    where
      go : (b : Bool) → is_done (s.close_tasks t) ≡ b → I (if b then end_release s t e else s)
      go true p = keeps.cleared s t e p h
      go false p = h

  retry_keeps :
      (creates : Bool) (s : Owner) (b : Bool) (es : List ℕ)
      → s.is_closing ≡ b
      → I s
      → I (or_unchanged s (retry creates s b es))
  unfolding retry
  retry_keeps creates s true es e h = h
  retry_keeps creates s false [] e h = h
  retry_keeps false s false (x ∷ es) e h = h
  retry_keeps true s false (x ∷ es) e h = keeps.retrying s (x ∷ es) e h

  shut_down_keeps :
      (creates : Bool) (s : Owner) (b : Bool) (o : Option ℕ)
      → s.shutdown_task ≡ o
      → I s
      → I (shut_down creates s b o).1
  unfolding shut_down close_admission
  shut_down_keeps creates s true o e h = h
  shut_down_keeps creates s false (some t) e h = keeps.gated s h
  shut_down_keeps false s false none e h = keeps.gated s h
  shut_down_keeps true s false none e h =
      keeps.shutting (close_admission s) refl e (keeps.gated s h)

  end_aclose_keeps :
      (s : Owner) (t : ℕ) (ok : Bool) (o : Option ℕ)
      → s.shutdown_task ≡ o
      → s.drains t ≡ ended ok
      → I s
      → I (if is_task o t then concluded s ok else s)
  end_aclose_keeps s t ok none e p h = h
  end_aclose_keeps s t ok (some u) e p h = go (u == t) refl
    where
      go : (b : Bool) → (u == t) ≡ b → I (if b then concluded s ok else s)
      go true q = keeps.concluded s t ok (e ∙ ap some (==-eq u t q)) p h
      go false q = h

  finish_aclose_keeps :
      (s : Owner) (t : ℕ) (d : Drain) → s.drains t ≡ d → I s → I (finish_aclose s t d)
  unfolding finish_aclose end_aclose
  finish_aclose_keeps s t (ended ok) e h = end_aclose_keeps s t ok s.shutdown_task refl e h
  finish_aclose_keeps s t absent e h = h
  finish_aclose_keeps s t waiting e h = h
  finish_aclose_keeps s t woken e h = h
  finish_aclose_keeps s t (draining es n) e h = h
  finish_aclose_keeps s t (joining u x es n) e h = h

  released_keeps :
      (good : Bool) (s : Owner) (d e : ℕ) (es : List ℕ) (n : ℕ) (b : Bool) (o : Option ℕ)
      → s.drains d ≡ draining (e ∷ es) n
      → member e s.entries ≡ b
      → (s.objects e).close_task ≡ o
      → I s
      → I (
          set_drain
            (release_owned good s e b o).1
            d
            (after_start (release_owned good s e b o).0 e es n))
  unfolding release_owned after_start
  released_keeps good s d e es n false o p m q h = keeps.moved s d _ _ p (skips m) h
  released_keeps good s d e es n true (some t) p m q h = keeps.moved s d _ _ p (waits q) h
  released_keeps false s d e es n true none p m q h = keeps.moved s d _ _ p counts h
  released_keeps true s d e es n true none p m q h =
      keeps.moved (born s e) d _ _ p (waits (ground arith)) (keeps.born s e m q h)

  after_join_keeps :
      (good : Bool) (s : Owner) (d t e : ℕ) (es : List ℕ) (n : ℕ) (c : CloseTask)
      → s.drains d ≡ joining t e es n
      → s.close_tasks t ≡ c
      → I s
      → I (set_drain s d (after_join es n c good))
  unfolding after_join
  after_join_keeps true s d t e es n (succeeded u) p q h = keeps.moved s d _ _ p (hears q) h
  after_join_keeps false s d t e es n (succeeded u) p q h = keeps.moved s d _ _ p counts h
  after_join_keeps good s d t e es n unborn p q h = keeps.moved s d _ _ p counts h
  after_join_keeps good s d t e es n (running u) p q h = keeps.moved s d _ _ p counts h
  after_join_keeps good s d t e es n (errored u) p q h = keeps.moved s d _ _ p counts h

  go_on_keeps :
      (good : Bool) (s : Owner) (d : ℕ) (p : Drain) → s.drains d ≡ p → I s → I (go_on good s d p)
  unfolding go_on begin_release
  go_on_keeps good s d absent e h = h
  go_on_keeps false s d waiting e h = keeps.moved s d _ _ e gives_up h
  go_on_keeps true s d waiting e h = go s.pending_empty refl
    where
      go : (b : Bool) → s.pending_empty ≡ b → I (if b then set_drain s d woken else s)
      go true q = keeps.moved s d _ _ e (wakes q) h
      go false q = h
  go_on_keeps false s d woken e h = keeps.moved s d _ _ e gives_up h
  go_on_keeps true s d woken e h = keeps.moved s d _ _ e looks h
  go_on_keeps good s d (draining [] zero) e h = keeps.moved s d _ _ e is_through h
  go_on_keeps good s d (draining [] (suc n)) e h = keeps.moved s d _ _ e gives_up h
  go_on_keeps good s d (draining (x ∷ es) n) e h =
      released_keeps good s d x es n (member x s.entries) (s.objects x).close_task e refl refl h
  go_on_keeps good s d (joining t x es n) e h = go (is_done (s.close_tasks t)) refl
    where
      go :
          (b : Bool)
          → is_done (s.close_tasks t) ≡ b
          → I (
              if b
              then set_drain (end_release s t x) d (after_join es n (s.close_tasks t) good)
              else s)
      go true q =
          after_join_keeps good (end_release s t x) d t x es n (s.close_tasks t)
            (end_release-drains s t x d ∙ e) (end_release-close_tasks s t x t)
            (keeps.cleared s t x q h)
      go false q = h
  go_on_keeps good s d (ended ok) e h = h

  step_keeps : (s : Owner) (x : Event) → I s → I (step s x)
  unfolding step begin_release retry_failed begin_aclose advance
  step_keeps s begins h = begin_keeps s h
  step_keeps s closes_admission h = keeps.gated s h
  step_keeps s adopts h = adopt_keeps s h
  step_keeps s (finishes a) h = finish_keeps s a h
  step_keeps s (aborts a) h = abort_keeps s a h
  step_keeps s (retires e) h = keeps.retired s e h
  step_keeps s (releases creates e) h = release_owned_keeps creates s e _ _ refl refl h
  step_keeps s (close_ends ok t) h = end_close_keeps s ok t _ refl h
  step_keeps s (close_never_starts t) h = cancel_close_keeps s t _ refl h
  step_keeps s (release_ends t e) h = release_ends_keeps s t e h
  step_keeps s (retries creates) h = retry_keeps creates s s.is_closing _ refl h
  step_keeps s (acloses creates) h = shut_down_keeps creates s s.is_closed _ refl h
  step_keeps s (aclose_ends t) h = finish_aclose_keeps s t _ refl h
  step_keeps s (advances good d) h = go_on_keeps good s d _ refl h

  pub play_keeps : (s : Owner) (xs : List Event) → I s → I (play s xs)
  unfolding play
  play_keeps s [] h = h
  play_keeps s (x ∷ xs) h = play_keeps (step s x) xs (step_keeps s x h)
