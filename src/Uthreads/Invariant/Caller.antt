-- ===== src/Uthreads/Invariant/Caller.antt =====
-- The calls of Uthreads_Library/uthreads.cpp by which the running thread gives up the processor:
-- a quantum that expires, `uthread_sleep`, and `uthread_block` and `uthread_terminate` of itself.
use native.Mathlib.Decide.{ℕ_discrete}
use operating_systems.Base.{
  ℕ, suc, ℤ, pos, int_max, ap, ==ℤ→eq, ◌≡◌, ◌≢◌, refl, ◌∙◌, inl, inr, true, false, Option,
  Option-cases, none, some, List, [], ◌∷◌, ◌++◌, All, All-snoc, Distinct, Distinct-snoc, arith,
}
use operating_systems.Uthreads.Containers.{find, insert}
use operating_systems.Uthreads.Containers.Laws.{UniqueKeys, insert-UniqueKeys, All-insert, All-find}
use operating_systems.Uthreads.Machine.{
  blocked, sleep, is_running, is_ready, Thread, Globals, and_then, update, pure, handed_over,
  hand_over, Os, Works, block, unblock,
}
use operating_systems.Uthreads.Scheduler.{schedule_handler}
use operating_systems.Uthreads.Api.{
  success, call_handler, block_thread, uthread_sleep, uthread_block, uthread_terminate,
}
use operating_systems.Uthreads.Invariant.{
  Has, Asleep, is_waiting, Core, Inv, Ends, Ends-and_then, Ends-returned, masked-Core,
}
use operating_systems.Uthreads.Invariant.Frame.{
  Agree, Has-frame, Has-ne, Asleep-frame, Zombies-frame, fresh-frame,
}
use operating_systems.Uthreads.Invariant.Retire.{Calls}
use operating_systems.Uthreads.Invariant.Sleepers.{NotDue}
use operating_systems.Uthreads.Invariant.Handler.{schedule_handler-Inv, call_handler-Inv}

-- A refusal changes the mask and the messages only.
pub refused-Inv : (s : Globals) (m : _) → Inv s → Inv (record s { masked = false; cerr = m })
refused-Inv s m i = record {
  core = masked-Core s false m i.core;
  current = i.current;
  unmasked = refl;
}

-- The running thread `t` becomes `t'`, of the same id, in a heap `h'`.
module _ (s : Globals) (i : Inv s) (t : Thread) (at : s.heap s.running_thread ≡ some t)
    (is : is_running t.state ≡ true) (known : find t.id s.threads ≡ some s.running_thread)
    (live : t.terminated ≡ false) (t' : Thread) (h' : ℕ → Option Thread)
    (agree : Agree s.heap h' s.running_thread) (now : h' s.running_thread ≡ some t')
    (same_id : t'.id ≡ t.id) where
  self-blocked : All (Has h' s.threads is_waiting) s.blocked_threads
  self-blocked =
      Has-frame s.heap h' s.threads s.running_thread agree t at is_waiting s.blocked_threads
        (ground arith) i.core.blocked_ok

  self-sleeping : All (Asleep h' s.threads) s.sleeping_threads
  self-sleeping =
      Asleep-frame s.heap h' s.threads s.running_thread agree t at s.sleeping_threads (ground arith)
        i.core.sleeping_ok

  self-Core :
      (blocked' : List ℕ) (sleeping' : List (ℤ × ℕ))
      → All (Has h' s.threads is_waiting) blocked'
      → Distinct blocked'
      → All (Asleep h' s.threads) sleeping'
      → UniqueKeys sleeping'
      → Core (record s {
        heap = h';
        blocked_threads = blocked';
        sleeping_threads = sleeping';
        masked = false;
      })
  self-Core blocked' sleeping' bo bd so su =
      let c = i.core in
      record {
        registered = λ k q f.
            let (u, at', named, how) = c.registered k q f in
            elim (ℕ_discrete q s.running_thread) [
              | yes here ↦
                  (t', rw here now, same_id ∙ ground (arith, at, at', named, here), inr here)
              | no other ↦ (u, agree q other ∙ at', named, how)
            ];
        unique_ids = c.unique_ids;
        ids = c.ids;
        counted = c.counted;
        ready_ok =
            Has-frame s.heap h' s.threads s.running_thread agree t at is_ready s.ready_queue
              (ground arith) c.ready_ok;
        ready_distinct = c.ready_distinct;
        blocked_ok = bo;
        blocked_distinct = bd;
        sleeping_ok = so;
        sleeping_unique = su;
        zombies =
            Zombies-frame s.heap h' s.threads s.running_thread agree t at s.termination live
              c.zombies;
        fresh = fresh-frame s.heap h' s.threads s.running_thread agree t at s.next c.fresh;
        temp_empty = c.temp_empty;
        delete_empty = c.delete_empty;
        waking_empty = c.waking_empty;
        installed = c.installed;
        main_ok = c.main_ok;
      }

  self-known : find t'.id s.threads ≡ some s.running_thread
  self-known = rw same_id known

module _ ⦃os : Os⦄ (w : Works os) (s : Globals) (i : Inv s) where
  -- Where `sigprocmask` succeeds: `schedule_handler`, as the timer calls it when a quantum expires
  -- in a state that meets the invariant, is never undefined and does not exit, and the next thread
  -- runs in a state that meets the invariant.
  pub tick-Inv : Ends (schedule_handler s) (λ _ s'. Inv s')
  tick-Inv =
      let (t, at, is, known, live) = i.current in
      schedule_handler-Inv w s i.core (t, at, known, inl (is, live)) (t, at, inl (ground arith))

  -- The result of a call that switches: the caller gets it when it runs again.
  switch-Inv :
      (s1 : Globals)
      → Core s1
      → Calls s1
      → NotDue s1
      → Ends (and_then (call_handler s1) (λ _. pure success)) (λ _ s'. Inv s')
  switch-Inv s1 c call due =
      Ends-and_then (λ _ s'. Inv s') (λ _ s'. Inv s') (call_handler s1) _
        (call_handler-Inv w s1 c call due) (λ _ s2 i2. i2)

  module _ (t : Thread) (at : s.heap s.running_thread ≡ some t) (is : is_running t.state ≡ true)
      (known : find t.id s.threads ≡ some s.running_thread) (live : t.terminated ≡ false)
      (other : t.id ≢ pos 0) where
    abbrev ended : Globals
    ended = record s {
      heap = update s.heap s.running_thread (some (record t { terminated = true }));
      masked = false;
    }

    terminate-eq : uthread_terminate t.id s ≡ and_then (call_handler ended) (λ _. hand_over)
    unfolding uthread_terminate block unblock
    terminate-eq = ground (arith, ==ℤ→eq t.id (pos 0))

    -- Another thread runs, and the call does not return.
    pub terminate_self : (s' : Globals) × (uthread_terminate t.id s ≡ handed_over s') × Inv s'
    terminate_self =
        let t' = record t { terminated = true } in
        let h' = ended.heap in
        let agree : Agree s.heap h' s.running_thread = λ q ne. ground arith in
        let now : h' s.running_thread ≡ some t' = ground arith in
        let (_, s', e, v) =
          Ends-returned (λ _ s'. Inv s') (call_handler ended)
            (call_handler-Inv w ended
              (self-Core s i t at is known live t' h' agree now refl s.blocked_threads
                s.sleeping_threads (self-blocked s i t at is known live t' h' agree now refl)
                i.core.blocked_distinct (self-sleeping s i t at is known live t' h' agree now refl)
                i.core.sleeping_unique)
              (t', now, known, inr (inl (is, refl, other))) (t', now, inl (ground arith))) in
        (s', terminate-eq ∙ ap (λ r. and_then r (λ _. hand_over)) e, v)

    abbrev blocks : Globals
    blocks = record s {
      heap = update s.heap s.running_thread (some (record t { state = blocked }));
      blocked_threads = s.blocked_threads ++ s.running_thread ∷ [];
      masked = false;
    }

    block-eq : uthread_block t.id s ≡ and_then (call_handler blocks) (λ _. pure success)
    unfolding uthread_block block_thread block unblock
    block-eq = ground (arith, ==ℤ→eq t.id (pos 0))

    pub block_self : Ends (uthread_block t.id s) (λ _ s'. Inv s')
    block_self =
        let t' = record t { state = blocked } in
        let h' = blocks.heap in
        let r = s.running_thread in
        let agree : Agree s.heap h' r = λ q ne. ground arith in
        let now : h' r ≡ some t' = ground arith in
        rw block-eq (
          switch-Inv blocks
            (self-Core s i t at is known live t' h' agree now refl _ s.sleeping_threads
              (All-snoc (Has h' s.threads is_waiting) s.blocked_threads r
                (self-blocked s i t at is known live t' h' agree now refl)
                (t', now, refl, known, live))
              (Distinct-snoc s.blocked_threads r
                (Has-ne s.heap h' s.threads r agree t at is_waiting s.blocked_threads (ground arith)
                  i.core.blocked_ok)
                i.core.blocked_distinct)
              (self-sleeping s i t at is known live t' h' agree now refl) i.core.sleeping_unique)
            (t', now, known, inr (inr (refl, live, other))) (t', now, inl refl))

    abbrev dozes : ℕ → Globals
    dozes n = record s {
      sleeping_threads = insert t.id s.running_thread s.sleeping_threads;
      heap =
          update (update s.heap s.running_thread (some (record t { state = sleep })))
            s.running_thread (some (record t { state = sleep; sleep_quantum = pos (suc (suc n)) }));
      masked = false;
    }

    sleep-eq :
        (n : ℕ)
        → pos (suc n) ≢ int_max
        → uthread_sleep (pos (suc n)) s ≡ and_then (call_handler (dozes n)) (λ _. pure success)
    unfolding uthread_sleep block unblock
    sleep-eq n few = ground (arith, ==ℤ→eq t.id (pos 0), ==ℤ→eq (pos (suc n)) int_max)

    -- It is not on the list of sleepers yet.
    not_asleep : find t.id s.sleeping_threads ≡ none
    not_asleep = elim (Option-cases (find t.id s.sleeping_threads)) [
      | inl e ↦ e
      | inr (q, e) ↦ absurd (
          let (u, n, at', is', named, f, live', left) =
            All-find (Asleep s.heap s.threads) t.id q s.sleeping_threads i.core.sleeping_ok e in
          ground (arith, at, at', is, is', named, f, known))
    ]

    pub sleep_self :
        (n : ℕ) → pos (suc n) ≢ int_max → Ends (uthread_sleep (pos (suc n)) s) (λ _ s'. Inv s')
    sleep_self n few =
        let t' = record t { state = sleep; sleep_quantum = pos (suc (suc n)) } in
        let h' = (dozes n).heap in
        let r = s.running_thread in
        let agree : Agree s.heap h' r = λ q ne. ground arith in
        let now : h' r ≡ some t' = ground arith in
        rw (sleep-eq n few) (
          switch-Inv (dozes n)
            (self-Core s i t at is known live t' h' agree now refl s.blocked_threads _
              (self-blocked s i t at is known live t' h' agree now refl) i.core.blocked_distinct
              (All-insert (Asleep h' s.threads) t.id r s.sleeping_threads
                (t', suc n, now, refl, refl, known, live, refl)
                (self-sleeping s i t at is known live t' h' agree now refl))
              (insert-UniqueKeys t.id r s.sleeping_threads not_asleep i.core.sleeping_unique))
            (t', now, known, inr (inr (refl, live, other))) (t', now, inr (n, refl)))
