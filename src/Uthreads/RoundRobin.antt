-- ===== src/Uthreads/RoundRobin.antt =====
-- The order in which `schedule_handler` of Uthreads_Library/uthreads.cpp runs the ready threads.
use mathlib.Core.List.{append_assoc}
use operating_systems.Base.{
  ℕ, zero, suc, ◌+◌, ◌≡◌, refl, ◌∙◌, subst, true, false, some, List, [], ◌∷◌, ◌++◌, length, All,
  arith,
}
use operating_systems.Uthreads.Machine.{
  running, ready, is_ready, Thread, Globals, returned, M, pure, ◌>>◌, update, Os, Works, block,
  unblock,
}
use operating_systems.Uthreads.Scheduler.{
  wake_all, erase_all, wake_sleepers, delete_all, reap, retire, requeue, pop_ready, switch_thread,
  dispatch, schedule_handler,
}
use operating_systems.Uthreads.Invariant.{Has, Inv, Ends}
use operating_systems.Uthreads.Invariant.Caller.{tick-Inv}

module _ ⦃os : Os⦄ where
  -- The timer calls the handler `n` times.
  unfoldable pub ticks : ℕ → M (Unit {0})
  ticks zero = pure tt
  ticks (suc n) = schedule_handler >> ticks n

  -- No thread sleeps, and none has ended itself since the last switch.
  abbrev pub Quiet : Globals → Type 0
  Quiet s = (s.sleeping_threads ≡ []) × (s.termination ≡ [])

  -- After a tick the first ready thread runs, and the one that ran is last.
  abbrev rotated : Globals → Thread → ℕ → Thread → List ℕ → Globals
  rotated s t p u ps = record s {
    heap =
        update
          (update (update s.heap s.running_thread (some (record t { state = ready }))) p
            (some (record u { quantum = u.quantum + 1 })))
          p (some (record u { quantum = u.quantum + 1; state = running }));
    running_thread = p;
    ready_queue = ps ++ s.running_thread ∷ [];
    quantums_number = s.quantums_number + 1;
    masked = false;
  }

  module _ (w : Works os) where
    tick-rotated :
        (s : Globals) (i : Inv s) (p : ℕ) (ps : List ℕ) (u : Thread)
        → Quiet s
        → s.ready_queue ≡ p ∷ ps
        → s.heap p ≡ some u
        → is_ready u.state ≡ true
        → schedule_handler s ≡ returned tt (rotated s i.current.0 p u ps)
    unfolding schedule_handler wake_sleepers wake_all erase_all reap delete_all retire dispatch
        requeue switch_thread pop_ready block unblock
    tick-rotated s i p ps u (sleepers, ended) e at' is' =
        let (t, at, is, known, live) = i.current in
        ground (arith, i.core.waking_empty, at, is, known, live, at', is', sleepers, ended, e)

    -- The head of the queue is a ready thread.
    head-ready :
        (s : Globals) (i : Inv s) (p : ℕ) (ps : List ℕ)
        → s.ready_queue ≡ p ∷ ps
        → (u : Thread) × (s.heap p ≡ some u) × (is_ready u.state ≡ true)
    head-ready s i p ps e =
        let ((u, at, is, _, _), _) =
          subst (All (Has s.heap s.threads is_ready)) e i.core.ready_ok in
        (u, at, is)

    -- Where `sigprocmask` succeeds: in a state that meets the invariant, where no thread sleeps
    -- and none is about to be deleted, a thread with k threads before it in `ready_queue` runs
    -- after k + 1 ticks of the timer, each of which returns; behind it are then the threads that
    -- were behind it, the one that ran, and those before it, in that order; and the quantums are k
    -- + 1 more.
    pub ticks-run :
        (before : List ℕ) (p : ℕ) (behind : List ℕ) (s : Globals)
        → Inv s
        → Quiet s
        → s.ready_queue ≡ before ++ p ∷ behind
        → (s' : Globals) × (ticks (suc (length before)) s ≡ returned tt s')
          × (s'.running_thread ≡ p)
          × (s'.ready_queue ≡ behind ++ s.running_thread ∷ before)
          × (s'.quantums_number ≡ s.quantums_number + suc (length before))
    unfolding ticks
    ticks-run [] p behind s i quiet e =
        let (u, at, is) = head-ready s i p behind e in
        let r = tick-rotated s i p behind u quiet e at is in
        (rotated s i.current.0 p u behind, rw r refl, refl, refl, refl)
    ticks-run (q ∷ before) p behind s i quiet e =
        let (u, at, is) = head-ready s i q (before ++ p ∷ behind) e in
        let r = tick-rotated s i q (before ++ p ∷ behind) u quiet e at is in
        let s1 = rotated s i.current.0 q u (before ++ p ∷ behind) in
        let i1 : Inv s1 = subst (λ o. Ends o (λ _ s'. Inv s')) r (tick-Inv w s i) in
        let (s', run, now, queue, count) =
          ticks-run before p (behind ++ s.running_thread ∷ []) s1 i1 quiet
            (append_assoc before (p ∷ behind) (s.running_thread ∷ [])) in
        (
          s',
          rw r run,
          now,
          queue ∙ append_assoc behind (s.running_thread ∷ []) (q ∷ before),
          omega arith,
        )
