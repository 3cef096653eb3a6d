-- ===== src/Uthreads/Invariant/Switching.antt =====
-- The calls of `schedule_handler` of Uthreads_Library/uthreads.cpp that choose the next thread, one by one.
use operating_systems.Base.{
  ℕ, ◌+◌, ℤ, pos, ◌≡◌, refl, subst, ◌⊎◌, inl, Bool, true, false, ◌||◌, Option, some, List, [], ◌∷◌,
  ◌++◌, All, Distinct, In, arith,
}
use operating_systems.Uthreads.Containers.{find}
use operating_systems.Uthreads.Machine.{
  running, ready, is_running, is_ready, is_blocked, is_sleep, is_sleep_block, Thread, Globals,
  returned, update, Os, Works, unblock,
}
use operating_systems.Uthreads.Scheduler.{pop_ready, switch_thread, keep_running, requeue, dispatch}
use operating_systems.Uthreads.Invariant.Frame.{
  Agree, Has-frame_ne, Has-frame, Asleep-frame, Zombies-frame, fresh-frame, registered-frame,
}
use operating_systems.Uthreads.Invariant.{Has, is_waiting, Core, Inv}

-- Every thread that `threads` knows is alive, and only `running_thread` may be in state RUNNING.
abbrev pub Alive : Globals → Type 0
Alive s =
    (k : ℤ) (p : ℕ)
    → find k s.threads ≡ some p
    → (t : Thread) × (s.heap p ≡ some t)
      × (t.id ≡ k)
      × (t.terminated ≡ false)
      × ((is_running t.state ≡ false) ⊎ (p ≡ s.running_thread))

-- Every thread that `threads` knows is alive, and none is in state RUNNING.
abbrev pub Parked : Globals → Type 0
Parked s =
    (k : ℤ) (p : ℕ)
    → find k s.threads ≡ some p
    → (t : Thread) × (s.heap p ≡ some t)
      × (t.id ≡ k)
      × (t.terminated ≡ false)
      × (is_running t.state ≡ false)

abbrev started : Thread → Thread
started t = record t { quantum = t.quantum + 1; state = running }

-- What `switch_thread` leaves when `p` is the first of the ready threads.
abbrev switched : Globals → ℕ → List ℕ → Thread → Globals
switched s p ps t = record s {
  running_thread = p;
  ready_queue = ps;
  heap =
      update (update s.heap p (some (record t { quantum = t.quantum + 1 }))) p (some (started t));
  quantums_number = s.quantums_number + 1;
  masked = false;
}

module _ ⦃os : Os⦄ (w : Works os) where
  pub switch_thread-eq :
      (s : Globals) (p : ℕ) (ps : List ℕ) (t : Thread)
      → s.ready_queue ≡ p ∷ ps
      → s.heap p ≡ some t
      → switch_thread s ≡ returned tt (switched s p ps t)
  unfolding switch_thread pop_ready unblock
  switch_thread-eq s p ps t e h = ground arith

pub switched-Inv :
    (s : Globals) (p : ℕ) (ps : List ℕ) (t : Thread)
    → Core s
    → Parked s
    → s.ready_queue ≡ p ∷ ps
    → s.heap p ≡ some t
    → is_ready t.state ≡ true
    → find t.id s.threads ≡ some p
    → t.terminated ≡ false
    → (p0 : ℕ) × (find (pos 0) s.threads ≡ some p0) × In p0 (p ∷ ps)
    → Inv (switched s p ps t)
switched-Inv s p ps t c parked e at is known live main = record {
  core = record {
    registered = λ k q f.
        let (u, at', named, live', stopped) = parked k q f in
        registered-frame s.heap h' s.threads p agree t at (started t) now refl k q
          (u, at', named, live', inl stopped);
    unique_ids = c.unique_ids;
    ids = c.ids;
    counted = c.counted;
    ready_ok = Has-frame_ne s.heap h' s.threads p agree is_ready ps distinct.0 readies.1;
    ready_distinct = distinct.1;
    blocked_ok =
        Has-frame s.heap h' s.threads p agree t at is_waiting s.blocked_threads (ground arith)
          c.blocked_ok;
    blocked_distinct = c.blocked_distinct;
    sleeping_ok =
        Asleep-frame s.heap h' s.threads p agree t at s.sleeping_threads (ground arith)
          c.sleeping_ok;
    sleeping_unique = c.sleeping_unique;
    zombies = Zombies-frame s.heap h' s.threads p agree t at s.termination live c.zombies;
    fresh = fresh-frame s.heap h' s.threads p agree t at s.next c.fresh;
    temp_empty = c.temp_empty;
    delete_empty = c.delete_empty;
    waking_empty = c.waking_empty;
    installed = c.installed;
    main_ok = main;
  };
  current = (started t, now, refl, known, live);
  unmasked = refl;
}
  where
    h' : ℕ → Option Thread
    h' = (switched s p ps t).heap

    agree : Agree s.heap h' p
    agree q other = ground arith

    now : h' p ≡ some (started t)
    now = ground arith

    readies : All (Has s.heap s.threads is_ready) (p ∷ ps)
    readies = subst (All (Has s.heap s.threads is_ready)) e c.ready_ok

    distinct : Distinct (p ∷ ps)
    distinct = subst Distinct e c.ready_distinct

-- What `requeue` leaves of a running thread `t`.
abbrev pub requeued : Globals → Thread → Globals
requeued s t = record s {
  heap = update s.heap s.running_thread (some (record t { state = ready }));
  ready_queue = s.ready_queue ++ s.running_thread ∷ [];
}

-- What `keep_running` leaves of it.
abbrev kept : Globals → Thread → Globals
kept s t = record s {
  heap = update s.heap s.running_thread (some (record t { quantum = t.quantum + 1 }));
  quantums_number = s.quantums_number + 1;
  masked = false;
}

-- The running thread cannot go on.
abbrev pub is_suspended : Thread → Bool
is_suspended t = t.terminated || is_sleep t.state || is_blocked t.state || is_sleep_block t.state

module _ ⦃os : Os⦄ (w : Works os) (s : Globals) (t : Thread)
    (at : s.heap s.running_thread ≡ some t) where
  pub dispatch-suspended : is_suspended t ≡ true → dispatch s ≡ switch_thread s
  unfolding dispatch
  dispatch-suspended h = ground arith

  module _ (is : is_running t.state ≡ true) (live : t.terminated ≡ false) where
    pub dispatch-kept : s.ready_queue ≡ [] → dispatch s ≡ returned tt (kept s t)
    unfolding dispatch keep_running unblock
    dispatch-kept e = ground arith

    pub dispatch-requeued :
        (p : ℕ) (ps : List ℕ)
        → s.ready_queue ≡ p ∷ ps
        → find t.id s.threads ≡ some s.running_thread
        → dispatch s ≡ switch_thread (requeued s t)
    unfolding dispatch requeue
    dispatch-requeued p ps e known = ground arith
