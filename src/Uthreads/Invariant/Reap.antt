-- ===== src/Uthreads/Invariant/Reap.antt =====
-- `reap`, the part of `schedule_handler` in Uthreads_Library/uthreads.cpp that deletes the thread
-- which ended itself one quantum ago.
use operating_systems.Base.{
  ℕ, ℤ, pos, ◌≡◌, ◌≢◌, refl, ◌∙◌, Bool, true, false, Option, none, some, List, [], ◌∷◌, All,
  All-mono, arith,
}
use operating_systems.Uthreads.Containers.{find}
use operating_systems.Uthreads.Machine.{
  ThreadState, is_running, is_ready, Thread, Globals, returned, update, Os, Works,
}
use operating_systems.Uthreads.Scheduler.{drop_stack, delete_all, reap}
use operating_systems.Uthreads.Invariant.{Has, Zombies, is_waiting, Core, Ends}
use operating_systems.Uthreads.Invariant.Frame.{
  Agree, Has-frame_ne, Has-ne_dead, Asleep-frame_ne, Asleep-ne_dead, fresh-frame,
}
use operating_systems.Uthreads.Invariant.Retire.{Calls}
use operating_systems.Uthreads.Invariant.Delete.{
  Valid, without_first, All-without_first, Distinct-without_first, delete_thread-eq,
}

pub Has-Valid :
    (h : ℕ → Option Thread) (ts : List (ℤ × ℕ)) (ok : ThreadState → Bool) (xs : List ℕ)
    → All (Has h ts ok) xs
    → Valid h xs
Has-Valid h ts ok xs = All-mono xs (λ q has. (has.0, has.1))

-- What `delete_thread` leaves of a thread that ended itself.
abbrev buried : Globals → ℕ → Thread → Globals
buried s p d = record s {
  blocked_threads = without_first s.heap d.id s.blocked_threads;
  stacks = drop_stack d.stack s.stacks;
  heap = update s.heap p none;
  termination = [];
  masked = false;
}

module _ (s : Globals) (c : Core s) (k : ℤ) (p : ℕ) (e : s.termination ≡ (k, p) ∷ []) (d : Thread)
    (at : s.heap p ≡ some d) (is : is_running d.state ≡ true) (other : d.id ≢ pos 0)
    (unknown : find d.id s.threads ≢ some p) (dead : d.terminated ≡ true) where
  reap-eq : ⦃os : Os⦄ (w : Works os) → reap s ≡ returned tt (buried s p d)
  unfolding reap delete_all
  reap-eq w = ground (
    arith,
    delete_thread-eq w s p d at other
        (Has-Valid s.heap s.threads is_waiting s.blocked_threads c.blocked_ok)
        (Has-Valid s.heap s.threads is_ready s.ready_queue c.ready_ok) c.delete_empty,
  )

  buried-Agree : Agree s.heap (buried s p d).heap p
  buried-Agree q ne = ground arith

  -- What `threads` knows of is not the thread that is deleted.
  known-ne : (j : ℤ) (q : ℕ) → find j s.threads ≡ some q → q ≢ p
  known-ne j q f here =
      let (u, at', named, how) = c.registered j q f in ground (arith, at, at', named, f, here)

  buried-Core : Core (buried s p d)
  buried-Core =
      let h' = (buried s p d).heap in
      let blocked =
        All-without_first (Has s.heap s.threads is_waiting) s.heap d.id s.blocked_threads
          c.blocked_ok in
      record {
        registered = λ j q f.
            let (u, at', named, how) = c.registered j q f in
            (u, buried-Agree q (known-ne j q f) ∙ at', named, how);
        unique_ids = c.unique_ids;
        ids = c.ids;
        counted = c.counted;
        ready_ok =
            Has-frame_ne s.heap h' s.threads p buried-Agree is_ready s.ready_queue
              (Has-ne_dead s.heap h' s.threads p buried-Agree d at is_ready s.ready_queue dead
                c.ready_ok)
              c.ready_ok;
        ready_distinct = c.ready_distinct;
        blocked_ok =
            Has-frame_ne s.heap h' s.threads p buried-Agree is_waiting _
              (Has-ne_dead s.heap h' s.threads p buried-Agree d at is_waiting _ dead blocked)
              blocked;
        blocked_distinct = Distinct-without_first s.heap d.id s.blocked_threads c.blocked_distinct;
        sleeping_ok =
            Asleep-frame_ne s.heap h' s.threads p buried-Agree s.sleeping_threads
              (Asleep-ne_dead s.heap h' s.threads p buried-Agree d at s.sleeping_threads dead
                c.sleeping_ok)
              c.sleeping_ok;
        sleeping_unique = c.sleeping_unique;
        zombies = tt;
        fresh = fresh-frame s.heap h' s.threads p buried-Agree d at s.next c.fresh;
        temp_empty = c.temp_empty;
        delete_empty = c.delete_empty;
        waking_empty = c.waking_empty;
        installed = c.installed;
        main_ok = c.main_ok;
      }

  buried-Calls : Calls s → Calls (buried s p d)
  buried-Calls (t, at', known, how) =
      (t, buried-Agree s.running_thread (known-ne t.id s.running_thread known) ∙ at', known, how)

-- The state in which `retire` starts.
abbrev pub Reaped : Globals → Type 0
Reaped s = Core s × (s.termination ≡ []) × Calls s

pub reap-Reaped :
    ⦃os : Os⦄ (w : Works os) (s : Globals) (z : List (ℤ × ℕ))
    → s.termination ≡ z
    → Zombies s.heap s.threads z
    → Core s
    → Calls s
    → Ends (reap s) (λ _ s'. Reaped s')
unfolding reap delete_all
reap-Reaped w s [] e z c call = rw e (c-empty, refl, call)
  where
    c-empty : Core (record s { termination = [] })
    c-empty = record {
      registered = c.registered;
      unique_ids = c.unique_ids;
      ids = c.ids;
      counted = c.counted;
      ready_ok = c.ready_ok;
      ready_distinct = c.ready_distinct;
      blocked_ok = c.blocked_ok;
      blocked_distinct = c.blocked_distinct;
      sleeping_ok = c.sleeping_ok;
      sleeping_unique = c.sleeping_unique;
      zombies = tt;
      fresh = c.fresh;
      temp_empty = c.temp_empty;
      delete_empty = c.delete_empty;
      waking_empty = c.waking_empty;
      installed = c.installed;
      main_ok = c.main_ok;
    }
reap-Reaped w s ((k, p) ∷ []) e (d, at, is, named, other, unknown, dead) c call =
    rw (reap-eq s c k p e d at is other unknown dead w) (
      buried-Core s c k p e d at is other unknown dead,
      refl,
      buried-Calls s c k p e d at is other unknown dead call,
    )
reap-Reaped w s (x ∷ y ∷ z) e h c call = elim h [ ]
