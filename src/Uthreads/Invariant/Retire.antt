-- ===== src/Uthreads/Invariant/Retire.antt =====
-- `retire`, the part of `schedule_handler` in Uthreads_Library/uthreads.cpp that takes a running
-- thread which ended itself out of `threads`.
use operating_systems.Base.{
  ℕ, ℤ, pos, pred_ℤ, ◌==ℤ◌, ==ℤ→eq, ==ℤ_refl, ◌≡◌, ◌≢◌, refl, sym, ◌∙◌, subst, ◌⊎◌, inl, inr, Bool,
  Bool-cases, true, false, ◌||◌, some, List, [], All, All-mono, arith,
}
use operating_systems.Uthreads.Containers.{find, insert, erase}
use operating_systems.Uthreads.Containers.Laws.{
  find-erase, erase-UniqueKeys, length-erase, All-erase,
}
use operating_systems.Uthreads.Machine.{
  ThreadState, is_running, is_ready, is_blocked, is_sleep, Thread, Globals, returned,
}
use operating_systems.Uthreads.Scheduler.{retire}
use operating_systems.Uthreads.Invariant.{Has, Zombies, is_waiting, IsId, Core, Ends}
use operating_systems.Uthreads.Invariant.Switching.{Alive, Parked}
use operating_systems.Uthreads.Invariant.Dispatch.{Dispatchable}

-- What the handler finds of the thread that called it: it goes on, or has ended itself, or has
-- blocked itself or gone to sleep. The main thread does none of the last three.
abbrev pub Caller : Thread → Type 0
Caller t =
    ((is_running t.state ≡ true) × (t.terminated ≡ false))
    ⊎ ((is_running t.state ≡ true) × (t.terminated ≡ true) × (t.id ≢ pos 0))
    ⊎ ((is_blocked t.state || is_sleep t.state ≡ true) × (t.terminated ≡ false) × (t.id ≢ pos 0))

abbrev pub Calls : Globals → Type 0
Calls s =
    (t : Thread) × (s.heap s.running_thread ≡ some t)
    × (find t.id s.threads ≡ some s.running_thread)
    × Caller t

-- What `retire` leaves of a state in which `t` ended itself.
abbrev retired : Globals → Thread → Globals
retired s t = record s {
  termination = insert t.id s.running_thread s.termination;
  threads = erase t.id s.threads;
  threads_cur_number = pred_ℤ s.threads_cur_number;
}

module _ (s : Globals) (c : Core s) (none_left : s.termination ≡ []) (t : Thread)
    (at : s.heap s.running_thread ≡ some t)
    (known : find t.id s.threads ≡ some s.running_thread) where
  retire-eq : t.terminated ≡ true → retire s ≡ returned tt (retired s t)
  unfolding retire
  retire-eq h = ground arith

  retire-eq_live : t.terminated ≡ false → retire s ≡ returned tt s
  unfolding retire
  retire-eq_live h = ground arith

  live-Alive : t.terminated ≡ false → Alive s
  live-Alive live k q f =
      let (u, at', named, how) = c.registered k q f in
      elim how [
        | inl (l, stopped) ↦ (u, at', named, l, inl stopped)
        | inr e ↦ (u, at', named, ground (arith, at, at', e), inr e)
      ]

  blocked-Parked : t.terminated ≡ false → is_blocked t.state || is_sleep t.state ≡ true → Parked s
  blocked-Parked live is k q f =
      let (u, at', named, how) = c.registered k q f in
      elim how [
        | inl (l, stopped) ↦ (u, at', named, l, stopped)
        | inr e ↦ (u, at', named, ground (arith, at, at', e), ground (arith, at, at', e))
      ]

  module _ (is : is_running t.state ≡ true) (dead : t.terminated ≡ true)
      (other : t.id ≢ pos 0) where
    erased : (j : ℤ) → j ≢ t.id → find j (erase t.id s.threads) ≡ find j s.threads
    erased j ne = ground (arith, find-erase t.id j s.threads c.unique_ids, ==ℤ→eq t.id j)

    live-ne :
        (q : ℕ) (u : Thread)
        → find u.id s.threads ≡ some q
        → s.heap q ≡ some u
        → u.terminated ≡ false
        → u.id ≢ t.id
    live-ne q u f e live same =
        let f' : find t.id s.threads ≡ some q = subst (λ i. find i s.threads ≡ some q) same f in
        ground (arith, f', known, e, at, live, dead)

    retired-Has :
        (ok : ThreadState → Bool) (xs : List ℕ)
        → All (Has s.heap s.threads ok) xs
        → All (Has s.heap (erase t.id s.threads) ok) xs
    retired-Has ok xs =
        All-mono xs
          λ q (u, at', is', f, live). (u, at', is', erased u.id (live-ne q u f at' live) ∙ f, live)

    retired-Parked : Parked (retired s t)
    retired-Parked k q f = elim (Bool-cases (t.id ==ℤ k)) [
      | inl e ↦
          absurd (let g = find-erase t.id k s.threads c.unique_ids in let g' = rw e at g in cc)
      | inr e ↦
          let ne : k ≢ t.id = λ m. (let l = ==ℤ_refl t.id in ground (arith, l, m)) in
          let (u, at', named, how) = c.registered k q (sym (erased k ne) ∙ f) in
          elim how [
            | inl (l, stopped) ↦ (u, at', named, l, stopped)
            | inr m ↦ absurd (ne (ground (arith, at, at', m)))
          ]
    ]

    retired-Dispatchable : Dispatchable (retired s t)
    unfolding insert
    retired-Dispatchable = record {
      core = record {
        registered = λ k q f.
            let (u, at', named, live, stopped) = retired-Parked k q f in
            (u, at', named, inl (live, stopped));
        unique_ids = erase-UniqueKeys t.id s.threads c.unique_ids;
        ids = All-erase IsId t.id s.threads c.ids;
        counted = ground (arith, c.counted, length-erase t.id s.running_thread s.threads);
        ready_ok = retired-Has is_ready s.ready_queue c.ready_ok;
        ready_distinct = c.ready_distinct;
        blocked_ok = retired-Has is_waiting s.blocked_threads c.blocked_ok;
        blocked_distinct = c.blocked_distinct;
        sleeping_ok =
            All-mono s.sleeping_threads
              (λ e (u, n, at', is', named, f, live, left).
                (u, n, at', is', named, erased u.id (live-ne e.1 u f at' live) ∙ f, live, left))
              c.sleeping_ok;
        sleeping_unique = c.sleeping_unique;
        zombies =
            subst (λ z. Zombies s.heap (erase t.id s.threads) (insert t.id s.running_thread z))
              (sym none_left)
              (
                t,
                at,
                is,
                refl,
                other,
                (λ e.
                    (let g = find-erase t.id t.id s.threads c.unique_ids in
                      ground (arith, g, ==ℤ_refl t.id))),
                dead,
              );
        fresh = c.fresh;
        temp_empty = c.temp_empty;
        delete_empty = c.delete_empty;
        waking_empty = c.waking_empty;
        installed = c.installed;
        main_ok = (c.main_ok.0, erased (pos 0) (λ e. other (sym e)) ∙ c.main_ok.1, c.main_ok.2);
      };
      alive = λ k q f.
          let (u, at', named, live, stopped) = retired-Parked k q f in
          (u, at', named, live, inl stopped);
      current = (t, at, inr (ground arith, other, retired-Parked));
    }

pub retire-Dispatchable :
    (s : Globals)
    → Core s
    → s.termination ≡ []
    → Calls s
    → Ends (retire s) (λ _ s'. Dispatchable s')
retire-Dispatchable s c empty (t, at, known, inl (is, live)) =
    rw (retire-eq_live s c empty t at known live) (record {
      core = c;
      alive = live-Alive s c empty t at known live;
      current = (t, at, inl (is, known, live));
    })
retire-Dispatchable s c empty (t, at, known, inr (inl (is, dead, other))) =
    rw (retire-eq s c empty t at known dead)
      (retired-Dispatchable s c empty t at known is dead other)
retire-Dispatchable s c empty (t, at, known, inr (inr (is, live, other))) =
    rw (retire-eq_live s c empty t at known live) (record {
      core = c;
      alive = live-Alive s c empty t at known live;
      current = (t, at, inr (ground arith, other, blocked-Parked s c empty t at known live is));
    })
