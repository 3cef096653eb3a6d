-- ===== src/Uthreads/Invariant/Spawning.antt =====
-- `uthread_spawn` in Uthreads_Library/uthreads.cpp.
use native.Mathlib.Decide.{ℕ_discrete}
use operating_systems.Base.{
  ℕ, zero, suc, ◌+◌, ◌≤◌, ◌<◌, ℤ, pos, suc_ℤ, ltb_ℤ, ◌==ℤ◌, ==ℤ→eq, ==ℤ_refl, ◌≡◌, ◌≢◌, refl, ◌∙◌,
  subst, ◌⊎◌, inl, inr, Bool, Bool-cases, true, false, Option, Option-cases, none, some, List, [],
  ◌∷◌, ◌++◌, All, All-mono, All-snoc, Distinct-snoc, In-snoc_left, arith,
}
use operating_systems.Uthreads.Containers.{find, insert}
use operating_systems.Uthreads.Containers.Laws.{
  find-insert, insert-UniqueKeys, length-insert, All-insert, all_found-length,
}
use operating_systems.Uthreads.Machine.{
  ThreadState, is_running, is_ready, Thread, Globals, returned, update, Os, Works, block, unblock,
}
use operating_systems.Uthreads.Api.{addthread_from, addthread, new_thread, uthread_spawn}
use operating_systems.Uthreads.Invariant.{Has, Zombies, is_waiting, IsId, Inv, Ends}
use operating_systems.Uthreads.Invariant.Frame.{Agree}

-- What `addthread` leaves when it gives the id `j` to the thread `t` that `p` points to.
abbrev pub added : Globals → ℕ → ℕ → Thread → Globals
added s j p t = record s {
  heap = update s.heap p (some (record t { id = pos j }));
  threads = insert (pos j) p s.threads;
  threads_cur_number = suc_ℤ s.threads_cur_number;
  masked = false;
}

-- `j` is the first id from `i` on that `threads` does not know.
abbrev pub IsLeastFree : Globals → ℕ → ℕ → Type 0
IsLeastFree s i j =
    (i ≤ j)
    × (find (pos j) s.threads ≡ none)
    × ((m : ℕ) → i ≤ m → m < j → find (pos m) s.threads ≢ none)

module _ ⦃os : Os⦄ (w : Works os) where
  addthread_from-cases :
      (left i p : ℕ) (s : Globals) (t : Thread)
      → s.heap p ≡ some t
      → ((j : ℕ) × (j < i + left)
          × IsLeastFree s i j
          × (addthread_from left i p s ≡ returned tt (added s j p t)))
        ⊎ ((m : ℕ) → i ≤ m → m < i + left → find (pos m) s.threads ≢ none)
  unfolding addthread_from unblock
  addthread_from-cases zero i p s t at = inr (λ m a b. absurd (omega arith))
  addthread_from-cases (suc left) i p s t at = elim (Option-cases (find (pos i) s.threads)) [
    | inl e ↦
        inl (i, omega arith, (omega arith, e, (λ m a b. absurd (omega arith))), ground (arith, e))
    | inr (q, e) ↦ elim (addthread_from-cases left (i + 1) p s t at) [
      | inl (j, below, (above, free, all), r) ↦
          inl (j, omega arith, (omega arith, free, later j q e all), ground (arith, e, r))
      | inr all ↦ inr (later (i + suc left) q e λ m a b. all m a (omega arith))
    ]
  ]
    where
      later :
          (j q : ℕ)
          → find (pos i) s.threads ≡ some q
          → ((m : ℕ) → i + 1 ≤ m → m < j → find (pos m) s.threads ≢ none)
          → (m : ℕ) → i ≤ m
          → m < j
          → find (pos m) s.threads ≢ none
      later j q e all m a b = elim (ℕ_discrete i m) [
        | yes here ↦ λ n. (let e' = subst (λ k. find (pos k) s.threads ≡ some q) here e in cc)
        | no other ↦ all m (omega arith) b
      ]

-- A new thread `t'`, ready, at the fresh address.
module _ (s : Globals) (i : Inv s) (j : ℕ) (free : find (pos j) s.threads ≡ none) (small : j < 100)
    (t' : Thread) (h' : ℕ → Option Thread) (agree : Agree s.heap h' s.next)
    (now : h' s.next ≡ some t') (named : t'.id ≡ pos j) (is : is_ready t'.state ≡ true)
    (live : t'.terminated ≡ false) where
  abbrev grown : List (ℤ × ℕ)
  grown = insert (pos j) s.next s.threads

  old-ne : (q : ℕ) (u : Thread) → s.heap q ≡ some u → q ≢ s.next
  old-ne q u at here = (let n = i.core.fresh s.next (omega arith) in ground (arith, n, at, here))

  grown-find : (k : ℤ) (q : ℕ) → find k s.threads ≡ some q → find k grown ≡ some q
  grown-find k q f = ground (arith, find-insert (pos j) k s.next s.threads free, ==ℤ→eq (pos j) k)

  grown-own : find (pos j) grown ≡ some s.next
  grown-own = ground (arith, find-insert (pos j) (pos j) s.next s.threads free, ==ℤ_refl (pos j))

  grown-Has :
      (ok : ThreadState → Bool) (xs : List ℕ)
      → All (Has s.heap s.threads ok) xs
      → All (Has h' grown ok) xs × All (λ y. y ≢ s.next) xs
  grown-Has ok xs a = (
    All-mono xs
        (λ q (u, at, is', f, l). (u, agree q (old-ne q u at) ∙ at, is', grown-find u.id q f, l)) a,
    All-mono xs (λ q (u, at, is', f, l). old-ne q u at) a,
  )

  grown-Zombies : (z : List (ℤ × ℕ)) → Zombies s.heap s.threads z → Zombies h' grown z
  grown-Zombies [] h = tt
  grown-Zombies (e ∷ []) (u, at, is', named', other, unknown, dead) =
      let ne = old-ne e.1 u at in (u, agree e.1 ne ∙ at, is', named', other, absent ne, dead)
    where
      absent : e.1 ≢ s.next → find u.id grown ≢ some e.1
      absent ne m = elim (Bool-cases (pos j ==ℤ u.id)) [
        | inl same ↦
            (let g = find-insert (pos j) u.id s.next s.threads free in ground (arith, g, m, same))
        | inr differs ↦
            (let g = find-insert (pos j) u.id s.next s.threads free in
              ground (arith, g, m, differs))
      ]
  grown-Zombies (e ∷ e' ∷ z) h = h

  spawned-Inv :
      (stacks' : List ℕ)
      → Inv (record s {
        heap = h';
        stacks = stacks';
        next = suc s.next;
        threads = grown;
        threads_cur_number = suc_ℤ s.threads_cur_number;
        ready_queue = s.ready_queue ++ s.next ∷ [];
        masked = false;
      })
  spawned-Inv stacks' =
      let c = i.core in
      let (ro, rn) = grown-Has is_ready s.ready_queue c.ready_ok in
      let (r, at_r, is_r, known_r, live_r) = i.current in
      record {
        core = record {
          registered = registered-after;
          unique_ids = insert-UniqueKeys (pos j) s.next s.threads free c.unique_ids;
          ids = All-insert IsId (pos j) s.next s.threads (j, refl, small) c.ids;
          counted = ground (arith, c.counted, length-insert (pos j) s.next s.threads free);
          ready_ok =
              All-snoc (Has h' grown is_ready) s.ready_queue s.next ro
                (t', now, is, rw named grown-own, live);
          ready_distinct = Distinct-snoc s.ready_queue s.next rn c.ready_distinct;
          blocked_ok = (grown-Has is_waiting s.blocked_threads c.blocked_ok).0;
          blocked_distinct = c.blocked_distinct;
          sleeping_ok =
              All-mono s.sleeping_threads
                (λ e (u, n, at, is', named', f, l, more). (
                  u,
                  n,
                  agree e.1 (old-ne e.1 u at) ∙ at,
                  is',
                  named',
                  grown-find u.id e.1 f,
                  l,
                  more,
                ))
                c.sleeping_ok;
          sleeping_unique = c.sleeping_unique;
          zombies = grown-Zombies s.termination c.zombies;
          fresh = λ q le. agree q (λ here. absurd (omega arith)) ∙ c.fresh q (omega arith);
          temp_empty = c.temp_empty;
          delete_empty = c.delete_empty;
          waking_empty = c.waking_empty;
          installed = c.installed;
          main_ok = (
            c.main_ok.0,
            grown-find (pos 0) c.main_ok.0 c.main_ok.1,
            elim c.main_ok.2 [
              | inl m ↦ inl m
              | inr m ↦ inr (In-snoc_left c.main_ok.0 s.ready_queue s.next m)
            ],
          );
        };
        current = (
          r,
          agree s.running_thread (old-ne s.running_thread r at_r) ∙ at_r,
          is_r,
          grown-find r.id s.running_thread known_r,
          live_r,
        );
        unmasked = refl;
      }
    where
      registered-after :
          (k : ℤ) (q : ℕ)
          → find k grown ≡ some q
          → (t : Thread) × (h' q ≡ some t)
            × (t.id ≡ k)
            × ((t.terminated ≡ false) × (is_running t.state ≡ false) ⊎ (q ≡ s.running_thread))
      registered-after k q f = elim (Bool-cases (pos j ==ℤ k)) [
        | inl e ↦
            let here : q ≡ s.next =
              (let g = find-insert (pos j) k s.next s.threads free in ground (arith, g, f, e)) in
            (t', rw here now, named ∙ ==ℤ→eq (pos j) k e, inl (live, ground arith))
        | inr e ↦
            let f' : find k s.threads ≡ some q =
              (let g = find-insert (pos j) k s.next s.threads free in ground (arith, g, f, e)) in
            let (u, at, named', how) = i.core.registered k q f' in
            (u, agree q (old-ne q u at) ∙ at, named', how)
      ]

-- `uthread_spawn` with an entry point and room for a thread.
module _ ⦃os : Os⦄ (w : Works os) (s : Globals) (i : Inv s) (entry_point : ℕ) where
  abbrev fresh_thread : Thread
  fresh_thread = new_thread (os.new_stack s.next) entry_point

  abbrev pub allocated : Globals
  allocated = record s {
    masked = true;
    stacks = os.new_stack s.next ∷ s.stacks;
    heap = update s.heap s.next (some fresh_thread);
    next = suc s.next;
  }

  -- The thread as `uthread_spawn` leaves it.
  abbrev spawned_thread : ℕ → Thread
  spawned_thread j = record fresh_thread {
    id = pos j;
    env = record {
      jb_sp = os.translate_address fresh_thread.sp;
      jb_pc = os.translate_address fresh_thread.pc;
    };
  }

  abbrev spawned_heap : ℕ → ℕ → Option Thread
  spawned_heap j =
      update
        (update (update s.heap s.next (some fresh_thread)) s.next
          (some (record fresh_thread { id = pos j })))
        s.next (some (spawned_thread j))

  abbrev pub spawned : ℕ → Globals
  spawned j = record s {
    heap = spawned_heap j;
    stacks = os.new_stack s.next ∷ s.stacks;
    next = suc s.next;
    threads = insert (pos j) s.next s.threads;
    threads_cur_number = suc_ℤ s.threads_cur_number;
    ready_queue = s.ready_queue ++ s.next ∷ [];
    masked = false;
  }

  module _ (given : entry_point ≢ 0) (room : ltb_ℤ s.threads_cur_number (pos 100) ≡ true) where
    spawn-eq :
        (j : ℕ)
        → addthread_from 100 0 s.next allocated
          ≡ returned tt (added allocated j s.next fresh_thread)
        → uthread_spawn entry_point s ≡ returned (pos j) (spawned j)
    unfolding uthread_spawn addthread block unblock
    spawn-eq j e = ground (arith, e)

    -- Where `sigprocmask` succeeds: `uthread_spawn` with an entry point, in a state that meets the
    -- invariant and while `threads_cur_number` is below 100, gives the new thread the least id
    -- from 0 on that no thread has, and returns it; the thread is in `threads` under that id and
    -- counted, and is last in `ready_queue`; besides the new objects no other global variable
    -- changes.
    pub spawn-least :
        (j : ℕ) × (j < 100)
        × IsLeastFree s 0 j
        × (uthread_spawn entry_point s ≡ returned (pos j) (spawned j))
    unfolding new_thread
    spawn-least = elim (addthread_from-cases w 100 0 s.next allocated fresh_thread (ground arith)) [
      | inl (j, below, least, r) ↦ (j, omega arith, least, spawn-eq j r)
      | inr all ↦ absurd (
          let many =
            all_found-length 100 s.threads i.core.unique_ids (λ m b. all m (omega arith) b) in
          let c = i.core.counted in ground (arith, many, c, room))
    ]

    pub spawn_new : Ends (uthread_spawn entry_point s) (λ _ s'. Inv s')
    unfolding new_thread
    spawn_new =
        let (j, below, (_, free, _), r) = spawn-least in
        rw r (
          spawned-Inv s i j free below (spawned_thread j) (spawned_heap j) (λ q ne. ground arith)
            (ground arith) refl refl refl (os.new_stack s.next ∷ s.stacks))
