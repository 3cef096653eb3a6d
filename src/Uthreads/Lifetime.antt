-- ===== src/Uthreads/Lifetime.antt =====
-- `uthread_spawn` and `uthread_terminate` of Uthreads_Library/uthreads.cpp, for all arguments.
use native.Mathlib.Decide.{ℕ_discrete}
use operating_systems.Base.{
  ℕ, ℤ, pos, ltb_ℤ, ◌==◌, ◌==ℤ◌, ==ℤ→eq, eq→==ℤ, ==ℤ_refl, ◌≡◌, ◌≢◌, refl, sym, ap, subst, ◌∙◌, inl,
  inr, Bool-cases, true, false, Option, Option-cases, none, some, List, [], ◌∷◌, All, arith,
}
use operating_systems.Uthreads.Containers.{find}
use operating_systems.Uthreads.Containers.Laws.{UniqueKeys, find-none-ne}
use operating_systems.Uthreads.Machine.{
  is_running, Thread, Globals, entry_ptr_err, max_thr_err, tid_err, returned, exited, fault,
  handed_over, update, Os, Works, block, unblock,
}
use operating_systems.Uthreads.Scheduler.{drop_stack}
use operating_systems.Uthreads.Api.{failed_lib, free_all, uthread_spawn, uthread_terminate}
use operating_systems.Uthreads.Invariant.{Inv, Ends}
use operating_systems.Uthreads.Invariant.Caller.{refused-Inv, terminate_self}
use operating_systems.Uthreads.Invariant.Others.{stopped-Has, running-Has}
use operating_systems.Uthreads.Invariant.Spawning.{spawn_new}
use operating_systems.Uthreads.Invariant.Terminating.{terminate_other}

-- The entries of `threads` point to threads of their keys.
abbrev Owned : (ℕ → Option Thread) → List (ℤ × ℕ) → Type 0
Owned h = All (λ e. (t : Thread) × (h e.1 ≡ some t) × (t.id ≡ e.0))

-- What is freed leaves the other entries as they were.
free-Owned :
    (h : ℕ → Option Thread) (k : ℤ) (p : ℕ) (t : Thread)
    → h p ≡ some t
    → t.id ≡ k
    → (fs : List (ℤ × ℕ)) → All (λ e. e.0 ≢ k) fs
    → Owned h fs
    → Owned (update h p none) fs
free-Owned h k p t at named [] n b = tt
free-Owned h k p t at named (f ∷ fs) n b =
    let (v, at', named') = b.0 in
    let ne : p ≢ f.1 = λ here. n.0 (ground (arith, at, at', named, named', here)) in
    ((v, ground (arith, at', ne), named'), free-Owned h k p t at named fs n.1 b.1)

-- Freeing one thread that does not run, and going on.
free_all-eq_main :
    (k : ℤ) (p : ℕ) (es : List (ℤ × ℕ)) (s : Globals) (t : Thread)
    → s.heap p ≡ some t
    → (t.id ==ℤ pos 0) ≡ true
    → free_all ((k, p) ∷ es) s ≡ free_all es (record s { heap = update s.heap p none })
unfolding free_all
free_all-eq_main k p es s t at e = ground arith

free_all-eq_other :
    (k : ℤ) (p : ℕ) (es : List (ℤ × ℕ)) (s : Globals) (t : Thread)
    → s.heap p ≡ some t
    → (t.id ==ℤ pos 0) ≡ false
    → p ≢ s.running_thread
    → free_all ((k, p) ∷ es) s
      ≡ free_all es (record s { stacks = drop_stack t.stack s.stacks; heap = update s.heap p none })
unfolding free_all
free_all-eq_other k p es s t at e ne = ground arith

free_all-eq_running :
    (k : ℤ) (p : ℕ) (es : List (ℤ × ℕ)) (s : Globals) (t : Thread)
    → s.heap p ≡ some t
    → (t.id ==ℤ pos 0) ≡ false
    → p ≡ s.running_thread
    → free_all ((k, p) ∷ es) s ≡ fault
unfolding free_all
free_all-eq_running k p es s t at e eq = ground arith

-- The main thread runs: every thread is freed.
free_all-returns :
    (es : List (ℤ × ℕ)) (s : Globals) (h : ℕ → Option Thread) (m : Thread)
    → UniqueKeys es
    → Owned s.heap es
    → Owned h es
    → h s.running_thread ≡ some m
    → m.id ≡ pos 0
    → (s' : Globals) × (free_all es s ≡ returned tt s')
      × ((q : ℕ) → s.heap q ≡ none → s'.heap q ≡ none)
      × All (λ e. s'.heap e.1 ≡ none) es
unfolding free_all
free_all-returns [] s h m u a b here main = (s, refl, (λ q n. n), tt)
free_all-returns ((k, p) ∷ es) s h m u a b here main =
    let (t, at, named) = a.0 in
    let (v, at', named') = b.0 in
    let apart = find-none-ne k es u.0 in
    elim (Bool-cases (t.id ==ℤ pos 0)) [
      | inl e ↦
          let (s', r, kept, all) =
            free_all-returns es (record s { heap = update s.heap p none }) h m u.1
              (free-Owned s.heap k p t at named es apart a.1) b.1 here main in
          (
            s',
            free_all-eq_main k p es s t at e ∙ r,
            (λ q n. kept q (ground arith)),
            (kept p (ground arith), all),
          )
      | inr e ↦
          let ne : p ≢ s.running_thread = λ is.
            (let eq : t.id ≡ pos 0 = ground (arith, at', here, named, named', main, is) in
              cc (eq→==ℤ t.id (pos 0) eq)) in
          let (s', r, kept, all) =
            free_all-returns es
              (record s { stacks = drop_stack t.stack s.stacks; heap = update s.heap p none }) h m
              u.1 (free-Owned s.heap k p t at named es apart a.1) b.1 here main in
          (
            s',
            free_all-eq_other k p es s t at e ne ∙ r,
            (λ q n. kept q (ground arith)),
            (kept p (ground arith), all),
          )
    ]

-- Another thread runs: its own stack is freed.
free_all-fault :
    (es : List (ℤ × ℕ)) (s : Globals) (t : Thread)
    → UniqueKeys es
    → Owned s.heap es
    → s.heap s.running_thread ≡ some t
    → t.id ≢ pos 0
    → find t.id es ≡ some s.running_thread
    → free_all es s ≡ fault
unfolding find
free_all-fault [] s t u a here other f = ground (arith, f)
free_all-fault ((k, p) ∷ es) s t u a here other f =
    let (v, at, named) = a.0 in
    let apart = find-none-ne k es u.0 in
    elim (Bool-cases (p == s.running_thread)) [
      | inl is ↦
          let same : p ≡ s.running_thread = ground (arith, is) in
          let eq : v ≡ t = ground (arith, at, here, same) in
          free_all-eq_running k p es s v at
            (elim (Bool-cases (v.id ==ℤ pos 0)) [
              | inl e ↦ absurd (other (sym (ap (λ x. x.id) eq) ∙ ==ℤ→eq v.id (pos 0) e))
              | inr e ↦ e
            ])
            same
      | inr not_here ↦
          let ne : p ≢ s.running_thread = λ is. ground (arith, is, not_here) in
          let later : find t.id es ≡ some s.running_thread = ground (arith, f, ne) in
          let own = free-Owned s.heap k p v at named es apart a.1 in
          elim (Bool-cases (v.id ==ℤ pos 0)) [
            | inl e ↦
                free_all-eq_main k p es s v at e
                ∙ free_all-fault es (record s { heap = update s.heap p none }) t u.1 own
                    (ground (arith, here, ne)) other later
            | inr e ↦
                free_all-eq_other k p es s v at e ne
                ∙ free_all-fault es
                    (record s { stacks = drop_stack v.stack s.stacks; heap = update s.heap p none })
                    t u.1 own (ground (arith, here, ne)) other later
          ]
    ]

find-All-registered :
    (P : ℤ × ℕ → Type 0) (m : List (ℤ × ℕ))
    → UniqueKeys m
    → ((k : ℤ) (p : ℕ) → find k m ≡ some p → P (k, p))
    → All P m
unfolding find
find-All-registered P [] u h = tt
find-All-registered P ((k, p) ∷ m) u h = (
  h k p (ground (arith, ==ℤ_refl k)),
  find-All-registered P m u.1 λ j q f. h j q (ground (arith, f, ==ℤ→eq k j, u.0)),
)

module _ ⦃os : Os⦄ (w : Works os) (s : Globals) (i : Inv s) where
  terminate-eq_unknown :
      (k : ℤ)
      → find k s.threads ≡ none
      → uthread_terminate k s
        ≡ returned failed_lib (record s { masked = false; cerr = tid_err ∷ s.cerr })
  unfolding uthread_terminate block unblock
  terminate-eq_unknown k e = ground arith

  -- The main thread ends the process, and every thread is freed.
  terminate-eq_main :
      (p : ℕ) (t : Thread)
      → find (pos 0) s.threads ≡ some p
      → s.heap p ≡ some t
      → t.id ≡ pos 0
      → (s' : Globals) → free_all s.threads (record s { masked = true }) ≡ returned tt s'
      → uthread_terminate (pos 0) s ≡ exited 0 (record s' { threads = [] })
  unfolding uthread_terminate block
  terminate-eq_main p t f at named s' e = ground (arith, e)

  terminate-eq_fault :
      (p : ℕ) (t : Thread)
      → find (pos 0) s.threads ≡ some p
      → s.heap p ≡ some t
      → t.id ≡ pos 0
      → free_all s.threads (record s { masked = true }) ≡ fault
      → uthread_terminate (pos 0) s ≡ fault
  unfolding uthread_terminate block
  terminate-eq_fault p t f at named e = ground (arith, e)

  all-Owned : Owned s.heap s.threads
  all-Owned =
      find-All-registered (λ e. (u : Thread) × (s.heap e.1 ≡ some u) × (u.id ≡ e.0)) s.threads
        i.core.unique_ids
        (λ k q g. (let (u, at', named', _) = i.core.registered k q g in (u, at', named')))

  module _ (t : Thread) (at : s.heap s.running_thread ≡ some t) where
    -- Where `sigprocmask` succeeds, in a state that meets the invariant: `uthread_terminate` of the
    -- main thread, when the main thread runs, exits with status 0, when every thread that was in
    -- `threads` is freed and `threads` is empty. When another thread runs, the call is undefined.
    pub terminate_main-exits :
        (t.id ≡ pos 0
          → (s' : Globals) × (uthread_terminate (pos 0) s ≡ exited 0 s')
            × (s'.threads ≡ [])
            × All (λ e. s'.heap e.1 ≡ none) s.threads)
        × (t.id ≢ pos 0 → uthread_terminate (pos 0) s ≡ fault)
    terminate_main-exits =
        let (p, f, _) = i.core.main_ok in
        let (m, there, named, how) = i.core.registered (pos 0) p f in
        let (u, at', is, known, live) = i.current in
        let same : u ≡ t = ground (arith, at, at') in
        let known' = subst (λ v. find v.id s.threads ≡ some s.running_thread) same known in
        (
          (λ main.
              let (s', r, _, freed) =
                free_all-returns s.threads (record s { masked = true }) s.heap t i.core.unique_ids
                  all-Owned all-Owned at main in
              (record s' { threads = [] }, terminate-eq_main p m f there named s' r, refl, freed)),
          (λ other. terminate-eq_fault p m f there named (
              free_all-fault s.threads (record s { masked = true }) t i.core.unique_ids all-Owned at
                other known')),
        )

    terminate_stopped-Inv :
        (k : ℤ) → k ≢ pos 0 → k ≢ t.id → Ends (uthread_terminate k s) (λ _ s'. Inv s')
    terminate_stopped-Inv k other apart = elim (Option-cases (find k s.threads)) [
      | inl e ↦ rw (terminate-eq_unknown k e) (refused-Inv s _ i)
      | inr (p, f) ↦
          let (v, there, named, how) = i.core.registered k p f in
          elim (Bool-cases (is_running v.state)) [
            | inl r ↦
                let here = running-Has s i k p v f there r in
                let eq : v ≡ t = ground (arith, at, there, here) in
                absurd (apart (sym named ∙ ap (λ x. x.id) eq))
            | inr nr ↦
                let (ne, _, live) = stopped-Has s i k p v f there nr in
                subst (λ j. Ends (uthread_terminate j s) (λ _ s'. Inv s')) named
                  (terminate_other s i p v there
                    (subst (λ j. find j s.threads ≡ some p) (sym named) f) live
                    (λ m. other (sym named ∙ m)) ne w nr)
          ]
    ]

    -- Where `sigprocmask` succeeds, in a state that meets the invariant, for any id but the main
    -- thread's: of the thread that runs, `uthread_terminate` does not return but hands over to
    -- another thread, in a state that meets the invariant; of any other id, it returns, and leaves
    -- a state that meets the invariant. It neither exits nor is undefined.
    pub uthread_terminate-Inv :
        (k : ℤ)
        → k ≢ pos 0
        → (k ≡ t.id → (s' : Globals) × (uthread_terminate k s ≡ handed_over s') × Inv s')
          × (k ≢ t.id → Ends (uthread_terminate k s) (λ _ s'. Inv s'))
    uthread_terminate-Inv k other =
        let (u, at', is, known, live) = i.current in
        let same : u ≡ t = ground (arith, at, at') in
        (
          (λ mine.
              let eq : u.id ≡ k = ap (λ v. v.id) same ∙ sym mine in
              subst (λ j. (s' : Globals) × (uthread_terminate j s ≡ handed_over s') × Inv s') eq
                (terminate_self w s i u at' is known live (λ m. other (sym eq ∙ m)))),
          terminate_stopped-Inv k other,
        )

  spawn-eq_null :
      uthread_spawn 0 s
      ≡ returned failed_lib (record s { masked = false; cerr = entry_ptr_err ∷ s.cerr })
  unfolding uthread_spawn block unblock
  spawn-eq_null = ground arith

  spawn-eq_full :
      (entry_point : ℕ)
      → entry_point ≢ 0
      → ltb_ℤ s.threads_cur_number (pos 100) ≡ false
      → uthread_spawn entry_point s
        ≡ returned failed_lib (record s { masked = false; cerr = max_thr_err ∷ s.cerr })
  unfolding uthread_spawn block unblock
  spawn-eq_full entry_point e f = ground arith

  -- Where `sigprocmask` succeeds: `uthread_spawn` of any entry point returns, in a state that
  -- meets the invariant, and leaves one that does: it neither exits nor is undefined.
  pub uthread_spawn-Inv : (entry_point : ℕ) → Ends (uthread_spawn entry_point s) (λ _ s'. Inv s')
  uthread_spawn-Inv entry_point = elim (ℕ_discrete entry_point 0) [
    | yes e ↦ rw (e, spawn-eq_null) (refused-Inv s _ i)
    | no given ↦ elim (Bool-cases (ltb_ℤ s.threads_cur_number (pos 100))) [
      | inr full ↦ rw (spawn-eq_full entry_point given full) (refused-Inv s _ i)
      | inl room ↦ spawn_new w s i entry_point given room
    ]
  ]
