-- ===== src/Uthreads/Invariant/Dispatch.antt =====
-- `dispatch`, the end of `schedule_handler` in Uthreads_Library/uthreads.cpp: the thread that runs
-- next, and what becomes of the one that ran.
use native.Mathlib.Decide.{ℕ_discrete}
use operating_systems.Base.{
  ℕ, ◌+◌, pos, ◌≡◌, ◌≢◌, refl, sym, ◌∙◌, subst, ◌⊎◌, inl, inr, Bool, true, false, Option, some,
  List, [], ◌∷◌, ◌++◌, All, All-snoc, Distinct, Distinct-snoc, In, In-snoc_left, In-snoc_self,
  arith,
}
use operating_systems.Uthreads.Containers.{find}
use operating_systems.Uthreads.Machine.{
  ready, is_running, is_ready, Thread, Globals, update, Os, Works,
}
use operating_systems.Uthreads.Scheduler.{switch_thread, dispatch}
use operating_systems.Uthreads.Invariant.Frame.{
  Agree, Has-frame, Has-ne, Asleep-frame, Zombies-frame, fresh-frame, registered-frame,
}
use operating_systems.Uthreads.Invariant.{Has, is_waiting, Core, Inv, Ends}
use operating_systems.Uthreads.Invariant.Switching.{
  dispatch-kept, dispatch-requeued, Alive, Parked, dispatch-suspended, is_suspended, requeued,
  switch_thread-eq, switched-Inv,
}

-- The running thread `t` becomes `t'`: the conditions on all lists but `ready_queue` survive.
module _ (s : Globals) (t t' : Thread) (c : Core s) (alive : Alive s)
    (at : s.heap s.running_thread ≡ some t) (is : is_running t.state ≡ true)
    (known : find t.id s.threads ≡ some s.running_thread) (live : t.terminated ≡ false)
    (same_id : t'.id ≡ t.id) (same_mark : t'.terminated ≡ t.terminated) where
  abbrev changed : ℕ → Option Thread
  changed = update s.heap s.running_thread (some t')

  changed-Agree : Agree s.heap changed s.running_thread
  changed-Agree q other = ground arith

  changed-at : changed s.running_thread ≡ some t'
  changed-at = ground arith

  changed-Core :
      (ready' : List ℕ) (quantums : ℕ) (mask : Bool)
      → All (Has changed s.threads is_ready) ready'
      → Distinct ready'
      → (p : ℕ) × (find (pos 0) s.threads ≡ some p) × In p (s.running_thread ∷ ready')
      → Core (record s {
        heap = changed;
        ready_queue = ready';
        quantums_number = quantums;
        masked = mask;
      })
  changed-Core ready' quantums mask ok distinct main =
      let frame = changed-Agree in
      let h = s.heap in
      let r = s.running_thread in
      record {
        registered = λ k q f.
            registered-frame h changed s.threads r frame t at t' changed-at same_id k q
              (alive k q f);
        unique_ids = c.unique_ids;
        ids = c.ids;
        counted = c.counted;
        ready_ok = ok;
        ready_distinct = distinct;
        blocked_ok =
            Has-frame h changed s.threads r frame t at is_waiting s.blocked_threads (ground arith)
              c.blocked_ok;
        blocked_distinct = c.blocked_distinct;
        sleeping_ok =
            Asleep-frame h changed s.threads r frame t at s.sleeping_threads (ground arith)
              c.sleeping_ok;
        sleeping_unique = c.sleeping_unique;
        zombies = Zombies-frame h changed s.threads r frame t at s.termination live c.zombies;
        fresh = fresh-frame h changed s.threads r frame t at s.next c.fresh;
        temp_empty = c.temp_empty;
        delete_empty = c.delete_empty;
        waking_empty = c.waking_empty;
        installed = c.installed;
        main_ok = main;
      }

  changed-Parked :
      (ready' : List ℕ)
      → is_running t'.state ≡ false
      → Parked (record s { heap = changed; ready_queue = ready' })
  changed-Parked ready' stops k q f =
      let (u, at', named, live', how) = alive k q f in
      elim (ℕ_discrete q s.running_thread) [
        | yes here ↦ (
          t',
          rw here changed-at,
          same_id ∙ ground (arith, at, at', named, here),
          same_mark ∙ live,
          stops,
        )
        | no other ↦ (
          u,
          changed-Agree q other ∙ at',
          named,
          live',
          elim how [ inl stopped ↦ stopped | inr here ↦ absurd (other here) ],
        )
      ]

  changed-ready :
      (xs : List ℕ)
      → All (Has s.heap s.threads is_ready) xs
      → All (Has changed s.threads is_ready) xs
  changed-ready xs =
      Has-frame s.heap changed s.threads s.running_thread changed-Agree t at is_ready xs
        (ground arith)

-- The state in which `dispatch` starts.
pub record Dispatchable (s : Globals) : Type 0 where
  pub core : Core s
  pub alive : Alive s
  pub current :
      (t : Thread) × (s.heap s.running_thread ≡ some t)
      × (((is_running t.state ≡ true)
            × (find t.id s.threads ≡ some s.running_thread)
            × (t.terminated ≡ false))
          ⊎ ((is_suspended t ≡ true) × (t.id ≢ pos 0) × Parked s))

module _ ⦃os : Os⦄ (w : Works os) where
  abbrev EndsInv : Globals → Type 0
  EndsInv s = Ends (dispatch s) (λ _ s'. Inv s')

  run_first :
      (s : Globals) (p : ℕ) (ps : List ℕ)
      → Core s
      → Parked s
      → s.ready_queue ≡ p ∷ ps
      → (p0 : ℕ) × (find (pos 0) s.threads ≡ some p0) × In p0 (p ∷ ps)
      → Ends (switch_thread s) (λ _ s'. Inv s')
  run_first s p ps c parked e main =
      let (t, at, is, known, live) = (subst (All (Has s.heap s.threads is_ready)) e c.ready_ok).0 in
      rw (switch_thread-eq w s p ps t e at) (switched-Inv s p ps t c parked e at is known live main)

  dispatch_running :
      (s : Globals) (t : Thread) (xs : List ℕ)
      → Core s
      → Alive s
      → s.heap s.running_thread ≡ some t
      → is_running t.state ≡ true
      → find t.id s.threads ≡ some s.running_thread
      → t.terminated ≡ false
      → s.ready_queue ≡ xs
      → EndsInv s
  dispatch_running s t [] c alive at is known live e =
      rw (dispatch-kept w s t at is live e) (record {
        core =
            changed-Core s t (record t { quantum = t.quantum + 1 }) c alive at is known live refl
              refl s.ready_queue (s.quantums_number + 1) false
              (changed-ready s t _ c alive at is known live refl refl s.ready_queue c.ready_ok)
              c.ready_distinct c.main_ok;
        current = (record t { quantum = t.quantum + 1 }, ground arith, is, known, live);
        unmasked = refl;
      })
  dispatch_running s t (p ∷ ps) c alive at is known live e =
      let t' = record t { state = ready } in
      let r = s.running_thread in
      let ready' = s.ready_queue ++ r ∷ [] in
      let h' = update s.heap r (some t') in
      let ok : All (Has h' s.threads is_ready) ready' =
        All-snoc (Has h' s.threads is_ready) s.ready_queue r
          (changed-ready s t t' c alive at is known live refl refl s.ready_queue c.ready_ok)
          (t', ground arith, refl, known, live) in
      let distinct : Distinct ready' =
        Distinct-snoc s.ready_queue r
          (Has-ne s.heap h' s.threads r (λ q other. ground arith) t at is_ready s.ready_queue
            (ground arith) c.ready_ok)
          c.ready_distinct in
      let main_in : In c.main_ok.0 ready' = elim c.main_ok.2 [
        | inl m ↦ subst (λ q. In q ready') (sym m) (In-snoc_self s.ready_queue r)
        | inr m ↦ In-snoc_left c.main_ok.0 s.ready_queue r m
      ] in
      let now : ready' ≡ p ∷ (ps ++ r ∷ []) = rw e in
      rw (dispatch-requeued w s t at is live p ps e known) (
        run_first (requeued s t) p (ps ++ r ∷ [])
          (changed-Core s t t' c alive at is known live refl refl ready' s.quantums_number s.masked
            ok distinct (c.main_ok.0, c.main_ok.1, inr main_in))
          (changed-Parked s t t' c alive at is known live refl refl ready' refl) now
          (c.main_ok.0, c.main_ok.1, subst (In c.main_ok.0) now main_in))

  dispatch_suspended :
      (s : Globals) (t : Thread) (xs : List ℕ)
      → Core s
      → Parked s
      → s.heap s.running_thread ≡ some t
      → is_suspended t ≡ true
      → t.id ≢ pos 0
      → s.ready_queue ≡ xs
      → EndsInv s
  dispatch_suspended s t xs c parked at sus other e =
      rw (dispatch-suspended w s t at sus) (go xs e main)
    where
      main : In c.main_ok.0 s.ready_queue
      main = elim c.main_ok.2 [
        | inl m ↦ absurd (
            let (u, at', named, _, _) = parked (pos 0) c.main_ok.0 c.main_ok.1 in
            other (ground arith))
        | inr m ↦ m
      ]

      go :
          (ys : List ℕ)
          → s.ready_queue ≡ ys
          → In c.main_ok.0 s.ready_queue
          → Ends (switch_thread s) (λ _ s'. Inv s')
      go [] e' m = absurd (subst (In c.main_ok.0) e' m)
      go (p ∷ ps) e' m =
          run_first s p ps c parked e' (c.main_ok.0, c.main_ok.1, subst (In c.main_ok.0) e' m)

  pub dispatch-Inv : (s : Globals) → Dispatchable s → EndsInv s
  dispatch-Inv s d =
      let (t, at, how) = d.current in
      elim how [
        | inl (is, known, live) ↦
            dispatch_running s t s.ready_queue d.core d.alive at is known live refl
        | inr (sus, other, parked) ↦
            dispatch_suspended s t s.ready_queue d.core parked at sus other refl
      ]
