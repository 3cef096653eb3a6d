-- ===== src/Uthreads/Invariant/Terminating.antt =====
-- `uthread_terminate` of a thread that is not running, in Uthreads_Library/uthreads.cpp.
use operating_systems.Base.{
  ℕ, ℤ, pos, ◌==ℤ◌, ==ℤ→eq, eq→==ℤ, ==ℤ_refl, ◌≡◌, ◌≢◌, refl, sym, ◌∙◌, subst, ◌⊎◌, inl, inr, Bool,
  Bool-cases, true, false, ◌||◌, if◌then◌else◌, Option, none, some, List, [], ◌∷◌, All, All-mono,
  Distinct, In, arith,
}
use operating_systems.Uthreads.Containers.{find, erase}
use operating_systems.Uthreads.Containers.Laws.{
  UniqueKeys, find-erase, erase-UniqueKeys, length-erase, All-erase, erase-ne,
}
use operating_systems.Uthreads.Machine.{
  ThreadState, is_running, is_ready, is_sleep, is_sleep_block, Thread, Globals, returned, update,
  Os, Works, block, unblock,
}
use operating_systems.Uthreads.Api.{success, uthread_terminate}
use operating_systems.Uthreads.Invariant.{Has, Asleep, Zombies, is_waiting, IsId, Inv, Ends}
use operating_systems.Uthreads.Invariant.Frame.{Agree, Has-ne, fresh-frame}
use operating_systems.Uthreads.Invariant.Reap.{Has-Valid}
use operating_systems.Uthreads.Invariant.Delete.{
  has_id, without_first, without_all, All-without_first, Distinct-without_first, without_first-ne,
  All-without_all, Distinct-without_all, In-without_all, without_all-ne, delete_thread-eq, deleted,
}
use operating_systems.Uthreads.Invariant.Others.{has_id-eq}

module _ (s : Globals) (i : Inv s) (p : ℕ) (d : Thread) (at : s.heap p ≡ some d)
    (known : find d.id s.threads ≡ some p) (live : d.terminated ≡ false) (other : d.id ≢ pos 0)
    (apart : s.running_thread ≢ p) where
  abbrev gone : ℕ → Option Thread
  gone = update s.heap p none

  abbrev left : List (ℤ × ℕ)
  left = erase d.id s.threads

  gone-Agree : Agree s.heap gone p
  gone-Agree q ne = ground arith

  erased : (j : ℤ) → j ≢ d.id → find j left ≡ find j s.threads
  erased j ne = ground (arith, find-erase d.id j s.threads i.core.unique_ids, ==ℤ→eq d.id j)

  known-ne : (q : ℕ) (u : Thread) → find u.id s.threads ≡ some q → q ≢ p → u.id ≢ d.id
  known-ne q u f ne same =
      let f' = subst (λ j. find j s.threads ≡ some q) same f in ne (ground (arith, f', known))

  gone-Has :
      (ok : ThreadState → Bool) (xs : List ℕ)
      → All (λ y. y ≢ p) xs
      → All (Has s.heap s.threads ok) xs
      → All (Has gone left ok) xs
  gone-Has ok [] n a = tt
  gone-Has ok (q ∷ qs) n a =
      let (u, at', is, f, live') = a.0 in
      (
        (u, gone-Agree q n.0 ∙ at', is, erased u.id (known-ne q u f n.0) ∙ f, live'),
        gone-Has ok qs n.1 a.1,
      )

  gone-Asleep :
      (es : List (ℤ × ℕ))
      → All (λ e. e.1 ≢ p) es
      → All (Asleep s.heap s.threads) es
      → All (Asleep gone left) es
  gone-Asleep [] n a = tt
  gone-Asleep (e ∷ es) n a =
      let (u, m, at', is, named, f, live', more) = a.0 in
      (
        (
          u,
          m,
          gone-Agree e.1 n.0 ∙ at',
          is,
          named,
          erased u.id (known-ne e.1 u f n.0) ∙ f,
          live',
          more,
        ),
        gone-Asleep es n.1 a.1,
      )

  gone-Zombies : (z : List (ℤ × ℕ)) → Zombies s.heap s.threads z → Zombies gone left z
  gone-Zombies [] h = tt
  gone-Zombies (e ∷ []) (u, at', is, named, other', unknown, dead) =
      let ne : e.1 ≢ p = ground (arith, at, at', dead, live) in
      (u, gone-Agree e.1 ne ∙ at', is, named, other', absent, dead)
    where
      absent : find u.id left ≢ some e.1
      absent = elim (Bool-cases (d.id ==ℤ u.id)) [
        | inl same ↦ λ m.
            (let g = find-erase d.id u.id s.threads i.core.unique_ids in ground (arith, g, m, same))
        | inr differs ↦ λ m. unknown (sym (erased u.id (λ q. cc (eq→==ℤ d.id u.id (sym q)))) ∙ m)
      ]
  gone-Zombies (e ∷ e' ∷ z) h = h

  -- The three lists, each without the thread.
  gone-ready :
      (b : Bool)
      → is_ready d.state ≡ b
      → let ready' = (if b then without_all s.heap d.id s.ready_queue else s.ready_queue) in
        All (Has gone left is_ready) ready'
        × Distinct ready'
        × ((q : ℕ) → find (pos 0) s.threads ≡ some q → In q s.ready_queue → In q ready')
  gone-ready true e = (
    gone-Has is_ready _
        (without_all-ne s.heap d.id p s.ready_queue (rw (at, has_id) (==ℤ_refl d.id)))
        (All-without_all s.heap d.id (Has s.heap s.threads is_ready) s.ready_queue i.core.ready_ok),
    Distinct-without_all s.heap d.id s.ready_queue i.core.ready_distinct,
    λ q fq m.
        In-without_all s.heap d.id q s.ready_queue
          (let (u, at', named, how) = i.core.registered (pos 0) q fq in
            ground (arith, at', named, other, ==ℤ→eq u.id d.id))
          m,
  )
  gone-ready false e = (
    gone-Has is_ready s.ready_queue
        (Has-ne s.heap gone s.threads p gone-Agree d at is_ready s.ready_queue e i.core.ready_ok)
        i.core.ready_ok,
    i.core.ready_distinct,
    λ q fq m. m,
  )

  gone-blocked : All (Has gone left is_waiting) (without_first s.heap d.id s.blocked_threads)
  gone-blocked =
      gone-Has is_waiting _
        (without_first-ne s.heap d.id p s.blocked_threads (rw (at, has_id) (==ℤ_refl d.id))
          (has_id-eq s.heap s.threads is_waiting d.id p s.blocked_threads known i.core.blocked_ok)
          i.core.blocked_distinct)
        (All-without_first (Has s.heap s.threads is_waiting) s.heap d.id s.blocked_threads
          i.core.blocked_ok)

  -- A sleeper of another id is another thread.
  others_apart :
      (es : List (ℤ × ℕ))
      → All (λ e. e.0 ≢ d.id) es
      → All (Asleep s.heap s.threads) es
      → All (λ e. e.1 ≢ p) es
  others_apart [] n a = tt
  others_apart (e ∷ es) n a =
      ((λ here. n.0 (ground (arith, at, a.0, here))), others_apart es n.1 a.1)

  gone-sleeping :
      (b : Bool)
      → is_sleep d.state || is_sleep_block d.state ≡ b
      → let sleeping' = (if b then erase d.id s.sleeping_threads else s.sleeping_threads) in
        All (Asleep gone left) sleeping' × UniqueKeys sleeping'
  gone-sleeping true e =
      let rest = All-erase (Asleep s.heap s.threads) d.id s.sleeping_threads i.core.sleeping_ok in
      (
        gone-Asleep _
            (others_apart _ (erase-ne d.id s.sleeping_threads i.core.sleeping_unique) rest) rest,
        erase-UniqueKeys d.id s.sleeping_threads i.core.sleeping_unique,
      )
  gone-sleeping false e = (
    gone-Asleep s.sleeping_threads
        (All-mono s.sleeping_threads (λ x a. ground (arith, a, at, e)) i.core.sleeping_ok)
        i.core.sleeping_ok,
    i.core.sleeping_unique,
  )

  deleted-Inv : Inv (deleted s p d)
  deleted-Inv =
      let c = i.core in
      let (ro, rd, main) = gone-ready (is_ready d.state) refl in
      let (so, su) = gone-sleeping (is_sleep d.state || is_sleep_block d.state) refl in
      let (r, at_r, is_r, known_r, live_r) = i.current in
      record {
        core = record {
          registered = rw live known-after;
          unique_ids = rw live (erase-UniqueKeys d.id s.threads c.unique_ids);
          ids = rw live (All-erase IsId d.id s.threads c.ids);
          counted = ground (arith, c.counted, length-erase d.id p s.threads, live);
          ready_ok = rw live ro;
          ready_distinct = rd;
          blocked_ok = rw live gone-blocked;
          blocked_distinct =
              Distinct-without_first s.heap d.id s.blocked_threads c.blocked_distinct;
          sleeping_ok = rw live so;
          sleeping_unique = su;
          zombies = rw live (gone-Zombies s.termination c.zombies);
          fresh = fresh-frame s.heap gone s.threads p gone-Agree d at s.next c.fresh;
          temp_empty = c.temp_empty;
          delete_empty = c.delete_empty;
          waking_empty = c.waking_empty;
          installed = c.installed;
          main_ok = rw live (
            c.main_ok.0,
            erased (pos 0) (λ e. other (sym e)) ∙ c.main_ok.1,
            elim c.main_ok.2 [ inl m ↦ inl m | inr m ↦ inr (main c.main_ok.0 c.main_ok.1 m) ],
          );
        };
        current = rw live (
          r,
          gone-Agree s.running_thread apart ∙ at_r,
          is_r,
          erased r.id (known-ne s.running_thread r known_r apart) ∙ known_r,
          live_r,
        );
        unmasked = refl;
      }
    where
      known-after :
          (k : ℤ) (q : ℕ)
          → find k left ≡ some q
          → (t : Thread) × (gone q ≡ some t)
            × (t.id ≡ k)
            × ((t.terminated ≡ false) × (is_running t.state ≡ false) ⊎ (q ≡ s.running_thread))
      known-after k q f = elim (Bool-cases (d.id ==ℤ k)) [
        | inl e ↦
            absurd
              (let g = find-erase d.id k s.threads i.core.unique_ids in ground (arith, g, f, e))
        | inr e ↦
            let ne : k ≢ d.id = λ m. cc (eq→==ℤ d.id k (sym m)) in
            let (u, at', named, how) = i.core.registered k q (sym (erased k ne) ∙ f) in
            let apart' : q ≢ p = λ here. ne (ground (arith, at, at', named, here)) in
            (u, gone-Agree q apart' ∙ at', named, how)
      ]

  module _ ⦃os : Os⦄ (w : Works os) where
    terminate-eq_other :
        is_running d.state ≡ false → uthread_terminate d.id s ≡ returned success (deleted s p d)
    unfolding uthread_terminate block unblock
    terminate-eq_other stopped = ground (
      arith,
      delete_thread-eq w (record s { masked = true }) p d at other
          (Has-Valid s.heap s.threads is_waiting s.blocked_threads i.core.blocked_ok)
          (Has-Valid s.heap s.threads is_ready s.ready_queue i.core.ready_ok) i.core.delete_empty,
      ==ℤ→eq d.id (pos 0),
    )

    pub terminate_other :
        is_running d.state ≡ false → Ends (uthread_terminate d.id s) (λ _ s'. Inv s')
    terminate_other stopped = rw (terminate-eq_other stopped) deleted-Inv
