-- ===== src/Uthreads/Invariant/Blocking.antt =====
-- `uthread_block` of a thread that is not running, in Uthreads_Library/uthreads.cpp.
use native.Mathlib.Decide.{ℕ_discrete}
use mathlib.Core.List.{append-nil}
use operating_systems.Base.{
  ℕ, ℤ, pos, ==ℤ_refl, ◌≡◌, ◌≢◌, refl, sym, ◌∙◌, subst, inl, inr, Bool-cases, true, false, Option,
  some, List, [], ◌∷◌, ◌++◌, All, All-mono, All-snoc, All-In, Distinct, Distinct-snoc, In, arith,
}
use operating_systems.Uthreads.Containers.{find}
use operating_systems.Uthreads.Machine.{
  blocked, sleep_block, is_running, is_ready, is_sleep, Thread, Globals, returned, update, Os,
  Works, unblock,
}
use operating_systems.Uthreads.Api.{success, block_thread}
use operating_systems.Uthreads.Invariant.{Has, is_waiting, Inv, Ends, masked-Core}
use operating_systems.Uthreads.Invariant.Frame.{
  Agree, Has-frame_ne, Has-frame, Has-ne, Asleep-frame, Asleep-change,
}
use operating_systems.Uthreads.Invariant.Delete.{
  Valid, has_id, without_all, All-without_all, Distinct-without_all, In-without_all, without_all-ne,
}
use operating_systems.Uthreads.Invariant.Others.{other-Inv, has_id-eq}
use operating_systems.Uthreads.Invariant.Queues.{block_ready-eq, only_id, only_id-cases}

abbrev blocked_as : Thread → Thread
blocked_as t = record t { state = blocked }

abbrev block_heap : Globals → ℕ → Thread → ℕ → Option Thread
block_heap s p t = update s.heap p (some (blocked_as t))

module _ ⦃os : Os⦄ (w : Works os) (s : Globals) (i : Inv s) (k : ℤ) (p : ℕ) (t : Thread)
    (f : find k s.threads ≡ some p) (at : s.heap p ≡ some t) (apart : s.running_thread ≢ p)
    (named : t.id ≡ k) (live : t.terminated ≡ false) where
  module _ (is : is_ready t.state ≡ true) (not_main : k ≢ pos 0) where
    abbrev ready_blocked : Globals
    ready_blocked = record s {
      heap = block_heap s p t;
      ready_queue = without_all (block_heap s p t) k s.ready_queue;
      blocked_threads = s.blocked_threads ++ only_id (block_heap s p t) k s.ready_queue;
      masked = false;
    }

    block_Agree : Agree s.heap (block_heap s p t) p
    block_Agree q other = ground arith

    block_now : block_heap s p t p ≡ some (blocked_as t)
    block_now = ground arith

    still-Valid : Valid (block_heap s p t) s.ready_queue
    still-Valid = All-mono s.ready_queue each i.core.ready_ok
      where
        each :
            (q : ℕ) → Has s.heap s.threads is_ready q → (u : Thread) × (block_heap s p t q ≡ some u)
        each q has = elim (ℕ_discrete q p) [
          | yes here ↦ (blocked_as t, rw here block_now)
          | no other ↦ (has.0, block_Agree q other ∙ has.1)
        ]

    block_thread-eq_ready :
        block_thread k p (record s { masked = true }) ≡ returned success ready_blocked
    unfolding block_thread unblock
    block_thread-eq_ready = ground (
      arith,
      block_ready-eq k (record s { heap = block_heap s p t; masked = true }) still-Valid
          i.core.temp_empty,
    )

    alone : All (λ q. has_id (block_heap s p t) k q ≡ true → q ≡ p) s.ready_queue
    alone =
        All-mono s.ready_queue each
          (has_id-eq s.heap s.threads is_ready k p s.ready_queue f i.core.ready_ok)
      where
        each :
            (q : ℕ)
            → (has_id s.heap k q ≡ true → q ≡ p)
            → has_id (block_heap s p t) k q ≡ true
            → q ≡ p
        each q one e = elim (ℕ_discrete q p) [
          | yes here ↦ here
          | no other ↦ one (let g = block_Agree q other in rw (g, has_id) at e)
        ]

    mine : has_id (block_heap s p t) k p ≡ true
    mine = rw (block_now, has_id, named) (==ℤ_refl k)

    block_ready_Inv : Ends (block_thread k p (record s { masked = true })) (λ _ s'. Inv s')
    block_ready_Inv =
        let h' = block_heap s p t in
        let rest = without_all h' k s.ready_queue in
        let waiting : All (Has h' s.threads is_waiting) s.blocked_threads =
          Has-frame s.heap h' s.threads p block_Agree t at is_waiting s.blocked_threads
            (ground arith) i.core.blocked_ok in
        let apart_blocked : All (λ y. y ≢ p) s.blocked_threads =
          Has-ne s.heap h' s.threads p block_Agree t at is_waiting s.blocked_threads (ground arith)
            i.core.blocked_ok in
        let me : Has h' s.threads is_waiting p =
          (blocked_as t, block_now, refl, rw named f, live) in
        let step : (bs : List ℕ)
            → only_id h' k s.ready_queue ≡ bs
            → All (Has h' s.threads is_waiting) (s.blocked_threads ++ bs)
            → Distinct (s.blocked_threads ++ bs)
            → Inv ready_blocked =
          λ bs e a d.
            other-Inv s i p t (blocked_as t) h' at apart block_Agree block_now refl refl live refl
              rest (s.blocked_threads ++ only_id h' k s.ready_queue) s.sleeping_threads
              (Has-frame_ne s.heap h' s.threads p block_Agree is_ready rest
                (without_all-ne h' k p s.ready_queue mine)
                (All-without_all h' k (Has s.heap s.threads is_ready) s.ready_queue
                  i.core.ready_ok))
              (Distinct-without_all h' k s.ready_queue i.core.ready_distinct)
              (λ q fq m. In-without_all h' k q s.ready_queue (not_mine q fq m) m)
              (subst (λ z. All (Has h' s.threads is_waiting) (s.blocked_threads ++ z)) (sym e) a)
              (subst (λ z. Distinct (s.blocked_threads ++ z)) (sym e) d)
              (Asleep-frame s.heap h' s.threads p block_Agree t at s.sleeping_threads (ground arith)
                i.core.sleeping_ok)
              i.core.sleeping_unique in
        rw block_thread-eq_ready
          (elim (only_id-cases h' k p s.ready_queue alone i.core.ready_distinct) [
            | inl e ↦
                step [] e (rw (append-nil s.blocked_threads) waiting)
                  (rw (append-nil s.blocked_threads) i.core.blocked_distinct)
            | inr e ↦
                step (p ∷ []) e
                  (All-snoc (Has h' s.threads is_waiting) s.blocked_threads p waiting me)
                  (Distinct-snoc s.blocked_threads p apart_blocked i.core.blocked_distinct)
          ])
      where
        not_mine :
            (q : ℕ)
            → find (pos 0) s.threads ≡ some q
            → In q s.ready_queue
            → has_id (block_heap s p t) k q ≡ false
        not_mine q fq m = elim (Bool-cases (has_id (block_heap s p t) k q)) [
          | inl e ↦
              let here : q ≡ p =
                All-In (λ x. has_id (block_heap s p t) k x ≡ true → x ≡ p) q s.ready_queue alone m
                  e in
              let (u, at', named', how) = i.core.registered (pos 0) q fq in
              absurd (not_main (ground (arith, here, at, at', named, named')))
          | inr e ↦ e
        ]

  abbrev asleep_blocked : Globals
  asleep_blocked = record s {
    heap = update s.heap p (some (record t { state = sleep_block }));
    blocked_threads = s.blocked_threads ++ p ∷ [];
    masked = false;
  }

  block_thread-eq_sleep :
      is_sleep t.state ≡ true
      → block_thread k p (record s { masked = true }) ≡ returned success asleep_blocked
  unfolding block_thread unblock
  block_thread-eq_sleep is = ground arith

  block_sleep_Inv :
      is_sleep t.state ≡ true
      → Ends (block_thread k p (record s { masked = true })) (λ _ s'. Inv s')
  block_sleep_Inv is =
      let t' = record t { state = sleep_block } in
      let h' = asleep_blocked.heap in
      let agree : Agree s.heap h' p = λ q other. ground arith in
      let now : h' p ≡ some t' = ground arith in
      rw (block_thread-eq_sleep is) (
        other-Inv s i p t t' h' at apart agree now refl refl live refl s.ready_queue
          (s.blocked_threads ++ p ∷ []) s.sleeping_threads
          (Has-frame s.heap h' s.threads p agree t at is_ready s.ready_queue (ground arith)
            i.core.ready_ok)
          i.core.ready_distinct (λ q fq m. m)
          (All-snoc (Has h' s.threads is_waiting) s.blocked_threads p
            (Has-frame s.heap h' s.threads p agree t at is_waiting s.blocked_threads (ground arith)
              i.core.blocked_ok)
            (t', now, refl, rw named f, live))
          (Distinct-snoc s.blocked_threads p
            (Has-ne s.heap h' s.threads p agree t at is_waiting s.blocked_threads (ground arith)
              i.core.blocked_ok)
            i.core.blocked_distinct)
          (Asleep-change s.heap h' s.threads p agree t at s.sleeping_threads t' now refl refl refl
            (λ _. refl) i.core.sleeping_ok)
          i.core.sleeping_unique)

  -- A thread that is blocked already is left as it is.
  block_thread-eq_blocked :
      is_waiting t.state ≡ true
      → block_thread k p (record s { masked = true })
        ≡ returned success (record s { masked = false })
  unfolding block_thread unblock
  block_thread-eq_blocked is = ground arith

  pub block_other :
      k ≢ pos 0
      → is_running t.state ≡ false
      → Ends (block_thread k p (record s { masked = true })) (λ _ s'. Inv s')
  block_other not_main stopped = elim (Bool-cases (is_ready t.state)) [
    | inl r ↦ block_ready_Inv r not_main
    | inr nr ↦ elim (Bool-cases (is_sleep t.state)) [
      | inl sl ↦ block_sleep_Inv sl
      | inr ns ↦ rw (block_thread-eq_blocked (ground arith)) (record {
        core = masked-Core s false s.cerr i.core;
        current = i.current;
        unmasked = refl;
      })
    ]
  ]
