-- ===== src/Uthreads/Invariant/Resuming.antt =====
-- `uthread_resume` in Uthreads_Library/uthreads.cpp.
use operating_systems.Base.{
  ℕ, ℤ, ◌==ℤ◌, ==ℤ→eq, ==ℤ_refl, ◌≡◌, ◌≢◌, refl, subst, ◌⊎◌, inl, inr, Bool, Bool-cases, true,
  false, if◌then◌else◌, Option, none, some, List, [], ◌∷◌, ◌++◌, All, All-snoc, Distinct,
  Distinct-snoc, In, In-snoc_left, arith,
}
use operating_systems.Uthreads.Containers.{find}
use operating_systems.Uthreads.Machine.{
  ThreadState, sleep, ready, is_ready, is_sleep_block, Thread, Globals, returned, update, Os, Works,
  block, unblock,
}
use operating_systems.Uthreads.Api.{success, resume_loop, uthread_resume}
use operating_systems.Uthreads.Invariant.{Has, is_waiting, Inv, Ends, masked-Core}
use operating_systems.Uthreads.Invariant.Frame.{
  Agree, Has-frame_ne, Has-frame, Has-ne, Asleep-change,
}
use operating_systems.Uthreads.Invariant.Delete.{
  has_id, without_first, All-without_first, Distinct-without_first, without_first-ne,
}
use operating_systems.Uthreads.Invariant.Others.{other-Inv, has_id-eq}

-- The state in which the loop leaves the first thread of the id.
abbrev resumed_state : Thread → ThreadState
resumed_state t = if is_sleep_block t.state then sleep else ready

abbrev resumed : Globals → ℕ → Thread → Globals
resumed s p t = record s {
  heap = update s.heap p (some (record t { state = resumed_state t }));
  ready_queue = if is_sleep_block t.state then s.ready_queue else s.ready_queue ++ p ∷ [];
}

-- Either no thread of the id is blocked and nothing changes, or the one that `p` points to is
-- taken off the list and made ready, or asleep if it was asleep too.
resume_loop-cases :
    (k : ℤ) (p : ℕ) (t : Thread) (xs : List ℕ) (s : Globals)
    → find k s.threads ≡ some p
    → s.heap p ≡ some t
    → All (Has s.heap s.threads is_waiting) xs
    → All (λ q. has_id s.heap k q ≡ true → q ≡ p) xs
    → (resume_loop k xs s ≡ returned xs s)
      ⊎ ((is_waiting t.state ≡ true)
          × (t.id ≡ k)
          × (t.terminated ≡ false)
          × (resume_loop k xs s ≡ returned (without_first s.heap k xs) (resumed s p t)))
unfolding resume_loop without_first
resume_loop-cases k p t [] s f at a only = inl refl
resume_loop-cases k p t (q ∷ qs) s f at a only =
    let (u, at', is, known, live) = a.0 in
    elim (Bool-cases (u.id ==ℤ k)) [
      | inl e ↦
          let here : q ≡ p = only.0 (rw (at', has_id) e) in
          let same : u ≡ t = ground (arith, at, at', here) in
          inr (
            subst (λ v. is_waiting v.state ≡ true) same is,
            subst (λ v. v.id ≡ k) same (==ℤ→eq u.id k e),
            subst (λ v. v.terminated ≡ false) same live,
            ground (arith, f, at, at', e, here, same),
          )
      | inr e ↦ elim (resume_loop-cases k p t qs s f at a.1 only.1) [
        | inl r ↦ inl (ground (arith, at', e, r))
        | inr (w, named, l, r) ↦ inr (w, named, l, ground (arith, at', e, r))
      ]
    ]

module _ ⦃os : Os⦄ (w : Works os) (s : Globals) (i : Inv s) (k : ℤ) (p : ℕ)
    (f : find k s.threads ≡ some p) where
  module _ (t : Thread) (at : s.heap p ≡ some t) (is : is_waiting t.state ≡ true) (named : t.id ≡ k)
      (live : t.terminated ≡ false) (apart : s.running_thread ≢ p) where
    abbrev changed : Thread
    changed = record t { state = resumed_state t }

    abbrev resumed_heap : ℕ → Option Thread
    resumed_heap = update s.heap p (some changed)

    resumed_Agree : Agree s.heap resumed_heap p
    resumed_Agree q other = ground arith

    resumed_now : resumed_heap p ≡ some changed
    resumed_now = ground arith

    readies : All (Has resumed_heap s.threads is_ready) s.ready_queue
    readies =
        Has-frame s.heap resumed_heap s.threads p resumed_Agree t at is_ready s.ready_queue
          (ground arith) i.core.ready_ok

    apart_ready : All (λ y. y ≢ p) s.ready_queue
    apart_ready =
        Has-ne s.heap resumed_heap s.threads p resumed_Agree t at is_ready s.ready_queue
          (ground arith) i.core.ready_ok

    -- The queue afterwards.
    queue :
        (b : Bool)
        → is_sleep_block t.state ≡ b
        → let ready' = (if b then s.ready_queue else s.ready_queue ++ p ∷ []) in
          All (Has resumed_heap s.threads is_ready) ready'
          × Distinct ready'
          × ((q : ℕ) → In q s.ready_queue → In q ready')
    queue true e = (readies, i.core.ready_distinct, λ q m. m)
    queue false e = (
      All-snoc (Has resumed_heap s.threads is_ready) s.ready_queue p readies
          (changed, resumed_now, ground (arith, e), rw named f, live),
      Distinct-snoc s.ready_queue p apart_ready i.core.ready_distinct,
      λ q m. In-snoc_left q s.ready_queue p m,
    )

    resumed-Inv : Inv (record s {
      heap = resumed_heap;
      ready_queue = if is_sleep_block t.state then s.ready_queue else s.ready_queue ++ p ∷ [];
      blocked_threads = without_first s.heap k s.blocked_threads;
      masked = false;
    })
    resumed-Inv =
        let b = is_sleep_block t.state in
        let kept = without_first s.heap k s.blocked_threads in
        let (ro, rd, more) = queue b refl in
        let blocked_ok : All (Has s.heap s.threads is_waiting) kept =
          All-without_first (Has s.heap s.threads is_waiting) s.heap k s.blocked_threads
            i.core.blocked_ok in
        let gone : All (λ y. y ≢ p) kept =
          without_first-ne s.heap k p s.blocked_threads (rw (at, has_id, named) (==ℤ_refl k))
            (has_id-eq s.heap s.threads is_waiting k p s.blocked_threads f i.core.blocked_ok)
            i.core.blocked_distinct in
        other-Inv s i p t changed resumed_heap at apart resumed_Agree resumed_now refl refl live
          (ground arith) _ kept s.sleeping_threads ro rd (λ q fq m. more q m)
          (Has-frame_ne s.heap resumed_heap s.threads p resumed_Agree is_waiting kept gone
            blocked_ok)
          (Distinct-without_first s.heap k s.blocked_threads i.core.blocked_distinct)
          (Asleep-change s.heap resumed_heap s.threads p resumed_Agree t at s.sleeping_threads
            changed resumed_now refl refl refl (λ a. ground (arith, a)) i.core.sleeping_ok)
          i.core.sleeping_unique

  -- What is left of `uthread_resume` once `termination` and `threads` have been looked at.
  abbrev finish_resume : List ℕ → Globals → Globals
  finish_resume others s' = record s' { blocked_threads = others; masked = false }

  resume-eq :
      find k s.termination ≡ none
      → (others : List ℕ) (s' : Globals)
      → resume_loop k s.blocked_threads (record s { masked = true }) ≡ returned others s'
      → uthread_resume k s ≡ returned success (finish_resume others s')
  unfolding uthread_resume block unblock
  resume-eq none_left others s' e = ground (arith, e)

  pub resume_known : find k s.termination ≡ none → Ends (uthread_resume k s) (λ _ s'. Inv s')
  resume_known none_left =
      let s0 = record s { masked = true } in
      let (t, at, named, how) = i.core.registered k p f in
      elim (resume_loop-cases k p t s.blocked_threads s0 f at i.core.blocked_ok
        (has_id-eq s.heap s.threads is_waiting k p s.blocked_threads f i.core.blocked_ok)) [
          | inl r ↦ rw (resume-eq none_left s.blocked_threads s0 r) (record {
            core = masked-Core s false s.cerr i.core;
            current = i.current;
            unmasked = refl;
          })
          | inr (is, named', live, r) ↦
              let (u, at', is', known, live') = i.current in
              rw (resume-eq none_left _ _ r)
                (resumed-Inv t at is named' live (λ here. ground (arith, here, at, at', is, is')))
        ]
