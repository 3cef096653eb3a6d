-- ===== src/Uthreads/Safety.antt =====
-- `uthread_sleep`, `uthread_block` and `uthread_resume` of Uthreads_Library/uthreads.cpp, for all
-- arguments.
use operating_systems.Base.{
  suc, zero, ℤ, pos, int_max, negsuc, ltb_ℤ, ◌==ℤ◌, ==ℤ→eq, eq→==ℤ, ◌≡◌, ◌≢◌, refl, sym, subst, inl,
  inr, Bool-cases, true, false, Option-cases, none, some, ◌∷◌, arith,
}
use operating_systems.Uthreads.Containers.{find}
use operating_systems.Uthreads.Machine.{
  is_running, Globals, tid_err, block_main_err, sleep_err, negative_sleep_err, termination_err,
  returned, fault, Thread, Os, Works, block, unblock,
}
use operating_systems.Uthreads.Api.{
  failed_lib, block_thread, uthread_block, uthread_resume, uthread_sleep,
}
use operating_systems.Uthreads.Invariant.{Inv, Ends}
use operating_systems.Uthreads.Invariant.Caller.{refused-Inv, block_self, sleep_self}
use operating_systems.Uthreads.Invariant.Others.{stopped-Has, running-Has}
use operating_systems.Uthreads.Invariant.Blocking.{block_other}
use operating_systems.Uthreads.Invariant.Resuming.{resume_known}

module _ ⦃os : Os⦄ (w : Works os) (s : Globals) (i : Inv s) where
  sleep-refused_main :
      (n : ℤ)
      → i.current.0.id ≡ pos 0
      → uthread_sleep n s
        ≡ returned failed_lib (record s { masked = false; cerr = sleep_err ∷ s.cerr })
  unfolding uthread_sleep block unblock
  sleep-refused_main n e = ground (arith, i.current.1)

  sleep-refused_zero :
      (n : ℤ)
      → i.current.0.id ≢ pos 0
      → ltb_ℤ (pos 0) n ≡ false
      → uthread_sleep n s
        ≡ returned failed_lib (record s { masked = false; cerr = negative_sleep_err ∷ s.cerr })
  unfolding uthread_sleep block unblock
  sleep-refused_zero n e le = ground (arith, i.current.1, ==ℤ→eq i.current.0.id (pos 0))

  sleep-overflow :
      (t : Thread)
      → s.heap s.running_thread ≡ some t
      → t.id ≢ pos 0
      → uthread_sleep int_max s ≡ fault
  unfolding uthread_sleep block
  sleep-overflow t at other = let f = i.current.1 in ground (arith, f, ==ℤ→eq t.id (pos 0))

  sleep-returns : (n : ℤ) → n ≢ int_max → Ends (uthread_sleep n s) (λ _ s'. Inv s')
  sleep-returns n few =
      let (t, at, is, known, live) = i.current in
      elim (Bool-cases (t.id ==ℤ pos 0)) [
        | inl e ↦ rw (sleep-refused_main n (==ℤ→eq t.id (pos 0) e)) (refused-Inv s _ i)
        | inr e ↦
            let other : t.id ≢ pos 0 = λ m. cc (eq→==ℤ t.id (pos 0) m) in
            awake n few t at is known live other refl
      ]
    where
      awake :
          (m : ℤ)
          → m ≢ int_max
          → (t : _) → s.heap s.running_thread ≡ some t
          → is_running t.state ≡ true
          → find t.id s.threads ≡ some s.running_thread
          → t.terminated ≡ false
          → t.id ≢ pos 0
          → t ≡ i.current.0
          → Ends (uthread_sleep m s) (λ _ s'. Inv s')
      awake (pos (suc m)) few t at is known live other same =
          sleep_self w s i t at is known live other m few
      awake (pos zero) few t at is known live other same =
          rw (sleep-refused_zero (pos 0) (subst (λ v. v.id ≢ pos 0) same other) refl)
            (refused-Inv s _ i)
      awake (negsuc m) few t at is known live other same =
          rw (sleep-refused_zero (negsuc m) (subst (λ v. v.id ≢ pos 0) same other) (ground arith))
            (refused-Inv s _ i)

  -- Where `sigprocmask` succeeds, in a state that meets the invariant: `uthread_sleep` of a number
  -- of quantums other than the greatest `int`, by any running thread, returns and leaves a state
  -- that meets the invariant: it neither exits nor is undefined. With the greatest `int`, and by
  -- any thread but the main one, it is undefined, since `num_quantums + 1` overflows.
  pub uthread_sleep-Inv :
      (n : ℤ)
      → (n ≢ int_max → Ends (uthread_sleep n s) (λ _ s'. Inv s'))
        × (n ≡ int_max
            → (t : Thread) → s.heap s.running_thread ≡ some t
            → t.id ≢ pos 0
            → uthread_sleep n s ≡ fault)
  uthread_sleep-Inv n = (
    sleep-returns n,
    λ e t at other. subst (λ m. uthread_sleep m s ≡ fault) (sym e) (sleep-overflow t at other),
  )

  block-eq_unknown :
      (k : ℤ)
      → find k s.threads ≡ none
      → uthread_block k s
        ≡ returned failed_lib (record s { masked = false; cerr = tid_err ∷ s.cerr })
  unfolding uthread_block block unblock
  block-eq_unknown k e = ground arith

  block-eq_main :
      find (pos 0) s.threads ≢ none
      → uthread_block (pos 0) s
        ≡ returned failed_lib (record s { masked = false; cerr = block_main_err ∷ s.cerr })
  unfolding uthread_block block unblock
  block-eq_main e = ground arith

  block-eq_known :
      (k : ℤ) (p : _)
      → find k s.threads ≡ some p
      → k ≢ pos 0
      → uthread_block k s ≡ block_thread k p (record s { masked = true })
  unfolding uthread_block block
  block-eq_known k p f other = ground (arith, ==ℤ→eq k (pos 0))

  -- Where `sigprocmask` succeeds: `uthread_block` of any id returns, in a state that meets the
  -- invariant, and leaves one that does: it neither exits nor is undefined.
  pub uthread_block-Inv : (k : ℤ) → Ends (uthread_block k s) (λ _ s'. Inv s')
  uthread_block-Inv k = elim (Option-cases (find k s.threads)) [
    | inl e ↦ rw (block-eq_unknown k e) (refused-Inv s _ i)
    | inr (p, f) ↦ elim (Bool-cases (k ==ℤ pos 0)) [
      | inl e ↦
          let main = ==ℤ→eq k (pos 0) e in
          subst (λ j. Ends (uthread_block j s) (λ _ s'. Inv s')) (sym main)
            (rw (block-eq_main (ground (arith, f, main))) (refused-Inv s _ i))
      | inr e ↦
          let other : k ≢ pos 0 = λ m. cc (eq→==ℤ k (pos 0) m) in
          let (t, at, named, how) = i.core.registered k p f in
          elim (Bool-cases (is_running t.state)) [
            | inl r ↦
                let here = running-Has s i k p t f at r in
                let (u, at', is, known, live) = i.current in
                let mine : u.id ≡ k = ground (arith, at, at', here, named) in
                subst (λ j. Ends (uthread_block j s) (λ _ s'. Inv s')) mine
                  (block_self w s i u at' is known live (λ m. other (ground (arith, m, mine))))
            | inr nr ↦
                let (apart, named', live) = stopped-Has s i k p t f at nr in
                rw (block-eq_known k p f other)
                  (block_other w s i k p t f at apart named' live other nr)
          ]
    ]
  ]

  resume-eq_terminated :
      (k : ℤ)
      → find k s.termination ≢ none
      → uthread_resume k s
        ≡ returned failed_lib (record s { masked = false; cerr = termination_err ∷ s.cerr })
  unfolding uthread_resume block unblock
  resume-eq_terminated k e = ground arith

  resume-eq_unknown :
      (k : ℤ)
      → find k s.termination ≡ none
      → find k s.threads ≡ none
      → uthread_resume k s
        ≡ returned failed_lib (record s { masked = false; cerr = tid_err ∷ s.cerr })
  unfolding uthread_resume block unblock
  resume-eq_unknown k e f = ground arith

  -- Where `sigprocmask` succeeds: `uthread_resume` of any id returns, in a state that meets the
  -- invariant, and leaves one that does: it neither exits nor is undefined.
  pub uthread_resume-Inv : (k : ℤ) → Ends (uthread_resume k s) (λ _ s'. Inv s')
  uthread_resume-Inv k = elim (Option-cases (find k s.termination)) [
    | inr (q, z) ↦ rw (resume-eq_terminated k (ground (arith, z))) (refused-Inv s _ i)
    | inl z ↦ elim (Option-cases (find k s.threads)) [
      | inl e ↦ rw (resume-eq_unknown k z e) (refused-Inv s _ i)
      | inr (p, f) ↦ resume_known w s i k p f z
    ]
  ]
