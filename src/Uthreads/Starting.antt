-- ===== src/Uthreads/Starting.antt =====
-- `uthread_init` of Uthreads_Library/uthreads.cpp.
use operating_systems.Base.{
  ℕ, suc, ◌/◌, ◌%◌, ℤ, pos, ltb_ℤ, ◌==ℤ◌, ==ℤ→eq, ◌≡◌, refl, ◌⊎◌, inl, inr, Bool-cases, true, false,
  none, some, [], ◌∷◌, arith,
}
use operating_systems.Uthreads.Containers.{find, insert}
use operating_systems.Uthreads.Machine.{
  running, is_running, Thread, Globals, returned, exited, sigaction_err, set_timer_err, update, Os,
  Works, block, unblock,
}
use operating_systems.Uthreads.Api.{success, addthread_from, addthread, set_timer, uthread_init}
use operating_systems.Uthreads.Invariant.{Core, Inv, Ends}

-- The global variables as the process starts: all empty.
pub record Blank (s : Globals) : Type 0 where
  pub no_objects : (p : ℕ) → s.heap p ≡ none
  pub no_sleeping : s.sleeping_threads ≡ []
  pub no_threads : s.threads ≡ []
  pub no_ready : s.ready_queue ≡ []
  pub no_blocked : s.blocked_threads ≡ []
  pub no_termination : s.termination ≡ []
  pub no_temp : s.temp_q ≡ []
  pub no_delete : s.to_delete_threads ≡ []
  pub no_waking : s.waking_up_threads ≡ []
  pub no_count : s.threads_cur_number ≡ pos 0

module _ ⦃os : Os⦄ (w : Works os) (s : Globals) (b : Blank s) (n : ℕ) where
  abbrev main_thread : Thread
  main_thread = record {
    state = running;
    id = pos 0;
    quantum = 1;
    pc = 0;
    sp = 0;
    stack = 0;
    entry_point = 0;
    env = record { jb_sp = 0; jb_pc = 0 };
    sleep_quantum = pos 0;
    terminated = false;
  }

  abbrev started_thread : Thread
  started_thread = record main_thread {
    env = record { jb_sp = os.translate_address 0; jb_pc = os.translate_address 0 };
  }

  abbrev started : Globals
  started = record s {
    heap =
        update (update (update s.heap s.next (some main_thread)) s.next (some main_thread)) s.next
          (some started_thread);
    next = suc s.next;
    threads = (pos 0, s.next) ∷ [];
    threads_cur_number = pos 1;
    running_thread = s.next;
    quantums_number = 1;
    sa_handler = true;
    timer = record {
      value_sec = suc n / 1000000;
      value_usec = suc n % 1000000;
      interval_sec = suc n / 1000000;
      interval_usec = suc n % 1000000;
    };
    masked = false;
  }

  init-eq :
      ltb_ℤ os.sigaction (pos 0) ≡ false
      → (os.setitimer ==ℤ pos 0) ≡ true
      → uthread_init (pos (suc n)) s ≡ returned success started
  unfolding uthread_init addthread addthread_from set_timer block unblock find insert
  init-eq e f = ground (arith, e, f)

  init-eq_sigaction :
      ltb_ℤ os.sigaction (pos 0) ≡ true
      → uthread_init (pos (suc n)) s
        ≡ exited 1
            (record started { masked = true; timer = s.timer; cerr = sigaction_err ∷ s.cerr })
  unfolding uthread_init addthread addthread_from set_timer block unblock find insert
  init-eq_sigaction e = ground (arith, e)

  init-eq_setitimer :
      ltb_ℤ os.sigaction (pos 0) ≡ false
      → (os.setitimer ==ℤ pos 0) ≡ false
      → uthread_init (pos (suc n)) s
        ≡ exited 1 (record started { masked = true; cerr = set_timer_err ∷ s.cerr })
  unfolding uthread_init addthread addthread_from set_timer block unblock find insert
  init-eq_setitimer e f = ground (arith, e, f)

  -- A thread that `threads` knows is the main thread.
  started-registered :
      (k : ℤ) (p : ℕ)
      → find k started.threads ≡ some p
      → (t : Thread) × (started.heap p ≡ some t)
        × (t.id ≡ k)
        × ((t.terminated ≡ false) × (is_running t.state ≡ false) ⊎ (p ≡ s.next))
  unfolding find
  started-registered k p f = elim (Bool-cases (pos 0 ==ℤ k)) [
    | inl e ↦
        let here : p ≡ s.next = ground (arith, e, f) in
        (started_thread, ground arith, ==ℤ→eq (pos 0) k e, inr here)
    | inr e ↦ absurd (ground (arith, e, f))
  ]

  started-Core : Core started
  unfolding find
  started-Core =
      rw (b.no_sleeping, b.no_ready, b.no_blocked, b.no_termination)
        (record {
          registered = started-registered;
          unique_ids = (refl, tt);
          ids = ((0, refl, omega arith), tt);
          counted = refl;
          ready_ok = tt;
          ready_distinct = tt;
          blocked_ok = tt;
          blocked_distinct = tt;
          sleeping_ok = tt;
          sleeping_unique = tt;
          zombies = tt;
          fresh = λ p le. ground (arith, b.no_objects p);
          temp_empty = b.no_temp;
          delete_empty = b.no_delete;
          waking_empty = b.no_waking;
          installed = refl;
          main_ok = (s.next, refl, inl refl);
        })

  started-Inv : Inv started
  unfolding find
  started-Inv = record {
    core = started-Core;
    current = (started_thread, ground arith, refl, refl, refl);
    unmasked = refl;
  }

  -- Where `sigprocmask` succeeds: `uthread_init` with a positive quantum, called on the empty
  -- global variables, returns 0 in a state that meets the invariant, when the operating system
  -- accepts the handler and the timer.
  pub uthread_init-Inv :
      ltb_ℤ os.sigaction (pos 0) ≡ false
      → (os.setitimer ==ℤ pos 0) ≡ true
      → Ends (uthread_init (pos (suc n)) s) (λ r s'. (r ≡ success) × Inv s')
  uthread_init-Inv e f = rw (init-eq e f) (refl, started-Inv)
