-- ===== src/Uthreads/Invariant/Wake.antt =====
-- `wake_sleepers`, the first part of `schedule_handler` in Uthreads_Library/uthreads.cpp.
use operating_systems.Base.{
  ℕ, suc, ℤ, pos, ◌≡◌, ◌≢◌, refl, sym, ◌∙◌, subst, ◌⊎◌, inl, inr, true, false, Option, some, List,
  [], ◌∷◌, ◌++◌, All, Distinct, In, In-snoc_left, In-snoc_self, arith,
}
use native.Mathlib.Decide.{ℕ_discrete}
use operating_systems.Uthreads.Containers.{find}
use operating_systems.Uthreads.Machine.{ThreadState, is_running, is_ready, Thread, Globals}
use operating_systems.Uthreads.Invariant.{Has, is_waiting, is_asleep}
use operating_systems.Uthreads.Invariant.Frame.{Agree}
use operating_systems.Uthreads.Invariant.Retire.{Caller}
use operating_systems.Uthreads.Invariant.Waking.{
  Slept-moved, Slept-ticked, Waking, counted-Core, counted_rest, move_heap, moved, ready_same,
  tick_heap, ticked,
}

abbrev pub CallerWith : (ℕ → Option Thread) → List (ℤ × ℕ) → ℕ → List (ℤ × ℕ) → Type 0
CallerWith h ts r todo =
    (t : Thread) × (h r ≡ some t)
    × (find t.id ts ≡ some r)
    × Caller t
    × (((n : ℕ) × (t.sleep_quantum ≡ pos (suc (suc n))))
        ⊎ All (λ e. e.1 ≢ r) todo
        ⊎ (is_asleep t.state ≡ false))

caller_tail :
    (h h' : ℕ → Option Thread) (ts : List (ℤ × ℕ)) (r p : ℕ) (k : ℤ) (rest : List (ℤ × ℕ))
    → Agree h h' p
    → r ≢ p
    → CallerWith h ts r ((k, p) ∷ rest)
    → CallerWith h' ts r rest
caller_tail h h' ts r p k rest agree other (t, at, known, how, due) = (
  t,
  agree r other ∙ at,
  known,
  how,
  elim due [ inl q ↦ inl q | inr (inl a) ↦ inr (inl a.1) | inr (inr f) ↦ inr (inr f) ],
)

module _ (s : Globals) (k : ℤ) (p : ℕ) (rest : List (ℤ × ℕ)) (w : Waking s ((k, p) ∷ rest))
    (t : Thread) (at : s.heap p ≡ some t) (is : is_asleep t.state ≡ true) (named : t.id ≡ k)
    (live : t.terminated ≡ false) where
  tick_Agree : Agree s.heap (tick_heap s p t) p
  tick_Agree q other = ground arith

  pub move_Agree : (st : ThreadState) → Agree s.heap (move_heap s p t st) p
  move_Agree st q other = ground arith

  pub move_at : (st : ThreadState) → move_heap s p t st p ≡ some (moved t st)
  move_at st = ground arith

  pub step_tick :
      (m : ℕ)
      → t.sleep_quantum ≡ pos (suc (suc m))
      → Waking (record s { heap = tick_heap s p t }) rest
  step_tick m q =
      let stops : is_running t.state ≡ false = ground arith in
      let core =
        counted-Core s w.core p t (ticked t) (tick_heap s p t) at tick_Agree (ground arith) refl
          refl live is (λ h. h) stops in
      let apart =
        counted_rest s w.core p t (ticked t) (tick_heap s p t) at tick_Agree (ground arith) refl
          refl live is (λ h. h) stops k rest named w.todo_unique w.todo_ok.1 in
      record {
        core =
            core s.ready_queue s.waking_up_threads
              (ready_same s w.core p t (ticked t) (tick_heap s p t) at tick_Agree (ground arith)
                refl refl live is (λ h. h) stops)
              w.core.ready_distinct (λ a i. i);
        slept = Slept-ticked s k p t at m s.sleeping_threads q w.slept;
        sleeping_unique = w.sleeping_unique;
        todo_ok = apart.0;
        todo_unique = w.todo_unique.1;
        caller = elim (ℕ_discrete s.running_thread p) [
          | yes here ↦
              let (u, at', known, how, due) = w.caller in
              let eq : u ≡ t = ground (arith, at, at', here) in
              (
                ticked t,
                ground (arith, here),
                subst (λ v. find v.id s.threads ≡ some s.running_thread) eq known,
                subst Caller eq how,
                inr (inl (subst (λ r. All (λ e. e.1 ≢ r) rest) (sym here) apart.1)),
              )
          | no other ↦
              caller_tail s.heap (tick_heap s p t) s.threads s.running_thread p k rest tick_Agree
                other w.caller
        ];
      }

  -- The caller is not due.
  caller_apart : t.sleep_quantum ≡ pos 1 → s.running_thread ≢ p
  caller_apart q here =
      let (u, at', known, how, due) = w.caller in
      let eq : u ≡ t = ground (arith, at, at', here) in
      elim due [
        | inl (n, l) ↦
            let l' = subst (λ v. v.sleep_quantum ≡ pos (suc (suc n))) eq l in ground (arith, q, l')
        | inr (inl a) ↦ a.0 (sym here)
        | inr (inr f) ↦ let f' = subst (λ v. is_asleep v.state ≡ false) eq f in cc
      ]

  pub step_move :
      (st : ThreadState) (ready' : List ℕ)
      → t.sleep_quantum ≡ pos 1
      → (is_waiting t.state ≡ true → is_waiting st ≡ true)
      → is_running st ≡ false
      → All (Has (move_heap s p t st) s.threads is_ready) ready'
      → Distinct ready'
      → ((q : ℕ) → In q s.ready_queue → In q ready')
      → Waking
          (record s {
            heap = move_heap s p t st;
            ready_queue = ready';
            waking_up_threads = s.waking_up_threads ++ t.id ∷ [];
          })
          rest
  step_move st ready' q keeps stops ok distinct more = record {
    core =
        counted-Core s w.core p t (moved t st) (move_heap s p t st) at (move_Agree st) (move_at st)
          refl refl live is keeps stops ready' (s.waking_up_threads ++ t.id ∷ []) ok distinct more;
    slept =
        Slept-moved s k p t at (move_heap s p t st) (s.waking_up_threads ++ t.id ∷ [])
          s.sleeping_threads (move_Agree st) (λ a i. In-snoc_left a s.waking_up_threads t.id i)
          (In-snoc_self s.waking_up_threads t.id) w.slept;
    sleeping_unique = w.sleeping_unique;
    todo_ok =
        (counted_rest s w.core p t (moved t st) (move_heap s p t st) at (move_Agree st) (move_at st)
          refl refl live is keeps stops k rest named w.todo_unique w.todo_ok.1).0;
    todo_unique = w.todo_unique.1;
    caller =
        caller_tail s.heap (move_heap s p t st) s.threads s.running_thread p k rest (move_Agree st)
          (caller_apart q) w.caller;
  }
