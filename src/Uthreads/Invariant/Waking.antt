-- ===== src/Uthreads/Invariant/Waking.antt =====
-- One thread that `schedule_handler` of Uthreads_Library/uthreads.cpp wakes: what changes.
use operating_systems.Base.{
  ℕ, suc, ℤ, pos, pred_ℤ, ◌≡◌, ◌≢◌, refl, ◌∙◌, subst, ◌⊎◌, inl, inr, true, false, Option, some,
  List, [], ◌∷◌, ◌++◌, All, All-mono, Distinct, In, arith,
}
use native.Mathlib.Decide.{ℕ_discrete}
use operating_systems.Uthreads.Containers.{find}
use operating_systems.Uthreads.Containers.Laws.{UniqueKeys, find-none-ne}
use operating_systems.Uthreads.Machine.{
  ThreadState, ready, blocked, is_running, is_ready, is_sleep_block, Thread, Globals, returned,
  update,
}
use operating_systems.Uthreads.Scheduler.{wake}
use operating_systems.Uthreads.Invariant.{Has, Asleep, is_waiting, is_asleep, Core}
use operating_systems.Uthreads.Invariant.Frame.{
  Agree, Has-frame, Has-change, Asleep-frame_ne, Zombies-frame, fresh-frame,
}
use operating_systems.Uthreads.Invariant.Retire.{Caller}

-- The state without its sleepers: what the loop keeps of `Core`.
abbrev pub bare : Globals → Globals
bare s = record s { sleeping_threads = []; waking_up_threads = [] }

-- A thread sleeps, or is on the list of those to take out.
abbrev pub Slept : Globals → ℤ × ℕ → Type 0
Slept s e = Asleep s.heap s.threads e ⊎ In e.0 s.waking_up_threads

-- One sleeper `t` at `p` counts down and becomes `t'`.
module _ (s : Globals) (c : Core (bare s)) (p : ℕ) (t t' : Thread) (h' : ℕ → Option Thread)
    (at : s.heap p ≡ some t) (agree : Agree s.heap h' p) (now : h' p ≡ some t')
    (same_id : t'.id ≡ t.id) (same_mark : t'.terminated ≡ t.terminated)
    (live : t.terminated ≡ false) (is : is_asleep t.state ≡ true)
    (keeps : is_waiting t.state ≡ true → is_waiting t'.state ≡ true)
    (stops : is_running t'.state ≡ false) where
  pub counted-Core :
      (ready' : List ℕ) (woken : List ℤ)
      → All (Has h' s.threads is_ready) ready'
      → Distinct ready'
      → ((q : ℕ) → In q s.ready_queue → In q ready')
      → Core (bare (record s { heap = h'; ready_queue = ready'; waking_up_threads = woken }))
  counted-Core ready' woken ok distinct more = record {
    registered = λ k q f.
        let (u, at', named, how) = c.registered k q f in
        elim (ℕ_discrete q p) [
          | yes here ↦ (
            t',
            rw here now,
            same_id ∙ ground (arith, at, at', named, here),
            inl (same_mark ∙ live, stops),
          )
          | no other ↦ (u, agree q other ∙ at', named, how)
        ];
    unique_ids = c.unique_ids;
    ids = c.ids;
    counted = c.counted;
    ready_ok = ok;
    ready_distinct = distinct;
    blocked_ok =
        Has-change s.heap h' s.threads p agree t at is_waiting s.blocked_threads t' now same_id
          same_mark keeps c.blocked_ok;
    blocked_distinct = c.blocked_distinct;
    sleeping_ok = tt;
    sleeping_unique = tt;
    zombies = Zombies-frame s.heap h' s.threads p agree t at s.termination live c.zombies;
    fresh = fresh-frame s.heap h' s.threads p agree t at s.next c.fresh;
    temp_empty = c.temp_empty;
    delete_empty = c.delete_empty;
    waking_empty = refl;
    installed = c.installed;
    main_ok =
        (c.main_ok.0, c.main_ok.1, elim c.main_ok.2 [ inl m ↦ inl m | inr m ↦ inr (more _ m) ]);
  }

  pub ready_same : All (Has h' s.threads is_ready) s.ready_queue
  ready_same =
      Has-frame s.heap h' s.threads p agree t at is_ready s.ready_queue (ground arith) c.ready_ok

  pub counted_rest :
      (k : ℤ) (rest : List (ℤ × ℕ))
      → t.id ≡ k
      → UniqueKeys ((k, p) ∷ rest)
      → All (Asleep s.heap s.threads) rest
      → All (Asleep h' s.threads) rest × All (λ x. x.1 ≢ p) rest
  counted_rest k rest named u a = (Asleep-frame_ne s.heap h' s.threads p agree rest apart a, apart)
    where
      both :
          (xs : List (ℤ × ℕ))
          → All (λ x. x.0 ≢ k) xs
          → All (Asleep s.heap s.threads) xs
          → All (λ x. x.1 ≢ p) xs
      both [] n b = tt
      both (x ∷ xs) n b = ((λ here. n.0 (ground (arith, at, b.0, named, here))), both xs n.1 b.1)

      apart : All (λ x. x.1 ≢ p) rest
      apart = both rest (find-none-ne k rest u.0) a

-- The state in which the loop has the entries `todo` to go. The caller, if it sleeps, is not due.
pub record Waking (s : Globals) (todo : List (ℤ × ℕ)) : Type 0 where
  pub core : Core (bare s)
  pub slept : All (Slept s) s.sleeping_threads
  pub sleeping_unique : UniqueKeys s.sleeping_threads
  pub todo_ok : All (Asleep s.heap s.threads) todo
  pub todo_unique : UniqueKeys todo
  pub caller :
      (t : Thread) × (s.heap s.running_thread ≡ some t)
      × (find t.id s.threads ≡ some s.running_thread)
      × Caller t
      × (((n : ℕ) × (t.sleep_quantum ≡ pos (suc (suc n))))
          ⊎ All (λ e. e.1 ≢ s.running_thread) todo
          ⊎ (is_asleep t.state ≡ false))

-- A sleeper that has more than one quantum left, and the two ways in which one wakes up.
abbrev pub ticked : Thread → Thread
ticked t = record t { sleep_quantum = pred_ℤ t.sleep_quantum }

abbrev pub moved : Thread → ThreadState → Thread
moved t st = record t { sleep_quantum = pred_ℤ t.sleep_quantum; state = st }

abbrev pub tick_heap : Globals → ℕ → Thread → ℕ → Option Thread
tick_heap s p t = update s.heap p (some (ticked t))

abbrev pub move_heap : Globals → ℕ → Thread → ThreadState → ℕ → Option Thread
move_heap s p t st = update (tick_heap s p t) p (some (moved t st))

module _ (s : Globals) (k : ℤ) (p : ℕ) (t : Thread) (at : s.heap p ≡ some t) where
  pub wake-eq_tick :
      (m : ℕ)
      → t.sleep_quantum ≡ pos (suc (suc m))
      → wake (k, p) s ≡ returned tt (record s { heap = tick_heap s p t })
  unfolding wake
  wake-eq_tick m q = ground arith

  pub wake-eq_blocked :
      t.sleep_quantum ≡ pos 1
      → is_sleep_block t.state ≡ true
      → wake (k, p) s
        ≡ returned tt (record s {
          heap = move_heap s p t blocked;
          waking_up_threads = s.waking_up_threads ++ t.id ∷ [];
        })
  unfolding wake
  wake-eq_blocked q is = ground arith

  pub wake-eq_ready :
      t.sleep_quantum ≡ pos 1
      → is_sleep_block t.state ≡ false
      → wake (k, p) s
        ≡ returned tt (record s {
          heap = move_heap s p t ready;
          ready_queue = s.ready_queue ++ p ∷ [];
          waking_up_threads = s.waking_up_threads ++ t.id ∷ [];
        })
  unfolding wake
  wake-eq_ready q is = ground arith

  -- The sleepers after a wake-up of the one at `p`.
  pub Slept-moved :
      (h' : ℕ → Option Thread) (woken : List ℤ) (xs : List (ℤ × ℕ))
      → Agree s.heap h' p
      → ((a : ℤ) → In a s.waking_up_threads → In a woken)
      → In t.id woken
      → All (Slept s) xs
      → All (λ e. Asleep h' s.threads e ⊎ In e.0 woken) xs
  Slept-moved h' woken xs agree more here = All-mono xs step
    where
      step : (e : ℤ × ℕ) → Slept s e → Asleep h' s.threads e ⊎ In e.0 woken
      step e (inr i) = inr (more e.0 i)
      step e (inl (u, n, at', is, named, f, live, left)) = elim (ℕ_discrete e.1 p) [
        | yes same ↦ inr (subst (λ i. In i woken) (ground (arith, at, at', named, same)) here)
        | no other ↦ inl (u, n, agree e.1 other ∙ at', is, named, f, live, left)
      ]

  pub Slept-ticked :
      (m : ℕ) (xs : List (ℤ × ℕ))
      → t.sleep_quantum ≡ pos (suc (suc m))
      → All (Slept s) xs
      → All (λ e. Asleep (tick_heap s p t) s.threads e ⊎ In e.0 s.waking_up_threads) xs
  Slept-ticked m xs q = All-mono xs step
    where
      step :
          (e : ℤ × ℕ)
          → Slept s e
          → Asleep (tick_heap s p t) s.threads e ⊎ In e.0 s.waking_up_threads
      step e (inr i) = inr i
      step e (inl (u, n, at', is, named, f, live, left)) = elim (ℕ_discrete e.1 p) [
        | yes same ↦
            let eq : u ≡ t = ground (arith, at, at', same) in
            inl (
              ticked t,
              m,
              ground (arith, same),
              subst (λ v. is_asleep v.state ≡ true) eq is,
              subst (λ v. v.id ≡ e.0) eq named,
              subst (λ v. find v.id s.threads ≡ some e.1) eq f,
              subst (λ v. v.terminated ≡ false) eq live,
              ground (arith, q),
            )
        | no other ↦ inl (u, n, ground (arith, at', other), is, named, f, live, left)
      ]
