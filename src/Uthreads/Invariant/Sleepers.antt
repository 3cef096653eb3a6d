-- ===== src/Uthreads/Invariant/Sleepers.antt =====
-- The loop of `wake_sleepers` in Uthreads_Library/uthreads.cpp, and the removal of those that woke.
use operating_systems.Base.{
  ℕ, zero, suc, ℤ, pos, ◌≡◌, ◌≢◌, refl, subst, ◌⊎◌, inl, inr, Bool-cases, true, false, some, List,
  [], ◌∷◌, ◌++◌, All, All-mono, All-snoc, Distinct-snoc, In, In-snoc_left, arith,
}
use operating_systems.Uthreads.Containers.{find, erase}
use operating_systems.Uthreads.Containers.Laws.{UniqueKeys, erase-UniqueKeys, erase-ne, All-erase}
use operating_systems.Uthreads.Machine.{ready, blocked, is_ready, is_sleep_block, Thread, Globals}
use operating_systems.Uthreads.Scheduler.{wake, wake_all, erase_all, wake_sleepers}
use operating_systems.Uthreads.Invariant.{Has, Asleep, is_asleep, Core, Ends, Ends-and_then}
use operating_systems.Uthreads.Invariant.Frame.{Has-frame, Has-ne}
use operating_systems.Uthreads.Invariant.Retire.{Calls}
use operating_systems.Uthreads.Invariant.Waking.{
  Waking, moved, move_heap, wake-eq_tick, wake-eq_blocked, wake-eq_ready,
}
use operating_systems.Uthreads.Invariant.Wake.{move_Agree, move_at, step_tick, step_move}

-- The thread at `p` wakes up in its last quantum.
step_due :
    (s : Globals) (k : ℤ) (p : ℕ) (rest : List (ℤ × ℕ)) (w : Waking s ((k, p) ∷ rest)) (t : Thread)
    → s.heap p ≡ some t
    → is_asleep t.state ≡ true
    → t.id ≡ k
    → find t.id s.threads ≡ some p
    → t.terminated ≡ false
    → t.sleep_quantum ≡ pos 1
    → Ends (wake (k, p) s) (λ _ s'. Waking s' rest)
step_due s k p rest w t at is named known live q = elim (Bool-cases (is_sleep_block t.state)) [
  | inl both ↦ rw (wake-eq_blocked s k p t at q both) (
      step_move s k p rest w t at is named live blocked s.ready_queue q (λ _. refl) refl
        (Has-frame s.heap (move_heap s p t blocked) s.threads p
          (move_Agree s k p rest w t at is named live blocked) t at is_ready s.ready_queue
          (ground arith) w.core.ready_ok)
        w.core.ready_distinct (λ a i. i))
  | inr only ↦
      let h' = move_heap s p t ready in
      let agree = move_Agree s k p rest w t at is named live ready in
      let awake : is_ready t.state ≡ false = ground arith in
      rw (wake-eq_ready s k p t at q only) (
        step_move s k p rest w t at is named live ready (s.ready_queue ++ p ∷ []) q
          (λ waits. absurd (ground (arith, waits))) refl
          (All-snoc (Has h' s.threads is_ready) s.ready_queue p
            (Has-frame s.heap h' s.threads p agree t at is_ready s.ready_queue awake
              w.core.ready_ok)
            (moved t ready, move_at s k p rest w t at is named live ready, refl, known, live))
          (Distinct-snoc s.ready_queue p
            (Has-ne s.heap h' s.threads p agree t at is_ready s.ready_queue awake w.core.ready_ok)
            w.core.ready_distinct)
          (λ a i. In-snoc_left a s.ready_queue p i))
]

wake-Waking :
    (s : Globals) (e : ℤ × ℕ) (rest : List (ℤ × ℕ))
    → Waking s (e ∷ rest)
    → Ends (wake e s) (λ _ s'. Waking s' rest)
wake-Waking s (k, p) rest w =
    let (t, n, at, is, named, known, live, left) = w.todo_ok.0 in go t n at is named known live left
  where
    go :
        (t : Thread) (n : ℕ)
        → s.heap p ≡ some t
        → is_asleep t.state ≡ true
        → t.id ≡ k
        → find t.id s.threads ≡ some p
        → t.terminated ≡ false
        → t.sleep_quantum ≡ pos (suc n)
        → Ends (wake (k, p) s) (λ _ s'. Waking s' rest)
    go t zero at is named known live left = step_due s k p rest w t at is named known live left
    go t (suc m) at is named known live left =
        rw (wake-eq_tick s k p t at m left) (step_tick s k p rest w t at is named live m left)

wake_all-Waking :
    (es : List (ℤ × ℕ)) (s : Globals) → Waking s es → Ends (wake_all es s) (λ _ s'. Waking s' [])
unfolding wake_all
wake_all-Waking [] s w = w
wake_all-Waking (e ∷ es) s w =
    Ends-and_then (λ _ s'. Waking s' es) (λ _ s'. Waking s' []) (wake e s) (λ _. wake_all es)
      (wake-Waking s e es w) (λ _ s' w'. wake_all-Waking es s' w')

erase_all-All :
    (P : ℤ × ℕ → Type 0) (ks : List ℤ) (m : List (ℤ × ℕ))
    → UniqueKeys m
    → All (λ e. P e ⊎ In e.0 ks) m
    → All P (erase_all ks m) × UniqueKeys (erase_all ks m)
unfolding erase_all
erase_all-All P [] m u a = (all-left m a, u)
  where
    all-left : (xs : List (ℤ × ℕ)) → All (λ e. P e ⊎ ⊥) xs → All P xs
    all-left [] b = tt
    all-left (x ∷ xs) (inl p, b) = (p, all-left xs b)
    all-left (x ∷ xs) (inr h, b) = absurd h
erase_all-All P (k ∷ ks) m u a =
    erase_all-All P ks (erase k m) (erase-UniqueKeys k m u)
      (others (erase k m) (erase-ne k m u) (All-erase (λ e. P e ⊎ In e.0 (k ∷ ks)) k m a))
  where
    others :
        (xs : List (ℤ × ℕ))
        → All (λ e. e.0 ≢ k) xs
        → All (λ e. P e ⊎ In e.0 (k ∷ ks)) xs
        → All (λ e. P e ⊎ In e.0 ks) xs
    others [] n b = tt
    others (x ∷ xs) n (inl p, b) = (inl p, others xs n.1 b)
    others (x ∷ xs) n (inr (inl e), b) = absurd (n.0 e)
    others (x ∷ xs) n (inr (inr i), b) = (inr i, others xs n.1 b)

-- A caller that has just gone to sleep has at least one quantum to go after this one.
abbrev pub NotDue : Globals → Type 0
NotDue s =
    (t : Thread) × (s.heap s.running_thread ≡ some t)
    × ((is_asleep t.state ≡ false) ⊎ ((n : ℕ) × (t.sleep_quantum ≡ pos (suc (suc n)))))

pub wake_sleepers-Core :
    (s : Globals)
    → Core s
    → Calls s
    → NotDue s
    → Ends (wake_sleepers s) (λ _ s'. Core s' × Calls s')
unfolding wake_sleepers
wake_sleepers-Core s c (t, at, known, how) (u, at', due) =
    Ends-and_then (λ _ s'. Waking s' []) (λ _ s'. Core s' × Calls s')
      (wake_all s.sleeping_threads s) _ (wake_all-Waking s.sleeping_threads s start) finish
  where
    same : u ≡ t
    same = ground (arith, at, at')

    start : Waking s s.sleeping_threads
    start = record {
      core = record {
        registered = c.registered;
        unique_ids = c.unique_ids;
        ids = c.ids;
        counted = c.counted;
        ready_ok = c.ready_ok;
        ready_distinct = c.ready_distinct;
        blocked_ok = c.blocked_ok;
        blocked_distinct = c.blocked_distinct;
        sleeping_ok = tt;
        sleeping_unique = tt;
        zombies = c.zombies;
        fresh = c.fresh;
        temp_empty = c.temp_empty;
        delete_empty = c.delete_empty;
        waking_empty = refl;
        installed = c.installed;
        main_ok = c.main_ok;
      };
      slept = All-mono s.sleeping_threads (λ e a. inl a) c.sleeping_ok;
      sleeping_unique = c.sleeping_unique;
      todo_ok = c.sleeping_ok;
      todo_unique = c.sleeping_unique;
      caller = (
        t,
        at,
        known,
        how,
        elim due [
          | inl f ↦ inr (inr (subst (λ v. is_asleep v.state ≡ false) same f))
          | inr (n, l) ↦ inl (n, subst (λ v. v.sleep_quantum ≡ pos (suc (suc n))) same l)
        ],
      );
    }

    finish :
        (a : Unit {0}) (s' : Globals)
        → Waking s' []
        → Core (record s' {
          sleeping_threads = erase_all s'.waking_up_threads s'.sleeping_threads;
          waking_up_threads = [];
        })
          × Calls (record s' {
            sleeping_threads = erase_all s'.waking_up_threads s'.sleeping_threads;
            waking_up_threads = [];
          })
    finish a s' w =
        let rest =
          erase_all-All (Asleep s'.heap s'.threads) s'.waking_up_threads s'.sleeping_threads
            w.sleeping_unique w.slept in
        let b = w.core in
        (
          record {
            registered = b.registered;
            unique_ids = b.unique_ids;
            ids = b.ids;
            counted = b.counted;
            ready_ok = b.ready_ok;
            ready_distinct = b.ready_distinct;
            blocked_ok = b.blocked_ok;
            blocked_distinct = b.blocked_distinct;
            sleeping_ok = rest.0;
            sleeping_unique = rest.1;
            zombies = b.zombies;
            fresh = b.fresh;
            temp_empty = b.temp_empty;
            delete_empty = b.delete_empty;
            waking_empty = refl;
            installed = b.installed;
            main_ok = b.main_ok;
          },
          (w.caller.0, w.caller.1, w.caller.2, w.caller.3),
        )
