-- ===== src/Uthreads/Invariant.antt =====
-- What holds of the global variables of Uthreads_Library/uthreads.cpp between the calls.
pub mod Frame
pub mod Switching
pub mod Dispatch
pub mod Retire
pub mod Delete
pub mod Waking
pub mod Wake
pub mod Sleepers
pub mod Handler
pub mod Caller
pub mod Others
pub mod Queues
pub mod Blocking
pub mod Resuming
pub mod Terminating
pub mod Spawning
pub mod Reap
use operating_systems.Base.{
  ℕ, ◌≤◌, ◌<◌, ℤ, pos, suc, ◌≡◌, ◌≢◌, refl, ◌⊎◌, Bool, true, false, ◌||◌, Option, none, some, List,
  [], ◌∷◌, length, All, Distinct, In,
}
use operating_systems.Uthreads.Containers.{find}
use operating_systems.Uthreads.Containers.Laws.{UniqueKeys}
use operating_systems.Uthreads.Machine.{
  ThreadState, is_running, is_ready, is_blocked, is_sleep, is_sleep_block, Thread, Message, Globals,
  Outcome, returned, exited, fault, handed_over, M, and_then,
}

abbrev pub is_waiting : ThreadState → Bool
is_waiting s = is_blocked s || is_sleep_block s

abbrev pub is_asleep : ThreadState → Bool
is_asleep s = is_sleep s || is_sleep_block s

-- `p` points to a live thread that `threads` knows, in one of the states.
abbrev pub Has : (ℕ → Option Thread) → List (ℤ × ℕ) → (ThreadState → Bool) → ℕ → Type 0
Has h ts in_state p =
    (t : Thread) × (h p ≡ some t)
    × (in_state t.state ≡ true)
    × (find t.id ts ≡ some p)
    × (t.terminated ≡ false)

-- An entry of `sleeping_threads`: its thread has at least one quantum left to sleep.
abbrev pub Asleep : (ℕ → Option Thread) → List (ℤ × ℕ) → ℤ × ℕ → Type 0
Asleep h ts e =
    (t : Thread) × (n : ℕ) × (h e.1 ≡ some t)
    × (is_asleep t.state ≡ true)
    × (t.id ≡ e.0)
    × (find t.id ts ≡ some e.1)
    × (t.terminated ≡ false)
    × (t.sleep_quantum ≡ pos (suc n))

-- An entry of `termination`: a thread that ended itself and that `threads` has forgotten.
abbrev pub Zombie : (ℕ → Option Thread) → List (ℤ × ℕ) → ℤ × ℕ → Type 0
Zombie h ts e =
    (t : Thread) × (h e.1 ≡ some t)
    × (is_running t.state ≡ true)
    × (t.id ≡ e.0)
    × (t.id ≢ pos 0)
    × (find t.id ts ≢ some e.1)
    × (t.terminated ≡ true)

-- There is at most one.
abbrev pub Zombies : (ℕ → Option Thread) → List (ℤ × ℕ) → List (ℤ × ℕ) → Type 0
Zombies h ts [] = Unit
Zombies h ts (e ∷ []) = Zombie h ts e
Zombies h ts (e ∷ f ∷ es) = ⊥

abbrev pub IsId : ℤ × ℕ → Type 0
IsId e = (i : ℕ) × (e.0 ≡ pos i) × (i < 100)

pub record Core (s : Globals) : Type 0 where
  -- Only `running_thread` may be in state RUNNING, or marked as terminated, while `threads` knows it.
  pub registered :
      (k : ℤ) (p : ℕ)
      → find k s.threads ≡ some p
      → (t : Thread) × (s.heap p ≡ some t)
        × (t.id ≡ k)
        × ((t.terminated ≡ false) × (is_running t.state ≡ false) ⊎ (p ≡ s.running_thread))
  pub unique_ids : UniqueKeys s.threads
  pub ids : All IsId s.threads
  pub counted : s.threads_cur_number ≡ pos (length s.threads)
  pub ready_ok : All (Has s.heap s.threads is_ready) s.ready_queue
  pub ready_distinct : Distinct s.ready_queue
  pub blocked_ok : All (Has s.heap s.threads is_waiting) s.blocked_threads
  pub blocked_distinct : Distinct s.blocked_threads
  pub sleeping_ok : All (Asleep s.heap s.threads) s.sleeping_threads
  pub sleeping_unique : UniqueKeys s.sleeping_threads
  pub zombies : Zombies s.heap s.threads s.termination
  pub fresh : (p : ℕ) → s.next ≤ p → s.heap p ≡ none
  pub temp_empty : s.temp_q ≡ []
  pub delete_empty : s.to_delete_threads ≡ []
  pub waking_empty : s.waking_up_threads ≡ []
  pub installed : s.sa_handler ≡ true
  -- The main thread runs or is ready.
  pub main_ok :
      (p : ℕ) × (find (pos 0) s.threads ≡ some p) × In p (s.running_thread ∷ s.ready_queue)

-- Between the calls a live thread runs, and the signals are not blocked.
pub record Inv (s : Globals) : Type 0 where
  pub core : Core s
  pub current : Has s.heap s.threads is_running s.running_thread
  pub unmasked : s.masked ≡ false

-- A call returns, and what it returns with meets a condition: it is not undefined and does not exit.
abbrev pub Ends : {A : Type 0} → Outcome A → (A → Globals → Type 0) → Type 0
Ends (returned a s) Q = Q a s
Ends (exited n s) Q = ⊥
Ends fault Q = ⊥
Ends (handed_over s) Q = ⊥

pub Ends-and_then :
    {A B : Type 0} (P : A → Globals → Type 0) (Q : B → Globals → Type 0) (r : Outcome A)
    (f : A → M B)
    → Ends r P
    → ((a : A) (s : Globals) → P a s → Ends (f a s) Q)
    → Ends (and_then r f) Q
Ends-and_then P Q (returned a s) f e h = h a s e
Ends-and_then P Q (exited n s) f e h = elim e [ ]
Ends-and_then P Q fault f e h = elim e [ ]
Ends-and_then P Q (handed_over s) f e h = elim e [ ]

-- The result of a call that ends.
pub Ends-returned :
    {A : Type 0} (Q : A → Globals → Type 0) (r : Outcome A)
    → Ends r Q
    → (a : A) × (s : Globals) × (r ≡ returned a s) × Q a s
Ends-returned Q (returned a s) e = (a, s, refl, e)
Ends-returned Q (exited n s) e = elim e [ ]
Ends-returned Q fault e = elim e [ ]
Ends-returned Q (handed_over s) e = elim e [ ]

-- The signal mask and the messages play no part in it.
pub masked-Core :
    (s : Globals) (b : Bool) (m : List Message) → Core s → Core (record s { masked = b; cerr = m })
masked-Core s b m c = record {
  registered = c.registered;
  unique_ids = c.unique_ids;
  ids = c.ids;
  counted = c.counted;
  ready_ok = c.ready_ok;
  ready_distinct = c.ready_distinct;
  blocked_ok = c.blocked_ok;
  blocked_distinct = c.blocked_distinct;
  sleeping_ok = c.sleeping_ok;
  sleeping_unique = c.sleeping_unique;
  zombies = c.zombies;
  fresh = c.fresh;
  temp_empty = c.temp_empty;
  delete_empty = c.delete_empty;
  waking_empty = c.waking_empty;
  installed = c.installed;
  main_ok = c.main_ok;
}
