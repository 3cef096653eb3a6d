-- ===== src/Uthreads/Machine.antt =====
-- The data of Uthreads_Library/uthreads.cpp: a thread, the global variables, and the effects that
-- the functions have on them. A pointer is a number, 0 is the null pointer, and a read through a
-- pointer to no object is a fault (undefined behaviour in C++).
use operating_systems.Base.{
  ℕ, suc, ℤ, pos, ◌≡◌, ◌==◌, ◌==ℤ◌, if◌then◌else◌, Bool, true, false, Option, none, some, List, ◌∷◌,
}

-- enum STATE.
pub data ThreadState : Type 0 where
  running blocked ready sleep sleep_block : ThreadState

-- `t->state == ...`
abbrev pub is_running : ThreadState → Bool
is_running running = true
is_running _ = false

abbrev pub is_blocked : ThreadState → Bool
is_blocked blocked = true
is_blocked _ = false

abbrev pub is_ready : ThreadState → Bool
is_ready ready = true
is_ready _ = false

abbrev pub is_sleep : ThreadState → Bool
is_sleep sleep = true
is_sleep _ = false

abbrev pub is_sleep_block : ThreadState → Bool
is_sleep_block sleep_block = true
is_sleep_block _ = false

-- `sigjmp_buf`, as far as the library writes it: the two registers, in the mangled form.
pub record Context : Type 0 where
  pub jb_sp : ℕ
  pub jb_pc : ℕ

pub record Thread : Type 0 where
  pub state : ThreadState
  pub id : ℤ
  pub quantum : ℕ
  pub pc : ℕ
  pub sp : ℕ
  pub stack : ℕ
  pub entry_point : ℕ
  pub env : Context
  pub sleep_quantum : ℤ
  pub terminated : Bool

-- The texts that go to std::cerr.
pub data Message : Type 0 where
  sigaction_err set_timer_err quantum_err entry_ptr_err max_thr_err tid_err : Message
  block_main_err sleep_err negative_sleep_err termination_err : Message

-- `struct itimerval`.
pub record Timer : Type 0 where
  pub value_sec : ℕ
  pub value_usec : ℕ
  pub interval_sec : ℕ
  pub interval_usec : ℕ

pub record Globals : Type 0 where
  pub heap : ℕ → Option Thread
  pub stacks : List ℕ
  pub next : ℕ
  pub sleeping_threads : List (ℤ × ℕ)
  pub threads : List (ℤ × ℕ)
  pub ready_queue : List ℕ
  pub blocked_threads : List ℕ
  pub termination : List (ℤ × ℕ)
  pub running_thread : ℕ
  pub quantums_number : ℕ
  pub sa_handler : Bool
  pub timer : Timer
  pub temp_q : List ℕ
  pub to_delete_threads : List ℕ
  pub waking_up_threads : List ℤ
  pub threads_cur_number : ℤ
  pub masked : Bool
  pub cerr : List Message

-- How a call ends: it returns, or the process exits with a status, or it is undefined, or another
-- thread runs and the caller never does again.
pub data Outcome (A : Type 0) : Type 0 where
  returned : A → Globals → Outcome A
  exited : ℕ → Globals → Outcome A
  fault : Outcome A
  handed_over : Globals → Outcome A

abbrev pub M : Type 0 → Type 0
M A = Globals → Outcome A

abbrev pub pure : {A : Type 0} → A → M A
pure a s = returned a s

abbrev pub and_then : {A B : Type 0} → Outcome A → (A → M B) → Outcome B
and_then (returned a s) f = f a s
and_then (exited n s) f = exited n s
and_then fault f = fault
and_then (handed_over s) f = handed_over s

infixl 5 ◌>>=◌ ◌>>◌
abbrev pub ◌>>=◌ : {A B : Type 0} → M A → (A → M B) → M B
◌>>=◌ m f s = and_then (m s) f

abbrev pub ◌>>◌ : {B : Type 0} → M (Unit {0}) → M B → M B
m >> k = m >>= λ _. k

abbrev pub get : M Globals
get s = returned s s

abbrev pub modify : (Globals → Globals) → M (Unit {0})
modify f s = returned tt (f s)

-- `exit (n)`.
abbrev pub leave : {A : Type 0} → ℕ → M A
leave n s = exited n s

-- The end of a thread, when another one runs.
abbrev pub hand_over : {A : Type 0} → M A
hand_over s = handed_over s

abbrev pub or_fault : {A : Type 0} → Option A → M A
or_fault none s = fault
or_fault (some a) s = returned a s

abbrev pub update : (ℕ → Option Thread) → ℕ → Option Thread → ℕ → Option Thread
update h p v q = if p == q then v else h q

-- Reads of `*p`, writes to fields of `*p`, and `delete p`.
abbrev pub load : ℕ → M Thread
load p s = or_fault (s.heap p) s

abbrev pub alter : ℕ → (Thread → Thread) → M (Unit {0})
alter p f = do t ← load p; modify (λ s. record s { heap = update s.heap p (some (f t)) })

abbrev pub free : ℕ → M (Unit {0})
free p = do t ← load p; modify (λ s. record s { heap = update s.heap p none })

-- `new thread{...}`.
abbrev pub allocate : Thread → M ℕ
allocate t s =
    returned s.next (record s { heap = update s.heap s.next (some t); next = suc s.next })

abbrev pub print : Message → M (Unit {0})
print m = modify (λ s. record s { cerr = m ∷ s.cerr })

abbrev pub when : Bool → M (Unit {0}) → M (Unit {0})
when true m = m
when false m = pure tt

-- The flag of `sigprocmask`.
pub data How : Type 0 where
  sig_block sig_unblock : How

-- What the operating system and the C library answer.
pub record Os : Type 0 where
  pub sigprocmask : How → ℤ
  pub sigaction : ℤ
  pub setitimer : ℤ
  -- The address of the stack that is allocated as the n-th object.
  pub new_stack : ℕ → ℕ
  pub translate_address : ℕ → ℕ

-- `sigprocmask` succeeds: its arguments are valid (POSIX names no other error).
pub record Works (os : Os) : Type 0 where
  pub can_block : os.sigprocmask sig_block ≡ pos 0
  pub can_unblock : os.sigprocmask sig_unblock ≡ pos 0

module _ ⦃os : Os⦄ where
  unfoldable pub block : M (Unit {0})
  block s =
      if os.sigprocmask sig_block ==ℤ pos 0
      then modify (λ s'. record s' { masked = true }) s
      else leave 1 s

  unfoldable pub unblock : M (Unit {0})
  unblock s =
      if os.sigprocmask sig_unblock ==ℤ pos 0
      then modify (λ s'. record s' { masked = false }) s
      else leave 1 s

  pub block_lem : Works os → (s : Globals) → block s ≡ returned tt (record s { masked = true })
  unfolding block
  block_lem w s = rw (w.can_block)

  pub unblock_lem : Works os → (s : Globals) → unblock s ≡ returned tt (record s { masked = false })
  unfolding unblock
  unblock_lem w s = rw (w.can_unblock)
