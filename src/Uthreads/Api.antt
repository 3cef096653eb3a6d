-- ===== src/Uthreads/Api.antt =====
-- The calls of uthreads.h, as Uthreads_Library/uthreads.cpp defines them. A call that switches to
-- another thread ends the step of its caller: its result is what the caller gets when it runs again.
-- A thread that terminates itself hands over and gets none.
use operating_systems.Base.{
  ℕ, zero, suc, ◌+◌, ◌-◌, ◌/◌, ◌%◌, ◌^◌, ℤ, pos, negsuc, pos_part, suc_ℤ, succ_int, ltb_ℤ, ◌==◌,
  ◌==ℤ◌, if◌then◌else◌, true, false, not, ◌&&◌, none, some, List, [], ◌∷◌, ◌++◌,
}
use operating_systems.Uthreads.Containers.{find, insert}
use operating_systems.Uthreads.Machine.{
  running, blocked, ready, sleep, sleep_block, is_running, is_ready, is_sleep, is_sleep_block,
  Thread, Message, sigaction_err, set_timer_err, quantum_err, entry_ptr_err, max_thr_err, tid_err,
  block_main_err, sleep_err, negative_sleep_err, termination_err, M, pure, ◌>>=◌, ◌>>◌, get, modify,
  leave, hand_over, or_fault, load, alter, free, allocate, print, when, Os, block, unblock,
}
use operating_systems.Uthreads.Scheduler.{drop_stack, delete_thread, schedule_handler}

abbrev pub success : ℤ
success = pos 0

abbrev pub failed_lib : ℤ
failed_lib = negsuc 0

abbrev pub max_thread_num : ℕ
max_thread_num = 100

abbrev pub stack_size : ℕ
stack_size = 4096

abbrev pub million : ℕ
million = 1000000

unfoldable pub new_thread : ℕ → ℕ → Thread
new_thread stack entry_point = record {
  state = ready;
  id = negsuc 0;
  quantum = 0;
  pc = entry_point;
  sp = (stack + stack_size - 8) % 2 ^ 64;
  stack = stack;
  entry_point = entry_point;
  env = record { jb_sp = 0; jb_pc = 0 };
  sleep_quantum = pos 0;
  terminated = false;
}

-- The loop that frees every thread when the main thread is terminated. A thread other than the main
-- one runs on a stack that the loop frees: what follows is undefined.
unfoldable pub free_all : List (ℤ × ℕ) → M (Unit {0})
free_all [] = pure tt
free_all ((k, p) ∷ es) = do
  t ← load p
  s ← get
  when (not (t.id ==ℤ pos 0) && p == s.running_thread) (or_fault none)
  when (not (t.id ==ℤ pos 0)) (modify (λ s. record s { stacks = drop_stack t.stack s.stacks }))
  free p
  free_all es

-- The loop that pops `ready_queue`: the thread moves to `blocked_threads`, the others to `temp_q`.
unfoldable pub split_ready : ℤ → List ℕ → M (Unit {0})
split_ready tid [] = pure tt
split_ready tid (p ∷ ps) = do
  modify (λ s. record s { ready_queue = ps })
  t ← load p
  if not (t.id ==ℤ tid)
      then modify (λ s. record s { temp_q = s.temp_q ++ p ∷ [] })
      else modify (λ s. record s { blocked_threads = s.blocked_threads ++ p ∷ [] })
  split_ready tid ps

-- The loop that moves `temp_q` back to `ready_queue`.
unfoldable pub restore_ready : List ℕ → M (Unit {0})
restore_ready [] = pure tt
restore_ready (p ∷ ps) = do
  modify (λ s. record s { ready_queue = s.ready_queue ++ p ∷ []; temp_q = ps })
  restore_ready ps

unfoldable pub block_ready : ℤ → M (Unit {0})
block_ready tid = do s ← get; split_ready tid s.ready_queue; s' ← get; restore_ready s'.temp_q

-- The loop over `blocked_threads` in `uthread_resume`. The threads that stay are returned.
unfoldable pub resume_loop : ℤ → List ℕ → M (List ℕ)
resume_loop tid [] = pure []
resume_loop tid (p ∷ ps) = do
  t ← load p
  let rest = resume_loop tid ps
  if t.id ==ℤ tid
      then (do
        s ← get
        q ← or_fault (find tid s.threads)
        u ← load q
        if is_sleep_block u.state then alter p (λ t. record t { state = sleep }) else (do
          alter p (λ t. record t { state = ready })
          modify (λ s. record s { ready_queue = s.ready_queue ++ p ∷ [] }))
        pure ps)
      else (rest >>= λ qs. pure (p ∷ qs))

module _ ⦃os : Os⦄ where
  -- The loop of `addthread` from `i` on, with `left` values of `i` to go.
  unfoldable pub addthread_from : ℕ → ℕ → ℕ → M (Unit {0})
  addthread_from zero i p = do unblock; print max_thr_err; leave 1
  addthread_from (suc left) i p = do
    s ← get
    elim (find (pos i) s.threads) [
      | none ↦ (do
        alter p (λ t. record t { id = pos i })
        modify λ s. record s {
          threads = insert (pos i) p s.threads;
          threads_cur_number = suc_ℤ s.threads_cur_number;
        }
        unblock)
      | some q ↦ addthread_from left (i + 1) p
    ]

  unfoldable pub addthread : ℕ → M (Unit {0})
  addthread p = do block; addthread_from max_thread_num 0 p

  unfoldable pub set_timer : ℕ → ℕ → M ℤ
  set_timer tv_sec tv_usec = do
    block
    modify (λ s. record s { sa_handler = true })
    when (ltb_ℤ os.sigaction (pos 0)) (print sigaction_err >> leave 1)
    modify λ s. record s {
      timer = record {
        value_sec = tv_sec;
        value_usec = tv_usec;
        interval_sec = tv_sec;
        interval_usec = tv_usec;
      };
    }
    when (not (os.setitimer ==ℤ pos 0)) (print set_timer_err >> leave 1)
    unblock
    pure success

  unfoldable pub uthread_init : ℤ → M ℤ
  uthread_init quantum_usecs =
      if ltb_ℤ (pos 0) quantum_usecs
      then (do
        p ← allocate (record {
          state = running;
          id = pos 0;
          quantum = 1;
          pc = 0;
          sp = 0;
          stack = 0;
          entry_point = 0;
          env = record { jb_sp = 0; jb_pc = 0 };
          sleep_quantum = pos 0;
          terminated = false;
        })
        modify (λ s. record s { quantums_number = 1 })
        addthread p
        modify (λ s. record s { running_thread = p })
        alter p λ t. record t {
          env = record { jb_sp = os.translate_address t.sp; jb_pc = os.translate_address t.pc };
        }
        set_timer (pos_part quantum_usecs / million) (pos_part quantum_usecs % million))
      else (do print quantum_err; pure failed_lib)

  -- A failure that is reported with the signals blocked.
  abbrev refuse : {A : Type 0} → Message → A → M A
  refuse m a = do print m; unblock; pure a

  unfoldable pub uthread_spawn : ℕ → M ℤ
  uthread_spawn entry_point = do
    block
    s ← get
    if entry_point == 0
        then refuse entry_ptr_err failed_lib
        else if not (ltb_ℤ s.threads_cur_number (pos max_thread_num))
        then refuse max_thr_err failed_lib
        else (do
          modify (λ s. record s { stacks = os.new_stack s.next ∷ s.stacks })
          p ← allocate (new_thread (os.new_stack s.next) entry_point)
          addthread p
          modify (λ s. record s { ready_queue = s.ready_queue ++ p ∷ [] })
          alter p λ t. record t {
            env = record { jb_sp = os.translate_address t.sp; jb_pc = os.translate_address t.pc };
          }
          unblock
          t ← load p
          pure t.id)

  -- `sa.sa_handler (0)`.
  unfoldable pub call_handler : M (Unit {0})
  call_handler = do s ← get; if s.sa_handler then schedule_handler else or_fault none

  unfoldable pub uthread_terminate : ℤ → M ℤ
  uthread_terminate tid = do
    block
    s ← get
    elim (find tid s.threads) [
      | none ↦ refuse tid_err failed_lib
      | some p ↦ (do
        t ← load p
        if not (t.id ==ℤ pos 0)
            then (if is_running t.state
                then (do
                  alter p (λ t. record t { terminated = true })
                  unblock
                  call_handler
                  hand_over)
                else (do delete_thread p; unblock; pure success))
            else (do free_all s.threads; modify (λ s. record s { threads = [] }); leave 0))
    ]

  -- The three cases of `uthread_block` for the thread that `p` points to.
  unfoldable pub block_thread : ℤ → ℕ → M ℤ
  block_thread tid p = do
    t ← load p
    if is_running t.state
        then (do
          alter p (λ t. record t { state = blocked })
          modify (λ s. record s { blocked_threads = s.blocked_threads ++ p ∷ [] })
          unblock
          call_handler
          pure success)
        else (do
          when (is_sleep t.state) (do
            alter p (λ t. record t { state = sleep_block })
            modify (λ s. record s { blocked_threads = s.blocked_threads ++ p ∷ [] }))
          when (is_ready t.state) (do alter p (λ t. record t { state = blocked }); block_ready tid)
          unblock
          pure success)

  unfoldable pub uthread_block : ℤ → M ℤ
  uthread_block tid = do
    block
    s ← get
    elim (find tid s.threads) [
      | none ↦ refuse tid_err failed_lib
      | some p ↦ if tid ==ℤ pos 0 then refuse block_main_err failed_lib else block_thread tid p
    ]

  unfoldable pub uthread_resume : ℤ → M ℤ
  uthread_resume tid = do
    block
    s ← get
    elim (find tid s.termination) [
      | some _ ↦ refuse termination_err failed_lib
      | none ↦ elim (find tid s.threads) [
        | none ↦ refuse tid_err failed_lib
        | some _ ↦ (do
          others ← resume_loop tid s.blocked_threads
          modify (λ s. record s { blocked_threads = others })
          unblock
          pure success)
      ]
    ]

  unfoldable pub uthread_sleep : ℤ → M ℤ
  uthread_sleep num_quantums = do
    block
    s ← get
    r ← load s.running_thread
    if r.id ==ℤ pos 0
        then refuse sleep_err failed_lib
        else if not (ltb_ℤ (pos 0) num_quantums)
        then refuse negative_sleep_err failed_lib
        else (do
          p ← or_fault (find r.id s.threads)
          modify (λ s. record s { sleeping_threads = insert r.id p s.sleeping_threads })
          alter s.running_thread (λ t. record t { state = sleep })
          total ← or_fault (succ_int num_quantums)
          alter s.running_thread (λ t. record t { sleep_quantum = total })
          unblock
          call_handler
          pure success)

  unfoldable pub uthread_get_tid : M ℤ
  uthread_get_tid = do s ← get; t ← load s.running_thread; pure t.id

  unfoldable pub uthread_get_total_quantums : M ℕ
  uthread_get_total_quantums = do s ← get; pure s.quantums_number

  unfoldable pub uthread_get_quantums : ℤ → M ℤ
  uthread_get_quantums tid = do
    block
    s ← get
    elim (find tid s.threads) [
      | some p ↦ (do unblock; t ← load p; pure (pos t.quantum))
      | none ↦ refuse tid_err failed_lib
    ]
