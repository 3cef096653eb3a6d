-- ===== src/Uthreads/Scheduler.antt =====
-- `delete_thread` and `schedule_handler` of Uthreads_Library/uthreads.cpp.
use operating_systems.Base.{
  ℕ, ◌+◌, ℤ, pos, pred_ℤ, ◌==◌, ◌==ℤ◌, if◌then◌else◌, not, ◌&&◌, ◌||◌, none, List, [], ◌∷◌, ◌++◌,
}
use operating_systems.Uthreads.Containers.{find, insert, erase}
use operating_systems.Uthreads.Machine.{
  running, blocked, ready, is_blocked, is_ready, is_sleep, is_sleep_block, Thread, M, pure, ◌>>=◌,
  ◌>>◌, get, modify, or_fault, load, alter, free, when, Os, block, unblock,
}

-- `delete[] stack`, which ends the life of the array where it is allocated. A stack is freed with the
-- object of its thread, and a second `delete` of that object is a fault.
unfoldable pub drop_stack : ℕ → List ℕ → List ℕ
drop_stack a [] = []
drop_stack a (b ∷ bs) = if b == a then bs else b ∷ drop_stack a bs

-- The list without the first thread that has the id.
unfoldable pub erase_id : ℤ → List ℕ → M (List ℕ)
erase_id id [] = pure []
erase_id id (p ∷ ps) = do
  t ← load p
  let rest = erase_id id ps
  if t.id ==ℤ id then pure ps else (rest >>= λ qs. pure (p ∷ qs))

-- The loop that pops `ready_queue` and keeps the threads with another id in `to_delete_threads`.
unfoldable pub drain_ready : ℤ → List ℕ → M (Unit {0})
drain_ready id [] = pure tt
drain_ready id (p ∷ ps) = do
  modify (λ s. record s { ready_queue = ps })
  t ← load p
  when (not (t.id ==ℤ id))
      (modify (λ s. record s { to_delete_threads = s.to_delete_threads ++ p ∷ [] }))
  drain_ready id ps

-- The loop that moves `to_delete_threads` back to `ready_queue`.
unfoldable pub refill_ready : List ℕ → M (Unit {0})
refill_ready [] = pure tt
refill_ready (p ∷ ps) = do
  modify (λ s. record s { ready_queue = s.ready_queue ++ p ∷ []; to_delete_threads = ps })
  refill_ready ps

unfoldable pub leave_ready_queue : ℤ → M (Unit {0})
leave_ready_queue id = do
  s ← get
  drain_ready id s.ready_queue
  s' ← get
  refill_ready s'.to_delete_threads

unfoldable pub release_thread : ℕ → Thread → M (Unit {0})
release_thread p d = do
  modify (λ s. record s { stacks = drop_stack d.stack s.stacks })
  when (not d.terminated) (
      modify λ s. record s {
        threads = erase d.id s.threads;
        threads_cur_number = pred_ℤ s.threads_cur_number;
      })
  free p

module _ ⦃os : Os⦄ where
  unfoldable pub delete_thread : ℕ → M (Unit {0})
  delete_thread p = do
    block
    d ← load p
    s ← get
    others ← erase_id d.id s.blocked_threads
    modify (λ s. record s { blocked_threads = others })
    when (is_sleep d.state || is_sleep_block d.state)
        (modify λ s. record s { sleeping_threads = erase d.id s.sleeping_threads })
    when (is_ready d.state) (leave_ready_queue d.id)
    when (not (d.id ==ℤ pos 0)) (release_thread p d)
    unblock

-- The body of the loop over `sleeping_threads`.
unfoldable pub wake : ℤ × ℕ → M (Unit {0})
wake (k, p) = do
  alter p (λ t. record t { sleep_quantum = pred_ℤ t.sleep_quantum })
  t ← load p
  when (t.sleep_quantum ==ℤ pos 0) (do
    if is_sleep_block t.state then alter p (λ t. record t { state = blocked }) else (do
      alter p (λ t. record t { state = ready })
      modify (λ s. record s { ready_queue = s.ready_queue ++ p ∷ [] }))
    modify (λ s. record s { waking_up_threads = s.waking_up_threads ++ t.id ∷ [] }))

unfoldable pub wake_all : List (ℤ × ℕ) → M (Unit {0})
wake_all [] = pure tt
wake_all (e ∷ es) = do wake e; wake_all es

unfoldable pub erase_all : List ℤ → List (ℤ × ℕ) → List (ℤ × ℕ)
erase_all [] m = m
erase_all (k ∷ ks) m = erase_all ks (erase k m)

-- The first part of the handler: the sleepers count down, and those whose time is over wake up.
unfoldable pub wake_sleepers : M (Unit {0})
wake_sleepers = do
  s ← get
  wake_all s.sleeping_threads
  modify λ s. record s {
    sleeping_threads = erase_all s.waking_up_threads s.sleeping_threads;
    waking_up_threads = [];
  }

-- A running thread that is terminated leaves `threads`, and is deleted by the next run.
unfoldable pub retire : M (Unit {0})
retire = do
  s ← get
  r ← load s.running_thread
  when r.terminated (do
    t ← or_fault (find r.id s.threads)
    modify λ s. record s {
      termination = insert r.id t s.termination;
      threads = erase r.id s.threads;
      threads_cur_number = pred_ℤ s.threads_cur_number;
    })

-- `ready_queue.front ()` is undefined on an empty queue.
unfoldable pub pop_ready : List ℕ → M ℕ
pop_ready [] = or_fault none
pop_ready (p ∷ ps) = do modify (λ s. record s { ready_queue = ps }); pure p

module _ ⦃os : Os⦄ where
  unfoldable pub delete_all : List (ℤ × ℕ) → M (Unit {0})
  delete_all [] = pure tt
  delete_all ((k, p) ∷ es) = do delete_thread p; delete_all es

  unfoldable pub reap : M (Unit {0})
  reap = do s ← get; delete_all s.termination; modify (λ s. record s { termination = [] })

  -- The end of the handler: the first ready thread runs. `siglongjmp` does not come back.
  unfoldable pub switch_thread : M (Unit {0})
  switch_thread = do
    s ← get
    p ← pop_ready s.ready_queue
    modify (λ s. record s { running_thread = p })
    alter p (λ t. record t { quantum = t.quantum + 1 })
    alter p (λ t. record t { state = running })
    modify (λ s. record s { quantums_number = s.quantums_number + 1 })
    unblock

  -- No other thread is ready: the running one goes on.
  unfoldable pub keep_running : M (Unit {0})
  keep_running = do
    s ← get
    alter s.running_thread (λ t. record t { quantum = t.quantum + 1 })
    modify (λ s. record s { quantums_number = s.quantums_number + 1 })
    unblock

  unfoldable pub requeue : Thread → M (Unit {0})
  requeue r = do
    s ← get
    alter s.running_thread (λ t. record t { state = ready })
    t ← or_fault (find r.id s.threads)
    modify (λ s. record s { ready_queue = s.ready_queue ++ t ∷ [] })

  -- The choice of the next thread: a quantum that expired puts the running thread back.
  unfoldable pub dispatch : M (Unit {0})
  dispatch = do
    s ← get
    r ← load s.running_thread
    if not r.terminated
          && not (is_sleep r.state)
          && not (is_blocked r.state)
          && not (is_sleep_block r.state)
        then (elim s.ready_queue [ [] ↦ keep_running | p ∷ ps ↦ requeue r >> switch_thread ])
        else switch_thread

  -- Its first statements save the context of the running thread, unless that is terminated.
  unfoldable pub schedule_handler : M (Unit {0})
  schedule_handler = do
    block
    s ← get
    _ ← load s.running_thread
    wake_sleepers
    reap
    retire
    dispatch
