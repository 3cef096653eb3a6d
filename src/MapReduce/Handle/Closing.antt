-- ===== src/MapReduce/Handle/Closing.antt =====
-- The ends of `waitForJob` and `closeJobHandle` of MapReduce_Framework/MapReduceFramework.cpp.
use operating_systems.Base.{
  ℕ, zero, suc, ◌+◌, ◌≤◌, ◌<◌, ◌≡◌, refl, sym, ap, ◌∙◌, subst, inl, inr, ◌==◌, ==_iff, Bool-cases,
  true, false, List, [], ◌∷◌, ◌++◌, length, map, weigh, weigh-append, SameEntries, arith,
}
use operating_systems.MapReduce.Framework.{creating_mutexes, wait_for_job}
use operating_systems.MapReduce.Threads.{finished, State, has_mutex, assign}
use operating_systems.MapReduce.Threads.Invariant.{is_finished}
use operating_systems.MapReduce.Threads.Invariant.MapSteps.{has_created}
use operating_systems.MapReduce.Handle.{
  Handle, returns, waits, Object, job_context, threads, threads_vec, mutexes, state,
  atomic_map_counter, atomic_red_counter, atomic_shuffle_counter, atomic_emit3_counter,
  atomic_pairs_counter, shuffled_vec, barrier, mutex, vector_of, group, numbers, create_threads,
  start_allocates, delete_threads, join_threads, set_wait, wait_for, close_deletes,
  close_job_handle,
}

module _ {I K V O : Type 0} where
  -- A handle that `pthread_join` has been called for by `waitForJob` only: no thread of the job is
  -- joined before the flag is set, and the mutexes are there.
  pub record IsFresh (n : ℕ) (h : Handle I K V O) : Type 0 where
    pub made : h.state.job.mutexes ≡ creating_mutexes
    pub level : h.state.job.num_of_threads ≡ n
    pub unset : h.state.job.wait ≡ false
    pub unjoined : (i : ℕ) → h.joined i ≡ false

  -- All threads are finished: the loop joins them.
  join_threads-returns :
      (rounds i : ℕ) (h : Handle I K V O)
      → ((j : ℕ) → i ≤ j → j < rounds + i → h.state.at j ≡ finished)
      → ((j : ℕ) → i ≤ j → h.joined j ≡ false)
      → (h' : Handle I K V O) × (join_threads rounds i h ≡ returns h')
        × (h'.state ≡ h.state)
        × ((j : ℕ) → i ≤ j → j < rounds + i → h'.joined j ≡ true)
        × ((j : ℕ) → j < i → h'.joined j ≡ h.joined j)
  unfolding join_threads
  join_threads-returns zero i h f u =
      (h, refl, refl, (λ j a b. absurd (omega arith)), (λ j a. refl))
  join_threads-returns (suc rounds) i h f u =
      let (h', e, same, all, old) =
        join_threads-returns rounds (suc i) (record h { joined = assign h.joined i true })
          (λ j a b. f j (omega arith) (omega arith))
          (λ j a. let d = u j (omega arith) in ground arith) in
      let here : is_finished (h.state.at i) ≡ true =
        ap is_finished (f i (omega arith) (omega arith)) in
      (
        h',
        rw (u i (omega arith), here) e,
        same,
        (λ j a b. elim (Bool-cases (i == j)) [
          | inl q ↦ (let g = old j (ground (arith, q)) in ground (arith, g, q))
          | inr q ↦ all j (ground (arith, q)) (omega arith)
        ]),
        (λ j a. let g = old j (omega arith) in ground (arith, g)),
      )

  -- Some thread is not finished: the loop waits for it.
  join_threads-waits :
      (rounds i k : ℕ) (h : Handle I K V O)
      → i ≤ k
      → k < rounds + i
      → is_finished (h.state.at k) ≡ false
      → ((j : ℕ) → i ≤ j → h.joined j ≡ false)
      → join_threads rounds i h ≡ waits
  unfolding join_threads
  join_threads-waits zero i k h a b f u = absurd (omega arith)
  join_threads-waits (suc rounds) i k h a b f u = elim (Bool-cases (is_finished (h.state.at i))) [
    | inr q ↦ rw (u i (omega arith), q) refl
    | inl q ↦
        let later : i < k = elim (Bool-cases (i == k)) [
          | inl z ↦ (let y = ap (λ j. is_finished (h.state.at j)) ((==_iff i k).0 z) in absurd cc)
          | inr z ↦ ground (arith, z)
        ] in
        rw (u i (omega arith), q)
          (join_threads-waits rounds (suc i) k (record h { joined = assign h.joined i true }) later
            (omega arith) f (λ j c. let d = u j (omega arith) in ground arith))
  ]

  module _ (n : ℕ) (h : Handle I K V O) (fresh : IsFresh n h) where
    made_wait : has_mutex wait_for_job h.state.job.mutexes ≡ true
    made_wait =
        subst (λ ms. has_mutex wait_for_job ms ≡ true) (sym fresh.made) (has_created wait_for_job)

    wait_for-waits : (k : ℕ) → k < n → is_finished (h.state.at k) ≡ false → wait_for h ≡ waits
    unfolding wait_for
    wait_for-waits k l f =
        let e =
          subst (λ m. join_threads m 0 h ≡ waits) (sym fresh.level)
            (join_threads-waits n 0 k h (omega arith) (omega arith) f (λ j c. fresh.unjoined j)) in
        rw (made_wait, e, fresh.unset) refl

    wait_for-returns :
        ((k : ℕ) → k < n → h.state.at k ≡ finished)
        → (h' : Handle I K V O) × (wait_for h ≡ returns (set_wait h'))
          × (h'.state ≡ h.state)
          × ((k : ℕ) → k < n → h'.joined k ≡ true)
    unfolding wait_for
    wait_for-returns f =
        let (h', e, same, all, _) =
          join_threads-returns n 0 h (λ j a b. f j (omega arith)) (λ j a. fresh.unjoined j) in
        let e' = subst (λ m. join_threads m 0 h ≡ returns h') (sym fresh.level) e in
        (h', rw (made_wait, e', fresh.unset) refl, same, λ k l. all k (omega arith) (omega arith))

    -- Of a handle whose flag is not set, none of whose threads is joined and whose mutexes are
    -- made: `waitForJob` waits as long as one of the `n` threads has not finished; when all have,
    -- it returns with every thread joined, and a second call returns and changes nothing.
    pub wait_for-cases :
        ((k : ℕ) → k < n → is_finished (h.state.at k) ≡ false → wait_for h ≡ waits)
        × (((k : ℕ) → k < n → h.state.at k ≡ finished)
            → (h' : Handle I K V O) × (wait_for h ≡ returns h')
              × ((k : ℕ) → k < n → h'.joined k ≡ true)
              × (wait_for h' ≡ returns h'))
    unfolding wait_for
    wait_for-cases = (
      wait_for-waits,
      λ f.
          let (h', e, same, all) = wait_for-returns f in
          let m : has_mutex wait_for_job h'.state.job.mutexes ≡ true =
            subst (λ (s : State I K V O). has_mutex wait_for_job s.job.mutexes ≡ true) (sym same)
              made_wait in
          (set_wait h', e, all, rw m refl),
    )

-- The objects, counted by any weight.
create_threads-weigh :
    (w : Object → ℕ) (n i : ℕ)
    → weigh w (create_threads n i)
      ≡ weigh w (delete_threads n i) + weigh w (map vector_of (numbers n i))
unfolding create_threads delete_threads
create_threads-weigh w zero i = refl
create_threads-weigh w (suc n) i = omega (arith, create_threads-weigh w n (suc i))

parts-weigh :
    (w : Object → ℕ) (a b c d e : List Object)
    → weigh w (a ++ b ++ c ++ d ++ e) ≡ weigh w a + weigh w b + weigh w c + weigh w d + weigh w e
parts-weigh w a b c d e = omega (
  arith,
  weigh-append w (a ++ b ++ c ++ d) e,
  weigh-append w (a ++ b ++ c) d,
  weigh-append w (a ++ b) c,
  weigh-append w a b,
)

abbrev last_deleted : List Object
last_deleted =
    mutexes ∷ state ∷ threads_vec ∷ atomic_map_counter ∷ atomic_emit3_counter ∷ atomic_red_counter
    ∷ atomic_shuffle_counter ∷ atomic_pairs_counter ∷ shuffled_vec ∷ barrier ∷ job_context ∷ []

module _ {I K V O : Type 0} (n : ℕ) where
  close_deletes-SameEntries :
      (s : State I K V O)
      → s.job.mutexes ≡ creating_mutexes
      → s.job.num_of_threads ≡ n
      → SameEntries
          (close_deletes (record s.job { wait = true }))
          (start_allocates n ++ map group (numbers (length s.job.shuffled_vec) 0))
  unfolding close_deletes start_allocates
  close_deletes-SameEntries s made level w =
      let all =
        parts-weigh w (delete_threads n 0) (threads ∷ map mutex creating_mutexes)
          (map vector_of (numbers n 0)) (map group (numbers (length s.job.shuffled_vec) 0))
          last_deleted in
      let rest =
        weigh-append w (create_threads n 0) (map group (numbers (length s.job.shuffled_vec) 0)) in
      let e = create_threads-weigh w n 0 in rw (made, level) (omega (arith, all, rest, e))

module _ {I K V O : Type 0} (n : ℕ) (h : Handle I K V O) (fresh : IsFresh n h)
    (ends : (k : ℕ) → k < n → h.state.at k ≡ finished) where
  -- When all threads have finished and no call has waited before: `closeJobHandle` returns, and
  -- deletes each object that `startMapReduceJob` allocated, and each group, exactly once.
  pub close_job_handle-SameEntries :
      (deleted : List Object) × (close_job_handle h ≡ returns deleted)
      × SameEntries deleted
          (start_allocates n ++ map group (numbers (length h.state.job.shuffled_vec) 0))
  unfolding close_job_handle
  close_job_handle-SameEntries =
      let (h', e, same, _) = wait_for-returns n h fresh ends in
      let made = ap (λ (s : State I K V O). s.job.mutexes) same ∙ fresh.made in
      let level = ap (λ (s : State I K V O). s.job.num_of_threads) same ∙ fresh.level in
      let groups = ap (λ (s : State I K V O). length s.job.shuffled_vec) same in
      (
        close_deletes (set_wait h').state.job,
        rw (e, close_job_handle) refl,
        subst
            (λ k.
              SameEntries (close_deletes (set_wait h').state.job)
                (start_allocates n ++ map group (numbers k 0)))
            groups (close_deletes-SameEntries n h'.state made level),
      )
