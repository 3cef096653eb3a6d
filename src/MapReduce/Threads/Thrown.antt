-- ===== src/MapReduce/Threads/Thrown.antt =====
-- No step of a thread of MapReduce_Framework/MapReduceFramework.cpp throws: `mutexes->at` finds its
-- mutex, and the merge and the grouping of the pairs stay inside their vectors.
use operating_systems.Base.{
  ℕ, ◌<◌, ◌≡◌, ◌≢◌, refl, sym, subst, inl, inr, ◌==◌, Bool, Bool-cases, Option-cases, true, false,
  not, List, [], ◌∷◌, get_elem?,
}
use operating_systems.MapReduce.Barrier.{is_last}
use operating_systems.MapReduce.Framework.{
  Client, Mutex, creating_mutexes, start_map_reduce_job, is_reduce_stage, map_mut, emit2_mut,
  emit3_mut, sort_mut, shuffle_st, reduce_st, shuffle_mutex,
}
use operating_systems.MapReduce.Framework.Groups.{Grouped, place_all-Grouped}
use operating_systems.MapReduce.Threads.{
  At, begins, maps, emits2, sorts, meets1, waits1, starts_shuffle, shuffles, meets2, waits2,
  starts_reduce, reduces, emits3, finished, State, Outcome, ran, blocked, thrown, has_mutex, locked,
  begin_map, next_input, emit2, sort_stage, meet, start_shuffle, shuffle, start_reduce, next_group,
  emit3, job_to_do, Reach, start, step,
}
use operating_systems.MapReduce.Threads.Invariant.MapSteps.{has_created}
use operating_systems.MapReduce.Threads.Invariant.ShuffleSteps.{to_shuffle-returns}

-- A thread that waits at the barrier, or has finished.
abbrev pub stops : {K V O : Type 0} → At K V O → Bool
stops waits1 = true
stops waits2 = true
stops finished = true
stops _ = false

module _ {I K V O : Type 0} (client : Client I K V O) (n : ℕ) where
  record Safe (s : State I K V O) : Type 0 where
    made : s.job.mutexes ≡ creating_mutexes
    level : s.job.num_of_threads ≡ n
    apart : Grouped client s.job.shuffled_vec

  -- What a step from `a` leaves. Only a thread that stops does not go on.
  abbrev Runs : At K V O → Outcome (State I K V O) → Type 0
  Runs a (ran t) = Safe t
  Runs a blocked = stops a ≡ true
  Runs a thrown = ⊥

  module _ (s : State I K V O) (v : Safe s) (i : ℕ) where
    locked-Runs :
        (a : At K V O) (name : Mutex) (r : Outcome (State I K V O))
        → Runs a r
        → Runs a (locked client name s.job r)
    locked-Runs a name r k =
        let e : has_mutex name s.job.mutexes ≡ true =
          subst (λ ms. has_mutex name ms ≡ true) (sym v.made) (has_created name) in
        rw (e, Runs) k

    meet-Runs : (a b c : At K V O) → Runs a (meet client s i b c)
    unfolding meet
    meet-Runs a b c = elim (Bool-cases (is_last s.job.barrier)) [
      | inl f ↦ rw (f, Runs) (record { made = v.made; level = v.level; apart = v.apart })
      | inr f ↦ rw (f, Runs) (record { made = v.made; level = v.level; apart = v.apart })
    ]

    shuffle-Runs : 0 < n → Runs shuffles (shuffle client s i)
    unfolding shuffle
    shuffle-Runs h =
        let (pairs, p, _) =
          to_shuffle-returns client s.job.num_of_threads s.job.mutexes s.job.threads_vec v.made
            (subst (λ k. 0 < k) (sym v.level) h) in
        let (groups, g, _, apart) = place_all-Grouped client pairs s.job.shuffled_vec v.apart in
        locked-Runs shuffles shuffle_mutex _
          (rw (p, g, Runs) (record { made = v.made; level = v.level; apart = apart }))

    job_to_do-Runs : 0 < n → (a : At K V O) → Runs a (job_to_do client s i a)
    unfolding job_to_do begin_map next_input emit2 sort_stage start_shuffle start_reduce next_group
        emit3
    job_to_do-Runs h begins =
        locked-Runs begins map_mut _ (record { made = v.made; level = v.level; apart = v.apart })
    job_to_do-Runs h maps =
        elim (Option-cases (get_elem? s.job.input_vec s.job.atomic_map_counter)) [
          | inl e ↦ rw (e, Runs) (record { made = v.made; level = v.level; apart = v.apart })
          | inr (x, e) ↦ rw (e, Runs) (record { made = v.made; level = v.level; apart = v.apart })
        ]
    job_to_do-Runs h (emits2 []) = record { made = v.made; level = v.level; apart = v.apart }
    job_to_do-Runs h (emits2 (p ∷ ps)) =
        locked-Runs (emits2 (p ∷ ps)) emit2_mut _
          (record { made = v.made; level = v.level; apart = v.apart })
    job_to_do-Runs h sorts =
        locked-Runs sorts sort_mut _ (record { made = v.made; level = v.level; apart = v.apart })
    job_to_do-Runs h meets1 = meet-Runs meets1 waits1 starts_shuffle
    job_to_do-Runs h waits1 = refl
    job_to_do-Runs h starts_shuffle = elim (Bool-cases (i == 0)) [
      | inl z ↦
          rw (z, Runs)
            (locked-Runs starts_shuffle shuffle_st _
              (record { made = v.made; level = v.level; apart = v.apart }))
      | inr z ↦ rw (z, Runs) (record { made = v.made; level = v.level; apart = v.apart })
    ]
    job_to_do-Runs h shuffles = shuffle-Runs h
    job_to_do-Runs h meets2 = meet-Runs meets2 waits2 starts_reduce
    job_to_do-Runs h waits2 = refl
    job_to_do-Runs h starts_reduce = elim (Bool-cases (not (is_reduce_stage s.job.state.stage))) [
      | inl z ↦
          rw (z, Runs)
            (locked-Runs starts_reduce reduce_st _
              (record { made = v.made; level = v.level; apart = v.apart }))
      | inr z ↦ rw (z, Runs) (record { made = v.made; level = v.level; apart = v.apart })
    ]
    job_to_do-Runs h reduces =
        elim (Option-cases (get_elem? s.job.shuffled_vec s.job.atomic_red_counter)) [
          | inl e ↦ rw (e, Runs) (record { made = v.made; level = v.level; apart = v.apart })
          | inr (x, e) ↦ rw (e, Runs) (record { made = v.made; level = v.level; apart = v.apart })
        ]
    job_to_do-Runs h (emits3 []) = record { made = v.made; level = v.level; apart = v.apart }
    job_to_do-Runs h (emits3 (p ∷ ps)) =
        locked-Runs (emits3 (p ∷ ps)) emit3_mut _
          (record { made = v.made; level = v.level; apart = v.apart })
    job_to_do-Runs h finished = refl

  Runs-ran :
      (a : At K V O) (r : Outcome (State I K V O))
      → Runs a r
      → (r ≢ thrown) × (stops a ≡ false → (t : State I K V O) × (r ≡ ran t))
  Runs-ran a (ran t) h = ((λ e. absurd cc), λ g. (t, refl))
  Runs-ran a blocked h = ((λ e. absurd cc), λ g. absurd cc)
  Runs-ran a thrown h = elim h [ ]

  module _ (h : 0 < n) (inputs : List I) where
    Reach-Safe : {s : State I K V O} → Reach client inputs n s → Safe s
    unfolding start_map_reduce_job
    Reach-Safe start = record { made = refl; level = refl; apart = tt }
    Reach-Safe (step {s} i r l e) =
        subst (Runs (s.at i)) e (job_to_do-Runs s (Reach-Safe r) i h (s.at i))

    -- When there is a thread, and a wait at the barrier ends only with the broadcast of the last
    -- thread: in a state that the threads of a job reach, whatever the scheduler chose and whatever
    -- std::sort leaves in the vectors, no thread's next step throws, and each thread that neither
    -- waits at the barrier nor has finished has a next step.
    pub never_thrown :
        (s : State I K V O)
        → Reach client inputs n s
        → (i : ℕ) → i < n
        → (job_to_do client s i (s.at i) ≢ thrown)
          × (stops (s.at i) ≡ false → (t : State I K V O) × (job_to_do client s i (s.at i) ≡ ran t))
    never_thrown s r i l =
        Runs-ran (s.at i) (job_to_do client s i (s.at i))
          (job_to_do-Runs s (Reach-Safe r) i h (s.at i))
