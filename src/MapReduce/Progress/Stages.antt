-- ===== src/MapReduce/Progress/Stages.antt =====
-- The stage of a job of MapReduce_Framework/MapReduceFramework.cpp only goes forward.
use operating_systems.Base.{
  ℕ, suc, ◌≤◌, ◌<◌, ◌≡◌, refl, ap, subst, inl, inr, ◌==◌, Bool-cases, Option-cases, List, [], ◌∷◌,
  get_elem?, arith, not,
}
use operating_systems.MapReduce.Barrier.{is_last}
use operating_systems.MapReduce.Framework.{
  Stage, undefined_stage, map_stage, shuffle_stage, reduce_stage, is_reduce_stage, Client, Mutex,
  place_all, start_map_reduce_job, map_mut, emit2_mut, emit3_mut, sort_mut, shuffle_st, reduce_st,
  shuffle_mutex,
}
use operating_systems.MapReduce.Threads.{
  At, begins, maps, emits2, sorts, meets1, waits1, starts_shuffle, shuffles, meets2, waits2,
  starts_reduce, reduces, emits3, finished, State, Outcome, ran, blocked, thrown, has_mutex, assign,
  wake, locked, begin_map, next_input, emit2, sort_stage, meet, start_shuffle, to_shuffle, shuffle,
  start_reduce, next_group, emit3, job_to_do, Reach, start, step,
}
use operating_systems.MapReduce.Threads.Invariant.{phase}
use operating_systems.MapReduce.Threads.Invariant.Frames.{assign-each}
use operating_systems.MapReduce.Threads.Invariant.MeetSteps.{pass-each}
use operating_systems.MapReduce.Threads.Invariant.MapSteps.{Sorts}
use operating_systems.MapReduce.Threads.Correct.{Reach-Inv}

-- The value of the stage in the enum.
abbrev pub stage_number : Stage → ℕ
stage_number undefined_stage = 0
stage_number map_stage = 1
stage_number shuffle_stage = 2
stage_number reduce_stage = 3

module _ {I K V O : Type 0} (client : Client I K V O) where
  -- A step of a thread in phase `p`, when the stage is at most the one of that phase.
  abbrev Advances : State I K V O → ℕ → Outcome (State I K V O) → Type 0
  Advances s p (ran t) =
      (stage_number s.job.state.stage ≤ suc p
        → (stage_number s.job.state.stage ≤ stage_number t.job.state.stage)
          × (stage_number t.job.state.stage ≤ suc p))
      × ((j : ℕ) → phase (s.at j) ≤ phase (t.at j))
  Advances s p blocked = Unit
  Advances s p thrown = Unit

  module _ (s : State I K V O) (i : ℕ) where
    locked-Advances :
        (p : ℕ) (name : Mutex) (r : Outcome (State I K V O))
        → Advances s p r
        → Advances s p (locked client name s.job r)
    locked-Advances p name r f = elim (Bool-cases (has_mutex name s.job.mutexes)) [
      | inl e ↦ rw (e, Advances) f
      | inr e ↦ rw (e, Advances) tt
    ]

    goes_on :
        (a b : At K V O)
        → s.at i ≡ a
        → phase a ≤ phase b
        → (j : ℕ) → phase (s.at j) ≤ phase (assign s.at i b j)
    goes_on a b e up =
        assign-each (λ x y. phase x ≤ phase y) s.at i b (λ x. omega arith)
          (omega (arith, ap phase e))

    -- A step that leaves the stage.
    stays :
        (p : ℕ) (a b : At K V O)
        → s.at i ≡ a
        → phase a ≤ phase b
        → (stage_number s.job.state.stage ≤ suc p
            → (stage_number s.job.state.stage ≤ stage_number s.job.state.stage)
              × (stage_number s.job.state.stage ≤ suc p))
          × ((j : ℕ) → phase (s.at j) ≤ phase (assign s.at i b j))
    stays p a b e up = ((λ h. (omega arith, h)), goes_on a b e up)

    phase-wake : (a : At K V O) → phase a ≤ phase (wake a)
    phase-wake a = ground arith

    meet-Advances :
        (a b c : At K V O)
        → s.at i ≡ a
        → phase a ≤ phase b
        → phase a ≤ phase c
        → Advances s (phase a) (meet client s i b c)
    unfolding meet
    meet-Advances a b c e up_b up_c = elim (Bool-cases (is_last s.job.barrier)) [
      | inl f ↦
          rw (f, Advances)
            (
              (λ h. (omega arith, h)),
              pass-each (λ x y. phase x ≤ phase y) s.at i c phase-wake (omega (arith, ap phase e)),
            )
      | inr f ↦ rw (f, Advances) (stays (phase a) a b e up_b)
    ]

    job_to_do-Advances : (a : At K V O) → s.at i ≡ a → Advances s (phase a) (job_to_do client s i a)
    unfolding job_to_do begin_map next_input emit2 sort_stage start_shuffle shuffle start_reduce
        next_group emit3
    job_to_do-Advances begins e =
        locked-Advances 0 map_mut _
          ((λ h. (omega arith, omega arith)), goes_on begins maps e (omega arith))
    job_to_do-Advances maps e =
        elim (Option-cases (get_elem? s.job.input_vec s.job.atomic_map_counter)) [
          | inl h ↦ rw (h, Advances) (stays 0 maps sorts e (omega arith))
          | inr (x, h) ↦ rw (h, Advances) (stays 0 maps (emits2 (client.map x)) e (omega arith))
        ]
    job_to_do-Advances (emits2 []) e = stays 0 (emits2 []) maps e (omega arith)
    job_to_do-Advances (emits2 (p ∷ ps)) e =
        locked-Advances 0 emit2_mut _ (stays 0 (emits2 (p ∷ ps)) (emits2 ps) e (omega arith))
    job_to_do-Advances sorts e = locked-Advances 0 sort_mut _ (stays 0 sorts meets1 e (omega arith))
    job_to_do-Advances meets1 e =
        meet-Advances meets1 waits1 starts_shuffle e (omega arith) (omega arith)
    job_to_do-Advances waits1 e = tt
    job_to_do-Advances starts_shuffle e = elim (Bool-cases (i == 0)) [
      | inl z ↦
          rw (z, Advances)
            (locked-Advances 1 shuffle_st _
              ((λ h. (omega arith, omega arith)), goes_on starts_shuffle shuffles e (omega arith)))
      | inr z ↦ rw (z, Advances) (stays 1 starts_shuffle meets2 e (omega arith))
    ]
    job_to_do-Advances shuffles e =
        locked-Advances 1 shuffle_mutex _
          (elim (Option-cases
            (to_shuffle client s.job.num_of_threads s.job.mutexes s.job.threads_vec)) [
              | inl p ↦ rw (p, Advances) tt
              | inr (pairs, p) ↦ elim (Option-cases (place_all client pairs s.job.shuffled_vec)) [
                | inl g ↦ rw (p, g, Advances) tt
                | inr (groups, g) ↦ rw (p, g, Advances) (stays 1 shuffles meets2 e (omega arith))
              ]
            ])
    job_to_do-Advances meets2 e =
        meet-Advances meets2 waits2 starts_reduce e (omega arith) (omega arith)
    job_to_do-Advances waits2 e = tt
    job_to_do-Advances starts_reduce e =
        elim (Bool-cases (not (is_reduce_stage s.job.state.stage))) [
          | inl z ↦
              rw (z, Advances)
                (locked-Advances 2 reduce_st _ (
                  (λ h. (omega arith, omega arith)),
                  goes_on starts_reduce reduces e (omega arith),
                ))
          | inr z ↦ rw (z, Advances) (stays 2 starts_reduce reduces e (omega arith))
        ]
    job_to_do-Advances reduces e =
        elim (Option-cases (get_elem? s.job.shuffled_vec s.job.atomic_red_counter)) [
          | inl h ↦ rw (h, Advances) (stays 2 reduces finished e (omega arith))
          | inr (x, h) ↦
              rw (h, Advances) (stays 2 reduces (emits3 (client.reduce x)) e (omega arith))
        ]
    job_to_do-Advances (emits3 []) e = stays 2 (emits3 []) reduces e (omega arith)
    job_to_do-Advances (emits3 (p ∷ ps)) e =
        locked-Advances 2 emit3_mut _ (stays 2 (emits3 (p ∷ ps)) (emits3 ps) e (omega arith))
    job_to_do-Advances finished e = tt

  module _ (n : ℕ) (inputs : List I) (lib : Sorts client n inputs) (h : 0 < n) where
    -- The stage is at most the one of the phase that all threads are in.
    staged :
        {s : State I K V O}
        → Reach client inputs n s
        → (j : ℕ) → j < n
        → stage_number s.job.state.stage ≤ suc (phase (s.at j))
    unfolding start_map_reduce_job
    staged start j k = omega arith
    staged (step {s} {t} i r l e) j k =
        let v = Reach-Inv client n inputs lib h r in
        let (low, up) =
          subst (Advances s (phase (s.at i))) e (job_to_do-Advances s i (s.at i) refl) in
        let here = low (staged r i l) in
        let grown = up j in
        let p = v.together.in_phase i l in let q = v.together.in_phase j k in omega arith

    -- When std::sort sorts and keeps its entries, and there is a thread: no step of a thread, from
    -- a state that the threads reach, sets the stage back.
    pub stage_forward :
        (s t : State I K V O) (i : ℕ)
        → Reach client inputs n s
        → i < n
        → job_to_do client s i (s.at i) ≡ ran t
        → stage_number s.job.state.stage ≤ stage_number t.job.state.stage
    stage_forward s t i r l e =
        let (low, _) =
          subst (Advances s (phase (s.at i))) e (job_to_do-Advances s i (s.at i) refl) in
        (low (staged r i l)).0
