-- ===== src/MapReduce/Threads/Counters.antt =====
-- How far the counters of the inputs and the groups of MapReduce_Framework/MapReduceFramework.cpp go.
use operating_systems.Base.{
  ℕ, zero, suc, ◌+◌, ◌≤◌, ◌<◌, ◌≡◌, refl, ap, ◌∙◌, subst, inl, inr, ◌==◌, if◌then◌else◌, Bool-cases,
  Option-cases, List, [], ◌∷◌, length, get_elem?, get_elem?-lt, total, arith, not,
}
use operating_systems.MapReduce.Barrier.{is_last}
use operating_systems.MapReduce.Framework.{
  is_reduce_stage, Client, Mutex, place_all, start_map_reduce_job, map_mut, emit2_mut, emit3_mut,
  sort_mut, shuffle_st, reduce_st, shuffle_mutex,
}
use operating_systems.MapReduce.Threads.{
  At, begins, maps, emits2, sorts, meets1, waits1, starts_shuffle, shuffles, meets2, waits2,
  starts_reduce, reduces, emits3, finished, State, Outcome, ran, blocked, thrown, has_mutex, assign,
  wake, locked, begin_map, next_input, emit2, sort_stage, meet, start_shuffle, to_shuffle, shuffle,
  start_reduce, next_group, emit3, job_to_do, Reach, start, step,
}
use operating_systems.MapReduce.Threads.Invariant.{phase, is_mapped, is_finished, total-assign}
use operating_systems.MapReduce.Threads.Invariant.MapSteps.{Sorts}
use operating_systems.MapReduce.Threads.Measure.{total_mono}
use operating_systems.MapReduce.Threads.Correct.{Reach-Inv}

module _ {K V O : Type 0} where
  -- 1 for a thread that has found no more inputs, or no more groups.
  abbrev left_map : At K V O → ℕ
  left_map a = if is_mapped a then 1 else 0

  abbrev left_reduce : At K V O → ℕ
  left_reduce a = if is_finished a then 1 else 0

  wake-left :
      (a : At K V O) → (left_map a ≤ left_map (wake a)) × (left_reduce a ≤ left_reduce (wake a))
  wake-left a = ground arith

total_few : (n : ℕ) (f : ℕ → ℕ) → ((j : ℕ) → f j ≤ 1) → total n f ≤ n
total_few zero f h = omega arith
total_few (suc n) f h = omega (arith, total_few n f h, h n)

module _ {I K V O : Type 0} (client : Client I K V O) (n : ℕ) where
  -- No thread counts further once it has found that there is nothing left.
  abbrev Limited : State I K V O → Type 0
  Limited s =
      (s.job.atomic_map_counter ≤ length s.job.input_vec + total n (λ i. left_map (s.at i)))
      × (s.job.atomic_red_counter ≤ length s.job.shuffled_vec + total n (λ i. left_reduce (s.at i)))

  abbrev Limits : Outcome (State I K V O) → Type 0
  Limits (ran t) = Limited t
  Limits blocked = Unit
  Limits thrown = Unit

  module _ (s : State I K V O) (i : ℕ) (l : i < n) (k : Limited s) where
    locked-Limits :
        (name : Mutex) (r : Outcome (State I K V O))
        → Limits r
        → Limits (locked client name s.job r)
    locked-Limits name r f = elim (Bool-cases (has_mutex name s.job.mutexes)) [
      | inl e ↦ rw (e, Limits) f
      | inr e ↦ rw (e, Limits) tt
    ]

    -- A step that leaves both counters.
    stays :
        (a b : At K V O)
        → s.at i ≡ a
        → left_map a ≤ left_map b
        → left_reduce a ≤ left_reduce b
        → (s.job.atomic_map_counter
            ≤ length s.job.input_vec + total n (λ j. left_map (assign s.at i b j)))
          × (s.job.atomic_red_counter
              ≤ length s.job.shuffled_vec + total n (λ j. left_reduce (assign s.at i b j)))
    stays a b e p q =
        let m = total-assign n s.at i l b left_map in
        let r = total-assign n s.at i l b left_reduce in
        let p' = ap left_map e in
        let q' = ap left_reduce e in (omega (arith, k.0), omega (arith, k.1))

    meet-Limits :
        (a b c : At K V O)
        → s.at i ≡ a
        → wake a ≡ a
        → (left_map a ≤ left_map b) × (left_map a ≤ left_map c)
        → (left_reduce a ≤ left_reduce b) × (left_reduce a ≤ left_reduce c)
        → Limits (meet client s i b c)
    unfolding meet
    meet-Limits a b c e asleep p q = elim (Bool-cases (is_last s.job.barrier)) [
      | inl f ↦
          let woken = λ (j : ℕ). wake (s.at j) in
          let m = total-assign n woken i l c left_map in
          let r = total-assign n woken i l c left_reduce in
          let m' =
            total_mono n (λ j. left_map (s.at j)) (λ j. left_map (woken j))
              (λ j. (wake-left (s.at j)).0) in
          let r' =
            total_mono n (λ j. left_reduce (s.at j)) (λ j. left_reduce (woken j))
              (λ j. (wake-left (s.at j)).1) in
          let p' = ap left_map (ap wake e ∙ asleep) in
          let q' = ap left_reduce (ap wake e ∙ asleep) in
          rw (f, Limits) (omega (arith, k.0, p.1), omega (arith, k.1, q.1))
      | inr f ↦ rw (f, Limits) (stays a b e p.0 q.0)
    ]

    job_to_do-Limits :
        (a : At K V O)
        → s.at i ≡ a
        → (a ≡ shuffles → s.job.atomic_red_counter ≡ 0)
        → Limits (job_to_do client s i a)
    unfolding job_to_do begin_map next_input emit2 sort_stage start_shuffle shuffle start_reduce
        next_group emit3
    job_to_do-Limits begins e z =
        locked-Limits map_mut _ (stays begins maps e (omega arith) (omega arith))
    job_to_do-Limits maps e z =
        elim (Option-cases (get_elem? s.job.input_vec s.job.atomic_map_counter)) [
          | inl h ↦
              let (_, r) = stays maps sorts e (omega arith) (omega arith) in
              let m = total-assign n s.at i l sorts left_map in
              let p = ap left_map e in rw (h, Limits) (omega (arith, k.0), r)
          | inr (x, h) ↦
              let (_, r) = stays maps (emits2 (client.map x)) e (omega arith) (omega arith) in
              let c = get_elem?-lt s.job.input_vec s.job.atomic_map_counter h in
              rw (h, Limits) (omega arith, r)
        ]
    job_to_do-Limits (emits2 []) e z = stays (emits2 []) maps e (omega arith) (omega arith)
    job_to_do-Limits (emits2 (p ∷ ps)) e z =
        locked-Limits emit2_mut _
          (stays (emits2 (p ∷ ps)) (emits2 ps) e (omega arith) (omega arith))
    job_to_do-Limits sorts e z =
        locked-Limits sort_mut _ (stays sorts meets1 e (omega arith) (omega arith))
    job_to_do-Limits meets1 e z =
        meet-Limits meets1 waits1 starts_shuffle e refl (omega arith, omega arith)
          (omega arith, omega arith)
    job_to_do-Limits waits1 e z = tt
    job_to_do-Limits starts_shuffle e z = elim (Bool-cases (i == 0)) [
      | inl f ↦
          rw (f, Limits)
            (locked-Limits shuffle_st _
              (stays starts_shuffle shuffles e (omega arith) (omega arith)))
      | inr f ↦ rw (f, Limits) (stays starts_shuffle meets2 e (omega arith) (omega arith))
    ]
    job_to_do-Limits shuffles e z =
        locked-Limits shuffle_mutex _
          (elim (Option-cases
            (to_shuffle client s.job.num_of_threads s.job.mutexes s.job.threads_vec)) [
              | inl p ↦ rw (p, Limits) tt
              | inr (pairs, p) ↦ elim (Option-cases (place_all client pairs s.job.shuffled_vec)) [
                | inl g ↦ rw (p, g, Limits) tt
                | inr (groups, g) ↦
                    let (m, _) = stays shuffles meets2 e (omega arith) (omega arith) in
                    rw (p, g, Limits) (m, omega (arith, z refl))
              ]
            ])
    job_to_do-Limits meets2 e z =
        meet-Limits meets2 waits2 starts_reduce e refl (omega arith, omega arith)
          (omega arith, omega arith)
    job_to_do-Limits waits2 e z = tt
    job_to_do-Limits starts_reduce e z =
        let same = stays starts_reduce reduces e (omega arith) (omega arith) in
        elim (Bool-cases (not (is_reduce_stage s.job.state.stage))) [
          | inl f ↦ rw (f, Limits) (locked-Limits reduce_st _ same)
          | inr f ↦ rw (f, Limits) same
        ]
    job_to_do-Limits reduces e z =
        elim (Option-cases (get_elem? s.job.shuffled_vec s.job.atomic_red_counter)) [
          | inl h ↦
              let (m, _) = stays reduces finished e (omega arith) (omega arith) in
              let r = total-assign n s.at i l finished left_reduce in
              let q = ap left_reduce e in rw (h, Limits) (m, omega (arith, k.1))
          | inr (x, h) ↦
              let (m, _) = stays reduces (emits3 (client.reduce x)) e (omega arith) (omega arith) in
              let c = get_elem?-lt s.job.shuffled_vec s.job.atomic_red_counter h in
              rw (h, Limits) (m, omega arith)
        ]
    job_to_do-Limits (emits3 []) e z = stays (emits3 []) reduces e (omega arith) (omega arith)
    job_to_do-Limits (emits3 (p ∷ ps)) e z =
        locked-Limits emit3_mut _
          (stays (emits3 (p ∷ ps)) (emits3 ps) e (omega arith) (omega arith))
    job_to_do-Limits finished e z = tt

  module _ (inputs : List I) (lib : Sorts client n inputs) (h : 0 < n) where
    Reach-Limited : {s : State I K V O} → Reach client inputs n s → Limited s
    unfolding start_map_reduce_job
    Reach-Limited start = (omega arith, omega arith)
    Reach-Limited (step {s} i r l e) =
        let v = Reach-Inv client n inputs lib h r in
        subst Limits e (
          job_to_do-Limits s i l (Reach-Limited r) (s.at i) refl
            (λ q. (v.reducing.early i l (let o = ap phase q in omega arith)).0))

    -- When std::sort sorts and keeps its entries, and there is a thread: in every state that the
    -- threads reach, the counter of the inputs is at most their number plus the number of threads,
    -- and the counter of the groups at most theirs plus the number of threads.
    pub counters_bounded :
        (s : State I K V O)
        → Reach client inputs n s
        → (s.job.atomic_map_counter ≤ length inputs + n)
          × (s.job.atomic_red_counter ≤ length s.job.shuffled_vec + n)
    counters_bounded s r =
        let (m, d) = Reach-Limited r in
        let v = Reach-Inv client n inputs lib h r in
        let kept = ap length v.inputs_kept in
        let a = total_few n (λ i. left_map (s.at i)) (λ i. ground arith) in
        let b = total_few n (λ i. left_reduce (s.at i)) (λ i. ground arith) in
        (omega arith, omega arith)
