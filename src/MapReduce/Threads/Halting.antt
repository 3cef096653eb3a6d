-- ===== src/MapReduce/Threads/Halting.antt =====
-- Every schedule of the threads of a job of MapReduce_Framework/MapReduceFramework.cpp ends, and it
-- cannot end before all threads have finished.
use mathlib.Core.WellFounded.{Acc}
use operating_systems.Base.{
  ℕ, zero, suc, ◌+◌, ◌<◌, ◌≡◌, refl, ap, ◌∙◌, subst, ◌⊎◌, inl, inr, ◌==◌, Bool-cases, Option-cases,
  List, [], ◌∷◌, length, weigh, get_elem?, drop, drop-get_elem?, get_elem?-none, drop_all, total,
  arith, not,
}
use operating_systems.MapReduce.Barrier.{is_last}
use operating_systems.MapReduce.Framework.{
  Mutex, Client, map_mut, emit2_mut, emit3_mut, sort_mut, shuffle_st, reduce_st, shuffle_mutex,
  place_all, is_reduce_stage,
}
use operating_systems.MapReduce.Threads.{
  At, begins, maps, emits2, sorts, meets1, waits1, starts_shuffle, shuffles, meets2, waits2,
  starts_reduce, reduces, emits3, finished, State, Outcome, ran, blocked, thrown, has_mutex, assign,
  wake, locked, begin_map, next_input, emit2, sort_stage, meet, start_shuffle, to_shuffle, shuffle,
  start_reduce, next_group, emit3, job_to_do,
}
use operating_systems.MapReduce.Threads.Invariant.{total-assign}
use operating_systems.MapReduce.Threads.Measure.{to_end, to_go, total_mono, wake-to_go}

module _ {I K V O : Type 0} (client : Client I K V O) (n : ℕ) where
  abbrev mapping_left : State I K V O → ℕ
  mapping_left s =
      total n (λ i. to_go (s.at i))
      + weigh (λ input. 2 + length (client.map input))
          (drop s.job.atomic_map_counter s.job.input_vec)

  abbrev reducing_left : State I K V O → ℕ
  reducing_left s =
      total n (λ i. to_end (s.at i))
      + weigh (λ group. 2 + length (client.reduce group))
          (drop s.job.atomic_red_counter s.job.shuffled_vec)

  -- A step has less left.
  abbrev Falls : State I K V O → Outcome (State I K V O) → Type 0
  Falls s (ran t) =
      (mapping_left t < mapping_left s)
      ⊎ ((mapping_left t ≡ mapping_left s) × (reducing_left t < reducing_left s))
  Falls s blocked = Unit
  Falls s thrown = Unit

  locked-Falls :
      (s : State I K V O) (name : Mutex) (r : Outcome (State I K V O))
      → Falls s r
      → Falls s (locked client name s.job r)
  locked-Falls s name r f = elim (Bool-cases (has_mutex name s.job.mutexes)) [
    | inl e ↦ rw (e, Falls) f
    | inr e ↦ rw (e, Falls) tt
  ]

  module _ (s : State I K V O) (i : ℕ) (l : i < n) where
    -- The thread goes on at a place with less to go, and claims nothing.
    moved-less :
        (a b : At K V O)
        → s.at i ≡ a
        → to_go b < to_go a
        → total n (λ j. to_go (assign s.at i b j)) < total n (λ j. to_go (s.at j))
    moved-less a b e less = omega (arith, total-assign n s.at i l b to_go, ap to_go e)

    next_input-Falls : s.at i ≡ maps → Falls s (next_input client s i)
    unfolding next_input
    next_input-Falls e = elim (Option-cases (get_elem? s.job.input_vec s.job.atomic_map_counter)) [
      | inl h ↦
          let all = get_elem?-none s.job.input_vec s.job.atomic_map_counter h in
          let w = λ (input : I). 2 + length (client.map input) in
          let d = ap (weigh w) (drop_all s.job.atomic_map_counter s.job.input_vec all) in
          let d' =
            ap (weigh w) (drop_all (suc s.job.atomic_map_counter) s.job.input_vec (omega arith)) in
          rw (h, Falls) (inl (omega (arith, moved-less maps sorts e (omega arith), d, d')))
      | inr (x, h) ↦
          let w = λ (input : I). 2 + length (client.map input) in
          let d = ap (weigh w) (drop-get_elem? s.job.atomic_map_counter s.job.input_vec x h) in
          let t = total-assign n s.at i l (emits2 (client.map x)) to_go in
          let q = ap to_go e in rw (h, Falls) (inl (omega arith))
    ]

    meet-Falls :
        (a b c : At K V O)
        → s.at i ≡ a
        → wake a ≡ a
        → to_go b < to_go a
        → to_go c < to_go a
        → Falls s (meet client s i b c)
    unfolding meet
    meet-Falls a b c e asleep less_b less_c = elim (Bool-cases (is_last s.job.barrier)) [
      | inl f ↦
          let t = total-assign n (λ j. wake (s.at j)) i l c to_go in
          let q = ap to_go (ap wake e ∙ asleep) in
          let k =
            total_mono n (λ j. to_go (wake (s.at j))) (λ j. to_go (s.at j))
              (λ j. wake-to_go (s.at j)) in
          rw (f, Falls) (inl (omega arith))
      | inr f ↦ rw (f, Falls) (inl (omega (arith, moved-less a b e less_b)))
    ]

    start_shuffle-Falls : s.at i ≡ starts_shuffle → Falls s (start_shuffle client s i)
    unfolding start_shuffle
    start_shuffle-Falls e = elim (Bool-cases (i == 0)) [
      | inl z ↦
          rw (z, Falls)
            (locked-Falls s shuffle_st _
              (inl (omega (arith, moved-less starts_shuffle shuffles e (omega arith)))))
      | inr z ↦
          rw (z, Falls) (inl (omega (arith, moved-less starts_shuffle meets2 e (omega arith))))
    ]

    shuffle-Falls : s.at i ≡ shuffles → Falls s (shuffle client s i)
    unfolding shuffle
    shuffle-Falls e =
        locked-Falls s shuffle_mutex _
          (elim (Option-cases
            (to_shuffle client s.job.num_of_threads s.job.mutexes s.job.threads_vec)) [
              | inl p ↦ rw (p, Falls) tt
              | inr (pairs, p) ↦ elim (Option-cases (place_all client pairs s.job.shuffled_vec)) [
                | inl g ↦ rw (p, g, Falls) tt
                | inr (groups, g) ↦
                    rw (p, g, Falls)
                      (inl (omega (arith, moved-less shuffles meets2 e (omega arith))))
              ]
            ])

    start_reduce-Falls : s.at i ≡ starts_reduce → Falls s (start_reduce client s i)
    unfolding start_reduce
    start_reduce-Falls e =
        let less = moved-less starts_reduce reduces e (omega arith) in
        elim (Bool-cases (not (is_reduce_stage s.job.state.stage))) [
          | inl z ↦ rw (z, Falls) (locked-Falls s reduce_st _ (inl (omega (arith, less))))
          | inr z ↦ rw (z, Falls) (inl (omega (arith, less)))
        ]

    next_group-Falls : s.at i ≡ reduces → Falls s (next_group client s i)
    unfolding next_group
    next_group-Falls e =
        elim (Option-cases (get_elem? s.job.shuffled_vec s.job.atomic_red_counter)) [
          | inl h ↦
              let all = get_elem?-none s.job.shuffled_vec s.job.atomic_red_counter h in
              let w = λ (group : List (K × V)). 2 + length (client.reduce group) in
              let d = ap (weigh w) (drop_all s.job.atomic_red_counter s.job.shuffled_vec all) in
              let d' =
                ap (weigh w)
                  (drop_all (suc s.job.atomic_red_counter) s.job.shuffled_vec (omega arith)) in
              let t = total-assign n s.at i l finished to_go in
              let t' = total-assign n s.at i l finished to_end in
              let q = ap to_go e in
              let q' = ap to_end e in rw (h, Falls) (inr (omega arith, omega arith))
          | inr (x, h) ↦
              let w = λ (group : List (K × V)). 2 + length (client.reduce group) in
              let d =
                ap (weigh w) (drop-get_elem? s.job.atomic_red_counter s.job.shuffled_vec x h) in
              let t = total-assign n s.at i l (emits3 (client.reduce x)) to_go in
              let t' = total-assign n s.at i l (emits3 (client.reduce x)) to_end in
              let q = ap to_go e in
              let q' = ap to_end e in rw (h, Falls) (inr (omega arith, omega arith))
        ]

    -- The thread goes on inside the last loop.
    emitted-Falls :
        (a b : At K V O)
        → s.at i ≡ a
        → to_go b ≡ to_go a
        → to_end b < to_end a
        → (total n (λ j. to_go (assign s.at i b j)) ≡ total n (λ j. to_go (s.at j)))
          × (total n (λ j. to_end (assign s.at i b j)) < total n (λ j. to_end (s.at j)))
    emitted-Falls a b e same less =
        let q = ap to_go e in
        let q' = ap to_end e in
        (
          omega (arith, total-assign n s.at i l b to_go),
          omega (arith, total-assign n s.at i l b to_end),
        )

    job_to_do-Falls : (a : At K V O) → s.at i ≡ a → Falls s (job_to_do client s i a)
    unfolding job_to_do begin_map emit2 sort_stage emit3
    job_to_do-Falls begins e =
        locked-Falls s map_mut _ (inl (omega (arith, moved-less begins maps e (omega arith))))
    job_to_do-Falls maps e = next_input-Falls e
    job_to_do-Falls (emits2 []) e = inl (omega (arith, moved-less (emits2 []) maps e (omega arith)))
    job_to_do-Falls (emits2 (p ∷ ps)) e =
        locked-Falls s emit2_mut _
          (inl (omega (arith, moved-less (emits2 (p ∷ ps)) (emits2 ps) e (omega arith))))
    job_to_do-Falls sorts e =
        locked-Falls s sort_mut _ (inl (omega (arith, moved-less sorts meets1 e (omega arith))))
    job_to_do-Falls meets1 e =
        meet-Falls meets1 waits1 starts_shuffle e refl (omega arith) (omega arith)
    job_to_do-Falls waits1 e = tt
    job_to_do-Falls starts_shuffle e = start_shuffle-Falls e
    job_to_do-Falls shuffles e = shuffle-Falls e
    job_to_do-Falls meets2 e =
        meet-Falls meets2 waits2 starts_reduce e refl (omega arith) (omega arith)
    job_to_do-Falls waits2 e = tt
    job_to_do-Falls starts_reduce e = start_reduce-Falls e
    job_to_do-Falls reduces e = next_group-Falls e
    job_to_do-Falls (emits3 []) e =
        let (same, less) = emitted-Falls (emits3 []) reduces e refl (omega arith) in
        inr (omega arith, omega arith)
    job_to_do-Falls (emits3 (p ∷ ps)) e =
        let (same, less) = emitted-Falls (emits3 (p ∷ ps)) (emits3 ps) e refl (omega arith) in
        locked-Falls s emit3_mut _ (inr (omega arith, omega arith))
    job_to_do-Falls finished e = tt

  -- Some thread takes a step from `s` to `t`.
  abbrev pub Follows : State I K V O → State I K V O → Type 0
  Follows t s = (i : ℕ) × (i < n) × (job_to_do client s i (s.at i) ≡ ran t)

  halts_within :
      (a b : ℕ) (s : State I K V O) → mapping_left s < a → reducing_left s < b → Acc Follows s
  halts_within zero b s h k = absurd (omega arith)
  halts_within (suc a) zero s h k = absurd (omega arith)
  halts_within (suc a) (suc b) s h k = Acc.intro s (λ t (i, l, e).
      elim (subst (Falls s) e (job_to_do-Falls s i l (s.at i) refl)) [
        | inl less ↦ halts_within a (suc (reducing_left t)) t (omega arith) (omega arith)
        | inr (same, less) ↦ halts_within (suc a) b t (omega arith) (omega arith)
      ])

  -- Every schedule ends: no sequence of steps of the `n` threads, from any state, goes on forever.
  pub Follows-Acc : (s : State I K V O) → Acc Follows s
  Follows-Acc s =
      halts_within (suc (mapping_left s)) (suc (reducing_left s)) s (omega arith) (omega arith)
