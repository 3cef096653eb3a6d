-- ===== src/MapReduce/Threads/Invariant/MeetSteps.antt =====
-- The calls of the barrier in `job_ToDo` of MapReduce_Framework/MapReduceFramework.cpp.
use operating_systems.Base.{
  ℕ, suc, ◌<◌, ◌≡◌, refl, sym, ap, ◌∙◌, subst, ◌==◌, ==_iff, Bool-cases, inl, inr, true, false,
  List, arith,
}
use operating_systems.MapReduce.Barrier.{is_last, arrive}
use operating_systems.MapReduce.Framework.{Client}
use operating_systems.MapReduce.Threads.{
  At, meets1, waits1, starts_shuffle, meets2, waits2, starts_reduce, State, assign, wake, meet,
}
use operating_systems.MapReduce.Threads.Invariant.{phase, waiting, is_shuffling, Inv}
use operating_systems.MapReduce.Threads.Invariant.Frames.{
  KeepsMap, KeepsShuffle, KeepsReduce, wake-KeepsMap, wake-KeepsShuffle, wake-KeepsReduce,
  wake_shuffling, Mapping-frame, Shuffling-frame, Reducing-frame,
}
use operating_systems.MapReduce.Threads.Invariant.Meeting.{wait-Together, pass-Together}
use operating_systems.MapReduce.Threads.Invariant.MapSteps.{
  Keeps, Mapping-kept, Shuffling-kept, Reducing-kept,
}

-- Thread `i` goes on and all others are woken.
pub pass-each :
    {K V O : Type 0} (R : At K V O → At K V O → Type 0) (at : ℕ → At K V O) (i : ℕ) (b : At K V O)
    → ((a : At K V O) → R a (wake a))
    → R (at i) b
    → (j : ℕ) → R (at j) (assign (λ k. wake (at k)) i b j)
pass-each R at i b woken moved j = elim (Bool-cases (i == j)) [
  | inl e ↦ rw e (subst (λ k. R (at k) b) ((==_iff i j).0 e) moved)
  | inr e ↦ rw e (woken (at j))
]

module _ {I K V O : Type 0} (client : Client I K V O) (n : ℕ) (inputs : List I) (s : State I K V O)
    (v : Inv client n inputs s) (i : ℕ) (l : i < n) where
  -- A thread at `a` calls, and waits at `b` or goes on at `c`.
  module _ (a b c : At K V O) (e : s.at i ≡ a)
      (waits : (waiting a ≡ 0) × (waiting b ≡ 1) × (phase b ≡ phase a))
      (passes : (waiting c ≡ 0) × (phase c ≡ suc (phase a))) (map_b : KeepsMap a b)
      (map_c : KeepsMap a c) (shuffle_b : KeepsShuffle a b) (shuffle_c : KeepsShuffle a c)
      (alone_b : is_shuffling b ≡ true → is_shuffling a ≡ true)
      (alone_c : is_shuffling c ≡ true → is_shuffling a ≡ true) (reduce_b : KeepsReduce a b)
      (reduce_c : KeepsReduce a c) where
    meet-Inv_wait :
        is_last s.job.barrier ≡ false
        → Inv client n inputs
            (record { job = record s.job { barrier = arrive s.job.barrier }; at = assign s.at i b })
    meet-Inv_wait f = record {
      made = v.made;
      inputs_kept = v.inputs_kept;
      level_kept = v.level_kept;
      together =
          wait-Together n s.job.barrier s.at v.together i l b (ap waiting e ∙ waits.0) waits.1
            (waits.2 ∙ sym (ap phase e)) f;
      mapping = Mapping-kept client n inputs s v i l a e b map_b;
      shuffling = Shuffling-kept client n inputs s v i l a e b (λ z. shuffle_b) alone_b;
      reducing = Reducing-kept client n inputs s v i l a e b reduce_b;
    }

    meet-Inv_pass :
        is_last s.job.barrier ≡ true
        → Inv client n inputs (record {
          job = record s.job { barrier = arrive s.job.barrier };
          at = assign (λ j. wake (s.at j)) i c;
        })
    meet-Inv_pass f =
        let at' = assign (λ j. wake (s.at j)) i c in
        record {
          made = v.made;
          inputs_kept = v.inputs_kept;
          level_kept = v.level_kept;
          together =
              pass-Together n s.job.barrier s.at v.together i l c (ap waiting e ∙ waits.0) passes.0
                (passes.1 ∙ ap suc (sym (ap phase e))) f;
          mapping =
              Mapping-frame client n s.at at' inputs s.job.threads_vec s.job.atomic_map_counter
                s.job.atomic_pairs_counter
                (pass-each KeepsMap s.at i c wake-KeepsMap
                  (subst (λ x. KeepsMap x c) (sym e) map_c))
                v.mapping;
          shuffling =
              Shuffling-frame client n s.at at' s.job.mutexes s.job.threads_vec s.job.shuffled_vec
                s.job.atomic_shuffle_counter
                (pass-each KeepsShuffle s.at i c wake-KeepsShuffle
                  (subst (λ x. KeepsShuffle x c) (sym e) shuffle_c) 0)
                (pass-each (λ x y. is_shuffling y ≡ true → is_shuffling x ≡ true) s.at i c
                  wake_shuffling
                  (subst (λ x. is_shuffling c ≡ true → is_shuffling x ≡ true) (sym e) alone_c))
                v.shuffling;
          reducing =
              Reducing-frame client n s.at at' s.job.shuffled_vec s.job.atomic_red_counter
                s.job.output_vec s.job.atomic_emit3_counter
                (pass-each KeepsReduce s.at i c wake-KeepsReduce
                  (subst (λ x. KeepsReduce x c) (sym e) reduce_c))
                v.reducing;
        }

    meet-Inv : Keeps client n inputs (meet client s i b c)
    unfolding meet
    meet-Inv = elim (Bool-cases (is_last s.job.barrier)) [
      | inl f ↦ rw (f, Keeps) (meet-Inv_pass f)
      | inr f ↦ rw (f, Keeps) (meet-Inv_wait f)
    ]

  pub meet1-Keeps : s.at i ≡ meets1 → Keeps client n inputs (meet client s i waits1 starts_shuffle)
  meet1-Keeps e =
      meet-Inv meets1 waits1 starts_shuffle e (refl, refl, refl) (refl, refl)
        (refl, (λ h. h), (λ h. h)) (refl, (λ h. refl), (λ h. refl)) refl refl (λ h. h) (λ h. cc)
        (refl, (λ h. h), (λ h. h)) (refl, (λ h. omega arith), (λ h. h))

  pub meet2-Keeps : s.at i ≡ meets2 → Keeps client n inputs (meet client s i waits2 starts_reduce)
  meet2-Keeps e =
      meet-Inv meets2 waits2 starts_reduce e (refl, refl, refl) (refl, refl)
        (refl, (λ h. h), (λ h. h)) (refl, (λ h. refl), (λ h. refl)) refl refl (λ h. h) (λ h. cc)
        (refl, (λ h. h), (λ h. h)) (refl, (λ h. omega arith), (λ h. h))
