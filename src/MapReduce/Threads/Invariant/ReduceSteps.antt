-- ===== src/MapReduce/Threads/Invariant/ReduceSteps.antt =====
-- The steps of `job_ToDo` of MapReduce_Framework/MapReduceFramework.cpp after the second call of the
-- barrier: `reduce_stage` and `emit3`.
use operating_systems.Base.{
  ℕ, suc, ◌+◌, ◌≤◌, ◌<◌, ◌≡◌, refl, ap, Bool-cases, Option-cases, inl, inr, true, none, some, not,
  List, [], ◌∷◌, length, length-append, weigh, weigh-append, get_elem?, get_elem?-none, drop,
  drop_all, drop-get_elem?, flat, arith,
}
use operating_systems.MapReduce.Framework.{is_reduce_stage, reduce_st, emit3_mut, Client}
use operating_systems.MapReduce.Threads.{
  At, starts_reduce, reduces, emits3, finished, State, ran, assign, start_reduce, next_group, emit3,
}
use operating_systems.MapReduce.Threads.Invariant.{
  phase, pending3, is_finished, Reducing, Inv, total-assign,
}
use operating_systems.MapReduce.Threads.Invariant.Frames.{assign-each}
use operating_systems.MapReduce.Threads.Invariant.MapSteps.{
  Keeps, locked-Keeps, moved, Mapping-kept, Shuffling-kept, Reducing-kept,
}

module _ {I K V O : Type 0} (client : Client I K V O) (n : ℕ) (inputs : List I) (s : State I K V O)
    (v : Inv client n inputs s) (i : ℕ) (l : i < n) where
  pub start_reduce-Keeps : s.at i ≡ starts_reduce → Keeps client n inputs (start_reduce client s i)
  unfolding start_reduce
  start_reduce-Keeps e = elim (Bool-cases (not (is_reduce_stage s.job.state.stage))) [
    | inl z ↦
        rw (z, Keeps)
          (locked-Keeps client n inputs s v i l reduce_st _ (record {
            made = v.made;
            inputs_kept = v.inputs_kept;
            level_kept = v.level_kept;
            together = moved client n inputs s v i l starts_reduce e reduces (refl, refl, refl);
            mapping =
                Mapping-kept client n inputs s v i l starts_reduce e reduces
                  (refl, (λ h. h), (λ h. h));
            shuffling =
                Shuffling-kept client n inputs s v i l starts_reduce e reduces (λ q. refl)
                  (λ h. cc);
            reducing =
                Reducing-kept client n inputs s v i l starts_reduce e reduces
                  (refl, (λ h. h), (λ h. h));
          }))
    | inr z ↦
        rw (z, Keeps)
          (record {
            made = v.made;
            inputs_kept = v.inputs_kept;
            level_kept = v.level_kept;
            together = moved client n inputs s v i l starts_reduce e reduces (refl, refl, refl);
            mapping =
                Mapping-kept client n inputs s v i l starts_reduce e reduces
                  (refl, (λ h. h), (λ h. h));
            shuffling =
                Shuffling-kept client n inputs s v i l starts_reduce e reduces (λ q. refl)
                  (λ h. cc);
            reducing =
                Reducing-kept client n inputs s v i l starts_reduce e reduces
                  (refl, (λ h. h), (λ h. h));
          })
  ]

  pub reduce_returns-Keeps :
      s.at i ≡ emits3 []
      → Keeps client n inputs (ran (record { job = s.job; at = assign s.at i reduces }))
  reduce_returns-Keeps e = record {
    made = v.made;
    inputs_kept = v.inputs_kept;
    level_kept = v.level_kept;
    together = moved client n inputs s v i l (emits3 []) e reduces (refl, refl, refl);
    mapping = Mapping-kept client n inputs s v i l (emits3 []) e reduces (refl, (λ h. h), (λ h. h));
    shuffling = Shuffling-kept client n inputs s v i l (emits3 []) e reduces (λ q. refl) (λ h. cc);
    reducing =
        Reducing-kept client n inputs s v i l (emits3 []) e reduces (refl, (λ h. h), (λ h. h));
  }

  -- In the last phase no thread is in an earlier one.
  module _ (late : phase (s.at i) ≡ 2) (b : At K V O) (late_b : phase b ≡ 2) where
    no_early : (j : ℕ) → j < n → phase (assign s.at i b j) < 2 → ⊥
    no_early j k h =
        let p = v.together.in_phase j k in
        let q = v.together.in_phase i l in
        let r : phase (assign s.at i b j) ≡ 2 =
          assign-each (λ x y. phase x ≡ 2 → phase y ≡ 2) s.at i b (λ x f. f) (λ f. late_b) j
            (omega arith) in
        absurd (omega arith)

  module _ (e : s.at i ≡ reduces) where
    claimed_group :
        (x : List (K × V))
        → get_elem? s.job.shuffled_vec s.job.atomic_red_counter ≡ some x
        → Reducing client n s.job.shuffled_vec
            (suc s.job.atomic_red_counter)
            s.job.output_vec
            s.job.atomic_emit3_counter
            (assign s.at i (emits3 (client.reduce x)))
    claimed_group x h =
        let b = emits3 (client.reduce x) in
        record {
          early = λ j k q. absurd (no_early (ap phase e) b refl j k q);
          reduced = λ w.
              let a = total-assign n s.at i l b (λ y. weigh w (pending3 y)) in
              let z : weigh w (pending3 (s.at i)) ≡ 0 = ap (λ y. weigh w (pending3 y)) e in
              let d =
                ap (λ ys. weigh w (flat client.reduce ys))
                  (drop-get_elem? s.job.atomic_red_counter s.job.shuffled_vec x h) in
              let p =
                weigh-append w (client.reduce x)
                  (flat client.reduce (drop (suc s.job.atomic_red_counter) s.job.shuffled_vec)) in
              omega (arith, v.reducing.reduced w, a, z, d, p);
          output_counted = v.reducing.output_counted;
          ended = λ j k q. omega (
            arith,
            (assign-each
                (λ y z.
                  (is_finished y ≡ true → length s.job.shuffled_vec ≤ s.job.atomic_red_counter)
                  → is_finished z ≡ true
                  → length s.job.shuffled_vec ≤ s.job.atomic_red_counter)
                s.at i b (λ y g. g) (λ g f. absurd cc) j (v.reducing.ended j k) q),
          );
        }

    no_group :
        get_elem? s.job.shuffled_vec s.job.atomic_red_counter ≡ none
        → Reducing client n s.job.shuffled_vec
            (suc s.job.atomic_red_counter)
            s.job.output_vec
            s.job.atomic_emit3_counter
            (assign s.at i finished)
    no_group h =
        let all = get_elem?-none s.job.shuffled_vec s.job.atomic_red_counter h in
        record {
          early = λ j k q. absurd (no_early (ap phase e) finished refl j k q);
          reduced = λ w.
              let a = total-assign n s.at i l finished (λ y. weigh w (pending3 y)) in
              let z : weigh w (pending3 (s.at i)) ≡ 0 = ap (λ y. weigh w (pending3 y)) e in
              let d =
                ap (λ ys. weigh w (flat client.reduce ys))
                  (drop_all s.job.atomic_red_counter s.job.shuffled_vec all) in
              let d' =
                ap (λ ys. weigh w (flat client.reduce ys))
                  (drop_all (suc s.job.atomic_red_counter) s.job.shuffled_vec (omega arith)) in
              omega (arith, v.reducing.reduced w, a, z, d, d');
          output_counted = v.reducing.output_counted;
          ended = λ j k q. omega arith;
        }

    pub next_group-Keeps : Keeps client n inputs (next_group client s i)
    unfolding next_group
    next_group-Keeps = elim (Option-cases (get_elem? s.job.shuffled_vec s.job.atomic_red_counter)) [
      | inl h ↦
          rw (h, Keeps)
            (record {
              made = v.made;
              inputs_kept = v.inputs_kept;
              level_kept = v.level_kept;
              together = moved client n inputs s v i l reduces e finished (refl, refl, refl);
              mapping =
                  Mapping-kept client n inputs s v i l reduces e finished
                    (refl, (λ f. f), (λ f. f));
              shuffling =
                  Shuffling-kept client n inputs s v i l reduces e finished (λ q. refl) (λ f. cc);
              reducing = no_group h;
            })
      | inr (x, h) ↦
          let b = emits3 (client.reduce x) in
          rw (h, Keeps)
            (record {
              made = v.made;
              inputs_kept = v.inputs_kept;
              level_kept = v.level_kept;
              together = moved client n inputs s v i l reduces e b (refl, refl, refl);
              mapping = Mapping-kept client n inputs s v i l reduces e b (refl, (λ f. f), (λ f. f));
              shuffling = Shuffling-kept client n inputs s v i l reduces e b (λ q. refl) (λ f. cc);
              reducing = claimed_group x h;
            })
    ]

  pub emit3-Keeps :
      (p : O) (ps : List O)
      → s.at i ≡ emits3 (p ∷ ps)
      → Keeps client n inputs (emit3 client s i p ps)
  unfolding emit3
  emit3-Keeps p ps e =
      let a = emits3 (p ∷ ps) in
      let b = emits3 ps in
      locked-Keeps client n inputs s v i l emit3_mut _ (record {
        made = v.made;
        inputs_kept = v.inputs_kept;
        level_kept = v.level_kept;
        together = moved client n inputs s v i l a e b (refl, refl, refl);
        mapping = Mapping-kept client n inputs s v i l a e b (refl, (λ f. f), (λ f. f));
        shuffling = Shuffling-kept client n inputs s v i l a e b (λ q. refl) (λ f. cc);
        reducing = record {
          early = λ j k q. absurd (no_early (ap phase e) b refl j k q);
          reduced = λ w.
              let t = total-assign n s.at i l b (λ y. weigh w (pending3 y)) in
              let z : weigh w (pending3 (s.at i)) ≡ w p + weigh w ps =
                ap (λ y. weigh w (pending3 y)) e in
              let d = weigh-append w s.job.output_vec (p ∷ []) in
              omega (arith, v.reducing.reduced w, t, z, d);
          output_counted =
              let d = length-append s.job.output_vec (p ∷ []) in
              omega (arith, v.reducing.output_counted, d);
          ended = λ j k q.
              assign-each
                (λ y z.
                  (is_finished y ≡ true → length s.job.shuffled_vec ≤ s.job.atomic_red_counter)
                  → is_finished z ≡ true
                  → length s.job.shuffled_vec ≤ s.job.atomic_red_counter)
                s.at i b (λ y g. g) (λ g f. absurd cc) j (v.reducing.ended j k) q;
        };
      })
