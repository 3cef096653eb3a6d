-- ===== src/MapReduce/Threads/Invariant/EmitSteps.antt =====
-- The steps of MapReduce_Framework/MapReduceFramework.cpp that change the vector of a thread:
-- `emit2` and `sort_stage`.
use operating_systems.Base.{
  ℕ, ◌+◌, ◌≤◌, ◌<◌, ◌≡◌, refl, sym, ap, ◌∙◌, subst, ◌==◌, Bool-cases, ltb, inl, inr, true, false,
  List, [], ◌∷◌, ◌++◌, length, length-append, weigh, weigh_one, weigh-append, arith,
}
use operating_systems.MapReduce.Framework.{emit2_mut, sort_mut, Client}
use operating_systems.MapReduce.Framework.Merge.{Ordered}
use operating_systems.MapReduce.Threads.{
  At, emits2, sorts, meets1, State, assign, emit2, sort_stage,
}
use operating_systems.MapReduce.Threads.Invariant.{
  phase, waiting, pending2, is_mapped, is_sorted, is_shuffled, is_shuffling, Shuffling, Inv,
  total-assign,
}
use operating_systems.MapReduce.Threads.Invariant.Frames.{assign-each}
use operating_systems.MapReduce.Threads.Invariant.MapSteps.{
  Keeps, Sorts, locked-Keeps, moved, Reducing-kept,
}

module _ {K V O : Type 0} where
  early_unshuffled : (a : At K V O) → phase a ≡ 0 → is_shuffled a ≡ false
  early_unshuffled a h = ground arith

module _ {I K V O : Type 0} (client : Client I K V O) (n : ℕ) (inputs : List I) (s : State I K V O)
    (v : Inv client n inputs s) (i : ℕ) (l : i < n) where
  -- A thread in the first phase goes from `a` to `b` and changes its vector.
  module _ (a : At K V O) (e : s.at i ≡ a) (b : At K V O) (vec : List (K × V))
      (still : (waiting a ≡ 0) × (waiting b ≡ 0) × (phase b ≡ phase a)) (first : phase b ≡ 0) where
    all_first : v.together.current ≡ 0
    all_first =
        let h = v.together.in_phase i l in let q = ap phase e in omega (arith, h, q, still.2, first)

    vec_Shuffling :
        (is_shuffling b ≡ true → is_shuffling a ≡ true)
        → Shuffling client n s.job.mutexes
            (assign s.job.threads_vec i vec)
            s.job.shuffled_vec
            s.job.atomic_shuffle_counter
            (assign s.at i b)
    vec_Shuffling lone =
        let t = moved client n inputs s v i l a e b still in
        let old = early_unshuffled (s.at 0) (v.together.in_phase 0 (omega arith) ∙ all_first) in
        let new =
          early_unshuffled (assign s.at i b 0) (t.in_phase 0 (omega arith) ∙ current_kept) in
        record {
          alone = λ j k q. v.shuffling.alone j k (
              assign-each (λ x y. is_shuffling y ≡ true → is_shuffling x ≡ true) s.at i b (λ x h. h)
                (subst (λ x. is_shuffling b ≡ true → is_shuffling x ≡ true) (sym e) lone) j q);
          before = λ q. v.shuffling.before old;
          after = λ q. absurd cc;
        }
      where
        current_kept : (moved client n inputs s v i l a e b still).current ≡ 0
        current_kept =
            let t = moved client n inputs s v i l a e b still in
            let h = t.in_phase i l in ground (arith, h, first)

    vec-Ordered :
        (is_sorted b ≡ true → Ordered client vec)
        → (j : ℕ) → j < n
        → is_sorted (assign s.at i b j) ≡ true
        → Ordered client (assign s.job.threads_vec i vec j)
    vec-Ordered own j k = elim (Bool-cases (i == j)) [
      | inl here ↦ rw here own
      | inr other ↦ rw other (v.mapping.ordered j k)
    ]

  pub emit2-Keeps :
      (p : K × V) (ps : List (K × V))
      → s.at i ≡ emits2 (p ∷ ps)
      → Keeps client n inputs (emit2 client s i p ps)
  unfolding emit2
  emit2-Keeps p ps e =
      let vec = s.job.threads_vec i ++ p ∷ [] in
      locked-Keeps client n inputs s v i l emit2_mut _ (record {
        made = v.made;
        inputs_kept = v.inputs_kept;
        level_kept = v.level_kept;
        together = moved client n inputs s v i l (emits2 (p ∷ ps)) e (emits2 ps) (refl, refl, refl);
        mapping = record {
          emitted = λ w.
              let a = total-assign n s.at i l (emits2 ps) (λ y. weigh w (pending2 y)) in
              let z : weigh w (pending2 (s.at i)) ≡ w p + weigh w ps =
                ap (λ y. weigh w (pending2 y)) e in
              let c = total-assign n s.job.threads_vec i l vec (weigh w) in
              let d = weigh-append w (s.job.threads_vec i) (p ∷ []) in
              omega (arith, v.mapping.emitted w, a, z, c, d);
          exhausted = λ j k q.
              assign-each
                (λ y z.
                  (is_mapped y ≡ true → length inputs ≤ s.job.atomic_map_counter)
                  → is_mapped z ≡ true
                  → length inputs ≤ s.job.atomic_map_counter)
                s.at i (emits2 ps) (λ y g. g) (λ g f. absurd cc) j (v.mapping.exhausted j k) q;
          pairs_counted =
              let c = total-assign n s.job.threads_vec i l vec length in
              let d = length-append (s.job.threads_vec i) (p ∷ []) in
              omega (arith, v.mapping.pairs_counted, c, d);
          ordered =
              vec-Ordered (emits2 (p ∷ ps)) e (emits2 ps) vec (refl, refl, refl) refl
                (λ f. absurd cc);
        };
        shuffling =
            vec_Shuffling (emits2 (p ∷ ps)) e (emits2 ps) vec (refl, refl, refl) refl (λ f. f);
        reducing =
            Reducing-kept client n inputs s v i l (emits2 (p ∷ ps)) e (emits2 ps)
              (refl, (λ f. f), (λ f. f));
      })

  pub sort_stage-Keeps :
      Sorts client n inputs → s.at i ≡ sorts → Keeps client n inputs (sort_stage client s i)
  unfolding sort_stage
  sort_stage-Keeps lib e =
      let vec = client.sort (s.job.threads_vec i) in
      let has : ltb i s.job.num_of_threads ≡ true = (let k = v.level_kept in ground arith) in
      locked-Keeps client n inputs s v i l sort_mut _ (
        rw has (record {
          made = v.made;
          inputs_kept = v.inputs_kept;
          level_kept = v.level_kept;
          together = moved client n inputs s v i l sorts e meets1 (refl, refl, refl);
          mapping = record {
            emitted = λ w.
                let a = total-assign n s.at i l meets1 (λ y. weigh w (pending2 y)) in
                let z : weigh w (pending2 (s.at i)) ≡ 0 = ap (λ y. weigh w (pending2 y)) e in
                let c = total-assign n s.job.threads_vec i l vec (weigh w) in
                let d = lib.same (s.job.threads_vec i) w in
                omega (arith, v.mapping.emitted w, a, z, c, d);
            exhausted = λ j k q.
                assign-each
                  (λ y z.
                    (is_mapped y ≡ true → length inputs ≤ s.job.atomic_map_counter)
                    → is_mapped z ≡ true
                    → length inputs ≤ s.job.atomic_map_counter)
                  s.at i meets1 (λ y g. g) (λ g f. g (ap is_mapped e)) j (v.mapping.exhausted j k)
                  q;
            pairs_counted =
                let c = total-assign n s.job.threads_vec i l vec length in
                let d = lib.same (s.job.threads_vec i) (λ x. 1) in
                let f = weigh_one (s.job.threads_vec i) in
                let g = weigh_one vec in omega (arith, v.mapping.pairs_counted, c, d, f, g);
            ordered =
                vec-Ordered sorts e meets1 vec (refl, refl, refl) refl
                  (λ f. lib.sorted (s.job.threads_vec i));
          };
          shuffling = vec_Shuffling sorts e meets1 vec (refl, refl, refl) refl (λ f. f);
          reducing =
              Reducing-kept client n inputs s v i l sorts e meets1 (refl, (λ f. f), (λ f. f));
        }))
