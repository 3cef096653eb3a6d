-- ===== src/MapReduce/Threads/Invariant/MapSteps.antt =====
-- The steps of `map_stage`, `emit2` and `sort_stage` of MapReduce_Framework/MapReduceFramework.cpp.
use operating_systems.Base.{
  ℕ, suc, ◌≤◌, ◌<◌, ◌≡◌, refl, sym, ap, ◌∙◌, subst, ◌==◌, ==_iff, Bool-cases, Option-cases, inl,
  inr, true, none, some, List, [], length, weigh, weigh-append, SameEntries, get_elem?,
  get_elem?-none, drop, drop_all, drop-get_elem?, flat, arith,
}
use operating_systems.MapReduce.Framework.{Mutex, creating_mutexes, map_mut, Client}
use operating_systems.MapReduce.Framework.Merge.{Ordered}
use operating_systems.MapReduce.Threads.{
  At, begins, maps, emits2, sorts, State, Outcome, ran, blocked, thrown, has_mutex, assign, locked,
  begin_map, next_input,
}
use operating_systems.MapReduce.Threads.Invariant.{
  phase, waiting, pending2, is_mapped, is_sorted, is_shuffling, Together, Mapping, Shuffling,
  Reducing, Inv, total-assign,
}
use operating_systems.MapReduce.Threads.Invariant.Frames.{
  assign-each, KeepsMap, KeepsShuffle, KeepsReduce, KeepsMap-refl, KeepsReduce-refl, Mapping-frame,
  Shuffling-frame, Reducing-frame,
}
use operating_systems.MapReduce.Threads.Invariant.Meeting.{move-Together}

pub has_created : (name : Mutex) → has_mutex name creating_mutexes ≡ true
has_created name = ground arith

module _ {I K V O : Type 0} (client : Client I K V O) (n : ℕ) (inputs : List I) where
  -- A step does not throw, and leaves the invariant.
  abbrev pub Keeps : Outcome (State I K V O) → Type 0
  Keeps (ran t) = Inv client n inputs t
  Keeps blocked = Unit
  Keeps thrown = ⊥

  -- What std::sort promises.
  pub record Sorts : Type 0 where
    pub sorted : (xs : List (K × V)) → Ordered client (client.sort xs)
    pub same : (xs : List (K × V)) → SameEntries (client.sort xs) xs

  module _ (s : State I K V O) (v : Inv client n inputs s) (i : ℕ) (l : i < n) where
    pub locked-Keeps :
        (name : Mutex) (r : Outcome (State I K V O)) → Keeps r → Keeps (locked client name s.job r)
    locked-Keeps name r k =
        let e : has_mutex name s.job.mutexes ≡ true =
          subst (λ ms. has_mutex name ms ≡ true) (sym v.made) (has_created name) in
        rw e k

    -- The parts of the invariant when thread `i` goes from `a` to `b` inside a phase.
    module _ (a : At K V O) (e : s.at i ≡ a) (b : At K V O) where
      pub moved :
          (waiting a ≡ 0) × (waiting b ≡ 0) × (phase b ≡ phase a)
          → Together n s.job.barrier (assign s.at i b)
      moved (w, w', p) =
          move-Together n s.job.barrier s.at v.together i l b (subst (λ x. waiting x ≡ 0) (sym e) w)
            w' (subst (λ x. phase b ≡ phase x) (sym e) p)

      pub Mapping-kept :
          KeepsMap a b
          → Mapping client n inputs s.job.threads_vec s.job.atomic_map_counter
              s.job.atomic_pairs_counter
              (assign s.at i b)
      Mapping-kept k =
          Mapping-frame client n s.at (assign s.at i b) inputs s.job.threads_vec
            s.job.atomic_map_counter s.job.atomic_pairs_counter
            (assign-each KeepsMap s.at i b KeepsMap-refl (subst (λ x. KeepsMap x b) (sym e) k))
            v.mapping

      pub Shuffling-kept :
          (i ≡ 0 → KeepsShuffle a b)
          → (is_shuffling b ≡ true → is_shuffling a ≡ true)
          → Shuffling client n s.job.mutexes s.job.threads_vec s.job.shuffled_vec
              s.job.atomic_shuffle_counter
              (assign s.at i b)
      Shuffling-kept k lone =
          Shuffling-frame client n s.at (assign s.at i b) s.job.mutexes s.job.threads_vec
            s.job.shuffled_vec s.job.atomic_shuffle_counter (assign-zero k)
            (assign-each (λ x y. is_shuffling y ≡ true → is_shuffling x ≡ true) s.at i b (λ x h. h)
              (subst (λ x. is_shuffling b ≡ true → is_shuffling x ≡ true) (sym e) lone))
            v.shuffling
        where
          assign-zero : (i ≡ 0 → KeepsShuffle a b) → KeepsShuffle (s.at 0) (assign s.at i b 0)
          assign-zero k = elim (Bool-cases (i == 0)) [
            | inl z ↦
                let here : i ≡ 0 = (==_iff i 0).0 z in
                rw z (subst (λ x. KeepsShuffle x b) (sym e ∙ ap s.at here) (k here))
            | inr z ↦ rw z refl
          ]

      pub Reducing-kept :
          KeepsReduce a b
          → Reducing client n s.job.shuffled_vec s.job.atomic_red_counter s.job.output_vec
              s.job.atomic_emit3_counter
              (assign s.at i b)
      Reducing-kept k =
          Reducing-frame client n s.at (assign s.at i b) s.job.shuffled_vec s.job.atomic_red_counter
            s.job.output_vec s.job.atomic_emit3_counter
            (assign-each KeepsReduce s.at i b KeepsReduce-refl
              (subst (λ x. KeepsReduce x b) (sym e) k))
            v.reducing

    pub begin_map-Keeps : s.at i ≡ begins → Keeps (begin_map client s i)
    unfolding begin_map
    begin_map-Keeps e = locked-Keeps map_mut _ (record {
      made = v.made;
      inputs_kept = v.inputs_kept;
      level_kept = v.level_kept;
      together = moved begins e maps (refl, refl, refl);
      mapping = Mapping-kept begins e maps (refl, (λ h. h), (λ h. h));
      shuffling = Shuffling-kept begins e maps (λ z. refl) (λ h. h);
      reducing = Reducing-kept begins e maps (refl, (λ h. h), (λ h. h));
    })

    pub map_returns-Keeps :
        s.at i ≡ emits2 [] → Keeps (ran (record { job = s.job; at = assign s.at i maps }))
    map_returns-Keeps e = record {
      made = v.made;
      inputs_kept = v.inputs_kept;
      level_kept = v.level_kept;
      together = moved (emits2 []) e maps (refl, refl, refl);
      mapping = Mapping-kept (emits2 []) e maps (refl, (λ h. h), (λ h. h));
      shuffling = Shuffling-kept (emits2 []) e maps (λ z. refl) (λ h. h);
      reducing = Reducing-kept (emits2 []) e maps (refl, (λ h. h), (λ h. h));
    }

    -- The thread claims the next input, or finds that there is none.
    module _ (e : s.at i ≡ maps) where
      claimed_input :
          (x : I)
          → get_elem? inputs s.job.atomic_map_counter ≡ some x
          → Mapping client n inputs s.job.threads_vec
              (suc s.job.atomic_map_counter)
              s.job.atomic_pairs_counter
              (assign s.at i (emits2 (client.map x)))
      claimed_input x h = record {
        emitted = λ w.
            let a = total-assign n s.at i l (emits2 (client.map x)) (λ y. weigh w (pending2 y)) in
            let z : weigh w (pending2 (s.at i)) ≡ 0 = rw e refl in
            let d =
              ap (λ ys. weigh w (flat client.map ys))
                (drop-get_elem? s.job.atomic_map_counter inputs x h) in
            let p =
              weigh-append w (client.map x)
                (flat client.map (drop (suc s.job.atomic_map_counter) inputs)) in
            omega (arith, v.mapping.emitted w, a, z, d, p);
        exhausted = λ j k q. omega (
          arith,
          (assign-each
              (λ y z.
                (is_mapped y ≡ true → length inputs ≤ s.job.atomic_map_counter)
                → is_mapped z ≡ true
                → length inputs ≤ s.job.atomic_map_counter)
              s.at i (emits2 (client.map x)) (λ y g. g) (λ g f. absurd cc) j
              (v.mapping.exhausted j k) q),
        );
        pairs_counted = v.mapping.pairs_counted;
        ordered = λ j k q.
            assign-each
              (λ y z.
                (is_sorted y ≡ true → Ordered client (s.job.threads_vec j))
                → is_sorted z ≡ true
                → Ordered client (s.job.threads_vec j))
              s.at i (emits2 (client.map x)) (λ y g. g) (λ g f. absurd cc) j (v.mapping.ordered j k)
              q;
      }

      no_input :
          get_elem? inputs s.job.atomic_map_counter ≡ none
          → Mapping client n inputs s.job.threads_vec
              (suc s.job.atomic_map_counter)
              s.job.atomic_pairs_counter
              (assign s.at i sorts)
      no_input h =
          let all = get_elem?-none inputs s.job.atomic_map_counter h in
          record {
            emitted = λ w.
                let a = total-assign n s.at i l sorts (λ y. weigh w (pending2 y)) in
                let z : weigh w (pending2 (s.at i)) ≡ 0 = rw e refl in
                let d =
                  ap (λ ys. weigh w (flat client.map ys))
                    (drop_all s.job.atomic_map_counter inputs all) in
                let d' =
                  ap (λ ys. weigh w (flat client.map ys))
                    (drop_all (suc s.job.atomic_map_counter) inputs (omega arith)) in
                omega (arith, v.mapping.emitted w, a, z, d, d');
            exhausted = λ j k q. omega arith;
            pairs_counted = v.mapping.pairs_counted;
            ordered = λ j k q.
                assign-each
                  (λ y z.
                    (is_sorted y ≡ true → Ordered client (s.job.threads_vec j))
                    → is_sorted z ≡ true
                    → Ordered client (s.job.threads_vec j))
                  s.at i sorts (λ y g. g) (λ g f. absurd cc) j (v.mapping.ordered j k) q;
          }

      pub next_input-Keeps : Keeps (next_input client s i)
      unfolding next_input
      next_input-Keeps = elim (Option-cases (get_elem? inputs s.job.atomic_map_counter)) [
        | inl h ↦
            let h' =
              subst (λ xs. get_elem? xs s.job.atomic_map_counter ≡ none) (sym v.inputs_kept) h in
            rw (h', Keeps)
              (record {
                made = v.made;
                inputs_kept = v.inputs_kept;
                level_kept = v.level_kept;
                together = moved maps e sorts (refl, refl, refl);
                mapping = no_input h;
                shuffling = Shuffling-kept maps e sorts (λ z. refl) (λ f. f);
                reducing = Reducing-kept maps e sorts (refl, (λ f. f), (λ f. f));
              })
        | inr (x, h) ↦
            let h' =
              subst (λ xs. get_elem? xs s.job.atomic_map_counter ≡ some x) (sym v.inputs_kept) h in
            rw (h', Keeps)
              (record {
                made = v.made;
                inputs_kept = v.inputs_kept;
                level_kept = v.level_kept;
                together = moved maps e (emits2 (client.map x)) (refl, refl, refl);
                mapping = claimed_input x h;
                shuffling = Shuffling-kept maps e (emits2 (client.map x)) (λ z. refl) (λ f. f);
                reducing = Reducing-kept maps e (emits2 (client.map x)) (refl, (λ f. f), (λ f. f));
              })
      ]
