-- ===== src/MapReduce/Threads/Correct.antt =====
-- What the threads of a job of MapReduce_Framework/MapReduceFramework.cpp do under any scheduler.
use operating_systems.Base.{
  ℕ, ◌≤◌, ◌<◌, ◌≡◌, refl, sym, ap, subst, List, [], ◌∷◌, length, weigh, weigh_one, weigh-flat,
  SameEntries, drop_all, flat, total, total-zero, total-ext, arith,
}
use operating_systems.MapReduce.Framework.{Client, start_map_reduce_job}
use operating_systems.MapReduce.Framework.Groups.{Grouped, place_all-Grouped}
use operating_systems.MapReduce.Threads.{
  At, begins, maps, emits2, sorts, meets1, waits1, starts_shuffle, shuffles, meets2, waits2,
  starts_reduce, reduces, emits3, finished, State, job_to_do, started, Reach, start, step,
}
use operating_systems.MapReduce.Threads.Invariant.{
  pending2, pending3, is_finished, is_mapped, is_shuffled, Inv,
}
use operating_systems.MapReduce.Threads.Invariant.MapSteps.{
  Keeps, Sorts, begin_map-Keeps, map_returns-Keeps, next_input-Keeps,
}
use operating_systems.MapReduce.Threads.Invariant.EmitSteps.{emit2-Keeps, sort_stage-Keeps}
use operating_systems.MapReduce.Threads.Invariant.MeetSteps.{meet1-Keeps, meet2-Keeps}
use operating_systems.MapReduce.Threads.Invariant.ShuffleSteps.{
  to_shuffle-returns, start_shuffle-Keeps, shuffle-Keeps,
}
use operating_systems.MapReduce.Threads.Invariant.ReduceSteps.{
  start_reduce-Keeps, reduce_returns-Keeps, next_group-Keeps, emit3-Keeps,
}

module _ {I K V O : Type 0} (client : Client I K V O) where
  -- What a job promises: its output is what the client emits for groups of all mapped pairs by
  -- key, each pair in one group, in some order.
  abbrev pub IsResult : List I → List O → Type 0
  IsResult inputs output =
      (groups : List (List (K × V))) × Grouped client groups
      × SameEntries (flat (λ g. g) groups) (flat client.map inputs)
      × SameEntries output (flat client.reduce groups)

module _ {I K V O : Type 0} (client : Client I K V O) (n : ℕ) (inputs : List I)
    (lib : Sorts client n inputs) where
  -- A step of any thread does not throw, and keeps the invariant.
  pub job_to_do-Keeps :
      (s : State I K V O) (v : Inv client n inputs s) (i : ℕ) (l : i < n) (a : At K V O)
      → s.at i ≡ a
      → Keeps client n inputs (job_to_do client s i a)
  unfolding job_to_do
  job_to_do-Keeps s v i l begins e = begin_map-Keeps client n inputs s v i l e
  job_to_do-Keeps s v i l maps e = next_input-Keeps client n inputs s v i l e
  job_to_do-Keeps s v i l (emits2 []) e = map_returns-Keeps client n inputs s v i l e
  job_to_do-Keeps s v i l (emits2 (p ∷ ps)) e = emit2-Keeps client n inputs s v i l p ps e
  job_to_do-Keeps s v i l sorts e = sort_stage-Keeps client n inputs s v i l lib e
  job_to_do-Keeps s v i l meets1 e = meet1-Keeps client n inputs s v i l e
  job_to_do-Keeps s v i l waits1 e = tt
  job_to_do-Keeps s v i l starts_shuffle e = start_shuffle-Keeps client n inputs s v i l e
  job_to_do-Keeps s v i l shuffles e = shuffle-Keeps client n inputs s v i l e
  job_to_do-Keeps s v i l meets2 e = meet2-Keeps client n inputs s v i l e
  job_to_do-Keeps s v i l waits2 e = tt
  job_to_do-Keeps s v i l starts_reduce e = start_reduce-Keeps client n inputs s v i l e
  job_to_do-Keeps s v i l reduces e = next_group-Keeps client n inputs s v i l e
  job_to_do-Keeps s v i l (emits3 []) e = reduce_returns-Keeps client n inputs s v i l e
  job_to_do-Keeps s v i l (emits3 (p ∷ ps)) e = emit3-Keeps client n inputs s v i l p ps e
  job_to_do-Keeps s v i l finished e = tt

  started-Inv : 0 < n → Inv client n inputs (started client inputs n)
  unfolding start_map_reduce_job
  started-Inv h =
      let zeros = λ (w : ℕ). total-zero n (λ i. 0) (λ i l. refl) in
      record {
        made = refl;
        inputs_kept = refl;
        level_kept = refl;
        together = record {
          current = 0;
          in_phase = λ i l. refl;
          for_all = refl;
          counted = sym (zeros 0);
          few = h;
        };
        mapping = record {
          emitted = λ w. omega (arith, zeros 0);
          exhausted = λ i l e. absurd cc;
          pairs_counted = sym (zeros 0);
          ordered = λ i l e. absurd cc;
        };
        shuffling = record {
          alone = λ i l e. absurd cc;
          before = λ e. (refl, refl);
          after = λ e. absurd cc;
        };
        reducing = record {
          early = λ i l e. (refl, refl);
          reduced = λ w. omega (arith, zeros 0);
          output_counted = refl;
          ended = λ i l e. absurd cc;
        };
      }

  pub Reach-Inv : {s : State I K V O} → 0 < n → Reach client inputs n s → Inv client n inputs s
  Reach-Inv h start = started-Inv h
  Reach-Inv h (step {s} i r l e) =
      subst (Keeps client n inputs) e (job_to_do-Keeps s (Reach-Inv h r) i l (s.at i) refl)

  module _ (h : 0 < n) (s : State I K V O) (r : Reach client inputs n s) where
    -- The groups hold what the client mapped to, and the output what it reduced them to.
    module _ (ends : (i : ℕ) → i < n → s.at i ≡ finished) where
      -- When std::sort sorts and keeps its entries, there is a thread, and all threads of a state
      -- that they reach have finished: the output is one that the specification allows, whatever
      -- the scheduler chose, and the counters of `emit2` and `emit3` are the numbers of pairs.
      pub finished-IsResult :
          IsResult client inputs s.job.output_vec
          × (s.job.atomic_pairs_counter ≡ length (flat client.map inputs))
          × (s.job.atomic_emit3_counter ≡ length s.job.output_vec)
      finished-IsResult =
          let v = Reach-Inv h r in
          let first = ends 0 h in
          let (pairs, p, g, c) = v.shuffling.after (ap is_shuffled first) in
          let (pairs', p', same) =
            to_shuffle-returns client n s.job.mutexes s.job.threads_vec v.made h in
          let (groups, g', holds, grouped) = place_all-Grouped client pairs [] tt in
          let eg : groups ≡ s.job.shuffled_vec = cc in
          let ep : pairs' ≡ pairs = cc in
          let all : length inputs ≤ s.job.atomic_map_counter =
            v.mapping.exhausted 0 h (ap is_mapped first) in
          let all' : length s.job.shuffled_vec ≤ s.job.atomic_red_counter =
            v.reducing.ended 0 h (ap is_finished first) in
          let mapped : (w : K × V → ℕ)
              → total n (λ i. weigh w (s.job.threads_vec i)) ≡ weigh w (flat client.map inputs) =
            λ w.
              let d =
                ap (λ ys. weigh w (flat client.map ys))
                  (drop_all s.job.atomic_map_counter inputs all) in
              let z =
                total-zero n (λ i. weigh w (pending2 (s.at i)))
                  (λ i l. ap (λ a. weigh w (pending2 a)) (ends i l)) in
              omega (arith, v.mapping.emitted w, d, z) in
          (
            (
              s.job.shuffled_vec,
              subst (Grouped client) eg grouped,
              (λ w.
                  let a = weigh-flat w (λ g. g) s.job.shuffled_vec in
                  let b = ap (weigh (weigh w)) eg in
                  let c = ap (weigh w) ep in omega (arith, holds w, same w, mapped w)),
              (λ w.
                  let d =
                    ap (λ ys. weigh w (flat client.reduce ys))
                      (drop_all s.job.atomic_red_counter s.job.shuffled_vec all') in
                  let z =
                    total-zero n (λ i. weigh w (pending3 (s.at i)))
                      (λ i l. ap (λ a. weigh w (pending3 a)) (ends i l)) in
                  omega (arith, v.reducing.reduced w, d, z)),
            ),
            (let t =
                  total-ext n (λ i. length (s.job.threads_vec i))
                    (λ i. weigh (λ x. 1) (s.job.threads_vec i))
                    (λ i l. sym (weigh_one (s.job.threads_vec i))) in
                omega (
                  arith,
                  v.mapping.pairs_counted,
                  mapped (λ x. 1),
                  weigh_one (flat client.map inputs),
                )),
            v.reducing.output_counted,
          )
