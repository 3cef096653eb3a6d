-- ===== src/MapReduce/Samples.antt =====
-- A job on concrete inputs: numbers that are grouped by their remainders and added up.
use operating_systems.Base.{
  ℕ, zero, suc, ◌+◌, ◌%◌, ◌<◌, ◌≡◌, refl, ltb, if◌then◌else◌, Bool-cases, inl, inr, false, List, [],
  ◌∷◌, All, weigh, arith,
}
use operating_systems.MapReduce.Framework.{
  Client, start_map_reduce_job, merge_vectors, merge_neighbours, pair_merging_helper, place,
  place_all,
}
use operating_systems.MapReduce.Barrier.{arrive}
use operating_systems.MapReduce.Framework.Merge.{Ordered, IsOrder}
use operating_systems.MapReduce.Threads.{
  State, Outcome, ran, blocked, thrown, job_to_do, started, Reach, start, step, finished, shuffles,
  begin_map, next_input, emit2, sort_stage, meet, start_shuffle, to_shuffle, shuffle, start_reduce,
  next_group, emit3, collect,
}
use operating_systems.MapReduce.Threads.Invariant.MapSteps.{Sorts}
use operating_systems.MapReduce.Handle.{Handle}
use operating_systems.MapReduce.Handle.Closing.{IsFresh}

abbrev pub insert : ℕ × ℕ → List (ℕ × ℕ) → List (ℕ × ℕ)
insert x [] = x ∷ []
insert x (y ∷ ys) = let rest = insert x ys in if ltb y.0 x.0 then y ∷ rest else x ∷ y ∷ ys

abbrev pub insertion_sort : List (ℕ × ℕ) → List (ℕ × ℕ)
insertion_sort [] = []
insertion_sort (x ∷ xs) = insert x (insertion_sort xs)

abbrev pub second_sum : List (ℕ × ℕ) → ℕ
second_sum [] = 0
second_sum (x ∷ xs) = x.1 + second_sum xs

abbrev pub adder : Client ℕ ℕ ℕ ℕ
adder = record {
  before = ltb;
  map = λ x. (x % 2, x) ∷ [];
  reduce = λ group. second_sum group ∷ [];
  sort = insertion_sort;
}

abbrev AtLeast : ℕ → ℕ × ℕ → Type 0
AtLeast k y = ltb y.0 k ≡ false

insert-All :
    (k : ℕ) (x : ℕ × ℕ) (ys : List (ℕ × ℕ))
    → AtLeast k x
    → All (AtLeast k) ys
    → All (AtLeast k) (insert x ys)
insert-All k x [] a b = (a, tt)
insert-All k x (y ∷ ys) a b = elim (Bool-cases (ltb y.0 x.0)) [
  | inl e ↦ rw e (b.0, insert-All k x ys a b.1)
  | inr e ↦ rw e (a, b)
]

lift-All : (j k : ℕ) (ys : List (ℕ × ℕ)) → ltb k j ≡ false → All (AtLeast k) ys → All (AtLeast j) ys
lift-All j k [] h a = tt
lift-All j k (y ∷ ys) h a = ((let d = a.0 in ground arith), lift-All j k ys h a.1)

insert-Ordered : (x : ℕ × ℕ) (ys : List (ℕ × ℕ)) → Ordered adder ys → Ordered adder (insert x ys)
insert-Ordered x [] o = (tt, tt)
insert-Ordered x (y ∷ ys) o = elim (Bool-cases (ltb y.0 x.0)) [
  | inl e ↦ rw e (insert-All y.0 x ys (ground (arith, e)) o.0, insert-Ordered x ys o.1)
  | inr e ↦ rw e ((e, lift-All x.0 y.0 ys e o.0), o)
]

insert-weigh :
    (w : ℕ × ℕ → ℕ) (x : ℕ × ℕ) (ys : List (ℕ × ℕ)) → weigh w (insert x ys) ≡ w x + weigh w ys
insert-weigh w x [] = refl
insert-weigh w x (y ∷ ys) = ground (arith, insert-weigh w x ys)

insertion_sort-Ordered : (xs : List (ℕ × ℕ)) → Ordered adder (insertion_sort xs)
insertion_sort-Ordered [] = tt
insertion_sort-Ordered (x ∷ xs) = insert-Ordered x (insertion_sort xs) (insertion_sort-Ordered xs)

insertion_sort-weigh :
    (xs : List (ℕ × ℕ)) (w : ℕ × ℕ → ℕ) → weigh w (insertion_sort xs) ≡ weigh w xs
insertion_sort-weigh [] w = refl
insertion_sort-weigh (x ∷ xs) w =
    omega (arith, insert-weigh w x (insertion_sort xs), insertion_sort-weigh xs w)

abbrev pub three_inputs : List ℕ
three_inputs = 5 ∷ 2 ∷ 3 ∷ []

pub adder-Sorts : Sorts adder 2 three_inputs
adder-Sorts = record { sorted = insertion_sort-Ordered; same = insertion_sort-weigh }

pub adder-IsOrder : IsOrder adder
adder-IsOrder = record {
  asym = λ k j h. ground (arith, h);
  not_trans = λ a b c h g. ground (arith, h, g);
}

-- The threads with these ids take a step, one after the other; who is blocked or no thread does not.
unfoldable pub follow : List ℕ → State ℕ ℕ ℕ ℕ → State ℕ ℕ ℕ ℕ
follow [] s = s
follow (i ∷ ids) s =
    if ltb i 2
    then elim (job_to_do adder s i (s.at i)) [
      | ran t ↦ follow ids t
      | blocked ↦ follow ids s
      | thrown ↦ s
    ]
    else s

pub follow-Reach :
    (ids : List ℕ) (s : State ℕ ℕ ℕ ℕ)
    → Reach adder three_inputs 2 s
    → Reach adder three_inputs 2 (follow ids s)
unfolding follow
follow-Reach [] s r = r
follow-Reach (i ∷ ids) s r = elim (Bool-cases (ltb i 2)) [
  | inr e ↦ rw e r
  | inl e ↦
      rw e
        (next (ground (arith, e)) (λ t q. follow-Reach ids t q) (job_to_do adder s i (s.at i)) refl)
]
  where
    next :
        i < 2
        → ((t : State ℕ ℕ ℕ ℕ)
            → Reach adder three_inputs 2 t
            → Reach adder three_inputs 2 (follow ids t))
        → (o : Outcome (State ℕ ℕ ℕ ℕ)) → job_to_do adder s i (s.at i) ≡ o
        → Reach adder three_inputs 2
            (elim o [ ran t ↦ follow ids t | blocked ↦ follow ids s | thrown ↦ s ])
    next l later (ran t) e = later t (step i r l e)
    next l later blocked e = later s r
    next l later thrown e = r

-- Both threads in turn, until they are done.
abbrev turns : ℕ → List ℕ
turns zero = []
turns (suc n) = 0 ∷ 1 ∷ turns n

abbrev pub halfway : State ℕ ℕ ℕ ℕ
halfway = follow (turns 9) (started adder three_inputs 2)

abbrev pub done : State ℕ ℕ ℕ ℕ
done = follow (turns 30) (started adder three_inputs 2)

pub halfway-Reach : Reach adder three_inputs 2 halfway
halfway-Reach = follow-Reach (turns 9) (started adder three_inputs 2) start

pub done-Reach : Reach adder three_inputs 2 done
done-Reach = follow-Reach (turns 30) (started adder three_inputs 2) start

-- Thread 0 is about to start the shuffle, or to do it.
abbrev pub before_shuffle : State ℕ ℕ ℕ ℕ
before_shuffle = follow (turns 10) (started adder three_inputs 2)

abbrev pub about_to_shuffle : State ℕ ℕ ℕ ℕ
about_to_shuffle = follow (0 ∷ []) before_shuffle

pub before_shuffle-Reach : Reach adder three_inputs 2 before_shuffle
before_shuffle-Reach = follow-Reach (turns 10) (started adder three_inputs 2) start

pub about_to_shuffle-Reach : Reach adder three_inputs 2 about_to_shuffle
about_to_shuffle-Reach = follow-Reach (0 ∷ []) before_shuffle before_shuffle-Reach

pub done_0 : done.at 0 ≡ finished
unfolding follow job_to_do begin_map next_input emit2 sort_stage meet start_shuffle to_shuffle
    shuffle start_reduce next_group emit3 start_map_reduce_job merge_vectors merge_neighbours
    pair_merging_helper place place_all arrive collect
done_0 = refl

pub done_1 : done.at 1 ≡ finished
unfolding follow job_to_do begin_map next_input emit2 sort_stage meet start_shuffle to_shuffle
    shuffle start_reduce next_group emit3 start_map_reduce_job merge_vectors merge_neighbours
    pair_merging_helper place place_all arrive collect
done_1 = refl

pub about_to_shuffle_0 : about_to_shuffle.at 0 ≡ shuffles
unfolding follow job_to_do begin_map next_input emit2 sort_stage meet start_shuffle to_shuffle
    shuffle start_reduce next_group emit3 start_map_reduce_job merge_vectors merge_neighbours
    pair_merging_helper place place_all arrive collect
about_to_shuffle_0 = refl

pub before_shuffle-step :
    job_to_do adder before_shuffle 0 (before_shuffle.at 0) ≡ ran about_to_shuffle
unfolding follow job_to_do begin_map next_input emit2 sort_stage meet start_shuffle to_shuffle
    shuffle start_reduce next_group emit3 start_map_reduce_job merge_vectors merge_neighbours
    pair_merging_helper place place_all arrive collect
before_shuffle-step = refl

done_output : done.job.output_vec ≡ 2 ∷ 8 ∷ []
unfolding follow job_to_do begin_map next_input emit2 sort_stage meet start_shuffle to_shuffle
    shuffle start_reduce next_group emit3 start_map_reduce_job merge_vectors merge_neighbours
    pair_merging_helper place place_all arrive collect
done_output = refl

pub done-ends : (i : ℕ) → i < 2 → done.at i ≡ finished
done-ends zero l = done_0
done-ends (suc zero) l = done_1
done-ends (suc (suc i)) l = absurd (omega arith)

-- No thread is joined yet.
abbrev pub open_handle : Handle ℕ ℕ ℕ ℕ
open_handle = record { state = done; joined = λ i. false }

pub open_handle-IsFresh : IsFresh 2 open_handle
unfolding follow job_to_do begin_map next_input emit2 sort_stage meet start_shuffle to_shuffle
    shuffle start_reduce next_group emit3 start_map_reduce_job merge_vectors merge_neighbours
    pair_merging_helper place place_all arrive collect
open_handle-IsFresh = record { made = refl; level = refl; unset = refl; unjoined = λ i. refl }
