-- ===== src/MapReduce/Threads/Invariant/Frames.antt =====
-- Which parts of the invariant on the threads of MapReduce_Framework/MapReduceFramework.cpp survive
-- a move of a thread that has nothing to do with them.
use operating_systems.Base.{
  ℕ, ◌<◌, ◌≡◌, refl, sym, ap, ◌∙◌, subst, ◌==◌, ==_iff, Bool-cases, inl, inr, true, List, weigh,
  total-ext, arith,
}
use operating_systems.MapReduce.Framework.{Mutex, Client}
use operating_systems.MapReduce.Threads.{At, waits1, waits2, assign, wake}
use operating_systems.MapReduce.Threads.Invariant.{
  phase, pending2, pending3, is_mapped, is_sorted, is_shuffled, is_shuffling, is_finished, Mapping,
  Shuffling, Reducing,
}

-- A relation that holds of the place of the thread before and after, and of equals, holds for all.
pub assign-each :
    {A : Type 0} (R : A → A → Type 0) (at : ℕ → A) (i : ℕ) (b : A)
    → ((a : A) → R a a)
    → R (at i) b
    → (j : ℕ) → R (at j) (assign at i b j)
assign-each R at i b equal moved j = elim (Bool-cases (i == j)) [
  | inl e ↦ rw e (subst (λ k. R (at k) b) ((==_iff i j).0 e) moved)
  | inr e ↦ rw e (equal (at j))
]

module _ {K V O : Type 0} where
  -- What a move from `a` to `b` keeps for each part.
  abbrev pub KeepsMap : At K V O → At K V O → Type 0
  KeepsMap a b =
      (pending2 b ≡ pending2 a)
      × (is_mapped b ≡ true → is_mapped a ≡ true)
      × (is_sorted b ≡ true → is_sorted a ≡ true)

  abbrev pub KeepsShuffle : At K V O → At K V O → Type 0
  KeepsShuffle a b = is_shuffled b ≡ is_shuffled a

  abbrev pub KeepsReduce : At K V O → At K V O → Type 0
  KeepsReduce a b =
      (pending3 b ≡ pending3 a)
      × (phase b < 2 → phase a < 2)
      × (is_finished b ≡ true → is_finished a ≡ true)

  pub KeepsMap-refl : (a : At K V O) → KeepsMap a a
  KeepsMap-refl a = (refl, (λ h. h), (λ h. h))

  pub KeepsReduce-refl : (a : At K V O) → KeepsReduce a a
  KeepsReduce-refl a = (refl, (λ h. h), (λ h. h))

  pub wake-KeepsMap : (a : At K V O) → KeepsMap a (wake a)
  wake-KeepsMap waits1 = (refl, (λ h. refl), (λ h. refl))
  wake-KeepsMap waits2 = (refl, (λ h. refl), (λ h. refl))
  wake-KeepsMap a = (refl, (λ h. h), (λ h. h))

  pub wake-KeepsShuffle : (a : At K V O) → KeepsShuffle a (wake a)
  wake-KeepsShuffle waits1 = refl
  wake-KeepsShuffle waits2 = refl
  wake-KeepsShuffle a = refl

  pub wake_shuffling : (a : At K V O) → is_shuffling (wake a) ≡ true → is_shuffling a ≡ true
  wake_shuffling a h = ground arith

  pub wake-KeepsReduce : (a : At K V O) → KeepsReduce a (wake a)
  wake-KeepsReduce waits1 = (refl, (λ h. omega arith), (λ h. cc))
  wake-KeepsReduce waits2 = (refl, (λ h. omega arith), (λ h. cc))
  wake-KeepsReduce a = (refl, (λ h. h), (λ h. h))

module _ {I K V O : Type 0} (client : Client I K V O) (n : ℕ) (at at' : ℕ → At K V O) where
  pub Mapping-frame :
      (inputs : List I) (vecs : ℕ → List (K × V)) (claimed pairs : ℕ)
      → ((j : ℕ) → KeepsMap (at j) (at' j))
      → Mapping client n inputs vecs claimed pairs at
      → Mapping client n inputs vecs claimed pairs at'
  Mapping-frame inputs vecs claimed pairs keeps m = record {
    emitted = λ w.
        let h =
          total-ext n (λ i. weigh w (pending2 (at' i))) (λ i. weigh w (pending2 (at i)))
            (λ i l. ap (weigh w) (keeps i).0) in
        omega (arith, h, m.emitted w);
    exhausted = λ i l e. m.exhausted i l ((keeps i).1 e);
    pairs_counted = m.pairs_counted;
    ordered = λ i l e. m.ordered i l ((keeps i).2 e);
  }

  pub Shuffling-frame :
      (mutexes : List Mutex) (vecs : ℕ → List (K × V)) (shuffled : List (List (K × V)))
      (counter : ℕ)
      → KeepsShuffle (at 0) (at' 0)
      → ((j : ℕ) → is_shuffling (at' j) ≡ true → is_shuffling (at j) ≡ true)
      → Shuffling client n mutexes vecs shuffled counter at
      → Shuffling client n mutexes vecs shuffled counter at'
  Shuffling-frame mutexes vecs shuffled counter keeps lone m = record {
    alone = λ i l e. m.alone i l (lone i e);
    before = λ e. m.before (sym keeps ∙ e);
    after = λ e. m.after (sym keeps ∙ e);
  }

  pub Reducing-frame :
      (shuffled : List (List (K × V))) (claimed : ℕ) (output : List O) (counter : ℕ)
      → ((j : ℕ) → KeepsReduce (at j) (at' j))
      → Reducing client n shuffled claimed output counter at
      → Reducing client n shuffled claimed output counter at'
  Reducing-frame shuffled claimed output counter keeps m = record {
    early = λ i l e. m.early i l ((keeps i).1 e);
    reduced = λ w.
        let h =
          total-ext n (λ i. weigh w (pending3 (at' i))) (λ i. weigh w (pending3 (at i)))
            (λ i l. ap (weigh w) (keeps i).0) in
        omega (arith, h, m.reduced w);
    output_counted = m.output_counted;
    ended = λ i l e. m.ended i l ((keeps i).2 e);
  }
