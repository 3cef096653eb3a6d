-- ===== src/MapReduce/Framework/Merge.antt =====
-- `pair_merging_helper` and `merge_vectors` of MapReduce_Framework/MapReduceFramework.cpp.
use operating_systems.Base.{
  ℕ, zero, suc, ◌+◌, ◌≤◌, ◌<◌, ◌≡◌, refl, inl, inr, Bool-cases, true, false, some, List, [], ◌∷◌,
  length, subst, All, All-mono, weigh, arith,
}
use operating_systems.MapReduce.Framework.{
  Client, comparator, pair_merging_helper, merge_neighbours, merge_vectors,
}

module _ {I K V O : Type 0} (client : Client I K V O) where
  -- The order of the keys is a strict weak order, as std::sort and std::merge want it.
  pub record IsOrder : Type 0 where
    pub asym : (k j : K) → client.before k j ≡ true → client.before j k ≡ false
    pub not_trans :
        (a b c : K)
        → client.before a b ≡ false
        → client.before b c ≡ false
        → client.before a c ≡ false

  -- No later pair has a lesser key.
  abbrev pub Ordered : List (K × V) → Type 0
  Ordered [] = Unit
  Ordered (x ∷ xs) = All (λ y. comparator client y x ≡ false) xs × Ordered xs

  pair_merging_helper-weigh :
      (w : K × V → ℕ) (first second : List (K × V))
      → weigh w (pair_merging_helper client first second) ≡ weigh w first + weigh w second
  unfolding pair_merging_helper
  pair_merging_helper-weigh w [] second = omega arith
  pair_merging_helper-weigh w (x ∷ first) [] = omega arith
  pair_merging_helper-weigh w (x ∷ first) (y ∷ second) = ground (
    arith,
    pair_merging_helper-weigh w first (y ∷ second),
    pair_merging_helper-weigh w (x ∷ first) second,
  )

  pair_merging_helper-All :
      (P : K × V → Type 0) (first second : List (K × V))
      → All P first
      → All P second
      → All P (pair_merging_helper client first second)
  unfolding pair_merging_helper
  pair_merging_helper-All P [] second a b = b
  pair_merging_helper-All P (x ∷ first) [] a b = a
  pair_merging_helper-All P (x ∷ first) (y ∷ second) a b =
      elim (Bool-cases (comparator client y x)) [
        | inl e ↦ rw e (b.0, pair_merging_helper-All P (x ∷ first) second a b.1)
        | inr e ↦ rw e (a.0, pair_merging_helper-All P first (y ∷ second) a.1 b)
      ]

  module _ (order : IsOrder) where
    pub pair_merging_helper-Ordered :
        (first second : List (K × V))
        → Ordered first
        → Ordered second
        → Ordered (pair_merging_helper client first second)
    unfolding pair_merging_helper
    pair_merging_helper-Ordered [] second a b = b
    pair_merging_helper-Ordered (x ∷ first) [] a b = a
    pair_merging_helper-Ordered (x ∷ first) (y ∷ second) a b =
        elim (Bool-cases (comparator client y x)) [
          | inl e ↦
              let back = order.asym y.0 x.0 e in
              rw e (
                pair_merging_helper-All (λ z. comparator client z y ≡ false) (x ∷ first) second
                    (back, All-mono first (λ z h. order.not_trans z.0 x.0 y.0 h back) a.0) b.0,
                pair_merging_helper-Ordered (x ∷ first) second a b.1,
              )
          | inr e ↦ rw e (
            pair_merging_helper-All (λ z. comparator client z x ≡ false) first (y ∷ second) a.0
                (e, All-mono second (λ z h. order.not_trans z.0 y.0 x.0 h e) b.0),
            pair_merging_helper-Ordered first (y ∷ second) a.1 b,
          )
        ]

    merge_neighbours-Ordered :
        (xs : List (List (K × V))) → All Ordered xs → All Ordered (merge_neighbours client xs)
    unfolding merge_neighbours
    merge_neighbours-Ordered [] a = tt
    merge_neighbours-Ordered (x ∷ []) a = a
    merge_neighbours-Ordered (x ∷ y ∷ xs) a =
        (pair_merging_helper-Ordered x y a.0 a.1.0, merge_neighbours-Ordered xs a.1.1)

    -- When the keys are ordered as std::merge wants it: `merge_vectors` of ordered vectors gives, if
    -- it returns, an ordered one.
    pub merge_vectors-Ordered :
        (calls : ℕ) (xs : List (List (K × V))) (r : List (K × V))
        → All Ordered xs
        → merge_vectors client calls xs ≡ some r
        → Ordered r
    unfolding merge_vectors
    merge_vectors-Ordered calls [] r a e = absurd cc
    merge_vectors-Ordered calls (x ∷ []) r a e = subst Ordered (cc) a.0
    merge_vectors-Ordered zero (x ∷ y ∷ xs) r a e = absurd cc
    merge_vectors-Ordered (suc calls) (x ∷ y ∷ xs) r a e =
        merge_vectors-Ordered calls (merge_neighbours client (x ∷ y ∷ xs)) r
          (merge_neighbours-Ordered (x ∷ y ∷ xs) a) e

  merge_neighbours-weigh :
      (w : K × V → ℕ) (xs : List (List (K × V)))
      → weigh (weigh w) (merge_neighbours client xs) ≡ weigh (weigh w) xs
  unfolding merge_neighbours
  merge_neighbours-weigh w [] = refl
  merge_neighbours-weigh w (x ∷ []) = refl
  merge_neighbours-weigh w (x ∷ y ∷ xs) =
      omega (arith, pair_merging_helper-weigh w x y, merge_neighbours-weigh w xs)

  length-merge_neighbours :
      (xs : List (List (K × V)))
      → (length (merge_neighbours client xs) ≤ length xs)
        × (length xs ≤ length (merge_neighbours client xs) + length (merge_neighbours client xs))
  unfolding merge_neighbours
  length-merge_neighbours [] = (omega arith, omega arith)
  length-merge_neighbours (x ∷ []) = (omega arith, omega arith)
  length-merge_neighbours (x ∷ y ∷ xs) =
      let h = length-merge_neighbours xs in (omega arith, omega arith)

  shorter-merge_neighbours :
      (x y : List (K × V)) (xs : List (List (K × V)))
      → length (merge_neighbours client (x ∷ y ∷ xs)) ≤ suc (length xs)
  unfolding merge_neighbours
  shorter-merge_neighbours x y xs = omega (arith, length-merge_neighbours xs)

  -- `merge_vectors` of at least one vector returns, with at most as many calls as there are vectors,
  -- a vector of the same pairs.
  pub merge_vectors-returns :
      (calls : ℕ) (xs : List (List (K × V)))
      → 0 < length xs
      → length xs ≤ suc calls
      → (r : List (K × V)) × (merge_vectors client calls xs ≡ some r)
        × ((w : K × V → ℕ) → weigh w r ≡ weigh (weigh w) xs)
  unfolding merge_vectors
  merge_vectors-returns calls [] h k = absurd (omega arith)
  merge_vectors-returns calls (x ∷ []) h k = (x, refl, λ w. omega arith)
  merge_vectors-returns zero (x ∷ y ∷ xs) h k = absurd (omega arith)
  merge_vectors-returns (suc calls) (x ∷ y ∷ xs) h k =
      let l = length-merge_neighbours (x ∷ y ∷ xs) in
      let l' = shorter-merge_neighbours x y xs in
      let (r, e, same) =
        merge_vectors-returns calls (merge_neighbours client (x ∷ y ∷ xs)) (omega arith)
          (omega arith) in
      (r, e, λ w. omega (arith, same w, merge_neighbours-weigh w (x ∷ y ∷ xs)))
