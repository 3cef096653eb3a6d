-- ===== src/MapReduce/Framework/Groups.antt =====
-- The groups that `shuffle_stage` of MapReduce_Framework/MapReduceFramework.cpp makes.
use operating_systems.Base.{
  ℕ, ◌+◌, ◌≡◌, refl, inl, inr, Bool-cases, Option-cases, subst, true, false, some, List, [], ◌∷◌,
  ◌++◌, All, All-snoc, weigh, weigh-append, arith,
}
use operating_systems.MapReduce.Framework.{Client, same_key, place, place_all}

module _ {I K V O : Type 0} (client : Client I K V O) where
  -- The first key of the group is not the same as this one.
  abbrev pub Differs : K → List (K × V) → Type 0
  Differs k [] = Unit
  Differs k (head ∷ vec) = same_key client head.0 k ≡ false

  -- Every group has a first pair, whose key is the same as the others' and as no later group's.
  abbrev pub Grouped : List (List (K × V)) → Type 0
  Grouped [] = Unit
  Grouped ([] ∷ groups) = ⊥
  Grouped ((head ∷ vec) ∷ groups) =
      All (λ p. same_key client p.0 head.0 ≡ true) vec
      × All (Differs head.0) groups
      × Grouped groups

  place-Differs :
      (pair : K × V) (k : K) (groups groups' : List (List (K × V)))
      → same_key client pair.0 k ≡ false
      → All (Differs k) groups
      → place client pair groups ≡ some groups'
      → All (Differs k) groups'
  unfolding place
  place-Differs pair k [] groups' n a e = ground (arith, n, e)
  place-Differs pair k ([] ∷ groups) groups' n a e = absurd cc
  place-Differs pair k ((head ∷ vec) ∷ groups) groups' n a e =
      elim (Bool-cases (same_key client pair.0 head.0)) [
        | inl same ↦ ground (arith, a, same, e)
        | inr other ↦ elim (Option-cases (place client pair groups)) [
          | inl none' ↦ absurd (ground (arith, other, none', e))
          | inr (rest, r) ↦
              let ih = place-Differs pair k groups rest n a.1 r in
              let whole : (head ∷ vec) ∷ rest ≡ groups' = ground (arith, other, r, e) in
              subst (All (Differs k)) whole (a.0, ih)
        ]
      ]

  place-Grouped :
      (pair : K × V) (groups : List (List (K × V)))
      → Grouped groups
      → (groups' : List (List (K × V))) × (place client pair groups ≡ some groups')
        × ((w : K × V → ℕ) → weigh (weigh w) groups' ≡ w pair + weigh (weigh w) groups)
        × Grouped groups'
  unfolding place
  place-Grouped pair [] g = ((pair ∷ []) ∷ [], refl, (λ w. omega arith), (tt, tt, tt))
  place-Grouped pair ([] ∷ groups) g = elim g [ ]
  place-Grouped pair ((head ∷ vec) ∷ groups) g = elim (Bool-cases (same_key client pair.0 head.0)) [
    | inl same ↦ (
      (head ∷ vec ++ pair ∷ []) ∷ groups,
      rw same refl,
      (λ w. omega (arith, weigh-append w vec (pair ∷ []))),
      (All-snoc (λ p. same_key client p.0 head.0 ≡ true) vec pair g.0 same, g.1, g.2),
    )
    | inr other ↦
        let (rest, r, same, grouped) = place-Grouped pair groups g.2 in
        (
          (head ∷ vec) ∷ rest,
          rw (other, r) refl,
          (λ w. omega (arith, same w)),
          (g.0, place-Differs pair head.0 groups rest other g.1 r, grouped),
        )
  ]

  -- The loop that groups pairs, from groups with different keys: it does not throw, and gives
  -- groups with different keys that hold the old pairs and the new ones, each as often.
  pub place_all-Grouped :
      (pairs : List (K × V)) (groups : List (List (K × V)))
      → Grouped groups
      → (groups' : List (List (K × V))) × (place_all client pairs groups ≡ some groups')
        × ((w : K × V → ℕ) → weigh (weigh w) groups' ≡ weigh w pairs + weigh (weigh w) groups)
        × Grouped groups'
  unfolding place_all
  place_all-Grouped [] groups g = (groups, refl, (λ w. omega arith), g)
  place_all-Grouped (pair ∷ pairs) groups g =
      let (rest, r, same, grouped) = place-Grouped pair groups g in
      let (groups', e, same', grouped') = place_all-Grouped pairs rest grouped in
      (groups', rw (r, place_all) e, (λ w. omega (arith, same w, same' w)), grouped')
