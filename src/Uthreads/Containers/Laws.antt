-- ===== src/Uthreads/Containers/Laws.antt =====
-- The laws of `find`, `insert` and `erase` on maps whose keys are distinct
-- (Uthreads_Library/uthreads.cpp uses std::map).
use operating_systems.Base.{
  ℕ, zero, suc, ◌≤◌, ◌<◌, pos, Option-cases, ◌≡◌, refl, ◌≢◌, inl, inr, ℤ, ◌==ℤ◌, ==ℤ_refl, ==ℤ→eq,
  eq→==ℤ, if◌then◌else◌, Bool-cases, none, some, List, [], ◌∷◌, length, All, arith,
}
use operating_systems.Uthreads.Containers.{find, insert, erase}

module _ {V : Type 0} where
  -- No key stands twice.
  abbrev pub UniqueKeys : List (ℤ × V) → Type 0
  UniqueKeys [] = Unit
  UniqueKeys ((j, v) ∷ m) = (find j m ≡ none) × UniqueKeys m

  pub find-insert :
      (k j : ℤ) (v : V) (m : List (ℤ × V))
      → find k m ≡ none
      → find j (insert k v m) ≡ (if k ==ℤ j then some v else find j m)
  unfolding find insert
  find-insert k j v [] h = refl
  find-insert k j v ((i, w) ∷ m) h =
      ground
        (arith, find-insert k j v m, ==ℤ→eq i k, ==ℤ→eq i j, ==ℤ→eq k j, ==ℤ_refl k, ==ℤ_refl i)

  pub find-erase :
      (k j : ℤ) (m : List (ℤ × V))
      → UniqueKeys m
      → find j (erase k m) ≡ (if k ==ℤ j then none else find j m)
  unfolding find erase
  find-erase k j [] u = ground arith
  find-erase k j ((i, w) ∷ m) u =
      ground
        (arith, find-erase k j m u.1, ==ℤ→eq i k, ==ℤ→eq i j, ==ℤ→eq k j, ==ℤ_refl k, ==ℤ_refl i)

  pub insert-UniqueKeys :
      (k : ℤ) (v : V) (m : List (ℤ × V))
      → find k m ≡ none
      → UniqueKeys m
      → UniqueKeys (insert k v m)
  unfolding find insert
  insert-UniqueKeys k v [] h u = (refl, tt)
  insert-UniqueKeys k v ((i, w) ∷ m) h u =
      ground
        (arith, insert-UniqueKeys k v m, find-insert k i v m, ==ℤ→eq i k, ==ℤ→eq k i, ==ℤ_refl k)

  pub erase-UniqueKeys : (k : ℤ) (m : List (ℤ × V)) → UniqueKeys m → UniqueKeys (erase k m)
  unfolding erase
  erase-UniqueKeys k [] u = tt
  erase-UniqueKeys k ((i, w) ∷ m) u = ground (arith, erase-UniqueKeys k m u.1, find-erase k i m u.1)

  pub length-insert :
      (k : ℤ) (v : V) (m : List (ℤ × V)) → find k m ≡ none → length (insert k v m) ≡ suc (length m)
  unfolding find insert
  length-insert k v [] h = refl
  length-insert k v ((i, w) ∷ m) h = ground (arith, length-insert k v m)

  pub length-erase :
      (k : ℤ) (v : V) (m : List (ℤ × V)) → find k m ≡ some v → suc (length (erase k m)) ≡ length m
  unfolding find erase
  length-erase k v [] h = cc
  length-erase k v ((i, w) ∷ m) h = ground (arith, length-erase k v m)

  -- A predicate on all entries holds of those that stay, and of the one that is found.
  pub All-insert :
      (P : ℤ × V → Type 0) (k : ℤ) (v : V) (m : List (ℤ × V))
      → P (k, v)
      → All P m
      → All P (insert k v m)
  unfolding insert
  All-insert P k v [] p a = (p, tt)
  All-insert P k v ((i, w) ∷ m) p a = ground (arith, All-insert P k v m p a.1)

  pub All-find :
      (P : ℤ × V → Type 0) (k : ℤ) (v : V) (m : List (ℤ × V))
      → All P m
      → find k m ≡ some v
      → P (k, v)
  unfolding find
  All-find P k v [] a h = cc
  All-find P k v ((i, w) ∷ m) a h = elim (Bool-cases (i ==ℤ k)) [
    | inl e ↦ ground (arith, ==ℤ→eq i k e)
    | inr e ↦ All-find P k v m a.1 (rw e at h)
  ]

  pub All-erase : (P : ℤ × V → Type 0) (k : ℤ) (m : List (ℤ × V)) → All P m → All P (erase k m)
  unfolding erase
  All-erase P k [] a = tt
  All-erase P k ((i, w) ∷ m) a = ground (arith, All-erase P k m a.1)

  pub find-none-ne : (k : ℤ) (m : List (ℤ × V)) → find k m ≡ none → All (λ e. e.0 ≢ k) m
  unfolding find
  find-none-ne k [] h = tt
  find-none-ne k ((i, w) ∷ m) h = elim (Bool-cases (i ==ℤ k)) [
    | inl e ↦ absurd (let x = rw e at h in cc)
    | inr e ↦ ((λ q. cc (eq→==ℤ i k q)), find-none-ne k m (rw e at h))
  ]

  -- The keys of the entries that stay differ from the one that is erased.
  pub erase-ne : (k : ℤ) (m : List (ℤ × V)) → UniqueKeys m → All (λ e. e.0 ≢ k) (erase k m)
  unfolding find erase
  erase-ne k [] u = tt
  erase-ne k ((i, w) ∷ m) u = elim (Bool-cases (i ==ℤ k)) [
    | inl e ↦ rw e (find-none-ne k m (rw (==ℤ→eq i k e) at (u.0)))
    | inr e ↦ rw e ((λ q. cc (eq→==ℤ i k q)), erase-ne k m u.1)
  ]

-- A map that knows the keys 0 .. n - 1 has at least n entries.
pub all_found-length :
    {V : Type 0} (n : ℕ) (m : List (ℤ × V))
    → UniqueKeys m
    → ((i : ℕ) → i < n → find (pos i) m ≢ none)
    → n ≤ length m
all_found-length zero m u h = omega arith
all_found-length (suc n) m u h = elim (Option-cases (find (pos n) m)) [
  | inl e ↦ absurd (h n (omega arith) e)
  | inr (v, e) ↦
      let shorter = length-erase (pos n) v m e in
      let rest = all_found-length n (erase (pos n) m) (erase-UniqueKeys (pos n) m u) λ i below gone.
        (let f = find-erase (pos n) (pos i) m u in
          let g = h i (omega arith) in ground (arith, f, g, gone, below)) in
      omega arith
]
