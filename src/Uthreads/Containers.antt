-- ===== src/Uthreads/Containers.antt =====
-- std::map<int, T> of Uthreads_Library/uthreads.cpp: entries in the order of their keys.
pub mod Laws
use operating_systems.Base.{ℤ, ltb_ℤ, ◌==ℤ◌, if◌then◌else◌, Option, none, some, List, [], ◌∷◌}

module _ {V : Type 0} where
  -- `m.find (k)`; `none` is `m.end ()`.
  unfoldable pub find : ℤ → List (ℤ × V) → Option V
  find k [] = none
  find k ((j, v) ∷ m) = if j ==ℤ k then some v else find k m

  -- `m.insert ({k, v})`: an entry that is there already stays.
  unfoldable pub insert : ℤ → V → List (ℤ × V) → List (ℤ × V)
  insert k v [] = (k, v) ∷ []
  insert k v ((j, w) ∷ m) =
      if j ==ℤ k
      then (j, w) ∷ m
      else if ltb_ℤ k j
      then (k, v) ∷ (j, w) ∷ m
      else (j, w) ∷ insert k v m

  -- `m.erase (k)`.
  unfoldable pub erase : ℤ → List (ℤ × V) → List (ℤ × V)
  erase k [] = []
  erase k ((j, v) ∷ m) = if j ==ℤ k then m else (j, v) ∷ erase k m
