-- ===== src/Base/Weights.antt =====
-- The weight of a list under a weight for its entries. Two lists with one weight under every choice
-- hold the same entries, as often.
use Prim.Native.Nat.{ℕ, zero, suc, ◌+◌, ◌≤◌, ◌<◌}
use mathlib.Core.Path.{◌≡◌, refl}
use mathlib.Core.Option.{Option, none, some}
use mathlib.Core.List.{List, [], ◌∷◌, ◌++◌}
use mathlib.Core.Logic.{◌≢◌}
use native.Mathlib.Decide.{ℕ_discrete}
use native.Mathlib.Omega.{arith}
use operating_systems.Base.Lists.{length}

module _ {A : Type 0} where
  abbrev pub weigh : (A → ℕ) → List A → ℕ
  weigh w [] = 0
  weigh w (x ∷ xs) = w x + weigh w xs

  -- The same entries, as often, in any order.
  abbrev pub SameEntries : List A → List A → Type 0
  SameEntries xs ys = (w : A → ℕ) → weigh w xs ≡ weigh w ys

  pub weigh-append : (w : A → ℕ) (xs ys : List A) → weigh w (xs ++ ys) ≡ weigh w xs + weigh w ys
  weigh-append w [] ys = omega arith
  weigh-append w (x ∷ xs) ys = omega (arith, weigh-append w xs ys)

  pub weigh_one : (xs : List A) → weigh (λ x. 1) xs ≡ length xs
  weigh_one [] = refl
  weigh_one (x ∷ xs) = omega (arith, weigh_one xs)

  abbrev pub get_elem? : List A → ℕ → Option A
  get_elem? [] i = none
  get_elem? (x ∷ xs) zero = some x
  get_elem? (x ∷ xs) (suc i) = get_elem? xs i

  abbrev pub drop : ℕ → List A → List A
  drop zero xs = xs
  drop (suc n) [] = []
  drop (suc n) (x ∷ xs) = drop n xs

  pub get_elem?-none : (xs : List A) (i : ℕ) → get_elem? xs i ≡ none → length xs ≤ i
  get_elem?-none [] i h = omega arith
  get_elem?-none (x ∷ xs) zero h = absurd cc
  get_elem?-none (x ∷ xs) (suc i) h = omega (arith, get_elem?-none xs i h)

  pub get_elem?-lt : (xs : List A) (i : ℕ) {x : A} → get_elem? xs i ≡ some x → i < length xs
  get_elem?-lt [] i h = absurd cc
  get_elem?-lt (x ∷ xs) zero h = omega arith
  get_elem?-lt (x ∷ xs) (suc i) h = omega (arith, get_elem?-lt xs i h)

  pub drop_all : (n : ℕ) (xs : List A) → length xs ≤ n → drop n xs ≡ []
  drop_all zero [] h = refl
  drop_all zero (x ∷ xs) h = absurd (omega arith)
  drop_all (suc n) [] h = refl
  drop_all (suc n) (x ∷ xs) h = drop_all n xs (omega arith)

  pub drop-get_elem? :
      (n : ℕ) (xs : List A) (x : A) → get_elem? xs n ≡ some x → drop n xs ≡ x ∷ drop (suc n) xs
  drop-get_elem? n [] x h = absurd cc
  drop-get_elem? zero (y ∷ xs) x h = cc
  drop-get_elem? (suc n) (y ∷ xs) x h = drop-get_elem? n xs x h

module _ {A B : Type 0} (f : A → List B) where
  -- The results of `f` on all entries, in one list.
  abbrev pub flat : List A → List B
  flat [] = []
  flat (x ∷ xs) = f x ++ flat xs

pub weigh-flat :
    {A B : Type 0} (w : B → ℕ) (f : A → List B) (xs : List A)
    → weigh w (flat f xs) ≡ weigh (λ x. weigh w (f x)) xs
weigh-flat w f [] = refl
weigh-flat w f (x ∷ xs) = omega (arith, weigh-append w (f x) (flat f xs), weigh-flat w f xs)

-- Sums over the numbers below `n`.
abbrev pub total : ℕ → (ℕ → ℕ) → ℕ
total zero f = 0
total (suc n) f = total n f + f n

pub total-ext : (n : ℕ) (f g : ℕ → ℕ) → ((i : ℕ) → i < n → f i ≡ g i) → total n f ≡ total n g
total-ext zero f g h = refl
total-ext (suc n) f g h = omega (arith, h n, total-ext n f g (λ i l. h i (omega arith)))

-- A change at one number.
pub total-change :
    (n i : ℕ) (f g : ℕ → ℕ)
    → i < n
    → ((j : ℕ) → j ≢ i → f j ≡ g j)
    → total n f + g i ≡ total n g + f i
total-change zero i f g l h = absurd (omega arith)
total-change (suc n) i f g l h = elim (ℕ_discrete n i) [
  | yes e ↦
      let rest = total-ext n f g (λ j k. h j (λ q. absurd (omega arith))) in ground (arith, rest, e)
  | no ne ↦ omega (arith, total-change n i f g (omega arith) h, h n ne)
]

pub total-zero : (n : ℕ) (f : ℕ → ℕ) → ((i : ℕ) → i < n → f i ≡ 0) → total n f ≡ 0
total-zero zero f h = refl
total-zero (suc n) f h = omega (arith, h n (omega arith), total-zero n f (λ i l. h i (omega arith)))
