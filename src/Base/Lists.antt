-- ===== src/Base/Lists.antt =====
-- Lists measured by native numbers, under the library's names, and a predicate on all entries.
use Prim.Native.Nat.{ℕ, suc, ◌+◌}
use mathlib.Core.Path.{◌≡◌, refl, sym, subst}
use mathlib.Core.Logic.{◌≢◌, ◌⊎◌, inl, inr}
use mathlib.Core.List.{List, [], ◌∷◌, ◌++◌}
use native.Mathlib.Omega.{arith}

module _ {ℓ} {A : Type ℓ} where
  abbrev pub length : List A → ℕ
  length [] = 0
  length (x ∷ xs) = suc (length xs)

  abbrev pub All {κ} : (A → Type κ) → List A → Type κ
  All P [] = Unit
  All P (x ∷ xs) = P x × All P xs

  pub length-append : (xs ys : List A) → length (xs ++ ys) ≡ length xs + length ys
  length-append [] ys = omega arith
  length-append (x ∷ xs) ys = omega (arith, length-append xs ys)

module _ {ℓ κ μ} {A : Type ℓ} {P : A → Type κ} {Q : A → Type μ} where
  pub All-mono : (xs : List A) → ((x : A) → P x → Q x) → All P xs → All Q xs
  All-mono [] f a = tt
  All-mono (x ∷ xs) f a = (f x a.0, All-mono xs f a.1)

module _ {ℓ} {A : Type ℓ} where
  -- No entry stands twice.
  abbrev pub Distinct : List A → Type ℓ
  Distinct [] = Unit
  Distinct (x ∷ xs) = All (λ y. y ≢ x) xs × Distinct xs

  pub All-snoc {κ} : (P : A → Type κ) (xs : List A) (x : A) → All P xs → P x → All P (xs ++ x ∷ [])
  All-snoc P [] x a p = (p, tt)
  All-snoc P (y ∷ ys) x a p = (a.0, All-snoc P ys x a.1 p)

  pub Distinct-snoc :
      (xs : List A) (x : A) → All (λ y. y ≢ x) xs → Distinct xs → Distinct (xs ++ x ∷ [])
  Distinct-snoc [] x a d = (tt, tt)
  Distinct-snoc (y ∷ ys) x a d =
      (All-snoc (λ z. z ≢ y) ys x d.0 (λ e. a.0 (sym e)), Distinct-snoc ys x a.1 d.1)

module _ {A : Type 0} where
  abbrev pub In : A → List A → Type 0
  In a [] = ⊥
  In a (x ∷ xs) = (a ≡ x) ⊎ In a xs

  pub In-snoc_left : (a : A) (xs : List A) (x : A) → In a xs → In a (xs ++ x ∷ [])
  In-snoc_left a [] x i = elim i [ ]
  In-snoc_left a (y ∷ ys) x (inl e) = inl e
  In-snoc_left a (y ∷ ys) x (inr i) = inr (In-snoc_left a ys x i)

  pub In-snoc_self : (xs : List A) (x : A) → In x (xs ++ x ∷ [])
  In-snoc_self [] x = inl refl
  In-snoc_self (y ∷ ys) x = inr (In-snoc_self ys x)

  pub All-In {κ} : (P : A → Type κ) (a : A) (xs : List A) → All P xs → In a xs → P a
  All-In P a [] all i = elim i [ ]
  All-In P a (x ∷ xs) all (inl e) = subst P (sym e) all.0
  All-In P a (x ∷ xs) all (inr i) = All-In P a xs all.1 i
