-- ===== src/Uthreads/Invariant/Frame.antt =====
-- Which conditions on the threads of Uthreads_Library/uthreads.cpp survive a change of one thread.
use operating_systems.Base.{
  ℕ, suc, ◌≤◌, ℤ, pos, ◌≡◌, ◌≢◌, ◌∙◌, subst, ◌⊎◌, inl, inr, Bool, true, false, Option, none, some,
  List, [], ◌∷◌, All, All-mono, arith,
}
use native.Mathlib.Decide.{ℕ_discrete}
use operating_systems.Uthreads.Containers.{find}
use operating_systems.Uthreads.Machine.{ThreadState, is_running, Thread}
use operating_systems.Uthreads.Invariant.{Has, Asleep, Zombies, is_asleep}

-- The heaps agree but at `p`.
abbrev pub Agree : (ℕ → Option Thread) → (ℕ → Option Thread) → ℕ → Type 0
Agree h h' p = (q : ℕ) → q ≢ p → h' q ≡ h q

module _ (h h' : ℕ → Option Thread) (ts : List (ℤ × ℕ)) (p : ℕ) (agree : Agree h h' p) where
  pub Has-frame_ne :
      (ok : ThreadState → Bool) (xs : List ℕ)
      → All (λ y. y ≢ p) xs
      → All (Has h ts ok) xs
      → All (Has h' ts ok) xs
  Has-frame_ne ok [] n a = tt
  Has-frame_ne ok (x ∷ xs) n a =
      let (t, at, in_state, known, alive) = a.0 in
      ((t, agree x n.0 ∙ at, in_state, known, alive), Has-frame_ne ok xs n.1 a.1)

  pub Asleep-frame_ne :
      (es : List (ℤ × ℕ)) → All (λ x. x.1 ≢ p) es → All (Asleep h ts) es → All (Asleep h' ts) es
  Asleep-frame_ne [] n a = tt
  Asleep-frame_ne (x ∷ es) n a =
      let (u, k, at, in_state, named, known, alive, left) = a.0 in
      ((u, k, agree x.1 n.0 ∙ at, in_state, named, known, alive, left), Asleep-frame_ne es n.1 a.1)

  module _ (t : Thread) (e : h p ≡ some t) where
    pub Has-ne :
        (ok : ThreadState → Bool) (xs : List ℕ)
        → ok t.state ≡ false
        → All (Has h ts ok) xs
        → All (λ y. y ≢ p) xs
    Has-ne ok xs f a = All-mono xs (λ q has. ground (arith, has)) a

    pub Has-frame :
        (ok : ThreadState → Bool) (xs : List ℕ)
        → ok t.state ≡ false
        → All (Has h ts ok) xs
        → All (Has h' ts ok) xs
    Has-frame ok xs f a = Has-frame_ne ok xs (Has-ne ok xs f a) a

    -- No live thread stands where a terminated one does.
    pub Has-ne_dead :
        (ok : ThreadState → Bool) (xs : List ℕ)
        → t.terminated ≡ true
        → All (Has h ts ok) xs
        → All (λ y. y ≢ p) xs
    Has-ne_dead ok xs f a = All-mono xs (λ q has. ground (arith, has)) a

    pub Asleep-ne_dead :
        (es : List (ℤ × ℕ)) → t.terminated ≡ true → All (Asleep h ts) es → All (λ x. x.1 ≢ p) es
    Asleep-ne_dead es f a = All-mono es (λ q has. ground (arith, has)) a

    Asleep-ne :
        (es : List (ℤ × ℕ))
        → is_asleep t.state ≡ false
        → All (Asleep h ts) es
        → All (λ x. x.1 ≢ p) es
    Asleep-ne es f a = All-mono es (λ q has. ground (arith, has)) a

    pub Asleep-frame :
        (es : List (ℤ × ℕ))
        → is_asleep t.state ≡ false
        → All (Asleep h ts) es
        → All (Asleep h' ts) es
    Asleep-frame es f a = Asleep-frame_ne es (Asleep-ne es f a) a

    pub Zombies-frame :
        (es : List (ℤ × ℕ)) → t.terminated ≡ false → Zombies h ts es → Zombies h' ts es
    Zombies-frame [] f z = tt
    Zombies-frame (x ∷ []) f z =
        let (u, at, in_state, named, other_id, unknown, dead) = z in
        let other : x.1 ≢ p = ground (arith, at, dead) in
        (u, agree x.1 other ∙ at, in_state, named, other_id, unknown, dead)
    Zombies-frame (x ∷ y ∷ es) f z = z

    -- A change of `p` that keeps its id and mark, and does not leave the states.
    pub Has-change :
        (ok : ThreadState → Bool) (xs : List ℕ) (t' : Thread)
        → h' p ≡ some t'
        → t'.id ≡ t.id
        → t'.terminated ≡ t.terminated
        → (ok t.state ≡ true → ok t'.state ≡ true)
        → All (Has h ts ok) xs
        → All (Has h' ts ok) xs
    Has-change ok xs t' e' same_id same_mark keeps a = All-mono xs change a
      where
        change : (q : ℕ) → Has h ts ok q → Has h' ts ok q
        change q (u, at, in_state, known, alive) = elim (ℕ_discrete q p) [
          | yes here ↦
              let same : u ≡ t = ground (arith, here, at) in
              (
                t',
                rw here e',
                keeps (subst (λ v. ok v.state ≡ true) same in_state),
                rw (same_id) (subst (λ v. find v.id ts ≡ some q) same known),
                same_mark ∙ subst (λ v. v.terminated ≡ false) same alive,
              )
          | no other ↦ (u, agree q other ∙ at, in_state, known, alive)
        ]

    -- So for the sleepers.
    pub Asleep-change :
        (es : List (ℤ × ℕ)) (t' : Thread)
        → h' p ≡ some t'
        → t'.id ≡ t.id
        → t'.terminated ≡ t.terminated
        → t'.sleep_quantum ≡ t.sleep_quantum
        → (is_asleep t.state ≡ true → is_asleep t'.state ≡ true)
        → All (Asleep h ts) es
        → All (Asleep h' ts) es
    Asleep-change es t' e' same_id same_mark same_quantum keeps a = All-mono es change a
      where
        change : (x : ℤ × ℕ) → Asleep h ts x → Asleep h' ts x
        change x (u, n, at, in_state, named, known, alive, left) = elim (ℕ_discrete x.1 p) [
          | yes here ↦
              let same : u ≡ t = ground (arith, here, at) in
              (
                t',
                n,
                rw here e',
                keeps (subst (λ v. is_asleep v.state ≡ true) same in_state),
                same_id ∙ subst (λ v. v.id ≡ x.0) same named,
                rw (same_id) (subst (λ v. find v.id ts ≡ some x.1) same known),
                same_mark ∙ subst (λ v. v.terminated ≡ false) same alive,
                same_quantum ∙ subst (λ v. v.sleep_quantum ≡ pos (suc n)) same left,
              )
          | no other ↦ (u, n, agree x.1 other ∙ at, in_state, named, known, alive, left)
        ]

    pub fresh-frame : (n : ℕ) → ((q : ℕ) → n ≤ q → h q ≡ none) → (q : ℕ) → n ≤ q → h' q ≡ none
    fresh-frame n fresh q le =
        let other : q ≢ p = ground (arith, fresh q le) in agree q other ∙ fresh q le

    -- The register where `p` is the running thread.
    pub registered-frame :
        (t' : Thread)
        → h' p ≡ some t'
        → t'.id ≡ t.id
        → (k : ℤ) (q : ℕ)
        → (u : Thread) × (h q ≡ some u)
          × (u.id ≡ k)
          × (u.terminated ≡ false)
          × ((is_running u.state ≡ false) ⊎ (q ≡ p))
        → (u : Thread) × (h' q ≡ some u)
          × (u.id ≡ k)
          × ((u.terminated ≡ false) × (is_running u.state ≡ false) ⊎ (q ≡ p))
    registered-frame t' e' same_id k q (u, at, named, alive, how) = elim (ℕ_discrete q p) [
      | yes here ↦ (t', rw here e', ground arith, inr here)
      | no other ↦ (
        u,
        agree q other ∙ at,
        named,
        elim how [ inl stopped ↦ inl (alive, stopped) | inr here ↦ inr here ],
      )
    ]
