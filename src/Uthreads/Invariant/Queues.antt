-- ===== src/Uthreads/Invariant/Queues.antt =====
-- The loops of `uthread_block` of Uthreads_Library/uthreads.cpp over the queue of ready threads.
use mathlib.Core.List.{append_assoc, append-nil}
use operating_systems.Base.{
  ℕ, ℤ, ◌≡◌, ◌≢◌, refl, subst, ◌⊎◌, inl, inr, Bool-cases, true, if◌then◌else◌, Option, List, [],
  ◌∷◌, ◌++◌, All, Distinct, arith,
}
use operating_systems.Uthreads.Machine.{Thread, Globals, returned}
use operating_systems.Uthreads.Api.{split_ready, restore_ready, block_ready}
use operating_systems.Uthreads.Invariant.Delete.{Valid, has_id, without_all}

-- The threads of that id.
pub only_id : (ℕ → Option Thread) → ℤ → List ℕ → List ℕ
only_id h id [] = []
only_id h id (q ∷ qs) = if has_id h id q then q ∷ only_id h id qs else only_id h id qs

split_ready-eq :
    (id : ℤ) (xs : List ℕ) (s : Globals)
    → Valid s.heap xs
    → s.ready_queue ≡ xs
    → split_ready id xs s
      ≡ returned tt (record s {
        ready_queue = [];
        temp_q = s.temp_q ++ without_all s.heap id xs;
        blocked_threads = s.blocked_threads ++ only_id s.heap id xs;
      })
unfolding split_ready only_id without_all
split_ready-eq id [] s v e = ground (arith, append-nil s.temp_q, append-nil s.blocked_threads)
split_ready-eq id (q ∷ qs) s v e = ground (
  arith,
  v.0,
  split_ready-eq id qs
      (record s { ready_queue = qs; blocked_threads = s.blocked_threads ++ q ∷ [] }) v.1 refl,
  split_ready-eq id qs (record s { ready_queue = qs; temp_q = s.temp_q ++ q ∷ [] }) v.1 refl,
  append_assoc s.temp_q (q ∷ []) (without_all s.heap id qs),
  append_assoc s.blocked_threads (q ∷ []) (only_id s.heap id qs),
)

restore_ready-eq :
    (xs : List ℕ) (s : Globals)
    → s.temp_q ≡ xs
    → restore_ready xs s ≡ returned tt (record s { ready_queue = s.ready_queue ++ xs; temp_q = [] })
unfolding restore_ready
restore_ready-eq [] s e = ground (arith, append-nil s.ready_queue)
restore_ready-eq (q ∷ qs) s e =
    rw
      (
        restore_ready-eq qs (record s { ready_queue = s.ready_queue ++ q ∷ []; temp_q = qs }) refl,
        append_assoc,
      )
      refl

pub block_ready-eq :
    (id : ℤ) (s : Globals)
    → Valid s.heap s.ready_queue
    → s.temp_q ≡ []
    → block_ready id s
      ≡ returned tt (record s {
        ready_queue = without_all s.heap id s.ready_queue;
        temp_q = [];
        blocked_threads = s.blocked_threads ++ only_id s.heap id s.ready_queue;
      })
unfolding block_ready
block_ready-eq id s v e =
    let kept = without_all s.heap id s.ready_queue in
    let more = s.blocked_threads ++ only_id s.heap id s.ready_queue in
    rw (split_ready-eq id s.ready_queue s v refl, e)
      (restore_ready-eq kept (record s { ready_queue = []; temp_q = kept; blocked_threads = more })
        refl)

only_id-nil :
    (h : ℕ → Option Thread) (id : ℤ) (p : ℕ) (xs : List ℕ)
    → All (λ q. has_id h id q ≡ true → q ≡ p) xs
    → All (λ y. y ≢ p) xs
    → only_id h id xs ≡ []
unfolding only_id
only_id-nil h id p [] only n = refl
only_id-nil h id p (q ∷ qs) only n = elim (Bool-cases (has_id h id q)) [
  | inl e ↦ absurd (n.0 (only.0 e))
  | inr e ↦ rw e (only_id-nil h id p qs only.1 n.1)
]

-- The queue holds the thread at most once.
pub only_id-cases :
    (h : ℕ → Option Thread) (id : ℤ) (p : ℕ) (xs : List ℕ)
    → All (λ q. has_id h id q ≡ true → q ≡ p) xs
    → Distinct xs
    → (only_id h id xs ≡ []) ⊎ (only_id h id xs ≡ p ∷ [])
unfolding only_id
only_id-cases h id p [] only d = inl refl
only_id-cases h id p (q ∷ qs) only d = elim (Bool-cases (has_id h id q)) [
  | inl e ↦
      let same = only.0 e in
      inr (
        rw (e, only_id-nil h id p qs only.1 (subst (λ z. All (λ y. y ≢ z) qs) same d.0), same) refl)
  | inr e ↦ rw e (only_id-cases h id p qs only.1 d.1)
]
