-- ===== src/Uthreads/Invariant/Delete.antt =====
-- What `delete_thread` of Uthreads_Library/uthreads.cpp leaves: its loops as functions on lists.
use operating_systems.Base.{
  ℕ, ℤ, pos, pred_ℤ, ◌==ℤ◌, ==ℤ→eq, ◌≡◌, ◌≢◌, refl, subst, Bool, Bool-cases, true, false, ◌||◌,
  if◌then◌else◌, Option, none, some, inl, inr, List, [], ◌∷◌, ◌++◌, All, Distinct, In, arith,
}
use mathlib.Core.List.{append_assoc, append-nil}
use operating_systems.Uthreads.Containers.{erase}
use operating_systems.Uthreads.Machine.{
  is_ready, is_sleep, is_sleep_block, Thread, Globals, returned, update, Os, Works, block, unblock,
}
use operating_systems.Uthreads.Scheduler.{
  drop_stack, erase_id, drain_ready, refill_ready, leave_ready_queue, release_thread, delete_thread,
}

-- Every pointer of the list is valid.
abbrev pub Valid : (ℕ → Option Thread) → List ℕ → Type 0
Valid h = All (λ q. (t : Thread) × (h q ≡ some t))

abbrev pub has_id : (ℕ → Option Thread) → ℤ → ℕ → Bool
has_id h id q = elim (h q) [ none ↦ false | some t ↦ t.id ==ℤ id ]

-- The list without the first thread of that id, and without all of them.
unfoldable pub without_first : (ℕ → Option Thread) → ℤ → List ℕ → List ℕ
without_first h id [] = []
without_first h id (q ∷ qs) = if has_id h id q then qs else q ∷ without_first h id qs

unfoldable pub without_all : (ℕ → Option Thread) → ℤ → List ℕ → List ℕ
without_all h id [] = []
without_all h id (q ∷ qs) = if has_id h id q then without_all h id qs else q ∷ without_all h id qs

pub All-without_first :
    (P : ℕ → Type 0) (h : ℕ → Option Thread) (id : ℤ) (xs : List ℕ)
    → All P xs
    → All P (without_first h id xs)
unfolding without_first
All-without_first P h id [] a = tt
All-without_first P h id (q ∷ qs) a = ground (arith, All-without_first P h id qs a.1)

pub Distinct-without_first :
    (h : ℕ → Option Thread) (id : ℤ) (xs : List ℕ) → Distinct xs → Distinct (without_first h id xs)
unfolding without_first
Distinct-without_first h id [] d = tt
Distinct-without_first h id (q ∷ qs) d =
    ground (arith, Distinct-without_first h id qs d.1, All-without_first (λ y. y ≢ q) h id qs d.0)

module _ (h : ℕ → Option Thread) (id : ℤ) where
  pub All-without_all : (P : ℕ → Type 0) (xs : List ℕ) → All P xs → All P (without_all h id xs)
  unfolding without_all
  All-without_all P [] a = tt
  All-without_all P (q ∷ qs) a = ground (arith, All-without_all P qs a.1)

  pub Distinct-without_all : (xs : List ℕ) → Distinct xs → Distinct (without_all h id xs)
  unfolding without_all
  Distinct-without_all [] d = tt
  Distinct-without_all (q ∷ qs) d =
      ground (arith, Distinct-without_all qs d.1, All-without_all (λ y. y ≢ q) qs d.0)

  pub In-without_all :
      (a : ℕ) (xs : List ℕ) → has_id h id a ≡ false → In a xs → In a (without_all h id xs)
  unfolding without_all
  In-without_all a [] f i = i
  In-without_all a (q ∷ qs) f (inl e) =
      let g : has_id h id q ≡ false = subst (λ y. has_id h id y ≡ false) e f in rw g (inl e)
  In-without_all a (q ∷ qs) f (inr i) = elim (Bool-cases (has_id h id q)) [
    | inl e ↦ rw e (In-without_all a qs f i)
    | inr e ↦ rw e (inr (In-without_all a qs f i))
  ]

  -- No thread of that id stays.
  pub without_all-ne :
      (p : ℕ) (xs : List ℕ) → has_id h id p ≡ true → All (λ y. y ≢ p) (without_all h id xs)
  unfolding without_all
  without_all-ne p [] f = tt
  without_all-ne p (q ∷ qs) f = elim (Bool-cases (has_id h id q)) [
    | inl e ↦ rw e (without_all-ne p qs f)
    | inr e ↦
        rw e ((λ m. (let g = subst (λ y. has_id h id y ≡ false) m e in cc)), without_all-ne p qs f)
  ]

  -- Where `p` alone has the id, it does not stay.
  pub without_first-ne :
      (p : ℕ) (xs : List ℕ)
      → has_id h id p ≡ true
      → All (λ q. has_id h id q ≡ true → q ≡ p) xs
      → Distinct xs
      → All (λ y. y ≢ p) (without_first h id xs)
  unfolding without_first
  without_first-ne p [] f only d = tt
  without_first-ne p (q ∷ qs) f only d = elim (Bool-cases (has_id h id q)) [
    | inl e ↦ rw e (subst (λ z. All (λ y. y ≢ z) qs) (only.0 e) d.0)
    | inr e ↦ rw e (
      (λ m. (let g = subst (λ y. has_id h id y ≡ false) m e in cc)),
      without_first-ne p qs f only.1 d.1,
    )
  ]

pub erase_id-eq :
    (id : ℤ) (xs : List ℕ) (s : Globals)
    → Valid s.heap xs
    → erase_id id xs s ≡ returned (without_first s.heap id xs) s
unfolding erase_id without_first
erase_id-eq id [] s v = refl
erase_id-eq id (q ∷ qs) s v = ground (arith, v.0, erase_id-eq id qs s v.1)

drain_ready-eq :
    (id : ℤ) (xs : List ℕ) (s : Globals)
    → Valid s.heap xs
    → s.ready_queue ≡ xs
    → drain_ready id xs s
      ≡ returned tt (record s {
        ready_queue = [];
        to_delete_threads = s.to_delete_threads ++ without_all s.heap id xs;
      })
unfolding drain_ready without_all
drain_ready-eq id [] s v e = ground (arith, append-nil s.to_delete_threads)
drain_ready-eq id (q ∷ qs) s v e = ground (
  arith,
  v.0,
  drain_ready-eq id qs (record s { ready_queue = qs }) v.1 refl,
  drain_ready-eq id qs
      (record s { ready_queue = qs; to_delete_threads = s.to_delete_threads ++ q ∷ [] }) v.1 refl,
  append_assoc s.to_delete_threads (q ∷ []) (without_all s.heap id qs),
)

refill_ready-eq :
    (xs : List ℕ) (s : Globals)
    → s.to_delete_threads ≡ xs
    → refill_ready xs s
      ≡ returned tt (record s { ready_queue = s.ready_queue ++ xs; to_delete_threads = [] })
unfolding refill_ready
refill_ready-eq [] s e = ground (arith, append-nil s.ready_queue)
refill_ready-eq (q ∷ qs) s e =
    rw
      (
        refill_ready-eq qs
            (record s { ready_queue = s.ready_queue ++ q ∷ []; to_delete_threads = qs }) refl,
        append_assoc,
      )
      refl

pub leave_ready_queue-eq :
    (id : ℤ) (s : Globals)
    → Valid s.heap s.ready_queue
    → s.to_delete_threads ≡ []
    → leave_ready_queue id s
      ≡ returned tt
          (record s { ready_queue = without_all s.heap id s.ready_queue; to_delete_threads = [] })
unfolding leave_ready_queue
leave_ready_queue-eq id s v e =
    let kept = without_all s.heap id s.ready_queue in
    rw (drain_ready-eq id s.ready_queue s v refl, e)
      (refill_ready-eq kept (record s { ready_queue = []; to_delete_threads = kept }) refl)

-- What `delete_thread` leaves of a thread other than the main one.
abbrev pub deleted : Globals → ℕ → Thread → Globals
deleted s p d = record s {
  blocked_threads = without_first s.heap d.id s.blocked_threads;
  sleeping_threads =
      if is_sleep d.state || is_sleep_block d.state
      then erase d.id s.sleeping_threads
      else s.sleeping_threads;
  ready_queue = if is_ready d.state then without_all s.heap d.id s.ready_queue else s.ready_queue;
  stacks = drop_stack d.stack s.stacks;
  threads = if d.terminated then s.threads else erase d.id s.threads;
  threads_cur_number = if d.terminated then s.threads_cur_number else pred_ℤ s.threads_cur_number;
  heap = update s.heap p none;
  masked = false;
}

module _ ⦃os : Os⦄ (w : Works os) where
  -- Where `sigprocmask` succeeds: `delete_thread` of a thread with an id other than 0, where the
  -- pointers in `blocked_threads` and `ready_queue` are valid and `to_delete_threads` is empty,
  -- returns and leaves exactly `deleted`: the first thread with its id leaves `blocked_threads`,
  -- all with its id leave `ready_queue` if it is ready, it leaves `sleeping_threads` if it sleeps
  -- and `threads` unless it is terminated, and its stack and its object are freed.
  pub delete_thread-eq :
      (s : Globals) (p : ℕ) (d : Thread)
      → s.heap p ≡ some d
      → d.id ≢ pos 0
      → Valid s.heap s.blocked_threads
      → Valid s.heap s.ready_queue
      → s.to_delete_threads ≡ []
      → delete_thread p s ≡ returned tt (deleted s p d)
  unfolding delete_thread release_thread block unblock
  delete_thread-eq s p d at other vb vr e = ground (
    arith,
    erase_id-eq d.id s.blocked_threads (record s { masked = true }) vb,
    leave_ready_queue-eq d.id
        (record s { masked = true; blocked_threads = without_first s.heap d.id s.blocked_threads })
        vr e,
    ==ℤ→eq d.id (pos 0),
  )
