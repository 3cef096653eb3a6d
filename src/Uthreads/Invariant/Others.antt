-- ===== src/Uthreads/Invariant/Others.antt =====
-- The calls of Uthreads_Library/uthreads.cpp that change a thread other than the running one.
use native.Mathlib.Decide.{ℕ_discrete}
use operating_systems.Base.{
  ℕ, ℤ, pos, ◌==ℤ◌, ==ℤ→eq, ◌≡◌, ◌≢◌, refl, sym, ◌∙◌, subst, inl, inr, Bool, true, false, Option,
  some, List, All, All-mono, Distinct, In, arith,
}
use operating_systems.Uthreads.Containers.{find}
use operating_systems.Uthreads.Containers.Laws.{UniqueKeys}
use operating_systems.Uthreads.Machine.{ThreadState, is_running, is_ready, Thread, Globals}
use operating_systems.Uthreads.Invariant.{Has, Asleep, is_waiting, Inv}
use operating_systems.Uthreads.Invariant.Frame.{Agree, Zombies-frame, fresh-frame}
use operating_systems.Uthreads.Invariant.Delete.{has_id}

-- A thread `t` at `p`, which is not the running one, becomes `t'` in a heap `h'`.
module _ (s : Globals) (i : Inv s) (p : ℕ) (t t' : Thread) (h' : ℕ → Option Thread)
    (at : s.heap p ≡ some t) (apart : s.running_thread ≢ p) (agree : Agree s.heap h' p)
    (now : h' p ≡ some t') (same_id : t'.id ≡ t.id) (same_mark : t'.terminated ≡ t.terminated)
    (live : t.terminated ≡ false) (stops : is_running t'.state ≡ false) where
  pub other-Inv :
      (ready' blocked' : List ℕ) (sleeping' : List (ℤ × ℕ))
      → All (Has h' s.threads is_ready) ready'
      → Distinct ready'
      → ((q : ℕ) → find (pos 0) s.threads ≡ some q → In q s.ready_queue → In q ready')
      → All (Has h' s.threads is_waiting) blocked'
      → Distinct blocked'
      → All (Asleep h' s.threads) sleeping'
      → UniqueKeys sleeping'
      → Inv (record s {
        heap = h';
        ready_queue = ready';
        blocked_threads = blocked';
        sleeping_threads = sleeping';
        masked = false;
      })
  other-Inv ready' blocked' sleeping' ro rd main bo bd so su =
      let c = i.core in
      record {
        core = record {
          registered = λ k q f.
              let (u, at', named, how) = c.registered k q f in
              elim (ℕ_discrete q p) [
                | yes here ↦ (
                  t',
                  rw here now,
                  same_id ∙ ground (arith, at, at', named, here),
                  inl (same_mark ∙ live, stops),
                )
                | no other ↦ (u, agree q other ∙ at', named, how)
              ];
          unique_ids = c.unique_ids;
          ids = c.ids;
          counted = c.counted;
          ready_ok = ro;
          ready_distinct = rd;
          blocked_ok = bo;
          blocked_distinct = bd;
          sleeping_ok = so;
          sleeping_unique = su;
          zombies = Zombies-frame s.heap h' s.threads p agree t at s.termination live c.zombies;
          fresh = fresh-frame s.heap h' s.threads p agree t at s.next c.fresh;
          temp_empty = c.temp_empty;
          delete_empty = c.delete_empty;
          waking_empty = c.waking_empty;
          installed = c.installed;
          main_ok = (
            c.main_ok.0,
            c.main_ok.1,
            elim c.main_ok.2 [ inl m ↦ inl m | inr m ↦ inr (main c.main_ok.0 c.main_ok.1 m) ],
          );
        };
        current =
            let (u, at', is, known, live') = i.current in
            (u, agree s.running_thread apart ∙ at', is, known, live');
        unmasked = refl;
      }

-- A thread that `threads` knows and that is not in state RUNNING.
pub stopped-Has :
    (s : Globals) (i : Inv s) (k : ℤ) (p : ℕ) (t : Thread)
    → find k s.threads ≡ some p
    → s.heap p ≡ some t
    → is_running t.state ≡ false
    → (s.running_thread ≢ p) × (t.id ≡ k) × (t.terminated ≡ false)
stopped-Has s i k p t f at stopped =
    let (u, at', named, how) = i.core.registered k p f in
    let (v, at'', is, known, live) = i.current in
    let apart : s.running_thread ≢ p = λ here. ground (arith, here, at, at'', is, stopped) in
    (
      apart,
      ground (arith, at, at'),
      elim how [ inl (l, _) ↦ ground (arith, at, at', l) | inr here ↦ absurd (apart (sym here)) ],
    )

-- In state RUNNING is the running thread only.
pub running-Has :
    (s : Globals) (i : Inv s) (k : ℤ) (p : ℕ) (t : Thread)
    → find k s.threads ≡ some p
    → s.heap p ≡ some t
    → is_running t.state ≡ true
    → p ≡ s.running_thread
running-Has s i k p t f at is =
    let (u, at', named, how) = i.core.registered k p f in
    elim how [ inl (_, stopped) ↦ absurd (ground (arith, at, at', is, stopped)) | inr here ↦ here ]

-- Ids are not shared: the thread of an id that `threads` knows is the one it maps the id to.
pub has_id-eq :
    (h : ℕ → Option Thread) (ts : List (ℤ × ℕ)) (ok : ThreadState → Bool) (k : ℤ) (p : ℕ)
    (xs : List ℕ)
    → find k ts ≡ some p
    → All (Has h ts ok) xs
    → All (λ q. has_id h k q ≡ true → q ≡ p) xs
has_id-eq h ts ok k p xs f = All-mono xs one
  where
    one : (q : ℕ) → Has h ts ok q → has_id h k q ≡ true → q ≡ p
    one q (u, at, is, known, live) e =
        let e' : (u.id ==ℤ k) ≡ true = rw (at, has_id) at e in
        let f' = subst (λ j. find j ts ≡ some q) (==ℤ→eq u.id k e') known in ground (arith, f, f')
