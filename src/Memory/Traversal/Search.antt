-- ===== src/Memory/Traversal/Search.antt =====
-- What `tree_traversal` of Hierarchical_Virtual_Memory_System/VirtualMemory.cpp finds.
use operating_systems.Base.{
  ℕ, zero, suc, ◌+◌, ◌-◌, ◌*◌, ◌%◌, ◌^◌, ◌≤◌, ◌<◌, pos, ◌==ℤ◌, ==ℤ→eq, eq→==ℤ, ◌≡◌, ◌≢◌, refl, ◌∙◌,
  subst, inl, inr, Bool, Bool-cases, true, false, some, arith,
}
use operating_systems.Memory.Physical.{tables_depth, to_uint64, M, Memory}
use operating_systems.Memory.Physical.RoundTrip.{pm_read-eq}
use operating_systems.Memory.Traversal.{
  RecursionFrame, Found, raise_maximal, traverse_entries, tree_traversal,
}
use operating_systems.Memory.Traversal.Reached.{
  entry, Reach, here, below, stops, Linked, Searched, leaf-Searched,
}
use operating_systems.Memory.Traversal.Entries.{
  Partial, start-Partial, skip-Partial, stop-Searched, step-Partial, end-Searched,
}

module _ (m : Memory) (original_page old_frame : ℕ) where
  module _ (left c p : ℕ) (found : Found) where
    module _ (visit : ℕ → ℕ → ℕ → Found → M (RecursionFrame × Found)) (resized : m.resized ≡ true)
        (small_frame : c < 64)
        (visits : (j : ℕ)
          → j < 16
          → entry m c j ≢ pos 0
          → (f : Found)
          → (r : RecursionFrame) × (g : Found) × (visit
                (to_uint64 (entry m c j))
                ((p * 16 + j) % 2 ^ 64)
                j
                f
                m
              ≡ some ((r, g), m))
            × Searched m original_page old_frame left
                (to_uint64 (entry m c j))
                ((p * 16 + j) % 2 ^ 64)
                f
                r
                g) where
      loop-skip :
          (todo : ℕ) (current : RecursionFrame) (f : Found)
          → suc todo ≤ 16
          → current.frame ≡ c
          → entry m c (16 - suc todo) ≡ pos 0
          → traverse_entries visit p old_frame (suc todo) current f m
            ≡ traverse_entries visit p old_frame todo current f m
      unfolding traverse_entries
      loop-skip todo current f h e z =
          ground
            (arith, pm_read-eq ((c * 16 + (16 - suc todo)) % 2 ^ 64) m resized (omega arith), e, z)

      module _ (todo : ℕ) (current : RecursionFrame) (f : Found) (h : suc todo ≤ 16)
          (e : current.frame ≡ c) (nz : entry m c (16 - suc todo) ≢ pos 0) (r : RecursionFrame)
          (g : Found)
          (v : visit
              (to_uint64 (entry m c (16 - suc todo)))
              ((p * 16 + (16 - suc todo)) % 2 ^ 64)
              (16 - suc todo)
              f
              m
            ≡ some ((r, g), m)) where
        loop-stop :
            stops old_frame r ≡ true
            → traverse_entries visit p old_frame (suc todo) current f m
              ≡ some ((r, raise_maximal r.frame g), m)
        unfolding traverse_entries
        loop-stop s = ground (
          arith,
          pm_read-eq ((c * 16 + (16 - suc todo)) % 2 ^ 64) m resized (omega arith),
          e,
          v,
          s,
          nz,
          ==ℤ→eq (entry m c (16 - suc todo)) (pos 0),
        )

        loop-step :
            stops old_frame r ≡ false
            → traverse_entries visit p old_frame (suc todo) current f m
              ≡ traverse_entries visit p old_frame todo
                  (record current { unused = false })
                  (raise_maximal r.frame g)
                  m
        unfolding traverse_entries
        loop-step s = ground (
          arith,
          pm_read-eq ((c * 16 + (16 - suc todo)) % 2 ^ 64) m resized (omega arith),
          e,
          v,
          s,
          nz,
          ==ℤ→eq (entry m c (16 - suc todo)) (pos 0),
        )

      traverse_entries-Searched :
          (todo : ℕ) (current : RecursionFrame) (f : Found)
          → todo ≤ 16
          → current.frame ≡ c
          → current.depth < 4
          → Linked m original_page old_frame current.parent current.offset current.frame
          → Partial m original_page old_frame left c p (16 - todo) found f current.unused
          → (r : RecursionFrame) × (g : Found) × (traverse_entries visit p old_frame todo current f
                m
              ≡ some ((r, g), m))
            × Searched m original_page old_frame (suc left) c p found r g
      unfolding traverse_entries
      traverse_entries-Searched zero current f h e d k a = (
        current,
        f,
        refl,
        end-Searched m original_page old_frame left c p found current f e d k a,
      )
      traverse_entries-Searched (suc todo) current f h e d k a =
          elim (Bool-cases (entry m c (16 - suc todo) ==ℤ pos 0)) [
            | inl empty ↦
                let z = ==ℤ→eq (entry m c (16 - suc todo)) (pos 0) empty in
                let (r, g, q, done) = traverse_entries-Searched todo current f (omega arith) e d k (
                  next current.unused f (
                    skip-Partial m original_page old_frame left c p found (16 - suc todo) f
                      current.unused z a)) in
                (r, g, loop-skip todo current f h e z ∙ q, done)
            | inr full ↦
                let nz : entry m c (16 - suc todo) ≢ pos 0 =
                  λ z. cc (eq→==ℤ (entry m c (16 - suc todo)) (pos 0) z) in
                let (r, g, v, found_below) = visits (16 - suc todo) (omega arith) nz f in
                elim (Bool-cases (stops old_frame r)) [
                  | inl s ↦ (
                    r,
                    raise_maximal r.frame g,
                    loop-stop todo current f h e nz r g v s,
                    stop-Searched m original_page old_frame left c p found (16 - suc todo)
                        (omega arith) nz f g current.unused a r found_below s,
                  )
                  | inr s ↦
                      let (r', g', q, done) =
                        traverse_entries-Searched todo (record current { unused = false })
                          (raise_maximal r.frame g) (omega arith) e d k
                          (next false (raise_maximal r.frame g) (
                            step-Partial m original_page old_frame left c p found (16 - suc todo)
                              (omega arith) nz f g current.unused a r found_below s)) in
                      (r', g', loop-step todo current f h e nz r g v s ∙ q, done)
                ]
          ]
        where
          next :
              (u : Bool) (f' : Found)
              → Partial m original_page old_frame left c p (suc (16 - suc todo)) found f' u
              → Partial m original_page old_frame left c p (16 - todo) found f' u
          next u f' =
              subst (λ k. Partial m original_page old_frame left c p k found f' u) (omega arith)

  -- `tree_traversal` from the frame `c` of a table with at most `left` levels below it, where the
  -- RAM has been set up, the tables that are reached lie in the RAM, and `c` is the root or the entry
  -- of `parent` at `offset` leads to it, returns and changes no word.
  -- Its eviction candidate is the one before or a page that is reached, at its distance. If it
  -- returns an unused frame, that is a table that is reached and has no entry; it is the root, or the entry of the parent
  -- that is returned leads to it, and so for the candidate if it held before. If it does not stop
  -- at an unused table other than `old_frame`, no page that is reached is farther from
  -- `original_page` than the candidate, and no frame that is reached below `c` has a greater number
  -- than `maximal_frame`.
  pub tree_traversal-Searched :
      (left c parent path offset : ℕ) (found : Found)
      → Linked m original_page old_frame parent offset c
      → m.resized ≡ true
      → ((l fr p' : ℕ) → Reach m left c path (suc l) fr p' → fr < 64)
      → (r : RecursionFrame) × (g : Found) × (tree_traversal original_page old_frame left c parent
            path offset found m
          ≡ some ((r, g), m))
        × Searched m original_page old_frame left c path found r g
  unfolding tree_traversal
  tree_traversal-Searched zero c parent path offset found k ok inside =
      (_, _, refl, leaf-Searched m original_page old_frame c path parent offset found k)
  tree_traversal-Searched (suc left) c parent path offset found k ok inside =
      traverse_entries-Searched left c path found
        (λ value add_path j f. tree_traversal original_page old_frame left value c add_path j f) ok
        (inside left c path here)
        (λ j h n f.
          tree_traversal-Searched left (to_uint64 (entry m c j)) c ((path * 16 + j) % 2 ^ 64) j f
            (inr (n, refl)) ok (λ l fr p' q. inside l fr p' (below j h n q)))
        16
        (record {
          frame = c;
          parent = parent;
          unused = true;
          depth = tables_depth - suc left;
          offset = offset;
        })
        found (omega arith) refl (omega arith) k
        (start-Partial m original_page old_frame left c path found)
