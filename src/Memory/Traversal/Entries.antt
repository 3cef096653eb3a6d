-- ===== src/Memory/Traversal/Entries.antt =====
-- One entry of a table in `tree_traversal` of
-- Hierarchical_Virtual_Memory_System/VirtualMemory.cpp.
use native.Mathlib.Decide.{ℕ_discrete}
use operating_systems.Base.{
  ℕ, suc, ◌+◌, ◌*◌, ◌%◌, ◌^◌, ◌≤◌, ◌<◌, pos, ltb, ◌≡◌, ◌≢◌, refl, sym, ◌∙◌, subst, inl, inr, Bool,
  Bool-cases, true, false, arith,
}
use operating_systems.Memory.Physical.{to_uint64, Memory}
use operating_systems.Memory.Distance.{distance_between}
use operating_systems.Memory.Traversal.{RecursionFrame, Found, raise_maximal}
use operating_systems.Memory.Traversal.Reached.{
  entry, Reach, here, below, stops, Linked, From, Searched, Reach-inv,
}

module _ (m : Memory) (original_page old_frame : ℕ) where
  -- After the first `k` entries of a table.
  pub record Partial (left c p k : ℕ) (found f : Found) (unused : Bool) : Type 0 where
    pub distance_grows : found.max_cyclic.distance ≤ f.max_cyclic.distance
    pub frame_grows : found.maximal_frame ≤ f.maximal_frame
    pub candidate :
        From m original_page old_frame (λ fr page. Reach m (suc left) c p 0 fr page) found f
    pub candidate_linked :
        Linked m original_page old_frame found.max_cyclic.parent found.max_cyclic.offset
          found.max_cyclic.frame
        → Linked m original_page old_frame f.max_cyclic.parent f.max_cyclic.offset
            f.max_cyclic.frame
    pub zeros : unused ≡ true → (j : ℕ) → j < k → entry m c j ≡ pos 0
    pub farthest :
        (j : ℕ)
        → j < k
        → entry m c j ≢ pos 0
        → (fr page : ℕ) → Reach m left (to_uint64 (entry m c j)) ((p * 16 + j) % 2 ^ 64) 0 fr page
        → distance_between original_page page ≤ f.max_cyclic.distance
    pub maximal :
        (j : ℕ)
        → j < k
        → entry m c j ≢ pos 0
        → (l fr p' : ℕ) → Reach m left (to_uint64 (entry m c j)) ((p * 16 + j) % 2 ^ 64) l fr p'
        → fr ≤ f.maximal_frame

  module _ (left c p : ℕ) (found : Found) where
    pub start-Partial : Partial left c p 0 found found true
    start-Partial = record {
      distance_grows = omega arith;
      frame_grows = omega arith;
      candidate = inl refl;
      candidate_linked = λ h. h;
      zeros = λ u j h. absurd (omega arith);
      farthest = λ j h. absurd (omega arith);
      maximal = λ j h. absurd (omega arith);
    }

    pub skip-Partial :
        (k : ℕ) (f : Found) (u : Bool)
        → entry m c k ≡ pos 0
        → Partial left c p k found f u
        → Partial left c p (suc k) found f u
    skip-Partial k f u e a = record {
      distance_grows = a.distance_grows;
      frame_grows = a.frame_grows;
      candidate = a.candidate;
      candidate_linked = a.candidate_linked;
      zeros = λ is j h. elim (ℕ_discrete j k) [
        | yes q ↦ subst (λ i. entry m c i ≡ pos 0) (sym q) e
        | no ne ↦ a.zeros is j (omega arith)
      ];
      farthest = λ j h nz. a.farthest j (earlier j h nz) nz;
      maximal = λ j h nz. a.maximal j (earlier j h nz) nz;
    }
      where
        earlier : (j : ℕ) → j < suc k → entry m c j ≢ pos 0 → j < k
        earlier j h nz = elim (ℕ_discrete j k) [
          | yes q ↦ absurd (nz (subst (λ i. entry m c i ≡ pos 0) (sym q) e))
          | no ne ↦ omega arith
        ]

    From-trans :
        (leaf leaf' : ℕ → ℕ → Type 0) (f g : Found)
        → ((fr page : ℕ) → leaf' fr page → leaf fr page)
        → From m original_page old_frame leaf found f
        → From m original_page old_frame leaf' f g
        → From m original_page old_frame leaf found g
    From-trans leaf leaf' f g lift a (inr (fr, page, r, e, e', e'')) =
        inr (fr, page, lift fr page r, e, e', e'')
    From-trans leaf leaf' f g lift (inl e) (inl e') = inl (e' ∙ e)
    From-trans leaf leaf' f g lift (inr (fr, page, r, a, b, d)) (inl e') =
        inr (fr, page, r, cc, cc, cc)

    module _ (k : ℕ) (small : k < 16) (nz : entry m c k ≢ pos 0) (f g : Found) (u : Bool)
        (a : Partial left c p k found f u) (r : RecursionFrame)
        (v : Searched m original_page old_frame left
          (to_uint64 (entry m c k))
          ((p * 16 + k) % 2 ^ 64)
          f
          r
          g) where
      raise-max :
          ((raise_maximal r.frame g).max_cyclic ≡ g.max_cyclic)
          × (g.maximal_frame ≤ (raise_maximal r.frame g).maximal_frame)
          × (r.frame ≤ (raise_maximal r.frame g).maximal_frame)
      raise-max = elim (Bool-cases (ltb g.maximal_frame r.frame)) [
        | inl e ↦ (ground (arith, e), ground (arith, e), ground (arith, e))
        | inr e ↦ (ground (arith, e), ground (arith, e), ground (arith, e))
      ]

      -- The candidate after the entry.
      raised-From :
          From m original_page old_frame
            (λ fr page. Reach m (suc left) c p 0 fr page)
            found
            (raise_maximal r.frame g)
      raised-From =
          let to_g = From-trans _ _ f g (λ fr page q. below k small nz q) a.candidate v.candidate in
          From-trans _ (λ fr page. Reach m (suc left) c p 0 fr page) g (raise_maximal r.frame g)
            (λ fr page q. q) to_g (inl raise-max.0)

      raised-Linked :
          Linked m original_page old_frame found.max_cyclic.parent found.max_cyclic.offset
            found.max_cyclic.frame
          → (let x = (raise_maximal r.frame g).max_cyclic in
              Linked m original_page old_frame x.parent x.offset x.frame)
      raised-Linked h =
          subst (λ x. Linked m original_page old_frame x.parent x.offset x.frame) (sym raise-max.0)
            (v.candidate_linked (a.candidate_linked h))

      pub stop-Searched :
          stops old_frame r ≡ true
          → Searched m original_page old_frame (suc left) c p found r (raise_maximal r.frame g)
      stop-Searched s =
          let (same, up, own) = raise-max in
          record {
            distance_grows =
                (let x = a.distance_grows in
                  let y = v.distance_grows in ground (arith, x, y, same));
            frame_grows = (let x = a.frame_grows in let y = v.frame_grows in omega arith);
            candidate = raised-From;
            candidate_linked = raised-Linked;
            unused_empty =
                λ e. (let (l, p', q, z) = v.unused_empty e in (l, p', below k small nz q, z));
            shallow = v.shallow;
            linked = v.linked;
            own = λ e. absurd cc;
            farthest = λ e. absurd cc;
            maximal = λ e. absurd cc;
          }

      pub step-Partial :
          stops old_frame r ≡ false → Partial left c p (suc k) found (raise_maximal r.frame g) false
      step-Partial s =
          let (same, up, own) = raise-max in
          record {
            distance_grows =
                (let x = a.distance_grows in
                  let y = v.distance_grows in ground (arith, x, y, same));
            frame_grows = (let x = a.frame_grows in let y = v.frame_grows in omega arith);
            candidate = raised-From;
            candidate_linked = raised-Linked;
            zeros = λ e. absurd cc;
            farthest = λ j h n fr page q.
                subst (λ x. distance_between original_page page ≤ x.distance) (sym same)
                  (elim (ℕ_discrete j k) [
                    | yes e ↦ v.farthest s fr page (
                        subst
                          (λ i.
                            Reach m left (to_uint64 (entry m c i)) ((p * 16 + i) % 2 ^ 64) 0 fr
                              page)
                          e q)
                    | no ne ↦
                        let x = a.farthest j (omega arith) n fr page q in
                        let y = v.distance_grows in omega arith
                  ]);
            maximal = λ j h n l fr p' q. elim (ℕ_discrete j k) [
              | yes e ↦
                  elim (v.maximal s l fr p' (
                    subst
                      (λ i. Reach m left (to_uint64 (entry m c i)) ((p * 16 + i) % 2 ^ 64) l fr p')
                      e q)) [ inl x ↦ (let y = v.own s in omega arith) | inr x ↦ omega arith ]
              | no ne ↦
                  let x = a.maximal j (omega arith) n l fr p' q in
                  let y = v.frame_grows in omega arith
            ];
          }

    module _ (r : RecursionFrame) (f : Found) (own_frame : r.frame ≡ c) (own_depth : r.depth < 4)
        (own_link : Linked m original_page old_frame r.parent r.offset r.frame)
        (a : Partial left c p 16 found f r.unused) where
      pub end-Searched : Searched m original_page old_frame (suc left) c p found r f
      end-Searched = record {
        distance_grows = a.distance_grows;
        frame_grows = a.frame_grows;
        candidate = a.candidate;
        candidate_linked = a.candidate_linked;
        linked = λ e. own_link;
        unused_empty = λ e.
            subst
              (λ q.
                (l : ℕ) × (p' : ℕ) × Reach m (suc left) c p (suc l) q p'
                × ((j : ℕ) → j < 16 → entry m q j ≡ pos 0))
              (sym own_frame) (left, p, here, a.zeros e);
        shallow = λ e. own_depth;
        own = λ e. own_frame;
        farthest = λ e fr page q. elim (Reach-inv m original_page old_frame q) [
          | inl (_, no_leaf) ↦ absurd (omega arith)
          | inr (j, h, n, q') ↦ a.farthest j h n fr page q'
        ];
        maximal = λ e l fr p' q. elim (Reach-inv m original_page old_frame q) [
          | inl (x, _) ↦ inl x
          | inr (j, h, n, q') ↦ inr (a.maximal j h n l fr p' q')
        ];
      }
