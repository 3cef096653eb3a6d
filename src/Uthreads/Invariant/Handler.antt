-- ===== src/Uthreads/Invariant/Handler.antt =====
-- `schedule_handler` of Uthreads_Library/uthreads.cpp, put together from its parts.
use operating_systems.Base.{◌≡◌, refl, true}
use operating_systems.Uthreads.Machine.{Globals, ◌>>=◌, Os, Works, block, and_then}
use operating_systems.Uthreads.Scheduler.{wake_sleepers, reap, retire, dispatch, schedule_handler}
use operating_systems.Uthreads.Api.{call_handler}
use operating_systems.Uthreads.Invariant.{Core, Inv, Ends, Ends-and_then, masked-Core}
use operating_systems.Uthreads.Invariant.Dispatch.{Dispatchable, dispatch-Inv}
use operating_systems.Uthreads.Invariant.Retire.{Calls, retire-Dispatchable}
use operating_systems.Uthreads.Invariant.Reap.{Reaped, reap-Reaped}
use operating_systems.Uthreads.Invariant.Sleepers.{NotDue, wake_sleepers-Core}

module _ ⦃os : Os⦄ (w : Works os) where
  schedule_handler-eq :
      (s : Globals)
      → Calls s
      → schedule_handler s
        ≡ and_then
            (wake_sleepers (record s { masked = true }))
            (λ _. reap >>= λ _. retire >>= λ _. dispatch)
  unfolding schedule_handler block
  schedule_handler-eq s call = rw (w.can_block, call.1) refl

  -- From a state in which the invariant holds of all but the caller, the handler is never
  -- undefined, and the invariant holds when the next thread runs.
  pub schedule_handler-Inv :
      (s : Globals) → Core s → Calls s → NotDue s → Ends (schedule_handler s) (λ _ s'. Inv s')
  schedule_handler-Inv s c call due =
      let s0 = record s { masked = true } in
      rw (schedule_handler-eq s call) (
        Ends-and_then (λ _ s'. Core s' × Calls s') (λ _ s'. Inv s') (wake_sleepers s0) _
          (wake_sleepers-Core s0 (masked-Core s true s.cerr c) call due)
          λ _ s1 (c1, call1).
            Ends-and_then (λ _ s'. Reaped s') (λ _ s'. Inv s') (reap s1) _
              (reap-Reaped w s1 s1.termination refl c1.zombies c1 call1)
              λ _ s2 (c2, empty, call2).
                Ends-and_then (λ _ s'. Dispatchable s') (λ _ s'. Inv s') (retire s2) _
                  (retire-Dispatchable s2 c2 empty call2) (λ _ s3 d. dispatch-Inv w s3 d))

  pub call_handler-Inv :
      (s : Globals) → Core s → Calls s → NotDue s → Ends (call_handler s) (λ _ s'. Inv s')
  unfolding call_handler
  call_handler-Inv s c call due = simp c.installed (schedule_handler-Inv s c call due)
