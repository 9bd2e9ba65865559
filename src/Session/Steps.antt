-- ===== src/Session/Steps.antt =====
-- Every request that concerns the lock or a redraw, as one step function. The operations are those of
-- src/niri.rs, src/handlers/mod.rs and src/handlers/compositor.rs; the step only chooses among them.
use macniri.Base.{
  ℕ, ◌≡◌, refl, inl, inr, Bool, true, Option, some, arith, get, adjust, AllValues-adjust,
  AllValues-get, Bool-cases, Option-cases,
}
use macniri.Session.Types.{
  SessionLocker, LockSurface, LockState, OutputState, Niri, RenderResult, unlocked,
  waiting_for_surfaces, locking, locked, is_locked, is_queued,
}
use macniri.Session.Lock.{
  queue_redraw, lock, continue_to_locking, unlock, new_lock_surface, commit_lock_surface,
  add_output, remove_output, activate_monitors, deactivate_monitors,
}
use macniri.Session.Redraw.{Backend, render_output, after_render, finish_redraw, redraw}
use macniri.Session.Commits.{commit_lock_surface-IsSafeResult}
use macniri.Session.Safety.{
  ShowsLock, LockHides, IsHidden, IsSafeStep, IsSafeResult, check_lock-IsSafeStep, lock-IsSafeStep,
  continue_to_locking-IsSafeStep, unlock-IsSafeStep, new_lock_surface-IsSafeStep,
  add_output-IsSafeResult, remove_output-IsSafeResult, queue_redraw-IsSafeResult,
  activate_monitors-IsSafeStep, unlock-confirmations, IsSafeStep-of_effects,
}

-- The requests of clients, the timer's deadline, the changes of outputs and of the monitors' power, and
-- the redraws.
pub data Request : Type 0 where
  locks : (SessionLocker → Bool) → ℕ → SessionLocker → Request
  deadline unlocks wakes sleeps : Request
  commits : ℕ → (is_mapped : Bool) → Request
  adds_surface : LockSurface → ℕ → Request
  adds_output removes_output : (ℕ → Bool) → ℕ → Request
  queues : ℕ → Request
  redraws : Backend → Bool → ℕ → Request

unfoldable pub step : Request → Niri → Option Niri
step (locks alive token c) n = some (lock alive token c n)
step deadline n = some (continue_to_locking n)
step (commits output is_mapped) n = commit_lock_surface output is_mapped n
step unlocks n = some (activate_monitors (unlock n))
step wakes n = some (activate_monitors n)
step sleeps n = some (deactivate_monitors n)
step (adds_surface surface output) n = some (new_lock_surface surface output n)
step (adds_output moved output) n = add_output moved output n
step (removes_output moved output) n = remove_output moved output n
step (queues output) n = queue_redraw output n
step (redraws b animating output) n = redraw b animating output n

-- In a locked session a rendered output shows the lock, and one that is not rendered keeps it.
after_render-ShowsLock :
    (active : Bool) (res : RenderResult) (s : OutputState)
    → ShowsLock s
    → ShowsLock (after_render true active res s)
unfolding after_render
after_render-ShowsLock active res s h = ground arith

backend_render-ShowsLock :
    (b : Backend) (animating active : Bool) (s s' : OutputState) (res : RenderResult)
    → render_output b animating active s ≡ some (s', res)
    → ShowsLock s
    → ShowsLock s'
unfolding render_output
backend_render-ShowsLock b animating active s s' res e h = ground arith

finish_redraw-IsSafeResult :
    (output : ℕ) (n : Niri) (s s' : OutputState) (res : RenderResult)
    → get output n.output_state ≡ some s
    → (ShowsLock s → ShowsLock s')
    → IsHidden n
    → IsSafeResult n (finish_redraw output n (some (s', res)))
unfolding after_render is_locked
finish_redraw-IsSafeResult output n s s' res e keep h =
    check_lock-IsSafeStep _ _ (on_state n.lock_state h)
  where
    on_state :
        (l : LockState)
        → LockHides l n.output_state
        → LockHides l (
            adjust output (λ _. after_render (is_locked l) n.monitors_active res s') n.output_state)
    on_state unlocked h = tt
    on_state (waiting_for_surfaces c t) h = tt
    on_state (locking c) h = tt
    on_state (locked c) h =
        AllValues-adjust ShowsLock output (λ _. after_render true n.monitors_active res s')
          (λ _ _.
            after_render-ShowsLock n.monitors_active res s'
              (keep (AllValues-get ShowsLock output n.output_state h e)))
          n.output_state h

redraw-IsSafeResult :
    (b : Backend) (animating : Bool) (output : ℕ) (n : Niri)
    → IsHidden n
    → IsSafeResult n (redraw b animating output n)
unfolding redraw
redraw-IsSafeResult b animating output n h = elim (Option-cases (get output n.output_state)) [
  | inl e ↦ rw (e, redraw) tt
  | inr (s, e) ↦
      rw (e, redraw)
        (elim (Bool-cases (is_queued s.redraw_state)) [
          | inr idle ↦ rw idle tt
          | inl queued ↦
              rw queued (elim (Option-cases (render_output b animating n.monitors_active s)) [
                | inl failed ↦ rw failed tt
                | inr ((s', res), rendered) ↦ rw rendered (
                    finish_redraw-IsSafeResult output n s s' res e
                      (backend_render-ShowsLock b animating n.monitors_active s s' res rendered) h)
              ])
        ])
]

unlock-activate-IsSafeStep : (n : Niri) → IsSafeStep n (activate_monitors (unlock n))
unlock-activate-IsSafeStep n =
    IsSafeStep-of_effects n (unlock n) (activate_monitors (unlock n)) (unlock-confirmations n)
      (activate_monitors-IsSafeStep (unlock n) (unlock-IsSafeStep n).0)

-- Whatever the request: while a lock is confirmed every output last showed the lock, and a lock is
-- confirmed to its client only in a state in which every output has.
pub step-IsSafeResult : (r : Request) (n : Niri) → IsHidden n → IsSafeResult n (step r n)
unfolding step deactivate_monitors
step-IsSafeResult (locks alive token c) n h = lock-IsSafeStep alive token c n h
step-IsSafeResult deadline n h = continue_to_locking-IsSafeStep n h
step-IsSafeResult (commits output is_mapped) n h =
    commit_lock_surface-IsSafeResult output is_mapped n h
step-IsSafeResult unlocks n h = unlock-activate-IsSafeStep n
step-IsSafeResult wakes n h = activate_monitors-IsSafeStep n h
step-IsSafeResult sleeps n h = (h, inl refl)
step-IsSafeResult (adds_surface surface output) n h = new_lock_surface-IsSafeStep surface output n h
step-IsSafeResult (adds_output moved output) n h = add_output-IsSafeResult moved output n h
step-IsSafeResult (removes_output moved output) n h = remove_output-IsSafeResult moved output n h
step-IsSafeResult (queues output) n h = queue_redraw-IsSafeResult output n h
step-IsSafeResult (redraws b animating output) n h = redraw-IsSafeResult b animating output n h
