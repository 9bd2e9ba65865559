-- ===== src/Examples/Session.antt =====
-- Two outputs and a lock's client for the functions of src/niri.rs.
use macniri.Base.{◌≡◌, refl, ◌<◌, inl, inr, true, false, none, some, [], ◌∷◌, arith, AllValues}
use macniri.Session.Types.{
  RedrawState, idle, queued, LockRenderState, session_frame, locked_frame, SessionLocker, LockState,
  unlocked, waiting_for_surfaces, locking, locked, OutputState, Niri, confirm, is_queued, is_locked,
}
use macniri.Session.Lock.{remove_output, continue_to_locking}
use macniri.Session.Redraw.{
  redraw, check_lock, after_render, winit, headless, redraw_queued_outputs, done,
}
use macniri.Session.Safety.{AllShowLock, IsHidden, IsSafeResult}
use macniri.Session.Steps.{deadline, removes_output, redraws, step, step-IsSafeResult}
use macniri.Session.Traces.{run, run-IsHidden}
use macniri.Session.Loop.{queued_count, redraw_queued_outputs-done}
use macniri.Session.Completion.{continue_to_locking-locks}

abbrev client : SessionLocker
client = record { id = 3; client = 4 }

abbrev output_in : RedrawState → LockRenderState → OutputState
output_in r l = record {
  redraw_state = r;
  unfinished_animations_remain = false;
  frame_callback_sequence = 0;
  lock_render_state = l;
  lock_surface = none;
}

abbrev session_in : LockState → RedrawState → LockRenderState → Niri
session_in l r shown = record {
  output_state = (1, output_in idle locked_frame) ∷ (2, output_in r shown) ∷ [];
  lock_state = l;
  monitors_active = true;
  effects = [];
}

step-IsSafeResult_example :
    IsSafeResult
      (session_in (locking client) queued session_frame)
      (step (redraws headless false 2) (session_in (locking client) queued session_frame))
step-IsSafeResult_example =
    step-IsSafeResult (redraws headless false 2) (session_in (locking client) queued session_frame)
      tt

-- The redraw of the last output confirms the lock.
redraw_confirms :
    step (redraws headless false 2) (session_in (locking client) queued session_frame)
    ≡ some (record (session_in (locked client) idle locked_frame) {
      output_state =
          (1, output_in idle locked_frame)
          ∷ (2, record (output_in idle locked_frame) { frame_callback_sequence = 1 })
          ∷ [];
      effects = confirm client ∷ [];
    })
unfolding step redraw check_lock after_render is_locked
redraw_confirms = refl

-- The only output that did not show the lock is unplugged.
removal_confirms :
    run
      (removes_output (λ _. false) 2 ∷ deadline ∷ [])
      (session_in (locking client) idle session_frame)
    ≡ some (record (session_in (locked client) idle locked_frame) {
      output_state = (1, output_in idle locked_frame) ∷ [];
      effects = confirm client ∷ [];
    })
unfolding run remove_output continue_to_locking
removal_confirms = refl

run-IsHidden_example : IsHidden (record (session_in (locked client) idle locked_frame) {
  output_state = (1, output_in idle locked_frame) ∷ [];
  effects = confirm client ∷ [];
})
run-IsHidden_example =
    run-IsHidden (removes_output (λ _. false) 2 ∷ deadline ∷ [])
      (session_in (locking client) idle session_frame)
      (record (session_in (locked client) idle locked_frame) {
        output_state = (1, output_in idle locked_frame) ∷ [];
        effects = confirm client ∷ [];
      })
      tt removal_confirms

two_rounds : queued_count (session_in unlocked queued session_frame).output_state < 2
unfolding is_queued
two_rounds = omega arith

redraw_queued_outputs-done_example :
    (m : Niri) × (redraw_queued_outputs 2 headless
        (λ _. false)
        (session_in unlocked queued session_frame)
      ≡ done m)
    × AllValues (λ s. s.redraw_state ≡ idle) m.output_state
redraw_queued_outputs-done_example =
    redraw_queued_outputs-done 2 headless (λ _. false) (session_in unlocked queued session_frame)
      (inl refl, (inr refl, tt)) (refl, (refl, tt)) two_rounds

continue_to_locking-locks_example :
    (m : Niri) × (redraw_queued_outputs 3 winit
        (λ _. false)
        (continue_to_locking (session_in (waiting_for_surfaces client 8) idle session_frame))
      ≡ done m)
    × (m.lock_state ≡ locked client)
    × AllShowLock m.output_state
continue_to_locking-locks_example =
    continue_to_locking-locks 3 winit (λ _. false)
      (session_in (waiting_for_surfaces client 8) idle session_frame) client 8 refl
      (inl refl, (inl refl, tt)) (refl, (refl, tt)) (omega arith)
