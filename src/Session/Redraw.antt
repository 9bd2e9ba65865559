-- ===== src/Session/Redraw.antt =====
-- `redraw` and `redraw_queued_outputs` of src/niri.rs over the backends of src/backend. What the
-- frames show, frame callbacks and screencasts are not modelled.
use Prim.Native.Nat.{◌^◌}
use macniri.Base.{
  ℕ, zero, suc, ◌+◌, ◌%◌, Bool, true, false, not, ◌||◌, Option, none, some, List, [], ◌∷◌,
  if◌then◌else◌, get, adjust,
}
use macniri.Session.Types.{
  RedrawState, LockRenderState, OutputState, Niri, RenderResult, submitted, no_damage, skipped,
  locking, is_queued, is_locked, is_locked_frame,
}
use macniri.Session.Lock.{all_locked, finish_lock, unlock}

pub data Backend : Type 0 where
  winit headless : Backend

-- `Winit::render`. The framebuffer of the window is taken to bind: the source panics if it does not. A
-- failed rendering counts as submitted.
abbrev pub winit_render : OutputState → Option (OutputState × RenderResult)
winit_render s = some (s, submitted)

-- `Headless::render` panics unless the state is exactly `Queued`.
abbrev pub headless_render : OutputState → Option (OutputState × RenderResult)
headless_render s = elim s.redraw_state [
  | RedrawState.queued ↦ some (
    record s {
      redraw_state = RedrawState.idle;
      frame_callback_sequence = (s.frame_callback_sequence + 1) % 2 ^ 32;
    },
    submitted,
  )
  | _ ↦ none
]

-- `Backend::render`.
unfoldable pub backend_render : Backend → OutputState → Option (OutputState × RenderResult)
backend_render winit s = winit_render s
backend_render headless s = headless_render s

-- While the monitors are off nothing is rendered.
unfoldable pub render_output :
    Backend → (animating active : Bool) → OutputState → Option (OutputState × RenderResult)
unfolding backend_render
render_output b animating true s =
    backend_render b (record s { unfinished_animations_remain = animating })
render_output b animating false s = some (s, skipped)

abbrev was_skipped : RenderResult → Bool
was_skipped skipped = true
was_skipped submitted = false
was_skipped no_damage = false

abbrev after_skip : RedrawState → RedrawState
after_skip (RedrawState.waiting_for_estimated_vblank token) =
    RedrawState.waiting_for_estimated_vblank token
after_skip (RedrawState.waiting_for_estimated_vblank_and_queued token) =
    RedrawState.waiting_for_estimated_vblank token
after_skip other = RedrawState.idle

-- The states of an output after the backend has rendered it, with result `res`.
unfoldable pub after_render : (locked active : Bool) → RenderResult → OutputState → OutputState
after_render locked active res s = record s {
  redraw_state = if was_skipped res then after_skip s.redraw_state else RedrawState.idle;
  lock_render_state =
      if not (was_skipped res) || not active
      then if locked then LockRenderState.locked_frame else LockRenderState.session_frame
      else s.lock_render_state;
}

-- Whether the lock can be confirmed now; a locked frame that could not be shown ends the lock.
unfoldable pub check_lock : LockRenderState → Niri → Niri
unfolding all_locked finish_lock unlock is_locked_frame
check_lock shown n = elim n.lock_state [
  | locking c ↦
      (if is_locked_frame shown then if all_locked n then finish_lock c n else n else unlock n)
  | _ ↦ n
]

abbrev pub finish_redraw : ℕ → Niri → Option (OutputState × RenderResult) → Option Niri
finish_redraw output n none = none
finish_redraw output n (some (s, res)) =
    let s' = after_render (is_locked n.lock_state) n.monitors_active res s in
    some (
      check_lock s'.lock_render_state
        (record n { output_state = adjust output (λ _. s') n.output_state }))

-- `none` is a panic: the output is not tracked or not queued, or the backend panics.
unfoldable pub redraw : Backend → Bool → ℕ → Niri → Option Niri
unfolding is_queued render_output
redraw b animating output n = elim (get output n.output_state) [
  | none ↦ none
  | some s ↦
      (if is_queued s.redraw_state
        then finish_redraw output n (render_output b animating n.monitors_active s)
        else none)
]

unfoldable pub find_queued : List (ℕ × OutputState) → Option ℕ
unfolding is_queued
find_queued [] = none
find_queued ((o, s) ∷ rest) = if is_queued s.redraw_state then some o else find_queued rest

pub data Run : Type 0 where
  done : Niri → Run
  panicked out_of_fuel : Run

-- The `while let` loop. `animating` says which outputs have animations left.
unfoldable pub redraw_queued_outputs : ℕ → Backend → (ℕ → Bool) → Niri → Run
unfolding find_queued redraw
redraw_queued_outputs zero b animating n = out_of_fuel
redraw_queued_outputs (suc fuel) b animating n = elim (find_queued n.output_state) [
  | none ↦ done n
  | some output ↦ elim (redraw b (animating output) output n) [
    | none ↦ panicked
    | some n' ↦ redraw_queued_outputs fuel b animating n'
  ]
]
