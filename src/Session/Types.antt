-- ===== src/Session/Types.antt =====
-- The state of src/niri.rs that locking and redrawing read and write.
use Prim.Native.Nat.{ℕ}
use mathlib.Core.Bool.{Bool, true, false}
use mathlib.Core.Option.{Option}
use mathlib.Core.List.{List}

pub data RedrawState : Type 0 where
  idle queued : RedrawState
  waiting_for_vblank : Bool → RedrawState
  waiting_for_estimated_vblank : ℕ → RedrawState
  waiting_for_estimated_vblank_and_queued : ℕ → RedrawState

-- What the last frame of an output showed.
pub data LockRenderState : Type 0 where
  session_frame locked_frame : LockRenderState

-- A lock object of ext-session-lock, with the client that owns it.
pub record SessionLocker : Type 0 where
  pub id : ℕ
  pub client : ℕ

pub record LockSurface : Type 0 where
  pub client : ℕ
  pub is_mapped : Bool

pub data LockState : Type 0 where
  unlocked : LockState
  waiting_for_surfaces : SessionLocker → ℕ → LockState
  locking locked : SessionLocker → LockState

pub record OutputState : Type 0 where
  pub redraw_state : RedrawState
  pub unfinished_animations_remain : Bool
  pub frame_callback_sequence : ℕ
  pub lock_render_state : LockRenderState
  pub lock_surface : Option LockSurface

-- What the code asks of the event loop and of the lock's client.
pub data Effect : Type 0 where
  insert_timer remove_timer : ℕ → Effect
  confirm : SessionLocker → Effect

-- The newest effect stands first.
pub record Niri : Type 0 where
  pub output_state : List (ℕ × OutputState)
  pub lock_state : LockState
  pub monitors_active : Bool
  pub effects : List Effect

pub data RenderResult : Type 0 where
  submitted no_damage skipped : RenderResult

-- `RedrawState::queue_redraw`.
unfoldable pub queue_redraw_state : RedrawState → RedrawState
queue_redraw_state RedrawState.idle = RedrawState.queued
queue_redraw_state (RedrawState.waiting_for_estimated_vblank token) =
    RedrawState.waiting_for_estimated_vblank_and_queued token
queue_redraw_state RedrawState.queued = RedrawState.queued
queue_redraw_state (RedrawState.waiting_for_estimated_vblank_and_queued token) =
    RedrawState.waiting_for_estimated_vblank_and_queued token
queue_redraw_state (RedrawState.waiting_for_vblank needed) = RedrawState.waiting_for_vblank true

-- The states in which `redraw_queued_outputs` picks an output.
unfoldable pub is_queued : RedrawState → Bool
is_queued RedrawState.queued = true
is_queued (RedrawState.waiting_for_estimated_vblank_and_queued token) = true
is_queued other = false

unfoldable pub is_locked_frame : LockRenderState → Bool
is_locked_frame LockRenderState.locked_frame = true
is_locked_frame LockRenderState.session_frame = false

-- `Niri::is_locked`.
unfoldable pub is_locked : LockState → Bool
is_locked LockState.unlocked = false
is_locked (LockState.waiting_for_surfaces confirmation token) = false
is_locked (LockState.locking confirmation) = true
is_locked (LockState.locked lock) = true
