-- ===== src/Monitor/Types.antt =====
-- The state of src/layout/monitor.rs and what it takes from other modules.
use macniri.Base.{ℕ, ◌<◌, ◌≡◌, Bool, true, false, Option, List}
use Prim.Native.String.{String}

-- `WorkspaceAddWindowTarget` and `ActivateWindow`.
pub data AddTarget : Type 0 where
  auto : AddTarget
  new_column_at next_to : ℕ → AddTarget

pub data ActivateWindow : Type 0 where
  activate_yes activate_smart activate_no : ActivateWindow

-- The windows of a workspace: the scrolling and the floating space of src/layout/workspace.rs, with
-- what a monitor asks of them, and the identity of outputs: that of an output belongs to it.
pub record Space : Type 1 where
  pub OutputId : Type 0
  pub output_id : ℕ → OutputId
  pub output_name : ℕ → ℕ
  pub matches : OutputId → ℕ → Bool
  pub matches_lem : (output : ℕ) → matches (output_id output) output ≡ true
  pub Content : Type 0
  pub Tile : Type 0
  pub empty : Content
  pub has_windows : Content → Bool
  pub has_window : ℕ → Content → Bool
  pub update : Content → Content
  pub add_tile : Tile → AddTarget → ActivateWindow → Content → Content
  pub remove_active_tile : Content → Option (Tile × Content)
  pub empty_lem : has_windows empty ≡ false
  pub update_lem : (c : Content) → has_windows (update c) ≡ has_windows c
  pub add_tile_lem :
      (t : Tile) (target : AddTarget) (a : ActivateWindow) (c : Content)
      → has_windows (add_tile t target a c) ≡ true

-- Floating point numbers and animations. `correction` is the render index that `workspace_render_idx`
-- computes while the overview animates in step with the switch; `clamp_index x n` is
-- `x.clamp(0., (n - 1) as f64) as usize`.
pub record Motion : Type 1 where
  pub F : Type 0
  pub Anim : Type 0
  pub of_ℕ : ℕ → F
  pub add : F → F → F
  pub sub : F → F → F
  pub le : F → F → Bool
  pub animation_new : F → F → Anim
  pub animation_to : Anim → F
  pub animation_value : Anim → F
  pub animation_offset : F → Anim → Anim
  pub animation_is_done : Anim → Bool
  pub correction : Anim → Option F
  pub ceil : F → F
  pub floor : F → F
  pub clamp_index : F → ℕ → ℕ
  pub clamp_index_lem : (x : F) (n : ℕ) → 0 < n → clamp_index x n < n

-- `WorkspaceSwitchGesture`. Its swipe tracker is not modelled.
pub record Gesture (f : Motion) : Type 0 where
  pub center_idx : ℕ
  pub start_idx : f.F
  pub current_idx : f.F
  pub animation : Option f.Anim
  pub is_touchpad : Bool
  pub is_clamped : Bool
  pub dnd_last_event_time : Option ℕ
  pub dnd_nonzero_start_time : Option ℕ

pub data WorkspaceSwitch (f : Motion) : Type 0 where
  animation : f.Anim → WorkspaceSwitch f
  gesture : Gesture f → WorkspaceSwitch f

pub record Workspace (s : Space) : Type 0 where
  pub id : ℕ
  pub name : Option String
  pub content : s.Content
  pub output : Option ℕ
  pub original_output : s.OutputId

-- `next_id` is the global counter of workspace ids.
pub record Monitor (s : Space) (f : Motion) : Type 0 where
  pub output : ℕ
  pub workspaces : List (Workspace s)
  pub active_workspace_idx : ℕ
  pub previous_workspace_id : Option ℕ
  pub workspace_switch : Option (WorkspaceSwitch f)
  pub empty_workspace_above_first : Bool
  pub next_id : ℕ
