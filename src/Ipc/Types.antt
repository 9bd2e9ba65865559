-- ===== src/Ipc/Types.antt =====
-- The data of the event stream, niri-ipc/src/lib.rs. `L` stands for `WindowLayout`, which holds
-- floating-point sizes and is only passed on. A process id is a number that is only passed on.
use Prim.Native.String.{String}
use macniri.Base.{ℕ, Bool, Option, List}

pub record Timestamp : Type 0 where
  pub secs : ℕ
  pub nanos : ℕ

pub record Window (L : Type 0) : Type 0 where
  pub id : ℕ
  pub title : Option String
  pub app_id : Option String
  pub pid : Option ℕ
  pub workspace_id : Option ℕ
  pub is_focused : Bool
  pub is_floating : Bool
  pub is_urgent : Bool
  pub layout : L
  pub focus_timestamp : Option Timestamp

pub record Workspace : Type 0 where
  pub id : ℕ
  pub idx : ℕ
  pub name : Option String
  pub output : Option String
  pub is_urgent : Bool
  pub is_active : Bool
  pub is_focused : Bool
  pub active_window_id : Option ℕ

pub record KeyboardLayouts : Type 0 where
  pub names : List String
  pub current_idx : ℕ

pub data Event (L : Type 0) : Type 0 where
  workspaces_changed : List Workspace → Event L
  workspace_urgency_changed : ℕ → Bool → Event L
  workspace_activated : (id : ℕ) → (focused : Bool) → Event L
  workspace_active_window_changed : (workspace_id : ℕ) → (active_window_id : Option ℕ) → Event L
  windows_changed : List (Window L) → Event L
  window_opened_or_changed : Window L → Event L
  window_closed : ℕ → Event L
  window_focus_changed : Option ℕ → Event L
  window_focus_timestamp_changed : ℕ → Option Timestamp → Event L
  window_urgency_changed : ℕ → Bool → Event L
  window_layouts_changed : List (ℕ × L) → Event L
  keyboard_layouts_changed : KeyboardLayouts → Event L
  keyboard_layout_switched : ℕ → Event L
  overview_opened_or_closed : Bool → Event L
  config_loaded : Bool → Event L
  screenshot_captured : Option String → Event L

-- The five parts of the state. The two maps are keyed by id.
pub record EventStreamState (L : Type 0) : Type 0 where
  pub workspaces : List (ℕ × Workspace)
  pub windows : List (ℕ × Window L)
  pub keyboard_layouts : Option KeyboardLayouts
  pub is_open : Bool
  pub failed : Bool
