-- ===== src/Monitor/Switching.antt =====
-- The commands of src/layout/monitor.rs that switch between workspaces.
use macniri.Base.{ℕ, ◌+◌, ◌-◌, Option, none, some, min, ◌==◌, length, position, if◌then◌else◌}
use macniri.Monitor.Types.{Space, Motion, WorkspaceSwitch, Monitor, animation, gesture}
use macniri.Monitor.Switch.{is_dnd_scroll}
use macniri.Monitor.Defs.{activate_workspace}

module _ {f : Motion} where
  -- The target of a switch: a drag-and-drop scroll starts from the workspace in view.
  abbrev pub target_of : (f.F → ℕ) → ℕ → Option (WorkspaceSwitch f) → ℕ
  target_of from_view plain none = plain
  target_of from_view plain (some (animation a)) = plain
  target_of from_view plain (some (gesture g)) =
      if is_dnd_scroll g then from_view g.current_idx else plain

module _ {s : Space} {f : Motion} where
  unfoldable pub switch_workspace_up : Monitor s f → Option (Monitor s f)
  switch_workspace_up m =
      activate_workspace
        (target_of
          (λ current. f.clamp_index (f.sub (f.ceil current) (f.of_ℕ 1)) (length m.workspaces))
          (m.active_workspace_idx - 1) m.workspace_switch)
        m

  unfoldable pub switch_workspace_down : Monitor s f → Option (Monitor s f)
  switch_workspace_down m =
      activate_workspace
        (target_of
          (λ current. f.clamp_index (f.add (f.floor current) (f.of_ℕ 1)) (length m.workspaces))
          (min (m.active_workspace_idx + 1) (length m.workspaces - 1)) m.workspace_switch)
        m

  unfoldable pub previous_workspace_idx : Monitor s f → Option ℕ
  previous_workspace_idx m = elim m.previous_workspace_id [
    | none ↦ none
    | some id ↦ position (λ w. w.id == id) m.workspaces
  ]

  unfoldable pub switch_workspace : ℕ → Monitor s f → Option (Monitor s f)
  switch_workspace idx m = activate_workspace (min idx (length m.workspaces - 1)) m

  unfoldable pub switch_workspace_previous : Monitor s f → Option (Monitor s f)
  unfolding previous_workspace_idx switch_workspace
  switch_workspace_previous m = elim (previous_workspace_idx m) [
    | none ↦ some m
    | some idx ↦ switch_workspace idx m
  ]

  unfoldable pub switch_workspace_auto_back_and_forth : ℕ → Monitor s f → Option (Monitor s f)
  unfolding switch_workspace_previous switch_workspace
  switch_workspace_auto_back_and_forth idx m =
      if min idx (length m.workspaces - 1) == m.active_workspace_idx
      then switch_workspace_previous m
      else switch_workspace (min idx (length m.workspaces - 1)) m
