-- ===== src/Layout/Types.antt =====
-- The state of src/layout/mod.rs: the monitors and, while there is none, the workspaces. Interactive
-- moves, drag and drop, the overview and the options are not modelled.
use macniri.Base.{All, ℕ, ◌<◌, ◌≡◌, true, List, length}
use macniri.Monitor.Types.{Space, Motion, Workspace, Monitor}
use macniri.Monitor.Workspaces.{has_windows_or_name}
use macniri.Monitor.Invariant.{IsValid}

pub data MonitorSet (s : Space) (f : Motion) : Type 0 where
  normal : (monitors : List (Monitor s f)) → (primary_idx active_monitor_idx : ℕ) → MonitorSet s f
  no_outputs : List (Workspace s) → MonitorSet s f

-- `last_active_workspace_id` goes by the name of an output. `next_id` is the global counter of
-- workspace ids, which a monitor takes along for each of its operations.
pub record Layout (s : Space) (f : Motion) : Type 0 where
  pub monitor_set : MonitorSet s f
  pub last_active_workspace_id : List (ℕ × ℕ)
  pub next_id : ℕ

module _ {s : Space} where
  abbrev pub IsUsed : Workspace s → Type 0
  IsUsed w = has_windows_or_name w ≡ true

module _ {s : Space} {f : Motion} where
  -- Every monitor is valid and both indices are in range; without outputs no workspace is empty and
  -- unnamed.
  abbrev pub IsSoundSet : MonitorSet s f → Type 0
  IsSoundSet (normal ms primary active) =
      (primary < length ms) × (active < length ms) × All IsValid ms
  IsSoundSet (no_outputs ws) = All IsUsed ws

  abbrev pub IsSoundLayout : Layout s f → Type 0
  IsSoundLayout l = IsSoundSet l.monitor_set

  -- A monitor with the current counter of workspace ids.
  abbrev pub with_counter : ℕ → Monitor s f → Monitor s f
  with_counter n m = record m { next_id = n }
