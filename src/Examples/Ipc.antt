-- ===== src/Examples/Ipc.antt =====
-- Two windows and two workspaces for the functions of niri-ipc/src/state.rs.
use macniri.Base.{ℕ, ◌≡◌, refl, Bool, true, false, none, some, List, [], ◌∷◌, arith}
use macniri.Ipc.Types.{
  Window, Workspace, Event, EventStreamState, workspaces_changed, workspace_activated,
  windows_changed, window_opened_or_changed, overview_opened_or_closed,
}
use macniri.Ipc.State.{
  apply_workspaces, apply_windows, apply_overview, apply, default_state, replicate, apply_all,
}
use macniri.Ipc.Reached.{replicate-apply_all}
use macniri.Ipc.Focus.{IsConsistent, IsConsistentResult, apply_windows-IsConsistentResult}
use macniri.Ipc.Active.{IsExclusive, IsExclusiveResult, apply_workspaces-IsExclusiveResult}

abbrev window_of : ℕ → Bool → Window ℕ
window_of i focused = record {
  id = i;
  title = none;
  app_id = none;
  pid = none;
  workspace_id = some 1;
  is_focused = focused;
  is_floating = false;
  is_urgent = false;
  layout = 0;
  focus_timestamp = none;
}

abbrev workspace_of : ℕ → Bool → Workspace
workspace_of i active = record {
  id = i;
  idx = i;
  name = none;
  output = none;
  is_urgent = false;
  is_active = active;
  is_focused = active;
  active_window_id = none;
}

abbrev events : List (Event ℕ)
events =
    workspaces_changed (workspace_of 1 true ∷ workspace_of 2 false ∷ [])
    ∷ windows_changed (window_of 4 true ∷ [])
    ∷ window_opened_or_changed (window_of 5 true)
    ∷ workspace_activated 2 true
    ∷ overview_opened_or_closed true
    ∷ []

abbrev reached : EventStreamState ℕ
reached = record {
  workspaces = (1, workspace_of 1 false) ∷ (2, workspace_of 2 true) ∷ [];
  windows = (4, window_of 4 false) ∷ (5, window_of 5 true) ∷ [];
  keyboard_layouts = none;
  is_open = true;
  failed = false;
}

events_reach : apply_all events default_state ≡ some reached
unfolding apply_all apply_workspaces apply_windows apply_overview apply
events_reach = refl

replicate-apply_all_example : apply_all (replicate reached) default_state ≡ some reached
replicate-apply_all_example = replicate-apply_all events reached events_reach

windows-IsConsistent : IsConsistent ((4, window_of 4 true) ∷ [])
windows-IsConsistent = record {
  by_id = λ j w e. ground arith;
  one_focused = λ i j w v e d x y. ground arith;
}

apply_windows-IsConsistentResult_example :
    IsConsistentResult
      (apply_windows (window_opened_or_changed (window_of 5 true)) ((4, window_of 4 true) ∷ []))
apply_windows-IsConsistentResult_example =
    apply_windows-IsConsistentResult (window_opened_or_changed (window_of 5 true))
      ((4, window_of 4 true) ∷ []) windows-IsConsistent tt

workspaces-IsExclusive : IsExclusive ((1, workspace_of 1 true) ∷ (2, workspace_of 2 false) ∷ [])
workspaces-IsExclusive = record {
  by_id = λ j w e. ground arith;
  one_active = λ i j w v e d o x y. ground arith;
  one_focused = λ i j w v e d x y. ground arith;
}

apply_workspaces-IsExclusiveResult_example : IsExclusiveResult {L = ℕ} (
    apply_workspaces
      (workspace_activated 2 true)
      ((1, workspace_of 1 true) ∷ (2, workspace_of 2 false) ∷ []))
apply_workspaces-IsExclusiveResult_example =
    apply_workspaces-IsExclusiveResult (workspace_activated 2 true)
      ((1, workspace_of 1 true) ∷ (2, workspace_of 2 false) ∷ []) workspaces-IsExclusive tt
