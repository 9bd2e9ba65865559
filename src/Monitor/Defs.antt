-- ===== src/Monitor/Defs.antt =====
-- The basic operations of src/layout/monitor.rs on its list of workspaces. `none` is a panic: an
-- index out of range, an underflow or a failed assertion. Rendering, hints and configuration are not
-- modelled.
use macniri.Base.{
  ℕ, suc, ◌-◌, not, Option, none, some, List, ◌==◌, ltb, leb, if◌then◌else◌, length, get_elem?,
  insert_at, ◌>>=◌, ◌>>◌, assert, is_some,
}
use macniri.Monitor.Types.{Space, Motion, Workspace, Monitor}
use macniri.Monitor.Switch.{current_idx, next_switch, shift_switch}
use macniri.Monitor.Workspaces.{range_start, clean_loop, drop_second}

module _ {s : Space} {f : Motion} where
  unfoldable pub workspace_render_idx : Monitor s f → f.F
  unfolding current_idx
  workspace_render_idx m = elim m.workspace_switch [
    | none ↦ f.of_ℕ m.active_workspace_idx
    | some switch ↦ current_idx switch
  ]

  -- `Workspace::new`.
  abbrev pub new_workspace : Monitor s f → Workspace s
  new_workspace m = record {
    id = m.next_id;
    name = none;
    content = s.empty;
    output = some m.output;
    original_output = s.output_id m.output;
  }

  -- The monitor with an empty workspace inserted at `idx`.
  abbrev pub with_blank : ℕ → Monitor s f → Monitor s f
  with_blank idx m = record m {
    workspaces = insert_at idx (new_workspace m) m.workspaces;
    next_id = suc m.next_id;
    active_workspace_idx =
        if leb idx m.active_workspace_idx
        then suc m.active_workspace_idx
        else m.active_workspace_idx;
    workspace_switch = shift_switch idx m.workspace_switch;
  }

  unfoldable pub add_workspace_at : ℕ → Monitor s f → Option (Monitor s f)
  add_workspace_at idx m = if ltb (length m.workspaces) idx then none else some (with_blank idx m)

  unfoldable pub add_workspace_top : Monitor s f → Option (Monitor s f)
  unfolding add_workspace_at
  add_workspace_top m = add_workspace_at 0 m

  unfoldable pub add_workspace_bottom : Monitor s f → Option (Monitor s f)
  unfolding add_workspace_at
  add_workspace_bottom m = add_workspace_at (length m.workspaces) m

  abbrev pub enter : ℕ → Option ℕ → Monitor s f → Monitor s f
  enter idx previous m = record m {
    active_workspace_idx = idx;
    previous_workspace_id = previous;
    workspace_switch =
        next_switch (workspace_render_idx m) m.active_workspace_idx idx m.workspace_switch;
  }

  -- `activate_workspace_with_anim_config`. The index itself is not checked.
  unfoldable pub activate_workspace : ℕ → Monitor s f → Option (Monitor s f)
  unfolding workspace_render_idx next_switch
  activate_workspace idx m =
      if m.active_workspace_idx == idx
      then some (enter idx m.previous_workspace_id m)
      else elim (get_elem? m.workspaces m.active_workspace_idx) [
        | none ↦ none
        | some w ↦ some (enter idx (some w.id) m)
      ]

  abbrev pub cleaned : Monitor s f → List (Workspace s) × ℕ
  cleaned m =
      let start = range_start m.empty_workspace_above_first in
      clean_loop start (length m.workspaces - 1 - start) (m.workspaces, m.active_workspace_idx)

  unfoldable pub clean_up_workspaces : Monitor s f → Option (Monitor s f)
  unfolding clean_loop drop_second
  clean_up_workspaces m = do
    assert (not (is_some m.workspace_switch))
    assert (ltb 0 (length m.workspaces))
    (ws, active) ← drop_second m.empty_workspace_above_first (cleaned m)
    some (record m { workspaces = ws; active_workspace_idx = active })
