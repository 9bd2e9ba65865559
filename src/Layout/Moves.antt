-- ===== src/Layout/Moves.antt =====
-- What src/layout/mod.rs does with workspaces across monitors: the move of one to another output, the
-- focus of an output. `none` is a panic.
use macniri.Base.{
  ℕ, ◌+◌, Bool, false, ◌&&◌, Option, none, some, List, ◌==◌, if◌then◌else◌, get_elem?, set,
  position, ◌>>=◌,
}
use macniri.Monitor.Types.{Space, Motion, Workspace, Monitor}
use macniri.Monitor.Moves.{remove_workspace_by_idx, insert_workspace}
use macniri.Layout.Types.{normal, no_outputs, Layout, with_counter}

module _ {s : Space} where
  abbrev pub with_original : ℕ → Workspace s → Workspace s
  with_original output w = record w { original_output = s.output_id output }

module _ {s : Space} {f : Motion} where
  unfoldable pub focus_output : ℕ → Layout s f → Layout s f
  focus_output output l = elim l.monitor_set [
    | no_outputs ws ↦ l
    | normal ms primary active ↦ elim (position (λ m. m.output == output) ms) [
      | none ↦ l
      | some idx ↦ record l { monitor_set = normal ms primary idx }
    ]
  ]

  -- The workspace leaves the monitor at `current` and goes below the active one of the monitor at
  -- `target`.
  unfoldable pub carry :
      (old_idx current target : ℕ)
      → Bool
      → ℕ
      → ℕ
      → List (Monitor s f)
      → Option (List (Monitor s f) × ℕ)
  unfolding remove_workspace_by_idx insert_workspace
  carry old_idx current target activate new_output counter ms = do
    from ← get_elem? ms current
    (w, from') ← remove_workspace_by_idx old_idx (with_counter counter from)
    let ms' = set ms current from'
    to ← get_elem? ms' target
    to' ←
        insert_workspace (with_original new_output w) (to.active_workspace_idx + 1) activate
          (with_counter from'.next_id to)
    some (set ms' target to', to'.next_id)

  -- The monitor that the workspace is on: the given one, or the active one.
  abbrev pub source_idx : Option ℕ → ℕ → List (Monitor s f) → Option ℕ
  source_idx none active ms = some active
  source_idx (some output) active ms = position (λ m. m.output == output) ms

  abbrev pub move_between :
      (old_idx current target new_output : ℕ)
      → Layout s f
      → (primary active : ℕ) → List (Monitor s f)
      → Option (Bool × Layout s f)
  move_between old_idx current target new_output l primary active ms = elim (get_elem? ms current) [
    | none ↦ none
    | some m ↦ elim (get_elem? m.workspaces old_idx) [
      | none ↦ some (false, l)
      | some w ↦
          if current == target
          then some (
            false,
            record l {
              monitor_set =
                  normal
                    (set ms current (record m {
                      workspaces = set m.workspaces old_idx (with_original m.output w);
                    }))
                    primary active;
            },
          )
          else (let activate = current == active && old_idx == m.active_workspace_idx in
              carry old_idx current target activate new_output l.next_id ms >>= λ r. some (
                activate,
                record l {
                  monitor_set = normal r.0 primary (if activate then target else active);
                  next_id = r.1;
                },
              ))
    ]
  ]

  unfoldable pub move_workspace_to_output_by_id :
      ℕ → Option ℕ → ℕ → Layout s f → Option (Bool × Layout s f)
  unfolding carry
  move_workspace_to_output_by_id old_idx old_output new_output l = elim l.monitor_set [
    | no_outputs ws ↦ some (false, l)
    | normal ms primary active ↦ do
      current ← source_idx old_output active ms
      target ← position (λ m. m.output == new_output) ms
      move_between old_idx current target new_output l primary active ms
  ]

  unfoldable pub move_workspace_to_output : ℕ → Layout s f → Option (Bool × Layout s f)
  unfolding move_workspace_to_output_by_id
  move_workspace_to_output output l = elim l.monitor_set [
    | no_outputs ws ↦ some (false, l)
    | normal ms primary active ↦ elim (get_elem? ms active) [
      | none ↦ none
      | some m ↦ move_workspace_to_output_by_id m.active_workspace_idx none output l
    ]
  ]
