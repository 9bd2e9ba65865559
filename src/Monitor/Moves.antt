-- ===== src/Monitor/Moves.antt =====
-- The operations of src/layout/monitor.rs that reorder, add and remove whole workspaces.
use macniri.Base.{
  ℕ, suc, ◌+◌, ◌-◌, Bool, true, false, ◌&&◌, Option, none, some, List, [], ◌∷◌, ◌++◌, map, min,
  ◌==◌, ltb, leb, if◌then◌else◌, length, get_elem?, insert_at, erase_idx, swap_at, update_first,
  any_of, filter_by, ◌>>=◌, is_some,
}
use macniri.Monitor.Types.{Space, Motion, Workspace, Monitor}
use macniri.Monitor.Workspaces.{has_windows_or_name, set_output, update_config, unname}
use macniri.Monitor.Defs.{
  add_workspace_top, add_workspace_bottom, activate_workspace, clean_up_workspaces,
}

-- The active index after the workspace at `old_idx` went to `new_idx`.
abbrev pub refocus : ℕ → ℕ → ℕ → ℕ
refocus old_idx new_idx active =
    if active == old_idx
    then new_idx
    else if leb new_idx active && ltb active old_idx
    then active + 1
    else if leb active new_idx && ltb old_idx active
    then active - 1
    else active

module _ {s : Space} {f : Motion} where
  abbrev pub without_switch : Monitor s f → Monitor s f
  without_switch m = record m { workspace_switch = none }

  -- `if idx == len - 1 { add_workspace_bottom() }`.
  abbrev pub bottom_if_last : ℕ → Monitor s f → Option (Monitor s f)
  bottom_if_last idx m = if idx == length m.workspaces - 1 then add_workspace_bottom m else some m

  -- `if empty_workspace_above_first && idx == 0 { add_workspace_top(); target += 1 }`.
  abbrev pub top_if_first : ℕ → ℕ → Monitor s f → Option (ℕ × Monitor s f)
  top_if_first idx target m =
      if m.empty_workspace_above_first && idx == 0
      then add_workspace_top m >>= (λ m'. some (target + 1, m'))
      else some (target, m)

  -- `workspaces.remove(idx)`.
  abbrev pub take_workspace : ℕ → Monitor s f → Option (Workspace s × Monitor s f)
  take_workspace idx m = elim (get_elem? m.workspaces idx) [
    | none ↦ none
    | some w ↦ some (w, record m { workspaces = erase_idx idx m.workspaces })
  ]

  -- The active workspace before the removed one, rather than after it, becomes active.
  abbrev pub step_back : ℕ → Monitor s f → Monitor s f
  step_back idx m = record m {
    active_workspace_idx =
        if leb idx m.active_workspace_idx && ltb 0 m.active_workspace_idx
        then m.active_workspace_idx - 1
        else m.active_workspace_idx;
  }

  unfoldable pub remove_workspace_by_idx : ℕ → Monitor s f → Option (Workspace s × Monitor s f)
  remove_workspace_by_idx idx m = do
    m1 ← bottom_if_last idx m
    (idx', m2) ← top_if_first idx idx m1
    (w, m3) ← take_workspace idx' m2
    m4 ← clean_up_workspaces (without_switch (step_back idx' m3))
    some (set_output none w, m4)

  abbrev pub put_workspace : ℕ → Workspace s → Monitor s f → Option (Monitor s f)
  put_workspace idx w m =
      if ltb (length m.workspaces) idx
      then none
      else some (record m {
        workspaces = insert_at idx w m.workspaces;
        active_workspace_idx =
            if leb idx m.active_workspace_idx
            then suc m.active_workspace_idx
            else m.active_workspace_idx;
      })

  unfoldable pub insert_workspace : Workspace s → ℕ → Bool → Monitor s f → Option (Monitor s f)
  insert_workspace w idx activate m = do
    let idx' = if idx == length m.workspaces then idx - 1 else idx
    (at, m1) ← top_if_first idx' idx' m
    m2 ← put_workspace at (update_config (set_output (some m.output) w)) m1
    m3 ← (if activate then activate_workspace at (without_switch m2) else some m2)
    clean_up_workspaces (without_switch m3)

  -- A new empty workspace above the first, once that is no longer empty.
  abbrev pub top_if_used : List (Workspace s) → Monitor s f → Option (Monitor s f)
  top_if_used [] m = if m.empty_workspace_above_first then none else some m
  top_if_used (w ∷ ws) m =
      if m.empty_workspace_above_first && has_windows_or_name w then add_workspace_top m else some m

  -- The new workspaces stand before the last, empty one.
  unfoldable pub append_workspaces : List (Workspace s) → Monitor s f → Option (Monitor s f)
  append_workspaces [] m = some m
  append_workspaces (w ∷ ws) m = do
    let last = length m.workspaces - 1
    let added = map (λ v. update_config (set_output (some m.output) v)) (w ∷ ws)
    (empty, m1) ← take_workspace last m
    let ws' = m1.workspaces ++ (added ++ (empty ∷ []))
    m2 ← top_if_used ws' (record m1 { workspaces = ws' })
    let m3 =
        if m.active_workspace_idx == last
        then record m2 { active_workspace_idx = length m2.workspaces - 1 }
        else m2
    clean_up_workspaces (without_switch m3)

  -- The end of both moves: the moved workspace stays active, and what was active before is kept.
  abbrev pub settle_move : ℕ → Monitor s f → Option (Monitor s f)
  settle_move new_idx m = do
    m' ← activate_workspace new_idx m
    clean_up_workspaces
        (record m' { workspace_switch = none; previous_workspace_id = m.previous_workspace_id })

  unfoldable pub move_workspace_down : Monitor s f → Option (Monitor s f)
  move_workspace_down m =
      let active = m.active_workspace_idx in
      let new_idx = min (active + 1) (length m.workspaces - 1) in
      if new_idx == active then some m else do
        ws ← swap_at active new_idx m.workspaces
        m1 ← bottom_if_last new_idx (record m { workspaces = ws })
        (new_idx', m2) ← top_if_first m1.active_workspace_idx new_idx m1
        settle_move new_idx' m2

  unfoldable pub move_workspace_up : Monitor s f → Option (Monitor s f)
  move_workspace_up m =
      let active = m.active_workspace_idx in
      let new_idx = active - 1 in
      if new_idx == active then some m else do
        ws ← swap_at active new_idx m.workspaces
        m1 ← bottom_if_last active (record m { workspaces = ws })
        (new_idx', m2) ← top_if_first new_idx new_idx m1
        settle_move new_idx' m2

  unfoldable pub move_workspace_to_idx : ℕ → ℕ → Monitor s f → Option (Monitor s f)
  move_workspace_to_idx old_idx target m =
      if leb (length m.workspaces) old_idx
      then some m
      else (let new_idx = min target (length m.workspaces - 1) in
          if old_idx == new_idx then some m else do
            (w, m1) ← take_workspace old_idx m
            let m2 = record m1 { workspaces = insert_at new_idx w m1.workspaces }
            let down = ltb old_idx new_idx
            m3 ← bottom_if_last (if down then new_idx else old_idx) m2
            (new_idx', m4) ← top_if_first (if down then old_idx else new_idx) new_idx m3
            clean_up_workspaces (record m4 {
              active_workspace_idx = refocus old_idx new_idx' m4.active_workspace_idx;
              workspace_switch = none;
            }))

  unfoldable pub unname_workspace : ℕ → Monitor s f → Option (Bool × Monitor s f)
  unname_workspace id m =
      if any_of (λ w. w.id == id) m.workspaces
      then (let m' = record m { workspaces = update_first (λ w. w.id == id) unname m.workspaces } in
          if is_some m.workspace_switch
          then some (true, m')
          else clean_up_workspaces m' >>= λ m''. some (true, m''))
      else some (false, m)

  unfoldable pub into_workspaces : Monitor s f → List (Workspace s)
  into_workspaces m = map (set_output none) (filter_by has_windows_or_name m.workspaces)
