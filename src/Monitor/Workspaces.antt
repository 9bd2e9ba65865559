-- ===== src/Monitor/Workspaces.antt =====
-- What src/layout/monitor.rs uses of src/layout/workspace.rs, and the clean-up of empty workspaces.
use macniri.Base.{
  ℕ, zero, suc, ◌+◌, ◌-◌, Bool, true, false, ◌||◌, Option, none, some, List, [], ◌∷◌, ◌==◌, ltb,
  if◌then◌else◌, get_elem?, erase_idx, is_some, ◌===◌, nat_eq, option_eq,
}
use macniri.Monitor.Types.{Space, Workspace}

abbrev pub range_start : Bool → ℕ
range_start above = if above then 1 else 0

module _ {s : Space} where
  abbrev pub has_windows : Workspace s → Bool
  has_windows w = s.has_windows w.content

  abbrev pub has_windows_or_name : Workspace s → Bool
  has_windows_or_name w = s.has_windows w.content || is_some w.name

  -- A workspace that enters an output takes its size, and the current form of its identity. The
  -- notices to the windows are not modelled.
  abbrev enter_output : ℕ → Workspace s → Workspace s
  enter_output o w = record w {
    output = some o;
    original_output = if s.matches w.original_output o then s.output_id o else w.original_output;
    content = s.update w.content;
  }

  unfoldable pub set_output : Option ℕ → Workspace s → Workspace s
  set_output none w = record w { output = none }
  set_output (some o) w = if w.output === some o then w else enter_output o w

  -- The options that the source passes on reach the windows and the decorations, through `update`; what
  -- they are plays no part here.
  unfoldable pub update_config : Workspace s → Workspace s
  update_config w = record w { content = s.update w.content }

  unfoldable pub unname : Workspace s → Workspace s
  unname w = record w { name = none }

  -- One round of the clean-up loop.
  unfoldable pub clean_at : ℕ → List (Workspace s) × ℕ → List (Workspace s) × ℕ
  clean_at idx (ws, active) = if active == idx then (ws, active) else elim (get_elem? ws idx) [
    | none ↦ (ws, active)
    | some w ↦
        (if has_windows_or_name w
          then (ws, active)
          else (erase_idx idx ws, if ltb idx active then active - 1 else active))
  ]

  -- `for idx in (start..start + count).rev()`.
  unfoldable pub clean_loop : ℕ → ℕ → List (Workspace s) × ℕ → List (Workspace s) × ℕ
  unfolding clean_at
  clean_loop start zero st = st
  clean_loop start (suc count) st = clean_loop start count (clean_at (start + count) st)

  -- With only the two empty workspaces left, the second is dropped.
  unfoldable pub drop_second : Bool → List (Workspace s) × ℕ → Option (List (Workspace s) × ℕ)
  drop_second true (w0 ∷ w1 ∷ [], active) =
      if has_windows_or_name w0 || has_windows_or_name w1 then none else some (w0 ∷ [], 0)
  drop_second true st = some st
  drop_second false st = some st
