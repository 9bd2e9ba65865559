-- ===== src/Monitor/Switch.antt =====
-- The switch between workspaces, `WorkspaceSwitch` of src/layout/monitor.rs.
use macniri.Base.{ℕ, ◌+◌, Bool, Option, none, some, ◌==◌, if◌then◌else◌, is_some}
use macniri.Monitor.Types.{Motion, Gesture, WorkspaceSwitch, gesture, animation}

module _ {f : Motion} where
  unfoldable pub current_idx : WorkspaceSwitch f → f.F
  current_idx (animation a) = elim (f.correction a) [ some x ↦ x | none ↦ f.animation_value a ]
  current_idx (gesture g) = elim g.animation [
    | none ↦ g.current_idx
    | some a ↦ f.add g.current_idx (f.animation_value a)
  ]

  unfoldable pub target_idx : WorkspaceSwitch f → f.F
  target_idx (animation a) = f.animation_to a
  target_idx (gesture g) = g.current_idx

  -- `offset(1)`.
  unfoldable pub offset_by_one : WorkspaceSwitch f → WorkspaceSwitch f
  offset_by_one (animation a) = animation (f.animation_offset (f.of_ℕ 1) a)
  offset_by_one (gesture g) = gesture (record g {
    center_idx = g.center_idx + 1;
    start_idx = f.add g.start_idx (f.of_ℕ 1);
    current_idx = f.add g.current_idx (f.of_ℕ 1);
  })

  abbrev pub is_dnd_scroll : Gesture f → Bool
  is_dnd_scroll g = is_some g.dnd_last_event_time

  -- The drag-and-drop branch of `activate_workspace`: the gesture goes on around `idx`.
  unfoldable pub recenter : ℕ → Gesture f → Gesture f
  recenter idx g =
      let current_pos = f.sub g.current_idx g.start_idx in
      let delta = f.sub (f.of_ℕ idx) g.current_idx in
      let from = f.sub (f.of_ℕ 0) delta in
      let extra : f.F = elim g.animation [ none ↦ f.of_ℕ 0 | some a ↦ f.animation_value a ] in
      record g {
        center_idx = idx;
        start_idx = f.sub (f.of_ℕ idx) current_pos;
        current_idx = f.of_ℕ idx;
        animation = some (f.animation_new (f.add from extra) (f.of_ℕ 0));
      }

  -- The switch after the active workspace went from `prev` to `idx`.
  abbrev pub start_switch : f.F → ℕ → ℕ → Option (WorkspaceSwitch f) → Option (WorkspaceSwitch f)
  start_switch from prev idx switch =
      if prev == idx then switch else some (animation (f.animation_new from (f.of_ℕ idx)))

  unfoldable pub next_switch : f.F → ℕ → ℕ → Option (WorkspaceSwitch f) → Option (WorkspaceSwitch f)
  unfolding recenter
  next_switch from prev idx none = start_switch from prev idx none
  next_switch from prev idx (some (animation a)) = start_switch from prev idx (some (animation a))
  next_switch from prev idx (some (gesture g)) =
      if is_dnd_scroll g
      then some (gesture (recenter idx g))
      else start_switch from prev idx (some (gesture g))

  -- The switch after an insertion at `idx`.
  abbrev pub shift_switch : ℕ → Option (WorkspaceSwitch f) → Option (WorkspaceSwitch f)
  shift_switch idx none = none
  shift_switch idx (some switch) =
      some (if f.le (f.of_ℕ idx) (target_idx switch) then offset_by_one switch else switch)
