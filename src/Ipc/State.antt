-- ===== src/Ipc/State.antt =====
-- `replicate` and `apply` of niri-ipc/src/state.rs. `none` is a panic of `expect`; beside the new state
-- stands the event, if this part of the state ignores it.
use macniri.Base.{
  ℕ, Bool, true, false, Option, none, some, List, [], ◌∷◌, ◌++◌, ◌==◌, ◌===◌, option_eq, string_eq,
  nat_eq, if◌then◌else◌, get, put, delete, adjust, map_values, values, change_first, ◌>>=◌,
}
use Prim.Native.String.{String}
use macniri.Ipc.Types.{
  Window, Workspace, KeyboardLayouts, Event, EventStreamState, workspaces_changed,
  workspace_urgency_changed, workspace_activated, workspace_active_window_changed, windows_changed,
  window_opened_or_changed, window_closed, window_focus_changed, window_focus_timestamp_changed,
  window_urgency_changed, window_layouts_changed, keyboard_layouts_changed,
  keyboard_layout_switched, overview_opened_or_closed, config_loaded,
}

-- `into_iter().map(|v| (v.id, v)).collect()`, on top of a map.
abbrev pub collect_onto {ℓ} : {V : Type ℓ} → (V → ℕ) → List (ℕ × V) → List V → List (ℕ × V)
collect_onto id m [] = m
collect_onto id m (v ∷ vs) = collect_onto id (put (id v) v m) vs

-- What becomes of a workspace when the workspace `id` of an output is activated.
abbrev pub activate_on : ℕ → Option String → Bool → Workspace → Workspace
activate_on id output focused w = record w {
  is_active = if w.output === output then w.id == id else w.is_active;
  is_focused = if focused then w.id == id else w.is_focused;
}

module _ {L : Type 0} where
  -- `WorkspacesState::apply`.
  unfoldable pub apply_workspaces :
      Event L → List (ℕ × Workspace) → Option (List (ℕ × Workspace) × Option (Event L))
  apply_workspaces (workspaces_changed ws) m = some (collect_onto (λ w. w.id) [] ws, none)
  apply_workspaces (workspace_urgency_changed id urgent) m =
      some (map_values (λ w. if w.id == id then record w { is_urgent = urgent } else w) m, none)
  apply_workspaces (workspace_activated id focused) m = elim (get id m) [
    | none ↦ none
    | some w ↦ some (map_values (activate_on id w.output focused) m, none)
  ]
  apply_workspaces (workspace_active_window_changed id active) m = elim (get id m) [
    | none ↦ none
    | some w ↦ some (adjust id (λ w. record w { active_window_id = active }) m, none)
  ]
  apply_workspaces event m = some (m, some event)

  -- The window that has taken the focus takes it from the others.
  abbrev pub unfocus_others : ℕ → Window L → Window L
  unfocus_others id w = if w.id == id then w else record w { is_focused = false }

  abbrev pub settle_focus : Bool → ℕ → List (ℕ × Window L) → List (ℕ × Window L)
  settle_focus true id m = map_values (unfocus_others id) m
  settle_focus false id m = m

  abbrev pub change_layouts : List (ℕ × L) → List (ℕ × Window L) → Option (List (ℕ × Window L))
  change_layouts [] m = some m
  change_layouts ((id, update) ∷ changes) m = elim (get id m) [
    | none ↦ none
    | some w ↦ change_layouts changes (adjust id (λ w. record w { layout = update }) m)
  ]

  -- `WindowsState::apply`.
  unfoldable pub apply_windows :
      Event L → List (ℕ × Window L) → Option (List (ℕ × Window L) × Option (Event L))
  apply_windows (windows_changed ws) m = some (collect_onto (λ w. w.id) [] ws, none)
  apply_windows (window_opened_or_changed w) m =
      some (settle_focus w.is_focused w.id (put w.id w m), none)
  apply_windows (window_closed id) m = elim (get id m) [
    | none ↦ none
    | some w ↦ some (delete id m, none)
  ]
  apply_windows (window_focus_changed id) m =
      some (map_values (λ w. record w { is_focused = some w.id === id }) m, none)
  apply_windows (window_focus_timestamp_changed id t) m =
      some (change_first (λ w. w.id == id) (λ w. record w { focus_timestamp = t }) m, none)
  apply_windows (window_urgency_changed id urgent) m =
      some (change_first (λ w. w.id == id) (λ w. record w { is_urgent = urgent }) m, none)
  apply_windows (window_layouts_changed changes) m = do
    m' ← change_layouts changes m
    some (m', none)
  apply_windows event m = some (m, some event)

  -- `KeyboardLayoutsState::apply`.
  unfoldable pub apply_keyboard_layouts :
      Event L → Option KeyboardLayouts → Option (Option KeyboardLayouts × Option (Event L))
  apply_keyboard_layouts (keyboard_layouts_changed kb) m = some (some kb, none)
  apply_keyboard_layouts (keyboard_layout_switched idx) (some kb) =
      some (some (record kb { current_idx = idx }), none)
  apply_keyboard_layouts (keyboard_layout_switched idx) none = none
  apply_keyboard_layouts event m = some (m, some event)

  -- `OverviewState::apply` and `ConfigState::apply`.
  unfoldable pub apply_overview : Event L → Bool → Bool × Option (Event L)
  apply_overview (overview_opened_or_closed is_open) m = (is_open, none)
  apply_overview event m = (m, some event)

  unfoldable pub apply_config : Event L → Bool → Bool × Option (Event L)
  apply_config (config_loaded failed) m = (failed, none)
  apply_config event m = (m, some event)

  -- The `?` between two parts: an event that one part has taken goes no further.
  abbrev pub pass :
      Option (Event L)
      → EventStreamState L
      → (Event L → Option (EventStreamState L × Option (Event L)))
      → Option (EventStreamState L × Option (Event L))
  pass none s next = some (s, none)
  pass (some event) s next = next event

  -- `EventStreamState::apply`.
  unfoldable pub apply :
      Event L → EventStreamState L → Option (EventStreamState L × Option (Event L))
  unfolding apply_workspaces apply_windows apply_keyboard_layouts apply_overview apply_config
  apply event s = do
    (ws, rest1) ← apply_workspaces event s.workspaces
    let s1 : EventStreamState L = record s { workspaces = ws }
    pass rest1 s1 (λ event1. do
      (wins, rest2) ← apply_windows event1 s.windows
      let s2 : EventStreamState L = record s1 { windows = wins }
      pass rest2 s2 (λ event2. do
        (kb, rest3) ← apply_keyboard_layouts event2 s.keyboard_layouts
        let s3 : EventStreamState L = record s2 { keyboard_layouts = kb }
        pass rest3 s3 (λ event3.
            let (is_open, rest4) = apply_overview event3 s.is_open in
            let s4 : EventStreamState L = record s3 { is_open = is_open } in
            pass rest4 s4 (λ event4.
              let (failed, rest5) = apply_config event4 s.failed in
              some (record s4 { failed = failed }, rest5)))))

  -- `Default::default()`.
  abbrev pub default_state : EventStreamState L
  default_state = record {
    workspaces = [];
    windows = [];
    keyboard_layouts = none;
    is_open = false;
    failed = false;
  }

  abbrev pub replicate_keyboard_layouts : Option KeyboardLayouts → List (Event L)
  replicate_keyboard_layouts none = []
  replicate_keyboard_layouts (some kb) = keyboard_layouts_changed kb ∷ []

  -- `EventStreamState::replicate`.
  unfoldable pub replicate : EventStreamState L → List (Event L)
  replicate s =
      workspaces_changed (values s.workspaces)
      ∷ windows_changed (values s.windows)
      ∷ (replicate_keyboard_layouts s.keyboard_layouts
          ++ (overview_opened_or_closed s.is_open ∷ config_loaded s.failed ∷ []))

  -- A client that passes every event to `apply`.
  unfoldable pub apply_all : List (Event L) → EventStreamState L → Option (EventStreamState L)
  unfolding apply
  apply_all [] s = some s
  apply_all (event ∷ events) s = elim (apply event s) [
    | none ↦ none
    | some (s', rest) ↦ apply_all events s'
  ]
