-- ===== src/Ipc/Reached.antt =====
-- The states that events of niri-ipc/src/state.rs lead to from the default one.
use macniri.Base.{
  ℕ, ◌≡◌, refl, subst, inl, inr, Bool, true, false, Option, none, some, List, [], ◌∷◌, arith, get,
  put, adjust, ◌==◌, if◌then◌else◌, Option-cases, ◌>>=◌,
}
use macniri.Ipc.Types.{
  Window, Workspace, Event, EventStreamState, workspaces_changed, workspace_urgency_changed,
  workspace_activated, workspace_active_window_changed, windows_changed, window_opened_or_changed,
  window_closed, window_focus_changed, window_focus_timestamp_changed, window_urgency_changed,
  window_layouts_changed,
}
use macniri.Ipc.State.{
  activate_on, settle_focus, unfocus_others, change_layouts, apply_workspaces, apply_windows,
  apply_keyboard_layouts, apply_overview, apply_config, apply, default_state, replicate, apply_all,
  pass,
}
use macniri.Ipc.Replicate.{IsKeyed, apply_all-replicate}
use macniri.Ipc.Keyed.{
  IsMap, put-IsMap, collect_onto-IsMap, delete-IsMap, map_values-IsMap, adjust-IsMap,
  change_first-IsMap,
}

abbrev IsWorkspaceMap : List (ℕ × Workspace) → Type 0
IsWorkspaceMap = IsMap (λ w. w.id)

module _ {L : Type 0} where
  abbrev pub IsWindowMap : List (ℕ × Window L) → Type 0
  IsWindowMap = IsMap (λ w. w.id)

  abbrev IsWorkspacesResult : Option (List (ℕ × Workspace) × Option (Event L)) → Type 0
  IsWorkspacesResult none = Unit
  IsWorkspacesResult (some (m, rest)) = IsWorkspaceMap m

  apply_workspaces-IsWorkspacesResult :
      (event : Event L) (m : List (ℕ × Workspace))
      → IsWorkspaceMap m
      → IsWorkspacesResult (apply_workspaces event m)
  unfolding apply_workspaces
  apply_workspaces-IsWorkspacesResult (workspaces_changed ws) m h =
      collect_onto-IsMap (λ w. w.id) ws [] (tt, tt)
  apply_workspaces-IsWorkspacesResult (workspace_urgency_changed id urgent) m h =
      map_values-IsMap (λ w. w.id) (λ w. if w.id == id then record w { is_urgent = urgent } else w)
        (λ v. ground arith) m h
  apply_workspaces-IsWorkspacesResult (workspace_activated id focused) m h =
      elim (Option-cases (get id m)) [
        | inl g ↦ rw (g, apply_workspaces) tt
        | inr (w, g) ↦
            rw (g, apply_workspaces)
              (map_values-IsMap (λ w. w.id) (activate_on id w.output focused) (λ v. refl) m h)
      ]
  apply_workspaces-IsWorkspacesResult (workspace_active_window_changed id active) m h =
      elim (Option-cases (get id m)) [
        | inl g ↦ rw (g, apply_workspaces) tt
        | inr (w, g) ↦
            rw (g, apply_workspaces)
              (adjust-IsMap (λ w. w.id) (λ w. record w { active_window_id = active }) (λ v. refl) id
                m h)
      ]
  apply_workspaces-IsWorkspacesResult _ m h = h

  abbrev pub IsWindowsResult : Option (List (ℕ × Window L) × Option (Event L)) → Type 0
  IsWindowsResult none = Unit
  IsWindowsResult (some (m, rest)) = IsWindowMap m

  settle_focus-IsWindowMap :
      (b : Bool) (id : ℕ) (m : List (ℕ × Window L))
      → IsWindowMap m
      → IsWindowMap (settle_focus b id m)
  settle_focus-IsWindowMap true id m h =
      map_values-IsMap (λ w. w.id) (unfocus_others id) (λ v. ground arith) m h
  settle_focus-IsWindowMap false id m h = h

  change_layouts-IsWindowMap :
      (changes : List (ℕ × L)) (m m' : List (ℕ × Window L))
      → change_layouts changes m ≡ some m'
      → IsWindowMap m
      → IsWindowMap m'
  change_layouts-IsWindowMap [] m m' e h = subst IsWindowMap {x = m} {y = m'} (cc e) h
  change_layouts-IsWindowMap ((id, u) ∷ changes) m m' e h = elim (Option-cases (get id m)) [
    | inl g ↦ absurd (cc (rw (change_layouts, g) at e))
    | inr (w, g) ↦
        change_layouts-IsWindowMap changes (adjust id (λ w. record w { layout = u }) m) m'
          (rw (change_layouts, g) at e)
          (adjust-IsMap (λ w. w.id) (λ w. record w { layout = u }) (λ v. refl) id m h)
  ]

  pub apply_windows-IsWindowsResult :
      (event : Event L) (m : List (ℕ × Window L))
      → IsWindowMap m
      → IsWindowsResult (apply_windows event m)
  unfolding apply_windows
  apply_windows-IsWindowsResult (windows_changed ws) m h =
      collect_onto-IsMap (λ w. w.id) ws [] (tt, tt)
  apply_windows-IsWindowsResult (window_opened_or_changed w) m h =
      settle_focus-IsWindowMap w.is_focused w.id (put w.id w m) (put-IsMap (λ w. w.id) w m h)
  apply_windows-IsWindowsResult (window_closed id) m h = elim (Option-cases (get id m)) [
    | inl g ↦ rw (g, apply_windows) tt
    | inr (w, g) ↦ rw (g, apply_windows) (delete-IsMap (λ w. w.id) id m h)
  ]
  apply_windows-IsWindowsResult (window_focus_changed id) m h =
      map_values-IsMap (λ w. w.id) _ (λ v. refl) m h
  apply_windows-IsWindowsResult (window_focus_timestamp_changed id t) m h =
      change_first-IsMap (λ w. w.id) (λ w. record w { focus_timestamp = t }) (λ v. refl)
        (λ w. w.id == id) m h
  apply_windows-IsWindowsResult (window_urgency_changed id u) m h =
      change_first-IsMap (λ w. w.id) (λ w. record w { is_urgent = u }) (λ v. refl) (λ w. w.id == id)
        m h
  apply_windows-IsWindowsResult (window_layouts_changed changes) m h =
      elim (Option-cases (change_layouts changes m)) [
        | inl g ↦ rw (g, apply_windows) tt
        | inr (m', g) ↦ rw (g, apply_windows) (change_layouts-IsWindowMap changes m m' g h)
      ]
  apply_windows-IsWindowsResult _ m h = h

  -- A step either panics or leaves both maps with one entry for each id.
  abbrev IsKeyedResult : Option (EventStreamState L × Option (Event L)) → Type 0
  IsKeyedResult none = Unit
  IsKeyedResult (some (s, rest)) = IsKeyed s

  maps-IsKeyed :
      (s : EventStreamState L) → IsWorkspaceMap s.workspaces → IsWindowMap s.windows → IsKeyed s
  maps-IsKeyed s ws wins = record {
    workspaces_keyed = ws.0;
    workspaces_distinct = ws.1;
    windows_keyed = wins.0;
    windows_distinct = wins.1;
  }

  bind-IsKeyedResult :
      {A : Type 0} (o : Option A) (next : A → Option (EventStreamState L × Option (Event L)))
      → ((a : A) → o ≡ some a → IsKeyedResult (next a))
      → IsKeyedResult (o >>= next)
  bind-IsKeyedResult none next f = tt
  bind-IsKeyedResult (some a) next f = f a refl

  pass-IsKeyedResult :
      (rest : Option (Event L)) (s : EventStreamState L)
      (next : Event L → Option (EventStreamState L × Option (Event L)))
      → IsKeyed s
      → ((event : Event L) → IsKeyedResult (next event))
      → IsKeyedResult (pass rest s next)
  pass-IsKeyedResult none s next h f = h
  pass-IsKeyedResult (some event) s next h f = f event

  apply-IsKeyedResult :
      (event : Event L) (s : EventStreamState L) → IsKeyed s → IsKeyedResult (apply event s)
  unfolding apply
  apply-IsKeyedResult event s h = bind-IsKeyedResult (apply_workspaces event s.workspaces) _ (λ a e.
      let ws : IsWorkspaceMap a.0 =
        subst IsWorkspacesResult {x = apply_workspaces event s.workspaces} {y = some a} e (
          apply_workspaces-IsWorkspacesResult event s.workspaces
            (h.workspaces_keyed, h.workspaces_distinct)) in
      let s1 : EventStreamState L = record s { workspaces = a.0 } in
      let h1 = maps-IsKeyed s1 ws (h.windows_keyed, h.windows_distinct) in
      pass-IsKeyedResult a.1 s1 _ h1 (λ event1.
        bind-IsKeyedResult (apply_windows event1 s.windows) _ (λ b d.
          let wins : IsWindowMap b.0 =
            subst IsWindowsResult {x = apply_windows event1 s.windows} {y = some b} d (
              apply_windows-IsWindowsResult event1 s.windows
                (h.windows_keyed, h.windows_distinct)) in
          let s2 : EventStreamState L = record s1 { windows = b.0 } in
          pass-IsKeyedResult b.1 s2 _ (maps-IsKeyed s2 ws wins) (λ event2.
            bind-IsKeyedResult (apply_keyboard_layouts event2 s.keyboard_layouts) _ (λ c _.
              let s3 : EventStreamState L = record s2 { keyboard_layouts = c.0 } in
              pass-IsKeyedResult c.1 s3 _ (maps-IsKeyed s3 ws wins) (λ event3.
                let o = apply_overview event3 s.is_open in
                let s4 : EventStreamState L = record s3 { is_open = o.0 } in
                pass-IsKeyedResult o.1 s4 _ (maps-IsKeyed s4 ws wins) (λ event4.
                  let f = apply_config event4 s.failed in
                  let s5 : EventStreamState L = record s4 { failed = f.0 } in
                  maps-IsKeyed s5 ws wins)))))))

  apply_all-IsKeyed :
      (events : List (Event L)) (s s' : EventStreamState L)
      → IsKeyed s
      → apply_all events s ≡ some s'
      → IsKeyed s'
  unfolding apply_all
  apply_all-IsKeyed [] s s' h e = subst IsKeyed {x = s} {y = s'} (cc e) h
  apply_all-IsKeyed (event ∷ events) s s' h e = elim (Option-cases (apply event s)) [
    | inl g ↦ absurd (cc (rw (apply_all, g) at e))
    | inr ((t, rest), g) ↦
        let k : IsKeyed t =
          subst IsKeyedResult {x = apply event s} {y = some (t, rest)} g
            (apply-IsKeyedResult event s h) in
        apply_all-IsKeyed events t s' k (rw (apply_all, g) at e)
  ]

  -- Whatever events a client has applied to the default state without a panic: the events that the
  -- state it has reached replicates make, applied to the default state, the same state.
  pub replicate-apply_all :
      (events : List (Event L)) (s : EventStreamState L)
      → apply_all events default_state ≡ some s
      → apply_all (replicate s) default_state ≡ some s
  replicate-apply_all events s e =
      let start : IsKeyed (default_state {L = L}) = record {
        workspaces_keyed = tt;
        workspaces_distinct = tt;
        windows_keyed = tt;
        windows_distinct = tt;
      } in
      apply_all-replicate s (apply_all-IsKeyed events default_state s start e)
