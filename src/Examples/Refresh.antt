-- ===== src/Examples/Refresh.antt =====
-- A focused window that closes while another opens, for `ipc_refresh_windows` of src/ipc/server.rs.
use macniri.Base.{
  ℕ, ◌≡◌, refl, Bool, true, false, none, some, Option, List, [], ◌∷◌, map, arith, ◌==◌,
}
use macniri.Ipc.Types.{Window, Event}
use macniri.Ipc.Focus.{IsConsistent}
use macniri.Ipc.Refresh.{Mapped, make_ipc_window, apply_events, ipc_refresh_windows, refresh_events}
use macniri.Ipc.Refreshing.{IsSnapshot}
use macniri.Ipc.Refinement.{Refreshed, ipc_refresh_windows-Refreshed}

abbrev mapped : ℕ → Bool → Mapped
mapped i focused = record {
  id = i;
  title = some "title";
  app_id = none;
  pid = none;
  is_focused = focused;
  is_floating = false;
  is_urgent = true;
  focus_timestamp = none;
}

-- Layouts are numbers here.
abbrev old : ℕ → Bool → Window ℕ
old i focused = record {
  id = i;
  title = some "title";
  app_id = none;
  pid = none;
  workspace_id = some 1;
  is_focused = focused;
  is_floating = false;
  is_urgent = false;
  layout = 0;
  focus_timestamp = none;
}

abbrev state : List (ℕ × Window ℕ)
state = (3, old 3 true) ∷ (4, old 4 false) ∷ []

-- The window 3 has closed, 4 has the focus and a new layout, and 5 is new.
abbrev shown : List (Mapped × Option ℕ × ℕ)
shown = (mapped 4 true, some 1, 7) ∷ (mapped 5 false, some 1, 0) ∷ []

state-IsConsistent : IsConsistent state
state-IsConsistent = record {
  by_id = λ j w e. ground (arith, e);
  one_focused = λ i j w v e d x y. ground (arith, e, d, x, y);
}

shown-IsSnapshot : IsSnapshot (map (λ e. make_ipc_window e.0 e.1 e.2) shown)
unfolding make_ipc_window
shown-IsSnapshot = (refl, refl, (refl, refl, tt))

ipc_refresh_windows-Refreshed_example :
    (m' : List (ℕ × Window ℕ)) × (events : List (Event ℕ)) × (ipc_refresh_windows
        (λ a b. a == b)
        shown
        state
      ≡ some (m', events))
    × (apply_events events state ≡ some m')
    × IsConsistent m'
    × Refreshed (λ a b. a == b) (map (λ e. make_ipc_window e.0 e.1 e.2) shown) m'
ipc_refresh_windows-Refreshed_example =
    ipc_refresh_windows-Refreshed (λ a b. a == b) (λ l. ground arith) shown state
      ((refl, (refl, tt)), (refl, (refl, tt))) state-IsConsistent shown-IsSnapshot

-- A focus, a new layout, an opened and a closed window, and an urgent one.
refresh_run :
    apply_events
      (refresh_events (λ a b. a == b) (map (λ e. make_ipc_window e.0 e.1 e.2) shown) state)
      state
    ≡ some (
        (4, make_ipc_window (mapped 4 true) (some 1) 7)
        ∷ (5, make_ipc_window (mapped 5 false) (some 1) 0)
        ∷ [])
unfolding apply_events refresh_events make_ipc_window
refresh_run = refl
