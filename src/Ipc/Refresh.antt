-- ===== src/Ipc/Refresh.antt =====
-- `ipc_refresh_windows` and `make_ipc_window` of src/ipc/server.rs. The test of two window layouts is a
-- parameter, since they hold floating-point sizes. `none` is a panic of `apply`.
use macniri.Base.{
  ℕ, ◌≡◌, ◌↔◌, arith, Bool, true, not, ◌&&◌, ◌||◌, Option, none, some, List, [], ◌∷◌, ◌++◌, map,
  ◌==◌, ◌===◌, option_eq, string_eq, nat_eq, bool_beq, if◌then◌else◌, get, any_of, Eq, ◌>>=◌,
}
use Prim.Native.String.{String}
use macniri.Ipc.Types.{
  Window, Timestamp, Event, window_opened_or_changed, window_closed, window_focus_changed,
  window_focus_timestamp_changed, window_urgency_changed, window_layouts_changed,
}
use macniri.Ipc.State.{apply_windows}

-- The derived `PartialEq` of `Timestamp`.
abbrev pub timestamp_beq : Timestamp → Timestamp → Bool
timestamp_beq s t = s.secs == t.secs && s.nanos == t.nanos

pub timestamp_beq_iff : (s t : Timestamp) → (timestamp_beq s t ≡ true) ↔ (s ≡ t)
timestamp_beq_iff s t = ground arith

instance abbrev pub timestamp_eq : Eq Timestamp
timestamp_eq = record { beq = timestamp_beq; beq_iff = timestamp_beq_iff }

-- What the refresh asks of a mapped window and its toplevel role.
pub record Mapped : Type 0 where
  pub id : ℕ
  pub title : Option String
  pub app_id : Option String
  pub pid : Option ℕ
  pub is_focused : Bool
  pub is_floating : Bool
  pub is_urgent : Bool
  pub focus_timestamp : Option Timestamp

module _ {L : Type 0} where
  unfoldable pub make_ipc_window : Mapped → Option ℕ → L → Window L
  make_ipc_window mapped workspace_id layout = record {
    id = mapped.id;
    title = mapped.title;
    app_id = mapped.app_id;
    pid = mapped.pid;
    workspace_id = workspace_id;
    is_focused = mapped.is_focused;
    is_floating = mapped.is_floating;
    is_urgent = mapped.is_urgent;
    layout = layout;
    focus_timestamp = mapped.focus_timestamp;
  }

  abbrev pub event_if : Bool → Event L → List (Event L)
  event_if b event = if b then event ∷ [] else []

  -- A change that only the whole window can tell.
  abbrev pub changed : Window L → Window L → Bool
  changed ipc_win w =
      not (ipc_win.workspace_id === w.workspace_id)
      || (not (bool_beq ipc_win.is_floating w.is_floating)
          || (not (ipc_win.title === w.title) || not (ipc_win.app_id === w.app_id)))

  -- The changes that have events of their own.
  abbrev pub small_events : Window L → Window L → List (Event L)
  small_events ipc_win w =
      event_if (w.is_focused && not ipc_win.is_focused) (window_focus_changed (some w.id))
      ++ (event_if (not (w.focus_timestamp === ipc_win.focus_timestamp))
            (window_focus_timestamp_changed w.id w.focus_timestamp)
          ++ event_if (not (bool_beq w.is_urgent ipc_win.is_urgent))
              (window_urgency_changed w.id w.is_urgent))

  -- The events of one window `w`, as `make_ipc_window` describes it.
  abbrev pub events_of : Window L → Option (Window L) → List (Event L)
  events_of w none = window_opened_or_changed w ∷ []
  events_of w (some ipc_win) =
      if changed ipc_win w then window_opened_or_changed w ∷ [] else small_events ipc_win w

module _ {L : Type 0} (same_layout : L → L → Bool) where
  abbrev pub layout_change : Window L → Option (Window L) → List (ℕ × L)
  layout_change w none = []
  layout_change w (some ipc_win) =
      if changed ipc_win w || same_layout ipc_win.layout w.layout then [] else (w.id, w.layout) ∷ []

module _ {L : Type 0} where
  -- The loop over the windows: the events, and the batch of layouts.
  unfoldable pub window_events : List (ℕ × Window L) → List (Window L) → List (Event L)
  window_events m [] = []
  window_events m (w ∷ ws) = events_of w (get w.id m) ++ window_events m ws

  unfoldable pub batch_change_layouts :
      (L → L → Bool) → List (ℕ × Window L) → List (Window L) → List (ℕ × L)
  batch_change_layouts same_layout m [] = []
  batch_change_layouts same_layout m (w ∷ ws) =
      layout_change same_layout w (get w.id m) ++ batch_change_layouts same_layout m ws

  abbrev pub layout_events : List (ℕ × L) → List (Event L)
  layout_events [] = []
  layout_events (change ∷ changes) = window_layouts_changed (change ∷ changes) ∷ []

  abbrev pub seen : List (Window L) → ℕ → Bool
  seen ws id = any_of (λ w. w.id == id) ws

  abbrev pub closed_events : List (Window L) → List (ℕ × Window L) → List (Event L)
  closed_events ws [] = []
  closed_events ws ((id, ipc_win) ∷ m) =
      event_if (not (seen ws id)) (window_closed id) ++ closed_events ws m

  -- Whether there is a focused window: `focused_id` and `ipc_focused_id`.
  abbrev pub any_focused : List (Window L) → Bool
  any_focused ws = any_of (λ w. w.is_focused) ws

  abbrev pub any_ipc_focused : List (ℕ × Window L) → Bool
  any_ipc_focused m = any_of (λ e. e.1.is_focused) m

  abbrev pub blur_events : List (Window L) → List (ℕ × Window L) → List (Event L)
  blur_events ws m =
      event_if (not (any_focused ws) && any_ipc_focused m) (window_focus_changed none)

  -- All events, in the order in which they are sent and applied.
  unfoldable pub refresh_events :
      (L → L → Bool) → List (Window L) → List (ℕ × Window L) → List (Event L)
  unfolding window_events batch_change_layouts
  refresh_events same_layout ws m =
      window_events m ws
      ++ (layout_events (batch_change_layouts same_layout m ws)
          ++ (closed_events ws m ++ blur_events ws m))

  unfoldable pub apply_events : List (Event L) → List (ℕ × Window L) → Option (List (ℕ × Window L))
  unfolding apply_windows
  apply_events [] m = some m
  apply_events (event ∷ events) m = apply_windows event m >>= λ r. apply_events events r.0

  -- The new state of the windows, and the events that are sent.
  unfoldable pub ipc_refresh_windows :
      (L → L → Bool)
      → List (Mapped × Option ℕ × L)
      → List (ℕ × Window L)
      → Option (List (ℕ × Window L) × List (Event L))
  unfolding refresh_events apply_events make_ipc_window
  ipc_refresh_windows same_layout shown m = do
    let ws = map (λ e. make_ipc_window e.0 e.1 e.2) shown
    let events = refresh_events same_layout ws m
    m' ← apply_events events m
    some (m', events)
