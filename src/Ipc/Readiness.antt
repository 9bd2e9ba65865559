-- ===== src/Ipc/Readiness.antt =====
-- No event of `ipc_refresh_windows`, src/ipc/server.rs, panics when it is applied.
use macniri.Base.{
  ℕ, ◌≡◌, refl, Bool, inl, inr, true, false, not, ◌&&◌, ◌||◌, Option, none, some, List, [], ◌∷◌,
  ◌++◌, arith, ◌===◌, option_eq, nat_eq, bool_beq, get, Bool-cases, is_some, Distinct,
}
use macniri.Ipc.Types.{
  Window, Event, window_opened_or_changed, window_closed, window_focus_changed,
  window_focus_timestamp_changed, window_urgency_changed,
}
use macniri.Ipc.Refresh.{
  event_if, changed, small_events, events_of, window_events, seen, any_focused, layout_change,
  batch_change_layouts, layout_events, closed_events, any_ipc_focused, blur_events, refresh_events,
  timestamp_eq,
}
use macniri.Ipc.Effects.{over, unfocused, hit, hits, hits-append, relayout, AllPresent, Ready}
use macniri.Ipc.Entries.{hits-event_if}
use macniri.Ipc.Refreshing.{hits-layout_events}
use macniri.Ipc.Runs.{AllReady, AllReady-append}

module _ {L : Type 0} where
  AllReady-event_if :
      (b : Bool) (e : Event L) (at : ℕ → Option (Window L))
      → Ready e at
      → AllReady (event_if b e) at
  AllReady-event_if true e at r = (r, tt)
  AllReady-event_if false e at r = tt

  -- Every event but a closed window keeps an entry.
  over_some :
      (g : Window L → Window L) (o : Option (Window L))
      → is_some o ≡ true
      → is_some (over g o) ≡ true
  over_some g none h = absurd (cc h)
  over_some g (some w) h = refl

  -- Both properties of a list of events that closes no window.
  abbrev Mild : List (Event L) → Type 0
  Mild es =
      ((at : ℕ → Option (Window L)) → AllReady es at)
      × ((j : ℕ) (o : Option (Window L)) → is_some o ≡ true → is_some (hits es j o) ≡ true)

  Mild-append : (a b : List (Event L)) → Mild a → Mild b → Mild (a ++ b)
  Mild-append a b x y = (
    (λ at. AllReady-append a b at (x.0 at) (y.0 (λ j. hits a j (at j)))),
    (λ j o h. rw (hits-append a b j o) (y.1 j (hits a j o) (x.1 j o h))),
  )

  Mild-event_if :
      (b : Bool) (e : Event L)
      → ((at : ℕ → Option (Window L)) → Ready e at)
      → ((j : ℕ) (o : Option (Window L)) → is_some o ≡ true → is_some (hit e j o) ≡ true)
      → Mild (event_if b e)
  Mild-event_if true e r k = ((λ at. (r at, tt)), k)
  Mild-event_if false e r k = ((λ at. tt), λ j o h. h)

  Mild-opened : (w : Window L) → Mild (window_opened_or_changed w ∷ [])
  Mild-opened w = ((λ at. (tt, tt)), λ j o h. ground (arith, h, over_some unfocused o h))

  Mild-small_events : (ipc_win w : Window L) → Mild (small_events ipc_win w)
  Mild-small_events ipc_win w =
      let b = w.is_focused && not ipc_win.is_focused in
      let t = not (w.focus_timestamp === ipc_win.focus_timestamp) in
      let g = not (bool_beq w.is_urgent ipc_win.is_urgent) in
      let e1 : Event L = window_focus_changed (some w.id) in
      let e2 : Event L = window_focus_timestamp_changed w.id w.focus_timestamp in
      let e3 : Event L = window_urgency_changed w.id w.is_urgent in
      Mild-append (event_if b e1) (event_if t e2 ++ event_if g e3)
        (Mild-event_if b e1 (λ at. tt)
          (λ j o h. over_some (λ u. record u { is_focused = some j === some w.id }) o h))
        (Mild-append (event_if t e2) (event_if g e3)
          (Mild-event_if t e2 (λ at. tt)
            (λ j o h.
              ground
                (arith, h, over_some (λ u. record u { focus_timestamp = w.focus_timestamp }) o h)))
          (Mild-event_if g e3 (λ at. tt)
            (λ j o h.
              ground (arith, h, over_some (λ u. record u { is_urgent = w.is_urgent }) o h))))

  Mild-events_of : (w : Window L) (ipc : Option (Window L)) → Mild (events_of w ipc)
  Mild-events_of w none = Mild-opened w
  Mild-events_of w (some ipc_win) = elim (Bool-cases (changed ipc_win w)) [
    | inl c ↦ rw c (Mild-opened w)
    | inr c ↦ rw c (Mild-small_events ipc_win w)
  ]

  Mild-window_events : (m : List (ℕ × Window L)) (ws : List (Window L)) → Mild (window_events m ws)
  unfolding window_events
  Mild-window_events m [] = ((λ at. tt), λ j o h. h)
  Mild-window_events m (w ∷ ws) =
      Mild-append (events_of w (get w.id m)) (window_events m ws) (Mild-events_of w (get w.id m))
        (Mild-window_events m ws)

  module _ (same_layout : L → L → Bool) where
    change-AllPresent :
        (w : Window L) (ipc : Option (Window L)) (rest : List (ℕ × L)) (at : ℕ → Option (Window L))
        → (is_some ipc ≡ true → is_some (at w.id) ≡ true)
        → AllPresent rest at
        → AllPresent (layout_change same_layout w ipc ++ rest) at
    change-AllPresent w none rest at h r = r
    change-AllPresent w (some ipc_win) rest at h r =
        elim (Bool-cases (changed ipc_win w || same_layout ipc_win.layout w.layout)) [
          | inl t ↦ rw t r
          | inr t ↦ rw t (h refl, r)
        ]

    batch-AllPresent :
        (m : List (ℕ × Window L)) (ws : List (Window L)) (at : ℕ → Option (Window L))
        → ((j : ℕ) → is_some (get j m) ≡ true → is_some (at j) ≡ true)
        → AllPresent (batch_change_layouts same_layout m ws) at
    unfolding batch_change_layouts
    batch-AllPresent m [] at h = tt
    batch-AllPresent m (w ∷ ws) at h =
        change-AllPresent w (get w.id m) (batch_change_layouts same_layout m ws) at (h w.id)
          (batch-AllPresent m ws at h)

  layout_events-AllReady :
      (changes : List (ℕ × L)) (at : ℕ → Option (Window L))
      → AllPresent changes at
      → AllReady (layout_events changes) at
  layout_events-AllReady [] at h = tt
  layout_events-AllReady (c ∷ changes) at h = (h, tt)

  relayout_some :
      (j : ℕ) (changes : List (ℕ × L)) (o : Option (Window L))
      → is_some o ≡ true
      → is_some (relayout j changes o) ≡ true
  relayout_some j [] o h = h
  relayout_some j ((id, u) ∷ changes) o h =
      relayout_some j changes _ (ground (arith, h, over_some (λ w. record w { layout = u }) o h))

  closed_events-AllReady :
      (ws : List (Window L)) (m : List (ℕ × Window L)) (at : ℕ → Option (Window L))
      → Distinct m
      → ((j : ℕ) → is_some (get j m) ≡ true → is_some (at j) ≡ true)
      → AllReady (closed_events ws m) at
  closed_events-AllReady ws [] at d h = tt
  closed_events-AllReady ws ((id, v) ∷ m) at d h =
      let event : Event L = window_closed id in
      let closing = event_if (not (seen ws id)) event in
      AllReady-append closing (closed_events ws m) at
        (AllReady-event_if (not (seen ws id)) (window_closed id) at (h id (ground arith)))
        (closed_events-AllReady ws m (λ j. hits closing j (at j)) d.1
          (λ j p.
            rw (hits-event_if (not (seen ws id)) event j (at j)) (ground (arith, h j, d.0, p))))

  pub refresh_events-AllReady :
      (same_layout : L → L → Bool) (ws : List (Window L)) (m : List (ℕ × Window L))
      → Distinct m
      → AllReady (refresh_events same_layout ws m) (λ j. get j m)
  unfolding refresh_events
  refresh_events-AllReady same_layout ws m d =
      let batch = batch_change_layouts same_layout m ws in
      let mild = Mild-window_events m ws in
      let at1 : ℕ → Option (Window L) = λ j. hits (window_events m ws) j (get j m) in
      let at2 : ℕ → Option (Window L) = λ j. hits (layout_events batch) j (at1 j) in
      let some1 : (j : ℕ) → is_some (get j m) ≡ true → is_some (at1 j) ≡ true =
        λ j h. mild.1 j (get j m) h in
      let some2 : (j : ℕ) → is_some (get j m) ≡ true → is_some (at2 j) ≡ true = λ j h.
        rw (hits-layout_events batch j (at1 j)) (relayout_some j batch (at1 j) (some1 j h)) in
      AllReady-append (window_events m ws) _ (λ j. get j m) (mild.0 (λ j. get j m))
        (AllReady-append (layout_events batch) _ at1
          (layout_events-AllReady batch at1 (batch-AllPresent same_layout m ws at1 some1))
          (AllReady-append (closed_events ws m) (blur_events ws m) at2
            (closed_events-AllReady ws m at2 d some2)
            (AllReady-event_if (not (any_focused ws) && any_ipc_focused m)
              (window_focus_changed none) (λ j. hits (closed_events ws m) j (at2 j)) tt)))
