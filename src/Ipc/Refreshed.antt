-- ===== src/Ipc/Refreshed.antt =====
-- The entries of the map of windows after `ipc_refresh_windows` of src/ipc/server.rs as a whole.
use macniri.Base.{
  ℕ, ◌≡◌, refl, ap, ◌∙◌, inl, inr, Bool, true, false, not, ◌||◌, Option, none, some, List, [], ◌∷◌,
  arith, ◌==◌, option_eq, nat_eq, get, Bool-cases, is_some,
}
use macniri.Ipc.Types.{Window, window_closed}
use macniri.Ipc.Refresh.{event_if, changed, seen, layout_change, closed_events, any_ipc_focused}
use macniri.Ipc.Effects.{hits, hits-append, relayout}
use macniri.Ipc.Entries.{hits-event_if, Described}

module _ {L : Type 0} where
  pub closed_events-seen :
      (ws : List (Window L)) (m : List (ℕ × Window L)) (j : ℕ) (o : Option (Window L))
      → seen ws j ≡ true
      → hits (closed_events ws m) j o ≡ o
  closed_events-seen ws [] j o s = refl
  closed_events-seen ws ((id, v) ∷ m) j o s =
      hits-append (event_if (not (seen ws id)) (window_closed id)) (closed_events ws m) j o
      ∙ (ap (hits (closed_events ws m) j)
            (hits-event_if (not (seen ws id)) (window_closed id) j o ∙ ground (arith, s))
          ∙ closed_events-seen ws m j o s)

  pub closed_events-none :
      (ws : List (Window L)) (m : List (ℕ × Window L)) (j : ℕ)
      → hits (closed_events ws m) j none ≡ none
  closed_events-none ws [] j = refl
  closed_events-none ws ((id, v) ∷ m) j =
      hits-append (event_if (not (seen ws id)) (window_closed id)) (closed_events ws m) j none
      ∙ (ap (hits (closed_events ws m) j)
            (hits-event_if (not (seen ws id)) (window_closed id) j none ∙ ground arith)
          ∙ closed_events-none ws m j)

  pub closed_events-unseen :
      (ws : List (Window L)) (m : List (ℕ × Window L)) (j : ℕ) (o : Option (Window L))
      → seen ws j ≡ false
      → is_some (get j m) ≡ true
      → hits (closed_events ws m) j o ≡ none
  closed_events-unseen ws [] j o s h = absurd (cc h)
  closed_events-unseen ws ((id, v) ∷ m) j o s h =
      hits-append (event_if (not (seen ws id)) (window_closed id)) (closed_events ws m) j o
      ∙ elim (Bool-cases (id == j)) [
        | inl t ↦
            ap (hits (closed_events ws m) j)
              (hits-event_if (not (seen ws id)) (window_closed id) j o ∙ ground (arith, t, s))
            ∙ closed_events-none ws m j
        | inr t ↦
            ap (hits (closed_events ws m) j)
              (hits-event_if (not (seen ws id)) (window_closed id) j o ∙ ground (arith, t))
            ∙ closed_events-unseen ws m j o s (ground (arith, h, t))
      ]

  pub any_ipc_focused-get :
      (m : List (ℕ × Window L)) (j : ℕ) {v : Window L}
      → get j m ≡ some v
      → v.is_focused ≡ true
      → any_ipc_focused m ≡ true
  any_ipc_focused-get [] j e f = absurd (cc e)
  any_ipc_focused-get ((id, u) ∷ m) j {v} e f = elim (Bool-cases (id == j)) [
    | inl t ↦ ground (arith, e, f, t)
    | inr t ↦ ground (arith, any_ipc_focused-get m j {v = v} (ground (arith, e, t)) f)
  ]

  module _ (same_layout : L → L → Bool) (same_layout_refl : (l : L) → same_layout l l ≡ true) where
    -- The layout that the batch leaves passes the test.
    pub relaid :
        (o : Option (Window L)) (w v : Window L)
        → Described o w v
        → (l : L) × (relayout w.id (layout_change same_layout w o) (some v)
            ≡ some (record v { layout = l }))
          × (same_layout l w.layout ≡ true)
    relaid o w v d = elim d.layout [
      | inl p ↦ left_or_set o p
      | inr (ipc_win, e, c, p) ↦ elim (Bool-cases (same_layout ipc_win.layout w.layout)) [
        | inl t ↦ (v.layout, rw (e, c, t) refl, rw p t)
        | inr t ↦ (w.layout, rw (e, c, t) (ground arith), same_layout_refl w.layout)
      ]
    ]
      where
        left_or_set :
            (o : Option (Window L))
            → v.layout ≡ w.layout
            → (l : L) × (relayout w.id (layout_change same_layout w o) (some v)
                ≡ some (record v { layout = l }))
              × (same_layout l w.layout ≡ true)
        left_or_set none p = (v.layout, refl, rw p (same_layout_refl w.layout))
        left_or_set (some ipc_win) p =
            elim (Bool-cases (changed ipc_win w || same_layout ipc_win.layout w.layout)) [
              | inl t ↦ (v.layout, rw t refl, rw p (same_layout_refl w.layout))
              | inr t ↦ (w.layout, rw t (ground arith), same_layout_refl w.layout)
            ]
