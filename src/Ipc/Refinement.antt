-- ===== src/Ipc/Refinement.antt =====
-- `ipc_refresh_windows` of src/ipc/server.rs brings the state of the windows to what the layout shows.
use macniri.Base.{
  ℕ, ◌≡◌, refl, sym, ap, ◌∙◌, inl, inr, Bool, true, false, not, ◌&&◌, Option, none, some, List,
  ◌++◌, map, arith, option_eq, nat_eq, get, get_elem?, Bool-cases, Option-cases,
}
use macniri.Ipc.Types.{Window, Event, window_focus_changed}
use macniri.Ipc.Replicate.{Keyed}
use macniri.Ipc.Reached.{IsWindowMap}
use macniri.Ipc.Focus.{IsConsistent}
use macniri.Ipc.Refresh.{
  Mapped, make_ipc_window, event_if, window_events, seen, any_focused, batch_change_layouts,
  layout_events, closed_events, any_ipc_focused, blur_events, refresh_events, apply_events,
  ipc_refresh_windows, timestamp_eq,
}
use macniri.Ipc.Effects.{hits, hits-append, relayout}
use macniri.Ipc.Runs.{Ran, apply_events-Ran}
use macniri.Ipc.Readiness.{refresh_events-AllReady}
use macniri.Ipc.Entries.{hits-event_if, window_events-other, Described}
use macniri.Ipc.Refreshing.{
  IsSnapshot, seen-get, any_focused-get, focused_window, same_focus, window_events-own, batch-own,
  batch-other, hits-layout_events,
}
use macniri.Ipc.Refreshed.{
  closed_events-seen, closed_events-unseen, closed_events-none, any_ipc_focused-get, relaid,
}

module _ {L : Type 0} (same_layout : L → L → Bool) where
  unfocused_before :
      (ws : List (Window L)) (m : List (ℕ × Window L)) (i : ℕ) (w v : Window L)
      → get_elem? ws i ≡ some w
      → Described (get w.id m) w v
      → any_focused ws ≡ false
      → any_ipc_focused m ≡ false
      → v.is_focused ≡ false
  unfocused_before ws m i w v e d t q = elim (Bool-cases v.is_focused) [
    | inr f ↦ f
    | inl f ↦
        let out : w.is_focused ≡ false = elim (Bool-cases w.is_focused) [
          | inr g ↦ g
          | inl g ↦ absurd (cc (t, any_focused-get ws i {w = w} e g))
        ] in
        let (ipc_win, g, h) = d.left out f in
        absurd (cc (q, any_ipc_focused-get m w.id {v = ipc_win} g h))
  ]

  -- A window of the state is the window that is shown. The process id is not compared.
  pub record Shows (w v : Window L) : Type 0 where
    pub same_id : v.id ≡ w.id
    pub same_title : v.title ≡ w.title
    pub same_app_id : v.app_id ≡ w.app_id
    pub same_workspace_id : v.workspace_id ≡ w.workspace_id
    pub same_is_focused : v.is_focused ≡ w.is_focused
    pub same_is_floating : v.is_floating ≡ w.is_floating
    pub same_is_urgent : v.is_urgent ≡ w.is_urgent
    pub same_focus_timestamp : v.focus_timestamp ≡ w.focus_timestamp
    pub layout_passes : same_layout v.layout w.layout ≡ true

  -- The state has exactly the windows that are shown.
  pub record Refreshed (ws : List (Window L)) (m : List (ℕ × Window L)) : Type 0 where
    pub shown :
        (i : ℕ) (w : Window L)
        → get_elem? ws i ≡ some w
        → (v : Window L) × (get w.id m ≡ some v) × Shows w v
    pub gone : (j : ℕ) → seen ws j ≡ false → get j m ≡ none

  -- The entry of a shown window before the focus is settled.
  record Almost (ws : List (Window L)) (w v : Window L) : Type 0 where
    pub with_focus : Shows w (record v { is_focused = w.is_focused })
    pub focused : w.is_focused ≡ true → v.is_focused ≡ true
    pub left : any_focused ws ≡ false → v.is_focused ≡ false

  hits-refresh_events :
      (ws : List (Window L)) (m : List (ℕ × Window L)) (j : ℕ) (o : Option (Window L))
      → hits (refresh_events same_layout ws m) j o
        ≡ hits (blur_events ws m) j (
            hits
              (closed_events ws m)
              j
              (relayout j (batch_change_layouts same_layout m ws) (hits (window_events m ws) j o)))
  unfolding refresh_events
  hits-refresh_events ws m j o =
      let batch = batch_change_layouts same_layout m ws in
      let o1 = hits (window_events m ws) j o in
      hits-append (window_events m ws)
        (layout_events batch ++ (closed_events ws m ++ blur_events ws m)) j o
      ∙ (hits-append (layout_events batch) (closed_events ws m ++ blur_events ws m) j o1
          ∙ (ap (hits (closed_events ws m ++ blur_events ws m) j) (hits-layout_events batch j o1)
              ∙ hits-append (closed_events ws m) (blur_events ws m) j (relayout j batch o1)))

  blurred :
      (b : Bool) (j : ℕ) (v : Window L)
      → hits (event_if b (window_focus_changed none)) j (some v)
        ≡ some (record v { is_focused = not b && v.is_focused })
  blurred true j v = refl
  blurred false j v = refl

  module _ (same_layout_refl : (l : L) → same_layout l l ≡ true) where
    entry-Almost :
        (ws : List (Window L)) (m : List (ℕ × Window L)) (i : ℕ) (w : Window L)
        → IsSnapshot ws
        → Keyed (λ v. v.id) m
        → get_elem? ws i ≡ some w
        → (v : Window L) × (hits (refresh_events same_layout ws m) w.id (get w.id m) ≡ some v)
          × Almost ws w v
    entry-Almost ws m i w s k e =
        let o = get w.id m in
        let b = not (any_focused ws) && any_ipc_focused m in
        let (v, at1, d) =
          window_events-own false m ws i {w = w} o s k e (λ t. absurd (cc t)) (inl refl) in
        let (l, at2, passes) = relaid same_layout same_layout_refl o w v d in
        let v2 : Window L = record v { layout = l } in
        let v3 : Window L = record v2 { is_focused = not b && v2.is_focused } in
        (
          v3,
          hits-refresh_events ws m w.id o
              ∙ (ap
                    (λ p. hits (blur_events ws m) w.id (
                      hits (closed_events ws m) w.id
                        (relayout w.id (batch_change_layouts same_layout m ws) p)))
                    at1
                  ∙ (ap (λ p. hits (blur_events ws m) w.id (hits (closed_events ws m) w.id p))
                        (batch-own same_layout m ws i {w = w} (some v) s e ∙ at2)
                      ∙ (ap (hits (blur_events ws m) w.id)
                            (closed_events-seen ws m w.id (some v2) (seen-get ws i {w = w} e))
                          ∙ blurred b w.id v2))),
          record {
            with_focus = record {
              same_id = d.same_id;
              same_title = d.same_title;
              same_app_id = d.same_app_id;
              same_workspace_id = d.same_workspace_id;
              same_is_focused = refl;
              same_is_floating = d.same_is_floating;
              same_is_urgent = d.same_is_urgent;
              same_focus_timestamp = d.same_focus_timestamp;
              layout_passes = passes;
            };
            focused = λ t. ground (arith, any_focused-get ws i {w = w} e t, d.focused t);
            left = λ t. elim (Bool-cases (any_ipc_focused m)) [
              | inl q ↦ ground (arith, t, q)
              | inr q ↦ ground (arith, unfocused_before ws m i w v e d t q)
            ];
          },
        )

  entry-gone :
      (ws : List (Window L)) (m : List (ℕ × Window L)) (j : ℕ)
      → seen ws j ≡ false
      → hits (refresh_events same_layout ws m) j (get j m) ≡ none
  entry-gone ws m j s =
      let o1 = hits (window_events m ws) j (get j m) in
      let o2 = relayout j (batch_change_layouts same_layout m ws) o1 in
      let closed : hits (closed_events ws m) j o2 ≡ none = elim (Option-cases (get j m)) [
        | inr (v, g) ↦ closed_events-unseen ws m j o2 s (rw g refl)
        | inl g ↦
            let absent : o1 ≡ none = elim (window_events-other m ws j (get j m) s) [
              | inl p ↦ p ∙ g
              | inr p ↦ p.1 ∙ rw g refl
            ] in
            ap (hits (closed_events ws m) j) (batch-other same_layout m ws j o1 s ∙ absent)
            ∙ closed_events-none ws m j
      ] in
      hits-refresh_events ws m j (get j m)
      ∙ (ap (hits (blur_events ws m) j) closed
          ∙ (hits-event_if (not (any_focused ws) && any_ipc_focused m) (window_focus_changed none) j
                none
              ∙ ground arith))

  settled_focus :
      (ws : List (Window L)) (m' : List (ℕ × Window L)) (i : ℕ) (w v : Window L)
      → IsSnapshot ws
      → get_elem? ws i ≡ some w
      → IsConsistent m'
      → get w.id m' ≡ some v
      → Almost ws w v
      → ((k : ℕ) (u : Window L)
          → get_elem? ws k ≡ some u
          → (x : Window L) × (get u.id m' ≡ some x) × (u.is_focused ≡ true → x.is_focused ≡ true))
      → v.is_focused ≡ w.is_focused
  settled_focus ws m' i w v s e c g a all = elim (Bool-cases w.is_focused) [
    | inl t ↦ a.focused t ∙ sym t
    | inr t ↦ elim (Bool-cases (any_focused ws)) [
      | inr q ↦ a.left q ∙ sym t
      | inl q ↦ elim (Bool-cases v.is_focused) [
        | inr p ↦ p ∙ sym t
        | inl p ↦
            let (k, u, d, f) = focused_window ws q in
            let (x, at_u, xf) = all k u d in
            let same : w.id ≡ u.id = c.one_focused w.id u.id v x g at_u p (xf f) in
            absurd (cc (same_focus ws i k {w = w} {v = u} s e d same, t, f))
      ]
    ]
  ]

  module _ (same_layout_refl : (l : L) → same_layout l l ≡ true) where
    Ran-Refreshed :
        (ws : List (Window L)) (m m' : List (ℕ × Window L))
        → IsWindowMap m
        → IsSnapshot ws
        → Ran (refresh_events same_layout ws m) m m'
        → Refreshed ws m'
    Ran-Refreshed ws m m' h s r = record {
      shown = λ i w e.
          let (v, g, a) = found i w e in
          (
            v,
            g,
            record {
              same_id = a.with_focus.same_id;
              same_title = a.with_focus.same_title;
              same_app_id = a.with_focus.same_app_id;
              same_workspace_id = a.with_focus.same_workspace_id;
              same_is_focused =
                  settled_focus ws m' i w v s e r.consistent g a
                    (λ k u d. let (x, p, b) = found k u d in (x, p, b.focused));
              same_is_floating = a.with_focus.same_is_floating;
              same_is_urgent = a.with_focus.same_is_urgent;
              same_focus_timestamp = a.with_focus.same_focus_timestamp;
              layout_passes = a.with_focus.layout_passes;
            },
          );
      gone = λ j q. r.entries j ∙ entry-gone ws m j q;
    }
      where
        found :
            (i : ℕ) (w : Window L)
            → get_elem? ws i ≡ some w
            → (v : Window L) × (get w.id m' ≡ some v) × Almost ws w v
        found i w e =
            let (v, g, a) = entry-Almost same_layout_refl ws m i w s h.0 e in
            (v, r.entries w.id ∙ g, a)

    -- When the windows that the layout shows have different ids and at most one of them is focused, the
    -- state of the windows has one entry for each id and at most one focused window, and a layout passes
    -- the test with itself, `ipc_refresh_windows` does not panic: the events that it sends, applied to the
    -- old state, give the new one, which has one entry under each id and at most one focused window, and
    -- has exactly the shown windows, each as
    -- `make_ipc_window` describes it, up to the process id and layouts that pass the test.
    pub ipc_refresh_windows-Refreshed :
        (shown : List (Mapped × Option ℕ × L)) (m : List (ℕ × Window L))
        → IsWindowMap m
        → IsConsistent m
        → IsSnapshot (map (λ e. make_ipc_window e.0 e.1 e.2) shown)
        → (m' : List (ℕ × Window L)) × (events : List (Event L)) × (ipc_refresh_windows same_layout
              shown m
            ≡ some (m', events))
          × (apply_events events m ≡ some m')
          × IsConsistent m'
          × Refreshed (map (λ e. make_ipc_window e.0 e.1 e.2) shown) m'
    unfolding ipc_refresh_windows
    ipc_refresh_windows-Refreshed shown m h c s =
        let ws = map (λ e. make_ipc_window e.0 e.1 e.2) shown in
        let events = refresh_events same_layout ws m in
        let (m', run, r) =
          apply_events-Ran events m h c (refresh_events-AllReady same_layout ws m h.1) in
        (m', events, rw run refl, run, r.consistent, Ran-Refreshed ws m m' h s r)
