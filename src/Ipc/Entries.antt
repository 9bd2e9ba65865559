-- ===== src/Ipc/Entries.antt =====
-- What `ipc_refresh_windows` of src/ipc/server.rs does to the entry of one window.
use macniri.Base.{
  ℕ, ◌≡◌, ◌≢◌, ◌⊎◌, refl, ap, ◌∙◌, inl, inr, Bool, true, false, not, ◌&&◌, ◌||◌, Option, none, some,
  List, [], ◌∷◌, ◌++◌, arith, ◌===◌, option_eq, nat_eq, string_eq, bool_beq, bool_beq_iff,
  option_beq_iff, if◌then◌else◌, get, Bool-cases,
}
use macniri.Ipc.Types.{
  Window, Event, window_opened_or_changed, window_focus_changed, window_focus_timestamp_changed,
  window_urgency_changed,
}
use macniri.Ipc.Refresh.{
  event_if, changed, small_events, events_of, window_events, seen, any_focused, timestamp_eq,
}
use macniri.Ipc.Effects.{over, unfocused, hit, hits, hits-append}

module _ {L : Type 0} where
  pub hits-event_if :
      (b : Bool) (e : Event L) (j : ℕ) (o : Option (Window L))
      → hits (event_if b e) j o ≡ (if b then hit e j o else o)
  hits-event_if true e j o = refl
  hits-event_if false e j o = refl

  -- The same, or without the focus.
  abbrev pub Faded : Bool → Option (Window L) → Option (Window L) → Type 0
  Faded b o o' = (o' ≡ o) ⊎ ((b ≡ true) × (o' ≡ over unfocused o))

  over-unfocused : (o : Option (Window L)) → over unfocused (over unfocused o) ≡ over unfocused o
  over-unfocused none = refl
  over-unfocused (some w) = refl

  pub Faded-trans :
      (a b : Bool) (o o1 o2 : Option (Window L))
      → Faded a o o1
      → Faded b o1 o2
      → Faded (a || b) o o2
  Faded-trans a b o o1 o2 (inl p) (inl q) = inl (q ∙ p)
  Faded-trans a b o o1 o2 (inl p) (inr q) = inr (ground (arith, q.0), q.1 ∙ ap (over unfocused) p)
  Faded-trans a b o o1 o2 (inr p) (inl q) = inr (ground (arith, p.0), q ∙ p.1)
  Faded-trans a b o o1 o2 (inr p) (inr q) =
      inr (ground (arith, p.0), q.1 ∙ (ap (over unfocused) p.1 ∙ over-unfocused o))

  focus-other :
      (u : Window L) (j : ℕ) (o : Option (Window L))
      → u.id ≢ j
      → hit (window_focus_changed (some u.id)) j o ≡ over unfocused o
  focus-other u j none ne = refl
  focus-other u j (some w) ne = ground arith

  small_events-other :
      (ipc_win u : Window L) (j : ℕ) (o : Option (Window L))
      → u.id ≢ j
      → hits (small_events ipc_win u) j o
        ≡ (if u.is_focused && not ipc_win.is_focused then over unfocused o else o)
  small_events-other ipc_win u j o ne =
      let b = u.is_focused && not ipc_win.is_focused in
      let t = not (u.focus_timestamp === ipc_win.focus_timestamp) in
      let g = not (bool_beq u.is_urgent ipc_win.is_urgent) in
      let e1 : Event L = window_focus_changed (some u.id) in
      let e2 : Event L = window_focus_timestamp_changed u.id u.focus_timestamp in
      let e3 : Event L = window_urgency_changed u.id u.is_urgent in
      let o1 = hits (event_if b e1) j o in
      let o2 = hits (event_if t e2) j o1 in
      let s3 : hits (event_if g e3) j o2 ≡ o2 = hits-event_if g e3 j o2 ∙ ground (arith, ne) in
      let s2 : o2 ≡ o1 = hits-event_if t e2 j o1 ∙ ground (arith, ne) in
      let s1 : o1 ≡ (if b then over unfocused o else o) =
        hits-event_if b e1 j o ∙ rw (focus-other u j o ne) refl in
      hits-append (event_if b e1) (event_if t e2 ++ event_if g e3) j o
      ∙ (hits-append (event_if t e2) (event_if g e3) j o1 ∙ (s3 ∙ (s2 ∙ s1)))

  opened-other :
      (u : Window L) (j : ℕ) (o : Option (Window L))
      → u.id ≢ j
      → Faded u.is_focused o (hit (window_opened_or_changed u) j o)
  opened-other u j o ne = elim (Bool-cases u.is_focused) [
    | inl t ↦ inr (t, ground (arith, ne, t))
    | inr t ↦ inl (ground (arith, ne, t))
  ]

  pub events_of-other :
      (u : Window L) (ipc : Option (Window L)) (j : ℕ) (o : Option (Window L))
      → u.id ≢ j
      → Faded u.is_focused o (hits (events_of u ipc) j o)
  events_of-other u none j o ne = opened-other u j o ne
  events_of-other u (some ipc_win) j o ne = elim (Bool-cases (changed ipc_win u)) [
    | inl c ↦ rw c (opened-other u j o ne)
    | inr c ↦ elim (Bool-cases (u.is_focused && not ipc_win.is_focused)) [
      | inl b ↦ rw c (inr (ground (arith, b), small_events-other ipc_win u j o ne ∙ rw b refl))
      | inr b ↦ rw c (inl (small_events-other ipc_win u j o ne ∙ rw b refl))
    ]
  ]

  pub window_events-other :
      (m : List (ℕ × Window L)) (ws : List (Window L)) (j : ℕ) (o : Option (Window L))
      → seen ws j ≡ false
      → Faded (any_focused ws) o (hits (window_events m ws) j o)
  unfolding window_events
  window_events-other m [] j o s = inl refl
  window_events-other m (u ∷ ws) j o s =
      let o1 = hits (events_of u (get u.id m)) j o in
      let f1 = events_of-other u (get u.id m) j o (ground (arith, s)) in
      let f2 = window_events-other m ws j o1 (ground (arith, s)) in
      rw (hits-append (events_of u (get u.id m)) (window_events m ws) j o)
        (Faded-trans u.is_focused (any_focused ws) o o1 (hits (window_events m ws) j o1) f1 f2)

  -- The window `v` in the state is the window `w`, up to the layout and the focus that it had before.
  pub record Described (o : Option (Window L)) (w v : Window L) : Type 0 where
    pub same_id : v.id ≡ w.id
    pub same_title : v.title ≡ w.title
    pub same_app_id : v.app_id ≡ w.app_id
    pub same_workspace_id : v.workspace_id ≡ w.workspace_id
    pub same_is_floating : v.is_floating ≡ w.is_floating
    pub same_is_urgent : v.is_urgent ≡ w.is_urgent
    pub same_focus_timestamp : v.focus_timestamp ≡ w.focus_timestamp
    pub layout :
        (v.layout ≡ w.layout)
        ⊎ ((ipc_win : Window L) × (o ≡ some ipc_win)
            × (changed ipc_win w ≡ false)
            × (v.layout ≡ ipc_win.layout))
    pub focused : w.is_focused ≡ true → v.is_focused ≡ true
    pub left :
        w.is_focused ≡ false
        → v.is_focused ≡ true
        → (ipc_win : Window L) × (o ≡ some ipc_win) × (ipc_win.is_focused ≡ true)

  Described-refl : (o : Option (Window L)) (w : Window L) → Described o w w
  Described-refl o w = record {
    same_id = refl;
    same_title = refl;
    same_app_id = refl;
    same_workspace_id = refl;
    same_is_floating = refl;
    same_is_urgent = refl;
    same_focus_timestamp = refl;
    layout = inl refl;
    focused = λ t. t;
    left = λ f t. absurd (cc (f, t));
  }

  -- What the small events make of the window itself.
  abbrev updated : Window L → Window L → Window L → Window L
  updated ipc_win w v = record v {
    is_focused = if w.is_focused && not ipc_win.is_focused then true else v.is_focused;
    focus_timestamp =
        if not (w.focus_timestamp === ipc_win.focus_timestamp)
        then w.focus_timestamp
        else v.focus_timestamp;
    is_urgent = if not (bool_beq w.is_urgent ipc_win.is_urgent) then w.is_urgent else v.is_urgent;
  }

  small_events-own :
      (ipc_win w v : Window L)
      → hits (small_events ipc_win w) w.id (some v) ≡ some (updated ipc_win w v)
  small_events-own ipc_win w v = ground arith

  unchanged_lem :
      (ipc_win w : Window L)
      → changed ipc_win w ≡ false
      → (ipc_win.title ≡ w.title)
        × (ipc_win.app_id ≡ w.app_id)
        × (ipc_win.workspace_id ≡ w.workspace_id)
        × (ipc_win.is_floating ≡ w.is_floating)
  unchanged_lem ipc_win w c = ground (
    arith,
    c,
    option_beq_iff ipc_win.title w.title,
    option_beq_iff ipc_win.app_id w.app_id,
    option_beq_iff ipc_win.workspace_id w.workspace_id,
    bool_beq_iff ipc_win.is_floating w.is_floating,
  )

  -- The entry that the refresh found, or the same without the focus if `w` is not focused.
  abbrev Before : Window L → Window L → Window L → Type 0
  Before ipc_win w v = (v ≡ ipc_win) ⊎ ((w.is_focused ≡ false) × (v ≡ unfocused ipc_win))

  updated-Described :
      (ipc_win w : Window L)
      → changed ipc_win w ≡ false
      → ipc_win.id ≡ w.id
      → Described (some ipc_win) w (updated ipc_win w ipc_win)
  updated-Described ipc_win w c i =
      let (t, a, s, fl) = unchanged_lem ipc_win w c in
      record {
        same_id = i;
        same_title = t;
        same_app_id = a;
        same_workspace_id = s;
        same_is_floating = fl;
        same_is_urgent = ground (arith, bool_beq_iff w.is_urgent ipc_win.is_urgent);
        same_focus_timestamp =
            ground (arith, option_beq_iff w.focus_timestamp ipc_win.focus_timestamp);
        layout = inr (ipc_win, refl, c, refl);
        focused = λ f. ground (arith, f);
        left = λ f g. (ipc_win, refl, ground (arith, f, g));
      }

  updated-Described-unfocused :
      (ipc_win w : Window L)
      → changed ipc_win w ≡ false
      → ipc_win.id ≡ w.id
      → w.is_focused ≡ false
      → Described (some ipc_win) w (updated ipc_win w (unfocused ipc_win))
  updated-Described-unfocused ipc_win w c i n =
      let d = updated-Described ipc_win w c i in
      record {
        same_id = i;
        same_title = d.same_title;
        same_app_id = d.same_app_id;
        same_workspace_id = d.same_workspace_id;
        same_is_floating = d.same_is_floating;
        same_is_urgent = d.same_is_urgent;
        same_focus_timestamp = d.same_focus_timestamp;
        layout = d.layout;
        focused = λ f. absurd (cc (n, f));
        left = λ f g. absurd (ground (arith, f, g));
      }

  abbrev pub HasEntry : Option (Window L) → Window L → Option (Window L) → Type 0
  HasEntry o w o' = (v : Window L) × (o' ≡ some v) × Described o w v

  opened-own :
      (o o1 : Option (Window L)) (w : Window L)
      → HasEntry o w (hit (window_opened_or_changed w) w.id o1)
  opened-own o o1 w = (w, ground arith, Described-refl o w)

  pub events_of-own :
      (b : Bool) (o o1 : Option (Window L)) (w : Window L)
      → ((ipc_win : Window L) → o ≡ some ipc_win → ipc_win.id ≡ w.id)
      → (b ≡ true → w.is_focused ≡ false)
      → Faded b o o1
      → HasEntry o w (hits (events_of w o) w.id o1)
  events_of-own b none o1 w i n f = opened-own none o1 w
  events_of-own b (some ipc_win) o1 w i n f = elim (Bool-cases (changed ipc_win w)) [
    | inl c ↦ rw c (opened-own (some ipc_win) o1 w)
    | inr c ↦ elim f [
      | inl p ↦ (
        updated ipc_win w ipc_win,
        rw (c, p) (small_events-own ipc_win w ipc_win),
        updated-Described ipc_win w c (i ipc_win refl),
      )
      | inr p ↦ (
        updated ipc_win w (unfocused ipc_win),
        rw (c, p.1) (small_events-own ipc_win w (unfocused ipc_win)),
        updated-Described-unfocused ipc_win w c (i ipc_win refl) (n p.0),
      )
    ]
  ]

  -- The events of the other windows leave the entry, and take its focus only if one of them has it.
  pub HasEntry-Faded :
      (b : Bool) (o : Option (Window L)) (w : Window L) (o1 o2 : Option (Window L))
      → (b ≡ true → w.is_focused ≡ false)
      → HasEntry o w o1
      → Faded b o1 o2
      → HasEntry o w o2
  HasEntry-Faded b o w o1 o2 n (v, e, d) (inl p) = (v, p ∙ e, d)
  HasEntry-Faded b o w o1 o2 n (v, e, d) (inr p) = (
    unfocused v,
    p.1 ∙ ap (over unfocused) e,
    record {
      same_id = d.same_id;
      same_title = d.same_title;
      same_app_id = d.same_app_id;
      same_workspace_id = d.same_workspace_id;
      same_is_floating = d.same_is_floating;
      same_is_urgent = d.same_is_urgent;
      same_focus_timestamp = d.same_focus_timestamp;
      layout = d.layout;
      focused = λ f. absurd (cc (n p.0, f));
      left = λ f g. absurd (cc g);
    },
  )
