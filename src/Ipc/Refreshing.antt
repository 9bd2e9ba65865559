-- ===== src/Ipc/Refreshing.antt =====
-- The entries of the map of windows after each part of `ipc_refresh_windows`, src/ipc/server.rs.
use macniri.Base.{
  ℕ, zero, suc, ◌≡◌, ◌≢◌, refl, ap, ◌∙◌, inl, inr, Bool, true, false, ◌&&◌, ◌||◌, Option, none,
  some, List, [], ◌∷◌, ◌++◌, arith, ◌==◌, if◌then◌else◌, get, get_elem?, Bool-cases, subst,
}
use macniri.Ipc.Types.{Window}
use macniri.Ipc.Replicate.{Keyed}
use macniri.Ipc.Refresh.{
  events_of, window_events, seen, any_focused, layout_change, batch_change_layouts, layout_events,
}
use macniri.Ipc.Effects.{over, hits, hits-append, relayout, Keyed-get}
use macniri.Ipc.Entries.{
  Faded, Faded-trans, events_of-other, window_events-other, HasEntry, events_of-own, HasEntry-Faded,
}

module _ {L : Type 0} where
  -- Windows with different ids, at most one of them focused.
  abbrev pub IsSnapshot : List (Window L) → Type 0
  IsSnapshot [] = Unit
  IsSnapshot (w ∷ ws) =
      (seen ws w.id ≡ false) × ((w.is_focused && any_focused ws) ≡ false) × IsSnapshot ws

  pub seen-get :
      (ws : List (Window L)) (i : ℕ) {w : Window L} → get_elem? ws i ≡ some w → seen ws w.id ≡ true
  seen-get [] i e = absurd (cc e)
  seen-get (u ∷ ws) zero {w} e = ground (arith, e)
  seen-get (u ∷ ws) (suc i) {w} e = ground (arith, seen-get ws i {w = w} e)

  pub any_focused-get :
      (ws : List (Window L)) (i : ℕ) {w : Window L}
      → get_elem? ws i ≡ some w
      → w.is_focused ≡ true
      → any_focused ws ≡ true
  any_focused-get [] i e f = absurd (cc e)
  any_focused-get (u ∷ ws) zero {w} e f = ground (arith, e, f)
  any_focused-get (u ∷ ws) (suc i) {w} e f = ground (arith, any_focused-get ws i {w = w} e f)

  pub focused_window :
      (ws : List (Window L))
      → any_focused ws ≡ true
      → (i : ℕ) × (w : Window L) × (get_elem? ws i ≡ some w) × (w.is_focused ≡ true)
  focused_window [] h = absurd (cc h)
  focused_window (u ∷ ws) h = elim (Bool-cases u.is_focused) [
    | inl t ↦ (0, u, refl, t)
    | inr t ↦ let (i, w, e, f) = focused_window ws (ground (arith, h, t)) in (suc i, w, e, f)
  ]

  -- Two windows of a snapshot with the same id have the same focus.
  pub same_focus :
      (ws : List (Window L)) (i j : ℕ) {w v : Window L}
      → IsSnapshot ws
      → get_elem? ws i ≡ some w
      → get_elem? ws j ≡ some v
      → w.id ≡ v.id
      → w.is_focused ≡ v.is_focused
  same_focus [] i j s e d h = absurd (cc e)
  same_focus (u ∷ ws) zero zero {w} {v} s e d h = ground (arith, e, d)
  same_focus (u ∷ ws) zero (suc j) {w} {v} s e d h =
      absurd (ground (arith, e, h, s.0, seen-get ws j {w = v} d))
  same_focus (u ∷ ws) (suc i) zero {w} {v} s e d h =
      absurd (ground (arith, d, h, s.0, seen-get ws i {w = w} e))
  same_focus (u ∷ ws) (suc i) (suc j) {w} {v} s e d h = same_focus ws i j {w = w} {v = v} s.2 e d h

  window_events-first :
      (b : Bool) (m : List (ℕ × Window L)) (ws : List (Window L)) (w : Window L)
      (o : Option (Window L))
      → (seen ws w.id ≡ false) × ((w.is_focused && any_focused ws) ≡ false)
      → Keyed (λ v. v.id) m
      → (b ≡ true → w.is_focused ≡ false)
      → Faded b (get w.id m) o
      → HasEntry (get w.id m) w (hits (window_events m (w ∷ ws)) w.id o)
  unfolding window_events
  window_events-first b m ws w o s k n f =
      let o1 = hits (events_of w (get w.id m)) w.id o in
      let own =
        events_of-own b (get w.id m) o w (λ v g. Keyed-get (λ v. v.id) w.id m {v = v} k g) n f in
      rw (hits-append (events_of w (get w.id m)) (window_events m ws) w.id o) (
        HasEntry-Faded (any_focused ws) (get w.id m) w o1 (hits (window_events m ws) w.id o1)
          (λ t. ground (arith, t, s.1)) own (window_events-other m ws w.id o1 s.0))

  pub window_events-own :
      (b : Bool) (m : List (ℕ × Window L)) (ws : List (Window L)) (i : ℕ) {w : Window L}
      (o : Option (Window L))
      → IsSnapshot ws
      → Keyed (λ v. v.id) m
      → get_elem? ws i ≡ some w
      → (b ≡ true → w.is_focused ≡ false)
      → Faded b (get w.id m) o
      → HasEntry (get w.id m) w (hits (window_events m ws) w.id o)
  unfolding window_events
  window_events-own b m [] i o s k e n f = absurd (cc e)
  window_events-own b m (u ∷ ws) zero {w} o s k e n f =
      subst
        (λ v.
          (b ≡ true → v.is_focused ≡ false)
          → Faded b (get v.id m) o
          → HasEntry (get v.id m) v (hits (window_events m (u ∷ ws)) v.id o))
        {x = u} {y = w} (cc e) (window_events-first b m ws u o (s.0, s.1) k) n f
  window_events-own b m (u ∷ ws) (suc i) {w} o s k e n f =
      let ne : u.id ≢ w.id = ground (arith, s.0, seen-get ws i {w = w} e) in
      let o1 = hits (events_of u (get u.id m)) w.id o in
      let f1 = events_of-other u (get u.id m) w.id o ne in
      let n1 : (b || u.is_focused) ≡ true → w.is_focused ≡ false =
        λ t. ground (arith, t, n, s.1, any_focused-get ws i {w = w} e) in
      rw (hits-append (events_of u (get u.id m)) (window_events m ws) w.id o) (
        window_events-own (b || u.is_focused) m ws i {w = w} o1 s.2 k e n1
          (Faded-trans b u.is_focused (get w.id m) o o1 f f1))

  module _ (same_layout : L → L → Bool) where
    relayout-append :
        (j : ℕ) (a b : List (ℕ × L)) (o : Option (Window L))
        → relayout j (a ++ b) o ≡ relayout j b (relayout j a o)
    relayout-append j [] b o = refl
    relayout-append j ((id, u) ∷ a) b o =
        relayout-append j a b (if id == j then over (λ w. record w { layout = u }) o else o)

    change-other :
        (u : Window L) (ipc : Option (Window L)) (j : ℕ) (o : Option (Window L))
        → u.id ≢ j
        → relayout j (layout_change same_layout u ipc) o ≡ o
    change-other u none j o ne = refl
    change-other u (some ipc_win) j o ne = ground (arith, ne)

    pub batch-other :
        (m : List (ℕ × Window L)) (ws : List (Window L)) (j : ℕ) (o : Option (Window L))
        → seen ws j ≡ false
        → relayout j (batch_change_layouts same_layout m ws) o ≡ o
    unfolding batch_change_layouts
    batch-other m [] j o s = refl
    batch-other m (u ∷ ws) j o s =
        relayout-append j (layout_change same_layout u (get u.id m))
          (batch_change_layouts same_layout m ws) o
        ∙ (batch-other m ws j _ (ground (arith, s))
            ∙ change-other u (get u.id m) j o (ground (arith, s)))

    pub batch-own :
        (m : List (ℕ × Window L)) (ws : List (Window L)) (i : ℕ) {w : Window L}
        (o : Option (Window L))
        → IsSnapshot ws
        → get_elem? ws i ≡ some w
        → relayout w.id (batch_change_layouts same_layout m ws) o
          ≡ relayout w.id (layout_change same_layout w (get w.id m)) o
    unfolding batch_change_layouts
    batch-own m [] i o s e = absurd (cc e)
    batch-own m (u ∷ ws) zero {w} o s e =
        subst
          (λ v.
            relayout v.id (batch_change_layouts same_layout m (u ∷ ws)) o
            ≡ relayout v.id (layout_change same_layout v (get v.id m)) o)
          {x = u} {y = w} (cc e)
          (relayout-append u.id (layout_change same_layout u (get u.id m))
              (batch_change_layouts same_layout m ws) o
            ∙ batch-other m ws u.id _ s.0)
    batch-own m (u ∷ ws) (suc i) {w} o s e =
        let ne : u.id ≢ w.id = ground (arith, s.0, seen-get ws i {w = w} e) in
        relayout-append w.id (layout_change same_layout u (get u.id m))
          (batch_change_layouts same_layout m ws) o
        ∙ (ap (relayout w.id (batch_change_layouts same_layout m ws))
              (change-other u (get u.id m) w.id o ne)
            ∙ batch-own m ws i {w = w} o s.2 e)

  pub hits-layout_events :
      (changes : List (ℕ × L)) (j : ℕ) (o : Option (Window L))
      → hits (layout_events changes) j o ≡ relayout j changes o
  hits-layout_events [] j o = refl
  hits-layout_events (c ∷ changes) j o = refl
