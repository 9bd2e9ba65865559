-- ===== src/Ipc/Focus.antt =====
-- What `apply` of niri-ipc/src/state.rs keeps of the two maps: one entry for each id, at most one focused
-- window, at most one active workspace on an output.
use macniri.Base.{
  ℕ, ◌≡◌, refl, sym, ap, subst, nat_eq, option_eq, ◌∙◌, inl, inr, Bool, true, false, Option, none,
  some, List, [], ◌∷◌, arith, get, put, delete, adjust, map_values, ◌==◌, ◌===◌, Bool-cases,
  Option-cases, get-put, get-delete, get-map_values, change_first,
}
use macniri.Ipc.Types.{
  Window, Event, windows_changed, window_opened_or_changed, window_closed, window_focus_changed,
  window_focus_timestamp_changed, window_urgency_changed, window_layouts_changed,
}
use macniri.Ipc.State.{collect_onto, unfocus_others, settle_focus, change_layouts, apply_windows}

same_id : (id : Option ℕ) (i j : ℕ) → (some i === id) ≡ true → (some j === id) ≡ true → i ≡ j
same_id none i j h k = absurd (cc h)
same_id (some x) i j h k = ground arith

module _ {L : Type 0} where
  -- Every window is found under its id, and at most one is focused.
  pub record IsConsistent (m : List (ℕ × Window L)) : Type 0 where
    pub by_id : (j : ℕ) (w : Window L) → get j m ≡ some w → w.id ≡ j
    pub one_focused :
        (i j : ℕ) (w v : Window L)
        → get i m ≡ some w
        → get j m ≡ some v
        → w.is_focused ≡ true
        → v.is_focused ≡ true
        → i ≡ j

  -- Every window of the second map is one of the first, with the same focus and id.
  abbrev Kept : List (ℕ × Window L) → List (ℕ × Window L) → Type 0
  Kept m m' =
      (j : ℕ) (v' : Window L)
      → get j m' ≡ some v'
      → (v : Window L) × (get j m ≡ some v) × (v'.is_focused ≡ v.is_focused) × (v'.id ≡ v.id)

  Kept-IsConsistent : (m m' : List (ℕ × Window L)) → Kept m m' → IsConsistent m → IsConsistent m'
  Kept-IsConsistent m m' k c = record {
    by_id = λ j w e. let (v, p, f, i) = k j w e in i ∙ c.by_id j v p;
    one_focused = λ i j w v e d x y.
        let (w0, p, f, _) = k i w e in
        let (v0, q, g, _) = k j v d in c.one_focused i j w0 v0 p q (sym f ∙ x) (sym g ∙ y);
  }

  -- A change that touches neither the focus nor the id.
  abbrev Harmless : (Window L → Window L) → Type 0
  Harmless f = (w : Window L) → ((f w).is_focused ≡ w.is_focused) × ((f w).id ≡ w.id)

  change_first-Kept :
      (p : Window L → Bool) (f : Window L → Window L)
      → Harmless f
      → (m : List (ℕ × Window L)) → Kept m (change_first p f m)
  change_first-Kept p f h [] j v' e = absurd (cc e)
  change_first-Kept p f h ((i, w) ∷ m) j v' e = elim (Bool-cases (i == j)) [
    | inl t ↦ (w, ground (arith, t), ground (arith, t, e, h w), ground (arith, t, e, h w))
    | inr t ↦ elim (Bool-cases (p w)) [
      | inl q ↦ (v', ground (arith, t, e, q), refl, refl)
      | inr q ↦
          let (v, g, x, y) = change_first-Kept p f h m j v' (ground (arith, t, e, q)) in
          (v, ground (arith, t, g), x, y)
    ]
  ]

  adjust-Kept :
      (k : ℕ) (f : Window L → Window L)
      → Harmless f
      → (m : List (ℕ × Window L)) → Kept m (adjust k f m)
  adjust-Kept k f h [] j v' e = absurd (cc e)
  adjust-Kept k f h ((i, w) ∷ m) j v' e = elim (Bool-cases (i == j)) [
    | inl t ↦ (w, ground (arith, t), ground (arith, t, e, h w), ground (arith, t, e, h w))
    | inr t ↦ elim (Bool-cases (i == k)) [
      | inl q ↦ (v', ground (arith, t, e, q), refl, refl)
      | inr q ↦
          let (v, g, x, y) = adjust-Kept k f h m j v' (ground (arith, t, e, q)) in
          (v, ground (arith, t, g), x, y)
    ]
  ]

  change_layouts-Kept :
      (changes : List (ℕ × L)) (m m' : List (ℕ × Window L))
      → change_layouts changes m ≡ some m'
      → IsConsistent m
      → IsConsistent m'
  change_layouts-Kept [] m m' e c = subst IsConsistent {x = m} {y = m'} (cc e) c
  change_layouts-Kept ((id, u) ∷ changes) m m' e c = elim (Option-cases (get id m)) [
    | inl g ↦ absurd (cc (rw (change_layouts, g) at e))
    | inr (w, g) ↦
        change_layouts-Kept changes (adjust id (λ w. record w { layout = u }) m) m'
          (rw (change_layouts, g) at e)
          (Kept-IsConsistent m _
            (adjust-Kept id (λ w. record w { layout = u }) (λ w. (refl, refl)) m) c)
  ]

  abbrev focus_on : Option ℕ → Window L → Window L
  focus_on id w = record w { is_focused = some w.id === id }

  only_focused : (id : ℕ) (w : Window L) → (unfocus_others id w).is_focused ≡ true → w.id ≡ id
  only_focused id w h = ground arith

  focus_changed-IsConsistent :
      (id : Option ℕ) (m : List (ℕ × Window L))
      → IsConsistent m
      → IsConsistent (map_values (focus_on id) m)
  focus_changed-IsConsistent id m c = record {
    by_id = λ j w e.
        let (w0, p, q) = get-map_values j (focus_on id) m w e in ap (λ v. v.id) q ∙ c.by_id j w0 p;
    one_focused = λ i j w v e d x y.
        let (w0, p, q) = get-map_values i (focus_on id) m w e in
        let (v0, p', q') = get-map_values j (focus_on id) m v d in
        let fw : (some w0.id === id) ≡ true = sym (ap (λ u. u.is_focused) q) ∙ x in
        let fv : (some v0.id === id) ≡ true = sym (ap (λ u. u.is_focused) q') ∙ y in
        sym (c.by_id i w0 p) ∙ (same_id id w0.id v0.id fw fv ∙ c.by_id j v0 p');
  }

  unfocus_others-IsConsistent :
      (id : ℕ) (m : List (ℕ × Window L))
      → ((j : ℕ) (w : Window L) → get j m ≡ some w → w.id ≡ j)
      → IsConsistent (map_values (unfocus_others id) m)
  unfocus_others-IsConsistent id m c = record {
    by_id = λ j w e.
        let (w0, p, q) = get-map_values j (unfocus_others id) m w e in
        let i : (unfocus_others id w0).id ≡ w0.id = ground arith in
        ap (λ v. v.id) q ∙ (i ∙ c j w0 p);
    one_focused = λ i j w v e d x y.
        let (w0, p, q) = get-map_values i (unfocus_others id) m w e in
        let (v0, p', q') = get-map_values j (unfocus_others id) m v d in
        let fw : (unfocus_others id w0).is_focused ≡ true = sym (ap (λ u. u.is_focused) q) ∙ x in
        let fv : (unfocus_others id v0).is_focused ≡ true = sym (ap (λ u. u.is_focused) q') ∙ y in
        sym (c i w0 p) ∙ (only_focused id w0 fw ∙ (sym (only_focused id v0 fv) ∙ c j v0 p'));
  }

  put-by_id :
      (w : Window L) (m : List (ℕ × Window L))
      → ((j : ℕ) (v : Window L) → get j m ≡ some v → v.id ≡ j)
      → (j : ℕ) (v : Window L) → get j (put w.id w m) ≡ some v
      → v.id ≡ j
  put-by_id w m c j v e = ground (arith, get-put w.id j w m, e, c j v)

  put-IsConsistent :
      (w : Window L) (m : List (ℕ × Window L))
      → w.is_focused ≡ false
      → IsConsistent m
      → IsConsistent (put w.id w m)
  put-IsConsistent w m f c = record {
    by_id = put-by_id w m c.by_id;
    one_focused = λ i j u v e d x y.
        ground
          (arith, f, get-put w.id i w m, get-put w.id j w m, e, d, x, y, c.one_focused i j u v);
  }

  opened-IsConsistent :
      (w : Window L) (m : List (ℕ × Window L)) (focused : Bool)
      → w.is_focused ≡ focused
      → IsConsistent m
      → IsConsistent (settle_focus focused w.id (put w.id w m))
  opened-IsConsistent w m true f c =
      unfocus_others-IsConsistent w.id (put w.id w m) (put-by_id w m c.by_id)
  opened-IsConsistent w m false f c = put-IsConsistent w m f c

  delete-IsConsistent :
      (k : ℕ) (m : List (ℕ × Window L)) → IsConsistent m → IsConsistent (delete k m)
  delete-IsConsistent k m c = record {
    by_id = λ j v e. ground (arith, get-delete k j m, e, c.by_id j v);
    one_focused = λ i j u v e d x y.
        ground (arith, get-delete k i m, get-delete k j m, e, d, x, y, c.one_focused i j u v);
  }

  -- A list of windows that itself has at most one focused window for the map it makes.
  abbrev pub CarriesOneFocus : Event L → Type 0
  CarriesOneFocus (windows_changed ws) = IsConsistent (collect_onto (λ w. w.id) [] ws)
  CarriesOneFocus event = Unit

  abbrev pub IsConsistentResult : Option (List (ℕ × Window L) × Option (Event L)) → Type 0
  IsConsistentResult none = Unit
  IsConsistentResult (some (m, rest)) = IsConsistent m

  -- If each window is found under its id, at most one is focused, and a full list of windows that the
  -- event may carry has the same two properties, then `apply` keeps them for every event.
  pub apply_windows-IsConsistentResult :
      (event : Event L) (m : List (ℕ × Window L))
      → IsConsistent m
      → CarriesOneFocus event
      → IsConsistentResult (apply_windows event m)
  unfolding apply_windows
  apply_windows-IsConsistentResult (windows_changed ws) m c k = k
  apply_windows-IsConsistentResult (window_opened_or_changed w) m c k =
      opened-IsConsistent w m w.is_focused refl c
  apply_windows-IsConsistentResult (window_closed id) m c k = elim (Option-cases (get id m)) [
    | inl g ↦ rw (g, apply_windows) tt
    | inr (w, g) ↦ rw (g, apply_windows) (delete-IsConsistent id m c)
  ]
  apply_windows-IsConsistentResult (window_focus_changed id) m c k =
      focus_changed-IsConsistent id m c
  apply_windows-IsConsistentResult (window_focus_timestamp_changed id t) m c k =
      Kept-IsConsistent m _
        (change_first-Kept (λ w. w.id == id) (λ w. record w { focus_timestamp = t })
          (λ w. (refl, refl)) m)
        c
  apply_windows-IsConsistentResult (window_urgency_changed id u) m c k =
      Kept-IsConsistent m _
        (change_first-Kept (λ w. w.id == id) (λ w. record w { is_urgent = u }) (λ w. (refl, refl))
          m)
        c
  apply_windows-IsConsistentResult (window_layouts_changed changes) m c k =
      elim (Option-cases (change_layouts changes m)) [
        | inl g ↦ rw (g, apply_windows) tt
        | inr (m', g) ↦ rw (g, apply_windows) (change_layouts-Kept changes m m' g c)
      ]
  apply_windows-IsConsistentResult _ m c k = c
