-- ===== src/Ipc/Active.antt =====
-- What `apply` of niri-ipc/src/state.rs keeps of the map of workspaces.
use Prim.Native.String.{String}
use macniri.Base.{
  ℕ, ◌≡◌, ◌⊎◌, sym, ap, ◌∙◌, inl, inr, Bool, true, false, Option, none, some, List, [], arith, get,
  map_values, get-map_values, get-adjust, ◌==◌, ◌===◌, option_eq, string_eq, if◌then◌else◌,
  Bool-cases, Option-cases,
}
use macniri.Ipc.Types.{
  Workspace, Event, workspaces_changed, workspace_urgency_changed, workspace_activated,
  workspace_active_window_changed,
}
use macniri.Ipc.State.{collect_onto, activate_on, apply_workspaces}

-- Every workspace is found under its id, at most one on each output is active, at most one is focused.
pub record IsExclusive (m : List (ℕ × Workspace)) : Type 0 where
  pub by_id : (j : ℕ) (w : Workspace) → get j m ≡ some w → w.id ≡ j
  pub one_active :
      (i j : ℕ) (w v : Workspace)
      → get i m ≡ some w
      → get j m ≡ some v
      → w.output ≡ v.output
      → w.is_active ≡ true
      → v.is_active ≡ true
      → i ≡ j
  pub one_focused :
      (i j : ℕ) (w v : Workspace)
      → get i m ≡ some w
      → get j m ≡ some v
      → w.is_focused ≡ true
      → v.is_focused ≡ true
      → i ≡ j

-- A change that touches none of these.
abbrev Harmless : Workspace → Workspace → Type 0
Harmless v w =
    (w.id ≡ v.id)
    × (w.output ≡ v.output)
    × (w.is_active ≡ v.is_active)
    × (w.is_focused ≡ v.is_focused)

abbrev Kept : List (ℕ × Workspace) → List (ℕ × Workspace) → Type 0
Kept m m' =
    (j : ℕ) (w : Workspace)
    → get j m' ≡ some w
    → (v : Workspace) × (get j m ≡ some v) × Harmless v w

Kept-IsExclusive : (m m' : List (ℕ × Workspace)) → Kept m m' → IsExclusive m → IsExclusive m'
Kept-IsExclusive m m' k c = record {
  by_id = λ j w e. let (v, p, h) = k j w e in h.0 ∙ c.by_id j v p;
  one_active = λ i j w v e d o x y.
      let (w0, p, h) = k i w e in
      let (v0, q, g) = k j v d in
      c.one_active i j w0 v0 p q (sym h.1 ∙ (o ∙ g.1)) (sym h.2 ∙ x) (sym g.2 ∙ y);
  one_focused = λ i j w v e d x y.
      let (w0, p, h) = k i w e in
      let (v0, q, g) = k j v d in c.one_focused i j w0 v0 p q (sym h.3 ∙ x) (sym g.3 ∙ y);
}

-- What an activation makes of a workspace, in terms of its fields.
activated_alone :
    (id : ℕ) (o : Option String) (f : Bool) (w v : Workspace)
    → w.output ≡ v.output
    → (activate_on id o f w).is_active ≡ true
    → (activate_on id o f v).is_active ≡ true
    → (w.id ≡ v.id) ⊎ (w.is_active ≡ true × v.is_active ≡ true)
activated_alone id o f w v e x y = elim (Bool-cases (w.output === o)) [
  | inl t ↦ inl (ground (arith, t, e, x, y))
  | inr t ↦ inr (ground (arith, t, e, x, y))
]

focused_alone :
    (id : ℕ) (o : Option String) (f : Bool) (w v : Workspace)
    → (activate_on id o f w).is_focused ≡ true
    → (activate_on id o f v).is_focused ≡ true
    → (w.id ≡ v.id) ⊎ (w.is_focused ≡ true × v.is_focused ≡ true)
focused_alone id o true w v x y = inl (ground arith)
focused_alone id o false w v x y = inr (x, y)

activate_on-IsExclusive :
    (id : ℕ) (o : Option String) (f : Bool) (m : List (ℕ × Workspace))
    → IsExclusive m
    → IsExclusive (map_values (activate_on id o f) m)
activate_on-IsExclusive id o f m c = record {
  by_id = λ j w e.
      let (v, p, q) = get-map_values j (activate_on id o f) m w e in
      ap (λ u. u.id) q ∙ c.by_id j v p;
  one_active = λ i j w v e d s x y.
      let (w0, p, q) = get-map_values i (activate_on id o f) m w e in
      let (v0, p', q') = get-map_values j (activate_on id o f) m v d in
      let s0 : w0.output ≡ v0.output = sym (ap (λ u. u.output) q) ∙ (s ∙ ap (λ u. u.output) q') in
      let x0 : (activate_on id o f w0).is_active ≡ true = sym (ap (λ u. u.is_active) q) ∙ x in
      let y0 : (activate_on id o f v0).is_active ≡ true = sym (ap (λ u. u.is_active) q') ∙ y in
      elim (activated_alone id o f w0 v0 s0 x0 y0) [
        | inl z ↦ sym (c.by_id i w0 p) ∙ (z ∙ c.by_id j v0 p')
        | inr z ↦ c.one_active i j w0 v0 p p' s0 z.0 z.1
      ];
  one_focused = λ i j w v e d x y.
      let (w0, p, q) = get-map_values i (activate_on id o f) m w e in
      let (v0, p', q') = get-map_values j (activate_on id o f) m v d in
      let x0 : (activate_on id o f w0).is_focused ≡ true = sym (ap (λ u. u.is_focused) q) ∙ x in
      let y0 : (activate_on id o f v0).is_focused ≡ true = sym (ap (λ u. u.is_focused) q') ∙ y in
      elim (focused_alone id o f w0 v0 x0 y0) [
        | inl z ↦ sym (c.by_id i w0 p) ∙ (z ∙ c.by_id j v0 p')
        | inr z ↦ c.one_focused i j w0 v0 p p' z.0 z.1
      ];
}

module _ {L : Type 0} where
  -- A full list of workspaces that itself has these properties.
  abbrev pub CarriesExclusive : Event L → Type 0
  CarriesExclusive (workspaces_changed ws) = IsExclusive (collect_onto (λ w. w.id) [] ws)
  CarriesExclusive event = Unit

  abbrev pub IsExclusiveResult : Option (List (ℕ × Workspace) × Option (Event L)) → Type 0
  IsExclusiveResult none = Unit
  IsExclusiveResult (some (m, rest)) = IsExclusive m

  -- If each workspace is found under its id, at most one on each output is active and at most one is
  -- focused, and a full list of workspaces that the event may carry has the same properties, then
  -- `apply` keeps them for every event.
  pub apply_workspaces-IsExclusiveResult :
      (event : Event L) (m : List (ℕ × Workspace))
      → IsExclusive m
      → CarriesExclusive event
      → IsExclusiveResult (apply_workspaces event m)
  unfolding apply_workspaces
  apply_workspaces-IsExclusiveResult (workspaces_changed ws) m c k = k
  apply_workspaces-IsExclusiveResult (workspace_urgency_changed id urgent) m c k =
      Kept-IsExclusive m _
        (λ j w e.
          let (v, p, q) =
            get-map_values j (λ w. if w.id == id then record w { is_urgent = urgent } else w) m w
              e in
          (v, p, ground (arith, q)))
        c
  apply_workspaces-IsExclusiveResult (workspace_activated id focused) m c k =
      elim (Option-cases (get id m)) [
        | inl g ↦ rw (g, apply_workspaces) tt
        | inr (w, g) ↦ rw (g, apply_workspaces) (activate_on-IsExclusive id w.output focused m c)
      ]
  apply_workspaces-IsExclusiveResult (workspace_active_window_changed id active) m c k =
      elim (Option-cases (get id m)) [
        | inl g ↦ rw (g, apply_workspaces) tt
        | inr (w, g) ↦
            rw (g, apply_workspaces)
              (Kept-IsExclusive m _
                (λ j w e.
                  let (v, p, q) =
                    get-adjust id j (λ w. record w { active_window_id = active }) m w e in
                  (v, p, ground (arith, q)))
                c)
      ]
  apply_workspaces-IsExclusiveResult _ m c k = c
