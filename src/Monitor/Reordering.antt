-- ===== src/Monitor/Reordering.antt =====
-- `move_workspace_down` and `move_workspace_up` of src/layout/monitor.rs.
use macniri.Base.{
  ℕ, ◌+◌, ◌-◌, ◌<◌, ◌≡◌, ◌≢◌, ◌⊎◌, refl, subst, sym, ap, ◌∙◌, inl, inr, true, Option, none, some,
  List, arith, min, ◌==◌, length, get_elem?, swap_at, Swapped, swap_at-Swapped, get_elem?-lt,
  Bool-cases, ◌>>=◌,
}
use macniri.Monitor.Types.{Space, Motion, Workspace, Monitor}
use macniri.Monitor.Cleaning.{blank_at, Shape, used}
use macniri.Monitor.Defs.{activate_workspace, enter}
use macniri.Monitor.Moves.{
  bottom_if_last, top_if_first, settle_move, move_workspace_down, move_workspace_up,
}
use macniri.Monitor.Invariant.{IsValid, active_workspace, clean_up_workspaces-CleanedUp}
use macniri.Monitor.Growing.{bottom_if_last-Bottomed, top_if_first-Topped}

module _ {s : Space} {f : Motion} where
  -- Activating touches nothing but the active index, the previous workspace and the switch.
  pub record Activated (idx : ℕ) (m m' : Monitor s f) : Type 0 where
    pub active_idx : m'.active_workspace_idx ≡ idx
    pub same_workspaces : m'.workspaces ≡ m.workspaces
    pub same_above : m'.empty_workspace_above_first ≡ m.empty_workspace_above_first
    pub same_output : m'.output ≡ m.output

  pub activate_workspace-Activated :
      (idx : ℕ) (m : Monitor s f)
      → m.active_workspace_idx < length m.workspaces
      → (m' : Monitor s f) × (activate_workspace idx m ≡ some m') × Activated idx m m'
  unfolding activate_workspace
  activate_workspace-Activated idx m h =
      let (w, e) = get_elem?-lt m.workspaces m.active_workspace_idx h in
      elim (Bool-cases (m.active_workspace_idx == idx)) [
        | inl t ↦ (
          enter idx m.previous_workspace_id m,
          rw t refl,
          record {
            active_idx = refl;
            same_workspaces = refl;
            same_above = refl;
            same_output = refl;
          },
        )
        | inr t ↦ (
          enter idx (some w.id) m,
          rw t (rw e refl),
          record {
            active_idx = refl;
            same_workspaces = refl;
            same_above = refl;
            same_output = refl;
          },
        )
      ]

  -- The result of a move that made the list `ws`: a valid monitor with the used workspaces of `ws` in
  -- their order, in which what was active is still active.
  pub record Moved (ws : List (Workspace s)) (m m' : Monitor s f) : Type 0 where
    pub valid : IsValid m'
    pub same_used : used m'.workspaces ≡ used ws
    pub same_active : (active_workspace m' ≡ active_workspace m) ⊎ (length m'.workspaces ≡ 1)
    pub same_previous : m'.previous_workspace_id ≡ m.previous_workspace_id

  settle_move-Moved :
      (idx : ℕ) (ws : List (Workspace s)) (m0 m : Monitor s f)
      → used m.workspaces ≡ used ws
      → m.active_workspace_idx < length m.workspaces
      → Shape m.empty_workspace_above_first m.workspaces idx
      → get_elem? m.workspaces idx ≡ active_workspace m0
      → m.previous_workspace_id ≡ m0.previous_workspace_id
      → (m' : Monitor s f) × (settle_move idx m ≡ some m') × Moved ws m0 m'
  settle_move-Moved idx ws m0 m u r h a p =
      let (m1, e, w) = activate_workspace-Activated idx m r in
      let m2 : Monitor s f = record m1 {
        workspace_switch = none;
        previous_workspace_id = m.previous_workspace_id;
      } in
      let (m', e', c) =
        clean_up_workspaces-CleanedUp m2 (rw (w.same_above, w.same_workspaces, w.active_idx) h)
          refl in
      (
        m',
        rw e e',
        record {
          valid = c.valid;
          same_used = c.same_used ∙ (ap used w.same_workspaces ∙ u);
          same_active = elim c.same_active [
            | inl q ↦ inl (q ∙ (rw (w.same_workspaces, w.active_idx) a))
            | inr q ↦ inr q
          ];
          same_previous = c.same_previous ∙ p;
        },
      )

  -- The list with the moved workspace at its place, and what of it the rest of a move needs: `lo` and
  -- `hi` are the lower and the higher of the two places that were swapped.
  record Placed (lo hi target : ℕ) (m : Monitor s f) (ws : List (Workspace s)) : Type 0 where
    pub in_range : m.active_workspace_idx < length ws
    pub target_range : target < length ws
    pub last_blank : hi ≢ length ws - 1 → blank_at ws (length ws - 1) ≡ true
    pub first_blank : m.empty_workspace_above_first ≡ true → lo ≢ 0 → blank_at ws 0 ≡ true
    pub same_target : get_elem? ws target ≡ active_workspace m
    pub above : lo < hi

  finish_move : (lo hi target : ℕ) → Monitor s f → Option (Monitor s f)
  finish_move lo hi target m = do
    m1 ← bottom_if_last hi m
    (target', m2) ← top_if_first lo target m1
    settle_move target' m2

  finish_move-Moved :
      (lo hi target : ℕ) (m : Monitor s f) (ws : List (Workspace s))
      → Placed lo hi target m ws
      → (m1 m2 m' : Monitor s f) × (t : ℕ) × (bottom_if_last hi (record m { workspaces = ws })
          ≡ some m1)
        × (m1.active_workspace_idx ≡ m.active_workspace_idx)
        × (top_if_first lo target m1 ≡ some (t, m2))
        × (settle_move t m2 ≡ some m')
        × Moved ws m m'
  finish_move-Moved lo hi target m ws h =
      let m0 : Monitor s f = record m { workspaces = ws } in
      let (m1, p1, w1) = bottom_if_last-Bottomed hi m0 h.in_range h.last_blank in
      let at : (j : ℕ) → j < length ws → get_elem? m1.workspaces j ≡ get_elem? ws j = w1.same in
      let b2 : m1.empty_workspace_above_first ≡ true → lo ≢ 0 → blank_at m1.workspaces 0 ≡ true =
        λ e n. ground (
          arith,
          at 0 (omega (arith, h.in_range)),
          h.first_blank (sym w1.grown.same_above ∙ e) n,
        ) in
      let ((t, m2), p2, w2) =
        top_if_first-Topped lo target m1 w1.grown.in_range w1.grown.last_blank b2 in
      let l : target < length m1.workspaces = omega (arith, w1.grown.longer, h.target_range) in
      let shape : Shape m2.empty_workspace_above_first m2.workspaces t = record {
        in_range = w2.target_range l;
        last_blank = w2.grown.last_blank;
        first_blank = λ e. w2.first_blank (sym w2.grown.same_above ∙ e);
      } in
      let same = w2.same_target ∙ (at target h.target_range ∙ h.same_target) in
      let prev = w2.grown.same_previous ∙ w1.grown.same_previous in
      let (m', p3, w3) =
        settle_move-Moved t ws m m2 (w2.grown.same_used ∙ w1.grown.same_used) w2.grown.in_range
          shape same prev in
      (m1, m2, m', t, p1, w1.active_idx, p2, p3, w3)

  swap-Placed :
      (lo target : ℕ) (m : Monitor s f) (ws : List (Workspace s))
      → IsValid m
      → lo + 1 < length m.workspaces
      → (m.active_workspace_idx ≡ lo × target ≡ lo + 1)
        ⊎ (m.active_workspace_idx ≡ lo + 1 × target ≡ lo)
      → Swapped m.active_workspace_idx target m.workspaces ws
      → Placed lo (lo + 1) target m ws
  swap-Placed lo target m ws v r (inl (a, b)) w = record {
    in_range = omega (arith, w.same_length);
    target_range = omega (arith, w.same_length);
    last_blank =
        λ n. ground (arith, w.same_length, w.other (length m.workspaces - 1), v.shape.last_blank);
    first_blank = λ e n. ground (arith, w.other 0, v.shape.first_blank e);
    same_target = w.second;
    above = omega arith;
  }
  swap-Placed lo target m ws v r (inr (a, b)) w = record {
    in_range = omega (arith, w.same_length);
    target_range = omega (arith, w.same_length);
    last_blank =
        λ n. ground (arith, w.same_length, w.other (length m.workspaces - 1), v.shape.last_blank);
    first_blank = λ e n. ground (arith, w.other 0, v.shape.first_blank e);
    same_target = w.second;
    above = omega arith;
  }

  -- On a valid monitor `move_workspace_down` does not panic. Unless the active workspace is the last,
  -- the result is valid, has the used workspaces in the order with the active one and the next one
  -- swapped, and the same workspace is active unless only one is left; else nothing changes.
  pub move_workspace_down-Moved :
      (m : Monitor s f)
      → IsValid m
      → (m' : Monitor s f) × (move_workspace_down m ≡ some m')
        × ((m.active_workspace_idx ≡ length m.workspaces - 1 × m' ≡ m)
            ⊎ ((ws : List (Workspace s)) × (swap_at m.active_workspace_idx
                    (m.active_workspace_idx + 1)
                    m.workspaces
                  ≡ some ws)
                × Moved ws m m'))
  unfolding move_workspace_down
  move_workspace_down-Moved m v =
      let active = m.active_workspace_idx in
      let new_idx = min (active + 1) (length m.workspaces - 1) in
      elim (Bool-cases (new_idx == active)) [
        | inl e ↦ (m, rw e refl, inl (ground (arith, e, v.shape.in_range), refl))
        | inr e ↦
            let r : active < length m.workspaces = v.shape.in_range in
            let ne : new_idx ≡ active + 1 = ground (arith, e) in
            let r' : new_idx < length m.workspaces = omega arith in
            let (ws, p, w) = swap_at-Swapped active new_idx m.workspaces r r' in
            let placed = swap-Placed active new_idx m ws v (omega arith) (inl (refl, ne)) w in
            let (m1, m2, m', t, p1, q, p2, p3, w3) =
              finish_move-Moved active (active + 1) new_idx m ws placed in
            (
              m',
              ground (arith, e, p, ne, p1, q, p2, p3),
              inr (ws, subst (λ i. swap_at active i m.workspaces ≡ some ws) ne p, w3),
            )
      ]

  -- On a valid monitor `move_workspace_up` does not panic. Unless the active workspace is the first,
  -- the result is valid, has the used workspaces in the order with the active one and the previous one
  -- swapped, and the same workspace is active unless only one is left; else nothing changes.
  pub move_workspace_up-Moved :
      (m : Monitor s f)
      → IsValid m
      → (m' : Monitor s f) × (move_workspace_up m ≡ some m')
        × ((m.active_workspace_idx ≡ 0 × m' ≡ m)
            ⊎ ((ws : List (Workspace s)) × (swap_at m.active_workspace_idx
                    (m.active_workspace_idx - 1)
                    m.workspaces
                  ≡ some ws)
                × Moved ws m m'))
  unfolding move_workspace_up
  move_workspace_up-Moved m v =
      let active = m.active_workspace_idx in
      let new_idx = active - 1 in
      elim (Bool-cases (new_idx == active)) [
        | inl e ↦ (m, rw e refl, inl (ground (arith, e, v.shape.in_range), refl))
        | inr e ↦
            let r : active < length m.workspaces = v.shape.in_range in
            let ne : active ≡ new_idx + 1 = ground (arith, e) in
            let r' : new_idx < length m.workspaces = omega arith in
            let (ws, p, w) = swap_at-Swapped active new_idx m.workspaces r r' in
            let placed = swap-Placed new_idx new_idx m ws v (omega arith) (inr (ne, refl)) w in
            let (m1, m2, m', t, p1, q, p2, p3, w3) =
              finish_move-Moved new_idx (new_idx + 1) new_idx m ws placed in
            (m', ground (arith, e, p, p1, p2, p3), inr (ws, p, w3))
      ]
