-- ===== src/Monitor/Exchanging.antt =====
-- `remove_workspace_by_idx` and `insert_workspace` of src/layout/monitor.rs.
use macniri.Base.{
  ℕ, suc, ◌-◌, ◌≤◌, ◌<◌, ◌≡◌, ◌≢◌, ◌⊎◌, refl, sym, ap, ◌∙◌, inl, inr, Bool, true, false, Option,
  none, some, arith, ◌==◌, leb, if◌then◌else◌, length, get_elem?, insert_at, erase_idx,
  length-insert_at, length-erase_idx, get_elem?-insert_at, get_elem?-erase_idx, get_elem?-lt,
  Bool-cases, ◌>>=◌,
}
use macniri.Monitor.Types.{Space, Motion, Workspace, Monitor}
use macniri.Monitor.Workspaces.{set_output, update_config}
use macniri.Monitor.Cleaning.{blank_at, Shape, used}
use macniri.Monitor.Defs.{clean_up_workspaces, activate_workspace}
use macniri.Monitor.Moves.{
  without_switch, take_workspace, put_workspace, step_back, remove_workspace_by_idx,
  insert_workspace,
}
use macniri.Monitor.Invariant.{HasShape, IsValid, active_workspace, clean_up_workspaces-CleanedUp}
use macniri.Monitor.Reordering.{activate_workspace-Activated}
use macniri.Monitor.Growing.{bottom_if_last-Bottomed, top_if_first-Topped}

module _ {s : Space} {f : Motion} where
  -- What is left is valid, and the active workspace is still active unless it is the removed one.
  pub record Removed (idx : ℕ) (m m' : Monitor s f) : Type 0 where
    pub valid : IsValid m'
    pub same_used : used m'.workspaces ≡ used (erase_idx idx m.workspaces)
    pub same_output : m'.output ≡ m.output
    pub same_active :
        (idx ≡ m.active_workspace_idx)
        ⊎ ((active_workspace m' ≡ active_workspace m) ⊎ (length m'.workspaces ≡ 1))

  removed-Shape :
      (idx : ℕ) (m : Monitor s f)
      → m.active_workspace_idx < length m.workspaces
      → idx < length m.workspaces - 1
      → blank_at m.workspaces (length m.workspaces - 1) ≡ true
      → (m.empty_workspace_above_first ≡ true → blank_at m.workspaces 0 ≡ true)
      → (m.empty_workspace_above_first ≡ true → idx ≢ 0)
      → HasShape (step_back idx (record m { workspaces = erase_idx idx m.workspaces }))
  removed-Shape idx m r l b c n =
      let len = length-erase_idx idx m.workspaces (omega arith) in
      record {
        in_range = ground (arith, len);
        last_blank = ground (
          arith,
          len,
          b,
          get_elem?-erase_idx idx (length (erase_idx idx m.workspaces) - 1) m.workspaces,
        );
        first_blank = λ e. ground (arith, c e, n e, get_elem?-erase_idx idx 0 m.workspaces);
      }

  remove_active :
      (idx : ℕ) (m : Monitor s f)
      → idx ≢ m.active_workspace_idx
      → active_workspace (step_back idx (record m { workspaces = erase_idx idx m.workspaces }))
        ≡ active_workspace m
  remove_active idx m n = ground (
    arith,
    get_elem?-erase_idx idx m.active_workspace_idx m.workspaces,
    get_elem?-erase_idx idx (m.active_workspace_idx - 1) m.workspaces,
  )

  -- On a valid monitor and an index in its list `remove_workspace_by_idx` does not panic: it returns the
  -- workspace at the index without its output, and leaves a valid monitor with the other used workspaces
  -- in their order, on which the same workspace is active unless it was the removed one or only one is
  -- left.
  pub remove_workspace_by_idx-Removed :
      (idx : ℕ) (m : Monitor s f)
      → IsValid m
      → idx < length m.workspaces
      → (w : Workspace s) × (m' : Monitor s f) × (get_elem? m.workspaces idx ≡ some w)
        × (remove_workspace_by_idx idx m ≡ some (set_output none w, m'))
        × Removed idx m m'
  unfolding remove_workspace_by_idx
  remove_workspace_by_idx-Removed idx m v l =
      let (m1, p1, w1) = bottom_if_last-Bottomed idx m v.shape.in_range (λ _. v.shape.last_blank) in
      let at1 : (j : ℕ)
          → j < length m.workspaces
          → get_elem? m1.workspaces j ≡ get_elem? m.workspaces j =
        w1.same in
      let b2 : m1.empty_workspace_above_first ≡ true → idx ≢ 0 → blank_at m1.workspaces 0 ≡ true =
        λ e n.
          ground (arith, at1 0 (omega arith), v.shape.first_blank (sym w1.grown.same_above ∙ e)) in
      let ((i, m2), p2, w2) =
        top_if_first-Topped idx idx m1 w1.grown.in_range w1.grown.last_blank b2 in
      let l2 : i < length m2.workspaces - 1 = w2.below_last (w1.below_last l) in
      let (w, g) = get_elem?-lt m2.workspaces i (omega arith) in
      let m3 : Monitor s f = record m2 { workspaces = erase_idx i m2.workspaces } in
      let take : take_workspace i m2 ≡ some (w, m3) = rw (take_workspace, g) refl in
      let above : m2.empty_workspace_above_first ≡ true → m1.empty_workspace_above_first ≡ true =
        λ e. sym w2.grown.same_above ∙ e in
      let shape =
        removed-Shape i m2 w2.grown.in_range l2 w2.grown.last_blank (λ e. w2.first_blank (above e))
          (λ e. w2.not_first (above e) refl) in
      let m4 = without_switch (step_back i m3) in
      let (m', p5, w5) = clean_up_workspaces-CleanedUp m4 shape refl in
      (
        w,
        m',
        sym (at1 idx l) ∙ (sym w2.same_target ∙ g),
        rw (p1, p2, take, p5) refl,
        record {
          valid = w5.valid;
          same_used = w5.same_used ∙ (w2.same_erased ∙ w1.same_erased);
          same_output = w5.same_output ∙ (w2.grown.same_output ∙ w1.grown.same_output);
          same_active = elim (Bool-cases (idx == m.active_workspace_idx)) [
            | inl n ↦ inl (ground (arith, n))
            | inr n ↦ inr (elim w5.same_active [
              | inr z ↦ inr z
              | inl z ↦
                  let ne : i ≢ m2.active_workspace_idx =
                    ground (arith, w2.shift, w1.active_idx, n) in
                  inl (z ∙ (remove_active i m2 ne ∙ (w2.grown.same_active ∙ w1.grown.same_active)))
            ])
          ];
        },
      )

  -- The inserted workspace is active if that is asked for, and what was active is otherwise.
  pub record Inserted (i : ℕ) (w : Workspace s) (activate : Bool) (m m' : Monitor s f)
      : Type 0 where
    pub valid : IsValid m'
    pub same_used : used m'.workspaces ≡ used (insert_at i w m.workspaces)
    pub same_output : m'.output ≡ m.output
    pub active :
        (active_workspace m' ≡ (if activate then some w else active_workspace m))
        ⊎ (length m'.workspaces ≡ 1)

  -- The monitor with the workspace at `i`.
  abbrev inserted : ℕ → Workspace s → Monitor s f → Monitor s f
  inserted i w m = record m {
    workspaces = insert_at i w m.workspaces;
    active_workspace_idx =
        if leb i m.active_workspace_idx then suc m.active_workspace_idx else m.active_workspace_idx;
  }

  inserted-Shape :
      (i active : ℕ) (w : Workspace s) (m : Monitor s f)
      → i ≤ length m.workspaces - 1
      → active ≤ length m.workspaces
      → 0 < length m.workspaces
      → blank_at m.workspaces (length m.workspaces - 1) ≡ true
      → (m.empty_workspace_above_first ≡ true → blank_at m.workspaces 0 ≡ true)
      → (m.empty_workspace_above_first ≡ true → i ≢ 0)
      → Shape m.empty_workspace_above_first (insert_at i w m.workspaces) active
  inserted-Shape i active w m l r z b c n =
      let len = length-insert_at i w m.workspaces in
      record {
        in_range = omega (arith, len);
        last_blank = ground (
          arith,
          len,
          b,
          get_elem?-insert_at i (length (insert_at i w m.workspaces) - 1) w m.workspaces
              (omega arith),
        );
        first_blank =
            λ e. ground (arith, c e, n e, get_elem?-insert_at i 0 w m.workspaces (omega arith));
      }

  -- The last steps, for either value of `activate`.
  settle_insertion : Bool → ℕ → Monitor s f → Option (Monitor s f)
  settle_insertion activate i m = do
    m3 ← (if activate then activate_workspace i (without_switch m) else some m)
    clean_up_workspaces (without_switch m3)

  settle_insertion-Inserted :
      (activate : Bool) (i j : ℕ) (w : Workspace s) (m0 m : Monitor s f)
      → m.active_workspace_idx < length m.workspaces
      → i ≤ length m.workspaces - 1
      → blank_at m.workspaces (length m.workspaces - 1) ≡ true
      → (m.empty_workspace_above_first ≡ true → blank_at m.workspaces 0 ≡ true)
      → (m.empty_workspace_above_first ≡ true → i ≢ 0)
      → active_workspace m ≡ active_workspace m0
      → used (insert_at i w m.workspaces) ≡ used (insert_at j w m0.workspaces)
      → m.output ≡ m0.output
      → (m' : Monitor s f) × (settle_insertion activate i (inserted i w m) ≡ some m')
        × Inserted j w activate m0 m'
  unfolding settle_insertion
  settle_insertion-Inserted true i j w m0 m r l b c n a u o =
      let m2 : Monitor s f = without_switch (inserted i w m) in
      let r2 : m2.active_workspace_idx < length m2.workspaces =
        ground (arith, length-insert_at i w m.workspaces) in
      let (m3, p3, w3) = activate_workspace-Activated i m2 r2 in
      let shape : Shape m3.empty_workspace_above_first m3.workspaces m3.active_workspace_idx =
        rw (w3.same_above, w3.same_workspaces, w3.active_idx)
          (inserted-Shape i i w m l (omega arith) (omega arith) b c n) in
      let (m', p, h) = clean_up_workspaces-CleanedUp (without_switch m3) shape refl in
      (
        m',
        rw (p3) p,
        record {
          valid = h.valid;
          same_used = h.same_used ∙ (ap used w3.same_workspaces ∙ u);
          same_output = h.same_output ∙ (w3.same_output ∙ o);
          active = elim h.same_active [
            | inr z ↦ inr z
            | inl z ↦ inl (
                z
                ∙ rw (w3.same_workspaces, w3.active_idx)
                    (ground (arith, get_elem?-insert_at i i w m.workspaces (omega arith))))
          ];
        },
      )
  settle_insertion-Inserted false i j w m0 m r l b c n a u o =
      let shape =
        inserted-Shape i (inserted i w m).active_workspace_idx w m l (ground arith) (omega arith) b
          c n in
      let (m', p, h) = clean_up_workspaces-CleanedUp (without_switch (inserted i w m)) shape refl in
      (
        m',
        p,
        record {
          valid = h.valid;
          same_used = h.same_used ∙ u;
          same_output = h.same_output ∙ o;
          active = elim h.same_active [
            | inr z ↦ inr z
            | inl z ↦ inl (
                z
                ∙ (ground (
                  arith,
                  get_elem?-insert_at i (inserted i w m).active_workspace_idx w m.workspaces
                      (omega arith),
                )
                    ∙ a))
          ];
        },
      )

  -- On a valid monitor and an index at most the length of its list (which stands for the one before)
  -- `insert_workspace` does not panic and the result is valid. The workspaces with windows or a name are
  -- those of the old list with the new workspace, with this output and configuration, put in at the index:
  -- an empty, unnamed one is not among them. Unless only one is left, the new workspace is active if
  -- that was asked for, and the same one as before is otherwise.
  pub insert_workspace-Inserted :
      (w : Workspace s) (idx : ℕ) (activate : Bool) (m : Monitor s f)
      → IsValid m
      → idx ≤ length m.workspaces
      → (m' : Monitor s f) × (insert_workspace w idx activate m ≡ some m')
        × Inserted
            (if idx == length m.workspaces then idx - 1 else idx)
            (update_config (set_output (some m.output) w))
            activate
            m
            m'
  unfolding insert_workspace settle_insertion
  insert_workspace-Inserted w idx activate m v l =
      let idx' = if idx == length m.workspaces then idx - 1 else idx in
      let l' : idx' < length m.workspaces = ground (arith, v.shape.in_range) in
      let w' = update_config (set_output (some m.output) w) in
      let ((i, m1), p1, w1) =
        top_if_first-Topped idx' idx' m v.shape.in_range v.shape.last_blank
          (λ a _. v.shape.first_blank a) in
      let li : i < length m1.workspaces = w1.target_range l' in
      let above : m1.empty_workspace_above_first ≡ true → m.empty_workspace_above_first ≡ true =
        λ e. sym w1.grown.same_above ∙ e in
      let (m', p, h) =
        settle_insertion-Inserted activate i idx' w' m m1 w1.grown.in_range (omega arith)
          w1.grown.last_blank (λ e. w1.first_blank (above e)) (λ e. w1.not_first (above e) refl)
          w1.grown.same_active (w1.same_inserted w') w1.grown.same_output in
      let put : put_workspace i w' m1 ≡ some (inserted i w' m1) = ground (arith, li) in
      (m', rw (p1, put) p, h)
