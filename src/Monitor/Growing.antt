-- ===== src/Monitor/Growing.antt =====
-- The empty workspaces that src/layout/monitor.rs adds at the two ends.
use macniri.Base.{
  ℕ, zero, suc, ◌+◌, ◌-◌, ◌≤◌, ◌<◌, ◌≡◌, ◌≢◌, ◌⊎◌, refl, inl, inr, true, false, ◌&&◌, some, List,
  [], ◌∷◌, arith, ◌==◌, length, get_elem?, insert_at, erase_idx, subst, length-insert_at,
  get_elem?-insert_at, Bool-cases,
}
use macniri.Monitor.Types.{Space, Motion, Workspace, Monitor}
use macniri.Monitor.Workspaces.{has_windows_or_name}
use macniri.Monitor.Cleaning.{blank_at, used}
use macniri.Monitor.Defs.{new_workspace, with_blank, add_workspace_top, add_workspace_bottom}
use macniri.Monitor.Invariant.{active_workspace}
use macniri.Monitor.Moves.{bottom_if_last, top_if_first}

module _ {s : Space} {f : Motion} where
  pub new_workspace-blank : (m : Monitor s f) → has_windows_or_name (new_workspace m) ≡ false
  new_workspace-blank m = rw s.empty_lem refl

  used-insert_blank :
      (i : ℕ) (m : Monitor s f) (ws : List (Workspace s))
      → used (insert_at i (new_workspace m) ws) ≡ used ws
  used-insert_blank i m ws = go i ws
    where
      go : (i : ℕ) (ws : List (Workspace s)) → used (insert_at i (new_workspace m) ws) ≡ used ws
      go zero ws = rw (new_workspace-blank m) refl
      go (suc i) [] = rw (new_workspace-blank m) refl
      go (suc i) (w ∷ ws) = ground (arith, go i ws)

  used-insert_end :
      (i : ℕ) (m : Monitor s f) (ws : List (Workspace s))
      → used (erase_idx i (insert_at (length ws) (new_workspace m) ws)) ≡ used (erase_idx i ws)
  used-insert_end zero m [] = refl
  used-insert_end (suc i) m [] = rw (new_workspace-blank m) refl
  used-insert_end zero m (w ∷ ws) = used-insert_blank (length ws) m ws
  used-insert_end (suc i) m (w ∷ ws) = ground (arith, used-insert_end i m ws)

  -- The list has grown by an empty workspace, and the same workspace is active.
  pub record Grown (m m' : Monitor s f) : Type 0 where
    pub last_blank : blank_at m'.workspaces (length m'.workspaces - 1) ≡ true
    pub longer : length m.workspaces ≤ length m'.workspaces
    pub in_range : m'.active_workspace_idx < length m'.workspaces
    pub same_active : active_workspace m' ≡ active_workspace m
    pub same_used : used m'.workspaces ≡ used m.workspaces
    pub same_above : m'.empty_workspace_above_first ≡ m.empty_workspace_above_first
    pub same_previous : m'.previous_workspace_id ≡ m.previous_workspace_id
    pub same_output : m'.output ≡ m.output

  -- Nothing but the last workspace is new.
  pub record Bottomed (idx : ℕ) (m m' : Monitor s f) : Type 0 where
    pub grown : Grown m m'
    pub active_idx : m'.active_workspace_idx ≡ m.active_workspace_idx
    pub same_erased : used (erase_idx idx m'.workspaces) ≡ used (erase_idx idx m.workspaces)
    pub below_last : idx < length m.workspaces → idx < length m'.workspaces - 1
    pub same :
        (j : ℕ) → j < length m.workspaces → get_elem? m'.workspaces j ≡ get_elem? m.workspaces j

  with_blank-active :
      (idx : ℕ) (m : Monitor s f)
      → idx ≤ length m.workspaces
      → m.active_workspace_idx < length m.workspaces
      → active_workspace (with_blank idx m) ≡ active_workspace m
  with_blank-active idx m h r = ground (
    arith,
    get_elem?-insert_at idx (with_blank idx m).active_workspace_idx (new_workspace m) m.workspaces
        h,
  )

  with_blank-last :
      (idx : ℕ) (m : Monitor s f)
      → idx ≤ length m.workspaces
      → (idx ≢ length m.workspaces → blank_at m.workspaces (length m.workspaces - 1) ≡ true)
      → blank_at (with_blank idx m).workspaces (length (with_blank idx m).workspaces - 1) ≡ true
  with_blank-last idx m h b = ground (
    arith,
    new_workspace-blank m,
    length-insert_at idx (new_workspace m) m.workspaces,
    get_elem?-insert_at idx (length (with_blank idx m).workspaces - 1) (new_workspace m)
        m.workspaces h,
  )

  pub with_blank-Grown :
      (idx : ℕ) (m : Monitor s f)
      → idx ≤ length m.workspaces
      → m.active_workspace_idx < length m.workspaces
      → (idx ≢ length m.workspaces → blank_at m.workspaces (length m.workspaces - 1) ≡ true)
      → Grown m (with_blank idx m)
  with_blank-Grown idx m h r b = record {
    last_blank = with_blank-last idx m h b;
    longer = omega (arith, length-insert_at idx (new_workspace m) m.workspaces);
    in_range = ground (arith, length-insert_at idx (new_workspace m) m.workspaces);
    same_active = with_blank-active idx m h r;
    same_used = used-insert_blank idx m m.workspaces;
    same_above = refl;
    same_previous = refl;
    same_output = refl;
  }

  pub Grown-refl :
      (m : Monitor s f)
      → m.active_workspace_idx < length m.workspaces
      → blank_at m.workspaces (length m.workspaces - 1) ≡ true
      → Grown m m
  Grown-refl m r b = record {
    last_blank = b;
    longer = omega arith;
    in_range = r;
    same_active = refl;
    same_used = refl;
    same_above = refl;
    same_previous = refl;
    same_output = refl;
  }

  pub bottom_if_last-Bottomed :
      (idx : ℕ) (m : Monitor s f)
      → m.active_workspace_idx < length m.workspaces
      → (idx ≢ length m.workspaces - 1 → blank_at m.workspaces (length m.workspaces - 1) ≡ true)
      → (m' : Monitor s f) × (bottom_if_last idx m ≡ some m') × Bottomed idx m m'
  unfolding add_workspace_bottom
  bottom_if_last-Bottomed idx m r h = elim (Bool-cases (idx == length m.workspaces - 1)) [
    | inr e ↦ (
      m,
      rw e refl,
      record {
        grown = Grown-refl m r (h (ground arith));
        active_idx = refl;
        same_erased = refl;
        below_last = λ l. ground (arith, e);
        same = λ j l. refl;
      },
    )
    | inl e ↦ (
      with_blank (length m.workspaces) m,
      ground arith,
      record {
        grown = with_blank-Grown (length m.workspaces) m (omega arith) r (λ ne. absurd (ne refl));
        active_idx = ground arith;
        same_erased = used-insert_end idx m m.workspaces;
        below_last = λ l.
            omega (arith, length-insert_at (length m.workspaces) (new_workspace m) m.workspaces);
        same = λ j l.
            ground
              (arith, get_elem?-insert_at (length m.workspaces) j (new_workspace m) m.workspaces);
      },
    )
  ]

  used-erase_suc :
      (i : ℕ) (m : Monitor s f) (ws : List (Workspace s))
      → used (erase_idx (suc i) (insert_at 0 (new_workspace m) ws)) ≡ used (erase_idx i ws)
  used-erase_suc i m ws = rw (new_workspace-blank m) refl

  used-insert_suc :
      (i : ℕ) (w : Workspace s) (m : Monitor s f) (ws : List (Workspace s))
      → used (insert_at (suc i) w (insert_at 0 (new_workspace m) ws)) ≡ used (insert_at i w ws)
  used-insert_suc i w m ws = rw (new_workspace-blank m) refl

  -- The target index follows its workspace.
  pub record Topped (idx target : ℕ) (m : Monitor s f) (r : ℕ × Monitor s f) : Type 0 where
    pub grown : Grown m r.1
    pub first_blank : m.empty_workspace_above_first ≡ true → blank_at r.1.workspaces 0 ≡ true
    pub target_range : target < length m.workspaces → r.0 < length r.1.workspaces
    pub same_target : get_elem? r.1.workspaces r.0 ≡ get_elem? m.workspaces target
    pub below_last : target < length m.workspaces - 1 → r.0 < length r.1.workspaces - 1
    pub same_erased : used (erase_idx r.0 r.1.workspaces) ≡ used (erase_idx target m.workspaces)
    pub same_inserted :
        (w : Workspace s)
        → used (insert_at r.0 w r.1.workspaces) ≡ used (insert_at target w m.workspaces)
    pub not_first : m.empty_workspace_above_first ≡ true → idx ≡ target → r.0 ≢ 0
    pub shift :
        (r.0 ≡ target × r.1.active_workspace_idx ≡ m.active_workspace_idx)
        ⊎ (r.0 ≡ target + 1 × r.1.active_workspace_idx ≡ m.active_workspace_idx + 1)
    pub off : m.empty_workspace_above_first ≡ false → r ≡ (target, m)

  pub top_if_first-Topped :
      (idx target : ℕ) (m : Monitor s f)
      → m.active_workspace_idx < length m.workspaces
      → blank_at m.workspaces (length m.workspaces - 1) ≡ true
      → (m.empty_workspace_above_first ≡ true → idx ≢ 0 → blank_at m.workspaces 0 ≡ true)
      → (r : ℕ × Monitor s f) × (top_if_first idx target m ≡ some r) × Topped idx target m r
  unfolding add_workspace_top
  top_if_first-Topped idx target m r b h =
      elim (Bool-cases (m.empty_workspace_above_first && idx == 0)) [
        | inr e ↦ (
          (target, m),
          rw e refl,
          record {
            grown = Grown-refl m r b;
            first_blank = λ a. h a (ground arith);
            target_range = λ l. l;
            same_target = refl;
            same_erased = refl;
            same_inserted = λ w. refl;
            below_last = λ l. l;
            not_first = λ a q z. absurd (ground (arith, e));
            shift = inl (refl, refl);
            off = λ _. refl;
          },
        )
        | inl e ↦ (
          (target + 1, with_blank 0 m),
          rw e (ground arith),
          record {
            grown = with_blank-Grown 0 m (omega arith) r (λ _. b);
            first_blank = λ _. ground (arith, new_workspace-blank m);
            target_range = λ l. omega (arith, length-insert_at 0 (new_workspace m) m.workspaces);
            same_target =
                ground (arith, get_elem?-insert_at 0 (target + 1) (new_workspace m) m.workspaces);
            same_erased =
                subst
                  (λ i.
                    used (erase_idx i (with_blank 0 m).workspaces)
                    ≡ used (erase_idx target m.workspaces))
                  {x = suc target} {y = target + 1} (omega arith)
                  (used-erase_suc target m m.workspaces);
            same_inserted = λ w.
                subst
                  (λ i.
                    used (insert_at i w (with_blank 0 m).workspaces)
                    ≡ used (insert_at target w m.workspaces))
                  {x = suc target} {y = target + 1} (omega arith)
                  (used-insert_suc target w m m.workspaces);
            below_last = λ l. omega (arith, length-insert_at 0 (new_workspace m) m.workspaces);
            not_first = λ a q. omega arith;
            shift = inr (refl, ground arith);
            off = λ a. absurd (ground (arith, e, a));
          },
        )
      ]
