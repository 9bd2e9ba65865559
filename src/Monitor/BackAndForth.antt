-- ===== src/Monitor/BackAndForth.antt =====
-- A switch of workspaces in src/layout/monitor.rs keeps the monitor valid, and can be undone.
use macniri.Base.{
  ℕ, zero, suc, ◌+◌, ◌-◌, ◌<◌, ◌≡◌, ◌≢◌, ◌⊎◌, refl, sym, ◌∙◌, inl, inr, Bool, true, false, Option,
  none, some, List, [], ◌∷◌, arith, min, ◌==◌, ==_refl, length, get_elem?, get_elem?-lt, position,
  Bool-cases, Option-cases,
}
use macniri.Monitor.Types.{Space, Motion, Workspace, WorkspaceSwitch, Monitor, animation, gesture}
use macniri.Monitor.Switch.{is_dnd_scroll, next_switch}
use macniri.Monitor.Defs.{enter, activate_workspace, workspace_render_idx}
use macniri.Monitor.Invariant.{IsValid, active_workspace}
use macniri.Monitor.Switching.{
  target_of, switch_workspace_up, switch_workspace_down, previous_workspace_idx, switch_workspace,
  switch_workspace_previous, switch_workspace_auto_back_and_forth,
}

module _ {A : Type 0} where
  position-only :
      (p : A → Bool) (i : ℕ) (a : A) (xs : List A)
      → get_elem? xs i ≡ some a
      → p a ≡ true
      → ((j : ℕ) (b : A) → get_elem? xs j ≡ some b → p b ≡ true → j ≡ i)
      → position p xs ≡ some i
  position-only p i a [] e t u = absurd (cc e)
  position-only p zero a (x ∷ xs) e t u = ground (arith, t, e)
  position-only p (suc i) a (x ∷ xs) e t u =
      let rest = position-only p i a xs e t (λ j b g q. ground (arith, u (suc j) b g q)) in
      elim (Bool-cases (p x)) [
        | inl q ↦ absurd (ground (arith, u zero x refl q))
        | inr q ↦ rw (position, q, rest) refl
      ]

module _ {s : Space} where
  -- The workspaces of a list have different ids.
  abbrev pub DistinctIds : List (Workspace s) → Type 0
  DistinctIds ws =
      (i j : ℕ) (w v : Workspace s)
      → get_elem? ws i ≡ some w
      → get_elem? ws j ≡ some v
      → w.id ≡ v.id
      → i ≡ j

module _ {f : Motion} where
  target_of_lt :
      (from_view : f.F → ℕ) (plain n : ℕ) (switch : Option (WorkspaceSwitch f))
      → ((x : f.F) → from_view x < n)
      → plain < n
      → target_of from_view plain switch < n
  target_of_lt from_view plain n none h l = l
  target_of_lt from_view plain n (some (animation a)) h l = l
  target_of_lt from_view plain n (some (gesture g)) h l = elim (Bool-cases (is_dnd_scroll g)) [
    | inl t ↦ rw t (h g.current_idx)
    | inr t ↦ rw t l
  ]

  next_switch-none :
      (from : f.F) (prev idx : ℕ) (switch : Option (WorkspaceSwitch f))
      → next_switch from prev idx switch ≡ none
      → (prev ≡ idx) × (switch ≡ none)
  unfolding next_switch
  next_switch-none from prev idx none e = (ground (arith, e), refl)
  next_switch-none from prev idx (some (animation a)) e = absurd (ground (arith, e))
  next_switch-none from prev idx (some (gesture g)) e = absurd (ground (arith, e))

module _ {s : Space} {f : Motion} where
  -- Another workspace of the same list is active, and the one before is remembered.
  pub record Switched (idx : ℕ) (m m' : Monitor s f) : Type 0 where
    pub valid : IsValid m'
    pub active_idx : m'.active_workspace_idx ≡ idx
    pub same_workspaces : m'.workspaces ≡ m.workspaces
    pub previous :
        (m'.active_workspace_idx ≡ m.active_workspace_idx)
        ⊎ ((w : Workspace s) × (active_workspace m ≡ some w)
            × (m'.previous_workspace_id ≡ some w.id))

  enter-IsValid :
      (idx : ℕ) (previous : Option ℕ) (m : Monitor s f)
      → IsValid m
      → idx < length m.workspaces
      → IsValid (enter idx previous m)
  enter-IsValid idx previous m v l = record {
    shape = record {
      in_range = l;
      last_blank = v.shape.last_blank;
      first_blank = v.shape.first_blank;
    };
    not_two = v.not_two;
    tidy = λ e i a b c.
        let (same, still) =
          next_switch-none (workspace_render_idx m) m.active_workspace_idx idx m.workspace_switch
            e in
        v.tidy still i a b (λ q. c (q ∙ same));
  }

  activate_workspace-Switched :
      (idx : ℕ) (m : Monitor s f)
      → IsValid m
      → idx < length m.workspaces
      → (m' : Monitor s f) × (activate_workspace idx m ≡ some m') × Switched idx m m'
  unfolding activate_workspace
  activate_workspace-Switched idx m v l =
      let (w, e) = get_elem?-lt m.workspaces m.active_workspace_idx v.shape.in_range in
      elim (Bool-cases (m.active_workspace_idx == idx)) [
        | inl t ↦ (
          enter idx m.previous_workspace_id m,
          rw t refl,
          record {
            valid = enter-IsValid idx m.previous_workspace_id m v l;
            active_idx = refl;
            same_workspaces = refl;
            previous = inl (ground (arith, t));
          },
        )
        | inr t ↦ (
          enter idx (some w.id) m,
          rw t (rw e refl),
          record {
            valid = enter-IsValid idx (some w.id) m v l;
            active_idx = refl;
            same_workspaces = refl;
            previous = inr (w, e, refl);
          },
        )
      ]

  -- On a valid monitor `switch_workspace_down` does not panic: the result is valid, with the same
  -- workspaces, and if another workspace is active then the one before is remembered. Without a switch
  -- going on the next workspace is active, or the last one stays so.
  pub switch_workspace_down-Switched :
      (m : Monitor s f)
      → IsValid m
      → (idx : ℕ) × (m' : Monitor s f) × (switch_workspace_down m ≡ some m')
        × Switched idx m m'
        × ((idx ≡ min (m.active_workspace_idx + 1) (length m.workspaces - 1))
            ⊎ (m.workspace_switch ≢ none))
  unfolding switch_workspace_down
  switch_workspace_down-Switched m v =
      let plain = min (m.active_workspace_idx + 1) (length m.workspaces - 1) in
      let view : f.F → ℕ =
        λ current. f.clamp_index (f.add (f.floor current) (f.of_ℕ 1)) (length m.workspaces) in
      let n : 0 < length m.workspaces = omega (arith, v.shape.in_range) in
      let idx = target_of view plain m.workspace_switch in
      let l : idx < length m.workspaces =
        target_of_lt view plain (length m.workspaces) m.workspace_switch
          (λ x. f.clamp_index_lem (f.add (f.floor x) (f.of_ℕ 1)) (length m.workspaces) n)
          (omega arith) in
      let (m', e, w) = activate_workspace-Switched idx m v l in
      let started : (idx ≡ plain) ⊎ (m.workspace_switch ≢ none) =
        elim (Option-cases m.workspace_switch) [
          | inl still ↦ inl (rw still refl)
          | inr (_, moving) ↦ inr (λ still. absurd (cc (sym moving ∙ still)))
        ] in
      (idx, m', e, w, started)

  -- On a valid monitor `switch_workspace_up` does not panic: the result is valid, with the same
  -- workspaces, and if another workspace is active then the one before is remembered. Without a switch
  -- going on the workspace before is active, or the first one stays so.
  pub switch_workspace_up-Switched :
      (m : Monitor s f)
      → IsValid m
      → (idx : ℕ) × (m' : Monitor s f) × (switch_workspace_up m ≡ some m')
        × Switched idx m m'
        × ((idx ≡ m.active_workspace_idx - 1) ⊎ (m.workspace_switch ≢ none))
  unfolding switch_workspace_up
  switch_workspace_up-Switched m v =
      let plain = m.active_workspace_idx - 1 in
      let view : f.F → ℕ =
        λ current. f.clamp_index (f.sub (f.ceil current) (f.of_ℕ 1)) (length m.workspaces) in
      let n : 0 < length m.workspaces = omega (arith, v.shape.in_range) in
      let idx = target_of view plain m.workspace_switch in
      let l : idx < length m.workspaces =
        target_of_lt view plain (length m.workspaces) m.workspace_switch
          (λ x. f.clamp_index_lem (f.sub (f.ceil x) (f.of_ℕ 1)) (length m.workspaces) n)
          (omega (arith, v.shape.in_range)) in
      let (m', e, w) = activate_workspace-Switched idx m v l in
      let started : (idx ≡ plain) ⊎ (m.workspace_switch ≢ none) =
        elim (Option-cases m.workspace_switch) [
          | inl still ↦ inl (rw still refl)
          | inr (_, moving) ↦ inr (λ still. absurd (cc (sym moving ∙ still)))
        ] in
      (idx, m', e, w, started)

  -- On a valid monitor whose workspaces have different ids, a switch to another workspace of the list and
  -- the same command once more, with back and forth, do not panic: both results are valid, the first has
  -- the workspace at the index active, and the second the one that was active at first.
  pub switch_workspace_auto_back_and_forth-returns :
      (idx : ℕ) (m : Monitor s f)
      → IsValid m
      → DistinctIds m.workspaces
      → idx < length m.workspaces
      → idx ≢ m.active_workspace_idx
      → (m1 m2 : Monitor s f) × (switch_workspace_auto_back_and_forth idx m ≡ some m1)
        × (switch_workspace_auto_back_and_forth idx m1 ≡ some m2)
        × (m1.active_workspace_idx ≡ idx)
        × (active_workspace m2 ≡ active_workspace m)
        × IsValid m1
        × IsValid m2
  unfolding switch_workspace_auto_back_and_forth switch_workspace_previous switch_workspace
      previous_workspace_idx
  switch_workspace_auto_back_and_forth-returns idx m v d l ne =
      let (m1, e1, w1) = activate_workspace-Switched idx m v l in
      elim w1.previous [
        | inl same ↦ absurd (ne (sym w1.active_idx ∙ same))
        | inr (w, g, p) ↦
            let r = v.shape.in_range in
            let found : position (λ u. u.id == w.id) m.workspaces ≡ some m.active_workspace_idx =
              position-only (λ u. u.id == w.id) m.active_workspace_idx w m.workspaces g
                (==_refl w.id)
                (λ j b x y. d j m.active_workspace_idx b w x g (ground (arith, y))) in
            let l1 : m.active_workspace_idx < length m1.workspaces = rw w1.same_workspaces r in
            let (m2, e2, w2) = activate_workspace-Switched m.active_workspace_idx m1 w1.valid l1 in
            let clip : min idx (length m.workspaces - 1) ≡ idx = omega arith in
            let other : (idx == m.active_workspace_idx) ≡ false = ground (arith, ne) in
            let here : (min idx (length m1.workspaces - 1) == m1.active_workspace_idx) ≡ true =
              rw (w1.same_workspaces, w1.active_idx, clip) (==_refl idx) in
            let previous : previous_workspace_idx m1 ≡ some m.active_workspace_idx =
              rw (previous_workspace_idx, p, w1.same_workspaces) found in
            let clip1 : min m.active_workspace_idx (length m1.workspaces - 1)
                ≡ m.active_workspace_idx =
              omega arith in
            let first : switch_workspace_auto_back_and_forth idx m ≡ some m1 =
              rw (clip, clip, other) e1 in
            let second : switch_workspace_auto_back_and_forth idx m1 ≡ some m2 =
              rw (here, switch_workspace_previous, previous, clip1) e2 in
            let back : active_workspace m2 ≡ active_workspace m =
              rw (w2.same_workspaces, w1.same_workspaces, w2.active_idx) refl in
            (m1, m2, first, second, w1.active_idx, back, w1.valid, w2.valid)
      ]
