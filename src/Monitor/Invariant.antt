-- ===== src/Monitor/Invariant.antt =====
-- `verify_invariants` of src/layout/monitor.rs, as far as it concerns the list of
-- workspaces. The assertion on the indices of a switch animation and the one on the options are left out.
use macniri.Base.{
  ℕ, ◌-◌, ◌<◌, ◌≡◌, ◌≢◌, ◌⊎◌, refl, ◌∙◌, inl, inr, Bool, true, Option, none, some, List, arith,
  length, get_elem?, ltb, Bool-cases,
}
use macniri.Monitor.Types.{Space, Motion, Workspace, Monitor}
use macniri.Monitor.Workspaces.{range_start, clean_loop, drop_second}
use macniri.Monitor.Cleaning.{
  Shape, TidyFrom, SameActive, used, used-clean_loop, clean_loop-Swept, drop_second-Settled,
}
use macniri.Monitor.Defs.{cleaned, clean_up_workspaces}

module _ {s : Space} where
  cleaned_lem :
      (above : Bool) (st : List (Workspace s) × ℕ)
      → Shape above st.0 st.1
      → let st' = clean_loop (range_start above) (length st.0 - 1 - range_start above) st in
        Shape above st'.0 st'.1 × TidyFrom (range_start above) st'.0 st'.1 × SameActive st st'
  unfolding clean_loop
  cleaned_lem above st h = elim (Bool-cases (ltb (range_start above) (length st.0))) [
    | inl e ↦
        let (w, same) = clean_loop-Swept above (length st.0 - 1 - range_start above) st (record {
          shape = h;
          below = ground (arith, e, h.in_range);
          tidy = λ i a b c. absurd (ground (arith, e));
        }) in
        (w.shape, w.tidy, same)
    | inr e ↦
        let zero_rounds : length st.0 - 1 - range_start above ≡ 0 = ground (arith, e) in
        rw (zero_rounds, clean_loop) (h, λ i a b c. absurd (ground (arith, e)), refl)
  ]

module _ {s : Space} {f : Motion} where
  -- A valid active index, an empty unnamed workspace at the end (and at the start if
  -- `empty_workspace_above_first` is set).
  abbrev pub HasShape : Monitor s f → Type 0
  HasShape m = Shape m.empty_workspace_above_first m.workspaces m.active_workspace_idx

  -- All of it: while nothing switches, no other workspace but the active one is empty and unnamed.
  pub record IsValid (m : Monitor s f) : Type 0 where
    pub shape : HasShape m
    pub not_two : m.empty_workspace_above_first ≡ true → length m.workspaces ≢ 2
    pub tidy :
        m.workspace_switch ≡ none
        → TidyFrom (range_start m.empty_workspace_above_first) m.workspaces m.active_workspace_idx

  abbrev pub active_workspace : Monitor s f → Option (Workspace s)
  active_workspace m = get_elem? m.workspaces m.active_workspace_idx

  pub record CleanedUp (m m' : Monitor s f) : Type 0 where
    pub valid : IsValid m'
    pub same_used : used m'.workspaces ≡ used m.workspaces
    pub same_active : (active_workspace m' ≡ active_workspace m) ⊎ (length m'.workspaces ≡ 1)
    pub same_previous : m'.previous_workspace_id ≡ m.previous_workspace_id
    pub same_output : m'.output ≡ m.output
    pub no_switch : m'.workspace_switch ≡ none

  abbrev with_state : Monitor s f → List (Workspace s) × ℕ → Monitor s f
  with_state m st = record m { workspaces = st.0; active_workspace_idx = st.1 }

  clean_up_workspaces-drop_second :
      (m : Monitor s f) (st : List (Workspace s) × ℕ)
      → m.active_workspace_idx < length m.workspaces
      → m.workspace_switch ≡ none
      → drop_second m.empty_workspace_above_first (cleaned m) ≡ some st
      → clean_up_workspaces m ≡ some (with_state m st)
  unfolding clean_up_workspaces
  clean_up_workspaces-drop_second m st h e d = rw (e, clean_up_workspaces) (ground arith)

  -- With a valid active index, the required empty workspaces and no switch going on, the clean-up
  -- does not panic, its result satisfies the invariant, it keeps every workspace that has windows or
  -- a name in its order, and the active workspace stays active unless only one workspace is left.
  pub clean_up_workspaces-CleanedUp :
      (m : Monitor s f)
      → HasShape m
      → m.workspace_switch ≡ none
      → (m' : Monitor s f) × (clean_up_workspaces m ≡ some m') × CleanedUp m m'
  clean_up_workspaces-CleanedUp m h e =
      let (h', t, same) =
        cleaned_lem m.empty_workspace_above_first (m.workspaces, m.active_workspace_idx) h in
      let (st, d, w) =
        drop_second-Settled m.empty_workspace_above_first (cleaned m).0 (cleaned m).1 h' t in
      (
        with_state m st,
        clean_up_workspaces-drop_second m st h.in_range e d,
        record {
          valid = record { shape = w.shape; not_two = w.not_two; tidy = λ _. w.tidy };
          same_used = w.same_used ∙ used-clean_loop _ _ _;
          same_active = elim w.same_active [ inl q ↦ inl (q ∙ same) | inr q ↦ inr q ];
          same_previous = refl;
          same_output = refl;
          no_switch = e;
        },
      )
