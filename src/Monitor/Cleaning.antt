-- ===== src/Monitor/Cleaning.antt =====
-- What the clean-up loop of src/layout/monitor.rs does to the list of workspaces.
use macniri.Base.{
  ℕ, zero, suc, ◌+◌, ◌-◌, ◌≤◌, ◌<◌, ◌≡◌, ◌≢◌, refl, subst, ◌∙◌, ◌⊎◌, inl, inr, Bool, true, false,
  not, none, some, List, [], ◌∷◌, arith, ◌==◌, ltb, if◌then◌else◌, length, get_elem?, erase_idx,
  length-erase_idx, get_elem?-erase_idx, get_elem?-lt, filter_by, Bool-cases,
}
use macniri.Monitor.Types.{Space, Workspace}
use macniri.Monitor.Workspaces.{has_windows_or_name, range_start, clean_at, clean_loop, drop_second}

module _ {s : Space} where
  -- The workspace at an index is empty and has no name.
  abbrev pub blank_at : List (Workspace s) → ℕ → Bool
  blank_at ws i = elim (get_elem? ws i) [ none ↦ false | some w ↦ not (has_windows_or_name w) ]

  pub record Shape (above : Bool) (ws : List (Workspace s)) (active : ℕ) : Type 0 where
    pub in_range : active < length ws
    pub last_blank : blank_at ws (length ws - 1) ≡ true
    pub first_blank : above ≡ true → blank_at ws 0 ≡ true

  -- From `lo` on, only the active and the last workspace may be blank.
  abbrev pub TidyFrom : ℕ → List (Workspace s) → ℕ → Type 0
  TidyFrom lo ws active = (i : ℕ) → lo ≤ i → i + 1 < length ws → i ≢ active → blank_at ws i ≡ false

  pub record Swept (above : Bool) (lo : ℕ) (st : List (Workspace s) × ℕ) : Type 0 where
    pub shape : Shape above st.0 st.1
    pub below : lo < length st.0
    pub tidy : TidyFrom lo st.0 st.1

  -- The same workspace is active.
  abbrev pub SameActive : List (Workspace s) × ℕ → List (Workspace s) × ℕ → Type 0
  SameActive (ws, active) (ws', active') = get_elem? ws' active' ≡ get_elem? ws active

  keep_at :
      (above : Bool) (lo : ℕ) (ws : List (Workspace s)) (active : ℕ)
      → Swept above (suc lo) (ws, active)
      → (lo ≢ active → blank_at ws lo ≡ false)
      → Swept above lo (ws, active)
  keep_at above lo ws active w h = record {
    shape = w.shape;
    below = omega (arith, w.below);
    tidy = λ i a b c. ground (arith, w.tidy i, h);
  }

  erase_at :
      (above : Bool) (lo : ℕ) (ws : List (Workspace s)) (active : ℕ)
      → Swept above (suc lo) (ws, active)
      → range_start above ≤ lo
      → lo ≢ active
      → Swept above lo (erase_idx lo ws, if ltb lo active then active - 1 else active)
  erase_at above lo ws active w h ne = record {
    shape = record {
      in_range = ground (arith, length-erase_idx lo ws, w.below, w.shape.in_range);
      last_blank = ground (
        arith,
        length-erase_idx lo ws,
        w.below,
        w.shape.last_blank,
        get_elem?-erase_idx lo (length (erase_idx lo ws) - 1) ws,
      );
      first_blank = λ e. ground (arith, w.shape.first_blank e, get_elem?-erase_idx lo 0 ws, h);
    };
    below = ground (arith, length-erase_idx lo ws, w.below);
    tidy = λ i a b c.
        ground
          (arith, w.tidy (suc i), length-erase_idx lo ws, w.below, get_elem?-erase_idx lo i ws);
  }

  clean_at-Swept :
      (above : Bool) (lo : ℕ) (ws : List (Workspace s)) (active : ℕ)
      → Swept above (suc lo) (ws, active)
      → range_start above ≤ lo
      → Swept above lo (clean_at lo (ws, active))
        × SameActive (ws, active) (clean_at lo (ws, active))
  unfolding clean_at
  clean_at-Swept above lo ws active w h = elim (Bool-cases (active == lo)) [
    | inl e ↦ rw (e, clean_at) (keep_at above lo ws active w (λ ne. absurd (ground arith)), refl)
    | inr e ↦
        rw (e, clean_at)
          (let (v, g) = get_elem?-lt ws lo (omega (arith, w.below)) in
            rw g (elim (Bool-cases (has_windows_or_name v)) [
              | inl used ↦ rw used (keep_at above lo ws active w (λ _. ground arith), refl)
              | inr blank ↦ rw blank (
                erase_at above lo ws active w h (ground arith),
                ground (
                  arith,
                  w.shape.in_range,
                  get_elem?-erase_idx lo (if ltb lo active then active - 1 else active) ws,
                ),
              )
            ]))
  ]

  -- The whole loop leaves no blank workspace but the active one, the last one and those before its
  -- start, and the same workspace is active.
  pub clean_loop-Swept :
      (above : Bool) (count : ℕ) (st : List (Workspace s) × ℕ)
      → Swept above (range_start above + count) st
      → Swept above (range_start above) (clean_loop (range_start above) count st)
        × SameActive st (clean_loop (range_start above) count st)
  unfolding clean_loop
  clean_loop-Swept above zero st w = (subst (λ k. Swept above k st) (omega arith) w, refl)
  clean_loop-Swept above (suc count) st w =
      let (step, same) =
        clean_at-Swept above (range_start above + count) st.0 st.1
          (subst (λ k. Swept above k st) (omega arith) w) (omega arith) in
      let (rest, same') =
        clean_loop-Swept above count (clean_at (range_start above + count) st) step in
      (rest, same' ∙ same)

  -- The workspaces that have windows or a name.
  abbrev pub used : List (Workspace s) → List (Workspace s)
  used = filter_by has_windows_or_name

  pub used-erase_idx :
      (i : ℕ) (ws : List (Workspace s)) → blank_at ws i ≡ true → used (erase_idx i ws) ≡ used ws
  used-erase_idx i [] h = refl
  used-erase_idx zero (w ∷ ws) h = ground arith
  used-erase_idx (suc i) (w ∷ ws) h = ground (arith, used-erase_idx i ws)

  used-clean_at : (i : ℕ) (st : List (Workspace s) × ℕ) → used (clean_at i st).0 ≡ used st.0
  unfolding clean_at
  used-clean_at i (ws, active) = ground (arith, used-erase_idx i ws)

  -- No workspace with windows or a name is removed or moved past another.
  pub used-clean_loop :
      (start count : ℕ) (st : List (Workspace s) × ℕ)
      → used (clean_loop start count st).0 ≡ used st.0
  unfolding clean_loop
  used-clean_loop start zero st = refl
  used-clean_loop start (suc count) st =
      used-clean_loop start count (clean_at (start + count) st) ∙ used-clean_at (start + count) st

  pub record Settled (above : Bool) (before st : List (Workspace s) × ℕ) : Type 0 where
    pub shape : Shape above st.0 st.1
    pub tidy : TidyFrom (range_start above) st.0 st.1
    pub not_two : above ≡ true → length st.0 ≢ 2
    pub same_used : used st.0 ≡ used before.0
    pub same_active : SameActive before st ⊎ (length st.0 ≡ 1)

  pub drop_second-Settled :
      (above : Bool) (ws : List (Workspace s)) (active : ℕ)
      → Shape above ws active
      → TidyFrom (range_start above) ws active
      → (st : List (Workspace s) × ℕ) × (drop_second above (ws, active) ≡ some st)
        × Settled above (ws, active) st
  unfolding drop_second
  drop_second-Settled false ws active h t = (
    (ws, active),
    refl,
    record { shape = h; tidy = t; not_two = λ e. cc e; same_used = refl; same_active = inl refl },
  )
  drop_second-Settled true [] active h t = absurd (omega (arith, h.in_range))
  drop_second-Settled true (w0 ∷ []) active h t = (
    (w0 ∷ [], active),
    refl,
    record {
      shape = h;
      tidy = t;
      not_two = λ e. omega arith;
      same_used = refl;
      same_active = inl refl;
    },
  )
  drop_second-Settled true (w0 ∷ w1 ∷ []) active h t = (
    (w0 ∷ [], 0),
    ground (arith, h.last_blank, h.first_blank refl),
    record {
      shape = record {
        in_range = omega arith;
        last_blank = h.first_blank refl;
        first_blank = λ _. h.first_blank refl;
      };
      tidy = λ i a b c. absurd (omega arith);
      not_two = λ e. omega arith;
      same_used = ground (arith, h.last_blank, h.first_blank refl);
      same_active = inr refl;
    },
  )
  drop_second-Settled true (w0 ∷ w1 ∷ w2 ∷ ws) active h t = (
    (w0 ∷ w1 ∷ w2 ∷ ws, active),
    refl,
    record {
      shape = h;
      tidy = t;
      not_two = λ e. omega arith;
      same_used = refl;
      same_active = inl refl;
    },
  )
