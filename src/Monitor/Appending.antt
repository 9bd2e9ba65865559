-- ===== src/Monitor/Appending.antt =====
-- `append_workspaces` of src/layout/monitor.rs.
use macniri.Base.{
  append_nil, ◌+◌, ◌-◌, ◌<◌, ◌≡◌, refl, sym, ap, ◌∙◌, inl, inr, Bool, true, false, ◌&&◌, some, List,
  [], ◌∷◌, ◌++◌, map, arith, ◌==◌, if◌then◌else◌, length, length-append, length-erase_idx,
  get_elem?, erase_idx, get_elem?-append, get_elem?-lt, Bool-cases,
}
use macniri.Monitor.Types.{Space, Motion, Workspace, Monitor}
use macniri.Monitor.Workspaces.{has_windows_or_name, set_output, update_config}
use macniri.Monitor.Cleaning.{blank_at, used, used-erase_idx}
use macniri.Monitor.Defs.{with_blank, add_workspace_top}
use macniri.Monitor.Moves.{without_switch, take_workspace, top_if_used, append_workspaces}
use macniri.Monitor.Invariant.{HasShape, IsValid, clean_up_workspaces-CleanedUp}
use macniri.Monitor.Growing.{Grown, Grown-refl, with_blank-Grown, new_workspace-blank}

module _ {s : Space} where
  used-append : (a b : List (Workspace s)) → used (a ++ b) ≡ used a ++ used b
  used-append [] b = refl
  used-append (w ∷ a) b = ground (arith, used-append a b)

  -- The list without its last, empty workspace, then the new ones, then that empty one.
  abbrev extended : Workspace s → List (Workspace s) → List (Workspace s) → List (Workspace s)
  extended empty added ws = erase_idx (length ws - 1) ws ++ (added ++ (empty ∷ []))

  length-extended :
      (empty : Workspace s) (added ws : List (Workspace s))
      → 0 < length ws
      → length (extended empty added ws) ≡ length ws + length added
  length-extended empty added ws h = omega (
    arith,
    length-append (erase_idx (length ws - 1) ws) (added ++ (empty ∷ [])),
    length-append added (empty ∷ []),
    length-erase_idx (length ws - 1) ws (omega arith),
  )

  extended_last :
      (empty : Workspace s) (added ws : List (Workspace s))
      → 0 < length ws
      → get_elem? (extended empty added ws) (length ws + length added - 1) ≡ some empty
  extended_last empty added ws h = ground (
    arith,
    length-erase_idx (length ws - 1) ws (omega arith),
    get_elem?-append (length ws + length added - 1) (erase_idx (length ws - 1) ws)
        (added ++ (empty ∷ [])),
    get_elem?-append (length added) added (empty ∷ []),
  )

  used-extended :
      (empty : Workspace s) (added ws : List (Workspace s))
      → has_windows_or_name empty ≡ false
      → blank_at ws (length ws - 1) ≡ true
      → used (extended empty added ws) ≡ used ws ++ used added
  used-extended empty added ws e b =
      let tail : used (added ++ (empty ∷ [])) ≡ used added ++ [] =
        used-append added (empty ∷ []) ∙ ap (λ t. used added ++ t) (rw (used, e) refl) in
      used-append (erase_idx (length ws - 1) ws) (added ++ (empty ∷ []))
      ∙ rw (used-erase_idx (length ws - 1) ws b, tail, append_nil (used added)) refl

module _ {s : Space} {f : Motion} where
  pub record Topped (m m' : Monitor s f) : Type 0 where
    pub grown : Grown m m'
    pub first_blank : m'.empty_workspace_above_first ≡ true → blank_at m'.workspaces 0 ≡ true

  top_if_used-Topped :
      (ws : List (Workspace s)) (m : Monitor s f)
      → m.workspaces ≡ ws
      → m.active_workspace_idx < length m.workspaces
      → blank_at m.workspaces (length m.workspaces - 1) ≡ true
      → (m' : Monitor s f) × (top_if_used ws m ≡ some m') × Topped m m'
  unfolding add_workspace_top
  top_if_used-Topped [] m e r b = absurd (ground (arith, e, r))
  top_if_used-Topped (w ∷ ws) m e r b =
      elim (Bool-cases (m.empty_workspace_above_first && has_windows_or_name w)) [
        | inl t ↦ (
          with_blank 0 m,
          rw t (ground arith),
          record {
            grown = with_blank-Grown 0 m (omega arith) r (λ _. b);
            first_blank = λ _. ground (arith, new_workspace-blank m);
          },
        )
        | inr t ↦ (
          m,
          rw t refl,
          record {
            grown = Grown-refl m r b;
            first_blank = λ a. rw (blank_at, e) (ground (arith, t, a));
          },
        )
      ]

  -- The empty workspace that was active stays so.
  abbrev refocus_last : Bool → Monitor s f → Monitor s f
  refocus_last b m = if b then record m { active_workspace_idx = length m.workspaces - 1 } else m

  refocus_last-HasShape :
      (b : Bool) (m0 m : Monitor s f) → Topped m0 m → HasShape (without_switch (refocus_last b m))
  refocus_last-HasShape true m0 m t = record {
    in_range = omega (arith, t.grown.in_range);
    last_blank = t.grown.last_blank;
    first_blank = t.first_blank;
  }
  refocus_last-HasShape false m0 m t = record {
    in_range = t.grown.in_range;
    last_blank = t.grown.last_blank;
    first_blank = t.first_blank;
  }

  -- The rest of it is unchanged.
  refocus_last-same :
      (b : Bool) (m : Monitor s f)
      → ((refocus_last b m).workspaces ≡ m.workspaces)
        × ((refocus_last b m).previous_workspace_id ≡ m.previous_workspace_id)
        × ((refocus_last b m).output ≡ m.output)
  refocus_last-same true m = (refl, refl, refl)
  refocus_last-same false m = (refl, refl, refl)

  -- A valid monitor with the new used workspaces after the old ones.
  pub record Appended (added : List (Workspace s)) (m m' : Monitor s f) : Type 0 where
    pub valid : IsValid m'
    pub same_used : used m'.workspaces ≡ used m.workspaces ++ used added
    pub same_previous : m'.previous_workspace_id ≡ m.previous_workspace_id
    pub same_output : m'.output ≡ m.output

  -- On a valid monitor `append_workspaces` does not panic: the result is valid and has the used ones of
  -- the given workspaces, with this output and configuration, after its own, all in their order.
  pub append_workspaces-Appended :
      (ws : List (Workspace s)) (m : Monitor s f)
      → IsValid m
      → (m' : Monitor s f) × (append_workspaces ws m ≡ some m')
        × Appended (map (λ v. update_config (set_output (some m.output) v)) ws) m m'
  unfolding append_workspaces
  append_workspaces-Appended [] m v = (
    m,
    refl,
    record {
      valid = v;
      same_used = sym (append_nil (used m.workspaces));
      same_previous = refl;
      same_output = refl;
    },
  )
  append_workspaces-Appended (w ∷ ws) m v =
      let added = map (λ u. update_config (set_output (some m.output) u)) (w ∷ ws) in
      let last = length m.workspaces - 1 in
      let n : 0 < length m.workspaces = omega (arith, v.shape.in_range) in
      let (empty, g) = get_elem?-lt m.workspaces last (omega arith) in
      let blank : has_windows_or_name empty ≡ false = ground (arith, g, v.shape.last_blank) in
      let m1 : Monitor s f = record m { workspaces = erase_idx last m.workspaces } in
      let take : take_workspace last m ≡ some (empty, m1) = rw (take_workspace, g) refl in
      let ws1 = extended empty added m.workspaces in
      let len : length ws1 ≡ length m.workspaces + length added =
        length-extended empty added m.workspaces n in
      let m1' : Monitor s f = record m { workspaces = ws1 } in
      let r1 : m1'.active_workspace_idx < length m1'.workspaces =
        omega (arith, len, v.shape.in_range) in
      let b1 : blank_at m1'.workspaces (length m1'.workspaces - 1) ≡ true =
        ground (arith, len, blank, extended_last empty added m.workspaces n) in
      let (m2, p2, t2) = top_if_used-Topped ws1 m1' refl r1 b1 in
      let focus = m.active_workspace_idx == last in
      let (m', p, h) =
        clean_up_workspaces-CleanedUp (without_switch (refocus_last focus m2))
          (refocus_last-HasShape focus m1' m2 t2) refl in
      let (same, prev, out) = refocus_last-same focus m2 in
      (
        m',
        rw (take, p2) p,
        record {
          valid = h.valid;
          same_used =
              h.same_used
              ∙ (ap used same
                  ∙ (t2.grown.same_used
                      ∙ used-extended empty added m.workspaces blank v.shape.last_blank));
          same_previous = h.same_previous ∙ (prev ∙ t2.grown.same_previous);
          same_output = h.same_output ∙ (out ∙ t2.grown.same_output);
        },
      )
