-- ===== src/Monitor/Relocating.antt =====
-- `move_workspace_to_idx` of src/layout/monitor.rs.
use macniri.Base.{
  ℕ, ◌-◌, ◌≤◌, ◌<◌, ◌≡◌, ◌≢◌, ◌⊎◌, refl, sym, ap, ◌∙◌, inl, inr, true, Option, none, some, List,
  arith, min, ◌==◌, ltb, leb, length, get_elem?, insert_at, erase_idx, length-insert_at,
  length-erase_idx, get_elem?-insert_at, get_elem?-erase_idx, get_elem?-lt, Bool-cases, ◌>>=◌,
}
use macniri.Monitor.Types.{Space, Motion, Workspace, Monitor}
use macniri.Monitor.Cleaning.{blank_at, used}
use macniri.Monitor.Defs.{clean_up_workspaces}
use macniri.Monitor.Moves.{
  refocus, take_workspace, bottom_if_last, top_if_first, move_workspace_to_idx,
}
use macniri.Monitor.Invariant.{HasShape, IsValid, active_workspace, clean_up_workspaces-CleanedUp}
use macniri.Monitor.Growing.{bottom_if_last-Bottomed, top_if_first-Topped}

module _ {A : Type 0} where
  abbrev pub relocate : ℕ → ℕ → A → List A → List A
  relocate old_idx new_idx w ws = insert_at new_idx w (erase_idx old_idx ws)

  -- Whatever stood at an index stands where `refocus` says.
  relocate-refocus :
      (old_idx new_idx a : ℕ) (w : A) (ws : List A)
      → old_idx < length ws
      → new_idx < length ws
      → get_elem? ws old_idx ≡ some w
      → get_elem? (relocate old_idx new_idx w ws) (refocus old_idx new_idx a) ≡ get_elem? ws a
  relocate-refocus old_idx new_idx a w ws h l e =
      let n = length-erase_idx old_idx ws h in
      let at = refocus old_idx new_idx a in
      ground (
        arith,
        e,
        get_elem?-insert_at new_idx at w (erase_idx old_idx ws) (omega (arith, n)),
        get_elem?-erase_idx old_idx at ws,
        get_elem?-erase_idx old_idx (at - 1) ws,
      )

  relocate-other :
      (old_idx new_idx j : ℕ) (w : A) (ws : List A)
      → old_idx < length ws
      → new_idx < length ws
      → (j < old_idx × j < new_idx) ⊎ (old_idx < j × new_idx < j)
      → get_elem? (relocate old_idx new_idx w ws) j ≡ get_elem? ws j
  relocate-other old_idx new_idx j w ws h l c =
      let n = length-erase_idx old_idx ws h in
      ground (
        arith,
        c,
        get_elem?-insert_at new_idx j w (erase_idx old_idx ws) (omega (arith, n)),
        get_elem?-erase_idx old_idx j ws,
        get_elem?-erase_idx old_idx (j - 1) ws,
      )

  length-relocate :
      (old_idx new_idx : ℕ) (w : A) (ws : List A)
      → old_idx < length ws
      → length (relocate old_idx new_idx w ws) ≡ length ws
  length-relocate old_idx new_idx w ws h =
      length-insert_at new_idx w (erase_idx old_idx ws) ∙ length-erase_idx old_idx ws h

refocus_lt :
    (old_idx new_idx a n : ℕ) → a < n → new_idx < n → old_idx < n → refocus old_idx new_idx a < n
refocus_lt old_idx new_idx a n h k l = ground arith

module _ {s : Space} {f : Motion} where
  -- The result of a relocation that made the list `ws`: a valid monitor with the used workspaces of
  -- `ws` in their order. What was active stays active unless an empty workspace goes above the first.
  pub record Relocated (ws : List (Workspace s)) (m m' : Monitor s f) : Type 0 where
    pub valid : IsValid m'
    pub same_used : used m'.workspaces ≡ used ws
    pub same_active :
        (m.empty_workspace_above_first ≡ true)
        ⊎ ((active_workspace m' ≡ active_workspace m) ⊎ (length m'.workspaces ≡ 1))
    pub same_previous : m'.previous_workspace_id ≡ m.previous_workspace_id

  -- The rest of the function, once the workspace stands at its new place.
  finish_relocation : (hi lo old_idx new_idx : ℕ) → Monitor s f → Option (Monitor s f)
  finish_relocation hi lo old_idx new_idx m = do
    m3 ← bottom_if_last hi m
    (new_idx', m4) ← top_if_first lo new_idx m3
    clean_up_workspaces (record m4 {
      active_workspace_idx = refocus old_idx new_idx' m4.active_workspace_idx;
      workspace_switch = none;
    })

  finish_relocation-Relocated :
      (hi lo old_idx new_idx : ℕ) (m m2 : Monitor s f)
      → m2.active_workspace_idx < length m2.workspaces
      → new_idx < length m2.workspaces
      → old_idx < length m2.workspaces
      → m2.previous_workspace_id ≡ m.previous_workspace_id
      → m2.empty_workspace_above_first ≡ m.empty_workspace_above_first
      → (hi ≢ length m2.workspaces - 1 → blank_at m2.workspaces (length m2.workspaces - 1) ≡ true)
      → (m2.empty_workspace_above_first ≡ true → lo ≢ 0 → blank_at m2.workspaces 0 ≡ true)
      → get_elem? m2.workspaces (refocus old_idx new_idx m2.active_workspace_idx)
        ≡ active_workspace m
      → (m' : Monitor s f) × (finish_relocation hi lo old_idx new_idx m2 ≡ some m')
        × Relocated m2.workspaces m m'
  unfolding finish_relocation
  finish_relocation-Relocated hi lo old_idx new_idx m m2 r rn ro p q b c at =
      let (m3, p3, w3) = bottom_if_last-Bottomed hi m2 r b in
      let at3 : (j : ℕ)
          → j < length m2.workspaces
          → get_elem? m3.workspaces j ≡ get_elem? m2.workspaces j =
        w3.same in
      let b2 : m3.empty_workspace_above_first ≡ true → lo ≢ 0 → blank_at m3.workspaces 0 ≡ true =
        λ e n. ground (arith, at3 0 (omega arith), c (sym w3.grown.same_above ∙ e) n) in
      let ((t, m4), p4, w4) =
        top_if_first-Topped lo new_idx m3 w3.grown.in_range w3.grown.last_blank b2 in
      let l : new_idx < length m3.workspaces = omega (arith, w3.grown.longer) in
      let m5 : Monitor s f = record m4 {
        active_workspace_idx = refocus old_idx t m4.active_workspace_idx;
        workspace_switch = none;
      } in
      let shape : HasShape m5 = record {
        in_range =
            refocus_lt old_idx t m4.active_workspace_idx (length m4.workspaces) w4.grown.in_range
              (w4.target_range l) (omega (arith, w4.grown.longer, w3.grown.longer));
        last_blank = w4.grown.last_blank;
        first_blank = λ e. w4.first_blank (sym w4.grown.same_above ∙ e);
      } in
      let (m', p5, w5) = clean_up_workspaces-CleanedUp m5 shape refl in
      (
        m',
        ground (arith, p3, p4, p5),
        record {
          valid = w5.valid;
          same_used = w5.same_used ∙ (w4.grown.same_used ∙ w3.grown.same_used);
          same_active = elim (Bool-cases m.empty_workspace_above_first) [
            | inl e ↦ inl e
            | inr e ↦ inr (elim w5.same_active [
              | inr z ↦ inr z
              | inl z ↦
                  let o : (t, m4) ≡ (new_idx, m3) = w4.off (w3.grown.same_above ∙ (q ∙ e)) in
                  let a : active_workspace m5
                      ≡ get_elem? m3.workspaces (refocus old_idx new_idx m3.active_workspace_idx) =
                    ap
                      (λ r. get_elem? r.1.workspaces (refocus old_idx r.0 r.1.active_workspace_idx))
                      o in
                  let b : get_elem? m3.workspaces (refocus old_idx new_idx m3.active_workspace_idx)
                      ≡ get_elem? m3.workspaces (refocus old_idx new_idx m2.active_workspace_idx) =
                    ap (λ i. get_elem? m3.workspaces (refocus old_idx new_idx i)) w3.active_idx in
                  inl (
                    z
                    ∙ (a
                        ∙ (b
                            ∙ (at3 (refocus old_idx new_idx m2.active_workspace_idx) (
                                  refocus_lt old_idx new_idx m2.active_workspace_idx
                                    (length m2.workspaces) r rn ro)
                                ∙ at))))
            ])
          ];
          same_previous =
              w5.same_previous ∙ (w4.grown.same_previous ∙ (w3.grown.same_previous ∙ p));
        },
      )

  move_at :
      (hi lo old_idx new_idx : ℕ) (w : Workspace s) (m : Monitor s f)
      → IsValid m
      → get_elem? m.workspaces old_idx ≡ some w
      → old_idx < length m.workspaces
      → new_idx < length m.workspaces
      → (old_idx < new_idx × hi ≡ new_idx × lo ≡ old_idx)
        ⊎ (new_idx < old_idx × hi ≡ old_idx × lo ≡ new_idx)
      → (m' : Monitor s f) × (finish_relocation hi lo old_idx new_idx
            (record m { workspaces = relocate old_idx new_idx w m.workspaces })
          ≡ some m')
        × Relocated (relocate old_idx new_idx w m.workspaces) m m'
  move_at hi lo old_idx new_idx w m v e h l o =
      let n : length (relocate old_idx new_idx w m.workspaces) ≡ length m.workspaces =
        length-relocate old_idx new_idx w m.workspaces h in
      finish_relocation-Relocated hi lo old_idx new_idx m
        (record m { workspaces = relocate old_idx new_idx w m.workspaces })
        (omega (arith, n, v.shape.in_range)) (omega (arith, n)) (omega (arith, n)) refl refl
        (λ ne. ground (
          arith,
          n,
          o,
          v.shape.last_blank,
          relocate-other old_idx new_idx (length m.workspaces - 1) w m.workspaces h l,
        ))
        (λ a ne.
          ground
            (arith, o, v.shape.first_blank a, relocate-other old_idx new_idx 0 w m.workspaces h l))
        (relocate-refocus old_idx new_idx m.active_workspace_idx w m.workspaces h l e)

  -- On a valid monitor `move_workspace_to_idx` does not panic. If there is a workspace at the old index
  -- and the new one, cut to the list, differs, the result is valid and has the used workspaces in the
  -- order with that workspace moved; and unless empty workspaces are kept above the first or only one
  -- workspace is left, the same workspace is active. Else nothing changes.
  pub move_workspace_to_idx-Relocated :
      (old_idx target : ℕ) (m : Monitor s f)
      → IsValid m
      → (m' : Monitor s f) × (move_workspace_to_idx old_idx target m ≡ some m')
        × (((length m.workspaces ≤ old_idx ⊎ old_idx ≡ min target (length m.workspaces - 1))
              × m' ≡ m)
            ⊎ ((w : Workspace s) × (get_elem? m.workspaces old_idx ≡ some w)
                × Relocated
                    (relocate old_idx (min target (length m.workspaces - 1)) w m.workspaces)
                    m
                    m'))
  unfolding move_workspace_to_idx finish_relocation
  move_workspace_to_idx-Relocated old_idx target m v =
      let new_idx = min target (length m.workspaces - 1) in
      elim (Bool-cases (leb (length m.workspaces) old_idx)) [
        | inl e ↦ (m, rw e refl, inl (inl (ground (arith, e)), refl))
        | inr e ↦ elim (Bool-cases (old_idx == new_idx)) [
          | inl d ↦ (m, rw (e, d) refl, inl (inr (ground (arith, d)), refl))
          | inr d ↦
              let h : old_idx < length m.workspaces = ground (arith, e) in
              let l : new_idx < length m.workspaces = omega arith in
              let (w, g) = get_elem?-lt m.workspaces old_idx h in
              let m1 : Monitor s f = record m { workspaces = erase_idx old_idx m.workspaces } in
              let take : take_workspace old_idx m ≡ some (w, m1) = rw (take_workspace, g) refl in
              elim (Bool-cases (ltb old_idx new_idx)) [
                | inl b ↦
                    let (m', p, r) =
                      move_at new_idx old_idx old_idx new_idx w m v g h l
                        (inl (ground (arith, b), refl, refl)) in
                    (m', rw (e, d, take, b) p, inr (w, g, r))
                | inr b ↦
                    let (m', p, r) =
                      move_at old_idx new_idx old_idx new_idx w m v g h l
                        (inr (ground (arith, b, d), refl, refl)) in
                    (m', rw (e, d, take, b) p, inr (w, g, r))
              ]
        ]
      ]
