-- ===== src/Layout/Carrying.antt =====
-- The move of a workspace to another output, src/layout/mod.rs.
use macniri.Base.{
  get_elem?-set, inl, inr, ap, ◌-◌, ◌==◌, ◌⊎◌, Option, if◌then◌else◌, All, All-get, All-set, ℕ, ◌+◌,
  ◌<◌, ◌≡◌, ◌≢◌, ◌∙◌, Bool, none, some, List, [], ◌∷◌, map, arith, get_elem?, set, insert_at,
  erase_idx, length, length-set, refl,
}
use macniri.Monitor.Types.{Space, Motion, Workspace, Monitor}
use macniri.Monitor.Workspaces.{set_output, update_config}
use macniri.Monitor.Moves.{remove_workspace_by_idx, insert_workspace}
use macniri.Monitor.Invariant.{IsValid, active_workspace}
use macniri.Monitor.Exchanging.{
  Removed, remove_workspace_by_idx-Removed, Inserted, insert_workspace-Inserted,
}
use macniri.Monitor.Cleaning.{used}
use macniri.Layout.Types.{with_counter}
use macniri.Layout.Views.{workspaces_of}
use macniri.Layout.Counting.{
  Key, copies, copies-same_used, copies-erase_idx, copies-insert_at, adopt-same, set_output-same,
  total, total-set,
}
use macniri.Layout.Moves.{with_original, carry}
use macniri.Layout.Adding.{with_counter-IsValid, outputs-set}

module _ {s : Space} where
  -- What the moved workspace becomes on the other output.
  abbrev pub carried : ℕ → ℕ → Workspace s → Workspace s
  carried output new_output w =
      update_config (set_output (some output) (with_original new_output (set_output none w)))

  copies-carried :
      (key : Key) (output new_output : ℕ) (w : Workspace s)
      → copies key (carried output new_output w ∷ []) ≡ copies key (w ∷ [])
  copies-carried key output new_output w = ground (
    arith,
    adopt-same output (with_original new_output (set_output none w)),
    set_output-same none w,
  )

module _ {s : Space} {f : Motion} where
  -- Both monitors are valid, the outputs are the same, and no workspace has gone.
  pub record Carried (ms ms' : List (Monitor s f)) : Type 0 where
    pub valid : All IsValid ms'
    pub same_length : length ms' ≡ length ms
    pub same_total : (key : Key) → total key ms' ≡ total key ms
    pub same_outputs : map (λ m. m.output) ms' ≡ map (λ m. m.output) ms

  abbrev pub active_of : Option (Monitor s f) → Option (Workspace s)
  active_of none = none
  active_of (some m) = active_workspace m

  -- Below the active workspace, and before the last empty one.
  abbrev pub below_active : Monitor s f → ℕ
  below_active m =
      let idx = m.active_workspace_idx + 1 in if idx == length m.workspaces then idx - 1 else idx

  -- The used workspaces after the workspace `w` has gone from `m` at `current` to `to` at `target`.
  pub record Crossed (old_idx current target : ℕ) (activate : Bool) (new_output : ℕ)
      (m to : Monitor s f) (w : Workspace s) (ms ms' : List (Monitor s f)) : Type 0 where
    pub left : used (workspaces_of (get_elem? ms' current)) ≡ used (erase_idx old_idx m.workspaces)
    pub came :
        used (workspaces_of (get_elem? ms' target))
        ≡ used (insert_at (below_active to) (carried to.output new_output w) to.workspaces)
    pub target_focus :
        (active_of (get_elem? ms' target)
          ≡ (if activate then some (carried to.output new_output w) else active_workspace to))
        ⊎ (length (workspaces_of (get_elem? ms' target)) ≡ 1)
    pub source_focus :
        (old_idx ≡ m.active_workspace_idx)
        ⊎ ((active_of (get_elem? ms' current) ≡ active_workspace m)
            ⊎ (length (workspaces_of (get_elem? ms' current)) ≡ 1))
    pub others : (j : ℕ) → j ≢ current → j ≢ target → get_elem? ms' j ≡ get_elem? ms j

  pub set-Carried :
      (i : ℕ) (m m' : Monitor s f) (ms : List (Monitor s f))
      → All IsValid ms
      → get_elem? ms i ≡ some m
      → IsValid m'
      → m'.output ≡ m.output
      → ((key : Key) → copies key m'.workspaces ≡ copies key m.workspaces)
      → Carried ms (set ms i m')
  set-Carried i m m' ms v e v' o c = record {
    valid = All-set IsValid i m' ms v v';
    same_length = length-set ms i m';
    same_total = λ key. omega (arith, total-set key i m' ms {m = m} e, c key);
    same_outputs = outputs-set i m' ms {m = m} e o;
  }

  Removed-copies :
      (key : Key) (old_idx n : ℕ) (w : Workspace s) (m m' : Monitor s f)
      → get_elem? m.workspaces old_idx ≡ some w
      → Removed old_idx (with_counter n m) m'
      → copies key m'.workspaces + copies key (w ∷ []) ≡ copies key m.workspaces
  Removed-copies key old_idx n w m m' e r = omega (
    arith,
    copies-same_used key m'.workspaces (erase_idx old_idx m.workspaces) r.same_used,
    copies-erase_idx key old_idx m.workspaces {w = w} e,
  )

  Inserted-copies :
      (key : Key) (i n : ℕ) (w : Workspace s) (activate : Bool) (m m' : Monitor s f)
      → Inserted i w activate (with_counter n m) m'
      → copies key m'.workspaces ≡ copies key (w ∷ []) + copies key m.workspaces
  Inserted-copies key i n w activate m m' h = omega (
    arith,
    copies-same_used key m'.workspaces (insert_at i w m.workspaces) h.same_used,
    copies-insert_at key i w m.workspaces,
  )

  carry-run :
      (old_idx current target : ℕ) (activate : Bool) (new_output counter : ℕ)
      (ms : List (Monitor s f)) {from from' to to' : Monitor s f} {w : Workspace s}
      → get_elem? ms current ≡ some from
      → remove_workspace_by_idx old_idx (with_counter counter from) ≡ some (w, from')
      → get_elem? (set ms current from') target ≡ some to
      → insert_workspace
          (with_original new_output w)
          (to.active_workspace_idx + 1)
          activate
          (with_counter from'.next_id to)
        ≡ some to'
      → carry old_idx current target activate new_output counter ms
        ≡ some (set (set ms current from') target to', to'.next_id)
  unfolding carry
  carry-run old_idx current target activate new_output counter ms a b c d =
      rw (carry, a, b, c, d) refl

  pub carry-Carried :
      (old_idx current target : ℕ) (activate : Bool) (new_output counter : ℕ)
      (ms : List (Monitor s f)) {m to : Monitor s f} {w : Workspace s}
      → All IsValid ms
      → get_elem? ms current ≡ some m
      → get_elem? ms target ≡ some to
      → get_elem? m.workspaces old_idx ≡ some w
      → old_idx < length m.workspaces
      → current < length ms
      → target < length ms
      → current ≢ target
      → (ms' : List (Monitor s f)) × (n : ℕ) × (carry old_idx current target activate new_output
            counter ms
          ≡ some (ms', n))
        × Carried ms ms'
        × Crossed old_idx current target activate new_output m to w ms ms'
  carry-Carried old_idx current target activate new_output counter ms {m} {to} {w} v e d at_old l cl
        tl ne =
      let (w0, from', at_old0, run0, r) =
        remove_workspace_by_idx-Removed old_idx (with_counter counter m)
          (with_counter-IsValid counter m (All-get IsValid current ms {x = m} v e)) l in
      let ms1 = set ms current from' in
      let v1 = All-set IsValid current from' ms v r.valid in
      let len = length-set ms current from' in
      let at_target : get_elem? ms1 target ≡ some to =
        ground (arith, ne, d, get_elem?-set current target from' ms cl) in
      let same_w : w0 ≡ w = cc (at_old0, at_old) in
      let run1 : remove_workspace_by_idx old_idx (with_counter counter m)
          ≡ some (set_output none w, from') =
        run0 ∙ ap (λ u. some (set_output none u, from')) same_w in
      let v_to : IsValid to = All-get IsValid target ms1 {x = to} v1 at_target in
      let (to', run2, h) =
        insert_workspace-Inserted (with_original new_output (set_output none w))
          (to.active_workspace_idx + 1) activate (with_counter from'.next_id to)
          (with_counter-IsValid from'.next_id to v_to) (omega (arith, v_to.shape.in_range)) in
      let here : get_elem? (set ms1 target to') target ≡ some to' =
        ground (arith, get_elem?-set target target to' ms1 (omega (arith, len, tl))) in
      let there : get_elem? (set ms1 target to') current ≡ some from' = ground (
        arith,
        ne,
        get_elem?-set target current to' ms1 (omega (arith, len, tl)),
        get_elem?-set current current from' ms cl,
      ) in
      (
        set ms1 target to',
        to'.next_id,
        carry-run old_idx current target activate new_output counter ms {from = m} {from' = from'}
            {to = to} {to' = to'} {w = set_output none w} e run1 at_target run2,
        record {
          valid = All-set IsValid target to' ms1 v1 h.valid;
          same_length = length-set ms1 target to' ∙ len;
          same_total = λ key. omega (
            arith,
            total-set key current from' ms {m = m} e,
            total-set key target to' ms1 {m = to} at_target,
            Removed-copies key old_idx counter w m from' at_old r,
            Inserted-copies key _ from'.next_id _ activate to to' h,
            copies-carried key to.output new_output w,
          );
          same_outputs =
              outputs-set target to' ms1 {m = to} at_target h.same_output
              ∙ outputs-set current from' ms {m = m} e r.same_output;
        },
        record {
          left = ap (λ q. used (workspaces_of q)) there ∙ r.same_used;
          came = ap (λ q. used (workspaces_of q)) here ∙ h.same_used;
          target_focus = elim h.active [
            | inl q ↦ inl (ap active_of here ∙ q)
            | inr q ↦ inr (ap (λ k. length (workspaces_of k)) here ∙ q)
          ];
          source_focus = elim r.same_active [
            | inl q ↦ inl q
            | inr q ↦ inr (elim q [
              | inl z ↦ inl (ap active_of there ∙ z)
              | inr z ↦ inr (ap (λ k. length (workspaces_of k)) there ∙ z)
            ])
          ];
          others = λ j a b. ground (
            arith,
            a,
            b,
            get_elem?-set target j to' ms1 (omega (arith, len, tl)),
            get_elem?-set current j from' ms cl,
          );
        },
      )
