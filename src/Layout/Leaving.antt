-- ===== src/Layout/Leaving.antt =====
-- `remove_output` of src/layout/mod.rs keeps the layout valid.
use macniri.Base.{
  All, All-append, All-erase_idx, ℕ, suc, ◌≡◌, inl, inr, refl, sym, Bool, true, false, none, some,
  List, [], map, arith, ◌==◌, ltb, if◌then◌else◌, get_elem?, erase_idx, get_elem?-erase_idx,
  position, position-cases, subst, Bool-cases,
}
use macniri.Monitor.Types.{Space, Motion, Workspace}
use macniri.Monitor.Workspaces.{set_output}
use macniri.Layout.Types.{MonitorSet, Layout}
use macniri.Layout.Outputs.{adopt, remove_output}
use macniri.Layout.Views.{outputs_in, used_on, primary_idx_in}
use macniri.Layout.Ownership.{
  Homed, IsValidSet, IsValidLayout, has_id, has_name, All-map, All-imp, adopt-matches,
  adopt-foreign,
}
use macniri.Layout.Removing.{Left, remove_output_from-Left}

position_at :
    (output idx : ℕ) (outputs : List ℕ)
    → position (λ o. o == output) outputs ≡ some idx
    → get_elem? outputs idx ≡ some output
position_at output idx outputs e = elim (position-cases (λ o. o == output) outputs) [
  | inl (n, _) ↦ absurd (cc (n, e))
  | inr (i, o, n, g, t) ↦ ground (arith, n, e, g, t)
]

module _ (s : Space) where
  -- What belongs to the output at an index belongs to no other one.
  abbrev pub Apart : ℕ → ℕ → List ℕ → Type 0
  Apart output idx outputs =
      (a : s.OutputId)
      → s.matches a output ≡ true
      → All (λ o. s.matches a o ≡ false) (erase_idx idx outputs)

module _ {s : Space} where
  Homed-fewer :
      (outputs : List ℕ) (idx : ℕ) (p p' : Bool) (o : ℕ) (w : Workspace s)
      → (p ≡ true → p' ≡ true)
      → Homed outputs p o w
      → Homed (erase_idx idx outputs) p' o w
  Homed-fewer outputs idx p p' o w f (inl t) = inl t
  Homed-fewer outputs idx p p' o w f (inr (t, h)) =
      inr (f t, All-erase_idx (λ o'. s.matches w.original_output o' ≡ false) idx outputs h)

  -- A workspace of the removed output belongs to no other one, whichever monitor it was on.
  Homed-Apart :
      (outputs : List ℕ) (idx : ℕ) (p : Bool) (output : ℕ) (w : Workspace s)
      → Apart s output idx outputs
      → Homed outputs p output w
      → All (λ o. s.matches w.original_output o ≡ false) (erase_idx idx outputs)
  Homed-Apart outputs idx p output w a (inl t) = a w.original_output t
  Homed-Apart outputs idx p output w a (inr (t, h)) =
      All-erase_idx (λ o. s.matches w.original_output o ≡ false) idx outputs h

  Homed-adopt :
      (outputs : List ℕ) (o : ℕ) (w : Workspace s)
      → All (λ o'. s.matches w.original_output o' ≡ false) outputs
      → Homed outputs true o (adopt o w)
  Homed-adopt outputs o w h = elim (Bool-cases (s.matches w.original_output o)) [
    | inl t ↦ inl (adopt-matches o w t)
    | inr t ↦ inr (
      refl,
      subst (λ a. All (λ o'. s.matches a o' ≡ false) outputs) (sym (adopt-foreign o w t)) h,
    )
  ]

  Homed-moved :
      (outputs : List ℕ) (idx : ℕ) (p : Bool) (output o : ℕ) (ws : List (Workspace s))
      → Apart s output idx outputs
      → All (Homed outputs p output) ws
      → All (Homed (erase_idx idx outputs) true o) (map (adopt o) (map (set_output none) ws))
  unfolding set_output
  Homed-moved outputs idx p output o ws a h =
      let free : Workspace s → Type 0 =
        λ w. All (λ o'. s.matches w.original_output o' ≡ false) (erase_idx idx outputs) in
      All-map free (Homed (erase_idx idx outputs) true o) (adopt o) (map (set_output none) ws)
        (λ w k. Homed-adopt (erase_idx idx outputs) o w k)
        (All-map (Homed outputs p output) free (set_output none) ws
          (λ w k. Homed-Apart outputs idx p output w a k) h)

module _ {s : Space} {f : Motion} where
  Left-owned :
      (output idx : ℕ) (st st' : MonitorSet s f)
      → IsValidSet st
      → Apart s output idx (outputs_in st)
      → get_elem? (outputs_in st) idx ≡ some output
      → Left idx st st'
      → (i o : ℕ) → get_elem? (outputs_in st') i ≡ some o
      → All (Homed (outputs_in st') (i == primary_idx_in st') o) (used_on i st')
  Left-owned output idx st st' v a at_idx h i o e =
      let outs = erase_idx idx (outputs_in st) in
      let e' : get_elem? outs i ≡ some o =
        subst (λ l. get_elem? l i ≡ some o) h.rearranged.outputs_now e in
      let j = if ltb i idx then i else suc i in
      let old : get_elem? (outputs_in st) j ≡ some o =
        ground (arith, e', get_elem?-erase_idx idx i (outputs_in st)) in
      let first : (j == primary_idx_in st) ≡ true → (i == primary_idx_in st') ≡ true =
        λ t. ground (arith, t, h.primary_now) in
      let stay =
        All-imp (Homed (outputs_in st) (j == primary_idx_in st) o)
          (Homed outs (i == primary_idx_in st') o) (used_on j st)
          (λ w k.
            Homed-fewer (outputs_in st) idx (j == primary_idx_in st) (i == primary_idx_in st') o w
              first k)
          (v.owned j o old) in
      let moved = map (adopt o) (map (set_output none) (used_on idx st)) in
      let come =
        Homed-moved (outputs_in st) idx (idx == primary_idx_in st) output o (used_on idx st) a
          (v.owned idx output at_idx) in
      let goal : All (Homed outs (i == primary_idx_in st') o) (used_on i st') =
        subst (All (Homed outs (i == primary_idx_in st') o)) (sym (h.kept i o e')) (
          All-append (Homed outs (i == primary_idx_in st') o) (used_on j st)
            (if i == primary_idx_in st' then moved else []) stay
            (added_All outs o moved come (i == primary_idx_in st'))) in
      subst (λ l. All (Homed l (i == primary_idx_in st') o) (used_on i st'))
        (sym h.rearranged.outputs_now) goal
    where
      added_All :
          (outs : List ℕ) (o : ℕ) (ws : List (Workspace s))
          → All (Homed outs true o) ws
          → (b : Bool) → All (Homed outs b o) (if b then ws else [])
      added_All outs o ws k true = k
      added_All outs o ws k false = tt

  -- In a valid layout, when what belongs to one of its outputs belongs to no other, `remove_output` of that
  -- output does not panic and the result is valid. Its outputs are the others in their order. The
  -- workspaces with windows or a name of the removed monitor come after those of the primary one, in their
  -- order, or are kept without an output if no monitor is left. All others stay on their monitors in their
  -- order, and the indices of the primary and the active monitor are shifted.
  pub remove_output-Left :
      (output idx : ℕ) (l : Layout s f)
      → IsValidLayout l
      → position (λ o. o == output) (outputs_in l.monitor_set) ≡ some idx
      → Apart s output idx (outputs_in l.monitor_set)
      → (l' : Layout s f) × (remove_output output l ≡ some l')
        × IsValidLayout l'
        × Left idx l.monitor_set l'.monitor_set
  unfolding remove_output
  remove_output-Left output idx l v e a =
      let (l', run, h) = remove_output_from-Left output idx l l.monitor_set v.sound e in
      let same = h.rearranged.same_copies in
      let at_idx = position_at output idx (outputs_in l.monitor_set) e in
      (
        l',
        run,
        record {
          sound = h.rearranged.valid;
          unique_ids = λ id. omega (arith, same (has_id id), v.unique_ids id);
          unique_names = λ n. omega (arith, same (has_name n), v.unique_names n);
          owned = Left-owned output idx l.monitor_set l'.monitor_set v a at_idx h;
        },
        h,
      )
