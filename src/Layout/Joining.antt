-- ===== src/Layout/Joining.antt =====
-- `add_output` of src/layout/mod.rs keeps the layout valid.
use macniri.Base.{
  All, All-append, ℕ, ◌≡◌, inl, inr, refl, sym, Bool, true, false, some, List, [], ◌∷◌, ◌++◌, map,
  arith, ◌==◌, ltb, length, get_elem?, get_elem?-append, subst, Bool-cases,
}
use macniri.Monitor.Types.{Space, Motion, Workspace}
use macniri.Layout.Types.{MonitorSet, normal, no_outputs, Layout}
use macniri.Layout.Outputs.{adopt, add_output}
use macniri.Layout.Views.{workspaces_of, outputs_in, workspaces_on, used_on, primary_idx_in}
use macniri.Layout.Ownership.{
  Homed, IsValidSet, IsValidLayout, has_id, has_name, All-map, All-staying, All-going, All-imp,
  adopt-matches,
}
use macniri.Layout.Adding.{PrimaryKeepsEnds, Joined, leaving, remaining, add_output_to-Joined}

module _ {s : Space} where
  -- Another output that a workspace does not belong to.
  Homed-more :
      (outputs : List ℕ) (p : Bool) (o output : ℕ) (w : Workspace s)
      → Homed outputs p o w
      → s.matches w.original_output output ≡ false
      → Homed (outputs ++ (output ∷ [])) p o w
  Homed-more outputs p o output w (inl t) n = inl t
  Homed-more outputs p o output w (inr (t, h)) n =
      inr (
        t,
        All-append (λ o'. s.matches w.original_output o' ≡ false) outputs (output ∷ []) h (n, tt),
      )

  Homed-secondary :
      (outputs : List ℕ) (o output : ℕ) (w : Workspace s)
      → Homed outputs false o w
      → Homed (outputs ++ (output ∷ [])) false o w
  Homed-secondary outputs o output w (inl t) = inl t
  Homed-secondary outputs o output w (inr (t, h)) = absurd (cc t)

  All-any :
      (Q : Workspace s → Type 0) (ws : List (Workspace s)) → ((w : Workspace s) → Q w) → All Q ws
  All-any Q [] h = tt
  All-any Q (w ∷ ws) h = (h w, All-any Q ws h)

  Homed-only : (output : ℕ) (w : Workspace s) → Homed (output ∷ []) true output w
  Homed-only output w = elim (Bool-cases (s.matches w.original_output output)) [
    | inl t ↦ inl t
    | inr t ↦ inr (refl, (t, tt))
  ]

module _ {s : Space} {f : Motion} where
  owned_stayed :
      (output i o : ℕ) (st : MonitorSet s f)
      → All (Homed (outputs_in st) (i == primary_idx_in st) o) (used_on i st)
      → All
          (Homed (outputs_in st ++ (output ∷ [])) (i == primary_idx_in st) o)
          (remaining output i st)
  owned_stayed output i o st h = elim (Bool-cases (i == primary_idx_in st)) [
    | inl t ↦ rw t (
        All-staying (Homed (outputs_in st) true o) (Homed (outputs_in st ++ (output ∷ [])) true o)
          output (workspaces_on i st) (λ w a n. Homed-more (outputs_in st) true o output w a n)
          (rw t at h))
    | inr t ↦ rw t (
        All-imp (Homed (outputs_in st) false o) (Homed (outputs_in st ++ (output ∷ [])) false o)
          (used_on i st) (λ w a. Homed-secondary (outputs_in st) o output w a) (rw t at h))
  ]

  owned_came :
      (output : ℕ) (st : MonitorSet s f)
      → All
          (Homed
            (outputs_in st ++ (output ∷ []))
            (length (outputs_in st) == primary_idx_in st)
            output)
          (map (adopt output) (leaving output st))
  owned_came output (normal ms primary active) =
      let ws = leaving output (normal ms primary active) in
      All-map (λ w. s.matches w.original_output output ≡ true) _ (adopt output) ws
        (λ w t. inl (adopt-matches output w t))
        (All-going output (workspaces_of (get_elem? ms primary)))
  owned_came output (no_outputs ws) =
      All-any (Homed (output ∷ []) true output) (map (adopt output) ws) (Homed-only output)

  Joined-owned :
      (output : ℕ) (st st' : MonitorSet s f)
      → IsValidSet st
      → Joined output st st'
      → (i o : ℕ) → get_elem? (outputs_in st') i ≡ some o
      → All (Homed (outputs_in st') (i == primary_idx_in st') o) (used_on i st')
  Joined-owned output st st' v j i o e =
      let outs = outputs_in st ++ (output ∷ []) in
      let e' : get_elem? outs i ≡ some o =
        subst (λ l. get_elem? l i ≡ some o) j.rearranged.outputs_now e in
      let at = get_elem?-append i (outputs_in st) (output ∷ []) in
      let goal : All (Homed outs (i == primary_idx_in st) o) (used_on i st') =
        elim (Bool-cases (ltb i (length (outputs_in st)))) [
          | inl t ↦
              let old : get_elem? (outputs_in st) i ≡ some o = ground (arith, t, at, e') in
              subst (All (Homed outs (i == primary_idx_in st) o))
                (sym (j.stayed i (ground (arith, t))))
                (owned_stayed output i o st (v.owned i o old))
          | inr t ↦
              let (is, same) : (i ≡ length (outputs_in st)) × (o ≡ output) =
                last_of i o output (outputs_in st) t e' in
              subst (λ k. All (Homed outs (k == primary_idx_in st) o) (used_on k st')) (sym is)
                (subst
                  (λ q.
                    All (Homed outs (length (outputs_in st) == primary_idx_in st) q)
                      (used_on (length (outputs_in st)) st'))
                  (sym same)
                  (subst (All (Homed outs (length (outputs_in st) == primary_idx_in st) output))
                    (sym j.came) (owned_came output st)))
        ] in
      subst (λ l. All (Homed l (i == primary_idx_in st') o) (used_on i st'))
        (sym j.rearranged.outputs_now)
        (subst (λ k. All (Homed outs (i == k) o) (used_on i st')) (sym j.same_primary) goal)
    where
      last_of :
          (i o output : ℕ) (outs : List ℕ)
          → ltb i (length outs) ≡ false
          → get_elem? (outs ++ (output ∷ [])) i ≡ some o
          → (i ≡ length outs) × (o ≡ output)
      last_of i o output outs t e = ground (arith, t, e, get_elem?-append i outs (output ∷ []))

  -- In a valid layout, when the empty workspaces at the ends of the primary monitor do not belong to
  -- the new output, `add_output` does not panic and the result is valid. Its outputs are the old ones and
  -- the new one at the end. On the new one are, in their order, the workspaces with windows or a name of
  -- the primary monitor that belong to it, or all of them if there was no monitor. All others stay in
  -- their order on the monitor they were on.
  pub add_output-Joined :
      (above : Bool) (output : ℕ) (l : Layout s f)
      → IsValidLayout l
      → PrimaryKeepsEnds output l.monitor_set
      → (l' : Layout s f) × (add_output above output l ≡ some l')
        × IsValidLayout l'
        × Joined output l.monitor_set l'.monitor_set
  unfolding add_output
  add_output-Joined above output l v k =
      let (l', run, j) = add_output_to-Joined above output l l.monitor_set v.sound k in
      let same = j.rearranged.same_copies in
      (
        l',
        run,
        record {
          sound = j.rearranged.valid;
          unique_ids = λ id. omega (arith, same (has_id id), v.unique_ids id);
          unique_names = λ n. omega (arith, same (has_name n), v.unique_names n);
          owned = Joined-owned output l.monitor_set l'.monitor_set v j;
        },
        j,
      )
