-- ===== src/Layout/Adding.antt =====
-- `add_output` of src/layout/mod.rs as a whole.
use macniri.Base.{
  All-get, All-set, All-append, ℕ, zero, suc, ◌≡◌, sym, ap, ◌∙◌, Bool, Option, none, some, List, [],
  ◌∷◌, ◌++◌, map, arith, get, delete, get_elem?, set, length, length-set, length-append,
  get_elem?-lt, subst, refl, length-map, Bool-cases, inl, inr, ◌<◌, ◌==◌, if◌then◌else◌,
}
use macniri.Monitor.Types.{Space, Motion, Workspace, Monitor}
use macniri.Monitor.Invariant.{IsValid}
use macniri.Monitor.Cleaning.{used}
use macniri.Layout.Views.{
  workspaces_of, outputs_in, workspaces_on, used_on, primary_idx_in, active_idx_in,
  workspaces_of-set, workspaces_of-append,
}
use macniri.Layout.Types.{MonitorSet, normal, no_outputs, Layout, IsSoundSet, with_counter}
use macniri.Layout.Counting.{
  Key, copies, copies-used, copies-map, adopt-same, total-append, total-set, copies_in_set,
}
use macniri.Layout.Outputs.{adopt, new_monitor, extract, add_output_to}
use macniri.Layout.Creation.{Created, new_monitor-Created}
use macniri.Layout.Belonging.{going, staying}
use macniri.Layout.Extraction.{KeepsEnds, extract-Extracted}

module _ {s : Space} {f : Motion} where
  abbrev pub KeepsEndsIf : ℕ → Option (Monitor s f) → Type 0
  KeepsEndsIf output none = Unit
  KeepsEndsIf output (some m) = KeepsEnds output m

  -- The empty workspaces at the ends of the primary monitor do not belong to the output.
  abbrev pub PrimaryKeepsEnds : ℕ → MonitorSet s f → Type 0
  PrimaryKeepsEnds output (normal ms primary active) = KeepsEndsIf output (get_elem? ms primary)
  PrimaryKeepsEnds output (no_outputs ws) = Unit

  -- A sound layout with these outputs, in which as many used workspaces as before pass each test of an id
  -- and a name.
  pub record Rearranged (outputs : List ℕ) (set set' : MonitorSet s f) : Type 0 where
    pub valid : IsSoundSet set'
    pub same_copies : (key : Key) → copies_in_set key set' ≡ copies_in_set key set
    pub outputs_now : outputs_in set' ≡ outputs

  -- The used workspaces that a new output gets, and those that stay on a monitor.
  abbrev pub leaving : ℕ → MonitorSet s f → List (Workspace s)
  leaving output (normal ms primary active) = going output (workspaces_of (get_elem? ms primary))
  leaving output (no_outputs ws) = ws

  abbrev pub remaining : ℕ → ℕ → MonitorSet s f → List (Workspace s)
  remaining output i st =
      if i == primary_idx_in st then staying output (workspaces_on i st) else used_on i st

  -- The new output is the last one. On it are, in their order, the used workspaces of the primary monitor
  -- that belong to it, or all that had no output; the others stay where they were.
  pub record Joined (output : ℕ) (set0 set' : MonitorSet s f) : Type 0 where
    pub rearranged : Rearranged (outputs_in set0 ++ (output ∷ [])) set0 set'
    pub came : used_on (length (outputs_in set0)) set' ≡ map (adopt output) (leaving output set0)
    pub stayed : (i : ℕ) → i < length (outputs_in set0) → used_on i set' ≡ remaining output i set0
    pub same_primary : primary_idx_in set' ≡ primary_idx_in set0
    pub same_active : active_idx_in set' ≡ active_idx_in set0

  pub with_counter-IsValid : (n : ℕ) (m : Monitor s f) → IsValid m → IsValid (with_counter n m)
  with_counter-IsValid n m v = record { shape = v.shape; not_two = v.not_two; tidy = v.tidy }

  with_counter-KeepsEnds :
      (output n : ℕ) (m : Monitor s f) → KeepsEnds output m → KeepsEnds output (with_counter n m)
  with_counter-KeepsEnds output n m k = record {
    last_stays = k.last_stays;
    first_stays = k.first_stays;
  }

  pub outputs-set :
      (i : ℕ) (m' : Monitor s f) (ms : List (Monitor s f)) {m : Monitor s f}
      → get_elem? ms i ≡ some m
      → m'.output ≡ m.output
      → map (λ m. m.output) (set ms i m') ≡ map (λ m. m.output) ms
  outputs-set i m' [] e o = refl
  outputs-set zero m' (v ∷ ms) {m} e o = ground (arith, e, o)
  outputs-set (suc i) m' (v ∷ ms) {m} e o = ap (v.output ∷◌) (outputs-set i m' ms {m = m} e o)

  outputs-append :
      (m' : Monitor s f) (ms : List (Monitor s f))
      → map (λ m. m.output) (ms ++ (m' ∷ [])) ≡ map (λ m. m.output) ms ++ (m'.output ∷ [])
  outputs-append m' [] = refl
  outputs-append m' (v ∷ ms) = ap (v.output ∷◌) (outputs-append m' ms)

  Created-copies :
      (key : Key) (output : ℕ) (above : Bool) (ws : List (Workspace s)) (m : Monitor s f)
      → Created above output ws m
      → copies key m.workspaces ≡ copies key ws
  Created-copies key output above ws m c =
      sym (copies-used key m.workspaces)
      ∙ (ap (copies key) c.same_used ∙ copies-map key (adopt output) ws (adopt-same output))

  abbrev joined : ℕ → Layout s f → Monitor s f → MonitorSet s f → Layout s f
  joined output l new set' = record {
    monitor_set = set';
    last_active_workspace_id = delete (s.output_name output) l.last_active_workspace_id;
    next_id = new.next_id;
  }

  add_output_to-joined :
      (above : Bool) (output : ℕ) (l : Layout s f) (ms : List (Monitor s f)) (primary active : ℕ)
      {m m' new : Monitor s f} {ws : List (Workspace s)}
      → get_elem? ms primary ≡ some m
      → extract output (with_counter l.next_id m) ≡ some (m', ws)
      → new_monitor above output m'.next_id ws
          (get (s.output_name output) l.last_active_workspace_id)
        ≡ some new
      → add_output_to above output l (normal ms primary active)
        ≡ some (joined output l new (normal (set ms primary m' ++ (new ∷ [])) primary active))
  add_output_to-joined above output l ms primary active a b c = rw (add_output_to, a, b, c) refl

  joined_came :
      (primary active output : ℕ) (m' new : Monitor s f) (ms : List (Monitor s f))
      → used_on
          (length (map (λ m. m.output) ms))
          (normal (set ms primary m' ++ (new ∷ [])) primary active)
        ≡ used new.workspaces
  joined_came primary active output m' new ms =
      let n = length-map (λ m. m.output) ms in
      let at : workspaces_of
            (get_elem? (set ms primary m' ++ (new ∷ [])) (length (map (λ m. m.output) ms)))
          ≡ new.workspaces =
        ground (
          arith,
          n,
          length-set ms primary m',
          workspaces_of-append (length (map (λ m. m.output) ms)) new (set ms primary m'),
        ) in
      ap used at

  joined_stayed :
      (output primary active : ℕ) (m m' new : Monitor s f) (ms : List (Monitor s f))
      → get_elem? ms primary ≡ some m
      → primary < length ms
      → used m'.workspaces ≡ staying output m.workspaces
      → (i : ℕ) → i < length (map (λ m. m.output) ms)
      → used_on i (normal (set ms primary m' ++ (new ∷ [])) primary active)
        ≡ remaining output i (normal ms primary active)
  joined_stayed output primary active m m' new ms e l kept i i_lt =
      let at : workspaces_of (get_elem? (set ms primary m' ++ (new ∷ [])) i)
          ≡ (if i == primary then m'.workspaces else workspaces_of (get_elem? ms i)) =
        ground (
          arith,
          i_lt,
          length-map (λ m. m.output) ms,
          length-set ms primary m',
          workspaces_of-append i new (set ms primary m'),
          workspaces_of-set primary i m' ms l,
        ) in
      elim (Bool-cases (i == primary)) [
        | inl t ↦
            let is : i ≡ primary = ground (arith, t) in
            let here : m.workspaces ≡ workspaces_of (get_elem? ms i) =
              ap workspaces_of (sym e) ∙ ap (λ k. workspaces_of (get_elem? ms k)) (sym is) in
            rw t (ap used (rw t at at) ∙ (kept ∙ ap (staying output) here))
        | inr t ↦ rw t (ap used (rw t at at))
      ]

  pub add_output_to-Joined :
      (above : Bool) (output : ℕ) (l : Layout s f) (set0 : MonitorSet s f)
      → IsSoundSet set0
      → PrimaryKeepsEnds output set0
      → (l' : Layout s f) × (add_output_to above output l set0 ≡ some l')
        × Joined output set0 l'.monitor_set
  add_output_to-Joined above output l (normal ms primary active) v k =
      let (m, at_primary) = get_elem?-lt ms primary v.0 in
      let (m', ws, taken, x) =
        extract-Extracted output (with_counter l.next_id m)
          (with_counter-IsValid l.next_id m (All-get IsValid primary ms {x = m} v.2 at_primary))
          (with_counter-KeepsEnds output l.next_id m (subst (KeepsEndsIf output) at_primary k)) in
      let (new, made, c) =
        new_monitor-Created {f = f} above output m'.next_id ws
          (get (s.output_name output) l.last_active_workspace_id) x.taken_used in
      let len : length (set ms primary m' ++ (new ∷ [])) ≡ suc (length ms) =
        omega (arith, length-append (set ms primary m') (new ∷ []), length-set ms primary m') in
      (
        joined output l new (normal (set ms primary m' ++ (new ∷ [])) primary active),
        add_output_to-joined above output l ms primary active {m = m} {m' = m'} {new = new}
            {ws = ws} at_primary taken made,
        record {
          rearranged = record {
            valid = (
              omega (arith, v.0, len),
              omega (arith, v.1, len),
              All-append IsValid (set ms primary m') (new ∷ [])
                  (All-set IsValid primary m' ms v.2 x.valid) (c.valid, tt),
            );
            same_copies = λ key. omega (
              arith,
              total-append key (set ms primary m') (new ∷ []),
              total-set key primary m' ms {m = m} at_primary,
              x.counted key,
              Created-copies key output above ws new c,
            );
            outputs_now =
                outputs-append new (set ms primary m')
                ∙ rw (outputs-set primary m' ms {m = m} at_primary x.same_output, c.same_output)
                    refl;
          };
          came =
              joined_came primary active output m' new ms
              ∙ (c.same_used
                  ∙ ap (map (adopt output))
                      (x.taken ∙ ap (λ o. going output (workspaces_of o)) (sym at_primary)));
          stayed = λ i i_lt.
              joined_stayed output primary active m m' new ms at_primary v.0 x.kept i i_lt;
          same_primary = refl;
          same_active = refl;
        },
      )
  add_output_to-Joined above output l (no_outputs ws) v k =
      let (new, made, c) =
        new_monitor-Created {f = f} above output l.next_id ws
          (get (s.output_name output) l.last_active_workspace_id) v in
      (
        joined output l new (normal (new ∷ []) 0 0),
        rw made refl,
        record {
          rearranged = record {
            valid = (omega arith, omega arith, (c.valid, tt));
            same_copies = λ key. omega (arith, Created-copies key output above ws new c);
            outputs_now = rw c.same_output refl;
          };
          came = c.same_used;
          stayed = λ i i_lt. absurd (omega (arith, i_lt));
          same_primary = refl;
          same_active = refl;
        },
      )
