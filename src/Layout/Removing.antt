-- ===== src/Layout/Removing.antt =====
-- `remove_output` of src/layout/mod.rs as a whole.
use macniri.Base.{
  get_elem?-erase_idx, ltb, if◌then◌else◌, sym, position-lt, All-get, All-erase_idx, ℕ, suc, ◌≡◌,
  ap, ◌∙◌, none, some, List, [], ◌++◌, map, arith, put, get_elem?, length-erase_idx, get_elem?-lt,
  ◌==◌, erase_idx, position, refl,
}
use macniri.Monitor.Types.{Space, Motion, Workspace, Monitor}
use macniri.Monitor.Workspaces.{set_output, update_config}
use macniri.Monitor.Cleaning.{used}
use macniri.Monitor.Moves.{into_workspaces}
use macniri.Monitor.Invariant.{IsValid}
use macniri.Layout.Types.{MonitorSet, normal, no_outputs, Layout, IsSoundSet}
use macniri.Layout.Counting.{total-erase_idx}
use macniri.Layout.Outputs.{adopt, shift_down, rehome, remove_output_from}
use macniri.Layout.Views.{
  workspaces_of, outputs_in, used_on, loose_in, primary_idx_in, active_idx_in,
}
use macniri.Layout.Adding.{Rearranged}
use macniri.Layout.Rehoming.{
  into_workspaces-copies, into_workspaces-IsUsed, into_workspaces-All, into_workspaces_lem,
  position-output, outputs-erase_idx, rehome-Rehomed, Rehomed,
}

module _ {s : Space} {f : Motion} where
  remove_output_from-normal :
      (output idx : ℕ) (l : Layout s f) (ms : List (Monitor s f)) (primary active : ℕ)
      (m : Monitor s f) (w : Workspace s) (set' : MonitorSet s f) (n : ℕ)
      → position (λ m. m.output == output) ms ≡ some idx
      → get_elem? ms idx ≡ some m
      → get_elem? m.workspaces m.active_workspace_idx ≡ some w
      → rehome (into_workspaces m) idx primary active l.next_id (erase_idx idx ms) ≡ some (set', n)
      → remove_output_from output l (normal ms primary active)
        ≡ some (record {
          monitor_set = set';
          last_active_workspace_id = put (s.output_name output) w.id l.last_active_workspace_id;
          next_id = n;
        })
  remove_output_from-normal output idx l ms primary active m w set' n a b c d =
      rw (remove_output_from, a, b, c, d) refl

  -- The output has gone. The used workspaces of its monitor come after those of the primary monitor, in
  -- their order, or have no output if no monitor is left. All others stay where they were, and the indices
  -- of the primary and the active monitor are shifted.
  pub record Left (idx : ℕ) (set0 set' : MonitorSet s f) : Type 0 where
    pub rearranged : Rearranged (erase_idx idx (outputs_in set0)) set0 set'
    pub kept :
        (i o : ℕ)
        → get_elem? (erase_idx idx (outputs_in set0)) i ≡ some o
        → used_on i set'
          ≡ used_on (if ltb i idx then i else suc i) set0
            ++ (if i == primary_idx_in set'
                then map (adopt o) (map (set_output none) (used_on idx set0))
                else [])
    pub primary_now : primary_idx_in set' ≡ shift_down idx (primary_idx_in set0)
    pub active_now : active_idx_in set' ≡ shift_down idx (active_idx_in set0)
    pub loose_now :
        erase_idx idx (outputs_in set0) ≡ []
        → loose_in set' ≡ map update_config (map (set_output none) (used_on idx set0))

  Rehomed-Left :
      (idx primary active : ℕ) (m : Monitor s f) (ms : List (Monitor s f)) (set' : MonitorSet s f)
      → get_elem? ms idx ≡ some m
      → Rehomed (into_workspaces m) idx primary active (erase_idx idx ms) set'
      → Left idx (normal ms primary active) set'
  Rehomed-Left idx primary active m ms set' e h =
      let outs = outputs-erase_idx idx ms in
      let moved : into_workspaces m
          ≡ map (set_output none) (used (workspaces_of (get_elem? ms idx))) =
        into_workspaces_lem m ∙ ap (λ q. map (set_output none) (used (workspaces_of q))) (sym e) in
      record {
        rearranged = record {
          valid = h.valid;
          same_copies = λ key. omega (
            arith,
            h.copies_now key,
            into_workspaces-copies key m,
            total-erase_idx key idx ms {m = m} e,
          );
          outputs_now = h.outputs_now ∙ outs;
        };
        kept = λ i o at.
            let at' : get_elem? (map (λ m. m.output) (erase_idx idx ms)) i ≡ some o =
              ap (λ l. get_elem? l i) outs ∙ at in
            let old : workspaces_of (get_elem? (erase_idx idx ms) i)
                ≡ workspaces_of (get_elem? ms (if ltb i idx then i else suc i)) =
              ground (arith, get_elem?-erase_idx idx i ms) in
            h.kept i o at'
            ∙ (ap
                  (λ q.
                    used q
                    ++ (if i == primary_idx_in set' then map (adopt o) (into_workspaces m) else []))
                  old
                ∙ ap
                    (λ q.
                      used (workspaces_of (get_elem? ms (if ltb i idx then i else suc i)))
                      ++ (if i == primary_idx_in set' then map (adopt o) q else []))
                    moved);
        primary_now = h.primary_now;
        active_now = h.active_now;
        loose_now = λ z. h.loose_now (outs ∙ z) ∙ ap (map update_config) moved;
      }

  pub remove_output_from-Left :
      (output idx : ℕ) (l : Layout s f) (set0 : MonitorSet s f)
      → IsSoundSet set0
      → position (λ o. o == output) (outputs_in set0) ≡ some idx
      → (l' : Layout s f) × (remove_output_from output l set0 ≡ some l')
        × Left idx set0 l'.monitor_set
  remove_output_from-Left output idx l (no_outputs ws) v e = absurd (cc e)
  remove_output_from-Left output idx l (normal ms primary active) v e =
      let at : position (λ m. m.output == output) ms ≡ some idx = position-output output ms ∙ e in
      let lt = position-lt (λ m. m.output == output) ms idx at in
      let (m, found) = get_elem?-lt ms idx lt in
      let valid = All-get IsValid idx ms {x = m} v.2 found in
      let (w, is_active) = get_elem?-lt m.workspaces m.active_workspace_idx valid.shape.in_range in
      let len = length-erase_idx idx ms lt in
      let (set', n, run, h) =
        rehome-Rehomed (into_workspaces m) idx primary active l.next_id (erase_idx idx ms)
          (All-erase_idx IsValid idx ms v.2) (into_workspaces-IsUsed m) (into_workspaces-All m)
          (omega (arith, len, lt)) (omega (arith, len, v.0)) (omega (arith, len, v.1)) in
      (
        _,
        remove_output_from-normal output idx l ms primary active m w set' n at found is_active run,
        Rehomed-Left idx primary active m ms set' found h,
      )
