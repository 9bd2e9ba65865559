-- ===== src/Layout/Rehoming.antt =====
-- Where the workspaces of a removed monitor go, src/layout/mod.rs.
use macniri.Base.{
  append_nil, if◌then◌else◌, sym, subst, true, All, All-get, All-set, ℕ, zero, suc, ◌+◌, ◌<◌, ◌≡◌,
  inl, inr, ap, ◌∙◌, none, some, List, [], ◌∷◌, ◌++◌, map, arith, get_elem?, set, length,
  length-set, get_elem?-lt, ◌==◌, erase_idx, position, refl, Bool-cases,
}
use macniri.Monitor.Types.{Space, Motion, Workspace, Monitor}
use macniri.Monitor.Workspaces.{has_windows_or_name, set_output, update_config}
use macniri.Monitor.Cleaning.{used}
use macniri.Monitor.Moves.{append_workspaces, into_workspaces}
use macniri.Monitor.Invariant.{IsValid}
use macniri.Monitor.Appending.{Appended, append_workspaces-Appended}
use macniri.Layout.Types.{IsUsed, MonitorSet, normal, no_outputs, IsSoundSet, with_counter}
use macniri.Layout.Counting.{
  Key, copies, copies-used, copies-append, copies-map, adopt-same, update_config-same,
  set_output-same, total, total-set, copies_in_set,
}
use macniri.Layout.Outputs.{adopt, shift_down, rehome}
use macniri.Layout.Views.{
  workspaces_of, outputs_in, used_on, loose_in, primary_idx_in, active_idx_in, workspaces_of-set,
}
use macniri.Layout.Adding.{with_counter-IsValid, outputs-set}

shift_down_lt : (gone idx n : ℕ) → gone < suc n → idx < suc n → 0 < n → shift_down gone idx < n
shift_down_lt gone idx n g i z = ground arith

module _ {s : Space} where
  All-used :
      (ws : List (Workspace s)) → All IsUsed (map update_config (map (set_output none) (used ws)))
  All-used [] = tt
  All-used (w ∷ ws) = elim (Bool-cases (has_windows_or_name w)) [
    | inl t ↦
        rw t (
          (update_config-same (set_output none w)).1 ∙ ((set_output-same none w).1 ∙ t),
          All-used ws,
        )
    | inr t ↦ rw t (All-used ws)
  ]

  All-unset : (ws : List (Workspace s)) → All IsUsed (map (set_output none) (used ws))
  All-unset [] = tt
  All-unset (w ∷ ws) = elim (Bool-cases (has_windows_or_name w)) [
    | inl t ↦ rw t ((set_output-same none w).1 ∙ t, All-unset ws)
    | inr t ↦ rw t (All-unset ws)
  ]

  used-adopt :
      (o : ℕ) (ws : List (Workspace s)) → All IsUsed ws → used (map (adopt o) ws) ≡ map (adopt o) ws
  used-adopt o [] h = refl
  used-adopt o (w ∷ ws) h =
      let u : has_windows_or_name (adopt o w) ≡ true = (adopt-same o w).1 ∙ h.0 in
      rw u (ap (adopt o w ∷◌) (used-adopt o ws h.1))

module _ {s : Space} {f : Motion} where
  pub into_workspaces-copies :
      (key : Key) (m : Monitor s f) → copies key (into_workspaces m) ≡ copies key m.workspaces
  unfolding into_workspaces
  into_workspaces-copies key m =
      copies-map key (set_output none) (used m.workspaces) (set_output-same none)
      ∙ copies-used key m.workspaces

  pub into_workspaces-IsUsed : (m : Monitor s f) → All IsUsed (into_workspaces m)
  unfolding into_workspaces
  into_workspaces-IsUsed m = All-unset m.workspaces

  pub into_workspaces_lem :
      (m : Monitor s f) → into_workspaces m ≡ map (set_output none) (used m.workspaces)
  unfolding into_workspaces
  into_workspaces_lem m = refl

  pub output_at :
      (i o : ℕ) (m : Monitor s f) (ms : List (Monitor s f))
      → get_elem? ms i ≡ some m
      → get_elem? (map (λ m. m.output) ms) i ≡ some o
      → m.output ≡ o
  output_at i o m [] e h = absurd (cc e)
  output_at zero o m (v ∷ ms) e h = ground (arith, e, h)
  output_at (suc i) o m (v ∷ ms) e h = output_at i o m ms e h

  pub into_workspaces-All : (m : Monitor s f) → All IsUsed (map update_config (into_workspaces m))
  unfolding into_workspaces
  into_workspaces-All m = All-used m.workspaces

  Appended-copies :
      (key : Key) (n : ℕ) (ws : List (Workspace s)) (m m' : Monitor s f)
      → Appended (map (λ v. update_config (set_output (some m.output) v)) ws) (with_counter n m) m'
      → copies key m'.workspaces ≡ copies key m.workspaces + copies key ws
  Appended-copies key n ws m m' a =
      let added = map (λ v. update_config (set_output (some m.output) v)) ws in
      let appended : copies key (used m'.workspaces)
          ≡ copies key (used m.workspaces ++ used added) =
        ap (copies key) a.same_used in
      omega (
        arith,
        appended,
        copies-used key m'.workspaces,
        copies-append key (used m.workspaces) (used added),
        copies-used key m.workspaces,
        copies-used key added,
        copies-map key (λ v. update_config (set_output (some m.output) v)) ws (adopt-same m.output),
      )

  pub outputs-erase_idx :
      (i : ℕ) (ms : List (Monitor s f))
      → map (λ m. m.output) (erase_idx i ms) ≡ erase_idx i (map (λ m. m.output) ms)
  outputs-erase_idx i [] = refl
  outputs-erase_idx zero (m ∷ ms) = refl
  outputs-erase_idx (suc i) (m ∷ ms) = ap (m.output ∷◌) (outputs-erase_idx i ms)

  pub position-output :
      (output : ℕ) (ms : List (Monitor s f))
      → position (λ m. m.output == output) ms ≡ position (λ o. o == output) (map (λ m. m.output) ms)
  position-output output [] = refl
  position-output output (m ∷ ms) = ground (arith, position-output output ms)

  -- The workspaces have gone to these monitors, or stay without an output if there is none.
  pub record Rehomed (ws : List (Workspace s)) (gone primary active : ℕ) (rest : List (Monitor s f))
      (set' : MonitorSet s f) : Type 0 where
    pub valid : IsSoundSet set'
    pub copies_now : (key : Key) → copies_in_set key set' ≡ total key rest + copies key ws
    pub outputs_now : outputs_in set' ≡ map (λ m. m.output) rest
    pub kept :
        (i o : ℕ)
        → get_elem? (map (λ m. m.output) rest) i ≡ some o
        → used_on i set'
          ≡ used (workspaces_of (get_elem? rest i))
            ++ (if i == primary_idx_in set' then map (adopt o) ws else [])
    pub primary_now : primary_idx_in set' ≡ shift_down gone primary
    pub active_now : active_idx_in set' ≡ shift_down gone active
    pub loose_now : map (λ m. m.output) rest ≡ [] → loose_in set' ≡ map update_config ws

  rehomed_kept :
      (ws : List (Workspace s)) (p a n : ℕ) (m m' : Monitor s f) (rest : List (Monitor s f))
      → All IsUsed ws
      → p < length rest
      → get_elem? rest p ≡ some m
      → Appended (map (λ v. update_config (set_output (some m.output) v)) ws) (with_counter n m) m'
      → (i o : ℕ) → get_elem? (map (λ m. m.output) rest) i ≡ some o
      → used_on i (normal (set rest p m') p a)
        ≡ used (workspaces_of (get_elem? rest i)) ++ (if i == p then map (adopt o) ws else [])
  rehomed_kept ws p a n m m' rest u l e h i o at =
      let here = workspaces_of-set p i m' rest l in
      elim (Bool-cases (i == p)) [
        | inr t ↦
            rw t
              (ap used (rw t at here) ∙ sym (append_nil (used (workspaces_of (get_elem? rest i)))))
        | inl t ↦
            let is : p ≡ i = ground (arith, t) in
            let e' : get_elem? rest i ≡ some m = subst (λ k. get_elem? rest k ≡ some m) is e in
            let out : m.output ≡ o = output_at i o m rest e' at in
            rw t (
              ap used (rw t at here)
              ∙ (h.same_used
                  ∙ (ap (λ q. used m.workspaces ++ q) (used-adopt m.output ws u)
                      ∙ (ap (λ q. used m.workspaces ++ map (adopt q) ws) out
                          ∙ ap (λ q. used (workspaces_of q) ++ map (adopt o) ws) (sym e')))))
      ]

  pub rehome-Rehomed :
      (ws : List (Workspace s)) (gone primary active counter : ℕ) (rest : List (Monitor s f))
      → All IsValid rest
      → All IsUsed ws
      → All IsUsed (map update_config ws)
      → gone < suc (length rest)
      → primary < suc (length rest)
      → active < suc (length rest)
      → (set' : MonitorSet s f) × (n : ℕ) × (rehome ws gone primary active counter rest
          ≡ some (set', n))
        × Rehomed ws gone primary active rest set'
  rehome-Rehomed ws gone primary active counter [] v u0 u g p a = (
    no_outputs (map update_config ws),
    counter,
    refl,
    record {
      valid = u;
      copies_now = λ key. omega (arith, copies-map key update_config ws update_config-same);
      outputs_now = refl;
      kept = λ i o e. absurd (cc e);
      primary_now = ground (arith, g, p);
      active_now = ground (arith, g, a);
      loose_now = λ _. refl;
    },
  )
  rehome-Rehomed ws gone primary active counter (m0 ∷ ms) v u0 u g p a =
      let rest = m0 ∷ ms in
      let primary' = shift_down gone primary in
      let p' : primary' < length rest =
        shift_down_lt gone primary (length rest) g p (omega arith) in
      let a' : shift_down gone active < length rest =
        shift_down_lt gone active (length rest) g a (omega arith) in
      let (m, at_primary) = get_elem?-lt rest primary' p' in
      let (m', run, h) =
        append_workspaces-Appended ws (with_counter counter m)
          (with_counter-IsValid counter m (All-get IsValid primary' rest {x = m} v at_primary)) in
      let same = length-set rest primary' m' in
      (
        normal (set rest primary' m') primary' (shift_down gone active),
        m'.next_id,
        rehome-normal ws gone primary active counter m0 ms m m' at_primary run,
        record {
          valid = (
            omega (arith, same, p'),
            omega (arith, same, a'),
            All-set IsValid primary' m' rest v h.valid,
          );
          copies_now = λ key. omega (
            arith,
            total-set key primary' m' rest {m = m} at_primary,
            Appended-copies key counter ws m m' h,
          );
          outputs_now = outputs-set primary' m' rest {m = m} at_primary h.same_output;
          kept =
              rehomed_kept ws primary' (shift_down gone active) counter m m' rest u0 p' at_primary
                h;
          primary_now = refl;
          active_now = refl;
          loose_now = λ e. absurd (cc e);
        },
      )
    where
      rehome-normal :
          (ws : List (Workspace s)) (gone primary active counter : ℕ) (m0 : Monitor s f)
          (ms : List (Monitor s f)) (m m' : Monitor s f)
          → get_elem? (m0 ∷ ms) (shift_down gone primary) ≡ some m
          → append_workspaces ws (with_counter counter m) ≡ some m'
          → rehome ws gone primary active counter (m0 ∷ ms)
            ≡ some (
              normal
                  (set (m0 ∷ ms) (shift_down gone primary) m')
                  (shift_down gone primary)
                  (shift_down gone active),
              m'.next_id,
            )
      rehome-normal ws gone primary active counter m0 ms m m' e r = rw (rehome, e, r) refl
