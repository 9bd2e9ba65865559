-- ===== src/Layout/Creation.antt =====
-- What `Monitor::new` of src/layout/monitor.rs makes of a list of workspaces.
use macniri.Base.{
  All, ℕ, zero, suc, ◌+◌, ◌≤◌, ◌<◌, ◌≡◌, ◌≢◌, ◌⊎◌, inl, inr, refl, ◌∙◌, Bool, true, false, Option,
  some, List, [], ◌∷◌, ◌++◌, map, arith, ◌===◌, option_eq, nat_eq, length, length-map,
  length-append, Bool-cases,
}
use macniri.Monitor.Types.{Space, Motion, Workspace, Monitor}
use macniri.Monitor.Workspaces.{has_windows_or_name}
use macniri.Monitor.Cleaning.{blank_at, used}
use macniri.Monitor.Invariant.{IsValid}
use macniri.Layout.Types.{IsUsed}
use macniri.Layout.Counting.{adopt-same}
use macniri.Layout.Outputs.{all_used, find_active, blank_for, adopt, furnish, new_monitor}

blank_for-blank : (s : Space) (o id : ℕ) → has_windows_or_name (blank_for {s = s} o id) ≡ false
blank_for-blank s o id = rw s.empty_lem refl

module _ {s : Space} where
  find_active_lt :
      (id : Option ℕ) (idx active n : ℕ) (ws : List (Workspace s))
      → active < n
      → idx + length ws ≤ n
      → find_active id idx active ws < n
  find_active_lt id idx active n [] h k = h
  find_active_lt id idx active n (w ∷ ws) h k = elim (Bool-cases (some w.id === id)) [
    | inl t ↦ rw (find_active, t) (find_active_lt id (suc idx) idx n ws (omega arith) (omega arith))
    | inr t ↦ rw (find_active, t) (find_active_lt id (suc idx) active n ws h (omega arith))
  ]

  active_range :
      (id : Option ℕ) (output : ℕ) (ws : List (Workspace s))
      → (find_active id 0 0 ws ≡ 0) ⊎ (find_active id 0 0 ws < length (map (adopt output) ws))
  active_range id output [] = inl refl
  active_range id output (w ∷ ws) = inr (
      omega (
        arith,
        length-map (adopt output) (w ∷ ws),
        find_active_lt id 0 0 (length (w ∷ ws)) (w ∷ ws) (omega arith) (omega arith),
      ))

  all_used_lem : (ws : List (Workspace s)) → All IsUsed ws → all_used ws ≡ true
  all_used_lem [] h = refl
  all_used_lem (w ∷ ws) h = ground (arith, h.0, all_used_lem ws h.1)

  All-adopt : (o : ℕ) (ws : List (Workspace s)) → All IsUsed ws → All IsUsed (map (adopt o) ws)
  All-adopt o [] h = tt
  All-adopt o (w ∷ ws) h = ((adopt-same o w).1 ∙ h.0, All-adopt o ws h.1)

  -- A list of used workspaces, with an empty one at its end.
  tail_at :
      (i : ℕ) (ws : List (Workspace s)) (b : Workspace s)
      → All IsUsed ws
      → i < length ws
      → blank_at (ws ++ (b ∷ [])) i ≡ false
  tail_at i [] b h l = absurd (omega arith)
  tail_at zero (w ∷ ws) b h l = ground (arith, h.0)
  tail_at (suc i) (w ∷ ws) b h l = tail_at i ws b h.1 (omega arith)

  tail_last :
      (ws : List (Workspace s)) (b : Workspace s)
      → has_windows_or_name b ≡ false
      → blank_at (ws ++ (b ∷ [])) (length ws) ≡ true
  tail_last [] b h = ground (arith, h)
  tail_last (w ∷ ws) b h = tail_last ws b h

  used-All :
      (ws : List (Workspace s)) (b : Workspace s)
      → All IsUsed ws
      → has_windows_or_name b ≡ false
      → used (ws ++ (b ∷ [])) ≡ ws
  used-All [] b h k = rw (used, k) refl
  used-All (w ∷ ws) b h k = ground (arith, h.0, used-All ws b h.1 k)

module _ {s : Space} (f : Motion) where
  furnish-IsValid :
      (above : Bool) (output counter active : ℕ) (ws : List (Workspace s))
      → All IsUsed ws
      → (active ≡ 0) ⊎ (active < length ws)
      → IsValid (furnish {f = f} above output counter ws active)
  furnish-IsValid above output counter active [] h l = record {
    shape = record {
      in_range = ground (arith, l);
      last_blank = ground (arith, blank_for-blank s output counter);
      first_blank = λ e. ground (arith, blank_for-blank s output counter);
    };
    not_two = λ e. ground arith;
    tidy = λ e i a b c. absurd (ground arith);
  }
  furnish-IsValid false output counter active (w ∷ ws) h l =
      let b = blank_for output counter in
      let n = length-append (w ∷ ws) (b ∷ []) in
      record {
        shape = record {
          in_range = ground (arith, l, n);
          last_blank = ground (arith, n, tail_last (w ∷ ws) b (blank_for-blank s output counter));
          first_blank = λ e. absurd (cc e);
        };
        not_two = λ e. absurd (cc e);
        tidy = λ e i a k c. tail_at i (w ∷ ws) b h (omega (arith, n));
      }
  furnish-IsValid true output counter active (w ∷ ws) h l =
      let b = blank_for output (suc counter) in
      let n = length-append (w ∷ ws) (b ∷ []) in
      record {
        shape = record {
          in_range = ground (arith, l, n);
          last_blank =
              ground (arith, n, tail_last (w ∷ ws) b (blank_for-blank s output (suc counter)));
          first_blank = λ e. ground (arith, blank_for-blank s output counter);
        };
        not_two = λ e. omega (arith, n);
        tidy = λ e. later (w ∷ ws) b h n;
      }
    where
      later :
          (us : List (Workspace s)) (b : Workspace s)
          → All IsUsed us
          → length (us ++ (b ∷ [])) ≡ length us + 1
          → (i : ℕ) → 1 ≤ i
          → i + 1 < suc (length (us ++ (b ∷ [])))
          → i ≢ suc active
          → blank_at (blank_for output counter ∷ (us ++ (b ∷ []))) i ≡ false
      later us b u n zero a k c = absurd (omega arith)
      later us b u n (suc i) a k c = tail_at i us b u (omega arith)

  furnish-used :
      (above : Bool) (output counter active : ℕ) (ws : List (Workspace s))
      → All IsUsed ws
      → used (furnish {f = f} above output counter ws active).workspaces ≡ ws
  furnish-used true output counter active (w ∷ ws) h =
      rw (used, blank_for-blank s output counter)
        (used-All (w ∷ ws) (blank_for output (suc counter)) h
          (blank_for-blank s output (suc counter)))
  furnish-used false output counter active (w ∷ ws) h =
      used-All (w ∷ ws) (blank_for output counter) h (blank_for-blank s output counter)
  furnish-used true output counter active [] h = ground (arith, blank_for-blank s output counter)
  furnish-used false output counter active [] h = ground (arith, blank_for-blank s output counter)

module _ {s : Space} {f : Motion} where
  -- A valid monitor of the output, on which the used workspaces are the given ones.
  pub record Created (above : Bool) (output : ℕ) (ws : List (Workspace s)) (m : Monitor s f)
      : Type 0 where
    pub valid : IsValid m
    pub same_output : m.output ≡ output
    pub same_used : used m.workspaces ≡ map (adopt output) ws

  pub new_monitor-Created :
      (above : Bool) (output counter : ℕ) (ws : List (Workspace s)) (id : Option ℕ)
      → All IsUsed ws
      → (m : Monitor s f) × (new_monitor above output counter ws id ≡ some m)
        × Created above output ws m
  unfolding new_monitor
  new_monitor-Created above output counter ws id h =
      let active = find_active id 0 0 ws in
      let ws' = map (adopt output) ws in
      let h' = All-adopt output ws h in
      let l : (active ≡ 0) ⊎ (active < length ws') = active_range id output ws in
      (
        furnish above output counter ws' active,
        rw (all_used_lem ws h) refl,
        record {
          valid = furnish-IsValid f above output counter active ws' h' l;
          same_output = refl;
          same_used = furnish-used f above output counter active ws' h';
        },
      )
