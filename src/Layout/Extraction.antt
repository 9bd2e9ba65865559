-- ===== src/Layout/Extraction.antt =====
-- What `add_output` of src/layout/mod.rs leaves on the primary monitor, and what it takes from it.
use macniri.Base.{
  append_nil, append_snoc, All, ℕ, zero, suc, ◌+◌, ◌-◌, ◌≤◌, ◌<◌, ◌≡◌, ◌≢◌, ◌⊎◌, inl, inr, refl,
  ◌∙◌, true, false, ◌&&◌, get_elem?-ge, ap, sym, ◌∷◌, ◌++◌, none, some, List, [], arith, ◌==◌,
  length, length-erase_idx, get_elem?, get_elem?-lt, get_elem?-erase_idx, erase_idx, Bool-cases,
}
use macniri.Monitor.Types.{Space, Motion, Workspace, Monitor}
use macniri.Monitor.Workspaces.{has_windows_or_name, range_start}
use macniri.Monitor.Cleaning.{TidyFrom, used}
use macniri.Monitor.Defs.{clean_up_workspaces}
use macniri.Monitor.Invariant.{HasShape, IsValid, clean_up_workspaces-CleanedUp}
use macniri.Layout.Types.{IsUsed}
use macniri.Layout.Counting.{Key, copies, copies-erase_idx, copies-same_used}
use macniri.Layout.Outputs.{Extraction, take_at, extract_at, extract_loop, settle_primary, extract}
use macniri.Layout.Belonging.{belongs_at, going, staying, staying-erase_idx, going-none, going-last}

module _ {s : Space} {f : Motion} where
  -- The empty workspaces at the ends do not belong to the output.
  pub record KeepsEnds (output : ℕ) (m : Monitor s f) : Type 0 where
    pub last_stays : belongs_at output m.workspaces (length m.workspaces - 1) ≡ false
    pub first_stays :
        m.empty_workspace_above_first ≡ true → belongs_at output m.workspaces 0 ≡ false

  record Going (output count : ℕ) (m0 : Monitor s f) (e : Extraction s f) : Type 0 where
    pub shape : HasShape e.primary
    pub ends : KeepsEnds output e.primary
    pub below : count ≤ length e.primary.workspaces
    pub tidy :
        e.stopped ≡ false
        → e.primary.workspace_switch ≡ none
        → TidyFrom
            (range_start e.primary.empty_workspace_above_first)
            e.primary.workspaces
            e.primary.active_workspace_idx
    pub quiet :
        (e.primary.workspace_switch ≡ none)
        ⊎ ((e.stopped ≡ false)
            × (e.primary.empty_workspace_above_first ≡ true → length e.primary.workspaces ≢ 2))
    pub counted :
        (key : Key)
        → copies key e.primary.workspaces + copies key e.taken ≡ copies key m0.workspaces
    pub taken_used : All IsUsed e.taken
    pub same_output : e.primary.output ≡ m0.output
    pub clear : (j : ℕ) → count ≤ j → belongs_at output e.primary.workspaces j ≡ false
    pub stay : staying output e.primary.workspaces ≡ staying output m0.workspaces
    pub gone : going output e.primary.workspaces ++ e.taken ≡ going output m0.workspaces

  module _ (output i : ℕ) (w : Workspace s) (m0 : Monitor s f) (e : Extraction s f)
      (g : Going output (suc i) m0 e) (found : get_elem? e.primary.workspaces i ≡ some w)
      (goes : s.matches w.original_output output ≡ true) where
    private_len : suc (length (erase_idx i e.primary.workspaces)) ≡ length e.primary.workspaces
    private_len = length-erase_idx i e.primary.workspaces (omega (arith, g.below))

    not_last : i + 1 < length e.primary.workspaces
    not_last = ground (arith, found, goes, g.ends.last_stays, g.below)

    not_first : e.primary.empty_workspace_above_first ≡ true → i ≢ 0
    not_first a z = ground (arith, found, goes, g.ends.first_stays a)

    take_at-HasShape : HasShape (take_at i w e).primary
    take_at-HasShape = record {
      in_range = ground (arith, private_len, not_last, not_first, g.shape.in_range);
      last_blank = ground (
        arith,
        private_len,
        not_last,
        g.shape.last_blank,
        get_elem?-erase_idx i (length (erase_idx i e.primary.workspaces) - 1) e.primary.workspaces,
      );
      first_blank = λ a.
          ground (
            arith,
            not_first a,
            g.shape.first_blank a,
            get_elem?-erase_idx i 0 e.primary.workspaces,
          );
    }

    take_at-KeepsEnds : KeepsEnds output (take_at i w e).primary
    take_at-KeepsEnds = record {
      last_stays = ground (
        arith,
        private_len,
        not_last,
        g.ends.last_stays,
        get_elem?-erase_idx i (length (erase_idx i e.primary.workspaces) - 1) e.primary.workspaces,
      );
      first_stays = λ a.
          ground (
            arith,
            not_first a,
            g.ends.first_stays a,
            get_elem?-erase_idx i 0 e.primary.workspaces,
          );
    }

    take_at-TidyFrom :
        (take_at i w e).stopped ≡ false
        → TidyFrom
            (range_start e.primary.empty_workspace_above_first)
            (take_at i w e).primary.workspaces
            (take_at i w e).primary.active_workspace_idx
    take_at-TidyFrom t j a b c =
        let still : e.primary.workspace_switch ≡ none = ground (arith, t) in
        let before = g.tidy (ground (arith, t)) still in
        ground (
          arith,
          private_len,
          not_first,
          before j,
          before (j + 1),
          get_elem?-erase_idx i j e.primary.workspaces,
        )

    take_at-counted :
        (key : Key)
        → copies key (take_at i w e).primary.workspaces + copies key (take_at i w e).taken
          ≡ copies key m0.workspaces
    take_at-counted key =
        ground (arith, copies-erase_idx key i e.primary.workspaces {w = w} found, g.counted key)

    take_at-gone :
        going output (take_at i w e).primary.workspaces ++ (take_at i w e).taken
        ≡ going output e.primary.workspaces ++ e.taken
    take_at-gone =
        let last = going-last output i e.primary.workspaces {w = w} found goes g.clear in
        elim (Bool-cases (has_windows_or_name w)) [
          | inl u ↦
              let last' : going output (erase_idx i e.primary.workspaces) ++ (w ∷ [])
                  ≡ going output e.primary.workspaces =
                rw u at last in
              rw u (
                append_snoc (going output (erase_idx i e.primary.workspaces)) w e.taken
                ∙ ap (λ ws. ws ++ e.taken) last')
          | inr u ↦
              let last' : going output (erase_idx i e.primary.workspaces) ++ []
                  ≡ going output e.primary.workspaces =
                rw u at last in
              rw u (
                ap (λ ws. ws ++ e.taken)
                  (sym (append_nil (going output (erase_idx i e.primary.workspaces))) ∙ last'))
        ]

    take_at-Going : Going output i m0 (take_at i w e)
    take_at-Going = record {
      shape = take_at-HasShape;
      ends = take_at-KeepsEnds;
      below = omega (arith, private_len, not_last);
      tidy = λ t _. take_at-TidyFrom t;
      quiet = inl refl;
      counted = take_at-counted;
      taken_used = elim (Bool-cases (has_windows_or_name w)) [
        | inl u ↦ rw u (u, g.taken_used)
        | inr u ↦ rw u g.taken_used
      ];
      same_output = g.same_output;
      clear = λ j l. ground (
        arith,
        l,
        get_elem?-erase_idx i j e.primary.workspaces,
        g.clear (suc j) (omega (arith, l)),
      );
      stay = staying-erase_idx output i e.primary.workspaces (ground (arith, found, goes)) ∙ g.stay;
      gone = take_at-gone ∙ g.gone;
    }

  extract_at-Going :
      (output i : ℕ) (m0 : Monitor s f) (e : Extraction s f)
      → Going output (suc i) m0 e
      → (e' : Extraction s f) × (extract_at output i e ≡ some e') × Going output i m0 e'
  unfolding extract_at
  extract_at-Going output i m0 e g =
      let (w, at_i) = get_elem?-lt e.primary.workspaces i g.below in
      elim (Bool-cases (s.matches w.original_output output)) [
        | inl t ↦
            (take_at i w e, rw (extract_at, at_i, t) refl, take_at-Going output i w m0 e g at_i t)
        | inr t ↦ (
          e,
          rw (extract_at, at_i, t) refl,
          record {
            shape = g.shape;
            ends = g.ends;
            below = omega (arith, g.below);
            tidy = g.tidy;
            quiet = g.quiet;
            counted = g.counted;
            taken_used = g.taken_used;
            same_output = g.same_output;
            clear = λ j l. elim (Bool-cases (j == i)) [
              | inl q ↦ ground (arith, q, at_i, t)
              | inr q ↦ g.clear j (ground (arith, q, l))
            ];
            stay = g.stay;
            gone = g.gone;
          },
        )
      ]

  extract_loop-Going :
      (output i : ℕ) (m0 : Monitor s f) (e : Extraction s f)
      → Going output i m0 e
      → (e' : Extraction s f) × (extract_loop output i e ≡ some e') × Going output zero m0 e'
  unfolding extract_loop
  extract_loop-Going output zero m0 e g = (e, refl, g)
  extract_loop-Going output (suc i) m0 e g =
      let (e1, run1, g1) = extract_at-Going output i m0 e g in
      let (e2, run2, g2) = extract_loop-Going output i m0 e1 g1 in (e2, rw run1 run2, g2)

  -- A valid monitor and the used workspaces taken from it.
  pub record Extracted (output : ℕ) (m0 m : Monitor s f) (ws : List (Workspace s)) : Type 0 where
    pub valid : IsValid m
    pub same_output : m.output ≡ m0.output
    pub taken_used : All IsUsed ws
    pub counted : (key : Key) → copies key m.workspaces + copies key ws ≡ copies key m0.workspaces
    pub kept : used m.workspaces ≡ staying output m0.workspaces
    pub taken : ws ≡ going output m0.workspaces

  Going-lists :
      (output : ℕ) (m0 : Monitor s f) (e : Extraction s f)
      → Going output zero m0 e
      → (used e.primary.workspaces ≡ staying output m0.workspaces)
        × (e.taken ≡ going output m0.workspaces)
  Going-lists output m0 e g =
      let (a, b) = going-none output e.primary.workspaces (λ j. g.clear j (omega arith)) in
      (sym b ∙ g.stay, sym (ap (λ ws. ws ++ e.taken) a) ∙ g.gone)

  settle_clean :
      (output : ℕ) (m0 : Monitor s f) (e : Extraction s f)
      → Going output zero m0 e
      → e.primary.workspace_switch ≡ none
      → (m : Monitor s f) × (clean_up_workspaces e.primary ≡ some m) × Extracted output m0 m e.taken
  settle_clean output m0 e g q =
      let (m, run, c) = clean_up_workspaces-CleanedUp e.primary g.shape q in
      (
        m,
        run,
        record {
          valid = c.valid;
          same_output = c.same_output ∙ g.same_output;
          taken_used = g.taken_used;
          counted = λ key. omega (
            arith,
            copies-same_used key m.workspaces e.primary.workspaces c.same_used,
            g.counted key,
          );
          kept = c.same_used ∙ (Going-lists output m0 e g).0;
          taken = (Going-lists output m0 e g).1;
        },
      )

  settle_primary-Extracted :
      (output : ℕ) (m0 : Monitor s f) (e : Extraction s f)
      → Going output zero m0 e
      → (m : Monitor s f) × (settle_primary e ≡ some m) × Extracted output m0 m e.taken
  settle_primary-Extracted output m0 e g =
      let above = e.primary.empty_workspace_above_first in
      elim (Bool-cases e.stopped) [
        | inl t ↦
            let (m, run, x) =
              settle_clean output m0 e g
                (elim g.quiet [ inl q ↦ q | inr q ↦ absurd (cc (t, q.0)) ]) in
            (m, rw (t) run, x)
        | inr t ↦ elim (Bool-cases (above && length e.primary.workspaces == 2)) [
          | inl two ↦
              let (m, run, x) =
                settle_clean output m0 e g
                  (elim g.quiet [ inl q ↦ q | inr q ↦ absurd (ground (arith, two, q.1)) ]) in
              (m, rw (t, two) run, x)
          | inr two ↦ (
            e.primary,
            rw (t, two) refl,
            record {
              valid = record {
                shape = g.shape;
                not_two = λ a. ground (arith, two, a);
                tidy = g.tidy t;
              };
              same_output = g.same_output;
              taken_used = g.taken_used;
              counted = g.counted;
              kept = (Going-lists output m0 e g).0;
              taken = (Going-lists output m0 e g).1;
            },
          )
        ]
      ]

  pub extract-Extracted :
      (output : ℕ) (m0 : Monitor s f)
      → IsValid m0
      → KeepsEnds output m0
      → (m : Monitor s f) × (ws : List (Workspace s)) × (extract output m0 ≡ some (m, ws))
        × Extracted output m0 m ws
  unfolding extract
  extract-Extracted output m0 v k =
      let start : Extraction s f = record { primary = m0; taken = []; stopped = false } in
      let (e, run, g) = extract_loop-Going output (length m0.workspaces) m0 start (record {
        shape = v.shape;
        ends = k;
        below = omega arith;
        tidy = λ _. v.tidy;
        quiet = inr (refl, v.not_two);
        counted = λ key. omega arith;
        taken_used = tt;
        same_output = refl;
        clear = λ j l. rw (belongs_at, get_elem?-ge m0.workspaces j l) refl;
        stay = refl;
        gone = append_nil (going output m0.workspaces);
      }) in
      let (m, settled, x) = settle_primary-Extracted output m0 e g in
      (m, e.taken, rw (run, settled) refl, x)
