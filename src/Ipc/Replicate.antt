-- ===== src/Ipc/Replicate.antt =====
-- `replicate` of niri-ipc/src/state.rs rebuilds the state it was called on.
use macniri.Base.{
  append_nil, ℕ, ◌≡◌, refl, sym, ap, ◌∙◌, false, Option, none, some, List, [], ◌∷◌, ◌++◌, arith,
  get, put, values, ◌==◌, Distinct,
}
use macniri.Ipc.Types.{KeyboardLayouts, EventStreamState}
use macniri.Ipc.State.{
  collect_onto, apply_workspaces, apply_windows, apply_keyboard_layouts, apply_overview,
  apply_config, apply, default_state, replicate, apply_all,
}

module _ {V : Type 0} where
  -- Every entry stands under the id of its value.
  abbrev pub Keyed : (V → ℕ) → List (ℕ × V) → Type 0
  Keyed id [] = Unit
  Keyed id ((j, v) ∷ m) = (id v ≡ j) × Keyed id m

  -- No key of the second map is in the first.
  abbrev Apart : List (ℕ × V) → List (ℕ × V) → Type 0
  Apart a [] = Unit
  Apart a ((j, v) ∷ m) = (get j a ≡ none) × Apart a m

  put-none : (k : ℕ) (v : V) (a : List (ℕ × V)) → get k a ≡ none → put k v a ≡ a ++ ((k, v) ∷ [])
  put-none k v [] h = refl
  put-none k v ((j, w) ∷ a) h = ground (arith, put-none k v a)

  get-append-none :
      (i k : ℕ) (v : V) (a : List (ℕ × V))
      → get i a ≡ none
      → (k == i) ≡ false
      → get i (a ++ ((k, v) ∷ [])) ≡ none
  get-append-none i k v [] h n = ground arith
  get-append-none i k v ((j, w) ∷ a) h n = ground (arith, get-append-none i k v a)

  Apart-append :
      (k : ℕ) (v : V) (a m : List (ℕ × V))
      → Apart a m
      → get k m ≡ none
      → Apart (a ++ ((k, v) ∷ [])) m
  Apart-append k v a [] h n = tt
  Apart-append k v a ((i, w) ∷ m) h n =
      (get-append-none i k v a h.0 (ground arith), Apart-append k v a m h.1 (ground arith))

  append_assoc :
      (a : List (ℕ × V)) (x : ℕ × V) (m : List (ℕ × V)) → (a ++ (x ∷ [])) ++ m ≡ a ++ (x ∷ m)
  append_assoc [] x m = refl
  append_assoc (y ∷ a) x m = ap (y ∷◌) (append_assoc a x m)

  collect_onto-values :
      (id : V → ℕ) (a m : List (ℕ × V))
      → Keyed id m
      → Distinct m
      → Apart a m
      → collect_onto id a (values m) ≡ a ++ m
  collect_onto-values id a [] k d p = sym (append_nil a)
  collect_onto-values id a ((j, v) ∷ m) k d p =
      let next =
        collect_onto-values id (a ++ ((j, v) ∷ [])) m k.1 d.1 (Apart-append j v a m p.1 d.0) in
      rw (collect_onto, k.0, put-none j v a p.0) (next ∙ append_assoc a (j, v) m)

  Apart-nil : (m : List (ℕ × V)) → Apart [] m
  Apart-nil [] = tt
  Apart-nil (x ∷ m) = (refl, Apart-nil m)

  collect-values :
      (id : V → ℕ) (m : List (ℕ × V)) → Keyed id m → Distinct m → collect_onto id [] (values m) ≡ m
  collect-values id m k d = collect_onto-values id [] m k d (Apart-nil m)

module _ {L : Type 0} where
  -- Both maps have one entry for each id.
  pub record IsKeyed (s : EventStreamState L) : Type 0 where
    pub workspaces_keyed : Keyed (λ w. w.id) s.workspaces
    pub workspaces_distinct : Distinct s.workspaces
    pub windows_keyed : Keyed (λ w. w.id) s.windows
    pub windows_distinct : Distinct s.windows

  -- A client that starts from the default state and applies the replicated events of a state whose
  -- maps have one entry for each id ends, without a panic, with that state.
  pub apply_all-replicate :
      (s : EventStreamState L) → IsKeyed s → apply_all (replicate s) default_state ≡ some s
  unfolding apply_all replicate apply apply_workspaces apply_windows apply_keyboard_layouts
      apply_overview apply_config
  apply_all-replicate s h = rebuild s.keyboard_layouts
    where
      p : collect_onto (λ w. w.id) [] (values s.workspaces) ≡ s.workspaces
      p = collect-values (λ w. w.id) s.workspaces h.workspaces_keyed h.workspaces_distinct

      q : collect_onto (λ w. w.id) [] (values s.windows) ≡ s.windows
      q = collect-values (λ w. w.id) s.windows h.windows_keyed h.windows_distinct

      rebuild :
          (kb : Option KeyboardLayouts)
          → apply_all (replicate (record s { keyboard_layouts = kb })) default_state
            ≡ some (record s { keyboard_layouts = kb })
      rebuild none = rw (p, q) refl
      rebuild (some kb) = rw (p, q) refl
