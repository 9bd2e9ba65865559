-- ===== src/Ipc/Runs.antt =====
-- Whole sequences of events of a refresh, on the map of windows of niri-ipc/src/state.rs.
use macniri.Base.{
  ℕ, ◌≡◌, refl, sym, ap, subst, fun_ext, ◌∙◌, Option, some, List, [], ◌∷◌, ◌++◌, get,
}
use macniri.Ipc.Types.{
  Window, Event, window_opened_or_changed, window_closed, window_focus_changed,
  window_focus_timestamp_changed, window_urgency_changed, window_layouts_changed,
}
use macniri.Ipc.Reached.{IsWindowMap, IsWindowsResult, apply_windows-IsWindowsResult}
use macniri.Ipc.Focus.{
  IsConsistent, IsConsistentResult, CarriesOneFocus, apply_windows-IsConsistentResult,
}
use macniri.Ipc.Refresh.{apply_events}
use macniri.Ipc.Effects.{hit, hits, Ready, apply_windows-hit}

module _ {L : Type 0} where
  -- Every event is ready when its turn comes.
  abbrev pub AllReady : List (Event L) → (ℕ → Option (Window L)) → Type 0
  AllReady [] at = Unit
  AllReady (e ∷ es) at = Ready e at × AllReady es (λ j. hit e j (at j))

  pub AllReady-append :
      (a b : List (Event L)) (at : ℕ → Option (Window L))
      → AllReady a at
      → AllReady b (λ j. hits a j (at j))
      → AllReady (a ++ b) at
  AllReady-append [] b at h k = k
  AllReady-append (e ∷ a) b at h k = (h.0, AllReady-append a b (λ j. hit e j (at j)) h.1 k)

  Ready-CarriesOneFocus :
      (e : Event L) (at : ℕ → Option (Window L)) → Ready e at → CarriesOneFocus e
  Ready-CarriesOneFocus (window_opened_or_changed w) at r = tt
  Ready-CarriesOneFocus (window_closed id) at r = tt
  Ready-CarriesOneFocus (window_focus_changed id) at r = tt
  Ready-CarriesOneFocus (window_focus_timestamp_changed id t) at r = tt
  Ready-CarriesOneFocus (window_urgency_changed id u) at r = tt
  Ready-CarriesOneFocus (window_layouts_changed changes) at r = tt
  Ready-CarriesOneFocus _ at r = absurd (cc r)

  pub record Ran (events : List (Event L)) (m m' : List (ℕ × Window L)) : Type 0 where
    pub consistent : IsConsistent m'
    pub entries : (j : ℕ) → get j m' ≡ hits events j (get j m)

  pub apply_events-Ran :
      (events : List (Event L)) (m : List (ℕ × Window L))
      → IsWindowMap m
      → IsConsistent m
      → AllReady events (λ j. get j m)
      → (m' : List (ℕ × Window L)) × (apply_events events m ≡ some m') × Ran events m m'
  unfolding apply_events
  apply_events-Ran [] m h c r = (m, refl, record { consistent = c; entries = λ j. refl })
  apply_events-Ran (e ∷ es) m h c r =
      let (m1, run1, at1) = apply_windows-hit e m h.0 r.0 in
      let h1 : IsWindowMap m1 = subst IsWindowsResult run1 (apply_windows-IsWindowsResult e m h) in
      let c1 : IsConsistent m1 =
        subst IsConsistentResult run1
          (apply_windows-IsConsistentResult e m c (Ready-CarriesOneFocus e (λ j. get j m) r.0)) in
      let same : (λ j. get j m1) ≡ (λ j. hit e j (get j m)) = fun_ext at1 in
      let (m', run, ran) = apply_events-Ran es m1 h1 c1 (subst (AllReady es) (sym same) r.1) in
      (
        m',
        rw (run1) run,
        record {
          consistent = ran.consistent;
          entries = λ j. ran.entries j ∙ ap (hits es j) (at1 j);
        },
      )
