-- ===== src/Ipc/Effects.antt =====
-- What each event of niri-ipc/src/state.rs does to one entry of the map of windows.
use macniri.Base.{
  ℕ, ◌≡◌, refl, ap, ◌∙◌, inl, inr, Bool, true, false, Option, none, some, List, [], ◌∷◌, ◌++◌,
  arith, ◌==◌, ◌===◌, option_eq, nat_eq, if◌then◌else◌, get, put, delete, adjust, map_values,
  change_first, get-put, get-delete, Bool-cases, Option-cases, is_some,
}
use macniri.Ipc.Types.{
  Window, Event, window_opened_or_changed, window_closed, window_focus_changed,
  window_focus_timestamp_changed, window_urgency_changed, window_layouts_changed,
}
use macniri.Ipc.State.{unfocus_others, settle_focus, change_layouts, apply_windows}
use macniri.Ipc.Replicate.{Keyed}

module _ {V : Type 0} where
  abbrev pub over : (V → V) → Option V → Option V
  over f none = none
  over f (some v) = some (f v)

  pub get-adjust_lem :
      (k j : ℕ) (f : V → V) (m : List (ℕ × V))
      → get j (adjust k f m) ≡ (if k == j then over f (get j m) else get j m)
  get-adjust_lem k j f [] = ground arith
  get-adjust_lem k j f ((i, v) ∷ m) = ground (arith, get-adjust_lem k j f m)

  pub get-map_lem :
      (j : ℕ) (f : V → V) (m : List (ℕ × V)) → get j (map_values f m) ≡ over f (get j m)
  get-map_lem j f [] = refl
  get-map_lem j f ((i, v) ∷ m) = ground (arith, get-map_lem j f m)

  pub Keyed-get :
      (id : V → ℕ) (j : ℕ) (m : List (ℕ × V)) {v : V} → Keyed id m → get j m ≡ some v → id v ≡ j
  Keyed-get id j [] k e = absurd (cc e)
  Keyed-get id j ((i, w) ∷ m) {v} k e = elim (Bool-cases (i == j)) [
    | inl t ↦ ground (arith, t, e, k.0)
    | inr t ↦ Keyed-get id j m {v = v} k.1 (ground (arith, t, e))
  ]

  pub change_first-adjust :
      (id : V → ℕ) (k : ℕ) (f : V → V) (m : List (ℕ × V))
      → Keyed id m
      → change_first (λ v. id v == k) f m ≡ adjust k f m
  change_first-adjust id k f [] h = refl
  change_first-adjust id k f ((i, v) ∷ m) h = ground (arith, h.0, change_first-adjust id k f m h.1)

module _ {L : Type 0} where
  abbrev pub unfocused : Window L → Window L
  unfocused w = record w { is_focused = false }

  abbrev pub relayout : ℕ → List (ℕ × L) → Option (Window L) → Option (Window L)
  relayout j [] o = o
  relayout j ((id, u) ∷ changes) o =
      relayout j changes (if id == j then over (λ w. record w { layout = u }) o else o)

  -- The entry under `j` after an event.
  abbrev pub hit : Event L → ℕ → Option (Window L) → Option (Window L)
  hit (window_opened_or_changed w) j o =
      if w.id == j then some w else (if w.is_focused then over unfocused o else o)
  hit (window_closed id) j o = if id == j then none else o
  hit (window_focus_changed id) j o = over (λ w. record w { is_focused = some j === id }) o
  hit (window_focus_timestamp_changed id t) j o =
      if id == j then over (λ w. record w { focus_timestamp = t }) o else o
  hit (window_urgency_changed id u) j o =
      if id == j then over (λ w. record w { is_urgent = u }) o else o
  hit (window_layouts_changed changes) j o = relayout j changes o
  hit event j o = o

  abbrev pub hits : List (Event L) → ℕ → Option (Window L) → Option (Window L)
  hits [] j o = o
  hits (e ∷ es) j o = hits es j (hit e j o)

  pub hits-append :
      (a b : List (Event L)) (j : ℕ) (o : Option (Window L))
      → hits (a ++ b) j o ≡ hits b j (hits a j o)
  hits-append [] b j o = refl
  hits-append (e ∷ a) b j o = hits-append a b j (hit e j o)

  abbrev pub AllPresent : List (ℕ × L) → (ℕ → Option (Window L)) → Type 0
  AllPresent [] at = Unit
  AllPresent ((id, u) ∷ changes) at = (is_some (at id) ≡ true) × AllPresent changes at

  -- What an event of a refresh needs so that it does not panic.
  abbrev pub Ready : Event L → (ℕ → Option (Window L)) → Type 0
  Ready (window_opened_or_changed w) at = Unit
  Ready (window_closed id) at = is_some (at id) ≡ true
  Ready (window_focus_changed id) at = Unit
  Ready (window_focus_timestamp_changed id t) at = Unit
  Ready (window_urgency_changed id u) at = Unit
  Ready (window_layouts_changed changes) at = AllPresent changes at
  Ready event at = true ≡ false

  some_at : (o : Option (Window L)) → is_some o ≡ true → (w : Window L) × (o ≡ some w)
  some_at none h = absurd (cc h)
  some_at (some w) h = (w, refl)

  pub AllPresent-keeps :
      (changes : List (ℕ × L)) (at at' : ℕ → Option (Window L))
      → ((j : ℕ) → is_some (at j) ≡ true → is_some (at' j) ≡ true)
      → AllPresent changes at
      → AllPresent changes at'
  AllPresent-keeps [] at at' h k = tt
  AllPresent-keeps ((id, u) ∷ changes) at at' h k =
      (h id k.0, AllPresent-keeps changes at at' h k.1)

  change_layouts-relayout :
      (changes : List (ℕ × L)) (m : List (ℕ × Window L))
      → AllPresent changes (λ j. get j m)
      → (m' : List (ℕ × Window L)) × (change_layouts changes m ≡ some m')
        × ((j : ℕ) → get j m' ≡ relayout j changes (get j m))
  change_layouts-relayout [] m h = (m, refl, λ j. refl)
  change_layouts-relayout ((id, u) ∷ changes) m h =
      let f : Window L → Window L = λ w. record w { layout = u } in
      let (w, g) = some_at (get id m) h.0 in
      let (m', run, at') = change_layouts-relayout changes (adjust id f m) (
        AllPresent-keeps changes (λ j. get j m) (λ j. get j (adjust id f m))
          (λ j p. ground (arith, get-adjust_lem id j f m, p)) h.1) in
      (
        m',
        rw (change_layouts, g) run,
        λ j. at' j ∙ ap (relayout j changes) (get-adjust_lem id j f m),
      )

  opened-hit :
      (w : Window L) (m : List (ℕ × Window L)) (b : Bool)
      → Keyed (λ v. v.id) m
      → (j : ℕ)
      → get j (settle_focus b w.id (put w.id w m))
        ≡ (if w.id == j then some w else (if b then over unfocused (get j m) else get j m))
  opened-hit w m false k j = get-put w.id j w m
  opened-hit w m true k j =
      get-map_lem j (unfocus_others w.id) (put w.id w m)
      ∙ (ap (over (unfocus_others w.id)) (get-put w.id j w m) ∙ elim (Option-cases (get j m)) [
        | inl g ↦ ground (arith, g)
        | inr (v, g) ↦ ground (arith, g, Keyed-get (λ v. v.id) j m {v = v} k g)
      ])

  focus-hit :
      (id : Option ℕ) (m : List (ℕ × Window L))
      → Keyed (λ v. v.id) m
      → (j : ℕ)
      → get j (map_values (λ w. record w { is_focused = some w.id === id }) m)
        ≡ over (λ w. record w { is_focused = some j === id }) (get j m)
  focus-hit id m k j =
      get-map_lem j (λ w. record w { is_focused = some w.id === id }) m
      ∙ elim (Option-cases (get j m)) [
        | inl g ↦ rw g refl
        | inr (v, g) ↦ rw (g, Keyed-get (λ v. v.id) j m {v = v} k g) refl
      ]

  -- A ready event does not panic, and changes every entry as `hit` says.
  pub apply_windows-hit :
      (event : Event L) (m : List (ℕ × Window L))
      → Keyed (λ v. v.id) m
      → Ready event (λ j. get j m)
      → (m' : List (ℕ × Window L)) × (apply_windows event m ≡ some (m', none))
        × ((j : ℕ) → get j m' ≡ hit event j (get j m))
  unfolding apply_windows
  apply_windows-hit (window_opened_or_changed w) m k r = (_, refl, opened-hit w m w.is_focused k)
  apply_windows-hit (window_closed id) m k r =
      let (w, g) = some_at (get id m) r in
      (delete id m, rw (g, apply_windows) refl, λ j. get-delete id j m)
  apply_windows-hit (window_focus_changed id) m k r = (_, refl, focus-hit id m k)
  apply_windows-hit (window_focus_timestamp_changed id t) m k r =
      let f : Window L → Window L = λ w. record w { focus_timestamp = t } in
      (
        adjust id f m,
        ap (λ n. some (n, none)) (change_first-adjust (λ v. v.id) id f m k),
        λ j. get-adjust_lem id j f m,
      )
  apply_windows-hit (window_urgency_changed id u) m k r =
      let f : Window L → Window L = λ w. record w { is_urgent = u } in
      (
        adjust id f m,
        ap (λ n. some (n, none)) (change_first-adjust (λ v. v.id) id f m k),
        λ j. get-adjust_lem id j f m,
      )
  apply_windows-hit (window_layouts_changed changes) m k r =
      let (m', run, at') = change_layouts-relayout changes m r in
      (m', rw (run, apply_windows) refl, at')
  apply_windows-hit _ m k r = absurd (cc r)
