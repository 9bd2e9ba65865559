-- ===== src/Layout/Sending.antt =====
-- `move_workspace_to_output_by_id` of src/layout/mod.rs as a whole.
use macniri.Base.{
  map, ◌≢◌, position-lt, All-get, ℕ, zero, suc, ◌-◌, ◌<◌, ◌≡◌, inl, inr, sym, ap, ◌∙◌, Bool, true,
  false, ◌&&◌, Option, none, some, List, [], ◌∷◌, arith, get_elem?, set, length, length-set,
  get_elem?-lt, ◌==◌, ltb, if◌then◌else◌, subst, get_elem?-ge, position, refl, Bool-cases,
}
use macniri.Monitor.Types.{Space, Motion, Workspace, Monitor}
use macniri.Monitor.Workspaces.{has_windows_or_name}
use macniri.Monitor.Cleaning.{blank_at, used}
use macniri.Monitor.Invariant.{IsValid}
use macniri.Layout.Types.{MonitorSet, normal, Layout, IsSoundSet, IsSoundLayout}
use macniri.Layout.Counting.{Key, copies}
use macniri.Layout.Moves.{with_original, source_idx, move_between, move_workspace_to_output_by_id}
use macniri.Layout.Views.{
  workspaces_of, outputs_in, used_on, monitors_in, primary_idx_in, active_idx_in, workspaces_of-set,
}
use macniri.Layout.Adding.{Rearranged}
use macniri.Layout.Carrying.{Crossed, Carried, set-Carried, carry-Carried}

apart_lem : (i j : ℕ) → i ≢ j → (i == j) ≡ false
apart_lem i j h = ground (arith, h)

itself_lem : (i : ℕ) → (i == i) ≡ true
itself_lem i = ground arith

module _ {s : Space} where
  -- Another workspace at an index, as empty as the old one.
  blank_at-set :
      (i j : ℕ) (w w' : Workspace s) (ws : List (Workspace s))
      → get_elem? ws i ≡ some w
      → has_windows_or_name w' ≡ has_windows_or_name w
      → blank_at (set ws i w') j ≡ blank_at ws j
  blank_at-set i j w w' [] e h = absurd (cc e)
  blank_at-set zero zero w w' (v ∷ ws) e h = ground (arith, e, h)
  blank_at-set zero (suc j) w w' (v ∷ ws) e h = refl
  blank_at-set (suc i) zero w w' (v ∷ ws) e h = refl
  blank_at-set (suc i) (suc j) w w' (v ∷ ws) e h = blank_at-set i j w w' ws e h

  copies-set :
      (key : Key) (i : ℕ) (w w' : Workspace s) (ws : List (Workspace s))
      → get_elem? ws i ≡ some w
      → copies key (w' ∷ []) ≡ copies key (w ∷ [])
      → copies key (set ws i w') ≡ copies key ws
  copies-set key i w w' [] e h = absurd (cc e)
  copies-set key zero w w' (v ∷ ws) e h = ground (arith, e, h)
  copies-set key (suc i) w w' (v ∷ ws) e h = omega (arith, copies-set key i w w' ws e h)

module _ {s : Space} {f : Motion} where
  reoriginate-IsValid :
      (output i : ℕ) (w : Workspace s) (m : Monitor s f)
      → get_elem? m.workspaces i ≡ some w
      → IsValid m
      → IsValid (record m { workspaces = set m.workspaces i (with_original output w) })
  reoriginate-IsValid output i w m e v =
      let len = length-set m.workspaces i (with_original output w) in
      let same : (j : ℕ)
          → blank_at (set m.workspaces i (with_original output w)) j ≡ blank_at m.workspaces j =
        λ j. blank_at-set i j w (with_original output w) m.workspaces e refl in
      record {
        shape = record {
          in_range = omega (arith, len, v.shape.in_range);
          last_blank = same _ ∙ (ap (λ n. blank_at m.workspaces (n - 1)) len ∙ v.shape.last_blank);
          first_blank = λ a. same 0 ∙ v.shape.first_blank a;
        };
        not_two = λ a. omega (arith, len, v.not_two a);
        tidy = λ q j a b c. same j ∙ v.tidy q j a (omega (arith, len, b)) c;
      }

  -- The same outputs, and as many used workspaces as before pass each test of an id and a name. The focus
  -- goes to the target exactly if that is returned. A workspace that is not there, or is on the target
  -- already, leaves the monitors as they are, except that it then belongs to its output; another goes from
  -- `m` to `to`. True is returned if it was the active one of the active monitor.
  pub record Sent (old_idx current target new_output : ℕ) (m to : Monitor s f)
      (set0 : MonitorSet s f) (b : Bool) (set' : MonitorSet s f) : Type 0 where
    pub rearranged : Rearranged (outputs_in set0) set0 set'
    pub active_now : active_idx_in set' ≡ (if b then target else active_idx_in set0)
    pub same_primary : primary_idx_in set' ≡ primary_idx_in set0
    pub others : (j : ℕ) → j ≢ current → j ≢ target → used_on j set' ≡ used_on j set0
    pub absent : get_elem? m.workspaces old_idx ≡ none → (b ≡ false) × (set' ≡ set0)
    pub stays :
        (w : Workspace s)
        → get_elem? m.workspaces old_idx ≡ some w
        → current ≡ target
        → (b ≡ false)
          × (used_on current set' ≡ used (set m.workspaces old_idx (with_original m.output w)))
    pub goes :
        (w : Workspace s)
        → get_elem? m.workspaces old_idx ≡ some w
        → current ≢ target
        → (b ≡ (current == active_idx_in set0 && old_idx == m.active_workspace_idx))
          × Crossed old_idx current target b new_output m to w (monitors_in set0) (monitors_in set')

  pub source_idx_lt :
      (o : Option ℕ) (active i : ℕ) (ms : List (Monitor s f))
      → active < length ms
      → source_idx o active ms ≡ some i
      → i < length ms
  source_idx_lt none active i ms l e = ground (arith, l, e)
  source_idx_lt (some o) active i ms l e = position-lt (λ m. m.output == o) ms i e

  Carried-Rearranged :
      (target primary active : ℕ) (b : Bool) (ms ms' : List (Monitor s f))
      → IsSoundSet (normal ms primary active)
      → target < length ms
      → Carried ms ms'
      → Rearranged
          (map (λ m. m.output) ms)
          (normal ms primary active)
          (normal ms' primary (if b then target else active))
  Carried-Rearranged target primary active b ms ms' v t c = record {
    valid = (omega (arith, c.same_length, v.0), ground (arith, c.same_length, v.1, t), c.valid);
    same_copies = c.same_total;
    outputs_now = c.same_outputs;
  }

  -- A result of the move.
  IsSent :
      (old_idx current target new_output primary active : ℕ) (m to : Monitor s f)
      → List (Monitor s f)
      → Option (Bool × Layout s f)
      → Type 0
  IsSent old_idx current target new_output primary active m to ms r =
      (b : Bool) × (l' : Layout s f) × (r ≡ some (b, l'))
      × Sent old_idx current target new_output m to (normal ms primary active) b l'.monitor_set

  module _ (old_idx current target new_output primary active : ℕ) (l : Layout s f)
      (ms : List (Monitor s f)) (at : l.monitor_set ≡ normal ms primary active)
      (v : IsSoundSet (normal ms primary active)) (cl : current < length ms)
      (tl : target < length ms) (m to : Monitor s f) (e : get_elem? ms current ≡ some m)
      (d : get_elem? ms target ≡ some to) where
    move : Option (Bool × Layout s f)
    move = move_between old_idx current target new_output l primary active ms

    Result : Type 0
    Result = IsSent old_idx current target new_output primary active m to ms move

    move-missing : get_elem? m.workspaces old_idx ≡ none → Result
    unfolding move IsSent Result
    move-missing g = (
      false,
      l,
      rw (move_between, e, g) refl,
      subst (Sent old_idx current target new_output m to (normal ms primary active) false) (sym at)
          (record {
            rearranged = record { valid = v; same_copies = λ _. refl; outputs_now = refl };
            active_now = refl;
            same_primary = refl;
            others = λ j _ _. refl;
            absent = λ _. (refl, refl);
            stays = λ w g' _. absurd (cc (g, g'));
            goes = λ w g' _. absurd (cc (g, g'));
          }),
    )

    move-stays :
        (w : Workspace s)
        → get_elem? m.workspaces old_idx ≡ some w
        → (current == target) ≡ true
        → Result
    unfolding move IsSent Result
    move-stays w g same =
        let valid = All-get IsValid current ms {x = m} v.2 e in
        let m' : Monitor s f = record m {
          workspaces = set m.workspaces old_idx (with_original m.output w);
        } in
        let now : (j : ℕ)
            → workspaces_of (get_elem? (set ms current m') j)
              ≡ (if j == current then m'.workspaces else workspaces_of (get_elem? ms j)) =
          λ j. workspaces_of-set current j m' ms cl in
        (
          false,
          record l { monitor_set = normal (set ms current m') primary active },
          rw (move_between, e, g, same) refl,
          record {
            rearranged =
                Carried-Rearranged target primary active false ms (set ms current m') v tl (
                  set-Carried current m m' ms v.2 e
                    (reoriginate-IsValid m.output old_idx w m g valid) refl
                    (λ key.
                      copies-set key old_idx w (with_original m.output w) m.workspaces g refl));
            active_now = refl;
            same_primary = refl;
            others = λ j a b. ap used (now j ∙ rw (apart_lem j current a) refl);
            absent = λ g'. absurd (cc (g, g'));
            stays = λ w' g' _.
                let is : w ≡ w' = cc (g, g') in
                (
                  refl,
                  ap used (now current ∙ rw (itself_lem current) refl)
                      ∙ ap (λ u. used (set m.workspaces old_idx (with_original m.output u))) is,
                );
            goes = λ w' g' ne. absurd (ground (arith, same, ne));
          },
        )

    move-goes :
        (w : Workspace s)
        → get_elem? m.workspaces old_idx ≡ some w
        → old_idx < length m.workspaces
        → (current == target) ≡ false
        → Result
    unfolding move IsSent Result
    move-goes w g lt other =
        let activate = current == active && old_idx == m.active_workspace_idx in
        let (ms', n, run, c, x) =
          carry-Carried old_idx current target activate new_output l.next_id ms {m = m} {to = to}
            {w = w} v.2 e d g lt cl tl (ground (arith, other)) in
        (
          activate,
          record l {
            monitor_set = normal ms' primary (if activate then target else active);
            next_id = n;
          },
          rw (move_between, e, g, other, run) refl,
          record {
            rearranged = Carried-Rearranged target primary active activate ms ms' v tl c;
            active_now = refl;
            same_primary = refl;
            others = λ j a b. ap (λ q. used (workspaces_of q)) (x.others j a b);
            absent = λ g'. absurd (cc (g, g'));
            stays = λ w' g' q. absurd (ground (arith, other, q));
            goes = λ w' g' _.
                let is : w ≡ w' = cc (g, g') in
                (
                  refl,
                  subst (λ u. Crossed old_idx current target activate new_output m to u ms ms') is
                      x,
                );
          },
        )

    move-Sent : Result
    move-Sent = elim (Bool-cases (ltb old_idx (length m.workspaces))) [
      | inr far ↦ move-missing (get_elem?-ge m.workspaces old_idx (ground (arith, far)))
      | inl near ↦
          let lt : old_idx < length m.workspaces = ground (arith, near) in
          let (w, g) = get_elem?-lt m.workspaces old_idx lt in
          elim (Bool-cases (current == target)) [
            | inl same ↦ move-stays w g same
            | inr other ↦ move-goes w g lt other
          ]
    ]

  move_workspace_to_output_by_id-normal :
      (old_idx current target : ℕ) (old_output : Option ℕ) (new_output primary active : ℕ)
      (l : Layout s f) (ms : List (Monitor s f))
      → l.monitor_set ≡ normal ms primary active
      → source_idx old_output active ms ≡ some current
      → position (λ m. m.output == new_output) ms ≡ some target
      → move_workspace_to_output_by_id old_idx old_output new_output l
        ≡ move_between old_idx current target new_output l primary active ms
  unfolding move_workspace_to_output_by_id
  move_workspace_to_output_by_id-normal old_idx current target old_output new_output primary active
        l ms a b c =
      rw (a, b, c) refl

  pub move_workspace_to_output_by_id_lem :
      (old_idx current target : ℕ) (old_output : Option ℕ) (new_output primary active : ℕ)
      (l : Layout s f) (ms : List (Monitor s f)) (m to : Monitor s f)
      → IsSoundLayout l
      → l.monitor_set ≡ normal ms primary active
      → source_idx old_output active ms ≡ some current
      → position (λ m. m.output == new_output) ms ≡ some target
      → get_elem? ms current ≡ some m
      → get_elem? ms target ≡ some to
      → (b : Bool) × (l' : Layout s f) × (move_workspace_to_output_by_id old_idx old_output
            new_output l
          ≡ some (b, l'))
        × Sent old_idx current target new_output m to (normal ms primary active) b l'.monitor_set
  unfolding IsSent move Result
  move_workspace_to_output_by_id_lem old_idx current target old_output new_output primary active l
        ms m to v a b c e d =
      let v' : IsSoundSet (normal ms primary active) = subst IsSoundSet a v in
      let cl = source_idx_lt old_output active current ms v'.1 b in
      let tl = position-lt (λ m. m.output == new_output) ms target c in
      let (r, l', run, sent) =
        move-Sent old_idx current target new_output primary active l ms a v' cl tl m to e d in
      (
        r,
        l',
        move_workspace_to_output_by_id-normal old_idx current target old_output new_output primary
              active l ms a b c
            ∙ run,
        sent,
      )
