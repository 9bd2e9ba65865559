-- ===== src/Examples/Layout.antt =====
-- Two monitors, on the first of which stands a workspace of a third output, for src/layout/mod.rs.
use Prim.Native.String.{String}
use macniri.Base.{
  ℕ, zero, suc, ◌≤◌, ◌≡◌, refl, inl, inr, subst, true, false, some, [], ◌∷◌, arith, ◌==◌, get_elem?,
  All,
}
use macniri.Monitor.Types.{Monitor}
use macniri.Monitor.Invariant.{IsValid}
use macniri.Layout.Types.{Layout, normal}
use macniri.Layout.Counting.{copies_in_set}
use macniri.Layout.Views.{outputs_in, used_on}
use macniri.Layout.Ownership.{IsValidLayout, Homed, has_id, has_name}
use macniri.Layout.Outputs.{add_output, remove_output}
use macniri.Layout.Extraction.{KeepsEnds}
use macniri.Layout.Adding.{Joined}
use macniri.Layout.Joining.{add_output-Joined}
use macniri.Layout.Removing.{Left}
use macniri.Layout.Leaving.{remove_output-Left}
use macniri.Examples.Monitor.{counting, still, three, space_of}

-- The workspace 6 belongs to the output 4.
abbrev first : Monitor counting still
first = record three {
  workspaces = space_of 5 2 ∷ (record (space_of 6 1) { original_output = 4 }) ∷ space_of 7 0 ∷ [];
}

abbrev second : Monitor counting still
second = record three {
  output = 2;
  workspaces =
      (record (space_of 10 1) { name = some "web"; output = some 2; original_output = 2 })
      ∷ (record (space_of 11 0) { output = some 2; original_output = 2 })
      ∷ [];
}

abbrev both : Layout counting still
both = record {
  monitor_set = normal (first ∷ second ∷ []) 0 1;
  last_active_workspace_id = (4, 6) ∷ [];
  next_id = 20;
}

first-IsValid : IsValid first
first-IsValid = record {
  shape = record { in_range = omega arith; last_blank = refl; first_blank = λ e. absurd (cc e) };
  not_two = λ e. absurd (cc e);
  tidy = λ e i a b c. ground arith;
}

second-IsValid : IsValid second
second-IsValid = record {
  shape = record { in_range = omega arith; last_blank = refl; first_blank = λ e. absurd (cc e) };
  not_two = λ e. absurd (cc e);
  tidy = λ e i a b c. ground arith;
}

both-unique_ids : (id : ℕ) → copies_in_set (has_id id) both.monitor_set ≤ 1
both-unique_ids id = ground arith

both-unique_names : (name : String) → copies_in_set (has_name name) both.monitor_set ≤ 1
both-unique_names name = ground arith

both-owned :
    (i output : ℕ)
    → get_elem? (outputs_in both.monitor_set) i ≡ some output
    → All (Homed (1 ∷ 2 ∷ []) (i == 0) output) (used_on i both.monitor_set)
both-owned zero output e =
    subst (λ o. All (Homed (1 ∷ 2 ∷ []) true o) (used_on 0 both.monitor_set)) {x = 1} {y = output}
      (cc e) (inl refl, (inr (refl, (refl, (refl, tt))), tt))
both-owned (suc zero) output e =
    subst (λ o. All (Homed (1 ∷ 2 ∷ []) false o) (used_on 1 both.monitor_set)) {x = 2} {y = output}
      (cc e) (inl refl, tt)
both-owned (suc (suc i)) output e = absurd (cc e)

both-IsValidLayout : IsValidLayout both
both-IsValidLayout = record {
  sound = (omega arith, omega arith, (first-IsValid, (second-IsValid, tt)));
  unique_ids = both-unique_ids;
  unique_names = both-unique_names;
  owned = both-owned;
}

first-KeepsEnds : KeepsEnds 4 first
first-KeepsEnds = record { last_stays = refl; first_stays = λ e. absurd (cc e) }

add_output-Joined_example :
    (l' : Layout counting still) × (add_output false 4 both ≡ some l')
    × IsValidLayout l'
    × Joined 4 both.monitor_set l'.monitor_set
add_output-Joined_example = add_output-Joined false 4 both both-IsValidLayout first-KeepsEnds

only_second : (a : ℕ) → (a == 2) ≡ true → ((a == 1) ≡ false) × Unit {0}
only_second a e = (ground (arith, e), tt)

remove_output-Left_example :
    (l' : Layout counting still) × (remove_output 2 both ≡ some l')
    × IsValidLayout l'
    × Left 1 both.monitor_set l'.monitor_set
remove_output-Left_example = remove_output-Left 2 1 both both-IsValidLayout refl only_second
