-- ===== src/Tests/Solver.antt =====
-- Runs of the solver on a small repository, and instances of its theorems.
use alpine_linux_mac_os.Base.{
  ◌≤◌, ◌^◌, flip, ℕ, Bool, true, false, Option, some, none, [], ◌∷◌, List, Bytes, codes, ◌≡◌, refl,
  arith, ◌<◌, subst, Bool-cases, inl, inr, All, ◌==◌, if◌then◌else◌, replicate,
}
use mathlib.Core.Option.{some-injective}
use alpine_linux_mac_os.Ctype.{is_member}
use alpine_linux_mac_os.Solver.{
  Database, PackageInfo, NameInfo, Provide, Dep, State, Change, no_flags, new_name, new_package,
  set_name, Choice,
}
use alpine_linux_mac_os.Solver.Solve.{begin_state, turn, solve}
use alpine_linux_mac_os.Solver.Preference.{compare_providers}
use alpine_linux_mac_os.Solver.Preference.Laws.{compare_providers_swap}
use alpine_linux_mac_os.Solver.Grows.Search.{turn_final, solve_provided}
use alpine_linux_mac_os.Solver.Changes.{generate_changeset}
use alpine_linux_mac_os.Solver.Changes.Kept.{Flagged}
use alpine_linux_mac_os.Solver.Changes.Sound.{NewSound}
use alpine_linux_mac_os.Solver.Changes.Reach.{
  begun, run-Reach, NewProvided, changes_settled, changes_provided,
}
use alpine_linux_mac_os.Solver.Changes.Measure.{Closed}
use alpine_linux_mac_os.Solver.Changes.Total.{generate_changeset-Halts}

abbrev need : ℕ → Bytes → ℕ → Bytes → Dep
need n name op version = record {
  target = n;
  spec = record { name = name; version = version; repository_tag = 0; op = op; broken = false };
}

abbrev plain_package : ℕ → ℕ → Bytes → Bytes → List Dep → PackageInfo
plain_package p n name version depends = record {
  matched = record {
    ident = p;
    name = name;
    version = version;
    hash = replicate 20 p;
    provides = [];
  };
  name = n;
  depends = depends;
  install_if = [];
  provides = [];
  repos = 1;
  layer = 0;
  installed_size = 100;
  provider_priority = 0;
  has_filename = false;
  uninstallable = false;
  cached = false;
  cached_non_repository = false;
  ipkg = none;
}

-- Two versions of musl, and a tool that needs the older one.
abbrev packages : ℕ → PackageInfo
packages p =
    if p == 0
    then plain_package 0 0 (codes "musl") (codes "1.1") []
    else if p == 1
    then plain_package 1 0 (codes "musl") (codes "1.2") []
    else plain_package 2 1 (codes "tool") (codes "3") (need 0 (codes "musl") 2 (codes "1.2") ∷ [])

abbrev name_infos : ℕ → NameInfo
name_infos n =
    if n == 0
    then record {
      providers =
          record { pkg = 0; version = codes "1.1" }
          ∷ record { pkg = 1; version = codes "1.2" }
          ∷ [];
      rdepends = 1 ∷ [];
      rinstall_if = [];
      solver_flags_set = false;
    }
    else record {
      providers = record { pkg = 2; version = codes "3" } ∷ [];
      rdepends = [];
      rinstall_if = [];
      solver_flags_set = false;
    }

abbrev repository : Database
repository = record {
  pkg = packages;
  name = name_infos;
  repo_tags = 1 ∷ [];
  available_repos = 1;
  active_layers = 1;
  performing_preupgrade = false;
  installed = [];
  force_broken_world = false;
  stack = record { alg = 0; len = 0; content = [] };
}

abbrev world : List Dep
world = need 1 (codes "tool") 7 [] ∷ []

abbrev outcome : Option (State × List Dep) → Option (ℕ × List Change)
outcome none = none
outcome (some (s, w)) = some (s.errors, s.changes)

abbrev fresh : State
unfolding begin_state
fresh = begin_state repository no_flags (λ _. new_name) (λ _. new_package)

abbrev install : ℕ → Change
install p = record {
  old_pkg = none;
  old_repository_tag = 0;
  new_pkg = some p;
  new_repository_tag = 0;
  reinstall = false;
}

-- The older version is installed, before the tool that needs it.
installs :
    outcome (solve 1 100 repository no_flags world fresh) ≡ some (0, install 0 ∷ install 2 ∷ [])
unfolding solve begin_state is_member fresh
installs = refl

-- The state in front of the changeset: musl 1.1 and the tool are chosen.
abbrev decided : State
decided =
    set_name 1
      (λ x. record x {
        chosen = record { pkg = some 2; version = codes "3" };
        locked = true;
        requirers = 1;
      })
      (set_name 0
        (λ x. record x {
          chosen = record { pkg = some 0; version = codes "1.1" };
          locked = true;
          requirers = 1;
        })
        fresh)

abbrev is_generated : Option State → Bool
is_generated none = false
is_generated (some s) = true

abbrev state_or : Option State → State → State
state_or none s = s
state_or (some t) s = t

some-state_or : (o : Option State) (s : State) → is_generated o ≡ true → o ≡ some (state_or o s)
some-state_or none s e = cc
some-state_or (some t) s e = refl

abbrev generated : State
unfolding generate_changeset fresh
generated = state_or (generate_changeset 100 repository world decided) decided

ends : is_generated (generate_changeset 100 repository world decided) ≡ true
unfolding generate_changeset is_member fresh
ends = refl

generates : generate_changeset 100 repository world decided ≡ some generated
unfolding generated
generates = some-state_or (generate_changeset 100 repository world decided) decided ends

decided-Flagged : Flagged decided
unfolding fresh begin_state
decided-Flagged p e = cc

decided_below : (m p : ℕ) → (decided.names m).chosen.pkg ≡ some p → p < 3
unfolding fresh begin_state
decided_below m p = elim (Bool-cases (1 == m)) [
  | inl e ↦ rw e (λ h. subst (λ x. x < 3) (some-injective 2 p h) (omega arith))
  | inr e ↦ elim (Bool-cases (0 == m)) [
    | inl k ↦ rw (e, k) (λ h. subst (λ x. x < 3) (some-injective 0 p h) (omega arith))
    | inr k ↦ rw (e, k) (λ h. absurd cc)
  ]
]

-- What holds of the three packages holds of each number's package.
each_package :
    (P : PackageInfo → Type 0)
    → P (packages 0)
    → P (packages 1)
    → P (packages 2)
    → (p : ℕ) → P (packages p)
each_package P a b c p = elim (Bool-cases (p == 0)) [
  | inl e ↦ rw e a
  | inr e ↦ elim (Bool-cases (p == 1)) [ inl k ↦ rw (e, k) b | inr k ↦ rw (e, k) c ]
]

each_name :
    (P : NameInfo → Type 0) → P (name_infos 0) → P (name_infos 1) → (n : ℕ) → P (name_infos n)
each_name P a b n = elim (Bool-cases (n == 0)) [ inl e ↦ rw e a | inr e ↦ rw e b ]

repository-Closed : Closed repository world 3
repository-Closed = record {
  name = each_package (λ i. i.name < 3) (omega arith) (omega arith) (omega arith);
  depends = each_package (λ i. All (λ (d : Dep). d.target < 3) i.depends) tt tt (omega arith, tt);
  provides = each_package (λ i. All (λ (d : Dep). d.target < 3) i.provides) tt tt tt;
  providers =
      each_name (λ i. All (λ (q : Provide). q.pkg < 3) i.providers) (omega arith, (omega arith, tt))
        (omega arith, tt);
  rinstall_if = each_name (λ i. All (λ (k : ℕ). k < 3) i.rinstall_if) tt tt;
  installed = tt;
  targets = (omega arith, tt);
}

generate_changeset-Halts_example :
    (fuel : ℕ) × (t : State) × (generate_changeset fuel repository world decided ≡ some t)
generate_changeset-Halts_example =
    generate_changeset-Halts repository world 3 decided repository-Closed decided_below

changes_settled_example : All (λ c. NewSound repository generated c.new_pkg) generated.changes
unfolding generate_changeset
changes_settled_example =
    changes_settled repository world decided generated [] decided-Flagged
      (run-Reach 100 repository world decided _ generated _ begun generates)

no_errors : generated.errors ≡ 0
unfolding generated generate_changeset is_member fresh
no_errors = refl

changes_provided_example : All (λ c. NewProvided repository generated c.new_pkg) generated.changes
changes_provided_example =
    changes_provided 100 repository world decided generated decided-Flagged generates no_errors

abbrev is_solved : Option (State × List Dep) → Bool
is_solved none = false
is_solved (some r) = true

abbrev result_or : Option (State × List Dep) → State × List Dep → State × List Dep
result_or none d = d
result_or (some r) d = r

some-result_or :
    (o : Option (State × List Dep)) (d : State × List Dep)
    → is_solved o ≡ true
    → o ≡ some (result_or o d)
some-result_or none d e = cc
some-result_or (some r) d e = refl

abbrev solution : State × List Dep
unfolding solve begin_state fresh
solution = result_or (solve 1 100 repository no_flags world fresh) (fresh, [])

solves : solve 1 100 repository no_flags world fresh ≡ some (solution.0, solution.1)
unfolding solve begin_state is_member fresh solution
solves = some-result_or (solve 1 100 repository no_flags world fresh) (fresh, []) refl

fresh-Flagged : Flagged fresh
unfolding fresh begin_state
fresh-Flagged p e = cc

solved_no_errors : solution.0.errors ≡ 0
unfolding solution solve begin_state is_member fresh
solved_no_errors = refl

solve_provided_example : All (λ c. NewProvided repository solution.0 c.new_pkg) solution.0.changes
solve_provided_example =
    solve_provided 1 100 repository no_flags world solution.1 fresh solution.0 fresh-Flagged solves
      solved_no_errors

-- The name of the tool is locked, and that of musl is to be decided.
abbrev searching : State
unfolding fresh
searching =
    record (set_name 1
      (λ x. record x {
        chosen = record { pkg = some 2; version = codes "3" };
        locked = true;
        requirers = 1;
      })
      (set_name 0 (λ x. record x { seen = true; requirers = 1 }) fresh)) { unresolved = 0 ∷ [] }

abbrev next : State
unfolding turn searching
next = state_or (turn repository searching) searching

turns : turn repository searching ≡ some next
unfolding turn begin_state is_member searching fresh next
turns = some-state_or (turn repository searching) searching refl

tool_locked : (searching.names 1).locked ≡ true
unfolding searching
tool_locked = refl

turn_final_example :
    ((next.names 1).locked ≡ true)
    × ((next.names 1).chosen ≡ (searching.names 1).chosen)
    × (searching.errors ≤ next.errors)
turn_final_example = turn_final repository searching next 1 turns tool_locked

no_conflicts : (p : ℕ) → (fresh.pkgs p).conflicts < 2 ^ 31
unfolding fresh begin_state
no_conflicts p = omega arith

abbrev provided_by : ℕ → Choice
provided_by p = record { pkg = some p; version = (packages p).matched.version }

compare_providers_swap_example :
    compare_providers repository fresh (provided_by 1) (provided_by 0)
    ≡ flip (compare_providers repository fresh (provided_by 0) (provided_by 1))
compare_providers_swap_example =
    compare_providers_swap repository fresh (provided_by 0) (provided_by 1) no_conflicts
