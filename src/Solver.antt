-- ===== src/Solver.antt =====
-- The dependency solver, apk-tools/src/solver.c, with the states of apk_solver_data.h: what it reads
-- of the database, what it keeps of each name and package, and its queues. Names and packages are
-- numbers, which stand for their addresses; a store is a function of the number.
pub mod Queues
pub mod Discovery
pub mod Constraints
pub mod Reconsider
pub mod Preference
pub mod Selection
pub mod Changes
pub mod Solve
pub mod Grows
use alpine_linux_mac_os.Base.{
  ℕ, ◌+◌, ◌%◌, ◌^◌, bit_and, Bool, true, false, not, ◌&&◌, ◌||◌, Option, some, none, [], ◌∷◌, List,
  Bytes, ◌==◌, if◌then◌else◌,
}
use mathlib.Core.Option
use alpine_linux_mac_os.Digest.{Digest}
use alpine_linux_mac_os.Dependency.{Dependency, dep_conflict}
use alpine_linux_mac_os.Dependency.Matching.{Package, Provider, dep_is_provided}

-- A dependency with the name that it points to.
pub record Dep : Type 0 where
  pub target : ℕ
  pub spec : Dependency

abbrev pub is_conflict : Dep → Bool
is_conflict d = dep_conflict d.spec

-- Whether an atom is `apk_atom_null`, the atom of the empty text.
abbrev pub is_null : Bytes → Bool
is_null [] = true
is_null (c ∷ b) = false

-- The bits APK_SOLVERF_*.
pub record Flags : Type 0 where
  pub upgrade : Bool
  pub available : Bool
  pub reinstall : Bool
  pub latest : Bool
  pub ignore_conflict : Bool
  pub installed : Bool
  pub remove : Bool

abbrev pub no_flags : Flags
no_flags = record {
  upgrade = false;
  available = false;
  reinstall = false;
  latest = false;
  ignore_conflict = false;
  installed = false;
  remove = false;
}

abbrev pub join : Flags → Flags → Flags
join a b = record {
  upgrade = a.upgrade || b.upgrade;
  available = a.available || b.available;
  reinstall = a.reinstall || b.reinstall;
  latest = a.latest || b.latest;
  ignore_conflict = a.ignore_conflict || b.ignore_conflict;
  installed = a.installed || b.installed;
  remove = a.remove || b.remove;
}

-- `struct apk_provider` of a name's list, whose package is not NULL.
pub record Provide : Type 0 where
  pub pkg : ℕ
  pub version : Bytes

-- `struct apk_provider` of `chosen`: `none` for NULL.
pub record Choice : Type 0 where
  pub pkg : Option ℕ
  pub version : Bytes

abbrev pub provider_none : Choice
provider_none = record { pkg = none; version = [] }

abbrev pub choice_of : Provide → Choice
choice_of p = record { pkg = some p.pkg; version = p.version }

-- What the solver reads of a package.
pub record PackageInfo : Type 0 where
  -- What dependencies are matched against.
  pub matched : Package
  pub name : ℕ
  pub depends : List Dep
  pub install_if : List Dep
  pub provides : List Dep
  pub repos : ℕ
  pub layer : ℕ
  pub installed_size : ℕ
  pub provider_priority : ℕ
  pub has_filename : Bool
  pub uninstallable : Bool
  pub cached : Bool
  pub cached_non_repository : Bool
  -- The tag of its repository, if it is installed.
  pub ipkg : Option ℕ

-- What the solver reads of a name.
pub record NameInfo : Type 0 where
  pub providers : List Provide
  pub rdepends : List ℕ
  pub rinstall_if : List ℕ
  pub solver_flags_set : Bool

-- What the solver reads of the database. `repo_tags` are the `allowed_repos` of the tags, and
-- `stack` is the digest that `apk_dep_match_checksum` finds on the stack.
pub record Database : Type 0 where
  pub pkg : ℕ → PackageInfo
  pub name : ℕ → NameInfo
  pub repo_tags : List ℕ
  pub available_repos : ℕ
  pub active_layers : ℕ
  pub performing_preupgrade : Bool
  pub installed : List ℕ
  pub force_broken_world : Bool
  pub stack : Digest

-- `struct apk_solver_name_state`; whether a name is on a list is a matter of the list.
pub record NameState : Type 0 where
  pub chosen : Choice
  pub installed_name : Option ℕ
  pub installed_pkg : Option ℕ
  pub order_id : ℕ
  pub requirers : ℕ
  pub merge_depends : ℕ
  pub merge_provides : ℕ
  pub seen : Bool
  pub locked : Bool
  pub changeset_processed : Bool
  pub changeset_removed : Bool
  pub reevaluate_deps : Bool
  pub reevaluate_iif : Bool
  pub has_iif : Bool
  pub no_iif : Bool
  pub has_options : Bool
  pub reverse_deps_done : Bool
  pub has_virtual_provides : Bool
  pub has_auto_selectable : Bool
  pub iif_needed : Bool
  pub resolvenow : Bool

abbrev pub new_name : NameState
new_name = record {
  chosen = provider_none;
  installed_name = none;
  installed_pkg = none;
  order_id = 0;
  requirers = 0;
  merge_depends = 0;
  merge_provides = 0;
  seen = false;
  locked = false;
  changeset_processed = false;
  changeset_removed = false;
  reevaluate_deps = false;
  reevaluate_iif = false;
  has_iif = false;
  no_iif = false;
  has_options = false;
  reverse_deps_done = false;
  has_virtual_provides = false;
  has_auto_selectable = false;
  iif_needed = false;
  resolvenow = false;
}

-- `struct apk_solver_package_state`.
pub record PackageState : Type 0 where
  pub conflicts : ℕ
  pub pinning_allowed : ℕ
  pub pinning_preferred : ℕ
  pub solver_flags : Flags
  pub solver_flags_inheritable : Flags
  pub seen : Bool
  pub pkg_available : Bool
  pub pkg_selectable : Bool
  pub tag_ok : Bool
  pub tag_preferred : Bool
  pub dependencies_used : Bool
  pub dependencies_merged : Bool
  pub in_changeset : Bool
  pub iif_triggered : Bool
  pub iif_failed : Bool
  pub error : Bool

abbrev pub new_package : PackageState
new_package = record {
  conflicts = 0;
  pinning_allowed = 0;
  pinning_preferred = 0;
  solver_flags = no_flags;
  solver_flags_inheritable = no_flags;
  seen = false;
  pkg_available = false;
  pkg_selectable = false;
  tag_ok = false;
  tag_preferred = false;
  dependencies_used = false;
  dependencies_merged = false;
  in_changeset = false;
  iif_triggered = false;
  iif_failed = false;
  error = false;
}

-- `struct apk_change`.
pub record Change : Type 0 where
  pub old_pkg : Option ℕ
  pub old_repository_tag : ℕ
  pub new_pkg : Option ℕ
  pub new_repository_tag : ℕ
  pub reinstall : Bool

-- `struct apk_solver_state` and the changeset, with the states of the names and packages.
pub record State : Type 0 where
  pub names : ℕ → NameState
  pub pkgs : ℕ → PackageState
  pub dirty : List ℕ
  pub unresolved : List ℕ
  pub selectable : List ℕ
  pub resolving : List ℕ
  pub errors : ℕ
  pub flags_inherit : Flags
  pub pinning_inherit : ℕ
  pub default_repos : ℕ
  pub order_id : ℕ
  pub ignore_conflict : Bool
  pub changes : List Change
  pub num_install : ℕ
  pub num_remove : ℕ
  pub num_adjust : ℕ

abbrev pub modify : {A : Type 0} → (ℕ → A) → ℕ → (A → A) → ℕ → A
modify f i g j = if i == j then g (f j) else f j

abbrev pub set_name : ℕ → (NameState → NameState) → State → State
set_name n g s = record s { names = modify s.names n g }

abbrev pub set_pkg : ℕ → (PackageState → PackageState) → State → State
set_pkg p g s = record s { pkgs = modify s.pkgs p g }

-- A loop over a list.
abbrev pub each : {A : Type 0} → (A → State → State) → List A → State → State
each f [] s = s
each f (x ∷ xs) s = each f xs (f x s)

abbrev pub member : ℕ → List ℕ → Bool
member n [] = false
member n (m ∷ ms) = m == n || member n ms

abbrev pub without : ℕ → List ℕ → List ℕ
without n [] = []
without n (m ∷ ms) = if m == n then ms else m ∷ without n ms

-- `unsigned short` and `unsigned int`.
abbrev pub short : ℕ → ℕ
short n = n % 2 ^ 16

abbrev pub word : ℕ → ℕ
word n = n % 2 ^ 32

abbrev pub bit : Bool → ℕ
bit true = 1
bit false = 0

-- APK_DEFAULT_PINNING_MASK.
abbrev pub default_pinning_mask : ℕ
default_pinning_mask = 1

-- `apk_dep_is_provided`; where a checksum is read behind its end, the answer is no.
abbrev provider_of : Database → Choice → Option Provider
provider_of db c =
    Option.map (λ (p : ℕ). record { pkg = (db.pkg p).matched; version = c.version }) c.pkg

unfoldable pub is_provided : Database → Option ℕ → Dep → Choice → Bool
unfolding dep_is_provided
is_provided db dpkg dep c =
    Option.get_or
      (dep_is_provided db.stack (Option.map (λ (p : ℕ). (db.pkg p).matched) dpkg) dep.spec
        (provider_of db c))
      false

-- `mark_error`. Each package and each name is counted once at most, and these are fewer than 2 ^ 32:
-- the count of errors does not wrap around.
unfoldable pub mark_error : Option ℕ → State → State
mark_error none s = s
mark_error (some p) s =
    if (s.pkgs p).error
    then s
    else record s { pkgs = modify s.pkgs p (λ q. record q { error = true }); errors = s.errors + 1 }
