-- ===== src/Solver/Discovery.antt =====
-- `discover_name` of apk-tools/src/solver.c. Its calls of itself are visits on a stack: a visit is
-- the call, or the rest of a call behind the calls that it has made so far.
use alpine_linux_mac_os.Base.{
  ℕ, zero, suc, ◌+◌, ◌^◌, bit_and, bit_or, Bool, true, false, not, ◌&&◌, ◌||◌, Option, some, none,
  [], ◌∷◌, ◌++◌, List, length, map, ◌==◌, if◌then◌else◌,
}
use alpine_linux_mac_os.Solver.{
  Database, PackageState, State, Dep, Provide, set_name, set_pkg, default_pinning_mask, word, bit,
}
use alpine_linux_mac_os.Solver.Constraints.{pkg_repos}

pub data Visit : Type 0 where
  -- The call.
  enter : ℕ → Visit
  -- The loop over the providers that are left, with the count of virtual ones.
  scan : ℕ → ℕ → List Provide → Visit
  -- The end of the loop's body, behind the dependencies of the first provider.
  leave : ℕ → ℕ → Provide → List Provide → Visit
  -- The assignment of `order_id`.
  number : ℕ → ℕ → Visit

abbrev enter_targets : List Dep → List Visit
enter_targets [] = []
enter_targets (d ∷ ds) = enter d.target ∷ enter_targets ds

-- What is visited behind the loop over the providers.
abbrev relatives : Database → List Provide → List Visit
relatives db [] = []
relatives db (p ∷ ps) =
    map enter (db.name (db.pkg p.pkg).name).rinstall_if
    ++ (enter_targets (db.pkg p.pkg).provides ++ relatives db ps)

abbrev conditions : Database → List Provide → List Visit
conditions db [] = []
conditions db (p ∷ ps) = enter_targets (db.pkg p.pkg).install_if ++ conditions db ps

-- The state of a package that is seen for the first time.
unfoldable pub discover_package : Database → ℕ → State → PackageState → PackageState
unfolding pkg_repos
discover_package db p s x =
    let i = db.pkg p in
    let available = i.has_filename || not (bit_and i.repos db.available_repos == 0) in
    let preferred =
      i.has_filename
      || i.installed_size == 0
      || not (bit_and (pkg_repos db p) s.default_repos == 0) in
    let is_installed = elim (i.ipkg) as (λ _. Bool) [ none ↦ false | some _ ↦ true ] in
    record x {
      seen = true;
      pinning_allowed = default_pinning_mask;
      pinning_preferred = default_pinning_mask;
      pkg_available = available;
      pkg_selectable =
          not i.uninstallable
          && not (bit_and (2 ^ i.layer) db.active_layers == 0)
          && (available
              || i.cached
              || i.has_filename
              || i.cached_non_repository
              || i.installed_size == 0
              || is_installed);
      iif_failed = length i.install_if == 0 || (s.flags_inherit.available && not available);
      tag_preferred = preferred;
      tag_ok = preferred || i.cached_non_repository || is_installed;
    }

-- `order_id` of a name with `num_virtual` providers of other names.
unfoldable pub order_of : Database → ℕ → ℕ → ℕ → ℕ
order_of db n num_virtual id =
    bit_or
      (bit_or (if (db.name n).solver_flags_set then 0 else 2 ^ 31)
        (if length (db.name n).providers == num_virtual then 0 else 2 ^ 30))
      (word (id + 1))

-- One visit: the state behind it and the visits that it makes.
unfoldable pub visit : Database → Visit → State → State × List Visit
unfolding discover_package order_of
visit db (enter n) s = if (s.names n).seen then (s, []) else (
  set_name n (λ x. record x { seen = true; no_iif = true }) s,
  scan n 0 (db.name n).providers ∷ [],
)
visit db (scan n v []) s = (
  s,
  map enter (db.name n).rinstall_if
      ++ (relatives db (db.name n).providers ++ (number n v ∷ conditions db (db.name n).providers)),
)
visit db (scan n v (p ∷ ps)) s = if (s.pkgs p.pkg).seen then (s, leave n v p ps ∷ []) else (
  set_pkg p.pkg (discover_package db p.pkg s) s,
  enter_targets (db.pkg p.pkg).depends ++ (leave n v p ps ∷ []),
)
visit db (leave n v p ps) s = (
  set_name n (λ x. record x { no_iif = x.no_iif && (s.pkgs p.pkg).iif_failed }) s,
  scan n (v + bit (not ((db.pkg p.pkg).name == n))) ps ∷ [],
)
visit db (number n v) s = (
  set_name n (λ x. record x { order_id = order_of db n v s.order_id })
      (record s { order_id = word (s.order_id + 1) }),
  [],
)

-- The visits of the stack, by rounds; `none` where the rounds run out.
unfoldable pub discover : ℕ → Database → List Visit → State → Option State
unfolding visit
discover zero db vs s = none
discover (suc fuel) db [] s = some s
discover (suc fuel) db (v ∷ vs) s =
    let (s', more) = visit db v s in discover fuel db (more ++ vs) s'
