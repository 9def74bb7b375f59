-- ===== src/Solver/Constraints.antt =====
-- Pinnings, and the constraints that a dependency puts on the providers of its name, of
-- apk-tools/src/solver.c, with `apk_db_get_pinning_mask_repos` of database.c.
use alpine_linux_mac_os.Base.{
  ℕ, ◌+◌, ◌^◌, bit_and, bit_or, bit_xor, Bool, true, false, not, ◌&&◌, ◌||◌, Option, some, none, [],
  ◌∷◌, List, get_or, ◌==◌, if◌then◌else◌,
}
use alpine_linux_mac_os.Solver.{
  Database, State, Dep, Provide, provider_none, choice_of, join, is_conflict, is_provided, set_name,
  set_pkg, each, short, word, bit,
}
use alpine_linux_mac_os.Solver.Queues.{disqualify_package, name_requirers_changed}

-- The loop of `apk_db_get_pinning_mask_repos` from a tag on.
unfoldable pub mask_repos : ℕ → List ℕ → ℕ → ℕ → ℕ
mask_repos i [] mask repos = repos
mask_repos i (r ∷ rs) mask repos =
    let skip = mask_repos (i + 1) rs mask repos in
    let take = mask_repos (i + 1) rs (bit_xor mask (2 ^ i)) (bit_or repos r) in
    if mask == 0 then repos else if bit_and (2 ^ i) mask == 0 then skip else take

unfoldable pub pinning_mask_repos : Database → ℕ → ℕ
unfolding mask_repos
pinning_mask_repos db mask = mask_repos 0 db.repo_tags mask 0

-- The loop of `get_tag` from a tag on; 0 is APK_DEFAULT_REPOSITORY_TAG.
unfoldable pub tag_from : ℕ → List ℕ → ℕ → ℕ → ℕ
tag_from i [] mask repos = 0
tag_from i (r ∷ rs) mask repos =
    let later = tag_from (i + 1) rs mask repos in
    if bit_and (2 ^ i) mask == 0 then later else if bit_and r repos == 0 then later else i

unfoldable pub get_tag : Database → ℕ → ℕ → ℕ
unfolding tag_from
get_tag db mask repos = tag_from 0 db.repo_tags mask repos

-- `get_pkg_repos`; a tag behind the table stands for no repositories.
unfoldable pub pkg_repos : Database → ℕ → ℕ
pkg_repos db p = elim ((db.pkg p).ipkg) [
  | none ↦ (db.pkg p).repos
  | some tag ↦ bit_or (db.pkg p).repos (get_or db.repo_tags tag 0)
]

module _ (db : Database) where
  -- The loop of `dependency_satisfiable` over the providers.
  unfoldable pub any_provides : State → Option ℕ → Dep → List Provide → Bool
  unfolding is_provided
  any_provides s dpkg dep [] = false
  any_provides s dpkg dep (p ∷ ps) =
      ((s.pkgs p.pkg).pkg_selectable && is_provided db dpkg dep (choice_of p))
      || any_provides s dpkg dep ps

  unfoldable pub dependency_satisfiable : State → Option ℕ → Dep → Bool
  unfolding is_provided any_provides
  dependency_satisfiable s dpkg dep =
      let ss = s.names dep.target in
      if is_conflict dep && s.ignore_conflict
      then true
      else if ss.locked
      then is_provided db dpkg dep ss.chosen
      else if ss.requirers == 0 && is_provided db dpkg dep provider_none
      then true
      else any_provides s dpkg dep (db.name dep.target).providers

  -- The last assignment of `inherit_pinning_and_flags`.
  unfoldable pub allow_tag : ℕ → State → State
  unfolding pinning_mask_repos pkg_repos
  allow_tag p s =
      set_pkg p
        (λ x. record x {
          tag_ok =
              x.tag_ok
              || not (bit_and (pkg_repos db p) (pinning_mask_repos db x.pinning_allowed) == 0);
        })
        s

  unfoldable pub inherit_pinning_and_flags : ℕ → Option ℕ → State → State
  unfolding allow_tag pinning_mask_repos pkg_repos
  inherit_pinning_and_flags p none s = allow_tag p (
      set_pkg p
        (λ x. record x {
          solver_flags = join x.solver_flags s.flags_inherit;
          solver_flags_inheritable = join x.solver_flags_inheritable s.flags_inherit;
          pinning_allowed = bit_or x.pinning_allowed (short s.pinning_inherit);
          pinning_preferred = short s.pinning_inherit;
          tag_preferred =
              not (bit_and (pkg_repos db p) (pinning_mask_repos db (short s.pinning_inherit)) == 0);
        })
        s)
  inherit_pinning_and_flags p (some ppkg) s =
      let pp = s.pkgs ppkg in
      allow_tag p (
        set_pkg p
          (λ x. record x {
            solver_flags = join x.solver_flags pp.solver_flags_inheritable;
            solver_flags_inheritable = join x.solver_flags_inheritable pp.solver_flags_inheritable;
            pinning_allowed = bit_or x.pinning_allowed pp.pinning_allowed;
          })
          s)

  -- The body of the loop of `apply_constraint`.
  unfoldable pub constrain : Option ℕ → Dep → Provide → State → State
  unfolding is_provided disqualify_package inherit_pinning_and_flags
  constrain ppkg dep p s =
      let provided = is_provided db ppkg dep (choice_of p) in
      let s1 =
        set_pkg p.pkg (λ x. record x { conflicts = word (x.conflicts + bit (not provided)) }) s in
      let s2 =
        if (s1.pkgs p.pkg).pkg_selectable && not ((s1.pkgs p.pkg).conflicts == 0)
        then disqualify_package db p.pkg s1
        else s1 in
      if provided then inherit_pinning_and_flags p.pkg ppkg s2 else s2

  unfoldable pub apply_constraint : Option ℕ → Dep → State → State
  unfolding constrain name_requirers_changed
  apply_constraint ppkg dep s =
      let n = dep.target in
      let s1 =
        set_name n (λ x. record x { requirers = short (x.requirers + bit (not (is_conflict dep))) })
          s in
      let s2 =
        if (s1.names n).requirers == 1 && not (is_conflict dep)
        then name_requirers_changed db n s1
        else s1 in
      if is_conflict dep && s.ignore_conflict
      then s
      else each (constrain ppkg dep) (db.name n).providers s2
