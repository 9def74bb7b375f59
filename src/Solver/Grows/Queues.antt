-- ===== src/Solver/Grows/Queues.antt =====
-- The queues and constraints of apk-tools/src/solver.c take nothing back.
use alpine_linux_mac_os.Base.{
  ℕ, ◌+◌, Bool, true, false, not, ◌&&◌, Option, some, none, ◌==◌, refl, Bool-cases, inl, inr,
}
use alpine_linux_mac_os.Solver.{
  Database, State, Dep, Provide, is_provided, is_conflict, choice_of, word, short, bit,
}
use alpine_linux_mac_os.Solver.Queues.{
  is_queued, is_resolvable, unqueue, queue_dirty, enqueue, queue_unresolved, revisit_deps,
  revisit_installif, reevaluate_reverse_deps, reevaluate_reverse_installif,
  reevaluate_reverse_installif_pkg, disqualify_package, name_requirers_changed,
}
use alpine_linux_mac_os.Solver.Constraints.{
  allow_tag, inherit_pinning_and_flags, constrain, apply_constraint,
}
use alpine_linux_mac_os.Solver.Grows.{
  Grows, Grows-refl, Grows-trans, same-Grows, set_name-Grows, set_pkg-Grows, pkgs-Grows, if-Grows,
  each-Grows,
}

pub queue_dirty-Grows : (n : ℕ) (s : State) → Grows s (queue_dirty n s)
unfolding queue_dirty
queue_dirty-Grows n s = if-Grows s _ _ _ (Grows-refl s) (same-Grows refl refl refl)

enqueue-Grows : (n : ℕ) (s : State) → Grows s (enqueue n s)
unfolding enqueue
enqueue-Grows n s = if-Grows s (s.names n).resolvenow _ _ (same-Grows refl refl refl) (
    if-Grows s (s.names n).has_auto_selectable _ _ (same-Grows refl refl refl)
      (same-Grows refl refl refl))

unqueue-Grows : (n : ℕ) (s : State) → Grows s (unqueue n s)
unqueue-Grows n s = same-Grows refl refl refl

pub queue_unresolved-Grows : (n : ℕ) (b : Bool) (s : State) → Grows s (queue_unresolved n b s)
unfolding queue_unresolved
queue_unresolved-Grows n b s =
    let requeue = λ (t : State). Grows-trans (unqueue-Grows n t) (enqueue-Grows n (unqueue n t)) in
    let mark =
      λ (v : Bool). set_name-Grows n (λ x. record x { resolvenow = v }) s (λ x. refl) (λ x. refl) in
    let x = s.names n in
    if-Grows s x.locked _ _ (Grows-refl s) (
      if-Grows s (is_queued n s) _ _
        (if-Grows s x.resolvenow _ _ (Grows-refl s) (
          if-Grows s (is_resolvable x) _ _ (Grows-trans (mark true) (requeue _))
            (if-Grows s (not b) _ _ (Grows-refl s) (requeue s))))
        (if-Grows s (x.requirers == 0 && not x.has_iif && not x.iif_needed) _ _ (Grows-refl s)
          (Grows-trans (mark (is_resolvable x)) (enqueue-Grows n _))))

module _ (db : Database) where
  revisit_deps-Grows : (n : ℕ) (s : State) → Grows s (revisit_deps db n s)
  unfolding revisit_deps
  revisit_deps-Grows n s = if-Grows s (not (s.names n).seen) _ _ (Grows-refl s) (
      Grows-trans
        (set_name-Grows n (λ x. record x { reevaluate_deps = true }) s (λ x. refl) (λ x. refl))
        (queue_dirty-Grows n _))

  revisit_installif-Grows : (n : ℕ) (s : State) → Grows s (revisit_installif db n s)
  unfolding revisit_installif
  revisit_installif-Grows n s = if-Grows s (not (s.names n).seen) _ _ (Grows-refl s) (
      if-Grows s (s.names n).no_iif _ _ (Grows-refl s) (
        Grows-trans
          (set_name-Grows n (λ x. record x { reevaluate_iif = true }) s (λ x. refl) (λ x. refl))
          (queue_dirty-Grows n _)))

  pub reevaluate_reverse_deps-Grows : (n : ℕ) (s : State) → Grows s (reevaluate_reverse_deps db n s)
  unfolding reevaluate_reverse_deps
  reevaluate_reverse_deps-Grows n s =
      each-Grows (revisit_deps db) (db.name n).rdepends s revisit_deps-Grows

  pub reevaluate_reverse_installif-Grows :
      (n : ℕ) (s : State) → Grows s (reevaluate_reverse_installif db n s)
  unfolding reevaluate_reverse_installif
  reevaluate_reverse_installif-Grows n s =
      each-Grows (revisit_installif db) (db.name n).rinstall_if s revisit_installif-Grows

  pub reevaluate_reverse_installif_pkg-Grows :
      (p : ℕ) (s : State) → Grows s (reevaluate_reverse_installif_pkg db p s)
  unfolding reevaluate_reverse_installif_pkg
  reevaluate_reverse_installif_pkg-Grows p s =
      Grows-trans (reevaluate_reverse_installif-Grows (db.pkg p).name s) (
        each-Grows (λ (d : Dep). reevaluate_reverse_installif db d.target) (db.pkg p).provides _
          (λ d t. reevaluate_reverse_installif-Grows d.target t))

  pub disqualify_package-Grows : (p : ℕ) (s : State) → Grows s (disqualify_package db p s)
  unfolding disqualify_package
  disqualify_package-Grows p s =
      Grows-trans (set_pkg-Grows p (λ x. record x { pkg_selectable = false }) s (λ x. refl)) (
        Grows-trans (reevaluate_reverse_deps-Grows (db.pkg p).name _) (
          Grows-trans
            (each-Grows (λ (d : Dep). reevaluate_reverse_deps db d.target) (db.pkg p).provides _
              (λ d t. reevaluate_reverse_deps-Grows d.target t))
            (reevaluate_reverse_installif_pkg-Grows p _)))

  pub name_requirers_changed-Grows : (n : ℕ) (s : State) → Grows s (name_requirers_changed db n s)
  unfolding name_requirers_changed
  name_requirers_changed-Grows n s =
      Grows-trans (queue_unresolved-Grows n false s)
        (Grows-trans (reevaluate_reverse_installif-Grows n _) (queue_dirty-Grows n _))

  pub inherit_pinning_and_flags-Grows :
      (p : ℕ) (o : Option ℕ) (s : State) → Grows s (inherit_pinning_and_flags db p o s)
  unfolding inherit_pinning_and_flags allow_tag
  inherit_pinning_and_flags-Grows p none s =
      pkgs-Grows refl refl
        (λ q. elim (Bool-cases (p == q)) [ inl e ↦ rw e refl | inr e ↦ rw e refl ])
  inherit_pinning_and_flags-Grows p (some o) s =
      pkgs-Grows refl refl
        (λ q. elim (Bool-cases (p == q)) [ inl e ↦ rw e refl | inr e ↦ rw e refl ])

  constrain-Grows :
      (o : Option ℕ) (d : Dep) (p : Provide) (s : State) → Grows s (constrain db o d p s)
  unfolding constrain
  constrain-Grows o d p s =
      let first =
        set_pkg-Grows p.pkg
          (λ x. record x {
            conflicts = word (x.conflicts + bit (not (is_provided db o d (choice_of p))));
          })
          s (λ x. refl) in
      let second =
        Grows-trans first (if-Grows _ _ _ _ (disqualify_package-Grows p.pkg _) (Grows-refl _)) in
      if-Grows s _ _ _ (Grows-trans second (inherit_pinning_and_flags-Grows p.pkg o _)) second

  pub apply_constraint-Grows :
      (o : Option ℕ) (d : Dep) (s : State) → Grows s (apply_constraint db o d s)
  unfolding apply_constraint
  apply_constraint-Grows o d s =
      let first =
        set_name-Grows d.target
          (λ x. record x { requirers = short (x.requirers + bit (not (is_conflict d))) }) s
          (λ x. refl) (λ x. refl) in
      let second =
        Grows-trans first
          (if-Grows _ _ _ _ (name_requirers_changed-Grows d.target _) (Grows-refl _)) in
      if-Grows s _ _ _ (Grows-refl s) (
        Grows-trans second
          (each-Grows (constrain db o d) (db.name d.target).providers _ (constrain-Grows o d)))
