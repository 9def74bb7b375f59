-- ===== src/Solver/Queues.antt =====
-- The queues of apk-tools/src/solver.c. A name is on a queue if the list of the queue holds it, and
-- it is on one of the three queues of unresolved names at most.
use alpine_linux_mac_os.Base.{
  ℕ, ◌+◌, ◌%◌, ◌^◌, Bool, true, false, not, ◌&&◌, ◌||◌, Option, some, none, [], ◌∷◌, ◌++◌, List,
  ltb, ◌==◌, if◌then◌else◌,
}
use alpine_linux_mac_os.Solver.{
  Database, NameState, State, Dep, set_name, set_pkg, each, member, without,
}

abbrev pub is_dirty : ℕ → State → Bool
is_dirty n s = member n s.dirty

abbrev pub is_queued : ℕ → State → Bool
is_queued n s = member n s.unresolved || member n s.selectable || member n s.resolving

abbrev pub unqueue : ℕ → State → State
unqueue n s = record s {
  unresolved = without n s.unresolved;
  selectable = without n s.selectable;
  resolving = without n s.resolving;
}

unfoldable pub queue_dirty : ℕ → State → State
queue_dirty n s =
    let ss = s.names n in
    if is_dirty n s || ss.locked || (ss.requirers == 0 && not ss.reevaluate_iif)
    then s
    else record s { dirty = s.dirty ++ n ∷ [] }

-- `queue_resolvenow`.
abbrev pub is_resolvable : NameState → Bool
is_resolvable ss =
    ss.reverse_deps_done && not (ss.requirers == 0) && ss.has_auto_selectable && not ss.has_options

-- `order_id` is compared as an `int`.
abbrev pub signed : ℕ → ℕ
signed n = (n + 2 ^ 31) % 2 ^ 32

-- The name with the greatest `order_id` comes first, and a new one before those with the same.
unfoldable pub queue_insert : ℕ → State → List ℕ → List ℕ
queue_insert n s [] = n ∷ []
queue_insert n s (m ∷ ms) =
    let later = queue_insert n s ms in
    if ltb (signed (s.names n).order_id) (signed (s.names m).order_id)
    then m ∷ later
    else n ∷ m ∷ ms

-- What follows the tests of `queue_unresolved`: the name goes to its queue.
unfoldable pub enqueue : ℕ → State → State
unfolding queue_insert
enqueue n s =
    let ss = s.names n in
    if ss.resolvenow
    then record s { resolving = s.resolving ++ n ∷ [] }
    else if ss.has_auto_selectable
    then record s { selectable = queue_insert n s s.selectable }
    else record s { unresolved = queue_insert n s s.unresolved }

unfoldable pub queue_unresolved : ℕ → Bool → State → State
unfolding enqueue
queue_unresolved n reevaluate s =
    let ss = s.names n in
    let now = is_resolvable ss in
    let marked = set_name n (λ x. record x { resolvenow = true }) s in
    if ss.locked
    then s
    else if is_queued n s
    then (if ss.resolvenow
        then s
        else if now
        then enqueue n (unqueue n marked)
        else if not reevaluate
        then s
        else enqueue n (unqueue n s))
    else if ss.requirers == 0 && not ss.has_iif && not ss.iif_needed
    then s
    else enqueue n (set_name n (λ x. record x { resolvenow = now }) s)

module _ (db : Database) where
  -- The names that the loops of the next two functions go through.
  unfoldable pub revisit_deps : ℕ → State → State
  unfolding queue_dirty
  revisit_deps n s =
      if not (s.names n).seen
      then s
      else queue_dirty n (set_name n (λ x. record x { reevaluate_deps = true }) s)

  unfoldable pub revisit_installif : ℕ → State → State
  unfolding queue_dirty
  revisit_installif n s =
      if not (s.names n).seen
      then s
      else if (s.names n).no_iif
      then s
      else queue_dirty n (set_name n (λ x. record x { reevaluate_iif = true }) s)

  unfoldable pub reevaluate_reverse_deps : ℕ → State → State
  unfolding revisit_deps
  reevaluate_reverse_deps n s = each revisit_deps (db.name n).rdepends s

  unfoldable pub reevaluate_reverse_installif : ℕ → State → State
  unfolding revisit_installif
  reevaluate_reverse_installif n s = each revisit_installif (db.name n).rinstall_if s

  unfoldable pub reevaluate_reverse_installif_pkg : ℕ → State → State
  unfolding reevaluate_reverse_installif
  reevaluate_reverse_installif_pkg p s =
      each (λ (d : Dep). reevaluate_reverse_installif d.target) (db.pkg p).provides
        (reevaluate_reverse_installif (db.pkg p).name s)

  unfoldable pub disqualify_package : ℕ → State → State
  unfolding reevaluate_reverse_deps reevaluate_reverse_installif_pkg
  disqualify_package p s =
      let s1 = set_pkg p (λ x. record x { pkg_selectable = false }) s in
      let s2 = reevaluate_reverse_deps (db.pkg p).name s1 in
      let s3 = each (λ (d : Dep). reevaluate_reverse_deps d.target) (db.pkg p).provides s2 in
      reevaluate_reverse_installif_pkg p s3

  unfoldable pub name_requirers_changed : ℕ → State → State
  unfolding queue_unresolved reevaluate_reverse_installif queue_dirty
  name_requirers_changed n s =
      queue_dirty n (reevaluate_reverse_installif n (queue_unresolved n false s))

-- `dequeue_next_name`, by the first queue that is not empty.
unfoldable pub dequeue_next_name : State → Option (ℕ × State)
dequeue_next_name s = elim (s.resolving) [
  | n ∷ ns ↦ some (n, record s { resolving = ns })
  | [] ↦ elim (s.selectable) [
    | n ∷ ns ↦ some (n, record s { selectable = ns })
    | [] ↦ elim (s.unresolved) [ n ∷ ns ↦ some (n, record s { unresolved = ns }) | [] ↦ none ]
  ]
]
