-- ===== src/Dependency/Print.antt =====
-- `apk_blob_push_dep` and `apk_blob_push_deps` of package.c.
use alpine_linux_mac_os.Base.{
  ℕ, Option, some, none, [], ◌∷◌, ◌++◌, List, Bytes, codes, ◌==◌, if◌then◌else◌, ◌≡◌, refl, arith,
  append_assoc, append-nil, sym,
}
use alpine_linux_mac_os.Blob.{Sink}
use alpine_linux_mac_os.Blob.Push.{push_blob}
use alpine_linux_mac_os.Blob.Push.Bounds.{push_blob-append}
use alpine_linux_mac_os.Version.Operators.{version_op_string}
use alpine_linux_mac_os.Dependency.{Dependency, dep_conflict}
use alpine_linux_mac_os.Dependency.Tags.{Tags, tag_at}

-- `db->repo_tags[i].tag`. An entry that is not in use is an empty blob; an id outside the array,
-- which the source would read behind it, is taken for one.
abbrev pub tag_text : Tags → ℕ → Bytes
tag_text tags i = elim (tag_at tags i) [ none ↦ [] | some name ↦ b'@' ∷ name ]

abbrev pub conflict_text : Dependency → Bytes
conflict_text dep = if dep_conflict dep then codes "!" else []

push_tag : Sink → Option Tags → Dependency → Sink
push_tag to none dep = to
push_tag to (some tags) dep =
    if dep.repository_tag == 0 then to else push_blob to (tag_text tags dep.repository_tag)

-- `apk_blob_push_dep`; no tags where `db` is NULL. The atom of a version is never a null blob.
unfoldable pub push_dep : Sink → Option Tags → Dependency → Sink
unfolding push_tag
push_dep to db dep =
    let marked = if dep_conflict dep then push_blob to (codes "!") else to in
    let tagged = push_tag (push_blob marked dep.name) db dep in
    push_blob (push_blob tagged (version_op_string dep.op)) dep.version

-- The loop of `apk_blob_push_deps`: every dependency but the first behind a space.
push_later : Sink → Option Tags → List Dependency → Sink
unfolding push_dep
push_later to db [] = to
push_later to db (dep ∷ deps) = push_later (push_dep (push_blob to (codes " ")) db dep) db deps

-- `apk_blob_push_deps`.
unfoldable pub push_deps : Sink → Option Tags → List Dependency → Sink
unfolding push_later push_dep
push_deps to db [] = to
push_deps to db (dep ∷ deps) = push_later (push_dep to db dep) db deps

-- The text of a dependency.
abbrev pub db_tag_text : Option Tags → Dependency → Bytes
db_tag_text none dep = []
db_tag_text (some tags) dep =
    if dep.repository_tag == 0 then [] else tag_text tags dep.repository_tag

abbrev pub dep_text : Option Tags → Dependency → Bytes
dep_text db dep =
    conflict_text dep
    ++ (dep.name ++ (db_tag_text db dep ++ (version_op_string dep.op ++ dep.version)))

push_blob-nil : (to : Sink) → push_blob to [] ≡ to
unfolding push_blob
push_blob-nil none = refl
push_blob-nil (some o) = ground (arith, append-nil o.written)

push_mark :
    (to : Sink) (dep : Dependency)
    → (if dep_conflict dep then push_blob to (codes "!") else to) ≡ push_blob to (conflict_text dep)
push_mark to dep = ground (arith, push_blob-nil to)

push_tag-text :
    (to : Sink) (db : Option Tags) (dep : Dependency)
    → push_tag to db dep ≡ push_blob to (db_tag_text db dep)
unfolding push_tag
push_tag-text to none dep = sym (push_blob-nil to)
push_tag-text to (some tags) dep = ground (arith, push_blob-nil to)

-- `apk_blob_push_dep` pushes the text of the dependency in one piece: its mark of a conflict,
-- name, tag, operator and version.
pub push_dep-dep_text :
    (to : Sink) (db : Option Tags) (dep : Dependency)
    → push_dep to db dep ≡ push_blob to (dep_text db dep)
unfolding push_dep
push_dep-dep_text to db dep =
    rw
      (
        push_mark to dep,
        push_tag-text (push_blob (push_blob to (conflict_text dep)) dep.name) db dep,
      )
      (simp (push_blob-append, append_assoc))
