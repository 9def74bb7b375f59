-- ===== src/Dependency/Tags.antt =====
-- `apk_db_get_tag_id` of apk-tools/src/database.c. A tag is kept without its '@'; the first entry
-- of the array is for packages with no tag.
use alpine_linux_mac_os.Base.{
  ℕ, zero, suc, ◌+◌, ◌<◌, ◌≤◌, Option, some, none, [], ◌∷◌, ◌++◌, List, Bytes, length, get_elem?,
  leb, ◌==◌, if◌then◌else◌, ◌≡◌, refl, arith, Bool-cases, inl, inr, length-append, Option-cases, ap,
}
use alpine_linux_mac_os.Blob.{Blob}
use alpine_linux_mac_os.Blob.Order.{blob_compare, is_eq}
use alpine_linux_mac_os.Blob.Order.Laws.{blob_compare_iff}

-- APK_MAX_TAGS, the size of `db->repo_tags`.
abbrev pub max_tags : ℕ
max_tags = 16

-- `plain_name` of the entries 1, 2, ... of `db->repo_tags`; `num_repo_tags` is one more than their
-- number.
abbrev pub Tags : Type 0
Tags = List Bytes

abbrev pub num_repo_tags : Tags → ℕ
num_repo_tags tags = length tags + 1

-- Both loops compare either the tags with '@' or the names without it.
unfoldable pub find_tag : ℕ → Tags → Bytes → Option ℕ
find_tag i [] name = none
find_tag i (t ∷ tags) name =
    let later = find_tag (i + 1) tags name in if is_eq (blob_compare t name) then some i else later

abbrev pub plain_name : Bytes → Bytes
plain_name [] = []
plain_name (c ∷ b) = if c == b'@' then b else c ∷ b

-- The tags afterwards and the id; `none` for -1.
unfoldable pub get_tag_id : Tags → Blob → Tags × Option ℕ
unfolding find_tag
get_tag_id tags none = (tags, some 0)
get_tag_id tags (some tag) = elim (find_tag 1 tags (plain_name tag)) [
  | some i ↦ (tags, some i)
  | none ↦
      if leb max_tags (num_repo_tags tags)
      then (tags, none)
      else (tags ++ plain_name tag ∷ [], some (num_repo_tags tags))
]

-- The name at an id of 1 or more.
abbrev pub tag_at : Tags → ℕ → Option Bytes
tag_at tags zero = none
tag_at tags (suc i) = get_elem? tags i

found_at :
    (k : ℕ) (tags : Tags) (name : Bytes) (i : ℕ)
    → find_tag (suc k) tags name ≡ some i
    → (j : ℕ) × (i ≡ suc (k + j)) × (get_elem? tags j ≡ some name) × (j < length tags)
unfolding find_tag
found_at k [] name i h = ground arith
found_at k (t ∷ tags) name i h = elim (Bool-cases (is_eq (blob_compare t name))) [
  | inl e ↦ (0, ground arith, ap some ((blob_compare_iff t name).0 (ground arith)), omega arith)
  | inr e ↦
      let (j, ei, ej, lj) = found_at (suc k) tags name i (ground arith) in
      (suc j, omega arith, ej, omega arith)
]

at_end : (tags : Tags) (name : Bytes) → get_elem? (tags ++ name ∷ []) (length tags) ≡ some name
at_end [] name = refl
at_end (t ∷ tags) name = at_end tags name

-- In a table of tags within its array: an id that `apk_db_get_tag_id` returns for a tag is that of
-- the tag's name in the table that it leaves, and is within the array, and the table left is
-- within it too.
pub get_tag_id_sound :
    (tags tags' : Tags) (tag : Bytes) (i : ℕ)
    → num_repo_tags tags ≤ max_tags
    → get_tag_id tags (some tag) ≡ (tags', some i)
    → (tag_at tags' i ≡ some (plain_name tag)) × (i < max_tags) × (num_repo_tags tags' ≤ max_tags)
unfolding get_tag_id
get_tag_id_sound tags tags' tag i fits h = elim (Option-cases (find_tag 1 tags (plain_name tag))) [
  | inl e ↦ elim (Bool-cases (leb max_tags (num_repo_tags tags))) [
    | inl full ↦ ground arith
    | inr room ↦
        let ei : i ≡ suc (length tags) = ground arith in
        let et : tags ++ plain_name tag ∷ [] ≡ tags' = ground arith in
        rw (ei, ← et)
          (
            at_end tags (plain_name tag),
            ground arith,
            ground (arith, length-append tags (plain_name tag ∷ [])),
          )
  ]
  | inr (k, e) ↦
      let (j, ei, ej, lj) = found_at 0 tags (plain_name tag) k e in
      let ek : i ≡ suc j = ground arith in
      let et : tags ≡ tags' = ground arith in rw (ek, ← et) (ej, omega arith, fits)
]
