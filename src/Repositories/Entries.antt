-- ===== src/Repositories/Entries.antt =====
-- `apk_repoparser_parse` of apk-tools/src/repoparser.c, and the path builder of pathbuilder.c that
-- it joins the components with.
use alpine_linux_mac_os.Base.{
  ℕ, zero, suc, ◌+◌, Bool, true, false, not, ◌&&◌, ◌||◌, Option, some, none, [], ◌∷◌, ◌++◌, Bytes,
  codes, length, leb, ◌==◌, if◌then◌else◌,
}
use alpine_linux_mac_os.Blob.{Blob}
use alpine_linux_mac_os.Blob.Order.{blob_ends_with, blob_compare}
use alpine_linux_mac_os.Blob.Search.{blob_contains, blob_tokenize, blob_trim_end}
use alpine_linux_mac_os.Blob.Subst.{Error, ok, err, repo_syntax, repo_keyword}
use alpine_linux_mac_os.Hash.{Hash}
use alpine_linux_mac_os.Repositories.Variables.{Variable}
use alpine_linux_mac_os.Repositories.Lines.{
  path_max, byte_at, get_word, is_text, subst_text, parse_set,
}

-- APK_REPOTYPE_OMITTED and the types of repositories.
pub data RepoType : Type 0 where
  omitted ndx v2 v3 : RepoType

-- `is_url`, of a text that may have lost bytes at its end: `c` is the byte at its pointer.
unfoldable pub is_url : ℕ → Bytes → Bool
unfolding blob_contains
is_url c word = c == b'/' || elim (blob_contains word (codes "://")) as (λ _. Bool) [
  | none ↦ false
  | some i ↦ not (i == 0)
]

unfoldable pub is_keyword : Bytes → Bool
unfolding is_url
is_keyword word = if byte_at word == b'@' then false else not (is_url (byte_at word) word)

-- The chain of comparisons with the keywords of types.
unfoldable pub type_of : Bytes → Option RepoType
unfolding blob_compare
type_of word =
    if is_text word (codes "ndx")
    then some ndx
    else if is_text word (codes "v2")
    then some v2
    else if is_text word (codes "v3")
    then some v3
    else none

-- The type that stands for an omitted one.
unfoldable pub default_type : RepoType → Bytes → RepoType
unfolding blob_ends_with
default_type omitted word =
    if blob_ends_with word (codes ".adb") || blob_ends_with word (codes ".tar.gz") then ndx else v2
default_type type word = type

abbrev pub index_file : RepoType → Blob
index_file v2 = some (codes "APKINDEX.tar.gz")
index_file v3 = some (codes "Packages.adb")
index_file _ = none

-- `apk_pathbuilder_pushb`: the name unchanged where it is too long.
unfoldable pub push_path : Bytes → Bytes → Bytes
push_path name b =
    if leb path_max (length name + length b + 2)
    then name
    else if length name == 0
    then b
    else name ++ b'/' ∷ b

-- What `apk_repoparser_parse` returns: an error of its own, or what the receiver of repositories
-- returned, where 0 is success.
pub data Outcome : Type 0 where
  refused : Error → Outcome
  returned : ℕ → Outcome

-- The arrays on the stack: of `apk_repoparser_parse_set`, and the two of `apk_repoparser_parse`.
pub data StackArray : Type 0 where
  buf urlbuf compbuf : StackArray

-- `repository` of `struct apk_repoparser_ops`, on a state of its own, and where the arrays are.
module _ {S : Type 0} (repository : Bytes → Blob → Blob → S → S × ℕ)
    (address : StackArray → ℕ) where
  -- The loop over the words of the components: the name is popped to the url behind each.
  unfoldable pub each_component : ℕ → Bytes → Blob → Blob → Blob → S → Option (S × Outcome)
  unfolding blob_tokenize push_path
  each_component zero url index tag left s = none
  each_component (suc fuel) url index tag left s =
      elim (blob_tokenize (suc fuel) left (codes " ")) [
        | none ↦ none
        | some none ↦ some (s, returned 0)
        | some (some (component, left')) ↦
            let (s', r) = repository (push_path url component) index tag s in
            let later = each_component fuel url index tag left' s' in
            if r == 0 then later else some (s', returned r)
      ]

  -- The repositories of one line, behind its keyword and tag. `allow_keywords` asks for a url.
  unfoldable pub add_repositories :
      Hash Variable → Bool → RepoType → Blob → Bytes → Bytes → S → Option (S × Outcome)
  unfolding blob_trim_end each_component push_path is_url default_type
  add_repositories vars allow_keywords type tag word line s =
      let index = index_file (default_type type word) in
      elim (subst_text (address urlbuf) vars word) [
        | none ↦ none
        | some (err e) ↦ some (s, refused e)
        | some (ok text) ↦
            let url = blob_trim_end text b'/' in
            let (s', r) = repository url index tag s in
            if allow_keywords && not (is_url (byte_at text) url)
            then some (s, refused repo_syntax)
            else if length line == 0
            then some (s', returned r)
            else elim (subst_text (address compbuf) vars line) [
              | none ↦ none
              | some (err e) ↦ some (s, refused e)
              | some (ok components) ↦
                  each_component (length components + 2) (push_path [] url) index tag
                    (some components) s
            ]
      ]

  -- The tag of a line and what follows it; a tag that ends the line is refused.
  unfoldable pub add_tagged :
      Hash Variable → Bool → RepoType → Bytes → Bytes → S → Option (S × Outcome)
  unfolding get_word add_repositories
  add_tagged vars allow_keywords type word line s =
      let (next, rest) = get_word line in
      if not (byte_at word == b'@')
      then add_repositories vars allow_keywords type none word line s
      else if length next == 0
      then some (s, refused repo_syntax)
      else add_repositories vars allow_keywords type (some word) next rest s

  -- A line whose first word is a keyword other than `set`.
  unfoldable pub add_typed : Hash Variable → Bytes → Bytes → S → Option (S × Outcome)
  unfolding get_word type_of add_tagged
  add_typed vars word line s = elim (type_of word) [
    | none ↦ some (s, refused repo_keyword)
    | some type ↦
        let (next, rest) = get_word line in
        if length next == 0
        then some (s, refused repo_syntax)
        else add_tagged vars true type next rest s
  ]

  -- A line that defines a variable.
  unfoldable pub add_variable : Hash Variable → Bytes → S → Option (Hash Variable × S × Outcome)
  unfolding parse_set
  add_variable vars line s = elim (parse_set (address buf) vars line) [
    | none ↦ none
    | some (err e) ↦ some (vars, s, refused e)
    | some (ok vars') ↦ some (vars', s, returned 0)
  ]

  abbrev with_vars : Hash Variable → Option (S × Outcome) → Option (Hash Variable × S × Outcome)
  with_vars vars none = none
  with_vars vars (some (s, o)) = some (vars, s, o)

  -- `apk_repoparser_parse`, with the variables and the state afterwards. `none` says that the
  -- rounds of a loop ran out.
  unfoldable pub repoparser_parse :
      Hash Variable → Blob → Bool → S → Option (Hash Variable × S × Outcome)
  unfolding get_word is_keyword add_typed add_tagged add_variable
  repoparser_parse vars none allow_keywords s = some (vars, s, returned 0)
  repoparser_parse vars (some line) allow_keywords s =
      let (word, rest) = get_word line in
      if length line == 0 || byte_at line == b'#'
      then some (vars, s, returned 0)
      else if length word == 0
      then some (vars, s, refused repo_syntax)
      else if not (allow_keywords && is_keyword word)
      then with_vars vars (add_tagged vars allow_keywords omitted word rest s)
      else if is_text word (codes "set")
      then add_variable vars rest s
      else with_vars vars (add_typed vars word rest s)
