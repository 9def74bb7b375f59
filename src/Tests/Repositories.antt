-- ===== src/Tests/Repositories.antt =====
-- Lines of a repositories file, and instances of the theorems on atoms, variables and substitution.
use alpine_linux_mac_os.Base.{
  ℕ, true, ◌≡◌, ◌≢◌, refl, sym, subst, arith, none, some, [], ◌∷◌, ◌++◌, List, Bytes, codes,
  replicate,
}
use alpine_linux_mac_os.Blob.{Blob, Sink}
use alpine_linux_mac_os.Ctype.{is_member}
use alpine_linux_mac_os.Blob.Search.{blob_contains}
use alpine_linux_mac_os.Hash.Murmur.{blob_hash}
use alpine_linux_mac_os.Blob.Push.Bounds.{push_blob-Fits}
use alpine_linux_mac_os.Blob.Subst.Bounds.{TextFits, AllSmall, key_limit, limits, blob_subst-Fits}
use alpine_linux_mac_os.Blob.Push.{push_blob}
use alpine_linux_mac_os.Blob.Subst.{Result, ok, err, outside_array, blob_subst}
use alpine_linux_mac_os.Blob.Subst.Total.{blob_subst_total}
use alpine_linux_mac_os.Hash.{Hash, hash_get}
use alpine_linux_mac_os.Hash.Atoms.{Atom}
use alpine_linux_mac_os.Repositories.Variables.{Variable, variable_ops, variable_set}
use alpine_linux_mac_os.Repositories.Definitions.{value_of, value-variable_set}
use alpine_linux_mac_os.Repositories.Entries.{returned, repoparser_parse}

abbrev no_atoms : Hash Atom
no_atoms = record { buckets = replicate 2 []; num_items = 0 }

abbrev no_variables : Hash Variable
no_variables = record { buckets = replicate 3 []; num_items = 0 }

-- A callback that knows one variable.
abbrev mirror : Bytes → Sink → Result Sink
mirror key to = ok (push_blob to (codes "dl-cdn.alpinelinux.org"))

-- The urls and components that a line names.
abbrev collect : Bytes → Blob → Blob → List Bytes → List Bytes × ℕ
collect url index tag urls = (urls ++ url ∷ [], 0)

-- An address on the stack.
abbrev stack : ℕ
stack = 0x7ffd00001000

cut_value : blob_subst mirror stack 64 (codes "a${x:6}/b") ≡ some (ok (codes "adl-cdn/b"))
unfolding blob_subst blob_contains
cut_value = refl

-- A limit of 2 ^ 64 - 1 leaves the pointer one byte before the array.
wrapped_limit :
    blob_subst mirror stack 64 (codes "${x:18446744073709551615}") ≡ some (err outside_array)
unfolding blob_subst blob_contains
wrapped_limit = refl

parsed :
    repoparser_parse collect
      (λ a. stack)
      no_variables
      (some (codes "v3 http://a/ main community"))
      true
      []
    ≡ some (no_variables, codes "http://a/main" ∷ codes "http://a/community" ∷ [], returned 0)
unfolding repoparser_parse is_member blob_subst
parsed = refl

blob_subst_total_example : blob_subst mirror stack 4096 (codes "http://${mirror}/edge") ≢ none
blob_subst_total_example = blob_subst_total mirror stack 4096 (codes "http://${mirror}/edge")

cut_limits : limits 25 (codes "http://${mirror:3}/edge") ≡ 3 ∷ []
unfolding limits key_limit blob_contains
cut_limits = refl

blob_subst-Fits_example : TextFits 64 (blob_subst mirror stack 64 (codes "http://${mirror:3}/edge"))
unfolding limits blob_contains
blob_subst-Fits_example =
    blob_subst-Fits mirror stack 64 (omega arith)
      (λ key to h. push_blob-Fits 64 to (codes "dl-cdn.alpinelinux.org") h)
      (codes "http://${mirror:3}/edge")
      (subst (AllSmall stack 64) (sym cut_limits) (omega arith, tt))

value-variable_set_example :
    value_of (
      hash_get variable_ops
        (variable_set no_variables (codes "mirror") (codes "x") 1)
        (codes "mirror"))
    ≡ some (codes "x")
unfolding hash_get blob_hash
value-variable_set_example =
    value-variable_set no_variables (codes "mirror") (codes "x") 1 (omega arith) (omega arith)
