-- ===== src/Dependency.antt =====
-- The dependencies of apk-tools/src/package.c: their syntax, their lists and what satisfies them.
-- A name stands for its `struct apk_name`, which `apk_db_get_name` makes once for each text; an
-- atom stands for its text, and the text of the null blob's atom is empty.
pub mod Replaces
pub mod Tags
pub mod Syntax
pub mod Print
pub mod Lists
pub mod Removal
pub mod Reading
pub mod Matching
pub mod RoundTrip
pub mod Checksum
use alpine_linux_mac_os.Base.{ℕ, Bool, not, bit_and, Bytes, ◌==◌}
use alpine_linux_mac_os.Version.Operators.{version_conflict}

-- `struct apk_dependency`, without the solver's `layer`.
pub record Dependency : Type 0 where
  pub name : Bytes
  pub version : Bytes
  pub repository_tag : ℕ
  pub op : ℕ
  pub broken : Bool

-- `apk_dep_conflict`.
abbrev pub dep_conflict : Dependency → Bool
dep_conflict dep = not (bit_and dep.op version_conflict == 0)
