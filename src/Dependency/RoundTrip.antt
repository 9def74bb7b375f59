-- ===== src/Dependency/RoundTrip.antt =====
-- `apk_dep_parse` reads what `apk_blob_push_dep` writes.
use alpine_linux_mac_os.Base.{
  ℕ, bit_or, Bool, true, false, not, ◌&&◌, some, none, [], ◌∷◌, Bytes, ◌==◌, if◌then◌else◌, ◌≡◌,
  refl, All, ltb, bit_and, append-nil,
}
use alpine_linux_mac_os.Ctype.{scan, is_member, blob_spn, blob_cspn, dependency_comparer}
use alpine_linux_mac_os.Ctype.Spans.{is_empty, scan-append}
use alpine_linux_mac_os.Version.Operators.{
  version_conflict, depmask_any, without_conflict, version_op_string, version_result_mask,
  is_operator,
}
use alpine_linux_mac_os.Dependency.{Dependency}
use alpine_linux_mac_os.Dependency.Syntax.{parse_rest}

abbrev is_comparer : ℕ → Bool
is_comparer = is_member dependency_comparer

all : (ℕ → Bool) → Bytes → Bool
all p [] = true
all p (c ∷ b) = p c && all p b

-- What holds of an operator's text.
good : ℕ → Bool
unfolding all
good op =
    not (is_empty (version_op_string op))
    && all is_comparer (version_op_string op)
    && version_result_mask (version_op_string op) == op
    && not (without_conflict (bit_or 0 op) == 0)
    && not (without_conflict (bit_or 16 op) == 0)

checked : ℕ → Bool
unfolding good
checked op = if is_operator op then good op else true

-- An operator of a dependency with a version, and its text.
record IsSign (op : ℕ) (text : Bytes) : Type 0 where
  full : is_empty text ≡ false
  inside : all is_comparer text ≡ true
  value : version_result_mask text ≡ op
  plain : (without_conflict (bit_or 0 op) == 0) ≡ false
  marked : (without_conflict (bit_or 16 op) == 0) ≡ false

module _ (name ver : Bytes) (named : All (λ c. is_comparer c ≡ false) name) where
  -- No operator and no version: every version.
  parse_plain :
      (mark : ℕ)
      → parse_rest name mark
        ≡ some (record { name = name; op = bit_or mark depmask_any; version = none })
  unfolding parse_rest blob_spn blob_cspn
  parse_plain mark =
      let cut : scan is_comparer name ≡ record { ret = false; left = name; right = [] } =
        rw append-nil at (scan-append is_comparer name [] named tt) in
      rw cut refl

-- What holds of an operator with or without the conflict bit.
split_table_at : ℕ → Bool
split_table_at op =
    let plain = without_conflict op in
    ltb plain 16
    && without_conflict plain == plain
    && (if not (bit_and op version_conflict == 0)
        then bit_or 16 plain == op
        else bit_or 0 plain == op)
