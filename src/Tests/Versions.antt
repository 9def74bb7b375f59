-- ===== src/Tests/Versions.antt =====
-- Lines of apk-tools/test/unit/version.data, and instances of the theorems on versions.
use alpine_linux_mac_os.Base.{◌-◌, true, false, not, some, Bytes, codes, ◌≡◌, ◌↔◌, refl, arith}
use alpine_linux_mac_os.Ctype.{is_member}
use alpine_linux_mac_os.Version.{version_validate}
use alpine_linux_mac_os.Version.Operators.{version_equal, version_less}
use alpine_linux_mac_os.Version.Compare.{result_of, version_compare, version_match}
use alpine_linux_mac_os.Version.Order.{
  compare_lists, version_keys, version_compare-keys, version_compare-equal, version_compare_trans,
}
use alpine_linux_mac_os.Version.Match.{version_match_complement}
use alpine_linux_mac_os.Version.Validate.{version_validate-IsVersion}
use alpine_linux_mac_os.Version.Grammar.{IsVersion}

abbrev old : Bytes
old = codes "2.34"

abbrev new : Bytes
new = codes "2.34_p1-r2"

abbrev release_candidate : Bytes
release_candidate = codes "2.34_rc1"

older : version_compare (some release_candidate) (some old) ≡ version_less
unfolding version_compare is_member
older = refl

newer : version_compare (some old) (some new) ≡ version_less
unfolding version_compare is_member
newer = refl

leading_zero : version_compare (some (codes "1.05")) (some (codes "1.1")) ≡ version_less
unfolding version_compare
leading_zero = refl

fuzzy_prefix : version_match (some (codes "6.0_pre1")) 9 (some (codes "6.0")) ≡ true
unfolding version_match is_member
fuzzy_prefix = refl

rejected : version_validate (codes "1.0_foo") ≡ false
unfolding version_validate is_member
rejected = refl

accepted : version_validate (codes "0.1_pre2~1234abcd-r7") ≡ true
unfolding version_validate is_member
accepted = refl

-- A number of 2^64 or more wraps around.
wraps : version_compare (some (codes "18446744073709551616")) (some (codes "0")) ≡ version_equal
unfolding version_compare
wraps = refl

version_compare-keys_example :
    version_compare (some old) (some new)
    ≡ result_of (compare_lists (version_keys old) (version_keys new))
version_compare-keys_example = version_compare-keys old new

version_compare-equal_example :
    (version_compare (some old) (some new) ≡ version_equal) ↔ (version_keys old ≡ version_keys new)
version_compare-equal_example = version_compare-equal old new

version_compare_trans_example : version_compare (some release_candidate) (some new) ≡ version_less
version_compare_trans_example = version_compare_trans release_candidate old new older newer

version_match_complement_example :
    version_match (some old) (7 - 3) (some new) ≡ not (version_match (some old) 3 (some new))
version_match_complement_example = version_match_complement old new 3 (omega arith) (omega arith)

version_validate-IsVersion_example : (version_validate new ≡ true) ↔ IsVersion new
version_validate-IsVersion_example = version_validate-IsVersion new
