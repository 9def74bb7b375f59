-- ===== src/Adb/Malformed.antt =====
-- Reading a database whose values are wrong stays within its data.
use alpine_linux_mac_os.Base.{
  ℕ, ◌+◌, Bool-cases, Option, some, none, Bytes, length, length-take, length-drop, drop, leb,
  leb→le, ◌≡◌, sym, ap, ◌∙◌, inl, inr, arith,
}
use mathlib.Core.Option.{some-injective}
use alpine_linux_mac_os.Adb.ValType
use alpine_linux_mac_os.Adb.{val_value, r_deref}
use alpine_linux_mac_os.Adb.Read.{Obj}

length-r_deref : (adb b : Bytes) (v offs s : ℕ) → r_deref adb v offs s ≡ some b → length b ≡ s
unfolding r_deref
length-r_deref adb b v offs s e = elim (Bool-cases (leb (offs + val_value v + s) (length adb))) [
  | inr f ↦ let no : ◌≡◌ {A = Option Bytes} none (some b) = rw (r_deref, f) at e in absurd cc
  | inl f ↦
      let same = some-injective _ b (rw (r_deref, f) at e) in
      let inside = leb→le (offs + val_value v + s) (length adb) f in
      let rest = length-drop (offs + val_value v) adb in
      sym (ap length same) ∙ length-take s (drop (offs + val_value v) adb) ∙ omega arith
]

-- As many elements as are counted, or none at all and the count is one.
data Whole (o : Obj) : Type 0 where
  absent : o.num ≡ 1 → Whole o
  present : length o.obj ≡ o.num → Whole o
