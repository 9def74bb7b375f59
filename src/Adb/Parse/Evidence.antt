-- ===== src/Adb/Parse/Evidence.antt =====
-- What a parsed database was trusted for: the option to allow untrusted files, the identity that was
-- asked for, or a signature by a trusted key.
use alpine_linux_mac_os.Base.{
  ℕ, Bool, true, false, ◌||◌, Option, some, List, [], ◌∷◌, ◌++◌, Bytes, ◌==◌, ◌≡◌, ◌⊎◌, inl, inr,
  arith,
}
use alpine_linux_mac_os.Adb.Blocks.{proceed, leave, block_adb, block_data}
use alpine_linux_mac_os.Adb.Blocks.Files.{After}
use alpine_linux_mac_os.Adb.Parse.{
  Code, zero_code, positive_code, failed, Key, Trust, Extract, Call, Parse, identity_matched, elem,
  handle_identity, verify_signature, call_back,
}

abbrev pub has_data : List Call → Bool
has_data [] = false
has_data (c ∷ cs) = (c.type == block_data) || has_data cs

has_data_append :
    (cs : List Call) (c : Call)
    → has_data (cs ++ (c ∷ [])) ≡ true
    → (has_data cs ≡ true) ⊎ ((c.type == block_data) ≡ true)
has_data_append [] c e = inr (ground arith)
has_data_append (x ∷ cs) c e = ground (arith, has_data_append cs c)

-- The call of the callback with a database.
abbrev pub adb_call : Bytes → Call
adb_call d = record { type = block_adb; payload = d }

module _ (digest_calc : ℕ → Bytes → Option Bytes) (apk_verify : Key → Bytes → Bytes → Bool)
    (cb : List Call → Code) (t : Option Trust) (schema : ℕ) (ectx : Option Extract) where
  -- The reasons to trust a database.
  pub data Evidence (d : Bytes) : Type 0 where
    by_option : (trust : Trust) → t ≡ some trust → trust.allow_untrusted ≡ true → Evidence d
    by_identity : handle_identity digest_calc ectx d ≡ identity_matched → Evidence d
    by_signature :
        (sig : Bytes)
        → verify_signature digest_calc apk_verify t schema (some d) sig ≡ some true
        → Evidence d

  -- No database was read, or one was and it was the first call.
  pub data Phase (s : Parse) : Type 0 where
    fresh :
        s.allowed ≡ block_adb ∷ []
        → s.calls ≡ []
        → (s.is_trusted ≡ true → (d : Bytes) → Evidence d)
        → Phase s
    opened :
        (d : Bytes) (rest : List Call)
        → elem block_adb s.allowed ≡ false
        → s.adb ≡ some d
        → s.calls ≡ adb_call d ∷ rest
        → Phase s

  pub record Inv (s : Parse) : Type 0 where
    pub phase : Phase s
    pub trusted : s.is_trusted ≡ true → (d : Bytes) → s.adb ≡ some d → Evidence d
    pub checked : has_data s.calls ≡ true → s.is_trusted ≡ true

  pub record End (s : Parse) : Type 0 where
    pub trusted :
        s.is_trusted ≡ true → (d : Bytes) → s.adb ≡ some d → s.code ≡ zero_code → Evidence d
    pub checked :
        has_data s.calls ≡ true
        → (d : Bytes) × (rest : List Call) × (s.calls ≡ adb_call d ∷ rest) × Evidence d

  pub Inv-End : (s : Parse) → Inv s → End s
  Inv-End s i = record {
    trusted = λ e d f g. i.trusted e d f;
    checked = λ e. elim i.phase [
      | fresh a b c ↦ let no : ◌≡◌ {A = Bool} false true = rw b at e in absurd cc
      | opened d rest a b c ↦ (d, rest, c, i.trusted (i.checked e) d b)
    ];
  }

  code_step :
      (c : Code) (s : Parse) → Inv s → After Inv End (elim c [ failed e ↦ leave s | _ ↦ proceed s ])
  code_step zero_code s i = i
  code_step positive_code s i = i
  code_step (failed e) s i = Inv-End s i

  -- A call of the callback once a database was read.
  pub call_back-After :
      (s : Parse) (type : ℕ) (b d : Bytes) (rest : List Call)
      → elem block_adb s.allowed ≡ false
      → s.adb ≡ some d
      → s.calls ++ (record { type = type; payload = b } ∷ []) ≡ adb_call d ∷ rest
      → (s.is_trusted ≡ true → (d : Bytes) → s.adb ≡ some d → Evidence d)
      → (has_data s.calls ≡ true → s.is_trusted ≡ true)
      → ((type == block_data) ≡ true → s.is_trusted ≡ true)
      → After Inv End (call_back digest_calc apk_verify cb t schema ectx s type b)
  unfolding call_back
  call_back-After s type b d rest a p c u v w =
      let calls = s.calls ++ (record { type = type; payload = b } ∷ []) in
      code_step (cb calls) (record s { calls = calls; code = cb calls })
        record {
          phase = opened d rest a p c;
          trusted = u;
          checked = λ e. elim (has_data_append s.calls (record { type = type; payload = b }) e) [
            | inl k ↦ v k
            | inr k ↦ w k
          ];
        }
