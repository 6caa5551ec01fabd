-- ===== src/Strkey/Laws.antt =====
-- How the strkey guards of core/strkeys/index.ts relate to one another.
use colibri.Common.{◌≡◌, true, false, inl, inr, some, Bool, Bool-cases, [], ◌∷◌, Text, arith}
use colibri.Strkey.{
  StrkeyName, is_strkey, ValidatedName, format_of, is_valid_strkey, detect_strkey_type,
}

-- A valid strkey passes the format check of its kind.
is_valid_format :
    (sdk_is_valid : ValidatedName → Text → Bool) (name : ValidatedName) (value : Text)
    → is_valid_strkey sdk_is_valid name value ≡ true
    → is_strkey (format_of name) value ≡ true
unfolding is_valid_strkey
is_valid_format sdk name value h = elim (Bool-cases (is_strkey (format_of name) value)) [
  | inl passed ↦ passed
  | inr failed ↦ let refused : false ≡ true = rw (failed, is_valid_strkey) at h in cc
]

-- A value that passes one of the nine format checks is detected by its prefix as that kind of
-- strkey.
pub detect_strkey_type-is_strkey :
    (name : StrkeyName) (value : Text)
    → is_strkey name value ≡ true
    → detect_strkey_type value ≡ some name
unfolding is_strkey detect_strkey_type
detect_strkey_type-is_strkey StrkeyName.ed25519_public_key (c ∷ s) h = ground arith
detect_strkey_type-is_strkey StrkeyName.ed25519_secret_key (c ∷ s) h = ground arith
detect_strkey_type-is_strkey StrkeyName.med25519_public_key (c ∷ s) h = ground arith
detect_strkey_type-is_strkey StrkeyName.pre_auth_tx (c ∷ s) h = ground arith
detect_strkey_type-is_strkey StrkeyName.sha256_hash (c ∷ s) h = ground arith
detect_strkey_type-is_strkey StrkeyName.signed_payload (c ∷ s) h = ground arith
detect_strkey_type-is_strkey StrkeyName.contract_id (c ∷ s) h = ground arith
detect_strkey_type-is_strkey StrkeyName.liquidity_pool_id (c ∷ s) h = ground arith
detect_strkey_type-is_strkey StrkeyName.claimable_balance_id (c ∷ s) h = ground arith
detect_strkey_type-is_strkey name [] h = ground arith

format_of_injective : (name other : ValidatedName) → format_of name ≡ format_of other → name ≡ other
unfolding format_of
format_of_injective name other h = ground arith

-- No value is valid as two kinds of strkey, whatever the SDK's checksum tests answer.
is_valid_strkey_unique :
    (sdk_is_valid : ValidatedName → Text → Bool) (name other : ValidatedName) (value : Text)
    → is_valid_strkey sdk_is_valid name value ≡ true
    → is_valid_strkey sdk_is_valid other value ≡ true
    → name ≡ other
is_valid_strkey_unique sdk name other value h k = format_of_injective name other (
    cc (
      detect_strkey_type-is_strkey (format_of name) value (is_valid_format sdk name value h),
      detect_strkey_type-is_strkey (format_of other) value (is_valid_format sdk other value k),
    ))
