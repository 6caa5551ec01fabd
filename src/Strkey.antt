-- ===== src/Strkey.antt =====
-- core/strkeys/index.ts and the strkey expressions of core/common/regex/index.ts: the quick format
-- checks, the full validations over the SDK's checksum tests, and the detection by prefix.
pub mod Laws
use colibri.Common.{
  ℕ, Bool, true, false, ◌&&◌, ◌||◌, Option, none, some, [], ◌∷◌, Text, ◌==◌, leb, length,
  if◌then◌else◌,
}

-- `[A-Z2-7]`
is_base32 : ℕ → Bool
is_base32 c = leb b'A' c && leb c b'Z' || leb b'2' c && leb c b'7'

all_base32 : Text → Bool
unfolding is_base32
all_base32 [] = true
all_base32 (c ∷ s) = is_base32 c && all_base32 s

-- `/^P[A-Z2-7]{lo,hi}$/` for a prefix `P`.
unfoldable pub matches_strkey : ℕ → ℕ → ℕ → Text → Bool
unfolding all_base32
matches_strkey prefix lo hi [] = false
matches_strkey prefix lo hi (c ∷ s) =
    c == prefix && leb lo (length s) && leb (length s) hi && all_base32 s

-- The nine entries of `StrkeyName`.
pub data StrkeyName : Type 0 where
  ed25519_public_key ed25519_secret_key med25519_public_key pre_auth_tx sha256_hash : StrkeyName
  signed_payload contract_id liquidity_pool_id claimable_balance_id : StrkeyName

unfoldable pub is_ed25519_public_key : Text → Bool
unfolding matches_strkey
is_ed25519_public_key = matches_strkey b'G' 55 55

unfoldable pub is_ed25519_secret_key : Text → Bool
unfolding matches_strkey
is_ed25519_secret_key = matches_strkey b'S' 55 55

unfoldable pub is_muxed_address : Text → Bool
unfolding matches_strkey
is_muxed_address = matches_strkey b'M' 68 68

unfoldable pub is_pre_auth_tx : Text → Bool
unfolding matches_strkey
is_pre_auth_tx = matches_strkey b'T' 55 55

unfoldable pub is_sha256_hash : Text → Bool
unfolding matches_strkey
is_sha256_hash = matches_strkey b'X' 55 55

unfoldable pub is_signed_payload : Text → Bool
unfolding matches_strkey
is_signed_payload = matches_strkey b'P' 55 164

unfoldable pub is_contract_id : Text → Bool
unfolding matches_strkey
is_contract_id = matches_strkey b'C' 55 55

unfoldable pub is_liquidity_pool_id : Text → Bool
unfolding matches_strkey
is_liquidity_pool_id = matches_strkey b'L' 55 55

unfoldable pub is_claimable_balance_id : Text → Bool
unfolding matches_strkey
is_claimable_balance_id = matches_strkey b'B' 57 57

-- The type guard that belongs to each name.
unfoldable pub is_strkey : StrkeyName → Text → Bool
unfolding is_ed25519_public_key is_ed25519_secret_key is_muxed_address is_pre_auth_tx is_sha256_hash
    is_signed_payload is_contract_id is_liquidity_pool_id is_claimable_balance_id
is_strkey StrkeyName.ed25519_public_key = is_ed25519_public_key
is_strkey StrkeyName.ed25519_secret_key = is_ed25519_secret_key
is_strkey StrkeyName.med25519_public_key = is_muxed_address
is_strkey StrkeyName.pre_auth_tx = is_pre_auth_tx
is_strkey StrkeyName.sha256_hash = is_sha256_hash
is_strkey StrkeyName.signed_payload = is_signed_payload
is_strkey StrkeyName.contract_id = is_contract_id
is_strkey StrkeyName.liquidity_pool_id = is_liquidity_pool_id
is_strkey StrkeyName.claimable_balance_id = is_claimable_balance_id

-- `prefix in StrkeyName`, on the first character.
name_of_prefix : ℕ → Option StrkeyName
name_of_prefix c =
    if c == b'G'
    then some StrkeyName.ed25519_public_key
    else if c == b'S'
    then some StrkeyName.ed25519_secret_key
    else if c == b'M'
    then some StrkeyName.med25519_public_key
    else if c == b'T'
    then some StrkeyName.pre_auth_tx
    else if c == b'X'
    then some StrkeyName.sha256_hash
    else if c == b'P'
    then some StrkeyName.signed_payload
    else if c == b'C'
    then some StrkeyName.contract_id
    else if c == b'L'
    then some StrkeyName.liquidity_pool_id
    else if c == b'B'
    then some StrkeyName.claimable_balance_id
    else none

unfoldable pub detect_strkey_type : Text → Option StrkeyName
unfolding name_of_prefix
detect_strkey_type [] = none
detect_strkey_type (c ∷ s) = name_of_prefix c

-- The kinds that have a second tier, with a checksum test of the SDK behind the format check.
pub data ValidatedName : Type 0 where
  ed25519_public_key ed25519_secret_seed muxed_address signed_payload : ValidatedName
  contract_id liquidity_pool_id claimable_balance_id : ValidatedName

-- The format check that each validation makes first.
unfoldable pub format_of : ValidatedName → StrkeyName
format_of ValidatedName.ed25519_public_key = StrkeyName.ed25519_public_key
format_of ValidatedName.ed25519_secret_seed = StrkeyName.ed25519_secret_key
format_of ValidatedName.muxed_address = StrkeyName.med25519_public_key
format_of ValidatedName.signed_payload = StrkeyName.signed_payload
format_of ValidatedName.contract_id = StrkeyName.contract_id
format_of ValidatedName.liquidity_pool_id = StrkeyName.liquidity_pool_id
format_of ValidatedName.claimable_balance_id = StrkeyName.claimable_balance_id

-- `sdk_is_valid` stands for the SDK's seven functions, which the code calls.
module _ (sdk_is_valid : ValidatedName → Text → Bool) where
  unfoldable pub is_valid_strkey : ValidatedName → Text → Bool
  unfolding is_strkey format_of
  is_valid_strkey name value =
      if is_strkey (format_of name) value then sdk_is_valid name value else false
