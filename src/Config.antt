-- ===== src/Config.antt =====
-- The settings that the modelled commands read (src/config.rs), and the clock tests of src/utils.rs.
-- The time in milliseconds is an argument: a command reads it once.
use tidis.Base.{ℕ, ◌-◌, ◌^◌, Bool, true, Option, none, some, ◌&&◌, ltb, if◌then◌else◌}
use tidis.Bytes.{add64}
use tidis.Encoding.Encode.{KeyEncoder}

pub record Settings : Type 0 where
  -- `KEY_ENCODER`
  pub encoder : KeyEncoder
  -- `async_deletion_enabled` and `async_del_list_threshold`, where the configuration gives them
  pub async_deletion : Option Bool
  pub list_threshold : Option ℕ
  pub hash_threshold : Option ℕ
  pub set_threshold : Option ℕ
  pub zset_threshold : Option ℕ
  pub hash_expire_threshold : Option ℕ
  pub set_expire_threshold : Option ℕ
  pub zset_expire_threshold : Option ℕ

unfoldable pub async_deletion_enabled_or_default : Settings → Bool
async_deletion_enabled_or_default c = elim c.async_deletion [ none ↦ true | some b ↦ b ]

-- `u32::MAX` where lists are never deleted in the background
unfoldable pub async_del_list_threshold_or_default : Settings → ℕ
unfolding async_deletion_enabled_or_default
async_del_list_threshold_or_default c = elim c.list_threshold [
  | none ↦ if async_deletion_enabled_or_default c then 1000 else 2 ^ 32 - 1
  | some n ↦ n
]

-- a threshold, where the configuration gives it
abbrev threshold_or_default : Settings → Option ℕ → ℕ
threshold_or_default c none = if async_deletion_enabled_or_default c then 1000 else 2 ^ 32 - 1
threshold_or_default c (some n) = n

unfoldable pub async_del_hash_threshold_or_default : Settings → ℕ
unfolding async_deletion_enabled_or_default
async_del_hash_threshold_or_default c = threshold_or_default c c.hash_threshold

unfoldable pub async_del_set_threshold_or_default : Settings → ℕ
unfolding async_deletion_enabled_or_default
async_del_set_threshold_or_default c = threshold_or_default c c.set_threshold

unfoldable pub async_del_zset_threshold_or_default : Settings → ℕ
unfolding async_deletion_enabled_or_default
async_del_zset_threshold_or_default c = threshold_or_default c c.zset_threshold

unfoldable pub async_expire_hash_threshold_or_default : Settings → ℕ
unfolding async_deletion_enabled_or_default
async_expire_hash_threshold_or_default c = threshold_or_default c c.hash_expire_threshold

unfoldable pub async_expire_set_threshold_or_default : Settings → ℕ
unfolding async_deletion_enabled_or_default
async_expire_set_threshold_or_default c = threshold_or_default c c.set_expire_threshold

unfoldable pub async_expire_zset_threshold_or_default : Settings → ℕ
unfolding async_deletion_enabled_or_default
async_expire_zset_threshold_or_default c = threshold_or_default c c.zset_expire_threshold

unfoldable pub key_is_expired : ℕ → ℕ → Bool
key_is_expired now ttl = ltb 0 ttl && ltb ttl now

unfoldable pub timestamp_from_ttl : ℕ → ℕ → ℕ
timestamp_from_ttl now ttl = add64 ttl now

unfoldable pub ttl_from_timestamp : ℕ → ℕ → ℕ
ttl_from_timestamp now timestamp = if ltb timestamp now then 0 else timestamp - now
