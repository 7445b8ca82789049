-- ===== src/Version.antt =====
-- `get_version_for_new` of src/tikv/client.rs: the version of the data keys of a new collection.
use tidis.Base.{ℕ, ◌+◌, ◌-◌, Option, none, some, ◌==◌, if◌then◌else◌}
use tidis.Bytes.{Bytes, u16_mod}
use tidis.Encoding.Encode.{encode_txnkv_gc_key, encode_txnkv_gc_version_key}
use tidis.Encoding.Decode.{word}
use tidis.Frame.{Error}
use tidis.Config.{Settings, async_deletion_enabled_or_default}
use tidis.Txn.{Txn}
use tidis.Txn.Exec.{Exec, pure, raise, gets, unwrap, ◌>>=◌}

-- the version after the one that the garbage collection key holds, 0 after the last and at first
unfoldable pub next_version : Option Bytes → Option ℕ
next_version none = some 0
next_version (some v) = elim (word 2 v) [
  | none ↦ none
  | some version ↦ some (if version == u16_mod - 1 then 0 else version + 1)
]

-- A version whose data a deletion has still to remove is not given out.
version_if_free : ℕ → Option Bytes → {S : Type 0} → Exec S ℕ
version_if_free version none = pure version
version_if_free version (some _) = raise Error.key_version_exhausted

module _ (c : Settings) (T : Txn) where
  find_version : Bytes → Exec T.State ℕ
  unfolding next_version version_if_free
  find_version key = do
    gc ← gets (λ s. T.get s (encode_txnkv_gc_key c.encoder key))
    version ← unwrap (next_version gc)
    pending ← gets (λ s. T.get s (encode_txnkv_gc_version_key c.encoder key version))
    version_if_free version pending

  unfoldable pub get_version_for_new : Bytes → Exec T.State ℕ
  unfolding find_version
  get_version_for_new key = if async_deletion_enabled_or_default c then find_version key else pure 0
