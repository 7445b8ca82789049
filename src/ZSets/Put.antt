-- ===== src/ZSets/Put.antt =====
-- ZADD of src/tikv/zset.rs. Members come with their scores, in pairs; the source has two lists, of the
-- same length.
use tidis.Base.{
  ℕ, ◌+◌, Bool, true, false, not, Option, none, some, List, [], ◌∷◌, ltb, length, if◌then◌else◌,
}
use tidis.Bytes.{Bytes, u64_be}
use tidis.Encoding.Score.{encode_txnkv_zset_data_value, decode_key_zset_data_value}
use tidis.Frame.{Frame, wrong_type, resp_int, as_i64}
use tidis.Config.{Settings}
use tidis.Version.{get_version_for_new}
use tidis.Txn.{Txn}
use tidis.Txn.Exec.{Exec, pure, raise, gets, unwrap, ◌>>=◌, ◌>>◌}
use tidis.Txn.Steps.{write, delete, collected}
use tidis.Lists.{respond}
use tidis.Collections
use tidis.Collections.{Opened, missing, other_type, expired, live, raise_size, meta_key}
use tidis.ZSets.{open_zset, member_key, score_key, zset_meta, f64_eq}

-- whether NX (`some false`) and XX (`some true`) let a member be written
abbrev pub wanted : Option Bool → Bool → Bool
wanted none is_there = true
wanted (some true) is_there = is_there
wanted (some false) is_there = not is_there

abbrev pub one_if : Bool → ℕ
one_if b = if b then 1 else 0

module _ (c : Settings) (T : Txn) where
  abbrev pub zset_member_keys : Bytes → ℕ → List (Bytes × ℕ) → List Bytes
  zset_member_keys key version [] = []
  zset_member_keys key version ((m, score) ∷ pairs) =
      member_key c T key version m ∷ zset_member_keys key version pairs

  -- a member that is there gets another score: its old key of the index goes
  unfoldable pub write_again : Bytes → ℕ → Bytes → ℕ → Bytes → Exec T.State Bool
  unfolding decode_key_zset_data_value encode_txnkv_zset_data_value
  write_again key version m score old = do
    old_score ← unwrap (decode_key_zset_data_value old)
    write T (member_key c T key version m) (encode_txnkv_zset_data_value score)
    let changed = not (f64_eq old_score score)
    if changed then delete T (score_key c T key version old_score m) else pure tt
    write T (score_key c T key version score m) m
    pure changed

  unfoldable pub write_first : Bytes → ℕ → Bytes → ℕ → Exec T.State (Unit {0})
  unfolding encode_txnkv_zset_data_value
  write_first key version m score = do
    write T (member_key c T key version m) (encode_txnkv_zset_data_value score)
    write T (score_key c T key version score m) m

  -- Whether a member is new, and whether its score changed; a new member counts as changed.
  unfoldable pub zadd_one :
      Bytes → ℕ → Option Bool → Bytes → ℕ → Option Bytes → Exec T.State (Bool × Bool)
  unfolding write_again write_first
  zadd_one key version exists m score none =
      if wanted exists false
      then (write_first key version m score >> pure (true, true))
      else pure (false, false)
  zadd_one key version exists m score (some old) =
      if wanted exists true
      then (do changed ← write_again key version m score old; pure (false, changed))
      else pure (false, false)

  -- the numbers of new members and of changed ones, from those so far
  unfoldable pub zadd_pairs :
      Bytes
      → ℕ
      → Option Bool
      → List (Bytes × Bytes)
      → List (Bytes × ℕ)
      → ℕ
      → ℕ
      → Exec T.State (ℕ × ℕ)
  unfolding zadd_one
  zadd_pairs key version exists found [] added updated = pure (added, updated)
  zadd_pairs key version exists found ((m, score) ∷ pairs) added updated = do
    (is_new, changed) ←
        zadd_one key version exists m score (collected found (member_key c T key version m))
    zadd_pairs key version exists found pairs (added + one_if is_new) (updated + one_if changed)

  unfoldable pub zadd_to :
      Bytes → List (Bytes × ℕ) → Option Bool → Bool → ℕ → Bool → ℕ → ℕ → Exec T.State ℕ
  unfolding zadd_pairs
  zadd_to key pairs exists changed_only idx expired_now ttl version = do
    found ← gets (λ s. T.batch_get s (zset_member_keys key version pairs))
    (added, updated) ← zadd_pairs key version exists found pairs 0 0
    if ltb 0 added then raise_size c T key version idx added else pure tt
    if expired_now then write T (meta_key c T key) (zset_meta c T ttl version) else pure tt
    pure (if changed_only then updated else added)

  unfoldable pub write_all : Bytes → ℕ → List (Bytes × ℕ) → Exec T.State (Unit {0})
  unfolding write_first
  write_all key version [] = pure tt
  write_all key version ((m, score) ∷ pairs) =
      write_first key version m score >> write_all key version pairs

  -- With XX no sorted set is made.
  unfoldable pub zadd_new : Bytes → List (Bytes × ℕ) → Option Bool → ℕ → ℕ → Exec T.State ℕ
  unfolding write_all
  zadd_new key pairs (some true) idx version = pure 0
  zadd_new key pairs _ idx version = do
    write_all key version pairs
    write T (Collections.size_key c T key version idx) (u64_be (length pairs))
    write T (meta_key c T key) (zset_meta c T 0 version)
    pure (length pairs)

  zadd_opened : Bytes → List (Bytes × ℕ) → Option Bool → Bool → ℕ → Opened → Exec T.State ℕ
  unfolding zadd_to zadd_new
  zadd_opened key pairs exists changed_only idx missing = do
    version ← get_version_for_new c T key
    zadd_new key pairs exists idx version
  zadd_opened key pairs exists changed_only idx other_type = raise wrong_type
  zadd_opened key pairs exists changed_only idx (expired ttl) = do
    version ← get_version_for_new c T key
    zadd_to key pairs exists changed_only idx true ttl version
  zadd_opened key pairs exists changed_only idx (live ttl version) =
      zadd_to key pairs exists changed_only idx false ttl version

  -- `do_async_txnkv_zadd`
  unfoldable pub zadd : ℕ → Bytes → List (Bytes × ℕ) → Option Bool → Bool → ℕ → Exec T.State Frame
  unfolding zadd_opened
  zadd now key pairs exists changed_only idx =
      respond (λ n. resp_int (as_i64 n))
        (do o ← open_zset c T now key; zadd_opened key pairs exists changed_only idx o)
