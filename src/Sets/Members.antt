-- ===== src/Sets/Members.antt =====
-- SISMEMBER, SMISMEMBER and SMEMBERS of src/tikv/set.rs.
use tidis.Base.{
  ℕ, Bool, true, false, Option, none, some, List, [], ◌∷◌, map, length, if◌then◌else◌, replicate,
}
use tidis.Base.Int.{pos}
use tidis.Bytes.{Bytes}
use tidis.Encoding.Encode.{encode_txnkv_set_data_key_range}
use tidis.Encoding.Decode.{decode_item_from_datakey}
use tidis.Frame.{Frame, wrong_type, resp_err, resp_int, resp_bulk, resp_array}
use tidis.Config.{Settings}
use tidis.Txn.{Txn, contains, is_some, first}
use tidis.Txn.Exec.{Exec, panic, pure, gets, unwrap, ◌>>=◌}
use tidis.Txn.Steps.{read}
use tidis.Collections.{Opened, missing, other_type, expired, live}
use tidis.Sets.{open_set, member_key, member_keys, exists_reply}

-- the members behind data keys; `none` is the panic on a key that is too short
unfoldable pub members_of : Bytes → List Bytes → Option (List Bytes)
members_of key [] = some []
members_of key (k ∷ ks) = elim (decode_item_from_datakey key k) [
  | none ↦ none
  | some m ↦ elim (members_of key ks) [ none ↦ none | some ms ↦ some (m ∷ ms) ]
]

abbrev pub bulks : List Bytes → List Frame
bulks [] = []
bulks (m ∷ ms) = resp_bulk m ∷ bulks ms

-- whether each of the keys is among the pairs that were found
abbrev pub exists_replies : List Bytes → List Bytes → List Frame
exists_replies found [] = []
exists_replies found (k ∷ ks) = exists_reply (contains found k) ∷ exists_replies found ks

-- `vec![resp_int(0); member_len]`, or the integer alone
abbrev pub no_member : Bool → List Bytes → Frame
no_member true members = resp_array (replicate (length members) (resp_int (pos 0)))
no_member false members = resp_int (pos 0)

module _ (c : Settings) (T : Txn) where
  -- `members[0]` of no members panics
  abbrev pub sismember_one : Bytes → ℕ → List Bytes → Exec T.State Frame
  sismember_one key version [] = λ s. (panic, s)
  sismember_one key version (m ∷ ms) = do
    value ← read T (member_key c T key version m)
    pure (exists_reply (is_some value))

  abbrev pub sismember_all : Bytes → ℕ → List Bytes → Exec T.State Frame
  sismember_all key version members = do
    let keys = member_keys c T key version members
    found ← gets (λ s. T.batch_get s keys)
    pure (resp_array (exists_replies (map first found) keys))

  sismember_opened : Bytes → List Bytes → Bool → Opened → Exec T.State Frame
  sismember_opened key members resp_in_arr missing = pure (no_member resp_in_arr members)
  sismember_opened key members resp_in_arr other_type = pure (resp_err wrong_type)
  sismember_opened key members resp_in_arr (expired ttl) = pure (no_member resp_in_arr members)
  sismember_opened key members resp_in_arr (live ttl version) =
      if resp_in_arr then sismember_all key version members else sismember_one key version members

  -- `do_async_txnkv_sismember`, of SISMEMBER and SMISMEMBER
  unfoldable pub sismember : ℕ → Bytes → List Bytes → Bool → Exec T.State Frame
  unfolding sismember_opened
  sismember now key members resp_in_arr = do
    o ← open_set c T now key
    sismember_opened key members resp_in_arr o

  smembers_opened : Bytes → Opened → Exec T.State Frame
  unfolding members_of
  smembers_opened key missing = pure (resp_array [])
  smembers_opened key other_type = pure (resp_err wrong_type)
  smembers_opened key (expired ttl) = pure (resp_array [])
  smembers_opened key (live ttl version) = do
    keys ← gets (λ s. T.scan_keys s (encode_txnkv_set_data_key_range c.encoder key version))
    members ← unwrap (members_of key keys)
    pure (resp_array (bulks members))

  -- `do_async_txnkv_smembers`
  unfoldable pub smembers : ℕ → Bytes → Exec T.State Frame
  unfolding smembers_opened
  smembers now key = do o ← open_set c T now key; smembers_opened key o
