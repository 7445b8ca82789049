-- ===== src/ZSets/Look.antt =====
-- ZSCORE, ZRANK, ZCOUNT and ZRANGE of src/tikv/zset.rs. `show` is the `to_string` of an f64.
use tidis.Base.{
  ℕ, ◌+◌, Bool, true, false, Option, none, some, List, [], ◌∷◌, ◌++◌, length, take, if◌then◌else◌,
}
use tidis.Base.Int.{ℤ, pos, ltb_ℤ}
use tidis.Bytes.{Bytes, bytes_eq}
use tidis.Encoding.{DataType}
use tidis.Encoding.Encode.{KeyRange}
use tidis.Encoding.Score.{
  f64_ltb, decode_key_zset_data_value, decode_key_zset_score_from_scorekey,
  encode_txnkv_zset_score_key_range, encode_txnkv_zset_score_key_score_start,
  encode_txnkv_zset_score_key_score_end,
}
use tidis.Frame.{
  Frame, wrong_type, resp_err, resp_int, resp_nil, resp_bulk, resp_array, as_i64, sub_i64,
}
use tidis.Config.{Settings}
use tidis.Txn.{Txn}
use tidis.Txn.Exec.{Exec, pure, gets, unwrap, ◌>>=◌}
use tidis.Txn.Steps.{read}
use tidis.Lists.{from_end}
use tidis.Collections.{Opened, missing, other_type, expired, live, txnkv_sum_key_size}
use tidis.ZSets.{open_zset, member_key, score_key}

-- the number of keys before a key
abbrev pub position : Bytes → List Bytes → ℕ
position k [] = 0
position k (j ∷ js) = let rest = position k js in if bytes_eq j k then 0 else rest + 1

-- The pairs from the index `min` up to `max`, both counted from `i`.
unfoldable pub between : ℕ → ℤ → ℤ → List (Bytes × Bytes) → List (Bytes × Bytes)
between i min max [] = []
between i min max (p ∷ ps) =
    let rest = between (i + 1) min max ps in
    if ltb_ℤ (pos i) min then rest else if ltb_ℤ max (pos i) then [] else p ∷ rest

-- The replies to the pairs of the index; with `reverse` each is inserted before those so far. `none` is
-- the panic on a key that is too short.
unfoldable pub range_replies :
    (ℕ → Bytes) → Bytes → Bool → Bool → List (Bytes × Bytes) → List Frame → Option (List Frame)
range_replies show key with_scores reverse [] resp = some resp
range_replies show key false true ((k, m) ∷ ps) resp =
    range_replies show key false true ps (resp_bulk m ∷ resp)
range_replies show key false false ((k, m) ∷ ps) resp =
    range_replies show key false false ps (resp ++ resp_bulk m ∷ [])
range_replies show key true reverse ((k, m) ∷ ps) resp =
    elim (decode_key_zset_score_from_scorekey key k) [
      | none ↦ none
      | some score ↦
          let rest = range_replies show key true reverse ps (
            if reverse
            then resp_bulk m ∷ resp_bulk (show score) ∷ resp
            else resp ++ resp_bulk m ∷ resp_bulk (show score) ∷ []) in
          rest
    ]

module _ (c : Settings) (T : Txn) where
  abbrev pub zscore_reply : (ℕ → Bytes) → Option Bytes → Exec T.State Frame
  zscore_reply show none = pure resp_nil
  zscore_reply show (some v) = do
    score ← unwrap (decode_key_zset_data_value v)
    pure (resp_bulk (show score))

  zscore_opened : (ℕ → Bytes) → Bytes → Bytes → Opened → Exec T.State Frame
  unfolding decode_key_zset_data_value
  zscore_opened show key m missing = pure resp_nil
  zscore_opened show key m other_type = pure (resp_err wrong_type)
  zscore_opened show key m (expired ttl) = pure resp_nil
  zscore_opened show key m (live ttl version) = do
    value ← read T (member_key c T key version m)
    zscore_reply show value

  -- `do_async_txnkv_zcore`
  unfoldable pub zscore : (ℕ → Bytes) → ℕ → Bytes → Bytes → Exec T.State Frame
  unfolding zscore_opened
  zscore show now key m = do o ← open_zset c T now key; zscore_opened show key m o

  abbrev pub zrank_reply : Bytes → ℕ → Bytes → Option Bytes → Exec T.State Frame
  zrank_reply key version m none = pure resp_nil
  zrank_reply key version m (some v) = do
    score ← unwrap (decode_key_zset_data_value v)
    ks ← gets (λ s. T.scan_keys s (encode_txnkv_zset_score_key_range c.encoder key version))
    pure (resp_int (pos (position (score_key c T key version score m) ks)))

  zrank_opened : Bytes → Bytes → Opened → Exec T.State Frame
  unfolding decode_key_zset_data_value
  zrank_opened key m missing = pure resp_nil
  zrank_opened key m other_type = pure (resp_err wrong_type)
  zrank_opened key m (expired ttl) = pure resp_nil
  zrank_opened key m (live ttl version) = do
    value ← read T (member_key c T key version m)
    zrank_reply key version m value

  -- `do_async_txnkv_zrank`
  unfoldable pub zrank : ℕ → Bytes → Bytes → Exec T.State Frame
  unfolding zrank_opened
  zrank now key m = do o ← open_zset c T now key; zrank_opened key m o

  abbrev pub inclusive : Bytes → Bytes → KeyRange
  inclusive start stop = record { start = start; stop = stop; inclusive = true }

  zcount_opened : Bytes → ℕ → Bool → ℕ → Bool → Opened → Exec T.State Frame
  unfolding f64_ltb
  zcount_opened key min min_inclusive max max_inclusive missing = pure (resp_int (pos 0))
  zcount_opened key min min_inclusive max max_inclusive other_type = pure (resp_err wrong_type)
  zcount_opened key min min_inclusive max max_inclusive (expired ttl) = pure (resp_array [])
  zcount_opened key min min_inclusive max max_inclusive (live ttl version) =
      if f64_ltb max min then pure (resp_int (pos 0)) else (do
        let start = encode_txnkv_zset_score_key_score_start c.encoder key min min_inclusive version
        let stop = encode_txnkv_zset_score_key_score_end c.encoder key max max_inclusive version
        pairs ← gets (λ s. T.scan s (inclusive start stop))
        pure (resp_int (as_i64 (length pairs))))

  -- `do_async_txnkv_zcount`
  unfoldable pub zcount : ℕ → Bytes → ℕ → Bool → ℕ → Bool → Exec T.State Frame
  unfolding zcount_opened
  zcount now key min min_inclusive max max_inclusive = do
    o ← open_zset c T now key
    zcount_opened key min min_inclusive max max_inclusive o

  zrange_live : (ℕ → Bytes) → Bytes → ℤ → ℤ → Bool → Bool → ℕ → ℤ → ℤ → ℕ → Exec T.State Frame
  unfolding between range_replies
  zrange_live show key min max with_scores reverse version first last size = do
    pairs ← gets (λ s. T.scan s (encode_txnkv_zset_score_key_range c.encoder key version))
    frames ←
        unwrap
          (range_replies show key with_scores reverse (between 0 first last (take size pairs)) [])
    pure (resp_array frames)

  zrange_opened : (ℕ → Bytes) → Bytes → ℤ → ℤ → Bool → Bool → Opened → Exec T.State Frame
  unfolding zrange_live txnkv_sum_key_size from_end
  zrange_opened show key min max with_scores reverse missing = pure (resp_array [])
  zrange_opened show key min max with_scores reverse other_type = pure (resp_err wrong_type)
  zrange_opened show key min max with_scores reverse (expired ttl) = pure (resp_array [])
  zrange_opened show key min max with_scores reverse (live ttl version) = do
    size ← txnkv_sum_key_size c T DataType.zset key version
    let lo = from_end min size
    let hi = from_end max size
    let n = as_i64 size
    if reverse
        then zrange_live show key min max with_scores reverse version
            (sub_i64 (sub_i64 n hi) (pos 1)) (sub_i64 (sub_i64 n lo) (pos 1)) size
        else zrange_live show key min max with_scores reverse version lo hi size

  -- `do_async_txnkv_zrange`, of ZRANGE and ZREVRANGE
  unfoldable pub zrange : (ℕ → Bytes) → ℕ → Bytes → ℤ → ℤ → Bool → Bool → Exec T.State Frame
  unfolding zrange_opened
  zrange show now key min max with_scores reverse = do
    o ← open_zset c T now key
    zrange_opened show key min max with_scores reverse o
