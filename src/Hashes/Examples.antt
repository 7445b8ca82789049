-- ===== src/Hashes/Examples.antt =====
-- The hash theorems at a concrete store, and tests of the numbers that HINCRBY reads and writes.
use tidis.Base.{◌≡◌, ◌∙◌, refl, false, none, some, [], ◌∷◌, arith}
use tidis.Base.Int.{pos, negsuc}
use tidis.Bytes.{Bytes, bytes_eq, u64_be}
use tidis.Bytes.Lex.{bytes_eq_refl}
use tidis.Encoding.Encode.{data_type_hash}
use tidis.Encoding.RoundTrip.Values.{stored_size, decode_key_meta-encode, decode_key_type-encode}
use tidis.Frame.{resp_int, add_i64}
use tidis.Config.{key_is_expired}
use tidis.Txn.Exec.{ok}
use tidis.Txn.Steps.{put_all}
use tidis.Txn.Store.{Table, store}
use tidis.Lists.Examples.{settings, name, a}
use tidis.Collections.{meta_key, size_key}
use tidis.Collections.Holds.{Gone}
use tidis.Collections.Gone.{made_new}
use tidis.Hashes.{field_key, field_pairs, hash_meta, hset}
use tidis.Hashes.Fields.{hlen}
use tidis.Numbers.{to_string, parse_i64}
use tidis.Hashes.Change.{hdel, hincrby}
use tidis.Hashes.Laws.{HashHolds, hash_apart, hincrby_uncounted}
use tidis.Hashes.Take.{HashTaken, hdel_lem}
use tidis.Hashes.Put.{HsetDone, hget-hset, first-field_pairs}

abbrev b : Bytes
b = b'b' ∷ []

nothing_stored : Gone settings store data_type_hash [] name 0
nothing_stored = record { meta = refl; absent = λ i. refl; no_sizes = refl }

-- The store in which the key holds a hash of the field `a`, with one counter.
abbrev stored : Table
stored =
    store.put
      (store.put (put_all store (field_pairs settings store name 0 ((a, b) ∷ [])) [])
        (meta_key settings store name) (hash_meta settings store 0 0))
      (size_key settings store name 0 3) (u64_be 1)

holds : HashHolds settings store stored name 0 0 (a ∷ [])
holds =
    let (items, meta, _) =
      made_new settings store data_type_hash hash_apart name 0 (omega arith) []
        (field_pairs settings store name 0 ((a, b) ∷ [])) (a ∷ []) (hash_meta settings store 0 0) 3
        nothing_stored (first-field_pairs settings store name 0 ((a, b) ∷ [])) (refl, tt)
        (omega arith) in
    record {
      value = hash_meta settings store 0 0;
      index = stored_size settings.encoder 10;
      meta = meta;
      typed = (decode_key_type-encode settings.encoder [] 0 0 0 0 10).1;
      decoded =
          (decode_key_meta-encode settings.encoder 0 0 10 (omega arith) (omega arith) (omega arith)
            (omega arith)).0;
      inside = items;
      version_lt = omega arith;
      filled = omega arith;
      room = omega arith;
    }

fresh : key_is_expired 9 0 ≡ false
unfolding key_is_expired
fresh = refl

hget-hset_example :
    HsetDone settings store 9 name
      ((b, a) ∷ [])
      0
      0
      (a ∷ [])
      stored
      (hset settings store 9 name ((b, a) ∷ []) false false 3 stored)
hget-hset_example =
    hget-hset settings store 9 name ((b, a) ∷ []) 3 0 0 stored (a ∷ []) holds fresh (refl, tt)
      (omega arith)

hdel_lem_example :
    HashTaken settings store name 1 0 0 [] (hdel settings store 9 name (a ∷ []) 3 stored)
unfolding bytes_eq
hdel_lem_example =
    hdel_lem settings store 9 name (a ∷ []) (a ∷ []) 3 0 0 stored holds fresh (refl, tt)

counter : store.get stored (size_key settings store name 0 3) ≡ some (u64_be 1)
counter =
    store.get-put
      (store.put (put_all store (field_pairs settings store name 0 ((a, b) ∷ [])) [])
        (meta_key settings store name) (hash_meta settings store 0 0))
      (size_key settings store name 0 3) (u64_be 1) (size_key settings store name 0 3)
    ∙ rw (bytes_eq_refl (size_key settings store name 0 3)) refl

hincrby_uncounted_example :
    let (reply, s') = hincrby settings store false 9 name b (pos 5) 3 stored in
    (reply ≡ ok (resp_int (add_i64 (pos 0) (pos 5))))
    × (store.get s' (field_key settings store name 0 b)
        ≡ some (to_string (add_i64 (pos 0) (pos 5))))
    × (hlen settings store 9 name s' ≡ (ok (resp_int (pos 1)), s'))
unfolding bytes_eq
hincrby_uncounted_example =
    hincrby_uncounted settings store false 9 name b (pos 5) 3 0 0 1 stored (a ∷ []) holds fresh refl
      counter (omega arith)

reads_negative : parse_i64 (b'-' ∷ b'1' ∷ b'2' ∷ []) ≡ some (negsuc 11)
unfolding parse_i64
reads_negative = refl

refuses_space : parse_i64 (b'1' ∷ b' ' ∷ []) ≡ none
unfolding parse_i64
refuses_space = refl

writes_negative : to_string (negsuc 11) ≡ b'-' ∷ b'1' ∷ b'2' ∷ []
unfolding to_string
writes_negative = refl
