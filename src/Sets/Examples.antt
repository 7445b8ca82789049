-- ===== src/Sets/Examples.antt =====
-- The set theorems at a concrete store, and tests of the commands.
use tidis.Base.{◌≡◌, ◌∙◌, refl, true, false, [], ◌∷◌, arith, ltb}
use tidis.Base.Int.{pos, ltb_ℤ}
use tidis.Bytes.{Bytes, bytes_eq, u64_be}
use tidis.Bytes.Lex.{bytes_eq_refl}
use tidis.Encoding.{DataType}
use tidis.Encoding.Encode.{data_type_set, encode_txnkv_set_meta_value}
use tidis.Encoding.RoundTrip.Values.{stored_size, decode_key_meta-encode, decode_key_type-encode}
use tidis.Frame.{as_i64}
use tidis.Config.{
  key_is_expired, async_deletion_enabled_or_default, async_del_set_threshold_or_default,
  async_expire_set_threshold_or_default,
}
use tidis.Version.{get_version_for_new}
use tidis.Txn.{Distinct}
use tidis.Txn.Exec.{ok}
use tidis.Txn.Store.{Table, store}
use tidis.Lists.Examples.{settings, name, a}
use tidis.Collections.{meta_key, size_key}
use tidis.Collections.Holds.{Gone, sizes}
use tidis.Collections.Gone.{Items-put_meta, Gone-Items}
use tidis.Collections.Drop.{Dropped}
use tidis.Sets.{sadd, set_del}
use tidis.Sets.Remove.{srem}
use tidis.Sets.Add.{SetHolds, SetDone, set_apart, sadd_new_lem, sadd_live_lem}
use tidis.Sets.Take.{SetTaken, srem_lem}
use tidis.Sets.Drop.{set_del_lem, sadd_expired_lem, after_expiry, dropped-Dropped}

abbrev b : Bytes
b = b'b' ∷ []

abbrev d : Bytes
d = b'd' ∷ []

a_then_b : Distinct (a ∷ b ∷ [])
unfolding bytes_eq
a_then_b = (refl, (refl, tt))

a_then_d : Distinct (a ∷ d ∷ [])
unfolding bytes_eq
a_then_d = (refl, (refl, tt))

nothing_stored : Gone settings store data_type_set [] name 0
nothing_stored = record { meta = refl; absent = λ i. refl; no_sizes = refl }

version_found : (s : Table) → get_version_for_new settings store name s ≡ (ok 0, s)
unfolding get_version_for_new async_deletion_enabled_or_default
version_found s = refl

fresh : key_is_expired 9 0 ≡ false
unfolding key_is_expired
fresh = refl

sadd_new_lem_example :
    SetDone settings store name 2 0 0 (a ∷ b ∷ []) (sadd settings store 9 name (a ∷ b ∷ []) 3 [])
    × (store.scan (sadd settings store 9 name (a ∷ b ∷ []) 3 []).1 (sizes settings name 0)
        ≡ (size_key settings store name 0 3, u64_be 2) ∷ [])
sadd_new_lem_example =
    sadd_new_lem settings store 9 name (a ∷ b ∷ []) 3 0 [] (omega arith) nothing_stored
      (version_found []) (omega arith) a_then_b (omega arith) (omega arith)

-- The store in which the key holds the set of `a` and `b`.
abbrev stored : Table
stored = (sadd settings store 9 name (a ∷ b ∷ []) 3 []).1

holds : SetHolds settings store stored name 0 0 (a ∷ b ∷ [])
holds =
    (sadd_new_lem settings store 9 name (a ∷ b ∷ []) 3 0 [] (omega arith) nothing_stored
      (version_found []) (omega arith) a_then_b (omega arith) (omega arith)).0.1

sadd_live_lem_example :
    SetDone settings store name 1 0 0
      (d ∷ a ∷ b ∷ [])
      (sadd settings store 9 name (a ∷ d ∷ []) 5 stored)
unfolding bytes_eq
sadd_live_lem_example =
    sadd_live_lem settings store 9 name (a ∷ d ∷ []) (a ∷ b ∷ []) 5 0 0 stored holds fresh a_then_d
      (omega arith)

srem_lem_example :
    SetTaken settings store name 1 0 0 (b ∷ []) (srem settings store 9 name (a ∷ d ∷ []) 5 stored)
unfolding bytes_eq
srem_lem_example =
    srem_lem settings store 9 name (a ∷ d ∷ []) (a ∷ b ∷ []) 5 0 0 stored holds fresh a_then_d

set_del_lem_example :
    let (reply, s') = set_del settings store name stored in
    (reply ≡ ok 1)
    × Dropped settings store DataType.set data_type_set set_apart name 0 holds.version_lt
        (ltb (async_del_set_threshold_or_default settings) 2)
        s'
set_del_lem_example = set_del_lem settings store name 0 0 stored (a ∷ b ∷ []) holds

-- The same set with an expiry, at 5.
abbrev expiring_meta : Bytes
expiring_meta = encode_txnkv_set_meta_value settings.encoder 5 0 0

abbrev expiring : Table
expiring = store.put stored (meta_key settings store name) expiring_meta

Holds-expiring : SetHolds settings store expiring name 5 0 (a ∷ b ∷ [])
Holds-expiring = record {
  value = expiring_meta;
  index = stored_size settings.encoder 0;
  meta =
      store.get-put stored (meta_key settings store name) expiring_meta
        (meta_key settings store name)
      ∙ rw (bytes_eq_refl (meta_key settings store name)) refl;
  typed = (decode_key_type-encode settings.encoder [] 5 0 0 0 0).3;
  decoded =
      (decode_key_meta-encode settings.encoder 5 0 0 (omega arith) (omega arith) (omega arith)
        (omega arith)).1;
  inside =
      Items-put_meta settings store data_type_set set_apart name 0 (omega arith) stored (a ∷ b ∷ [])
        expiring_meta holds.inside;
  version_lt = omega arith;
  filled = omega arith;
  room = omega arith;
}

past : key_is_expired 9 5 ≡ true
unfolding key_is_expired
past = refl

abbrev emptied : Table
emptied = after_expiry settings store name 0 2 expiring

small : ltb_ℤ (pos (async_expire_set_threshold_or_default settings)) (as_i64 2) ≡ false
unfolding async_expire_set_threshold_or_default async_deletion_enabled_or_default as_i64
small = refl

gone : Gone settings store data_type_set emptied name 0
gone = rw small at (
    dropped-Dropped settings store (async_expire_set_threshold_or_default settings) name 0
      (omega arith) 2 expiring)

sadd_expired_lem_example :
    SetDone settings store name 1 0 0 (d ∷ []) (sadd settings store 9 name (d ∷ []) 5 expiring)
sadd_expired_lem_example =
    sadd_expired_lem settings store 9 name (d ∷ []) (a ∷ b ∷ []) 5 5 0 0 expiring (omega arith)
      Holds-expiring past
      (
        version_found emptied,
        Gone-Items settings store data_type_set set_apart name 0 (omega arith) emptied gone,
      )
      (omega arith) (refl, tt) (omega arith) (omega arith)
