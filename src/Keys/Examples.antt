-- ===== src/Keys/Examples.antt =====
-- The theorem on EXPIRE and TTL at a concrete store.
use tidis.Base.{◌≡◌, refl, false, arith}
use tidis.Base.Int.{pos}
use tidis.Bytes.{Bytes, bytes_eq}
use tidis.Frame.{resp_int}
use tidis.Config.{key_is_expired}
use tidis.Txn.Exec.{ok}
use tidis.Txn.Store.{store}
use tidis.Lists.Examples.{settings, name}
use tidis.Strings.{string_key}
use tidis.ZSets.Examples.{stored, first_set, holds}
use tidis.Keys.{expire, ttl_of}
use tidis.Keys.Holds.{zset, Held}
use tidis.Keys.Expiry.{ttl_of-expire}

Holds-zset : Held settings store stored name 0 (zset 0 first_set 2)
unfolding Held
Holds-zset = holds

fresh : key_is_expired 9 0 ≡ false
unfolding key_is_expired
fresh = refl

fresh_at_7000 : key_is_expired 7000 9000 ≡ false
unfolding key_is_expired
fresh_at_7000 = refl

ttl_of-expire_example :
    let (reply, s') = expire settings store 9 name 9000 stored in
    (reply ≡ ok (resp_int (pos 1)))
    × Held settings store s' name 9000 (zset 0 first_set 2)
    × ((other : Bytes)
        → bytes_eq name other ≡ false
        → store.get s' (string_key settings store other)
          ≡ store.get stored (string_key settings store other))
    × (ttl_of settings store 7000 name false s' ≡ (ok (resp_int (pos 2)), s'))
ttl_of-expire_example =
    ttl_of-expire settings store 9 7000 9000 0 false name (zset 0 first_set 2) stored Holds-zset
      fresh refl fresh_at_7000 (omega arith) (omega arith) (omega arith)
