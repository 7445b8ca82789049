-- ===== src/Strings/Examples.antt =====
-- The string theorems at a concrete store, and tests of the commands.
use tidis.Base.{◌≡◌, refl, false, [], ◌∷◌, arith}
use tidis.Base.Int.{pos, negsuc}
use tidis.Bytes.{Bytes, bytes_eq}
use tidis.Frame.{resp_ok, resp_int, resp_bulk, resp_nil, resp_array, as_i64, add_i64}
use tidis.Config.{key_is_expired}
use tidis.Numbers.{to_string}
use tidis.Txn.Exec.{ok}
use tidis.Txn.Store.{Table, store}
use tidis.Lists.Examples.{settings, name, a}
use tidis.Strings.{string_key, string_value, get, strlen, put, incr}
use tidis.Strings.Laws.{StringHolds, Written, get-put, put-StringHolds, put-other}
use tidis.Strings.Counter.{Integer, held, incr_lem}
use tidis.Strings.Batch.{batch_get}
use tidis.Strings.Many
use tidis.Strings.Many.{Text, Gets, absent, batch_get-get}

abbrev b : Bytes
b = b'b' ∷ []

fresh : key_is_expired 9 0 ≡ false
unfolding key_is_expired
fresh = refl

get-put_example :
    let (reply, s') = put settings store name a 0 [] in
    (reply ≡ ok resp_ok)
    × Written settings store [] name a 0 s'
    × (get settings store 9 name s' ≡ (ok (resp_bulk a), s'))
    × (strlen settings store 9 name s' ≡ (ok (resp_int (as_i64 1)), s'))
get-put_example = get-put settings store 9 name a 0 [] (omega arith) fresh

-- The store in which the key holds 41.
abbrev stored : Table
stored =
    store.put [] (string_key settings store name)
      (string_value settings store (to_string (pos 41)) 0)

holds : StringHolds settings store stored name (to_string (pos 41)) 0
holds = put-StringHolds settings store name (to_string (pos 41)) 0 [] (omega arith)

incr_lem_example :
    let next = add_i64 (pos 41) (negsuc 99) in
    let (reply, s') = incr settings store 9 name (negsuc 99) stored in
    (reply ≡ ok (resp_int next))
    × Written settings store stored name (to_string next) 0 s'
    × Integer settings store s' 9 name next
incr_lem_example =
    incr_lem settings store 9 name (pos 41) (negsuc 99) stored (held 0 holds fresh (omega arith))

apart : bytes_eq name b ≡ false
unfolding bytes_eq
apart = refl

batch_get-get_example :
    (batch_get settings store 9 (name ∷ b ∷ []) stored
      ≡ (ok (resp_array (resp_bulk (to_string (pos 41)) ∷ resp_nil ∷ [])), stored))
    × Gets settings store 9 stored ((name, resp_bulk (to_string (pos 41))) ∷ (b, resp_nil) ∷ [])
unfolding bytes_eq
batch_get-get_example =
    batch_get-get settings store 9 stored
      ((name, resp_bulk (to_string (pos 41))) ∷ (b, resp_nil) ∷ []) (refl, (refl, tt))
      (
        Many.held (to_string (pos 41)) 0 holds fresh refl,
        (
          absent
              (put-other settings store name b (string_value settings store (to_string (pos 41)) 0)
                [] apart)
              refl,
          tt,
        ),
      )
