-- ===== src/Lists/Examples.antt =====
-- The list theorems at a concrete store, and tests of the commands.
use tidis.Base.{ℕ, ◌+◌, ◌≡◌, ◌∙◌, refl, sym, true, false, none, some, [], ◌∷◌, arith, leb}
use tidis.Base.Int.{pos, negsuc}
use tidis.Bytes.{Bytes}
use tidis.Frame.{resp_int, resp_bulk}
use tidis.Config.{
  Settings, key_is_expired, async_deletion_enabled_or_default, async_del_list_threshold_or_default,
}
use tidis.Version.{get_version_for_new}
use tidis.Txn.Exec.{ok}
use tidis.Txn.Store.{Table, store}
use tidis.Lists.{init_index, delete_list, list_del, meta_key, meta_value}
use tidis.Lists.Items.{Items, elem_at}
use tidis.Lists.Holds.{Holds, meta_written}
use tidis.Lists.Push.{push}
use tidis.Lists.Push.Laws.{PushDone, push-live, push_new}
use tidis.Lists.Push.Expired.{push_expired_lost}
use tidis.Lists.Access.{llen, lindex, lset}
use tidis.Lists.Access.Laws.{list_reads, lset_lem, SetDone}
use tidis.Lists.Trim.{ltrim}
use tidis.Lists.Trim.Laws.{ltrim_lem, TrimDone}
use tidis.Lists.Pop.{pop}
use tidis.Lists.Pop.Laws.{PopDone, pop_one_lem}
use tidis.Lists.Pop.Inverse.{pop-push}
use tidis.Lists.Delete.{list_del_lem, Deleted, delete_list-Deleted}

-- Lists are deleted at once, and every new list has version 0.
abbrev pub settings : Settings
settings = record {
  encoder = record { instance_id = (0, 1); meta_key_number = 10 };
  async_deletion = some false;
  list_threshold = none;
  hash_threshold = none;
  set_threshold = none;
  zset_threshold = none;
  hash_expire_threshold = none;
  set_expire_threshold = none;
  zset_expire_threshold = none;
}

abbrev pub name : Bytes
name = b'k' ∷ []

abbrev pub a : Bytes
a = b'a' ∷ []

abbrev b : Bytes
b = b'b' ∷ []

elem_at-none : (left j : ℕ) → elem_at left [] j ≡ none
elem_at-none left j = ground arith

no-Items : Items settings store [] name 0 init_index []
no-Items j h = sym (elem_at-none init_index j)

version_found : (s : Table) → get_version_for_new settings store name s ≡ (ok 0, s)
unfolding get_version_for_new async_deletion_enabled_or_default
version_found s = refl

push_new_example :
    PushDone settings store name
      (a ∷ b ∷ [])
      false
      0
      0
      init_index
      []
      (push settings store 7 name (a ∷ b ∷ []) false [])
push_new_example =
    push_new settings store 7 name (a ∷ b ∷ []) false 0 [] refl (version_found []) (omega arith)
      no-Items (omega arith)

-- The store in which the key holds the list of `a` and `b`.
abbrev stored : Table
stored = (push settings store 7 name (a ∷ b ∷ []) false []).1

holds : Holds settings store stored name 0 0 init_index (a ∷ b ∷ [])
holds =
    (push_new settings store 7 name (a ∷ b ∷ []) false 0 [] refl (version_found []) (omega arith)
      no-Items (omega arith)).1

fresh : key_is_expired 9 0 ≡ false
unfolding key_is_expired
fresh = refl

push-live_example :
    PushDone settings store name
      (b ∷ [])
      true
      0
      0
      init_index
      (a ∷ b ∷ [])
      (push settings store 9 name (b ∷ []) true stored)
push-live_example =
    push-live settings store 9 name (b ∷ []) true 0 0 init_index stored (a ∷ b ∷ []) holds fresh
      (omega arith) (omega arith)

pop_one_lem_example :
    PopDone settings store name 0 0 init_index b
      (a ∷ [])
      (pop settings store 9 name false (pos 1) stored)
pop_one_lem_example =
    pop_one_lem settings store 9 name false 0 0 init_index stored b (a ∷ []) holds fresh

pop-push_example :
    PopDone settings store name 0 0 init_index a
      (a ∷ b ∷ [])
      (pop settings store 9 name true (pos 1) (push settings store 9 name (a ∷ []) true stored).1)
pop-push_example =
    pop-push settings store 9 9 name a true 0 0 init_index stored (a ∷ b ∷ []) holds fresh fresh
      (omega arith) (omega arith)

list_reads_example :
    (llen settings store 9 name stored ≡ (ok (resp_int (pos 2)), stored))
    × (lindex settings store 9 name (negsuc 0) stored ≡ (ok (resp_bulk b), stored))
list_reads_example =
    list_reads settings store 9 name (negsuc 0) 0 0 init_index stored (a ∷ b ∷ []) holds fresh
      (omega arith)

lset_lem_example :
    SetDone settings store stored name a 0 0 init_index
      (a ∷ b ∷ [])
      (some 1)
      (lset settings store 9 name (pos 1) a stored)
lset_lem_example =
    lset_lem settings store 9 name (pos 1) a 0 0 init_index stored (a ∷ b ∷ []) holds fresh
      (omega arith)

ltrim_lem_example :
    TrimDone settings store name 1 1 0 0 init_index
      (a ∷ b ∷ [])
      true
      (ltrim settings store 9 name (pos 1) (negsuc 0) stored)
ltrim_lem_example =
    ltrim_lem settings store 9 name (pos 1) (negsuc 0) 0 0 init_index stored (a ∷ b ∷ []) holds
      (omega arith) fresh (omega arith) (omega arith)

list_del_lem_example :
    let (r, s') = list_del settings store name stored in
    (r ≡ ok 1)
    × Deleted settings store name 0 (leb (async_del_list_threshold_or_default settings) 2) s'
list_del_lem_example = list_del_lem settings store name 0 0 init_index stored (a ∷ b ∷ []) holds

-- The same list with an expiry, at 5.
abbrev expiring : Table
expiring =
    store.put stored (meta_key settings store name)
      (meta_value settings store 5 0 init_index (init_index + 2))

Holds-expiring : Holds settings store expiring name 5 0 init_index (a ∷ b ∷ [])
Holds-expiring =
    meta_written settings store stored name 5 0 init_index (a ∷ b ∷ []) (omega arith) (omega arith)
      (omega arith) holds.items

past : key_is_expired 9 5 ≡ true
unfolding key_is_expired
past = refl

abbrev emptied : Table
emptied = delete_list settings store name 0 2 expiring

short : leb (async_del_list_threshold_or_default settings) 2 ≡ false
unfolding async_del_list_threshold_or_default async_deletion_enabled_or_default
short = refl

none_left : Items settings store emptied name 0 init_index []
none_left j h =
    let gone = rw short at (delete_list-Deleted settings store name 0 2 expiring (omega arith)) in
    gone.1 j h ∙ elem_at-none 0 j ∙ sym (elem_at-none init_index j)

push_expired_lost_example :
    let (reply, s') = push settings store 9 name (b ∷ []) false expiring in
    (reply ≡ ok (resp_int (pos 1))) × ((llen settings store 9 name s').0 ≡ ok (resp_int (pos 0)))
push_expired_lost_example =
    push_expired_lost settings store 9 name (b ∷ []) false 5 0 0 init_index expiring (a ∷ b ∷ [])
      Holds-expiring past (version_found emptied) (omega arith) none_left (omega arith)
