-- ===== src/Lib.antt =====
-- tidis is a server that speaks the Redis protocol and keeps its data in TiKV. A connection reads
-- frames (src/frame.rs, src/connection.rs), a command takes its arguments off a frame (src/parse.rs,
-- src/cmd), and src/tikv executes it in a transaction: every Redis key has a meta value, which gives
-- its type, its expiry and a version, and the elements of a collection stand under data keys that hold
-- the user key, the version and the element's field, index or score (src/tikv/encoding). A command on
-- a key that has expired deletes the key first. A large collection is deleted by the garbage
-- collection: only its version is recorded, and a new collection takes another version.
--
-- The files:
--   Base          numbers, Booleans, lists and signed integers for the other files
--   Bytes         byte strings, big endian words and the order in which TiKV keeps its keys
--   Encoding      src/tikv/encoding: Groups is `encode_bytes` and `decode_bytes`, Encode and Decode are
--                 the methods of KeyEncoder and KeyDecoder, Score the encoding of floating point
--                 scores. Encoding/Groups/Slots is a reference form of the byte encoding.
--   Frame         the reply frames of src/frame.rs, src/utils.rs and src/tikv/errors.rs. Frame/Wire is
--                 the reader of src/frame.rs.
--   Connection    `parse_frame` of src/connection.rs
--   Txn           the operations of a transaction that the commands call, as a record of functions and
--                 of the laws they keep. The transaction is code of the TiKV client, and the
--                 theorems take any such record. Txn/Exec is the effect of a command: a state, and a reply,
--                 an error or a panic; the state is that of the open transaction, which `exec_in_txn`
--                 rolls back where a closure ends in an error. Txn/Scan is what a write and a deletion do to the pairs
--                 of a range, Txn/Steps and Txn/Batch the loops over keys, and Txn/Store an
--                 instance for the examples.
--   Retry         `exec_in_txn` of src/tikv/client.rs: the loop that begins, runs and commits.
--   Config        the settings that decide how a key is deleted, and the clock
--   Version       `get_version_for_new` of src/tikv/client.rs
--   Lists         src/tikv/list.rs: LPUSH, RPUSH, LPOP, RPOP, LLEN, LINDEX, LSET, LTRIM and the deletion
--                 of a list. A list is the elements at the indices from `left` up to `right`, and
--                 Lists/Holds says when a state holds a list of the Redis view.
--   Collections   what src/tikv/hash.rs and src/tikv/set.rs share: a meta value, one data key for each
--                 item, and counters under sub meta keys that add up to the number of the items.
--                 Collections/Holds says when a state holds given items: each has a data key, no other
--                 has one, and the counters add up to their number. Collections/Changes, Taken, Gone and
--                 Drop are what writing, deleting and dropping items does to that.
--   Sets          src/tikv/set.rs: SADD, SCARD, SISMEMBER, SMISMEMBER, SMEMBERS, SREM, SPOP and the
--                 deletion and expiry of a set. The index of the counter that a command changes is an
--                 argument; the source takes it from `gen_next_meta_index`.
--   Hashes        src/tikv/hash.rs: HSET, HMSET, HSETNX, HGET, HSTRLEN, HEXISTS, HMGET, HLEN, HGETALL, HKEYS,
--                 HVALS, HDEL, HINCRBY and the deletion and expiry of a hash. Hashes/Put is on HSET and
--                 HGET, Hashes/Take on HDEL, Hashes/Laws on the counters under HINCRBY.
--   Numbers       how Rust's standard library prints and reads an i64, which HINCRBY and INCR call
--   Strings       src/tikv/string.rs: GET, STRLEN, TYPE, SET, SETNX, INCR, and in Strings/Batch MGET, MSET and
--                 EXISTS. Strings/Laws is on SET and GET, Strings/Counter on INCR, Strings/Many on MGET.
--                 Where GET, STRLEN, TYPE, MGET or EXISTS runs outside MULTI, its transaction is never
--                 committed, and the deletion of an expired key is seen by that transaction alone.
--   ZSets         src/tikv/zset.rs: the deletion and expiry of a sorted set and ZCARD; Put is ZADD, Look is
--                 ZSCORE, ZRANK, ZCOUNT and ZRANGE, Remove is ZREM, ZPOPMIN and ZPOPMAX. A sorted set is a
--                 function from members to scores; ZSets/Index says when a state holds it under the
--                 data keys and in the index by score, and Write, One, Add, Raise and New are what ZADD
--                 does to that.
--   Keys          EXPIRE, PERSIST, TTL and DEL of src/tikv/string.rs, on keys of every type. Keys/Holds says
--                 what a key holds apart from its expiry: a string, fields with values, members,
--                 members with scores, or elements. Keys/Rewrite is that another expiry leaves it there.
--
-- The types. A byte is a natural number, and `u8`, `u16` and `u64` are natural numbers with their
-- wrap-around written out; the results on encoding and decoding state the widths as hypotheses, and
-- where they do not, the encoder cuts the number. `i64` is a signed integer. `f64` is its bit pattern.
-- Rust's panics on a missing value are `panic`, and a decoder that would panic gives `none`. The index
-- arithmetic of the lists is that of a release build, which wraps around; the theorems on lists keep
-- the indices below 2 ^ 63, where the signed and the unsigned reading agree. TiKV keeps its state
-- behind the functions of Txn; the order of the pairs of `batch_get` is left open, as the client
-- leaves it open, and so is its result for keys that are repeated: the theorems on sets, sorted sets
-- and MGET take different members and keys. A reverse scan gives the keys of a scan from its end. The
-- printing of an f64 is a parameter, `show`. A counter is an i64 and its sum wraps around; a set has fewer than 2 ^ 63 members.
--
-- Loops are structural. The loops over encoded bytes run on the length of their input, which is more
-- than the number of their groups; the reader of frames runs on a depth that bounds how deeply arrays
-- are nested, one more than the bytes there are, as every level takes at least one byte, while the
-- stack of the thread, on which the source recurses, is outside the model; the retry
-- loop runs on the number of retries that are left. The search for a version has no loop: it tries one
-- version and is refused if that one is taken.
--
-- Not modelled: LRANGE, LINSERT, LREM, which scan the data keys in order; ZRANGEBYSCORE, ZINCRBY and the
-- ZREMRANGE commands; SRANDMEMBER, which draws random positions; SCAN, FLUSHDB and the raw commands, which
-- call the client directly; the garbage collection's workers; the parsing of the single commands;
-- pub/sub, Lua scripts, MULTI, the cluster view, metrics, the sockets, TLS and the configuration file.
pub mod Base
pub mod Bytes
pub mod Encoding
pub mod Frame
pub mod Txn
pub mod Config
pub mod Version
pub mod Lists
pub mod Collections
pub mod Connection
pub mod Hashes
pub mod Keys
pub mod Numbers
pub mod Retry
pub mod Sets
pub mod Strings
pub mod ZSets
