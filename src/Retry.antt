-- ===== src/Retry.antt =====
-- `exec_in_txn` of src/tikv/client.rs: the loop that begins a transaction, calls the command's closure
-- in it, and commits. The client is `tikv_client`, which is not part of this repository: its calls,
-- and the closure, are functions on the state of the world.
pub mod Laws
pub mod Examples
use tidis.Base.{
  ℕ, zero, suc, ◌+◌, ◌*◌, min, Bool, true, false, Option, none, some, ◌⊎◌, inl, inr, ◌==◌,
  if◌then◌else◌,
}
use Prim.Native.String.{String}
use tidis.Bytes.{Bytes}
use tidis.Frame.{Error}

-- `tikv_client::Error`, as far as the loop tells its variants apart
pub data TikvError : Type 0 where
  region_error entry_not_found_in_region_cache kv_error multiple_key_errors : TikvError
  pessimistic_lock_error other_error : TikvError
  string_error : (message : String) → TikvError

pub data RtError : Type 0 where
  tikv_client : TikvError → RtError
  fixed : Error → RtError
  owned : Bytes → RtError

unfoldable pub error_retryable : TikvError → Bool
error_retryable TikvError.region_error = true
error_retryable TikvError.entry_not_found_in_region_cache = true
error_retryable TikvError.kv_error = true
error_retryable TikvError.multiple_key_errors = true
error_retryable TikvError.pessimistic_lock_error = true
error_retryable TikvError.other_error = false
error_retryable (TikvError.string_error message) = false

-- the error after the loop
abbrev pub retry_count_exceeded : RtError
retry_count_exceeded = tikv_client (TikvError.string_error "retry count exceeded")

pub record Client (World Txn A : Type 0) : Type 0 where
  pub begin : World → (TikvError ⊎ Txn) × World
  pub call : Txn → World → (RtError ⊎ A) × World
  pub commit : Txn → World → Option TikvError × World
  pub rollback : Txn → World → Option TikvError × World
  pub sleep : ℕ → World → World

module _ {World Txn A : Type 0} (client : Client World Txn A) where
  -- The end of a round in which an error can be retried; `retries` are left and `again` goes on.
  retry : TikvError → ℕ → (World → (RtError ⊎ A) × World) → World → (RtError ⊎ A) × World
  retry e retries again w = elim (retries == 0) [
    | true ↦ (inl (tikv_client e), w)
    | false ↦ again w
  ]

  after_commit :
      A → ℕ → ℕ → (World → (RtError ⊎ A) × World) → Option TikvError × World → (RtError ⊎ A) × World
  unfolding retry error_retryable
  after_commit result retries retry_count again (none, w) = (inr result, w)
  after_commit result retries retry_count again (some e, w) = elim (error_retryable e) [
    | true ↦ retry e retries again w
    | false ↦ again (client.sleep (min (2 + retry_count * 10) 200) w)
  ]

  after_rollback :
      RtError
      → ℕ
      → (World → (RtError ⊎ A) × World)
      → Option TikvError × World
      → (RtError ⊎ A) × World
  unfolding retry error_retryable
  after_rollback e retries again (some failure, w) = (inl (tikv_client failure), w)
  after_rollback (tikv_client e) retries again (none, w) = elim (error_retryable e) [
    | true ↦ retry e retries again w
    | false ↦ (inl (tikv_client e), w)
  ]
  after_rollback (fixed e) retries again (none, w) = (inl (fixed e), w)
  after_rollback (owned e) retries again (none, w) = (inl (owned e), w)

  after_call :
      Txn → ℕ → ℕ → (World → (RtError ⊎ A) × World) → (RtError ⊎ A) × World → (RtError ⊎ A) × World
  unfolding after_commit after_rollback
  after_call txn retries retry_count again (inr result, w) =
      after_commit result retries retry_count again (client.commit txn w)
  after_call txn retries retry_count again (inl e, w) =
      after_rollback e retries again (client.rollback txn w)

  after_begin :
      ℕ → ℕ → (World → (RtError ⊎ A) × World) → (TikvError ⊎ Txn) × World → (RtError ⊎ A) × World
  unfolding retry after_call
  after_begin retries retry_count again (inl e, w) = retry e retries again w
  after_begin retries retry_count again (inr txn, w) =
      after_call txn retries retry_count again (client.call txn w)

  -- `while self.retries > 0`, and the error after the loop
  attempts : ℕ → ℕ → World → (RtError ⊎ A) × World
  unfolding after_begin
  attempts zero retry_count w = (inl retry_count_exceeded, w)
  attempts (suc retries) retry_count w =
      after_begin retries (suc retry_count) (attempts retries (suc retry_count)) (client.begin w)

  -- Inside a transaction that is given, the closure is only called.
  unfoldable pub exec_in_txn : ℕ → Option Txn → World → (RtError ⊎ A) × World
  unfolding attempts
  exec_in_txn retries (some txn) w = client.call txn w
  exec_in_txn retries none w = attempts retries 0 w
