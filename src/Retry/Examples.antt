-- ===== src/Retry/Examples.antt =====
-- Examples of the retry loop: a world that counts the calls of the closure.
use tidis.Base.{ℕ, suc, false, ◌==◌, if◌then◌else◌, ◌≡◌, refl, Option, none, some, inl, inr}
use tidis.Retry.{TikvError, tikv_client, retry_count_exceeded, Client, exec_in_txn, error_retryable}
use tidis.Retry.Laws.{Committed, exec_in_txn-Committed, exec_in_txn-commit_error}

-- The third commit of this client is the first to succeed.
abbrev commit_third : ℕ → Option TikvError
commit_third w = if w == 3 then none else some TikvError.region_error

abbrev third : Client ℕ Unit ℕ
third = record {
  begin = λ w. (inr tt, w);
  call = λ txn w. (inr w, suc w);
  commit = λ txn w. (commit_third w, w);
  rollback = λ txn w. (none, w);
  sleep = λ ms w. w;
}

third_time : exec_in_txn third 5 none 0 ≡ (inr 2, 3)
unfolding exec_in_txn
third_time = refl

two_times : exec_in_txn third 2 none 0 ≡ (inl (tikv_client TikvError.region_error), 2)
unfolding exec_in_txn
two_times = refl

exec_in_txn-Committed_example : Committed third (exec_in_txn third 5 none 0)
exec_in_txn-Committed_example = exec_in_txn-Committed third 5 0

-- The commits of this client fail for good.
abbrev failing : Client ℕ Unit ℕ
failing = record {
  begin = λ w. (inr tt, w);
  call = λ txn w. (inr w, suc w);
  commit = λ txn w. (some TikvError.other_error, w);
  rollback = λ txn w. (none, w);
  sleep = λ ms w. w;
}

other_is_final : error_retryable TikvError.other_error ≡ false
unfolding error_retryable
other_is_final = refl

exec_in_txn-commit_error_example :
    ((exec_in_txn failing 4 none 0).0 ≡ inl retry_count_exceeded)
    × ((exec_in_txn failing 4 none 0).1 ≡ 4)
exec_in_txn-commit_error_example =
    exec_in_txn-commit_error failing (λ w. w) TikvError.other_error other_is_final
      (λ w. (tt, w, refl, refl)) (λ txn w. (w, suc w, refl, refl)) (λ txn w. (w, refl, refl))
      (λ ms w. refl) 4 0
