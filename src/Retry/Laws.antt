-- ===== src/Retry/Laws.antt =====
-- What `exec_in_txn` promises of its result.
use tidis.Base.{
  ℕ, zero, suc, ◌+◌, ◌*◌, ◌≡◌, ◌∙◌, refl, Bool, true, false, Option, none, some, ◌⊎◌, inl, inr,
  ◌==◌, min, arith,
}
use tidis.Retry.{
  TikvError, RtError, tikv_client, retry_count_exceeded, fixed, owned, error_retryable, Client,
  retry, after_commit, after_rollback, after_call, after_begin, attempts, exec_in_txn,
}

-- What holds in both cases of a test.
either_case :
    {X : Type 0} (P : X → Type 0) (b : Bool) (x y : X)
    → P x
    → P y
    → P (elim b [ true ↦ x | false ↦ y ])
either_case P true x y h k = h
either_case P false x y h k = k

module _ {World Txn A : Type 0} (client : Client World Txn A) where
  -- A result was given by the closure in a transaction that was committed right after it.
  abbrev pub Committed : (RtError ⊎ A) × World → Type 0
  Committed (inl e, w) = Unit
  Committed (inr result, w) =
      (txn : Txn) × (before : World) × (after : World) × (client.call txn before
        ≡ (inr result, after))
      × (client.commit txn after ≡ (none, w))

  retry-Committed :
      (e : TikvError) (retries : ℕ) (again : World → (RtError ⊎ A) × World) (w : World)
      → ((w : World) → Committed (again w))
      → Committed (retry client e retries again w)
  unfolding retry
  retry-Committed e retries again w h = either_case Committed (retries == 0) _ _ tt (h w)

  after_commit-Committed :
      (txn : Txn) (before after : World) (result : A) (retries n : ℕ)
      (again : World → (RtError ⊎ A) × World) (committed : Option TikvError × World)
      → client.call txn before ≡ (inr result, after)
      → client.commit txn after ≡ committed
      → ((w : World) → Committed (again w))
      → Committed (after_commit client result retries n again committed)
  unfolding after_commit
  after_commit-Committed txn before after result retries n again (none, w) called e h =
      (txn, before, after, called, e)
  after_commit-Committed txn before after result retries n again (some e, w) called _ h =
      either_case Committed (error_retryable e) _ _ (retry-Committed e retries again w h)
        (h (client.sleep (min (2 + n * 10) 200) w))

  after_rollback-Committed :
      (e : RtError) (retries : ℕ) (again : World → (RtError ⊎ A) × World)
      (rolled : Option TikvError × World)
      → ((w : World) → Committed (again w))
      → Committed (after_rollback client e retries again rolled)
  unfolding after_rollback
  after_rollback-Committed e retries again (some failure, w) h = tt
  after_rollback-Committed (tikv_client e) retries again (none, w) h =
      either_case Committed (error_retryable e) _ _ (retry-Committed e retries again w h) tt
  after_rollback-Committed (fixed e) retries again (none, w) h = tt
  after_rollback-Committed (owned e) retries again (none, w) h = tt

  after_call-Committed :
      (txn : Txn) (before : World) (retries n : ℕ) (again : World → (RtError ⊎ A) × World)
      (called : (RtError ⊎ A) × World)
      → client.call txn before ≡ called
      → ((w : World) → Committed (again w))
      → Committed (after_call client txn retries n again called)
  unfolding after_call
  after_call-Committed txn before retries n again (inr result, w) e h =
      after_commit-Committed txn before w result retries n again (client.commit txn w) e refl h
  after_call-Committed txn before retries n again (inl failure, w) e h =
      after_rollback-Committed failure retries again (client.rollback txn w) h

  after_begin-Committed :
      (retries n : ℕ) (again : World → (RtError ⊎ A) × World) (begun : (TikvError ⊎ Txn) × World)
      → ((w : World) → Committed (again w))
      → Committed (after_begin client retries n again begun)
  unfolding after_begin
  after_begin-Committed retries n again (inl e, w) h = retry-Committed e retries again w h
  after_begin-Committed retries n again (inr txn, w) h =
      after_call-Committed txn w retries n again (client.call txn w) refl h

  attempts-Committed : (retries n : ℕ) (w : World) → Committed (attempts client retries n w)
  unfolding attempts
  attempts-Committed zero n w = tt
  attempts-Committed (suc retries) n w =
      after_begin-Committed retries (suc n) (attempts client retries (suc n)) (client.begin w)
        (attempts-Committed retries (suc n))

  -- Where `exec_in_txn` begins its own transactions and gives a result, the closure gave that result in
  -- a transaction, and the last call of the client is the commit of that transaction, which succeeded.
  pub exec_in_txn-Committed :
      (retries : ℕ) (w : World) → Committed (exec_in_txn client retries none w)
  unfolding exec_in_txn
  exec_in_txn-Committed retries w = attempts-Committed retries 0 w

  -- Suppose that every transaction begins, that the closure gives a result in it, which `calls` counts,
  -- and that the commit fails with an error that cannot be retried. Then the closure is called as many
  -- times as there are retries, and the error returned is that the retry count is exceeded, whatever the
  -- error of the commit is.
  pub exec_in_txn-commit_error :
      (calls : World → ℕ) (e : TikvError)
      → error_retryable e ≡ false
      → ((w : World)
          → (txn : Txn) × (w' : World) × (client.begin w ≡ (inr txn, w')) × (calls w' ≡ calls w))
      → ((txn : Txn) (w : World)
          → (result : A) × (w' : World) × (client.call txn w ≡ (inr result, w'))
            × (calls w' ≡ suc (calls w)))
      → ((txn : Txn) (w : World)
          → (w' : World) × (client.commit txn w ≡ (some e, w')) × (calls w' ≡ calls w))
      → ((ms : ℕ) (w : World) → calls (client.sleep ms w) ≡ calls w)
      → (retries : ℕ) (w : World)
      → let (reply, w') = exec_in_txn client retries none w in
        (reply ≡ inl retry_count_exceeded) × (calls w' ≡ calls w + retries)
  unfolding exec_in_txn attempts after_begin after_call after_commit
  exec_in_txn-commit_error calls e final begins gives fails sleeps retries w = run retries 0 w
    where
      run :
          (retries n : ℕ) (w : World)
          → let (reply, w') = attempts client retries n w in
            (reply ≡ inl retry_count_exceeded) × (calls w' ≡ calls w + retries)
      run zero n w = (refl, omega (arith))
      run (suc retries) n w =
          let (txn, w1, begun, c1) = begins w in
          let (result, w2, called, c2) = gives txn w1 in
          let (w3, failed, c3) = fails txn w2 in
          let more = run retries (suc n) (client.sleep (min (2 + suc n * 10) 200) w3) in
          rw (begun) (
            rw (called) (
              rw (failed) (
                rw (final, after_commit)
                  (
                    more.0,
                    more.1 ∙ omega (arith, c1, c2, c3, sleeps (min (2 + suc n * 10) 200) w3),
                  ))))
