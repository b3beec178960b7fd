-- ===== src/TxRepo/Final.antt =====
-- A confirmed transaction stays confirmed with its hash under every write of
-- internal/postgres/transaction_repo.go but `UpdateReconciliationStatus`, which has no guard.
use flowx.Prelude.{
  ℕ, suc, ◌≤◌, ◌≡◌, String, Bool, true, false, ◌&&◌, some, List, [], ◌∷◌, arith, ◌==◌, has,
  nullable, count, count-append, All, string_eq, eq_iff,
}
use flowx.Decimal.{Decimal}
use flowx.Domain.{Transaction}
use flowx.Domain.Status.{TransactionStatus, pending, submitted, confirmed, failed, tx_status_eq}
use flowx.Table.{count-update_where-le}
use flowx.World.{TxRow, World}
use flowx.TxRepo.Quota.{create_with_monthly_limit}
use flowx.TxRepo.{
  upsert_by_tx_hash, create, insert, exec_update, must_affect, claimable, claim_for_submission,
  stuck_submitted, reset_stuck_submitted_to_pending, unconfirmed, update_status, in_flight,
  update_tx_confirmed, update_tx_failed, increment_requeue_count, update_reconciled_at,
  update_reconciliation_status,
}
use flowx.TxRepo.Writes.{
  Write, create_tx, create_limited, upsert, claim, reset_stuck, set_status, confirm, fail,
  set_reconciliation, requeue, mark_reconciled, write, replay,
}

-- Whether a call is `UpdateReconciliationStatus` on the transaction `id`.
abbrev pub overrides : {D : Type 0} → String → Write D → Bool
overrides id (set_reconciliation j s) = j == id
overrides id _ = false

module _ {D : Type 0} ⦃d : Decimal D⦄ (id hash : String) where
  abbrev pub is_confirmed : TxRow D → Bool
  is_confirmed r = (r.id == id) && (r.status == confirmed) && has r.tx_hash hash

  -- How many rows show the transaction confirmed under that hash.
  abbrev pub confirmations : World D → ℕ
  confirmations w = count is_confirmed w.rows

  exec_update-confirmations :
      (p : TxRow D → Bool) (f : TxRow D → TxRow D) (w : World D)
      → ((r : TxRow D) → p r ≡ true → is_confirmed r ≡ true → is_confirmed (f r) ≡ true)
      → confirmations w ≤ confirmations (exec_update p f w).1
  unfolding exec_update
  exec_update-confirmations p f w keep =
      ground (arith, count-update_where-le is_confirmed p f w.rows keep)

  create-confirmations :
      (tenant : String) (t : Transaction D) (w : World D)
      → confirmations w ≤ confirmations (create tenant t w).1
  unfolding create insert
  create-confirmations tenant t w = grind (arith, count-append is_confirmed w.rows)

  limited-confirmations :
      (t : Transaction D) (tenant : String) (start finish limit : ℕ) (w : World D)
      → confirmations w ≤ confirmations (create_with_monthly_limit t tenant start finish limit w).1
  unfolding create_with_monthly_limit insert
  limited-confirmations t tenant start finish limit w =
      grind (arith, count-append is_confirmed w.rows)

  upsert-confirmations :
      (tenant : String) (t : Transaction D) (w : World D)
      → confirmations w ≤ confirmations (upsert_by_tx_hash tenant t w).1
  unfolding upsert_by_tx_hash insert
  upsert-confirmations tenant t w = grind (arith, count-append is_confirmed w.rows)

  update_status-confirmations :
      (tenant j : String) (s : TransactionStatus) (g : String) (w : World D)
      → confirmations w ≤ confirmations (update_status tenant j s g w).1
  unfolding update_status
  update_status-confirmations tenant j s g w = ground (
    arith,
    count-update_where-le is_confirmed (unconfirmed tenant j)
        (λ (r : TxRow D). record r { status = s; tx_hash = nullable g }) w.rows
        (λ r p q. ground arith),
  )

  write-confirmations :
      (x : Write D) (w : World D)
      → overrides id x ≡ false
      → confirmations w ≤ confirmations (write x w)
  unfolding write claim_for_submission update_tx_confirmed reset_stuck_submitted_to_pending
      update_tx_failed increment_requeue_count update_reconciled_at must_affect
      update_reconciliation_status
  write-confirmations (create_tx tenant t) w k = create-confirmations tenant t w
  write-confirmations (create_limited t tenant start finish limit) w k =
      limited-confirmations t tenant start finish limit w
  write-confirmations (upsert tenant t) w k = upsert-confirmations tenant t w
  write-confirmations (claim j) w k = ground (
    arith,
    exec_update-confirmations (claimable j) (λ r. record r { status = submitted }) w
        (λ r p q. ground arith),
  )
  write-confirmations (reset_stuck j age) w k = ground (
    arith,
    exec_update-confirmations (stuck_submitted j age w.now) (λ r. record r { status = pending }) w
        (λ r p q. ground arith),
  )
  write-confirmations (set_status tenant j s g) w k = update_status-confirmations tenant j s g w
  write-confirmations (confirm j g) w k = ground (
    arith,
    exec_update-confirmations (in_flight j)
        (λ r. record r { status = confirmed; tx_hash = nullable g }) w (λ r p q. ground arith),
  )
  write-confirmations (fail j) w k = ground (
    arith,
    exec_update-confirmations (in_flight j) (λ r. record r { status = failed }) w
        (λ r p q. ground arith),
  )
  write-confirmations (set_reconciliation j s) w k = ground (
    arith,
    exec_update-confirmations (λ r. r.id == j) (λ r. record r { status = s }) w
        (λ r p q. ground (arith, eq_iff r.id id, eq_iff r.id j, eq_iff j id)),
  )
  write-confirmations (requeue j) w k = ground (
    arith,
    exec_update-confirmations (λ r. r.id == j)
        (λ r. record r { requeue_count = suc r.requeue_count }) w (λ r p q. ground arith),
  )
  write-confirmations (mark_reconciled j) w k = ground (
    arith,
    exec_update-confirmations (λ r. r.id == j) (λ r. record r { reconciled_at = some w.now }) w
        (λ r p q. ground arith),
  )

  -- No history of writes without an `UpdateReconciliationStatus` on the transaction takes back its
  -- confirmation, or the hash that it is confirmed under: the rows that show both do not get fewer.
  pub confirmed_final :
      (xs : List (Write D)) (w : World D)
      → All (λ x. overrides id x ≡ false) xs
      → confirmations w ≤ confirmations (replay xs w)
  unfolding replay
  confirmed_final [] w k = omega arith
  confirmed_final (x ∷ xs) w k =
      omega (arith, write-confirmations x w k.0, confirmed_final xs (write x w) k.1)
